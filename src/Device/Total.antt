-- ===== src/Device/Total.antt =====
-- The units of a resource that lib/rtThread.c accounts for: those available and those allocated.
use cse_os.Base.{
  ℕ, zero, suc, ◌<◌, ◌≡◌, refl, true, Option, none, some, arith, ltb, ◌==◌, Bool-cases, inl, inr,
  ==_iff, ◌∙◌,
}
use cse_os.Mmu.{word}
use cse_os.Device.{
  number_of_customers, number_of_resources, device_list_length, Bank, get_asid_index,
  index_or_register, register_asid, find_asid, rt_require_device, rt_release_device, for_customer,
  require_if, decide, granted, log_call, safe, unsafe, out_of_fuel, Verdict, add32, sub32,
  release_if, minus_one,
}

-- The units of resource n that are available or that a customer holds, as an `int`.
unfoldable pub total : Bank → ℕ → ℕ
total b n = add32 (b.available n) (add32 (b.allocation 0 n) (b.allocation 1 n))

moved : (a x y r : ℕ) → r < word → add32 (sub32 a r) (add32 (add32 x r) y) ≡ add32 a (add32 x y)
moved a x y r h = omega arith

moved_second :
    (a x y r : ℕ) → r < word → add32 (sub32 a r) (add32 x (add32 y r)) ≡ add32 a (add32 x y)
moved_second a x y r h = omega arith

total-log_call : (f : Option ℕ) (k : ℕ) (b : Bank) (n : ℕ) → total (log_call f k b) n ≡ total b n
unfolding total
total-log_call none k b n = refl
total-log_call (some f) k b n = refl

total-granted :
    (b : Bank) (c device request n : ℕ)
    → c < number_of_customers
    → request < word
    → total (granted b c device request) n ≡ total b n
unfolding total
total-granted b zero device request n h small = elim (Bool-cases (n == device)) [
  | inl e ↦ rw (e, (==_iff n device).0 e) (moved _ _ _ request small)
  | inr e ↦ rw e refl
]
total-granted b (suc zero) device request n h small = elim (Bool-cases (n == device)) [
  | inl e ↦ rw (e, (==_iff n device).0 e) (moved_second _ _ _ request small)
  | inr e ↦ rw e refl
]
total-granted b (suc (suc c)) device request n h small = absurd (omega arith)

-- The slot that getAsidIndex gives is a customer's, and the matrices are as before.
Slot : Bank → Option ℕ × Bank → Type 0
Slot b (none, b') = (n : ℕ) → total b' n ≡ total b n
Slot b (some c, b') = (c < number_of_customers) × ((n : ℕ) → total b' n ≡ total b n)

Found : Option ℕ → Type 0
Found none = Unit
Found (some i) = i < number_of_customers

find_asid-Found : (value : ℕ) (list : ℕ → ℕ) → Found (find_asid number_of_customers 0 value list)
unfolding Found
find_asid-Found value list = elim (Bool-cases (list 0 == value)) [
  | inl e ↦ rw e (omega arith)
  | inr e ↦ elim (Bool-cases (list 1 == value)) [
    | inl f ↦ rw (e, f) (omega arith)
    | inr f ↦ rw (e, f) tt
  ]
]

register_asid-Slot :
    (temp : ℕ) (b : Bank) (o : Option ℕ) → Found o → Slot b (register_asid temp b o)
unfolding Found Slot total
register_asid-Slot temp b none h = λ n. refl
register_asid-Slot temp b (some i) h = (h, λ n. refl)

index_or_register-Slot :
    (temp : ℕ) (b : Bank) (o : Option ℕ) → Found o → Slot b (index_or_register temp b o)
unfolding Found Slot total
index_or_register-Slot temp b none h =
    register_asid-Slot temp b _ (find_asid-Found minus_one b.asid_list)
index_or_register-Slot temp b (some i) h = (h, λ n. refl)

get_asid_index-Slot : (asid : ℕ) (b : Bank) → Slot b (get_asid_index asid b)
unfolding get_asid_index
get_asid_index-Slot asid b = index_or_register-Slot _ b _ (find_asid-Found _ b.asid_list)

decide-total :
    (b : Bank) (c device request n : ℕ) (v : Verdict)
    → c < number_of_customers
    → request < word
    → total (decide b c device request v).1 n ≡ total b n
unfolding decide
decide-total b c device request n safe h small =
    total-log_call _ request (granted b c device request) n
    ∙ total-granted b c device request n h small
decide-total b c device request n unsafe h small = refl
decide-total b c device request n out_of_fuel h small = refl

for_customer-total :
    (fuel device request n : ℕ) (b : Bank) (r : Option ℕ × Bank)
    → Slot b r
    → request < word
    → device < number_of_resources
    → total (for_customer fuel device request r).1 n ≡ total b n
unfolding for_customer Slot
for_customer-total fuel device request n b (none, b') h small inside = h n
for_customer-total fuel device request n b (some c, b') h small inside =
    let t : ltb device number_of_resources ≡ true = ground arith in
    rw t (decide-total b' c device request n _ h.0 small ∙ h.1 n)

require_if-total :
    (fuel asid device request n : ℕ) (b : Bank) (o : Option ℕ)
    → request < word
    → device < number_of_resources
    → total (require_if fuel asid device request b o).1 n ≡ total b n
unfolding require_if
require_if-total fuel asid device request n b none small inside = refl
require_if-total fuel asid device request n b (some f) small inside =
    for_customer-total fuel device request n b (get_asid_index asid b) (get_asid_index-Slot asid b)
      small inside

-- For one of the two resources, rt_require_device neither makes nor loses units of a resource, whatever it decides: for each
-- resource the sum, in `int` arithmetic, of what is available and what the customers hold is as
-- before.
pub rt_require_device-total :
    (fuel asid device request n : ℕ) (b : Bank)
    → request < word
    → device < number_of_resources
    → total (rt_require_device fuel asid device request b).1 n ≡ total b n
unfolding rt_require_device
rt_require_device-total fuel asid device request n b small inside =
    let t : ltb device device_list_length ≡ true = ground arith in
    rw t (require_if-total fuel asid device request n b _ small inside)

-- rt_release_device of a registered resource adds what is released to what is available and takes
-- nothing from the customer's allocation, so that the sum of the two grows by it: a task that
-- requires and releases makes units.
pub rt_release_device-total :
    (device request f : ℕ) (b : Bank)
    → device < number_of_resources
    → (b.device_list device).rt_release_device ≡ some f
    → (b' : Bank) × (rt_release_device device request b ≡ some (true, b'))
      × (total b' device ≡ add32 (total b device) request)
unfolding rt_release_device release_if total
rt_release_device-total device request f b small e =
    let g : ltb device number_of_resources ≡ true = ground arith in
    let g' : (device == device) ≡ true = ground arith in
    let t : ltb device device_list_length ≡ true = ground arith in
    (
      (release_if device request b (some f)).1,
      rw (t, e) refl,
      rw (g, g')
          (released (b.available device) (add32 (b.allocation 0 device) (b.allocation 1 device))),
    )
  where
    released : (a x : ℕ) → add32 (add32 a request) x ≡ add32 (add32 a x) request
    released a x = omega arith
