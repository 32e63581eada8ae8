-- ===== src/Device/Safety.antt =====
-- The safety check of rt_require_device: it ends within three rounds, and when it says that a state
-- is safe, the customers can finish one after another.
use cse_os.Base.{
  ℕ, zero, suc, ◌+◌, ◌%◌, ◌^◌, refl, ◌≤◌, ◌<◌, ◌≡◌, ◌≢◌, true, false, arith, leb, ◌==◌,
  if◌then◌else◌, Bool-cases, inl, inr, ap, ==_iff, update, ◌∙◌,
}
use cse_os.Mmu.{word}
use cse_os.Device.{
  number_of_customers, number_of_resources, signed_lt, Scan, finisher, nobody, scan, can_finish,
  give_back, Verdict, safe, unsafe, out_of_fuel, safety,
}

-- The order of `int`s on their patterns.
abbrev pub IntLe : ℕ → ℕ → Type 0
IntLe a b = (a + 2 ^ 31) % word ≤ (b + 2 ^ 31) % word

-- What is available covers the need for each resource; it falls short of the need for one.
abbrev pub Covers : (ℕ → ℕ) → (ℕ → ℕ) → Type 0
Covers need available = (r : ℕ) → r < number_of_resources → IntLe (need r) (available r)

abbrev pub Short : (ℕ → ℕ) → (ℕ → ℕ) → Type 0
Short need available =
    (r : ℕ) × (r < number_of_resources) × ((available r + 2 ^ 31) % word < (need r + 2 ^ 31) % word)

-- `after` is what is available once what is held has been given back.
abbrev pub GivenBack : (ℕ → ℕ) → (ℕ → ℕ) → (ℕ → ℕ) → Type 0
GivenBack held available after =
    (r : ℕ) → r < number_of_resources → after r ≡ (available r + held r) % word

-- The customers that have not finished can do so one after another: each, in its turn and once,
-- needs no more than is available, and then gives back what it holds.
pub data CanAllFinish (need allocation : ℕ → ℕ → ℕ) : (ℕ → ℕ) → (ℕ → ℕ) → Type 0 where
  all_finished :
      {available status : ℕ → ℕ}
      → ((c : ℕ) → c < number_of_customers → status c ≡ 1)
      → CanAllFinish need allocation available status
  one_finishes :
      {available after status : ℕ → ℕ} (c : ℕ)
      → c < number_of_customers
      → status c ≢ 1
      → Covers (need c) available
      → GivenBack (allocation c) available after
      → CanAllFinish need allocation after (update status c 1)
      → CanAllFinish need allocation available status

-- Some customer has not finished and none that has not can finish: at once, or after some have.
pub data GetsStuck (need allocation : ℕ → ℕ → ℕ) : (ℕ → ℕ) → (ℕ → ℕ) → Type 0 where
  stuck :
      {available status : ℕ → ℕ} (c : ℕ)
      → c < number_of_customers
      → status c ≢ 1
      → ((j : ℕ) → j < number_of_customers → status j ≢ 1 → Short (need j) available)
      → GetsStuck need allocation available status
  after_one :
      {available after status : ℕ → ℕ} (c : ℕ)
      → c < number_of_customers
      → status c ≢ 1
      → Covers (need c) available
      → GivenBack (allocation c) available after
      → GetsStuck need allocation after (update status c 1)
      → GetsStuck need allocation available status

can_finish-Covers :
    (need available : ℕ → ℕ)
    → can_finish number_of_resources 0 need available ≡ true
    → Covers need available
can_finish-Covers need available e zero h = ground arith
can_finish-Covers need available e (suc zero) h = ground arith
can_finish-Covers need available e (suc (suc r)) h = absurd (omega arith)

can_finish-Short :
    (need available : ℕ → ℕ)
    → can_finish number_of_resources 0 need available ≡ false
    → Short need available
can_finish-Short need available e = elim (Bool-cases (signed_lt (available 0) (need 0))) [
  | inl t ↦ (0, omega arith, ground (arith, t))
  | inr f ↦ (1, omega arith, ground (arith, e, f))
]

give_back-GivenBack :
    (held available : ℕ → ℕ)
    → GivenBack held available (give_back number_of_resources 0 held available)
give_back-GivenBack held available zero h = refl
give_back-GivenBack held available (suc zero) h = refl
give_back-GivenBack held available (suc (suc r)) h = absurd (omega arith)

-- What a pass over the customers from `ptr` on says, with `count` finished before.
abbrev Says : ℕ → ℕ → ℕ → (ℕ → ℕ) → (ℕ → ℕ → ℕ) → (ℕ → ℕ) → Scan → Type 0
Says left ptr count status need available (finisher p) =
    (ptr ≤ p)
    × (p < ptr + left)
    × (status p ≢ 1)
    × (can_finish number_of_resources 0 (need p) available ≡ true)
Says left ptr count status need available (nobody k) =
    (k ≤ count + left)
    × (k ≡ count + left → (c : ℕ) → ptr ≤ c → c < ptr + left → status c ≡ 1)
    × (k ≢ count + left → (c : ℕ) × (ptr ≤ c) × (c < ptr + left) × (status c ≢ 1))
    × ((c : ℕ)
        → ptr ≤ c
        → c < ptr + left
        → status c ≢ 1
        → can_finish number_of_resources 0 (need c) available ≡ false)

module _ (left ptr count : ℕ) (status : ℕ → ℕ) (need : ℕ → ℕ → ℕ) (available : ℕ → ℕ) where
  ne_ptr : (c : ℕ) → ptr ≤ c → status ptr ≡ 1 → status c ≢ 1 → ptr + 1 ≤ c
  ne_ptr c lo e ne = elim (Bool-cases (c == ptr)) [
    | inl t ↦ absurd (ne (ap status ((==_iff c ptr).0 t) ∙ e))
    | inr t ↦ ground arith
  ]

  Says-counted :
      (s : Scan)
      → status ptr ≡ 1
      → Says left (ptr + 1) (count + 1) status need available s
      → Says (suc left) ptr count status need available s
  Says-counted (finisher p) e h = (omega (arith, h.0), omega (arith, h.1), h.2, h.3)
  Says-counted (nobody k) e h = (
    omega (arith, h.0),
    λ f c lo hi. elim (Bool-cases (c == ptr)) [
      | inl t ↦ rw ((==_iff c ptr).0 t) e
      | inr t ↦ h.1 (omega arith) c (ground arith) (omega arith)
    ],
    λ f. let w = h.2 (omega arith) in (w.0, omega (arith, w.1), omega (arith, w.2), w.3),
    λ c lo hi ne. h.3 c (ne_ptr c lo e ne) (omega arith) ne,
  )

  Says-passed :
      (s : Scan)
      → status ptr ≢ 1
      → can_finish number_of_resources 0 (need ptr) available ≡ false
      → Says left (ptr + 1) count status need available s
      → Says (suc left) ptr count status need available s
  Says-passed (finisher p) ne no_way h = (omega (arith, h.0), omega (arith, h.1), h.2, h.3)
  Says-passed (nobody k) ne no_way h = (
    omega (arith, h.0),
    λ f c lo hi. absurd (omega (arith, h.0)),
    λ f. (ptr, omega arith, omega arith, ne),
    λ c lo hi nc. elim (Bool-cases (c == ptr)) [
      | inl t ↦ rw ((==_iff c ptr).0 t) no_way
      | inr t ↦ h.3 c (ground arith) (omega arith) nc
    ],
  )

scan_lem :
    (left ptr count : ℕ) (status : ℕ → ℕ) (need : ℕ → ℕ → ℕ) (available : ℕ → ℕ)
    → Says left ptr count status need available (scan left ptr count status need available)
unfolding scan
scan_lem zero ptr count status need available = (
  omega arith,
  λ e c lo hi. absurd (omega arith),
  λ e. absurd (omega arith),
  λ c lo hi. absurd (omega arith),
)
scan_lem (suc left) ptr count status need available = elim (Bool-cases (status ptr == 1)) [
  | inl e ↦ rw e (
      Says-counted left ptr count status need available
        (scan left (ptr + 1) (count + 1) status need available) ((==_iff _ _).0 e)
        (scan_lem left (ptr + 1) (count + 1) status need available))
  | inr e ↦ elim (Bool-cases (can_finish number_of_resources 0 (need ptr) available)) [
    | inl f ↦ rw (e, f) (omega arith, omega arith, ground arith, f)
    | inr f ↦
        rw (e, f)
          (Says-passed left ptr count status need available
            (scan left (ptr + 1) count status need available) (ground arith) f
            (scan_lem left (ptr + 1) count status need available))
  ]
]

-- How many customers have not finished.
abbrev pub unfinished : (ℕ → ℕ) → ℕ
unfinished status = (if status 0 == 1 then 0 else 1) + (if status 1 == 1 then 0 else 1)

unfinished-update :
    (status : ℕ → ℕ) (p : ℕ)
    → p < number_of_customers
    → status p ≢ 1
    → unfinished (update status p 1) < unfinished status
unfinished-update status zero h ne = ground arith
unfinished-update status (suc zero) h ne = ground arith
unfinished-update status (suc (suc p)) h ne = absurd (omega arith)

module _ (need allocation : ℕ → ℕ → ℕ) where
  -- What each verdict on a state means.
  abbrev pub Justified : (ℕ → ℕ) → (ℕ → ℕ) → Verdict → Type 0
  Justified available status safe = CanAllFinish need allocation available status
  Justified available status unsafe = GetsStuck need allocation available status
  Justified available status out_of_fuel = ⊥

  one_more :
      (available status : ℕ → ℕ) (p : ℕ) (v : Verdict)
      → p < number_of_customers
      → status p ≢ 1
      → can_finish number_of_resources 0 (need p) available ≡ true
      → Justified (give_back number_of_resources 0 (allocation p) available) (update status p 1) v
      → Justified available status v
  one_more available status p safe h ne f j =
      one_finishes p h ne (can_finish-Covers (need p) available f)
        (give_back-GivenBack (allocation p) available) j
  one_more available status p unsafe h ne f j =
      after_one p h ne (can_finish-Covers (need p) available f)
        (give_back-GivenBack (allocation p) available) j
  one_more available status p out_of_fuel h ne f j = j

  -- The verdict of a round from what its scan found.
  judge :
      (fuel : ℕ) (available status : ℕ → ℕ) (s : Scan)
      → Says number_of_customers 0 0 status need available s
      → ((p : ℕ)
          → p < number_of_customers
          → status p ≢ 1
          → Justified
              (give_back number_of_resources 0 (allocation p) available)
              (update status p 1)
              (safety fuel
                (update status p 1)
                need
                allocation
                (give_back number_of_resources 0 (allocation p) available)))
      → Justified available status (elim s [
        | finisher ptr ↦
            safety fuel
              (update status ptr 1)
              need
              allocation
              (give_back number_of_resources 0 (allocation ptr) available)
        | nobody count ↦ if leb number_of_customers count then safe else unsafe
      ])
  judge fuel available status (finisher p) says rest =
      one_more available status p _ says.1 says.2 says.3 (rest p says.1 says.2)
  judge fuel available status (nobody k) says rest = elim (Bool-cases (leb number_of_customers k)) [
    | inl e ↦ rw e (all_finished (λ c h. says.1 (ground (arith, says.0)) c (omega arith) h))
    | inr e ↦
        let w = says.2 (ground arith) in
        rw e (
          stuck w.0 w.2 w.3
            (λ j h ne. can_finish-Short (need j) available (says.3 j (omega arith) h ne)))
  ]

  -- With more rounds than customers that have not finished, the safety check ends; it says "safe"
  -- only if the customers that have not finished can do so one after another, each once, and "unsafe" only if it came, in that way,
  -- to a state in which nobody who has not finished can.
  pub safety_lem :
      (fuel : ℕ) (available status : ℕ → ℕ)
      → unfinished status < fuel
      → Justified available status (safety fuel status need allocation available)
  unfolding safety
  safety_lem zero available status h = absurd (omega arith)
  safety_lem (suc fuel) available status h =
      judge fuel available status (scan number_of_customers 0 0 status need available)
        (scan_lem number_of_customers 0 0 status need available)
        (λ p q ne.
          safety_lem fuel _ (update status p 1) (omega (arith, unfinished-update status p q ne)))
