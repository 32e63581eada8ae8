-- ===== src/Device.antt =====
-- lib/rtThread.c: devices registered with their drivers' functions, and the banker's algorithm that
-- decides on a task's request. An `int` or `u32` is its 32-bit pattern. A driver's function is a
-- number that names it, and the calls of drivers are kept in the order in which they are made, the
-- latest first; what a driver then does is not part of the model.
pub mod Safety
pub mod Grant
pub mod Total
mod Tests
use cse_os.Base.{
  ℕ, zero, suc, ◌+◌, ◌-◌, ◌%◌, ◌^◌, Bool, true, false, not, ◌&&◌, Option, none, some, List, ◌∷◌,
  ltb, leb, ◌==◌, if◌then◌else◌, update,
}
use cse_os.Mmu.{word}

abbrev pub number_of_customers : ℕ
number_of_customers = 2

abbrev pub number_of_resources : ℕ
number_of_resources = 2

-- The length of device_list.
abbrev pub device_list_length : ℕ
device_list_length = 10

-- `int` arithmetic and comparison on patterns.
abbrev pub add32 : ℕ → ℕ → ℕ
add32 a b = (a + b) % word

abbrev pub sub32 : ℕ → ℕ → ℕ
sub32 a b = (a + word - b) % word

abbrev pub signed_lt : ℕ → ℕ → Bool
signed_lt a b = ltb ((a + 2 ^ 31) % word) ((b + 2 ^ 31) % word)

abbrev pub minus_one : ℕ
minus_one = word - 1

-- `struct rt_device`: the fields that the code uses. `none` is a NULL function pointer.
pub record RtDevice : Type 0 where
  pub device_num : ℕ
  pub rt_device_read : Option ℕ
  pub rt_device_write : Option ℕ
  pub rt_device_write_byte : Option ℕ
  pub rt_device_write_by_num : Option ℕ
  pub rt_device_read_by_num : Option ℕ
  pub rt_require_device : Option ℕ
  pub rt_release_device : Option ℕ

-- A call of a driver's function with its number.
pub record Call : Type 0 where
  pub function : ℕ
  pub count : ℕ

-- The static variables of the file. Arrays are functions of the index.
pub record Bank : Type 0 where
  pub device_list : ℕ → RtDevice
  pub nres : ℕ
  pub all_devices : ℕ → ℕ
  pub available : ℕ → ℕ
  pub maximum : ℕ → ℕ → ℕ
  pub allocation : ℕ → ℕ → ℕ
  pub need : ℕ → ℕ → ℕ
  pub status : ℕ → ℕ
  pub asid_list : ℕ → ℕ
  pub calls : List Call

abbrev pub update2 : (ℕ → ℕ → ℕ) → ℕ → ℕ → ℕ → ℕ → ℕ → ℕ
update2 f c d v i j = if (i == c) && (j == d) then v else f i j

-- asid_list_init
unfoldable pub asid_list_init : Bank → Bank
asid_list_init b = record b {
  asid_list = λ i. if ltb i number_of_customers then minus_one else b.asid_list i;
}

-- The first of the `left` customers from `i` on whose entry in asid_list is `value`.
abbrev pub find_asid : ℕ → ℕ → ℕ → (ℕ → ℕ) → Option ℕ
find_asid zero i value list = none
find_asid (suc left) i value list =
    let rest = find_asid left (i + 1) value list in if list i == value then some i else rest

abbrev register_asid : ℕ → Bank → Option ℕ → Option ℕ × Bank
register_asid temp b none = (none, b)
register_asid temp b (some i) = (some i, record b { asid_list = update b.asid_list i temp })

abbrev index_or_register : ℕ → Bank → Option ℕ → Option ℕ × Bank
index_or_register temp b (some i) = (some i, b)
index_or_register temp b none =
    register_asid temp b (find_asid number_of_customers 0 minus_one b.asid_list)

-- getAsidIndex for the address space `asid`; `none` is the return of -1.
unfoldable pub get_asid_index : ℕ → Bank → Option ℕ × Bank
get_asid_index asid b =
    let temp = asid % 256 in
    index_or_register temp b (find_asid number_of_customers 0 temp b.asid_list)

-- One customer can finish: none of the `left` resources from `n` on is short.
abbrev pub can_finish : ℕ → ℕ → (ℕ → ℕ) → (ℕ → ℕ) → Bool
can_finish zero n need available = true
can_finish (suc left) n need available =
    not (signed_lt (available n) (need n)) && can_finish left (n + 1) need available

-- What one pass over the customers finds: one that can finish, or none, with the number of those
-- that had finished.
pub data Scan : Type 0 where
  finisher : ℕ → Scan
  nobody : ℕ → Scan

unfoldable pub scan : ℕ → ℕ → ℕ → (ℕ → ℕ) → (ℕ → ℕ → ℕ) → (ℕ → ℕ) → Scan
scan zero ptr count status need available = nobody count
scan (suc left) ptr count status need available =
    let rest = scan left (ptr + 1) count status need available in
    let counted = scan left (ptr + 1) (count + 1) status need available in
    if status ptr == 1
    then counted
    else if can_finish number_of_resources 0 (need ptr) available
    then finisher ptr
    else rest

-- A finished customer gives back what it holds.
abbrev pub give_back : ℕ → ℕ → (ℕ → ℕ) → (ℕ → ℕ) → ℕ → ℕ
give_back zero n allocation available = available
give_back (suc left) n allocation available =
    give_back left (n + 1) allocation (update available n (add32 (available n) (allocation n)))

pub data Verdict : Type 0 where
  safe unsafe out_of_fuel : Verdict

-- The `while (1)` of rt_require_device.
unfoldable pub safety : ℕ → (ℕ → ℕ) → (ℕ → ℕ → ℕ) → (ℕ → ℕ → ℕ) → (ℕ → ℕ) → Verdict
unfolding scan
safety zero status need allocation available = out_of_fuel
safety (suc fuel) status need allocation available =
    elim (scan number_of_customers 0 0 status need available) [
      | finisher ptr ↦
          safety fuel (update status ptr 1) need allocation
            (give_back number_of_resources 0 (allocation ptr) available)
      | nobody count ↦ if leb number_of_customers count then safe else unsafe
    ]

-- The first check of a request, which decides only whether the allocation is simulated.
abbrev pub within_limits : Bank → ℕ → ℕ → ℕ → Bool
within_limits b customer device request =
    leb request (b.need customer device) && leb request (b.available device)

-- The matrices with the request granted.
abbrev pub granted : Bank → ℕ → ℕ → ℕ → Bank
granted b customer device request = record b {
  need = update2 b.need customer device (sub32 (b.need customer device) request);
  allocation = update2 b.allocation customer device (add32 (b.allocation customer device) request);
  available = update b.available device (sub32 (b.available device) request);
}

-- The state on which the safety check runs.
abbrev pub simulated : Bank → ℕ → ℕ → ℕ → Bank
simulated b customer device request =
    if within_limits b customer device request then granted b customer device request else b

abbrev pub verdict : ℕ → Bank → Verdict
verdict fuel b = safety fuel b.status b.need b.allocation b.available

abbrev pub log_call : Option ℕ → ℕ → Bank → Bank
log_call none n b = b
log_call (some f) n b = record b { calls = record { function = f; count = n } ∷ b.calls }

-- The labels `assign` and `exit` of rt_require_device.
decide : Bank → ℕ → ℕ → ℕ → Verdict → Option Bool × Bank
decide b customer device request safe = (
  some true,
  log_call (b.device_list device).rt_require_device request (granted b customer device request),
)
decide b customer device request unsafe = (some false, b)
decide b customer device request out_of_fuel = (none, b)

for_customer : ℕ → ℕ → ℕ → Option ℕ × Bank → Option Bool × Bank
unfolding decide
for_customer fuel device request (none, b) = (some false, b)
for_customer fuel device request (some customer, b) =
    if ltb device number_of_resources
    then decide b customer device request (verdict fuel (simulated b customer device request))
    else (none, b)

require_if : ℕ → ℕ → ℕ → ℕ → Bank → Option ℕ → Option Bool × Bank
unfolding for_customer
require_if fuel asid device request b none = (some false, b)
require_if fuel asid device request b (some f) =
    for_customer fuel device request (get_asid_index asid b)

-- rt_require_device called in the address space `asid`; `none` says that the fuel ran out, or that
-- the code goes beyond the end of an array, since it does not check `device`.
unfoldable pub rt_require_device : ℕ → ℕ → ℕ → ℕ → Bank → Option Bool × Bank
unfolding require_if
rt_require_device fuel asid device request b =
    if ltb device device_list_length
    then require_if fuel asid device request b (b.device_list device).rt_require_device
    else (none, b)

release_if : ℕ → ℕ → Bank → Option ℕ → Bool × Bank
release_if device request b none = (false, b)
release_if device request b (some f) =
    let c = log_call (some f) request b in
    (
      true,
      if ltb device number_of_resources
          then record c {
            available = update c.available device (add32 (c.available device) request);
          }
          else c,
    )

-- rt_release_device; `none` is an access beyond the end of device_list.
unfoldable pub rt_release_device : ℕ → ℕ → Bank → Option (Bool × Bank)
unfolding release_if
rt_release_device device request b =
    if ltb device device_list_length
    then some (release_if device request b (b.device_list device).rt_release_device)
    else none

-- rt_device_init; `dev` holds the function pointers that are passed. The field device_num is a byte.
-- `none` is an access beyond the end of device_list.
unfoldable pub rt_device_init : ℕ → RtDevice → ℕ → Bank → Option (Bool × Bank)
rt_device_init device dev num b =
    let c = record b {
      device_list = update b.device_list device (record dev { device_num = num % 256 });
      nres = (b.nres + 1) % word;
    } in
    if not (ltb device device_list_length)
    then none
    else some (
      true,
      if ltb device number_of_resources
          then record c {
            available = update c.available device num;
            all_devices = update c.all_devices device num;
          }
          else c,
    )

-- A wrapper of a driver's function returns false, calls a function, calls through NULL, or reads
-- beyond the end of device_list.
pub data Dispatch : Type 0 where
  refused : Dispatch
  calls : ℕ → Dispatch
  calls_null : Dispatch
  beyond : Dispatch

-- Entry `device` of device_list.
abbrev pub in_list : ℕ → Dispatch → Dispatch
in_list device d = if ltb device device_list_length then d else beyond

-- `checked` is the pointer that is compared with NULL, `called` the one that is called.
abbrev pub dispatch : Option ℕ → Option ℕ → Dispatch
dispatch none called = refused
dispatch (some g) none = calls_null
dispatch (some g) (some f) = calls f

unfoldable pub rt_device_write : ℕ → Bank → Dispatch
rt_device_write device b =
    in_list device
      (dispatch (b.device_list device).rt_device_write (b.device_list device).rt_device_write)

unfoldable pub rt_device_write_byte : ℕ → Bank → Dispatch
rt_device_write_byte device b =
    in_list device
      (dispatch (b.device_list device).rt_device_write (b.device_list device).rt_device_write_byte)

unfoldable pub rt_device_read : ℕ → Bank → Dispatch
rt_device_read device b =
    in_list device
      (dispatch (b.device_list device).rt_device_read (b.device_list device).rt_device_read)

unfoldable pub rt_device_write_by_num : ℕ → Bank → Dispatch
rt_device_write_by_num device b = in_list device (
    dispatch (b.device_list device).rt_device_write_by_num
      (b.device_list device).rt_device_write_by_num)

unfoldable pub rt_device_read_by_num : ℕ → Bank → Dispatch
rt_device_read_by_num device b = in_list device (
    dispatch (b.device_list device).rt_device_read_by_num
      (b.device_list device).rt_device_read_by_num)

-- The loop of rt_claim_device over the resources.
abbrev pub claim_from : ℕ → ℕ → ℕ → (ℕ → ℕ) → Bank → Bank
claim_from zero i index require b = b
claim_from (suc left) i index require b = claim_from left (i + 1) index require (record b {
  need = update2 b.need index i (require i);
  maximum = update2 b.maximum index i (require i);
  allocation = update2 b.allocation index i 0;
})

claim_for : (ℕ → ℕ) → Option ℕ × Bank → Option Bank
claim_for require (none, b) = none
claim_for require (some index, b) =
    let c = claim_from number_of_resources 0 index require b in
    some (record c { status = update c.status index 0 })

-- rt_claim_device; `none` is the access before the start of the arrays, at index -1.
unfoldable pub rt_claim_device : ℕ → (ℕ → ℕ) → Bank → Option Bank
unfolding claim_for
rt_claim_device asid require b = claim_for require (get_asid_index asid b)

exit_for : Option ℕ × Bank → Option Bank
exit_for (none, b) = none
exit_for (some index, b) = some (record b { asid_list = update b.asid_list index minus_one })

-- rt_task_exit; `none` is the access at index -1.
unfoldable pub rt_task_exit : ℕ → Bank → Option Bank
unfolding exit_for
rt_task_exit asid b = exit_for (get_asid_index asid b)
