-- ===== src/Shell/Decimal.antt =====
-- Int2String of ushell/user/shell.c against strtol of lib/string.c.
use cse_os.Base.{
  ℕ, zero, suc, ◌+◌, ◌-◌, ◌*◌, ◌/◌, ◌%◌, ◌^◌, ◌≤◌, ◌<◌, ◌≡◌, refl, sym, ◌≢◌, ap, ◌∙◌, some, Bool,
  true, false, ◌&&◌, ◌||◌, arith, leb, ltb, ◌==◌, ==_iff, if◌then◌else◌, Bool-cases, inl, inr,
  update,
}
use cse_os.Mmu.{word}
use cse_os.Strings.Number.{digits, digit, signed, strtol, skip_blanks}
use cse_os.Shell.{negate, write_digits, exchange_all, finish, int_to_string}
use cse_os.Shell.Digits.{quot, Written, write_digits-Written}
use cse_os.Shell.Reverse.{turned, exchange_all-turned}

-- The digits of `n` stand at `a`, the first one first, and the string ends after them.
record Decimal (n a d : ℕ) (mem : ℕ → ℕ) : Type 0 where
  all : quot n d ≡ 0
  digit : (t : ℕ) → t < d → mem (a + (d - 1 - t)) ≡ quot n t % 10 + 48
  pub stop : mem (a + d) ≡ 0

digit-at : (q : ℕ) → digit (q % 10 + 48) ≡ some (q % 10)
digit-at q =
    let lo : (leb 48 (q % 10 + 48) && leb (q % 10 + 48) 57) ≡ true = ground arith in
    rw lo (ap some (omega arith))

digits-step :
    (fuel s val q : ℕ) (mem : ℕ → ℕ)
    → mem s ≡ q % 10 + 48
    → digits (suc fuel) s 10 val mem ≡ digits fuel (s + 1) 10 ((val * 10 + q % 10) % word) mem
unfolding digits
digits-step fuel s val q mem h =
    let small : leb 10 (q % 10) ≡ false = ground arith in rw (digits, h, digit-at q, small) refl

digits-end :
    (fuel s val : ℕ) (mem : ℕ → ℕ) → mem s ≡ 0 → digits (suc fuel) s 10 val mem ≡ some (s, val)
unfolding digits
digits-end fuel s val mem h = rw (digits, h) refl

quot-le : (n k : ℕ) → quot n k ≤ n
quot-le n zero = omega arith
quot-le n (suc k) = omega (arith, quot-le n k)

-- The digits from the `k`-th last one on, after those before, have the value `n`.
digits-Decimal :
    (k fuel s n a d : ℕ) (mem : ℕ → ℕ)
    → Decimal n a d mem
    → n < 2 ^ 31
    → k ≤ d
    → k < fuel
    → s ≡ a + (d - k)
    → digits fuel s 10 (quot n k) mem ≡ some (a + d, n)
digits-Decimal k zero s n a d mem w small le f e = absurd (omega arith)
digits-Decimal zero (suc fuel) s n a d mem w small le f e =
    let e' : s ≡ a + d = omega arith in rw e' (digits-end fuel (a + d) n mem w.stop)
digits-Decimal (suc k) (suc fuel) s n a d mem w small le f e =
    let e' : s ≡ a + (d - 1 - k) = omega arith in
    let v : (quot n k / 10 * 10 + quot n k % 10) % word ≡ quot n k = omega (arith, quot-le n k) in
    digits-step fuel s (quot n k / 10) (quot n k) mem (ap mem e' ∙ w.digit k (omega arith))
    ∙ ap (λ u. digits fuel (s + 1) 10 u mem) v
    ∙ digits-Decimal k fuel (s + 1) n a d mem w small (omega arith) (omega arith) (omega arith)

-- The end of Int2String, after the digits of `n` from the place `a` on, `o` places after `str`.
module _ (n str o a d : ℕ) (mem mem' : ℕ → ℕ) (at : str + o ≡ a) (w : Written n a d mem mem')
    (signs : (mem' str == 45) ≡ (o == 1)) (few : o ≤ 1) where
  ended : ℕ → ℕ
  ended = update mem' (a + d) 0

  result : ℕ → ℕ
  result = exchange_all (d / 2) o (d + o + o) str ended

  ended-digit : (t : ℕ) → t < d → ended (a + t) ≡ quot n t % 10 + 48
  unfolding ended
  ended-digit t h = let ne : (a + t == a + d) ≡ false = ground arith in rw ne (w.digit t h)

  result-at :
      (b : ℕ)
      → result b ≡ (if turned a d 0 (d / 2) b then ended (a + (d - 1 - (b - a))) else ended b)
  unfolding result
  result-at b =
      let z : 0 + o ≡ o = omega arith in
      ap (λ j. exchange_all (d / 2) j (d + o + o) str ended b) (sym z)
      ∙ exchange_all-turned str o a d at (d / 2) 0 b ended (omega arith)
          (λ u h. omega (arith, ended-digit u h))

  result-Decimal : Decimal n a d result
  unfolding ended
  result-Decimal = record { all = w.all; digit = by_place; stop = after }
    where
      by_place : (t : ℕ) → t < d → result (a + (d - 1 - t)) ≡ quot n t % 10 + 48
      by_place t h =
          let b = a + (d - 1 - t) in
          elim (Bool-cases (turned a d 0 (d / 2) b)) [
            | inl i ↦
                let m : a + (d - 1 - (b - a)) ≡ a + t = omega arith in
                result-at b ∙ rw (i, m) (ended-digit t h)
            | inr i ↦
                let m : b ≡ a + t = ground (arith, i) in
                result-at b ∙ rw i (ap ended m ∙ ended-digit t h)
          ]

      after : result (a + d) ≡ 0
      after =
          let out : turned a d 0 (d / 2) (a + d) ≡ false = ground arith in
          let here : (a + d == a + d) ≡ true = (==_iff (a + d) (a + d)).1 refl in
          result-at (a + d) ∙ rw (out, here) refl

  finish-result : finish str (some (a + d, mem')) ≡ some result
  unfolding result ended
  finish-result =
      let ne : (str == a + d) ≡ false = ground (arith, w.some_digit) in
      let j : (if o == 1 then 1 else 0) ≡ o = ground arith in
      let i : a + d - str + o ≡ d + o + o = omega arith in
      let c : (d + o + o) / 2 - o ≡ d / 2 = omega arith in
      let run = λ (j i : ℕ). some (exchange_all (i / 2 - j) j i str (update mem' (a + d) 0)) in
      rw (ne, signs)
        (ap (λ k. run k (a + d - str + k)) j
          ∙ ap (run o) i
          ∙ ap (λ k. some (exchange_all k o (d + o + o) str (update mem' (a + d) 0))) c)

  result-outside : (b : ℕ) → (leb a b && leb b (a + d)) ≡ false → result b ≡ mem b
  unfolding ended
  result-outside b out =
      let o : turned a d 0 (d / 2) b ≡ false = ground (arith, out) in
      let ne : (b == a + d) ≡ false = ground (arith, out) in
      let r : (leb a b && ltb b (a + d)) ≡ false = ground (arith, out) in
      result-at b ∙ rw (o, ne) (w.rest b r)

skip_blanks-none :
    (fuel s : ℕ) (mem : ℕ → ℕ)
    → ((mem s == 32) || (mem s == 9)) ≡ false
    → 0 < fuel
    → skip_blanks fuel s mem ≡ some s
unfolding skip_blanks
skip_blanks-none zero s mem h f = absurd (omega arith)
skip_blanks-none (suc fuel) s mem h f = rw (skip_blanks, h) refl

digits-all :
    (fuel n a d : ℕ) (mem : ℕ → ℕ)
    → Decimal n a d mem
    → n < 2 ^ 31
    → d < fuel
    → digits fuel a 10 0 mem ≡ some (a + d, n)
digits-all fuel n a d mem w small f =
    ap (λ v. digits fuel a 10 v mem) (sym w.all)
    ∙ digits-Decimal d fuel a n a d mem w small (omega arith) f (omega arith)

strtol-minus :
    (fuel s n d : ℕ) (mem : ℕ → ℕ)
    → Decimal n (s + 1) d mem
    → mem s ≡ 45
    → n < 2 ^ 31
    → d < fuel
    → strtol fuel s 10 mem ≡ some (s + 1 + d, (word - n) % word)
unfolding strtol
strtol-minus fuel s n d mem w minus small f =
    let skip = skip_blanks-none fuel s mem (rw minus refl) (omega arith) in
    rw (strtol, skip, minus) (ap (signed true) (digits-all fuel n (s + 1) d mem w small f))

strtol-plain :
    (fuel s n d : ℕ) (mem : ℕ → ℕ)
    → Decimal n s d mem
    → 0 < d
    → n < 2 ^ 31
    → d < fuel
    → strtol fuel s 10 mem ≡ some (s + d, n)
unfolding strtol
strtol-plain fuel s n d mem w pos small f =
    let e : s + (d - 1 - (d - 1)) ≡ s = omega arith in
    let c : mem s ≡ quot n (d - 1) % 10 + 48 = ap mem (sym e) ∙ w.digit (d - 1) (omega arith) in
    let blank : ((mem s == 32) || (mem s == 9)) ≡ false = ground (arith, c) in
    let plus : (mem s == 43) ≡ false = ground (arith, c) in
    let minus : (mem s == 45) ≡ false = ground (arith, c) in
    rw (strtol, skip_blanks-none fuel s mem blank (omega arith), plus, minus)
      (ap (signed false) (digits-all fuel n s d mem w small f))

-- What Int2String leaves of `num` at `str`: a string with its own end, which strtol reads back, in at
-- most twelve bytes.
pub record ReadsBack (fuel num str : ℕ) (mem mem' : ℕ → ℕ) : Type 0 where
  pub len : ℕ
  pub read : strtol fuel str 10 mem' ≡ some (str + len, num)
  pub stop : mem' (str + len) ≡ 0
  pub fits : len ≤ 11
  pub kept : (b : ℕ) → mem' b ≡ (if leb str b && leb b (str + len) then mem' b else mem b)

after_minus : (str d : ℕ) → (leb (str + 1) str && ltb str (str + 1 + d)) ≡ false
after_minus str d = ground arith

after_minus' : (str d : ℕ) → (leb (str + 1) str && leb str (str + 1 + d)) ≡ false
after_minus' str d = ground arith

outside_string :
    (str d b : ℕ)
    → (leb str b && leb b (str + (d + 1))) ≡ false
    → ((leb (str + 1) b && leb b (str + 1 + d)) ≡ false) × ((b == str) ≡ false)
outside_string str d b h = (ground arith, ground arith)

if_outside : (b : Bool) (x y : ℕ) → (b ≡ false → x ≡ y) → x ≡ (if b then x else y)
if_outside true x y h = refl
if_outside false x y h = h refl

minus-ReadsBack :
    (fuel num n str d : ℕ) (mem m' : ℕ → ℕ)
    → (word - n) % word ≡ num
    → n < 2 ^ 31
    → Written n (str + 1) d (update mem str 45) m'
    → d ≤ 10
    → 12 ≤ fuel
    → (r : ℕ → ℕ) × (finish str (some (str + 1 + d, m')) ≡ some r) × ReadsBack fuel num str mem r
minus-ReadsBack fuel num n str d mem m' back small w le enough =
    let m = update mem str 45 in
    let here : (str == str) ≡ true = (==_iff str str).1 refl in
    let first : m' str ≡ 45 = w.rest str (after_minus str d) ∙ rw here refl in
    let signs : (m' str == 45) ≡ (1 == 1) = rw first refl in
    let few : 1 ≤ 1 = omega arith in
    let r = result n str 1 (str + 1) d m m' refl w signs few in
    let dec = result-Decimal n str 1 (str + 1) d m m' refl w signs few in
    let outside = result-outside n str 1 (str + 1) d m m' refl w signs few in
    let minus : r str ≡ 45 = outside str (after_minus' str d) ∙ rw here refl in
    let at_end : str + 1 + d ≡ str + (d + 1) = omega arith in
    (
      r,
      finish-result n str 1 (str + 1) d m m' refl w signs few,
      record {
        len = d + 1;
        read =
            strtol-minus fuel str n d r dec minus small (omega arith)
            ∙ ap (λ b. some (b, (word - n) % word)) at_end
            ∙ ap (λ v. some (str + (d + 1), v)) back;
        stop = ap r (sym at_end) ∙ dec.stop;
        fits = omega arith;
        kept = λ b.
            if_outside (leb str b && leb b (str + (d + 1))) (r b) (mem b)
              (λ h. let (o, ne) = outside_string str d b h in outside b o ∙ rw ne refl);
      },
    )

plain-ReadsBack :
    (fuel num str d : ℕ) (mem m' : ℕ → ℕ)
    → num < 2 ^ 31
    → Written num str d mem m'
    → d ≤ 10
    → 12 ≤ fuel
    → (r : ℕ → ℕ) × (finish str (some (str + d, m')) ≡ some r) × ReadsBack fuel num str mem r
plain-ReadsBack fuel num str d mem m' small w le enough =
    let z : str + 0 ≡ str = omega arith in
    let first : m' str ≡ num % 10 + 48 = ap m' (sym z) ∙ w.digit 0 w.some_digit in
    let signs : (m' str == 45) ≡ (0 == 1) = ground (arith, first) in
    let few : 0 ≤ 1 = omega arith in
    let r = result num str 0 str d mem m' z w signs few in
    let dec = result-Decimal num str 0 str d mem m' z w signs few in
    (
      r,
      finish-result num str 0 str d mem m' z w signs few,
      record {
        len = d;
        read = strtol-plain fuel str num d r dec w.some_digit small (omega arith);
        stop = dec.stop;
        fits = omega arith;
        kept = λ b.
            if_outside (leb str b && leb b (str + d)) (r b) (mem b)
              (result-outside num str 0 str d mem m' z w signs few b);
      },
    )

int_to_string-sign :
    (fuel num str : ℕ) (mem : ℕ → ℕ) (b : Bool)
    → leb (2 ^ 31) num ≡ b
    → int_to_string fuel num str mem ≡ (
        if b
        then finish str (write_digits fuel (negate num) (str + 1) (update mem str 45))
        else finish str (write_digits fuel num str mem))
unfolding int_to_string
int_to_string-sign fuel num str mem b e = rw e refl

minus_case :
    (fuel num str : ℕ) (mem : ℕ → ℕ)
    → num < word
    → 2 ^ 31 < num
    → 12 ≤ fuel
    → (mem' : ℕ → ℕ) × (int_to_string 10 num str mem ≡ some mem') × ReadsBack fuel num str mem mem'
minus_case fuel num str mem below neg enough =
    let small : negate num < 2 ^ 31 = omega arith in
    let (d, m', e, w, le) =
      write_digits-Written 10 (negate num) (str + 1) (update mem str 45) small (omega arith)
        (omega arith) in
    let (r, f, back) =
      minus-ReadsBack fuel num (negate num) str d mem m' (omega arith) small w le enough in
    (r, int_to_string-sign 10 num str mem true (ground arith) ∙ ap (finish str) e ∙ f, back)

plain_case :
    (fuel num str : ℕ) (mem : ℕ → ℕ)
    → num < 2 ^ 31
    → 12 ≤ fuel
    → (mem' : ℕ → ℕ) × (int_to_string 10 num str mem ≡ some mem') × ReadsBack fuel num str mem mem'
plain_case fuel num str mem small enough =
    let (d, m', e, w, le) = write_digits-Written 10 num str mem small (omega arith) (omega arith) in
    let (r, f, back) = plain-ReadsBack fuel num str d mem m' small w le enough in
    (r, int_to_string-sign 10 num str mem false (ground arith) ∙ ap (finish str) e ∙ f, back)

-- Every `int` but the smallest one, printed by Int2String with ten rounds for its digits, is read back
-- by strtol in base 10 on fuel of twelve rounds, which stops at the byte 0 after the last digit; the string with its end has
-- at most twelve bytes, and every other byte of memory stays as it is.
pub int_to_string-strtol :
    (fuel num str : ℕ) (mem : ℕ → ℕ)
    → num < word
    → num ≢ 2 ^ 31
    → 12 ≤ fuel
    → (mem' : ℕ → ℕ) × (int_to_string 10 num str mem ≡ some mem') × ReadsBack fuel num str mem mem'
int_to_string-strtol fuel num str mem below ne enough = elim (Bool-cases (leb (2 ^ 31) num)) [
  | inl t ↦ minus_case fuel num str mem below (ground (arith, t)) enough
  | inr f ↦ plain_case fuel num str mem (ground (arith, f)) enough
]
