-- ===== src/Strings/Tokens.antt =====
-- strspn, strpbrk and strtok of ushell/user/string.c. NULL is 0, and `none` is a loop that ran out of
-- fuel.
use cse_os.Base.{
  ℕ, zero, suc, ◌+◌, Option, none, some, Bool, true, false, not, ◌||◌, ◌==◌, if◌then◌else◌, update,
}
use cse_os.Strings.{strchr}

-- The inner loop of strspn and strpbrk: whether the byte `c` is in the string `s2`.
unfoldable pub in_set : ℕ → ℕ → ℕ → (ℕ → ℕ) → Option Bool
in_set zero c s2 mem = none
in_set (suc fuel) c s2 mem =
    let rest = in_set fuel c (s2 + 1) mem in
    if mem s2 == 0 then some false else if c == mem s2 then some true else rest

-- strspn from byte `i` on, with `left` bytes at most.
unfoldable pub strspn_from : ℕ → ℕ → ℕ → ℕ → ℕ → (ℕ → ℕ) → Option ℕ
unfolding in_set
strspn_from fuel zero s1 s2 i mem = none
strspn_from fuel (suc left) s1 s2 i mem = elim (in_set fuel (mem (s1 + i)) s2 mem) [
  | none ↦ none
  | some found ↦ elim ((mem (s1 + i) == 0) || not found) [
    | true ↦ some i
    | false ↦ strspn_from fuel left s1 s2 (i + 1) mem
  ]
]

-- strspn
unfoldable pub strspn : ℕ → ℕ → ℕ → (ℕ → ℕ) → Option ℕ
unfolding strspn_from
strspn fuel s1 s2 mem = strspn_from fuel fuel s1 s2 0 mem

unfoldable pub strpbrk_from : ℕ → ℕ → ℕ → ℕ → (ℕ → ℕ) → Option ℕ
unfolding in_set
strpbrk_from fuel zero rt s2 mem = none
strpbrk_from fuel (suc left) rt s2 mem = elim (mem rt == 0) [
  | true ↦ some 0
  | false ↦ elim (in_set fuel (mem rt) s2 mem) [
    | none ↦ none
    | some true ↦ some rt
    | some false ↦ strpbrk_from fuel left (rt + 1) s2 mem
  ]
]

-- strpbrk
unfoldable pub strpbrk : ℕ → ℕ → ℕ → (ℕ → ℕ) → Option ℕ
unfolding strpbrk_from
strpbrk fuel s1 s2 mem = strpbrk_from fuel fuel s1 s2 mem

-- The address of the end of a string, which strchr(s, 0) is meant to give: strchr stops before the
-- end and gives NULL.
abbrev pub null_or : Option ℕ → ℕ
null_or none = 0
null_or (some a) = a

-- The last token, with what strchr gave.
abbrev pub ended : ℕ → (ℕ → ℕ) → Option (Option ℕ) → Option (ℕ × ℕ × (ℕ → ℕ))
ended b_temp mem none = none
ended b_temp mem (some last) = some (b_temp, null_or last, mem)

-- The token at `b_temp`: what is returned, `*temp_str` and the memory.
abbrev pub cut_token : ℕ → ℕ → ℕ → (ℕ → ℕ) → Option (ℕ × ℕ × (ℕ → ℕ))
cut_token fuel b_temp str_arr mem =
    if str_arr == 0
    then ended b_temp mem (strchr fuel b_temp 0 mem)
    else some (b_temp, str_arr + 1, update mem str_arr 0)

-- strtok_inside, with `*temp_str`. strtok calls it with its static variable.
unfoldable pub strtok_inside : ℕ → ℕ → ℕ → ℕ → (ℕ → ℕ) → Option (ℕ × ℕ × (ℕ → ℕ))
unfolding strspn strpbrk strchr
strtok_inside fuel str_arr delimiters temp_str mem =
    let start = if str_arr == 0 then temp_str else str_arr in
    elim (strspn fuel start delimiters mem) [
      | none ↦ none
      | some n ↦ elim (mem (start + n) == 0) [
        | true ↦ some (0, temp_str, mem)
        | false ↦ elim (strpbrk fuel (start + n) delimiters mem) [
          | none ↦ none
          | some stop ↦ cut_token fuel (start + n) stop mem
        ]
      ]
    ]
