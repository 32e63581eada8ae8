-- ===== src/Pmap/Boot/VmInit.antt =====
-- vm_init of mm/pmap.c: what the kernel's page directory maps afterwards.
use cse_os.Base.{
  ℕ, suc, ◌+◌, ◌-◌, ◌*◌, ◌/◌, ◌%◌, ◌≤◌, ◌<◌, ◌≡◌, refl, ap, ◌∙◌, sym, true, false, ◌&&◌, arith, leb,
  ltb, ◌==◌, if◌then◌else◌, Bool-cases, inl, inr,
}
use cse_os.Mmu.{word, by2pg, ulim, pdx, ptx, pte_r, upages, uenvs}
use cse_os.Mm.{Mm, ok, zeroed}
use cse_os.Pmap.Boot.{alloc, map_array, vm_init, start, round_to, sizeof_page, sizeof_env}
use cse_os.Pmap.Boot.Alloc.{alloc_lem}
use cse_os.Pmap.Boot.Segment.{entry, table_entry}
use cse_os.Pmap.Boot.Arrays.{round_to-place, Mapped, map_array-Mapped}

in_word : (n : ℕ) → n < word → n % word ≡ n
in_word n h = omega arith

vm_init-runs :
    (end pgdir pages envs : ℕ) (m m₁ m₂ m₃ : Mm)
    → alloc end by2pg by2pg true m ≡ ok pgdir m₁
    → m₁.npage * sizeof_page < word
    → map_array end pgdir upages (m₁.npage * sizeof_page) m₁ ≡ ok pages m₂
    → map_array end pgdir uenvs (1024 * sizeof_env) m₂ ≡ ok envs m₃
    → vm_init end m ≡ ok (pgdir, pages, envs) m₃
unfolding vm_init
vm_init-runs end pgdir pages envs m m₁ m₂ m₃ e₁ small e₂ e₃ =
    rw (e₁, in_word (m₁.npage * sizeof_page) small, e₂, e₃) refl

-- The pages that the page control blocks take.
abbrev pub page_count : Mm → ℕ
page_count m = (m.npage * sizeof_page + by2pg - 1) / by2pg

-- The memory after vm_init: the directory, the two arrays and their tables lie one behind the other
-- from `end` on, the directory is empty but for the entries of UPAGES and UENVS, and their tables map
-- the pages of the arrays in order, for user programs to read, and have no other entry.
pub record KernelMap (end : ℕ) (m : Mm) (pgdir pages envs : ℕ) (m' : Mm) : Type 0 where
  pub pages_table : ℕ
  pub envs_table : ℕ
  pub order :
      (end ≤ pgdir)
      × (pgdir + by2pg ≤ pages)
      × (pages + m.npage * sizeof_page ≤ pages_table)
      × (pages_table + by2pg ≤ envs)
      × (envs + 1024 * sizeof_env ≤ envs_table)
      × (m'.freemem ≡ envs_table + by2pg)
  pub directory :
      (i : ℕ)
      → m'.mem (pgdir + 4 * (i % 1024)) ≡ (
          if i % 1024 == pdx upages
          then table_entry pages_table
          else if i % 1024 == pdx uenvs
          then table_entry envs_table
          else 0)
  pub pages_mapped :
      (j : ℕ)
      → m'.mem (pages_table + 4 * (j % 1024)) ≡ (
          if ltb (j % 1024) (page_count m)
          then entry (pages - ulim + by2pg * (j % 1024)) pte_r
          else 0)
  pub envs_mapped :
      (j : ℕ)
      → m'.mem (envs_table + 4 * (j % 1024))
        ≡ (if ltb (j % 1024) 57 then entry (envs - ulim + by2pg * (j % 1024)) pte_r else 0)

-- The two steps of vm_init after the directory.
Mapped-KernelMap :
    (end pgdir pages t₁ envs t₂ count : ℕ) (m m₁ m₂ m₃ : Mm)
    → end ≤ pgdir
    → start end m₁ ≡ pgdir + by2pg
    → start end m₂ ≡ m₂.freemem
    → ((j : ℕ) → j < 1024 → m₁.mem (pgdir + 4 * j) ≡ 0)
    → suc count ≡ page_count m
    → suc count ≤ 1024
    → m.npage * sizeof_page < word
    → Mapped end pgdir upages (m.npage * sizeof_page) count m₁ pages t₁ m₂
    → Mapped end pgdir uenvs (1024 * sizeof_env) 56 m₂ envs t₂ m₃
    → KernelMap end m pgdir pages envs m₃
Mapped-KernelMap end pgdir pages t₁ envs t₂ count m m₁ m₂ m₃ lo s₁ s₂ empty is_count few small p q =
    record {
      pages_table = t₁;
      envs_table = t₂;
      order = (
        lo,
        omega (arith, p.first, s₁),
        p.second,
        omega (arith, q.first, s₂, p.free),
        q.second,
        q.free,
      );
      directory = λ i. by_slot (i % 1024) (omega arith);
      pages_mapped = λ j. first_table (j % 1024) (omega arith);
      envs_mapped = λ j. second_table (j % 1024) (omega arith);
    }
  where
    first_table :
        (j : ℕ)
        → j < 1024
        → m₃.mem (t₁ + 4 * j)
          ≡ (if ltb j (page_count m) then entry (pages - ulim + by2pg * j) pte_r else 0)
    first_table j h =
        let ne : (t₁ + 4 * j == pgdir + 4 * pdx uenvs) ≡ false =
          ground (arith, p.first, p.second, s₁) in
        q.kept (t₁ + 4 * j) (omega (arith, h, s₂, p.free)) ne
        ∙ elim (Bool-cases (ltb j (page_count m))) [
          | inl t ↦
              let below : j < suc count = ground (arith, is_count, t) in
              let e : t₁ + 4 * ptx upages + 4 * j ≡ t₁ + 4 * j = omega arith in
              ap m₂.mem (sym e) ∙ p.maps j below ∙ rw t refl
          | inr f ↦
              let o : (leb (ptx upages) j && ltb j (ptx upages + suc count)) ≡ false =
                ground (arith, is_count, f) in
              p.rest j h o ∙ rw f refl
        ]

    second_table :
        (j : ℕ)
        → j < 1024
        → m₃.mem (t₂ + 4 * j) ≡ (if ltb j 57 then entry (envs - ulim + by2pg * j) pte_r else 0)
    second_table j h = elim (Bool-cases (ltb j 57)) [
      | inl t ↦
          let e : t₂ + 4 * ptx uenvs + 4 * j ≡ t₂ + 4 * j = omega arith in
          ap m₃.mem (sym e) ∙ q.maps j (ground (arith, t)) ∙ rw t refl
      | inr f ↦
          let o : (leb (ptx uenvs) j && ltb j (ptx uenvs + 57)) ≡ false = ground (arith, f) in
          q.rest j h o ∙ rw f refl
    ]

    by_slot :
        (i : ℕ)
        → i < 1024
        → m₃.mem (pgdir + 4 * i) ≡ (
            if i == pdx upages
            then table_entry t₁
            else if i == pdx uenvs
            then table_entry t₂
            else 0)
    by_slot i h =
        let low : pgdir + 4 * i < start end m₁ = omega (arith, s₁) in
        let low' : pgdir + 4 * i < start end m₂ =
          omega (arith, low, s₂, p.free, p.first, p.second) in
        elim (Bool-cases (i == pdx upages)) [
          | inl e ↦
              let ne : (pgdir + 4 * i == pgdir + 4 * pdx uenvs) ≡ false = ground (arith, e) in
              let at : pgdir + 4 * i ≡ pgdir + 4 * pdx upages = ground (arith, e) in
              q.kept (pgdir + 4 * i) low' ne ∙ ap m₂.mem at ∙ p.slot ∙ rw e refl
          | inr f ↦ elim (Bool-cases (i == pdx uenvs)) [
            | inl e ↦
                let at : pgdir + 4 * i ≡ pgdir + 4 * pdx uenvs = ground (arith, e) in
                ap m₃.mem at ∙ q.slot ∙ rw (f, e) refl
            | inr g ↦
                let ne : (pgdir + 4 * i == pgdir + 4 * pdx uenvs) ≡ false = ground (arith, g) in
                let ne' : (pgdir + 4 * i == pgdir + 4 * pdx upages) ≡ false = ground (arith, f) in
                q.kept (pgdir + 4 * i) low' ne
                ∙ p.kept (pgdir + 4 * i) low ne'
                ∙ empty i h
                ∙ rw (f, g) refl
          ]
        ]

start-running : (end : ℕ) (m : Mm) → 0 < m.freemem → start end m ≡ m.freemem
start-running end m h = let z : (m.freemem == 0) ≡ false = ground (arith, h) in rw z refl

-- The second array, after the first.
map_envs :
    (end pgdir size count pages t₁ : ℕ) (m₁ m₂ : Mm)
    → ulim ≤ end
    → end ≤ pgdir
    → start end m₁ ≡ pgdir + by2pg
    → pgdir < end + by2pg
    → end + size + 1024 * sizeof_env + 10 * by2pg ≤ m₁.maxpa + ulim
    → m₁.maxpa ≤ ulim
    → m₁.maxpa ≤ by2pg * m₁.npage
    → m₁.mem (pgdir + 4 * pdx uenvs) ≡ 0
    → Mapped end pgdir upages size count m₁ pages t₁ m₂
    → (start end m₂ ≡ m₂.freemem)
      × ((a : ℕ) × (t : ℕ) × (m' : Mm) × (map_array end pgdir uenvs (1024 * sizeof_env) m₂
            ≡ ok a m')
          × Mapped end pgdir uenvs (1024 * sizeof_env) 56 m₂ a t m')
map_envs end pgdir size count pages t₁ m₁ m₂ above lo s₁ near room top counted none p =
    let s₂ : start end m₂ ≡ m₂.freemem = start-running end m₂ (omega (arith, p.free)) in
    let ne : (pgdir + 4 * pdx uenvs == pgdir + 4 * pdx upages) ≡ false = ground arith in
    (
      s₂,
      map_array-Mapped end pgdir uenvs (1024 * sizeof_env) 56 m₂
          (omega (arith, s₂, p.free, p.second, p.first, s₁))
          (omega (arith, s₂, p.free, p.close, p.near, s₁, p.same_maxpa))
          (omega (arith, p.same_maxpa)) (omega (arith, p.same_maxpa, p.same_npage)) (omega arith)
          refl (omega arith) (p.kept (pgdir + 4 * pdx uenvs) (omega (arith, s₁)) ne ∙ none)
          (omega (arith, s₂, p.free, p.second, p.first, s₁)) (omega arith),
    )

zeroed-word : (a j : ℕ) (mem : ℕ → ℕ) → j < 1024 → zeroed mem a by2pg (a + 4 * j) ≡ 0
zeroed-word a j mem h =
    let i : (leb a (a + 4 * j) && ltb (a + 4 * j) (a + by2pg)) ≡ true = ground arith in rw i refl

-- With room for the page directory, the two arrays and a table for each, and at most 4 MB of page
-- control blocks, vm_init succeeds: it hands them out one behind the other and leaves a page directory
-- that maps the page control blocks at UPAGES and the environments at UENVS for reading, page by page,
-- and nothing else.
pub vm_init_lem :
    (end : ℕ) (m : Mm)
    → m.freemem ≡ 0
    → ulim ≤ end
    → end + m.npage * sizeof_page + 1024 * sizeof_env + 10 * by2pg ≤ m.maxpa + ulim
    → m.maxpa ≤ ulim
    → m.maxpa ≤ by2pg * m.npage
    → m.npage * sizeof_page ≤ 1024 * by2pg
    → (pgdir : ℕ) × (pages : ℕ) × (envs : ℕ) × (m' : Mm) × (vm_init end m
        ≡ ok (pgdir, pages, envs) m')
      × KernelMap end m pgdir pages envs m'
vm_init_lem end m fresh above room top counted few =
    let s₀ : start end m ≡ end = rw fresh refl in
    let some_page : 0 < m.npage = omega arith in
    let (page, lo, al) =
      alloc_lem end by2pg m (omega (arith, s₀)) (omega (arith, s₀)) top (omega arith) in
    let pgdir = round_to (start end m) by2pg in
    let near : pgdir < end + by2pg =
      omega (arith, (round_to-place (start end m) (omega (arith, s₀))).1, s₀) in
    let m₁ = record m { freemem = pgdir + by2pg; mem = zeroed m.mem pgdir by2pg } in
    let z₁ : (pgdir + by2pg == 0) ≡ false = ground arith in
    let s₁ : start end m₁ ≡ pgdir + by2pg = rw z₁ refl in
    let empty = λ (j : ℕ) (h : j < 1024). zeroed-word pgdir j m.mem h in
    let size = m.npage * sizeof_page in
    let count = page_count m - 1 in
    let whole : round_to size by2pg ≡ by2pg * suc count = omega arith in
    let (pages, t₁, m₂, e₂, p) =
      map_array-Mapped end pgdir upages size count m₁ (omega (arith, s₁, lo, s₀))
        (omega (arith, s₁, near)) top counted (omega arith) whole (omega arith)
        (empty 510 (omega arith)) (omega (arith, s₁)) (omega arith) in
    let (s₂, second) =
      map_envs end pgdir size count pages t₁ m₁ m₂ above (omega (arith, lo, s₀)) s₁ near room top
        counted (empty 509 (omega arith)) p in
    let (envs, t₂, m₃, e₃, q) = second in
    (
      pgdir,
      pages,
      envs,
      m₃,
      vm_init-runs end pgdir pages envs m m₁ m₂ m₃ al (omega arith) e₂ e₃,
      Mapped-KernelMap end pgdir pages t₁ envs t₂ count m m₁ m₂ m₃ (omega (arith, lo, s₀)) s₁ s₂
          empty (omega arith) (omega arith) (omega arith) p q,
    )
