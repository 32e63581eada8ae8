-- ===== src/Env/Setup/Windows.antt =====
-- The page directory of env_setup_vm of env/env.c as an address space.
use cse_os.Base.{
  ℕ, ◌^◌, ◌<◌, ◌≡◌, refl, ◌≢◌, ap, ◌∙◌, Bool, true, false, List, ◌∷◌, arith, ◌==◌, Bool-cases, inl,
  inr, ltb, bit_or, has, sym,
}
use cse_os.Base.Bits.{or-page}
use cse_os.Mmu.{utop, vpt, uvpt, pte_v, pte_r, pdx, ppn, is_valid}
use cse_os.Mm.{Mm, ok, page2pa}
use cse_os.Pmap.FreeList.Alloc.{kva, IsFreeList}
use cse_os.Pmap.Tables.Space.{pde, IsSpace, is_window}
use cse_os.Env.Setup.{set_up, pde-set_up, env_setup_vm-ok, npage-set_up}
use cse_os.Env.{env_setup_vm}

false_ne_true : {x : Bool} → x ≡ false → x ≢ true
false_ne_true e t = cc

module _ (m : Mm) (p b : ℕ) (ps : List ℕ) (f : IsFreeList m (p ∷ ps)) where
  -- An entry of the new directory: it is one of the windows, it is empty, or it is the kernel's.
  data Entry (k : ℕ) : Type 0 where
    windowed : is_window k ≡ true → ppn (pde (set_up m p b ps f) p k) ≡ p → Entry k
    empty : pde (set_up m p b ps f) p k ≡ 0 → Entry k
    kernel : pde (set_up m p b ps f) p k ≡ pde m b k → Entry k

  window_pages :
      p < 2 ^ 19
      → (ppn (bit_or (bit_or (page2pa p) pte_v) pte_r) ≡ p) × (ppn (bit_or (page2pa p) pte_v) ≡ p)
  window_pages h =
      let e = or-page (page2pa p) pte_v (omega arith) in
      (omega (arith, or-page (bit_or (page2pa p) pte_v) pte_r (omega arith), e), omega (arith, e))

  an_entry : (k : ℕ) → b ≢ p → k < 1024 → Entry k
  an_entry k ne h =
      let e = pde-set_up m p b ps f k ne h in
      let small : p < 2 ^ 19 = omega (arith, f.within.0, f.small) in
      let (u, v) = window_pages small in
      elim (Bool-cases (k == pdx uvpt)) [
        | inl t ↦ windowed (rw t refl) (ap (λ w. ppn w) e ∙ rw t u)
        | inr t ↦ elim (Bool-cases (k == pdx vpt)) [
          | inl t' ↦ windowed (rw (t, t') refl) (ap (λ w. ppn w) e ∙ rw (t, t') v)
          | inr t' ↦ elim (Bool-cases (ltb k (pdx utop))) [
            | inl z ↦ empty (e ∙ rw (t, t', z) refl)
            | inr z ↦ kernel (e ∙ rw (t, t', z) refl)
          ]
        ]
      ]

  module _ (s : IsSpace m b (p ∷ ps)) where
    in_memory : (k : ℕ) → k < 1024 → Entry k → ppn (pde (set_up m p b ps f) p k) < m.npage
    in_memory k h (windowed w e) = omega (arith, e, f.within.0)
    in_memory k h (empty e) = rw e (omega (arith, f.within.0))
    in_memory k h (kernel e) = rw e (s.table_in k h)

    not_free :
        (k : ℕ)
        → k < 1024
        → is_valid (pde (set_up m p b ps f) p k) ≡ true
        → Entry k
        → has (ppn (pde (set_up m p b ps f) p k)) ps ≡ false
    not_free k h v (windowed w e) = rw e f.distinct.0
    not_free k h v (empty e) = absurd (false_ne_true (ap is_valid e) v)
    not_free k h v (kernel e) = rw e (ground (arith, s.table_used k h (sym (ap is_valid e) ∙ v)))

    not_the_directory :
        (k : ℕ)
        → k < 1024
        → is_window k ≡ false
        → is_valid (pde (set_up m p b ps f) p k) ≡ true
        → Entry k
        → ppn (pde (set_up m p b ps f) p k) ≢ p
    not_the_directory k h nw v (windowed w e) = absurd (false_ne_true nw w)
    not_the_directory k h nw v (empty e) = absurd (false_ne_true (ap is_valid e) v)
    not_the_directory k h nw v (kernel e) =
        rw e (ground (arith, s.table_used k h (sym (ap is_valid e) ∙ v)))

    two_tables :
        (k l : ℕ)
        → k < 1024
        → l < 1024
        → is_valid (pde (set_up m p b ps f) p k) ≡ true
        → is_valid (pde (set_up m p b ps f) p l) ≡ true
        → is_window k ≡ false
        → k ≢ l
        → Entry k
        → Entry l
        → ppn (pde (set_up m p b ps f) p k) ≢ ppn (pde (set_up m p b ps f) p l)
    two_tables k l hk hl vk vl nw ne (windowed w e) el = absurd (false_ne_true nw w)
    two_tables k l hk hl vk vl nw ne (empty e) el = absurd (false_ne_true (ap is_valid e) vk)
    two_tables k l hk hl vk vl nw ne (kernel e) (windowed w e') =
        let apart = not_the_directory k hk nw vk (kernel e) in λ q. apart (q ∙ e')
    two_tables k l hk hl vk vl nw ne (kernel e) (empty e') =
        absurd (false_ne_true (ap is_valid e') vl)
    two_tables k l hk hl vk vl nw ne (kernel e) (kernel e') =
        let apart =
          s.tables_ne k l hk hl (sym (ap is_valid e) ∙ vk) (sym (ap is_valid e') ∙ vl) nw ne in
        rw (e, e') apart

    -- Where the kernel's directory stands for an address space, so does the new one of env_setup_vm,
    -- with the page of the directory no longer free.
    pub env_setup_vm-IsSpace :
        b ≢ p → (n : Mm) × (env_setup_vm (kva b) m ≡ ok (kva p, page2pa p) n) × IsSpace n p ps
    env_setup_vm-IsSpace ne =
        let n = npage-set_up m p b ps f in
        (
          set_up m p b ps f,
          env_setup_vm-ok m p b ps f,
          record {
            dir_in = omega (arith, f.within.0, n);
            dir_used = f.distinct.0;
            small = omega (arith, f.small, n);
            table_in = λ k h. rw n (in_memory k h (an_entry k ne h));
            table_used = λ k h v. not_free k h v (an_entry k ne h);
            table_ne_dir = λ k h nw v. not_the_directory k h nw v (an_entry k ne h);
            tables_ne = λ k l hk hl vk vl nw d.
                two_tables k l hk hl vk vl nw d (an_entry k ne hk) (an_entry l ne hl);
          },
        )
