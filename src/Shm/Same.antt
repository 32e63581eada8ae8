-- ===== src/Shm/Same.antt =====
-- create_share_vm of mm/pmap.c called twice with one key.
use cse_os.Base.{ℕ, ◌^◌, ◌≤◌, ◌<◌, ◌≡◌, ◌∙◌, ap, some, true, false, List, ◌∷◌}
use cse_os.Pmap.FreeList.{set_ref}
use cse_os.Pmap.FreeList.Alloc.{IsFreeList, allocated, page_alloc_lem}
use cse_os.Hash.{hash_func, hash_max_size, holds, stored, is_empty}
use cse_os.Hash.Find.{IsAbsent, find-absent}
use cse_os.Hash.Insert.{FirstGap, find-insert}
use cse_os.Env.{Kernel}
use cse_os.Shm.{shared, create_share_vm, create_if, create_page, recorded}

-- The kernel after the page `x` was created for the key, which goes into element `c`.
abbrev pub created : ℕ → ℕ → ℕ → Kernel → Kernel
created key x c k = record k {
  mm = set_ref x 1 (allocated x k.mm);
  ht = stored k.ht c key (some x);
}

module _ (fuel key x c e : ℕ) (k : Kernel) (xs : List ℕ) (f : IsFreeList k.mm (x ∷ xs))
    (nonneg : key < 2 ^ 31) (absent : IsAbsent k.ht key) (g : FirstGap k.ht key (hash_func key) c)
    (fresh : holds (k.ht.elems c) key (some x) ≡ false) (inside : e < hash_max_size)
    (room : is_empty (k.ht.elems e).stat ≡ true) (enough : hash_max_size ≤ fuel) where
  -- The first create_share_vm with a key below 2 ^ 31 that is absent, while some element of the hash
  -- table is empty, one from the hash on is not live and that one does not hold the new pair already, takes the first free page and gives it one
  -- reference; the next one with the same key finds the same page and changes nothing.
  pub create_share_vm-create_share_vm :
      (create_share_vm fuel key k ≡ shared (some x) (created key x c k))
      × (create_share_vm fuel key (created key x c k) ≡ shared (some x) (created key x c k))
  unfolding create_share_vm create_if create_page
  create_share_vm-create_share_vm =
      let miss = find-absent fuel k.ht key nonneg e absent inside room enough in
      let al = (page_alloc_lem k.mm (x ∷ xs) f).0 in
      let put = find-insert k.ht key c (some x) nonneg g fresh fuel enough in
      (
        ap (create_if key k) miss
            ∙ ap (create_page key k) al
            ∙ ap (recorded x (record k { mm = set_ref x 1 (allocated x k.mm) })) put.0,
        ap (create_if key (created key x c k)) put.1,
      )
