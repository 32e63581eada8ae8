-- ===== src/Pmap.antt =====
-- mm/pmap.c: physical pages and the page tables of an address space.
pub mod FreeList
pub mod Boot
pub mod Tables
