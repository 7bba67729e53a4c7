-- ===== src/Heap/Links/Same.antt =====
-- The list operations touch the links only.
use nbd_vram.Prelude.{ℕ, ◌≡◌, arith}
use nbd_vram.Heap.Links.{Extent, Extents, lst_push, lst_remove}

-- two extents that agree but for their links
pub record Same (x y : Extent) : Type 0 where
  pub nfree : x.nfree ≡ y.nfree
  pub nslots : x.nslots ≡ y.nslots
  pub cls : x.cls ≡ y.cls
  pub used : x.used ≡ y.used
  pub hint : x.hint ≡ y.hint

pub push-Same : (ext : Extents) (head e x : ℕ) → Same ((lst_push ext head e).0 x) (ext x)
unfolding lst_push
push-Same ext head e x = ground arith

pub remove-Same : (ext : Extents) (head e x : ℕ) → Same ((lst_remove ext head e).0 x) (ext x)
unfolding lst_remove
remove-Same ext head e x = ground arith
