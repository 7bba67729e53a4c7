-- ===== src/Heap/Links.antt =====
-- The intrusive doubly linked lists of extents (nbd-vram.c, `struct extent`, `lst_push` and
-- `lst_remove`). `g_ext` is a function of the index; the list head that the C code passes by
-- pointer is a value that goes in and comes out.
pub mod Linked
pub mod Push
pub mod Remove
pub mod Same
use nbd_vram.Prelude.{ℕ, Bool, ◌==◌, if◌then◌else◌, update}

-- `EXT_NONE`
abbrev pub ext_none : ℕ
ext_none = 0xFFFF_FFFF

pub record Extent : Type 0 where
  pub next : ℕ
  pub prev : ℕ
  pub nfree : ℕ
  pub nslots : ℕ
  pub cls : ℕ
  pub used : Bool
  pub hint : ℕ

abbrev pub Extents : Type 0
Extents = ℕ → Extent

-- one field of one extent assigned
abbrev pub set_next : Extents → ℕ → ℕ → Extents
set_next ext e x = update ext e (record (ext e) { next = x })

abbrev pub set_prev : Extents → ℕ → ℕ → Extents
set_prev ext e x = update ext e (record (ext e) { prev = x })

unfoldable pub lst_push : Extents → (head e : ℕ) → Extents × ℕ
lst_push ext head e =
    let ext1 = set_next (set_prev ext e ext_none) e head in
    let ext2 = if head == ext_none then ext1 else set_prev ext1 head e in (ext2, e)

unfoldable pub lst_remove : Extents → (head e : ℕ) → Extents × ℕ
lst_remove ext head e =
    let at_front = (ext e).prev == ext_none in
    let ext1 = if at_front then ext else set_next ext (ext e).prev (ext e).next in
    let head' = if at_front then (ext e).next else head in
    let after = (ext1 e).next in
    let ext2 = if after == ext_none then ext1 else set_prev ext1 after (ext1 e).prev in
    (set_next (set_prev ext2 e ext_none) e ext_none, head')
