-- ===== src/Heap/Links/Remove.antt =====
-- `lst_remove` takes an extent off the list that it is on.
use nbd_vram.Prelude.{ℕ, ◌≤◌, ◌≡◌, ◌≢◌, refl, arith, update}
use nbd_vram.Heap.Links.{Extents, ext_none, lst_remove}
use nbd_vram.Heap.Links.Linked.{Linked, Linked-congr, nowhere}

module _ {n : ℕ} {ext : Extents} {heads home : ℕ → ℕ} (linked : Linked n ext heads home)
    (small : n ≤ ext_none) (k e : ℕ) (is_list : k ≢ nowhere) (on_k : home e ≡ k) where
  -- `lst_remove` of an extent from the list that it is on leaves well-formed lists with the extent on
  -- none of them and every other extent where it was.
  pub remove-Linked :
      Linked n
        (lst_remove ext (heads k) e).0
        (update heads k (lst_remove ext (heads k) e).1)
        (update home e nowhere)
  unfolding lst_remove
  remove-Linked = record {
    rank = linked.rank;
    inside = λ x on. ground (arith, linked.inside x);
    next_home = λ x on ne. ground (
      arith,
      linked.next_home x,
      linked.next_home e,
      linked.next_prev x,
      linked.next_rank e,
      linked.prev_home e,
      linked.inside e,
      linked.inside x,
    );
    next_prev = λ x on ne. ground (
      arith,
      linked.next_prev x,
      linked.next_home x,
      linked.next_prev e,
      linked.prev_next e,
      linked.inside e,
      linked.inside x,
    );
    next_rank = λ x on ne. ground (
      arith,
      linked.next_rank x,
      linked.next_rank e,
      linked.next_home x,
      linked.next_prev x,
      linked.prev_next e,
      linked.inside e,
      linked.inside x,
    );
    prev_home = λ x on ne. ground (
      arith,
      linked.prev_home x,
      linked.prev_home e,
      linked.prev_next x,
      linked.prev_next e,
      linked.next_rank (ext e).prev,
      linked.next_home e,
      linked.inside e,
      linked.inside x,
    );
    prev_next = λ x on ne. ground (
      arith,
      linked.prev_next x,
      linked.prev_home x,
      linked.prev_next e,
      linked.next_prev e,
      linked.inside e,
      linked.inside x,
    );
    front = λ x on at.
        ground (arith, linked.front x, linked.front e, linked.prev_next x, linked.next_home e);
    head_home = λ j is ne. ground (
      arith,
      linked.head_home j,
      linked.head_home k,
      linked.head_prev k,
      linked.front e,
      linked.next_home e,
      linked.next_rank e,
    );
    head_prev = λ j is ne. ground (
      arith,
      linked.head_prev j,
      linked.head_home j,
      linked.front e,
      linked.next_prev e,
      linked.next_rank e,
      linked.inside e,
    );
  }

-- The same, for the heads and homes of a state that is written otherwise.
pub remove_step :
    {n : ℕ} {ext : Extents} {heads home heads' home' : ℕ → ℕ} (k e head : ℕ)
    → Linked n ext heads home
    → n ≤ ext_none
    → k ≢ nowhere
    → home e ≡ k
    → heads k ≡ head
    → ((j : ℕ) → j ≢ nowhere → heads' j ≡ update heads k (lst_remove ext head e).1 j)
    → ((x : ℕ) → home' x ≡ update home e nowhere x)
    → Linked n (lst_remove ext head e).0 heads' home'
remove_step {n} {ext} {heads} {home} {heads'} {home'} k e head linked small is_list on here firsts
      homes =
    Linked-congr (λ x. rw here refl) (λ x. rw here refl) (λ j is. rw here (firsts j is)) homes
      (remove-Linked linked small k e is_list on)
