-- ===== src/Heap/Links/Push.antt =====
-- `lst_push` puts an extent that is on no list at the front of a list.
use nbd_vram.Prelude.{ℕ, suc, ◌≤◌, ◌<◌, ◌≡◌, ◌≢◌, refl, arith, ◌==◌, if◌then◌else◌, update}
use nbd_vram.Heap.Links.{Extents, ext_none, lst_push}
use nbd_vram.Heap.Links.Linked.{Linked, Linked-congr, nowhere}

module _ {n : ℕ} {ext : Extents} {heads home : ℕ → ℕ} (linked : Linked n ext heads home)
    (small : n ≤ ext_none) (k e : ℕ) (is_list : k ≢ nowhere) (below : e < n)
    (off : home e ≡ nowhere) where
  -- `lst_push` of an extent that is on no list onto one leaves well-formed lists with the extent on
  -- that list and every other extent where it was.
  pub push-Linked :
      Linked n
        (lst_push ext (heads k) e).0
        (update heads k (lst_push ext (heads k) e).1)
        (update home e k)
  unfolding lst_push
  push-Linked = record {
    rank = λ x. if x == e then 0 else suc (linked.rank x);
    inside = λ x on. ground (arith, linked.inside x);
    next_home = λ x on ne. ground (arith, linked.next_home x, linked.head_home k);
    next_prev = λ x on ne. ground (
      arith,
      linked.next_prev x,
      linked.next_home x,
      linked.head_home k,
      linked.head_prev k,
      linked.inside x,
    );
    next_rank =
        λ x on ne. ground (arith, linked.next_rank x, linked.next_home x, linked.head_home k);
    prev_home = λ x on ne. ground (arith, linked.prev_home x, linked.head_home k);
    prev_next = λ x on ne.
        ground
          (arith, linked.prev_next x, linked.prev_home x, linked.head_home k, linked.head_prev k);
    front = λ x on at. ground (arith, linked.front x, linked.inside x, linked.head_home k);
    head_home = λ j is ne. ground (arith, linked.head_home j);
    head_prev =
        λ j is ne. ground (arith, linked.head_prev j, linked.head_home j, linked.head_home k);
  }

-- The same, for the heads and homes of a state that is written otherwise.
pub push_step :
    {n : ℕ} {ext : Extents} {heads home heads' home' : ℕ → ℕ} (k e head : ℕ)
    → Linked n ext heads home
    → n ≤ ext_none
    → k ≢ nowhere
    → e < n
    → home e ≡ nowhere
    → heads k ≡ head
    → ((j : ℕ) → j ≢ nowhere → heads' j ≡ update heads k (lst_push ext head e).1 j)
    → ((x : ℕ) → home' x ≡ update home e k x)
    → Linked n (lst_push ext head e).0 heads' home'
push_step {n} {ext} {heads} {home} {heads'} {home'} k e head linked small is_list below off here
      firsts homes =
    Linked-congr (λ x. rw here refl) (λ x. rw here refl) (λ j is. rw here (firsts j is)) homes
      (push-Linked linked small k e is_list below off)
