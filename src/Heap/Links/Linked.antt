-- ===== src/Heap/Links/Linked.antt =====
-- What the lists of extents mean: `home` names the list that an extent is on, `nowhere` if none,
-- and `heads` the first extent of each list.
use nbd_vram.Prelude.{ℕ, zero, suc, ◌≤◌, ◌<◌, ◌≡◌, ◌≢◌, inl, inr, arith, eq_cases, ap, sym, ◌∙◌}
use nbd_vram.Heap.Links.{Extents, ext_none}

-- The number of a list that is none: the classes are 0 to 63, the free list is 64.
abbrev pub nowhere : ℕ
nowhere = 65

-- Neighbours agree in both directions, stand on the same list, and lie further from the front;
-- whoever has no predecessor is the head.
pub record Linked (n : ℕ) (ext : Extents) (heads home : ℕ → ℕ) : Type 0 where
  pub rank : ℕ → ℕ
  pub inside : (e : ℕ) → home e ≢ nowhere → e < n
  pub next_home : (e : ℕ) → home e ≢ nowhere → (ext e).next ≢ ext_none → home (ext e).next ≡ home e
  pub next_prev : (e : ℕ) → home e ≢ nowhere → (ext e).next ≢ ext_none → (ext (ext e).next).prev ≡ e
  pub next_rank : (e : ℕ) → home e ≢ nowhere → (ext e).next ≢ ext_none → rank e < rank (ext e).next
  pub prev_home : (e : ℕ) → home e ≢ nowhere → (ext e).prev ≢ ext_none → home (ext e).prev ≡ home e
  pub prev_next : (e : ℕ) → home e ≢ nowhere → (ext e).prev ≢ ext_none → (ext (ext e).prev).next ≡ e
  pub front : (e : ℕ) → home e ≢ nowhere → (ext e).prev ≡ ext_none → heads (home e) ≡ e
  pub head_home : (k : ℕ) → k ≢ nowhere → heads k ≢ ext_none → home (heads k) ≡ k
  pub head_prev : (k : ℕ) → k ≢ nowhere → heads k ≢ ext_none → (ext (heads k)).prev ≡ ext_none

module _ {n : ℕ} {ext : Extents} {heads home : ℕ → ℕ} (linked : Linked n ext heads home)
    (small : n ≤ ext_none) where
  open linked use {rank, inside, next_rank, prev_home, prev_next, front}

  head-ne-none_below : (r e : ℕ) → rank e < r → home e ≢ nowhere → heads (home e) ≢ ext_none
  head-ne-none_below zero e lt on h = absurd (omega arith)
  head-ne-none_below (suc r) e lt on h = elim (eq_cases (ext e).prev ext_none) [
    | inl at_front ↦ omega (arith, front e on at_front, inside e on)
    | inr back ↦
        let up = prev_home e on back in
        let on' : home (ext e).prev ≢ nowhere = omega arith in
        let step : rank (ext e).prev < rank e =
          ground (arith, prev_next e on back, next_rank (ext e).prev on', inside e on) in
        head-ne-none_below r (ext e).prev (omega arith) on' (rw up h)
  ]

  -- A list that holds an extent is not empty: the chain of predecessors leads to its head.
  pub head-ne-none : (e : ℕ) → home e ≢ nowhere → heads (home e) ≢ ext_none
  head-ne-none e = head-ne-none_below (suc (rank e)) e (omega arith)

-- Only the links, the heads and the homes count.
pub Linked-congr :
    {n : ℕ} {ext ext' : Extents} {heads heads' home home' : ℕ → ℕ}
    → ((e : ℕ) → (ext' e).next ≡ (ext e).next)
    → ((e : ℕ) → (ext' e).prev ≡ (ext e).prev)
    → ((k : ℕ) → k ≢ nowhere → heads' k ≡ heads k)
    → ((e : ℕ) → home' e ≡ home e)
    → Linked n ext heads home
    → Linked n ext' heads' home'
Linked-congr {ext} {heads'} {home} nexts prevs firsts homes linked = record {
  rank = linked.rank;
  inside = λ e on. ground (arith, linked.inside e, homes e);
  next_home = λ e on ne. ground (arith, linked.next_home e, homes e, homes (ext e).next, nexts e);
  next_prev = λ e on ne. ground (arith, linked.next_prev e, homes e, prevs (ext e).next, nexts e);
  next_rank = λ e on ne. ground (arith, linked.next_rank e, homes e, nexts e);
  prev_home = λ e on ne. ground (arith, linked.prev_home e, homes e, homes (ext e).prev, prevs e);
  prev_next = λ e on ne. ground (arith, linked.prev_next e, homes e, nexts (ext e).prev, prevs e);
  front = λ e on at. ground (arith, linked.front e, homes e, prevs e, firsts (home e));
  head_home = λ k is ne. ground (arith, linked.head_home k, firsts k, homes (heads' k));
  head_prev = λ k is ne. ground (arith, linked.head_prev k, firsts k, prevs (heads' k));
}

-- The links of an extent that is on no list do not count.
pub Linked-off :
    {n : ℕ} {ext ext' : Extents} {heads home : ℕ → ℕ} (i : ℕ)
    → home i ≡ nowhere
    → ((e : ℕ) → i ≢ e → (ext' e).next ≡ (ext e).next)
    → ((e : ℕ) → i ≢ e → (ext' e).prev ≡ (ext e).prev)
    → Linked n ext heads home
    → Linked n ext' heads home
Linked-off {ext} {heads} {home} i off nexts prevs linked = record {
  rank = linked.rank;
  inside = linked.inside;
  next_home = λ e on ne. ground (arith, linked.next_home e, nexts e, other e on);
  next_prev = λ e on ne. ground (
    arith,
    linked.next_prev e,
    linked.next_home e,
    nexts e,
    prevs (ext e).next,
    other e on,
    other (ext e).next,
  );
  next_rank = λ e on ne. ground (arith, linked.next_rank e, nexts e, other e on);
  prev_home = λ e on ne. ground (arith, linked.prev_home e, prevs e, other e on);
  prev_next = λ e on ne. ground (
    arith,
    linked.prev_next e,
    linked.prev_home e,
    prevs e,
    nexts (ext e).prev,
    other e on,
    other (ext e).prev,
  );
  front = λ e on at. ground (arith, linked.front e, prevs e, other e on);
  head_home = linked.head_home;
  head_prev = λ k is ne.
      ground (arith, linked.head_prev k, linked.head_home k, prevs (heads k), other (heads k));
}
  where
    other : (e : ℕ) → home e ≢ nowhere → i ≢ e
    other e on here = on (ap home (sym here) ∙ off)
