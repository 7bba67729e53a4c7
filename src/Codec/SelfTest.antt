-- ===== src/Codec/SelfTest.antt =====
-- `comp_selftest` (nbd-vram.c): three patterns compressed and decompressed before a worker serves.
use nbd_vram.Prelude.{
  ℕ, zero, suc, ◌+◌, ◌*◌, ◌%◌, ◌<◌, ◌≡◌, refl, arith, ap, Option, Bool, true, false, ◌&&◌, [], ◌∷◌,
  none, some, ◌==◌, ==_refl, if◌then◌else◌,
}
use mathlib.Core.Path.{subst}
use nbd_vram.Heap.{cblk_size}
use nbd_vram.Codec.{Bytes, CodecKind, Library, comp_block, decomp_block}

-- The byte `i` of the pattern `p`.
abbrev pub pattern_byte : (p i : ℕ) → ℕ
pattern_byte p i = if p == 0 then 0 else (if p == 1 then 0xAA else (i * 31 + p) % 256)

-- The `n` bytes of the pattern from `i` on.
unfoldable pub pattern : (p i n : ℕ) → Bytes
pattern p i zero = []
pattern p i (suc n) = pattern_byte p i ∷ pattern p (i + 1) n

-- `memcmp(...) == 0`
unfoldable pub bytes_equal : Bytes → Bytes → Bool
bytes_equal [] [] = true
bytes_equal (x ∷ xs) (y ∷ ys) = x == y && bytes_equal xs ys
bytes_equal [] (y ∷ ys) = false
bytes_equal (x ∷ xs) [] = false

module _ (lib : Library) (codec : CodecKind) where
  unfoldable pub test_page : Bytes → Bool
  test_page page =
      let (n, slot) = comp_block lib codec page in
      elim (decomp_block lib codec n slot) [ none ↦ false | some out ↦ bytes_equal out page ]

  -- The patterns from `p` on, `left` of them: true for the return value 0.
  unfoldable pub test_patterns : (left p : ℕ) → Bool
  test_patterns zero p = true
  test_patterns (suc left) p = test_page (pattern p 0 cblk_size) && test_patterns left (p + 1)

  unfoldable pub comp_selftest : Bool
  comp_selftest = test_patterns 3 0

bytes_equal_refl : (xs : Bytes) → bytes_equal xs xs ≡ true
unfolding bytes_equal
bytes_equal_refl [] = refl
bytes_equal_refl (x ∷ xs) = rw (==_refl x, bytes_equal_refl xs) refl

equal_bytes : (xs ys : Bytes) → bytes_equal xs ys ≡ true → xs ≡ ys
unfolding bytes_equal
equal_bytes [] [] e = refl
equal_bytes [] (y ∷ ys) e = absurd (ground (arith, e))
equal_bytes (x ∷ xs) [] e = absurd (ground (arith, e))
equal_bytes (x ∷ xs) (y ∷ ys) e =
    let head : x ≡ y = ground (arith, e) in
    let tail : bytes_equal xs ys ≡ true = ground (arith, e) in
    rw (head, equal_bytes xs ys tail) refl

-- A block that is the same after it was compressed and decompressed.
abbrev pub ComesBack : Library → CodecKind → Bytes → Type 0
ComesBack lib codec page =
    let (n, slot) = comp_block lib codec page in decomp_block lib codec n slot ≡ some page

module _ (lib : Library) (codec : CodecKind) where
  test_page-ComesBack : (page : Bytes) → test_page lib codec page ≡ true → ComesBack lib codec page
  unfolding test_page
  test_page-ComesBack page passes =
      let packed = comp_block lib codec page in
      out_back (decomp_block lib codec packed.0 packed.1) passes
    where
      out_back :
          (o : Option Bytes)
          → elim o [ none ↦ false | some out ↦ bytes_equal out page ] ≡ true
          → o ≡ some page
      out_back none e = absurd (ground (arith, e))
      out_back (some out) e = ap some (equal_bytes out page e)

  ComesBack-test_page : (page : Bytes) → ComesBack lib codec page → test_page lib codec page ≡ true
  unfolding test_page
  ComesBack-test_page page back = rw (test_page, back) (bytes_equal_refl page)

  patterns_back :
      (left p : ℕ)
      → test_patterns lib codec left p ≡ true
      → (i : ℕ) → i < left
      → ComesBack lib codec (pattern (p + i) 0 cblk_size)
  unfolding test_patterns
  patterns_back zero p passes i lt = absurd (omega (arith, lt))
  patterns_back (suc left) p passes zero lt =
      let e : p + 0 ≡ p = omega arith in
      rw e (test_page-ComesBack (pattern p 0 cblk_size) (ground (arith, passes)))
  patterns_back (suc left) p passes (suc i) lt =
      let e : p + suc i ≡ p + 1 + i = omega arith in
      rw e (patterns_back left (p + 1) (ground (arith, passes)) i (omega (arith, lt)))

  patterns_pass :
      (left p : ℕ)
      → ((i : ℕ) → i < left → ComesBack lib codec (pattern (p + i) 0 cblk_size))
      → test_patterns lib codec left p ≡ true
  unfolding test_patterns
  patterns_pass zero p back = refl
  patterns_pass (suc left) p back =
      let e : p + 0 ≡ p = omega arith in
      let first =
        ComesBack-test_page (pattern p 0 cblk_size)
          (subst (λ q. ComesBack lib codec (pattern q 0 cblk_size)) e (back 0 (omega arith))) in
      let rest = patterns_pass left (p + 1) (λ i lt.
        let f : p + suc i ≡ p + 1 + i = omega arith in
        subst (λ q. ComesBack lib codec (pattern q 0 cblk_size)) f
          (back (suc i) (omega (arith, lt)))) in
      rw (first, rest) refl

  -- The self-test passes exactly if each of its three pages, of zeros, of 0xAA and of the low bytes of 31 i + 2,
  -- is the same after it was compressed and decompressed, whatever the libraries do.
  pub comp_selftest_lem :
      (comp_selftest lib codec ≡ true
        → (p : ℕ) → p < 3
        → ComesBack lib codec (pattern p 0 cblk_size))
      × (((p : ℕ) → p < 3 → ComesBack lib codec (pattern p 0 cblk_size))
          → comp_selftest lib codec ≡ true)
  unfolding comp_selftest
  comp_selftest_lem = (
    (λ passes p lt.
        let e : 0 + p ≡ p = omega arith in
        subst (λ q. ComesBack lib codec (pattern q 0 cblk_size)) e (patterns_back 3 0 passes p lt)),
    (λ back. patterns_pass 3 0 (λ i lt.
        let e : i ≡ 0 + i = omega arith in
        subst (λ q. ComesBack lib codec (pattern q 0 cblk_size)) e (back i lt))),
  )
