-- ===== src/Store/Device.antt =====
-- Device memory as bytes by address.
use nbd_vram.Prelude.{
  ℕ, zero, suc, ◌+◌, ◌≤◌, ◌<◌, ◌≡◌, ◌⊎◌, refl, arith, List, [], ◌∷◌, update, length,
}

abbrev pub Memory : Type 0
Memory = ℕ → ℕ

unfoldable pub dev_write : Memory → (addr : ℕ) → List ℕ → Memory
dev_write m addr [] = m
dev_write m addr (b ∷ bs) = update (dev_write m (addr + 1) bs) addr b

unfoldable pub dev_read : Memory → (addr len : ℕ) → List ℕ
dev_read m addr zero = []
dev_read m addr (suc n) = m addr ∷ dev_read m (addr + 1) n

dev_write-outside :
    (m : Memory) (addr a : ℕ) (bs : List ℕ)
    → (a < addr) ⊎ (addr + length bs ≤ a)
    → dev_write m addr bs a ≡ m a
unfolding dev_write
dev_write-outside m addr a [] out = refl
dev_write-outside m addr a (b ∷ bs) out =
    ground (arith, dev_write-outside m (addr + 1) a bs (ground arith))

dev_read_congr :
    (m k : Memory) (from n : ℕ)
    → ((a : ℕ) → from ≤ a → m a ≡ k a)
    → dev_read m from n ≡ dev_read k from n
unfolding dev_read
dev_read_congr m k from zero same = refl
dev_read_congr m k from (suc n) same =
    ground (
      arith,
      same from (omega arith),
      dev_read_congr m k (from + 1) n (λ a le. same a (omega arith)),
    )

-- What was written is read back.
pub dev_read-dev_write :
    (m : Memory) (addr : ℕ) (bs : List ℕ) → dev_read (dev_write m addr bs) addr (length bs) ≡ bs
unfolding dev_read dev_write
dev_read-dev_write m addr [] = refl
dev_read-dev_write m addr (b ∷ bs) = ground (
  arith,
  dev_read_congr (dev_write m addr (b ∷ bs)) (dev_write m (addr + 1) bs) (addr + 1) (length bs)
      (λ a le. ground arith),
  dev_read-dev_write m (addr + 1) bs,
)

-- A read elsewhere is not affected.
pub dev_read-frame :
    (m : Memory) (addr : ℕ) (bs : List ℕ) (from n : ℕ)
    → (from + n ≤ addr) ⊎ (addr + length bs ≤ from)
    → dev_read (dev_write m addr bs) from n ≡ dev_read m from n
unfolding dev_read
dev_read-frame m addr bs from zero apart = refl
dev_read-frame m addr bs from (suc n) apart = ground (
  arith,
  dev_write-outside m addr from bs (ground arith),
  dev_read-frame m addr bs (from + 1) n (ground arith),
)
