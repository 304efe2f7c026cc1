-- ===== src/MemoryPool/Bits.antt =====
-- `1UL << bit` as a mask on a `uint32_t`: `word & mask`, `word | mask` and `word & ~mask` of
-- kernel/mempool.c, bit by bit.
use just_rt.Common.{
  ℕ, zero, suc, ◌+◌, ◌*◌, ◌/◌, ◌%◌, ◌≡◌, ◌≢◌, refl, ap, Bool, true, false, arith, ◌!=◌,
}

-- `(word & mask) != 0U`
unfoldable pub test_bit : ℕ → ℕ → Bool
test_bit word zero = word % 2 != 0
test_bit word (suc bit) = test_bit (word / 2) bit

-- `word | mask`
unfoldable pub set_bit : ℕ → ℕ → ℕ
set_bit word zero = word / 2 * 2 + 1
set_bit word (suc bit) = set_bit (word / 2) bit * 2 + word % 2

-- `word & ~mask`
unfoldable pub clear_bit : ℕ → ℕ → ℕ
clear_bit word zero = word / 2 * 2
clear_bit word (suc bit) = clear_bit (word / 2) bit * 2 + word % 2

half : (a b : ℕ) → (a * 2 + b % 2) / 2 ≡ a
half a b = omega arith

pub test-set_bit : (word bit : ℕ) → test_bit (set_bit word bit) bit ≡ true
unfolding test_bit set_bit
test-set_bit word zero = ground arith
test-set_bit word (suc bit) = rw (half (set_bit (word / 2) bit) word) (test-set_bit (word / 2) bit)

pub test-clear_bit : (word bit : ℕ) → test_bit (clear_bit word bit) bit ≡ false
unfolding test_bit clear_bit
test-clear_bit word zero = ground arith
test-clear_bit word (suc bit) =
    rw (half (clear_bit (word / 2) bit) word) (test-clear_bit (word / 2) bit)

pub test-set_bit_ne :
    (word bit other : ℕ) → bit ≢ other → test_bit (set_bit word bit) other ≡ test_bit word other
unfolding test_bit set_bit
test-set_bit_ne word zero zero h = absurd (h refl)
test-set_bit_ne word zero (suc other) h =
    let e : (word / 2 * 2 + 1) / 2 ≡ word / 2 = omega arith in rw e
test-set_bit_ne word (suc bit) zero h =
    let e : (set_bit (word / 2) bit * 2 + word % 2) % 2 ≡ word % 2 = omega arith in rw e
test-set_bit_ne word (suc bit) (suc other) h =
    rw (half (set_bit (word / 2) bit) word)
      (test-set_bit_ne (word / 2) bit other (λ e. h (ap suc e)))

pub test-clear_bit_ne :
    (word bit other : ℕ) → bit ≢ other → test_bit (clear_bit word bit) other ≡ test_bit word other
unfolding test_bit clear_bit
test-clear_bit_ne word zero zero h = absurd (h refl)
test-clear_bit_ne word zero (suc other) h =
    let e : word / 2 * 2 / 2 ≡ word / 2 = omega arith in rw e
test-clear_bit_ne word (suc bit) zero h =
    let e : (clear_bit (word / 2) bit * 2 + word % 2) % 2 ≡ word % 2 = omega arith in rw e
test-clear_bit_ne word (suc bit) (suc other) h =
    rw (half (clear_bit (word / 2) bit) word)
      (test-clear_bit_ne (word / 2) bit other (λ e. h (ap suc e)))

pub clear-set_bit :
    (word bit : ℕ) → test_bit word bit ≡ false → clear_bit (set_bit word bit) bit ≡ word
unfolding test_bit set_bit clear_bit
clear-set_bit word zero h = ground arith
clear-set_bit word (suc bit) h =
    let e : (set_bit (word / 2) bit * 2 + word % 2) % 2 ≡ word % 2 = omega arith in
    rw (half (set_bit (word / 2) bit) word, e, clear-set_bit (word / 2) bit h) (omega arith)
