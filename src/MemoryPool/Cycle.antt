-- ===== src/MemoryPool/Cycle.antt =====
-- Allocation and release of blocks of mempool.c together.
use just_rt.Common.{
  ℕ, ◌+◌, ◌-◌, ◌*◌, ◌/◌, ◌%◌, ◌<◌, ◌≡◌, ◌≢◌, inl, inr, true, false, arith, ◌==◌, ◌||◌, ltb, leb,
  Bool-cases, ==_refl, ==→eq, Option, some, none, fun_ext, ap, sym, subst, ◌∙◌, u32, add32,
  Option-cases,
}
use native.Mathlib.Nat.{mul-lt-mul_of_pos_right, mul-mod_left, mul-div_left, mul_comm}
use mathlib.Core.Bool.{true≢false}
use just_rt.MemoryPool.{
  MemoryPool, word_address, is_used, mark, unmark, block_address, block_index, allocate, free,
}
use just_rt.MemoryPool.Bits.{clear-set_bit}
use just_rt.MemoryPool.Blocks.{PoolOk, allocate_lem, is_used-mark, is_used-unmark}

unmark-mark :
    (pool : MemoryPool) (words : ℕ → ℕ) (i : ℕ)
    → is_used pool words i ≡ false
    → unmark pool (mark pool words i) i ≡ words
unfolding is_used mark unmark
unmark-mark pool words i h = fun_ext (λ q. elim (Bool-cases (q == word_address pool (i / 32))) [
  | inl e ↦
      rw (e, ==_refl (word_address pool (i / 32)))
        (clear-set_bit (words (word_address pool (i / 32))) (i % 32) h
          ∙ ap words (sym (==→eq q (word_address pool (i / 32)) e)))
  | inr e ↦ rw e
])

-- The address of a block: nothing wraps.
block_address_lem :
    (pool : MemoryPool) (i : ℕ)
    → PoolOk pool
    → i < pool.block_count
    → block_address pool i ≡ pool.storage + i * pool.block_size
block_address_lem pool i ok h =
    let inside : i * pool.block_size < pool.block_count * pool.block_size =
      mul-lt-mul_of_pos_right h ok.block_size in
    omega (arith, ok.fits)

block_index-block_address :
    (pool : MemoryPool) (i : ℕ)
    → PoolOk pool
    → i < pool.block_count
    → block_index pool (block_address pool i) ≡ some i
unfolding block_index
block_index-block_address pool i ok h =
    let inside : i * pool.block_size < pool.block_count * pool.block_size =
      mul-lt-mul_of_pos_right h ok.block_size in
    let offset : pool.storage + i * pool.block_size - pool.storage ≡ i * pool.block_size =
      omega arith in
    let turned : pool.block_size * pool.block_count ≡ pool.block_count * pool.block_size =
      mul_comm pool.block_size pool.block_count in
    let valid : ((pool.storage + i * pool.block_size == 0)
          || (pool.storage == 0)
          || (pool.used_bitmap == 0)
          || (pool.block_size == 0))
        ≡ false =
      ground (arith, ok.storage, ok.used_bitmap, ok.block_size) in
    let ranged : (ltb (pool.storage + i * pool.block_size) pool.storage
          || leb (add32 pool.storage (u32 (pool.block_count * pool.block_size)))
              (pool.storage + i * pool.block_size))
        ≡ false =
      ground (arith, ok.fits) in
    rw (
      block_address_lem pool i ok h,
      valid,
      turned,
      ranged,
      offset,
      mul-mod_left i pool.block_size,
      mul-div_left i ok.block_size,
    )

free_used :
    (pool : MemoryPool) (words : ℕ → ℕ) (block i : ℕ)
    → block_index pool block ≡ some i
    → is_used pool words i ≡ true
    → free pool words block ≡ (unmark pool words i, 1)
unfolding free
free_used pool words block i e used = rw (free, e, used)

free_unused :
    (pool : MemoryPool) (words : ℕ → ℕ) (block i : ℕ)
    → block_index pool block ≡ some i
    → is_used pool words i ≡ false
    → free pool words block ≡ (words, 0)
unfolding free
free_unused pool words block i e unused = rw (free, e, unused)

free_refused :
    (pool : MemoryPool) (words : ℕ → ℕ) (block : ℕ)
    → block_index pool block ≡ none
    → free pool words block ≡ (words, 0)
unfolding free
free_refused pool words block e = rw (free, e)

-- A block that `JRT_MemoryPoolAllocate` gives out is accepted by `JRT_MemoryPoolFree`, after which
-- the bitmap is as it was before the allocation, in a pool that is created and whose blocks end
-- below 2 ^ 32.
pub free-allocate :
    (pool : MemoryPool) (words : ℕ → ℕ)
    → PoolOk pool
    → (allocate pool words).1 ≢ 0
    → free pool (allocate pool words).0 (allocate pool words).1 ≡ (words, 1)
free-allocate pool words ok h = elim (allocate_lem pool words ok) [
  | inr (e, f) ↦ absurd (h (ap (λ (o : (ℕ → ℕ) × ℕ). o.1) e))
  | inl (i, a) ↦
      let used : is_used pool (mark pool words i) i ≡ true =
        is_used-mark pool words i i ∙ rw (==_refl i) in
      subst (λ (o : (ℕ → ℕ) × ℕ). free pool o.0 o.1 ≡ (words, 1)) (sym a.result)
        (free_used pool (mark pool words i) (block_address pool i) i
            (block_index-block_address pool i ok a.first.inside) used
          ∙ ap (λ (w : ℕ → ℕ). (w, 1)) (unmark-mark pool words i a.first.unused))
]

-- A block that `JRT_MemoryPoolFree` has accepted is refused when it is freed again before any
-- allocation, and nothing changes then.
pub free-free :
    (pool : MemoryPool) (words : ℕ → ℕ) (block : ℕ)
    → (free pool words block).1 ≡ 1
    → free pool (free pool words block).0 block ≡ ((free pool words block).0, 0)
free-free pool words block h = elim (Option-cases (block_index pool block)) [
  | inl e ↦ absurd (refused e)
  | inr (i, e) ↦ elim (Bool-cases (is_used pool words i)) [
    | inl used ↦
        let cleared : is_used pool (unmark pool words i) i ≡ false =
          is_used-unmark pool words i i ∙ rw (==_refl i) in
        subst (λ (o : (ℕ → ℕ) × ℕ). free pool o.0 block ≡ (o.0, 0))
          (sym (free_used pool words block i e used))
          (free_unused pool (unmark pool words i) block i e cleared)
    | inr unused ↦
        let zero_result : 0 ≡ 1 =
          sym (ap (λ (o : (ℕ → ℕ) × ℕ). o.1) (free_unused pool words block i e unused)) ∙ h in
        absurd (omega (arith, zero_result))
  ]
]
  where
    refused : block_index pool block ≡ none → ⊥
    refused e =
        let zero_result : 0 ≡ 1 =
          sym (ap (λ (o : (ℕ → ℕ) × ℕ). o.1) (free_refused pool words block e)) ∙ h in
        omega (arith, zero_result)

-- Blocks of different indices have different addresses.
block_address-injective :
    (pool : MemoryPool) (i j : ℕ)
    → PoolOk pool
    → i < pool.block_count
    → j < pool.block_count
    → block_address pool i ≡ block_address pool j
    → i ≡ j
block_address-injective pool i j ok hi hj e = ap value (
    sym (block_index-block_address pool i ok hi)
    ∙ ap (block_index pool) e
    ∙ block_index-block_address pool j ok hj)
  where
    value : Option ℕ → ℕ
    value none = 0
    value (some n) = n

-- Two allocations in a row, of which both succeed, give out different blocks.
pub allocate-allocate :
    (pool : MemoryPool) (words : ℕ → ℕ)
    → PoolOk pool
    → (allocate pool words).1 ≢ 0
    → (allocate pool (allocate pool words).0).1 ≢ 0
    → (allocate pool words).1 ≢ (allocate pool (allocate pool words).0).1
allocate-allocate pool words ok h h' same = elim (allocate_lem pool words ok) [
  | inr (e, f) ↦ absurd (h (ap (λ (o : (ℕ → ℕ) × ℕ). o.1) e))
  | inl (i, a) ↦ elim (allocate_lem pool (allocate pool words).0 ok) [
    | inr (e, f) ↦ absurd (h' (ap (λ (o : (ℕ → ℕ) × ℕ). o.1) e))
    | inl (j, b) ↦
        let met : i ≡ j = block_address-injective pool i j ok a.first.inside b.first.inside (
          sym (ap (λ (o : (ℕ → ℕ) × ℕ). o.1) a.result)
          ∙ same
          ∙ ap (λ (o : (ℕ → ℕ) × ℕ). o.1) b.result) in
        let used : is_used pool (allocate pool words).0 j ≡ true =
          a.marked j ∙ rw (met, ==_refl j) in
        absurd (true≢false (sym used ∙ b.first.unused))
  ]
]
