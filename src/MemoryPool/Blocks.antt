-- ===== src/MemoryPool/Blocks.antt =====
-- Which blocks of a pool of mempool.c are in use, before and after an allocation.
use just_rt.Common.{
  ℕ, zero, suc, ◌+◌, ◌*◌, ◌/◌, ◌%◌, ◌<◌, ◌≤◌, ◌≡◌, ◌≢◌, ◌⊎◌, inl, inr, refl, true, false, arith,
  ◌==◌, ◌||◌, if◌then◌else◌, Bool-cases, ==→eq, none, some,
}
use just_rt.MemoryPool.{
  MemoryPool, word_address, is_used, mark, unmark, find_free, block_address, allocate,
}
use just_rt.MemoryPool.Bits.{test-set_bit, test-clear_bit, test-set_bit_ne, test-clear_bit_ne}

pub is_used-mark :
    (pool : MemoryPool) (words : ℕ → ℕ) (i j : ℕ)
    → is_used pool (mark pool words i) j ≡ (if i == j then true else is_used pool words j)
unfolding is_used mark
is_used-mark pool words i j =
    elim (Bool-cases (word_address pool (j / 32) == word_address pool (i / 32))) [
      | inr apart ↦ let ne : (i == j) ≡ false = ground arith in rw (apart, ne)
      | inl same ↦ elim (Bool-cases (i == j)) [
        | inl e ↦
            let bit : j % 32 ≡ i % 32 = ground arith in
            rw (same, e, bit) (test-set_bit (words (word_address pool (i / 32))) (i % 32))
        | inr ne ↦
            let at : word_address pool (j / 32) ≡ word_address pool (i / 32) = ==→eq _ _ same in
            let bit : i % 32 ≢ j % 32 = ground arith in
            rw (same, ne, at)
              (test-set_bit_ne (words (word_address pool (i / 32))) (i % 32) (j % 32) bit)
      ]
    ]

pub is_used-unmark :
    (pool : MemoryPool) (words : ℕ → ℕ) (i j : ℕ)
    → is_used pool (unmark pool words i) j ≡ (if i == j then false else is_used pool words j)
unfolding is_used unmark
is_used-unmark pool words i j =
    elim (Bool-cases (word_address pool (j / 32) == word_address pool (i / 32))) [
      | inr apart ↦ let ne : (i == j) ≡ false = ground arith in rw (apart, ne)
      | inl same ↦ elim (Bool-cases (i == j)) [
        | inl e ↦
            let bit : j % 32 ≡ i % 32 = ground arith in
            rw (same, e, bit) (test-clear_bit (words (word_address pool (i / 32))) (i % 32))
        | inr ne ↦
            let at : word_address pool (j / 32) ≡ word_address pool (i / 32) = ==→eq _ _ same in
            let bit : i % 32 ≢ j % 32 = ground arith in
            rw (same, ne, at)
              (test-clear_bit_ne (words (word_address pool (i / 32))) (i % 32) (j % 32) bit)
      ]
    ]

-- The first free block from `first` on.
pub record FirstFree (pool : MemoryPool) (words : ℕ → ℕ) (first bound index : ℕ) : Type 0 where
  pub from : first ≤ index
  pub inside : index < bound
  pub unused : is_used pool words index ≡ false
  pub lowest : (i : ℕ) → first ≤ i → i < index → is_used pool words i ≡ true

find_free_lem :
    (pool : MemoryPool) (words : ℕ → ℕ) (rounds index : ℕ)
    → ((found : ℕ) × (find_free pool words rounds index ≡ some found)
        × FirstFree pool words index (index + rounds) found)
      ⊎ ((find_free pool words rounds index ≡ none)
          × ((i : ℕ) → index ≤ i → i < index + rounds → is_used pool words i ≡ true))
unfolding find_free
find_free_lem pool words zero index = inr (refl, λ i a b. absurd (omega arith))
find_free_lem pool words (suc rounds) index = elim (Bool-cases (is_used pool words index)) [
  | inr unused ↦ inl (
    index,
    rw unused,
    record {
      from = omega arith;
      inside = omega arith;
      unused = unused;
      lowest = λ i a b. absurd (omega arith);
    },
  )
  | inl used ↦ elim (find_free_lem pool words rounds (index + 1)) [
    | inl (found, e, f) ↦ inl (
      found,
      rw used e,
      record {
        from = omega (arith, f.from);
        inside = omega (arith, f.inside);
        unused = f.unused;
        lowest = λ i a b. upward found used f.lowest i a b;
      },
    )
    | inr (e, f) ↦ inr (rw used e, λ i a b. upward (index + 1 + rounds) used f i a (omega arith))
  ]
]
  where
    upward :
        (bound : ℕ)
        → is_used pool words index ≡ true
        → ((i : ℕ) → index + 1 ≤ i → i < bound → is_used pool words i ≡ true)
        → (i : ℕ) → index ≤ i
        → i < bound
        → is_used pool words i ≡ true
    upward bound used f i a b = elim (Bool-cases (i == index)) [
      | inl e ↦ rw (==→eq i index e) used
      | inr ne ↦ f i (ground arith) b
    ]

-- The pool has been created, and its blocks end below 2 ^ 32.
pub record PoolOk (pool : MemoryPool) : Type 0 where
  pub storage : pool.storage ≢ 0
  pub used_bitmap : pool.used_bitmap ≢ 0
  pub block_size : 0 < pool.block_size
  pub fits : pool.storage + pool.block_count * pool.block_size < 4294967296

-- What `JRT_MemoryPoolAllocate` has done when it gives out block `index`.
pub record Allocated (pool : MemoryPool) (words : ℕ → ℕ) (index : ℕ) : Type 0 where
  pub first : FirstFree pool words 0 pool.block_count index
  pub result : allocate pool words ≡ (mark pool words index, block_address pool index)
  pub marked :
      (j : ℕ)
      → is_used pool (allocate pool words).0 j ≡ (if index == j then true else is_used pool words j)

-- `JRT_MemoryPoolAllocate` gives out the lowest block that is not in use, and marks that block and
-- no other; if all blocks are in use, it returns null and changes nothing.
pub allocate_lem :
    (pool : MemoryPool) (words : ℕ → ℕ)
    → PoolOk pool
    → ((index : ℕ) × Allocated pool words index)
      ⊎ ((allocate pool words ≡ (words, 0))
          × ((i : ℕ) → i < pool.block_count → is_used pool words i ≡ true))
unfolding allocate
allocate_lem pool words ok =
    let created : ((pool.storage == 0) || (pool.used_bitmap == 0)) ≡ false =
      ground (arith, ok.storage, ok.used_bitmap) in
    elim (find_free_lem pool words pool.block_count 0) [
      | inl (index, e, f) ↦ inl (
        index,
        record {
          first = record {
            from = f.from;
            inside = omega (arith, f.inside);
            unused = f.unused;
            lowest = f.lowest;
          };
          result = rw (created, e);
          marked = λ j. rw (created, e) (is_used-mark pool words index j);
        },
      )
      | inr (e, f) ↦ inr (rw (created, e), λ i h. f i (omega arith) (omega arith))
    ]
