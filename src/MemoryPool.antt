-- ===== src/MemoryPool.antt =====
-- kernel/mempool.c: pools of fixed-size blocks with a bitmap of the blocks in use.
-- The bitmap lies in the memory of words, which the operations take and give back; `uint32_t` and
-- `uintptr_t` have 32 bits, and a null pointer is 0.
pub mod Bits
pub mod Blocks
pub mod Cycle
use just_rt.Common.{
  ℕ, zero, suc, ◌+◌, ◌-◌, ◌*◌, ◌/◌, ◌%◌, Bool, true, false, ◌&&◌, ◌||◌, Option, none, some, ltb,
  leb, ◌==◌, ◌!=◌, if◌then◌else◌, u32, add32, update,
}
use just_rt.MemoryPool.Bits.{test_bit, set_bit, clear_bit}

-- `JRT_MemoryPool_t`
pub record MemoryPool : Type 0 where
  pub storage : ℕ
  pub used_bitmap : ℕ
  pub block_size : ℕ
  pub block_count : ℕ

-- `bitmap_words`
abbrev pub bitmap_words : ℕ → ℕ
bitmap_words block_count = add32 block_count 31 / 32

-- `&used_bitmap[word]`
abbrev pub word_address : MemoryPool → ℕ → ℕ
word_address pool word = pool.used_bitmap + 4 * word

-- The loop of `JRT_MemoryPoolCreateStatic`, with the rounds left.
unfoldable pub clear_words : (ℕ → ℕ) → ℕ → ℕ → ℕ → ℕ
clear_words words bitmap zero = words
clear_words words bitmap (suc rounds) = clear_words (update words bitmap 0) (bitmap + 4) rounds

-- `sizeof(uintptr_t)`
abbrev pub pointer_size : ℕ
pointer_size = 4

-- `JRT_MemoryPoolCreateStatic` on a pool that is not null.
unfoldable pub create : MemoryPool → (ℕ → ℕ) → ℕ → ℕ → ℕ → ℕ → MemoryPool × (ℕ → ℕ)
create pool words storage block_size block_count used_bitmap =
    if (storage == 0) || (used_bitmap == 0) || ltb block_size pointer_size || (block_count == 0)
    then (pool, words)
    else (
      record {
        storage = storage;
        used_bitmap = used_bitmap;
        block_size = block_size;
        block_count = block_count;
      },
      clear_words words used_bitmap (bitmap_words block_count),
    )

-- `(pool->used_bitmap[word] & mask) != 0U` for the word and the mask of block `index`.
unfoldable pub is_used : MemoryPool → (ℕ → ℕ) → ℕ → Bool
is_used pool words index = test_bit (words (word_address pool (index / 32))) (index % 32)

-- `pool->used_bitmap[word] |= mask`
unfoldable pub mark : MemoryPool → (ℕ → ℕ) → ℕ → ℕ → ℕ
mark pool words index =
    let address = word_address pool (index / 32) in
    update words address (set_bit (words address) (index % 32))

-- `pool->used_bitmap[word] &= ~mask`
unfoldable pub unmark : MemoryPool → (ℕ → ℕ) → ℕ → ℕ → ℕ
unmark pool words index =
    let address = word_address pool (index / 32) in
    update words address (clear_bit (words address) (index % 32))

-- The index at which the loop of `JRT_MemoryPoolAllocate` returns, with the rounds left.
unfoldable pub find_free : MemoryPool → (ℕ → ℕ) → ℕ → ℕ → Option ℕ
find_free pool words zero index = none
find_free pool words (suc rounds) index =
    let rest = find_free pool words rounds (index + 1) in
    if is_used pool words index then rest else some index

-- `&pool->storage[index * pool->block_size]`
abbrev pub block_address : MemoryPool → ℕ → ℕ
block_address pool index = add32 pool.storage (u32 (index * pool.block_size))

-- `JRT_MemoryPoolAllocate` on a pool that is not null.
unfoldable pub allocate : MemoryPool → (ℕ → ℕ) → (ℕ → ℕ) × ℕ
allocate pool words =
    if (pool.storage == 0) || (pool.used_bitmap == 0)
    then (words, 0)
    else elim (find_free pool words pool.block_count 0) [
      | none ↦ (words, 0)
      | some index ↦ (mark pool words index, block_address pool index)
    ]

-- The index of the block that an address begins, if `JRT_MemoryPoolFree` accepts the address.
unfoldable pub block_index : MemoryPool → ℕ → Option ℕ
block_index pool block =
    let offset = block - pool.storage in
    if (block == 0) || (pool.storage == 0) || (pool.used_bitmap == 0) || (pool.block_size == 0)
    then none
    else (if ltb block pool.storage
          || leb (add32 pool.storage (u32 (pool.block_size * pool.block_count))) block
        then none
        else (if offset % pool.block_size != 0 then none else some (offset / pool.block_size)))

-- `JRT_MemoryPoolFree` on a pool that is not null.
unfoldable pub free : MemoryPool → (ℕ → ℕ) → ℕ → (ℕ → ℕ) × ℕ
free pool words block = elim (block_index pool block) [
  | none ↦ (words, 0)
  | some index ↦ if is_used pool words index then (unmark pool words index, 1) else (words, 0)
]
