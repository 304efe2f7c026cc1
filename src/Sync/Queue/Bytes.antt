-- ===== src/Sync/Queue/Bytes.antt =====
-- The byte copies of sync.c: what an item reads back as, and what a copy leaves alone.
use just_rt.Common.{
  ℕ, zero, suc, ◌+◌, ◌<◌, ◌≤◌, ◌≡◌, ◌⊎◌, refl, ◌∙◌, ap₂, arith, List, [], ◌∷◌, update, update_self,
  update_ne,
}
use just_rt.Sync.Queue.{copy_bytes}

-- The `n` bytes from an address on.
abbrev pub read_bytes : (ℕ → ℕ) → ℕ → ℕ → List ℕ
read_bytes bytes address zero = []
read_bytes bytes address (suc n) = bytes address ∷ read_bytes bytes (address + 1) n

-- The `n` bytes at `a` and the `m` bytes at `b` have none in common.
abbrev pub Apart : ℕ → ℕ → ℕ → ℕ → Type 0
Apart a n b m = (a + n ≤ b) ⊎ (b + m ≤ a)

read_bytes-ext :
    (f g : ℕ → ℕ) (a n : ℕ)
    → ((p : ℕ) → a ≤ p → p < a + n → f p ≡ g p)
    → read_bytes f a n ≡ read_bytes g a n
read_bytes-ext f g a zero h = refl
read_bytes-ext f g a (suc n) h =
    ap₂ ◌∷◌ (h a (omega arith) (omega arith))
      (read_bytes-ext f g (a + 1) n (λ p l u. h p (omega arith) (omega arith)))

-- A copy changes no byte outside its destination.
copy_bytes-outside :
    (n : ℕ) (bytes : ℕ → ℕ) (destination source p : ℕ)
    → (p < destination) ⊎ (destination + n ≤ p)
    → copy_bytes n bytes destination source p ≡ bytes p
unfolding copy_bytes
copy_bytes-outside zero bytes destination source p h = refl
copy_bytes-outside (suc n) bytes destination source p h =
    copy_bytes-outside n (update bytes destination (bytes source)) (destination + 1) (source + 1) p
      (omega arith)
    ∙ update_ne bytes destination p (bytes source) (λ e. omega arith)

pub copy_bytes-above :
    (n : ℕ) (bytes : ℕ → ℕ) (destination source a m : ℕ)
    → Apart destination n a m
    → read_bytes (copy_bytes n bytes destination source) a m ≡ read_bytes bytes a m
copy_bytes-above n bytes destination source a m h =
    read_bytes-ext (copy_bytes n bytes destination source) bytes a m
      (λ p l u. copy_bytes-outside n bytes destination source p (omega arith))

-- After a copy the destination reads as the source did, if they have no byte in common.
pub copy_bytes_lem :
    (n : ℕ) (bytes : ℕ → ℕ) (destination source : ℕ)
    → Apart destination n source n
    → read_bytes (copy_bytes n bytes destination source) destination n ≡ read_bytes bytes source n
unfolding copy_bytes
copy_bytes_lem zero bytes destination source h = refl
copy_bytes_lem (suc n) bytes destination source h =
    let first = update bytes destination (bytes source) in
    ap₂ ◌∷◌
      (copy_bytes-outside n first (destination + 1) (source + 1) destination (omega arith)
        ∙ update_self bytes destination (bytes source))
      (copy_bytes_lem n first (destination + 1) (source + 1) (omega arith)
        ∙ read_bytes-ext first bytes (source + 1) n
            (λ p l u. update_ne bytes destination p (bytes source) (λ e. omega arith)))
