-- ===== src/Sync/Queue/Fifo.antt =====
-- A queue of sync.c holds its items first in, first out.
use just_rt.Common.{
  ℕ, zero, suc, ◌+◌, ◌-◌, ◌*◌, ◌%◌, ◌<◌, ◌≤◌, ◌≡◌, ◌≢◌, ◌⊎◌, inl, inr, refl, ◌∙◌, ap, ap₂, arith,
  List, [], ◌∷◌, ◌++◌,
}
use native.Mathlib.Nat.{mod-add-mod, mod-eq_of_lt, mod-eq-sub-mod, add-zero}
use native.Mathlib.Decide.{dec_lt}
use just_rt.Kernel.{Kernel}
use just_rt.Kernel.Objects
use just_rt.Sync.Queue.{slot_address}
use just_rt.Sync.Queue.Bytes.{read_bytes, Apart}

-- The bytes of the item in a slot.
abbrev pub slot_item : (ℕ → ℕ) → Objects.Queue → ℕ → List ℕ
slot_item bytes queue slot = read_bytes bytes (slot_address queue slot) queue.item_size

-- The items of the `n` slots from `slot` on, going round at the capacity.
abbrev pub items_from : (ℕ → ℕ) → Objects.Queue → ℕ → ℕ → List (List ℕ)
items_from bytes queue slot zero = []
items_from bytes queue slot (suc n) =
    slot_item bytes queue slot ∷ items_from bytes queue ((slot + 1) % queue.capacity) n

-- What of a queue fixes its slots.
abbrev pub shape : Objects.Queue → Objects.Queue
shape queue = record queue {
  head = 0;
  tail = 0;
  count = 0;
  send_reservations = 0;
  receive_reservations = 0;
}

-- The items that a queue holds, oldest first.
abbrev pub contents : Kernel → ℕ → List (List ℕ)
contents k q = let queue = k.queues q in items_from k.bytes (shape queue) queue.tail queue.count

-- The storage lies within 32 bits, so that no slot's offset wraps.
abbrev pub Addressable : Objects.Queue → Type 0
Addressable queue = queue.capacity * queue.item_size < 4294967296

mul-lt : (a b s : ℕ) → a < b → a * s + s ≤ b * s
mul-lt a b s h = grind arith

-- Where a slot begins, and that it ends within the storage.
pub slot_address_lem :
    (queue : Objects.Queue) (a : ℕ)
    → Addressable queue
    → a < queue.capacity
    → (slot_address queue a ≡ queue.storage + a * queue.item_size)
      × (a * queue.item_size + queue.item_size ≤ queue.capacity * queue.item_size)
slot_address_lem queue a h l = omega (
  arith,
  mul-lt a queue.capacity queue.item_size l,
  mod-eq_of_lt {n = a * queue.item_size} {m = 4294967296}
      (omega (arith, mul-lt a queue.capacity queue.item_size l)),
)

-- Slots of a queue do not overlap.
pub slots-Apart :
    (queue : Objects.Queue) (a b : ℕ)
    → Addressable queue
    → a < queue.capacity
    → b < queue.capacity
    → a ≢ b
    → Apart (slot_address queue a) queue.item_size (slot_address queue b) queue.item_size
slots-Apart queue a b h ha hb ne =
    rw ((slot_address_lem queue a h ha).0, (slot_address_lem queue b h hb).0)
      (elim (dec_lt a b) [
        | yes l ↦ inl (omega (arith, mul-lt a b queue.item_size l))
        | no g ↦ inr (omega (arith, mul-lt b a queue.item_size (omega arith)))
      ])

-- Below twice the capacity a remainder is one of two numbers.
mod_cases :
    (x capacity : ℕ)
    → x < capacity + capacity
    → ((x < capacity) × (x % capacity ≡ x)) ⊎ ((capacity ≤ x) × (x % capacity ≡ x - capacity))
mod_cases x capacity h = elim (dec_lt x capacity) [
  | yes l ↦ inl (l, mod-eq_of_lt l)
  | no g ↦ inr (
    omega arith,
    mod-eq-sub-mod {n = x} {m = capacity} (omega arith)
        ∙ mod-eq_of_lt {n = x - capacity} {m = capacity} (omega arith),
  )
]

-- Fewer than `capacity` steps round the queue do not come back.
pub slots-ne :
    (tail i n capacity : ℕ)
    → tail < capacity
    → i < n
    → n < capacity
    → (tail + i) % capacity ≢ (tail + n) % capacity
slots-ne tail i n capacity ht hi hn e = omega (
  arith,
  mod_cases (tail + i) capacity (omega arith),
  mod_cases (tail + n) capacity (omega arith),
)

-- The next slot, counted from the first one.
slot_shift :
    (slot i capacity : ℕ) → ((slot + 1) % capacity + i) % capacity ≡ (slot + suc i) % capacity
slot_shift slot i capacity = rw mod-add-mod (ap (λ (n : ℕ). n % capacity) (omega arith))

-- One slot more is one item more at the end.
pub items_from-snoc :
    (bytes : ℕ → ℕ) (queue : Objects.Queue) (slot n : ℕ)
    → slot < queue.capacity
    → items_from bytes queue slot (suc n)
      ≡ items_from bytes queue slot n ++ (slot_item bytes queue ((slot + n) % queue.capacity) ∷ [])
items_from-snoc bytes queue slot zero h = rw (add-zero, mod-eq_of_lt h)
items_from-snoc bytes queue slot (suc n) h =
    ap (λ xs. slot_item bytes queue slot ∷ xs)
      (items_from-snoc bytes queue ((slot + 1) % queue.capacity) n (omega arith)
        ∙ ap
            (λ (a : ℕ).
              items_from bytes queue ((slot + 1) % queue.capacity) n
              ++ (slot_item bytes queue a ∷ []))
            (slot_shift slot n queue.capacity))

-- Memories that agree on the slots give the same items.
pub items_from-ext :
    (f g : ℕ → ℕ) (queue : Objects.Queue) (slot n : ℕ)
    → ((i : ℕ)
        → i < n
        → slot_item f queue ((slot + i) % queue.capacity)
          ≡ slot_item g queue ((slot + i) % queue.capacity))
    → slot < queue.capacity
    → items_from f queue slot n ≡ items_from g queue slot n
items_from-ext f g queue slot zero h l = refl
items_from-ext f g queue slot (suc n) h l =
    ap₂ ◌∷◌ (rw (add-zero, mod-eq_of_lt l) at (h 0 (omega arith))) (
      items_from-ext f g queue ((slot + 1) % queue.capacity) n
        (λ i b. rw (slot_shift slot i queue.capacity) (h (suc i) (omega arith))) (omega arith))
