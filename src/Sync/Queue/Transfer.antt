-- ===== src/Sync/Queue/Transfer.antt =====
-- What `JRT_QueueSend` and `JRT_QueueReceive` of sync.c do to the items of the queue.
use just_rt.Common.{
  ℕ, suc, ◌+◌, ◌-◌, ◌*◌, ◌%◌, ◌<◌, ◌≡◌, ◌≢◌, inl, inr, refl, true, ◌∙◌, ap, ap₂, sym, arith, [],
  ◌∷◌, ◌++◌, ==_refl, add32, sub32, ◌!=◌, ◌&&◌, ◌||◌, ltb,
}
use just_rt.Kernel.{Kernel}
use just_rt.Kernel.Objects
use just_rt.Wait.{Deadline, returned}
use just_rt.Sync.Queue.{
  pushed, popped, push_item, pop_item, slot_address, copy_bytes, wake_receiver, wake_sender,
  send_round, receive_round,
}
use just_rt.Sync.Queue.Bytes.{read_bytes, Apart, copy_bytes-above, copy_bytes_lem}
use just_rt.Sync.Queue.Valid.{QueueOk, MaySend, MayReceive}
use just_rt.Sync.Queue.Rounds.{wake_receiver_lem, wake_sender_lem}
use just_rt.Sync.Queue.Fifo.{
  slot_item, items_from, contents, Addressable, shape, slot_address_lem, slots-Apart, slots-ne,
  items_from-snoc, items_from-ext,
}

-- An item's memory is outside the queue's storage.
abbrev pub ItemApart : Objects.Queue → ℕ → Type 0
ItemApart queue item = Apart queue.storage (queue.capacity * queue.item_size) item queue.item_size

slot-ItemApart :
    (queue : Objects.Queue) (item slot : ℕ)
    → Addressable queue
    → slot < queue.capacity
    → ItemApart queue item
    → Apart (slot_address queue slot) queue.item_size item queue.item_size
slot-ItemApart queue item slot a l h =
    rw ((slot_address_lem queue slot a l).0) (omega (arith, (slot_address_lem queue slot a l).1))

module _ (k : Kernel) (q item reserved : ℕ) where
  abbrev queue : Objects.Queue
  queue = k.queues q

  push_item-contents :
      QueueOk queue
      → MaySend queue reserved
      → Addressable queue
      → ItemApart queue item
      → contents (push_item k q item reserved) q
        ≡ contents k q ++ (read_bytes k.bytes item queue.item_size ∷ [])
  unfolding push_item pushed
  push_item-contents v may a apart =
      let room : queue.count < queue.capacity = omega (arith, v.fits) in
      let count' : add32 queue.count 1 ≡ suc queue.count = omega (arith, v.small) in
      let head : queue.head < queue.capacity = omega (arith, v.head_at, v.tail_in) in
      let stored = copy_bytes queue.item_size k.bytes (slot_address queue queue.head) item in
      let kept : items_from stored (shape queue) queue.tail queue.count ≡ contents k q =
        items_from-ext stored k.bytes (shape queue) queue.tail queue.count
          (λ i l.
            copy_bytes-above queue.item_size k.bytes (slot_address queue queue.head) item _
              queue.item_size
              (slots-Apart queue queue.head ((queue.tail + i) % queue.capacity) a head
                (omega (arith, v.tail_in))
                (λ e.
                  slots-ne queue.tail i queue.count queue.capacity v.tail_in l room
                    (sym e ∙ v.head_at))))
          v.tail_in in
      let new : slot_item stored (shape queue) ((queue.tail + queue.count) % queue.capacity)
          ≡ read_bytes k.bytes item queue.item_size =
        rw (← v.head_at) (
          copy_bytes_lem queue.item_size k.bytes (slot_address queue queue.head) item
            (slot-ItemApart queue item queue.head a head apart)) in
      rw (==_refl q, count')
        (items_from-snoc stored (shape queue) queue.tail queue.count v.tail_in
          ∙ ap₂ (λ xs x. xs ++ (x ∷ [])) kept new)

  pop_item-contents :
      QueueOk queue
      → MayReceive queue reserved
      → Addressable queue
      → ItemApart queue item
      → contents k q
        ≡ read_bytes (pop_item k q item reserved).bytes item queue.item_size
          ∷ contents (pop_item k q item reserved) q
  unfolding pop_item popped
  pop_item-contents v may a apart =
      let pos : 0 < queue.count = omega (arith, v.promised) in
      let count' : sub32 queue.count 1 ≡ queue.count - 1 = omega (arith, v.small, v.fits) in
      let count : queue.count ≡ suc (queue.count - 1) = omega arith in
      let tail' : add32 queue.tail 1 ≡ queue.tail + 1 = omega (arith, v.tail_in, v.small) in
      let taken = copy_bytes queue.item_size k.bytes item (slot_address queue queue.tail) in
      let next : ℕ = (queue.tail + 1) % queue.capacity in
      let next_in : next < queue.capacity = omega (arith, v.tail_in) in
      let out : slot_item k.bytes (shape queue) queue.tail ≡ read_bytes taken item queue.item_size =
        sym (
          copy_bytes_lem queue.item_size k.bytes item (slot_address queue queue.tail)
            (omega (arith, slot-ItemApart queue item queue.tail a v.tail_in apart))) in
      let kept : items_from k.bytes (shape queue) next (queue.count - 1)
          ≡ items_from taken (shape queue) next (queue.count - 1) =
        items_from-ext k.bytes taken (shape queue) next (queue.count - 1)
          (λ i l. sym (
            copy_bytes-above queue.item_size k.bytes item (slot_address queue queue.tail) _
              queue.item_size
              (omega (
                arith,
                slot-ItemApart queue item ((next + i) % queue.capacity) a (omega (arith, v.tail_in))
                    apart,
              ))))
          next_in in
      rw (==_refl q, tail', count')
        (ap (λ (n : ℕ). items_from k.bytes (shape queue) queue.tail n) count ∙ ap₂ ◌∷◌ out kept)

wake_receiver-contents :
    (k : Kernel) (q : ℕ)
    → k.task_count < 4294967296
    → (contents (wake_receiver k q) q ≡ contents k q) × ((wake_receiver k q).bytes ≡ k.bytes)
wake_receiver-contents k q h = elim (wake_receiver_lem k q h) [
  | inl (s, best, e) ↦ rw e (rw (==_refl q), refl)
  | inr (quiet, e) ↦ rw e (refl, refl)
]

wake_sender-contents :
    (k : Kernel) (q : ℕ)
    → k.task_count < 4294967296
    → (contents (wake_sender k q) q ≡ contents k q) × ((wake_sender k q).bytes ≡ k.bytes)
wake_sender-contents k q h = elim (wake_sender_lem k q h) [
  | inl (s, best, e) ↦ rw e (rw (==_refl q), refl)
  | inr (quiet, e) ↦ rw e (refl, refl)
]

push_item-task_count :
    (k : Kernel) (q item reserved : ℕ) → (push_item k q item reserved).task_count ≡ k.task_count
unfolding push_item
push_item-task_count k q item reserved = refl

pop_item-task_count :
    (k : Kernel) (q item reserved : ℕ) → (pop_item k q item reserved).task_count ≡ k.task_count
unfolding pop_item
pop_item-task_count k q item reserved = refl

-- A sender for which there is room, or a reserved slot, returns 1 at once and appends its item's
-- bytes, in their order, to the items of the queue. (Item memory and storage have no byte in
-- common, and the storage is smaller than 2 ^ 32 bytes.)
pub send_round-contents :
    (k : Kernel) (q item timeout reserved : ℕ) (d : Deadline)
    → k.task_count < 4294967296
    → QueueOk (k.queues q)
    → (k.queues q).item_size ≢ 0
    → MaySend (k.queues q) reserved
    → Addressable (k.queues q)
    → ItemApart (k.queues q) item
    → (k' : Kernel) × (send_round k q item timeout d reserved ≡ returned k' 1)
      × (contents k' q ≡ contents k q ++ (read_bytes k.bytes item (k.queues q).item_size ∷ []))
unfolding send_round
send_round-contents k q item timeout reserved d h v size may a apart =
    let queue = k.queues q in
    let go : ((queue.capacity != 0)
          && (queue.item_size != 0)
          && ((reserved != 0) || ltb (add32 queue.count queue.send_reservations) queue.capacity))
        ≡ true =
      ground (arith, v.fits, v.small) in
    (
      wake_receiver (push_item k q item reserved) q,
      rw go,
      (wake_receiver-contents (push_item k q item reserved) q (rw push_item-task_count h)).0
          ∙ push_item-contents k q item reserved v may a apart,
    )

-- A receiver for which there is an unpromised item, or a promised one, returns 1 at once; the
-- queue's items were the bytes that it now finds in its own memory, followed by the items left.
pub receive_round-contents :
    (k : Kernel) (q item timeout reserved : ℕ) (d : Deadline)
    → k.task_count < 4294967296
    → QueueOk (k.queues q)
    → (k.queues q).item_size ≢ 0
    → MayReceive (k.queues q) reserved
    → Addressable (k.queues q)
    → ItemApart (k.queues q) item
    → (k' : Kernel) × (receive_round k q item timeout d reserved ≡ returned k' 1)
      × (contents k q ≡ read_bytes k'.bytes item (k.queues q).item_size ∷ contents k' q)
unfolding receive_round
receive_round-contents k q item timeout reserved d h v size may a apart =
    let queue = k.queues q in
    let go : ((queue.item_size != 0)
          && ((reserved != 0) || ltb queue.receive_reservations queue.count))
        ≡ true =
      ground arith in
    let popped = pop_item k q item reserved in
    let (kept, same) = wake_sender-contents popped q (rw pop_item-task_count h) in
    (
      wake_sender popped q,
      rw go,
      rw (kept, same) (pop_item-contents k q item reserved v may a apart),
    )
