-- ===== src/Sync/Queue/Valid.antt =====
-- The representation invariant of `JRT_Queue_t` of sync.c, reservations included.
use just_rt.Common.{ℕ, ◌+◌, ◌-◌, ◌%◌, ◌<◌, ◌≤◌, ◌≡◌, ◌≢◌, ◌⊎◌, ap, arith, add32, sub32}
use native.Mathlib.Nat.{mod-add-mod}
use just_rt.Kernel.Objects
use just_rt.Sync.Queue.{pushed, popped}

-- The items and the slots promised to woken senders fit, the items promised to woken receivers are
-- there, and the head is where the items end.
pub record QueueOk (queue : Objects.Queue) : Type 0 where
  pub small : queue.capacity < 4294967296
  pub fits : queue.count + queue.send_reservations ≤ queue.capacity
  pub promised : queue.receive_reservations ≤ queue.count
  pub tail_in : queue.tail < queue.capacity
  pub head_at : queue.head ≡ (queue.tail + queue.count) % queue.capacity

-- A sender may store: there is an unreserved slot, or a slot is reserved for it.
abbrev pub MaySend : Objects.Queue → ℕ → Type 0
MaySend queue reserved =
    ((reserved ≡ 0) × (queue.count + queue.send_reservations < queue.capacity))
    ⊎ ((reserved ≢ 0) × (0 < queue.send_reservations))

-- A receiver may take: there is an unpromised item, or an item is promised to it.
abbrev pub MayReceive : Objects.Queue → ℕ → Type 0
MayReceive queue reserved =
    ((reserved ≡ 0) × (queue.receive_reservations < queue.count))
    ⊎ ((reserved ≢ 0) × (0 < queue.receive_reservations))

head_next :
    (tail count head capacity : ℕ)
    → capacity < 4294967296
    → 0 < capacity
    → head ≡ (tail + count) % capacity
    → add32 head 1 % capacity ≡ (tail + (count + 1)) % capacity
head_next tail count head capacity small pos e =
    let inside : head < capacity = omega arith in
    let exact : add32 head 1 ≡ (tail + count) % capacity + 1 = omega arith in
    rw (exact, mod-add-mod) (ap (λ (n : ℕ). n % capacity) (omega arith))

tail_next :
    (tail count capacity : ℕ)
    → capacity < 4294967296
    → tail < capacity
    → 0 < count
    → (add32 tail 1 % capacity + (count - 1)) % capacity ≡ (tail + count) % capacity
tail_next tail count capacity small inside pos =
    let exact : add32 tail 1 ≡ tail + 1 = omega arith in
    rw (exact, mod-add-mod) (ap (λ (n : ℕ). n % capacity) (omega arith))

module _ (queue : Objects.Queue) (reserved : ℕ) (v : QueueOk queue) where
  -- Storing an item keeps the invariant, and there is an unpromised item then.
  pub pushed-QueueOk :
      MaySend queue reserved
      → QueueOk (pushed queue reserved)
        × ((pushed queue reserved).receive_reservations < (pushed queue reserved).count)
  unfolding pushed
  pushed-QueueOk may =
      let count' : add32 queue.count 1 ≡ queue.count + 1 =
        omega (arith, v.small, v.fits, v.tail_in) in
      (
        record {
          small = v.small;
          fits = ground (arith, v.small, v.fits);
          promised = omega (arith, v.promised);
          tail_in = v.tail_in;
          head_at = rw count' (
              head_next queue.tail queue.count queue.head queue.capacity v.small
                (omega (arith, v.tail_in)) v.head_at);
        },
        omega (arith, v.promised),
      )

  -- Taking an item keeps the invariant, and there is an unreserved slot then.
  pub popped-QueueOk :
      MayReceive queue reserved
      → QueueOk (popped queue reserved)
        × ((popped queue reserved).count + (popped queue reserved).send_reservations
            < (popped queue reserved).capacity)
  unfolding popped
  popped-QueueOk may =
      let pos : 0 < queue.count = omega (arith, v.promised) in
      let count' : sub32 queue.count 1 ≡ queue.count - 1 = omega (arith, v.small, v.fits) in
      (
        record {
          small = v.small;
          fits = omega (arith, v.fits);
          promised = ground (arith, v.promised, v.small, v.fits);
          tail_in = omega (arith, v.tail_in);
          head_at =
              rw (count', tail_next queue.tail queue.count queue.capacity v.small v.tail_in pos)
                v.head_at;
        },
        omega (arith, v.fits),
      )

-- The reservations that a wake-up adds.
abbrev pub promise : Objects.Queue → Objects.Queue
promise queue = record queue { receive_reservations = add32 queue.receive_reservations 1 }

abbrev pub reserve : Objects.Queue → Objects.Queue
reserve queue = record queue { send_reservations = add32 queue.send_reservations 1 }

pub promise-QueueOk :
    (queue : Objects.Queue)
    → QueueOk queue
    → queue.receive_reservations < queue.count
    → QueueOk (promise queue)
promise-QueueOk queue v h = record {
  small = v.small;
  fits = v.fits;
  promised = omega (arith, v.small, v.fits);
  tail_in = v.tail_in;
  head_at = v.head_at;
}

pub reserve-QueueOk :
    (queue : Objects.Queue)
    → QueueOk queue
    → queue.count + queue.send_reservations < queue.capacity
    → QueueOk (reserve queue)
reserve-QueueOk queue v h = record {
  small = v.small;
  fits = omega (arith, v.small);
  promised = v.promised;
  tail_in = v.tail_in;
  head_at = v.head_at;
}
