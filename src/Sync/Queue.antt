-- ===== src/Sync/Queue.antt =====
-- Bounded queues of kernel/sync.c. Storage and items are addresses into the byte memory.
pub mod Bytes
pub mod Valid
pub mod Rounds
pub mod Fifo
pub mod Transfer
use just_rt.Common.{
  ℕ, zero, suc, ◌+◌, ◌*◌, ◌%◌, ◌&&◌, ◌||◌, not, ltb, ◌==◌, ◌!=◌, if◌then◌else◌, u32, add32, sub32,
  update,
}
use just_rt.Kernel.{Kernel, Counters, request_switch}
use just_rt.Kernel.Objects
use just_rt.Kernel.WaitKind
use just_rt.Wait.{Deadline, Outcome, returned, block_until_locked, wake, wait_result}
use just_rt.Sync.{count_context_misuse}

abbrev pub set_queue : Kernel → ℕ → Objects.Queue → Kernel
set_queue k q v = record k { queues = update k.queues q v }

-- `for (index = 0; index < item_size; index++) destination[index] = source[index];`
unfoldable pub copy_bytes : ℕ → (ℕ → ℕ) → ℕ → ℕ → ℕ → ℕ
copy_bytes zero bytes destination source = bytes
copy_bytes (suc n) bytes destination source =
    copy_bytes n (update bytes destination (bytes source)) (destination + 1) (source + 1)

-- `JRT_QueueCreateStatic`
unfoldable pub create : Kernel → ℕ → ℕ → ℕ → ℕ → Kernel
create k q storage capacity item_size = set_queue k q (record {
  storage = storage;
  capacity = capacity;
  item_size = item_size;
  head = 0;
  tail = 0;
  count = 0;
  send_reservations = 0;
  receive_reservations = 0;
})

-- The address `&queue->storage[slot * queue->item_size]`, whose product is a `uint32_t`.
abbrev pub slot_address : Objects.Queue → ℕ → ℕ
slot_address queue slot = queue.storage + u32 (slot * queue.item_size)

-- The queue's fields after an item is stored.
unfoldable pub pushed : Objects.Queue → ℕ → Objects.Queue
pushed queue reserved = record queue {
  send_reservations =
      if reserved != 0 then sub32 queue.send_reservations 1 else queue.send_reservations;
  head = add32 queue.head 1 % queue.capacity;
  count = add32 queue.count 1;
}

-- The queue's fields after an item is taken.
unfoldable pub popped : Objects.Queue → ℕ → Objects.Queue
popped queue reserved = record queue {
  receive_reservations =
      if reserved != 0 then sub32 queue.receive_reservations 1 else queue.receive_reservations;
  tail = add32 queue.tail 1 % queue.capacity;
  count = sub32 queue.count 1;
}

-- Storing the item: the copy, then the fields.
unfoldable pub push_item : Kernel → ℕ → ℕ → ℕ → Kernel
push_item k q item reserved =
    let queue = k.queues q in
    record (set_queue k q (pushed queue reserved)) {
      bytes = copy_bytes queue.item_size k.bytes (slot_address queue queue.head) item;
    }

-- Taking the oldest item: the copy, then the fields.
unfoldable pub pop_item : Kernel → ℕ → ℕ → ℕ → Kernel
pop_item k q item reserved =
    let queue = k.queues q in
    record (set_queue k q (popped queue reserved)) {
      bytes = copy_bytes queue.item_size k.bytes item (slot_address queue queue.tail);
    }

-- `if (task_wake(queue, TASK_WAIT_QUEUE_RECEIVE) != 0) queue->receive_reservations++;`
unfoldable pub wake_receiver : Kernel → ℕ → Kernel
wake_receiver k q =
    let (woken, hit) = wake k q WaitKind.queue_receive in
    let queue = woken.queues q in
    if hit != 0
    then set_queue woken q
        (record queue { receive_reservations = add32 queue.receive_reservations 1 })
    else woken

-- `if (task_wake(queue, TASK_WAIT_QUEUE_SEND) != 0) queue->send_reservations++;`
unfoldable pub wake_sender : Kernel → ℕ → Kernel
wake_sender k q =
    let (woken, hit) = wake k q WaitKind.queue_send in
    let queue = woken.queues q in
    if hit != 0
    then set_queue woken q (record queue { send_reservations = add32 queue.send_reservations 1 })
    else woken

-- One round of the loop of `JRT_QueueSend`
unfoldable pub send_round : Kernel → ℕ → ℕ → ℕ → Deadline → ℕ → Outcome
send_round k q item timeout deadline reserved =
    let queue = k.queues q in
    if (queue.capacity != 0)
      && (queue.item_size != 0)
      && ((reserved != 0) || ltb (add32 queue.count queue.send_reservations) queue.capacity)
    then returned (wake_receiver (push_item k q item reserved) q) 1
    else (if timeout == 0
        then returned k 0
        else block_until_locked k q WaitKind.queue_send deadline)

-- `JRT_QueueSend`
unfoldable pub send : Kernel → ℕ → ℕ → ℕ → Deadline → Outcome
send k q item timeout deadline =
    if k.in_isr
    then returned
        (count_context_misuse (λ c. record c { misuse_queue_send = add32 c.misuse_queue_send 1 }) k)
        0
    else send_round k q item timeout deadline 0

-- `JRT_QueueSend` when the task runs again after a wait.
unfoldable pub send_resume : Kernel → ℕ → ℕ → ℕ → Deadline → Outcome
send_resume k q item timeout deadline =
    if wait_result k == 0 then returned k 0 else send_round k q item timeout deadline 1

-- One round of the loop of `JRT_QueueReceive`
unfoldable pub receive_round : Kernel → ℕ → ℕ → ℕ → Deadline → ℕ → Outcome
receive_round k q item timeout deadline reserved =
    let queue = k.queues q in
    if (queue.item_size != 0) && ((reserved != 0) || ltb queue.receive_reservations queue.count)
    then returned (wake_sender (pop_item k q item reserved) q) 1
    else (if timeout == 0
        then returned k 0
        else block_until_locked k q WaitKind.queue_receive deadline)

-- `JRT_QueueReceive`
unfoldable pub receive : Kernel → ℕ → ℕ → ℕ → Deadline → Outcome
receive k q item timeout deadline =
    if k.in_isr
    then returned
        (count_context_misuse
          (λ c. record c { misuse_queue_receive = add32 c.misuse_queue_receive 1 }) k)
        0
    else receive_round k q item timeout deadline 0

-- `JRT_QueueReceive` when the task runs again after a wait.
unfoldable pub receive_resume : Kernel → ℕ → ℕ → ℕ → Deadline → Outcome
receive_resume k q item timeout deadline =
    if wait_result k == 0 then returned k 0 else receive_round k q item timeout deadline 1

-- The counters that `JRT_QueueSendFromISR` keeps of an accepted item.
unfoldable pub count_accepted : Kernel → ℕ → Kernel
count_accepted k count =
    let c = k.counters in
    record k {
      counters = record c {
        isr_queue_send_accepted = add32 c.isr_queue_send_accepted 1;
        isr_queue_count_high_water =
            if ltb c.isr_queue_count_high_water count then count else c.isr_queue_count_high_water;
      };
    }

-- `JRT_QueueSendFromISR`
unfoldable pub send_from_isr : Kernel → ℕ → ℕ → Kernel × ℕ
send_from_isr k q item =
    let queue = k.queues q in
    let c = k.counters in
    let attempted = record k {
      counters = record c { isr_queue_send_attempted = add32 c.isr_queue_send_attempted 1 };
    } in
    let stored = push_item attempted q item 0 in
    if not k.in_isr
    then (
      count_context_misuse
          (λ c. record c { misuse_queue_send_from_isr = add32 c.misuse_queue_send_from_isr 1 }) k,
      0,
    )
    else (if (queue.capacity != 0)
          && (queue.item_size != 0)
          && ltb (add32 queue.count queue.send_reservations) queue.capacity
        then (request_switch (wake_receiver (count_accepted stored (stored.queues q).count) q), 1)
        else (
          record attempted {
            counters = record attempted.counters {
              isr_queue_send_dropped = add32 attempted.counters.isr_queue_send_dropped 1;
            };
          },
          0,
        ))
