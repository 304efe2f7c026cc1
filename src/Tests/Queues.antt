-- ===== src/Tests/Queues.antt =====
-- Queues of sync.c at concrete kernels.
use just_rt.Common.{◌≡◌, inl, refl, arith, [], ◌∷◌}
use just_rt.Kernel.{Kernel}
use just_rt.Wait.{Deadline, outcome_kernel, returned, wait_deadline}
use just_rt.Sync.Queue
use just_rt.Sync.Queue.Valid.{QueueOk}
use just_rt.Sync.Queue.Rounds.{send_round-QueueOk, receive_round-QueueOk, send_from_isr-QueueOk}
use just_rt.Sync.Queue.Fifo.{contents}
use just_rt.Sync.Queue.Bytes.{read_bytes}
use just_rt.Sync.Queue.Transfer.{send_round-contents, receive_round-contents}
use just_rt.Tests.Fixture.{demo, demo_queue}

abbrev soon : Deadline
soon = wait_deadline demo 10

demo_queue-QueueOk : QueueOk demo_queue
demo_queue-QueueOk = omega arith

contents-demo : contents demo 300 ≡ (1000 ∷ 1001 ∷ []) ∷ []
contents-demo = refl

send_round-QueueOk_example :
    QueueOk ((outcome_kernel (Queue.send_round demo 300 2000 10 soon 0)).queues 300)
send_round-QueueOk_example =
    send_round-QueueOk demo 300 2000 10 soon 0 300 (omega arith) (inl refl) demo_queue-QueueOk
      demo_queue-QueueOk

receive_round-QueueOk_example :
    QueueOk ((outcome_kernel (Queue.receive_round demo 300 2000 10 soon 0)).queues 300)
receive_round-QueueOk_example =
    receive_round-QueueOk demo 300 2000 10 soon 0 300 (omega arith) (inl refl) demo_queue-QueueOk
      demo_queue-QueueOk

send_from_isr-QueueOk_example : QueueOk ((Queue.send_from_isr demo 300 2000).0.queues 300)
send_from_isr-QueueOk_example =
    send_from_isr-QueueOk demo 300 2000 300 (omega arith) demo_queue-QueueOk demo_queue-QueueOk

send_round-contents_example :
    (k : Kernel) × (Queue.send_round demo 300 2000 10 soon 0 ≡ returned k 1)
    × (contents k 300 ≡ (1000 ∷ 1001 ∷ []) ∷ (2000 ∷ 2001 ∷ []) ∷ [])
send_round-contents_example =
    send_round-contents demo 300 2000 10 0 soon (omega arith) demo_queue-QueueOk (omega arith)
      (omega arith) (omega arith) (omega arith)

receive_round-contents_example :
    (k : Kernel) × (Queue.receive_round demo 300 2000 10 soon 0 ≡ returned k 1)
    × (contents demo 300 ≡ read_bytes k.bytes 2000 2 ∷ contents k 300)
receive_round-contents_example =
    receive_round-contents demo 300 2000 10 0 soon (omega arith) demo_queue-QueueOk (omega arith)
      (omega arith) (omega arith) (omega arith)
