-- ===== src/Examples/Queues.antt =====
-- Runs and instances of the theorems on the circular queues.
use packetdrill_mptcp.Base.{ℕ, ◌*◌, ◌≡◌, refl, arith, some, ok, fault, false}
use packetdrill_mptcp.Queue.{
  Queue, queue_is_empty, queue_front, queue_enqueue, queue_dequeue, queue_dequeue_val, queue_free,
}
use packetdrill_mptcp.Queue.View.{contents}
use packetdrill_mptcp.Queue.Refine.{
  Enqueued, Dequeued, queue_enqueue-Enqueued, queue_dequeue-Dequeued, queue_dequeue_val-Dequeued,
}
use packetdrill_mptcp.Queue.Wrap.{queue_dequeue_last, queue_free_drains, queue_free_wrapped}

-- Two elements, 20 and 30.
abbrev two_held : Queue ℕ
two_held = record { elements = λ i. i * 10; r = 4; f = 2 }

-- The front stands in the last cell, and the rear has gone round.
abbrev at_last_cell : Queue ℕ
at_last_cell = record { elements = λ i. i * 10; r = 3; f = 254 }

front_of_two : queue_front two_held ≡ ok 20
unfolding queue_front
front_of_two = refl

queue_enqueue-Enqueued_example : Enqueued 7 (contents two_held) (queue_enqueue 7 two_held)
queue_enqueue-Enqueued_example = queue_enqueue-Enqueued 7 two_held (omega arith)

queue_dequeue-Dequeued_example : Dequeued (contents two_held) (queue_dequeue 0 two_held)
queue_dequeue-Dequeued_example = queue_dequeue-Dequeued 0 two_held (omega arith) (omega arith)

queue_dequeue_val-Dequeued_example : Dequeued (contents two_held) (queue_dequeue_val two_held)
queue_dequeue_val-Dequeued_example = queue_dequeue_val-Dequeued two_held (omega arith) (omega arith)

queue_dequeue_last_example :
    (q' : Queue ℕ) × (queue_dequeue 0 at_last_cell ≡ ok (2540, q'))
    × (queue_is_empty q' ≡ false)
    × (queue_dequeue 0 q' ≡ fault)
queue_dequeue_last_example = queue_dequeue_last 0 at_last_cell (omega arith) refl (omega arith)

queue_free_drains_example :
    (q' : Queue ℕ) × (queue_free 3 0 two_held ≡ some (ok q')) × (q'.f ≡ 4) × (q'.r ≡ 4)
queue_free_drains_example = queue_free_drains 3 0 two_held (omega arith) (omega arith) (omega arith)

queue_free_wrapped_example : queue_free 2 0 at_last_cell ≡ some fault
queue_free_wrapped_example =
    queue_free_wrapped 2 0 at_last_cell (omega arith) (omega arith) (omega arith)
