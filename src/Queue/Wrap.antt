-- ===== src/Queue/Wrap.antt =====
-- The front index is never taken round the end of the array: `f+1%QUEUE_SIZE` is `f + 1`.
use packetdrill_mptcp.Base.{
  ℕ, zero, suc, ◌+◌, ◌%◌, ◌^◌, ◌≤◌, ◌<◌, ◌≡◌, ◌≢◌, refl, arith, ok, fault, ◌==◌, Bool-cases, inl,
  inr, false, lt→ltb, ==_iff, ltb-false, some,
}
use packetdrill_mptcp.Queue.{Queue, queue_is_empty, queue_dequeue, queue_free, update}
use packetdrill_mptcp.Queue.View.{IsQueue}

module _ {A : Type 0} where
  -- One removal from a queue that is not empty.
  pub queue_dequeue_step :
      (null : A) (q : Queue A)
      → q.f < 255
      → q.f ≢ q.r
      → queue_dequeue null q
        ≡ ok (q.elements q.f, record q { elements = update q.elements q.f null; f = q.f + 1 })
  unfolding queue_dequeue
  queue_dequeue_step null q h ne =
      let full : (q.f == q.r) ≡ false = ground arith in
      let step : (q.f + 1 % 255) % 2 ^ 32 ≡ q.f + 1 = omega arith in
      rw (full, lt→ltb q.f 255 h, step) refl

  queue_dequeue_past_end :
      (null : A) (q : Queue A) → q.f ≡ 255 → q.r < 255 → queue_dequeue null q ≡ fault
  unfolding queue_dequeue
  queue_dequeue_past_end null q e h =
      let full : (q.f == q.r) ≡ false = ground arith in
      rw (full, ltb-false q.f 255 (omega arith)) refl

  -- When a queue whose indices lie inside the array has its front in the last cell and is not empty,
  -- a removal gives that cell's element and leaves a queue that does not count as empty, and the
  -- next removal reads past the end of the array.
  pub queue_dequeue_last :
      (null : A) (q : Queue A)
      → IsQueue q
      → q.f ≡ 254
      → q.r ≢ 254
      → (q' : Queue A) × (queue_dequeue null q ≡ ok (q.elements 254, q'))
        × (queue_is_empty q' ≡ false)
        × (queue_dequeue null q' ≡ fault)
  unfolding queue_is_empty
  queue_dequeue_last null q w e ne =
      let q' = record q { elements = update q.elements 254 null; f = 255 } in
      (
        q',
        rw (queue_dequeue_step null q w.front_fits (omega arith)) (ground arith),
        ground arith,
        queue_dequeue_past_end null q' refl w.rear_fits,
      )

  -- With more fuel than elements, queue_free empties a queue whose front does not stand behind its
  -- rear, and whose rear lies inside the array: it comes to an end with no fault.
  pub queue_free_drains :
      (fuel : ℕ) (null : A) (q : Queue A)
      → q.f ≤ q.r
      → q.r < 255
      → q.r < q.f + fuel
      → (q' : Queue A) × (queue_free fuel null q ≡ some (ok q')) × (q'.f ≡ q.r) × (q'.r ≡ q.r)
  unfolding queue_free
  queue_free_drains zero null q le fits enough = absurd (omega arith)
  queue_free_drains (suc fuel) null q le fits enough = elim (Bool-cases (q.f == q.r)) [
    | inl empty ↦ (q, rw (empty, queue_free) refl, (==_iff q.f q.r).0 empty, refl)
    | inr full ↦
        let ne : q.f ≢ q.r = ground arith in
        let q1 = record q { elements = update q.elements q.f null; f = q.f + 1 } in
        let (q', out, front, rear) =
          queue_free_drains fuel null q1 (omega arith) fits (omega arith) in
        (q', rw (full, queue_free, queue_dequeue_step null q (omega arith) ne) out, front, rear)
  ]

  -- On a queue whose rear has gone round the array and whose front has not, queue_free runs off the
  -- end of the array, if the fuel reaches that far.
  pub queue_free_wrapped :
      (fuel : ℕ) (null : A) (q : Queue A)
      → q.r < q.f
      → q.f ≤ 255
      → 255 < q.f + fuel
      → queue_free fuel null q ≡ some fault
  unfolding queue_free
  queue_free_wrapped zero null q behind fits enough = absurd (omega arith)
  queue_free_wrapped (suc fuel) null q behind fits enough =
      let full : (q.f == q.r) ≡ false = ground arith in
      elim (Bool-cases (q.f == 255)) [
        | inl last ↦
            rw
              (
                full,
                queue_free,
                queue_dequeue_past_end null q ((==_iff q.f 255).0 last) (omega arith),
              )
              refl
        | inr more ↦
            let inside : q.f < 255 = ground arith in
            rw (full, queue_free, queue_dequeue_step null q inside (omega arith))
              (queue_free_wrapped fuel null
                (record q { elements = update q.elements q.f null; f = q.f + 1 }) (omega arith)
                (omega arith) (omega arith))
      ]
