-- ===== src/Queue/Refine.antt =====
-- Inside the array a queue is first in, first out: each operation is the list operation on the
-- contents, errors included.
use packetdrill_mptcp.Base.{
  ℕ, suc, ◌+◌, ◌-◌, ◌%◌, ◌^◌, ◌<◌, ◌≡◌, ◌≢◌, refl, ap, ◌∙◌, arith, List, [], ◌∷◌, ◌++◌, length,
  Outcome, ok, status_err, fault, ◌==◌, Bool-cases, lt→ltb, ==_iff, sym, inl, inr,
}
use packetdrill_mptcp.Queue.{
  Queue, queue_init, queue_size, queue_dequeue, queue_dequeue_val, queue_enqueue, update,
}
use packetdrill_mptcp.Queue.View.{
  IsQueue, window, contents, window-snoc, window-update, window-update_before, update_self,
  queue_size_lem, length-contents,
}

module _ {A : Type 0} where
  pub queue_init-IsQueue : (q : Queue A) → IsQueue (queue_init q) × (contents (queue_init q) ≡ [])
  unfolding queue_init queue_size
  queue_init-IsQueue q = (omega arith, refl)

  pub queue_size_zero : (q : Queue A) → IsQueue q → q.f ≡ q.r → queue_size q ≡ 0
  unfolding queue_size
  queue_size_zero q w e = omega arith

  queue_size_pos : (q : Queue A) → IsQueue q → q.f ≢ q.r → (n : ℕ) × (queue_size q ≡ suc n)
  unfolding queue_size
  queue_size_pos q w e = (queue_size q - 1, omega arith)

  -- The size after an enqueue below the limit.
  queue_size_grows :
      (q : Queue A) (e : ℕ → A)
      → IsQueue q
      → queue_size q ≢ 254
      → queue_size (record q { elements = e; r = (q.r + 1) % 2 ^ 32 % 255 }) ≡ suc (queue_size q)
  unfolding queue_size
  queue_size_grows q e w h = omega arith

  queue_size_shrinks :
      (q : Queue A) (e : ℕ → A)
      → IsQueue q
      → q.f < 254
      → q.f ≢ q.r
      → suc (queue_size (record q { elements = e; f = q.f + 1 })) ≡ queue_size q
  unfolding queue_size
  queue_size_shrinks q e w h ne = omega arith

  -- What an enqueue of `x` may answer on the contents `xs`.
  abbrev pub Enqueued : A → List A → Outcome (Queue A) → Type 0
  Enqueued x xs (ok q) = (length xs < 254) × IsQueue q × (contents q ≡ xs ++ (x ∷ []))
  Enqueued x xs status_err = length xs ≡ 254
  Enqueued x xs fault = ⊥

  -- What a removal may answer.
  abbrev pub Dequeued : List A → Outcome (A × Queue A) → Type 0
  Dequeued xs (ok (x, q)) = IsQueue q × (xs ≡ x ∷ contents q)
  Dequeued xs status_err = xs ≡ []
  Dequeued xs fault = ⊥

  contents-enqueue :
      (x : A) (q : Queue A)
      → IsQueue q
      → queue_size q ≢ 254
      → contents (record q { elements = update q.elements q.r x; r = (q.r + 1) % 2 ^ 32 % 255 })
        ≡ contents q ++ (x ∷ [])
  contents-enqueue x q w h =
      let (small, at_rear) = queue_size_lem q w in
      let e = update q.elements q.r x in
      ap (window e q.f) (queue_size_grows q e w h)
      ∙ window-snoc e q.f (queue_size q) q.r w.front_fits at_rear
      ∙ rw (update_self q.elements q.r x) (
          ap (λ t. t ++ (x ∷ []))
            (window-update q.elements q.f (queue_size q) q.r x w.front_fits small at_rear))

  -- On a queue whose two indices lie inside the array, queue_enqueue appends at the rear and keeps
  -- both indices inside the array; it answers STATUS_ERR only when 254 elements are held, one less
  -- than the array has cells, and otherwise succeeds.
  pub queue_enqueue-Enqueued :
      (x : A) (q : Queue A) → IsQueue q → Enqueued x (contents q) (queue_enqueue x q)
  unfolding queue_enqueue
  queue_enqueue-Enqueued x q w = elim (Bool-cases (queue_size q == 254)) [
    | inl full ↦ rw full (omega (arith, length-contents q, (==_iff (queue_size q) 254).0 full))
    | inr room ↦
        let h : queue_size q ≢ 254 = ground arith in
        rw (room, lt→ltb q.r 255 w.rear_fits)
          (
            omega (arith, length-contents q, queue_size_lem q w),
            omega arith,
            contents-enqueue x q w h,
          )
  ]

  contents-cons :
      (q : Queue A)
      → IsQueue q
      → q.f ≢ q.r
      → (n : ℕ) × (queue_size q ≡ suc n)
        × (contents q ≡ q.elements q.f ∷ window q.elements ((q.f + 1) % 255) n)
  contents-cons q w ne = let (n, e) = queue_size_pos q w ne in (n, e, ap (window q.elements q.f) e)

  -- What is left behind the front cell, whatever has been stored in that cell.
  contents-dequeue :
      (q : Queue A) (e : ℕ → A)
      → IsQueue q
      → q.f < 254
      → q.f ≢ q.r
      → ((n : ℕ) → n < 255 → window e ((q.f + 1) % 255) n ≡ window q.elements ((q.f + 1) % 255) n)
      → contents q ≡ q.elements q.f ∷ contents (record q { elements = e; f = q.f + 1 })
  contents-dequeue q e w h ne same =
      let q' = record q { elements = e; f = q.f + 1 } in
      let size : queue_size q' < 255 = (queue_size_lem q' (omega arith)).0 in
      let step : (q.f + 1) % 255 ≡ q.f + 1 = omega arith in
      sym (ap (window q.elements q.f) (queue_size_shrinks q e w h ne))
      ∙ ap (λ t. q.elements q.f ∷ t) (sym (same (queue_size q') size))
      ∙ ap (λ j. q.elements q.f ∷ window e j (queue_size q')) step

  -- On a queue of pointers whose indices lie inside the array and whose front does not stand in the
  -- last cell: queue_dequeue takes the oldest element out and the others stay, in order, although
  -- the cell left behind is set to NULL; on an empty queue it answers STATUS_ERR.
  pub queue_dequeue-Dequeued :
      (null : A) (q : Queue A)
      → IsQueue q
      → q.f < 254
      → Dequeued (contents q) (queue_dequeue null q)
  unfolding queue_dequeue
  queue_dequeue-Dequeued null q w h = elim (Bool-cases (q.f == q.r)) [
    | inl empty ↦
        rw empty (ap (window q.elements q.f) (queue_size_zero q w ((==_iff q.f q.r).0 empty)))
    | inr full ↦
        let step : (q.f + 1 % 255) % 2 ^ 32 ≡ q.f + 1 = omega arith in
        rw (full, lt→ltb q.f 255 w.front_fits, step)
          (
            omega arith,
            contents-dequeue q (update q.elements q.f null) w h (ground arith) (λ n hn.
                window-update_before q.elements ((q.f + 1) % 255) n q.f null (omega arith)
                  w.front_fits 1 (omega arith) (omega arith) (omega arith)),
          )
  ]

  -- On a queue of values whose indices lie inside the array and whose front does not stand in the
  -- last cell: queue_dequeue_val takes the oldest element out and the others stay, in order; on an
  -- empty queue it answers STATUS_ERR.
  pub queue_dequeue_val-Dequeued :
      (q : Queue A) → IsQueue q → q.f < 254 → Dequeued (contents q) (queue_dequeue_val q)
  unfolding queue_dequeue_val
  queue_dequeue_val-Dequeued q w h = elim (Bool-cases (q.f == q.r)) [
    | inl empty ↦
        rw empty (ap (window q.elements q.f) (queue_size_zero q w ((==_iff q.f q.r).0 empty)))
    | inr full ↦
        let step : (q.f + 1 % 255) % 2 ^ 32 ≡ q.f + 1 = omega arith in
        rw (full, lt→ltb q.f 255 w.front_fits, step)
          (omega arith, contents-dequeue q q.elements w h (ground arith) (λ n hn. refl))
  ]
