-- ===== src/Queue/Front.antt =====
-- A queue that is known to hold an element: what its front is, and what its removal leaves.
use packetdrill_mptcp.Base.{
  ◌+◌, ◌<◌, ◌≡◌, ◌≢◌, refl, ap, ◌∙◌, arith, List, [], ◌∷◌, ok, ◌==◌, lt→ltb, false,
}
use packetdrill_mptcp.Queue.{Queue, queue_front, queue_dequeue, update}
use packetdrill_mptcp.Queue.View.{IsQueue, window, contents}
use packetdrill_mptcp.Queue.Refine.{Dequeued, queue_size_zero, queue_dequeue-Dequeued}
use packetdrill_mptcp.Queue.Wrap.{queue_dequeue_step}

module _ {A : Type 0} where
  pub record Popped (null : A) (q : Queue A) (x : A) (rest : List A) : Type 0 where
    pub queue : Queue A
    pub out : queue_dequeue null q ≡ ok (x, queue)
    pub front : queue_front q ≡ ok x
    pub kept : IsQueue queue
    pub left : contents queue ≡ rest
    pub moved : queue.f ≡ q.f + 1

  pub queue_dequeue-Popped :
      (null : A) (q : Queue A) (x : A) (rest : List A)
      → IsQueue q
      → q.f < 254
      → contents q ≡ x ∷ rest
      → Popped null q x rest
  unfolding queue_front
  queue_dequeue-Popped null q x rest w h e =
      let ne : q.f ≢ q.r = λ same.
        let nil : contents q ≡ [] = ap (window q.elements q.f) (queue_size_zero q w same) in cc in
      let q' : Queue A = record q { elements = update q.elements q.f null; f = q.f + 1 } in
      let step : queue_dequeue null q ≡ ok (q.elements q.f, q') =
        queue_dequeue_step null q w.front_fits ne in
      let all : Dequeued (contents q) (queue_dequeue null q) = queue_dequeue-Dequeued null q w h in
      let now : Dequeued (contents q) (ok (q.elements q.f, q')) = rw step at all in
      let split : contents q ≡ q.elements q.f ∷ contents q' = now.1 in
      let here : q.elements q.f ≡ x = cc in
      let full : (q.f == q.r) ≡ false = ground arith in
      record {
        queue = q';
        out = step ∙ ap (λ y. ok (y, q')) here;
        front = rw (full, lt→ltb q.f 255 w.front_fits) (ap ok here);
        kept = now.0;
        left = cc;
        moved = refl;
      }
