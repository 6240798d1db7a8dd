-- ===== src/Queue.antt =====
-- gtests/net/packetdrill/queue/queue.c and queue.h: the two circular arrays of the program, one of
-- pointers (queue_t) and one of u64 values (queue_t_val). Both are generic here. The array is a
-- function of the index; a read or write at or past QUEUE_SIZE is a `fault`.
pub mod View
pub mod Refine
pub mod Wrap
pub mod Front
use packetdrill_mptcp.Base.{
  ℕ, zero, suc, ◌+◌, ◌-◌, ◌%◌, ◌^◌, Bool, true, false, ◌==◌, ltb, if◌then◌else◌, Outcome, ok,
  status_err, fault, ◌>>=◌, Option, none, some,
}

-- QUEUE_SIZE of queue.h.
abbrev pub queue_size_max : ℕ
queue_size_max = 255

-- Arithmetic of C's `unsigned`.
abbrev pub u32 : ℕ → ℕ
u32 n = n % 2 ^ 32

module _ {ℓ} (A : Type ℓ) where
  pub record Queue : Type ℓ where
    pub elements : ℕ → A
    pub r : ℕ
    pub f : ℕ

module _ {ℓ} {A : Type ℓ} where
  abbrev pub update : (ℕ → A) → ℕ → A → ℕ → A
  update e i v j = if i == j then v else e j

  abbrev pub read : (ℕ → A) → ℕ → Outcome A
  read e i = if ltb i queue_size_max then ok (e i) else fault

  -- queue_init and queue_init_val: the cells keep what they held.
  pub queue_init : Queue A → Queue A
  queue_init q = record q { r = 0; f = 0 }

  -- queue_size and queue_size_val: QUEUE_SIZE - f is computed in `unsigned`.
  unfoldable pub queue_size : Queue A → ℕ
  queue_size q = u32 (queue_size_max + 2 ^ 32 - q.f + q.r) % queue_size_max

  pub queue_is_empty : Queue A → Bool
  queue_is_empty q = q.f == q.r

  unfoldable pub queue_front : Queue A → Outcome A
  unfolding queue_is_empty
  queue_front q = if queue_is_empty q then status_err else read q.elements q.f

  -- For r = 0 the source reads elements[QUEUE_SIZE].
  pub queue_rear : Queue A → Outcome A
  unfolding queue_is_empty
  queue_rear q =
      if queue_is_empty q
      then status_err
      else if q.r == 0
      then read q.elements queue_size_max
      else read q.elements (q.r - 1)

  -- queue_dequeue also stores NULL into the cell that it leaves. The source writes
  -- `queue->f+1%QUEUE_SIZE`, in which `%` binds tighter than `+`.
  unfoldable pub queue_dequeue : A → Queue A → Outcome (A × Queue A)
  unfolding queue_is_empty
  queue_dequeue null q =
      if queue_is_empty q
      then status_err
      else read q.elements q.f >>= λ temp. ok (
        temp,
        record q { elements = update q.elements q.f null; f = u32 (q.f + 1 % queue_size_max) },
      )

  unfoldable pub queue_dequeue_val : Queue A → Outcome (A × Queue A)
  unfolding queue_is_empty
  queue_dequeue_val q =
      if queue_is_empty q
      then status_err
      else read q.elements q.f >>= λ temp.
          ok (temp, record q { f = u32 (q.f + 1 % queue_size_max) })

  -- queue_enqueue and queue_enqueue_val.
  unfoldable pub queue_enqueue : A → Queue A → Outcome (Queue A)
  unfolding queue_size
  queue_enqueue x q =
      if queue_size q == queue_size_max - 1
      then status_err
      else if ltb q.r queue_size_max
      then ok (record q { elements = update q.elements q.r x; r = u32 (q.r + 1) % queue_size_max })
      else fault

  -- The loop of queue_free: `fuel` bounds its rounds, and `none` is fuel that ran out. Nothing is
  -- said of the memory that `free` gives back, so only the queue is returned.
  pub queue_free : ℕ → A → Queue A → Option (Outcome (Queue A))
  unfolding queue_is_empty
  queue_free zero null q = none
  queue_free (suc fuel) null q = elim (queue_is_empty q) [
    | true ↦ some (ok q)
    | false ↦ elim (queue_dequeue null q) [
      | ok (x, q') ↦ queue_free fuel null q'
      | status_err ↦ some status_err
      | fault ↦ some fault
    ]
  ]
