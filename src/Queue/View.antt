-- ===== src/Queue/View.antt =====
-- The abstract view of a queue: the list of its elements, oldest first.
use packetdrill_mptcp.Base.{
  ℕ, zero, suc, ◌+◌, ◌%◌, ◌≤◌, ◌<◌, ◌≡◌, ◌≢◌, refl, ap, arith, List, [], ◌∷◌, ◌++◌, length,
}
use packetdrill_mptcp.Queue.{Queue, queue_size, update}

-- Both indices point into the array.
pub record IsQueue {ℓ} {A : Type ℓ} (q : Queue A) : Type 0 where
  pub rear_fits : q.r < 255
  pub front_fits : q.f < 255

module _ {ℓ} {A : Type ℓ} where
  -- The `n` cells from index `i` on, round the end of the array.
  abbrev pub window : (ℕ → A) → ℕ → ℕ → List A
  window e i zero = []
  window e i (suc n) = e i ∷ window e ((i + 1) % 255) n

  abbrev pub contents : Queue A → List A
  contents q = window q.elements q.f (queue_size q)

  pub length-window : (e : ℕ → A) (i n : ℕ) → length (window e i n) ≡ n
  length-window e i zero = refl
  length-window e i (suc n) = ap suc (length-window e ((i + 1) % 255) n)

  -- Reading one cell more appends it.
  pub window-snoc :
      (e : ℕ → A) (i n j : ℕ)
      → i < 255
      → (i + n) % 255 ≡ j
      → window e i (suc n) ≡ window e i n ++ (e j ∷ [])
  window-snoc e i zero j hi hj = ap (λ k. e k ∷ []) (omega arith)
  window-snoc e i (suc n) j hi hj =
      ap (λ t. e i ∷ t) (window-snoc e ((i + 1) % 255) n j (omega arith) (omega arith))

  pub update_self : (e : ℕ → A) (i : ℕ) (v : A) → update e i v i ≡ v
  update_self e i v = ground arith

  pub update_ne : (e : ℕ → A) (i j : ℕ) (v : A) → i ≢ j → update e i v j ≡ e j
  update_ne e i j v h = ground arith

  -- A write at the cell behind the window leaves the window alone.
  pub window-update :
      (e : ℕ → A) (i n j : ℕ) (v : A)
      → i < 255
      → n < 255
      → (i + n) % 255 ≡ j
      → window (update e j v) i n ≡ window e i n
  window-update e i zero j v hi hn hj = refl
  window-update e i (suc n) j v hi hn hj =
      ground (arith, update_ne e j i v, window-update e ((i + 1) % 255) n j v)

  -- So does a write at the cell in front of it.
  pub window-update_before :
      (e : ℕ → A) (i n j : ℕ) (v : A)
      → i < 255
      → j < 255
      → (k : ℕ) → (j + k) % 255 ≡ i
      → 0 < k
      → k + n ≤ 255
      → window (update e j v) i n ≡ window e i n
  window-update_before e i zero j v hi hj k hk h0 hn = refl
  window-update_before e i (suc n) j v hi hj k hk h0 hn = ground (
    arith,
    update_ne e j i v,
    window-update_before e ((i + 1) % 255) n j v (omega arith) hj (k + 1),
  )

  -- What queue_size computes, for indices inside the array.
  pub queue_size_lem :
      (q : Queue A) → IsQueue q → (queue_size q < 255) × ((q.f + queue_size q) % 255 ≡ q.r)
  unfolding queue_size
  queue_size_lem q w = (omega arith, omega arith)

  pub length-contents : (q : Queue A) → length (contents q) ≡ queue_size q
  length-contents q = length-window q.elements q.f (queue_size q)
