-- ===== src/Memory.antt =====
-- Byte buffers: the memory that a `u8 *` walks over is a list, and a pointer is an index into it.
use packetdrill_mptcp.Base.{
  ℕ, zero, suc, ◌+◌, ◌*◌, ◌<◌, ◌≡◌, refl, arith, List, [], ◌∷◌, ◌++◌, length, get_elem?, take, drop,
  ltb, if◌then◌else◌, Option, none, some, Outcome, ok, fault, ◌>>=◌,
}

-- What an access hands on: a read outside the buffer is a fault.
pub loaded : Option ℕ → Outcome ℕ
loaded none = fault
loaded (some b) = ok b

-- One byte.
unfoldable pub load : List ℕ → ℕ → Outcome ℕ
unfolding loaded
load mem p = loaded (get_elem? mem p)

-- ntohs of the two bytes at `p`: network order.
unfoldable pub load_be16 : List ℕ → ℕ → Outcome ℕ
load_be16 mem p = do hi ← load mem p; lo ← load mem (p + 1); ok (hi * 256 + lo)

-- The `n` bytes from `p` on.
unfoldable pub slice : List ℕ → ℕ → ℕ → Outcome (List ℕ)
slice mem p n = if ltb (length mem) (p + n) then fault else ok (take n (drop p mem))

pub get_elem?-append_right {ℓ} :
    {A : Type ℓ} (xs ys : List A) (i j : ℕ)
    → j ≡ length xs + i
    → get_elem? (xs ++ ys) j ≡ get_elem? ys i
get_elem?-append_right [] ys i j e = rw (let e' : j ≡ i = omega arith in e') refl
get_elem?-append_right (x ∷ xs) ys i zero e = absurd (omega arith)
get_elem?-append_right (x ∷ xs) ys i (suc j) e = get_elem?-append_right xs ys i j (omega arith)

-- An access inside the buffer succeeds.
pub load_inside : (mem : List ℕ) (p : ℕ) → p < length mem → (b : ℕ) × (load mem p ≡ ok b)
unfolding load
load_inside [] p h = absurd (omega arith)
load_inside (x ∷ xs) zero h = (x, refl)
load_inside (x ∷ xs) (suc p) h = load_inside xs p (omega arith)

pub load_be16_inside :
    (mem : List ℕ) (p : ℕ) → p + 1 < length mem → (b : ℕ) × (load_be16 mem p ≡ ok b)
unfolding load_be16
load_be16_inside mem p h =
    let (hi, e) = load_inside mem p (omega arith) in
    let (lo, e') = load_inside mem (p + 1) h in (hi * 256 + lo, rw (e, e') refl)

-- Reading behind a prefix.
pub load-append : (xs ys : List ℕ) (i j : ℕ) → j ≡ length xs + i → load (xs ++ ys) j ≡ load ys i
unfolding load
load-append xs ys i j e = rw (get_elem?-append_right xs ys i j e) refl
