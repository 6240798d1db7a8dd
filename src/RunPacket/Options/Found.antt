-- ===== src/RunPacket/Options/Found.antt =====
-- gtests/net/packetdrill/run_packet.c: what the search of same_tcp_options finds in a well-formed
-- block of options, and how an option is compared with it.
use packetdrill_mptcp.Base.{
  ℕ, zero, suc, ◌+◌, ◌≤◌, ◌<◌, ◌≡◌, ◌≢◌, ◌⊎◌, refl, sym, ap, inl, inr, arith, true, false, ◌==◌,
  ==_iff, ltb-false, if◌then◌else◌, Bool-cases, List, [], ◌∷◌, length, take, drop, All, Option,
  none, some, ok,
}
use packetdrill_mptcp.Memory.{load, slice}
use packetdrill_mptcp.Socket.{equal_bytes}
use packetdrill_mptcp.TcpOptions.Iterator.Wire.{
  WireOption, bare, sized, At, At-left, At-right, first_byte, flat, kind_of, first_of_kind,
}
use packetdrill_mptcp.RunPacket.Options.{same_plain_option}

-- The first option of a kind in a list of options.
abbrev pub option_of_kind : ℕ → List (List ℕ) → Option (List ℕ)
option_of_kind kind [] = none
option_of_kind kind (o ∷ os) = if kind_of o == kind then some o else option_of_kind kind os

-- A pointer to an option that is the first of its kind.
abbrev pub IsFirst : List ℕ → ℕ → List (List ℕ) → ℕ → Type 0
IsFirst mem kind os p =
    (q : ℕ) × (o : List ℕ) × (first_of_kind kind os p ≡ some q)
    × (option_of_kind kind os ≡ some o)
    × At mem q o
    × WireOption o
    × (kind_of o ≡ kind)

abbrev pub IsMissing : ℕ → List (List ℕ) → ℕ → Type 0
IsMissing kind os p = (first_of_kind kind os p ≡ none) × (option_of_kind kind os ≡ none)

pub IsFirst-cases :
    (mem : List ℕ) (kind p : ℕ) (os : List (List ℕ))
    → All WireOption os
    → At mem p (flat os)
    → IsMissing kind os p ⊎ IsFirst mem kind os p
IsFirst-cases mem kind p [] w h = inl (refl, refl)
IsFirst-cases mem kind p (o ∷ os) w h = elim (Bool-cases (kind_of o == kind)) [
  | inl hit ↦
      rw (hit)
        (inr (p, o, refl, refl, At-left mem p o (flat os) h, w.0, (==_iff (kind_of o) kind).0 hit))
  | inr miss ↦
      rw (miss) (IsFirst-cases mem kind (p + length o) os w.1 (At-right mem p o (flat os) h))
]

load-drop : (mem : List ℕ) (p b : ℕ) → load mem p ≡ ok b → drop p mem ≡ b ∷ drop (suc p) mem
unfolding load
load-drop [] p b h = absurd (ground arith)
load-drop (x ∷ xs) zero b h = let e : x ≡ b = cc in ap (λ c. c ∷ xs) e
load-drop (x ∷ xs) (suc p) b h = load-drop xs p b h

load-inside : (mem : List ℕ) (p b : ℕ) → load mem p ≡ ok b → p < length mem
unfolding load
load-inside [] p b h = absurd (ground arith)
load-inside (x ∷ xs) zero b h = omega arith
load-inside (x ∷ xs) (suc p) b h = omega (arith, load-inside xs p b h)

pub equal_bytes_refl : (xs : List ℕ) → equal_bytes xs xs ≡ true
unfolding equal_bytes
equal_bytes_refl [] = refl
equal_bytes_refl (x ∷ xs) = rw (equal_bytes_refl xs) (ground arith)

-- Texts of two lengths differ.
equal_bytes-length : (xs ys : List ℕ) → length xs ≢ length ys → equal_bytes xs ys ≡ false
unfolding equal_bytes
equal_bytes-length [] [] h = absurd (h refl)
equal_bytes-length [] (y ∷ ys) h = refl
equal_bytes-length (x ∷ xs) [] h = refl
equal_bytes-length (x ∷ xs) (y ∷ ys) h =
    rw (equal_bytes-length xs ys (λ e. h (ap suc e))) (ground arith)

At-tail : (mem : List ℕ) (q b : ℕ) (o : List ℕ) → At mem q (b ∷ o) → At mem (suc q) o
At-tail mem q b o h = let e : q + 1 ≡ suc q = omega arith in rw e at (At-right mem q (b ∷ []) o h)

take-At : (mem : List ℕ) (q : ℕ) (o : List ℕ) → At mem q o → take (length o) (drop q mem) ≡ o
take-At mem q [] h = refl
take-At mem q (b ∷ o) h =
    rw (load-drop mem q b (first_byte mem q b o h))
      (ap (λ rest. b ∷ rest) (take-At mem (suc q) o (At-tail mem q b o h)))

At-inside :
    (mem : List ℕ) (q : ℕ) (o : List ℕ) → At mem q o → 0 < length o → q + length o ≤ length mem
At-inside mem q [] h pos = absurd (omega arith)
At-inside mem q (b ∷ []) h pos = omega (arith, load-inside mem q b (first_byte mem q b [] h))
At-inside mem q (b ∷ c ∷ o) h pos =
    omega (arith, At-inside mem (suc q) (c ∷ o) (At-tail mem q b (c ∷ o) h) (omega arith))

-- The bytes of an option.
slice-At :
    (mem : List ℕ) (q n : ℕ) (o : List ℕ)
    → At mem q o
    → 0 < length o
    → n ≡ length o
    → slice mem q n ≡ ok o
unfolding slice
slice-At mem q n o h pos e =
    rw (e, ltb-false (length mem) (q + length o) (At-inside mem q o h pos), take-At mem q o h) refl

second_byte :
    (mem : List ℕ) (q k b : ℕ) (o : List ℕ) → At mem q (k ∷ b ∷ o) → load mem (q + 1) ≡ ok b
second_byte mem q k b o h = first_byte mem (q + 1) b o (At-right mem q (k ∷ []) (b ∷ o) h)

-- Two options with a length byte are compared in all their bytes.
pub same_plain_option-sized :
    (mem_a : List ℕ) (opt_a : ℕ) (mem_b : List ℕ) (opt_b : ℕ) (o_a o_b : List ℕ)
    → WireOption o_a
    → WireOption o_b
    → At mem_a opt_a o_a
    → At mem_b opt_b o_b
    → 1 < kind_of o_a
    → 1 < kind_of o_b
    → same_plain_option mem_a opt_a mem_b opt_b ≡ ok (equal_bytes o_b o_a)
unfolding same_plain_option
same_plain_option-sized mem_a opt_a mem_b opt_b o_a o_b (bare kind c) w_b at_a at_b l m =
    absurd (ground arith)
same_plain_option-sized mem_a opt_a mem_b opt_b o_a o_b (sized k n body e g) (bare kind c) at_a at_b
      l m =
    absurd (ground arith)
same_plain_option-sized mem_a opt_a mem_b opt_b o_a o_b (sized k n body e g)
      (sized k' n' body' e' g') at_a at_b l m =
    let read_a = second_byte mem_a opt_a k n body at_a in
    let read_b = second_byte mem_b opt_b k' n' body' at_b in
    elim (Bool-cases (n == n')) [
      | inl same ↦
          let n_same : n ≡ n' = (==_iff n n').0 same in
          rw
            (
              read_a,
              read_b,
              same,
              slice-At mem_b opt_b n (k' ∷ n' ∷ body') at_b (omega arith) (omega arith),
              slice-At mem_a opt_a n (k ∷ n ∷ body) at_a (omega arith) (omega arith),
            )
            refl
      | inr other ↦
          rw (read_a, read_b, other)
            (sym (
              ap ok
                (equal_bytes-length (k' ∷ n' ∷ body') (k ∷ n ∷ body) (λ d. absurd (ground arith)))))
    ]
