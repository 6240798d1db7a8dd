-- ===== src/TcpOptions/Append.antt =====
-- A block of options that is built by appending one option after the other.
use mathlib.Core.List.{append_assoc, append-nil}
use packetdrill_mptcp.Base.{
  ℕ, ◌+◌, ◌≤◌, ◌<◌, ◌≡◌, refl, sym, ap, ◌∙◌, arith, Bool-cases, inl, inr, List, [], ◌∷◌, ◌++◌,
  length, take, ltb, ltb-false, lt→ltb, Outcome, ok, status_err, fault, ◌>>=◌, length-append,
}
use packetdrill_mptcp.TcpOptions.{tcp_options_append}
use packetdrill_mptcp.TcpOptions.Iterator.Wire.{flat}

-- The options are appended in order, until one does not fit.
unfoldable pub append_all : List (List ℕ) → List ℕ → Outcome (List ℕ)
append_all [] options = ok options
append_all (option ∷ rest) options =
    tcp_options_append options option (length option) >>= append_all rest

take_all : (xs : List ℕ) → take (length xs) xs ≡ xs
take_all [] = refl
take_all (x ∷ xs) = ap (λ t. x ∷ t) (take_all xs)

append_fits :
    (options option : List ℕ)
    → length options + length option ≤ 40
    → tcp_options_append options option (length option) ≡ ok (options ++ option)
unfolding tcp_options_append
append_fits options option h =
    rw
      (
        ltb-false 40 (length options + length option) h,
        ltb-false (length option) (length option) (omega arith),
        take_all option,
      )
      refl

append_overflows :
    (options option : List ℕ)
    → 40 < length options + length option
    → tcp_options_append options option (length option) ≡ status_err
unfolding tcp_options_append
append_overflows options option h = rw (lt→ltb 40 (length options + length option) h) refl

-- What a block of at most 40 bytes becomes when options are appended to it.
abbrev pub Appended : List ℕ → List (List ℕ) → Outcome (List ℕ) → Type 0
Appended options os (ok block) = (block ≡ options ++ flat os) × (length block ≤ 40)
Appended options os status_err = 40 < length options + length (flat os)
Appended options os fault = ⊥

shift :
    (options option : List ℕ) (os : List (List ℕ)) (m : Outcome (List ℕ))
    → Appended (options ++ option) os m
    → Appended options (option ∷ os) m
shift options option os (ok block) h = (h.0 ∙ append_assoc options option (flat os), h.1)
shift options option os status_err h =
    omega (arith, h, length-append options option, length-append option (flat os))
shift options option os fault h = h

-- Options appended one by one with tcp_options_append to a block of at most 40 bytes: either all of
-- them fit into 40 bytes, and the block then holds their bytes in order behind what it held, or
-- they do not, and one of the calls answers STATUS_ERR. No call writes outside the block.
pub tcp_options_append-Appended :
    (os : List (List ℕ)) (options : List ℕ)
    → length options ≤ 40
    → Appended options os (append_all os options)
unfolding append_all
tcp_options_append-Appended [] options h = (sym (append-nil options), h)
tcp_options_append-Appended (option ∷ os) options h =
    elim (Bool-cases (ltb 40 (length options + length option))) [
      | inl over ↦
          rw (append_overflows options option (ground arith))
            (ground (arith, length-append option (flat os)))
      | inr fits ↦ rw (append_fits options option (ground arith)) (
          shift options option os (append_all os (options ++ option)) (
            tcp_options_append-Appended os (options ++ option)
              (rw (length-append options option) (ground arith))))
    ]
