-- ===== src/HashMap/Nodes.antt =====
-- The nodes of a bucket: how often a key stands there, what the walks of hash_map.c find, and the
-- bound on a bucket number.
use Prim.Native.Nat.{digits, bit_and-bitwise}
use packetdrill_mptcp.Base.{
  ℕ, zero, suc, ◌+◌, ◌/◌, ◌≤◌, ◌≡◌, ◌≢◌, refl, arith, List, [], ◌∷◌, ◌++◌, ◌==◌, if◌then◌else◌,
  Option, none, some, Bool-cases, inl, inr, bit_and, min, true, false,
}
use packetdrill_mptcp.HashMap.{HashNode, find_node, set_node}

digits-le : (n a b : ℕ) → digits (λ b. zero) min n a b ≤ b
digits-le zero a b = omega arith
digits-le (suc n) zero b = omega arith
digits-le (suc n) (suc a) b = omega (arith, digits-le n (suc a / 2) (b / 2))

pub bit_and-le : (a b : ℕ) → bit_and a b ≤ b
bit_and-le a b = rw (bit_and-bitwise a b) (digits-le a a b)

-- How many nodes have the key.
unfoldable pub occurrences : ℕ → List HashNode → ℕ
occurrences key [] = 0
occurrences key (node ∷ nodes) =
    let rest = occurrences key nodes in if node.key == key then suc rest else rest

pub occurrences-append :
    (key : ℕ) (xs ys : List HashNode)
    → occurrences key (xs ++ ys) ≡ occurrences key xs + occurrences key ys
unfolding occurrences
occurrences-append key [] ys = omega arith
occurrences-append key (x ∷ xs) ys = ground (arith, occurrences-append key xs ys)

pub find_node-none :
    (key : ℕ) (nodes : List HashNode) → occurrences key nodes ≡ 0 → find_node key nodes ≡ none
unfolding occurrences find_node
find_node-none key [] h = refl
find_node-none key (node ∷ nodes) h = ground (arith, find_node-none key nodes)

-- A search over two lists, of which one does not have the key.
pub find_node-left :
    (key : ℕ) (xs ys : List HashNode)
    → occurrences key ys ≡ 0
    → find_node key (xs ++ ys) ≡ find_node key xs
unfolding find_node
find_node-left key [] ys h = find_node-none key ys h
find_node-left key (x ∷ xs) ys h = rw (find_node-left key xs ys h) refl

pub find_node-right :
    (key : ℕ) (xs ys : List HashNode)
    → occurrences key xs ≡ 0
    → find_node key (xs ++ ys) ≡ find_node key ys
unfolding occurrences find_node
find_node-right key [] ys h = refl
find_node-right key (x ∷ xs) ys h = ground (arith, find_node-right key xs ys)

-- What the walk of hash_map_set does to the bucket.
abbrev pub NodeSet : ℕ → ℕ → List HashNode → Option (List HashNode) → Type 0
NodeSet key value nodes none = occurrences key nodes ≡ 0
NodeSet key value nodes (some nodes') =
    (k : ℕ)
    → (occurrences k nodes' ≡ occurrences k nodes)
      × (find_node k nodes' ≡ (if k == key then some value else find_node k nodes))

set_node-step :
    (key value : ℕ) (node : HashNode) (nodes : List HashNode) (rest : Option (List HashNode))
    → node.key ≢ key
    → NodeSet key value nodes rest
    → NodeSet key value
        (node ∷ nodes)
        (elim rest [ none ↦ none | some nodes' ↦ some (node ∷ nodes') ])
unfolding occurrences find_node
set_node-step key value node nodes none ne h = ground arith
set_node-step key value node nodes (some nodes') ne h = λ k.
    let (count, found) = h k in
    elim (Bool-cases (node.key == k)) [
      | inl e ↦ let other : (k == key) ≡ false = ground arith in rw (e, other, count) (refl, refl)
      | inr e ↦ rw (e, count, found) (refl, refl)
    ]

pub set_node-NodeSet :
    (key value : ℕ) (nodes : List HashNode) → NodeSet key value nodes (set_node key value nodes)
unfolding occurrences find_node set_node
set_node-NodeSet key value [] = refl
set_node-NodeSet key value (node ∷ nodes) = elim (Bool-cases (node.key == key)) [
  | inl e ↦ rw e (λ k. elim (Bool-cases (node.key == k)) [
    | inl here ↦ let same : (k == key) ≡ true = ground arith in rw (here, same) (refl, refl)
    | inr there ↦ let other : (k == key) ≡ false = ground arith in rw (there, other) (refl, refl)
  ])
  | inr e ↦
      let ne : node.key ≢ key = ground arith in
      rw e (
        set_node-step key value node nodes (set_node key value nodes) ne
          (set_node-NodeSet key value nodes))
]
