-- ===== src/HashMap/Grow.antt =====
-- Linking a list of nodes into a map, and hash_map_grow as the linking of all nodes of the old
-- buckets, one bucket after the other.
use packetdrill_mptcp.Base.{
  ℕ, zero, suc, ◌+◌, ◌≤◌, ◌<◌, ◌≡◌, ◌≢◌, refl, sym, ap, ◌∙◌, arith, List, [], ◌∷◌, ◌++◌, ◌==◌,
  if◌then◌else◌, some, ok, true, false, Bool-cases, inl, inr, lt→ltb, ==_iff,
}
use packetdrill_mptcp.HashMap.{
  HashNode, HashMap, find_node, assign, hash_bucket_num, hash_map_link, link_nodes, link_buckets,
}
use packetdrill_mptcp.HashMap.Nodes.{
  bit_and-le, occurrences, occurrences-append, find_node-left, find_node-right,
}

-- The nodes of `n` buckets from bucket `i` on.
unfoldable pub all_nodes : (ℕ → List HashNode) → ℕ → ℕ → List HashNode
all_nodes old i zero = []
all_nodes old i (suc n) = old i ++ all_nodes old (i + 1) n

occurrences-other :
    (k : ℕ) (node : HashNode) → (node.key == k) ≡ false → occurrences k (node ∷ []) ≡ 0
unfolding occurrences
occurrences-other k node e = rw e refl

occurrences-assign :
    (k i b : ℕ) (node : HashNode) (buckets : ℕ → List HashNode)
    → occurrences k (assign buckets b (node ∷ buckets b) i)
      ≡ occurrences k (buckets i) + (if i == b then occurrences k (node ∷ []) else 0)
unfolding occurrences
occurrences-assign k i b node buckets = elim (Bool-cases (i == b)) [
  | inl e ↦
      let here : occurrences k (buckets b) ≡ occurrences k (buckets i) =
        ap (λ j. occurrences k (buckets j)) (sym ((==_iff i b).0 e)) in
      rw e (ground arith)
  | inr e ↦ rw e (omega arith)
]

module _ (hash_key : ℕ → ℕ) where
  -- A bucket number is always in range.
  pub hash_bucket_num-lt :
      (map : HashMap) (key : ℕ)
      → map.bucket_mask + 1 ≡ map.num_buckets
      → hash_bucket_num hash_key map key < map.num_buckets
  hash_bucket_num-lt map key h = omega (arith, bit_and-le (hash_key key) map.bucket_mask)

  abbrev pub linked : HashMap → HashNode → HashMap
  linked map node =
      let b = hash_bucket_num hash_key map node.key in
      record map { buckets = assign map.buckets b (node ∷ map.buckets b) }

  pub hash_map_link_lem :
      (map : HashMap) (node : HashNode)
      → map.bucket_mask + 1 ≡ map.num_buckets
      → hash_map_link hash_key map node ≡ ok (linked map node)
  unfolding hash_map_link
  hash_map_link_lem map node h =
      rw
        (lt→ltb (hash_bucket_num hash_key map node.key) map.num_buckets
          (hash_bucket_num-lt map node.key h))
        refl

  unfoldable pub linked_all : List HashNode → HashMap → HashMap
  linked_all [] map = map
  linked_all (node ∷ nodes) map = linked_all nodes (linked map node)

  pub link_nodes_lem :
      (nodes : List HashNode) (map : HashMap)
      → map.bucket_mask + 1 ≡ map.num_buckets
      → link_nodes hash_key nodes map ≡ ok (linked_all nodes map)
  unfolding link_nodes linked_all
  link_nodes_lem [] map h = refl
  link_nodes_lem (node ∷ nodes) map h =
      rw (hash_map_link_lem map node h) (link_nodes_lem nodes (linked map node) h)

  pub linked_all_fixed :
      (nodes : List HashNode) (map : HashMap)
      → ((linked_all nodes map).bucket_mask ≡ map.bucket_mask)
        × ((linked_all nodes map).num_buckets ≡ map.num_buckets)
        × ((linked_all nodes map).num_keys ≡ map.num_keys)
  unfolding linked_all
  linked_all_fixed [] map = (refl, refl, refl)
  linked_all_fixed (node ∷ nodes) map = linked_all_fixed nodes (linked map node)

  linked_all-append :
      (xs ys : List HashNode) (map : HashMap)
      → linked_all (xs ++ ys) map ≡ linked_all ys (linked_all xs map)
  unfolding linked_all
  linked_all-append [] ys map = refl
  linked_all-append (x ∷ xs) ys map = linked_all-append xs ys (linked map x)

  pub link_buckets_lem :
      (old : ℕ → List HashNode) (i n : ℕ) (map : HashMap)
      → map.bucket_mask + 1 ≡ map.num_buckets
      → link_buckets hash_key old i n map ≡ ok (linked_all (all_nodes old i n) map)
  unfolding link_buckets all_nodes linked_all
  link_buckets_lem old i zero map h = refl
  link_buckets_lem old i (suc n) map h =
      let m1 = linked_all (old i) map in
      let (mask, num, keys) = linked_all_fixed (old i) map in
      rw (link_nodes_lem (old i) map h) (
        link_buckets_lem old (i + 1) n m1 (rw (mask, num) h)
        ∙ ap ok (sym (linked_all-append (old i) (all_nodes old (i + 1) n) map)))

  pub occurrences-linked :
      (k i : ℕ) (map : HashMap) (node : HashNode)
      → occurrences k ((linked map node).buckets i)
        ≡ occurrences k (map.buckets i)
          + (if i == hash_bucket_num hash_key map k then occurrences k (node ∷ []) else 0)
  occurrences-linked k i map node =
      let put = occurrences-assign k i (hash_bucket_num hash_key map node.key) node map.buckets in
      elim (Bool-cases (node.key == k)) [
        | inl e ↦
            let same : node.key ≡ k = (==_iff node.key k).0 e in
            put
            ∙ ap
                (λ c.
                  occurrences k (map.buckets i)
                  + (if i == hash_bucket_num hash_key map c then occurrences k (node ∷ []) else 0))
                same
        | inr e ↦
            let absent : occurrences k (node ∷ []) ≡ 0 = occurrences-other k node e in
            put ∙ rw absent (ground arith)
      ]

  -- The key's occurrences and what a search finds, after linking.
  pub occurrences-linked_all :
      (k i : ℕ) (nodes : List HashNode) (map : HashMap)
      → occurrences k ((linked_all nodes map).buckets i)
        ≡ occurrences k (map.buckets i)
          + (if i == hash_bucket_num hash_key map k then occurrences k nodes else 0)
  unfolding linked_all occurrences
  occurrences-linked_all k i [] map = ground arith
  occurrences-linked_all k i (node ∷ nodes) map =
      ground
        (arith, occurrences-linked_all k i nodes (linked map node), occurrences-linked k i map node)

  -- Linking a node of another key changes no search, and linking one of the key is found.
  pub find_node-linked_ne :
      (k i : ℕ) (map : HashMap) (node : HashNode)
      → (node.key == k) ≡ false
      → find_node k ((linked map node).buckets i) ≡ find_node k (map.buckets i)
  unfolding find_node
  find_node-linked_ne k i map node e =
      let b = hash_bucket_num hash_key map node.key in
      elim (Bool-cases (i == b)) [
        | inl at_b ↦
            rw (at_b, e) (ap (λ j. find_node k (map.buckets j)) (sym ((==_iff i b).0 at_b)))
        | inr elsewhere ↦ rw elsewhere refl
      ]

  pub find_node-linked_eq :
      (k i : ℕ) (map : HashMap) (node : HashNode)
      → (node.key == k) ≡ true
      → i ≡ hash_bucket_num hash_key map k
      → find_node k ((linked map node).buckets i) ≡ some node.value
  unfolding find_node
  find_node-linked_eq k i map node e at_b =
      let same : node.key ≡ k = (==_iff node.key k).0 e in
      let here : i ≡ hash_bucket_num hash_key map node.key =
        at_b ∙ ap (λ c. hash_bucket_num hash_key map c) (sym same) in
      let hit : (i == hash_bucket_num hash_key map node.key) ≡ true = ground arith in
      rw (hit, e) refl

  -- A list of nodes that does not have the key changes no search.
  pub find_node-linked_none :
      (k i : ℕ) (nodes : List HashNode) (map : HashMap)
      → occurrences k nodes ≡ 0
      → find_node k ((linked_all nodes map).buckets i) ≡ find_node k (map.buckets i)
  unfolding linked_all occurrences
  find_node-linked_none k i [] map h = refl
  find_node-linked_none k i (node ∷ nodes) map h = elim (Bool-cases (node.key == k)) [
    | inl e ↦ absurd (ground arith)
    | inr e ↦
        find_node-linked_none k i nodes (linked map node) (ground arith)
        ∙ find_node-linked_ne k i map node e
  ]

  -- One that has it once decides the search.
  pub find_node-linked_one :
      (k i : ℕ) (nodes : List HashNode) (map : HashMap)
      → occurrences k nodes ≡ 1
      → i ≡ hash_bucket_num hash_key map k
      → find_node k ((linked_all nodes map).buckets i) ≡ find_node k nodes
  unfolding linked_all occurrences find_node
  find_node-linked_one k i [] map h at_b = absurd (omega arith)
  find_node-linked_one k i (node ∷ nodes) map h at_b = elim (Bool-cases (node.key == k)) [
    | inl e ↦ rw e (
        find_node-linked_none k i nodes (linked map node) (ground arith)
        ∙ find_node-linked_eq k i map node e at_b)
    | inr e ↦ rw e (find_node-linked_one k i nodes (linked map node) (ground arith) at_b)
  ]

-- The nodes of the buckets, for a key that can stand in bucket `b` only.
module _ (k b : ℕ) (old : ℕ → List HashNode)
    (placed : (i : ℕ) → i ≢ b → occurrences k (old i) ≡ 0) where
  all_nodes-past : (i n : ℕ) → b < i → occurrences k (all_nodes old i n) ≡ 0
  unfolding all_nodes occurrences
  all_nodes-past i zero h = refl
  all_nodes-past i (suc n) h = omega (
    arith,
    occurrences-append k (old i) (all_nodes old (i + 1) n),
    placed i (omega arith),
    all_nodes-past (i + 1) n (omega arith),
  )

  pub occurrences-all_nodes :
      (i n : ℕ) → i ≤ b → b < i + n → occurrences k (all_nodes old i n) ≡ occurrences k (old b)
  unfolding all_nodes
  occurrences-all_nodes i zero h h' = absurd (omega arith)
  occurrences-all_nodes i (suc n) h h' = elim (Bool-cases (i == b)) [
    | inl e ↦
        let here : i ≡ b = (==_iff i b).0 e in
        let past : occurrences k (all_nodes old (i + 1) n) ≡ 0 =
          all_nodes-past (i + 1) n (omega arith) in
        occurrences-append k (old i) (all_nodes old (i + 1) n)
        ∙ rw past (
            let plus : occurrences k (old i) + 0 ≡ occurrences k (old i) = omega arith in
            plus ∙ ap (λ j. occurrences k (old j)) here)
    | inr e ↦
        let ne : i ≢ b = ground arith in
        omega (
          arith,
          occurrences-append k (old i) (all_nodes old (i + 1) n),
          placed i ne,
          occurrences-all_nodes (i + 1) n (omega arith) (omega arith),
        )
  ]

  pub find_node-all_nodes :
      (i n : ℕ) → i ≤ b → b < i + n → find_node k (all_nodes old i n) ≡ find_node k (old b)
  unfolding all_nodes
  find_node-all_nodes i zero h h' = absurd (omega arith)
  find_node-all_nodes i (suc n) h h' = elim (Bool-cases (i == b)) [
    | inl e ↦
        let here : i ≡ b = (==_iff i b).0 e in
        find_node-left k (old i) (all_nodes old (i + 1) n) (all_nodes-past (i + 1) n (omega arith))
        ∙ ap (λ j. find_node k (old j)) here
    | inr e ↦
        let ne : i ≢ b = ground arith in
        find_node-right k (old i) (all_nodes old (i + 1) n) (placed i ne)
        ∙ find_node-all_nodes (i + 1) n (omega arith) (omega arith)
  ]
