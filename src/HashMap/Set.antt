-- ===== src/HashMap/Set.antt =====
-- hash_map_set and hash_map_new: what hash_map_get answers afterwards.
use packetdrill_mptcp.Base.{
  ℕ, ◌+◌, ◌%◌, ◌^◌, ◌≤◌, ◌<◌, ◌≡◌, ◌≢◌, refl, sym, ap, ◌∙◌, arith, List, [], ◌∷◌, ◌==◌, ltb, leb,
  ◌&&◌, if◌then◌else◌, none, some, ok, true, false, Bool-cases, Option-cases, inl, inr, lt→ltb,
  ==_iff,
}
use packetdrill_mptcp.HashMap.{
  HashNode, HashMap, find_node, set_node, assign, max_buckets, hash_bucket_num, hash_map_insert,
  hash_map_set, hash_map_get,
}
use packetdrill_mptcp.HashMap.Nodes.{occurrences, find_node-none, set_node-NodeSet, NodeSet}
use packetdrill_mptcp.HashMap.Grow.{
  hash_bucket_num-lt, linked, hash_map_link_lem, occurrences-linked, find_node-linked_eq,
  find_node-linked_ne,
}
use packetdrill_mptcp.HashMap.Map.{IsHashMap, lookup, hash_map_get-lookup, hash_map_grow-Grown}

find_node-absent :
    (key : ℕ) (nodes : List HashNode) → find_node key nodes ≡ none → occurrences key nodes ≡ 0
unfolding find_node occurrences
find_node-absent key [] h = refl
find_node-absent key (node ∷ nodes) h = ground (arith, find_node-absent key nodes)

module _ (hash_key : ℕ → ℕ) where
  -- What a call of hash_map_set leaves.
  pub record KeySet (map : HashMap) (key value : ℕ) (map' : HashMap) : Type 0 where
    pub kept : IsHashMap hash_key map'
    pub answers :
        (k : ℕ) → lookup hash_key map' k ≡ (if k == key then some value else lookup hash_key map k)

  -- The node of a new key, in a map with room for it.
  module _ (map : HashMap) (keys key value : ℕ) (w : IsHashMap hash_key map)
      (absent : lookup hash_key map key ≡ none)
      (room : map.num_buckets < 2 ^ 30 → keys ≤ map.num_buckets) where
    abbrev start : HashMap
    start = record map { num_keys = keys }

    abbrev new_node : HashNode
    new_node = record { key = key; value = value }

    occurrences-new : (k : ℕ) → occurrences k (new_node ∷ []) ≡ (if key == k then 1 else 0)
    unfolding occurrences
    occurrences-new k = refl

    new_absent : (i : ℕ) → occurrences key (map.buckets i) ≡ 0
    new_absent i =
        let b = hash_bucket_num hash_key map key in
        elim (Bool-cases (i == b)) [
          | inl e ↦
              ap (λ j. occurrences key (map.buckets j)) ((==_iff i b).0 e)
              ∙ find_node-absent key (map.buckets b) absent
          | inr e ↦ w.placed key i (ground arith)
        ]

    new_placed :
        (k i : ℕ)
        → i ≢ hash_bucket_num hash_key map k
        → occurrences k ((linked hash_key start new_node).buckets i) ≡ 0
    new_placed k i ne =
        let away : (i == hash_bucket_num hash_key map k) ≡ false = ground arith in
        occurrences-linked hash_key k i start new_node ∙ rw (away, w.placed k i ne) (omega arith)

    new_distinct : (k i : ℕ) → occurrences k ((linked hash_key start new_node).buckets i) ≤ 1
    new_distinct k i = elim (Bool-cases (key == k)) [
      | inl e ↦
          let same : occurrences k (map.buckets i) ≡ 0 =
            ap (λ c. occurrences c (map.buckets i)) (sym ((==_iff key k).0 e)) ∙ new_absent i in
          rw (occurrences-linked hash_key k i start new_node)
            (ground (arith, occurrences-new k, w.distinct k i))
      | inr e ↦
          rw (occurrences-linked hash_key k i start new_node)
            (ground (arith, occurrences-new k, w.distinct k i))
    ]

    pub link-KeySet : KeySet map key value (linked hash_key start new_node)
    link-KeySet = record {
      kept = record { mask = w.mask; placed = new_placed; distinct = new_distinct; load = room };
      answers = λ k.
          let b = hash_bucket_num hash_key map k in
          elim (Bool-cases (key == k)) [
            | inl e ↦
                let hit : (k == key) ≡ true = ground arith in
                find_node-linked_eq hash_key k b start new_node e refl ∙ rw hit refl
            | inr e ↦
                let missed : (k == key) ≡ false = ground arith in
                find_node-linked_ne hash_key k b start new_node e ∙ rw missed refl
          ];
    }

  pub hash_map_insert-KeySet :
      (map : HashMap) (key value : ℕ)
      → IsHashMap hash_key map
      → lookup hash_key map key ≡ none
      → (map' : HashMap) × (hash_map_insert hash_key map key value ≡ ok map')
        × KeySet map key value map'
  unfolding hash_map_insert
  hash_map_insert-KeySet map key value w absent =
      elim (Bool-cases (leb map.num_buckets map.num_keys && ltb map.num_buckets max_buckets)) [
        | inl full ↦
            let (g, grows, made) = hash_map_grow-Grown hash_key map w (ground arith) in
            let ready =
              link-KeySet g ((g.num_keys + 1) % 2 ^ 64) key value made.kept (made.same key ∙ absent)
                (omega (arith, made.doubled, made.keys, w.mask, w.load (ground arith))) in
            (
              _,
              rw (full, grows)
                  (hash_map_link_lem hash_key (record g { num_keys = (g.num_keys + 1) % 2 ^ 64 })
                    (record { key = key; value = value }) made.kept.mask),
              record { kept = ready.kept; answers = λ k. ready.answers k ∙ rw (made.same k) refl },
            )
        | inr room ↦ (
          _,
          rw room (
              hash_map_link_lem hash_key (record map { num_keys = (map.num_keys + 1) % 2 ^ 64 })
                (record { key = key; value = value }) w.mask),
          link-KeySet map ((map.num_keys + 1) % 2 ^ 64) key value w absent (ground arith),
        )
      ]

  -- The node of a key that the map has.
  module _ (map : HashMap) (key value : ℕ) (nodes : List HashNode) (w : IsHashMap hash_key map)
      (made : NodeSet key value (map.buckets (hash_bucket_num hash_key map key)) (some nodes)) where
    abbrev after : HashMap
    after = record map { buckets = assign map.buckets (hash_bucket_num hash_key map key) nodes }

    occurrences-after : (k i : ℕ) → occurrences k (after.buckets i) ≡ occurrences k (map.buckets i)
    occurrences-after k i =
        let b = hash_bucket_num hash_key map key in
        elim (Bool-cases (i == b)) [
          | inl e ↦
              rw e ((made k).0 ∙ ap (λ j. occurrences k (map.buckets j)) (sym ((==_iff i b).0 e)))
          | inr e ↦ rw e refl
        ]

    pub update-KeySet : KeySet map key value after
    update-KeySet = record {
      kept = record {
        mask = w.mask;
        placed = λ k i ne. occurrences-after k i ∙ w.placed k i ne;
        distinct = λ k i. rw (occurrences-after k i) (w.distinct k i);
        load = w.load;
      };
      answers = λ k.
          let b = hash_bucket_num hash_key map key in
          let at_k = hash_bucket_num hash_key map k in
          elim (Bool-cases (at_k == b)) [
            | inl e ↦ rw e (
                (made k).1
                ∙ ap (λ j. if k == key then some value else find_node k (map.buckets j))
                    (sym ((==_iff at_k b).0 e)))
            | inr e ↦
                let ne : at_k ≢ b = ground arith in
                elim (Bool-cases (k == key)) [
                  | inl hit ↦
                      absurd (ne (ap (λ c. hash_bucket_num hash_key map c) ((==_iff k key).0 hit)))
                  | inr other ↦ rw (e, other) refl
                ]
          ];
    }

  KeySet-hash_map_get :
      (map : HashMap) (key value : ℕ) (map' : HashMap)
      → IsHashMap hash_key map
      → KeySet map key value map'
      → (k : ℕ)
      → hash_map_get hash_key map' k
        ≡ (if k == key then ok (some value) else hash_map_get hash_key map k)
  KeySet-hash_map_get map key value map' w made k =
      rw
        (
          hash_map_get-lookup hash_key map' k made.kept,
          hash_map_get-lookup hash_key map k w,
          made.answers k,
        )
        (ground arith)

  -- In a map that IsHashMap describes, hash_map_set succeeds, whether it finds the key, inserts it or
  -- grows the map first; it leaves such a map; and hash_map_get then answers the value for the key,
  -- and what it answered before for every other key.
  pub hash_map_set-hash_map_get :
      (map : HashMap) (key value : ℕ)
      → IsHashMap hash_key map
      → (map' : HashMap) × (hash_map_set hash_key map key value ≡ ok map')
        × IsHashMap hash_key map'
        × ((k : ℕ)
            → hash_map_get hash_key map' k
              ≡ (if k == key then ok (some value) else hash_map_get hash_key map k))
  unfolding hash_map_set
  hash_map_set-hash_map_get map key value w =
      let b = hash_bucket_num hash_key map key in
      let inside : ltb b map.num_buckets ≡ true =
        lt→ltb b map.num_buckets (hash_bucket_num-lt hash_key map key w.mask) in
      let walk = set_node-NodeSet key value (map.buckets b) in
      elim (Option-cases (set_node key value (map.buckets b))) [
        | inl e ↦
            let absent : occurrences key (map.buckets b) ≡ 0 = rw e at walk in
            let (map', e', made) =
              hash_map_insert-KeySet map key value w (find_node-none key (map.buckets b) absent) in
            (map', rw (inside, e) e', made.kept, KeySet-hash_map_get map key value map' w made)
        | inr (nodes, e) ↦
            let made = update-KeySet map key value nodes w (rw e at walk) in
            (_, rw (inside, e) refl, made.kept, KeySet-hash_map_get map key value _ w made)
      ]
