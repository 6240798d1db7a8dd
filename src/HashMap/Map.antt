-- ===== src/HashMap/Map.antt =====
-- hash_map_new, hash_map_set and hash_map_get as a finite map.
use packetdrill_mptcp.Base.{
  ℕ, ◌+◌, ◌-◌, ◌*◌, ◌%◌, ◌^◌, ◌≤◌, ◌<◌, ◌≡◌, ◌≢◌, refl, sym, ap, ◌∙◌, arith, List, [], ◌==◌,
  if◌then◌else◌, Option, ok, false, lt→ltb, bit_and,
}
use native.Mathlib.Decide.{dec_lt}
use packetdrill_mptcp.HashMap.{
  HashNode, HashMap, find_node, hash_bucket_num, hash_map_grow, hash_map_get,
}
use packetdrill_mptcp.HashMap.Nodes.{occurrences, find_node-none}
use packetdrill_mptcp.HashMap.Grow.{
  all_nodes, hash_bucket_num-lt, linked_all, linked_all_fixed, link_buckets_lem,
  occurrences-linked_all, find_node-linked_none, find_node-linked_one, occurrences-all_nodes,
  find_node-all_nodes,
}

module _ (hash_key : ℕ → ℕ) where
  -- Every key stands in its own bucket only, and there at most once; the load factor is at most 1
  -- as long as the map may grow.
  pub record IsHashMap (map : HashMap) : Type 0 where
    pub mask : map.bucket_mask + 1 ≡ map.num_buckets
    pub placed : (k i : ℕ) → i ≢ hash_bucket_num hash_key map k → occurrences k (map.buckets i) ≡ 0
    pub distinct : (k i : ℕ) → occurrences k (map.buckets i) ≤ 1
    pub load : map.num_buckets < 2 ^ 30 → map.num_keys ≤ map.num_buckets

  -- What the map answers for a key.
  abbrev pub lookup : HashMap → ℕ → Option ℕ
  lookup map k = find_node k (map.buckets (hash_bucket_num hash_key map k))

  pub hash_map_get-lookup :
      (map : HashMap) (k : ℕ) → IsHashMap map → hash_map_get hash_key map k ≡ ok (lookup map k)
  unfolding hash_map_get
  hash_map_get-lookup map k w =
      rw
        (lt→ltb (hash_bucket_num hash_key map k) map.num_buckets
          (hash_bucket_num-lt hash_key map k w.mask))
        refl

  -- hash_map_grow keeps the map and doubles the buckets.
  pub record Grown (map grown : HashMap) : Type 0 where
    pub doubled : grown.num_buckets ≡ 2 * map.num_buckets
    pub keys : grown.num_keys ≡ map.num_keys
    pub kept : IsHashMap grown
    pub same : (k : ℕ) → lookup grown k ≡ lookup map k

  module _ (map : HashMap) (w : IsHashMap map) (small : map.num_buckets < 2 ^ 30) where
    abbrev empty : HashMap
    empty = record map {
      num_buckets = map.num_buckets * 2 % 2 ^ 64;
      bucket_mask = map.num_buckets * 2 % 2 ^ 64 - 1;
      buckets = λ i. [];
    }

    abbrev nodes : List HashNode
    nodes = all_nodes map.buckets 0 map.num_buckets

    occurrences-nodes :
        (k : ℕ) → occurrences k nodes ≡ occurrences k (map.buckets (hash_bucket_num hash_key map k))
    occurrences-nodes k =
        occurrences-all_nodes k (hash_bucket_num hash_key map k) map.buckets (w.placed k) 0
          map.num_buckets (omega arith) (omega (arith, hash_bucket_num-lt hash_key map k w.mask))

    find_node-nodes : (k : ℕ) → find_node k nodes ≡ lookup map k
    find_node-nodes k =
        find_node-all_nodes k (hash_bucket_num hash_key map k) map.buckets (w.placed k) 0
          map.num_buckets (omega arith) (omega (arith, hash_bucket_num-lt hash_key map k w.mask))

    abbrev grown : HashMap
    grown = linked_all hash_key nodes empty

    same_bucket : (k : ℕ) → hash_bucket_num hash_key grown k ≡ hash_bucket_num hash_key empty k
    same_bucket k = ap (bit_and (hash_key k)) (linked_all_fixed hash_key nodes empty).0

    occurrences-grown :
        (k i : ℕ)
        → occurrences k (grown.buckets i)
          ≡ (if i == hash_bucket_num hash_key empty k then occurrences k nodes else 0)
    unfolding occurrences
    occurrences-grown k i =
        occurrences-linked_all hash_key k i nodes empty
        ∙ (let h : 0 + (if i == hash_bucket_num hash_key empty k then occurrences k nodes else 0)
                ≡ (if i == hash_bucket_num hash_key empty k then occurrences k nodes else 0) =
              omega arith in
            h)

    grown_placed :
        (k i : ℕ) → i ≢ hash_bucket_num hash_key grown k → occurrences k (grown.buckets i) ≡ 0
    grown_placed k i ne =
        let away : (i == hash_bucket_num hash_key empty k) ≡ false =
          ground (arith, same_bucket k) in
        occurrences-grown k i ∙ rw away refl

    grown_distinct : (k i : ℕ) → occurrences k (grown.buckets i) ≤ 1
    grown_distinct k i =
        let few : occurrences k nodes ≤ 1 =
          omega (arith, occurrences-nodes k, w.distinct k (hash_bucket_num hash_key map k)) in
        rw (occurrences-grown k i) (ground arith)

    grow-lookup : (k : ℕ) → lookup grown k ≡ lookup map k
    unfolding find_node
    grow-lookup k =
        let b = hash_bucket_num hash_key map k in
        let at_most : occurrences k nodes ≤ 1 =
          omega (arith, occurrences-nodes k, w.distinct k b) in
        elim (dec_lt 0 (occurrences k nodes)) [
          | yes one ↦
              find_node-linked_one hash_key k (hash_bucket_num hash_key grown k) nodes empty
                (omega arith) (same_bucket k)
              ∙ find_node-nodes k
          | no absent ↦
              let none_here : occurrences k nodes ≡ 0 = omega arith in
              find_node-linked_none hash_key k (hash_bucket_num hash_key grown k) nodes empty
                none_here
              ∙ sym (find_node-none k (map.buckets b) (omega (arith, occurrences-nodes k)))
        ]

    pub hash_map_grow-Grown : (g : HashMap) × (hash_map_grow hash_key map ≡ ok g) × Grown map g
    unfolding hash_map_grow
    hash_map_grow-Grown =
        let (mask, num, keys) = linked_all_fixed hash_key nodes empty in
        (
          grown,
          link_buckets_lem hash_key map.buckets 0 map.num_buckets empty (omega (arith, w.mask)),
          record {
            doubled = omega (arith, num);
            keys = keys;
            kept = record {
              mask = omega (arith, num, mask, w.mask);
              placed = grown_placed;
              distinct = grown_distinct;
              load = omega (arith, num, keys, w.load small);
            };
            same = grow-lookup;
          },
        )
