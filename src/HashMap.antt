-- ===== src/HashMap.antt =====
-- gtests/net/packetdrill/hash_map.c and hash_map.h: the map from u32 keys to u32 values, with a
-- linked list of nodes in each bucket. The hash function, MurmurHash3, is a parameter. The array of
-- buckets is a function of the index; a bucket number at or past num_buckets is a fault. The memory
-- that hash_map_free and hash_map_grow give back is not modelled.
pub mod Nodes
pub mod Grow
pub mod Map
pub mod Set
pub mod New
use packetdrill_mptcp.Base.{
  ℕ, zero, suc, ◌+◌, ◌-◌, ◌*◌, ◌%◌, ◌^◌, Bool, true, false, List, [], ◌∷◌, ◌==◌, ltb, leb, ◌&&◌,
  if◌then◌else◌, Option, none, some, Outcome, ok, fault, ◌>>=◌, bit_and,
}

-- struct hash_node; `next` is the order of the list.
pub record HashNode : Type 0 where
  pub key : ℕ
  pub value : ℕ

-- struct hash_map.
pub record HashMap : Type 0 where
  pub num_keys : ℕ
  pub num_buckets : ℕ
  pub bucket_mask : ℕ
  pub buckets : ℕ → List HashNode

abbrev pub max_buckets : ℕ
max_buckets = 2 ^ 30

-- Arithmetic of `size_t`.
abbrev pub size_t : ℕ → ℕ
size_t n = n % 2 ^ 64

-- The loop of hash_map_pick_bucket_count; `none` is fuel that ran out.
pub pick_loop : ℕ → ℕ → ℕ → Option ℕ
pick_loop zero num_keys buckets = none
pick_loop (suc fuel) num_keys buckets = elim (ltb buckets num_keys && ltb buckets max_buckets) [
  | true ↦ pick_loop fuel num_keys (size_t (buckets * 2))
  | false ↦ some buckets
]

-- 31 rounds are enough: thirty doublings reach max_buckets.
unfoldable pub hash_map_pick_bucket_count : ℕ → Option ℕ
unfolding pick_loop
hash_map_pick_bucket_count num_keys = pick_loop 31 num_keys 1

unfoldable pub hash_map_new : ℕ → Option HashMap
unfolding hash_map_pick_bucket_count
hash_map_new num_keys = elim (hash_map_pick_bucket_count num_keys) [
  | none ↦ none
  | some n ↦ some (record { num_keys = 0; num_buckets = n; bucket_mask = n - 1; buckets = λ i. [] })
]

-- An assignment to one bucket.
abbrev pub assign : (ℕ → List HashNode) → ℕ → List HashNode → ℕ → List HashNode
assign buckets b nodes i = if i == b then nodes else buckets i

-- The walk over a bucket in hash_map_get.
unfoldable pub find_node : ℕ → List HashNode → Option ℕ
find_node key [] = none
find_node key (node ∷ nodes) = if node.key == key then some node.value else find_node key nodes

-- The walk over a bucket in hash_map_set: the bucket with the value changed, or `none` where it has
-- no node of this key.
unfoldable pub set_node : ℕ → ℕ → List HashNode → Option (List HashNode)
set_node key value [] = none
set_node key value (node ∷ nodes) =
    let rest = set_node key value nodes in
    if node.key == key
    then some (record node { value = value } ∷ nodes)
    else elim rest [ none ↦ none | some nodes' ↦ some (node ∷ nodes') ]

module _ (hash_key : ℕ → ℕ) where
  abbrev pub hash_bucket_num : HashMap → ℕ → ℕ
  hash_bucket_num map key = bit_and (hash_key key) map.bucket_mask

  unfoldable pub hash_map_link : HashMap → HashNode → Outcome HashMap
  hash_map_link map node =
      let bucket_num = hash_bucket_num map node.key in
      if ltb bucket_num map.num_buckets
      then ok
          (record map { buckets = assign map.buckets bucket_num (node ∷ map.buckets bucket_num) })
      else fault

  -- The inner loop of hash_map_grow, over one of the old buckets, and the outer one, from bucket `i`
  -- on.
  unfoldable pub link_nodes : List HashNode → HashMap → Outcome HashMap
  unfolding hash_map_link
  link_nodes [] map = ok map
  link_nodes (node ∷ nodes) map = hash_map_link map node >>= link_nodes nodes

  unfoldable pub link_buckets : (ℕ → List HashNode) → ℕ → ℕ → HashMap → Outcome HashMap
  unfolding link_nodes
  link_buckets old i zero map = ok map
  link_buckets old i (suc n) map = link_nodes (old i) map >>= link_buckets old (i + 1) n

  unfoldable pub hash_map_grow : HashMap → Outcome HashMap
  unfolding link_buckets
  hash_map_grow map = link_buckets map.buckets 0 map.num_buckets (record map {
    num_buckets = size_t (map.num_buckets * 2);
    bucket_mask = size_t (map.num_buckets * 2) - 1;
    buckets = λ i. [];
  })

  unfoldable pub hash_map_insert : HashMap → ℕ → ℕ → Outcome HashMap
  unfolding hash_map_grow hash_map_link
  hash_map_insert map key value =
      (if leb map.num_buckets map.num_keys && ltb map.num_buckets max_buckets
        then hash_map_grow map
        else ok map)
      >>= λ grown.
          hash_map_link (record grown { num_keys = size_t (grown.num_keys + 1) })
            (record { key = key; value = value })

  unfoldable pub hash_map_set : HashMap → ℕ → ℕ → Outcome HashMap
  unfolding set_node hash_map_insert
  hash_map_set map key value =
      let bucket_num = hash_bucket_num map key in
      if ltb bucket_num map.num_buckets
      then elim (set_node key value (map.buckets bucket_num)) [
        | some nodes ↦ ok (record map { buckets = assign map.buckets bucket_num nodes })
        | none ↦ hash_map_insert map key value
      ]
      else fault

  -- `none` is the answer `false`.
  unfoldable pub hash_map_get : HashMap → ℕ → Outcome (Option ℕ)
  unfolding find_node
  hash_map_get map key =
      let bucket_num = hash_bucket_num map key in
      if ltb bucket_num map.num_buckets then ok (find_node key (map.buckets bucket_num)) else fault
