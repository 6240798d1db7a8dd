-- ===== src/Examples/Maps.antt =====
-- Runs and instances of the theorems on the hash map.
use packetdrill_mptcp.Base.{
  ℕ, ◌*◌, ◌≡◌, ◌≢◌, refl, arith, [], ◌∷◌, none, some, ok, ◌==◌, if◌then◌else◌, ◌>>=◌,
}
use packetdrill_mptcp.HashMap.{
  HashMap, hash_map_new, hash_map_set, hash_map_get, hash_map_pick_bucket_count,
}
use packetdrill_mptcp.HashMap.Nodes.{occurrences, bit_and-le}
use packetdrill_mptcp.HashMap.Map.{IsHashMap}
use packetdrill_mptcp.HashMap.New.{BucketCount, hash_map_new-BucketCount}
use packetdrill_mptcp.HashMap.Set.{hash_map_set-hash_map_get}

-- A hash function of no quality.
abbrev spread : ℕ → ℕ
spread key = key * 7

-- One bucket, with the node of key 5 in it.
abbrev one_held : HashMap
one_held = record {
  num_keys = 1;
  num_buckets = 1;
  bucket_mask = 0;
  buckets = λ i. if i == 0 then record { key = 5; value = 50 } ∷ [] else [];
}

one_held-IsHashMap : IsHashMap spread one_held
unfolding occurrences
one_held-IsHashMap = record {
  mask = refl;
  placed = λ k i ne. let away : i ≢ 0 = ground (arith, bit_and-le (spread k) 0) in ground arith;
  distinct = λ k i. ground arith;
  load = λ h. omega arith;
}

buckets_for_five : hash_map_pick_bucket_count 5 ≡ some 8
unfolding hash_map_pick_bucket_count
buckets_for_five = refl

-- The second key makes the map grow, and both are found.
finds_both :
    ((hash_map_set spread one_held 6 60 >>= λ map. hash_map_get spread map 5) ≡ ok (some 50))
    × ((hash_map_set spread one_held 6 60 >>= λ map. hash_map_get spread map 6) ≡ ok (some 60))
unfolding hash_map_set hash_map_get
finds_both = (refl, refl)

hash_map_new-BucketCount_example :
    (map : HashMap) × (hash_map_new 5 ≡ some map)
    × BucketCount 5 map.num_buckets
    × IsHashMap spread map
    × ((k : ℕ) → hash_map_get spread map k ≡ ok none)
hash_map_new-BucketCount_example = hash_map_new-BucketCount spread 5

hash_map_set-hash_map_get_example :
    (map' : HashMap) × (hash_map_set spread one_held 6 60 ≡ ok map')
    × IsHashMap spread map'
    × ((k : ℕ)
        → hash_map_get spread map' k
          ≡ (if k == 6 then ok (some 60) else hash_map_get spread one_held k))
hash_map_set-hash_map_get_example =
    hash_map_set-hash_map_get spread one_held 6 60 one_held-IsHashMap
