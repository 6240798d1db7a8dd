-- ===== src/HashMap/New.antt =====
-- hash_map_new and the number of buckets that it picks.
use native.Mathlib.Decide.{dec_lt}
use native.Mathlib.Nat.{two-pow-succ, one-le-pow, pow-le-pow_right}
use packetdrill_mptcp.Base.{
  ℕ, zero, suc, ◌+◌, ◌-◌, ◌*◌, ◌%◌, ◌^◌, ◌≤◌, ◌<◌, ◌≡◌, ◌≢◌, refl, ap, ◌∙◌, arith, [], ltb, ◌&&◌,
  none, some, ok, true, false, Bool-cases, inl, inr, ◌⊎◌,
}
use packetdrill_mptcp.HashMap.{
  HashMap, find_node, max_buckets, hash_map_get, hash_map_new, hash_map_pick_bucket_count,
  pick_loop,
}
use packetdrill_mptcp.HashMap.Nodes.{occurrences}
use packetdrill_mptcp.HashMap.Map.{IsHashMap, hash_map_get-lookup}

-- The number of buckets: a power of two and at most 2 ^ 30, no smaller than the number of keys
-- unless it is 2 ^ 30, and the least such power.
pub record BucketCount (num_keys buckets : ℕ) : Type 0 where
  pub exponent : ℕ
  pub power : buckets ≡ 2 ^ exponent
  pub most : exponent ≤ 30
  pub enough : (num_keys ≤ buckets) ⊎ (exponent ≡ 30)
  pub least : (exponent ≡ 0) ⊎ (buckets < 2 * num_keys)

-- A power of two below the limit has a smaller exponent, and the other way round.
pow_below : (j : ℕ) → 2 ^ j < 2 ^ 30 → j ≢ 30
pow_below j h e = absurd (omega (arith, rw e at h))

pow_above : (j : ℕ) → j < 30 → 2 ^ j < 2 ^ 30
pow_above j h = omega (
  arith,
  two-pow-succ j,
  one-le-pow j 2 (omega arith),
  pow-le-pow_right {n = 2} (omega arith) {i = suc j} {j = 30} h,
)

lt_of_both :
    (j num_keys : ℕ) → (ltb (2 ^ j) num_keys && ltb (2 ^ j) max_buckets) ≡ true → 2 ^ j < num_keys
lt_of_both j num_keys h = ground arith

stopped :
    (j num_keys : ℕ)
    → j ≤ 30
    → (ltb (2 ^ j) num_keys && ltb (2 ^ j) max_buckets) ≡ false
    → (num_keys ≤ 2 ^ j) ⊎ (j ≡ 30)
stopped j num_keys h stop = elim (dec_lt j 30) [
  | yes below ↦ let small = pow_above j below in inl (ground arith)
  | no above ↦ inr (omega arith)
]

pick_loop_more :
    (fuel num_keys buckets : ℕ)
    → (ltb buckets num_keys && ltb buckets max_buckets) ≡ true
    → pick_loop (suc fuel) num_keys buckets ≡ pick_loop fuel num_keys (buckets * 2 % 2 ^ 64)
unfolding pick_loop
pick_loop_more fuel num_keys buckets more = rw (pick_loop, more) refl

pick_loop_stop :
    (fuel num_keys buckets : ℕ)
    → (ltb buckets num_keys && ltb buckets max_buckets) ≡ false
    → pick_loop (suc fuel) num_keys buckets ≡ some buckets
unfolding pick_loop
pick_loop_stop fuel num_keys buckets stop = rw (pick_loop, stop) refl

pick_loop-BucketCount :
    (fuel num_keys j : ℕ)
    → j + fuel ≡ 31
    → j ≤ 30
    → (j ≡ 0) ⊎ (2 ^ j < 2 * num_keys)
    → (n : ℕ) × (pick_loop fuel num_keys (2 ^ j) ≡ some n) × BucketCount num_keys n
pick_loop-BucketCount zero num_keys j e h least = absurd (omega arith)
pick_loop-BucketCount (suc fuel) num_keys j e h least =
    elim (Bool-cases (ltb (2 ^ j) num_keys && ltb (2 ^ j) max_buckets)) [
      | inl more ↦
          let below : j ≢ 30 = pow_below j (ground arith) in
          let twice : 2 ^ j * 2 % 2 ^ 64 ≡ 2 ^ suc j =
            omega (arith, two-pow-succ j, pow_above j (omega arith)) in
          let (n, out, count) =
            pick_loop-BucketCount fuel num_keys (suc j) (omega arith) (omega arith)
              (inr (omega (arith, two-pow-succ j, lt_of_both j num_keys more))) in
          (
            n,
            pick_loop_more fuel num_keys (2 ^ j) more ∙ ap (pick_loop fuel num_keys) twice ∙ out,
            count,
          )
      | inr stop ↦ (
        2 ^ j,
        pick_loop_stop fuel num_keys (2 ^ j) stop,
        record {
          exponent = j;
          power = refl;
          most = h;
          enough = stopped j num_keys h stop;
          least = least;
        },
      )
    ]

pick_count-BucketCount :
    (num_keys : ℕ)
    → (n : ℕ) × (hash_map_pick_bucket_count num_keys ≡ some n) × BucketCount num_keys n
unfolding hash_map_pick_bucket_count
pick_count-BucketCount num_keys =
    pick_loop-BucketCount 31 num_keys 0 (omega arith) (omega arith) (inl refl)

abbrev new_map : ℕ → HashMap
new_map n = record { num_keys = 0; num_buckets = n; bucket_mask = n - 1; buckets = λ i. [] }

hash_map_new_lem :
    (num_keys n : ℕ)
    → hash_map_pick_bucket_count num_keys ≡ some n
    → hash_map_new num_keys ≡ some (new_map n)
unfolding hash_map_new
hash_map_new_lem num_keys n h = rw (hash_map_new, h) refl

module _ (hash_key : ℕ → ℕ) where
  -- hash_map_new picks its number of buckets within the 31 rounds of its loop: the least power of two
  -- that is no smaller than the number of keys, or 2 ^ 30 if there is none up to that. The new map
  -- is well formed and hash_map_get finds no key in it.
  pub hash_map_new-BucketCount :
      (num_keys : ℕ)
      → (map : HashMap) × (hash_map_new num_keys ≡ some map)
        × BucketCount num_keys map.num_buckets
        × IsHashMap hash_key map
        × ((k : ℕ) → hash_map_get hash_key map k ≡ ok none)
  unfolding find_node occurrences
  hash_map_new-BucketCount num_keys =
      let (n, out, count) = pick_count-BucketCount num_keys in
      let positive : 1 ≤ n =
        omega (arith, count.power, one-le-pow count.exponent 2 (omega arith)) in
      let w : IsHashMap hash_key (new_map n) = record {
        mask = omega arith;
        placed = λ k i ne. refl;
        distinct = λ k i. omega arith;
        load = λ h. omega arith;
      } in
      (
        new_map n,
        hash_map_new_lem num_keys n out,
        count,
        w,
        λ k. hash_map_get-lookup hash_key (new_map n) k w,
      )
