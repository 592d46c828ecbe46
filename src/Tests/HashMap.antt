-- ===== src/Tests/HashMap.antt =====
-- The hash map of src/mid_hashmap.c on small inputs.
use rdma_middleware.Prelude.{ℕ, ◌≡◌, refl, arith, Option, some, none, List, [], ◌∷◌}
use rdma_middleware.HashMap.{
  HashMap, create_hash_map, default_get, default_exists, default_put, default_remove, ◌>>=◌, bucket,
  entry_key, store, unlink, reset_hash_map, put_all, entries,
}
use rdma_middleware.HashMap.Chains.{find, occurs, assign, put_chain, remove_chain}
use rdma_middleware.HashMap.Text.{string_key, default_hash_code}
use rdma_middleware.HashMap.Methods.{
  IsValid, create_hash_map-IsValid, Puts, default_put-Puts, Removes, default_remove-Removes,
}

-- "ab" and "b"
abbrev ab : List ℕ
ab = 97 ∷ 98 ∷ []

abbrev b : List ℕ
b = 98 ∷ []

abbrev two_buckets : HashMap (List ℕ) ℕ
two_buckets = create_hash_map (List ℕ) ℕ (some 2)

hash_code-ab : default_hash_code 1024 ab ≡ 626
unfolding default_hash_code
hash_code-ab = refl

two_buckets-IsValid :
    IsValid string_key two_buckets × ((q : List ℕ) → default_get string_key two_buckets q ≡ none)
two_buckets-IsValid = create_hash_map-IsValid string_key (some 2) (λ h. cc)

default_put_example :
    (r : HashMap (List ℕ) ℕ) × (default_put string_key 2 two_buckets ab 5 ≡ some r)
    × Puts string_key two_buckets ab 5 r
unfolding create_hash_map
default_put_example =
    default_put-Puts string_key two_buckets two_buckets-IsValid.0 (omega arith) ab 0 5

default_remove_example :
    (r : Option (List ℕ) × HashMap (List ℕ) ℕ) × (default_remove string_key 1 two_buckets b
      ≡ some r)
    × Removes string_key two_buckets b r
unfolding create_hash_map
default_remove_example =
    default_remove-Removes string_key two_buckets two_buckets-IsValid.0 (omega arith) b 0

-- Both strings in one bucket, one overwritten and the other removed.
session : Option (Option ℕ × Option ℕ × ℕ)
session = default_put string_key 2 two_buckets ab 1 >>= λ m₁.
    default_put string_key 2 m₁ b 2 >>= λ m₂. default_put string_key 2 m₂ ab 3 >>= λ m₃.
    default_remove string_key 1 m₃ b >>= λ r.
    some (default_get string_key r.1 ab, default_get string_key r.1 b, r.1.size)

session_lem : session ≡ some (some 3, none, 1)
unfolding session create_hash_map default_put default_remove default_get default_exists store unlink
    bucket reset_hash_map put_all entries find occurs assign put_chain remove_chain string_key
    entry_key
session_lem = refl
