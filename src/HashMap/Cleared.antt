-- ===== src/HashMap/Cleared.antt =====
-- src/mid_hashmap.c: what `defaultClear` gives back.
use rdma_middleware.Prelude.{ℕ, ◌+◌, ◌≡◌, refl, List, [], ◌∷◌, length, length-append, arith}
use rdma_middleware.HashMap.{HashMap, entries, clear_buckets, default_clear}
use rdma_middleware.HashMap.Keys.{Key}
use rdma_middleware.HashMap.Inv.{IsPlaced}

-- The buckets with an entry, the first of which lies in the list itself.
abbrev filled {ℓ} : {A : Type ℓ} → List (List A) → ℕ
filled [] = 0
filled ([] ∷ bs) = filled bs
filled ((x ∷ c) ∷ bs) = 1 + filled bs

clear_buckets-filled :
    {A : Type 0} (bs : List (List A)) → clear_buckets bs + filled bs ≡ length (entries bs)
unfolding clear_buckets entries
clear_buckets-filled [] = refl
clear_buckets-filled ([] ∷ bs) = omega (arith, clear_buckets-filled bs)
clear_buckets-filled ((x ∷ c) ∷ bs) =
    omega (arith, clear_buckets-filled bs, length-append (x ∷ c) (entries bs))

-- Of a map whose size counts its entries, `defaultClear` frees all but the first of each bucket, which go
-- with the list; no bucket is left.
default_clear_lem :
    {K V : Type 0} (key : Key K) (m : HashMap K V)
    → IsPlaced key m
    → let (cleared, freed) = default_clear m in
      (freed + filled m.hash_list ≡ m.size) × (cleared.hash_list ≡ []) × (cleared.list_size ≡ 0)
unfolding default_clear
default_clear_lem key m v = (omega (arith, clear_buckets-filled m.hash_list, v.counted), refl, refl)
