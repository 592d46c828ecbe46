-- ===== src/HashMap.antt =====
-- src/mid_hashmap.c, include/mid_hashmap.h: the chained hash map of the dirty keys. An operation
-- that updates `*hashMap` returns the new map; `none` stands for undefined behaviour, or for fuel
-- that does not cover the mutual recursion of `defaultPut` and `resetHashMap`.
pub mod Keys
pub mod Chains
pub mod Writes
pub mod Placed
pub mod Inv
pub mod Resize
pub mod Methods
pub mod Text
pub mod Cleared
pub use rdma_middleware.Prelude.Results.{◌>>=◌}
use rdma_middleware.Prelude.{
  ℕ, zero, suc, ◌+◌, ◌-◌, ◌*◌, ◌/◌, ◌^◌, Bool, true, false, ◌&&◌, Option, none, some, List, [], ◌∷◌,
  ◌++◌, length, get_or, set, replicate, ltb, leb, ◌==◌, if◌then◌else◌,
}
use Keys.{Key}
use Chains.{Chain, find, occurs, put_chain, remove_chain}

abbrev pub default_map_size : ℕ
default_map_size = 50

-- `INT_MAX + 1`
abbrev pub int_limit : ℕ
int_limit = 2 ^ 31

-- `HashMap`, less the function pointers: `hashCode` and `equal` are the `Key` of each call, the
-- others are always the functions below.
pub record HashMap (K V : Type 0) : Type 0 where
  pub size : ℕ
  pub list_size : ℕ
  pub change_size : Bool
  pub hash_list : List (Chain K V)

-- All the entries, bucket by bucket, as `resetHashMap` copies them to `tempList`.
unfoldable pub entries {ℓ} : {A : Type ℓ} → List (List A) → List A
entries [] = []
entries (c ∷ bs) = c ++ entries bs

-- `createHashMap`: the argument -1 is `none`.
unfoldable pub create_hash_map : (K V : Type 0) → Option ℕ → HashMap K V
create_hash_map K V requested =
    let n : ℕ = elim requested [ none ↦ default_map_size | some k ↦ k ] in
    record { size = 0; list_size = n; change_size = true; hash_list = replicate n [] }

-- The loop of `defaultClear`.
unfoldable pub clear_buckets {ℓ} : {A : Type ℓ} → List (List A) → ℕ
clear_buckets [] = 0
clear_buckets (c ∷ bs) = length c - 1 + clear_buckets bs

-- `defaultClear`, with the number of entries that it frees: the first one of a bucket lies in the list. The
-- size of -1 is written as the `int` holds it.
unfoldable pub default_clear : {K V : Type 0} → HashMap K V → HashMap K V × ℕ
default_clear m =
    (record m { size = 2 ^ 32 - 1; list_size = 0; hash_list = [] }, clear_buckets m.hash_list)

module _ {K V : Type 0} (key : Key K) where
  open key use {hash}

  unfoldable pub bucket : HashMap K V → K → Chain K V
  bucket m k = get_or m.hash_list (hash m.list_size k) []

  unfoldable pub default_exists : HashMap K V → K → Bool
  unfolding bucket
  default_exists m k = occurs key k (bucket m k)

  unfoldable pub default_get : HashMap K V → K → Option V
  unfolding bucket
  default_get m k = if default_exists m k then find key k (bucket m k) else none

  -- `defaultPut` up to the test for a resize; the Boolean tells that an entry was added.
  unfoldable pub store : HashMap K V → K → V → HashMap K V × Bool
  unfolding bucket
  store m k v =
      let (c, fresh) = put_chain key k v (bucket m k) in
      (
        record m {
          size = (if fresh then m.size + 1 else m.size);
          hash_list = set m.hash_list (hash m.list_size k) c;
        },
        fresh,
      )

  -- The last loop of `resetHashMap`.
  unfoldable pub put_all :
      (HashMap K V → K → V → Option (HashMap K V)) → HashMap K V → Chain K V → Option (HashMap K V)
  put_all put m [] = some m
  put_all put m (e ∷ es) = put m e.0 e.1 >>= λ m'. put_all put m' es

  -- `resetHashMap`, with `hashMap->put`. `tempList` has room for `size` entries, and `size` of
  -- them are read back: any other number of entries is undefined behaviour, and so is a list
  -- length above INT_MAX.
  unfoldable pub reset_hash_map :
      (HashMap K V → K → V → Option (HashMap K V)) → HashMap K V → ℕ → Option (HashMap K V)
  reset_hash_map put m n =
      if ltb n default_map_size
      then some m
      else if ltb n int_limit && length (entries m.hash_list) == m.size
      then put_all put (record m { size = 0; list_size = n; hash_list = replicate n [] })
          (entries m.hash_list)
      else none

  -- `defaultPut`. The fuel bounds the depth of its calls through `resetHashMap`.
  unfoldable pub default_put : ℕ → HashMap K V → K → V → Option (HashMap K V)
  default_put zero m k v = none
  default_put (suc fuel) m k v =
      let resized =
        reset_hash_map (default_put fuel) (store m k v).0 ((store m k v).0.list_size * 2) in
      if (store m k v).1
      then (if leb (store m k v).0.list_size (store m k v).0.size && m.change_size
          then resized
          else some (store m k v).0)
      else some (store m k v).0

  -- The key of the first entry of a bucket, which `defaultRemove` returns.
  unfoldable pub entry_key : Chain K V → Option K
  entry_key [] = none
  entry_key (e ∷ c) = some e.0

  -- `defaultRemove` up to the test for a resize; the Boolean is `result`.
  unfoldable pub unlink : HashMap K V → K → HashMap K V × Bool
  unfolding bucket
  unlink m k =
      let (c, result) = remove_chain key k (bucket m k) in
      (
        record m {
          size = (if result then m.size - 1 else m.size);
          hash_list = set m.hash_list (hash m.list_size k) c;
        },
        result,
      )

  unfoldable pub default_remove : ℕ → HashMap K V → K → Option (Option K × HashMap K V)
  default_remove fuel m k =
      let returned = entry_key (bucket m k) in
      let m' = (unlink m k).0 in
      if (unlink m k).1 && ltb m'.size (m'.list_size / 2) && m.change_size
      then (reset_hash_map (default_put fuel) m' (m'.list_size / 2) >>= λ r. some (returned, r))
      else some (returned, m')
