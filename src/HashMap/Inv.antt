-- ===== src/HashMap/Inv.antt =====
-- src/mid_hashmap.c: the invariant of a map, what it is read as, and what a stored or removed entry
-- does to both, before any resize.
use native.Mathlib.Nat.{zero-add}
use rdma_middleware.Prelude.{
  ℕ, ◌+◌, ◌-◌, ◌≤◌, ◌<◌, ◌≡◌, ◌≢◌, refl, ap, sym, ◌∙◌, ◌↔◌, Bool, true, false, Bool-cases, inl, inr,
  Option, none, some, [], length, get_or, set, replicate, length-set, get_or-set, length-replicate,
  get_or-replicate, arith, if◌then◌else◌, ◌==◌,
}
use rdma_middleware.HashMap.{HashMap, entries, bucket, default_exists, default_get, store, unlink}
use rdma_middleware.HashMap.Keys.{Key}
use rdma_middleware.HashMap.Chains.{
  Chain, find, occurs, occurs_iff, put_chain, remove_chain, Distinct, Homed,
}
use rdma_middleware.HashMap.Writes.{to_nat, put_chain-Put, remove_chain-Removed}
use rdma_middleware.HashMap.Placed.{
  Placed, Placed-bucket, Placed-set, Placed-replicate, length-entries-set, entries-replicate,
  find-entries,
}

-- The buckets are as many as `listSize`, `size` counts the entries, and each lies in its bucket.
pub record IsPlaced {K V : Type 0} (key : Key K) (m : HashMap K V) : Type 0 where
  pub pos : 0 < m.list_size
  pub width : length m.hash_list ≡ m.list_size
  pub counted : length (entries m.hash_list) ≡ m.size
  pub placed : Placed key m.list_size 0 m.hash_list

module _ {K V : Type 0} (key : Key K) where
  open key use {equal, hash, hash_lt, hash_equal}

  -- A map read as a partial function of its keys.
  unfoldable pub view : HashMap K V → K → Option V
  unfolding bucket
  view m q = find key q (bucket key m q)

  pub default_get_lem : (m : HashMap K V) (q : K) → default_get key m q ≡ view m q
  unfolding default_get view default_exists find
  default_get_lem m q = elim (Bool-cases (occurs key q (bucket key m q))) [
    | inl e ↦ rw e
    | inr e ↦ rw e (sym ((occurs_iff key q (bucket key m q)).0 e))
  ]

  pub default_exists_lem :
      (m : HashMap K V) (q : K) → (default_exists key m q ≡ true) ↔ (view m q ≢ none)
  unfolding default_exists view
  default_exists_lem m q =
      let facts = occurs_iff key q (bucket key m q) in
      (
        (λ h n. let found = facts.1 h in cc (found.1)),
        (λ h. elim (Bool-cases (occurs key q (bucket key m q))) [
          | inl e ↦ e
          | inr e ↦ absurd (h (facts.0 e))
        ]),
      )

  -- The entries in all the buckets are read as the map is.
  pub view-entries :
      (m : HashMap K V) (q : K) → IsPlaced key m → find key q (entries m.hash_list) ≡ view m q
  unfolding view
  view-entries m q v =
      find-entries key m.list_size 0 (hash m.list_size q) q m.hash_list v.placed (omega arith)

  pub fresh_map-IsPlaced :
      (n : ℕ) (changing : Bool)
      → 0 < n
      → let m : HashMap K V = record {
        size = 0;
        list_size = n;
        change_size = changing;
        hash_list = replicate n [];
      } in
        IsPlaced key m × ((q : K) → view m q ≡ none)
  unfolding view find
  fresh_map-IsPlaced n changing h = (
    record {
      pos = h;
      width = length-replicate n [];
      counted = ap length (entries-replicate n);
      placed = Placed-replicate V key n 0 n;
    },
    λ q. rw get_or-replicate,
  )

  module _ (m : HashMap K V) (v : IsPlaced key m) (k : K) where
    home_in : hash m.list_size k < length m.hash_list
    home_in = omega (arith, hash_lt m.list_size k v.pos)

    set-IsPlaced :
        (c : Chain K V) (total : ℕ)
        → Homed key m.list_size (hash m.list_size k) c
        → Distinct key c
        → total + length (bucket key m k) ≡ m.size + length c
        → IsPlaced key
            (record m { size = total; hash_list = set m.hash_list (hash m.list_size k) c })
    unfolding bucket
    set-IsPlaced c total h d e = record {
      pos = v.pos;
      width = length-set m.hash_list _ c ∙ v.width;
      counted = omega (arith, v.counted, length-entries-set m.hash_list _ c home_in);
      placed =
          Placed-set key m.list_size 0 (hash m.list_size k) m.hash_list c v.placed (rw zero-add h)
            d;
    }

    home_facts :
        Homed key m.list_size (hash m.list_size k) (bucket key m k) × Distinct key (bucket key m k)
    unfolding bucket
    home_facts =
        rw zero-add at (Placed-bucket key m.list_size 0 (hash m.list_size k) m.hash_list v.placed)

    -- A read of a map with one bucket replaced.
    view-set :
        (c : Chain K V) (total : ℕ) (q : K)
        → view (record m { size = total; hash_list = set m.hash_list (hash m.list_size k) c }) q
          ≡ (if hash m.list_size k == hash m.list_size q then find key q c else view m q)
    unfolding view
    view-set c total q =
        rw (get_or-set m.hash_list _ (hash m.list_size q) c [] home_in) (ground arith)

    view_same :
        (q : K) → hash m.list_size k ≡ hash m.list_size q → find key q (bucket key m k) ≡ view m q
    unfolding view bucket
    view_same q e = ap (λ i. find key q (get_or m.hash_list i [])) e

    -- What `defaultPut` does before it looks at the size.
    pub record Stored (x : V) (r : HashMap K V × Bool) : Type 0 where
      pub placed : IsPlaced key r.0
      pub list_size : r.0.list_size ≡ m.list_size
      pub change_size : r.0.change_size ≡ m.change_size
      pub size : r.0.size ≡ m.size + to_nat r.1
      pub fresh : (r.1 ≡ true) ↔ (view m k ≡ none)
      pub reads : (q : K) → view r.0 q ≡ (if equal k q then some x else view m q)

    pub store-Stored : (x : V) → Stored x (store key m k x)
    unfolding store view
    store-Stored x =
        let w = put_chain-Put key k x (bucket key m k) in
        let r = put_chain key k x (bucket key m k) in
        record {
          placed =
              set-IsPlaced r.0 _ (w.homed _ _ refl home_facts.0) (w.distinct home_facts.1)
                (ground (arith, w.size));
          list_size = refl;
          change_size = refl;
          size = ground arith;
          fresh = w.fresh;
          reads = λ q. ground (
            arith,
            view-set r.0 (if r.1 then m.size + 1 else m.size) q,
            w.reads q,
            hash_equal m.list_size k q,
            view_same q,
          );
        }

    -- What `defaultRemove` does before it looks at the size.
    pub record Unlinked (r : HashMap K V × Bool) : Type 0 where
      pub placed : IsPlaced key r.0
      pub list_size : r.0.list_size ≡ m.list_size
      pub change_size : r.0.change_size ≡ m.change_size
      pub size : r.0.size + to_nat r.1 ≡ m.size
      pub found : (r.1 ≡ false) ↔ (view m k ≡ none)
      pub reads : (q : K) → view r.0 q ≡ (if equal k q then none else view m q)

    pub unlink-Unlinked : Unlinked (unlink key m k)
    unfolding unlink view
    unlink-Unlinked =
        let w = remove_chain-Removed key k (bucket key m k) home_facts.1 in
        let r = remove_chain key k (bucket key m k) in
        let filled : length (bucket key m k) ≤ m.size =
          omega
            (arith, v.counted, length-entries-set m.hash_list (hash m.list_size k) [] home_in) in
        record {
          placed =
              set-IsPlaced r.0 _ (w.homed _ _ home_facts.0) w.distinct
                (ground (arith, w.size, filled));
          list_size = refl;
          change_size = refl;
          size = ground (arith, w.size, filled);
          found = w.found;
          reads = λ q. ground (
            arith,
            view-set r.0 (if r.1 then m.size - 1 else m.size) q,
            w.reads q,
            hash_equal m.list_size k q,
            view_same q,
          );
        }
