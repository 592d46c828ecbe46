-- ===== src/HashMap/Resize.antt =====
-- src/mid_hashmap.c: `resetHashMap` keeps the entries and what the map is read as.
use rdma_middleware.Prelude.{
  ℕ, suc, ◌+◌, ◌≤◌, ◌<◌, ◌≡◌, refl, ◌∙◌, ◌⊎◌, Bool-cases, inl, inr, none, some, [], ◌∷◌, length,
  arith, if◌then◌else◌, ltb, tests, lt→ltb, eq→==,
}
use rdma_middleware.HashMap.{
  HashMap, entries, store, put_all, reset_hash_map, default_put, default_map_size, int_limit,
}
use rdma_middleware.HashMap.Keys.{Key}
use rdma_middleware.HashMap.Chains.{Chain, find, Distinct, find_congr}
use rdma_middleware.HashMap.Placed.{or_else, or_else-none, Distinct-entries}
use rdma_middleware.HashMap.Inv.{IsPlaced, view, view-entries, fresh_map-IsPlaced, store-Stored}

module _ {K V : Type 0} (key : Key K) where
  open key use {equal, equal_refl}

  -- Below the limit `defaultPut` stores, and does not resize.
  default_put-store :
      (fuel : ℕ) (m : HashMap K V) (k : K) (x : V)
      → (store key m k x).0.size < (store key m k x).0.list_size
      → default_put key (suc fuel) m k x ≡ some (store key m k x).0
  unfolding default_put
  default_put-store fuel m k x h = ground arith

  -- What the last loop of `resetHashMap` makes of a map `m` and the entries `es`.
  pub record Refilled (m : HashMap K V) (es : Chain K V) (r : HashMap K V) : Type 0 where
    pub placed : IsPlaced key r
    pub list_size : r.list_size ≡ m.list_size
    pub change_size : r.change_size ≡ m.change_size
    pub size : r.size ≡ m.size + length es
    pub reads : (q : K) → view key r q ≡ or_else (find key q es) (view key m q)

  -- Distinct new entries that fit are all added, and no call resizes.
  put_all-Refilled :
      (fuel : ℕ) (es : Chain K V) (m : HashMap K V)
      → IsPlaced key m
      → Distinct key es
      → ((q : K) → (find key q es ≡ none) ⊎ (view key m q ≡ none))
      → m.size + length es < m.list_size
      → (r : HashMap K V) × (put_all key (default_put key (suc fuel)) m es ≡ some r)
        × Refilled m es r
  unfolding put_all find
  put_all-Refilled fuel [] m v d apart fits = (
    m,
    refl,
    record {
      placed = v;
      list_size = refl;
      change_size = refl;
      size = omega arith;
      reads = λ q. refl;
    },
  )
  put_all-Refilled fuel ((k, x) ∷ es) m v d apart fits =
      let s = store-Stored key m v k x in
      let absent : view key m k ≡ none = ground (arith, apart k, equal_refl k) in
      let one : (store key m k x).0.size ≡ m.size + 1 = ground (arith, s.size, s.fresh.1 absent) in
      let next : (q : K) → (find key q es ≡ none) ⊎ (view key (store key m k x).0 q ≡ none) =
        λ q. ground (arith, apart q, s.reads q, find_congr key k q es) in
      let (r, run, w) =
        put_all-Refilled fuel es (store key m k x).0 s.placed d.1 next
          (omega (arith, s.list_size)) in
      (
        r,
        rw (default_put-store fuel m k x (omega (arith, s.list_size))) run,
        record {
          placed = w.placed;
          list_size = w.list_size ∙ s.list_size;
          change_size = w.change_size ∙ s.change_size;
          size = omega (arith, w.size);
          reads = λ q. ground (arith, w.reads q, s.reads q, find_congr key k q es);
        },
      )

  -- `resetHashMap` to a length that holds the entries returns, and keeps the entries and the reads.
  -- Below the default size it changes nothing.
  pub record Reset (m : HashMap K V) (n : ℕ) (r : HashMap K V) : Type 0 where
    pub placed : IsPlaced key r
    pub list_size : r.list_size ≡ (if ltb n default_map_size then m.list_size else n)
    pub change_size : r.change_size ≡ m.change_size
    pub size : r.size ≡ m.size
    pub reads : (q : K) → view key r q ≡ view key m q

  pub reset_hash_map-Reset :
      (fuel : ℕ) (m : HashMap K V) (n : ℕ)
      → IsPlaced key m
      → (default_map_size ≤ n → m.size < n)
      → n < int_limit
      → (r : HashMap K V) × (reset_hash_map key (default_put key (suc fuel)) m n ≡ some r)
        × Reset m n r
  unfolding reset_hash_map
  reset_hash_map-Reset fuel m n v fits small = elim (Bool-cases (ltb n default_map_size)) [
    | inl few ↦ (
      m,
      rw few,
      record { placed = v; list_size = rw few; change_size = refl; size = refl; reads = λ q. refl },
    )
    | inr many ↦
        let room : m.size < n = fits (omega tests) in
        let (p, empty) = fresh_map-IsPlaced {V = V} key n m.change_size (omega arith) in
        let (r, run, w) =
          put_all-Refilled fuel (entries m.hash_list) _ p
            (Distinct-entries key m.list_size 0 m.hash_list v.placed) (λ q. inr (empty q))
            (omega (arith, v.counted)) in
        (
          r,
          rw (many, lt→ltb _ _ small, eq→== _ _ v.counted) run,
          record {
            placed = w.placed;
            list_size = rw many w.list_size;
            change_size = w.change_size;
            size = omega (arith, w.size, v.counted);
            reads = λ q. ground (
              arith,
              w.reads q,
              empty q,
              view-entries key m q v,
              or_else-none (find key q (entries m.hash_list)),
            );
          },
        )
  ]
