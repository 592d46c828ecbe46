-- ===== src/HashMap/Methods.antt =====
-- src/mid_hashmap.c: the methods of the map against a partial function of its keys.
use mathlib.Core.Bool.{false≢true, true≢false}
use rdma_middleware.Prelude.{
  ℕ, suc, ◌+◌, ◌*◌, ◌/◌, ◌≤◌, ◌<◌, ◌≡◌, ◌≢◌, refl, sym, ap, ◌∙◌, true, false, Bool-cases, inl, inr,
  Option, none, some, arith, if◌then◌else◌, ltb, leb, ◌&&◌,
}
use rdma_middleware.HashMap.{
  HashMap, create_hash_map, default_get, store, unlink, bucket, entry_key, default_put,
  default_remove, int_limit,
}
use rdma_middleware.HashMap.Keys.{Key}
use rdma_middleware.HashMap.Inv.{
  IsPlaced, view, default_get_lem, fresh_map-IsPlaced, store-Stored, unlink-Unlinked,
}
use rdma_middleware.HashMap.Resize.{reset_hash_map-Reset}

-- From 25 buckets on the map doubles before it is full: below that, twice as many are too few for
-- `resetHashMap` to act.
pub record IsValid {K V : Type 0} (key : Key K) (m : HashMap K V) : Type 0 where
  pub placed : IsPlaced key m
  pub loose : 25 ≤ m.list_size → m.change_size ≡ true → m.size < m.list_size

-- How many keys a `put` adds, given what was there.
abbrev pub missing : {V : Type 0} → Option V → ℕ
missing none = 1
missing (some x) = 0

missing_old : {V : Type 0} → (o : Option V) → o ≢ none → missing o ≡ 0
missing_old none h = absurd (h refl)
missing_old (some x) h = refl

module _ {K V : Type 0} (key : Key K) where
  open key use {equal}

  fresh :
      (n : ℕ)
      → 0 < n
      → let m = create_hash_map K V (some n) in
        IsValid key m × ((q : K) → default_get key m q ≡ none)
  unfolding create_hash_map
  fresh n h =
      let (p, empty) = fresh_map-IsPlaced {V = V} key n true h in
      (record { placed = p; loose = λ _ _. h }, λ q. default_get_lem key _ q ∙ empty q)

  -- `createHashMap` makes a valid map without keys, unless it is asked for no buckets.
  pub create_hash_map-IsValid :
      (requested : Option ℕ)
      → requested ≢ some 0
      → IsValid key (create_hash_map K V requested)
        × ((q : K) → default_get key (create_hash_map K V requested) q ≡ none)
  unfolding create_hash_map
  create_hash_map-IsValid none h = fresh 50 (omega arith)
  create_hash_map-IsValid (some n) h = fresh n (ground arith)

  -- What a `put` of `x` at `k` makes of the map.
  pub record Puts (m : HashMap K V) (k : K) (x : V) (r : HashMap K V) : Type 0 where
    pub valid : IsValid key r
    pub counted : r.size ≡ m.size + missing (default_get key m k)
    pub reads : (q : K) → default_get key r q ≡ (if equal k q then some x else default_get key m q)

  -- What a `remove` of `k` makes of the map, with the pointer that it returns.
  pub record Removes (m : HashMap K V) (k : K) (r : Option K × HashMap K V) : Type 0 where
    pub valid : IsValid key r.1
    pub counted : r.1.size + 1 ≡ m.size + missing (default_get key m k)
    pub reads : (q : K) → default_get key r.1 q ≡ (if equal k q then none else default_get key m q)
    pub returned : r.0 ≡ entry_key key (bucket key m k)
    pub narrowed : r.1.list_size ≤ m.list_size
    pub some_left : 2 ≤ m.list_size → 2 ≤ r.1.list_size

  get_if :
      (m r : HashMap K V) (k q : K) (o : Option V)
      → view key r q ≡ (if equal k q then o else view key m q)
      → default_get key r q ≡ (if equal k q then o else default_get key m q)
  get_if m r k q o h = ground (arith, default_get_lem key r q, default_get_lem key m q)

  module _ (m : HashMap K V) (v : IsValid key m) (small : m.list_size * 2 < int_limit) (k : K) where
    -- `put` returns, whatever the number of entries, with a fuel of two: the calls from inside
    -- `resetHashMap` never resize again. It keeps the map valid, counts a new key, and changes what
    -- is read under equal keys alone.
    pub default_put-Puts :
        (fuel : ℕ) (x : V)
        → (r : HashMap K V) × (default_put key (suc (suc fuel)) m k x ≡ some r) × Puts m k x r
    unfolding default_put
    default_put-Puts fuel x =
        let s = store-Stored key m v.placed k x in
        let m' = (store key m k x).0 in
        let absent : (store key m k x).1 ≡ true → default_get key m k ≡ none =
          λ h. default_get_lem key m k ∙ s.fresh.0 h in
        let there : (store key m k x).1 ≡ false → default_get key m k ≢ none =
          λ old h. false≢true (sym old ∙ s.fresh.1 (sym (default_get_lem key m k) ∙ h)) in
        elim (Bool-cases (store key m k x).1) [
          | inl new ↦ elim (Bool-cases (leb m'.list_size m'.size && m.change_size)) [
            | inl full ↦
                let (r, run, w) =
                  reset_hash_map-Reset key fuel m' (m'.list_size * 2) s.placed
                    (ground (arith, s.size, s.list_size, v.loose)) (omega (arith, s.list_size)) in
                (
                  r,
                  rw (new, full) run,
                  record {
                    valid = record {
                      placed = w.placed;
                      loose = ground (arith, w.list_size, w.size, s.size, s.list_size, v.loose);
                    };
                    counted = ground (arith, w.size, s.size, ap missing (absent new));
                    reads = λ q. get_if m r k q (some x) (w.reads q ∙ s.reads q);
                  },
                )
            | inr room ↦ (
              m',
              rw (new, room),
              record {
                valid = record { placed = s.placed; loose = ground (arith, s.change_size) };
                counted = ground (arith, s.size, ap missing (absent new));
                reads = λ q. get_if m m' k q (some x) (s.reads q);
              },
            )
          ]
          | inr old ↦ (
            m',
            rw old,
            record {
              valid = record {
                placed = s.placed;
                loose = ground (arith, s.size, s.list_size, s.change_size, v.loose);
              };
              counted = ground (arith, s.size, missing_old _ (there old));
              reads = λ q. get_if m m' k q (some x) (s.reads q);
            },
          )
        ]

    -- `remove` returns with a fuel of one, keeps the map valid, counts a key that was there, and
    -- clears what is read under equal keys alone. It returns the key of the first entry of the
    -- bucket, found or not. The buckets do not grow more, nor fewer than two.
    pub default_remove-Removes :
        (fuel : ℕ)
        → (r : Option K × HashMap K V) × (default_remove key (suc fuel) m k ≡ some r)
          × Removes m k r
    unfolding default_remove
    default_remove-Removes fuel =
        let s = unlink-Unlinked key m v.placed k in
        let m' = (unlink key m k).0 in
        let gone = default_get_lem key m k in
        let found : (unlink key m k).1 ≡ true → default_get key m k ≢ none =
          λ hit h. true≢false (sym hit ∙ s.found.1 (sym gone ∙ h)) in
        elim (Bool-cases ((unlink key m k).1 && ltb m'.size (m'.list_size / 2) && m.change_size)) [
          | inl few ↦
              let (r, run, w) =
                reset_hash_map-Reset key fuel m' (m'.list_size / 2) s.placed (λ _. ground arith)
                  (omega (arith, s.list_size)) in
              (
                (entry_key key (bucket key m k), r),
                rw (few, run),
                record {
                  valid = record {
                    placed = w.placed;
                    loose = ground (arith, w.list_size, w.size, s.size, s.list_size, v.loose);
                  };
                  counted = ground (arith, w.size, s.size, missing_old _ (found (ground arith)));
                  reads = λ q. get_if m r k q none (w.reads q ∙ s.reads q);
                  returned = refl;
                  narrowed = ground (arith, w.list_size, s.list_size);
                  some_left = λ two. ground (arith, w.list_size, s.list_size);
                },
              )
          | inr enough ↦ (
            (entry_key key (bucket key m k), m'),
            rw enough,
            record {
              valid = record {
                placed = s.placed;
                loose = ground (arith, s.size, s.list_size, s.change_size, v.loose);
              };
              counted = elim (Bool-cases (unlink key m k).1) [
                | inl hit ↦ ground (arith, s.size, missing_old _ (found hit))
                | inr miss ↦ ground (arith, s.size, ap missing (gone ∙ s.found.0 miss))
              ];
              reads = λ q. get_if m m' k q none (s.reads q);
              returned = refl;
              narrowed = omega (arith, s.list_size);
              some_left = λ two. omega (arith, two, s.list_size);
            },
          )
        ]
