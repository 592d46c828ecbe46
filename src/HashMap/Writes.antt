-- ===== src/HashMap/Writes.antt =====
-- src/mid_hashmap.c: what `defaultPut` and `defaultRemove` do to a bucket.
use rdma_middleware.Prelude.{
  ℕ, suc, ◌+◌, ◌≡◌, refl, ap, Bool, true, false, Bool-cases, inl, inr, none, some, [], ◌∷◌, length,
  arith, if◌then◌else◌, ◌∙◌, ◌↔◌, ◌⊎◌, ◌≢◌,
}
use rdma_middleware.HashMap.Keys.{Key, equal_comm, equal_congr}
use rdma_middleware.HashMap.Chains.{
  Chain, find, assign, put_chain, remove_chain, Distinct, Homed, find_congr,
}

abbrev pub to_nat : Bool → ℕ
to_nat true = 1
to_nat false = 0

module _ {K V : Type 0} (key : Key K) where
  open key use {equal, hash, equal_refl, equal_symm, equal_trans, hash_equal}

  -- What an overwritten chain keeps.
  record Assigned (k : K) (v : V) (c c' : Chain K V) : Type 0 where
    pub size : length c' ≡ length c
    pub reads : (q : K) → find key q c' ≡ (if equal k q then some v else find key q c)
    pub homed : (n i : ℕ) → Homed key n i c → Homed key n i c'
    pub distinct : Distinct key c → Distinct key c'

  Assigned-here :
      (k : K) (v : V) (e : K × V) (c : Chain K V)
      → equal k e.0 ≡ true
      → Assigned k v (e ∷ c) ((e.0, v) ∷ c)
  unfolding find
  Assigned-here k v e c p = record {
    size = refl;
    reads =
        λ q. ground (arith, equal_comm key k q, equal_comm key e.0 q, equal_congr key q k e.0 p);
    homed = λ n i h. h;
    distinct = λ d. d;
  }

  Assigned-there :
      (k : K) (v : V) (e : K × V) (c c' : Chain K V)
      → equal k e.0 ≡ false
      → Assigned k v c c'
      → Assigned k v (e ∷ c) (e ∷ c')
  unfolding find
  Assigned-there k v e c c' p a = record {
    size = ap suc a.size;
    reads = λ q. ground (arith, a.reads q, equal_comm key e.0 q, equal_congr key k e.0 q);
    homed = λ n i h. (h.0, a.homed n i h.1);
    distinct = λ d. (a.reads e.0 ∙ rw p d.0, a.distinct d.1);
  }

  -- Either no key of the chain is equal, or one value is overwritten.
  assign_cases :
      (k : K) (v : V) (c : Chain K V)
      → (assign key k v c ≡ none) × (find key k c ≡ none)
        ⊎ ((c' : Chain K V) × (assign key k v c ≡ some c')
            × (find key k c ≢ none)
            × Assigned k v c c')
  unfolding assign find
  assign_cases k v [] = inl (refl, refl)
  assign_cases k v (e ∷ c) = elim (Bool-cases (equal k e.0)) [
    | inl p ↦ inr (
      (e.0, v) ∷ c,
      rw (p, assign),
      rw (equal_comm key e.0 k, p, find) (λ h. cc),
      Assigned-here k v e c p,
    )
    | inr p ↦ elim (assign_cases k v c) [
      | inl (a, f) ↦ inl (rw (p, assign, a), rw (equal_comm key e.0 k, p, find) f)
      | inr (c', a, f, w) ↦ inr (
        e ∷ c',
        rw (p, assign, a),
        rw (equal_comm key e.0 k, p, find) f,
        Assigned-there k v e c c' p w,
      )
    ]
  ]

  -- What `defaultPut` does to a bucket: it is read as before but at the key, and grows by one
  -- entry exactly if the key is new.
  pub record Put (k : K) (v : V) (c : Chain K V) (r : Chain K V × Bool) : Type 0 where
    pub size : length r.0 ≡ length c + to_nat r.1
    pub fresh : (r.1 ≡ true) ↔ (find key k c ≡ none)
    pub reads : (q : K) → find key q r.0 ≡ (if equal k q then some v else find key q c)
    pub homed : (n i : ℕ) → hash n k ≡ i → Homed key n i c → Homed key n i r.0
    pub distinct : Distinct key c → Distinct key r.0

  Put-linked :
      (k : K) (v : V) (e : K × V) (c : Chain K V)
      → find key k (e ∷ c) ≡ none
      → Put k v (e ∷ c) (e ∷ (k, v) ∷ c, true)
  unfolding find
  Put-linked k v e c absent = record {
    size = omega arith;
    fresh = ((λ _. absent), (λ _. refl));
    reads =
        λ q. ground (arith, equal_comm key e.0 k, equal_comm key e.0 q, equal_congr key e.0 k q);
    homed = λ n i h d. (d.0, (h, d.1));
    distinct = λ d. (ground (arith, equal_comm key k e.0), (ground arith, d.1));
  }

  pub put_chain-Put : (k : K) (v : V) (c : Chain K V) → Put k v c (put_chain key k v c)
  unfolding put_chain find
  put_chain-Put k v [] = record {
    size = omega arith;
    fresh = ((λ _. refl), (λ _. refl));
    reads = λ q. refl;
    homed = λ n i h d. (h, tt);
    distinct = λ d. (refl, tt);
  }
  put_chain-Put k v (e ∷ c) = elim (assign_cases k v (e ∷ c)) [
    | inl (a, f) ↦ rw (put_chain, a) (Put-linked k v e c f)
    | inr (c', a, f, w) ↦
        rw (put_chain, a)
          (record {
            size = omega (arith, w.size);
            fresh = ((λ h. cc), (λ h. absurd (f h)));
            reads = w.reads;
            homed = λ n i h d. w.homed n i d;
            distinct = w.distinct;
          })
  ]

  -- What `defaultRemove` does to a bucket without equal keys.
  pub record Removed (k : K) (c : Chain K V) (r : Chain K V × Bool) : Type 0 where
    pub size : length r.0 + to_nat r.1 ≡ length c
    pub found : (r.1 ≡ false) ↔ (find key k c ≡ none)
    pub reads : (q : K) → find key q r.0 ≡ (if equal k q then none else find key q c)
    pub homed : (n i : ℕ) → Homed key n i c → Homed key n i r.0
    pub distinct : Distinct key r.0

  Removed-here :
      (k : K) (e : K × V) (c : Chain K V)
      → equal e.0 k ≡ true
      → Distinct key (e ∷ c)
      → Removed k (e ∷ c) (c, true)
  unfolding find
  Removed-here k e c p d = record {
    size = omega arith;
    found = ((λ h. cc), (λ h. absurd (taken h)));
    reads = λ q. ground (
      arith,
      equal_comm key e.0 k,
      equal_comm key e.0 q,
      equal_congr key q e.0 k p,
      equal_comm key q k,
      find_congr key e.0 q c,
    );
    homed = λ n i h. h.1;
    distinct = d.1;
  }
    where
      taken : find key k (e ∷ c) ≡ none → ⊥
      taken h = ground arith

  Removed-there :
      (k : K) (e : K × V) (c : Chain K V) {r : Chain K V × Bool}
      → equal e.0 k ≡ false
      → Distinct key (e ∷ c)
      → Removed k c r
      → Removed k (e ∷ c) (e ∷ r.0, r.1)
  unfolding find
  Removed-there k e c p d w = record {
    size = omega (arith, w.size);
    found = ((λ h. rw (p, find) (w.found.0 h)), (λ h. w.found.1 (ground arith)));
    reads = λ q. ground (arith, w.reads q, equal_comm key e.0 q, equal_congr key e.0 k q);
    homed = λ n i h. (h.0, w.homed n i h.1);
    distinct = (ground (arith, w.reads e.0), w.distinct);
  }

  pub remove_chain-Removed :
      (k : K) (c : Chain K V) → Distinct key c → Removed k c (remove_chain key k c)
  unfolding remove_chain find
  remove_chain-Removed k [] d = record {
    size = omega arith;
    found = ((λ _. refl), (λ _. refl));
    reads = λ q. ground arith;
    homed = λ n i h. h;
    distinct = tt;
  }
  remove_chain-Removed k (e ∷ c) d = elim (Bool-cases (equal e.0 k)) [
    | inl p ↦ rw p (Removed-here k e c p d)
    | inr p ↦ rw p (Removed-there k e c p d (remove_chain-Removed k c d.1))
  ]
