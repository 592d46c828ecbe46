-- ===== src/HashMap/Chains.antt =====
-- src/mid_hashmap.c: one bucket. Its entries in chain order, the one that stands in the array
-- first; empty where the array's `key` is NULL.
use rdma_middleware.Prelude.{
  ℕ, ◌≡◌, refl, Bool, true, false, Bool-cases, inl, inr, Option, none, some, List, [], ◌∷◌, arith,
  if◌then◌else◌,
}
use rdma_middleware.HashMap.Keys.{Key, equal_congr}

abbrev pub Chain : Type 0 → Type 0 → Type 0
Chain K V = List (K × V)

module _ {K V : Type 0} (key : Key K) where
  open key use {equal, hash, equal_refl, equal_symm, equal_trans, hash_equal}

  -- The loop of `defaultGet`.
  unfoldable pub find : K → Chain K V → Option V
  find k [] = none
  find k (e ∷ c) = if equal e.0 k then some e.1 else find k c

  -- The loop of `defaultExists`.
  unfoldable pub occurs : K → Chain K V → Bool
  occurs k [] = false
  occurs k (e ∷ c) = if equal e.0 k then true else occurs k c

  -- The loop of `defaultPut`: overwrites the value of the first equal key; `none` past the end.
  unfoldable pub assign : K → V → Chain K V → Option (Chain K V)
  assign k v [] = none
  assign k v (e ∷ c) =
      if equal k e.0
      then some ((e.0, v) ∷ c)
      else elim (assign k v c) [ none ↦ none | some c' ↦ some (e ∷ c') ]

  -- The rest of `defaultPut`: a new entry is linked behind the first. The Boolean tells that the
  -- entry is new.
  unfoldable pub put_chain : K → V → Chain K V → Chain K V × Bool
  put_chain k v [] = ((k, v) ∷ [], true)
  put_chain k v (e ∷ c) = elim (assign k v (e ∷ c)) [
    | some c' ↦ (c', false)
    | none ↦ (e ∷ (k, v) ∷ c, true)
  ]

  -- The unlinking of `defaultRemove`: the first entry with an equal key. The Boolean is `result`.
  unfoldable pub remove_chain : K → Chain K V → Chain K V × Bool
  remove_chain k [] = ([], false)
  remove_chain k (e ∷ c) =
      if equal e.0 k then (c, true) else (let (c', found) = remove_chain k c in (e ∷ c', found))

  -- No two entries have equal keys.
  abbrev pub Distinct : Chain K V → Type 0
  Distinct [] = Unit {0}
  Distinct (e ∷ c) = (find e.0 c ≡ none) × Distinct c

  -- Every key hashes to `i`.
  abbrev pub Homed : ℕ → ℕ → Chain K V → Type 0
  Homed n i [] = Unit {0}
  Homed n i (e ∷ c) = (hash n e.0 ≡ i) × Homed n i c

  pub find_congr : (a b : K) (c : Chain K V) → equal a b ≡ true → find a c ≡ find b c
  unfolding find
  find_congr a b [] p = refl
  find_congr a b (e ∷ c) p = ground (arith, find_congr a b c p, equal_congr key e.0 a b p)

  pub occurs_iff :
      (k : K) (c : Chain K V)
      → (occurs k c ≡ false → find k c ≡ none) × (occurs k c ≡ true → (v : V) × (find k c ≡ some v))
  unfolding find occurs
  occurs_iff k [] = ((λ h. refl), (λ h. cc))
  occurs_iff k (e ∷ c) = elim (Bool-cases (equal e.0 k)) [
    | inl p ↦ rw (p, occurs, find) ((λ h. cc), (λ h. (e.1, refl)))
    | inr p ↦ rw (p, occurs, find) (occurs_iff k c)
  ]

  -- A key that hashes elsewhere is not found in a chain.
  pub find-Homed :
      (n i : ℕ) (k : K) (c : Chain K V) → Homed n i c → (hash n k ≡ i → ⊥) → find k c ≡ none
  unfolding find
  find-Homed n i k [] h ne = refl
  find-Homed n i k (e ∷ c) h ne = elim (Bool-cases (equal e.0 k)) [
    | inl p ↦ absurd (ne (omega (arith, hash_equal n e.0 k p)))
    | inr p ↦ rw (p, find) (find-Homed n i k c h.1 ne)
  ]
