-- ===== src/HashMap/Keys.antt =====
-- src/mid_hashmap.c: the two functions that a map is created with, `hashCode` and `equal`, and what
-- the map relies on. `hash` gets the number of buckets, the only field that a hash function reads.
use rdma_middleware.Prelude.{ℕ, ◌<◌, ◌≡◌, Bool, true, Bool-cases, inl, inr, sym, ◌∙◌}

pub record Key (K : Type 0) : Type 0 where
  pub equal : K → K → Bool
  pub hash : ℕ → K → ℕ
  pub equal_refl : (a : K) → equal a a ≡ true
  pub equal_symm : (a b : K) → equal a b ≡ true → equal b a ≡ true
  pub equal_trans : (a b c : K) → equal a b ≡ true → equal b c ≡ true → equal a c ≡ true
  pub hash_lt : (n : ℕ) (a : K) → 0 < n → hash n a < n
  pub hash_equal : (n : ℕ) (a b : K) → equal a b ≡ true → hash n a ≡ hash n b

module _ {K : Type 0} (key : Key K) where
  open key use {equal, equal_symm, equal_trans}

  pub equal_comm : (a b : K) → equal a b ≡ equal b a
  equal_comm a b = elim (Bool-cases (equal a b)) [
    | inl p ↦ p ∙ sym (equal_symm a b p)
    | inr p ↦ elim (Bool-cases (equal b a)) [ inl q ↦ equal_symm b a q ∙ sym q | inr q ↦ p ∙ sym q ]
  ]

  -- Equal keys compare alike with every key.
  pub equal_congr : (c a b : K) → equal a b ≡ true → equal c a ≡ equal c b
  equal_congr c a b p = elim (Bool-cases (equal c a)) [
    | inl q ↦ q ∙ sym (equal_trans c a b q p)
    | inr q ↦ elim (Bool-cases (equal c b)) [
      | inl r ↦ equal_trans c b a r (equal_symm a b p) ∙ sym r
      | inr r ↦ q ∙ sym r
    ]
  ]
