-- ===== src/HashMap/Placed.antt =====
-- src/mid_hashmap.c: every entry lies in the bucket of its key, and no two keys are equal.
use rdma_middleware.Prelude.{
  ℕ, zero, suc, ◌+◌, ◌<◌, ◌≡◌, ◌≢◌, refl, Bool-cases, inl, inr, Option, none, some, List, [], ◌∷◌,
  ◌++◌, length, get_or, set, replicate, length-append, arith, ◌==◌, ==→eq, ==_false→ne,
}
use rdma_middleware.HashMap.{entries}
use rdma_middleware.HashMap.Keys.{Key}
use rdma_middleware.HashMap.Chains.{Chain, find, Distinct, Homed, find_congr, find-Homed}

abbrev pub or_else : {A : Type 0} → Option A → Option A → Option A
or_else none b = b
or_else (some a) b = some a

pub or_else-none : {A : Type 0} (a : Option A) → or_else a none ≡ a
or_else-none none = refl
or_else-none (some a) = refl

module _ {K V : Type 0} (key : Key K) (n : ℕ) where
  open key use {equal, hash, equal_refl}

  -- The buckets from number `i` on hold distinct keys that hash to their numbers.
  abbrev pub Placed : ℕ → List (Chain K V) → Type 0
  Placed i [] = Unit {0}
  Placed i (c ∷ bs) = Homed key n i c × Distinct key c × Placed (suc i) bs

  pub Placed-bucket :
      (i j : ℕ) (bs : List (Chain K V))
      → Placed i bs
      → Homed key n (i + j) (get_or bs j []) × Distinct key (get_or bs j [])
  Placed-bucket i j [] p = (tt, tt)
  Placed-bucket i zero (c ∷ bs) p = let e : i + 0 ≡ i = omega arith in rw e (p.0, p.1)
  Placed-bucket i (suc j) (c ∷ bs) p =
      let e : i + suc j ≡ suc i + j = omega arith in rw e (Placed-bucket (suc i) j bs p.2)

  pub Placed-set :
      (i j : ℕ) (bs : List (Chain K V)) (c : Chain K V)
      → Placed i bs
      → Homed key n (i + j) c
      → Distinct key c
      → Placed i (set bs j c)
  Placed-set i j [] c p h d = tt
  Placed-set i zero (b ∷ bs) c p h d = let e : i + 0 ≡ i = omega arith in (rw e at h, d, p.2)
  Placed-set i (suc j) (b ∷ bs) c p h d =
      let e : i + suc j ≡ suc i + j = omega arith in
      (p.0, p.1, Placed-set (suc i) j bs c p.2 (rw e at h) d)

  find-nil : (q : K) → find {V = V} key q [] ≡ none
  unfolding find
  find-nil q = refl

  find-append :
      (q : K) (c d : Chain K V) → find key q (c ++ d) ≡ or_else (find key q c) (find key q d)
  unfolding find
  find-append q [] d = refl
  find-append q (e ∷ c) d = ground (arith, find-append q c d)

  Distinct-append :
      (c d : Chain K V)
      → Distinct key c
      → Distinct key d
      → ((q : K) → find key q c ≢ none → find key q d ≡ none)
      → Distinct key (c ++ d)
  unfolding find
  Distinct-append [] d p r apart = r
  Distinct-append (e ∷ c) d p r apart = (
    rw (find-append, p.0) (apart e.0 (rw (equal_refl e.0, find) (λ h. cc))),
    Distinct-append c d p.1 r (λ q h. apart q (found_later e c q h p.0)),
  )
    where
      found_later :
          (e : K × V) (c : Chain K V) (q : K)
          → find key q c ≢ none
          → find key e.0 c ≡ none
          → find key q (e ∷ c) ≢ none
      found_later e c q h a = ground (arith, find_congr key e.0 q c)

  -- A key whose bucket lies before `i` is not among the entries from bucket `i` on.
  find-entries_below :
      (i : ℕ) (q : K) (bs : List (Chain K V))
      → Placed i bs
      → hash n q < i
      → find key q (entries bs) ≡ none
  unfolding entries
  find-entries_below i q [] p h = find-nil q
  find-entries_below i q (c ∷ bs) p h = rw (
    find-append,
    find-Homed key n i q c p.0 (λ e. omega arith),
    find-entries_below (suc i) q bs p.2 (omega arith),
  )

  -- Among all the entries a key is found where its bucket has it.
  pub find-entries :
      (i j : ℕ) (q : K) (bs : List (Chain K V))
      → Placed i bs
      → hash n q ≡ i + j
      → find key q (entries bs) ≡ find key q (get_or bs j [])
  unfolding entries
  find-entries i j q [] p h = refl
  find-entries i zero q (c ∷ bs) p h =
      rw (find-append, find-entries_below (suc i) q bs p.2 (omega arith)) (or_else-none _)
  find-entries i (suc j) q (c ∷ bs) p h =
      rw (find-append, find-Homed key n i q c p.0 (λ e. omega arith))
        (find-entries (suc i) j q bs p.2 (omega arith))

  pub Distinct-entries : (i : ℕ) (bs : List (Chain K V)) → Placed i bs → Distinct key (entries bs)
  unfolding entries
  Distinct-entries i [] p = tt
  Distinct-entries i (c ∷ bs) p =
      Distinct-append c (entries bs) p.1 (Distinct-entries (suc i) bs p.2) apart
    where
      apart : (q : K) → find key q c ≢ none → find key q (entries bs) ≡ none
      apart q h = elim (Bool-cases (hash n q == i)) [
        | inl e ↦ find-entries_below (suc i) q bs p.2 (omega (arith, ==→eq (hash n q) i e))
        | inr e ↦ absurd (h (find-Homed key n i q c p.0 (==_false→ne _ _ e)))
      ]

pub Placed-replicate :
    {K : Type 0} (V : Type 0) (key : Key K) (n i k : ℕ) → Placed {V = V} key n i (replicate k [])
Placed-replicate V key n i zero = tt
Placed-replicate V key n i (suc k) = (tt, tt, Placed-replicate V key n (suc i) k)

pub length-entries-set :
    {A : Type 0} (bs : List (List A)) (j : ℕ) (c : List A)
    → j < length bs
    → length (entries (set bs j c)) + length (get_or bs j []) ≡ length (entries bs) + length c
unfolding entries
length-entries-set [] j c h = absurd (omega arith)
length-entries-set (b ∷ bs) zero c h =
    omega (arith, length-append c (entries bs), length-append b (entries bs))
length-entries-set (b ∷ bs) (suc j) c h = omega (
  arith,
  length-entries-set bs j c (omega arith),
  length-append b (entries (set bs j c)),
  length-append b (entries bs),
)

pub entries-replicate : {A : Type 0} (n : ℕ) → entries (replicate {A = List A} n []) ≡ []
unfolding entries
entries-replicate zero = refl
entries-replicate (suc n) = entries-replicate n
