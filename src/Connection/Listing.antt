-- ===== src/Connection/Listing.antt =====
-- src/mid_rdma_connection.c: a server's list of clients beside the table of the node's transports.
use rdma_middleware.Prelude.{
  ℕ, zero, suc, ◌+◌, ◌≡◌, refl, ap, sym, ◌∙◌, arith, Bool, true, false, inl, inr, Bool-cases,
  Option-cases, some, none, List, [], ◌∷◌, ◌++◌, ◌==◌, ◌||◌, length, get_elem?, set, tests,
}
use rdma_middleware.Connection.Events.{Transport, update_transport, list_del, is_server_side}

abbrev pub listed : List ℕ → ℕ → Bool
listed [] id = false
listed (x ∷ xs) id = (x == id) || listed xs id

abbrev pub AllServerSide : List Transport → List ℕ → Type 0
AllServerSide ts [] = Unit {0}
AllServerSide ts (x ∷ xs) = (is_server_side ts x ≡ true) × AllServerSide ts xs

abbrev pub Distinct : List ℕ → Type 0
Distinct [] = Unit {0}
Distinct (x ∷ xs) = (listed xs x ≡ false) × Distinct xs

-- `list_del` of an entry that is on the list.
pub record Deleted (xs : List ℕ) (id : ℕ) (ys : List ℕ) : Type 0 where
  pub result : list_del xs id ≡ some ys
  pub shorter : length ys + 1 ≡ length xs
  pub less : (j : ℕ) → listed xs j ≡ false → listed ys j ≡ false
  pub gone : Distinct xs → listed ys id ≡ false
  pub kept : Distinct xs → Distinct ys
  pub all : (ts : List Transport) → AllServerSide ts xs → AllServerSide ts ys

pub list_del-listed :
    (xs : List ℕ) (id : ℕ) → listed xs id ≡ true → (ys : List ℕ) × Deleted xs id ys
unfolding list_del
list_del-listed [] id h = absurd cc
list_del-listed (x ∷ xs) id h = elim (Bool-cases (x == id)) [
  | inl e ↦ (
    xs,
    record {
      result = rw e refl;
      shorter = omega arith;
      less = λ j k. ground arith;
      gone = λ d. ground (arith, d.0, e);
      kept = λ d. d.1;
      all = λ ts a. a.1;
    },
  )
  | inr e ↦
      let (ys, d) = list_del-listed xs id (ground (arith, h, e)) in
      (
        x ∷ ys,
        record {
          result = rw (e, d.result) refl;
          shorter = omega (arith, d.shorter);
          less = λ j k. ground (arith, d.less j);
          gone = λ k. ground (arith, d.gone k.1, e);
          kept = λ k. (d.less x k.0, d.kept k.1);
          all = λ ts a. (a.0, d.all ts a.1);
        },
      )
]

pub list_del-unlisted : (xs : List ℕ) (id : ℕ) → listed xs id ≡ false → list_del xs id ≡ none
unfolding list_del
list_del-unlisted [] id h = refl
list_del-unlisted (x ∷ xs) id h = ground (arith, list_del-unlisted xs id)

pub listed-AllServerSide :
    (ts : List Transport) (xs : List ℕ) (id : ℕ)
    → AllServerSide ts xs
    → is_server_side ts id ≡ false
    → listed xs id ≡ false
listed-AllServerSide ts [] id a h = refl
listed-AllServerSide ts (x ∷ xs) id a h =
    let rest : listed xs id ≡ false = listed-AllServerSide ts xs id a.1 h in
    elim (Bool-cases (x == id)) [
      | inl e ↦
          let same : x ≡ id = omega tests in
          let bad : true ≡ false = sym a.0 ∙ ap (is_server_side ts) same ∙ h in absurd cc
      | inr e ↦ rw e rest
    ]

pub is_server_side-set :
    (ts : List Transport) (id : ℕ) (u t : Transport) (j : ℕ)
    → get_elem? ts id ≡ some t
    → u.is_server ≡ t.is_server
    → is_server_side (set ts id u) j ≡ is_server_side ts j
unfolding is_server_side
is_server_side-set [] id u t j e k = refl
is_server_side-set (x ∷ ts) zero u t zero e k =
    let same : x ≡ t = cc in k ∙ ap (λ y. y.is_server) (sym same)
is_server_side-set (x ∷ ts) zero u t (suc j) e k = refl
is_server_side-set (x ∷ ts) (suc id) u t zero e k = refl
is_server_side-set (x ∷ ts) (suc id) u t (suc j) e k = is_server_side-set ts id u t j e k

-- The transports change, but for no client.
pub record Alike (ts us : List Transport) : Type 0 where
  pub stays : (id : ℕ) → is_server_side ts id ≡ true → is_server_side us id ≡ true

pub AllServerSide-Alike :
    (ts us : List Transport) (xs : List ℕ) → Alike ts us → AllServerSide ts xs → AllServerSide us xs
AllServerSide-Alike ts us [] k a = a
AllServerSide-Alike ts us (x ∷ xs) k a = (k.stays x a.0, AllServerSide-Alike ts us xs k a.1)

pub is_server_side-update :
    (f : Transport → Transport) (ts : List Transport) (id j : ℕ)
    → ((t : Transport) → (f t).is_server ≡ t.is_server)
    → is_server_side (update_transport f ts id) j ≡ is_server_side ts j
unfolding update_transport
is_server_side-update f ts id j k = elim (Option-cases (get_elem? ts id)) [
  | inl e ↦ rw (update_transport, e) refl
  | inr (t, e) ↦ rw (update_transport, e) (is_server_side-set ts id (f t) t j e (k t))
]

pub update-Alike :
    (f : Transport → Transport) (ts : List Transport) (id : ℕ)
    → ((t : Transport) → (f t).is_server ≡ t.is_server)
    → Alike ts (update_transport f ts id)
update-Alike f ts id k = record { stays = λ j h. is_server_side-update f ts id j k ∙ h }

pub is_server_side-append :
    (ts : List Transport) (t : Transport) (id : ℕ)
    → is_server_side ts id ≡ true
    → is_server_side (ts ++ (t ∷ [])) id ≡ true
unfolding is_server_side
is_server_side-append [] t id h = absurd cc
is_server_side-append (x ∷ ts) t zero h = h
is_server_side-append (x ∷ ts) t (suc id) h = is_server_side-append ts t id h

pub is_server_side-last :
    (ts : List Transport) (t : Transport)
    → is_server_side (ts ++ (t ∷ [])) (length ts) ≡ t.is_server
unfolding is_server_side
is_server_side-last [] t = refl
is_server_side-last (x ∷ ts) t = is_server_side-last ts t

pub is_server_side-past : (ts : List Transport) → is_server_side ts (length ts) ≡ false
unfolding is_server_side
is_server_side-past [] = refl
is_server_side-past (x ∷ ts) = is_server_side-past ts

pub AllServerSide-append :
    (ts : List Transport) (xs : List ℕ) (id : ℕ)
    → AllServerSide ts xs
    → is_server_side ts id ≡ true
    → AllServerSide ts (xs ++ (id ∷ []))
AllServerSide-append ts [] id a h = (h, a)
AllServerSide-append ts (x ∷ xs) id a h = (a.0, AllServerSide-append ts xs id a.1 h)

pub listed-append :
    (xs : List ℕ) (id j : ℕ)
    → listed xs j ≡ false
    → (id == j) ≡ false
    → listed (xs ++ (id ∷ [])) j ≡ false
listed-append [] id j h k = ground (arith, k)
listed-append (x ∷ xs) id j h k = ground (arith, listed-append xs id j, k)

pub Distinct-append :
    (xs : List ℕ) (id : ℕ) → Distinct xs → listed xs id ≡ false → Distinct (xs ++ (id ∷ []))
Distinct-append [] id d h = (refl, d)
Distinct-append (x ∷ xs) id d h =
    (listed-append xs id x d.0 (ground (arith, h)), Distinct-append xs id d.1 (ground (arith, h)))
