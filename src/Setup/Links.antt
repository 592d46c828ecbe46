-- ===== src/Setup/Links.antt =====
-- src/mid_rdma_init.c, test/test.c: the connections along the chain.
use rdma_middleware.Prelude.{
  true, false, ℕ, ◌+◌, ◌-◌, ◌≤◌, ◌<◌, ◌≡◌, ◌≢◌, refl, ◌⊎◌, inl, inr, Option, some, none, List, [],
  ◌∷◌, ◌++◌, get_elem?, arith, ◌==◌, if◌then◌else◌,
}
use rdma_middleware.Log.Reader.{NodeClass, head, normal, tail}
use rdma_middleware.Client.Addresses.{node_index}
use rdma_middleware.Connection.Events.{connected}
use rdma_middleware.Setup.Config.{server_node_num}
use rdma_middleware.Setup.Chain.{
  node_class_of, find_next_node, client_find_server_id, Attempt, dhmp_connect, set_slot,
  connect_all, dhmp_client_init,
}

-- Rounds in which a transport is created, but not connected yet.
abbrev pub AreWaiting : List Attempt → Type 0
AreWaiting [] = Unit {0}
AreWaiting (a ∷ later) = (a.created ≢ none) × (a.state ≢ connected) × AreWaiting later

-- If transports can be created, `dhmp_connect` returns as soon as one of them is connected, however long
-- that takes, and returns this one.
dhmp_connect-live :
    (before after : List Attempt) (t : ℕ)
    → AreWaiting before
    → dhmp_connect (before ++ (record { created = some t; state = connected } ∷ after))
      ≡ some (some t)
unfolding dhmp_connect
dhmp_connect-live [] after t h = refl
dhmp_connect-live (a ∷ before) after t (made, waits, rest) =
    ground (arith, dhmp_connect-live before after t rest)

-- What the start of a node gives it in the chain.
abbrev Linked : (ℕ → List Attempt) → (ℕ → ℕ) → ℕ → ℕ → Type 0
Linked rounds t server_id num =
    (class : NodeClass) × (slots : List (Option ℕ)) × (node_class_of server_id num ≡ some class)
    × (dhmp_client_init rounds class server_id num ≡ some slots)
    × (if server_id == num - 1
        then (find_next_node num server_id ≡ none) × (client_find_server_id num slots 0 ≡ none)
        else (find_next_node num server_id ≡ some (server_id + 1))
          × (get_elem? slots (server_id + 1) ≡ some (some (t (server_id + 1))))
          × (node_index slots (t (server_id + 1)) ≡ server_id + 1))

module _ (rounds : ℕ → List Attempt) (t : ℕ → ℕ)
    (up : (i : ℕ) → dhmp_connect (rounds i) ≡ some (some (t i))) (apart : t 1 ≢ t 2) where
  unequal : (t 1 == t 2) ≡ false
  unequal = ground (arith, apart)

  first_of_two : Linked rounds t 0 2
  unfolding dhmp_client_init connect_all set_slot node_class_of find_next_node node_index
  first_of_two =
      let self : (t 1 == t 1) ≡ true = ground arith in
      (head, (none ∷ some (t 1) ∷ none ∷ []), refl, rw (up 1) refl, (refl, refl, rw self refl))

  last_of_two : Linked rounds t 1 2
  unfolding dhmp_client_init node_class_of find_next_node client_find_server_id
  last_of_two = (tail, (none ∷ none ∷ none ∷ []), refl, refl, (refl, refl))

  first_of_three : Linked rounds t 0 3
  unfolding dhmp_client_init connect_all set_slot node_class_of find_next_node node_index
  first_of_three =
      let self : (t 1 == t 1) ≡ true = ground arith in
      (
        head,
        (none ∷ some (t 1) ∷ some (t 2) ∷ []),
        refl,
        rw (up 1, up 2) refl,
        (refl, refl, rw self refl),
      )

  second_of_three : Linked rounds t 1 3
  unfolding dhmp_client_init set_slot node_class_of find_next_node node_index
  second_of_three =
      let self : (t 2 == t 2) ≡ true = ground arith in
      (normal, (none ∷ none ∷ some (t 2) ∷ []), refl, rw (up 2) refl, (refl, refl, rw self refl))

  last_of_three : Linked rounds t 2 3
  unfolding dhmp_client_init node_class_of find_next_node client_find_server_id
  last_of_three = (tail, (none ∷ none ∷ none ∷ []), refl, refl, (refl, refl))

-- At a node of a chain of two or three, from which every connection comes up, `dhmp_client_init` returns. A
-- node that is not the last has a next one, the connection to it stands in the slot of that node, and
-- `dhmp_transfer_dhmp_addr` finds this slot; the last one has no connection. Assumed is that different
-- connections are different transports.
pub dhmp_client_init-next :
    (rounds : ℕ → List Attempt) (t : ℕ → ℕ) (server_id num : ℕ)
    → 2 ≤ num
    → num ≤ server_node_num
    → server_id < num
    → ((i : ℕ) → dhmp_connect (rounds i) ≡ some (some (t i)))
    → t 1 ≢ t 2
    → (class : NodeClass) × (slots : List (Option ℕ)) × (node_class_of server_id num ≡ some class)
      × (dhmp_client_init rounds class server_id num ≡ some slots)
      × (if server_id == num - 1
          then (find_next_node num server_id ≡ none) × (client_find_server_id num slots 0 ≡ none)
          else (find_next_node num server_id ≡ some (server_id + 1))
            × (get_elem? slots (server_id + 1) ≡ some (some (t (server_id + 1))))
            × (node_index slots (t (server_id + 1)) ≡ server_id + 1))
dhmp_client_init-next rounds t server_id num two three inside up apart =
    let places : ((server_id ≡ 0) × (num ≡ 2))
        ⊎ (((server_id ≡ 1) × (num ≡ 2))
            ⊎ (((server_id ≡ 0) × (num ≡ 3))
                ⊎ (((server_id ≡ 1) × (num ≡ 3)) ⊎ ((server_id ≡ 2) × (num ≡ 3))))) =
      ground arith in
    elim places [
      | inl (i, n) ↦ rw (i, n) (first_of_two rounds t up apart)
      | inr (inl (i, n)) ↦ rw (i, n) (last_of_two rounds t up apart)
      | inr (inr (inl (i, n))) ↦ rw (i, n) (first_of_three rounds t up apart)
      | inr (inr (inr (inl (i, n)))) ↦ rw (i, n) (second_of_three rounds t up apart)
      | inr (inr (inr (inr (i, n)))) ↦ rw (i, n) (last_of_three rounds t up apart)
    ]
