-- ===== src/Setup/Chain.antt =====
-- test/test.c, src/mid_rdma_utils.c, src/mid_rdma_init.c: a node's place in the chain, and the connections
-- that its client opens. What a round of connecting comes to is a parameter. `none` is the code's
-- `exit`, a call that never returns, or an assignment past the slots.
use rdma_middleware.Prelude.{
  ℕ, zero, suc, ◌+◌, ◌-◌, Option, some, none, List, [], ◌∷◌, length, set, replicate, if◌then◌else◌,
  ltb, leb, ◌==◌,
}
use rdma_middleware.Prelude.Results.{◌>>=◌}
use rdma_middleware.Log.Reader.{NodeClass, head, normal, tail}
use rdma_middleware.Connection.Events.{TransportState, connected}
use rdma_middleware.Setup.Config.{server_node_num}

-- `main` of test/test.c: the class of a node.
unfoldable pub node_class_of : ℕ → ℕ → Option NodeClass
node_class_of server_id num_chain_clusters =
    if leb num_chain_clusters 1
    then none
    else if server_id == num_chain_clusters - 1
    then some tail
    else if server_id == 0
    then some head
    else some normal

-- `find_next_node`; `none` is -1.
unfoldable pub find_next_node : ℕ → ℕ → Option ℕ
find_next_node nets_cnt id = if leb (nets_cnt - 1) id then none else some (id + 1)

-- `client_find_server_id`, from the slot `i` on: the first of the `n` slots that holds a connection.
unfoldable pub client_find_server_id : ℕ → List (Option ℕ) → ℕ → Option ℕ
client_find_server_id zero slots i = none
client_find_server_id (suc n) [] i = none
client_find_server_id (suc n) (none ∷ slots) i = client_find_server_id n slots (i + 1)
client_find_server_id (suc n) (some t ∷ slots) i = some i

-- A round of `dhmp_connect`: the transport that is created, if any, and its state a second later.
pub record Attempt : Type 0 where
  pub created : Option ℕ
  pub state : TransportState

-- `dhmp_connect`, over its rounds. The inner `none` is NULL. A rejected transport is freed and another
-- one created, which the next round drops; in every state but CONNECTED the code goes round.
unfoldable pub dhmp_connect : List Attempt → Option (Option ℕ)
dhmp_connect [] = none
dhmp_connect (a ∷ later) =
    let again = dhmp_connect later in
    elim (a.created) [
      | none ↦ some none
      | some t ↦ elim (a.state) [ connected ↦ some (some t) | _ ↦ again ]
    ]

-- An assignment to `client->connect_trans[i]`.
unfoldable pub set_slot : List (Option ℕ) → ℕ → Option ℕ → Option (List (Option ℕ))
set_slot slots i t = if ltb i (length slots) then some (set slots i t) else none

-- The loop of `dhmp_client_init` at the head node, from the node `i` on, for `n` nodes. `rounds` gives the
-- rounds of connecting to a node.
unfoldable pub connect_all :
    (ℕ → List Attempt) → ℕ → ℕ → ℕ → List (Option ℕ) → Option (List (Option ℕ))
connect_all rounds server_id zero i slots = some slots
connect_all rounds server_id (suc n) i slots =
    let skipped =
      set_slot slots i none >>= λ (s : List (Option ℕ)). connect_all rounds server_id n (i + 1) s in
    let opened = dhmp_connect (rounds i) >>= λ (t : Option ℕ).
    set_slot slots i t >>= λ (s : List (Option ℕ)). connect_all rounds server_id n (i + 1) s in
    if server_id == i then skipped else opened

-- The connections that `dhmp_client_init` opens.
unfoldable pub dhmp_client_init : (ℕ → List Attempt) → NodeClass → ℕ → ℕ → Option (List (Option ℕ))
dhmp_client_init rounds class server_id nets_cnt =
    let slots : List (Option ℕ) = replicate server_node_num none in
    elim class [
      | head ↦ connect_all rounds server_id nets_cnt 0 slots
      | normal ↦ dhmp_connect (rounds (server_id + 1)) >>= λ (t : Option ℕ). elim t [
        | none ↦ none
        | some c ↦ set_slot slots (server_id + 1) (some c)
      ]
      | tail ↦ some slots
    ]
