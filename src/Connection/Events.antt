-- ===== src/Connection/Events.antt =====
-- src/mid_rdma_connection.c: the events of the connection manager at a node that is a server, and its
-- list of clients.
-- A transport is its number; `none` is undefined behaviour: `list_del` of an entry that is on no list.
use rdma_middleware.Prelude.{
  ℕ, ◌+◌, ◌-◌, ◌%◌, ◌^◌, Bool, true, false, not, Option, some, none, List, [], ◌∷◌, ◌++◌,
  if◌then◌else◌, ◌==◌, length, get_elem?, set,
}
use rdma_middleware.HashMap.{◌>>=◌}

-- `enum dhmp_transport_state`, in its order
pub data TransportState : Type 0 where
  init listen connecting connected disconnected reconnect closed destroyed error reject :
      TransportState

-- The fields of `struct dhmp_transport` that the handlers use; `resources` tells that it holds what
-- `dhmp_destroy_source` gives back: the two regions, the queue pair, and the places of both channels among
-- the watched descriptors.
pub record Transport : Type 0 where
  pub peer_addr : ℕ
  pub trans_state : TransportState
  pub is_server : Bool
  pub resources : Bool

-- `struct dhmp_server`, with the node's transports; `cur_connections` is an `int`. `stop` is the flag of
-- the context by which the connections that the node opens are handled, `device` whether the transport that
-- listens was created with a device.
pub record Server : Type 0 where
  pub device : Bool
  pub stop : Bool
  pub cur_connections : ℕ
  pub client_list : List ℕ
  pub transports : List Transport

-- The events, with the results of the calls that their handlers make. A connection request carries
-- the address it comes from, and what `malloc` left in the new transport's address field; `begin` tells
-- that the new transport's block and channel can be had, for which the device is not used.
pub data CmEvent : Type 0 where
  addr_resolved : (id : ℕ) (route : Bool) → CmEvent
  route_resolved : (id : ℕ) (qp connect : Bool) → CmEvent
  connect_request : (from garbage : ℕ) (begin create qp accept : Bool) → CmEvent
  established : (id peer : ℕ) → CmEvent
  disconnected : (id : ℕ) → CmEvent
  connect_error : (id : ℕ) → CmEvent
  rejected : (id : ℕ) → CmEvent
  other : CmEvent

-- An assignment to the transport of this number.
unfoldable pub update_transport : (Transport → Transport) → List Transport → ℕ → List Transport
update_transport f transports id = elim (get_elem? transports id) [
  | none ↦ transports
  | some t ↦ set transports id (f t)
]

unfoldable pub set_state : Server → ℕ → TransportState → Server
set_state s id state = record s {
  transports = update_transport (λ t. record t { trans_state = state }) s.transports id;
}

-- `dhmp_is_exist_connection`
unfoldable pub dhmp_is_exist_connection : List Transport → List ℕ → ℕ → Bool
dhmp_is_exist_connection transports [] from = false
dhmp_is_exist_connection transports (id ∷ ids) from =
    let rest = dhmp_is_exist_connection transports ids from in
    elim (get_elem? transports id) [
      | none ↦ rest
      | some t ↦ if t.peer_addr == from then true else rest
    ]

-- `list_del`
unfoldable pub list_del : List ℕ → ℕ → Option (List ℕ)
list_del [] id = none
list_del (x ∷ xs) id =
    let rest = list_del xs id >>= λ (ys : List ℕ). some (x ∷ ys) in
    if x == id then some xs else rest

-- The end of `on_cm_disconnected` and of `on_cm_error`: one client less.
unfoldable pub drop_client : Server → ℕ → Option Server
drop_client s id = list_del s.client_list id >>= λ (ids : List ℕ).
    some (record s {
      cur_connections = (s.cur_connections + (2 ^ 32 - 1)) % 2 ^ 32;
      client_list = ids;
    })

-- `dhmp_destroy_source`, which leaves its pointers as they are: what is given back twice, or was never made,
-- is undefined.
unfoldable pub dhmp_destroy_source : Server → ℕ → Option Server
dhmp_destroy_source s id = get_elem? s.transports id >>= λ (t : Transport).
    if t.resources
    then some (record s {
      transports = update_transport (λ u. record u { resources = false }) s.transports id;
    })
    else none

-- The part of `on_cm_connect_request` behind the registration of the regions, with whether it returns 0. A
-- transport that is not accepted stays on the list.
unfoldable pub accept_client : Server → ℕ → Bool → Bool → Bool → Server × Bool
accept_client s garbage create qp accept =
    let id = length s.transports in
    let new : Transport = record {
      peer_addr = garbage;
      trans_state = init;
      is_server = true;
      resources = true;
    } in
    let listed : Server = record s {
      cur_connections = (s.cur_connections + 1) % 2 ^ 32;
      client_list = s.client_list ++ (id ∷ []);
      transports = s.transports ++ (new ∷ []);
    } in
    if not create
    then (s, false)
    else if not qp
    then (s, false)
    else if not accept
    then (listed, false)
    else (set_state listed id connecting, true)

-- `on_cm_connect_request`: `dhmp_transport_create` uses the device of the transport that listens.
unfoldable pub on_cm_connect_request :
    Server → ℕ → ℕ → Bool → Bool → Bool → Bool → Option (Server × Bool)
on_cm_connect_request s from garbage begin create qp accept =
    if dhmp_is_exist_connection s.transports s.client_list from
    then some (s, false)
    else if not begin
    then some (s, false)
    else if not s.device
    then none
    else some (accept_client s garbage create qp accept)

-- `on_cm_route_resolved`. The queue pair is released again if `rdma_connect` fails.
unfoldable pub on_cm_route_resolved : Server → ℕ → Bool → Bool → Server × Bool
on_cm_route_resolved s id qp connect =
    if not qp
    then (s, false)
    else if not connect
    then (set_state (record s { stop = true }) id error, false)
    else (
      record s {
        transports = update_transport (λ t. record t { resources = true }) s.transports id;
      },
      true,
    )

unfoldable pub on_cm_established : Server → ℕ → ℕ → Server
on_cm_established s id peer =
    let r : Server = record s {
      transports = update_transport (λ t. record t { peer_addr = peer }) s.transports id;
    } in
    set_state r id connected

-- Whether a transport is of a client of this server.
unfoldable pub is_server_side : List Transport → ℕ → Bool
is_server_side transports id = elim (get_elem? transports id) [
  | none ↦ false
  | some t ↦ t.is_server
]

unfoldable pub on_cm_disconnected : Server → ℕ → Option Server
on_cm_disconnected s id = dhmp_destroy_source s id >>= λ (d : Server).
    let r = set_state d id disconnected in
    if is_server_side s.transports id then drop_client r id else some r

unfoldable pub on_cm_error : Server → ℕ → Option Server
on_cm_error s id =
    dhmp_destroy_source s id >>= λ (d : Server). drop_client (set_state d id error) id

-- `dhmp_handle_ec_event`, with whether it returns 0.
unfoldable pub dhmp_handle_ec_event : Server → CmEvent → Option (Server × Bool)
dhmp_handle_ec_event s (addr_resolved id route) = some (s, route)
dhmp_handle_ec_event s (route_resolved id qp connect) = some (on_cm_route_resolved s id qp connect)
dhmp_handle_ec_event s (connect_request from garbage begin create qp accept) =
    on_cm_connect_request s from garbage begin create qp accept
dhmp_handle_ec_event s (established id peer) = some (on_cm_established s id peer, true)
dhmp_handle_ec_event s (disconnected id) =
    on_cm_disconnected s id >>= λ (r : Server). some (r, true)
dhmp_handle_ec_event s (connect_error id) = on_cm_error s id >>= λ (r : Server). some (r, true)
dhmp_handle_ec_event s (rejected id) = some (set_state s id reject, true)
dhmp_handle_ec_event s other = some (s, false)

-- The loop of `dhmp_event_channel_handler` over the events that are waiting: it ends early at one
-- whose handler fails.
unfoldable pub dhmp_event_channel_handler : Server → List CmEvent → Option Server
dhmp_event_channel_handler s [] = some s
dhmp_event_channel_handler s (e ∷ es) = dhmp_handle_ec_event s e >>= λ (r : Server × Bool).
    let rest = dhmp_event_channel_handler r.0 es in if r.1 then rest else some r.0
