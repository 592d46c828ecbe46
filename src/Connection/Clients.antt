-- ===== src/Connection/Clients.antt =====
-- src/mid_rdma_connection.c: the list of a server's clients under the events of the connections.
use rdma_middleware.Prelude.{
  ℕ, ◌+◌, ◌-◌, ◌%◌, ◌^◌, ◌≡◌, refl, ◌∙◌, arith, Bool, true, false, not, inl, inr, Bool-cases,
  Option-cases, get_elem?, Option, some, none, List, [], ◌∷◌, ◌++◌, if◌then◌else◌, length,
  length-append,
}
use rdma_middleware.HashMap.{◌>>=◌}
use rdma_middleware.Connection.Events.{
  TransportState, init, connecting, connected, disconnected, error, reject, Transport, Server,
  CmEvent, addr_resolved, route_resolved, connect_request, established, connect_error, rejected,
  other, set_state, drop_client, is_server_side, dhmp_is_exist_connection, on_cm_connect_request,
  accept_client, dhmp_destroy_source, update_transport, on_cm_route_resolved, on_cm_established,
  on_cm_disconnected, on_cm_error, dhmp_handle_ec_event,
}
use rdma_middleware.Connection.Listing.{
  listed, AllServerSide, Distinct, list_del-listed, listed-AllServerSide, Alike,
  AllServerSide-Alike, update-Alike, is_server_side-append, is_server_side-last,
  is_server_side-past, AllServerSide-append, Distinct-append,
}

-- The count is the length of the list, as an `int`; the list has no transport twice, and only
-- transports of clients.
pub record IsValid (s : Server) : Type 0 where
  pub counted : s.cur_connections ≡ length s.client_list % 2 ^ 32
  pub server_side : AllServerSide s.transports s.client_list
  pub distinct : Distinct s.client_list

replaced-IsValid :
    (s : Server) (us : List Transport)
    → Alike s.transports us
    → IsValid s
    → IsValid (record s { transports = us })
replaced-IsValid s us k v = record {
  counted = v.counted;
  server_side = AllServerSide-Alike s.transports us s.client_list k v.server_side;
  distinct = v.distinct;
}

set_state-IsValid :
    (s : Server) (id : ℕ) (state : TransportState) → IsValid s → IsValid (set_state s id state)
unfolding set_state
set_state-IsValid s id state v = replaced-IsValid s _ (update-Alike _ s.transports id (λ t. refl)) v

established-IsValid : (s : Server) (id peer : ℕ) → IsValid s → IsValid (on_cm_established s id peer)
unfolding on_cm_established
established-IsValid s id peer v =
    set_state-IsValid _ id connected
      (replaced-IsValid s _ (update-Alike _ s.transports id (λ t. refl)) v)

-- The server after a new client, for which the list has room.
joined-IsValid :
    (s : Server) (new : Transport)
    → new.is_server ≡ true
    → IsValid s
    → IsValid (record s {
      cur_connections = (s.cur_connections + 1) % 2 ^ 32;
      client_list = s.client_list ++ (length s.transports ∷ []);
      transports = s.transports ++ (new ∷ []);
    })
joined-IsValid s new e v =
    let ts : List Transport = s.transports in
    let id : ℕ = length ts in
    let us : List Transport = ts ++ (new ∷ []) in
    let grown : length (s.client_list ++ (id ∷ [])) ≡ length s.client_list + 1 =
      length-append s.client_list (id ∷ []) in
    let fresh : listed s.client_list id ≡ false =
      listed-AllServerSide ts s.client_list id v.server_side (is_server_side-past ts) in
    let more : Alike ts us = record { stays = is_server_side-append ts new } in
    record {
      counted = omega (arith, v.counted, grown);
      server_side =
          AllServerSide-append us s.client_list id
            (AllServerSide-Alike ts us s.client_list more v.server_side)
            (is_server_side-last ts new ∙ e);
      distinct = Distinct-append s.client_list id v.distinct fresh;
    }

either-IsValid :
    (b : Bool) (x y : Server × Bool) → IsValid x.0 → IsValid y.0 → IsValid (if b then x else y).0
either-IsValid true x y v w = v
either-IsValid false x y v w = w

accept_client-IsValid :
    (s : Server) (garbage : ℕ) (create qp accept : Bool)
    → IsValid s
    → IsValid (accept_client s garbage create qp accept).0
unfolding accept_client
accept_client-IsValid s garbage create qp accept v =
    let new : Transport = record {
      peer_addr = garbage;
      trans_state = init;
      is_server = true;
      resources = true;
    } in
    let joined = joined-IsValid s new refl v in
    either-IsValid (not create) _ _ v (
      either-IsValid (not qp) _ _ v (
        either-IsValid (not accept) _ _ joined
          (set_state-IsValid _ (length s.transports) connecting joined)))

connect_request-IsValid :
    (s : Server) (from garbage : ℕ) (begin create qp accept : Bool)
    → IsValid s
    → s.device ≡ true
    → (r : Server × Bool) × (on_cm_connect_request s from garbage begin create qp accept ≡ some r)
      × IsValid r.0
unfolding on_cm_connect_request
connect_request-IsValid s from garbage begin create qp accept v there =
    elim (Bool-cases (dhmp_is_exist_connection s.transports s.client_list from)) [
      | inl again ↦ ((s, false), rw again refl, v)
      | inr fresh ↦ elim (Bool-cases begin) [
        | inl begins ↦ (
          accept_client s garbage create qp accept,
          rw (fresh, begins, there) refl,
          accept_client-IsValid s garbage create qp accept v,
        )
        | inr fails ↦ ((s, false), rw (fresh, fails) refl, v)
      ]
    ]

-- What `dhmp_destroy_source` gives back, once.
abbrev pub has_resources : List Transport → ℕ → Bool
has_resources ts id = elim (get_elem? ts id) [ none ↦ false | some t ↦ t.resources ]

-- A server after `dhmp_destroy_source`.
record Destroyed (s : Server) (id : ℕ) (d : Server) : Type 0 where
  result : dhmp_destroy_source s id ≡ some d
  valid : IsValid d
  same_list : d.client_list ≡ s.client_list

destroyed :
    (s : Server) (id : ℕ)
    → IsValid s
    → has_resources s.transports id ≡ true
    → (d : Server) × Destroyed s id d
unfolding dhmp_destroy_source
destroyed s id v h = elim (Option-cases (get_elem? s.transports id)) [
  | inl e ↦ absurd (ground (arith, e, h))
  | inr (t, e) ↦ (
    record s {
      transports = update_transport (λ u. record u { resources = false }) s.transports id;
    },
    record {
      result = ground (arith, e, h);
      valid = replaced-IsValid s _ (update-Alike _ s.transports id (λ u. refl)) v;
      same_list = refl;
    },
  )
]

stopped-IsValid : (s : Server) → IsValid s → IsValid (record s { stop = true })
stopped-IsValid s v = record {
  counted = v.counted;
  server_side = v.server_side;
  distinct = v.distinct;
}

route_resolved-IsValid :
    (s : Server) (id : ℕ) (qp connect : Bool)
    → IsValid s
    → IsValid (on_cm_route_resolved s id qp connect).0
unfolding on_cm_route_resolved
route_resolved-IsValid s id qp connect v = either-IsValid (not qp) _ _ v (
    either-IsValid (not connect) _ _ (set_state-IsValid _ id error (stopped-IsValid s v))
      (replaced-IsValid s _ (update-Alike _ s.transports id (λ t. refl)) v))

-- A client that leaves.
record Dropped (s : Server) (id : ℕ) (r : Server) : Type 0 where
  result : drop_client s id ≡ some r
  valid : IsValid r
  gone : listed r.client_list id ≡ false

drop_client-Dropped :
    (s : Server) (id : ℕ)
    → IsValid s
    → listed s.client_list id ≡ true
    → (r : Server) × Dropped s id r
unfolding drop_client
drop_client-Dropped s id v h =
    let (ys, d) = list_del-listed s.client_list id h in
    let r : Server = record s {
      cur_connections = (s.cur_connections + (2 ^ 32 - 1)) % 2 ^ 32;
      client_list = ys;
    } in
    (
      r,
      record {
        result = rw (drop_client, d.result) refl;
        valid = record {
          counted = omega (arith, v.counted, d.shorter);
          server_side = d.all s.transports v.server_side;
          distinct = d.kept v.distinct;
        };
        gone = d.gone v.distinct;
      },
    )

error_returns :
    (s : Server) (id : ℕ)
    → IsValid s
    → has_resources s.transports id ≡ true
    → listed s.client_list id ≡ true
    → (r : Server) × (on_cm_error s id ≡ some r) × IsValid r
unfolding on_cm_error set_state
error_returns s id v held h =
    let (d, gone) = destroyed s id v held in
    let on_list : listed d.client_list id ≡ true = rw gone.same_list h in
    let (r, dropped) =
      drop_client-Dropped (set_state d id error) id (set_state-IsValid d id error gone.valid)
        on_list in
    (r, rw gone.result dropped.result, dropped.valid)

disconnected_returns :
    (s : Server) (id : ℕ)
    → IsValid s
    → has_resources s.transports id ≡ true
    → (is_server_side s.transports id ≡ true → listed s.client_list id ≡ true)
    → (r : Server) × (on_cm_disconnected s id ≡ some r) × IsValid r
unfolding on_cm_disconnected set_state
disconnected_returns s id v held h =
    let (d, gone) = destroyed s id v held in
    let w : IsValid (set_state d id disconnected) =
      set_state-IsValid d id disconnected gone.valid in
    elim (Bool-cases (is_server_side s.transports id)) [
      | inl e ↦
          let on_list : listed d.client_list id ≡ true = rw gone.same_list (h e) in
          let (r, dropped) = drop_client-Dropped (set_state d id disconnected) id w on_list in
          (r, rw (on_cm_disconnected, gone.result, e) dropped.result, dropped.valid)
      | inr e ↦ (set_state d id disconnected, rw (on_cm_disconnected, gone.result, e) refl, w)
    ]

answered :
    (o : Option Server) (r : Server)
    → o ≡ some r
    → IsValid r
    → (x : Server × Bool) × ((o >>= λ (t : Server). some (t, true)) ≡ some x) × IsValid x.0
answered o r e v = ((r, true), rw e refl, v)

-- What an event needs of the server: a request finds a device; a transport that disconnects or whose
-- connection fails still has its resources; a client that disconnects is on the list, and so is any
-- transport whose connection fails.
abbrev pub Expected : Server → CmEvent → Type 0
Expected s (connect_request from garbage begin create qp accept) = s.device ≡ true
Expected s (disconnected id) =
    (has_resources s.transports id ≡ true)
    × (is_server_side s.transports id ≡ true → listed s.client_list id ≡ true)
Expected s (connect_error id) =
    (has_resources s.transports id ≡ true) × (listed s.client_list id ≡ true)
Expected s _ = Unit {0}

-- Handling such an event returns, and keeps the list and the count of the clients in order.
pub dhmp_handle_ec_event-IsValid :
    (s : Server) (e : CmEvent)
    → IsValid s
    → Expected s e
    → (r : Server × Bool) × (dhmp_handle_ec_event s e ≡ some r) × IsValid r.0
unfolding dhmp_handle_ec_event
dhmp_handle_ec_event-IsValid s (addr_resolved id route) v h = (_, refl, v)
dhmp_handle_ec_event-IsValid s (route_resolved id qp connect) v h =
    (_, refl, route_resolved-IsValid s id qp connect v)
dhmp_handle_ec_event-IsValid s (connect_request from garbage begin create qp accept) v h =
    connect_request-IsValid s from garbage begin create qp accept v h
dhmp_handle_ec_event-IsValid s (established id peer) v h =
    (_, refl, established-IsValid s id peer v)
dhmp_handle_ec_event-IsValid s (disconnected id) v (held, h) =
    let (r, e, w) = disconnected_returns s id v held h in answered (on_cm_disconnected s id) r e w
dhmp_handle_ec_event-IsValid s (connect_error id) v (held, h) =
    let (r, e, w) = error_returns s id v held h in answered (on_cm_error s id) r e w
dhmp_handle_ec_event-IsValid s (rejected id) v h = (_, refl, set_state-IsValid s id reject v)
dhmp_handle_ec_event-IsValid s other v h = (_, refl, v)
