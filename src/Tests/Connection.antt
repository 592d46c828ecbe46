-- ===== src/Tests/Connection.antt =====
-- The connections of src/mid_rdma_connection.c on small inputs.
use rdma_middleware.Prelude.{
  Bool, ◌≡◌, refl, ap, sym, true, false, Option, some, none, [], ◌∷◌, if◌then◌else◌,
}
use rdma_middleware.Connection.Resources.{Outcomes, no_queues, dhmp_qp_create, dhmp_qp_create_lem}
use rdma_middleware.Connection.Events.{
  accept_client, on_cm_disconnected, dhmp_destroy_source, drop_client, list_del, init, Server,
  connected, connecting, disconnected, connect_request, established, route_resolved, error,
  dhmp_handle_ec_event, dhmp_event_channel_handler, is_server_side, on_cm_connect_request,
  on_cm_established, set_state, update_transport, dhmp_is_exist_connection,
}
use rdma_middleware.Connection.Opening.{
  Endpoint, malformed, dhmp_transport_connect, dhmp_transport_connect_lem,
}
use rdma_middleware.Connection.Clients.{IsValid}
use rdma_middleware.Connection.Rounds.{
  channel_event, dhmp_event_channel_handler-IsValid, dhmp_context_run-connect_failed,
}
use rdma_middleware.Context.{dhmp_context_run}

-- The registration of the receive region fails, and so does the queue pair.
abbrev failing : Outcomes
failing = record {
  trans_malloc = true;
  event_channel = true;
  event_nonblock = true;
  send_malloc = true;
  send_reg = true;
  recv_malloc = true;
  recv_reg = false;
  cq_malloc = true;
  comp_channel = true;
  comp_nonblock = true;
  comp_event = true;
  create_cq = true;
  notify_cq = true;
  create_qp = false;
}

dhmp_qp_create_lem_example : dhmp_qp_create failing ≡ (
  record no_queues { cq = true; channel = true; channel_event = true; event_data = true },
  false,
)
dhmp_qp_create_lem_example = dhmp_qp_create_lem failing

-- Two clients, and a connection of the node's own client, number 1.
abbrev serving : Server
serving = record {
  device = true;
  stop = false;
  cur_connections = 2;
  client_list = 0 ∷ 2 ∷ [];
  transports =
      record { peer_addr = 10; trans_state = connected; is_server = true; resources = true }
      ∷ record { peer_addr = 11; trans_state = connecting; is_server = false; resources = false }
      ∷ record { peer_addr = 12; trans_state = connected; is_server = true; resources = true }
      ∷ [];
}

serving-IsValid : IsValid serving
unfolding is_server_side
serving-IsValid = record {
  counted = refl;
  server_side = (refl, (refl, record {}));
  distinct = (refl, (refl, record {}));
}

-- A client connects, and tries again: the second request fails, and ends the round before the next event.
round : Option Server
round = dhmp_event_channel_handler serving (
    connect_request 13 0 true true true true
    ∷ established 3 13
    ∷ connect_request 13 0 true true true true
    ∷ disconnected 0
    ∷ [])

round_lem :
    round
    ≡ some (record serving {
      cur_connections = 3;
      client_list = 0 ∷ 2 ∷ 3 ∷ [];
      transports =
          record { peer_addr = 10; trans_state = connected; is_server = true; resources = true }
          ∷ record {
            peer_addr = 11;
            trans_state = connecting;
            is_server = false;
            resources = false;
          }
          ∷ record { peer_addr = 12; trans_state = connected; is_server = true; resources = true }
          ∷ record { peer_addr = 13; trans_state = connected; is_server = true; resources = true }
          ∷ [];
    })
unfolding round accept_client dhmp_event_channel_handler dhmp_handle_ec_event on_cm_connect_request
    on_cm_established set_state update_transport dhmp_is_exist_connection
round_lem = refl

-- The device flag of what a handler returns.
abbrev device_of : Option (Server × Bool) → Bool
device_of none = true
device_of (some r) = r.0.device

dhmp_event_channel_handler-IsValid_example :
    (r : Server) × (dhmp_event_channel_handler serving
        (disconnected 2 ∷ connect_request 13 0 true true true true ∷ [])
      ≡ some r)
    × IsValid r
unfolding dhmp_handle_ec_event on_cm_disconnected dhmp_destroy_source is_server_side drop_client
    list_del set_state update_transport
dhmp_event_channel_handler-IsValid_example =
    dhmp_event_channel_handler-IsValid serving
      (disconnected 2 ∷ connect_request 13 0 true true true true ∷ []) serving-IsValid
      ((refl, λ h. refl), λ r e. (ap device_of (sym e), λ u f. record {}))

-- After the client of transport 2 is there, the connection of transport 1 fails.
dhmp_context_run-connect_failed_example :
    dhmp_context_run
      (record { stop = true; state = some serving })
      (some (channel_event 5 (established 2 14 ∷ []) ∷ [])
        ∷ some (channel_event 5 (route_resolved 1 true false ∷ disconnected 0 ∷ []) ∷ [])
        ∷ some (channel_event 5 (disconnected 2 ∷ []) ∷ [])
        ∷ [])
    ≡ some (record {
      stop = true;
      state = some (record serving {
        stop = true;
        transports =
            record { peer_addr = 10; trans_state = connected; is_server = true; resources = true }
            ∷ record { peer_addr = 11; trans_state = error; is_server = false; resources = false }
            ∷ record { peer_addr = 14; trans_state = connected; is_server = true; resources = true }
            ∷ [];
      });
    })
unfolding dhmp_event_channel_handler dhmp_handle_ec_event on_cm_established set_state
    update_transport
dhmp_context_run-connect_failed_example =
    dhmp_context_run-connect_failed true serving (on_cm_established serving 2 14) 5 1
      ((established 2 14 ∷ []) ∷ []) (disconnected 0 ∷ [])
      (some (channel_event 5 (disconnected 2 ∷ []) ∷ []) ∷ []) (_, refl, refl, refl)

-- The address is no address, and the connecting goes on.
abbrev unset : Endpoint
unset = record { cm_id = false; trans_state = init; peer_addr = none }

dhmp_transport_connect_lem_example :
    let (e', ok) = dhmp_transport_connect (some malformed) 39300 true true unset in
    (ok ≡ true)
    × (e'.trans_state ≡ (if ok then connecting else init))
    × (e'.cm_id ≡ ok)
    × ((if ok then e'.peer_addr else none) ≡ (if ok then none else none))
dhmp_transport_connect_lem_example =
    dhmp_transport_connect_lem (some malformed) 39300 true true unset

abbrev all_well : Outcomes
all_well = record failing { recv_reg = true; create_qp = true }
