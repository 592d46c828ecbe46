-- ===== src/Setup/Serving.antt =====
-- src/mid_rdma_init.c, src/mid_rdma_connection.c: a server that has started, and its clients.
use rdma_middleware.Prelude.{
  ℕ, ◌≡◌, Bool, true, Option, none, ap, sym, ◌∙◌, false, some, arith, length, List, [], get_elem?,
}
use rdma_middleware.Devices.{Device}
use rdma_middleware.Connection.Events.{
  Transport, CmEvent, listen, connected, dhmp_event_channel_handler,
}
use rdma_middleware.Connection.Events
use rdma_middleware.Connection.Clients.{IsValid}
use rdma_middleware.Connection.Rounds.{AllExpected, dhmp_event_channel_handler-IsValid}
use rdma_middleware.Setup.Config.{Config, NetInfo}
use rdma_middleware.Setup.Server.{
  ServerInstance, Surroundings, started, dhmp_server_init, dhmp_server_init_lem,
}

abbrev is_some : Option Device → Bool
is_some none = false
is_some (some device) = true

-- The server as the events of the connections find it, beside the transports of the node.
abbrev pub clients_of : ServerInstance → List Transport → Events.Server
clients_of server transports = record {
  device = is_some server.device;
  stop = false;
  cur_connections = server.cur_connections;
  client_list = server.client_list;
  transports = transports;
}

-- What a start that succeeds returns.
started_server :
    (o : Surroundings) (config : Config) (id : ℕ) (net : NetInfo) (server : ServerInstance)
    → config.curnet_id ≡ some id
    → get_elem? config.net_infos id ≡ some net
    → dhmp_server_init o config ≡ some (started server)
    → (server.endpoint.trans_state ≡ listen)
      × (server.port ≡ net.port)
      × (server.client_list ≡ [])
      × (server.cur_connections ≡ 0)
started_server o config id net server own there start =
    let all = sym (dhmp_server_init_lem o config id net own there) ∙ start in ground (arith, all)

-- A server that `dhmp_server_init` returns, with a configuration that has its own entry, listens on the
-- port of this entry; whatever transports the node has, `dhmp_event_channel_handler` returns for every list
-- of events of which those it comes to are as expected, and leaves a valid server.
pub dhmp_event_channel_handler-dhmp_server_init :
    (o : Surroundings) (config : Config) (id : ℕ) (net : NetInfo) (server : ServerInstance)
    (transports : List Transport) (es : List CmEvent)
    → config.curnet_id ≡ some id
    → get_elem? config.net_infos id ≡ some net
    → dhmp_server_init o config ≡ some (started server)
    → AllExpected (clients_of server transports) es
    → (server.endpoint.trans_state ≡ listen)
      × (server.port ≡ net.port)
      × (r : Events.Server) × (dhmp_event_channel_handler (clients_of server transports) es
          ≡ some r)
      × IsValid r
dhmp_event_channel_handler-dhmp_server_init o config id net server transports es own there start h =
    let (listening, port, list, count) = started_server o config id net server own there start in
    let valid : IsValid (clients_of server transports) = record {
      counted = omega (arith, count, ap length list);
      server_side = rw list (record {});
      distinct = rw list (record {});
    } in
    let (r, result, after) =
      dhmp_event_channel_handler-IsValid (clients_of server transports) es valid h in
    (listening, port, r, result, after)
