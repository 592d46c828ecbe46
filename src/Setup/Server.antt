-- ===== src/Setup/Server.antt =====
-- src/mid_rdma_init.c: the start of a node's server, from its event loop and devices to the transport that
-- listens, and its end. What the library calls come to is a parameter.
use rdma_middleware.Prelude.{
  ℕ, ◌≡◌, Bool, true, false, not, ◌&&◌, Option, none, some, List, [], if◌then◌else◌, get_elem?,
  arith,
}
use rdma_middleware.Prelude.Results.{◌>>=◌}
use rdma_middleware.Context.{Opened, Running, EventData, dhmp_context_init, dhmp_context_run}
use rdma_middleware.Devices.{Context, Device, Devices, dhmp_dev_list_init, dhmp_get_dev_from_server}
use rdma_middleware.Connection.Events.{init, listen}
use rdma_middleware.Connection.Resources.{
  Outcomes, Transport, dhmp_transport_create, made_transport, can_create, dhmp_transport_create_lem,
}
use rdma_middleware.Connection.Opening.{Endpoint, dhmp_transport_listen}
use rdma_middleware.Setup.Config.{Config, NetInfo}

-- `dhmp_server`: what the process then holds. The transport is created with `device`.
pub record ServerInstance : Type 0 where
  pub ctx : Opened
  pub server_id : ℕ
  pub num_chain_clusters : ℕ
  pub cur_connections : ℕ
  pub client_list : List ℕ
  pub devices : Devices
  pub device : Option Device
  pub listen_trans : Transport
  pub endpoint : Endpoint
  pub port : ℕ

-- What the calls come to: the `malloc` of the server, `epoll_create` and `pthread_create`, the devices,
-- those of `dhmp_transport_create`, and `rdma_create_id`, `rdma_bind_addr` and `rdma_listen`.
pub record Surroundings : Type 0 where
  pub malloc : Bool
  pub epoll : Bool
  pub thread : Bool
  pub devices : Option (List (Option Context))
  pub transport : Outcomes
  pub create_id : Bool
  pub bind_addr : Bool
  pub listens : Bool

-- A server, NULL, or the end of the process.
pub data Start : Type 0 where
  null exits : Start
  started : ServerInstance → Start

-- A list of devices before `dhmp_dev_list_init`.
abbrev pub no_devices : Devices
no_devices = record { dev_list = []; blocks = 0; pds = 0 }

-- `net_infos[curnet_id]`, with the index.
abbrev pub own_net : Config → Option (ℕ × NetInfo)
own_net config = config.curnet_id >>= λ (id : ℕ).
    get_elem? config.net_infos id >>= λ (net : NetInfo). some (id, net)

-- `dhmp_server_init`, after the reading of the configuration. The result of `dhmp_context_init` is not
-- looked at. `none` is a port read from outside the array: where no own server is set, before its start.
unfoldable pub dhmp_server_init : Surroundings → Config → Option Start
dhmp_server_init o config =
    let (ctx, ok) = dhmp_context_init o.epoll o.thread in
    let devices = dhmp_dev_list_init no_devices o.devices in
    let (listen_trans, made) = dhmp_transport_create o.transport true in
    let (endpoint, listening) =
      dhmp_transport_listen o.create_id o.bind_addr o.listens
        (record { cm_id = false; trans_state = init; peer_addr = none }) in
    if not o.malloc
    then some null
    else if not made
    then some exits
    else own_net config >>= λ (own : ℕ × NetInfo). some (
        if not listening
        then exits
        else started (record {
          ctx = ctx;
          server_id = own.0;
          num_chain_clusters = config.nets_cnt;
          cur_connections = 0;
          client_list = [];
          devices = devices;
          device = dhmp_get_dev_from_server devices;
          listen_trans = listen_trans;
          endpoint = endpoint;
          port = own.1.port;
        }))

-- `dhmp_server_destroy`: it waits for the end of the event loop, and then frees the block of the server
-- alone. The result is what the process still holds; `none` is a wait that does not end.
unfoldable pub dhmp_server_destroy :
    {S : Type 0}
    → Running S
    → List (Option (List (EventData S)))
    → ServerInstance
    → Option (Running S × ServerInstance)
dhmp_server_destroy s reported server =
    dhmp_context_run s reported >>= λ (t : Running _). some (t, server)

abbrev pub can_listen : Surroundings → Bool
can_listen o = o.create_id && (o.bind_addr && o.listens)

-- With a configuration that has the own server, `dhmp_server_init` returns NULL without memory for the
-- server, ends the process unless its transport can be created and listens, and else returns a server that
-- listens on the own port, with no client, with the first device of its list, if there is one, and with the
-- whole event loop exactly if the epoll instance and the thread can be had: it does not look at this.
pub dhmp_server_init_lem :
    (o : Surroundings) (config : Config) (id : ℕ) (net : NetInfo)
    → config.curnet_id ≡ some id
    → get_elem? config.net_infos id ≡ some net
    → let devices = dhmp_dev_list_init no_devices o.devices in
      let whole = o.epoll && o.thread in
      dhmp_server_init o config
      ≡ some (
          if not o.malloc
          then null
          else if not (can_create o.transport true && can_listen o)
          then exits
          else started (record {
            ctx = record { epoll_fd = whole; epoll_thread = whole };
            server_id = id;
            num_chain_clusters = config.nets_cnt;
            cur_connections = 0;
            client_list = [];
            devices = devices;
            device = dhmp_get_dev_from_server devices;
            listen_trans = made_transport true;
            endpoint = record { cm_id = true; trans_state = listen; peer_addr = none };
            port = net.port;
          }))
unfolding dhmp_server_init dhmp_context_init dhmp_transport_listen
dhmp_server_init_lem o config id net own there =
    rw (own, there) (ground (arith, dhmp_transport_create_lem o.transport true))
