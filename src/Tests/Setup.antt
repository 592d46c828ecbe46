-- ===== src/Tests/Setup.antt =====
-- The start of a node in src/dhmp_config.c and src/mid_rdma_init.c.
use rdma_middleware.Prelude.{
  ℕ, zero, suc, ◌+◌, ◌≡◌, refl, arith, true, false, Option, some, none, List, [], ◌∷◌, get_elem?,
}
use rdma_middleware.HashMap.Text.{default_equal}
use rdma_middleware.Log.Reader.{NodeClass}
use rdma_middleware.Client.Addresses.{node_index}
use rdma_middleware.Context.{dhmp_context_init}
use rdma_middleware.Devices.{
  Context, Device, at_least_zero, dhmp_dev_init, add_device, add_devices, dhmp_dev_list_init,
  dhmp_get_dev_from_server,
}
use rdma_middleware.Connection.Resources.{
  made_transport, dhmp_transport_create, dhmp_event_channel_create,
}
use rdma_middleware.Connection.Events.{
  connected, listen, connect_request, established, Server, dhmp_event_channel_handler,
}
use rdma_middleware.Connection.Clients.{IsValid}
use rdma_middleware.Connection.Opening.{dhmp_transport_listen}
use rdma_middleware.Setup.Server.{ServerInstance, Surroundings, started, dhmp_server_init}
use rdma_middleware.Setup.Serving.{clients_of, dhmp_event_channel_handler-dhmp_server_init}
use rdma_middleware.Setup.Config.{NetInfo, Config, dhmp_config_parse}
use rdma_middleware.Setup.Servers.{ServerInfo, server_of, IsConfig, dhmp_config_parse-server_of}
use rdma_middleware.Setup.Current.{
  Interface, is_named, find_interface, find_server, search_servers, dhmp_set_curnode_id, Located,
  dhmp_set_curnode_id-Located,
}
use rdma_middleware.Setup.Chain.{
  Attempt, dhmp_connect, dhmp_client_init, node_class_of, find_next_node,
}
use rdma_middleware.Setup.Links.{dhmp_client_init-next}

abbrev no_net : NetInfo
no_net = record { nic_name = []; addr = []; port = 0 }

abbrev blank : Config
blank = record {
  net_infos = no_net ∷ no_net ∷ no_net ∷ [];
  simu_infos =
      record { rdelay = 0; wdelay = 0; knum = 0 }
      ∷ record { rdelay = 0; wdelay = 0; knum = 0 }
      ∷ record { rdelay = 0; wdelay = 0; knum = 0 }
      ∷ [];
  mem_infos =
      record { dram_node = 0; nvm_node = 0 }
      ∷ record { dram_node = 0; nvm_node = 0 }
      ∷ record { dram_node = 0; nvm_node = 0 }
      ∷ [];
  curnet_id = none;
  nets_cnt = 0;
  watcher_addr = [];
  watcher_port = 0;
  log_level = 0;
}

blank-IsConfig : IsConfig blank
blank-IsConfig = record { nets = refl; simus = refl; mems = refl }

-- "ib0" at "10.1" and at "10.2"
abbrev first : ServerInfo
first = record {
  net = record { nic_name = 105 ∷ 98 ∷ 48 ∷ []; addr = 49 ∷ 48 ∷ 46 ∷ 49 ∷ []; port = 39300 };
  simu = record { rdelay = 1; wdelay = 2; knum = 3 };
  mem = record { dram_node = 0; nvm_node = 1 };
}

abbrev second : ServerInfo
second = record first {
  net = record { nic_name = 105 ∷ 98 ∷ 48 ∷ []; addr = 49 ∷ 48 ∷ 46 ∷ 50 ∷ []; port = 39300 };
}

dhmp_config_parse-server_of_example :
    dhmp_config_parse blank (server_of first ∷ server_of second ∷ [])
    ≡ some (record blank {
      net_infos = first.net ∷ second.net ∷ no_net ∷ [];
      simu_infos = first.simu ∷ second.simu ∷ record { rdelay = 0; wdelay = 0; knum = 0 } ∷ [];
      mem_infos = first.mem ∷ second.mem ∷ record { dram_node = 0; nvm_node = 0 } ∷ [];
      nets_cnt = 2;
    })
dhmp_config_parse-server_of_example =
    dhmp_config_parse-server_of blank (first ∷ second ∷ []) blank-IsConfig
      (
        record { name_fits = omega arith; addr_fits = omega arith },
        (record { name_fits = omega arith; addr_fits = omega arith }, record {}),
      )
      (omega arith)

-- The loopback interface, and "ib0" at "10.2".
abbrev interfaces : ℕ → Interface
interfaces zero = record { name = 108 ∷ 111 ∷ []; loopback = true; up = true; addr = 49 ∷ [] }
interfaces (suc i) = record {
  name = 105 ∷ 98 ∷ 48 ∷ [];
  loopback = false;
  up = true;
  addr = 49 ∷ 48 ∷ 46 ∷ 50 ∷ [];
}

current_run :
    dhmp_set_curnode_id interfaces 2 (first.net ∷ second.net ∷ []) blank
    ≡ some (record blank { curnet_id = some 1 })
unfolding dhmp_set_curnode_id search_servers find_interface find_server is_named default_equal
current_run = refl

dhmp_set_curnode_id-Located_example :
    (i : ℕ) × (some 1 ≡ some i)
    × Located interfaces (first.net ∷ second.net ∷ []) (first.net ∷ second.net ∷ []) i
dhmp_set_curnode_id-Located_example =
    dhmp_set_curnode_id-Located interfaces 2 (first.net ∷ second.net ∷ []) blank
      (record blank { curnet_id = some 1 }) current_run

abbrev at_once : ℕ → List Attempt
at_once i = record { created = some (10 + i); state = connected } ∷ []

at_once_run : (i : ℕ) → dhmp_connect (at_once i) ≡ some (some (10 + i))
unfolding dhmp_connect
at_once_run i = refl

dhmp_client_init-next_example :
    (class : NodeClass) × (slots : List (Option ℕ)) × (node_class_of 1 3 ≡ some class)
    × (dhmp_client_init at_once class 1 3 ≡ some slots)
    × ((find_next_node 3 1 ≡ some 2)
        × (get_elem? slots 2 ≡ some (some 12))
        × (node_index slots 12 ≡ 2))
dhmp_client_init-next_example =
    dhmp_client_init-next at_once (λ i. 10 + i) 1 3 (omega arith) (omega arith) (omega arith)
      at_once_run (λ h. omega (arith, h))

abbrev card : Context
card = record {
  verbs = 1;
  malloc = true;
  query = at_least_zero 0;
  filled = some 16;
  alloc_pd = some 9;
}

abbrev card_device : Device
card_device = record { verbs = some 1; pd = some 9; device_attr = some 16 }

-- The second server starts, with one device.
abbrev surroundings : Surroundings
surroundings = record {
  malloc = true;
  epoll = true;
  thread = true;
  devices = some (some card ∷ []);
  transport = record {
    trans_malloc = true;
    event_channel = true;
    event_nonblock = true;
    send_malloc = true;
    send_reg = true;
    recv_malloc = true;
    recv_reg = true;
    cq_malloc = true;
    comp_channel = true;
    comp_nonblock = true;
    comp_event = true;
    create_cq = true;
    notify_cq = true;
    create_qp = true;
  };
  create_id = true;
  bind_addr = true;
  listens = true;
}

abbrev configured : Config
configured = record blank {
  net_infos = first.net ∷ second.net ∷ no_net ∷ [];
  nets_cnt = 2;
  curnet_id = some 1;
}

abbrev second_server : ServerInstance
second_server = record {
  ctx = record { epoll_fd = true; epoll_thread = true };
  server_id = 1;
  num_chain_clusters = 2;
  cur_connections = 0;
  client_list = [];
  devices = record { dev_list = card_device ∷ []; blocks = 1; pds = 1 };
  device = some card_device;
  listen_trans = made_transport true;
  endpoint = record { cm_id = true; trans_state = listen; peer_addr = none };
  port = 39300;
}

dhmp_server_init_run : dhmp_server_init surroundings configured ≡ some (started second_server)
unfolding dhmp_server_init dhmp_context_init dhmp_transport_listen dhmp_transport_create
    dhmp_event_channel_create dhmp_dev_list_init dhmp_get_dev_from_server dhmp_dev_init add_device
    add_devices
dhmp_server_init_run = refl

dhmp_event_channel_handler-dhmp_server_init_example :
    (second_server.endpoint.trans_state ≡ listen)
    × (second_server.port ≡ 39300)
    × (r : Server) × (dhmp_event_channel_handler
          (clients_of second_server [])
          (connect_request 10 0 true true true true ∷ established 0 10 ∷ [])
        ≡ some r)
    × IsValid r
dhmp_event_channel_handler-dhmp_server_init_example =
    dhmp_event_channel_handler-dhmp_server_init surroundings configured 1 second.net second_server
      [] (connect_request 10 0 true true true true ∷ established 0 10 ∷ []) refl refl
      dhmp_server_init_run (refl, λ r e. (record {}, λ u f. record {}))
