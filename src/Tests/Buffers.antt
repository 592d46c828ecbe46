-- ===== src/Tests/Buffers.antt =====
-- The rings of src/log_buffer.c as two nodes set them up.
use rdma_middleware.Prelude.{ℕ, ◌≡◌, refl, arith, true, false, some, none, [], ◌∷◌, replicate}
use rdma_middleware.HashMap.{HashMap, create_hash_map}
use rdma_middleware.Queue.{init_queue}
use rdma_middleware.Queue.Inv.{init_queue-IsValid}
use rdma_middleware.Log.Geometry.{total_size}
use rdma_middleware.Log.Writer.{Outgoing}
use rdma_middleware.Log.Reader.{head, tail, Ptr}
use rdma_middleware.Log.System.{
  System, by_sender, write_log, send_value, connection, set_connected, Reach, here, next,
}
use rdma_middleware.Log.Writer.{head_node_write_log, nic_step}
use rdma_middleware.Log.Reachable.{IsSound, Reach-IsSound}
use rdma_middleware.Client.Addresses.{node_index}
use rdma_middleware.Client.Works.{Client, completes}
use rdma_middleware.Buffers.{
  started_threads, reader_thread, queue_size, Outcomes, nothing_held, empty_ring,
  dhmp_malloc_buff_request_handler, Answer, buff_init, Buffers,
}
use rdma_middleware.Connection.Resources.{dhmp_memory_register}
use rdma_middleware.Buffers.Granted.{ring_held, dhmp_malloc_buff_request_handler_lem}
use rdma_middleware.Buffers.Start.{IsReady, Started, buff_init-Started}
use rdma_middleware.Log.Loops.{exchange_all}
use rdma_middleware.Log.Exchanged.{IsQuiet}
use rdma_middleware.Buffers.Ready.{buff_init-exchange_all}
use rdma_middleware.Tests.Exchange.{two_messages, first_fits, second_fits}
use rdma_middleware.Buffers.Initial.{both_started}

abbrev all_well : Outcomes
all_well = record {
  mate_malloc = true;
  mate_block = true;
  mate_reg = true;
  ring_block = true;
  ring_reg = true;
}

dhmp_malloc_buff_request_handler_lem_example :
    (dhmp_malloc_buff_request_handler all_well nothing_held ≡ some (ring_held, true))
    × (dhmp_malloc_buff_request_handler all_well ring_held ≡ some (ring_held, true))
dhmp_malloc_buff_request_handler_lem_example =
    dhmp_malloc_buff_request_handler_lem all_well all_well ring_held
      (empty_ring (replicate total_size 0)) refl refl refl

-- The registration of the ring fails.
refused_ring :
    dhmp_malloc_buff_request_handler (record all_well { ring_reg = false }) nothing_held
    ≡ some (nothing_held, false)
unfolding dhmp_malloc_buff_request_handler dhmp_memory_register
refused_ring = refl

-- Node 0 with a connection to node 1.
abbrev first_client : Client
first_client = record {
  connect_trans = none ∷ some 7 ∷ none ∷ [];
  connected = λ t. true;
  rdma = λ t a n. completes;
  answers = λ t. true;
  table = λ i. [];
  remote = λ t a. 0;
}

abbrev answer : Answer
answer = record { mate_addr = 4096; ring_addr = 8192 }

first_client-IsReady : IsReady 5 first_client 1 7 answer
unfolding node_index
first_client-IsReady = record {
  slot = refl;
  first = refl;
  few = omega arith;
  up = refl;
  idle = λ i. record {};
  mate_small = (omega arith, omega arith);
  ring_small = (omega arith, omega arith);
  apart = λ h. omega (arith, h);
}

abbrev no_log : Outgoing
no_log = record { log_pos = 0; key_length = 0; value_length = 0; value = [] }

buff_init-Started_example :
    (r : Client × Buffers Outgoing) × (buff_init no_log 5 head 0 first_client (some answer)
      ≡ some r)
    × Started first_client 7 answer r 1
buff_init-Started_example =
    buff_init-Started no_log 5 0 7 head first_client answer (λ h. absurd cc) first_client-IsReady

-- Node 1, the last one, and its ring.
abbrev tail_map : HashMap Ptr ℕ
tail_map = create_hash_map Ptr ℕ (some 1024)

abbrev tail_buffers : Buffers ℕ
tail_buffers = record {
  pending = init_queue 0 queue_size;
  executing = init_queue 0 queue_size;
  sending = init_queue 0 queue_size;
  dirty = init_queue 0 queue_size;
  dirty_map = some tail_map;
  remote_buff = none;
  threads = reader_thread ∷ [];
}

tail_run : buff_init 0 5 tail 1 first_client none ≡ some (first_client, tail_buffers)
unfolding buff_init started_threads
tail_run = refl

grant_run : dhmp_malloc_buff_request_handler all_well nothing_held ≡ some (ring_held, true)
unfolding dhmp_malloc_buff_request_handler dhmp_memory_register
grant_run = refl

head_run :
    (r : Client × Buffers Outgoing) × (buff_init no_log 5 head 0 first_client (some answer)
      ≡ some r)
    × Started first_client 7 answer r 1
head_run =
    buff_init-Started no_log 5 0 7 head first_client answer (λ h. absurd cc) first_client-IsReady

buff_init-exchange_all_example :
    let s =
      both_started
        (head_run.2.remote)
        head_run.0.1
        tail_buffers
        true
        tail_map
        (empty_ring (replicate total_size 0))
        tail in
    IsQuiet s
    × (t : System) × (exchange_all s two_messages
        ≡ some (t, (99 ∷ 100 ∷ []) ∷ (102 ∷ 103 ∷ 104 ∷ []) ∷ []))
    × IsQuiet t
buff_init-exchange_all_example =
    buff_init-exchange_all no_log 0 5 0 1 head tail first_client first_client head_run.0.0
      first_client (some answer) none head_run.0.1 tail_buffers head_run.2.remote tail_map all_well
      ring_held (empty_ring (replicate total_size 0)) two_messages head_run.1 head_run.2.set
      tail_run refl (λ h. cc) grant_run refl (first_fits, (second_fits, record {}))

-- A system of two nodes with nothing sent yet.
abbrev idle_system : System
idle_system =
    both_started
      (record {
        rb = record { wr_pointer = 0; rd_pointer = 0; size = 64 };
        node_id = 1;
        buff_mate = 4096;
        buff = 8192;
      })
      (record {
        pending = init_queue no_log queue_size;
        executing = init_queue no_log queue_size;
        sending = init_queue no_log queue_size;
        dirty = init_queue no_log queue_size;
        dirty_map = none;
        remote_buff = none;
        threads = [];
      })
      tail_buffers true tail_map (empty_ring (replicate total_size 0)) tail

idle_system-IsSound : IsSound idle_system
idle_system-IsSound = record {
  link = record {
    sized = record { log = 6; small = omega arith; is_pow = refl };
    wide = refl;
    wr_in = omega arith;
    rd_in = omega arith;
    agreed = (refl, refl);
  };
  shared = refl;
  to_send = init_queue-IsValid no_log queue_size (omega arith);
  pending = init_queue-IsValid 0 queue_size (omega arith);
  executing = init_queue-IsValid 0 queue_size (omega arith);
  sending = init_queue-IsValid 0 queue_size (omega arith);
  dirty = init_queue-IsValid 0 queue_size (omega arith);
}

-- A log is written, its value is sent, and the connection is lost.
abbrev written : System
written = by_sender idle_system (head_node_write_log idle_system.sender [] (97 ∷ []) (98 ∷ [])).0

abbrev sent : System
sent = by_sender written (nic_step written.sender)

three_turns : Reach idle_system (set_connected sent false)
three_turns =
    next (next (next here (write_log [] (97 ∷ []) (98 ∷ []) refl)) (send_value refl))
      (connection false refl)

Reach-IsSound_example : IsSound (set_connected sent false)
Reach-IsSound_example = Reach-IsSound idle_system-IsSound three_turns
