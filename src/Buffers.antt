-- ===== src/Buffers.antt =====
-- src/mid_rdma_recv_handler.c, src/mid_client_work.c, src/mid_rdma_top_api.c, src/log_buffer.c: a node
-- gets the ring that the node before it writes to, and starts its threads. The outcomes of `malloc` and
-- of the registrations, and the answer of the next node, are parameters. `none` is undefined
-- behaviour, a call that never returns, or the code's `exit`.
pub mod Granted
pub mod Start
pub mod Initial
pub mod Ready
use rdma_middleware.Prelude.{
  ℕ, ◌+◌, Bool, true, false, not, ◌&&◌, ◌||◌, Option, some, none, List, [], ◌∷◌, replicate,
  if◌then◌else◌, ◌==◌,
}
use rdma_middleware.Queue.{UnQueue, init_queue}
use rdma_middleware.HashMap.{HashMap, create_hash_map, ◌>>=◌}
use rdma_middleware.Log.Geometry.{Ringbuff, total_size}
use rdma_middleware.Log.Writer.{LocalRingbuff}
use rdma_middleware.Log.Reader.{NodeClass, head, normal, tail, Ptr}
use rdma_middleware.Connection.Resources.{Region, no_region, dhmp_memory_register}
use rdma_middleware.Client.Addresses.{dhmp_get_node_index_from_addr, dhmp_transfer_dhmp_addr}
use rdma_middleware.Client.Table.{AddrInfo}
use rdma_middleware.Client.Works.{Client, dhmp_addr_info_insert_ht, dhmp_node_select_by_id}

-- Which calls of the handler of the request succeed, in the code's order.
pub record Outcomes : Type 0 where
  pub mate_malloc : Bool
  pub mate_block : Bool
  pub mate_reg : Bool
  pub ring_block : Bool
  pub ring_reg : Bool

-- What a node holds for the ring that it reads: `local_recv_buff_mate` with its region, in which
-- `local_recv_buff` lies, and the ring's own region.
pub record Receiving : Type 0 where
  pub mate : Bool
  pub buff_mate_mr : Region
  pub ring : Option LocalRingbuff
  pub buff_mr : Region

abbrev pub nothing_held : Receiving
nothing_held = record { mate = false; buff_mate_mr = no_region; ring = none; buff_mr = no_region }

abbrev pub empty_ring : List ℕ → LocalRingbuff
empty_ring buff = record {
  rb = record { wr_pointer = 0; rd_pointer = 0; size = total_size };
  buff = buff;
  rd_key_pointer = 0;
}

-- `dhmp_malloc_buff_request_handler`. The Boolean tells that it answers with the two regions, and not
-- with an error. The copy of a region that is not there is undefined.
unfoldable pub dhmp_malloc_buff_request_handler : Outcomes → Receiving → Option (Receiving × Bool)
dhmp_malloc_buff_request_handler o r =
    let (mate_mr, has_mate) = dhmp_memory_register o.mate_block o.mate_reg in
    let (ring_mr, has_ring) = dhmp_memory_register o.ring_block o.ring_reg in
    let held : Receiving = record r { mate = true; buff_mate_mr = mate_mr } in
    elim (r.ring) [
      | some ring ↦ if r.mate then some (r, true) else none
      | none ↦
          if r.mate || not o.mate_malloc
          then none
          else if not has_mate
          then some (record held { mate = false; ring = none }, false)
          else if not has_ring
          then some (
            record held { mate = false; buff_mate_mr = no_region; ring = none; buff_mr = ring_mr },
            false,
          )
          else some (
            record held { ring = some (empty_ring (replicate total_size 0)); buff_mr = ring_mr },
            true,
          )
    ]

-- The addresses of the two regions that the answer carries.
pub record Answer : Type 0 where
  pub mate_addr : ℕ
  pub ring_addr : ℕ

-- `sizeof(LocalRingbuff)`
abbrev pub mate_length : ℕ
mate_length = 56

-- `dhmp_malloc_buff_response_handler`: an entry with the region of the answer.
unfoldable pub dhmp_malloc_buff_response_handler : ℕ → ℕ → AddrInfo → AddrInfo
dhmp_malloc_buff_response_handler addr length info = record info {
  read_cnt = 0;
  write_cnt = 0;
  nvm_addr = addr;
  nvm_length = length;
}

abbrev new_info : ℕ → AddrInfo
new_info junk = record {
  read_cnt = junk;
  write_cnt = junk;
  node_index = junk;
  write_flag = false;
  nvm_addr = 0;
  nvm_length = 0;
}

abbrev pub placed_info : ℕ → AddrInfo → AddrInfo
placed_info dhmp_addr info = record info {
  node_index = dhmp_get_node_index_from_addr dhmp_addr;
  write_flag = false;
}

-- `dhmp_buff_malloc_work_handler`, with the addresses of the control data and of the ring. `answer` is
-- `none` for an error, which the client ignores, so that the wait never ends. `junk` is what `malloc`
-- leaves.
unfoldable pub dhmp_buff_malloc_work_handler :
    ℕ → Client → ℕ → Option Answer → Option (Client × ℕ × ℕ)
dhmp_buff_malloc_work_handler junk c trans none = none
dhmp_buff_malloc_work_handler junk c trans (some answer) =
    let ring_info = dhmp_malloc_buff_response_handler answer.ring_addr total_size (new_info junk) in
    let mate_info =
      dhmp_malloc_buff_response_handler answer.mate_addr mate_length (new_info junk) in
    let buff_addr = dhmp_transfer_dhmp_addr c.connect_trans trans (ring_info.nvm_addr) in
    let buff_mate_addr = dhmp_transfer_dhmp_addr c.connect_trans trans (mate_info.nvm_addr) in
    let with_ring = dhmp_addr_info_insert_ht c buff_addr (placed_info buff_addr ring_info) in
    let with_mate =
      dhmp_addr_info_insert_ht with_ring buff_mate_addr (placed_info buff_mate_addr mate_info) in
    if not (c.connected trans)
    then none
    else if (ring_info.nvm_addr == 0) || (mate_info.nvm_addr == 0)
    then some (c, mate_info.nvm_addr, ring_info.nvm_addr)
    else some (with_mate, buff_mate_addr, buff_addr)

-- `dhmp_buff_malloc` when its own `malloc`s succeed. `old` is what the two pointers held: without a
-- connection they are left as they were.
unfoldable pub dhmp_buff_malloc : ℕ → Client → ℕ → ℕ × ℕ → Option Answer → Option (Client × ℕ × ℕ)
dhmp_buff_malloc junk c nodeid old answer =
    dhmp_node_select_by_id c nodeid >>= λ (selected : Option ℕ). elim selected [
      | none ↦ some (c, old.0, old.1)
      | some trans ↦ dhmp_buff_malloc_work_handler junk c trans answer
    ]

-- `RemoteRingbuff`
pub record RemoteRingbuff : Type 0 where
  pub rb : Ringbuff
  pub node_id : ℕ
  pub buff_mate : ℕ
  pub buff : ℕ

-- The threads that `buff_init` starts.
pub data Thread : Type 0 where
  writer_thread reader_thread nic_thread : Thread

-- The globals that `buff_init` sets; a queue's slots are pointers.
pub record Buffers (A : Type 0) : Type 0 where
  pub pending : UnQueue A
  pub executing : UnQueue A
  pub sending : UnQueue A
  pub dirty : UnQueue A
  pub dirty_map : Option (HashMap Ptr ℕ)
  pub remote_buff : Option RemoteRingbuff
  pub threads : List Thread

-- `QUEUE_SIZE`
abbrev pub queue_size : ℕ
queue_size = 2048

unfoldable pub started_threads : NodeClass → List Thread
started_threads head = writer_thread ∷ nic_thread ∷ []
started_threads normal = reader_thread ∷ nic_thread ∷ []
started_threads tail = reader_thread ∷ []

-- `buff_init`. `slot` is what `malloc` leaves in a slot of a queue.
unfoldable pub buff_init :
    {A : Type 0} → A → ℕ → NodeClass → ℕ → Client → Option Answer → Option (Client × Buffers A)
buff_init {A} slot junk class server_id c answer =
    let queue : UnQueue A = init_queue slot queue_size in
    let map : HashMap Ptr ℕ = create_hash_map Ptr ℕ (some 1024) in
    let next_node = server_id + 1 in
    let set_up : Option RemoteRingbuff → Buffers A = λ remote. (record {
      pending = queue;
      executing = queue;
      sending = queue;
      dirty = queue;
      dirty_map = elim class [ head ↦ none | _ ↦ some map ];
      remote_buff = remote;
      threads = started_threads class;
    }) in
    elim class [
      | tail ↦ some (c, set_up none)
      | _ ↦ dhmp_buff_malloc junk c next_node (0, 0) answer >>= λ (t : Client × ℕ × ℕ).
          if (t.1 == 0) || (t.2 == 0)
          then none
          else some (
            t.0,
            set_up (
                some (record {
                  rb = record { wr_pointer = 0; rd_pointer = 0; size = total_size };
                  node_id = next_node;
                  buff_mate = t.1;
                  buff = t.2;
                })),
          )
    ]
