-- ===== src/Tests/Client.antt =====
-- The client of src/mid_client_work.c on small inputs.
use rdma_middleware.Prelude.{ℕ, ◌≡◌, refl, arith, true, false, Option, some, none, List, [], ◌∷◌}
use rdma_middleware.Client.Murmur.{rotl32, fmix32, mix_block, hash_blocks, murmur_hash3_x86_32}
use rdma_middleware.Client.Addresses.{
  node_index, dhmp_transfer_dhmp_addr, dhmp_transfer_normal_addr, dhmp_get_node_index_from_addr,
  transfer_roundtrip, shifted,
}
use rdma_middleware.Client.Table.{AddrInfo, find_addr}
use rdma_middleware.Client.Works.{
  Client, dhmp_node_select_by_id, dhmp_get_trans_from_addr, dhmp_get_addr_info_from_ht, dhmp_write,
  dhmp_read, dhmp_send, completes, refused,
}
use rdma_middleware.Client.Idle.{IsIdleClient}
use rdma_middleware.Client.Access.{entry_of, dhmp_write-refused, dhmp_read-dhmp_write}
use rdma_middleware.Devices.{Device}
use rdma_middleware.Client.Granting.{
  Holding, Answered, dhmp_malloc_request_handler, dhmp_malloc-dhmp_malloc_request_handler,
}
use rdma_middleware.Client.Messages.{dhmp_send-dhmp_write}

-- "hello" and the empty string have the published hashes.
murmur-hello : murmur_hash3_x86_32 (104 ∷ 101 ∷ 108 ∷ 108 ∷ 111 ∷ []) ≡ 613153351
unfolding murmur_hash3_x86_32 hash_blocks mix_block rotl32 fmix32
murmur-hello = refl

-- Node 0 is this one; the connection to node 2 is number 7.
abbrev slots : List (Option ℕ)
slots = none ∷ none ∷ some 7 ∷ []

abbrev fresh : Client
fresh = record {
  connect_trans = slots;
  connected = λ t. true;
  rdma = λ t a n. completes;
  answers = λ t. true;
  table = λ i. [];
  remote = λ t a. 0;
}

fresh-IsIdleClient : IsIdleClient fresh
fresh-IsIdleClient = λ i. record {}

transfer_roundtrip_example :
    (dhmp_transfer_normal_addr (dhmp_transfer_dhmp_addr slots 7 4096) ≡ 4096)
    × (dhmp_get_node_index_from_addr (dhmp_transfer_dhmp_addr slots 7 4096) ≡ node_index slots 7)
unfolding node_index
transfer_roundtrip_example = transfer_roundtrip slots 7 4096 (omega arith) (omega arith)

abbrev device : Device
device = record { verbs = some 1; pd = some 1; device_attr = none }

abbrev held : Holding
held = record { blocks = 3; regs = 3; nvm_used_size = 128 }

dhmp_malloc-dhmp_malloc_request_handler_example :
    (t : Holding × Option ℕ) × (dhmp_malloc_request_handler (some device) true true held 4096 64
      ≡ some t)
    × Answered true fresh 2 7 64 4096 held t
unfolding node_index
dhmp_malloc-dhmp_malloc_request_handler_example =
    dhmp_malloc-dhmp_malloc_request_handler fresh 2 7 64 4096 device true true held
      fresh-IsIdleClient (omega arith) (omega arith) (omega arith) refl refl (omega arith) refl

-- A block of 64 bytes at node 2.
abbrev block : AddrInfo
block = record {
  read_cnt = 0;
  write_cnt = 0;
  node_index = 2;
  write_flag = false;
  nvm_addr = 4096;
  nvm_length = 64;
}

abbrev block_addr : ℕ
block_addr = 562949953425408

abbrev holding : Client
holding = record fresh { table = λ i. block ∷ [] }

holding-IsIdleClient : IsIdleClient holding
holding-IsIdleClient = λ i. (refl, record {})

holding-entry : entry_of holding block_addr ≡ some block
unfolding dhmp_get_addr_info_from_ht find_addr dhmp_transfer_normal_addr shifted
holding-entry = refl

holding-live : dhmp_get_trans_from_addr holding block_addr ≡ some (some 7)
unfolding dhmp_get_trans_from_addr dhmp_node_select_by_id shifted
holding-live = refl

dhmp_read-dhmp_write_example :
    (written : Client) × (dhmp_write holding block_addr (9 ∷ 8 ∷ []) 16 ≡ some (written, true))
    × ((after : Client) × (dhmp_read written block_addr (0 ∷ 0 ∷ []) 2 16
          ≡ some (after, 9 ∷ 8 ∷ [], true))
        × IsIdleClient after)
dhmp_read-dhmp_write_example =
    dhmp_read-dhmp_write holding 7 block_addr holding-IsIdleClient block (9 ∷ 8 ∷ []) (0 ∷ 0 ∷ [])
      16 holding-entry holding-live (λ offset len short inside. refl) (omega arith) (omega arith)
      refl

dhmp_send-dhmp_write_example :
    (r : Client) × (dhmp_write holding block_addr (9 ∷ 8 ∷ []) 0 ≡ some (r, true))
    × (dhmp_send holding block_addr (9 ∷ 8 ∷ []) 2 true ≡ some (r, 9 ∷ 8 ∷ [], true))
dhmp_send-dhmp_write_example =
    dhmp_send-dhmp_write holding 7 block_addr holding-IsIdleClient block (9 ∷ 8 ∷ []) holding-entry
      (omega arith) holding-live refl refl (λ offset len short inside. refl) (omega arith)
      (omega arith)

-- A node whose tasks cannot be allocated.
abbrev failing : Client
failing = record holding { rdma = λ t a n. refused }

dhmp_write-refused_example :
    (d : Client) × (dhmp_write failing block_addr (5 ∷ []) 0 ≡ some (d, true))
    × (d.remote ≡ failing.remote)
    × ((local : List ℕ) (len at : ℕ) → dhmp_read d block_addr local len at ≡ none)
    × ((more : List ℕ) (at : ℕ) → dhmp_write d block_addr more at ≡ none)
unfolding dhmp_get_addr_info_from_ht dhmp_get_trans_from_addr dhmp_node_select_by_id
dhmp_write-refused_example =
    dhmp_write-refused failing 7 block_addr holding-IsIdleClient block (5 ∷ []) 0 holding-entry
      holding-live refl
