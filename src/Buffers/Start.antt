-- ===== src/Buffers/Start.antt =====
-- src/log_buffer.c, src/mid_rdma_top_api.c: what `buff_init` sets up, by the class of the node.
use rdma_middleware.Prelude.{
  ℕ, ◌+◌, ◌^◌, ◌<◌, ◌≡◌, ◌≢◌, refl, ◌∙◌, true, false, ◌||◌, Option, some, none, List, get_elem?,
  arith, ◌==◌, if◌then◌else◌,
}
use rdma_middleware.Queue.{UnQueue, init_queue}
use rdma_middleware.Log.Geometry.{total_size}
use rdma_middleware.Log.Reader.{NodeClass, head, normal, tail, Ptr}
use rdma_middleware.HashMap.{create_hash_map, HashMap, ◌>>=◌}
use rdma_middleware.Client.Addresses.{
  shifted, node_index, dhmp_transfer_dhmp_addr, dhmp_transfer_normal_addr, transfer_roundtrip,
  shifted-transfer,
}
use rdma_middleware.Client.Table.{AddrInfo}
use rdma_middleware.Client.Works.{Client, dhmp_addr_info_insert_ht, dhmp_get_trans_from_addr}
use rdma_middleware.Client.Idle.{IsIdleClient, insert-idle}
use rdma_middleware.Client.Access.{entry_of, entry_of-insert, entry_of-insert_other, selected}
use rdma_middleware.Buffers.{
  Thread, started_threads, queue_size, Answer, mate_length, placed_info,
  dhmp_malloc_buff_response_handler, dhmp_buff_malloc_work_handler, dhmp_buff_malloc,
  RemoteRingbuff, Buffers, buff_init, new_info,
}

-- A region of the next node that the client knows under an address of its own.
pub record Known (c : Client) (trans at length dhmp_addr : ℕ) : Type 0 where
  pub connection : dhmp_get_trans_from_addr c dhmp_addr ≡ some (some trans)
  pub info : AddrInfo
  pub entry : entry_of c dhmp_addr ≡ some info
  pub fields : (info.nvm_addr ≡ at) × (info.nvm_length ≡ length) × (info.write_flag ≡ false)

trans_of :
    (c : Client) (p node_id trans : ℕ)
    → shifted p ≡ node_id
    → get_elem? c.connect_trans node_id ≡ some (some trans)
    → c.connected trans ≡ true
    → dhmp_get_trans_from_addr c p ≡ some (some trans)
unfolding dhmp_get_trans_from_addr
trans_of c p node_id trans here slot up = rw here (selected c node_id trans slot up)

transfer_pos :
    (slots : List (Option ℕ)) (trans at : ℕ)
    → 0 < at
    → at < 2 ^ 48
    → node_index slots trans < 2 ^ 15
    → 0 < dhmp_transfer_dhmp_addr slots trans at
unfolding dhmp_transfer_dhmp_addr
transfer_pos slots trans at pos small few = ground arith

module _ (junk : ℕ) (c : Client) (nodeid trans : ℕ) (answer : Answer) where
  abbrev ring_info : AddrInfo
  ring_info = dhmp_malloc_buff_response_handler answer.ring_addr total_size (new_info junk)

  abbrev mate_info : AddrInfo
  mate_info = dhmp_malloc_buff_response_handler answer.mate_addr mate_length (new_info junk)

  abbrev buff_addr : ℕ
  buff_addr = dhmp_transfer_dhmp_addr c.connect_trans trans answer.ring_addr

  abbrev buff_mate_addr : ℕ
  buff_mate_addr = dhmp_transfer_dhmp_addr c.connect_trans trans answer.mate_addr

  abbrev with_ring : Client
  with_ring = dhmp_addr_info_insert_ht c buff_addr (placed_info buff_addr ring_info)

  abbrev with_mate : Client
  with_mate =
      dhmp_addr_info_insert_ht with_ring buff_mate_addr (placed_info buff_mate_addr mate_info)

  -- The answer's addresses, and a live connection in one of the first slots.
  pub record IsReady : Type 0 where
    pub slot : get_elem? c.connect_trans nodeid ≡ some (some trans)
    pub first : node_index c.connect_trans trans ≡ nodeid
    pub few : nodeid < 2 ^ 15
    pub up : c.connected trans ≡ true
    pub idle : IsIdleClient c
    pub mate_small : (0 < answer.mate_addr) × (answer.mate_addr < 2 ^ 48)
    pub ring_small : (0 < answer.ring_addr) × (answer.ring_addr < 2 ^ 48)
    pub apart : answer.mate_addr ≢ answer.ring_addr

  module _ (h : IsReady) where
    dhmp_buff_malloc_live :
        dhmp_buff_malloc junk c nodeid (0, 0) (some answer)
        ≡ some (with_mate, buff_mate_addr, buff_addr)
    unfolding dhmp_buff_malloc dhmp_buff_malloc_work_handler dhmp_malloc_buff_response_handler
    dhmp_buff_malloc_live =
        let some_ring : (answer.ring_addr == 0) ≡ false = ground (arith, h.ring_small) in
        let some_mate : (answer.mate_addr == 0) ≡ false = ground (arith, h.mate_small) in
        rw (selected c nodeid trans h.slot h.up, h.up, some_ring, some_mate) refl

    transferred :
        (at : ℕ)
        → (0 < at) × (at < 2 ^ 48)
        → (dhmp_transfer_normal_addr (dhmp_transfer_dhmp_addr c.connect_trans trans at) ≡ at)
          × (shifted (dhmp_transfer_dhmp_addr c.connect_trans trans at) ≡ nodeid)
          × (0 < dhmp_transfer_dhmp_addr c.connect_trans trans at)
    transferred at (some_at, small) =
        let few : node_index c.connect_trans trans < 2 ^ 15 = rw h.first h.few in
        let p = dhmp_transfer_dhmp_addr c.connect_trans trans at in
        (
          (transfer_roundtrip c.connect_trans trans at small few).0,
          shifted-transfer c.connect_trans trans at small few ∙ h.first,
          transfer_pos c.connect_trans trans at some_at small few,
        )

    -- Both regions are known, and nothing is being written.
    regions-Known :
        Known with_mate trans answer.ring_addr total_size buff_addr
        × Known with_mate trans answer.mate_addr mate_length buff_mate_addr
        × IsIdleClient with_mate
    unfolding dhmp_addr_info_insert_ht dhmp_malloc_buff_response_handler
    regions-Known =
        let ring = transferred answer.ring_addr h.ring_small in
        let mate = transferred answer.mate_addr h.mate_small in
        let other : answer.mate_addr ≢ dhmp_transfer_normal_addr buff_addr = rw ring.0 h.apart in
        (
          record {
            connection = trans_of with_mate buff_addr nodeid trans ring.1 h.slot h.up;
            info = placed_info buff_addr ring_info;
            entry =
                entry_of-insert_other with_ring buff_addr buff_mate_addr _ other
                ∙ entry_of-insert c buff_addr _ ring.0;
            fields = (refl, refl, refl);
          },
          record {
            connection = trans_of with_mate buff_mate_addr nodeid trans mate.1 h.slot h.up;
            info = placed_info buff_mate_addr mate_info;
            entry = entry_of-insert with_ring buff_mate_addr _ mate.0;
            fields = (refl, refl, refl);
          },
          insert-idle with_ring buff_mate_addr _ refl (insert-idle c buff_addr _ refl h.idle),
        )

-- What `buff_init` gives a node that has a next one.
pub record Started {A : Type 0} (c : Client) (trans : ℕ) (answer : Answer) (r : Client × Buffers A)
    (next : ℕ) : Type 0 where
  pub remote : RemoteRingbuff
  pub set : r.1.remote_buff ≡ some remote
  pub ring : remote.rb ≡ record { wr_pointer = 0; rd_pointer = 0; size = total_size }
  pub node : remote.node_id ≡ next
  pub buff : Known r.0 trans answer.ring_addr total_size remote.buff
  pub mate : Known r.0 trans answer.mate_addr mate_length remote.buff_mate
  pub idle : IsIdleClient r.0

abbrev pub link_to : ℕ → ℕ → ℕ → RemoteRingbuff
link_to next mate ring = record {
  rb = record { wr_pointer = 0; rd_pointer = 0; size = total_size };
  node_id = next;
  buff_mate = mate;
  buff = ring;
}

abbrev pub set_up :
    {A : Type 0} → A → Option (HashMap Ptr ℕ) → List Thread → RemoteRingbuff → Buffers A
set_up {A} slot map threads remote =
    let queue : UnQueue A = init_queue slot queue_size in
    record {
      pending = queue;
      executing = queue;
      sending = queue;
      dirty = queue;
      dirty_map = map;
      remote_buff = some remote;
      threads = threads;
    }

started :
    {A : Type 0} (slot : A) (junk server_id trans : ℕ) (c : Client) (answer : Answer)
    → IsReady junk c (server_id + 1) trans answer
    → (map : Option (HashMap Ptr ℕ)) (threads : List Thread)
    → (r : Client × Buffers A) × ((dhmp_buff_malloc junk c (server_id + 1) (0, 0) (some answer)
          >>= λ (t : Client × ℕ × ℕ).
              if (t.1 == 0) || (t.2 == 0)
              then none
              else some (t.0, set_up slot map threads (link_to (server_id + 1) t.1 t.2)))
        ≡ some r)
      × Started c trans answer r (server_id + 1)
started slot junk server_id trans c answer h map threads =
    let mate = buff_mate_addr junk c (server_id + 1) trans answer in
    let ring = buff_addr junk c (server_id + 1) trans answer in
    let ring_at = transferred junk c (server_id + 1) trans answer h answer.ring_addr h.ring_small in
    let mate_at = transferred junk c (server_id + 1) trans answer h answer.mate_addr h.mate_small in
    let some_ring : (ring == 0) ≡ false = ground (arith, ring_at.2) in
    let some_mate : (mate == 0) ≡ false = ground (arith, mate_at.2) in
    let (known_ring, known_mate, idle) = regions-Known junk c (server_id + 1) trans answer h in
    let link : RemoteRingbuff = link_to (server_id + 1) mate ring in
    (
      (with_mate junk c (server_id + 1) trans answer, set_up slot map threads link),
      rw (dhmp_buff_malloc_live junk c (server_id + 1) trans answer h, some_ring, some_mate) refl,
      record {
        remote = link;
        set = refl;
        ring = refl;
        node = refl;
        buff = known_ring;
        mate = known_mate;
        idle = idle;
      },
    )

-- At a node that has a next one, to which a live connection stands in one of the first 2^15 slots, and
-- whose client is idle, `buff_init` returns if the next node answers with two different addresses
-- between 1 and 2^48 - 1. The view of the next node's ring is then empty, and the addresses of the ring
-- and of its control data both lead back to the connection and to an entry of the client's table
-- with the address on the server; the client is idle.
pub buff_init-Started :
    {A : Type 0} (slot : A) (junk server_id trans : ℕ) (class : NodeClass) (c : Client)
    (answer : Answer)
    → class ≢ tail
    → IsReady junk c (server_id + 1) trans answer
    → (r : Client × Buffers A) × (buff_init slot junk class server_id c (some answer) ≡ some r)
      × Started c trans answer r (server_id + 1)
unfolding buff_init
buff_init-Started slot junk server_id trans tail c answer other h = absurd (other refl)
buff_init-Started slot junk server_id trans head c answer other h =
    started slot junk server_id trans c answer h (none) (started_threads head)
buff_init-Started slot junk server_id trans normal c answer other h =
    started slot junk server_id trans c answer h (some (create_hash_map Ptr ℕ (some 1024)))
      (started_threads normal)
