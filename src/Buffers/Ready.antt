-- ===== src/Buffers/Ready.antt =====
-- src/log_buffer.c: from `buff_init` at two nodes to the messages that the second one reads.
use rdma_middleware.Prelude.{ℕ, ◌≡◌, ◌≢◌, refl, true, Option, some, List, map, arith}
use rdma_middleware.Prelude.Results.{Returns-some}
use rdma_middleware.HashMap.{HashMap}
use rdma_middleware.Log.Geometry.{total_size}
use rdma_middleware.Log.Reader.{NodeClass, head, Ptr}
use rdma_middleware.Log.Writer.{LocalRingbuff, Outgoing}
use rdma_middleware.Log.System.{System}
use rdma_middleware.Log.Loops.{Message, exchange_all}
use rdma_middleware.Log.Exchanged.{IsQuiet, AreMessages, exchange_all-IsQuiet}
use rdma_middleware.Client.Works.{Client}
use rdma_middleware.Buffers.Initial.{
  AtStart, buff_init-AtStart, granted_ring, both_started, cleared, new_link, new_link-IsLink,
}
use rdma_middleware.Buffers.{
  Answer, RemoteRingbuff, Buffers, buff_init, Outcomes, Receiving, nothing_held,
  dhmp_malloc_buff_request_handler,
}

started-IsQuiet :
    (b : Buffers Outgoing) (q : Buffers ℕ) (l : RemoteRingbuff) (dirty : HashMap Ptr ℕ)
    (class : NodeClass)
    → AtStart b
    → AtStart q
    → l.rb ≡ (new_link true).rb
    → q.dirty_map ≡ some dirty
    → class ≢ head
    → IsQuiet (both_started l b q true dirty cleared class)
started-IsQuiet b q l dirty class start start' view has_map reads = rw view (record {
  queue = start.sending;
  link = record {
    valid = new_link-IsLink true;
    on = refl;
    nothing = refl;
    key_in = omega arith;
    all_read = refl;
  };
  shared = refl;
  reader = record {
    pending = start'.pending;
    executing = start'.executing;
    dirty = start'.dirty;
    clear = start'.map dirty has_map;
    reads = reads;
  };
})

-- When the reading node, no head node, has granted its ring, both nodes have returned from `buff_init`,
-- the writing one with a node behind it, and the two are connected, nothing is under way between them, and
-- messages that the ring of 64 bytes can hold, without a zero in key and value, are taken one after the
-- other, with a round of each thread for each, and `reader_thread` logs exactly their values in their order.
pub buff_init-exchange_all :
    (slot : Outgoing) (slot' junk id id' : ℕ) (class class' : NodeClass) (c c' d d' : Client)
    (answer answer' : Option Answer) (b : Buffers Outgoing) (q : Buffers ℕ) (l : RemoteRingbuff)
    (dirty : HashMap Ptr ℕ) (o : Outcomes) (held : Receiving) (ring : LocalRingbuff)
    (ms : List Message)
    → buff_init slot junk class id c answer ≡ some (d, b)
    → b.remote_buff ≡ some l
    → buff_init slot' junk class' id' c' answer' ≡ some (d', q)
    → q.dirty_map ≡ some dirty
    → class' ≢ head
    → dhmp_malloc_buff_request_handler o nothing_held ≡ some (held, true)
    → held.ring ≡ some ring
    → AreMessages total_size ms
    → let s = both_started l b q true dirty ring class' in
      IsQuiet s
      × (t : System) × (exchange_all s ms ≡ some (t, map (λ (m : Message). m.value) ms))
      × IsQuiet t
buff_init-exchange_all slot slot' junk id id' class class' c c' d d' answer answer' b q l dirty o
      held ring ms run has run' has_map reads grant is_ring fit =
    let start : AtStart b =
      Returns-some _ _ (d, b) run (buff_init-AtStart slot junk id c answer class) in
    let start' : AtStart q =
      Returns-some _ _ (d', q) run' (buff_init-AtStart slot' junk id' c' answer' class') in
    let view : l.rb ≡ (new_link true).rb = start.remote l has in
    let quiet : IsQuiet (both_started l b q true dirty ring class') =
      rw (granted_ring o held ring grant is_ring)
        (started-IsQuiet b q l dirty class' start start' view has_map reads) in
    let (t, all, still) = exchange_all-IsQuiet ms _ quiet (rw view fit) in (quiet, t, all, still)
