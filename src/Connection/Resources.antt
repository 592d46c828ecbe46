-- ===== src/Connection/Resources.antt =====
-- src/mid_rdma_connection.c, src/mid_rdma_utils.c: what the setup of a connection acquires, and what
-- its error paths release. The outcomes of the library calls are parameters.
use rdma_middleware.Prelude.{◌≡◌, arith, Bool, true, false, not, ◌&&◌, if◌then◌else◌}

-- Which calls succeed, in the code's order.
pub record Outcomes : Type 0 where
  pub trans_malloc : Bool
  pub event_channel : Bool
  pub event_nonblock : Bool
  pub send_malloc : Bool
  pub send_reg : Bool
  pub recv_malloc : Bool
  pub recv_reg : Bool
  pub cq_malloc : Bool
  pub comp_channel : Bool
  pub comp_nonblock : Bool
  pub comp_event : Bool
  pub create_cq : Bool
  pub notify_cq : Bool
  pub create_qp : Bool

-- What is held of a `dhmp_mr`: its block and its registration.
pub record Region : Type 0 where
  pub addr : Bool
  pub mr : Bool

-- What is held for a transport; `event_data` is the block of its channel as a watched descriptor, which
-- `dhmp_context_del_event_fd` does not free.
pub record Transport : Type 0 where
  pub trans : Bool
  pub channel : Bool
  pub channel_event : Bool
  pub event_data : Bool
  pub send_mr : Region
  pub recv_mr : Region

-- What is held for a completion queue, and the queue pair.
pub record Queues : Type 0 where
  pub dcq : Bool
  pub channel : Bool
  pub channel_event : Bool
  pub event_data : Bool
  pub cq : Bool
  pub qp : Bool

abbrev pub no_region : Region
no_region = record { addr = false; mr = false }

abbrev pub no_transport : Transport
no_transport = record {
  trans = false;
  channel = false;
  channel_event = false;
  event_data = false;
  send_mr = no_region;
  recv_mr = no_region;
}

abbrev pub no_queues : Queues
no_queues = record {
  dcq = false;
  channel = false;
  channel_event = false;
  event_data = false;
  cq = false;
  qp = false;
}

-- `dhmp_memory_register`, with whether it returns 0.
unfoldable pub dhmp_memory_register : Bool → Bool → Region × Bool
dhmp_memory_register malloc reg =
    let taken : Region = record { addr = true; mr = false } in
    if not malloc
    then (no_region, false)
    else if not reg
    then (record taken { addr = false }, false)
    else (record taken { mr = true }, true)

-- `dhmp_event_channel_create`: the result of the adding to the context is ignored.
unfoldable pub dhmp_event_channel_create : Outcomes → Transport → Transport × Bool
dhmp_event_channel_create o t =
    let opened = record t { channel = true } in
    if not o.event_channel
    then (t, false)
    else if not o.event_nonblock
    then (record opened { channel = false }, false)
    else (record opened { channel_event = true; event_data = true }, true)

-- The labels of `dhmp_transport_create`: each frees what it names and goes on to the one before.
abbrev out : Transport → Transport × Bool
out t = (record t { trans = false }, false)

abbrev out_event_channel : Transport → Transport × Bool
out_event_channel t = out (record t { channel_event = false; channel = false })

abbrev out_send_mr : Transport → Transport × Bool
out_send_mr t = out_event_channel (record t { send_mr = no_region })

-- `dhmp_transport_create`, with whether it returns a transport.
unfoldable pub dhmp_transport_create : Outcomes → Bool → Transport × Bool
dhmp_transport_create o is_listen =
    let start = record no_transport { trans = true } in
    let (opened, has_channel) = dhmp_event_channel_create o start in
    let (send, has_send) = dhmp_memory_register o.send_malloc o.send_reg in
    let (recv, has_recv) = dhmp_memory_register o.recv_malloc o.recv_reg in
    if not o.trans_malloc
    then (no_transport, false)
    else if not has_channel
    then out opened
    else if is_listen
    then (opened, true)
    else if not has_send
    then out_event_channel (record opened { send_mr = send })
    else if not has_recv
    then out_send_mr (record opened { send_mr = send; recv_mr = recv })
    else (record opened { send_mr = send; recv_mr = recv }, true)

-- The labels of `dhmp_cq_get`.
abbrev cleanhcq : Queues → Queues × Bool
cleanhcq q = (record q { dcq = false }, false)

-- `ibv_destroy_comp_channel` fails while a completion queue uses the channel.
abbrev cleanchannel : Queues → Queues × Bool
cleanchannel q = cleanhcq (record q { channel = q.cq })

abbrev cleaneventfd : Queues → Queues × Bool
cleaneventfd q = cleanchannel (record q { channel_event = false })

-- `dhmp_cq_get`
unfoldable pub dhmp_cq_get : Outcomes → Queues × Bool
dhmp_cq_get o =
    let start = record no_queues { dcq = true } in
    let opened = record start { channel = true } in
    let watched = record opened { channel_event = true; event_data = true } in
    let made = record watched { cq = true } in
    if not o.cq_malloc
    then (no_queues, false)
    else if not o.comp_channel
    then cleanhcq start
    else if not o.comp_nonblock
    then cleanchannel opened
    else if not o.comp_event
    then cleanchannel opened
    else if not o.create_cq
    then cleaneventfd watched
    else if not o.notify_cq
    then cleaneventfd made
    else (made, true)

-- `dhmp_qp_create`
unfoldable pub dhmp_qp_create : Outcomes → Queues × Bool
dhmp_qp_create o =
    let (q, has_cq) = dhmp_cq_get o in
    if not has_cq
    then (q, false)
    else if not o.create_qp
    then (record q { dcq = false }, false)
    else (record q { qp = true }, true)

-- `dhmp_qp_release`: the completion channel stays open.
unfoldable pub dhmp_qp_release : Queues → Queues
dhmp_qp_release q =
    if q.qp then record q { qp = false; cq = false; channel_event = false; dcq = false } else q

abbrev pub made_transport : Bool → Transport
made_transport is_listen =
    let region : Region = record { addr = not is_listen; mr = not is_listen } in
    record {
      trans = true;
      channel = true;
      channel_event = true;
      event_data = true;
      send_mr = region;
      recv_mr = region;
    }

abbrev pub can_create : Outcomes → Bool → Bool
can_create o is_listen =
    o.trans_malloc
    && (o.event_channel
        && (o.event_nonblock
            && (if is_listen
                then true
                else o.send_malloc && (o.send_reg && (o.recv_malloc && o.recv_reg)))))

-- A transport is created exactly if every call that it needs succeeds. Then it holds all its parts;
-- otherwise what had been acquired has been released, but for the block of event data if the channel was
-- watched.
pub dhmp_transport_create_lem :
    (o : Outcomes) (is_listen : Bool)
    → dhmp_transport_create o is_listen ≡ (
        if can_create o is_listen then (made_transport is_listen, true) else (
          record no_transport {
            event_data = o.trans_malloc && (o.event_channel && o.event_nonblock);
          },
          false,
        ))
unfolding dhmp_transport_create dhmp_event_channel_create dhmp_memory_register
dhmp_transport_create_lem o is_listen = ground arith

abbrev pub can_queue : Outcomes → Bool
can_queue o = o.cq_malloc && (o.comp_channel && (o.comp_nonblock && (o.comp_event && o.create_cq)))

-- The queues of a connection are made exactly if every call succeeds. A failure before the completion
-- queue exists releases everything, but for the block of event data if the channel was watched, which
-- stays in all that follows too. A failed notification leaves the completion queue, and with it its channel,
-- which can then not be destroyed; a failed queue pair leaves both, and the channel's place among the
-- watched descriptors.
pub dhmp_qp_create_lem :
    (o : Outcomes)
    → dhmp_qp_create o ≡ (
        if not (can_queue o)
        then (
          record no_queues {
            event_data = o.cq_malloc && (o.comp_channel && (o.comp_nonblock && o.comp_event));
          },
          false,
        )
        else if not o.notify_cq
        then (record no_queues { cq = true; channel = true; event_data = true }, false)
        else if not o.create_qp
        then (
          record no_queues { cq = true; channel = true; channel_event = true; event_data = true },
          false,
        )
        else (
          record {
            dcq = true;
            channel = true;
            channel_event = true;
            event_data = true;
            cq = true;
            qp = true;
          },
          true,
        ))
unfolding dhmp_qp_create dhmp_cq_get
dhmp_qp_create_lem o = ground arith
