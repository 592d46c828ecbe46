-- ===== src/Connection/Opening.antt =====
-- src/mid_rdma_connection.c: a transport that listens, one that connects, and one that is freed. The
-- outcomes of the library calls are parameters.
use rdma_middleware.Prelude.{
  ℕ, ◌≡◌, Bool, true, false, not, ◌&&◌, Option, some, none, arith, if◌then◌else◌, ◌==◌,
}
use rdma_middleware.Connection.Events.{TransportState, listen, connecting}
use rdma_middleware.Connection.Resources.{no_region, Transport, Queues, dhmp_qp_release}

-- A transport's connection id, its state, and the address of its peer, `none` while it is not set.
pub record Endpoint : Type 0 where
  pub cm_id : Bool
  pub trans_state : TransportState
  pub peer_addr : Option ℕ

-- `dhmp_transport_listen`, with whether it returns 0.
unfoldable pub dhmp_transport_listen : Bool → Bool → Bool → Endpoint → Endpoint × Bool
dhmp_transport_listen create bind listens e =
    let made = record e { cm_id = true } in
    let cleanid : Endpoint × Bool = (record made { cm_id = false }, false) in
    if not create
    then (e, false)
    else if not bind
    then cleanid
    else if not listens
    then cleanid
    else (record made { trans_state = listen }, true)

-- What `inet_pton` makes of the peer's address: -1, 0 for a text that is no address, or the address.
pub data Pton : Type 0 where
  failed malformed : Pton
  parsed : ℕ → Pton

-- `dhmp_port_uri_transfer`, with whether the result is negative.
unfoldable pub dhmp_port_uri_transfer : Pton → Endpoint → Endpoint × Bool
dhmp_port_uri_transfer failed e = (e, true)
dhmp_port_uri_transfer malformed e = (e, false)
dhmp_port_uri_transfer (parsed a) e = (record e { peer_addr = some a }, false)

-- `dhmp_transport_connect`, with whether it returns 0. `url` is `none` for NULL, and a `port` that is not
-- positive is 0.
unfoldable pub dhmp_transport_connect : Option Pton → ℕ → Bool → Bool → Endpoint → Endpoint × Bool
dhmp_transport_connect none port create resolve e = (e, false)
dhmp_transport_connect (some url) port create resolve e =
    let (addressed, negative) = dhmp_port_uri_transfer url e in
    let clean_rdmatrans : Endpoint × Bool = (record addressed { cm_id = false }, false) in
    if port == 0
    then (e, false)
    else if negative
    then (addressed, false)
    else if not create
    then clean_rdmatrans
    else if not resolve
    then clean_rdmatrans
    else (record addressed { cm_id = true; trans_state = connecting }, true)

abbrev text_of : Option Pton → Pton
text_of none = failed
text_of (some url) = url

abbrev is_failed : Pton → Bool
is_failed failed = true
is_failed _ = false

abbrev addressed_by : Pton → Endpoint → Option ℕ
addressed_by (parsed a) e = some a
addressed_by _ e = e.peer_addr

-- `dhmp_transport_connect` succeeds exactly if there is a text and a positive port, `inet_pton` does not
-- fail, and both library calls succeed; then the transport is connecting. So does it for a text that is
-- no address, with the peer's address left as it was. Otherwise the state is as before, and the
-- transport has no id if one of the library calls has failed, and else what it had for one.
pub dhmp_transport_connect_lem :
    (url : Option Pton) (port : ℕ) (create resolve : Bool) (e : Endpoint)
    → let (e', ok) = dhmp_transport_connect url port create resolve e in
      (ok ≡ (not (is_failed (text_of url)) && (not (port == 0) && (create && resolve))))
      × (e'.trans_state ≡ (if ok then connecting else e.trans_state))
      × (e'.cm_id ≡ (if not (is_failed (text_of url)) && not (port == 0) then ok else e.cm_id))
      × ((if ok then e'.peer_addr else none) ≡ (if ok then addressed_by (text_of url) e else none))
unfolding dhmp_transport_connect dhmp_port_uri_transfer
dhmp_transport_connect_lem none port create resolve e =
    (ground arith, ground arith, ground arith, ground arith)
dhmp_transport_connect_lem (some failed) port create resolve e =
    (ground arith, ground arith, ground arith, ground arith)
dhmp_transport_connect_lem (some malformed) port create resolve e =
    (ground arith, ground arith, ground arith, ground arith)
dhmp_transport_connect_lem (some (parsed a)) port create resolve e =
    (ground arith, ground arith, ground arith, ground arith)

-- `free_trans`: the block of the receive region stays, and so do the blocks of event data. The callers
-- free the transport itself.
unfoldable pub free_trans : Transport → Queues → Transport × Queues
free_trans t q = (
  record t {
    send_mr = no_region;
    recv_mr = record (t.recv_mr) { mr = false };
    channel_event = false;
    channel = false;
  },
  dhmp_qp_release q,
)
