-- ===== src/Log/Reachable.antt =====
-- src/log_buffer.c: the writing and the reading threads of a link, whose turns come in any order.
use rdma_middleware.Prelude.{◌≡◌, refl, ◌∙◌, ap, Bool, arith}
use rdma_middleware.Queue.Inv.{IsValid}
use rdma_middleware.Prelude.Results.{Returns-some}
use rdma_middleware.Log.Geometry.{IsSize}
use rdma_middleware.Log.Writer.{Sender}
use rdma_middleware.Log.Reserve.{IsLink}
use rdma_middleware.Log.Reader.{Receiver, read_log_key}
use rdma_middleware.Log.Pipeline.{read_value, send_log, clean_log}
use rdma_middleware.Log.System.{
  System, by_sender, by_receiver, set_connected, SystemStep, write_log, send_value, take_keys,
  take_value, pass_log, drop_log, connection, Reach, here, next,
}
use rdma_middleware.Log.Turns.{IsSender, head_node_write_log-IsSender, nic_step-IsSender}
use rdma_middleware.Log.Rounds.{
  Kept, read_log_key-Kept, read_value-Kept, send_log-Kept, clean_log-Kept,
}

-- The link is one whose ends agree, both nodes see one ring, and the queues are well formed.
pub record IsSound (s : System) : Type 0 where
  pub link : IsLink (s.sender.link)
  pub shared : s.receiver.ring ≡ s.sender.link.peer
  pub to_send : IsValid (s.sender.sending)
  pub pending : IsValid (s.receiver.pending)
  pub executing : IsValid (s.receiver.executing)
  pub sending : IsValid (s.receiver.sending)
  pub dirty : IsValid (s.receiver.dirty)

by_sender-IsSound : (s : System) (n : Sender) → IsSound s → IsSender n → IsSound (by_sender s n)
unfolding by_sender
by_sender-IsSound s n v (link, q) = record {
  link = link;
  shared = refl;
  to_send = q;
  pending = v.pending;
  executing = v.executing;
  sending = v.sending;
  dirty = v.dirty;
}

by_receiver-IsSound :
    (s : System) (r : Receiver) → IsSound s → Kept s.receiver r → IsSound (by_receiver s r)
unfolding by_receiver
by_receiver-IsSound s r v k =
    let wr = ap (λ t. t.rb.wr_pointer) v.shared in
    let rd = ap (λ t. t.rb.rd_pointer) v.shared in
    let size = ap (λ t. t.rb.size) v.shared in
    let buff = ap (λ t. t.buff) v.shared in
    record {
      link = record {
        sized = v.link.sized;
        wide = rw (k.buff ∙ buff) (v.link.wide);
        wr_in = v.link.wr_in;
        rd_in = omega (arith, k.rd, rd, size, v.link.rd_in, v.link.agreed.1);
        agreed = (k.wr ∙ wr ∙ v.link.agreed.0, k.size ∙ size ∙ v.link.agreed.1);
      };
      shared = refl;
      to_send = v.to_send;
      pending = k.pending v.pending;
      executing = k.executing v.executing;
      sending = k.sending v.sending;
      dirty = k.dirty v.dirty;
    }

set_connected-IsSound : (s : System) (b : Bool) → IsSound s → IsSound (set_connected s b)
unfolding set_connected
set_connected-IsSound s b v = record {
  link = record {
    sized = v.link.sized;
    wide = v.link.wide;
    wr_in = v.link.wr_in;
    rd_in = v.link.rd_in;
    agreed = v.link.agreed;
  };
  shared = v.shared;
  to_send = v.to_send;
  pending = v.pending;
  executing = v.executing;
  sending = v.sending;
  dirty = v.dirty;
}

pub SystemStep-IsSound : {s t : System} → SystemStep s t → IsSound s → IsSound t
SystemStep-IsSound {s} {t} (write_log rest key value e) v = rw e (
    by_sender-IsSound s _ v
      (head_node_write_log-IsSender s.sender rest key value (v.link, v.to_send)))
SystemStep-IsSound {s} {t} (send_value e) v =
    rw e (by_sender-IsSound s _ v (nic_step-IsSender s.sender (v.link, v.to_send)))
SystemStep-IsSound {s} {t} (take_keys limits n r run e) v = rw e (
    by_receiver-IsSound s r v (
      Returns-some _ (read_log_key limits s.receiver) (r, n) run
        (read_log_key-Kept limits s.receiver)))
SystemStep-IsSound {s} {t} (take_value found r run e) v = rw e (
    by_receiver-IsSound s r v
      (Returns-some _ (read_value s.receiver) (r, found) run (read_value-Kept s.receiver)))
SystemStep-IsSound {s} {t} (pass_log r run e) v = rw e (
    by_receiver-IsSound s r v
      (Returns-some _ (send_log s.receiver) r run (send_log-Kept s.receiver)))
SystemStep-IsSound {s} {t} (drop_log r run e) v =
    let sized : IsSize (s.receiver.ring.rb.size) = rw (v.shared, v.link.agreed.1) v.link.sized in
    rw e (
      by_receiver-IsSound s r v
        (Returns-some _ (clean_log s.receiver) r run (clean_log-Kept s.receiver sized)))
SystemStep-IsSound {s} {t} (connection b e) v = rw e (set_connected-IsSound s b v)

-- In whatever order the threads of the writing and of the reading node take their turns, and whenever the
-- connection is lost or comes back between two of their calls, but never within one, both ends of the link
-- agree on the ring and on the writer's pointer, the pointers stay inside the ring, and all the queues stay
-- well formed, if this was so at the start.
pub Reach-IsSound : {s t : System} → IsSound s → Reach s t → IsSound t
Reach-IsSound v here = v
Reach-IsSound v (next r step) = SystemStep-IsSound step (Reach-IsSound v r)
