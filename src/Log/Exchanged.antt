-- ===== src/Log/Exchanged.antt =====
-- src/log_buffer.c: message after message through a node and the next one, from `writer_thread` to
-- `reader_thread`.
use rdma_middleware.Prelude.{ℕ, ◌≡◌, refl, ap, sym, ◌∙◌, true, some, List, [], ◌∷◌, map, arith}
use rdma_middleware.Queue.Idle.{IsIdle}
use rdma_middleware.Log.Writer.{Link, Sender, head_node_write_log, nic_step}
use rdma_middleware.Log.Reader.{Receiver}
use rdma_middleware.Log.Reserve.{IsLink}
use rdma_middleware.Log.Delivery.{peer-IsLocal}
use rdma_middleware.Log.System.{System, by_sender, by_receiver}
use rdma_middleware.Log.Loops.{Message, exchange, exchange_all}
use rdma_middleware.Log.Executed.{IsIdleReader}
use rdma_middleware.Log.Emptied.{Emptied, reader_round-LogAt}
use rdma_middleware.Log.Sending.{IsMessage, IsRested, head_node_write_log-LogAt}

-- Both nodes between two messages: everything sent is read and released.
pub record IsQuiet (s : System) : Type 0 where
  pub queue : IsIdle s.sender.sending
  pub link : IsRested s.sender.link
  pub shared : s.receiver.ring ≡ s.sender.link.peer
  pub reader : IsIdleReader s.receiver

abbrev pub ring_size : System → ℕ
ring_size s = s.sender.link.rb.size

-- The link when the reader has emptied the ring.
Emptied-IsRested :
    (l : Link) (r r' : Receiver)
    → IsLink l
    → l.connected ≡ true
    → r.ring ≡ l.peer
    → Emptied r r'
    → IsRested (record l { peer = r'.ring })
Emptied-IsRested l r r' v on same e =
    let wr : r'.ring.rb.wr_pointer ≡ l.rb.wr_pointer =
      e.ring.1 ∙ ap (λ t. t.rb.wr_pointer) same ∙ v.agreed.0 in
    let size : r'.ring.rb.size ≡ l.rb.size = e.ring.2 ∙ ap (λ t. t.rb.size) same ∙ v.agreed.1 in
    record {
      valid = record {
        sized = v.sized;
        wide = e.local.wide ∙ size;
        wr_in = v.wr_in;
        rd_in = omega (arith, size, e.local.ring.rd_in);
        agreed = (wr, size);
      };
      on = on;
      nothing = rw (sym wr, sym size) e.released;
      key_in = omega (arith, size, e.key_in);
      all_read = rw (sym wr, sym size) e.all_read;
    }

-- Between two messages the nodes pass any message that the ring can hold, and are then between two
-- messages again.
pub exchange-IsQuiet :
    (s : System) (m : Message)
    → IsQuiet s
    → IsMessage (ring_size s) m.rest m.key m.value
    → (t : System) × (exchange s m ≡ some (t, true, m.value ∷ []))
      × IsQuiet t
      × (ring_size t ≡ ring_size s)
unfolding exchange by_sender by_receiver
exchange-IsQuiet s m q fits =
    let (taken, stood) =
      head_node_write_log-LogAt s.sender m.rest m.key m.value q.queue q.link fits in
    let next : Sender = nic_step (head_node_write_log s.sender m.rest m.key m.value).0 in
    let r : Receiver = record (s.receiver) { ring = next.link.peer } in
    let idle : IsIdleReader r = record {
      pending = q.reader.pending;
      executing = q.reader.executing;
      dirty = q.reader.dirty;
      clear = q.reader.clear;
      reads = q.reader.reads;
    } in
    let (r', run, e) =
      reader_round-LogAt r m.key m.value m.rest idle (peer-IsLocal next.link stood.valid)
        stood.log in
    (
      record {
        sender = record next { link = record (next.link) { peer = r'.ring } };
        receiver = r';
      },
      rw (run, taken) refl,
      record {
        queue = stood.idle;
        link = Emptied-IsRested next.link r r' stood.valid stood.on refl e;
        shared = refl;
        reader = e.idle;
      },
      stood.size,
    )

abbrev pub AreMessages : ℕ → List Message → Type 0
AreMessages size [] = Unit {0}
AreMessages size (m ∷ ms) = IsMessage size m.rest m.key m.value × AreMessages size ms

-- Between two connected nodes with nothing under way, every list of messages of which the ring can hold
-- each one, without a zero in key and value, is taken whole, one after the other, with a round of each
-- thread for each, and `reader_thread` logs exactly their values, in their order, however often the ring
-- goes round; the ring, the writer's queue, the reader's queues of logs to read, to execute and to release,
-- and its dirty map are then empty again. A reader that is no tail keeps the logs in its `sending_queue`,
-- of which nothing is said.
pub exchange_all-IsQuiet :
    (ms : List Message) (s : System)
    → IsQuiet s
    → AreMessages (ring_size s) ms
    → (t : System) × (exchange_all s ms ≡ some (t, map (λ (m : Message). m.value) ms)) × IsQuiet t
unfolding exchange_all
exchange_all-IsQuiet [] s q h = (s, refl, q)
exchange_all-IsQuiet (m ∷ ms) s q (fits, h) =
    let (t, run, quiet, size) = exchange-IsQuiet s m q fits in
    let (u, rest, last) = exchange_all-IsQuiet ms t quiet (rw size h) in
    (u, rw (run, rest) refl, last)
