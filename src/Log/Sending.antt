-- ===== src/Log/Sending.antt =====
-- src/log_buffer.c: a log from `writer_thread` and `NIC_thread` that comes to stand whole in the ring.
use rdma_middleware.Prelude.{
  ℕ, ◌+◌, ◌%◌, ◌^◌, ◌≤◌, ◌<◌, ◌≡◌, refl, ap, ap₂, sym, ◌∙◌, Bool, true, Option, some, List, ◌++◌,
  length, arith, ltb, lt→ltb,
}
use rdma_middleware.Queue.{UnQueue, put_queue, pop_queue}
use rdma_middleware.Queue.Idle.{IsIdle, Holds, put_queue-Holds}
use rdma_middleware.Log.Window.{copy_in, window, window_shift, mod_twice}
use rdma_middleware.Log.Geometry.{masked_lem, gap, size_pos, entry_size, tag}
use rdma_middleware.Log.Bytes.{tagged}
use rdma_middleware.Log.Writer.{
  Link, Sender, Outgoing, LocalRingbuff, check_remote_size, rb_write_mate, rb_write_data,
  head_node_write_log, nic_step,
}
use rdma_middleware.Log.Reserve.{
  IsLink, used, refreshed, sent_link, check_remote_size_lem, rb_write_mate_lem, write_parts_lem,
}
use rdma_middleware.Log.Send.{peer_window}
use rdma_middleware.Log.Texts.{IsText}
use rdma_middleware.Log.Delivery.{mate_of, length-mate_of}
use rdma_middleware.Log.Turns.{refreshed-IsLink, sent_link-IsLink}
use rdma_middleware.Log.Values.{length-tagged, rb_write_data-IsLink, both_parts}
use rdma_middleware.Log.Journey.{log_at, sent, all_sent, nic_step-first}
use rdma_middleware.Log.Whole.{log_length, LogAt}

-- A key and a value as `head_node_write_log` is given them, that a ring of this size can hold.
pub record IsMessage (size : ℕ) (rest key value : List ℕ) : Type 0 where
  pub key_text : IsText key
  pub value_text : IsText value
  pub rest_length : length rest ≡ 24
  pub key_small : length key + 1 < 2 ^ 31
  pub value_small : length value + 2 < 2 ^ 31
  pub fits : log_length key value < size

-- A connected link to a ring with nothing in it, where the reader goes on at the writer's pointer.
pub record IsRested (l : Link) : Type 0 where
  pub valid : IsLink l
  pub on : l.connected ≡ true
  pub nothing : used l ≡ 0
  pub key_in : l.peer.rd_key_pointer ≤ l.rb.size
  pub all_read : gap (l.rb.size) (l.rb.wr_pointer) (l.peer.rd_key_pointer) ≡ 0

-- Pointers that have the writer's place, but for the end of the ring being its start.
gap-same :
    (size wr wr' b c : ℕ)
    → wr ≤ size
    → wr' ≤ size
    → b ≤ size
    → c ≤ size
    → gap size wr b ≡ 0
    → gap size wr c ≡ 0
    → gap size wr' b ≡ gap size wr' c
gap-same size wr wr' b c hw hw' hb hc e f = ground arith

gap-mod :
    (size wr b : ℕ) → 0 < size → wr ≤ size → b ≤ size → gap size wr b ≡ 0 → b % size ≡ wr % size
gap-mod size wr b h hw hb e =
    ground (arith, mod_twice b size (omega arith), mod_twice wr size (omega arith))

-- What a message that has been taken, and that `NIC_thread` has sent, leaves.
pub record Stood (s t : Sender) (rest key value : List ℕ) : Type 0 where
  pub valid : IsLink t.link
  pub on : t.link.connected ≡ true
  pub size : t.link.rb.size ≡ s.link.rb.size
  pub idle : IsIdle t.sending
  pub log : LogAt (t.link.peer) (t.link.peer.rd_key_pointer) key value rest

module _ (s : Sender) (i : IsIdle s.sending) (l : IsRested s.link) (rest key value : List ℕ)
    (m : IsMessage (s.link.rb.size) rest key value) where
  abbrev size : ℕ
  size = s.link.rb.size

  abbrev data_len : ℕ
  data_len = length value + 1 + tag

  abbrev mate : List ℕ
  mate = mate_of key data_len rest

  abbrev log : Outgoing
  log = log_at key value (s.link.rb.wr_pointer)

  length-mate : length mate ≡ entry_size + (length key + 1)
  length-mate = length-mate_of key data_len rest m.rest_length

  abbrev after_mate : Link
  after_mate =
      sent_link s.link (length mate) data_len
        (copy_in size s.link.peer.buff (s.link.rb.wr_pointer) mate)

  checked-fits :
      check_remote_size s.link (entry_size + (length key + 1) + data_len) ≡ (refreshed s.link, true)
  checked-fits =
      let room : ltb (used s.link + (entry_size + (length key + 1) + data_len)) size ≡ true =
        lt→ltb _ _ (omega (arith, l.nothing, m.fits)) in
      check_remote_size_lem s.link _ l.valid ∙ rw (l.on, room) refl

  mate-sent :
      rb_write_mate (refreshed s.link) mate data_len ≡ (after_mate, some (s.link.rb.wr_pointer))
  mate-sent =
      let room : ltb (used s.link + (length mate + data_len)) size ≡ true =
        lt→ltb _ _ (omega (arith, l.nothing, m.fits, length-mate)) in
      rb_write_mate_lem (refreshed s.link) mate data_len (refreshed-IsLink s.link l.valid)
      ∙ rw (l.on, room) refl

  abbrev queue : UnQueue Outgoing
  queue = (put_queue s.sending log).0

  written :
      head_node_write_log s rest key value ≡ (record { link = after_mate; sending = queue }, true)
  written =
      let both : sent s s rest key value l.valid ≡ (after_mate, some (s.link.rb.wr_pointer)) =
        rw checked-fits mate-sent in
      all_sent s s rest key value l.valid (s.link.rb.wr_pointer)
        (ap (λ (t : Link × Bool). t.1) checked-fits) (ap (λ (t : Link × Option ℕ). t.1) both)
      ∙ ap₂ (λ (t : Link × Option ℕ) (b : Bool). (record { link = t.0; sending = queue }, b)) both
          (put_queue-Holds s.sending log i).0

  abbrev pos : ℕ
  pos = (s.link.rb.wr_pointer + (entry_size + (length key + 1))) % size

  abbrev arrived : Link
  arrived = rb_write_data after_mate (tagged value) pos

  passed_on :
      nic_step (record { link = after_mate; sending = queue })
      ≡ record { link = arrived; sending = pop_queue queue }
  passed_on =
      let holds : Holds queue log = (put_queue-Holds s.sending log i).1 in
      nic_step-first (record { link = after_mate; sending = queue }) log holds.some_left holds.top
      ∙ ap
          (λ p. record {
            link = rb_write_data after_mate (tagged value) p;
            sending = pop_queue queue;
          })
          (masked_lem l.valid.sized _)

  abbrev ring : LocalRingbuff
  ring = record (after_mate.peer) { buff = copy_in size after_mate.peer.buff pos (tagged value) }

  arrived-ring : arrived ≡ record after_mate { peer = ring }
  unfolding rb_write_data
  arrived-ring = write_parts_lem after_mate pos (tagged value) l.on

  ring_bytes :
      (window size ring.buff (s.link.rb.wr_pointer) (log_length key value) ≡ mate ++ tagged value)
      × (gap size (ring.rb.wr_pointer) (ring.rb.rd_pointer) ≡ log_length key value)
  ring_bytes =
      let two : length (tagged value) ≡ data_len = length-tagged value ∙ omega arith in
      let run : rb_write_mate (refreshed s.link) mate (length (tagged value))
          ≡ (after_mate, some (s.link.rb.wr_pointer)) =
        rw two mate-sent in
      let (bytes, more) =
        both_parts (refreshed s.link) after_mate mate (tagged value) (s.link.rb.wr_pointer) pos
          (refreshed-IsLink s.link l.valid) (omega (arith, length-mate)) run
          (ap (λ n. (s.link.rb.wr_pointer + n) % size) (sym length-mate)) in
      let whole : length mate + length (tagged value) ≡ log_length key value =
        omega (arith, length-mate, two) in
      (
        ap (λ t. peer_window t (s.link.rb.wr_pointer) (log_length key value)) (sym arrived-ring)
            ∙ ap (peer_window arrived (s.link.rb.wr_pointer)) (sym whole)
            ∙ bytes,
        ap used (sym arrived-ring) ∙ omega (arith, more, l.nothing, whole),
      )

  ring-LogAt : LogAt ring (ring.rd_key_pointer) key value rest
  ring-LogAt =
      let (_, psize) = l.valid.agreed in
      let valid : IsLink after_mate =
        sent_link-IsLink s.link mate data_len l.valid
          (omega (arith, l.nothing, m.fits, length-mate)) in
      let two : length value + 2 ≡ data_len = omega arith in
      let same_place =
        gap-mod size (s.link.rb.wr_pointer) (ring.rd_key_pointer) (size_pos l.valid.sized)
          l.valid.wr_in l.key_in l.all_read in
      record {
        inside = omega (arith, psize, l.key_in);
        key_text = m.key_text;
        value_text = m.value_text;
        rest_length = m.rest_length;
        key_small = m.key_small;
        value_small = m.value_small;
        held = rw psize ring_bytes.1;
        ahead = rw psize (
            gap-same size (s.link.rb.wr_pointer) (ring.rb.wr_pointer) (ring.rd_key_pointer)
              (ring.rb.rd_pointer) l.valid.wr_in valid.wr_in l.key_in l.valid.rd_in l.all_read
              l.nothing
            ∙ ring_bytes.1);
        bytes =
            ap (λ z. window z ring.buff (ring.rd_key_pointer) (log_length key value)) psize
            ∙ window_shift size ring.buff (ring.rd_key_pointer) (s.link.rb.wr_pointer)
                (log_length key value) same_place
            ∙ ring_bytes.0
            ∙ ap (λ d. mate_of key d rest ++ tagged value) (sym two);
      }

  arrived-Stood : Stood s (record { link = arrived; sending = pop_queue queue }) rest key value
  arrived-Stood =
      let valid : IsLink after_mate =
        sent_link-IsLink s.link mate data_len l.valid
          (omega (arith, l.nothing, m.fits, length-mate)) in
      record {
        valid = rb_write_data-IsLink after_mate (tagged value) pos valid l.on;
        on = ap (λ (t : Link). t.connected) arrived-ring ∙ l.on;
        size = ap (λ (t : Link). t.rb.size) arrived-ring;
        idle = (put_queue-Holds s.sending log i).1.emptied;
        log = rw arrived-ring ring-LogAt;
      }

-- Over a connected link to a ring with nothing in it, and with an empty queue, `head_node_write_log` takes
-- a message that the ring can hold, and after a round of `NIC_thread` its log stands whole in the ring, at
-- the place where the reader goes on; the queue is empty again.
pub head_node_write_log-LogAt :
    (s : Sender) (rest key value : List ℕ)
    → IsIdle s.sending
    → IsRested s.link
    → IsMessage (s.link.rb.size) rest key value
    → let (s', taken) = head_node_write_log s rest key value in
      (taken ≡ true) × Stood s (nic_step s') rest key value
head_node_write_log-LogAt s rest key value i l m =
    rw (written s i l rest key value m, passed_on s i l rest key value m)
      (refl, arrived-Stood s i l rest key value m)
