-- ===== src/Log/Journey.antt =====
-- src/log_buffer.c: a log from `head_node_write_log` and `NIC_thread` at one node to the entry, the key and
-- the value that the next node reads.
use rdma_middleware.Prelude.{
  ℕ, ◌+◌, ◌^◌, ◌<◌, ◌≡◌, refl, ap, sym, ◌∙◌, Bool, true, false, Bool-cases, Option-cases, inl, inr,
  Option, some, none, List, length, get_elem?-set, arith,
}
use rdma_middleware.Queue.{UnQueue, put_queue, pop_queue, empty_queue, top_queue}
use rdma_middleware.Queue.Inv.{IsValid}
use rdma_middleware.Log.Geometry.{entry_size, tag, masked, masked_lem}
use rdma_middleware.Log.Bytes.{tagged}
use rdma_middleware.Log.Writer.{
  Link, Sender, Outgoing, check_remote_size, read_rd_remote, rb_write_mate, rb_write_data,
  head_node_write_log, nic_step,
}
use rdma_middleware.Log.Reserve.{IsLink}
use rdma_middleware.Log.Turns.{check_remote_size-IsLink, head_node_write_log-IsSender}
use rdma_middleware.Log.Reader.{LogEntry, Blocks, read_entry, string_at}
use rdma_middleware.Log.Pipeline.{value_arrived, locate_value}
use rdma_middleware.Log.Texts.{IsText}
use rdma_middleware.Log.Delivery.{mate_of, rb_write_mate-read_entry}
use rdma_middleware.Log.Values.{rb_write_data-locate_value}

-- An entry put into an empty queue is the first one, and the queue is empty when it has been taken.
put_queue-first :
    {A : Type 0} (q q' : UnQueue A) (x : A)
    → IsValid q
    → empty_queue q ≡ true
    → put_queue q x ≡ (q', true)
    → (empty_queue q' ≡ false) × (top_queue q' ≡ some x) × (empty_queue (pop_queue q') ≡ true)
unfolding put_queue empty_queue top_queue pop_queue
put_queue-first q q' x v e h =
    let slot = get_elem?-set q.slots q.wid q.rid x (omega (arith, v.wid_in, v.room)) in
    (ground arith, ground (arith, slot), ground arith)

-- The call returns the position of the write before it.
kept_pointer : (l : Link) (n : ℕ) → (check_remote_size l n).0.rb.wr_pointer ≡ l.rb.wr_pointer
unfolding check_remote_size read_rd_remote
kept_pointer l n = ground arith

at_pointer :
    (l l' : Link) (mate : List ℕ) (d p : ℕ)
    → rb_write_mate l mate d ≡ (l', some p)
    → p ≡ l.rb.wr_pointer
unfolding rb_write_mate
at_pointer l l' mate d p h = ground (arith, h)

-- The log that `head_node_write_log` puts into `sending_queue`.
abbrev pub log_at : List ℕ → List ℕ → ℕ → Outgoing
log_at key value p = record {
  log_pos = p;
  key_length = length key + 1;
  value_length = length value + 1 + tag;
  value = tagged value;
}

-- What a log that `head_node_write_log` has written left.
record Written (s s' : Sender) (rest key value : List ℕ) : Type 0 where
  before : Link
  valid : IsLink before
  position : ℕ
  place : position ≡ s.link.rb.wr_pointer
  run :
      rb_write_mate before (mate_of key (length value + 2) rest) (length value + 2)
      ≡ (s'.link, some position)
  queued : put_queue s.sending (log_at key value position) ≡ (s'.sending, true)

module _ (s s' : Sender) (rest key value : List ℕ) (v : IsLink s.link) where
  abbrev pub checked : Link × Bool
  checked = check_remote_size s.link (entry_size + (length key + 1) + (length value + 1 + tag))

  abbrev pub sent : Link × Option ℕ
  sent =
      rb_write_mate checked.0 (mate_of key (length value + 1 + tag) rest) (length value + 1 + tag)

  -- The three ways through `head_node_write_log`.
  no_room : checked.1 ≡ false → (head_node_write_log s rest key value).1 ≡ false
  unfolding head_node_write_log
  no_room full = rw full refl

  not_sent : sent.1 ≡ none → (head_node_write_log s rest key value).1 ≡ false
  unfolding head_node_write_log
  not_sent broken = elim (Bool-cases checked.1) [
    | inl fits ↦ rw (fits, broken) refl
    | inr full ↦ rw full refl
  ]

  pub all_sent :
      (p : ℕ)
      → checked.1 ≡ true
      → sent.1 ≡ some p
      → let (q, queued) = put_queue s.sending (log_at key value p) in
        head_node_write_log s rest key value ≡ (record { link = sent.0; sending = q }, queued)
  unfolding head_node_write_log
  all_sent p fits there = rw (fits, there) refl

  head_node_write_log-Written :
      head_node_write_log s rest key value ≡ (s', true) → Written s s' rest key value
  head_node_write_log-Written h = elim (Bool-cases checked.1) [
    | inr full ↦ absurd (ground (arith, no_room full, ap (λ (t : Sender × Bool). t.1) h))
    | inl fits ↦ elim (Option-cases sent.1) [
      | inl broken ↦ absurd (ground (arith, not_sent broken, ap (λ (t : Sender × Bool). t.1) h))
      | inr (p, there) ↦
          (let whole = sym (all_sent p fits there) ∙ h in
            let two : length value + 2 ≡ length value + 1 + tag = omega arith in
            let run : sent ≡ (s'.link, some p) =
              ap (λ o. (sent.0, o)) there ∙ ap (λ (t : Sender × Bool). (t.0.link, some p)) whole in
            record {
              before = checked.0;
              valid = check_remote_size-IsLink s.link _ v;
              position = p;
              place = at_pointer _ _ _ _ p run ∙ kept_pointer s.link _;
              run = ap (λ n. rb_write_mate checked.0 (mate_of key n rest) n) two ∙ run;
              queued = ap (λ (t : Sender × Bool). (t.0.sending, t.1)) whole;
            })
    ]
  ]

-- A log at the head of the queue is what `NIC_thread` writes.
pub nic_step-first :
    (s : Sender) (log : Outgoing)
    → empty_queue s.sending ≡ false
    → top_queue s.sending ≡ some log
    → nic_step s ≡ record {
      link =
          rb_write_data s.link log.value
            (masked (log.log_pos + (entry_size + log.key_length)) (s.link.rb.size));
      sending = pop_queue s.sending;
    }
unfolding nic_step
nic_step-first s log some_left top = rw (some_left, top) refl

-- When `head_node_write_log` has taken a key and a value that hold no zero and whose lengths, with the
-- zeros and the tag, are below 2^31, over a valid link and with an empty, valid queue of logs to send,
-- the next node reads at the position of the write before the call an entry with this key; after the
-- next round of `NIC_thread` the value of this entry counts as arrived, the address that the entry is
-- given reads as the value, and the queue is empty again.
head_node_write_log-nic_step :
    (s s' : Sender) (rest key value : List ℕ) (blocks : Blocks)
    → IsLink s.link
    → IsValid s.sending
    → empty_queue s.sending ≡ true
    → IsText key
    → IsText value
    → length rest ≡ 24
    → length key + 1 < 2 ^ 31
    → length value + 2 < 2 ^ 31
    → head_node_write_log s rest key value ≡ (s', true)
    → let s'' = nic_step s' in
      (e : LogEntry × Blocks) × (read_entry (s'.link.peer) blocks (s.link.rb.wr_pointer) ≡ some e)
      × ((string_at s'.link.peer.buff e.1 (e.0.key_addr) ≡ key)
          × (let (e', blocks') = locate_value (s''.link.peer) e.1 e.0 in
              (value_arrived (s''.link.peer) e.0 ≡ true)
              × (string_at s''.link.peer.buff blocks' (e'.value_addr) ≡ value))
          × (empty_queue s''.sending ≡ true))
head_node_write_log-nic_step s s' rest key value blocks v q idle text body wide small short h =
    let w : Written s s' rest key value = head_node_write_log-Written s s' rest key value v h in
    let (e, found, (k, n, at, reads)) =
      rb_write_mate-read_entry w.before (s'.link) key rest (length value + 2) w.position w.valid
        text wide small short w.run blocks in
    let log : Outgoing = log_at key value w.position in
    let (some_left, top, emptied) = put_queue-first s.sending s'.sending log q idle w.queued in
    let (arrived, value_reads) =
      rb_write_data-locate_value w.before (s'.link) key value rest w.position e.0 e.1 w.valid body
        wide w.run (at, k, n) in
    let after : IsLink s'.link =
      rw (sym (ap (λ (t : Sender × Bool). t.0.link) h))
        (head_node_write_log-IsSender s rest key value (v, q)).0 in
    let mask = masked_lem after.sized (w.position + (entry_size + (length key + 1))) in
    rw (nic_step-first s' log some_left top, mask)
      (e, rw (sym w.place) found, (reads, (arrived, value_reads), emptied))
