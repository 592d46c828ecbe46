-- ===== src/Log/Rounds.antt =====
-- src/log_buffer.c: what the calls of the reading thread leave of the node's ring and queues.
use native.Mathlib.Nat.{mod-lt}
use rdma_middleware.Prelude.{
  ℕ, zero, suc, ◌+◌, ◌<◌, ◌≡◌, ◌⊎◌, refl, ◌∙◌, Bool, inl, if-holds, ltb, arith, length,
}
use rdma_middleware.Queue.{put_queue, empty_queue, top_queue}
use rdma_middleware.Queue.Inv.{IsValid, put_queue-IsValid, pop_queue-IsValid}
use rdma_middleware.Prelude.Results.{Returns, bind-Returns, always}
use rdma_middleware.Log.Geometry.{
  IsSize, masked, masked_lem, size_pos, mate_data_size, rb_count_size,
}
use rdma_middleware.Log.Reader.{
  Receiver, LogEntry, head, tail, read_entry, mark_dirty, read_key, read_keys, read_log_key,
  unmark_dirty, next_offset, ptr_key,
}
use rdma_middleware.Log.Pipeline.{
  top_entry, read_value, send_log, free_log, clean_log, value_arrived, get_key_addr,
}

-- The ring but for the reader's own pointers, which stay in the ring, and the form of the queues.
pub record Kept (r r' : Receiver) : Type 0 where
  pub wr : r'.ring.rb.wr_pointer ≡ r.ring.rb.wr_pointer
  pub size : r'.ring.rb.size ≡ r.ring.rb.size
  pub buff : r'.ring.buff ≡ r.ring.buff
  pub rd : (r'.ring.rb.rd_pointer ≡ r.ring.rb.rd_pointer) ⊎ (r'.ring.rb.rd_pointer < r.ring.rb.size)
  pub pending : IsValid r.pending → IsValid r'.pending
  pub executing : IsValid r.executing → IsValid r'.executing
  pub sending : IsValid r.sending → IsValid r'.sending
  pub dirty : IsValid r.dirty → IsValid r'.dirty

Kept-refl : (r : Receiver) → Kept r r
Kept-refl r = record {
  wr = refl;
  size = refl;
  buff = refl;
  rd = inl refl;
  pending = λ q. q;
  executing = λ q. q;
  sending = λ q. q;
  dirty = λ q. q;
}

Kept-trans : (r s t : Receiver) → Kept r s → Kept s t → Kept r t
Kept-trans r s t k l = record {
  wr = l.wr ∙ k.wr;
  size = l.size ∙ k.size;
  buff = l.buff ∙ k.buff;
  rd = ground (arith, k.rd, l.rd, k.size);
  pending = λ q. l.pending (k.pending q);
  executing = λ q. l.executing (k.executing q);
  sending = λ q. l.sending (k.sending q);
  dirty = λ q. l.dirty (k.dirty q);
}

read_key-Kept :
    (r : Receiver) (pos : ℕ) → Returns (λ (t : Receiver × ℕ). Kept r t.0) (read_key r pos)
unfolding read_key
read_key-Kept r pos =
    let P = λ (t : Receiver × ℕ). Kept r t.0 in
    bind-Returns (λ _. Unit {0}) P (read_entry r.ring r.blocks pos) _ (always _)
      (λ e _.
        bind-Returns (λ _. Unit {0}) P
          (mark_dirty (ptr_key r.ring.buff e.1) r.dirty_map (e.0.key_addr)) _ (always _)
          (λ m _.
            if-holds (Returns P) (put_queue r.pending (length r.logs)).1 _ _
              (λ queued. record {
                wr = refl;
                size = refl;
                buff = refl;
                rd = inl refl;
                pending = put_queue-IsValid r.pending (length r.logs);
                executing = λ q. q;
                sending = λ q. q;
                dirty = put_queue-IsValid r.dirty (length r.logs);
              })
              (λ full. record {})))

read_keys-Kept :
    (limits : ℕ) (r : Receiver) (pos : ℕ)
    → Returns (λ (t : Receiver × ℕ × ℕ). Kept r t.0) (read_keys limits r pos)
unfolding read_keys
read_keys-Kept zero r pos = Kept-refl r
read_keys-Kept (suc limits) r pos =
    let P = λ (t : Receiver × ℕ × ℕ). Kept r t.0 in
    if-holds (Returns P) (ltb (rb_count_size (r.ring.rb) pos) mate_data_size) _ _
      (λ none_left. Kept-refl r)
      (λ more.
        bind-Returns (λ (s : Receiver × ℕ). Kept r s.0) P (read_key r pos) _ (read_key-Kept r pos)
          (λ s k.
            bind-Returns (λ (t : Receiver × ℕ × ℕ). Kept s.0 t.0) P (read_keys limits s.0 s.1) _
              (read_keys-Kept limits s.0 s.1) (λ t l. Kept-trans r s.0 t.0 k l)))

pub read_log_key-Kept :
    (limits : ℕ) (r : Receiver) → Returns (λ (t : Receiver × ℕ). Kept r t.0) (read_log_key limits r)
unfolding read_log_key
read_log_key-Kept limits r =
    bind-Returns (λ (t : Receiver × ℕ × ℕ). Kept r t.0) (λ (t : Receiver × ℕ). Kept r t.0)
      (read_keys limits r r.ring.rd_key_pointer) _ (read_keys-Kept limits r r.ring.rd_key_pointer)
      (λ t k. Kept-trans r t.0 _ k (moved t.0 t.1))
  where
    moved :
        (r : Receiver) (pos : ℕ)
        → Kept r (record r { ring = record (r.ring) { rd_key_pointer = pos } })
    moved r pos = record {
      wr = refl;
      size = refl;
      buff = refl;
      rd = inl refl;
      pending = λ q. q;
      executing = λ q. q;
      sending = λ q. q;
      dirty = λ q. q;
    }

pub read_value-Kept : (r : Receiver) → Returns (λ (t : Receiver × Bool). Kept r t.0) (read_value r)
unfolding read_value
read_value-Kept r =
    let P = λ (t : Receiver × Bool). Kept r t.0 in
    bind-Returns (λ _. Unit {0}) P (top_entry r r.pending) _ (always _)
      (λ t _.
        if-holds (Returns P) (value_arrived r.ring t.1) _ _
          (λ arrived.
            if-holds (Returns P) (put_queue r.executing t.0).1 _ _
              (λ queued. record {
                wr = refl;
                size = refl;
                buff = refl;
                rd = inl refl;
                pending = pop_queue-IsValid r.pending;
                executing = put_queue-IsValid r.executing t.0;
                sending = λ q. q;
                dirty = λ q. q;
              })
              (λ full. record {}))
          (λ missing. Kept-refl r))

pub send_log-Kept : (r : Receiver) → Returns (Kept r) (send_log r)
unfolding send_log
send_log-Kept r =
    if-holds (Returns (Kept r)) (empty_queue r.executing) _ _ (λ none_left. Kept-refl r)
      (λ some_left.
        bind-Returns (λ _. Unit {0}) (Kept r) (top_queue r.executing) _ (always _)
          (λ id _. record {
            wr = refl;
            size = refl;
            buff = refl;
            rd = inl refl;
            pending = λ q. q;
            executing = pop_queue-IsValid r.executing;
            sending = passed r id;
            dirty = λ q. q;
          }))
  where
    passed :
        (r : Receiver) (id : ℕ)
        → IsValid r.sending
        → IsValid (elim (r.node_class) [ tail ↦ r.sending | _ ↦ (put_queue r.sending id).0 ])
    passed r id q = let v = put_queue-IsValid r.sending id q in ground arith

pub clean_log-Kept : (r : Receiver) → IsSize (r.ring.rb.size) → Returns (Kept r) (clean_log r)
unfolding clean_log free_log
clean_log-Kept r sized =
    if-holds (Returns (Kept r)) (empty_queue r.dirty) _ _ (λ none_left. Kept-refl r)
      (λ some_left.
        bind-Returns (λ _. Unit {0}) (Kept r) (top_entry r r.dirty) _ (always _)
          (λ t _.
            bind-Returns (λ _. Unit {0}) (Kept r)
              (unmark_dirty (ptr_key r.ring.buff r.blocks) r.dirty_map (get_key_addr r t.1)) _
              (always _)
              (λ m _. record {
                wr = refl;
                size = refl;
                buff = refl;
                rd = released r t.1 sized;
                pending = λ q. q;
                executing = λ q. q;
                sending = λ q. q;
                dirty = pop_queue-IsValid r.dirty;
              })))
  where
    released :
        (r : Receiver) (e : LogEntry)
        → IsSize (r.ring.rb.size)
        → let rd : ℕ = elim (r.node_class) [
          | head ↦ r.ring.rb.rd_pointer
          | _ ↦ masked (r.ring.rb.rd_pointer + next_offset e) (r.ring.rb.size)
        ] in
          (rd ≡ r.ring.rb.rd_pointer) ⊎ (rd < r.ring.rb.size)
    released r e sized =
        let at = masked_lem sized (r.ring.rb.rd_pointer + next_offset e) in
        let short = mod-lt (r.ring.rb.rd_pointer + next_offset e) (size_pos sized) in
        ground (arith, at, short)
