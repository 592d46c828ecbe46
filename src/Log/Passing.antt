-- ===== src/Log/Passing.antt =====
-- src/log_buffer.c: a node in the middle of the chain, whose `NIC_thread` takes the logs that `send_log` has
-- passed on, and the ring of the node behind it.
use rdma_middleware.Prelude.{
  ℕ, zero, suc, ◌+◌, ◌-◌, ◌<◌, ◌≡◌, refl, ap, ◌∙◌, Bool, Bool-cases, inl, inr, Option, none, some,
  List, [], length, take, drop, ltb, arith, if◌then◌else◌,
}
use rdma_middleware.Queue.{pop_queue, empty_queue, top_queue}
use rdma_middleware.Prelude.Results.{◌>>=◌, Returns, bind-Returns, always, Returns-some}
use rdma_middleware.Log.Geometry.{masked, rb_count_size, mate_data_size}
use rdma_middleware.Log.Writer.{LocalRingbuff, Link, write_buff, write_parts, rb_write_data}
use rdma_middleware.Log.Reader.{
  null, LogEntry, Receiver, bytes_at, value_offset, read_log_key, read_keys,
}
use rdma_middleware.Log.Pipeline.{entry_at, read_value, send_log, clean_log}

-- The globals of the node, with its view of the next one.
pub record Middle : Type 0 where
  pub receiver : Receiver
  pub onward : Link

-- The `VALUE_LEN` bytes at `value_addr`; NULL has none.
unfoldable pub value_of : Receiver → LogEntry → Option (List ℕ)
value_of r e =
    let bytes : List ℕ = take e.value_length (bytes_at r.ring.buff r.blocks e.value_addr) in
    elim (e.value_addr) [ null ↦ none | _ ↦ some bytes ]

-- One round of `NIC_thread`; `none` is the use of a freed log or of NULL.
unfoldable pub forward : Middle → Option Middle
forward m =
    let r : Receiver = m.receiver in
    let sent = top_queue r.sending >>= λ (id : ℕ). entry_at r id >>= λ (e : LogEntry).
    value_of r e >>= λ (src : List ℕ). some (record {
      receiver = record r { sending = pop_queue r.sending };
      onward = rb_write_data m.onward src (masked (e.log_pos + value_offset e) m.onward.rb.size);
    }) in
    if empty_queue r.sending then some m else sent

-- A turn of one of the node's threads, a write of the node before into its ring, or a change of the
-- connection to the node behind.
pub data MiddleStep (m n : Middle) : Type 0 where
  arrived :
      (ring : LocalRingbuff)
      → n ≡ record m { receiver = record (m.receiver) { ring = ring } }
      → MiddleStep m n
  take_keys :
      (limits k : ℕ) (r : Receiver)
      → read_log_key limits m.receiver ≡ some (r, k)
      → n ≡ record m { receiver = r }
      → MiddleStep m n
  take_value :
      (found : Bool) (r : Receiver)
      → read_value m.receiver ≡ some (r, found)
      → n ≡ record m { receiver = r }
      → MiddleStep m n
  pass_log :
      (r : Receiver) → send_log m.receiver ≡ some r → n ≡ record m { receiver = r } → MiddleStep m n
  drop_log :
      (r : Receiver)
      → clean_log m.receiver ≡ some r
      → n ≡ record m { receiver = r }
      → MiddleStep m n
  send_value : forward m ≡ some n → MiddleStep m n
  connection :
      (b : Bool) → n ≡ record m { onward = record (m.onward) { connected = b } } → MiddleStep m n

pub data MiddleReach (m : Middle) : Middle → Type 0 where
  here : MiddleReach m m
  next : {n k : Middle} → MiddleReach m n → MiddleStep n k → MiddleReach m k

-- The ring of the next node but for its bytes.
abbrev pointers : Link → LocalRingbuff
pointers l = record (l.peer) { buff = [] }

write_buff-pointers :
    (l : Link) (pos : ℕ) (src : List ℕ) → pointers (write_buff l pos src) ≡ pointers l
unfolding write_buff
write_buff-pointers l pos src = ground arith

rb_write_data-pointers :
    (l : Link) (src : List ℕ) (pos : ℕ) → pointers (rb_write_data l src pos) ≡ pointers l
unfolding rb_write_data write_parts
rb_write_data-pointers l src pos =
    let left = l.rb.size - pos in
    elim (Bool-cases (ltb l.rb.size (pos + length src))) [
      | inl e ↦ rw e (
          write_buff-pointers (write_buff l pos (take left src)) 0 (drop left src)
          ∙ write_buff-pointers l pos (take left src))
      | inr e ↦ rw e (write_buff-pointers l pos src)
    ]

forward-pointers :
    (m : Middle) → Returns (λ (n : Middle). pointers n.onward ≡ pointers m.onward) (forward m)
unfolding forward
forward-pointers m =
    let r : Receiver = m.receiver in
    let Kept : Middle → Type 0 = λ n. pointers n.onward ≡ pointers m.onward in
    elim (Bool-cases (empty_queue r.sending)) [
      | inl none_left ↦ rw none_left refl
      | inr some_left ↦ rw some_left (
          bind-Returns (λ _. Unit {0}) Kept (top_queue r.sending) _ (always _)
            (λ id _.
              bind-Returns (λ _. Unit {0}) Kept (entry_at r id) _ (always _)
                (λ e _.
                  bind-Returns (λ _. Unit {0}) Kept (value_of r e) _ (always _)
                    (λ src _.
                      rb_write_data-pointers m.onward src
                        (masked (e.log_pos + value_offset e) m.onward.rb.size)))))
    ]

step-pointers : (m n : Middle) → MiddleStep m n → pointers n.onward ≡ pointers m.onward
step-pointers m n (arrived ring e) = ap (λ (x : Middle). pointers x.onward) e
step-pointers m n (take_keys limits k r h e) = ap (λ (x : Middle). pointers x.onward) e
step-pointers m n (take_value found r h e) = ap (λ (x : Middle). pointers x.onward) e
step-pointers m n (pass_log r h e) = ap (λ (x : Middle). pointers x.onward) e
step-pointers m n (drop_log r h e) = ap (λ (x : Middle). pointers x.onward) e
step-pointers m n (send_value e) =
    Returns-some (λ (x : Middle). pointers x.onward ≡ pointers m.onward) (forward m) n e
      (forward-pointers m)
step-pointers m n (connection b e) = ap (λ (x : Middle). pointers x.onward) e

reach-pointers : (m n : Middle) → MiddleReach m n → pointers n.onward ≡ pointers m.onward
reach-pointers m n here = refl
reach-pointers m n (next {n = k} r s) = step-pointers k n s ∙ reach-pointers m k r

no_key :
    (r : Receiver) (limits : ℕ)
    → rb_count_size r.ring.rb r.ring.rd_key_pointer < mate_data_size
    → read_log_key limits r ≡ some (r, 0)
unfolding read_log_key read_keys
no_key r zero little = refl
no_key r (suc limits) little = ground (arith, little)

-- Whatever the threads of a node in the middle do, in any order, and whatever comes from the node before,
-- the node behind it finds no log: if its ring holds too little for the head of a log, from its pointer of
-- the keys on, `read_log_key` there still reads no key, and changes nothing.
pub read_log_key-MiddleReach :
    (m n : Middle) (behind : Receiver) (limits : ℕ)
    → MiddleReach m n
    → rb_count_size m.onward.peer.rb m.onward.peer.rd_key_pointer < mate_data_size
    → behind.ring ≡ n.onward.peer
    → read_log_key limits behind ≡ some (behind, 0)
read_log_key-MiddleReach m n behind limits reach little same =
    let size : LocalRingbuff → ℕ = λ x. rb_count_size x.rb x.rd_key_pointer in
    let as_before : size behind.ring ≡ size m.onward.peer =
      ap size same ∙ ap size (reach-pointers m n reach) in
    no_key behind limits (omega (arith, little, as_before))
