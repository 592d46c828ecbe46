-- ===== src/Transfer/Sending.antt =====
-- src/mid_rdma_task.c, src/mid_rdma_transport.c: messages in the send region.
use rdma_middleware.Prelude.{
  ℕ, ◌+◌, ◌^◌, ◌≤◌, ◌<◌, ◌≡◌, refl, ap, ap₂, sym, ◌∙◌, inl, some, List, [], ◌∷◌, ◌++◌, map, length,
  arith, ltb, if◌then◌else◌, le→ltb_false,
}
use rdma_middleware.Prelude.Memory.{write_at, read_at, length-write_at}
use rdma_middleware.Client.Addresses.{addr_bytes}
use rdma_middleware.Transfer.{
  Msg, send_region_size, SendMr, Sge, dhmp_send_task_create, read_msg, send_all,
}
use rdma_middleware.Transfer.Frames.{
  frame, length-frame, length-addr_bytes, write_at-append, read_at-write_at, read_at-write_at_apart,
  read_msg-frame,
}

-- The number of a type is an `int`, the length a `size_t`.
pub record IsMsg (msg : Msg) : Type 0 where
  pub small : msg.msg_type < 2 ^ 32
  pub fits : 4 + 8 + length msg.body ≤ send_region_size

pub record IsRegion (mr : SendMr) : Type 0 where
  pub wide : length mr.bytes ≡ send_region_size
  pub inside : mr.cur_pos ≤ send_region_size

-- Where the next message of so many bytes goes.
abbrev pub place : SendMr → ℕ → ℕ
place mr len = if ltb send_region_size (mr.cur_pos + len) then 0 else mr.cur_pos

framed :
    (mem : List ℕ) (pos : ℕ) (msg : Msg)
    → write_at
        (write_at
          (write_at mem pos (addr_bytes 4 msg.msg_type))
          (pos + 4)
          (addr_bytes 8 (length msg.body)))
        (pos + 4 + 8)
        msg.body
      ≡ write_at mem pos (frame msg)
framed mem pos msg =
    let typed = addr_bytes 4 msg.msg_type in
    let sized = addr_bytes 8 (length msg.body) in
    let n4 = length-addr_bytes 4 msg.msg_type in
    let n8 = length-addr_bytes 8 (length msg.body) in
    ap₂ (λ a b. write_at (write_at (write_at mem pos typed) a sized) b msg.body)
      (ap (λ n. pos + n) (sym n4)) (ap₂ (λ n m. pos + n + m) (sym n4) (sym n8))
    ∙ write_at-append (write_at mem pos typed) (pos + length typed) sized msg.body
    ∙ write_at-append mem pos typed (sized ++ msg.body)

-- A message that the region can hold is laid out.
pub dhmp_send_task_create_lem :
    (mr : SendMr) (msg : Msg)
    → IsRegion mr
    → IsMsg msg
    → let len = 4 + 8 + length msg.body in
      dhmp_send_task_create mr msg
      ≡ some (
        record {
          cur_pos = place mr len + len;
          bytes = write_at mr.bytes (place mr len) (frame msg);
        },
        record { addr = place mr len; length = len },
      )
unfolding dhmp_send_task_create
dhmp_send_task_create_lem mr msg v m =
    let len = 4 + 8 + length msg.body in
    let room : place mr len + len ≤ send_region_size = ground (arith, m.fits) in
    rw (framed mr.bytes (place mr len) msg, le→ltb_false send_region_size (place mr len + len) room)
      refl

-- What a message that was laid out left: it reads back, its bytes lie inside the region and end at the
-- cursor, and what stands beside them is as before.
pub record Placed (mr : SendMr) (msg : Msg) (r : SendMr × Sge) : Type 0 where
  pub valid : IsRegion r.0
  pub read : read_msg r.0.bytes r.1.addr ≡ msg
  pub end : (r.1.addr + r.1.length ≡ r.0.cur_pos) × (r.1.length ≡ 4 + 8 + length msg.body)
  pub start : r.1.addr ≡ place mr (4 + 8 + length msg.body)

abbrev pub bytes_of : Msg → ℕ
bytes_of msg = 4 + 8 + length msg.body

laid : (mr : SendMr) (msg : Msg) → SendMr
laid mr msg = record {
  cur_pos = place mr (bytes_of msg) + bytes_of msg;
  bytes = write_at mr.bytes (place mr (bytes_of msg)) (frame msg);
}

-- The bytes of a message at a position read as this message.
framed-read_msg :
    (mr : SendMr) (pos : ℕ) (msg : Msg)
    → IsRegion mr
    → IsMsg msg
    → pos + bytes_of msg ≤ send_region_size
    → read_at mr.bytes pos (bytes_of msg) ≡ frame msg
    → read_msg mr.bytes pos ≡ msg
framed-read_msg mr pos msg v m room e =
    read_msg-frame mr.bytes pos msg m.small (omega (arith, m.fits)) (omega (arith, v.wide)) e

module _ (mr : SendMr) (msg : Msg) (v : IsRegion mr) (m : IsMsg msg) where
  room : place mr (bytes_of msg) + bytes_of msg ≤ send_region_size
  room = ground (arith, m.fits)

  laid-IsRegion : IsRegion (laid mr msg)
  unfolding laid
  laid-IsRegion = record {
    wide = length-write_at mr.bytes (place mr (bytes_of msg)) (frame msg) ∙ v.wide;
    inside = room;
  }

  laid-frame : read_at (laid mr msg).bytes (place mr (bytes_of msg)) (bytes_of msg) ≡ frame msg
  unfolding laid
  laid-frame =
      let long = length-frame msg in
      ap (read_at (laid mr msg).bytes (place mr (bytes_of msg))) (sym long)
      ∙ read_at-write_at mr.bytes (place mr (bytes_of msg)) (frame msg)
          (omega (arith, long, room, v.wide))

  laid-Placed :
      Placed mr msg (laid mr msg, record { addr = place mr (bytes_of msg); length = bytes_of msg })
  unfolding laid
  laid-Placed = record {
    valid = laid-IsRegion;
    read =
        framed-read_msg (laid mr msg) (place mr (bytes_of msg)) msg laid-IsRegion m room laid-frame;
    end = (refl, refl);
    start = refl;
  }

-- A message that the region can hold is laid out without running over the end, behind the last one or,
-- where there is no room behind it, at the start, and `dhmp_wc_success_handler` reads it back from
-- these bytes with its type and its data; the next one goes behind it.
dhmp_send_task_create-Placed :
    (mr : SendMr) (msg : Msg)
    → IsRegion mr
    → IsMsg msg
    → (r : SendMr × Sge) × (dhmp_send_task_create mr msg ≡ some r) × Placed mr msg r
unfolding laid
dhmp_send_task_create-Placed mr msg v m =
    (_, dhmp_send_task_create_lem mr msg v m, laid-Placed mr msg v m)

abbrev pub AreMsgs : List Msg → Type 0
AreMsgs [] = Unit {0}
AreMsgs (msg ∷ msgs) = IsMsg msg × AreMsgs msgs

abbrev pub total : List Msg → ℕ
total [] = 0
total (msg ∷ msgs) = bytes_of msg + total msgs

-- What the sending of messages leaves that need no turn to the start of the region.
pub record AllPlaced (mr : SendMr) (msgs : List Msg) (r : SendMr × List Sge) : Type 0 where
  pub valid : IsRegion r.0
  pub read : map (λ (t : Sge). read_msg r.0.bytes t.addr) r.1 ≡ msgs
  pub end : r.0.cur_pos ≡ mr.cur_pos + total msgs
  pub kept : (q n : ℕ) → q + n ≤ mr.cur_pos → read_at r.0.bytes q n ≡ read_at mr.bytes q n

-- Messages that fit behind one another are all laid out, and each of them still reads back when the last
-- has been sent; so do the messages that stood there before.
pub send_all-AllPlaced :
    (mr : SendMr) (msgs : List Msg)
    → IsRegion mr
    → AreMsgs msgs
    → mr.cur_pos + total msgs ≤ send_region_size
    → (r : SendMr × List Sge) × (send_all mr msgs ≡ some r) × AllPlaced mr msgs r
unfolding send_all laid
send_all-AllPlaced mr [] v ms h =
    ((mr, []), refl, record { valid = v; read = refl; end = omega arith; kept = λ q n i. refl })
send_all-AllPlaced mr (msg ∷ msgs) v (m, ms) h =
    let here : place mr (bytes_of msg) ≡ mr.cur_pos = ground arith in
    let mr1 : SendMr = laid mr msg in
    let next : mr1.cur_pos ≡ mr.cur_pos + bytes_of msg = omega (arith, here) in
    let v1 : IsRegion mr1 = laid-IsRegion mr msg v m in
    let (r, run, a) = send_all-AllPlaced mr1 msgs v1 ms (omega (arith, next)) in
    let pos : ℕ = place mr (bytes_of msg) in
    let sge : Sge = record { addr = pos; length = bytes_of msg } in
    let stays : read_at r.0.bytes pos (bytes_of msg) ≡ frame msg =
      a.kept pos (bytes_of msg) (omega (arith, next)) ∙ laid-frame mr msg v m in
    (
      (r.0, sge ∷ r.1),
      rw (dhmp_send_task_create_lem mr msg v m, run) refl,
      record {
        valid = a.valid;
        read =
            ap₂ (λ x xs. x ∷ xs) (framed-read_msg r.0 pos msg a.valid m (omega (arith, here)) stays)
              a.read;
        end = omega (arith, a.end, next);
        kept = λ q n i.
            a.kept q n (omega (arith, next))
            ∙ read_at-write_at_apart mr.bytes pos (frame msg) q n (inl (omega (arith, here)))
                (omega (arith, v.wide, v.inside));
      },
    )
