-- ===== src/Log/Reserve.antt =====
-- src/log_buffer.c: `rb_write_mate` sends the head of a log and reserves the place of its value.
use rdma_middleware.Prelude.{
  ℕ, ◌+◌, ◌-◌, ◌%◌, ◌≤◌, ◌<◌, ◌≡◌, ap, true, false, Bool-cases, inl, inr, some, none, List, length,
  arith, if◌then◌else◌, ltb,
}
use rdma_middleware.Log.Window.{copy_in, mod_twice}
use rdma_middleware.Log.Geometry.{IsSize, gap, rb_free_size, rb_free_size_lem}
use rdma_middleware.Log.Writer.{
  Link, read_rd_remote, check_remote_size, write_buff, write_parts, advance, update_wr_local,
  update_wr_remote, send_mate, rb_write_mate,
}

-- A link to a ring that both ends agree on; the reader's pointer is the ring's own.
pub record IsLink (l : Link) : Type 0 where
  pub sized : IsSize (l.rb.size)
  pub wide : length l.peer.buff ≡ l.rb.size
  pub wr_in : l.rb.wr_pointer ≤ l.rb.size
  pub rd_in : l.peer.rb.rd_pointer ≤ l.rb.size
  pub agreed : (l.peer.rb.wr_pointer ≡ l.rb.wr_pointer) × (l.peer.rb.size ≡ l.rb.size)

-- The bytes that the ring holds and that the reader has not released.
abbrev pub used : Link → ℕ
used l = gap (l.rb.size) (l.rb.wr_pointer) (l.peer.rb.rd_pointer)

pub write_parts_lem :
    (l : Link) (pos : ℕ) (src : List ℕ)
    → l.connected ≡ true
    → write_parts l pos src
      ≡ record l { peer = record (l.peer) { buff = copy_in (l.rb.size) l.peer.buff pos src } }
unfolding write_parts write_buff copy_in
write_parts_lem l pos src on =
    rw on (elim (Bool-cases (ltb (l.rb.size) (pos + length src))) [ inl e ↦ rw e | inr e ↦ rw e ])

-- Going on by `len` bytes moves the position round, and fills as many.
pub advance-in : (size pos len : ℕ) → pos ≤ size → len ≤ size → advance size pos len ≤ size
unfolding advance
advance-in size pos len hp hl = ground arith

pub advance-mod :
    (size pos len : ℕ)
    → 0 < size
    → pos ≤ size
    → len < size
    → advance size pos len % size ≡ (pos + len) % size
unfolding advance
advance-mod size pos len h hp hl = ground (
  arith,
  mod_twice (pos + len) size (omega arith),
  mod_twice (len - (size - pos)) size (omega arith),
)

pub gap-advance :
    (size wr rd len : ℕ)
    → wr ≤ size
    → rd ≤ size
    → gap size wr rd + len < size
    → gap size (advance size wr len) rd ≡ gap size wr rd + len
unfolding advance
gap-advance size wr rd len hw hr h = ground arith

-- The sender's copy of the reader's pointer brought up to date.
abbrev pub refreshed : Link → Link
refreshed l = record l { rb = record (l.rb) { rd_pointer = l.peer.rb.rd_pointer } }

-- `check_remote_size` reads the reader's pointer, and tells whether so many bytes are free.
pub check_remote_size_lem :
    (l : Link) (n : ℕ)
    → IsLink l
    → check_remote_size l n
      ≡ (if l.connected then (refreshed l, ltb (used l + n) (l.rb.size)) else (l, false))
unfolding check_remote_size read_rd_remote
check_remote_size_lem l n v = elim (Bool-cases l.connected) [
  | inl on ↦ rw on (ap (λ b. (record (refreshed l) { connected = true }, b)) enough)
  | inr off ↦ rw off
]
  where
    enough :
        (if ltb (rb_free_size ((refreshed l).rb)) n then false else true)
        ≡ ltb (used l + n) (l.rb.size)
    enough = ground (
      arith,
      rb_free_size_lem ((refreshed l).rb)
          (record { sized = v.sized; wr_in = v.wr_in; rd_in = v.rd_in }),
    )

-- The link behind a head of `m` bytes and a reserved place of `d`, the ring's bytes being `buff`.
abbrev pub sent_link : Link → ℕ → ℕ → List ℕ → Link
sent_link l m d buff =
    let wr = advance (l.rb.size) (advance (l.rb.size) (l.rb.wr_pointer) m) d in
    record (refreshed l) {
      rb = record ((refreshed l).rb) { wr_pointer = wr };
      peer = record (l.peer) { rb = record (l.peer.rb) { wr_pointer = wr }; buff = buff };
    }

send_mate_lem :
    (l : Link) (mate : List ℕ) (d : ℕ)
    → l.connected ≡ true
    → l.rb.rd_pointer ≡ l.peer.rb.rd_pointer
    → send_mate l mate d
      ≡ sent_link l (length mate) d (copy_in (l.rb.size) l.peer.buff (l.rb.wr_pointer) mate)
unfolding send_mate update_wr_local update_wr_remote
send_mate_lem l mate d on fresh = rw (write_parts_lem l (l.rb.wr_pointer) mate on) (ground arith)

pub rb_write_mate_lem :
    (l : Link) (mate : List ℕ) (d : ℕ)
    → IsLink l
    → rb_write_mate l mate d ≡ (
        if l.connected
        then (if ltb (used l + (length mate + d)) (l.rb.size)
            then (
              sent_link l (length mate) d (copy_in (l.rb.size) l.peer.buff (l.rb.wr_pointer) mate),
              some (l.rb.wr_pointer),
            )
            else (refreshed l, none))
        else (l, none))
unfolding rb_write_mate
rb_write_mate_lem l mate d v =
    ground (arith, check_remote_size_lem l (length mate + d) v, send_mate_lem (refreshed l) mate d)
