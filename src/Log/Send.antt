-- ===== src/Log/Send.antt =====
-- src/log_buffer.c: what a reader finds in its ring after `rb_write_mate` and `rb_write_data`.
use native.Mathlib.Nat.{mod-lt, mod-mod, add_assoc}
use rdma_middleware.Prelude.{
  ◌&&◌, ltb, if◌then◌else◌, some, none, ℕ, ◌+◌, ◌-◌, ◌%◌, ◌≤◌, ◌<◌, ◌≡◌, refl, ap, ap₂, sym, ◌∙◌,
  true, some, none, List, ◌++◌, length, arith, if◌then◌else◌, ltb,
}
use rdma_middleware.Log.Window.{
  copy_in, window, length-copy_in, window-copy_in_self, window-copy_in_before, mod_twice,
  window-append, window_shift, mod_shift,
}
use rdma_middleware.Log.Geometry.{gap, size_pos}
use rdma_middleware.Log.Writer.{Link, advance, rb_write_mate, rb_write_data}
use rdma_middleware.Log.Reserve.{
  IsLink, used, sent_link, write_parts_lem, advance-in, advance-mod, gap-advance, rb_write_mate_lem,
}

-- The bytes of the reader's ring from a position on.
abbrev pub peer_window : Link → ℕ → ℕ → List ℕ
peer_window l pos n = window (l.rb.size) l.peer.buff pos n

-- A successful call was connected and found the room.
sent_of :
    (l l' : Link) (mate : List ℕ) (d p : ℕ)
    → IsLink l
    → rb_write_mate l mate d ≡ (l', some p)
    → (l' ≡ sent_link l (length mate) d (copy_in (l.rb.size) l.peer.buff (l.rb.wr_pointer) mate))
      × (p ≡ l.rb.wr_pointer)
      × (l.connected ≡ true)
      × (used l + (length mate + d) < l.rb.size)
sent_of l l' mate d p v h = ground (arith, rb_write_mate_lem l mate d v)

-- What a successful `rb_write_mate` of `mate` at `p`, with a place of `d` bytes behind it, did.
pub record Sent (l : Link) (mate : List ℕ) (d p : ℕ) (l' : Link) : Type 0 where
  pub valid : IsLink l'
  pub connected : l'.connected ≡ true
  pub at : (p ≡ l.rb.wr_pointer) × (l'.rb.size ≡ l.rb.size)
  pub released : l'.peer.rb.rd_pointer ≡ l.peer.rb.rd_pointer
  pub head : peer_window l' p (length mate) ≡ mate
  pub unread :
      peer_window l' (l.peer.rb.rd_pointer) (used l) ≡ peer_window l (l.peer.rb.rd_pointer) (used l)
  pub reserved : peer_window l' (p + length mate) d ≡ peer_window l (p + length mate) d
  pub grown : used l' ≡ used l + (length mate + d)
  pub fitted : used l + (length mate + d) < l.rb.size

-- The bytes in use end at the writer's pointer.
pub behind :
    (l : Link)
    → IsLink l
    → used l < l.rb.size
    → l.rb.wr_pointer % l.rb.size ≡ (l.peer.rb.rd_pointer + used l) % l.rb.size
behind l v h = ground (
  arith,
  mod_twice (l.rb.wr_pointer) (l.rb.size),
  mod_twice (l.peer.rb.rd_pointer + used l) (l.rb.size),
  v.wr_in,
  v.rd_in,
)

-- Going on to the end of the ring and `m` bytes less than a whole round leads back.
pub back :
    (size wr m : ℕ)
    → wr ≤ size
    → 0 < m
    → m < size
    → wr % size ≡ (advance size wr m + (size - m)) % size
unfolding advance
back size wr m hw hm hs =
    ground (arith, mod_twice wr size, mod_twice (advance size wr m + (size - m)) size)

sent_link-Sent :
    (l : Link) (mate : List ℕ) (d : ℕ)
    → IsLink l
    → l.connected ≡ true
    → 0 < length mate
    → used l + (length mate + d) < l.rb.size
    → Sent l mate d
        (l.rb.wr_pointer)
        (sent_link l (length mate) d (copy_in (l.rb.size) l.peer.buff (l.rb.wr_pointer) mate))
sent_link-Sent l mate d v on some_bytes fits =
    let size = l.rb.size in
    let wr = l.rb.wr_pointer in
    let rd = l.peer.rb.rd_pointer in
    let m = length mate in
    let mid = advance size wr m in
    let once : gap size mid rd ≡ used l + m =
      gap-advance size wr rd m v.wr_in v.rd_in (omega arith) in
    let mid_in : mid ≤ size = advance-in size wr m v.wr_in (omega arith) in
    record {
      valid = record {
        sized = v.sized;
        wide = length-copy_in size l.peer.buff v.wide wr mate;
        wr_in = advance-in size mid d mid_in (omega arith);
        rd_in = v.rd_in;
        agreed = (refl, v.agreed.1);
      };
      connected = on;
      at = (refl, refl);
      released = refl;
      head = window-copy_in_self size l.peer.buff v.wide wr mate v.wr_in (omega arith);
      unread =
          window-copy_in_before size l.peer.buff v.wide wr rd (used l) (used l) mate v.wr_in v.rd_in
            (omega arith) (omega arith) (omega arith) (behind l v (omega arith));
      reserved =
          window_shift size (copy_in size l.peer.buff wr mate) (wr + m) mid d
            (sym (advance-mod size wr m (size_pos v.sized) v.wr_in (omega arith)))
          ∙ window-copy_in_before size l.peer.buff v.wide wr mid (size - m) d mate v.wr_in mid_in
              (omega arith) (omega arith) (omega arith)
              (back size wr m v.wr_in some_bytes (omega arith))
          ∙ window_shift size l.peer.buff mid (wr + m) d
              (advance-mod size wr m (size_pos v.sized) v.wr_in (omega arith));
      grown = gap-advance size mid rd d mid_in v.rd_in (omega (arith, once)) ∙ omega (arith, once);
      fitted = fits;
    }

-- A successful `rb_write_mate` leaves the head in the ring at the position it returns, reserves the
-- place of the value behind it, and touches neither that place nor the bytes not yet released.
pub rb_write_mate-Sent :
    (l l' : Link) (mate : List ℕ) (d p : ℕ)
    → IsLink l
    → 0 < length mate
    → rb_write_mate l mate d ≡ (l', some p)
    → Sent l mate d p l'
rb_write_mate-Sent l l' mate d p v some_bytes h =
    let (link, at, on, fits) = sent_of l l' mate d p v h in
    rw (link, at) (sent_link-Sent l mate d v on some_bytes fits)

-- `rb_write_mate` succeeds exactly when the peer is connected and has room for both parts and one
-- byte more, and returns the writer's position; otherwise the reader's ring is as before.
pub rb_write_mate_outcome :
    (l : Link) (mate : List ℕ) (d : ℕ)
    → IsLink l
    → let (l', result) = rb_write_mate l mate d in
      (result ≡ (
        if l.connected && ltb (used l + (length mate + d)) (l.rb.size)
        then some (l.rb.wr_pointer)
        else none))
      × ((elim result [ none ↦ l'.peer | some p ↦ l.peer ]) ≡ l.peer)
rb_write_mate_outcome l mate d v =
    (ground (arith, rb_write_mate_lem l mate d v), ground (arith, rb_write_mate_lem l mate d v))

-- A log as `head_node_write_log` and `NIC_thread` send it: first its head, then its value at the
-- reserved place. The reader's ring then holds the head and the value one behind the other, and the
-- bytes that were not yet released are as before.
pub rb_write_data-after_mate :
    (l l' : Link) (mate value : List ℕ) (p : ℕ)
    → IsLink l
    → 0 < length mate
    → rb_write_mate l mate (length value) ≡ (l', some p)
    → let l'' = rb_write_data l' value ((p + length mate) % l'.rb.size) in
      (peer_window l'' p (length mate + length value) ≡ mate ++ value)
      × (peer_window l'' (l.peer.rb.rd_pointer) (used l)
          ≡ peer_window l (l.peer.rb.rd_pointer) (used l))
      × (used l'' ≡ used l + (length mate + length value))
unfolding rb_write_data
rb_write_data-after_mate l l' mate value p v some_bytes h =
    let s = rb_write_mate-Sent l l' mate (length value) p v some_bytes h in
    let size = l'.rb.size in
    let pos = (p + length mate) % size in
    let here : pos < size = mod-lt (p + length mate) (size_pos s.valid.sized) in
    let p_in : p ≤ size = omega (arith, s.at, v.wr_in) in
    let buff = l'.peer.buff in
    let rd = l.peer.rb.rd_pointer in
    let same : pos % size ≡ (p + length mate) % size = mod-mod (p + length mate) size in
    let end : p % size ≡ (rd + used l) % size =
      rw (s.at.0, s.at.1) (behind l v (omega (arith, s.fitted))) in
    let far : pos % size ≡ (rd + (used l + length mate)) % size =
      same
      ∙ mod_shift p (rd + used l) (length mate) size end
      ∙ ap (λ t. t % size) (add_assoc rd (used l) (length mate)) in
    let room : used l + (length mate + length value) < size = omega (arith, s.at, s.fitted) in
    rw (write_parts_lem l' pos value s.connected) (
      window-append size (copy_in size buff pos value) p (length mate) (length value)
          ∙ ap₂ ◌++◌
              (window-copy_in_before size buff s.valid.wide pos p (length mate) (length mate) value
                  (omega (arith, here)) p_in (omega arith) (omega (arith, room))
                  (omega (arith, room)) same
                ∙ s.head)
              (window_shift size (copy_in size buff pos value) (p + length mate) pos (length value)
                  (sym same)
                ∙ window-copy_in_self size buff s.valid.wide pos value (omega (arith, here))
                    (omega (arith, room))),
      (window-copy_in_before size buff s.valid.wide pos rd (used l + length mate) (used l) value
            (omega (arith, here)) (omega (arith, v.rd_in, s.at)) (omega arith) (omega (arith, room))
            (omega (arith, room)) far)
          ∙ s.unread,
      s.grown,
    )
