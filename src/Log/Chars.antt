-- ===== src/Log/Chars.antt =====
-- src/log_buffer.c: single bytes and copies of the ring by address, and the older `read_one_log`. An
-- address in the ring is its position. `none` is the code's `exit`, or a read past the ring.
use native.Mathlib.Nat.{mod-add-mod}
use rdma_middleware.Prelude.{
  ℕ, ◌+◌, ◌-◌, ◌%◌, ◌≤◌, ◌<◌, ◌≡◌, refl, ap, sym, ◌∙◌, Bool, true, false, ◌&&◌, Bool-cases, inl,
  inr, Option, some, none, List, [], ◌++◌, length, get_or, if◌then◌else◌, ltb, arith, ltb_false→le,
}
use rdma_middleware.Prelude.Memory.{read_at}
use rdma_middleware.HashMap.{int_limit}
use rdma_middleware.Log.Window.{copy_out_lem}
use rdma_middleware.Log.Geometry.{
  masked, masked_lem, rb_data_size, rb_count_size, rb_count_size_lem, gap, entry_size,
  mate_data_size,
}
use rdma_middleware.Log.Bytes.{int_at, test_done}
use rdma_middleware.Log.Writer.{LocalRingbuff}
use rdma_middleware.Log.Reader.{rb_read}
use rdma_middleware.Log.Texts.{copy_out-straight}
use rdma_middleware.Log.Read.{IsLocal, ring_window}

-- `next_byte` and `next_char`
unfoldable pub next_byte : LocalRingbuff → ℕ → ℕ
next_byte r pos = masked (pos + 1) (r.rb.size)

unfoldable pub next_char : LocalRingbuff → ℕ → ℕ
next_char r pos = get_or r.buff (masked (pos + 1) (r.rb.size)) 0

-- `index_char`
unfoldable pub index_char : LocalRingbuff → ℕ → ℕ → Option ℕ
index_char r pos offset =
    if ltb (rb_count_size (r.rb) pos) offset
    then none
    else some (get_or r.buff (masked (pos + offset) (r.rb.size)) 0)

-- `memcpy_buffer`, with the bytes at `dest` afterwards. The first part of a range that goes round is
-- copied from the start of the ring.
unfoldable pub memcpy_buffer : LocalRingbuff → ℕ → ℕ → Option (List ℕ)
memcpy_buffer r pos len =
    let left = r.rb.size - pos in
    if ltb (rb_count_size (r.rb) pos) len
    then none
    else if ltb (r.rb.size) (pos + len)
    then some (read_at r.buff 0 left ++ read_at r.buff 0 (len - left))
    else some (read_at r.buff pos len)

-- `read_one_log`, with its result and what is copied to `upperAddr`, which is not NULL. The tag is looked
-- for behind `rd_pointer` without going round. A length above INT_MAX is negative in the code.
unfoldable pub read_one_log : LocalRingbuff → Option (LocalRingbuff × Bool × Option (List ℕ))
read_one_log r =
    let head_bytes : List ℕ = elim ((rb_read r true none mate_data_size true).1) [
      | none ↦ []
      | some bytes ↦ bytes
    ] in
    let key_len = int_at head_bytes 0 in
    let value_len = int_at head_bytes 4 in
    let at = r.rb.rd_pointer + (entry_size + key_len + value_len - 1) in
    let skipped = (rb_read r false none (entry_size + key_len) false).0 in
    let read = rb_read skipped true none value_len false in
    if ltb (rb_data_size (r.rb)) mate_data_size
    then some (r, false, none)
    else if ltb at (length r.buff) && (ltb key_len int_limit && ltb value_len int_limit)
    then (if test_done (get_or r.buff at 0)
        then some (read.0, true, read.1)
        else some (r, false, none))
    else none

module _ (r : LocalRingbuff) (v : IsLocal r) where
  -- Up to as many bytes ahead as the ring holds behind a position, `index_char` finds the byte that
  -- `next_byte` leads to, one step for each, and reads it as it stands; farther ahead it ends the
  -- process.
  pub index_char-next_byte :
      (pos offset : ℕ)
      → pos ≤ r.rb.size
      → (index_char r pos offset ≡ (
          if ltb (gap (r.rb.size) (r.rb.wr_pointer) pos) offset
          then none
          else some (get_or r.buff ((pos + offset) % r.rb.size) 0)))
        × (next_byte r ((pos + offset) % r.rb.size) ≡ (pos + (offset + 1)) % r.rb.size)
        × (next_char r ((pos + offset) % r.rb.size)
            ≡ get_or r.buff ((pos + (offset + 1)) % r.rb.size) 0)
  unfolding index_char next_byte next_char
  index_char-next_byte pos offset h =
      let count = rb_count_size_lem (r.rb) v.ring pos h in
      let here : masked (pos + offset) (r.rb.size) ≡ (pos + offset) % r.rb.size =
        masked_lem v.ring.sized (pos + offset) in
      let next : masked ((pos + offset) % r.rb.size + 1) (r.rb.size)
          ≡ (pos + (offset + 1)) % r.rb.size =
        masked_lem v.ring.sized ((pos + offset) % r.rb.size + 1)
        ∙ mod-add-mod (pos + offset) (r.rb.size) 1
        ∙ ap (λ t. t % r.rb.size) (omega arith) in
      (rw (count, here) refl, next, ap (λ t. get_or r.buff t 0) next)

  in_place : (pos len : ℕ) → pos + len ≤ r.rb.size → read_at r.buff pos len ≡ ring_window r pos len
  in_place pos len h =
      sym (copy_out-straight (r.rb.size) r.buff pos len h)
      ∙ copy_out_lem (r.rb.size) r.buff v.wide pos len (omega arith) (omega arith)

  -- `memcpy_buffer` ends the process for more bytes than the ring holds behind the position. A range that
  -- ends in the ring is copied; of one that goes round the end, the first part is replaced by the
  -- ring's first bytes.
  pub memcpy_buffer_lem :
      (pos len : ℕ)
      → pos < r.rb.size
      → memcpy_buffer r pos len ≡ (
          if ltb (gap (r.rb.size) (r.rb.wr_pointer) pos) len
          then none
          else if ltb (r.rb.size) (pos + len)
          then some (ring_window r 0 (r.rb.size - pos) ++ ring_window r 0 (len - (r.rb.size - pos)))
          else some (ring_window r pos len))
  unfolding memcpy_buffer
  memcpy_buffer_lem pos len h =
      let size = r.rb.size in
      let ahead : ℕ = gap size (r.rb.wr_pointer) pos in
      let bound : ahead ≤ size = ground (arith, v.ring.wr_in) in
      rw (rb_count_size_lem (r.rb) v.ring pos (omega arith)) (elim (Bool-cases (ltb ahead len)) [
        | inl more ↦ rw more refl
        | inr enough ↦
            let fits : len ≤ ahead = ltb_false→le ahead len enough in
            rw enough (elim (Bool-cases (ltb size (pos + len))) [
              | inl round ↦
                  rw
                    (
                      round,
                      in_place 0 (size - pos) (omega arith),
                      in_place 0 (len - (size - pos)) (omega (arith, fits, bound)),
                    )
                    refl
              | inr straight ↦
                  rw (straight, in_place pos len (ltb_false→le size (pos + len) straight)) refl
            ])
      ])
