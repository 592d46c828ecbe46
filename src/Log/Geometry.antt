-- ===== src/Log/Geometry.antt =====
-- include/log_copy.h: the pointers of the ring buffer, `rb_data_size`, `rb_free_size` and
-- `rb_count_size`. An `int` that is never negative is a number; the difference of two pointers wraps
-- at 32 bits before it is masked.
use Prim.Native.Nat.{bit_and}
use native.Mathlib.Nat.{pow-suc}
use rdma_middleware.Prelude.{
  ℕ, zero, suc, ◌+◌, ◌-◌, ◌*◌, ◌%◌, ◌^◌, ◌≤◌, ◌<◌, ◌≡◌, ap, ◌∙◌, Bool-cases, inl, inr, arith,
  if◌then◌else◌, leb, ◌==◌, leb→le,
}
use rdma_middleware.Log.Window.{mod_twice}
use rdma_middleware.Prelude.Bits.{bit_and_mask, mod_unique, one-le-pow}

-- `TOTAL_SIZE`, `sizeof(logEntry)` and `sizeof(logMateData)` on a 64-bit machine, and `TAG`.
abbrev pub total_size : ℕ
total_size = 64

abbrev pub entry_size : ℕ
entry_size = 32

abbrev pub mate_data_size : ℕ
mate_data_size = 8

abbrev pub tag : ℕ
tag = 1

-- `Ringbuff`, the fields that the two kinds of ring share.
pub record Ringbuff : Type 0 where
  pub wr_pointer : ℕ
  pub rd_pointer : ℕ
  pub size : ℕ

-- `(a - b) & (size - 1)`
unfoldable pub masked_sub : ℕ → ℕ → ℕ → ℕ
masked_sub a b size = bit_and ((a + 2 ^ 32 - b) % 2 ^ 32) (size - 1)

-- `a & (size - 1)`
unfoldable pub masked : ℕ → ℕ → ℕ
masked a size = bit_and a (size - 1)

unfoldable pub rb_data_size : Ringbuff → ℕ
rb_data_size rb = masked_sub rb.wr_pointer rb.rd_pointer rb.size

unfoldable pub rb_free_size : Ringbuff → ℕ
rb_free_size rb = rb.size - 1 - rb_data_size rb

unfoldable pub rb_count_size : Ringbuff → ℕ → ℕ
rb_count_size rb pos = masked_sub rb.wr_pointer pos rb.size

-- A length that the mask fits: a power of two below 2 ^ 31.
pub record IsSize (size : ℕ) : Type 0 where
  pub log : ℕ
  pub small : log < 31
  pub is_pow : size ≡ 2 ^ log

-- The bytes from position `b` up to position `a`; positions run up to `size` itself, which names the
-- place 0.
abbrev pub gap : ℕ → ℕ → ℕ → ℕ
gap size a b = if leb b a then (if a - b == size then 0 else a - b) else a + size - b

pow-add : (i k : ℕ) → 2 ^ (i + k) ≡ 2 ^ i * 2 ^ k
pow-add zero k = let e : 0 + k ≡ k = omega arith in rw e (omega arith)
pow-add (suc i) k =
    let e : suc i + k ≡ suc (i + k) = omega arith in
    rw (e, pow-suc, pow-add i k, pow-suc) (omega arith)

module _ {size : ℕ} (p : IsSize size) where
  pub size_pos : 0 < size
  size_pos = rw p.is_pow (one-le-pow p.log)

  pub masked_lem : (a : ℕ) → masked a size ≡ a % size
  unfolding masked
  masked_lem a = rw p.is_pow (bit_and_mask p.log a)

  int_size : 2 ^ 32 ≡ 2 ^ (32 - p.log) * size
  int_size =
      let e : 32 ≡ 32 - p.log + p.log = omega (arith, p.small) in
      ap (λ t. 2 ^ t) e ∙ pow-add (32 - p.log) p.log ∙ rw p.is_pow

  pub size-le : size ≤ 2 ^ 30
  size-le =
      let e : 30 ≡ 30 - p.log + p.log = omega (arith, p.small) in
      let w : 2 ^ 30 ≡ 2 ^ (30 - p.log) * size =
        ap (λ t. 2 ^ t) e ∙ pow-add (30 - p.log) p.log ∙ rw p.is_pow in
      let one : 1 ≤ 2 ^ (30 - p.log) = one-le-pow (30 - p.log) in grind arith

  sub_below : (a b : ℕ) → a < b → b ≤ size → (a + 2 ^ 32 - b) % size ≡ a + size - b
  sub_below a b h hb =
      let q = 2 ^ (32 - p.log) in
      let one : 1 ≤ q = one-le-pow (32 - p.log) in
      let e : q ≡ suc (q - 1) = omega arith in
      let whole : 2 ^ 32 ≡ suc (q - 1) * size = int_size ∙ ap (λ t. t * size) e in
      let split : (q - 1) * size + size ≡ 2 ^ 32 = omega (arith, whole) in
      mod_unique (q - 1) size (a + size - b) (omega arith) (omega (arith, split))

  -- The masked difference of two positions is the way from the second up to the first.
  pub masked_sub_lem : (a b : ℕ) → a ≤ size → b ≤ size → masked_sub a b size ≡ gap size a b
  unfolding masked_sub
  masked_sub_lem a b ha hb =
      let x = (a + 2 ^ 32 - b) % 2 ^ 32 in
      let mask : bit_and x (size - 1) ≡ x % size = rw p.is_pow (bit_and_mask p.log x) in
      mask ∙ elim (Bool-cases (leb b a)) [
        | inl e ↦
            let near : x ≡ a - b = omega (arith, size-le, leb→le b a e) in
            rw (near, mod_twice (a - b) size (omega (arith, size_pos)), e) (ground arith)
        | inr e ↦
            let far : x ≡ a + 2 ^ 32 - b = ground (arith, size-le) in
            rw (far, e) (sub_below a b (ground arith) hb)
      ]

-- A ring whose pointers are positions.
pub record IsRing (rb : Ringbuff) : Type 0 where
  pub sized : IsSize rb.size
  pub wr_in : rb.wr_pointer ≤ rb.size
  pub rd_in : rb.rd_pointer ≤ rb.size

module _ (rb : Ringbuff) (v : IsRing rb) where
  pub rb_data_size_lem : rb_data_size rb ≡ gap rb.size rb.wr_pointer rb.rd_pointer
  unfolding rb_data_size
  rb_data_size_lem = masked_sub_lem v.sized rb.wr_pointer rb.rd_pointer v.wr_in v.rd_in

  pub rb_count_size_lem :
      (pos : ℕ) → pos ≤ rb.size → rb_count_size rb pos ≡ gap rb.size rb.wr_pointer pos
  unfolding rb_count_size
  rb_count_size_lem pos h = masked_sub_lem v.sized rb.wr_pointer pos v.wr_in h

  -- The bytes held, the free bytes and one place more make up the ring, whose pointers are positions.
  pub rb_free_size_lem :
      (rb_free_size rb + gap rb.size rb.wr_pointer rb.rd_pointer + 1 ≡ rb.size)
      × (rb_data_size rb + rb_free_size rb ≡ rb.size - 1)
  unfolding rb_free_size
  rb_free_size_lem = ground (arith, rb_data_size_lem, v.wr_in, v.rd_in, size_pos v.sized)
