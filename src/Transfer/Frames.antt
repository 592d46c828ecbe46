-- ===== src/Transfer/Frames.antt =====
-- src/mid_rdma_task.c, src/mid_rdma_cq_handler.c: the bytes of a message.
use native.Mathlib.Nat.{pow-suc}
use rdma_middleware.Prelude.{
  ℕ, zero, suc, ◌+◌, ◌-◌, ◌*◌, ◌/◌, ◌^◌, ◌≤◌, ◌<◌, ◌≡◌, ◌⊎◌, refl, ap, sym, ◌∙◌, List, [], ◌∷◌,
  ◌++◌, length, take, drop, arith, length-append, length-take, length-drop, get_or-append,
  get_or-take, get_or-drop, list_ext,
}
use rdma_middleware.Prelude.Memory.{write_at, read_at, length-write_at, get_or-write_at}
use rdma_middleware.Client.Addresses.{addr_bytes}
use rdma_middleware.Log.Texts.{append_cancel}
use rdma_middleware.Transfer.{Msg, number_of, read_msg}

pub length-addr_bytes : (n addr : ℕ) → length (addr_bytes n addr) ≡ n
unfolding addr_bytes
length-addr_bytes zero addr = refl
length-addr_bytes (suc n) addr = ap suc (length-addr_bytes n (addr / 256))

number_of-addr_bytes : (n addr : ℕ) → addr < 256 ^ n → number_of (addr_bytes n addr) ≡ addr
unfolding number_of addr_bytes
number_of-addr_bytes zero addr h = omega arith
number_of-addr_bytes (suc n) addr h =
    let whole : 256 ^ suc n ≡ 256 ^ n * 256 = pow-suc 256 n in
    let rest : addr / 256 < 256 ^ n = omega (arith, whole) in
    rw (number_of-addr_bytes n (addr / 256) rest) (omega arith)

-- What `dhmp_send_task_create` lays out.
abbrev pub frame : Msg → List ℕ
frame msg = addr_bytes 4 msg.msg_type ++ (addr_bytes 8 (length msg.body) ++ msg.body)

pub length-frame : (msg : Msg) → length (frame msg) ≡ 4 + 8 + length msg.body
length-frame msg = omega (
  arith,
  length-append (addr_bytes 4 msg.msg_type) (addr_bytes 8 (length msg.body) ++ msg.body),
  length-append (addr_bytes 8 (length msg.body)) msg.body,
  length-addr_bytes 4 msg.msg_type,
  length-addr_bytes 8 (length msg.body),
)

-- One copy behind another is one copy.
pub write_at-append :
    (mem : List ℕ) (pos : ℕ) (a b : List ℕ)
    → write_at (write_at mem pos a) (pos + length a) b ≡ write_at mem pos (a ++ b)
write_at-append mem pos a b =
    let once = write_at mem pos a in
    let one = length-write_at mem pos a in
    let two = length-write_at once (pos + length a) b in
    let both = length-write_at mem pos (a ++ b) in
    list_ext (write_at once (pos + length a) b) (write_at mem pos (a ++ b)) 0 (two ∙ one ∙ sym both)
      (λ i k. ground (
        arith,
        get_or-write_at once (pos + length a) b i,
        get_or-write_at mem pos a i,
        get_or-write_at mem pos (a ++ b) i,
        get_or-append a b (i - pos) 0,
        length-append a b,
        one,
        two,
        both,
      ))

pub length-read_at :
    (mem : List ℕ) (pos n : ℕ) → pos + n ≤ length mem → length (read_at mem pos n) ≡ n
length-read_at mem pos n h = omega (arith, length-take n (drop pos mem), length-drop pos mem)

-- A copied range reads as what was copied; a range beside it is as before.
pub read_at-write_at :
    (mem : List ℕ) (pos : ℕ) (src : List ℕ)
    → pos + length src ≤ length mem
    → read_at (write_at mem pos src) pos (length src) ≡ src
read_at-write_at mem pos src h =
    let new = write_at mem pos src in
    let size = length-write_at mem pos src in
    let same = length-read_at new pos (length src) (omega (arith, size)) in
    list_ext (read_at new pos (length src)) src 0 same (λ i k. ground (
      arith,
      get_or-take (length src) (drop pos new) i 0,
      get_or-drop pos new i 0,
      get_or-write_at mem pos src (pos + i),
      same,
    ))

pub read_at-write_at_apart :
    (mem : List ℕ) (pos : ℕ) (src : List ℕ) (q n : ℕ)
    → (q + n ≤ pos) ⊎ (pos + length src ≤ q)
    → q + n ≤ length mem
    → read_at (write_at mem pos src) q n ≡ read_at mem q n
read_at-write_at_apart mem pos src q n apart h =
    let new = write_at mem pos src in
    let size = length-write_at mem pos src in
    let one = length-read_at new q n (omega (arith, size)) in
    let two = length-read_at mem q n h in
    list_ext (read_at new q n) (read_at mem q n) 0 (one ∙ sym two) (λ i k. ground (
      arith,
      get_or-take n (drop q new) i 0,
      get_or-drop q new i 0,
      get_or-take n (drop q mem) i 0,
      get_or-drop q mem i 0,
      get_or-write_at mem pos src (q + i),
      one,
      two,
      apart,
    ))

drop-drop : (p a : ℕ) (mem : List ℕ) → drop a (drop p mem) ≡ drop (p + a) mem
drop-drop zero a mem = let e : 0 + a ≡ a = omega arith in rw e refl
drop-drop (suc p) a [] = let e : suc p + a ≡ suc (p + a) = omega arith in rw e (drop-nil a)
  where
    drop-nil : (a : ℕ) → drop {A = ℕ} a [] ≡ []
    drop-nil zero = refl
    drop-nil (suc a) = refl
drop-drop (suc p) a (b ∷ mem) =
    let e : suc p + a ≡ suc (p + a) = omega arith in rw e (drop-drop p a mem)

take-append : (a b : ℕ) (mem : List ℕ) → take (a + b) mem ≡ take a mem ++ take b (drop a mem)
take-append zero b mem = let e : 0 + b ≡ b = omega arith in rw e refl
take-append (suc a) b [] = let e : suc a + b ≡ suc (a + b) = omega arith in rw e (take-nil b)
  where
    take-nil : (b : ℕ) → [] ≡ take {A = ℕ} b []
    take-nil zero = refl
    take-nil (suc b) = refl
take-append (suc a) b (c ∷ mem) =
    let e : suc a + b ≡ suc (a + b) = omega arith in rw e (ap (λ t. c ∷ t) (take-append a b mem))

read_at-append :
    (mem : List ℕ) (pos a b : ℕ)
    → read_at mem pos (a + b) ≡ read_at mem pos a ++ read_at mem (pos + a) b
read_at-append mem pos a b =
    take-append a b (drop pos mem)
    ∙ ap (λ t. take a (drop pos mem) ++ take b t) (drop-drop pos a mem)

-- A buffer that holds the bytes of a message reads as this message.
pub read_msg-frame :
    (mem : List ℕ) (pos : ℕ) (msg : Msg)
    → msg.msg_type < 2 ^ 32
    → length msg.body < 2 ^ 64
    → pos + (4 + 8 + length msg.body) ≤ length mem
    → read_at mem pos (4 + 8 + length msg.body) ≡ frame msg
    → read_msg mem pos ≡ msg
unfolding read_msg
read_msg-frame mem pos msg small short inside h =
    let size = length msg.body in
    let n4 = length-addr_bytes 4 msg.msg_type in
    let n8 = length-addr_bytes 8 size in
    let whole : read_at mem pos (4 + (8 + size)) ≡ frame msg =
      ap (read_at mem pos) (omega arith) ∙ h in
    let (typed, rest) =
      append_cancel (read_at mem pos 4) (read_at mem (pos + 4) (8 + size))
        (addr_bytes 4 msg.msg_type) (addr_bytes 8 size ++ msg.body)
        (length-read_at mem pos 4 (omega arith) ∙ sym n4)
        (sym (read_at-append mem pos 4 (8 + size)) ∙ whole) in
    let (sized, rest_of) =
      append_cancel (read_at mem (pos + 4) 8) (read_at mem (pos + 4 + 8) size) (addr_bytes 8 size)
        msg.body (length-read_at mem (pos + 4) 8 (omega arith) ∙ sym n8)
        (sym (read_at-append mem (pos + 4) 8 size) ∙ rest) in
    rw
      (
        typed,
        sized,
        number_of-addr_bytes 4 msg.msg_type (omega arith),
        number_of-addr_bytes 8 size (omega arith),
        rest_of,
      )
      refl
