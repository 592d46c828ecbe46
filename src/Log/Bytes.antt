-- ===== src/Log/Bytes.antt =====
-- include/log_copy.h, src/log_buffer.c: the bytes of a log. It is `logEntry` (its first eight bytes
-- are `logMateData`, two `int`s), then the key, then the value, both with their terminating zero,
-- then the tag byte 1 by which a reader sees that the value has arrived.
use rdma_middleware.Prelude.{
  ℕ, ◌+◌, ◌*◌, ◌/◌, ◌%◌, ◌^◌, ◌<◌, ◌≡◌, List, [], ◌∷◌, ◌++◌, length, get_or, arith, Bool, ◌==◌,
}
use rdma_middleware.Log.Geometry.{mate_data_size}

-- An `int` in memory, lowest byte first.
unfoldable pub int_bytes : ℕ → List ℕ
int_bytes n = n % 256 ∷ n / 256 % 256 ∷ n / 65536 % 256 ∷ n / 16777216 % 256 ∷ []

unfoldable pub int_at : List ℕ → ℕ → ℕ
int_at mem pos =
    get_or mem pos 0
    + 256 * get_or mem (pos + 1) 0
    + 65536 * get_or mem (pos + 2) 0
    + 16777216 * get_or mem (pos + 3) 0

-- The head of a log as `head_node_write_log` lays it out: the two lengths, and what the rest of the
-- entry happens to hold.
unfoldable pub entry_bytes : ℕ → ℕ → List ℕ → List ℕ
unfolding int_bytes
entry_bytes key_len value_len rest = int_bytes key_len ++ (int_bytes value_len ++ rest)

-- A C string with its terminating zero.
abbrev pub c_string : List ℕ → List ℕ
c_string s = s ++ (0 ∷ [])

-- The value with its zero and the tag.
abbrev pub tagged : List ℕ → List ℕ
tagged s = s ++ (0 ∷ 1 ∷ [])

-- `test_done`: whether the byte is the tag.
unfoldable pub test_done : ℕ → Bool
test_done b = b == 1

-- Two lengths below 2^31 are read back from the head of a log, whatever follows them.
pub int_at-entry_bytes :
    (key_len value_len : ℕ) (rest tail : List ℕ)
    → key_len < 2 ^ 31
    → value_len < 2 ^ 31
    → (int_at (entry_bytes key_len value_len rest ++ tail) 0 ≡ key_len)
      × (int_at (entry_bytes key_len value_len rest ++ tail) 4 ≡ value_len)
unfolding int_at entry_bytes
int_at-entry_bytes key_len value_len rest tail hk hv = (omega arith, omega arith)

pub length-entry_bytes :
    (key_len value_len : ℕ) (rest : List ℕ)
    → length (entry_bytes key_len value_len rest) ≡ mate_data_size + length rest
unfolding entry_bytes
length-entry_bytes key_len value_len rest = omega arith
