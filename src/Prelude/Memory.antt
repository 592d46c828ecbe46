-- ===== src/Prelude/Memory.antt =====
-- Byte memory as a list: `memcpy`, `memset`, and reads of a range.
use Prim.Native.Nat.{ℕ, zero, suc, ◌+◌, ◌-◌, ◌<◌}
use mathlib.Core.Path.{◌≡◌, refl, ap}
use mathlib.Core.List.{List, [], ◌∷◌}
use mathlib.Core.Bool.{◌&&◌}
use native.Mathlib.Omega.{arith}
use rdma_middleware.Prelude.Tests.{ltb, leb, if◌then◌else◌}
use rdma_middleware.Prelude.Lists.{length, get_or, take, drop}

-- The bytes `src` copied to address `pos`; what would fall outside the memory is dropped.
unfoldable pub write_at : List ℕ → ℕ → List ℕ → List ℕ
write_at [] pos src = []
write_at (x ∷ mem) pos [] = x ∷ mem
write_at (x ∷ mem) zero (b ∷ src) = b ∷ write_at mem zero src
write_at (x ∷ mem) (suc pos) src = x ∷ write_at mem pos src

-- The `len` bytes at address `pos`.
abbrev pub read_at : List ℕ → ℕ → ℕ → List ℕ
read_at mem pos len = take len (drop pos mem)

pub length-write_at :
    (mem : List ℕ) (pos : ℕ) (src : List ℕ) → length (write_at mem pos src) ≡ length mem
unfolding write_at
length-write_at [] pos src = refl
length-write_at (x ∷ mem) pos [] = refl
length-write_at (x ∷ mem) zero (b ∷ src) = ap suc (length-write_at mem zero src)
length-write_at (x ∷ mem) (suc pos) (b ∷ src) = ap suc (length-write_at mem pos (b ∷ src))

-- Inside the copied range a read sees the source, outside it sees the old memory.
pub get_or-write_at :
    (mem : List ℕ) (pos : ℕ) (src : List ℕ) (j : ℕ)
    → j < length mem
    → get_or (write_at mem pos src) j 0
      ≡ (if leb pos j && ltb j (pos + length src) then get_or src (j - pos) 0 else get_or mem j 0)
unfolding write_at
get_or-write_at [] pos src j h = absurd (omega arith)
get_or-write_at (x ∷ mem) pos [] j h = ground arith
get_or-write_at (x ∷ mem) zero (b ∷ src) zero h = ground arith
get_or-write_at (x ∷ mem) zero (b ∷ src) (suc j) h =
    ground (arith, get_or-write_at mem zero src j (omega arith))
get_or-write_at (x ∷ mem) (suc pos) (b ∷ src) zero h = ground arith
get_or-write_at (x ∷ mem) (suc pos) (b ∷ src) (suc j) h =
    ground (arith, get_or-write_at mem pos (b ∷ src) j (omega arith))
