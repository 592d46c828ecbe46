-- ===== src/Client/Murmur.antt =====
-- src/murmur3_hash.c, src/dhmp_hash.c: MurmurHash3 for 32 bits, over a list of bytes, on words that
-- wrap at 2^32. It is the function that `dhmp_hash_init` makes `hash`.
use Prim.Native.Nat.{bit_or, bit_xor}
use rdma_middleware.Prelude.{ℕ, ◌+◌, ◌-◌, ◌*◌, ◌/◌, ◌%◌, ◌^◌, List, [], ◌∷◌, length}

unfoldable pub rotl32 : ℕ → ℕ → ℕ
rotl32 x r = bit_or (x * 2 ^ r % 2 ^ 32) (x / 2 ^ (32 - r))

unfoldable pub fmix32 : ℕ → ℕ
fmix32 h =
    let h₁ = bit_xor h (h / 2 ^ 16) * 2246822507 % 2 ^ 32 in
    let h₂ = bit_xor h₁ (h₁ / 2 ^ 13) * 3266489909 % 2 ^ 32 in bit_xor h₂ (h₂ / 2 ^ 16)

-- The mixing of a block, in the loop and in the tail.
unfoldable pub mix_block : ℕ → ℕ
mix_block k = rotl32 (k * 3432918353 % 2 ^ 32) 15 * 461845907 % 2 ^ 32

-- The loop over the blocks of four bytes, then the switch on the bytes that are left.
unfoldable pub hash_blocks : ℕ → List ℕ → ℕ
hash_blocks h (a ∷ b ∷ c ∷ d ∷ bytes) =
    let k = a + 256 * b + 65536 * c + 16777216 * d in
    hash_blocks ((rotl32 (bit_xor h (mix_block k)) 13 * 5 + 3864292196) % 2 ^ 32) bytes
hash_blocks h (a ∷ b ∷ c ∷ []) =
    bit_xor h (mix_block (bit_xor (bit_xor (c * 2 ^ 16) (b * 2 ^ 8)) a))
hash_blocks h (a ∷ b ∷ []) = bit_xor h (mix_block (bit_xor (b * 2 ^ 8) a))
hash_blocks h (a ∷ []) = bit_xor h (mix_block a)
hash_blocks h [] = h

unfoldable pub murmur_hash3_x86_32 : List ℕ → ℕ
murmur_hash3_x86_32 bytes = fmix32 (bit_xor (hash_blocks 0 bytes) (length bytes % 2 ^ 32))
