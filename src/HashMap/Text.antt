-- ===== src/HashMap/Text.antt =====
-- src/mid_hashmap.c: `defaultHashCode` and `defaultEqual` on C strings. A string is its bytes before
-- the terminating zero.
use Prim.Native.Nat.{bit_and, bit_xor}
use native.Mathlib.Nat.{mod-lt}
use rdma_middleware.Prelude.{
  ℕ, ◌+◌, ◌-◌, ◌*◌, ◌/◌, ◌%◌, ◌^◌, ◌<◌, ◌≡◌, refl, ap, Bool, true, false, List, [], ◌∷◌, arith,
  if◌then◌else◌, ltb, ◌==◌, ◌&&◌,
}
use rdma_middleware.HashMap.Keys.{Key}

-- `*k` as the `unsigned long` that it is converted to: `char` is signed.
abbrev pub sign_extend : ℕ → ℕ
sign_extend c = if ltb c 128 then c else 2 ^ 64 - 256 + c

-- One round of the loop of `defaultHashCode`, on a 64-bit `unsigned long`.
unfoldable pub hash_step : ℕ → ℕ → ℕ
hash_step h c =
    let h₁ = (h * 16 + sign_extend c) % 2 ^ 64 in
    let g = bit_and h₁ 0xf000_0000 in
    let h₂ = if g == 0 then h₁ else bit_xor h₁ (g / 2 ^ 24) in bit_and h₂ (2 ^ 64 - 1 - g)

unfoldable pub hash_from : ℕ → List ℕ → ℕ
hash_from h [] = h
hash_from h (c ∷ k) = hash_from (hash_step h c) k

unfoldable pub default_hash_code : ℕ → List ℕ → ℕ
unfolding hash_from hash_step
default_hash_code list_size k = hash_from 0 k % list_size

-- `strcmp(key1, key2) == 0`
unfoldable pub default_equal : List ℕ → List ℕ → Bool
default_equal [] [] = true
default_equal (a ∷ s) (b ∷ t) = a == b && default_equal s t
default_equal _ _ = false

pub default_equal_refl : (s : List ℕ) → default_equal s s ≡ true
unfolding default_equal
default_equal_refl [] = refl
default_equal_refl (a ∷ s) = ground (arith, default_equal_refl s)

pub default_equal→eq : (s t : List ℕ) → default_equal s t ≡ true → s ≡ t
unfolding default_equal
default_equal→eq [] [] h = refl
default_equal→eq [] (b ∷ t) h = cc
default_equal→eq (a ∷ s) [] h = cc
default_equal→eq (a ∷ s) (b ∷ t) h = ground (arith, default_equal→eq s t)

pub hash-lt : (n : ℕ) (s : List ℕ) → 0 < n → default_hash_code n s < n
unfolding default_hash_code
hash-lt n s h = mod-lt (hash_from 0 s) h

-- The map's two functions by default.
unfoldable pub string_key : Key (List ℕ)
unfolding default_hash_code default_equal
string_key = record {
  equal = default_equal;
  hash = default_hash_code;
  equal_refl = default_equal_refl;
  equal_symm = λ a b h. symm a b h;
  equal_trans = λ a b c p q. trans a b c p q;
  hash_lt = hash-lt;
  hash_equal = λ n a b h. ap (default_hash_code n) (default_equal→eq a b h);
}
  where
    symm : (a b : List ℕ) → default_equal a b ≡ true → default_equal b a ≡ true
    symm a b h = rw (default_equal→eq a b h) (default_equal_refl b)

    trans :
        (a b c : List ℕ)
        → default_equal a b ≡ true
        → default_equal b c ≡ true
        → default_equal a c ≡ true
    trans a b c p q = rw (default_equal→eq a b p) q
