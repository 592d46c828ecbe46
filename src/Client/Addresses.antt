-- ===== src/Client/Addresses.antt =====
-- src/mid_client_work.c: the addresses that a client hands out. The top sixteen bits of the 64 hold
-- the index of the connection, the others the address on the server. Words are numbers below 2^64;
-- a `long long` is its residue.
use rdma_middleware.Prelude.{
  ℕ, zero, suc, ◌+◌, ◌-◌, ◌*◌, ◌/◌, ◌%◌, ◌^◌, ◌<◌, ◌≡◌, arith, Option, some, none, List, [], ◌∷◌,
  if◌then◌else◌, ltb, ◌==◌,
}
use rdma_middleware.Client.Murmur.{murmur_hash3_x86_32}

abbrev pub word : ℕ
word = 2 ^ 64

abbrev pub node_unit : ℕ
node_unit = 2 ^ 48

-- `addr >> 48` on a `long long`: the sign is kept.
unfoldable pub shifted : ℕ → ℕ
shifted addr = if ltb addr (2 ^ 63) then addr / node_unit else addr / node_unit + (word - 2 ^ 16)

-- The result is an `int`.
unfoldable pub dhmp_get_node_index_from_addr : ℕ → ℕ
dhmp_get_node_index_from_addr addr = shifted addr % 2 ^ 32

unfoldable pub dhmp_transfer_normal_addr : ℕ → ℕ
dhmp_transfer_normal_addr addr = (addr + (word - shifted addr * node_unit % word)) % word

-- The search loop of `dhmp_transfer_dhmp_addr`; it ends at the number of slots if no slot holds the
-- connection. A slot is `none` where the pointer is NULL.
unfoldable pub node_index : List (Option ℕ) → ℕ → ℕ
node_index [] trans = 0
node_index (none ∷ slots) trans = suc (node_index slots trans)
node_index (some t ∷ slots) trans = if t == trans then 0 else suc (node_index slots trans)

unfoldable pub dhmp_transfer_dhmp_addr : List (Option ℕ) → ℕ → ℕ → ℕ
dhmp_transfer_dhmp_addr slots trans addr =
    let index = node_index slots trans in
    if index == 0 then addr else (addr + index * node_unit % word) % word

-- `DHMP_CLIENT_HT_SIZE`
abbrev pub ht_size : ℕ
ht_size = 50000

-- The eight bytes of an address, lowest first.
unfoldable pub addr_bytes : ℕ → ℕ → List ℕ
addr_bytes zero addr = []
addr_bytes (suc n) addr = addr % 256 ∷ addr_bytes n (addr / 256)

unfoldable pub dhmp_hash_in_client : ℕ → ℕ
dhmp_hash_in_client addr =
    (murmur_hash3_x86_32 (addr_bytes 8 addr) % ht_size + ht_size) % 2 ^ 32 % ht_size

-- An address below 2^48 and a connection of one of the first 2^15 slots are both read back from the
-- address that is handed out.
pub transfer_roundtrip :
    (slots : List (Option ℕ)) (trans addr : ℕ)
    → addr < 2 ^ 48
    → node_index slots trans < 2 ^ 15
    → (dhmp_transfer_normal_addr (dhmp_transfer_dhmp_addr slots trans addr) ≡ addr)
      × (dhmp_get_node_index_from_addr (dhmp_transfer_dhmp_addr slots trans addr)
          ≡ node_index slots trans)
unfolding dhmp_transfer_normal_addr dhmp_get_node_index_from_addr dhmp_transfer_dhmp_addr shifted
transfer_roundtrip slots trans addr ha hi = (ground arith, ground arith)

pub shifted-transfer :
    (slots : List (Option ℕ)) (trans addr : ℕ)
    → addr < 2 ^ 48
    → node_index slots trans < 2 ^ 15
    → shifted (dhmp_transfer_dhmp_addr slots trans addr) ≡ node_index slots trans
unfolding dhmp_transfer_dhmp_addr shifted
shifted-transfer slots trans addr ha hi = ground arith
