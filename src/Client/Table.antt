-- ===== src/Client/Table.antt =====
-- src/mid_client_work.c, include/dhmp.h: the client's table of the remote blocks it knows, and its
-- view of the servers' memory. An entry stands in its bucket by value: the program reaches it
-- through the table only.
use rdma_middleware.Prelude.{
  ℕ, zero, suc, ◌+◌, ◌-◌, ◌<◌, ◌≡◌, refl, ap, ap₂, ◌∙◌, inl, inr, Bool-cases, arith, Bool, false,
  Option, some, none, List, [], ◌∷◌, if◌then◌else◌, ltb, leb, ◌==◌, ◌&&◌, length, get_or,
}

-- `dhmp_addr_info`, with the two fields of `nvm_mr` that the client reads.
pub record AddrInfo : Type 0 where
  pub read_cnt : ℕ
  pub write_cnt : ℕ
  pub node_index : ℕ
  pub write_flag : Bool
  pub nvm_addr : ℕ
  pub nvm_length : ℕ

-- The loop of `dhmp_get_addr_info_from_ht`: the first entry of the bucket at this address. `none` is
-- NULL.
unfoldable pub find_addr : List AddrInfo → ℕ → Option AddrInfo
find_addr [] addr = none
find_addr (info ∷ chain) addr = if info.nvm_addr == addr then some info else find_addr chain addr

-- The entry that `find_addr` finds, changed in its place.
unfoldable pub modify_addr : (AddrInfo → AddrInfo) → List AddrInfo → ℕ → List AddrInfo
modify_addr f [] addr = []
modify_addr f (info ∷ chain) addr =
    if info.nvm_addr == addr then f info ∷ chain else info ∷ modify_addr f chain addr

-- The entry that `find_addr` finds, taken out by `hlist_del`.
unfoldable pub remove_addr : List AddrInfo → ℕ → List AddrInfo
remove_addr [] addr = []
remove_addr (info ∷ chain) addr =
    if info.nvm_addr == addr then chain else info ∷ remove_addr chain addr

abbrev pub Table : Type 0
Table = ℕ → List AddrInfo

unfoldable pub set_bucket : Table → ℕ → List AddrInfo → Table
set_bucket table i chain = λ j. if j == i then chain else table j

-- Nothing is being written.
abbrev pub IsIdle : List AddrInfo → Type 0
IsIdle [] = Unit {0}
IsIdle (info ∷ chain) = (info.write_flag ≡ false) × IsIdle chain

pub find_addr-idle :
    (chain : List AddrInfo) (addr : ℕ) (info : AddrInfo)
    → IsIdle chain
    → find_addr chain addr ≡ some info
    → info.write_flag ≡ false
unfolding find_addr
find_addr-idle [] addr info h e = absurd cc
find_addr-idle (x ∷ chain) addr info h e = ground (arith, find_addr-idle chain addr info h.1)

pub modify_addr-IsIdle :
    (f : AddrInfo → AddrInfo) (chain : List AddrInfo) (addr : ℕ)
    → ((info : AddrInfo) → (f info).write_flag ≡ info.write_flag)
    → IsIdle chain
    → IsIdle (modify_addr f chain addr)
unfolding modify_addr
modify_addr-IsIdle f [] addr k h = h
modify_addr-IsIdle f (x ∷ chain) addr k h = elim (Bool-cases (x.nvm_addr == addr)) [
  | inl here ↦ rw here (k x ∙ h.0, h.1)
  | inr next ↦ rw next (h.0, modify_addr-IsIdle f chain addr k h.1)
]

-- A mark that is taken back in the same entry.
pub modify_addr-settled :
    (f g : AddrInfo → AddrInfo) (chain : List AddrInfo) (addr : ℕ)
    → ((info : AddrInfo) → (f info).nvm_addr ≡ info.nvm_addr)
    → ((info : AddrInfo) → (g info).write_flag ≡ false)
    → IsIdle chain
    → IsIdle (modify_addr g (modify_addr f chain addr) addr)
unfolding modify_addr
modify_addr-settled f g [] addr k l h = h
modify_addr-settled f g (x ∷ chain) addr k l h =
    let moved : (f x).nvm_addr == addr ≡ (x.nvm_addr == addr) = ap (λ a. a == addr) (k x) in
    elim (Bool-cases (x.nvm_addr == addr)) [
      | inl here ↦ rw (here, moved ∙ here) (l (f x), h.1)
      | inr next ↦ rw (next, next) (h.0, modify_addr-settled f g chain addr k l h.1)
    ]

pub remove_addr-IsIdle :
    (chain : List AddrInfo) (addr : ℕ) → IsIdle chain → IsIdle (remove_addr chain addr)
unfolding remove_addr
remove_addr-IsIdle [] addr h = h
remove_addr-IsIdle (x ∷ chain) addr h = elim (Bool-cases (x.nvm_addr == addr)) [
  | inl here ↦ rw here h.1
  | inr next ↦ rw next (h.0, remove_addr-IsIdle chain addr h.1)
]

-- A change that keeps the address does not hide an entry.
pub find_addr-modify_addr :
    (f : AddrInfo → AddrInfo) (chain : List AddrInfo) (addr : ℕ) (info : AddrInfo)
    → ((i : AddrInfo) → (f i).nvm_addr ≡ i.nvm_addr)
    → find_addr chain addr ≡ some info
    → find_addr (modify_addr f chain addr) addr ≡ some (f info)
unfolding find_addr modify_addr
find_addr-modify_addr f [] addr info k e = absurd cc
find_addr-modify_addr f (x ∷ chain) addr info k e =
    ground (arith, k x, find_addr-modify_addr f chain addr info k)

-- The bytes at the servers, by connection and address.
abbrev pub Remote : Type 0
Remote = ℕ → ℕ → ℕ

-- What a one-sided write, or a copy by the server, leaves in its memory.
unfoldable pub remote_write : Remote → ℕ → ℕ → List ℕ → Remote
remote_write remote trans addr bytes = λ t a.
    if t == trans && (leb addr a && ltb a (addr + length bytes))
    then get_or bytes (a - addr) 0
    else remote t a

unfoldable pub remote_read : Remote → ℕ → ℕ → ℕ → List ℕ
remote_read remote trans addr zero = []
remote_read remote trans addr (suc len) =
    remote trans addr ∷ remote_read remote trans (suc addr) len

-- Bytes that agree with a list place by place are the list.
remote_read_lem :
    (remote : Remote) (trans addr : ℕ) (bytes : List ℕ)
    → ((i : ℕ) → i < length bytes → remote trans (addr + i) ≡ get_or bytes i 0)
    → remote_read remote trans addr (length bytes) ≡ bytes
unfolding remote_read
remote_read_lem remote trans addr [] h = refl
remote_read_lem remote trans addr (b ∷ bytes) h =
    ap₂ (λ x y. x ∷ y) (ap (remote trans) (omega arith) ∙ h 0 (omega arith))
      (remote_read_lem remote trans (suc addr) bytes
        (λ i k. ap (remote trans) (omega arith) ∙ h (suc i) (omega arith)))

-- What was written is read back.
pub remote_read-remote_write :
    (remote : Remote) (trans addr : ℕ) (bytes : List ℕ)
    → remote_read (remote_write remote trans addr bytes) trans addr (length bytes) ≡ bytes
unfolding remote_write
remote_read-remote_write remote trans addr bytes =
    remote_read_lem (remote_write remote trans addr bytes) trans addr bytes (λ i h. ground arith)
