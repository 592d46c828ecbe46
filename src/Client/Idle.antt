-- ===== src/Client/Idle.antt =====
-- src/mid_client_work.c: the waits on `write_flag`, which one thread sets and resets.
use rdma_middleware.Prelude.{
  ℕ, ◌+◌, ◌%◌, ◌≡◌, refl, arith, true, false, Bool-cases, Option-cases, inl, inr, Option, some,
  none, List, [], ◌∷◌, ◌==◌, ◌^◌, ◌<◌, ap, ◌∙◌, length, take,
}
use rdma_middleware.Prelude.Memory.{write_at}
use rdma_middleware.Client.Addresses.{word, dhmp_hash_in_client}
use rdma_middleware.Client.Table.{
  AddrInfo, set_bucket, IsIdle, find_addr-idle, modify_addr-IsIdle, modify_addr-settled,
  remote_write, remote_read,
}
use rdma_middleware.Client.Works.{
  Client, dhmp_get_addr_info_from_ht, dhmp_addr_info_insert_ht, update_info, dhmp_read_work_handler,
  dhmp_write_work_handler, bump_read, bump_write, set_flag, completes, request_length,
}

pub take-length : (xs : List ℕ) → take (length xs) xs ≡ xs
take-length [] = refl
take-length (x ∷ xs) = ap (λ t. x ∷ t) (take-length xs)

-- No entry of the table is marked as being written.
abbrev pub IsIdleClient : Client → Type 0
IsIdleClient c = (index : ℕ) → IsIdle (c.table index)

set_bucket-IsIdle :
    (c : Client) (i : ℕ) (chain : List AddrInfo)
    → IsIdleClient c
    → IsIdle chain
    → (j : ℕ) → IsIdle (set_bucket c.table i chain j)
unfolding set_bucket
set_bucket-IsIdle c i chain h k j = elim (Bool-cases (j == i)) [
  | inl e ↦ rw e k
  | inr e ↦ rw e (h j)
]

pub insert-idle :
    (c : Client) (addr : ℕ) (info : AddrInfo)
    → info.write_flag ≡ false
    → IsIdleClient c
    → IsIdleClient (dhmp_addr_info_insert_ht c addr info)
unfolding dhmp_addr_info_insert_ht
insert-idle c addr info e h =
    set_bucket-IsIdle c (dhmp_hash_in_client addr) _ h (e, h (dhmp_hash_in_client addr))

pub lookup-idle :
    (c : Client) (addr : ℕ) (info : AddrInfo)
    → IsIdleClient c
    → dhmp_get_addr_info_from_ht c (dhmp_hash_in_client addr) addr ≡ some info
    → info.write_flag ≡ false
unfolding dhmp_get_addr_info_from_ht
lookup-idle c addr info h e = find_addr-idle _ _ info (h (dhmp_hash_in_client addr)) e

-- A counter of an entry changes.
pub update-idle :
    (f : AddrInfo → AddrInfo) (c : Client) (addr : ℕ)
    → ((info : AddrInfo) → (f info).write_flag ≡ info.write_flag)
    → IsIdleClient c
    → IsIdleClient (update_info f c addr)
unfolding update_info
update-idle f c addr k h =
    let index = dhmp_hash_in_client addr in
    set_bucket-IsIdle c index _ h (modify_addr-IsIdle f (c.table index) _ k (h index))

pub settled-idle :
    (f g : AddrInfo → AddrInfo) (c : Client) (addr : ℕ)
    → ((info : AddrInfo) → (f info).nvm_addr ≡ info.nvm_addr)
    → ((info : AddrInfo) → (g info).write_flag ≡ false)
    → IsIdleClient c
    → IsIdleClient (update_info g (update_info f c addr) addr)
unfolding update_info set_bucket
settled-idle f g c addr k l h j =
    let index = dhmp_hash_in_client addr in
    let self : (index == index) ≡ true = ground arith in
    elim (Bool-cases (j == index)) [
      | inl e ↦ rw (e, self) (modify_addr-settled f g (c.table index) _ k l (h index))
      | inr e ↦ rw e (h j)
    ]

module _ (c : Client) (trans addr : ℕ) where
  abbrev lookup : Option AddrInfo
  lookup = dhmp_get_addr_info_from_ht c (dhmp_hash_in_client addr) addr

  pub read_missed :
      (local : List ℕ) (len offset : ℕ)
      → lookup ≡ none
      → dhmp_read_work_handler c trans addr local len offset ≡ some (c, local)
  unfolding dhmp_read_work_handler
  read_missed local len offset e = rw (dhmp_read_work_handler, e) refl

  pub read_found :
      (local : List ℕ) (len offset : ℕ) (info : AddrInfo)
      → IsIdleClient c
      → lookup ≡ some info
      → len < 2 ^ 32
      → c.rdma trans ((info.nvm_addr + offset) % word) len ≡ completes
      → dhmp_read_work_handler c trans addr local len offset
        ≡ some (
          update_info bump_read c addr,
          write_at local 0 (remote_read c.remote trans ((info.nvm_addr + offset) % word) len),
        )
  unfolding dhmp_read_work_handler update_info write_at
  read_found local len offset info h e short runs =
      let whole : request_length len ≡ len = omega arith in
      let at : ℕ = (info.nvm_addr + offset) % word in
      let bumped : Client = update_info bump_read c addr in
      rw (dhmp_read_work_handler, e, lookup-idle c addr info h e, whole, runs)
        (ap (λ n. some (bumped, write_at local 0 (remote_read c.remote trans at n))) whole)

  pub write_missed :
      (bytes : List ℕ) (offset : ℕ)
      → lookup ≡ none
      → dhmp_write_work_handler c trans addr bytes offset ≡ some c
  unfolding dhmp_write_work_handler
  write_missed bytes offset e = rw (dhmp_write_work_handler, e) refl

  -- The state between the posting of a write and its completion.
  abbrev pub posted : List ℕ → ℕ → Client
  posted bytes at = record (update_info (λ i. bump_write (set_flag true i)) c addr) {
    remote = remote_write c.remote trans at bytes;
  }

  pub write_found :
      (bytes : List ℕ) (offset : ℕ) (info : AddrInfo)
      → IsIdleClient c
      → lookup ≡ some info
      → length bytes < 2 ^ 32
      → c.rdma trans ((info.nvm_addr + offset) % word) (length bytes) ≡ completes
      → dhmp_write_work_handler c trans addr bytes offset
        ≡ some (update_info (set_flag false) (posted bytes ((info.nvm_addr + offset) % word)) addr)
  unfolding dhmp_write_work_handler update_info
  write_found bytes offset info h e short runs =
      let whole : request_length (length bytes) ≡ length bytes = omega arith in
      let at : ℕ = (info.nvm_addr + offset) % word in
      let done = λ (bs : List ℕ). some (update_info (set_flag false) (posted bs at) addr) in
      rw (dhmp_write_work_handler, e, lookup-idle c addr info h e, whole, runs)
        (ap (λ n. done (take n bytes)) whole ∙ ap done (take-length bytes))

  -- On an idle client the handler of a read returns if its request completes, wherever it goes to, and
  -- the client stays idle.
  pub read_returns :
      (local : List ℕ) (len offset : ℕ)
      → IsIdleClient c
      → len < 2 ^ 32
      → ((at : ℕ) → c.rdma trans at len ≡ completes)
      → (r : Client × List ℕ) × (dhmp_read_work_handler c trans addr local len offset ≡ some r)
        × IsIdleClient r.0
  read_returns local len offset h short runs = elim (Option-cases lookup) [
    | inl e ↦ (_, read_missed local len offset e, h)
    | inr (info, e) ↦
        (_, read_found local len offset info h e short (runs _), update-idle _ c addr (λ i. refl) h)
  ]

  -- On an idle client the handler of a write returns if its request completes, wherever it goes to, and
  -- the client is idle again.
  pub write_returns :
      (bytes : List ℕ) (offset : ℕ)
      → IsIdleClient c
      → length bytes < 2 ^ 32
      → ((at : ℕ) → c.rdma trans at (length bytes) ≡ completes)
      → (r : Client) × (dhmp_write_work_handler c trans addr bytes offset ≡ some r) × IsIdleClient r
  unfolding update_info
  write_returns bytes offset h short runs = elim (Option-cases lookup) [
    | inl e ↦ (_, write_missed bytes offset e, h)
    | inr (info, e) ↦ (
      _,
      write_found bytes offset info h e short (runs _),
      settled-idle _ _ c addr (λ i. refl) (λ i. refl) h,
    )
  ]
