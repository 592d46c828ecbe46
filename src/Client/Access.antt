-- ===== src/Client/Access.antt =====
-- src/mid_client_work.c, src/mid_rdma_top_api.c: what a client writes to a block it reads back.
use rdma_middleware.Prelude.{
  ℕ, ◌+◌, ◌%◌, ◌^◌, ◌<◌, ◌≤◌, ◌≡◌, ◌≢◌, refl, ap, ◌∙◌, arith, true, false, Option, some, none, List,
  [], ◌∷◌, ◌==◌, length, get_elem?,
}
use rdma_middleware.Prelude.Memory.{write_at}
use rdma_middleware.Client.Addresses.{
  word, dhmp_hash_in_client, shifted, node_index, dhmp_transfer_dhmp_addr,
  dhmp_transfer_normal_addr, dhmp_get_node_index_from_addr, transfer_roundtrip, shifted-transfer,
}
use rdma_middleware.Client.Table.{
  AddrInfo, find_addr, find_addr-modify_addr, set_bucket, remote_read, remote_read-remote_write,
}
use rdma_middleware.Client.Works.{
  Client, dhmp_get_addr_info_from_ht, dhmp_addr_info_insert_ht, update_info, bump_read, bump_write,
  set_flag, dhmp_node_select_by_id, dhmp_get_trans_from_addr, dhmp_malloc_work_handler, dhmp_malloc,
  dhmp_read_work_handler, dhmp_write_work_handler, dhmp_read, dhmp_write, completes, refused,
  request_length,
}
use rdma_middleware.Client.Idle.{
  IsIdleClient, insert-idle, update-idle, settled-idle, read_found, write_found, posted,
  lookup-idle,
}

abbrev pub entry_of : Client → ℕ → Option AddrInfo
entry_of c addr = dhmp_get_addr_info_from_ht c (dhmp_hash_in_client addr) addr

entry_of-update_info :
    (f : AddrInfo → AddrInfo) (c : Client) (addr : ℕ) (info : AddrInfo)
    → ((i : AddrInfo) → (f i).nvm_addr ≡ i.nvm_addr)
    → entry_of c addr ≡ some info
    → entry_of (update_info f c addr) addr ≡ some (f info)
unfolding dhmp_get_addr_info_from_ht update_info set_bucket
entry_of-update_info f c addr info k e =
    let index = dhmp_hash_in_client addr in
    let self : (index == index) ≡ true = ground arith in
    rw self (find_addr-modify_addr f (c.table index) (dhmp_transfer_normal_addr addr) info k e)

pub entry_of-insert :
    (c : Client) (addr : ℕ) (info : AddrInfo)
    → dhmp_transfer_normal_addr addr ≡ info.nvm_addr
    → entry_of (dhmp_addr_info_insert_ht c addr info) addr ≡ some info
unfolding dhmp_get_addr_info_from_ht dhmp_addr_info_insert_ht set_bucket find_addr
entry_of-insert c addr info k =
    let index = dhmp_hash_in_client addr in
    let self : (index == index) ≡ true = ground arith in
    let here : (info.nvm_addr == dhmp_transfer_normal_addr addr) ≡ true = ground (arith, k) in
    rw (self, here) refl

-- An entry at another address on the server hides none.
pub entry_of-insert_other :
    (c : Client) (addr other : ℕ) (info : AddrInfo)
    → info.nvm_addr ≢ dhmp_transfer_normal_addr addr
    → entry_of (dhmp_addr_info_insert_ht c other info) addr ≡ entry_of c addr
unfolding dhmp_get_addr_info_from_ht dhmp_addr_info_insert_ht set_bucket find_addr
entry_of-insert_other c addr other info k = ground (arith, k)

write_at-all : (mem src : List ℕ) → length mem ≡ length src → write_at mem 0 src ≡ src
unfolding write_at
write_at-all [] [] h = refl
write_at-all [] (b ∷ src) h = absurd (omega arith)
write_at-all (x ∷ mem) [] h = absurd (omega arith)
write_at-all (x ∷ mem) (b ∷ src) h = ap (λ t. b ∷ t) (write_at-all mem src (omega arith))

dhmp_read_live :
    (c : Client) (trans addr : ℕ) (local : List ℕ) (len offset : ℕ) (r : Client × List ℕ)
    → dhmp_get_trans_from_addr c addr ≡ some (some trans)
    → dhmp_read_work_handler c trans addr local len offset ≡ some r
    → dhmp_read c addr local len offset ≡ some (r.0, r.1, true)
unfolding dhmp_read
dhmp_read_live c trans addr local len offset r live e = rw (dhmp_read, live, e) refl

pub dhmp_write_live :
    (c : Client) (trans addr : ℕ) (bytes : List ℕ) (offset : ℕ) (r : Client)
    → dhmp_get_trans_from_addr c addr ≡ some (some trans)
    → dhmp_write_work_handler c trans addr bytes offset ≡ some r
    → dhmp_write c addr bytes offset ≡ some (r, true)
unfolding dhmp_write
dhmp_write_live c trans addr bytes offset r live e = rw (dhmp_write, live, e) refl

-- The connection carries the requests of less than 2^31 bytes that stay inside the block.
abbrev pub Carries : Client → ℕ → AddrInfo → Type 0
Carries c trans info =
    (offset len : ℕ)
    → len < 2 ^ 31
    → offset + len ≤ info.nvm_length
    → c.rdma trans ((info.nvm_addr + offset) % word) len ≡ completes

module _ (c : Client) (trans addr : ℕ) (idle : IsIdleClient c) where
  -- The client after a write at an address of the server.
  abbrev after_write : List ℕ → ℕ → Client
  after_write bytes at = update_info (set_flag false) (posted c trans addr bytes at) addr

  written-idle : (bytes : List ℕ) (at : ℕ) → IsIdleClient (after_write bytes at)
  unfolding update_info
  written-idle bytes at = settled-idle _ _ c addr (λ i. refl) (λ i. refl) idle

  marked-entry :
      (info : AddrInfo) (bytes : List ℕ) (at : ℕ)
      → entry_of c addr ≡ some info
      → entry_of (posted c trans addr bytes at) addr ≡ some (bump_write (set_flag true info))
  unfolding dhmp_get_addr_info_from_ht update_info
  marked-entry info bytes at e =
      entry_of-update_info (λ i. bump_write (set_flag true i)) c addr info (λ i. refl) e

  written-entry :
      (info : AddrInfo) (bytes : List ℕ) (at : ℕ)
      → entry_of c addr ≡ some info
      → entry_of (after_write bytes at) addr
        ≡ some (set_flag false (bump_write (set_flag true info)))
  written-entry info bytes at e =
      entry_of-update_info (set_flag false) (posted c trans addr bytes at) addr _ (λ i. refl)
        (marked-entry info bytes at e)

  written-bytes :
      (bytes : List ℕ) (at : ℕ)
      → remote_read (after_write bytes at).remote trans at (length bytes) ≡ bytes
  unfolding update_info
  written-bytes bytes at = remote_read-remote_write c.remote trans at bytes

  written-live :
      (bytes : List ℕ) (at : ℕ)
      → dhmp_get_trans_from_addr c addr ≡ some (some trans)
      → dhmp_get_trans_from_addr (after_write bytes at) addr ≡ some (some trans)
  unfolding update_info dhmp_get_trans_from_addr dhmp_node_select_by_id
  written-live bytes at live = live

  -- On an idle client, when the request of a write to an address of its table is refused: `dhmp_write`
  -- returns 0 all the same and leaves the memory of the servers as it was, and from then on neither a
  -- `dhmp_read` nor a `dhmp_write` over the address returns.
  pub dhmp_write-refused :
      (info : AddrInfo) (bytes : List ℕ) (offset : ℕ)
      → entry_of c addr ≡ some info
      → dhmp_get_trans_from_addr c addr ≡ some (some trans)
      → c.rdma trans ((info.nvm_addr + offset) % word) (request_length (length bytes)) ≡ refused
      → (d : Client) × (dhmp_write c addr bytes offset ≡ some (d, true))
        × (d.remote ≡ c.remote)
        × ((local : List ℕ) (len at : ℕ) → dhmp_read d addr local len at ≡ none)
        × ((more : List ℕ) (at : ℕ) → dhmp_write d addr more at ≡ none)
  unfolding update_info dhmp_read dhmp_write dhmp_read_work_handler dhmp_write_work_handler
      dhmp_get_trans_from_addr dhmp_node_select_by_id
  dhmp_write-refused info bytes offset e live fails =
      let d : Client = update_info (λ i. bump_write (set_flag true i)) c addr in
      let marked =
        entry_of-update_info (λ i. bump_write (set_flag true i)) c addr info (λ i. refl) e in
      (
        d,
        rw (live, dhmp_write_work_handler, e, lookup-idle c addr info idle e, fails) refl,
        refl,
        (λ local len at. rw (live, dhmp_read_work_handler, marked) refl),
        (λ more at. rw (live, dhmp_write_work_handler, marked) refl),
      )

  -- On an idle client, where the requests inside a block of its table complete, a write of less than 2^31
  -- bytes inside the block over a live connection succeeds, a read over the same place then succeeds with
  -- the bytes written, and the client is idle again.
  pub dhmp_read-dhmp_write :
      (info : AddrInfo) (bytes local : List ℕ) (offset : ℕ)
      → entry_of c addr ≡ some info
      → dhmp_get_trans_from_addr c addr ≡ some (some trans)
      → Carries c trans info
      → length bytes < 2 ^ 31
      → offset + length bytes ≤ info.nvm_length
      → length local ≡ length bytes
      → (written : Client) × (dhmp_write c addr bytes offset ≡ some (written, true))
        × ((after : Client) × (dhmp_read written addr local (length bytes) offset
              ≡ some (after, bytes, true))
            × IsIdleClient after)
  unfolding update_info
  dhmp_read-dhmp_write info bytes local offset e live carries short inside same =
      let short' : length bytes < 2 ^ 32 = omega arith in
      let runs = carries offset (length bytes) short inside in
      let at : ℕ = (info.nvm_addr + offset) % word in
      let marked : AddrInfo = bump_write (set_flag true info) in
      let sent : Client = posted c trans addr bytes at in
      let done : Client = update_info (set_flag false) sent addr in
      let calm : IsIdleClient done = written-idle bytes at in
      let found : entry_of done addr ≡ some (set_flag false marked) =
        written-entry info bytes at e in
      let back : remote_read done.remote trans at (length bytes) ≡ bytes = written-bytes bytes at in
      let copy : write_at local 0 (remote_read done.remote trans at (length bytes)) ≡ bytes =
        rw back (write_at-all local bytes same) in
      let read : dhmp_read_work_handler done trans addr local (length bytes) offset
          ≡ some (update_info bump_read done addr, bytes) =
        read_found done trans addr local (length bytes) offset (set_flag false marked) calm found
          short' runs
        ∙ ap (λ t. some (update_info bump_read done addr, t)) copy in
      (
        done,
        dhmp_write_live c trans addr bytes offset done live
            (write_found c trans addr bytes offset info idle e short' runs),
        (
          update_info bump_read done addr,
          dhmp_read_live done trans addr local (length bytes) offset _ (written-live bytes at live)
              read,
          update-idle bump_read done addr (λ i. refl) calm,
        ),
      )

pub selected :
    (c : Client) (node_id trans : ℕ)
    → get_elem? c.connect_trans node_id ≡ some (some trans)
    → c.connected trans ≡ true
    → dhmp_node_select_by_id c node_id ≡ some (some trans)
unfolding dhmp_node_select_by_id
selected c node_id trans slot up = rw (slot, up) refl

dhmp_malloc_live :
    (c : Client) (node_id trans len addr : ℕ)
    → 0 < len
    → 0 < addr
    → get_elem? c.connect_trans node_id ≡ some (some trans)
    → c.connected trans ≡ true
    → let p = dhmp_transfer_dhmp_addr c.connect_trans trans addr in
      dhmp_malloc c len node_id (some addr)
      ≡ some (
        dhmp_addr_info_insert_ht c p (record {
          read_cnt = 0;
          write_cnt = 0;
          node_index = dhmp_get_node_index_from_addr p;
          write_flag = false;
          nvm_addr = addr;
          nvm_length = len;
        }),
        p,
      )
unfolding dhmp_malloc dhmp_malloc_work_handler dhmp_addr_info_insert_ht
dhmp_malloc_live c node_id trans len addr hl ha slot up =
    let some_len : (len == 0) ≡ false = ground arith in
    let some_addr : (addr == 0) ≡ false = ground arith in
    rw (dhmp_malloc, some_len, selected c node_id trans slot up, up, some_len, some_addr) refl

insert_live :
    (c : Client) (p : ℕ) (info : AddrInfo) (node_id trans : ℕ)
    → shifted p ≡ node_id
    → get_elem? c.connect_trans node_id ≡ some (some trans)
    → c.connected trans ≡ true
    → dhmp_get_trans_from_addr (dhmp_addr_info_insert_ht c p info) p ≡ some (some trans)
unfolding dhmp_get_trans_from_addr dhmp_addr_info_insert_ht
insert_live c p info node_id trans here slot up =
    rw here (selected (dhmp_addr_info_insert_ht c p info) node_id trans slot up)

-- What a block is after its allocation at a node: the address leads back to the connection and to
-- an entry with the server's address, and nothing is being written.
pub record Allocated (c : Client) (trans len addr : ℕ) (r : Client × ℕ) : Type 0 where
  pub idle : IsIdleClient r.0
  pub connection : dhmp_get_trans_from_addr r.0 r.1 ≡ some (some trans)
  pub entry :
      entry_of r.0 r.1
      ≡ some (record {
        read_cnt = 0;
        write_cnt = 0;
        node_index = node_index c.connect_trans trans;
        write_flag = false;
        nvm_addr = addr;
        nvm_length = len;
      })

-- On an idle client, at the first of the slots that hold a live connection, the allocation of a block of
-- positive size, for which the server has a nonzero address below 2^48, returns such a block.
pub dhmp_malloc-Allocated :
    (c : Client) (node_id trans len addr : ℕ)
    → IsIdleClient c
    → 0 < len
    → 0 < addr
    → addr < 2 ^ 48
    → get_elem? c.connect_trans node_id ≡ some (some trans)
    → node_index c.connect_trans trans ≡ node_id
    → node_id < 2 ^ 15
    → c.connected trans ≡ true
    → (r : Client × ℕ) × (dhmp_malloc c len node_id (some addr) ≡ some r)
      × Allocated c trans len addr r
dhmp_malloc-Allocated c node_id trans len addr idle hl ha hw slot first small up =
    let near : node_index c.connect_trans trans < 2 ^ 15 = omega arith in
    let p : ℕ = dhmp_transfer_dhmp_addr c.connect_trans trans addr in
    let (home, index) = transfer_roundtrip c.connect_trans trans addr hw near in
    let info : AddrInfo = record {
      read_cnt = 0;
      write_cnt = 0;
      node_index = dhmp_get_node_index_from_addr p;
      write_flag = false;
      nvm_addr = addr;
      nvm_length = len;
    } in
    let here : shifted p ≡ node_id = shifted-transfer c.connect_trans trans addr hw near ∙ first in
    let found : entry_of (dhmp_addr_info_insert_ht c p info) p ≡ some info =
      entry_of-insert c p info home in
    (
      (dhmp_addr_info_insert_ht c p info, p),
      dhmp_malloc_live c node_id trans len addr hl ha slot up,
      record {
        idle = insert-idle c p info refl idle;
        connection = insert_live c p info node_id trans here slot up;
        entry = found ∙ ap (λ i. some (record info { node_index = i })) index;
      },
    )
