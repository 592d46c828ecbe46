-- ===== src/Client/Granting.antt =====
-- src/mid_rdma_recv_handler.c, src/mid_rdma_utils.c: a server's answer to the request for a block, and the
-- client that waits for it.
use rdma_middleware.Prelude.{
  ℕ, ◌+◌, ◌-◌, ◌%◌, ◌^◌, ◌<◌, ◌≡◌, refl, ap, Bool, true, false, not, ◌&&◌, Option, none, some,
  get_elem?, ◌==◌, if◌then◌else◌, arith,
}
use rdma_middleware.Devices.{Device}
use rdma_middleware.Prelude.Results.{◌>>=◌}
use rdma_middleware.Client.Addresses.{word, node_index}
use rdma_middleware.Client.Works.{Client, dhmp_malloc, dhmp_malloc_work_handler}
use rdma_middleware.Client.Idle.{IsIdleClient}
use rdma_middleware.Client.Access.{Allocated, selected, dhmp_malloc-Allocated}

-- What the server holds: blocks of `numa_alloc_onnode`, registrations, and the size that it counts for the
-- transport of the client.
pub record Holding : Type 0 where
  pub blocks : ℕ
  pub regs : ℕ
  pub nvm_used_size : ℕ

-- `dhmp_memory_malloc_register`, with the address of the registered block, or NULL.
unfoldable pub dhmp_memory_malloc_register : Bool → Bool → Holding → ℕ → Holding × Option ℕ
dhmp_memory_malloc_register alloc reg s addr =
    let held = record s { blocks = s.blocks + 1 } in
    if not alloc
    then (s, none)
    else if not reg
    then (record held { blocks = held.blocks - 1 }, none)
    else (record held { regs = held.regs + 1 }, some addr)

-- `dhmp_malloc_request_handler`, with the answer: the address of the block, or `none` for an error. The use
-- of a NULL device is undefined.
unfoldable pub dhmp_malloc_request_handler :
    Option Device → Bool → Bool → Holding → ℕ → ℕ → Option (Holding × Option ℕ)
dhmp_malloc_request_handler device alloc reg s addr re_length = device >>= λ (dev : Device).
    let (held, mr) = dhmp_memory_malloc_register alloc reg s addr in
    some (elim mr [
      | none ↦ (held, none)
      | some a ↦ (record held { nvm_used_size = (held.nvm_used_size + re_length) % word }, some a)
    ])

-- What comes of a request: a block that is held there and allocated at the client, or an error, on which the
-- client waits for ever.
abbrev pub Answered : Bool → Client → ℕ → ℕ → ℕ → ℕ → Holding → Holding × Option ℕ → Type 0
Answered true c node_id trans len addr s t =
    (t.0 ≡ record {
      blocks = s.blocks + 1;
      regs = s.regs + 1;
      nvm_used_size = (s.nvm_used_size + len) % word;
    })
    × (r : Client × ℕ) × (dhmp_malloc c len node_id t.1 ≡ some r)
    × Allocated c trans len addr r
Answered false c node_id trans len addr s t = (t.0 ≡ s) × (dhmp_malloc c len node_id t.1 ≡ none)

refused :
    (c : Client) (node_id trans len : ℕ)
    → 0 < len
    → get_elem? c.connect_trans node_id ≡ some (some trans)
    → c.connected trans ≡ true
    → dhmp_malloc c len node_id none ≡ none
unfolding dhmp_malloc dhmp_malloc_work_handler
refused c node_id trans len hl slot up =
    let some_len : (len == 0) ≡ false = ground arith in
    rw (dhmp_malloc, some_len, selected c node_id trans slot up) refl

-- On an idle client, at the first of the slots that hold a live connection, for a positive size: a server
-- with a device that can allocate and register a block, at a nonzero address below 2^48, holds one block
-- and one registration more and counts the size, and `dhmp_malloc` returns with its answer a block
-- that is allocated there. If it cannot do one of both, it holds what it held, and with its answer
-- `dhmp_malloc` waits for ever.
pub dhmp_malloc-dhmp_malloc_request_handler :
    (c : Client) (node_id trans len addr : ℕ) (dev : Device) (alloc reg : Bool) (s : Holding)
    → IsIdleClient c
    → 0 < len
    → 0 < addr
    → addr < 2 ^ 48
    → get_elem? c.connect_trans node_id ≡ some (some trans)
    → node_index c.connect_trans trans ≡ node_id
    → node_id < 2 ^ 15
    → c.connected trans ≡ true
    → (t : Holding × Option ℕ) × (dhmp_malloc_request_handler (some dev) alloc reg s addr len
        ≡ some t)
      × Answered (alloc && reg) c node_id trans len addr s t
unfolding dhmp_malloc_request_handler dhmp_memory_malloc_register
dhmp_malloc-dhmp_malloc_request_handler c node_id trans len addr dev true true s idle hl ha hw slot
      first small up =
    let (r, run, all) =
      dhmp_malloc-Allocated c node_id trans len addr idle hl ha hw slot first small up in
    (_, refl, (refl, r, run, all))
dhmp_malloc-dhmp_malloc_request_handler c node_id trans len addr dev true false s idle hl ha hw slot
      first small up =
    (
      _,
      refl,
      (ap (λ n. record s { blocks = n }) (omega arith), refused c node_id trans len hl slot up),
    )
dhmp_malloc-dhmp_malloc_request_handler c node_id trans len addr dev false reg s idle hl ha hw slot
      first small up =
    (_, refl, (refl, refused c node_id trans len hl slot up))
