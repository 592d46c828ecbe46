-- ===== src/Devices.antt =====
-- src/dhmp_dev.c, src/mid_rdma_init.c: the list of the RDMA devices of a node. What the library and
-- malloc do for each device is a parameter.
pub mod Listed
use rdma_middleware.Prelude.{
  ℕ, ◌+◌, ◌-◌, Bool, true, false, if◌then◌else◌, Option, none, some, List, [], ◌∷◌, ◌++◌,
}

-- An int that a call returns: `below_zero n` is -(n + 1).
pub data Retval : Type 0 where
  at_least_zero : ℕ → Retval
  below_zero : ℕ → Retval

abbrev pub is_negative : Retval → Bool
is_negative (at_least_zero n) = false
is_negative (below_zero n) = true

-- A device of the list of `rdma_get_devices`: the `ibv_context`, whether malloc has a block for it,
-- what `ibv_query_device` returns and what it leaves in `device_attr`, and what `ibv_alloc_pd`
-- returns.
pub record Context : Type 0 where
  pub verbs : ℕ
  pub malloc : Bool
  pub query : Retval
  pub filled : Option ℕ
  pub alloc_pd : Option ℕ

-- `dhmp_device`. `none` is NULL, or in `device_attr` the bytes of a new block.
pub record Device : Type 0 where
  pub verbs : Option ℕ
  pub pd : Option ℕ
  pub device_attr : Option ℕ

-- A device in a new block, before `dhmp_dev_init`.
abbrev pub new_device : Device
new_device = record { verbs = none; pd = none; device_attr = none }

-- `dhmp_dev_init`, with what it returns.
unfoldable pub dhmp_dev_init : Context → Device → Device × Retval
dhmp_dev_init c dev =
    let queried = record dev { device_attr = c.filled } in
    if is_negative c.query then (record queried { verbs = none }, c.query) else elim c.alloc_pd [
      | none ↦ (record queried { verbs = none; pd = none }, below_zero 0)
      | some p ↦ (record queried { verbs = some c.verbs; pd = some p }, c.query)
    ]

-- The list of a client or a server, with how many blocks of devices and how many protection domains
-- the process holds.
pub record Devices : Type 0 where
  pub dev_list : List Device
  pub blocks : ℕ
  pub pds : ℕ

-- A call of `dhmp_dev_init` for a new block, and `list_add_tail` if it worked.
unfoldable pub add_device : Devices → Context → Devices
add_device s c =
    let (dev, retval) = dhmp_dev_init c new_device in
    elim (dev.verbs) [
      | none ↦ record s { blocks = s.blocks + 1 }
      | some v ↦ record s {
        dev_list = s.dev_list ++ (dev ∷ []);
        blocks = s.blocks + 1;
        pds = s.pds + 1;
      }
    ]

-- The loop of `dhmp_dev_list_init`, which ends where malloc fails.
unfoldable pub add_devices : Devices → List (Option Context) → Devices
add_devices s [] = s
add_devices s (none ∷ cs) = add_devices s cs
add_devices s (some c ∷ cs) =
    let rest = add_devices (add_device s c) cs in if c.malloc then rest else s

-- `none` is a failed `rdma_get_devices`.
unfoldable pub dhmp_dev_list_init : Devices → Option (List (Option Context)) → Devices
dhmp_dev_list_init s none = s
dhmp_dev_list_init s (some ctx_list) = add_devices s ctx_list

-- The loop of `dhmp_dev_list_destroy` over the entries.
unfoldable pub destroy_devices : Devices → List Device → Devices
destroy_devices s [] = s
destroy_devices s (dev ∷ devs) =
    let dealloced : Devices = elim (dev.verbs) [
      | none ↦ s
      | some v ↦ record s { pds = s.pds - 1 }
    ] in
    destroy_devices (record dealloced { blocks = dealloced.blocks - 1 }) devs

-- The entries are freed, and the list still links them.
unfoldable pub dhmp_dev_list_destroy : Devices → Devices
dhmp_dev_list_destroy s = destroy_devices s s.dev_list

-- `list_first_entry` of a list that is not empty, else NULL.
abbrev first_entry : List Device → Option Device
first_entry [] = none
first_entry (dev ∷ devs) = some dev

unfoldable pub dhmp_get_dev_from_client : Devices → Option Device
dhmp_get_dev_from_client client = first_entry client.dev_list

unfoldable pub dhmp_get_dev_from_server : Devices → Option Device
dhmp_get_dev_from_server server_instance = first_entry server_instance.dev_list
