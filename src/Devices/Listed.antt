-- ===== src/Devices/Listed.antt =====
-- src/dhmp_dev.c: which devices get on the list, and what is left when it has been destroyed.
use rdma_middleware.Prelude.{
  ℕ, ◌+◌, ◌-◌, ◌≤◌, ◌≡◌, refl, sym, ap, ◌∙◌, Bool, true, false, not, ◌&&◌, Bool-cases, inl, inr,
  Option, none, some, List, [], ◌∷◌, ◌++◌, length, append_assoc, append_nil, if◌then◌else◌, arith,
}
use rdma_middleware.Devices.{
  Retval, at_least_zero, below_zero, is_negative, Context, Device, Devices, dhmp_dev_init,
  add_device, add_devices, dhmp_dev_list_init, destroy_devices, dhmp_dev_list_destroy,
}

-- The devices that the loop comes to: those before the first for which malloc fails, NULL left out.
abbrev pub reached : List (Option Context) → List Context
reached [] = []
reached (none ∷ cs) = reached cs
reached (some c ∷ cs) = let rest = reached cs in if c.malloc then c ∷ rest else []

abbrev pub allocated : Option ℕ → Bool
allocated none = false
allocated (some p) = true

-- Whether the query is not negative and there is a protection domain.
abbrev pub works : Context → Bool
works c = not (is_negative c.query) && allocated c.alloc_pd

abbrev pub device_of : Context → Device
device_of c = record { verbs = some c.verbs; pd = c.alloc_pd; device_attr = c.filled }

abbrev pub listed : List Context → List Device
listed [] = []
listed (c ∷ cs) = let rest = listed cs in if works c then device_of c ∷ rest else rest

abbrev with_device : Devices → Device → Devices
with_device s dev = record {
  dev_list = s.dev_list ++ (dev ∷ []);
  blocks = s.blocks + 1;
  pds = s.pds + 1;
}

-- A device that has a block and is on no list.
abbrev with_block : Devices → Devices
with_block s = record s { blocks = s.blocks + 1 }

by_outcome :
    (s : Devices) (c : Context) (q : Retval) (p : Option ℕ)
    → let c' = record c { query = q; alloc_pd = p } in
      add_device s c' ≡ (if works c' then with_device s (device_of c') else with_block s)
unfolding add_device dhmp_dev_init
by_outcome s c (at_least_zero n) (some p) = refl
by_outcome s c (at_least_zero n) none = refl
by_outcome s c (below_zero n) p = refl

add_device_lem :
    (s : Devices) (c : Context)
    → add_device s c ≡ (if works c then with_device s (device_of c) else with_block s)
add_device_lem s c = by_outcome s c c.query c.alloc_pd

-- What the loop leaves.
record Added (s t : Devices) (cs : List Context) : Type 0 where
  devices : t.dev_list ≡ s.dev_list ++ listed cs
  held : t.blocks ≡ s.blocks + length cs
  domains : t.pds ≡ s.pds + length (listed cs)

none_reached : (s : Devices) → Added s s []
none_reached s = record {
  devices = sym (append_nil s.dev_list);
  held = omega arith;
  domains = omega arith;
}

one_reached_by :
    (s t : Devices) (c : Context) (cs : List Context) (b : Bool)
    → works c ≡ b
    → Added (if b then with_device s (device_of c) else with_block s) t cs
    → Added s t (c ∷ cs)
one_reached_by s t c cs true good h = record {
  devices = rw good (h.devices ∙ append_assoc s.dev_list (device_of c ∷ []) (listed cs));
  held = omega (arith, h.held);
  domains = rw good (omega (arith, h.domains));
}
one_reached_by s t c cs false bad h = record {
  devices = rw bad h.devices;
  held = omega (arith, h.held);
  domains = rw bad h.domains;
}

one_reached :
    (s t : Devices) (c : Context) (cs : List Context)
    → Added (add_device s c) t cs
    → Added s t (c ∷ cs)
one_reached s t c cs h = one_reached_by s t c cs (works c) refl (rw (sym (add_device_lem s c)) h)

up_to :
    (s t : Devices) (c : Context) (cs : List Context) (more : Bool)
    → Added s t (c ∷ cs)
    → Added s (if more then t else s) (if more then c ∷ cs else [])
up_to s t c cs true h = h
up_to s t c cs false h = none_reached s

add_devices-Added :
    (s : Devices) (cs : List (Option Context)) → Added s (add_devices s cs) (reached cs)
unfolding add_devices
add_devices-Added s [] = none_reached s
add_devices-Added s (none ∷ cs) = add_devices-Added s cs
add_devices-Added s (some c ∷ cs) =
    up_to s _ c (reached cs) c.malloc
      (one_reached s _ c (reached cs) (add_devices-Added (add_device s c) cs))

destroy_listed :
    (s : Devices) (cs : List Context)
    → let t = destroy_devices s (listed cs) in
      (t.pds ≡ s.pds - length (listed cs)) × (t.blocks ≡ s.blocks - length (listed cs))
unfolding destroy_devices
destroy_listed s [] = (omega arith, omega arith)
destroy_listed s (c ∷ cs) = elim (Bool-cases (works c)) [
  | inl good ↦ rw good (
      let rest = destroy_listed (record s { pds = s.pds - 1; blocks = s.blocks - 1 }) cs in
      (omega (arith, rest.0), omega (arith, rest.1)))
  | inr bad ↦ rw bad (destroy_listed s cs)
]

length-listed : (cs : List Context) → length (listed cs) ≤ length cs
length-listed [] = omega arith
length-listed (c ∷ cs) = elim (Bool-cases (works c)) [
  | inl good ↦ rw good (omega (arith, length-listed cs))
  | inr bad ↦ rw bad (omega (arith, length-listed cs))
]

-- From an empty list, `dhmp_dev_list_init` lists, in the order of `rdma_get_devices`, the devices
-- before the first failing malloc for which the query is not negative and a protection domain is
-- allocated; `dhmp_dev_list_destroy` then gives back every protection domain, but of the blocks only
-- those of the listed devices: a device for which `dhmp_dev_init` fails leaves its block.
pub dhmp_dev_list_init-dhmp_dev_list_destroy :
    (s : Devices) (cs : List (Option Context))
    → s.dev_list ≡ []
    → let t = dhmp_dev_list_init s (some cs) in
      let u = dhmp_dev_list_destroy t in
      (t.dev_list ≡ listed (reached cs))
      × (u.pds ≡ s.pds)
      × (u.blocks + length (listed (reached cs)) ≡ s.blocks + length (reached cs))
unfolding dhmp_dev_list_init dhmp_dev_list_destroy
dhmp_dev_list_init-dhmp_dev_list_destroy s cs none_yet =
    let t : Devices = add_devices s cs in
    let a : Added s t (reached cs) = add_devices-Added s cs in
    let devices : t.dev_list ≡ listed (reached cs) =
      a.devices ∙ ap (λ devs. devs ++ listed (reached cs)) none_yet in
    let (pds, blocks) = destroy_listed t (reached cs) in
    let domains : (destroy_devices t t.dev_list).pds ≡ t.pds - length (listed (reached cs)) =
      ap (λ devs. (destroy_devices t devs).pds) devices ∙ pds in
    let held : (destroy_devices t t.dev_list).blocks ≡ t.blocks - length (listed (reached cs)) =
      ap (λ devs. (destroy_devices t devs).blocks) devices ∙ blocks in
    (
      devices,
      omega (arith, domains, a.domains),
      omega (arith, held, a.held, length-listed (reached cs)),
    )
