-- ===== src/Tests/Devices.antt =====
-- The list of the devices of src/dhmp_dev.c.
use rdma_middleware.Prelude.{◌+◌, ◌≡◌, refl, true, false, Option, none, some, List, [], ◌∷◌}
use rdma_middleware.Devices.{
  Context, Devices, at_least_zero, below_zero, dhmp_dev_list_init, dhmp_dev_list_destroy,
}
use rdma_middleware.Devices.Listed.{
  listed, reached, device_of, dhmp_dev_list_init-dhmp_dev_list_destroy,
}

abbrev working : Context
working = record {
  verbs = 1;
  malloc = true;
  query = at_least_zero 0;
  filled = some 16;
  alloc_pd = some 9;
}

-- NULL, a device that works, one without a protection domain, one that cannot be asked, one more that
-- works, one without a block, and one that is not reached.
abbrev some_devices : List (Option Context)
some_devices =
    none
    ∷ some working
    ∷ some (record working { verbs = 2; alloc_pd = none })
    ∷ some (record working { verbs = 3; query = below_zero 0 })
    ∷ some (record working { verbs = 4; alloc_pd = some 10 })
    ∷ some (record working { verbs = 5; malloc = false })
    ∷ some (record working { verbs = 6 })
    ∷ []

abbrev no_devices : Devices
no_devices = record { dev_list = []; blocks = 3; pds = 2 }

listed_run :
    listed (reached some_devices)
    ≡ device_of working ∷ device_of (record working { verbs = 4; alloc_pd = some 10 }) ∷ []
listed_run = refl

dhmp_dev_list_init-dhmp_dev_list_destroy_example :
    let t = dhmp_dev_list_init no_devices (some some_devices) in
    let u = dhmp_dev_list_destroy t in
    (t.dev_list
      ≡ device_of working ∷ device_of (record working { verbs = 4; alloc_pd = some 10 }) ∷ [])
    × (u.pds ≡ 2)
    × (u.blocks + 2 ≡ 3 + 4)
dhmp_dev_list_init-dhmp_dev_list_destroy_example =
    dhmp_dev_list_init-dhmp_dev_list_destroy no_devices some_devices refl
