-- ===== src/Tests/BusTests.antt =====
-- vmm/src/bus.rs on small maps, whose devices are named by numbers.
use gunyah_test_vmm.Base.{
  ℕ, ◌-◌, ◌≡◌, refl, ◌↔◌, ◌⊎◌, true, ◌∷◌, [], ◌++◌, none, some, ok, err, arith, max_u64,
  if◌then◌else◌,
}
use gunyah_test_vmm.Errors.{BusError, overlap}
use gunyah_test_vmm.Bus.Devices.{
  Devices, get_device, first_before, insert, remove, reject_overlaps, btree_has,
}
use gunyah_test_vmm.Bus.Invariant.{IsValid, Inserted, insert-Inserted}
use gunyah_test_vmm.Bus.Lookup.{holds, device_at, get_device-device_at}
use gunyah_test_vmm.Bus.Contract.{
  get_device-insert, insert_succeeds_iff, get_device-remove, remove-insert,
}
use gunyah_test_vmm.Bus.LastAddress.{last_range, insert_last_replaces}
use gunyah_test_vmm.Bus.Dispatch.{BusEntry, outer_sync, default_device}

abbrev two_devices : Devices ℕ
two_devices =
    (record { base = 0x1000; len = 0x10 }, 1) ∷ (record { base = 0x8000; len = 0x100 }, 2) ∷ []

two_devices-IsValid : IsValid two_devices
two_devices-IsValid = omega arith

finds_second : get_device 0x8010 two_devices ≡ some (0x10, 0x8010, 2)
unfolding get_device first_before
finds_second = refl

insert_between : (insert 3 0x1010 0x10 two_devices).0 ≡ ok tt
unfolding insert reject_overlaps btree_has
insert_between = refl

insert-Inserted_example : Inserted 3 0x100f 0x10 two_devices (insert 3 0x100f 0x10 two_devices)
insert-Inserted_example =
    insert-Inserted 3 0x100f 0x10 two_devices (omega arith) two_devices-IsValid

get_device-device_at_example : get_device 0x1008 two_devices ≡ device_at 0x1008 two_devices
get_device-device_at_example = get_device-device_at 0x1008 0 two_devices two_devices-IsValid

get_device-insert_example : get_device 0x1012 (insert 3 0x1010 0x10 two_devices).1 ≡ (
    if holds 0x1010 0x10 0x1012
    then some (0x1012 - 0x1010, 0x1012, 3)
    else get_device 0x1012 two_devices)
get_device-insert_example =
    get_device-insert 3 0x1010 0x10 0x1012 two_devices (omega arith) two_devices-IsValid
      insert_between

insert_succeeds_iff_example :
    ((insert 3 0x1010 0x10 two_devices).0 ≡ ok tt)
    ↔ ((addr : ℕ) → holds 0x1010 0x10 addr ≡ true → get_device addr two_devices ≡ none)
insert_succeeds_iff_example =
    insert_succeeds_iff 3 0x1010 0x10 two_devices (omega arith) (omega arith) two_devices-IsValid

get_device-remove_example :
    (((remove 0x1000 0x10 two_devices).0 ≡ ok tt)
      × (get_device 0x1004 (remove 0x1000 0x10 two_devices).1
          ≡ (if holds 0x1000 0x10 0x1004 then none else get_device 0x1004 two_devices)))
    ⊎ ((x : BusError) × (remove 0x1000 0x10 two_devices ≡ (err x, two_devices)))
get_device-remove_example = get_device-remove 0x1000 0x10 0x1004 two_devices two_devices-IsValid

remove-insert_example :
    remove 0x1010 0x10 (insert 3 0x1010 0x10 two_devices).1 ≡ (ok tt, two_devices)
remove-insert_example =
    remove-insert 3 0x1010 0x10 two_devices (omega arith) two_devices-IsValid insert_between

insert_last_replaces_example :
    insert 4 max_u64 1 (two_devices ++ (last_range 2, 3) ∷ [])
    ≡ (err (overlap max_u64 1 max_u64 1), two_devices ++ (last_range 2, 4) ∷ [])
insert_last_replaces_example =
    insert_last_replaces 4 3 1 2 two_devices (omega arith) two_devices-IsValid

-- a device that answers nothing, on an empty bus
abbrev quiet : BusEntry (Unit {0}) (Unit {0})
quiet = outer_sync (default_device (λ _. "quiet"))

quiet_insertion : (insert quiet 0x100 8 []).0 ≡ ok tt
unfolding insert reject_overlaps btree_has
quiet_insertion = refl
