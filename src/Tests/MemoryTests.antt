-- ===== src/Tests/MemoryTests.antt =====
-- vmm/src/memory.rs against a kernel that grants every request.
use gunyah_test_vmm.Base.{ℕ, ◌≡◌, refl, true, false, arith, map, debug, ok, []}
use gunyah_test_vmm.Errors.{msg}
use gunyah_test_vmm.Effects.Outcomes.{Succeeds, Fails, pure-Succeeds}
use gunyah_test_vmm.Tests.Kernels.{generous}
use gunyah_test_vmm.Bus.Devices.{Devices, insert, remove, get_device}
use gunyah_test_vmm.Bus.Invariant.{insert-IsValid}
use gunyah_test_vmm.Bus.Dispatch.{outer_sync}
use gunyah_test_vmm.Vmm.Memory.Device.{region_device}
use gunyah_test_vmm.Vmm.Machine.{GunyahVirtualMachine}
use gunyah_test_vmm.Vmm.Machine
use gunyah_test_vmm.Vmm.Machine.Hole.{LeadsAround, punch_hole-LeadsAround}
use gunyah_test_vmm.Gunyah.Vm
use gunyah_test_vmm.Vmm.Memory.{GunyahGuestMemoryRegion, punch_hole}
use gunyah_test_vmm.Vmm.Memory.Grants.{Grants, extent}
use gunyah_test_vmm.Vmm.Memory.PunchHole.{parts_left, punch_hole-Succeeds}
use gunyah_test_vmm.Vmm.Memory.UpperPart.{punch_hole-Fails}

generous-Grants : Grants generous (λ _. 0x10000)
generous-Grants = record {
  dup_ok = λ fd. pure-Succeeds fd refl;
  stat_ok = λ _. pure-Succeeds tt tt;
  len_ok = λ _. pure-Succeeds 0x10000 refl;
  map_ok = λ _ _. pure-Succeeds 0 tt;
}

-- `size` bytes at `off` in the file
abbrev memory_at : ℕ → ℕ → GunyahGuestMemoryRegion
memory_at off size = record {
  region = record { mem = record { fd = 4 }; off = off; size = size };
  guest_address = 0x8000_0000;
  vm = record { fd = 5 };
  share_type = Vm.share;
  guest_access = Vm.rwx;
  unmap_on_drop = false;
  regular_memory = true;
}

punch_hole-Succeeds_example :
    Succeeds (punch_hole generous debug (memory_at 0 0x10000) 0x4000 0x1000) (λ r.
      (map extent r.0 ≡ parts_left 0x8000_0000 0 0x10000 0x4000 0x1000)
      × (r.1 ≡ record (memory_at 0 0x10000) { unmap_on_drop = false }))
punch_hole-Succeeds_example =
    punch_hole-Succeeds generous (λ _. 0x10000) generous-Grants debug (memory_at 0 0x10000) 0x4000
      0x1000 refl (omega arith) (omega arith) (omega arith) (omega arith) (omega arith)

punch_hole-Fails_example :
    Fails
      (punch_hole generous debug (memory_at 0x5000 0xb000) 0x1000 0x1000)
      (msg "GuestMemRegion extents past end of GuestMem")
punch_hole-Fails_example =
    punch_hole-Fails generous (λ _. 0x10000) generous-Grants debug (memory_at 0x5000 0xb000) 0x1000
      0x1000 (omega arith) refl (omega arith) (omega arith)

abbrev with_memory : GunyahVirtualMachine (Unit {0}) (Unit {0})
with_memory = record {
  vm = record { fd = 5 };
  vcpus = [];
  bus =
      (insert (outer_sync (region_device generous debug (memory_at 0 0x10000))) 0x8000_0000 0x10000
        []).1;
  interrupts = [];
}

memory_removed : (remove 0x8000_0000 0x10000 with_memory.bus).0 ≡ ok tt
unfolding gunyah_test_vmm.Bus.Devices.btree_insert gunyah_test_vmm.Bus.Devices.btree_has
    gunyah_test_vmm.Bus.Devices.btree_remove gunyah_test_vmm.Bus.Devices.has_range
    gunyah_test_vmm.Bus.Devices.insert gunyah_test_vmm.Bus.Devices.reject_overlaps
    gunyah_test_vmm.Bus.Devices.remove
memory_removed = refl

punch_hole-LeadsAround_example :
    (s' : GunyahVirtualMachine (Unit {0}) (Unit {0}) × Unit {0}) × (Machine.punch_hole generous
        debug
        (memory_at 0 0x10000)
        0x4000
        0x1000
        (with_memory, tt)
      ≡ (ok (record (memory_at 0 0x10000) { unmap_on_drop = false }), s'))
    × ((addr : ℕ)
        → LeadsAround generous debug 0x8000_0000 0x10000 0x4000 0x1000 addr
            (get_device addr with_memory.bus)
            (get_device addr s'.0.bus))
punch_hole-LeadsAround_example =
    punch_hole-LeadsAround generous debug (λ _. 0x10000) generous-Grants (memory_at 0 0x10000)
      0x4000 0x1000 with_memory tt refl (omega arith) (omega arith) (omega arith) (omega arith)
      (insert-IsValid (outer_sync (region_device generous debug (memory_at 0 0x10000))) 0x8000_0000
        0x10000 [] (omega arith) tt)
      memory_removed
