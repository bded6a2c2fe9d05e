-- ===== src/Tests/TreeTests.antt =====
-- The device tree of a machine with memory, a vCPU and an interrupt, on a writer that keeps the rules.
use gunyah_test_vmm.Base.{ℕ, ◌≡◌, refl, Bool, true, false, List, [], ◌∷◌, none, ok, debug, eq→==}
use gunyah_test_vmm.Effects.{M}
use gunyah_test_vmm.Fdt.Tree.{write_items}
use gunyah_test_vmm.Fdt.Nesting.{Observed, IsLawful, IsFine, Balanced}
use gunyah_test_vmm.Gunyah.Vm
use gunyah_test_vmm.Bus.Devices.{insert}
use gunyah_test_vmm.Bus.Dispatch
use gunyah_test_vmm.Bus.Dispatch.{
  outer_sync, list_memory_regions, generate_device_config, generate_gunyah_vdevice_config,
}
use gunyah_test_vmm.Vmm.Memory.{GunyahGuestMemoryRegion}
use gunyah_test_vmm.Vmm.Memory.Device.{region_device}
use gunyah_test_vmm.Vmm.Machine.{GunyahVirtualMachine}
use gunyah_test_vmm.Vmm.DeviceTree.{GicConfig, first}
use gunyah_test_vmm.Run.Args.{gic_config}
use gunyah_test_vmm.Run.Boot.{write_fdt}
use gunyah_test_vmm.Run.Boot.Tree.{fdt_items, write_fdt-Balanced}
use gunyah_test_vmm.Tests.RunTests.{default_args}
use gunyah_test_vmm.Tests.BootTests.{roomy, nesting, test_host, Open}

abbrev seen : Observed Open
seen = record {
  opened = λ f. f.0;
  property_allowed = λ f. f.1;
  NameIsFine = λ _. Unit {0};
  ValueIsFine = λ _ _. Unit {0};
}

end_top :
    (id : ℕ) (rest l : List ℕ) (b : Bool)
    → l ≡ id ∷ rest
    → (f' : Open) × (nesting.end_node id (l, b) ≡ (ok tt, f')) × (f'.0 ≡ rest)
end_top id rest l b e = rw e ((rest, false), rw (eq→== id id refl) refl, refl)

add_here :
    (f : Open)
    → f.1 ≡ true
    → (f' : Open) × (nesting.property "reg" (gunyah_test_vmm.Fdt.null) f ≡ (ok tt, f'))
      × (f'.0 ≡ f.0)
      × (f'.1 ≡ true)
add_here f e = (f, rw e refl, refl, e)

nesting-IsLawful : IsLawful seen nesting
nesting-IsLawful = record {
  begins = λ name f fine. (_, _, refl, refl, refl);
  ends = λ id rest f e. end_top id rest f.0 f.1 e;
  adds = λ name value f fine e. add_here f e;
}

abbrev memory : GunyahGuestMemoryRegion
memory = record {
  region = record { mem = record { fd = 7 }; off = 0; size = 0x640_0000 };
  guest_address = 0x8000_0000;
  vm = record { fd = 5 };
  share_type = Vm.lend;
  guest_access = Vm.rwx;
  unmap_on_drop = false;
  regular_memory = true;
}

abbrev machine : GunyahVirtualMachine (Unit {0}) Open
machine = record {
  vm = record { fd = 5 };
  vcpus =
      record {
        access_id = Dispatch.vcpu 0;
        vcpu = record { vm = record { fd = 5 }; id = 0; vcpu = 8 };
      }
      ∷ [];
  bus =
      (
        record { base = 0x8000_0000; len = 0x640_0000 },
        outer_sync (region_device roomy debug memory),
      )
      ∷ [];
  interrupts =
      record {
        line = 1;
        irqfd = record { vm = record { fd = 5 }; label = 1; level = false; eventfd = 3 };
      }
      ∷ [];
}

abbrev gic : GicConfig
gic = record {
  dist_base = 0x3fff0000;
  dist_size = 0x10000;
  redist_base = 0x3fef0000;
  redist_size = 0x100000;
}

gic_is_placed : gic_config debug default_args ≡ ok gic
unfolding gunyah_test_vmm.Effects.◌>>=◌ gunyah_test_vmm.Effects.◌>>◌
    gunyah_test_vmm.Run.Args.gic_config
gic_is_placed = refl

memory_is_listed : first (list_memory_regions machine.bus tt) ≡ ok 0x8000_0000
unfolding gunyah_test_vmm.Bus.Devices.first_before gunyah_test_vmm.Bus.Devices.get_device
    gunyah_test_vmm.Bus.Dispatch.forward_read gunyah_test_vmm.Bus.Dispatch.forward_write
    gunyah_test_vmm.Bus.Dispatch.list_memory_regions gunyah_test_vmm.Bus.Dispatch.read
    gunyah_test_vmm.Bus.Dispatch.write gunyah_test_vmm.Effects.fail gunyah_test_vmm.Effects.lift
    gunyah_test_vmm.Effects.◌>>=◌ gunyah_test_vmm.Effects.◌>>◌
    gunyah_test_vmm.Gunyah.GuestMem.map_options gunyah_test_vmm.Vmm.Memory.memory_regions
    gunyah_test_vmm.Vmm.Memory.Device.device_read gunyah_test_vmm.Vmm.Memory.Device.device_write
    gunyah_test_vmm.Vmm.Memory.Device.region_device gunyah_test_vmm.Vmm.Memory.Device.region_read
    gunyah_test_vmm.Vmm.Memory.Device.region_write
memory_is_listed = refl

device_configs-Balanced : Balanced seen false (generate_device_config machine.bus tt)
unfolding gunyah_test_vmm.Bus.Devices.first_before gunyah_test_vmm.Bus.Devices.get_device
    gunyah_test_vmm.Bus.Dispatch.forward_read gunyah_test_vmm.Bus.Dispatch.forward_write
    gunyah_test_vmm.Bus.Dispatch.generate_device_config gunyah_test_vmm.Bus.Dispatch.read
    gunyah_test_vmm.Bus.Dispatch.try_for_each gunyah_test_vmm.Bus.Dispatch.write
    gunyah_test_vmm.Effects.fail gunyah_test_vmm.Effects.lift gunyah_test_vmm.Effects.◌>>=◌
    gunyah_test_vmm.Effects.◌>>◌ gunyah_test_vmm.Gunyah.GuestMem.map_options
    gunyah_test_vmm.Vmm.Memory.memory_regions gunyah_test_vmm.Vmm.Memory.Device.device_read
    gunyah_test_vmm.Vmm.Memory.Device.device_write gunyah_test_vmm.Vmm.Memory.Device.region_device
    gunyah_test_vmm.Vmm.Memory.Device.region_read gunyah_test_vmm.Vmm.Memory.Device.region_write
device_configs-Balanced f can = (f, refl, refl)

vdevice_configs-Balanced : Balanced seen false (generate_gunyah_vdevice_config machine.bus tt)
unfolding gunyah_test_vmm.Bus.Devices.first_before gunyah_test_vmm.Bus.Devices.get_device
    gunyah_test_vmm.Bus.Dispatch.forward_read gunyah_test_vmm.Bus.Dispatch.forward_write
    gunyah_test_vmm.Bus.Dispatch.generate_gunyah_vdevice_config gunyah_test_vmm.Bus.Dispatch.read
    gunyah_test_vmm.Bus.Dispatch.try_for_each gunyah_test_vmm.Bus.Dispatch.write
    gunyah_test_vmm.Effects.fail gunyah_test_vmm.Effects.lift gunyah_test_vmm.Effects.◌>>=◌
    gunyah_test_vmm.Effects.◌>>◌ gunyah_test_vmm.Gunyah.GuestMem.map_options
    gunyah_test_vmm.Vmm.Memory.memory_regions gunyah_test_vmm.Vmm.Memory.Device.device_read
    gunyah_test_vmm.Vmm.Memory.Device.device_write gunyah_test_vmm.Vmm.Memory.Device.region_device
    gunyah_test_vmm.Vmm.Memory.Device.region_read gunyah_test_vmm.Vmm.Memory.Device.region_write
vdevice_configs-Balanced f can = (f, refl, refl)

tree-IsFine : IsFine seen (
    fdt_items machine tt default_args none
      (record { value = 0x8100_0000 })
      (record { value = 0x8100_0003 })
      gic
      0x8000_0000)
unfolding gunyah_test_vmm.Fdt.Tree.◌then◌
tree-IsFine = search (device_configs-Balanced, vdevice_configs-Balanced) depth 60

write_fdt-Balanced_example : Balanced seen true (
    write_fdt test_host debug machine tt default_args none
      (record { value = 0x8100_0000 })
      (record { value = 0x8100_0003 }))
write_fdt-Balanced_example =
    write_fdt-Balanced test_host debug seen machine tt default_args none
      (record { value = 0x8100_0000 }) (record { value = 0x8100_0003 }) gic 0x8000_0000
      nesting-IsLawful gic_is_placed memory_is_listed tree-IsFine
