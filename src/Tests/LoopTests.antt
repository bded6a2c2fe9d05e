-- ===== src/Tests/LoopTests.antt =====
-- vmm/src: a vCPU in its loop on a bus with one device, and bytes in guest memory.
use gunyah_test_vmm.Base.{
  ℕ, ◌≡◌, ◌≢◌, refl, ap, false, true, List, [], ◌∷◌, ok, panic, debug, arith,
}
use gunyah_test_vmm.Effects.{pure}
use gunyah_test_vmm.Gunyah.Kernel.{Kernel}
use gunyah_test_vmm.Gunyah.Vm
use gunyah_test_vmm.Bus.Devices.{Devices, insert}
use gunyah_test_vmm.Bus.Dispatch.{
  BusEntry, BusDevice, AccessId, vcpu, vmm_userspace, default_device, outer_sync, read, write,
}
use gunyah_test_vmm.Vmm.Vcpu.{GunyahVcpu, run_rounds}
use gunyah_test_vmm.Vmm.Vcpu.Loop.{GoesOn, run_rounds-Good}
use gunyah_test_vmm.Vmm.Memory.{GunyahGuestMemoryRegion}
use gunyah_test_vmm.Vmm.Memory.Device.{region_device}
use gunyah_test_vmm.Vmm.Machine.{GunyahVirtualMachine, write_slice, read_slice}
use gunyah_test_vmm.Vmm.Machine.Slices.{ReadsBack, read_slice-write_slice}
use gunyah_test_vmm.Tests.Kernels.{generous}
use gunyah_test_vmm.Tests.MachineTests.{access_page}

-- every run ends in a write of one byte
abbrev pub writing : Kernel (Unit {0})
writing = record generous { vcpu_page = λ _ _. access_page 1 }

-- eight registers that forget what they are given
abbrev pub sink : Devices (BusEntry (Unit {0}) (Unit {0}))
sink =
    (
      record { base = 0x3f800; len = 8 },
      outer_sync (record (default_device (λ _. "sink")) {
        read = λ _ d w. (ok tt, d, w);
        write = λ _ _ w. (ok tt, w);
      }),
    )
    ∷ []

sink-read : (id : AccessId) (addr : ℕ) (d : List ℕ) → (read id addr d sink tt).0 ≢ panic
unfolding gunyah_test_vmm.Bus.Devices.first_before gunyah_test_vmm.Bus.Devices.get_device
    gunyah_test_vmm.Bus.Dispatch.forward_read gunyah_test_vmm.Bus.Dispatch.read
sink-read id addr d e = ground arith

sink-write : (id : AccessId) (addr : ℕ) (d : List ℕ) → (write id addr d sink tt).0 ≢ panic
unfolding gunyah_test_vmm.Bus.Devices.first_before gunyah_test_vmm.Bus.Devices.get_device
    gunyah_test_vmm.Bus.Dispatch.forward_write gunyah_test_vmm.Bus.Dispatch.write
sink-write id addr d e = ground arith

abbrev first_vcpu : GunyahVcpu
first_vcpu = record {
  access_id = vcpu 0;
  vcpu = record { vm = record { fd = 5 }; id = 0; vcpu = 8 };
}

writing-GoesOn : GoesOn writing first_vcpu sink (λ _. Unit {0})
unfolding pure gunyah_test_vmm.Gunyah.Functions.mmap
writing-GoesOn = record {
  runs = λ w good. (0, tt, refl, tt, (1, omega arith, (refl, refl, omega arith)));
  reads = λ w addr d good. (sink-read (vcpu 0) addr d, tt);
  writes = λ w addr d good. (sink-write (vcpu 0) addr d, tt);
  stores = λ w page good. tt;
}

run_rounds-Good_example :
    (w' : Unit {0}) × (run_rounds writing 1000 first_vcpu sink tt ≡ (ok tt, w')) × Unit {0}
run_rounds-Good_example =
    run_rounds-Good writing first_vcpu sink (λ _. Unit {0}) writing-GoesOn 1000 tt tt

-- a kernel that keeps the bytes that were copied last
abbrev one_slot : Kernel (List ℕ)
one_slot = record {
  ioctl = λ _ _. pure 0;
  dup = λ fd. pure fd;
  stat = λ _. pure tt;
  file_len = λ _. pure 0x10000;
  eventfd = pure 3;
  open_file = λ _ _. pure 6;
  write = λ _ _ k. k;
  map_file = λ _ _. pure tt;
  fallocate = λ _ _ _ _. pure tt;
  map_range = λ _ _ _ _. pure 0x1000;
  vcpu_page = λ _ _. access_page 1;
  set_vcpu_page = λ _ _ k. k;
  copy_from = λ _ _ _ k. (ok k, k);
  copy_to = λ _ _ bytes k. (ok tt, bytes);
}

one_slot-ReadsBack : ReadsBack one_slot
one_slot-ReadsBack fd off bytes k k' e = let same : bytes ≡ k' = ap (λ x. x.1) e in rw same refl

abbrev guest_memory : GunyahGuestMemoryRegion
guest_memory = record {
  region = record { mem = record { fd = 7 }; off = 0x1000; size = 0x1000 };
  guest_address = 0x8000_0000;
  vm = record { fd = 5 };
  share_type = Vm.lend;
  guest_access = Vm.rwx;
  unmap_on_drop = false;
  regular_memory = true;
}

abbrev empty_bus : Devices (BusEntry (List ℕ) (Unit {0}))
empty_bus = []

abbrev filled : GunyahVirtualMachine (List ℕ) (Unit {0})
filled = record {
  vm = record { fd = 5 };
  vcpus = [];
  bus =
      (insert (outer_sync (region_device one_slot debug guest_memory)) 0x8000_0000 0x1000
        empty_bus).1;
  interrupts = [];
}

guest_memory_inserted :
    (insert (outer_sync (region_device one_slot debug guest_memory)) 0x8000_0000 0x1000 empty_bus).0
    ≡ ok tt
unfolding insert gunyah_test_vmm.Bus.Devices.reject_overlaps gunyah_test_vmm.Bus.Devices.btree_has
guest_memory_inserted = refl

bytes_are_written :
    write_slice 0x8000_0800 (1 ∷ 2 ∷ []) (filled, []) ≡ (ok tt, (filled, 1 ∷ 2 ∷ []))
unfolding gunyah_test_vmm.Bus.Devices.btree_has gunyah_test_vmm.Bus.Devices.btree_insert
    gunyah_test_vmm.Bus.Devices.first_before gunyah_test_vmm.Bus.Devices.get_device
    gunyah_test_vmm.Bus.Devices.insert gunyah_test_vmm.Bus.Devices.reject_overlaps
    gunyah_test_vmm.Bus.Dispatch.forward_read gunyah_test_vmm.Bus.Dispatch.forward_write
    gunyah_test_vmm.Bus.Dispatch.read gunyah_test_vmm.Bus.Dispatch.write
    gunyah_test_vmm.Effects.fail gunyah_test_vmm.Effects.lift gunyah_test_vmm.Effects.◌>>=◌
    gunyah_test_vmm.Effects.◌>>◌ gunyah_test_vmm.Gunyah.GuestMem.map_options
    gunyah_test_vmm.Vmm.Machine.on_world gunyah_test_vmm.Vmm.Machine.write_slice
    gunyah_test_vmm.Vmm.Memory.memory_regions gunyah_test_vmm.Vmm.Memory.Device.device_read
    gunyah_test_vmm.Vmm.Memory.Device.device_write gunyah_test_vmm.Vmm.Memory.Device.region_device
    gunyah_test_vmm.Vmm.Memory.Device.region_read gunyah_test_vmm.Vmm.Memory.Device.region_write
bytes_are_written = refl

read_slice-write_slice_example :
    read_slice 0x8000_0800 (0 ∷ 0 ∷ []) (filled, 1 ∷ 2 ∷ [])
    ≡ (ok tt, 1 ∷ 2 ∷ [], (filled, 1 ∷ 2 ∷ []))
read_slice-write_slice_example =
    read_slice-write_slice one_slot debug guest_memory 0x8000_0000 0x1000 0x8000_0800 empty_bus
      filled (filled, 1 ∷ 2 ∷ []) (1 ∷ 2 ∷ []) (0 ∷ 0 ∷ []) [] one_slot-ReadsBack (omega arith) tt
      guest_memory_inserted refl refl refl bytes_are_written
