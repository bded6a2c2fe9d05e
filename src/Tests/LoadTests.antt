-- ===== src/Tests/LoadTests.antt =====
-- src/main.rs: `load_binaries` on a kernel with one file, whose bytes it keeps.
use gunyah_test_vmm.Base.{
  ℕ, zero, suc, ◌+◌, ◌≤◌, ◌<◌, ◌≡◌, ◌⊎◌, inl, inr, refl, ◌∙◌, ap, List, [], ◌∷◌, ok, some, debug,
  arith, length, update, true, false, ◌^◌,
}
use gunyah_test_vmm.Effects.{pure}
use gunyah_test_vmm.Types.Text.{codes}
use gunyah_test_vmm.Gunyah.Kernel.{Kernel}
use gunyah_test_vmm.Vmm.Machine.Files.{FileMemory}
use gunyah_test_vmm.Tests.BootTests.{nesting, Open}
use gunyah_test_vmm.Tests.RunTests.{default_args, default_top, default_mem_end}
use gunyah_test_vmm.Gunyah.Vm
use gunyah_test_vmm.Bus.Devices.{Devices, insert, reject_overlaps, btree_has}
use gunyah_test_vmm.Bus.Dispatch.{BusEntry, outer_sync}
use gunyah_test_vmm.Vmm.Memory.{GunyahGuestMemoryRegion}
use gunyah_test_vmm.Vmm.Memory.Device.{region_device}
use gunyah_test_vmm.Vmm.Machine.{GunyahVirtualMachine, from_vm, add_memory}
use gunyah_test_vmm.Bus.Devices.{Devices}
use gunyah_test_vmm.Bus.Dispatch.{BusEntry, list_memory_regions}
use gunyah_test_vmm.Vmm.Machine.Writes.{Serves}
use gunyah_test_vmm.Run.Layout.{Placement, plan}
use gunyah_test_vmm.Run.Boot.Loaded.{IsRead}
use gunyah_test_vmm.Run.Boot.SetUp.{set_up-Loads}
use gunyah_test_vmm.Serial.{SerialDevice, serial_new}
use gunyah_test_vmm.Run.Boot.{Host, generate_fdt, page_size, set_up}

-- the bytes of the file
abbrev Bytes : Type 0
Bytes = ℕ → ℕ

fill : ℕ → List ℕ → Bytes → Bytes
fill off [] k = k
fill off (b ∷ bytes) k = fill (suc off) bytes (update k off b)

slice : ℕ → ℕ → Bytes → List ℕ
slice off zero k = []
slice off (suc n) k = k off ∷ slice (suc off) n k

fill-outside :
    (off : ℕ) (bytes : List ℕ) (k : Bytes) (i : ℕ)
    → (i < off) ⊎ (off + length bytes ≤ i)
    → fill off bytes k i ≡ k i
unfolding fill
fill-outside off [] k i h = refl
fill-outside off (b ∷ bytes) k i h =
    fill-outside (suc off) bytes (update k off b) i
      (elim h [ inl below ↦ inl (omega arith) | inr above ↦ inr (omega arith) ])
    ∙ ground arith

slice-fill :
    (off : ℕ) (bytes : List ℕ) (k : Bytes) → slice off (length bytes) (fill off bytes k) ≡ bytes
unfolding slice fill
slice-fill off [] k = refl
slice-fill off (b ∷ bytes) k =
    let head : fill (suc off) bytes (update k off b) off ≡ b =
      fill-outside (suc off) bytes (update k off b) off (inl (omega arith)) ∙ ground arith in
    rw (head, slice-fill (suc off) bytes (update k off b)) refl

slice-same :
    (off len : ℕ) (k k' : Bytes)
    → ((i : ℕ) → off ≤ i → i < off + len → k i ≡ k' i)
    → slice off len k ≡ slice off len k'
unfolding slice
slice-same off zero k k' same = refl
slice-same off (suc len) k k' same =
    let rest = slice-same (suc off) len k k' (λ i low high. same i (omega arith) (omega arith)) in
    rw (same off (omega arith) (omega arith), rest) refl

abbrev one_file : Kernel Bytes
one_file = record {
  ioctl = λ _ _. pure 0;
  dup = λ fd. pure fd;
  stat = λ _. pure tt;
  file_len = λ _. pure 0x640_0000;
  eventfd = pure 3;
  open_file = λ _ _. pure 6;
  write = λ _ _ k. k;
  map_file = λ _ _. pure tt;
  fallocate = λ _ _ _ _. pure tt;
  map_range = λ _ _ _ _. pure 0x1000;
  vcpu_page = λ _ _. record {
    exit_reason = 0;
    phys_addr = 0;
    bytes = [];
    len = 0;
    is_write = 0;
    resume_action = 0;
  };
  set_vcpu_page = λ _ _ k. k;
  copy_from = λ fd off len k. (ok (slice off len k), k);
  copy_to = λ fd off bytes k. (ok tt, fill off bytes k);
}

one_file-FileMemory : FileMemory one_file
unfolding pure
one_file-FileMemory = record {
  reads_back = λ fd off bytes k k' e.
      let same : fill off bytes k ≡ k' = ap (λ x. x.1) e in
      rw (← same, slice-fill off bytes k) refl;
  keeps = λ fd off off' len bytes d k k' e apart there.
      let same : fill off bytes k ≡ k' = ap (λ x. x.1) e in
      let before : slice off' len k ≡ d = ground arith in
      let after : slice off' len (fill off bytes k) ≡ slice off' len k =
        slice-same off' len (fill off bytes k) k λ i low high.
          fill-outside off bytes k i
            (elim apart [ inl h ↦ inl (omega arith) | inr h ↦ inr (omega arith) ]) in
      rw (← same, after, before) refl;
  requests = λ fd off len fd' request d k there. there;
}

one_file-Serves : Serves one_file
unfolding pure
one_file-Serves = record {
  copies = λ fd off bytes k. (fill off bytes k, refl);
  asks = λ fd request k. (0, k, refl);
}

abbrev file_host : Host Bytes Open
file_host = record {
  kernel = one_file;
  writer = nesting;
  new_writer = ok ([], true);
  is_file = λ _ _. true;
  read_file = λ _. pure (1 ∷ 2 ∷ 3 ∷ []);
  hpage_pmd_size = pure (codes "2097152");
  base_page_size = 4096;
  serial_port = λ i. record {
    port_read = λ _ w. (0x60, w);
    interrupt_evt = i;
    port_write = λ _ _ w. (ok tt, w);
    fifo_capacity = λ _. 64;
    enqueue_raw_bytes = λ _. pure tt;
  };
  spawn = λ _. pure tt;
}

abbrev console : SerialDevice Bytes
console = record {
  serial = file_host.serial_port (record {
    line = 1;
    irqfd = record { vm = record { fd = 5 }; label = 1; level = false; eventfd = 3 };
  });
  start = 0x3f800;
}

abbrev all_memory : GunyahGuestMemoryRegion
all_memory = record {
  region = record { mem = record { fd = 0 }; off = 0; size = 0x640_0000 };
  guest_address = 0x8000_0000;
  vm = record { fd = 5 };
  share_type = Vm.lend;
  guest_access = Vm.rwx;
  unmap_on_drop = false;
  regular_memory = true;
}

abbrev blank_file : Bytes
blank_file _ = 0

abbrev placed : Placement
placed = record {
  image_base = record { value = 0x8000_0000 };
  rdisk_base = record { value = 0x8100_0000 };
  dtb_addr = record { value = 0x863f_e000 };
  dtb_len = record { value = 0x2000 };
  dtb = 0xd0 ∷ 0x0d ∷ 0xfe ∷ 0xed ∷ [];
}

abbrev State : Type 0
State = GunyahVirtualMachine Bytes Open × Bytes

abbrev new_machine : State
new_machine = (from_vm (record { fd = 5 }), blank_file)

abbrev with_console : State
with_console =
    (serial_new one_file debug file_host.writer file_host.serial_port 0x3f800 1 new_machine).1

abbrev with_memory : State
with_memory = (add_memory one_file debug 0x8000_0000 0x640_0000 Vm.lend Vm.rwx false with_console).1

abbrev no_devices : Devices (BusEntry Bytes Open)
no_devices = []

abbrev memory_only : State
memory_only = (add_memory one_file debug 0x8000_0000 0x640_0000 Vm.lend Vm.rwx false new_machine).1

set_up_in_steps :
    (serial_new one_file debug file_host.writer file_host.serial_port 0x3f800 1 new_machine
      ≡ (ok console, with_console))
    × (add_memory one_file debug 0x8000_0000 0x640_0000 Vm.lend Vm.rwx false with_console
        ≡ (ok all_memory, with_memory))
    × (plan debug
          (2 ^ 12)
          default_args
          3
          3
          (generate_fdt file_host debug with_memory.0 with_memory.1 default_args (some console))
        ≡ ok placed)
    × (add_memory one_file debug 0x8000_0000 0x640_0000 Vm.lend Vm.rwx false new_machine
        ≡ (ok all_memory, memory_only))
unfolding gunyah_test_vmm.Bus.Devices.btree_has gunyah_test_vmm.Bus.Devices.btree_insert
    gunyah_test_vmm.Bus.Devices.first_before gunyah_test_vmm.Bus.Devices.get_device
    gunyah_test_vmm.Bus.Devices.insert gunyah_test_vmm.Bus.Devices.reject_overlaps
    gunyah_test_vmm.Bus.Dispatch.forward_read gunyah_test_vmm.Bus.Dispatch.forward_write
    gunyah_test_vmm.Bus.Dispatch.generate_device_config
    gunyah_test_vmm.Bus.Dispatch.generate_gunyah_vdevice_config
    gunyah_test_vmm.Bus.Dispatch.list_memory_regions gunyah_test_vmm.Bus.Dispatch.read
    gunyah_test_vmm.Bus.Dispatch.try_for_each gunyah_test_vmm.Bus.Dispatch.write
    gunyah_test_vmm.Effects.fail gunyah_test_vmm.Effects.in_context gunyah_test_vmm.Effects.lift
    gunyah_test_vmm.Effects.or_panic gunyah_test_vmm.Effects.pure gunyah_test_vmm.Effects.◌>>=◌
    gunyah_test_vmm.Effects.◌>>◌ gunyah_test_vmm.Gunyah.Device.create_guest_memory
    gunyah_test_vmm.Gunyah.Device.create_guest_memory_with_flags
    gunyah_test_vmm.Gunyah.Device.gunyah_new gunyah_test_vmm.Gunyah.Device.open_with_cloexec
    gunyah_test_vmm.Gunyah.Device.open_with_cloexec_at gunyah_test_vmm.Gunyah.Functions.irqfd_new
    gunyah_test_vmm.Gunyah.Functions.mmap gunyah_test_vmm.Gunyah.Functions.run
    gunyah_test_vmm.Gunyah.Functions.vcpu_new gunyah_test_vmm.Gunyah.GuestMem.map_options
    gunyah_test_vmm.Gunyah.GuestMem.mem_clone gunyah_test_vmm.Gunyah.GuestMem.mem_dup
    gunyah_test_vmm.Gunyah.GuestMem.mem_from_file gunyah_test_vmm.Gunyah.GuestMem.region_new
    gunyah_test_vmm.Gunyah.Kernel.boot_context_reg_id gunyah_test_vmm.Gunyah.Vm.add_function
    gunyah_test_vmm.Gunyah.Vm.fn_desc gunyah_test_vmm.Gunyah.Vm.map_args
    gunyah_test_vmm.Gunyah.Vm.map_flags gunyah_test_vmm.Gunyah.Vm.map_memory
    gunyah_test_vmm.Gunyah.Vm.map_memory_inner gunyah_test_vmm.Gunyah.Vm.set_boot_context
    gunyah_test_vmm.Gunyah.Vm.set_boot_pc gunyah_test_vmm.Gunyah.Vm.set_dtb_config
    gunyah_test_vmm.Gunyah.Vm.start gunyah_test_vmm.Gunyah.Vm.unmap_memory
    gunyah_test_vmm.Gunyah.Vm.vm_clone gunyah_test_vmm.Gunyah.Vm.vm_dup
    gunyah_test_vmm.Run.Align.align_address gunyah_test_vmm.Run.Align.align_address_offset
    gunyah_test_vmm.Run.Align.align_size gunyah_test_vmm.Run.Align.align_up
    gunyah_test_vmm.Run.Args.find_missing gunyah_test_vmm.Run.Args.gic_config
    gunyah_test_vmm.Run.Args.mem_end gunyah_test_vmm.Run.Args.validate
    gunyah_test_vmm.Run.Boot.attempt gunyah_test_vmm.Run.Boot.check_args
    gunyah_test_vmm.Run.Boot.create_vcpus gunyah_test_vmm.Run.Boot.execute
    gunyah_test_vmm.Run.Boot.generate_fdt gunyah_test_vmm.Run.Boot.load_binaries
    gunyah_test_vmm.Run.Boot.page_size gunyah_test_vmm.Run.Boot.parse_page_size
    gunyah_test_vmm.Run.Boot.place gunyah_test_vmm.Run.Boot.pop_vcpu gunyah_test_vmm.Run.Boot.set_up
    gunyah_test_vmm.Run.Boot.spawn_vcpus gunyah_test_vmm.Run.Boot.stdout_path
    gunyah_test_vmm.Run.Boot.write_fdt gunyah_test_vmm.Run.Layout.check_last
    gunyah_test_vmm.Run.Layout.check_regions gunyah_test_vmm.Run.Layout.insert_by_addr
    gunyah_test_vmm.Run.Layout.neighbours_overlap gunyah_test_vmm.Run.Layout.place_dtb
    gunyah_test_vmm.Run.Layout.place_dtb_len gunyah_test_vmm.Run.Layout.place_rdisk
    gunyah_test_vmm.Run.Layout.plan gunyah_test_vmm.Run.Layout.sort_by_addr
    gunyah_test_vmm.Serial.device_name gunyah_test_vmm.Serial.serial_config
    gunyah_test_vmm.Serial.serial_device gunyah_test_vmm.Serial.serial_new
    gunyah_test_vmm.Serial.serial_read gunyah_test_vmm.Serial.serial_write
    gunyah_test_vmm.Types.Guest.address_add gunyah_test_vmm.Types.Guest.size_try_into
    gunyah_test_vmm.Types.Radix.digit_value gunyah_test_vmm.Types.Radix.digits
    gunyah_test_vmm.Types.Radix.emit gunyah_test_vmm.Types.Radix.from_str_radix
    gunyah_test_vmm.Types.Radix.push_digit gunyah_test_vmm.Types.Radix.scan
    gunyah_test_vmm.Types.Radix.to_digit gunyah_test_vmm.Types.Text.trim
    gunyah_test_vmm.Types.Text.trim_end gunyah_test_vmm.Types.Text.trim_start
    gunyah_test_vmm.Vmm.DeviceTree.cpu_nodes gunyah_test_vmm.Vmm.DeviceTree.create_fdt_basic_config
    gunyah_test_vmm.Vmm.DeviceTree.create_fdt_vm_config
    gunyah_test_vmm.Vmm.DeviceTree.firmware_property
    gunyah_test_vmm.Vmm.DeviceTree.generate_vdevices gunyah_test_vmm.Vmm.DeviceTree.timer_config
    gunyah_test_vmm.Vmm.Interrupt.fdt_config gunyah_test_vmm.Vmm.Interrupt.generate_vdevice
    gunyah_test_vmm.Vmm.Interrupt.interrupt_new gunyah_test_vmm.Vmm.Interrupt.new_edge
    gunyah_test_vmm.Vmm.Machine.add_device gunyah_test_vmm.Vmm.Machine.add_edge_interrupt
    gunyah_test_vmm.Vmm.Machine.add_memory gunyah_test_vmm.Vmm.Machine.add_memory_region
    gunyah_test_vmm.Vmm.Machine.bus_insert gunyah_test_vmm.Vmm.Machine.create_vcpu
    gunyah_test_vmm.Vmm.Machine.insert_region gunyah_test_vmm.Vmm.Machine.on_world
    gunyah_test_vmm.Vmm.Machine.set_boot_pc gunyah_test_vmm.Vmm.Machine.set_dtb_config
    gunyah_test_vmm.Vmm.Machine.start gunyah_test_vmm.Vmm.Machine.update
    gunyah_test_vmm.Vmm.Machine.write_slice gunyah_test_vmm.Vmm.Memory.drop_region
    gunyah_test_vmm.Vmm.Memory.memory_region_new gunyah_test_vmm.Vmm.Memory.memory_regions
    gunyah_test_vmm.Vmm.Memory.Device.device_read gunyah_test_vmm.Vmm.Memory.Device.device_write
    gunyah_test_vmm.Vmm.Memory.Device.region_device gunyah_test_vmm.Vmm.Memory.Device.region_read
    gunyah_test_vmm.Vmm.Memory.Device.region_write gunyah_test_vmm.Vmm.Vcpu.vcpu_new
set_up_in_steps = (refl, refl, refl, refl)

abbrev three : List ℕ
three = 0 ∷ 0 ∷ 0 ∷ []

the_page : page_size file_host debug default_args with_memory.1 ≡ (ok (2 ^ 12), with_memory.1)
unfolding page_size pure
the_page = refl

the_files : file_host.read_file (codes "Image") with_memory.1 ≡ (ok (1 ∷ 2 ∷ 3 ∷ []), with_memory.1)
unfolding pure
the_files = refl

set_up-Loads_example :
    (s' : State) × (set_up file_host debug default_args new_machine ≡ (ok tt, s'))
    × IsRead placed.dtb_addr (0 ∷ three) placed.dtb s'
    × IsRead placed.image_base three (1 ∷ 2 ∷ 3 ∷ []) s'
    × IsRead placed.rdisk_base three (1 ∷ 2 ∷ 3 ∷ []) s'
set_up-Loads_example =
    set_up-Loads file_host one_file-FileMemory one_file-Serves default_args console 12 default_top
      all_memory (1 ∷ 2 ∷ 3 ∷ []) (1 ∷ 2 ∷ 3 ∷ []) placed new_machine with_console with_memory
      with_memory.1 with_memory.1 with_memory.1 (0 ∷ three) three three (omega arith) tt
      (omega arith) set_up_in_steps.0 set_up_in_steps.1 the_files the_files the_page
      set_up_in_steps.2 default_mem_end refl refl refl refl refl refl refl refl refl
