-- ===== src/Tests/MachineTests.antt =====
-- vmm/src and src/serial.rs on a bus with a console.
use gunyah_test_vmm.Base.{
  ℕ, ◌-◌, ◌≡◌, ◌≢◌, ◌↔◌, err, refl, false, List, [], ◌∷◌, ok, panic, debug, arith, length,
}
use gunyah_test_vmm.Effects.{pure}
use gunyah_test_vmm.Gunyah.Kernel.{Kernel, VcpuRun}
use gunyah_test_vmm.Gunyah.Vm
use gunyah_test_vmm.Tests.Kernels.{generous, blank}
use gunyah_test_vmm.Vmm.Interrupt.{GunyahInterrupt}
use gunyah_test_vmm.Bus.Devices.{Devices, insert, reject_overlaps, btree_has}
use gunyah_test_vmm.Bus.Dispatch.{
  BusEntry, outer_sync, BusDevice, vcpu, forward_read, forward_write, read,
}
use gunyah_test_vmm.Serial.{SerialDevice, serial_device, serial_new}
use gunyah_test_vmm.Serial.Guest.{
  read_at, write_at, handle_exit-serial_new-read, handle_exit-serial_new-write,
}
use gunyah_test_vmm.Errors.{AnyError}
use gunyah_test_vmm.Vmm.Vcpu.{GunyahVcpu, handle_exit, vmmio_provide_read}
use gunyah_test_vmm.Vmm.Vcpu.Provided.{Waits, vmmio_provide_read_iff}
use gunyah_test_vmm.Vmm.Machine.{GunyahVirtualMachine, from_vm}
use gunyah_test_vmm.Vmm.Machine.Keeps.{BusIsValid}
use gunyah_test_vmm.Vmm.Machine.Reachable.{
  Call, device_call, memory_call, start_call, perform_all, perform_all-BusIsValid,
}

abbrev line_1 : GunyahInterrupt
line_1 = record {
  line = 1;
  irqfd = record { vm = record { fd = 5 }; label = 1; level = false; eventfd = 3 };
}

-- registers that answer 0x60 and accept everything
abbrev pub console : SerialDevice (Unit {0})
console = record {
  serial = record {
    port_read = λ _ w. (0x60, w);
    interrupt_evt = line_1;
    port_write = λ _ _ w. (ok tt, w);
    fifo_capacity = λ _. 64;
    enqueue_raw_bytes = λ _. pure tt;
  };
  start = 0x3f800;
}

abbrev console_device : BusDevice (Unit {0}) (Unit {0})
console_device = serial_device blank console

abbrev seven : List ℕ
seven = 2 ∷ 3 ∷ 4 ∷ 5 ∷ 6 ∷ 7 ∷ 8 ∷ []

-- the guest reads (0) or writes (1) one byte at the console
abbrev pub access_page : ℕ → VcpuRun
access_page direction = record {
  exit_reason = 1;
  phys_addr = 0x3f805;
  bytes = 1 ∷ seven;
  len = 1;
  is_write = direction;
  resume_action = 0;
}

-- the machine that the console has been added to
abbrev with_console : GunyahVirtualMachine (Unit {0}) (Unit {0}) × Unit {0}
with_console =
    (serial_new generous debug blank (λ _. console.serial) 0x3f800 1
      (from_vm (record { fd = 5 }), tt)).1

the_console :
    serial_new generous debug blank
      (λ _. console.serial)
      0x3f800
      1
      (from_vm (record { fd = 5 }), tt)
    ≡ (ok console, with_console)
unfolding gunyah_test_vmm.Bus.Devices.btree_has gunyah_test_vmm.Bus.Devices.btree_insert
    gunyah_test_vmm.Bus.Devices.first_before gunyah_test_vmm.Bus.Devices.get_device
    gunyah_test_vmm.Bus.Devices.insert gunyah_test_vmm.Bus.Devices.reject_overlaps
    gunyah_test_vmm.Bus.Dispatch.forward_read gunyah_test_vmm.Bus.Dispatch.forward_write
    gunyah_test_vmm.Bus.Dispatch.generate_device_config
    gunyah_test_vmm.Bus.Dispatch.generate_gunyah_vdevice_config
    gunyah_test_vmm.Bus.Dispatch.list_memory_regions gunyah_test_vmm.Bus.Dispatch.read
    gunyah_test_vmm.Bus.Dispatch.try_for_each gunyah_test_vmm.Bus.Dispatch.write
    gunyah_test_vmm.Effects.fail gunyah_test_vmm.Effects.in_context gunyah_test_vmm.Effects.lift
    gunyah_test_vmm.Effects.or_panic gunyah_test_vmm.Effects.pure gunyah_test_vmm.Effects.◌>>=◌
    gunyah_test_vmm.Effects.◌>>◌ gunyah_test_vmm.Gunyah.Device.create_guest_memory
    gunyah_test_vmm.Gunyah.Device.create_guest_memory_with_flags
    gunyah_test_vmm.Gunyah.Device.gunyah_new gunyah_test_vmm.Gunyah.Device.open_with_cloexec
    gunyah_test_vmm.Gunyah.Device.open_with_cloexec_at gunyah_test_vmm.Gunyah.Functions.irqfd_new
    gunyah_test_vmm.Gunyah.Functions.mmap gunyah_test_vmm.Gunyah.Functions.run
    gunyah_test_vmm.Gunyah.Functions.vcpu_new gunyah_test_vmm.Gunyah.GuestMem.map_options
    gunyah_test_vmm.Gunyah.GuestMem.mem_clone gunyah_test_vmm.Gunyah.GuestMem.mem_dup
    gunyah_test_vmm.Gunyah.GuestMem.mem_from_file gunyah_test_vmm.Gunyah.GuestMem.region_new
    gunyah_test_vmm.Gunyah.Kernel.boot_context_reg_id gunyah_test_vmm.Gunyah.Vm.add_function
    gunyah_test_vmm.Gunyah.Vm.fn_desc gunyah_test_vmm.Gunyah.Vm.map_args
    gunyah_test_vmm.Gunyah.Vm.map_flags gunyah_test_vmm.Gunyah.Vm.map_memory
    gunyah_test_vmm.Gunyah.Vm.map_memory_inner gunyah_test_vmm.Gunyah.Vm.set_boot_context
    gunyah_test_vmm.Gunyah.Vm.set_boot_pc gunyah_test_vmm.Gunyah.Vm.set_dtb_config
    gunyah_test_vmm.Gunyah.Vm.start gunyah_test_vmm.Gunyah.Vm.unmap_memory
    gunyah_test_vmm.Gunyah.Vm.vm_clone gunyah_test_vmm.Gunyah.Vm.vm_dup
    gunyah_test_vmm.Run.Align.align_address gunyah_test_vmm.Run.Align.align_address_offset
    gunyah_test_vmm.Run.Align.align_size gunyah_test_vmm.Run.Align.align_up
    gunyah_test_vmm.Run.Args.find_missing gunyah_test_vmm.Run.Args.gic_config
    gunyah_test_vmm.Run.Args.mem_end gunyah_test_vmm.Run.Args.validate
    gunyah_test_vmm.Run.Boot.attempt gunyah_test_vmm.Run.Boot.check_args
    gunyah_test_vmm.Run.Boot.create_vcpus gunyah_test_vmm.Run.Boot.execute
    gunyah_test_vmm.Run.Boot.generate_fdt gunyah_test_vmm.Run.Boot.load_binaries
    gunyah_test_vmm.Run.Boot.page_size gunyah_test_vmm.Run.Boot.parse_page_size
    gunyah_test_vmm.Run.Boot.place gunyah_test_vmm.Run.Boot.pop_vcpu gunyah_test_vmm.Run.Boot.set_up
    gunyah_test_vmm.Run.Boot.spawn_vcpus gunyah_test_vmm.Run.Boot.stdout_path
    gunyah_test_vmm.Run.Boot.write_fdt gunyah_test_vmm.Run.Layout.check_last
    gunyah_test_vmm.Run.Layout.check_regions gunyah_test_vmm.Run.Layout.insert_by_addr
    gunyah_test_vmm.Run.Layout.neighbours_overlap gunyah_test_vmm.Run.Layout.place_dtb
    gunyah_test_vmm.Run.Layout.place_dtb_len gunyah_test_vmm.Run.Layout.place_rdisk
    gunyah_test_vmm.Run.Layout.plan gunyah_test_vmm.Run.Layout.sort_by_addr
    gunyah_test_vmm.Serial.device_name gunyah_test_vmm.Serial.serial_config
    gunyah_test_vmm.Serial.serial_device gunyah_test_vmm.Serial.serial_new
    gunyah_test_vmm.Serial.serial_read gunyah_test_vmm.Serial.serial_write
    gunyah_test_vmm.Types.Guest.address_add gunyah_test_vmm.Types.Guest.size_try_into
    gunyah_test_vmm.Types.Radix.digit_value gunyah_test_vmm.Types.Radix.digits
    gunyah_test_vmm.Types.Radix.emit gunyah_test_vmm.Types.Radix.from_str_radix
    gunyah_test_vmm.Types.Radix.push_digit gunyah_test_vmm.Types.Radix.scan
    gunyah_test_vmm.Types.Radix.to_digit gunyah_test_vmm.Types.Text.trim
    gunyah_test_vmm.Types.Text.trim_end gunyah_test_vmm.Types.Text.trim_start
    gunyah_test_vmm.Vmm.DeviceTree.cpu_nodes gunyah_test_vmm.Vmm.DeviceTree.create_fdt_basic_config
    gunyah_test_vmm.Vmm.DeviceTree.create_fdt_vm_config
    gunyah_test_vmm.Vmm.DeviceTree.firmware_property
    gunyah_test_vmm.Vmm.DeviceTree.generate_vdevices gunyah_test_vmm.Vmm.DeviceTree.timer_config
    gunyah_test_vmm.Vmm.Interrupt.fdt_config gunyah_test_vmm.Vmm.Interrupt.generate_vdevice
    gunyah_test_vmm.Vmm.Interrupt.interrupt_new gunyah_test_vmm.Vmm.Interrupt.new_edge
    gunyah_test_vmm.Vmm.Machine.add_device gunyah_test_vmm.Vmm.Machine.add_edge_interrupt
    gunyah_test_vmm.Vmm.Machine.add_memory gunyah_test_vmm.Vmm.Machine.add_memory_region
    gunyah_test_vmm.Vmm.Machine.bus_insert gunyah_test_vmm.Vmm.Machine.create_vcpu
    gunyah_test_vmm.Vmm.Machine.insert_region gunyah_test_vmm.Vmm.Machine.on_world
    gunyah_test_vmm.Vmm.Machine.set_boot_pc gunyah_test_vmm.Vmm.Machine.set_dtb_config
    gunyah_test_vmm.Vmm.Machine.start gunyah_test_vmm.Vmm.Machine.update
    gunyah_test_vmm.Vmm.Machine.write_slice gunyah_test_vmm.Vmm.Memory.drop_region
    gunyah_test_vmm.Vmm.Memory.memory_region_new gunyah_test_vmm.Vmm.Memory.memory_regions
    gunyah_test_vmm.Vmm.Memory.Device.device_read gunyah_test_vmm.Vmm.Memory.Device.device_write
    gunyah_test_vmm.Vmm.Memory.Device.region_device gunyah_test_vmm.Vmm.Memory.Device.region_read
    gunyah_test_vmm.Vmm.Memory.Device.region_write gunyah_test_vmm.Vmm.Vcpu.vcpu_new
the_console = refl

handle_exit-serial_new-read_example :
    handle_exit (vcpu 0) with_console.0.bus (access_page 0) tt
    ≡ read_at console.serial (0x3f805 - 0x3f800) (access_page 0) seven tt
handle_exit-serial_new-read_example =
    handle_exit-serial_new-read generous debug blank (λ _. console.serial) 0x3f800 1
      (from_vm (record { fd = 5 }), tt) with_console console (omega arith) tt the_console (vcpu 0)
      (access_page 0) 1 seven tt (omega arith) (omega arith) (refl, refl, omega arith) refl

handle_exit-serial_new-write_example :
    handle_exit (vcpu 0) with_console.0.bus (access_page 1) tt
    ≡ write_at console.serial (0x3f805 - 0x3f800) (access_page 1) 1 tt
handle_exit-serial_new-write_example =
    handle_exit-serial_new-write generous debug blank (λ _. console.serial) 0x3f800 1
      (from_vm (record { fd = 5 }), tt) with_console console (omega arith) tt the_console (vcpu 0)
      (access_page 1) 1 seven tt (omega arith) (omega arith) (refl, refl, omega arith) refl

abbrev the_vcpu : GunyahVcpu
the_vcpu = record { access_id = vcpu 0; vcpu = record { vm = record { fd = 5 }; id = 0; vcpu = 6 } }

-- a vCPU that has exited for a read of one byte
abbrev waiting : Kernel (Unit {0})
waiting = record generous { vcpu_page = λ _ _. access_page 0 }

vmmio_provide_read_iff_example :
    ((vmmio_provide_read waiting the_vcpu 0x3f805 (9 ∷ []) tt ≡ (ok tt, tt)) ↔ (
      Waits (access_page 0) 0x3f805 (9 ∷ [])
      × (length {A = ℕ} (9 ∷ []) ≡ length (access_page 0).bytes)))
    × ((vmmio_provide_read waiting the_vcpu 0x3f805 (9 ∷ []) tt ≡ (panic, tt)) ↔ (
        Waits (access_page 0) 0x3f805 (9 ∷ [])
        × (length {A = ℕ} (9 ∷ []) ≢ length (access_page 0).bytes)))
    × (((e : AnyError) × (vmmio_provide_read waiting the_vcpu 0x3f805 (9 ∷ []) tt ≡ (err e, tt)))
        ↔ (¬ (Waits (access_page 0) 0x3f805 (9 ∷ []))))
unfolding gunyah_test_vmm.Gunyah.Functions.store gunyah_test_vmm.Gunyah.Functions.mmap
vmmio_provide_read_iff_example = vmmio_provide_read_iff waiting the_vcpu 0x3f805 (9 ∷ []) tt

abbrev some_calls : List (Call (Unit {0}) (Unit {0}))
some_calls =
    device_call console_device 0x3f800 8
    ∷ memory_call 0x8000_0000 0x10000 Vm.lend Vm.rwx false
    ∷ start_call
    ∷ []

perform_all-BusIsValid_example :
    BusIsValid (perform_all generous debug some_calls (from_vm (record { fd = 5 }), tt))
perform_all-BusIsValid_example =
    perform_all-BusIsValid generous debug some_calls (from_vm (record { fd = 5 }), tt)
      (omega arith, (omega arith, (tt, tt))) tt
