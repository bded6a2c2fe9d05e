-- ===== src/Tests/ExecuteTests.antt =====
-- src/main.rs: `execute` as a whole, on a host that grants what it is asked for.
use gunyah_test_vmm.Base.{◌≡◌, refl, Outcome, ok, debug, length}
use gunyah_test_vmm.Errors.{AnyError}
use gunyah_test_vmm.Vmm.Machine.{GunyahVirtualMachine}
use gunyah_test_vmm.Run.Args.{RunCommand}
use gunyah_test_vmm.Run.Boot.{execute}
use gunyah_test_vmm.Run.Boot.Running.{execute-vcpus}
use gunyah_test_vmm.Tests.RunTests.{default_args}
use gunyah_test_vmm.Tests.BootTests.{test_host, empty_machine, Open}

abbrev two : RunCommand
two = record default_args { vcpus = 2 }

abbrev executed : Outcome AnyError (Unit {0}) × (GunyahVirtualMachine (Unit {0}) Open × Unit {0})
executed = execute test_host debug two empty_machine

two_are_spawned : executed ≡ (ok tt, executed.1)
unfolding gunyah_test_vmm.Bus.Devices.btree_has gunyah_test_vmm.Bus.Devices.btree_insert
    gunyah_test_vmm.Bus.Devices.first_before gunyah_test_vmm.Bus.Devices.get_device
    gunyah_test_vmm.Bus.Devices.insert gunyah_test_vmm.Bus.Devices.reject_overlaps
    gunyah_test_vmm.Bus.Dispatch.forward_read gunyah_test_vmm.Bus.Dispatch.forward_write
    gunyah_test_vmm.Bus.Dispatch.generate_device_config
    gunyah_test_vmm.Bus.Dispatch.generate_gunyah_vdevice_config
    gunyah_test_vmm.Bus.Dispatch.list_memory_regions gunyah_test_vmm.Bus.Dispatch.read
    gunyah_test_vmm.Bus.Dispatch.try_for_each gunyah_test_vmm.Bus.Dispatch.write
    gunyah_test_vmm.Effects.fail gunyah_test_vmm.Effects.in_context gunyah_test_vmm.Effects.lift
    gunyah_test_vmm.Effects.or_panic gunyah_test_vmm.Effects.pure gunyah_test_vmm.Effects.◌>>=◌
    gunyah_test_vmm.Effects.◌>>◌ gunyah_test_vmm.Gunyah.Device.create_guest_memory
    gunyah_test_vmm.Gunyah.Device.create_guest_memory_with_flags
    gunyah_test_vmm.Gunyah.Device.gunyah_new gunyah_test_vmm.Gunyah.Device.open_with_cloexec
    gunyah_test_vmm.Gunyah.Device.open_with_cloexec_at gunyah_test_vmm.Gunyah.Functions.irqfd_new
    gunyah_test_vmm.Gunyah.Functions.mmap gunyah_test_vmm.Gunyah.Functions.run
    gunyah_test_vmm.Gunyah.Functions.vcpu_new gunyah_test_vmm.Gunyah.GuestMem.map_options
    gunyah_test_vmm.Gunyah.GuestMem.mem_clone gunyah_test_vmm.Gunyah.GuestMem.mem_dup
    gunyah_test_vmm.Gunyah.GuestMem.mem_from_file gunyah_test_vmm.Gunyah.GuestMem.region_new
    gunyah_test_vmm.Gunyah.Kernel.boot_context_reg_id gunyah_test_vmm.Gunyah.Vm.add_function
    gunyah_test_vmm.Gunyah.Vm.fn_desc gunyah_test_vmm.Gunyah.Vm.map_args
    gunyah_test_vmm.Gunyah.Vm.map_flags gunyah_test_vmm.Gunyah.Vm.map_memory
    gunyah_test_vmm.Gunyah.Vm.map_memory_inner gunyah_test_vmm.Gunyah.Vm.set_boot_context
    gunyah_test_vmm.Gunyah.Vm.set_boot_pc gunyah_test_vmm.Gunyah.Vm.set_dtb_config
    gunyah_test_vmm.Gunyah.Vm.start gunyah_test_vmm.Gunyah.Vm.unmap_memory
    gunyah_test_vmm.Gunyah.Vm.vm_clone gunyah_test_vmm.Gunyah.Vm.vm_dup
    gunyah_test_vmm.Run.Align.align_address gunyah_test_vmm.Run.Align.align_address_offset
    gunyah_test_vmm.Run.Align.align_size gunyah_test_vmm.Run.Align.align_up
    gunyah_test_vmm.Run.Args.find_missing gunyah_test_vmm.Run.Args.gic_config
    gunyah_test_vmm.Run.Args.mem_end gunyah_test_vmm.Run.Args.validate
    gunyah_test_vmm.Run.Boot.attempt gunyah_test_vmm.Run.Boot.check_args
    gunyah_test_vmm.Run.Boot.create_vcpus gunyah_test_vmm.Run.Boot.execute
    gunyah_test_vmm.Run.Boot.generate_fdt gunyah_test_vmm.Run.Boot.load_binaries
    gunyah_test_vmm.Run.Boot.page_size gunyah_test_vmm.Run.Boot.parse_page_size
    gunyah_test_vmm.Run.Boot.place gunyah_test_vmm.Run.Boot.pop_vcpu gunyah_test_vmm.Run.Boot.set_up
    gunyah_test_vmm.Run.Boot.spawn_vcpus gunyah_test_vmm.Run.Boot.stdout_path
    gunyah_test_vmm.Run.Boot.write_fdt gunyah_test_vmm.Run.Layout.check_last
    gunyah_test_vmm.Run.Layout.check_regions gunyah_test_vmm.Run.Layout.insert_by_addr
    gunyah_test_vmm.Run.Layout.neighbours_overlap gunyah_test_vmm.Run.Layout.place_dtb
    gunyah_test_vmm.Run.Layout.place_dtb_len gunyah_test_vmm.Run.Layout.place_rdisk
    gunyah_test_vmm.Run.Layout.plan gunyah_test_vmm.Run.Layout.sort_by_addr
    gunyah_test_vmm.Serial.device_name gunyah_test_vmm.Serial.serial_config
    gunyah_test_vmm.Serial.serial_device gunyah_test_vmm.Serial.serial_new
    gunyah_test_vmm.Serial.serial_read gunyah_test_vmm.Serial.serial_write
    gunyah_test_vmm.Types.Guest.address_add gunyah_test_vmm.Types.Guest.size_try_into
    gunyah_test_vmm.Types.Radix.digit_value gunyah_test_vmm.Types.Radix.digits
    gunyah_test_vmm.Types.Radix.emit gunyah_test_vmm.Types.Radix.from_str_radix
    gunyah_test_vmm.Types.Radix.push_digit gunyah_test_vmm.Types.Radix.scan
    gunyah_test_vmm.Types.Radix.to_digit gunyah_test_vmm.Types.Text.trim
    gunyah_test_vmm.Types.Text.trim_end gunyah_test_vmm.Types.Text.trim_start
    gunyah_test_vmm.Vmm.DeviceTree.cpu_nodes gunyah_test_vmm.Vmm.DeviceTree.create_fdt_basic_config
    gunyah_test_vmm.Vmm.DeviceTree.create_fdt_vm_config
    gunyah_test_vmm.Vmm.DeviceTree.firmware_property
    gunyah_test_vmm.Vmm.DeviceTree.generate_vdevices gunyah_test_vmm.Vmm.DeviceTree.timer_config
    gunyah_test_vmm.Vmm.Interrupt.fdt_config gunyah_test_vmm.Vmm.Interrupt.generate_vdevice
    gunyah_test_vmm.Vmm.Interrupt.interrupt_new gunyah_test_vmm.Vmm.Interrupt.new_edge
    gunyah_test_vmm.Vmm.Machine.add_device gunyah_test_vmm.Vmm.Machine.add_edge_interrupt
    gunyah_test_vmm.Vmm.Machine.add_memory gunyah_test_vmm.Vmm.Machine.add_memory_region
    gunyah_test_vmm.Vmm.Machine.bus_insert gunyah_test_vmm.Vmm.Machine.create_vcpu
    gunyah_test_vmm.Vmm.Machine.insert_region gunyah_test_vmm.Vmm.Machine.on_world
    gunyah_test_vmm.Vmm.Machine.set_boot_pc gunyah_test_vmm.Vmm.Machine.set_dtb_config
    gunyah_test_vmm.Vmm.Machine.start gunyah_test_vmm.Vmm.Machine.update
    gunyah_test_vmm.Vmm.Machine.write_slice gunyah_test_vmm.Vmm.Memory.drop_region
    gunyah_test_vmm.Vmm.Memory.memory_region_new gunyah_test_vmm.Vmm.Memory.memory_regions
    gunyah_test_vmm.Vmm.Memory.Device.device_read gunyah_test_vmm.Vmm.Memory.Device.device_write
    gunyah_test_vmm.Vmm.Memory.Device.region_device gunyah_test_vmm.Vmm.Memory.Device.region_read
    gunyah_test_vmm.Vmm.Memory.Device.region_write gunyah_test_vmm.Vmm.Vcpu.vcpu_new
two_are_spawned = refl

execute-vcpus_example : length executed.1.0.vcpus ≡ 2
execute-vcpus_example =
    execute-vcpus test_host debug two empty_machine executed.1 refl two_are_spawned
