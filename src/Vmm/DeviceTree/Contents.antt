-- ===== src/Vmm/DeviceTree/Contents.antt =====
-- vmm/src/virtual_machine.rs: the device tree of a machine as data, and that the code writes it.
use gunyah_test_vmm.Base.{ℕ, ◌≡◌, refl, List, [], ◌∷◌, ◌++◌, Option, none, some, ok}
use gunyah_test_vmm.Types.Text.{Text, codes}
use gunyah_test_vmm.Types.Radix.{digits}
use gunyah_test_vmm.Fdt.{FdtWriter, null, text, u32, u64, array_u32, array_u64}
use gunyah_test_vmm.Fdt.Tree.{Items, done, prop, node, call, write_items, lift->>=, in_a_row}
use gunyah_test_vmm.Bus.Dispatch.{
  list_memory_regions, generate_device_config, generate_gunyah_vdevice_config,
}
use gunyah_test_vmm.Vmm.Vcpu.{GunyahVcpu}
use gunyah_test_vmm.Vmm.Interrupt.{GunyahInterrupt, generate_vdevice, fdt_config}
use gunyah_test_vmm.Vmm.Machine.{GunyahVirtualMachine}
use gunyah_test_vmm.Vmm.DeviceTree.{
  GicConfig, timer_config, phandle_gic, first, firmware_property, generate_vdevices, cpu_nodes,
  create_fdt_vm_config, create_fdt_basic_config,
}

module _ {F : Type 0} where
  -- the node of a vCPU, and of an interrupt
  abbrev pub cpu_items : List GunyahVcpu → Items F
  cpu_items [] = done
  cpu_items (vcpu ∷ vcpus) =
      node (codes "cpu@" ++ digits 16 vcpu.vcpu.id)
        (prop "device_type" (text (codes "cpu")) (
          prop "compatible" (text (codes "arm,arm-v8")) (
            prop "enable-method" (text (codes "psci"))
              (prop "reg" (u32 vcpu.vcpu.id) (prop "cpu-idle-states" null done)))))
        (cpu_items vcpus)

  abbrev pub interrupt_items : List GunyahInterrupt → Items F
  interrupt_items [] = done
  interrupt_items (i ∷ is) =
      node (codes "bell-" ++ digits 16 i.line)
        (prop "vdevice-type" (text (codes "doorbell")) (
          prop "generate" (text (codes "/hypervisor/bell-" ++ digits 16 i.line)) (
            prop "label" (u32 i.irqfd.label) (
              prop "peer-default" null (
                prop "source-can-clean" null
                  (prop "interrupts" (array_u32 (fdt_config i)) done))))))
        (interrupt_items is)

  abbrev pub firmware_items : Option ℕ → Items F → Items F
  firmware_items none rest = rest
  firmware_items (some addr) rest = prop "firmware-address" (u64 addr) rest

module _ {F : Type 0} (fdt : FdtWriter F) where
  cpu_nodes-write_items :
      (vcpus : List GunyahVcpu) → cpu_nodes fdt vcpus ≡ write_items fdt (cpu_items vcpus)
  unfolding cpu_nodes write_items
  cpu_nodes-write_items [] = refl
  cpu_nodes-write_items (v ∷ vs) = simp (in_a_row, cpu_nodes-write_items vs)

  generate_vdevices-write_items :
      (is : List GunyahInterrupt) → generate_vdevices fdt is ≡ write_items fdt (interrupt_items is)
  unfolding generate_vdevices generate_vdevice write_items
  generate_vdevices-write_items [] = refl
  generate_vdevices-write_items (i ∷ is) = simp (in_a_row, generate_vdevices-write_items is)

module _ {W F : Type 0} where
  -- the tree below `gunyah-vm-config`, with what the devices write for themselves
  abbrev pub vm_config_items : GunyahVirtualMachine W F → W → Text → ℕ → Option ℕ → ℕ → Items F
  vm_config_items self w os_type base_address firmware_address intc_phandle =
      node (codes "gunyah-vm-config")
        (prop "image-name" (text (codes "gunyah-vmm-vm")) (
          prop "os-type" (text os_type) (
            node (codes "memory")
              (prop "#address-cells" (u32 2) (
                prop "#size-cells" (u32 2)
                  (prop "base-address" (u64 base_address) (firmware_items firmware_address done))))
              (node (codes "interrupts") (prop "config" (u32 intc_phandle) done) (
                node (codes "vcpus") (prop "affinity" (text (codes "proxy")) done) (
                  node (codes "vdevices")
                    (prop "generate" (text (codes "/hypervisor")) (
                      call (generate_gunyah_vdevice_config self.bus w)
                        (interrupt_items self.interrupts)))
                    done))))))
        done

  -- the tree of a machine below the root, where `base_address` is the first of its memory
  abbrev pub basic_config_items :
      GunyahVirtualMachine W F → W → GicConfig → (ℕ × ℕ × ℕ × ℕ) → ℕ → Items F
  basic_config_items self w gic (t0, t1, t2, t3) base_address = prop "#address-cells" (u32 2) (
      prop "#size-cells" (u32 2) (
        prop "interrupt-parent" (u32 phandle_gic) (
          node (codes "memory")
            (prop "device_type" (text (codes "memory"))
              (prop "reg" (array_u64 (list_memory_regions self.bus w)) done))
            (node (codes "cpus")
              (prop "#address-cells" (u32 1) (prop "#size-cells" (u32 0) (cpu_items self.vcpus)))
              (node (codes "psci")
                (prop "compatible" (text (codes "arm,psci-0.2"))
                  (prop "method" (text (codes "hvc")) done))
                (node (codes "interrupt-controller@" ++ digits 16 gic.dist_base)
                  (prop "compatible" (text (codes "arm,gic-v3")) (
                    prop "#interrupt-cells" (u32 3) (
                      prop "#address-cells" (u32 2) (
                        prop "#size-cells" (u32 2) (
                          prop "interrupt-controller" null (
                            prop "reg"
                              (array_u64 (
                                gic.dist_base ∷ gic.dist_size ∷ gic.redist_base ∷ gic.redist_size
                                ∷ []))
                              (prop "phandle" (u32 phandle_gic) done)))))))
                  (node (codes "timer")
                    (prop "compatible" (text (codes "arm,armv8-timer")) (
                      prop "always-on" null (
                        prop "interrupts" (array_u32 (timer_config t0 t1 t2 t3))
                          (prop "clock-frequency" (u32 19200000) done))))
                    (call (generate_device_config self.bus w)
                      (vm_config_items self w (codes "linux") base_address none phandle_gic)))))))))

module _ {F : Type 0} (fdt : FdtWriter F) where
  firmware_property-write_items :
      (addr : Option ℕ) → firmware_property fdt addr ≡ write_items fdt (firmware_items addr done)
  unfolding firmware_property write_items
  firmware_property-write_items none = refl
  firmware_property-write_items (some addr) = simp in_a_row

module _ {W F : Type 0} (fdt : FdtWriter F) where
  create_fdt_vm_config-write_items :
      (self : GunyahVirtualMachine W F) (w : W) (os_type : Text) (base : ℕ) (firmware : Option ℕ)
      (phandle : ℕ)
      → create_fdt_vm_config fdt self w os_type base firmware phandle
        ≡ write_items fdt (vm_config_items self w os_type base firmware phandle)
  unfolding create_fdt_vm_config write_items
  create_fdt_vm_config-write_items self w os_type base firmware phandle =
      simp (in_a_row, firmware_property-write_items fdt, generate_vdevices-write_items fdt)

  -- Where the machine has memory that is listed, `create_fdt_basic_config` writes the tree of the
  -- machine, whatever the writer is and wherever it fails: each node is begun, filled and ended in turn,
  -- with the properties of the vCPUs, the interrupts, the controller, the timer and the memory, and
  -- what the devices write for themselves.
  pub create_fdt_basic_config-write_items :
      (self : GunyahVirtualMachine W F) (w : W) (gic : GicConfig) (timers : ℕ × ℕ × ℕ × ℕ)
      (base : ℕ)
      → first (list_memory_regions self.bus w) ≡ ok base
      → create_fdt_basic_config fdt self w gic timers
        ≡ write_items fdt (basic_config_items self w gic timers base)
  unfolding create_fdt_basic_config write_items
  create_fdt_basic_config-write_items self w gic (t0, t1, t2, t3) base e = simp (
    in_a_row,
    cpu_nodes-write_items fdt,
    create_fdt_vm_config-write_items self w,
    lift->>= (first (list_memory_regions self.bus w)) base _ e,
  )
