-- ===== src/Vmm/DeviceTree.antt =====
-- vmm/src/virtual_machine.rs: the device tree of a machine, `create_fdt_basic_config` and
-- `create_fdt_vm_config`. They read the machine and the state of its devices, and change a writer.
pub mod Contents
pub mod Unlisted
use gunyah_test_vmm.Base.{
  ℕ, String, List, [], ◌∷◌, ◌++◌, Option, none, some, Outcome, ok, err, panic,
}
use gunyah_test_vmm.Errors.{AnyError}
use gunyah_test_vmm.Effects.{M, ◌>>=◌, ◌>>◌, pure, lift}
use gunyah_test_vmm.Types.Text.{Text, codes}
use gunyah_test_vmm.Types.Radix.{digits}
use gunyah_test_vmm.Fdt.{FdtWriter, null, text, texts, u32, u64, array_u32, array_u64}
use gunyah_test_vmm.Gunyah.Functions.{Vcpu}
use gunyah_test_vmm.Bus.Dispatch.{
  list_memory_regions, generate_device_config, generate_gunyah_vdevice_config,
}
use gunyah_test_vmm.Vmm.Vcpu.{GunyahVcpu}
use gunyah_test_vmm.Vmm.Interrupt.{GunyahInterrupt, generate_vdevice}
use gunyah_test_vmm.Vmm.Machine.{GunyahVirtualMachine}

-- `PHANDLE_GIC`
abbrev pub phandle_gic : ℕ
phandle_gic = 1

-- `mem_reg.first().expect("vm has no memory")`
abbrev pub first : List ℕ → Outcome AnyError ℕ
first [] = panic
first (x ∷ xs) = ok x

-- the twelve numbers of `timer`
unfoldable pub timer_config : ℕ → ℕ → ℕ → ℕ → List ℕ
timer_config a b c d = 1 ∷ a ∷ 0x108 ∷ 1 ∷ b ∷ 0x108 ∷ 1 ∷ c ∷ 0x108 ∷ 1 ∷ d ∷ 0x108 ∷ []

-- the four numbers that `create_fdt_basic_config` gets as `gic_config`
pub record GicConfig : Type 0 where
  pub dist_base : ℕ
  pub dist_size : ℕ
  pub redist_base : ℕ
  pub redist_size : ℕ

module _ {F : Type 0} (fdt : FdtWriter F) where
  -- `firmware_address`
  unfoldable pub firmware_property : Option ℕ → M F (Unit {0})
  firmware_property none = pure tt
  firmware_property (some addr) = fdt.property "firmware-address" (u64 addr)

  -- the loop over the interrupts
  unfoldable pub generate_vdevices : List GunyahInterrupt → M F (Unit {0})
  generate_vdevices [] = pure tt
  generate_vdevices (i ∷ is) = generate_vdevice fdt i >> generate_vdevices is

  -- the loop over the vCPUs
  unfoldable pub cpu_nodes : List GunyahVcpu → M F (Unit {0})
  cpu_nodes [] = pure tt
  cpu_nodes (vcpu ∷ vcpus) = do
    cpu_node ← fdt.begin_node (codes "cpu@" ++ digits 16 vcpu.vcpu.id)
    fdt.property "device_type" (text (codes "cpu"))
    fdt.property "compatible" (text (codes "arm,arm-v8"))
    fdt.property "enable-method" (text (codes "psci"))
    fdt.property "reg" (u32 vcpu.vcpu.id)
    fdt.property "cpu-idle-states" null
    fdt.end_node cpu_node
    cpu_nodes vcpus

module _ {W F : Type 0} (fdt : FdtWriter F) where
  unfoldable pub create_fdt_vm_config :
      GunyahVirtualMachine W F → W → Text → ℕ → Option ℕ → ℕ → M F (Unit {0})
  create_fdt_vm_config self w os_type base_address firmware_address intc_phandle = do
    vm_config ← fdt.begin_node (codes "gunyah-vm-config")
    fdt.property "image-name" (text (codes "gunyah-vmm-vm"))
    fdt.property "os-type" (text os_type)
    memory_node ← fdt.begin_node (codes "memory")
    fdt.property "#address-cells" (u32 2)
    fdt.property "#size-cells" (u32 2)
    fdt.property "base-address" (u64 base_address)
    firmware_property fdt firmware_address
    fdt.end_node memory_node
    interrupts_node ← fdt.begin_node (codes "interrupts")
    fdt.property "config" (u32 intc_phandle)
    fdt.end_node interrupts_node
    vcpus_node ← fdt.begin_node (codes "vcpus")
    fdt.property "affinity" (text (codes "proxy"))
    fdt.end_node vcpus_node
    vdev_node ← fdt.begin_node (codes "vdevices")
    fdt.property "generate" (text (codes "/hypervisor"))
    generate_gunyah_vdevice_config self.bus w
    generate_vdevices fdt self.interrupts
    fdt.end_node vdev_node
    fdt.end_node vm_config

  unfoldable pub create_fdt_basic_config :
      GunyahVirtualMachine W F → W → GicConfig → (ℕ × ℕ × ℕ × ℕ) → M F (Unit {0})
  create_fdt_basic_config self w gic (t0, t1, t2, t3) = do
    fdt.property "#address-cells" (u32 2)
    fdt.property "#size-cells" (u32 2)
    fdt.property "interrupt-parent" (u32 phandle_gic)
    memory_node ← fdt.begin_node (codes "memory")
    fdt.property "device_type" (text (codes "memory"))
    let mem_reg = list_memory_regions self.bus w
    fdt.property "reg" (array_u64 mem_reg)
    fdt.end_node memory_node
    cpus_node ← fdt.begin_node (codes "cpus")
    fdt.property "#address-cells" (u32 1)
    fdt.property "#size-cells" (u32 0)
    cpu_nodes fdt self.vcpus
    fdt.end_node cpus_node
    psci_node ← fdt.begin_node (codes "psci")
    fdt.property "compatible" (text (codes "arm,psci-0.2"))
    fdt.property "method" (text (codes "hvc"))
    fdt.end_node psci_node
    intc_node ← fdt.begin_node (codes "interrupt-controller@" ++ digits 16 gic.dist_base)
    fdt.property "compatible" (text (codes "arm,gic-v3"))
    fdt.property "#interrupt-cells" (u32 3)
    fdt.property "#address-cells" (u32 2)
    fdt.property "#size-cells" (u32 2)
    fdt.property "interrupt-controller" null
    fdt.property "reg"
        (array_u64 (gic.dist_base ∷ gic.dist_size ∷ gic.redist_base ∷ gic.redist_size ∷ []))
    fdt.property "phandle" (u32 phandle_gic)
    fdt.end_node intc_node
    timer_node ← fdt.begin_node (codes "timer")
    fdt.property "compatible" (text (codes "arm,armv8-timer"))
    fdt.property "always-on" null
    fdt.property "interrupts" (array_u32 (timer_config t0 t1 t2 t3))
    fdt.property "clock-frequency" (u32 19200000)
    fdt.end_node timer_node
    generate_device_config self.bus w
    base_address ← lift (first mem_reg)
    create_fdt_vm_config self w (codes "linux") base_address none phandle_gic
