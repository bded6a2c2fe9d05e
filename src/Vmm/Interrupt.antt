-- ===== src/Vmm/Interrupt.antt =====
-- vmm/src/interrupt.rs: the interrupts of a virtual machine.
use gunyah_test_vmm.Base.{ℕ, Bool, true, false, List, [], ◌∷◌, ◌++◌, if◌then◌else◌}
use gunyah_test_vmm.Effects.{M, ◌>>=◌, ◌>>◌, pure}
use gunyah_test_vmm.Types.Text.{codes}
use gunyah_test_vmm.Types.Radix.{digits}
use gunyah_test_vmm.Fdt.{FdtWriter, text, u32, null, array_u32}
use gunyah_test_vmm.Gunyah.Kernel.{Kernel}
use gunyah_test_vmm.Gunyah.Vm.{Vm, vm_clone}
use gunyah_test_vmm.Gunyah.Functions.{Irqfd, irqfd_new, irqfd_trigger}

pub record GunyahInterrupt : Type 0 where
  pub line : ℕ
  pub irqfd : Irqfd

abbrev gic_fdt_irq_type_spi : ℕ
gic_fdt_irq_type_spi = 0

abbrev irq_type_edge_rising : ℕ
irq_type_edge_rising = 1

abbrev irq_type_level_high : ℕ
irq_type_level_high = 4

-- `GunyahInterrupt::fdt_config`
unfoldable pub fdt_config : GunyahInterrupt → List ℕ
fdt_config self =
    gic_fdt_irq_type_spi
    ∷ self.line
    ∷ (if self.irqfd.level then irq_type_level_high else irq_type_edge_rising)
    ∷ []

-- `GunyahInterrupt::generate_vdevice`
unfoldable pub generate_vdevice : {F : Type 0} → FdtWriter F → GunyahInterrupt → M F (Unit {0})
generate_vdevice fdt self = do
  bell_node ← fdt.begin_node (codes "bell-" ++ digits 16 self.line)
  fdt.property "vdevice-type" (text (codes "doorbell"))
  fdt.property "generate" (text (codes "/hypervisor/bell-" ++ digits 16 self.line))
  fdt.property "label" (u32 self.irqfd.label)
  fdt.property "peer-default" null
  fdt.property "source-can-clean" null
  fdt.property "interrupts" (array_u32 (fdt_config self))
  fdt.end_node bell_node

module _ {K : Type 0} (kernel : Kernel K) where
  -- `new_level` and `new_edge`
  unfoldable pub interrupt_new : Vm → ℕ → Bool → M K GunyahInterrupt
  interrupt_new vm line level = do
    own ← vm_clone kernel vm
    irqfd ← irqfd_new kernel own line level
    pure (record { line = line; irqfd = irqfd })

  unfoldable pub new_level : Vm → ℕ → M K GunyahInterrupt
  new_level vm line = interrupt_new vm line true

  unfoldable pub new_edge : Vm → ℕ → M K GunyahInterrupt
  new_edge vm line = interrupt_new vm line false

  -- `GunyahInterrupt::trigger`
  unfoldable pub interrupt_trigger : GunyahInterrupt → M K (Unit {0})
  interrupt_trigger self = irqfd_trigger kernel self.irqfd
