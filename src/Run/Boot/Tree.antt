-- ===== src/Run/Boot/Tree.antt =====
-- src/main.rs: the device tree that `generate_fdt` writes.
use gunyah_test_vmm.Base.{
  ℕ, ◌≡◌, refl, true, false, Bool, List, [], ◌∷◌, ◌%◌, ◌^◌, Option, none, some, ok, Profile,
}
use gunyah_test_vmm.Effects.{◌>>=◌, ◌>>◌}
use gunyah_test_vmm.Types.Text.{codes}
use gunyah_test_vmm.Types.Guest.{GuestAddress}
use gunyah_test_vmm.Fdt.{text, u32}
use gunyah_test_vmm.Fdt.Tree.{
  Items, done, prop, node, ◌then◌, write_items, write_items-then, lift->>=, pure->>, in_a_row,
}
use gunyah_test_vmm.Fdt.Nesting.{
  Observed, IsLawful, IsOrdered, IsFine, Balanced, write_items-Balanced,
}
use gunyah_test_vmm.Bus.Dispatch.{list_memory_regions}
use gunyah_test_vmm.Vmm.Vcpu.{GunyahVcpu}
use gunyah_test_vmm.Vmm.Interrupt.{GunyahInterrupt}
use gunyah_test_vmm.Vmm.DeviceTree.{GicConfig, first}
use gunyah_test_vmm.Vmm.DeviceTree.Contents.{
  cpu_items, interrupt_items, basic_config_items, create_fdt_basic_config-write_items,
}
use gunyah_test_vmm.Vmm.Machine.{GunyahVirtualMachine}
use gunyah_test_vmm.Serial.{SerialDevice, device_name}
use gunyah_test_vmm.Run.Args.{RunCommand, gic_config}
use gunyah_test_vmm.Run.Boot.{Host, stdout_path, write_fdt}

module _ {W F : Type 0} where
  abbrev pub stdout_items : Option (SerialDevice W) → Items F → Items F
  stdout_items none rest = rest
  stdout_items (some ser) rest = prop "stdout-path" (text (b'/' ∷ device_name ser)) rest

  abbrev pub chosen_items :
      RunCommand → Option (SerialDevice W) → GuestAddress → GuestAddress → Items F
  chosen_items args serial rdisk_start rdisk_end =
      node (codes "chosen")
        (stdout_items serial (
          prop "bootargs" (text args.command_line) (
            prop "linux,initrd-start" (u32 (rdisk_start.value % 2 ^ 32))
              (prop "linux,initrd-end" (u32 (rdisk_end.value % 2 ^ 32)) done))))
        done

  -- the whole tree, from its root
  abbrev pub fdt_items :
      GunyahVirtualMachine W F
      → W
      → RunCommand
      → Option (SerialDevice W)
      → GuestAddress
      → GuestAddress
      → GicConfig
      → ℕ
      → Items F
  fdt_items vm w args serial rdisk_start rdisk_end gic base_address =
      node []
        (basic_config_items vm w gic (13, 14, 11, 10) base_address
          then chosen_items args serial rdisk_start rdisk_end)
        done

module _ (F : Type 0) where
  cpu_items-IsOrdered :
      (allowed : Bool) (vcpus : List GunyahVcpu) → IsOrdered {F = F} allowed (cpu_items vcpus)
  cpu_items-IsOrdered allowed [] = tt
  cpu_items-IsOrdered allowed (v ∷ vs) =
      ((refl, (refl, (refl, (refl, (refl, tt))))), cpu_items-IsOrdered false vs)

  interrupt_items-IsOrdered :
      (is : List GunyahInterrupt) → IsOrdered {F = F} false (interrupt_items is)
  interrupt_items-IsOrdered [] = tt
  interrupt_items-IsOrdered (i ∷ is) =
      ((refl, (refl, (refl, (refl, (refl, (refl, tt)))))), interrupt_items-IsOrdered is)

module _ {W F : Type 0} where
  stdout_items-IsOrdered :
      (serial : Option (SerialDevice W)) (rest : Items F)
      → IsOrdered true rest
      → IsOrdered true (stdout_items serial rest)
  stdout_items-IsOrdered none rest o = o
  stdout_items-IsOrdered (some ser) rest o = (refl, o)

  fdt_items-IsOrdered :
      (vm : GunyahVirtualMachine W F) (w : W) (args : RunCommand) (serial : Option (SerialDevice W))
      (rdisk_start rdisk_end : GuestAddress) (gic : GicConfig) (base : ℕ)
      → IsOrdered true (fdt_items vm w args serial rdisk_start rdisk_end gic base)
  unfolding ◌then◌
  fdt_items-IsOrdered vm w args serial rdisk_start rdisk_end gic base =
      let cpus = cpu_items-IsOrdered F true vm.vcpus in
      let bells = interrupt_items-IsOrdered F vm.interrupts in
      let chosen =
        stdout_items-IsOrdered serial
          (prop "bootargs" (text args.command_line) (
            prop "linux,initrd-start" (u32 (rdisk_start.value % 2 ^ 32))
              (prop "linux,initrd-end" (u32 (rdisk_end.value % 2 ^ 32)) done)))
          (refl, (refl, (refl, tt))) in
      search depth 60

module _ {W F : Type 0} (host : Host W F) (p : Profile) where
  write_items-stdout :
      (serial : Option (SerialDevice W)) (rest : Items F)
      → write_items host.writer (stdout_items serial rest)
        ≡ stdout_path host p serial >> write_items host.writer rest
  unfolding stdout_path write_items
  write_items-stdout none rest = simp pure->>
  write_items-stdout (some ser) rest = refl

  -- what stands round a tree `x` in `generate_fdt`
  write_root :
      (args : RunCommand) (serial : Option (SerialDevice W)) (rdisk_start rdisk_end : GuestAddress)
      (x : Items F)
      → (do
        root_node ← host.writer.begin_node []
        write_items host.writer x
        chosen ← host.writer.begin_node (codes "chosen")
        stdout_path host p serial
        host.writer.property "bootargs" (text args.command_line)
        host.writer.property "linux,initrd-start" (u32 (rdisk_start.value % 2 ^ 32))
        host.writer.property "linux,initrd-end" (u32 (rdisk_end.value % 2 ^ 32))
        host.writer.end_node chosen
        host.writer.end_node root_node)
        ≡ write_items host.writer
            (node [] (x then chosen_items args serial rdisk_start rdisk_end) done)
  unfolding write_items
  write_root args serial rdisk_start rdisk_end x =
      simp (in_a_row, write_items-then host.writer x, write_items-stdout serial)

  write_fdt-write_items :
      (vm : GunyahVirtualMachine W F) (w : W) (args : RunCommand) (serial : Option (SerialDevice W))
      (rdisk_start rdisk_end : GuestAddress) (gic : GicConfig) (base : ℕ)
      → gic_config p args ≡ ok gic
      → first (list_memory_regions vm.bus w) ≡ ok base
      → write_fdt host p vm w args serial rdisk_start rdisk_end
        ≡ write_items host.writer (fdt_items vm w args serial rdisk_start rdisk_end gic base)
  unfolding write_fdt
  write_fdt-write_items vm w args serial rdisk_start rdisk_end gic base g m =
      simp
        (
          lift->>= (gic_config p args) gic _ g,
          create_fdt_basic_config-write_items host.writer vm w gic (13, 14, 11, 10) base m,
        )
        (write_root args serial rdisk_start rdisk_end
          (basic_config_items vm w gic (13, 14, 11, 10) base))

  -- On a writer that keeps its documented rules, and accepts the names and values of the tree, and with
  -- devices that write whole nodes: where the machine lists memory and the numbers of the interrupt
  -- controller can be calculated, what `generate_fdt` writes is written to the end without an error or
  -- a panic, and every node that it begins is ended.
  pub write_fdt-Balanced :
      (seen : Observed F) (vm : GunyahVirtualMachine W F) (w : W) (args : RunCommand)
      (serial : Option (SerialDevice W)) (rdisk_start rdisk_end : GuestAddress) (gic : GicConfig)
      (base : ℕ)
      → IsLawful seen host.writer
      → gic_config p args ≡ ok gic
      → first (list_memory_regions vm.bus w) ≡ ok base
      → IsFine seen (fdt_items vm w args serial rdisk_start rdisk_end gic base)
      → Balanced seen true (write_fdt host p vm w args serial rdisk_start rdisk_end)
  write_fdt-Balanced seen vm w args serial rdisk_start rdisk_end gic base lawful g m fine =
      rw (write_fdt-write_items vm w args serial rdisk_start rdisk_end gic base g m) (
        write_items-Balanced seen host.writer lawful true _
          (fdt_items-IsOrdered vm w args serial rdisk_start rdisk_end gic base) fine)
