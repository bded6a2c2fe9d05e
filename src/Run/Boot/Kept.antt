-- ===== src/Run/Boot/Kept.antt =====
-- src/main.rs: what is kept of a machine while it is set up and started.
use gunyah_test_vmm.Base.{
  ℕ, zero, suc, ◌≡◌, List, [], ◌∷◌, inl, inr, ok, err, panic, Outcome, Option, Profile,
}
use gunyah_test_vmm.Errors.{AnyError}
use gunyah_test_vmm.Gunyah.Kernel.{Kernel}
use gunyah_test_vmm.Fdt.{FdtWriter}
use gunyah_test_vmm.Bus.Dispatch.{BusEntry, outer_sync}
use gunyah_test_vmm.Vmm.Interrupt.{GunyahInterrupt}
use gunyah_test_vmm.Vmm.Machine.{
  GunyahVirtualMachine, set_dtb_config, set_boot_pc, write_slice, add_device, add_edge_interrupt,
  Op, is_regular, create_vcpu,
}
use gunyah_test_vmm.Vmm.Machine.Holds.{
  Holds, on_world-Holds, pure-Holds, fail-Holds, lift-Holds, or_panic-Holds, update-Holds,
  in_context-Holds, >>=-Holds, >>-Holds,
}
use gunyah_test_vmm.Vmm.Machine.Added.{IsKeptBy, bus_insert-Holds, add_memory-Holds}
use gunyah_test_vmm.Serial.{SerialPort, SerialDevice, serial_device, serial_new}
use gunyah_test_vmm.Run.Args.{RunCommand}
use gunyah_test_vmm.Run.Boot.{
  Host, Attempt, share_type, load_binaries, place, check_args, pop_vcpu, spawn_vcpus, set_up,
  attempt, keep_result, create_vcpus,
}
use gunyah_test_vmm.Vmm.Vcpu.{GunyahVcpu}
use gunyah_test_vmm.Vmm.Memory.{GunyahGuestMemoryRegion}
use gunyah_test_vmm.Vmm.Memory.Device.{region_device}

-- `Q` is kept when an interrupt is added.
abbrev pub IsKeptByLines : {W F : Type 0} → (GunyahVirtualMachine W F → Type 0) → Type 0
IsKeptByLines {W} {F} Q =
    (self : GunyahVirtualMachine W F) (lines : List GunyahInterrupt)
    → Q self
    → Q (record self { interrupts = lines })

module _ {W F : Type 0} (Q : GunyahVirtualMachine W F → Type 0) (P : BusEntry W F → Type 0)
    (kept : IsKeptBy Q P) (lines : IsKeptByLines Q) where
  pub serial_new-Holds :
      (kernel : Kernel W) (p : Profile) (fdt : FdtWriter F) (make : GunyahInterrupt → SerialPort W)
      (start line : ℕ)
      → ((d : SerialDevice W) → P (outer_sync (serial_device fdt d)))
      → Holds Q (serial_new kernel p fdt make start line)
  unfolding serial_new add_edge_interrupt add_device
  serial_new-Holds kernel p fdt make start line h =
      >>=-Holds Q _ _
        (>>=-Holds Q _ _ (in_context-Holds Q _ _ (on_world-Holds Q _))
          λ i. >>-Holds Q _ _ (update-Holds Q _ λ self v. lines self _ v) (pure-Holds Q i))
        λ i.
          >>=-Holds Q _ _ (lift-Holds Q _)
            λ len. >>-Holds Q _ _ (bus_insert-Holds Q P kept _ start len (h _)) (pure-Holds Q _)

module _ {W F : Type 0} (Q : GunyahVirtualMachine W F → Type 0) (host : Host W F)
    (p : Profile) where
  set_dtb_config-Holds :
      (start len : ℕ) (dtb : List ℕ) → Holds Q (set_dtb_config host.kernel start len dtb)
  unfolding set_dtb_config write_slice
  set_dtb_config-Holds start len dtb =
      >>-Holds Q _ _ (in_context-Holds Q _ _ (on_world-Holds Q _))
        (in_context-Holds Q _ _ (on_world-Holds Q _))

  place-Holds :
      (args : RunCommand) (serial : Option (SerialDevice W)) (page image_len rdisk_len : ℕ)
      → Holds Q (place host p args serial page image_len rdisk_len)
  unfolding place
  place-Holds args serial page image_len rdisk_len s v = v

  pub load_binaries-Holds :
      (args : RunCommand) (serial : Option (SerialDevice W))
      → Holds Q (load_binaries host p args serial)
  unfolding load_binaries set_boot_pc write_slice
  load_binaries-Holds args serial =
      >>=-Holds Q _ _ (in_context-Holds Q _ _ (on_world-Holds Q _)) λ image.
        >>=-Holds Q _ _ (in_context-Holds Q _ _ (on_world-Holds Q _)) λ rdisk.
          >>=-Holds Q _ _ (on_world-Holds Q _) λ page.
            >>=-Holds Q _ _ (place-Holds args serial page _ _) λ at.
              >>-Holds Q _ _ (set_dtb_config-Holds _ _ _) (
                >>-Holds Q _ _ (on_world-Holds Q _) (
                  >>-Holds Q _ _ (in_context-Holds Q _ _ (on_world-Holds Q _))
                    (in_context-Holds Q _ _ (on_world-Holds Q _))))

  pub check_args-Holds : (args : RunCommand) → Holds Q (check_args host p args)
  unfolding check_args
  check_args-Holds args s v = v

  pop_vcpu-Holds : (vcpus : List Attempt) → Holds Q (pop_vcpu host vcpus)
  unfolding pop_vcpu
  pop_vcpu-Holds [] = lift-Holds Q panic
  pop_vcpu-Holds (inl v ∷ vcpus) = pure-Holds Q (v, vcpus)
  pop_vcpu-Holds (inr x ∷ vcpus) = fail-Holds Q (GunyahVcpu × List Attempt) x

  pub spawn_vcpus-Holds : (n : ℕ) (vcpus : List Attempt) → Holds Q (spawn_vcpus host n vcpus)
  unfolding spawn_vcpus
  spawn_vcpus-Holds zero vcpus = pure-Holds Q tt
  spawn_vcpus-Holds (suc n) vcpus =
      >>=-Holds Q _ _ (pop_vcpu-Holds vcpus)
        λ r. >>-Holds Q _ _ (on_world-Holds Q _) (spawn_vcpus-Holds n r.1)

module _ {W F : Type 0} (Q : GunyahVirtualMachine W F → Type 0) (P : BusEntry W F → Type 0)
    (kept : IsKeptBy Q P) (lines : IsKeptByLines Q) (host : Host W F) (p : Profile) where
  pub set_up-Holds :
      (args : RunCommand)
      → ((d : SerialDevice W) → P (outer_sync (serial_device host.writer d)))
      → ((r : GunyahGuestMemoryRegion)
          → r.regular_memory ≡ is_regular (share_type args)
          → P (outer_sync (region_device host.kernel p r)))
      → Holds Q (set_up host p args)
  unfolding set_up
  set_up-Holds args h h' =
      >>=-Holds Q _ _
        (serial_new-Holds Q P kept lines host.kernel p host.writer host.serial_port _ _ h)
        λ serial. >>=-Holds Q _ _ (lift-Holds Q _) λ size.
          >>=-Holds Q _ _
            (or_panic-Holds Q _ (add_memory-Holds Q P kept host.kernel p _ _ _ _ _ h'))
            λ _. load_binaries-Holds Q host p args _

module _ {W F : Type 0} (Q : GunyahVirtualMachine W F → Type 0) where
  kept-Holds :
      (r : Outcome AnyError GunyahVcpu × (GunyahVirtualMachine W F × W))
      → Q r.1.0
      → Q (keep_result r).1.0
  kept-Holds (ok v, s) q = q
  kept-Holds (err x, s) q = q
  kept-Holds (panic, s) q = q

  attempt-Holds : (m : Op W F GunyahVcpu) → Holds Q m → Holds Q (attempt m)
  unfolding attempt
  attempt-Holds m h s q = kept-Holds (m s) (h s q)

module _ {W F : Type 0} (Q : GunyahVirtualMachine W F → Type 0) (host : Host W F)
    (vcpus_lem : (self : GunyahVirtualMachine W F) (vcpus : List GunyahVcpu)
      → Q self
      → Q (record self { vcpus = vcpus })) where
  pub create_vcpus-Holds :
      (n id : ℕ) (vcpus : List Attempt) → Holds Q (create_vcpus host n id vcpus)
  unfolding create_vcpus create_vcpu
  create_vcpus-Holds zero id vcpus = pure-Holds Q vcpus
  create_vcpus-Holds (suc n) id vcpus =
      >>=-Holds Q _ _
        (attempt-Holds Q _ (
          in_context-Holds Q _ _ (
            >>=-Holds Q _ _ (in_context-Holds Q _ _ (on_world-Holds Q _)) λ v.
              >>-Holds Q _ _ (update-Holds Q _ λ self q. vcpus_lem self _ q) (pure-Holds Q v))))
        λ v. create_vcpus-Holds n (suc id) (v ∷ vcpus)

module _ {W F A : Type 0} (Q : GunyahVirtualMachine W F → Type 0) where
  -- the predicate after a call that returned
  pub Holds-after :
      (m : Op W F A) (s t : GunyahVirtualMachine W F × W) (a : A)
      → Holds Q m
      → m s ≡ (ok a, t)
      → Q s.0
      → Q t.0
  Holds-after m s t a h e q = let after = h s q in rw e at after
