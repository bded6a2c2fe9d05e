-- ===== src/Run/Boot/Shared.antt =====
-- src/main.rs: machines with shared memory, `--unprotected`.
use gunyah_test_vmm.Vmm.DeviceTree.Unlisted.{
  HasNoMemory, NoMemory, NeverReturns, insert-NoneHasMemory, >>=-NeverReturns,
  create_fdt_basic_config-NeverReturns,
}
use gunyah_test_vmm.Base.{
  ℕ, ◌≡◌, bind-ok, Outcome-cases, length, err, String, refl, false, List, [], Option, some, Outcome,
  ok, panic, Profile, inl, inr, arith, ap,
}
use gunyah_test_vmm.Errors.{AnyError}
use gunyah_test_vmm.Effects.{lift, in_context, or_panic}
use gunyah_test_vmm.Effects.Returns.{
  Ensures, >>=-Ensures, any-Ensures, >>=-ok, >>-ok, pure-Ensures, in_context-Ensures,
}
use gunyah_test_vmm.Bus.Dispatch.{outer_sync}
use gunyah_test_vmm.Types.Text.{Text}
use gunyah_test_vmm.Vmm.Machine.{
  GunyahVirtualMachine, on_world, from_vm, machine_new, add_memory, is_regular,
}
use gunyah_test_vmm.Vmm.Machine.Holds.{lift-Holds, or_panic-Holds, on_world-Holds, in_context-Holds}
use gunyah_test_vmm.Run.Boot.Kept.{
  serial_new-Holds, check_args-Holds, create_vcpus-Holds, Holds-after,
}
use gunyah_test_vmm.Types.Guest.{GuestAddress, address_add, size_try_into}
use gunyah_test_vmm.Serial.{SerialDevice, serial_device, serial_new}
use gunyah_test_vmm.Gunyah.Vm.{rwx}
use gunyah_test_vmm.Vmm.Memory.{GunyahGuestMemoryRegion, memory_regions}
use gunyah_test_vmm.Vmm.Memory.Device.{region_device}
use gunyah_test_vmm.Vmm.Machine.Added.{IsKeptBy, add_memory-Holds}
use gunyah_test_vmm.Run.Args.{RunCommand}
use gunyah_test_vmm.Run.Layout.{Placement, plan, place_rdisk}
use gunyah_test_vmm.Run.Boot.{
  Host, share_type, finish_fdt, write_fdt, generate_fdt, place, page_size, load_binaries, set_up,
  check_args, create_vcpus, execute, forget_machine, main,
}

module _ {W F : Type 0} (host : Host W F) (p : Profile) where
  write_fdt-NeverReturns :
      (self : GunyahVirtualMachine W F) (w : W) (args : RunCommand)
      (serial : Option (SerialDevice W)) (rdisk_start rdisk_end : GuestAddress)
      → NoMemory self
      → NeverReturns (write_fdt host p self w args serial rdisk_start rdisk_end)
  unfolding write_fdt
  write_fdt-NeverReturns self w args serial rdisk_start rdisk_end h = >>=-NeverReturns _ _ λ root.
      >>=-NeverReturns _ _ λ gic. λ k k' a e.
        let (_, k1, written, _) = >>-ok _ _ k k' a e in
        create_fdt_basic_config-NeverReturns host.writer self w gic _ h k k1 tt written

  finish_fdt-ok :
      (r : Outcome AnyError (Unit {0}) × F) (dtb : List ℕ)
      → finish_fdt host p r ≡ ok dtb
      → (f : F) × (r ≡ (ok tt, f))
  finish_fdt-ok (ok _, f) dtb e = (f, refl)
  finish_fdt-ok (err x, f) dtb e = ground arith
  finish_fdt-ok (panic, f) dtb e = ground arith

  generate_fdt-never :
      (self : GunyahVirtualMachine W F) (w : W) (args : RunCommand)
      (serial : Option (SerialDevice W)) (rdisk_start rdisk_end : GuestAddress) (dtb : List ℕ)
      → NoMemory self
      → ¬ (generate_fdt host p self w args serial rdisk_start rdisk_end ≡ ok dtb)
  unfolding generate_fdt
  generate_fdt-never self w args serial rdisk_start rdisk_end dtb h e =
      let (fdt, _, e1) = bind-ok host.new_writer _ dtb e in
      let (f, written) =
        finish_fdt-ok (write_fdt host p self w args serial rdisk_start rdisk_end fdt) dtb e1 in
      write_fdt-NeverReturns self w args serial rdisk_start rdisk_end h fdt f tt written

  plan-never :
      (page image_len rdisk_len : ℕ) (args : RunCommand)
      (generate : GuestAddress → GuestAddress → Outcome AnyError (List ℕ)) (at : Placement)
      → ((a b : GuestAddress) (dtb : List ℕ) → ¬ (generate a b ≡ ok dtb))
      → ¬ (plan p page args image_len rdisk_len generate ≡ ok at)
  unfolding plan
  plan-never page image_len rdisk_len args generate at never e =
      elim (Outcome-cases (place_rdisk p page args image_len)) [
        | inl (base, r) ↦
            let e1 = rw r at e in
            elim (Outcome-cases (address_add p base.1 (record { value = rdisk_len }))) [
              | inl (end, r1) ↦
                  let e2 = rw r1 at e1 in
                  elim (Outcome-cases (generate base.1 end)) [
                    | inl (dtb, r2) ↦ never base.1 end dtb r2
                    | inr (inl (x, r2)) ↦ let e3 = rw r2 at e2 in ground arith
                    | inr (inr r2) ↦ let e3 = rw r2 at e2 in ground arith
                  ]
              | inr (inl (x, r1)) ↦ let e2 = rw r1 at e1 in ground arith
              | inr (inr r1) ↦ let e2 = rw r1 at e1 in ground arith
            ]
        | inr (inl (x, r)) ↦ let e1 = rw r at e in ground arith
        | inr (inr r) ↦ let e1 = rw r at e in ground arith
      ]

  read_file-NoMemory :
      (t : String) (path : Text) (s s' : GunyahVirtualMachine W F × W) (bytes : List ℕ)
      → NoMemory s.0
      → in_context t (on_world (λ _. host.read_file path)) s ≡ (ok bytes, s')
      → NoMemory s'.0
  read_file-NoMemory t path s s' bytes h e =
      Holds-after NoMemory (in_context t (on_world (λ _. host.read_file path))) s s' bytes
        (in_context-Holds NoMemory t (on_world (λ _. host.read_file path))
          (on_world-Holds NoMemory _))
        e h

  load_binaries-NeverReturns :
      (args : RunCommand) (serial : Option (SerialDevice W)) (s s' : GunyahVirtualMachine W F × W)
      → NoMemory s.0
      → ¬ (load_binaries host p args serial s ≡ (ok tt, s'))
  unfolding load_binaries place
  load_binaries-NeverReturns args serial s s' h e =
      let (image, s1, e1, f1) = >>=-ok _ _ s s' tt e in
      let (rdisk, s2, e2, f2) = >>=-ok _ _ s1 s' tt f1 in
      let (page, s3, e3, f3) = >>=-ok _ _ s2 s' tt f2 in
      let (at, s4, e4, f4) = >>=-ok _ _ s3 s' tt f3 in
      let h1 = read_file-NoMemory "Unable to read VM image" args.image s s1 image h e1 in
      let h2 = read_file-NoMemory "Unable to read Ramdisk image" args.rdisk s1 s2 rdisk h1 e2 in
      let h3 =
        Holds-after NoMemory (on_world (λ _. page_size host p args)) s2 s3 page
          (on_world-Holds NoMemory _) e3 h2 in
      plan-never page (length image) (length rdisk) args (generate_fdt host p s3.0 s3.1 args serial)
        at (λ a b dtb. generate_fdt-never s3.0 s3.1 args serial a b dtb h3) (ap (λ x. x.0) e4)

  serial_device-HasNoMemory :
      (d : SerialDevice W) → HasNoMemory (outer_sync (serial_device host.writer d))
  unfolding serial_device
  serial_device-HasNoMemory d w = refl

  region_device-HasNoMemory :
      (args : RunCommand) (r : GunyahGuestMemoryRegion)
      → args.protected ≡ false
      → r.regular_memory ≡ is_regular (share_type args)
      → HasNoMemory {W = W} {F = F} (outer_sync (region_device host.kernel p r))
  unfolding region_device memory_regions
  region_device-HasNoMemory args r shared e w =
      let e' : r.regular_memory ≡ false = rw shared at e in rw e' refl

  -- where devices that list no memory are put on the bus
  insert-NoMemory : IsKeptBy {W = W} {F = F} NoMemory HasNoMemory
  insert-NoMemory self e base len h hs = insert-NoneHasMemory e base len self.bus h hs

  set_up-NeverReturns :
      (args : RunCommand) (s s' : GunyahVirtualMachine W F × W)
      → args.protected ≡ false
      → NoMemory s.0
      → ¬ (set_up host p args s ≡ (ok tt, s'))
  unfolding set_up
  set_up-NeverReturns args s s' shared h e =
      let (serial, s1, e1, f1) = >>=-ok _ _ s s' tt e in
      let (size, s2, e2, f2) = >>=-ok _ _ s1 s' tt f1 in
      let (region, s3, e3, f3) = >>=-ok _ _ s2 s' tt f2 in
      let h1 =
        Holds-after NoMemory
          (serial_new host.kernel p host.writer host.serial_port args.serial_base.value
            args.serial_interrupt)
          s s1 serial
          (serial_new-Holds NoMemory HasNoMemory insert-NoMemory (λ self l q. q) host.kernel p
            host.writer host.serial_port _ _ serial_device-HasNoMemory)
          e1 h in
      let h2 =
        Holds-after NoMemory (lift (size_try_into args.size)) s1 s2 size (lift-Holds NoMemory _) e2
          h1 in
      let add =
        add_memory {F = F} host.kernel p args.mem_base.value size (share_type args) rwx
          args.huge_pages in
      let h3 =
        Holds-after NoMemory (or_panic add) s2 s3 region
          (or_panic-Holds NoMemory add (
            add_memory-Holds NoMemory HasNoMemory insert-NoMemory host.kernel p _ _ _ _ _
              λ r. region_device-HasNoMemory args r shared))
          e3 h2 in
      load_binaries-NeverReturns args (some serial) s3 s' h3 f3

  execute-NeverReturns :
      (args : RunCommand) (s s' : GunyahVirtualMachine W F × W)
      → args.protected ≡ false
      → NoMemory s.0
      → ¬ (execute host p args s ≡ (ok tt, s'))
  unfolding execute
  execute-NeverReturns args s s' shared h e =
      let (_, s0, checked, e0) = >>-ok _ _ s s' tt e in
      let (vcpus, s1, created, e1) = >>=-ok _ _ s0 s' tt e0 in
      let (_, s2, ready, e2) = >>-ok _ _ s1 s' tt e1 in
      let h0 =
        Holds-after NoMemory (check_args host p args) s s0 tt
          (check_args-Holds NoMemory host p args) checked h in
      let h1 =
        Holds-after NoMemory (create_vcpus host args.vcpus 0 []) s0 s1 vcpus
          (create_vcpus-Holds NoMemory host (λ self vcpus q. q) args.vcpus 0 []) created h0 in
      set_up-NeverReturns args s1 s2 shared h1 ready

  forget_machine-ok :
      (r : Outcome AnyError (Unit {0}) × (GunyahVirtualMachine W F × W)) (w : W)
      → forget_machine {W = W} {F = F} host p r ≡ (ok tt, w)
      → (s : GunyahVirtualMachine W F × W) × (r ≡ (ok tt, s))
  forget_machine-ok (ok _, s) w e = (s, refl)
  forget_machine-ok (err x, s) w e = ground arith
  forget_machine-ok (panic, s) w e = ground arith

  machine_new-NoMemory : Ensures (machine_new {W = W} {F = F} host.kernel) NoMemory
  unfolding machine_new
  machine_new-NoMemory =
      >>=-Ensures (any-Ensures _)
        λ driver _. >>=-Ensures (any-Ensures _) λ vm _. pure-Ensures NoMemory (from_vm vm) tt

  -- A run with `--unprotected` never gets as far as to wait for its vCPUs, whatever the host and the
  -- kernel answer and whatever the other arguments are: memory that is shared is not listed as memory of
  -- the machine, and without any the device tree is not made.
  pub main-shared-never :
      (args : RunCommand) (w w' : W) → args.protected ≡ false → ¬ (main host p args w ≡ (ok tt, w'))
  unfolding main
  main-shared-never args w w' shared e =
      let (vm, w1, e1, e2) = >>=-ok _ _ w w' tt e in
      let (s, done) = forget_machine-ok _ w' e2 in
      execute-NeverReturns args (vm, w1) s shared
        (in_context-Ensures _ _ machine_new-NoMemory w w1 vm e1) done
