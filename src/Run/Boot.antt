-- ===== src/Run/Boot.antt =====
-- src/main.rs: from the arguments to running vCPUs. The files, the page size, the writer of device
-- trees, the registers of the console and threads are the host's.
pub mod Vcpus
pub mod Kept
pub mod Shared
pub mod Tree
pub mod Running
pub mod Written
pub mod Loaded
pub mod SetUp
use gunyah_test_vmm.Base.{
  ℕ, zero, suc, ◌%◌, ◌^◌, Bool, if◌then◌else◌, List, [], ◌∷◌, ◌++◌, Option, none, some, Outcome, ok,
  err, panic, Profile, ◌⊎◌, inl, inr, length, map_err, unwrap,
}
use gunyah_test_vmm.Base
use gunyah_test_vmm.Errors.{AnyError, from_parse, context}
use gunyah_test_vmm.Effects.{M, ◌>>=◌, ◌>>◌, pure, fail, lift, or_panic, in_context}
use gunyah_test_vmm.Types.Text.{Text, codes, trim}
use gunyah_test_vmm.Types.Radix.{from_str_radix}
use gunyah_test_vmm.Types.Guest.{GuestAddress, size_try_into}
use gunyah_test_vmm.Fdt.{FdtWriter, text, u32}
use gunyah_test_vmm.Gunyah.Kernel.{Kernel}
use gunyah_test_vmm.Gunyah.Vm.{ShareType, share, lend, rwx}
use gunyah_test_vmm.Vmm.Vcpu.{GunyahVcpu}
use gunyah_test_vmm.Vmm.Interrupt.{GunyahInterrupt}
use gunyah_test_vmm.Vmm.Machine.{
  GunyahVirtualMachine, Op, on_world, machine_new, create_vcpu, add_memory, set_dtb_config,
  set_boot_pc, write_slice,
}
use gunyah_test_vmm.Vmm.Machine
use gunyah_test_vmm.Vmm.DeviceTree.{create_fdt_basic_config}
use gunyah_test_vmm.Serial.{SerialPort, SerialDevice, serial_new, device_name}
use gunyah_test_vmm.Run.Args.{RunCommand, validate, gic_config}
use gunyah_test_vmm.Run.Layout.{Placement, plan}

pub record Host (W F : Type 0) : Type 0 where
  pub kernel : Kernel W
  pub writer : FdtWriter F
  -- `FdtWriter::new()`
  pub new_writer : Outcome AnyError F
  pub is_file : W → Text → Bool
  -- `fs::read`
  pub read_file : Text → M W (List ℕ)
  -- `fs::read_to_string` of /sys/kernel/mm/transparent_hugepage/hpage_pmd_size
  pub hpage_pmd_size : M W Text
  -- `page_size::get()`
  pub base_page_size : ℕ
  pub serial_port : GunyahInterrupt → SerialPort W
  -- `thread::spawn` of the loop of a vCPU
  pub spawn : GunyahVcpu → M W (Unit {0})

-- `usize::from_str` and `unwrap`
unfoldable pub parse_page_size : Text → Outcome AnyError ℕ
parse_page_size s = unwrap (map_err from_parse (from_str_radix 10 (trim s)))

-- the type of the memory
abbrev pub share_type : RunCommand → ShareType
share_type args = if args.protected then lend else share

module _ {W F : Type 0} (host : Host W F) (p : Profile) where
  abbrev huge_page_size : M W ℕ
  huge_page_size = or_panic host.hpage_pmd_size >>= λ s. lift (parse_page_size s)

  -- `Run::page_size`, when it is first asked for
  unfoldable pub page_size : RunCommand → M W ℕ
  page_size args = if args.huge_pages then huge_page_size else pure host.base_page_size

  unfoldable pub stdout_path : Option (SerialDevice W) → M F (Unit {0})
  unfolding device_name
  stdout_path none = pure tt
  stdout_path (some ser) = host.writer.property "stdout-path" (text (b'/' ∷ device_name ser))

  -- what `generate_fdt` writes
  unfoldable pub write_fdt :
      GunyahVirtualMachine W F
      → W
      → RunCommand
      → Option (SerialDevice W)
      → GuestAddress
      → GuestAddress
      → M F (Unit {0})
  write_fdt vm w args serial rdisk_start rdisk_end = do
    root_node ← host.writer.begin_node []
    gic ← lift (gic_config p args)
    create_fdt_basic_config host.writer vm w gic (13, 14, 11, 10)
    chosen ← host.writer.begin_node (codes "chosen")
    stdout_path serial
    host.writer.property "bootargs" (text args.command_line)
    host.writer.property "linux,initrd-start" (u32 (rdisk_start.value % 2 ^ 32))
    host.writer.property "linux,initrd-end" (u32 (rdisk_end.value % 2 ^ 32))
    host.writer.end_node chosen
    host.writer.end_node root_node

  abbrev pub finish_fdt : Outcome AnyError (Unit {0}) × F → Outcome AnyError (List ℕ)
  finish_fdt (ok _, fdt) = context "Failed to finalize dtb" (host.writer.finish fdt)
  finish_fdt (err e, fdt) = err e
  finish_fdt (panic, fdt) = panic

  -- `Run::generate_fdt`
  unfoldable pub generate_fdt :
      GunyahVirtualMachine W F
      → W
      → RunCommand
      → Option (SerialDevice W)
      → GuestAddress
      → GuestAddress
      → Outcome AnyError (List ℕ)
  generate_fdt vm w args serial rdisk_start rdisk_end =
      Base.◌>>=◌ host.new_writer
        λ fdt. finish_fdt (write_fdt vm w args serial rdisk_start rdisk_end fdt)

  -- the calculations of `load_binaries`
  unfoldable pub place : RunCommand → Option (SerialDevice W) → ℕ → ℕ → ℕ → Op W F Placement
  place args serial page image_len rdisk_len (vm, w) =
      (plan p page args image_len rdisk_len (generate_fdt vm w args serial), (vm, w))

  -- `Run::load_binaries`
  unfoldable pub load_binaries : RunCommand → Option (SerialDevice W) → Op W F (Unit {0})
  load_binaries args serial = do
    image ← in_context "Unable to read VM image" (on_world (λ _. host.read_file args.image))
    rdisk ← in_context "Unable to read Ramdisk image" (on_world (λ _. host.read_file args.rdisk))
    page ← on_world (λ _. page_size args)
    at ← place args serial page (length image) (length rdisk)
    set_dtb_config host.kernel at.dtb_addr.value at.dtb_len.value at.dtb
    set_boot_pc host.kernel at.image_base.value
    in_context "Unable to copy binary image to VM's memory" (write_slice at.image_base.value image)
    in_context "Unable to copy ramdisk to VM's memory" (write_slice at.rdisk_base.value rdisk)

-- `Result<GunyahVcpu>` as a value
abbrev pub Attempt : Type 0
Attempt = GunyahVcpu ⊎ AnyError

abbrev pub keep_result :
    {K : Type 0} → Outcome AnyError GunyahVcpu × K → Outcome AnyError Attempt × K
keep_result (ok a, k) = (ok (inl a), k)
keep_result (err e, k) = (ok (inr e), k)
keep_result (panic, k) = (panic, k)

-- a result that is not looked at yet
unfoldable pub attempt : {K : Type 0} → M K GunyahVcpu → M K Attempt
attempt m k = keep_result (m k)

module _ {W F : Type 0} (host : Host W F) where
  -- the first loop of `execute`, from the vCPU `id` on. `vcpus` is the vector with its last element
  -- first.
  unfoldable pub create_vcpus : ℕ → ℕ → List Attempt → Op W F (List Attempt)
  create_vcpus zero id vcpus = pure vcpus
  create_vcpus (suc n) id vcpus = do
    vcpu ← attempt (in_context "Failed to create vcpu" (create_vcpu host.kernel id))
    create_vcpus n (suc id) (vcpu ∷ vcpus)

  -- `pop().unwrap()?`
  unfoldable pub pop_vcpu : List Attempt → Op W F (GunyahVcpu × List Attempt)
  pop_vcpu [] = lift panic
  pop_vcpu (inl vcpu ∷ vcpus) = pure (vcpu, vcpus)
  pop_vcpu (inr e ∷ vcpus) = fail e

  -- the second loop: as many vCPUs as there are to be
  unfoldable pub spawn_vcpus : ℕ → List Attempt → Op W F (Unit {0})
  spawn_vcpus zero vcpus = pure tt
  spawn_vcpus (suc n) vcpus = do
    (vcpu, rest) ← pop_vcpu vcpus
    on_world (λ _. host.spawn vcpu)
    spawn_vcpus n rest

module _ {W F : Type 0} (host : Host W F) (p : Profile) where
  -- `execute` between its two loops, up to the start of the machine
  unfoldable pub set_up : RunCommand → Op W F (Unit {0})
  set_up args = do
    serial ←
        serial_new host.kernel p host.writer host.serial_port args.serial_base.value
          args.serial_interrupt
    size ← lift (size_try_into args.size)
    _ ←
        or_panic
          (add_memory host.kernel p args.mem_base.value size (share_type args) rwx args.huge_pages)
    load_binaries host p args (some serial)

  -- the check of the arguments against the files there are
  unfoldable pub check_args : RunCommand → Op W F (Unit {0})
  check_args args (vm, w) = (validate (host.is_file w) args, (vm, w))

  -- `Run::execute` until all vCPUs run, where it begins to wait for their threads
  unfoldable pub execute : RunCommand → Op W F (Unit {0})
  execute args = do
    check_args args
    vcpus ← create_vcpus host args.vcpus 0 []
    set_up args
    in_context "Failed to start the VM" (Machine.start host.kernel)
    spawn_vcpus host args.vcpus vcpus

  abbrev pub forget_machine :
      {A : Type 0} → Outcome AnyError A × (GunyahVirtualMachine W F × W) → Outcome AnyError A × W
  forget_machine (r, (vm, w)) = (r, w)

  -- `Run::new(..)?.execute()`
  unfoldable pub main : RunCommand → M W (Unit {0})
  main args = do
    vm ← in_context "Failed to create Gunyah Virtual Machine" (machine_new host.kernel)
    λ w. forget_machine (execute args (vm, w))
