-- ===== src/Gunyah/Functions.antt =====
-- gunyah/src/irqfd.rs, gunyah/src/ioeventfd.rs and gunyah/src/vcpu.rs: the functions of a virtual
-- machine, which are added when such a value is made and removed when it is dropped.
pub mod Removal
use gunyah_test_vmm.Base.{
  ℕ, ◌%◌, ◌^◌, Bool, true, false, Option, none, some, Outcome, ok, err, panic, leb, ◌==◌,
  if◌then◌else◌,
}
use gunyah_test_vmm.Errors.{AnyError}
use gunyah_test_vmm.Effects.{M, ◌>>=◌, ◌>>◌, pure, lift, or_panic, in_context}
use gunyah_test_vmm.Gunyah.Kernel.{
  Kernel, VcpuRun, FnArg, vcpu_arg, irqfd_arg, ioeventfd_arg, vcpu_run, vcpu_mmap_size,
}
use gunyah_test_vmm.Gunyah.Vm.{Vm, add_function, remove_function}

pub record Irqfd : Type 0 where
  pub vm : Vm
  pub label : ℕ
  pub level : Bool
  pub eventfd : ℕ

pub record Ioeventfd : Type 0 where
  pub vm : Vm
  pub addr : ℕ
  pub len : ℕ
  pub datamatch : Option ℕ
  pub eventfd : ℕ

pub record Vcpu : Type 0 where
  pub vm : Vm
  pub id : ℕ
  pub vcpu : ℕ

-- the flags that `new` and `drop` compute, `GUNYAH_IRQFD_FLAGS_LEVEL` and
-- `GUNYAH_IOEVENTFD_FLAGS_DATAMATCH`
abbrev irqfd_flags : Bool → ℕ
irqfd_flags true = 1
irqfd_flags false = 0

abbrev ioeventfd_flags : Option ℕ → ℕ
ioeventfd_flags (some _) = 1
ioeventfd_flags none = 0

-- `unwrap_or_default`
abbrev unwrap_or_default : Option ℕ → ℕ
unwrap_or_default (some n) = n
unwrap_or_default none = 0

-- `assert!` and `assert_ge!`
abbrev pub assert : Bool → Outcome AnyError (Unit {0})
assert true = ok tt
assert false = panic

-- `size_of::<gunyah_vcpu_run>()`
abbrev size_of_vcpu_run : ℕ
size_of_vcpu_run = 40

module _ {K : Type 0} (kernel : Kernel K) where
  -- `Irqfd::new`
  unfoldable pub irqfd_new : Vm → ℕ → Bool → M K Irqfd
  irqfd_new vm label level = do
    raw_fd ← in_context "failed to create eventfd" kernel.eventfd
    in_context "failed to stat eventfd" (kernel.stat raw_fd)
    added ←
        in_context "failed to register irqfd with vm"
          (add_function kernel vm (irqfd_arg (raw_fd % 2 ^ 32) label (irqfd_flags level) 0))
    lift (assert (added == 0))
    pure (record { vm = vm; label = label; level = level; eventfd = raw_fd })

  -- `Irqfd::trigger`
  unfoldable pub irqfd_trigger : Irqfd → M K (Unit {0})
  irqfd_trigger self k = (ok tt, kernel.write self.eventfd 1 k)

  -- `Drop for Irqfd`
  unfoldable pub drop_irqfd : Irqfd → M K (Unit {0})
  drop_irqfd self = do
    _ ← or_panic (
        remove_function kernel self.vm
          (irqfd_arg (self.eventfd % 2 ^ 32) self.label (irqfd_flags self.level) 0))
    pure tt

  -- `Ioeventfd::new`
  unfoldable pub ioeventfd_new : Vm → ℕ → ℕ → Option ℕ → M K Ioeventfd
  ioeventfd_new vm addr len datamatch = do
    raw_fd ← in_context "Failed to create eventfd" kernel.eventfd
    added ← in_context "Failed to register ioeventfd with VM" (
        add_function kernel vm (
          ioeventfd_arg (unwrap_or_default datamatch) addr len raw_fd (ioeventfd_flags datamatch)
            0))
    lift (assert (added == 0))
    in_context "failed to stat eventfd" (kernel.stat raw_fd)
    pure (record { vm = vm; addr = addr; len = len; datamatch = datamatch; eventfd = raw_fd })

  -- `Drop for Ioeventfd`
  unfoldable pub drop_ioeventfd : Ioeventfd → M K (Unit {0})
  drop_ioeventfd self = do
    _ ← or_panic (
        remove_function kernel self.vm (
          ioeventfd_arg (unwrap_or_default self.datamatch) self.addr self.len self.eventfd
            (ioeventfd_flags self.datamatch) 0))
    pure tt

  -- `Vcpu::new`
  unfoldable pub vcpu_new : Vm → ℕ → M K Vcpu
  vcpu_new vm id = do
    raw_fd ← in_context "failed to create vcpu with vm" (add_function kernel vm (vcpu_arg id))
    mmap_size ← in_context "failed to get vcpu mmap size" (kernel.ioctl raw_fd vcpu_mmap_size)
    lift (assert (leb size_of_vcpu_run mmap_size))
    in_context "failed to mmap vcpu" (kernel.map_file raw_fd mmap_size)
    in_context "failed to stat vcpu" (kernel.stat raw_fd)
    pure (record { vm = vm; id = id; vcpu = raw_fd })

  -- `Vcpu::run`
  unfoldable pub run : Vcpu → M K (Unit {0})
  run self = kernel.ioctl self.vcpu vcpu_run >>= λ _. pure tt

  -- `Vcpu::mmap`, and what is stored through `Vcpu::mmap_mut`
  unfoldable pub mmap : Vcpu → K → VcpuRun
  mmap self k = kernel.vcpu_page self.vcpu k

  unfoldable pub store : Vcpu → VcpuRun → K → K
  store self page k = kernel.set_vcpu_page self.vcpu page k

  -- `Drop for Vcpu`
  unfoldable pub drop_vcpu : Vcpu → M K (Unit {0})
  drop_vcpu self = do _ ← or_panic (remove_function kernel self.vm (vcpu_arg self.id)); pure tt
