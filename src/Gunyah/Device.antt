-- ===== src/Gunyah/Device.antt =====
-- gunyah/src/gunyah.rs: the driver itself, which makes virtual machines and guest memory (built
-- without the feature `ack-bindings`).
use gunyah_test_vmm.Base.{ℕ, Bool, true, false, String}
use gunyah_test_vmm.Effects.{M, ◌>>=◌, pure, or_panic}
use gunyah_test_vmm.Gunyah.Kernel.{Kernel, create_vm, create_guest_mem}
use gunyah_test_vmm.Gunyah.GuestMem.{GuestMem, mem_from_file}
use gunyah_test_vmm.Gunyah.Vm.{Vm, vm_from_file}

pub record Gunyah : Type 0 where
  pub fd : ℕ

-- `gunyah_mem_flags`
abbrev pub ghmf_cloexec : ℕ
ghmf_cloexec = 1

abbrev pub ghmf_allow_hugepage : ℕ
ghmf_allow_hugepage = 2

abbrev pub hugepage_flags : Bool → ℕ
hugepage_flags true = ghmf_allow_hugepage
hugepage_flags false = 0

module _ {K : Type 0} (kernel : Kernel K) where
  unfoldable pub open_with_cloexec_at : String → Bool → M K Gunyah
  open_with_cloexec_at path close_on_exec = do
    fd ← kernel.open_file path close_on_exec
    pure (record { fd = fd })

  unfoldable pub open_with_cloexec : Bool → M K Gunyah
  open_with_cloexec close_on_exec = open_with_cloexec_at "/dev/gunyah" close_on_exec

  -- `Gunyah::new_with_path`
  unfoldable pub new_with_path : String → M K Gunyah
  new_with_path path = open_with_cloexec_at path true

  -- `Gunyah::new`
  unfoldable pub gunyah_new : M K Gunyah
  gunyah_new = open_with_cloexec true

  -- `Vm::from(file)` panics if the file has no identity.
  unfoldable pub create_vm_with_type : Gunyah → ℕ → M K Vm
  create_vm_with_type self vm_type = do
    fd ← kernel.ioctl self.fd (create_vm vm_type)
    vm_from_file kernel fd

  -- `Gunyah::create_vm`
  unfoldable pub create_default_vm : Gunyah → M K Vm
  create_default_vm self = create_vm_with_type self 0

  -- `GuestMem::from(file)` panics if the file has no identity.
  unfoldable pub create_guest_memory_with_flags : Gunyah → ℕ → ℕ → M K GuestMem
  create_guest_memory_with_flags self size flags = do
    fd ← kernel.ioctl self.fd (create_guest_mem flags size)
    mem_from_file kernel fd

  unfoldable pub create_guest_memory : Gunyah → ℕ → Bool → M K GuestMem
  create_guest_memory self size huge_pages =
      create_guest_memory_with_flags self size (hugepage_flags huge_pages)

  unfoldable pub create_guest_memory_with_cloexec : Gunyah → ℕ → M K GuestMem
  create_guest_memory_with_cloexec self size = create_guest_memory_with_flags self size ghmf_cloexec

  -- `Gunyah::dup`
  unfoldable pub gunyah_dup : Gunyah → M K Gunyah
  gunyah_dup self = do fd ← kernel.dup self.fd; pure (record { fd = fd })

  -- `<Gunyah as Clone>::clone`
  unfoldable pub gunyah_clone : Gunyah → M K Gunyah
  gunyah_clone self = or_panic (gunyah_dup self)
