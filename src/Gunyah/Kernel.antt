-- ===== src/Gunyah/Kernel.antt =====
-- The requests that the crate gunyah makes of the kernel (gunyah-bindings/src/ioctls.rs and
-- gunyah-bindings/src/bindings.rs). The kernel itself is a parameter: a state and its answers.
use gunyah_test_vmm.Base.{ℕ, ◌*◌, ◌^◌, bit_and, bit_or, List, Bool, String}
use gunyah_test_vmm.Effects.{M}

-- `gunyah_map_mem_args`
pub record MapMemArgs : Type 0 where
  pub guest_addr : ℕ
  pub flags : ℕ
  pub guest_mem_fd : ℕ
  pub offset : ℕ
  pub size : ℕ

-- `gunyah_fn_vcpu_arg`, `gunyah_fn_irqfd_arg` and `gunyah_fn_ioeventfd_arg`
pub data FnArg : Type 0 where
  vcpu_arg : ℕ → FnArg
  irqfd_arg : (fd label flags padding : ℕ) → FnArg
  ioeventfd_arg : (datamatch addr len fd flags padding : ℕ) → FnArg

-- `gunyah_fn_desc`, with the argument itself in place of the pointer to it
pub record FnDesc : Type 0 where
  pub type_ : ℕ
  pub arg_size : ℕ
  pub arg : FnArg

-- the ioctls
pub data Request : Type 0 where
  create_vm : ℕ → Request
  vm_start : Request
  vm_set_dtb_config : (guest_phys_addr size : ℕ) → Request
  vm_add_function vm_remove_function : FnDesc → Request
  vm_map_mem : MapMemArgs → Request
  vm_set_boot_context : (reg value : ℕ) → Request
  create_guest_mem : (flags size : ℕ) → Request
  vcpu_run vcpu_mmap_size : Request

-- `gunyah_vcpu_run`. The exits for MMIO and for a page fault both begin with `phys_addr`; the rest
-- is the one for MMIO, whose `bytes` (`data` there) has eight bytes.
pub record VcpuRun : Type 0 where
  pub exit_reason : ℕ
  pub phys_addr : ℕ
  pub bytes : List ℕ
  pub len : ℕ
  pub is_write : ℕ
  pub resume_action : ℕ

-- The kernel: what a request on a descriptor returns, and the calls of the C library that matter.
-- An error is `from_errno`.
pub record Kernel (K : Type 0) : Type 0 where
  pub ioctl : ℕ → Request → M K ℕ
  pub dup : ℕ → M K ℕ
  -- `Handle::from_file`, which asks for the identity of the file
  pub stat : ℕ → M K (Unit {0})
  -- the length of the file, `metadata()?.len()`
  pub file_len : ℕ → M K ℕ
  -- `eventfd(0, EfdFlags::empty())`
  pub eventfd : M K ℕ
  -- `open` of a path with `O_RDWR`, and with `O_CLOEXEC` or without
  pub open_file : String → Bool → M K ℕ
  -- a write of eight bytes, the number given; the code only prints what goes wrong
  pub write : ℕ → ℕ → K → K
  -- `MmapOptions::new().len(..).map_mut(..)` of a file
  pub map_file : ℕ → ℕ → M K (Unit {0})
  -- `fallocate`, with its flags
  pub fallocate : (fd flags off len : ℕ) → M K (Unit {0})
  -- `MmapOptions::new().offset(..).len(..)` and `map` or `map_mut` of a file: the address of the mapping
  pub map_range : (fd off len : ℕ) → (writable : Bool) → M K ℕ
  -- what a mapped vCPU holds
  pub vcpu_page : ℕ → K → VcpuRun
  pub set_vcpu_page : ℕ → VcpuRun → K → K
  -- a range of the file of a descriptor, by offset and length, mapped and copied with
  -- `cautious_memcpy`
  pub copy_from : (fd off len : ℕ) → M K (List ℕ)
  pub copy_to : (fd off : ℕ) → List ℕ → M K (Unit {0})

-- `gunyah_vm_boot_context_reg_id`
unfoldable pub boot_context_reg_id : ℕ → ℕ → ℕ
boot_context_reg_id reg_type reg_idx = bit_or (bit_and reg_type 0xff * 2 ^ 8) reg_idx
