-- ===== src/Gunyah/Vm.antt =====
-- gunyah/src/vm.rs: the requests on the descriptor of a virtual machine (built without the feature
-- `ack-bindings`).
use gunyah_test_vmm.Base.{ℕ, ◌%◌, ◌^◌, Bool, true, false, bit_or}
use gunyah_test_vmm.Effects.{M, ◌>>=◌, ◌>>◌, pure, or_panic}
use gunyah_test_vmm.Gunyah.Kernel.{
  Kernel, MapMemArgs, FnArg, vcpu_arg, irqfd_arg, ioeventfd_arg, FnDesc, vm_start,
  vm_set_dtb_config, vm_add_function, vm_remove_function, vm_map_mem, vm_set_boot_context,
  boot_context_reg_id,
}
use gunyah_test_vmm.Gunyah.GuestMem.{GuestMemRegion}

pub data ShareType : Type 0 where
  share lend : ShareType

pub data GuestMemoryAccess : Type 0 where
  r rw rx rwx : GuestMemoryAccess

pub record Vm : Type 0 where
  pub fd : ℕ

-- `gunyah_map_flags`
abbrev pub mem_force_lend : ℕ
mem_force_lend = 1

abbrev pub mem_force_share : ℕ
mem_force_share = 2

abbrev pub mem_allow_read : ℕ
mem_allow_read = 16

abbrev pub mem_allow_write : ℕ
mem_allow_write = 32

abbrev pub mem_allow_exec : ℕ
mem_allow_exec = 64

abbrev pub mem_allow_rwx : ℕ
mem_allow_rwx = 112

abbrev pub mem_unmap : ℕ
mem_unmap = 256

-- the flags of `__map_memory`
abbrev pub share_flags : ShareType → ℕ
share_flags share = mem_force_share
share_flags lend = mem_force_lend

abbrev pub access_flags : GuestMemoryAccess → ℕ
access_flags r = mem_allow_read
access_flags rw = bit_or mem_allow_read mem_allow_write
access_flags rx = bit_or mem_allow_read mem_allow_exec
access_flags rwx = mem_allow_rwx

abbrev pub unmap_flags : Bool → ℕ
unmap_flags true = mem_unmap
unmap_flags false = 0

unfoldable pub map_flags : ShareType → GuestMemoryAccess → Bool → ℕ
map_flags share_type access unmap =
    bit_or (bit_or (share_flags share_type) (access_flags access)) (unmap_flags unmap)

-- the arguments of the ioctl in `__map_memory`
unfoldable pub map_args : ℕ → ShareType → GuestMemoryAccess → Bool → GuestMemRegion → MapMemArgs
map_args guest_addr share_type access unmap region = record {
  guest_addr = guest_addr;
  flags = map_flags share_type access unmap;
  guest_mem_fd = region.mem.fd % 2 ^ 32;
  offset = region.off;
  size = region.size;
}

-- `FUNCTION_TYPE` and the size of `FunctionArg` of each `VmFunction`
abbrev pub function_type : FnArg → ℕ
function_type (vcpu_arg _) = 1
function_type (irqfd_arg _ _ _ _) = 2
function_type (ioeventfd_arg _ _ _ _ _ _) = 3

abbrev pub function_arg_size : FnArg → ℕ
function_arg_size (vcpu_arg _) = 4
function_arg_size (irqfd_arg _ _ _ _) = 16
function_arg_size (ioeventfd_arg _ _ _ _ _ _) = 32

unfoldable pub fn_desc : FnArg → FnDesc
fn_desc arg = record { type_ = function_type arg; arg_size = function_arg_size arg; arg = arg }

-- `gunyah_vm_boot_context_reg`
abbrev pub reg_set_pc : ℕ
reg_set_pc = 1

abbrev pub reg_set_sp : ℕ
reg_set_sp = 2

module _ {K : Type 0} (kernel : Kernel K) where
  -- `impl From<File>`
  unfoldable pub vm_from_file : ℕ → M K Vm
  vm_from_file fd = do or_panic (kernel.stat fd); pure (record { fd = fd })

  unfoldable pub start : Vm → M K (Unit {0})
  start self = kernel.ioctl self.fd vm_start >>= λ _. pure tt

  unfoldable pub add_function : Vm → FnArg → M K ℕ
  unfolding fn_desc
  add_function self arg = kernel.ioctl self.fd (vm_add_function (fn_desc arg))

  unfoldable pub remove_function : Vm → FnArg → M K ℕ
  unfolding fn_desc
  remove_function self arg = kernel.ioctl self.fd (vm_remove_function (fn_desc arg))

  -- `Vm::__map_memory`
  unfoldable pub map_memory_inner :
      Vm → ℕ → ShareType → GuestMemoryAccess → Bool → GuestMemRegion → M K (Unit {0})
  map_memory_inner self guest_addr share_type access unmap region = do
    _ ← kernel.ioctl self.fd (vm_map_mem (map_args guest_addr share_type access unmap region))
    pure tt

  unfoldable pub map_memory :
      Vm → ℕ → ShareType → GuestMemoryAccess → GuestMemRegion → M K (Unit {0})
  map_memory self guest_addr share_type access region =
      map_memory_inner self guest_addr share_type access false region

  unfoldable pub unmap_memory :
      Vm → ℕ → ShareType → GuestMemoryAccess → GuestMemRegion → M K (Unit {0})
  unmap_memory self guest_addr share_type access region =
      map_memory_inner self guest_addr share_type access true region

  -- `Vm::dup`
  unfoldable pub vm_dup : Vm → M K Vm
  vm_dup self = do fd ← kernel.dup self.fd; kernel.stat fd; pure (record { fd = fd })

  -- `<Vm as Clone>::clone`
  unfoldable pub vm_clone : Vm → M K Vm
  vm_clone self = or_panic (vm_dup self)

  unfoldable pub set_dtb_config : Vm → ℕ → ℕ → M K (Unit {0})
  set_dtb_config self guest_phys_addr size = do
    _ ← kernel.ioctl self.fd (vm_set_dtb_config guest_phys_addr size)
    pure tt

  unfoldable pub set_boot_context : Vm → ℕ → ℕ → ℕ → M K (Unit {0})
  set_boot_context self reg_type reg_idx value = do
    _ ← kernel.ioctl self.fd (vm_set_boot_context (boot_context_reg_id reg_type reg_idx) value)
    pure tt

  unfoldable pub set_boot_pc : Vm → ℕ → M K (Unit {0})
  set_boot_pc self value = set_boot_context self reg_set_pc 0 value

  unfoldable pub set_boot_sp : Vm → ℕ → M K (Unit {0})
  set_boot_sp self value = set_boot_context self reg_set_sp 1 value
