-- ===== src/Gunyah/Wire.antt =====
-- gunyah-bindings/src/ioctls.rs and gunyah-bindings/src/bindings.rs: what an ioctl hands to the
-- kernel, its number and the bytes of its structure. The structures are `repr(C)` and have no
-- padding but their own fields; numbers are little-endian. The code that nix makes of a number and
-- of the size of a structure is not here.
pub mod Fields
pub mod Received
use gunyah_test_vmm.Base.{ℕ, zero, suc, ◌/◌, ◌%◌, List, [], ◌∷◌}
use gunyah_test_vmm.Gunyah.Kernel.{
  FnArg, vcpu_arg, irqfd_arg, ioeventfd_arg, FnDesc, MapMemArgs, Request, create_vm, vm_start,
  vm_set_dtb_config, vm_add_function, vm_remove_function, vm_map_mem, vm_set_boot_context,
  create_guest_mem, vcpu_run, vcpu_mmap_size,
}

-- a number in memory, of so many bytes, before the rest
unfoldable pub le_bytes : ℕ → ℕ → List ℕ → List ℕ
le_bytes zero n rest = rest
le_bytes (suc k) n rest = n % 256 ∷ le_bytes k (n / 256) rest

-- a field of a structure
pub data Field : Type 0 where
  u32 u64 : ℕ → Field

-- a structure of these fields
unfoldable pub fields : List Field → List ℕ
fields [] = []
fields (u32 n ∷ l) = le_bytes 4 n (fields l)
fields (u64 n ∷ l) = le_bytes 8 n (fields l)

-- the argument of a function, to which its descriptor points
unfoldable pub argument_bytes : FnArg → List ℕ
argument_bytes (vcpu_arg id) = fields (u32 id ∷ [])
argument_bytes (irqfd_arg fd label flags padding) =
    fields (u32 fd ∷ u32 label ∷ u32 flags ∷ u32 padding ∷ [])
argument_bytes (ioeventfd_arg datamatch addr len fd flags padding) =
    fields (u64 datamatch ∷ u64 addr ∷ u32 len ∷ u32 fd ∷ u32 flags ∷ u32 padding ∷ [])

-- `gunyah_fn_desc`, with the address of the argument
unfoldable pub desc_bytes : ℕ → FnDesc → List ℕ
desc_bytes place desc = fields (u32 desc.type_ ∷ u32 desc.arg_size ∷ u64 place ∷ [])

-- `gunyah_map_mem_args`
unfoldable pub map_mem_bytes : MapMemArgs → List ℕ
map_mem_bytes args = fields (
    u64 args.guest_addr
    ∷ u32 args.flags
    ∷ u32 args.guest_mem_fd
    ∷ u64 args.offset
    ∷ u64 args.size
    ∷ [])

-- `gunyah_vm_dtb_config`
unfoldable pub dtb_config_bytes : ℕ → ℕ → List ℕ
dtb_config_bytes guest_phys_addr size = fields (u64 guest_phys_addr ∷ u64 size ∷ [])

-- `gunyah_create_mem_args`, whose reserved words are the default
unfoldable pub create_mem_bytes : ℕ → ℕ → List ℕ
create_mem_bytes flags size =
    fields (u64 flags ∷ u64 size ∷ u64 0 ∷ u64 0 ∷ u64 0 ∷ u64 0 ∷ u64 0 ∷ u64 0 ∷ [])

-- `gunyah_vm_boot_context`, whose reserved word is the default
unfoldable pub boot_context_bytes : ℕ → ℕ → List ℕ
boot_context_bytes reg value = fields (u32 reg ∷ u32 0 ∷ u64 value ∷ [])

-- what an ioctl is called with besides its descriptor: nothing, a number, or a pointer to a structure
pub data Passed : Type 0 where
  nothing : Passed
  number : ℕ → Passed
  structure : List ℕ → Passed

-- An ioctl: its number, what is passed, and the argument that a descriptor of a function points to.
pub record Message : Type 0 where
  pub nr : ℕ
  pub passed : Passed
  pub pointed : List ℕ

-- The ioctls, where the argument of a function lies at `place`.
unfoldable pub message : ℕ → Request → Message
message place (create_vm vm_type) = record { nr = 0; passed = number vm_type; pointed = [] }
message place (vm_set_dtb_config guest_phys_addr size) = record {
  nr = 2;
  passed = structure (dtb_config_bytes guest_phys_addr size);
  pointed = [];
}
message place vm_start = record { nr = 3; passed = nothing; pointed = [] }
message place (vm_add_function desc) = record {
  nr = 4;
  passed = structure (desc_bytes place desc);
  pointed = argument_bytes desc.arg;
}
message place vcpu_run = record { nr = 5; passed = nothing; pointed = [] }
message place vcpu_mmap_size = record { nr = 6; passed = nothing; pointed = [] }
message place (vm_remove_function desc) = record {
  nr = 7;
  passed = structure (desc_bytes place desc);
  pointed = argument_bytes desc.arg;
}
message place (create_guest_mem flags size) = record {
  nr = 8;
  passed = structure (create_mem_bytes flags size);
  pointed = [];
}
message place (vm_map_mem args) = record {
  nr = 9;
  passed = structure (map_mem_bytes args);
  pointed = [];
}
message place (vm_set_boot_context reg value) = record {
  nr = 0xa;
  passed = structure (boot_context_bytes reg value);
  pointed = [];
}
