-- ===== src/Gunyah/Ack.antt =====
-- gunyah/src/vm.rs, gunyah/src/guest_mem.rs and gunyah/src/gunyah.rs built with the feature
-- `ack-bindings`, for the driver of the Android kernel: guest memory is a file of the program that it
-- maps itself, and the driver is given the address of the mapping.
pub mod Labels
use gunyah_test_vmm.Base.{
  ℕ, ◌%◌, ◌^◌, ◌==◌, ◌&&◌, not, Bool, true, false, if◌then◌else◌, bit_or, List, [], ◌∷◌, ◌++◌, ok,
  err, panic, Profile, length,
}
use gunyah_test_vmm.Errors.{AnyError, from_errno}
use gunyah_test_vmm.Effects.{M, ◌>>=◌, ◌>>◌, pure, fail, lift, or_panic}
use gunyah_test_vmm.Gunyah.GuestMem.{GuestMemRegion, map_options}
use gunyah_test_vmm.Gunyah.Vm.{ShareType, share, lend, GuestMemoryAccess, r, rw, rx, rwx}

-- `GuestMem` and `GuestMemRegion`: `identity` is what a `Handle` knows of its file, by which two
-- handles compare.
pub record AckGuestMem : Type 0 where
  pub fd : ℕ
  pub identity : ℕ
  pub huge_pages : Bool

pub record AckRegion : Type 0 where
  pub mem : AckGuestMem
  pub off : ℕ
  pub size : ℕ

-- `gunyah_userspace_memory_region`
pub record UserspaceMemoryRegion : Type 0 where
  pub label : ℕ
  pub flags : ℕ
  pub guest_phys_addr : ℕ
  pub memory_size : ℕ
  pub userspace_addr : ℕ

pub record MapKey : Type 0 where
  pub guest_addr : ℕ
  pub region : AckRegion

-- `Vm`, with its `HashMap` of the mappings
pub record AckVm : Type 0 where
  pub fd : ℕ
  pub maps : List (MapKey × ℕ)

-- the Android kernel and the crate memfd
pub record AckKernel (K : Type 0) : Type 0 where
  pub dup : ℕ → M K ℕ
  -- `Handle::from_file`
  pub identity : ℕ → M K ℕ
  -- `MmapOptions::new().offset(..).len(..).map_mut(..)`, and the end of the mapping
  pub map_range : (fd off len : ℕ) → M K ℕ
  pub unmap_range : (addr len : ℕ) → K → K
  -- `madvise` with `MADV_HUGEPAGE` or `MADV_NOHUGEPAGE`, whose result the code drops
  pub madvise : (addr len : ℕ) → (huge : Bool) → K → K
  pub set_user_mem_region : ℕ → UserspaceMemoryRegion → M K ℕ
  pub android_lend_user_mem : ℕ → UserspaceMemoryRegion → M K ℕ
  -- `MemfdOptions::create`, with `close_on_exec` or without, and `set_len`
  pub memfd_create : Bool → M K ℕ
  pub set_len : (fd size : ℕ) → M K (Unit {0})

-- `gunyah_map_flags`
abbrev pub ack_allow_read : ℕ
ack_allow_read = 1

abbrev pub ack_allow_write : ℕ
ack_allow_write = 2

abbrev pub ack_allow_exec : ℕ
ack_allow_exec = 4

abbrev pub ack_allow_rwx : ℕ
ack_allow_rwx = 7

-- the flags of `__map_memory`, where nothing is unmapped
unfoldable pub ack_flags : GuestMemoryAccess → ℕ
ack_flags r = ack_allow_read
ack_flags rw = bit_or ack_allow_read ack_allow_write
ack_flags rx = bit_or ack_allow_read ack_allow_exec
ack_flags rwx = ack_allow_rwx

abbrev same_bool : Bool → Bool → Bool
same_bool true b = b
same_bool false b = not b

-- `==` of the keys
unfoldable pub same_key : MapKey → MapKey → Bool
same_key a b =
    (a.guest_addr == b.guest_addr)
    && ((a.region.mem.identity == b.region.mem.identity)
        && (same_bool a.region.mem.huge_pages b.region.mem.huge_pages
            && ((a.region.off == b.region.off) && (a.region.size == b.region.size))))

-- `HashMap::contains_key`
unfoldable pub contains_key : MapKey → List (MapKey × ℕ) → Bool
contains_key key [] = false
contains_key key ((other, addr) ∷ maps) = if same_key key other then true else contains_key key maps

-- the arguments of the ioctl, by the mappings with the new one among them
unfoldable pub ack_args : AckVm → ℕ → GuestMemoryAccess → AckRegion → ℕ → UserspaceMemoryRegion
ack_args self guest_addr access region userspace_addr = record {
  label = length self.maps % 2 ^ 32;
  flags = ack_flags access;
  guest_phys_addr = guest_addr;
  memory_size = region.size;
  userspace_addr = userspace_addr;
}

module _ {K : Type 0} (kernel : AckKernel K) where
  -- `GuestMem::dup` and `<GuestMem as Clone>::clone`
  unfoldable pub ack_mem_dup : AckGuestMem → M K AckGuestMem
  ack_mem_dup self = do
    fd ← kernel.dup self.fd
    id ← kernel.identity fd
    pure (record self { fd = fd; identity = id })

  unfoldable pub ack_mem_clone : AckGuestMem → M K AckGuestMem
  ack_mem_clone self = or_panic (ack_mem_dup self)

  -- `GuestMem::from_file`
  unfoldable pub ack_mem_from_file : ℕ → Bool → M K AckGuestMem
  ack_mem_from_file fd huge_pages = do
    id ← or_panic (kernel.identity fd)
    pure (record { fd = fd; identity = id; huge_pages = huge_pages })

  -- `create_guest_memory` and `create_guest_memory_with_cloexec`
  unfoldable pub ack_memory_file : Bool → ℕ → M K ℕ
  ack_memory_file close_on_exec size = do
    fd ← or_panic (kernel.memfd_create close_on_exec)
    or_panic (kernel.set_len fd size)
    pure fd

  unfoldable pub ack_create_guest_memory : ℕ → Bool → M K AckGuestMem
  ack_create_guest_memory size huge_pages =
      ack_memory_file false size >>= λ fd. ack_mem_from_file fd huge_pages

  unfoldable pub ack_create_guest_memory_with_cloexec : ℕ → M K AckGuestMem
  ack_create_guest_memory_with_cloexec size =
      ack_memory_file true size >>= λ fd. ack_mem_from_file fd false

  -- `GuestMemRegion::map_mut`
  unfoldable pub ack_map_mut : Profile → AckRegion → M K ℕ
  ack_map_mut p self = do
    options ← lift (
        map_options p
          (record { mem = record { fd = self.mem.fd }; off = self.off; size = self.size }) 0
          self.size)
    kernel.map_range self.mem.fd options.offset options.len

  abbrev pub ack_request : ShareType → ℕ → UserspaceMemoryRegion → M K ℕ
  ack_request share fd args = kernel.set_user_mem_region fd args
  ack_request lend fd args = kernel.android_lend_user_mem fd args

-- calls that change the mappings of a `Vm`
abbrev pub AckOp : Type 0 → Type 0 → Type 0
AckOp K A = M (AckVm × K) A

module _ {K A : Type 0} where
  unfoldable pub on_kernel : M K A → AckOp K A
  on_kernel m (self, k) = let (x, k') = m k in (x, (self, k'))

module _ {K : Type 0} (kernel : AckKernel K) where
  -- the new mapping is kept, and the driver is told of it
  unfoldable pub ack_insert :
      MapKey → ℕ → ShareType → GuestMemoryAccess → AckRegion → AckOp K (Unit {0})
  ack_insert key addr share_type access region (self, k) =
      let self' : AckVm = record self { maps = self.maps ++ ((key, addr) ∷ []) } in
      let k' = kernel.madvise addr region.size region.mem.huge_pages k in
      (on_kernel (
            ack_request kernel share_type self.fd
              (ack_args self' key.guest_addr access region addr))
          >> pure tt)
        (self', k')

  -- where the key is not there yet; else the new mapping is dropped, with `EEXIST`
  unfoldable pub ack_insert_new :
      MapKey → ℕ → ShareType → GuestMemoryAccess → AckRegion → AckOp K (Unit {0})
  ack_insert_new key addr share_type access region (self, k) =
      if contains_key key self.maps
      then (err (from_errno 17), (self, kernel.unmap_range addr region.size k))
      else ack_insert key addr share_type access region (self, k)

  -- `Vm::__map_memory`
  unfoldable pub ack_map_memory :
      Profile → ℕ → ShareType → GuestMemoryAccess → Bool → AckRegion → AckOp K (Unit {0})
  ack_map_memory p guest_addr share_type access unmap region = do
    mem ← on_kernel (ack_mem_clone kernel region.mem)
    lift (if unmap then panic else ok tt)
    addr ← on_kernel (or_panic (ack_map_mut kernel p region))
    let key : MapKey = record { guest_addr = guest_addr; region = record region { mem = mem } }
    ack_insert_new key addr share_type access region
