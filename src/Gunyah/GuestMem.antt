-- ===== src/Gunyah/GuestMem.antt =====
-- gunyah/src/guest_mem.rs: regions of guest memory, and the ranges of the file that they map.
pub mod Bounds
use gunyah_test_vmm.Base.{
  ℕ, ltb, if◌then◌else◌, Bool, true, false, bit_or, Outcome, ok, err, Profile, add_u64,
}
use gunyah_test_vmm.Base
use gunyah_test_vmm.Errors.{AnyError, msg}
use gunyah_test_vmm.Effects.{M, ◌>>=◌, ◌>>◌, pure, lift, or_panic}
use gunyah_test_vmm.Gunyah.Kernel.{Kernel}

-- `GuestMem`: a descriptor
pub record GuestMem : Type 0 where
  pub fd : ℕ

-- `size` is a `NonZeroUsize`.
pub record GuestMemRegion : Type 0 where
  pub mem : GuestMem
  pub off : ℕ
  pub size : ℕ

-- libc's flags of `fallocate`
abbrev falloc_fl_keep_size : ℕ
falloc_fl_keep_size = 1

abbrev falloc_fl_punch_hole : ℕ
falloc_fl_punch_hole = 2

-- `MmapOptions`, as far as they are set
pub record MmapOptions : Type 0 where
  pub offset : ℕ
  pub len : ℕ

abbrev check_extent : ℕ → ℕ → GuestMemRegion → Outcome AnyError GuestMemRegion
check_extent end len region =
    if ltb len end then err (msg "GuestMemRegion extents past end of GuestMem") else ok region

-- `GuestMemRegion::map_options`
unfoldable pub map_options : Profile → GuestMemRegion → ℕ → ℕ → Outcome AnyError MmapOptions
map_options p self off size = Base.◌>>=◌ (add_u64 p off size) λ end.
    if ltb self.size end
    then err (msg "Offset and size incorrect")
    else Base.◌>>=◌ (add_u64 p self.off off) λ offset. ok (record { offset = offset; len = size })

module _ {K : Type 0} (kernel : Kernel K) where
  -- `GuestMem::dup`
  unfoldable pub mem_dup : GuestMem → M K GuestMem
  mem_dup self = do fd ← kernel.dup self.fd; kernel.stat fd; pure (record { fd = fd })

  -- `<GuestMem as Clone>::clone`
  unfoldable pub mem_clone : GuestMem → M K GuestMem
  mem_clone self = or_panic (mem_dup self)

  -- `impl From<File>`
  unfoldable pub mem_from_file : ℕ → M K GuestMem
  mem_from_file fd = do or_panic (kernel.stat fd); pure (record { fd = fd })

  -- `GuestMem::into_file`
  unfoldable pub into_file : GuestMem → M K ℕ
  into_file self = or_panic (kernel.dup self.fd)

  unfoldable pub allocate : GuestMem → ℕ → ℕ → M K (Unit {0})
  allocate self offset len = kernel.fallocate self.fd falloc_fl_keep_size offset len

  -- `GuestMem::punch_hole`
  unfoldable pub mem_punch_hole : GuestMem → ℕ → ℕ → M K (Unit {0})
  mem_punch_hole self offset len =
      kernel.fallocate self.fd (bit_or falloc_fl_keep_size falloc_fl_punch_hole) offset len

  -- `map_region` and `map_region_mut`, `map` and `map_mut`
  unfoldable pub map_region_with : Profile → Bool → GuestMemRegion → ℕ → ℕ → M K ℕ
  map_region_with p writable self off size = do
    options ← lift (map_options p self off size)
    kernel.map_range self.mem.fd options.offset options.len writable

  unfoldable pub map_region : Profile → GuestMemRegion → ℕ → ℕ → M K ℕ
  map_region p self off size = map_region_with p false self off size

  unfoldable pub map_region_mut : Profile → GuestMemRegion → ℕ → ℕ → M K ℕ
  map_region_mut p self off size = map_region_with p true self off size

  unfoldable pub map_read_only : Profile → GuestMemRegion → M K ℕ
  map_read_only p self = map_region p self 0 self.size

  unfoldable pub map_mut : Profile → GuestMemRegion → M K ℕ
  map_mut p self = map_region_mut p self 0 self.size

  -- `GuestMemRegion::new`
  unfoldable pub region_new : Profile → GuestMem → ℕ → ℕ → M K GuestMemRegion
  region_new p mem off size = do
    end ← lift (add_u64 p off size)
    len ← kernel.file_len mem.fd
    lift (check_extent end len (record { mem = mem; off = off; size = size }))
