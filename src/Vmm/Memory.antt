-- ===== src/Vmm/Memory.antt =====
-- vmm/src/memory.rs: a region of guest memory that is mapped into a virtual machine.
pub mod Device
pub mod Grants
pub mod PunchHole
pub mod UpperPart
use gunyah_test_vmm.Base.{
  ℕ, ◌+◌, ◌==◌, if◌then◌else◌, Bool, true, false, not, List, [], ◌∷◌, ◌++◌, Option, none, some,
  Outcome, ok, err, panic, Profile, add_u64, sub_u64, length,
}
use gunyah_test_vmm.Errors.{AnyError, msg}
use gunyah_test_vmm.Effects.{M, ◌>>=◌, ◌>>◌, pure, lift, fail, or_panic, in_context}
use gunyah_test_vmm.Gunyah.Kernel.{Kernel}
use gunyah_test_vmm.Gunyah.GuestMem.{GuestMem, GuestMemRegion, region_new, mem_clone, mem_dup}
use gunyah_test_vmm.Gunyah.Vm.{
  Vm, ShareType, GuestMemoryAccess, map_memory, unmap_memory, vm_clone, vm_dup,
}

pub record GunyahGuestMemoryRegion : Type 0 where
  pub region : GuestMemRegion
  pub guest_address : ℕ
  pub vm : Vm
  pub share_type : ShareType
  pub guest_access : GuestMemoryAccess
  pub unmap_on_drop : Bool
  pub regular_memory : Bool

-- the `memory_regions` of `impl BusDevice`
unfoldable pub memory_regions : GunyahGuestMemoryRegion → Option (List ℕ)
memory_regions self =
    if self.regular_memory then some (self.guest_address ∷ self.region.size ∷ []) else none

-- `assert!(!vec.is_empty())`
abbrev assert_some : List GunyahGuestMemoryRegion → Outcome AnyError (Unit {0})
assert_some [] = panic
assert_some (x ∷ xs) = ok tt

module _ {K : Type 0} (kernel : Kernel K) (p : Profile) where
  -- `GunyahGuestMemoryRegion::new`
  unfoldable pub memory_region_new :
      GuestMemRegion
      → ℕ
      → Vm
      → ShareType
      → GuestMemoryAccess
      → Bool
      → Bool
      → M K GunyahGuestMemoryRegion
  memory_region_new region guest_address vm share_type guest_access unmap_on_drop regular_memory =
      do
        in_context "Failed to map into the guest"
            (map_memory kernel vm guest_address share_type guest_access region)
        vm' ← vm_clone kernel vm
        pure (record {
          region = region;
          guest_address = guest_address;
          vm = vm';
          share_type = share_type;
          guest_access = guest_access;
          unmap_on_drop = unmap_on_drop;
          regular_memory = regular_memory;
        })

  -- `Drop for GunyahGuestMemoryRegion`
  unfoldable pub drop_region : GunyahGuestMemoryRegion → M K (Unit {0})
  drop_region self =
      if self.unmap_on_drop
      then or_panic (
          unmap_memory kernel self.vm self.guest_address self.share_type self.guest_access
            self.region)
      else pure tt

  -- the elements of a `Vec` are dropped in order
  unfoldable pub drop_regions : List GunyahGuestMemoryRegion → M K (Unit {0})
  drop_regions [] = pure tt
  drop_regions (x ∷ xs) = drop_region x >> drop_regions xs

  -- An error or a panic with `vec` in scope drops what the vector holds. A second panic while that is
  -- done is a panic as well.
  abbrev pub drop_on_err :
      {A : Type 0} → List GunyahGuestMemoryRegion → Outcome AnyError A × K → Outcome AnyError A × K
  drop_on_err vec (ok a, k) = (ok a, k)
  drop_on_err vec (err e, k) = (drop_regions vec >> fail e) k
  drop_on_err vec (panic, k) = (panic, (drop_regions vec k).1)

  unfoldable pub or_drop : {A : Type 0} → List GunyahGuestMemoryRegion → M K A → M K A
  or_drop vec m k = drop_on_err vec (m k)

  -- one `Self { .. }` of `punch_hole`: a part of the region, `off` and `size` in the file
  unfoldable pub part : GunyahGuestMemoryRegion → ℕ → ℕ → ℕ → M K GunyahGuestMemoryRegion
  part self off size guest_address = do
    mem ← mem_clone kernel self.region.mem
    region ← region_new kernel p mem off size
    vm ← vm_dup kernel self.vm
    pure (record self { region = region; guest_address = guest_address; vm = vm })

  -- the part below the hole, pushed if the hole does not begin the region
  unfoldable pub part_below : GunyahGuestMemoryRegion → ℕ → M K (List GunyahGuestMemoryRegion)
  part_below self offset =
      if offset == 0
      then pure []
      else part self self.region.off offset self.guest_address >>= λ x. pure (x ∷ [])

  -- the part above the hole. `end` is the hole's end from the start of the region, and
  -- `region_end` the region's end from the start of the file.
  unfoldable pub part_above : GunyahGuestMemoryRegion → ℕ → ℕ → M K (List GunyahGuestMemoryRegion)
  part_above self end region_end = if end == region_end then pure [] else do
    mem ← mem_clone kernel self.region.mem
    off ← lift (add_u64 p self.region.off end)
    size ← lift (sub_u64 p region_end end)
    region ← region_new kernel p mem off size
    guest_address ← lift (add_u64 p self.guest_address end)
    vm ← vm_dup kernel self.vm
    pure (record self { region = region; guest_address = guest_address; vm = vm } ∷ [])

  -- `GunyahGuestMemoryRegion::punch_hole`: the parts that are left, and the region itself, which no
  -- longer unmaps on drop
  unfoldable pub punch_hole :
      GunyahGuestMemoryRegion → ℕ → ℕ → M K (List GunyahGuestMemoryRegion × GunyahGuestMemoryRegion)
  punch_hole self offset len = do
    below ← part_below self offset
    end ← or_drop below (lift (add_u64 p offset len))
    region_end ← or_drop below (lift (add_u64 p self.region.off self.region.size))
    above ← or_drop below (part_above self end region_end)
    let vec = below ++ above
    lift (assert_some vec)
    hole ← or_drop vec (lift (add_u64 p self.guest_address offset))
    or_drop vec (unmap_memory kernel self.vm hole self.share_type self.guest_access self.region)
    pure (vec, record self { unmap_on_drop = false })
