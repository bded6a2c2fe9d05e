-- ===== src/Vmm/Memory/UpperPart.antt =====
-- vmm/src/memory.rs: `punch_hole` on a region that does not begin its file, such as the upper part
-- that an earlier `punch_hole` left. There the end of the hole, counted from the start of the region,
-- is compared with and subtracted from the end of the region, counted from the start of the file.
use gunyah_test_vmm.Base.{ℕ, ◌+◌, ◌≤◌, ◌<◌, ◌≡◌, Profile, arith, u64_size, ne→==}
use gunyah_test_vmm.Errors.{msg}
use gunyah_test_vmm.Effects.Outcomes.{Fails, >>=-Fails, Fails->>=}
use gunyah_test_vmm.Gunyah.Kernel.{Kernel}
use gunyah_test_vmm.Vmm.Memory.{GunyahGuestMemoryRegion, part_above, punch_hole}
use gunyah_test_vmm.Vmm.Memory.Grants.{
  Grants, mem_clone-Succeeds, add-Succeeds, sub-Succeeds, region_new-Fails,
}
use gunyah_test_vmm.Vmm.Memory.PunchHole.{part_below-Succeeds, or_drop-Succeeds, or_drop-Fails}

module _ {K : Type 0} (kernel : Kernel K) (size_of : ℕ → ℕ) (grants : Grants kernel size_of)
    (p : Profile) where
  part_above-Fails :
      (self : GunyahGuestMemoryRegion) (end region_end : ℕ)
      → end < region_end
      → self.region.off + region_end < u64_size
      → size_of self.region.mem.fd < self.region.off + region_end
      → Fails
          (part_above kernel p self end region_end)
          (msg "GuestMemRegion extents past end of GuestMem")
  unfolding part_above
  part_above-Fails self end region_end order small over = rw (ne→== end region_end (omega arith)) (
      >>=-Fails (mem_clone-Succeeds kernel size_of grants p self.region.mem) λ mem same.
        >>=-Fails (add-Succeeds kernel size_of grants p self.region.off end (omega arith)) λ off eo.
          >>=-Fails (sub-Succeeds kernel size_of grants p region_end end (omega arith)) λ size es.
            Fails->>= _
              (region_new-Fails kernel size_of grants p mem off size (omega arith) (omega arith)))

  -- On a kernel that grants every request, `punch_hole` fails for every hole inside a region that
  -- ends with its file but does not begin it, if the sum of the region's offset and the end of the
  -- file does not overflow.
  pub punch_hole-Fails :
      (self : GunyahGuestMemoryRegion) (offset len : ℕ)
      → 0 < self.region.off
      → self.region.off + self.region.size ≡ size_of self.region.mem.fd
      → self.region.off + (self.region.off + self.region.size) < u64_size
      → offset + len ≤ self.region.size
      → Fails
          (punch_hole kernel p self offset len)
          (msg "GuestMemRegion extents past end of GuestMem")
  unfolding punch_hole
  punch_hole-Fails self offset len upper whole small inside =
      >>=-Fails
        (part_below-Succeeds kernel size_of grants p self offset (omega arith) (omega arith))
        λ below eb.
          >>=-Fails
            (or_drop-Succeeds kernel size_of grants p below
              (add-Succeeds kernel size_of grants p offset len (omega arith)))
            λ end ee.
              >>=-Fails
                (or_drop-Succeeds kernel size_of grants p below (
                  add-Succeeds kernel size_of grants p self.region.off self.region.size
                    (omega arith)))
                λ region_end er. Fails->>= _ (
                  or_drop-Fails kernel size_of grants p below (
                    part_above-Fails self end region_end (omega arith) (omega arith) (omega arith)))
