-- ===== src/Vmm/Machine/Hole.antt =====
-- vmm/src/virtual_machine.rs: where the addresses of a region lead once `punch_hole` has returned.
use gunyah_test_vmm.Base.{
  ℕ, ◌+◌, ◌≤◌, ◌<◌, ◌≡◌, sym, ◌∙◌, ap, true, false, inl, inr, List, map, none, ok, ◌⊎◌,
  if◌then◌else◌, Profile, max_u64, Bool-cases, arith,
}
use mathlib.Core.Path.{subst}
use gunyah_test_vmm.Effects.Returns.{>>=-runs}
use gunyah_test_vmm.Gunyah.Kernel.{Kernel}
use gunyah_test_vmm.Bus.Devices.{remove, get_device}
use gunyah_test_vmm.Bus.Invariant.{IsValid}
use gunyah_test_vmm.Bus.Lookup.{holds}
use gunyah_test_vmm.Vmm.Memory.{GunyahGuestMemoryRegion}
use gunyah_test_vmm.Vmm.Memory.Grants.{Grants, extent}
use gunyah_test_vmm.Vmm.Memory.PunchHole.{parts_left, punch_hole-Succeeds}
use gunyah_test_vmm.Vmm.Machine.{GunyahVirtualMachine, punch_hole}
use gunyah_test_vmm.Vmm.Machine.Extents.{
  covered, AreApart, parts_left-InStep, covered_around_hole, not_covered_in_hole,
  not_covered_outside, hole_in_region, covered_in_region, parts_left-AreApart,
}
use gunyah_test_vmm.Vmm.Machine.Parts.{
  Found, LeadsTo, found, found-misses, found-LeadsTo, InStep-BelowLast, BelowLast, on_world-runs,
  exchange, exchange-runs,
}

module _ {W F : Type 0} (kernel : Kernel W) (p : Profile) where
  -- where an address leads then
  abbrev pub LeadsAround : (base size offset len addr : ℕ) → Found W F → Found W F → Type 0
  LeadsAround base size offset len addr before after =
      ((holds (base + offset) len addr ≡ true) × (after ≡ none))
      ⊎ (((holds base size addr ≡ true)
            × (holds (base + offset) len addr ≡ false)
            × LeadsTo kernel p base addr after)
          ⊎ ((holds base size addr ≡ false) × (after ≡ before)))

  parts-LeadsAround :
      (xs : List GunyahGuestMemoryRegion) (base size offset len addr : ℕ) (before : Found W F)
      → map extent xs ≡ parts_left base 0 size offset len
      → base + size < max_u64
      → offset + len ≤ size
      → LeadsAround base size offset len addr before
          (found kernel p xs addr (if holds base size addr then none else before))
  parts-LeadsAround xs base size offset len addr before parts top inside =
      let covers : covered (map extent xs) addr ≡ covered (parts_left base 0 size offset len) addr =
        ap (λ es. covered es addr) parts in
      elim (Bool-cases (holds (base + offset) len addr)) [
        | inl hole ↦ inl (
          hole,
          rw (hole_in_region base size offset len addr inside hole) (
              found-misses kernel p xs addr none
                (covers ∙ not_covered_in_hole base size offset len addr inside hole)),
        )
        | inr hole ↦ elim (Bool-cases (holds base size addr)) [
          | inl region ↦ inr (
              inl (
                region,
                hole,
                rw region (
                    found-LeadsTo kernel p base xs addr none
                      (rw parts (parts_left-InStep base size offset len addr inside top))
                      (inl (
                        covers
                        ∙ covered_around_hole base size offset len addr inside region hole))),
              ))
          | inr region ↦ inr (
              inr (
                region,
                rw region (
                    found-misses kernel p xs addr before
                      (covers ∙ not_covered_outside base size offset len addr inside region)),
              ))
        ]
      ]

  module _ (size_of : ℕ → ℕ) (grants : Grants kernel size_of) where
    -- On a kernel that grants every request, punching a hole that is smaller than a region into a
    -- region of a machine that begins its file, lies inside it, is on the bus of the machine, which
    -- is valid, and ends below the last address of u64 succeeds, and gives the region back so that
    -- it no longer unmaps when dropped. From then on no device is found at the addresses of the
    -- hole, every other address of the region leads to a region of guest memory, in which it stands
    -- for the byte of the file that is as far behind the start of the file as the address is behind
    -- the start of the region, and every address outside the region leads where it led before.
    pub punch_hole-LeadsAround :
        (region : GunyahGuestMemoryRegion) (offset len : ℕ) (self : GunyahVirtualMachine W F)
        (w : W)
        → region.region.off ≡ 0
        → region.region.size ≤ size_of region.region.mem.fd
        → region.guest_address + region.region.size < max_u64
        → offset + len ≤ region.region.size
        → len < region.region.size
        → IsValid self.bus
        → (remove region.guest_address region.region.size self.bus).0 ≡ ok tt
        → (s' : GunyahVirtualMachine W F × W) × (punch_hole kernel p region offset len (self, w)
            ≡ (ok (record region { unmap_on_drop = false }), s'))
          × ((addr : ℕ)
              → LeadsAround region.guest_address region.region.size offset len addr
                  (get_device addr self.bus)
                  (get_device addr s'.0.bus))
    unfolding punch_hole
    punch_hole-LeadsAround region offset len self w start fits top inside smaller v there =
        let base = region.guest_address in
        let size = region.region.size in
        let ((xs, r), w', ran, (parts, off)) =
          punch_hole-Succeeds kernel size_of grants p region offset len start fits (omega arith)
            (omega arith) inside smaller w in
        let extents : map extent xs ≡ parts_left base 0 size offset len =
          parts ∙ ap (λ o. parts_left base o size offset len) start in
        let low : BelowLast xs =
          InStep-BelowLast base xs
            (rw extents (parts_left-InStep base size offset len 0 inside top)) in
        let apart : AreApart (map extent xs) =
          rw extents (parts_left-AreApart base size offset len inside) in
        let kept : GunyahGuestMemoryRegion = record region { unmap_on_drop = false } in
        let parts_inside : (addr : ℕ)
            → covered (map extent xs) addr ≡ true
            → holds base size addr ≡ true =
          λ addr h.
            covered_in_region base size offset len addr inside
              (ap (λ es. covered es addr) (sym extents) ∙ h) in
        let (s', e) =
          exchange-runs kernel p xs base size kept self w' low apart parts_inside v there in
        (
          s',
          >>=-runs _ _ _ _ (xs, kept)
                (on_world-runs _ self w w' (xs, kept) (ran ∙ ap (λ r. (ok (xs, r), w')) off))
              ∙ e,
          λ addr.
              subst (LeadsAround base size offset len addr (get_device addr self.bus))
                (sym (exchange kernel p xs base size kept kept (self, w') s' low v e addr))
                (parts-LeadsAround xs base size offset len addr (get_device addr self.bus) extents
                  top inside),
        )
