-- ===== src/Vmm/Memory/PunchHole.antt =====
-- vmm/src/memory.rs: what `punch_hole` leaves of a region, where the kernel grants its requests.
use gunyah_test_vmm.Base.{
  ℕ, ◌+◌, ◌-◌, ◌≤◌, ◌<◌, ◌≡◌, ◌≢◌, refl, sym, ◌∙◌, ap, inl, inr, false, List, [], ◌∷◌, ◌++◌, map,
  ok, arith, ◌==◌, if◌then◌else◌, Profile, u64_size, Bool-cases,
}
use mathlib.Core.Path.{ap₂, subst₂}
use mathlib.Core.List.{map-append}
use gunyah_test_vmm.Errors.{AnyError}
use gunyah_test_vmm.Effects.Outcomes.{
  Succeeds, Fails, pure-Succeeds, lift-Succeeds, fail-Fails, >>=-Succeeds, >>-Succeeds,
  or_panic-Succeeds, >>-Fails,
}
use gunyah_test_vmm.Effects.{M, ◌>>◌, fail}
use gunyah_test_vmm.Gunyah.Kernel.{Kernel}
use gunyah_test_vmm.Gunyah.Vm.{map_memory_inner, unmap_memory}
use gunyah_test_vmm.Vmm.Memory.{
  GunyahGuestMemoryRegion, part, part_below, part_above, punch_hole, drop_region, drop_regions,
  or_drop, assert_some,
}
use gunyah_test_vmm.Vmm.Memory.Grants.{
  Grants, extent, mem_clone-Succeeds, vm_dup-Succeeds, add-Succeeds, sub-Succeeds,
  region_new-Succeeds,
}

-- the parts of a region at `address`, `off` in its file and `size` long, that a hole of `len` at
-- `offset` leaves
abbrev pub parts_left : (address off size offset len : ℕ) → List (ℕ × ℕ × ℕ)
parts_left address off size offset len =
    (if offset == 0 then [] else (address, off, offset) ∷ [])
    ++ (if offset + len == size
        then []
        else (address + (offset + len), off + (offset + len), size - (offset + len)) ∷ [])

assert_some_lem : (l : List GunyahGuestMemoryRegion) → map extent l ≢ [] → assert_some l ≡ ok tt
assert_some_lem [] h = absurd (h refl)
assert_some_lem (x ∷ l) h = refl

parts_left-ne-nil :
    (address off size offset len : ℕ)
    → offset + len ≤ size
    → len < size
    → parts_left address off size offset len ≢ []
parts_left-ne-nil address off size offset len inside smaller = ground arith

module _ {K : Type 0} (kernel : Kernel K) (size_of : ℕ → ℕ) (grants : Grants kernel size_of)
    (p : Profile) where
  unmap_memory-Succeeds :
      (self : GunyahGuestMemoryRegion) (address : ℕ)
      → Succeeds
          (unmap_memory kernel self.vm address self.share_type self.guest_access self.region)
          (λ _. Unit {0})
  unfolding unmap_memory map_memory_inner
  unmap_memory-Succeeds self address =
      >>=-Succeeds (grants.map_ok self.vm.fd _) λ _ _. pure-Succeeds _ tt

  part-Succeeds :
      (self : GunyahGuestMemoryRegion) (off size address : ℕ)
      → off + size < u64_size
      → off + size ≤ size_of self.region.mem.fd
      → Succeeds (part kernel p self off size address) (λ x. extent x ≡ (address, off, size))
  unfolding part
  part-Succeeds self off size address small fits =
      >>=-Succeeds (mem_clone-Succeeds kernel size_of grants p self.region.mem) λ mem same.
        >>=-Succeeds (region_new-Succeeds kernel size_of grants p mem off size small (omega arith))
          λ region at.
            >>=-Succeeds (vm_dup-Succeeds kernel size_of grants p self.vm)
              λ vm _. pure-Succeeds _ (ground arith)

  pub part_below-Succeeds :
      (self : GunyahGuestMemoryRegion) (offset : ℕ)
      → self.region.off + offset < u64_size
      → self.region.off + offset ≤ size_of self.region.mem.fd
      → Succeeds (part_below kernel p self offset) (λ l.
        map extent l
        ≡ (if offset == 0 then [] else (self.guest_address, self.region.off, offset) ∷ []))
  unfolding part_below
  part_below-Succeeds self offset small fits = elim (Bool-cases (offset == 0)) [
    | inl e ↦ rw e (pure-Succeeds [] refl)
    | inr e ↦ rw e (
        >>=-Succeeds (part-Succeeds self self.region.off offset self.guest_address small fits)
          λ x at. pure-Succeeds (x ∷ []) (ap (λ y. y ∷ []) at))
  ]

  part_above-Succeeds :
      (self : GunyahGuestMemoryRegion) (end region_end : ℕ)
      → end ≤ region_end
      → self.region.off + region_end < u64_size
      → self.region.off + region_end ≤ size_of self.region.mem.fd
      → self.guest_address + end < u64_size
      → Succeeds (part_above kernel p self end region_end) (λ l. map extent l ≡ (
          if end == region_end
          then []
          else (self.guest_address + end, self.region.off + end, region_end - end) ∷ []))
  unfolding part_above
  part_above-Succeeds self end region_end order small fits below =
      elim (Bool-cases (end == region_end)) [
        | inl e ↦ rw e (pure-Succeeds [] refl)
        | inr e ↦ rw e (
            >>=-Succeeds (mem_clone-Succeeds kernel size_of grants p self.region.mem) λ mem same.
              >>=-Succeeds (add-Succeeds kernel size_of grants p self.region.off end (omega arith))
                λ off eo.
                  >>=-Succeeds (sub-Succeeds kernel size_of grants p region_end end order)
                    λ size es.
                      >>=-Succeeds
                        (region_new-Succeeds kernel size_of grants p mem off size (omega arith)
                          (omega arith))
                        λ region at.
                          >>=-Succeeds
                            (add-Succeeds kernel size_of grants p self.guest_address end below)
                            λ address ea.
                              >>=-Succeeds (vm_dup-Succeeds kernel size_of grants p self.vm)
                                λ vm _. pure-Succeeds _ (ground arith))
      ]

  drop_region-Succeeds :
      (self : GunyahGuestMemoryRegion) → Succeeds (drop_region kernel p self) (λ _. Unit {0})
  unfolding drop_region
  drop_region-Succeeds self = elim (Bool-cases self.unmap_on_drop) [
    | inl e ↦ rw e (or_panic-Succeeds (unmap_memory-Succeeds self self.guest_address))
    | inr e ↦ rw e (pure-Succeeds tt tt)
  ]

  drop_regions-Succeeds :
      (xs : List GunyahGuestMemoryRegion) → Succeeds (drop_regions kernel p xs) (λ _. Unit {0})
  unfolding drop_regions
  drop_regions-Succeeds [] = pure-Succeeds tt tt
  drop_regions-Succeeds (x ∷ xs) = >>-Succeeds (drop_region-Succeeds x) (drop_regions-Succeeds xs)

  pub or_drop-Succeeds :
      {A : Type 0} {m : M K A} {P : A → Type 0} (vec : List GunyahGuestMemoryRegion)
      → Succeeds m P
      → Succeeds (or_drop kernel p vec m) P
  unfolding or_drop
  or_drop-Succeeds vec h k = let (a, k', e, q) = h k in (a, k', rw e refl, q)

  drop_then_fail :
      {A : Type 0} (vec : List GunyahGuestMemoryRegion) (x : AnyError)
      → Fails (drop_regions kernel p vec >> fail {A = A} x) x
  drop_then_fail vec x = >>-Fails (drop_regions-Succeeds vec) (fail-Fails x)

  pub or_drop-Fails :
      {A : Type 0} {m : M K A} {x : AnyError} (vec : List GunyahGuestMemoryRegion)
      → Fails m x
      → Fails (or_drop kernel p vec m) x
  unfolding or_drop
  or_drop-Fails {A} {x = x} vec h k =
      let (k', e) = h k in let (k'', e') = drop_then_fail {A = A} vec x k' in (k'', rw e e')

  all_parts :
      (self : GunyahGuestMemoryRegion) (offset len end region_end : ℕ)
      (below above : List GunyahGuestMemoryRegion)
      → map extent below
        ≡ (if offset == 0 then [] else (self.guest_address, self.region.off, offset) ∷ [])
      → map extent above ≡ (
          if end == region_end
          then []
          else (self.guest_address + end, self.region.off + end, region_end - end) ∷ [])
      → end ≡ offset + len
      → region_end ≡ self.region.size
      → map extent (below ++ above)
        ≡ parts_left self.guest_address self.region.off self.region.size offset len
  all_parts self offset len end region_end below above eb ea ee er =
      map-append extent below above
      ∙ ap₂ ◌++◌ eb (
          subst₂
            (λ x y.
              map extent above
              ≡ (if x == y then [] else (self.guest_address + x, self.region.off + x, y - x) ∷ []))
            ee er ea)

  -- On a kernel that grants every request, punching a hole that is smaller than the region into a
  -- region that begins its file, lies inside it and ends below 2 ^ 64 in the guest succeeds, and
  -- leaves exactly the part below the hole and the part above it, each if it is not empty, at the
  -- addresses and file offsets that they had. The region itself no longer unmaps when dropped.
  pub punch_hole-Succeeds :
      (self : GunyahGuestMemoryRegion) (offset len : ℕ)
      → self.region.off ≡ 0
      → self.region.size ≤ size_of self.region.mem.fd
      → self.region.size < u64_size
      → self.guest_address + self.region.size < u64_size
      → offset + len ≤ self.region.size
      → len < self.region.size
      → Succeeds (punch_hole kernel p self offset len) (λ r.
        (map extent r.0 ≡ parts_left self.guest_address self.region.off self.region.size offset len)
        × (r.1 ≡ record self { unmap_on_drop = false }))
  unfolding punch_hole
  punch_hole-Succeeds self offset len start fits small top inside smaller =
      >>=-Succeeds (part_below-Succeeds self offset (omega arith) (omega arith)) λ below eb.
        >>=-Succeeds
          (or_drop-Succeeds below (add-Succeeds kernel size_of grants p offset len (omega arith)))
          λ end ee.
            >>=-Succeeds
              (or_drop-Succeeds below (
                add-Succeeds kernel size_of grants p self.region.off self.region.size
                  (omega arith)))
              λ region_end er.
                >>=-Succeeds
                  (or_drop-Succeeds below (
                    part_above-Succeeds self end region_end (omega arith) (omega arith)
                      (omega arith) (omega arith)))
                  λ above ea.
                    let parts : map extent (below ++ above)
                        ≡ parts_left self.guest_address self.region.off self.region.size offset
                            len =
                      all_parts self offset len end region_end below above eb ea ee (omega arith) in
                    let some : map extent (below ++ above) ≢ [] = λ e.
                      parts_left-ne-nil self.guest_address self.region.off self.region.size offset
                        len inside smaller (sym parts ∙ e) in
                    >>-Succeeds {P = λ _. Unit {0}}
                      (lift-Succeeds _ tt (assert_some_lem (below ++ above) some) tt)
                      (>>=-Succeeds
                        (or_drop-Succeeds (below ++ above) (
                          add-Succeeds kernel size_of grants p self.guest_address offset
                            (omega arith)))
                        λ hole eh.
                          >>-Succeeds
                            (or_drop-Succeeds (below ++ above) (unmap_memory-Succeeds self hole))
                            (pure-Succeeds _ (parts, refl)))
