-- ===== src/Vmm/Machine/Validity.antt =====
-- vmm/src/virtual_machine.rs: the bus of a machine stays valid, whatever is called and however it ends.
use gunyah_test_vmm.Base.{
  ℕ, ◌+◌, ◌<◌, ◌≡◌, ◌==◌, inl, inr, refl, Bool, true, false, List, [], ◌∷◌, ◌++◌, Outcome, ok, err,
  panic, Profile, max_u64, add_u64, u64_size, lt→ltb, Bool-cases, arith,
}
use gunyah_test_vmm.Errors.{AnyError}
use gunyah_test_vmm.Effects.{M, fail, lift}
use gunyah_test_vmm.Effects.Returns.{
  Ensures, pure-Ensures, in_context-Ensures, any-Ensures, >>=-Ensures, >>-Ensures, lift-ok, >>-ok,
}
use gunyah_test_vmm.Gunyah.Kernel.{Kernel}
use gunyah_test_vmm.Gunyah.GuestMem.{GuestMemRegion}
use gunyah_test_vmm.Gunyah.Vm.{Vm, ShareType, GuestMemoryAccess, vm_clone}
use gunyah_test_vmm.Vmm.Machine.Keeps.{
  Keeps, BusIsValid, on_world-Keeps, bus_insert-Keeps, bus_remove-Keeps, pure-Keeps, fail-Keeps,
  on_world-Ensures, or_panic-Keeps, in_context-Keeps, known-Keeps, >>=-Keeps, >>-Keeps,
}
use gunyah_test_vmm.Vmm.Memory.{
  GunyahGuestMemoryRegion, drop_region, memory_region_new, part, part_below, part_above,
  drop_on_err, or_drop, drop_regions,
}
use gunyah_test_vmm.Vmm.Memory
use gunyah_test_vmm.Vmm.Machine.{
  GunyahVirtualMachine, on_world, drop_refused, insert_region, add_memory_region, add_memory,
  add_regular_memory, insert_parts, punch_hole, start,
}

-- the regions begin below the last address
abbrev AllLow : List GunyahGuestMemoryRegion → Type 0
AllLow [] = Unit {0}
AllLow (x ∷ xs) = (x.guest_address < max_u64) × AllLow xs

AllLow-append : (xs ys : List GunyahGuestMemoryRegion) → AllLow xs → AllLow ys → AllLow (xs ++ ys)
AllLow-append [] ys h k = k
AllLow-append (x ∷ xs) ys h k = (h.0, AllLow-append xs ys h.1 k)

add-Ensures :
    {W : Type 0} (p : Profile) (a b : ℕ)
    → a + b < max_u64
    → Ensures (lift {K = W} (add_u64 p a b)) (λ c. c ≡ a + b)
add-Ensures p a b h k k' c e =
    let (sum, _) = lift-ok (add_u64 p a b) k k' c e in
    let sum' = rw (lt→ltb (a + b) u64_size (omega arith)) at sum in ground arith

module _ {W : Type 0} (kernel : Kernel W) (p : Profile) where
  drop_on_err-ok :
      {A : Type 0} (vec : List GunyahGuestMemoryRegion) (r : Outcome AnyError A × W) (k : W) (a : A)
      → drop_on_err kernel p vec r ≡ (ok a, k)
      → r ≡ (ok a, k)
  unfolding fail
  drop_on_err-ok vec (ok b, k') k a e = e
  drop_on_err-ok vec (err x, k') k a e =
      let (_, k1, _, never) = >>-ok (drop_regions kernel p vec) (fail x) k' k a e in ground arith
  drop_on_err-ok vec (panic, k') k a e = ground arith

  or_drop-Ensures :
      {A : Type 0} {P : A → Type 0} (vec : List GunyahGuestMemoryRegion) (m : M W A)
      → Ensures m P
      → Ensures (or_drop kernel p vec m) P
  unfolding or_drop
  or_drop-Ensures vec m h k k' a e = h k k' a (drop_on_err-ok vec (m k) k' a e)

  pub memory_region_new-Ensures :
      (region : GuestMemRegion) (guest_address : ℕ) (vm : Vm) (share_type : ShareType)
      (access : GuestMemoryAccess) (unmap_on_drop regular : Bool)
      → Ensures
          (memory_region_new kernel p region guest_address vm share_type access unmap_on_drop
            regular)
          (λ r. (r.guest_address ≡ guest_address) × (r.regular_memory ≡ regular))
  unfolding memory_region_new
  memory_region_new-Ensures region guest_address vm share_type access unmap_on_drop regular =
      >>-Ensures _
        (>>=-Ensures (any-Ensures (vm_clone kernel vm)) λ vm' _. pure-Ensures _ _ (refl, refl))

  part_below-AllLow :
      (self : GunyahGuestMemoryRegion) (offset : ℕ)
      → self.guest_address < max_u64
      → Ensures (part_below kernel p self offset) AllLow
  unfolding part_below part
  part_below-AllLow self offset h = elim (Bool-cases (offset == 0)) [
    | inl e ↦ rw e (pure-Ensures AllLow [] tt)
    | inr e ↦ rw e (
        >>=-Ensures {P = λ x. x.guest_address ≡ self.guest_address}
          (>>=-Ensures (any-Ensures _) λ mem _.
            >>=-Ensures (any-Ensures _)
              λ region _. >>=-Ensures (any-Ensures _) λ vm _. pure-Ensures _ _ refl)
          λ x at. pure-Ensures AllLow (x ∷ []) (omega arith, tt))
  ]

  part_above-AllLow :
      (self : GunyahGuestMemoryRegion) (end region_end : ℕ)
      → self.guest_address + end < max_u64
      → Ensures (part_above kernel p self end region_end) AllLow
  unfolding part_above
  part_above-AllLow self end region_end h = elim (Bool-cases (end == region_end)) [
    | inl e ↦ rw e (pure-Ensures AllLow [] tt)
    | inr e ↦ rw e (
        >>=-Ensures (any-Ensures _) λ mem _. >>=-Ensures (any-Ensures _) λ off _.
          >>=-Ensures (any-Ensures _) λ size _. >>=-Ensures (any-Ensures _) λ region _.
            >>=-Ensures {P = λ a. a ≡ self.guest_address + end}
              (add-Ensures p self.guest_address end (omega arith))
              λ at e'. >>=-Ensures (any-Ensures _) λ vm _. pure-Ensures AllLow _ (omega arith, tt))
  ]

  punch_hole-AllLow :
      (self : GunyahGuestMemoryRegion) (offset len : ℕ)
      → self.guest_address + offset + len < max_u64
      → Ensures (Memory.punch_hole kernel p self offset len) (λ r. AllLow r.0)
  unfolding Memory.punch_hole
  punch_hole-AllLow self offset len h =
      >>=-Ensures (part_below-AllLow self offset (omega arith)) λ below low.
        >>=-Ensures {P = λ e. e ≡ offset + len}
          (or_drop-Ensures below _ (add-Ensures p offset len (omega arith)))
          λ end e. >>=-Ensures (any-Ensures _) λ region_end _.
            >>=-Ensures {P = AllLow}
              (or_drop-Ensures below _ (part_above-AllLow self end region_end (omega arith)))
              λ above high. >>-Ensures _ (
                >>=-Ensures (any-Ensures _)
                  λ hole _. >>-Ensures _ (pure-Ensures _ _ (AllLow-append below above low high)))

module _ {W F : Type 0} (kernel : Kernel W) (p : Profile) where
  drop_refused-Keeps :
      (region : GunyahGuestMemoryRegion) (kept : Bool)
      (r : Outcome AnyError (Unit {0}) × (GunyahVirtualMachine W F × W))
      → BusIsValid r.1
      → BusIsValid (drop_refused kernel p region kept r).1
  drop_refused-Keeps region kept (ok _, s) v = v
  drop_refused-Keeps region true (err e, s) v = v
  drop_refused-Keeps region false (err e, s) v =
      >>-Keeps (on_world (λ _. drop_region kernel p region)) (fail e) (on_world-Keeps _)
        (fail-Keeps (Unit {0}) e) s v
  drop_refused-Keeps region kept (panic, s) v = v

  insert_region-Keeps :
      (region : GunyahGuestMemoryRegion)
      → region.guest_address < max_u64
      → Keeps (insert_region {F = F} kernel p region)
  unfolding insert_region
  insert_region-Keeps region h (self, w) v =
      drop_refused-Keeps region _ _
        (bus_insert-Keeps _ region.guest_address region.region.size h (self, w) v)

  pub add_memory_region-Keeps :
      (region : GuestMemRegion) (guest_address : ℕ) (share_type : ShareType)
      (access : GuestMemoryAccess) (unmap_on_drop regular : Bool)
      → guest_address < max_u64
      → Keeps (
          add_memory_region {F = F} kernel p region guest_address share_type access unmap_on_drop
            regular)
  unfolding add_memory_region
  add_memory_region-Keeps region guest_address share_type access unmap_on_drop regular h =
      >>=-Keeps _ _ (on_world-Keeps _) λ mem.
        known-Keeps (λ r. (r.guest_address ≡ guest_address) × (r.regular_memory ≡ regular)) _ _
          (in_context-Ensures _ _ (
            on_world-Ensures _ _ λ self.
              memory_region_new-Ensures kernel p (record region { mem = mem }) guest_address self.vm
                share_type access unmap_on_drop regular))
          (in_context-Keeps _ _ (on_world-Keeps _))
          λ guest_region at.
            >>-Keeps _ _ (insert_region-Keeps guest_region (omega arith)) (pure-Keeps guest_region)

  pub add_memory-Keeps :
      (start len : ℕ) (share_type : ShareType) (access : GuestMemoryAccess) (huge_pages : Bool)
      → start < max_u64
      → Keeps (add_memory {F = F} kernel p start len share_type access huge_pages)
  unfolding add_memory
  add_memory-Keeps start len share_type access huge_pages h =
      >>=-Keeps _ _ (on_world-Keeps _) λ driver.
        >>=-Keeps _ _ (in_context-Keeps _ _ (on_world-Keeps _)) λ mem.
          >>=-Keeps _ _ (on_world-Keeps _)
            λ region. add_memory_region-Keeps region start share_type access false _ h

  pub add_regular_memory-Keeps :
      (start len : ℕ) (share_type : ShareType) (access : GuestMemoryAccess) (huge_pages : Bool)
      → start < max_u64
      → Keeps (add_regular_memory {F = F} kernel p start len share_type access huge_pages)
  unfolding add_regular_memory
  add_regular_memory-Keeps start len share_type access huge_pages h =
      >>=-Keeps _ _ (on_world-Keeps _) λ driver. >>=-Keeps _ _ (on_world-Keeps _) λ mem.
        >>=-Keeps _ _ (on_world-Keeps _)
          λ region. add_memory_region-Keeps region start share_type access false true h

  insert_parts-Keeps :
      (parts : List GunyahGuestMemoryRegion)
      → AllLow parts
      → Keeps (insert_parts {F = F} kernel p parts)
  unfolding insert_parts
  insert_parts-Keeps [] low = pure-Keeps tt
  insert_parts-Keeps (x ∷ xs) low =
      >>-Keeps _ _ (or_panic-Keeps _ (bus_insert-Keeps _ x.guest_address x.region.size low.0))
        (insert_parts-Keeps xs low.1)

  pub punch_hole-Keeps :
      (region : GunyahGuestMemoryRegion) (offset len : ℕ)
      → region.guest_address + offset + len < max_u64
      → Keeps (punch_hole {F = F} kernel p region offset len)
  unfolding punch_hole
  punch_hole-Keeps region offset len h =
      known-Keeps (λ r. AllLow r.0) _ _
        (on_world-Ensures _ _ λ self. punch_hole-AllLow kernel p region offset len h)
        (on_world-Keeps _)
        λ r low.
          >>-Keeps _ _ (or_panic-Keeps _ (bus_remove-Keeps _ _))
            (>>-Keeps _ _ (insert_parts-Keeps r.0 low) (pure-Keeps r.1))
