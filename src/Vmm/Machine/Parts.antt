-- ===== src/Vmm/Machine/Parts.antt =====
-- vmm/src/virtual_machine.rs: the loop of `punch_hole`, which puts the parts on the bus.
use gunyah_test_vmm.Base.{
  ℕ, ◌+◌, ◌-◌, ◌<◌, ◌≡◌, refl, sym, ◌∙◌, ap, true, false, inl, inr, List, [], ◌∷◌, map, Option,
  none, some, Outcome, ok, err, panic, map_err, ◌⊎◌, if◌then◌else◌, Profile, max_u64, Bool-cases,
  arith,
}
use gunyah_test_vmm.Errors.{BusError, from_bus}
use gunyah_test_vmm.Effects.{M, ◌>>◌, pure, or_panic}
use gunyah_test_vmm.Effects.Returns.{>>-runs, pure-runs, >>-ok, pure-ok, or_panic-ok}
use gunyah_test_vmm.Gunyah.Kernel.{Kernel}
use gunyah_test_vmm.Bus.Devices.{Devices, insert, remove, get_device}
use gunyah_test_vmm.Bus.Invariant.{IsValid, insert-IsValid, remove-IsValid}
use gunyah_test_vmm.Bus.Lookup.{holds}
use gunyah_test_vmm.Bus.Contract.{get_device-insert, get_device-remove, insert_succeeds_iff}
use gunyah_test_vmm.Bus.Dispatch.{BusEntry, outer_sync}
use gunyah_test_vmm.Vmm.Memory.{GunyahGuestMemoryRegion}
use gunyah_test_vmm.Vmm.Memory.Device.{region_device}
use gunyah_test_vmm.Vmm.Memory.Grants.{extent}
use gunyah_test_vmm.Vmm.Machine.{
  GunyahVirtualMachine, on_world, bus_insert, bus_remove, insert_parts,
}
use gunyah_test_vmm.Vmm.Machine.Extents.{covered, InStep, AreApart}

map_err-ok : (x : Outcome BusError (Unit {0})) → map_err from_bus x ≡ ok tt → x ≡ ok tt
map_err-ok (ok _) e = refl
map_err-ok (err b) e = ground arith
map_err-ok panic e = ground arith

module _ {W F : Type 0} where
  -- what a call on the bus did that returned
  bus_insert-ok :
      (e : BusEntry W F) (base len : ℕ) (s s' : GunyahVirtualMachine W F × W)
      → bus_insert e base len s ≡ (ok tt, s')
      → ((insert e base len s.0.bus).0 ≡ ok tt) × (s'.0.bus ≡ (insert e base len s.0.bus).1)
  unfolding bus_insert
  bus_insert-ok e base len (self, w) s' h =
      (map_err-ok _ (ap (λ x. x.0) h), sym (ap (λ x. x.1.0.bus) h))

  bus_remove-ok :
      (base len : ℕ) (s s' : GunyahVirtualMachine W F × W)
      → bus_remove base len s ≡ (ok tt, s')
      → ((remove base len s.0.bus).0 ≡ ok tt) × (s'.0.bus ≡ (remove base len s.0.bus).1)
  unfolding bus_remove
  bus_remove-ok base len (self, w) s' h =
      (map_err-ok _ (ap (λ x. x.0) h), sym (ap (λ x. x.1.0.bus) h))

  pub on_world-runs :
      {A : Type 0} (m : M W A) (self : GunyahVirtualMachine W F) (w w' : W) (a : A)
      → m w ≡ (ok a, w')
      → on_world (λ _. m) (self, w) ≡ (ok a, (self, w'))
  unfolding on_world
  on_world-runs m self w w' a e = rw e refl

abbrev pub BelowLast : List GunyahGuestMemoryRegion → Type 0
BelowLast [] = Unit {0}
BelowLast (x ∷ xs) = (x.guest_address < max_u64) × BelowLast xs

pub InStep-BelowLast :
    (start : ℕ) (xs : List GunyahGuestMemoryRegion) → InStep start (map extent xs) → BelowLast xs
InStep-BelowLast start [] h = tt
InStep-BelowLast start (x ∷ xs) (_, low, h) = (low, InStep-BelowLast start xs h)

abbrev pub Found : Type 0 → Type 0 → Type 0
Found W F = Option (ℕ × ℕ × BusEntry W F)

module _ {W F : Type 0} (kernel : Kernel W) (p : Profile) where
  -- The parts are looked at in turn, the last one last.
  abbrev pub found : List GunyahGuestMemoryRegion → ℕ → Found W F → Found W F
  found [] addr old = old
  found (x ∷ xs) addr old = found xs addr (
      if holds x.guest_address x.region.size addr
      then some (addr - x.guest_address, addr, outer_sync (region_device kernel p x))
      else old)

  -- The address leads to a region, at the byte of the file that it has in a region at `start`.
  abbrev pub LeadsTo : ℕ → ℕ → Found W F → Type 0
  LeadsTo start addr result =
      (x : GunyahGuestMemoryRegion) × (offset : ℕ) × (result
        ≡ some (offset, addr, outer_sync (region_device kernel p x)))
      × (start + (x.region.off + offset) ≡ addr)

  pub found-misses :
      (xs : List GunyahGuestMemoryRegion) (addr : ℕ) (old : Found W F)
      → covered (map extent xs) addr ≡ false
      → found xs addr old ≡ old
  found-misses [] addr old h = refl
  found-misses (x ∷ xs) addr old h = elim (Bool-cases (holds x.guest_address x.region.size addr)) [
    | inl hit ↦ let h' = rw hit at h in ground arith
    | inr miss ↦ let h' = rw miss at h in rw miss (found-misses xs addr old h')
  ]

  pub found-LeadsTo :
      (start : ℕ) (xs : List GunyahGuestMemoryRegion) (addr : ℕ) (old : Found W F)
      → InStep start (map extent xs)
      → (covered (map extent xs) addr ≡ true) ⊎ LeadsTo start addr old
      → LeadsTo start addr (found xs addr old)
  found-LeadsTo start [] addr old steps (inl impossible) = ground arith
  found-LeadsTo start [] addr old steps (inr h) = h
  found-LeadsTo start (x ∷ xs) addr old (step, _, steps) h =
      elim (Bool-cases (holds x.guest_address x.region.size addr)) [
        | inl hit ↦ rw hit (
            found-LeadsTo start xs addr _ steps
              (inr (x, addr - x.guest_address, refl, ground arith)))
        | inr miss ↦ let h' = rw miss at h in rw miss (found-LeadsTo start xs addr old steps h')
      ]

  insert_parts-found :
      (xs : List GunyahGuestMemoryRegion) (addr : ℕ) (s s' : GunyahVirtualMachine W F × W)
      → BelowLast xs
      → IsValid s.0.bus
      → insert_parts kernel p xs s ≡ (ok tt, s')
      → get_device addr s'.0.bus ≡ found xs addr (get_device addr s.0.bus)
  unfolding insert_parts
  insert_parts-found [] addr s s' low v e =
      let (_, same) = pure-ok tt tt s s' e in ap (λ s. get_device addr s.0.bus) (sym same)
  insert_parts-found (x ∷ xs) addr s s' (low, lows) v e =
      let entry = outer_sync (region_device kernel p x) in
      let (_, s1, one, rest) = >>-ok _ _ s s' tt e in
      let (done, bus) =
        bus_insert-ok entry x.guest_address x.region.size s s1 (or_panic-ok _ s s1 tt one) in
      let v1 : IsValid s1.0.bus =
        rw bus (insert-IsValid entry x.guest_address x.region.size s.0.bus low v) in
      let first = get_device-insert entry x.guest_address x.region.size addr s.0.bus low v done in
      insert_parts-found xs addr s1 s' lows v1 rest
      ∙ ap (found xs addr) (ap (get_device addr) bus ∙ first)

  -- the calls on the bus, which take the region off it and put the parts on it
  pub exchange :
      (xs : List GunyahGuestMemoryRegion) (base size : ℕ) (region region' : GunyahGuestMemoryRegion)
      (s s' : GunyahVirtualMachine W F × W)
      → BelowLast xs
      → IsValid s.0.bus
      → (or_panic (bus_remove base size) >> (insert_parts kernel p xs >> pure region)) s
        ≡ (ok region', s')
      → (addr : ℕ)
      → get_device addr s'.0.bus
        ≡ found xs addr (if holds base size addr then none else get_device addr s.0.bus)
  exchange xs base size region region' s s' low v e addr =
      let (_, s1, e1, f1) = >>-ok (or_panic (bus_remove base size)) _ s s' region' e in
      let (_, s2, e2, f2) = >>-ok (insert_parts kernel p xs) (pure region) s1 s' region' f1 in
      let (done, bus) = bus_remove-ok base size s s1 (or_panic-ok _ s s1 tt e1) in
      let v1 : IsValid s1.0.bus = rw bus (remove-IsValid base size s.0.bus v) in
      let (_, same) = pure-ok region region' s2 s' f2 in
      let removed : get_device addr s1.0.bus
          ≡ (if holds base size addr then none else get_device addr s.0.bus) =
        rw bus (elim (get_device-remove base size addr s.0.bus v) [
          | inl (_, gone) ↦ gone
          | inr (x, failed) ↦ let no_error = ap (λ r. r.0) failed in ground arith
        ]) in
      ap (λ t. get_device addr t.0.bus) (sym same)
      ∙ (insert_parts-found xs addr s1 s2 low v1 e2 ∙ ap (found xs addr) removed)

  -- Nothing is at the addresses of the parts.
  abbrev pub AreFree : List GunyahGuestMemoryRegion → Devices (BusEntry W F) → Type 0
  AreFree xs bus = (addr : ℕ) → covered (map extent xs) addr ≡ true → get_device addr bus ≡ none

  bus_insert-runs :
      (e : BusEntry W F) (base len : ℕ) (self : GunyahVirtualMachine W F) (w : W)
      → (insert e base len self.bus).0 ≡ ok tt
      → or_panic (bus_insert e base len) (self, w)
        ≡ (ok tt, (record self { bus = (insert e base len self.bus).1 }, w))
  unfolding or_panic bus_insert
  bus_insert-runs e base len self w done = rw done refl

  bus_remove-runs :
      (base len : ℕ) (self : GunyahVirtualMachine W F) (w : W)
      → (remove base len self.bus).0 ≡ ok tt
      → or_panic (bus_remove base len) (self, w)
        ≡ (ok tt, (record self { bus = (remove base len self.bus).1 }, w))
  unfolding or_panic bus_remove
  bus_remove-runs base len self w done = rw done refl

  insert_parts-runs :
      (xs : List GunyahGuestMemoryRegion) (self : GunyahVirtualMachine W F) (w : W)
      → BelowLast xs
      → AreApart (map extent xs)
      → AreFree xs self.bus
      → IsValid self.bus
      → (s' : GunyahVirtualMachine W F × W) × (insert_parts kernel p xs (self, w) ≡ (ok tt, s'))
  unfolding insert_parts
  insert_parts-runs [] self w low apart free v = ((self, w), pure-runs tt (self, w))
  insert_parts-runs (x ∷ xs) self w (low, lows) (full, own, apart) free v =
      let entry = outer_sync (region_device kernel p x) in
      let done : (insert entry x.guest_address x.region.size self.bus).0 ≡ ok tt =
        (insert_succeeds_iff entry x.guest_address x.region.size self.bus full low v).1
          (λ addr h. free addr (rw h refl)) in
      let free' : AreFree xs (insert entry x.guest_address x.region.size self.bus).1 = λ addr h.
        elim (Bool-cases (holds x.guest_address x.region.size addr)) [
          | inl hit ↦ let impossible = own addr hit in ground arith
          | inr miss ↦
              get_device-insert entry x.guest_address x.region.size addr self.bus low v done
              ∙ rw miss (free addr (rw miss h))
        ] in
      let (s', rest) =
        insert_parts-runs xs
          (record self { bus = (insert entry x.guest_address x.region.size self.bus).1 }) w lows
          apart free' (insert-IsValid entry x.guest_address x.region.size self.bus low v) in
      (
        s',
        >>-runs _ _ _ _ tt (bus_insert-runs entry x.guest_address x.region.size self w done) ∙ rest,
      )

  -- The calls on the bus return where the region is on it.
  pub exchange-runs :
      (xs : List GunyahGuestMemoryRegion) (base size : ℕ) (region : GunyahGuestMemoryRegion)
      (self : GunyahVirtualMachine W F) (w : W)
      → BelowLast xs
      → AreApart (map extent xs)
      → ((addr : ℕ) → covered (map extent xs) addr ≡ true → holds base size addr ≡ true)
      → IsValid self.bus
      → (remove base size self.bus).0 ≡ ok tt
      → (s' : GunyahVirtualMachine W F × W) × ((or_panic (bus_remove base size)
              >> (insert_parts kernel p xs >> pure region))
            (self, w)
          ≡ (ok region, s'))
  exchange-runs xs base size region self w low apart inside v done =
      let free : AreFree xs (remove base size self.bus).1 = λ addr h.
        elim (get_device-remove base size addr self.bus v) [
          | inl (_, gone) ↦ gone ∙ rw (inside addr h) refl
          | inr (x, failed) ↦ let no_error = ap (λ r. r.0) failed in ground arith
        ] in
      let (s', e) =
        insert_parts-runs xs (record self { bus = (remove base size self.bus).1 }) w low apart free
          (remove-IsValid base size self.bus v) in
      (
        s',
        >>-runs _ _ _ _ tt (bus_remove-runs base size self w done)
            ∙ (>>-runs _ _ _ _ tt e ∙ pure-runs region s'),
      )
