-- ===== src/Bus/Lookup.antt =====
-- vmm/src/bus.rs: a bus seen as a partial function from addresses to devices, and what `insert` and
-- `remove` do to that function.
use gunyah_test_vmm.Base.{
  ℕ, ◌+◌, ◌-◌, ◌≤◌, ◌<◌, ◌≡◌, refl, Bool, ◌&&◌, [], ◌∷◌, Option, none, some, ok, arith, ltb, leb,
  if◌then◌else◌, max_u64,
}
use gunyah_test_vmm.Bus.Devices.{
  BusRange, Devices, btree_insert, first_before, get_device, reject_overlaps,
}
use gunyah_test_vmm.Bus.Invariant.{IsFrom}

-- `addr` lies in the `len` addresses from `base` on.
abbrev pub holds : ℕ → ℕ → ℕ → Bool
holds base len addr = leb base addr && ltb (addr - base) len

module _ {E : Type 0} where
  -- The device that a search through all the entries finds at an address.
  unfoldable pub device_at : ℕ → Devices E → Option (ℕ × ℕ × E)
  device_at addr [] = none
  device_at addr ((r, e) ∷ m) =
      if holds r.base r.len addr then some (addr - r.base, addr, e) else device_at addr m

  first_before-below :
      (addr lo : ℕ) (m : Devices E) → IsFrom lo m → addr < lo → first_before addr m ≡ none
  unfolding first_before
  first_before-below addr lo [] v h = refl
  first_before-below addr lo ((r, e) ∷ m) v h = ground arith

  pub device_at-below :
      (addr lo : ℕ) (m : Devices E) → IsFrom lo m → addr < lo → device_at addr m ≡ none
  unfolding device_at
  device_at-below addr lo [] v h = refl
  device_at-below addr lo ((r, e) ∷ m) v h =
      ground (arith, device_at-below addr (r.base + r.len) m v.3)

  -- The subtraction in `get_device` does not underflow.
  pub first_before-le :
      (addr : ℕ) (m : Devices E) (r : BusRange) (e : E)
      → first_before addr m ≡ some (r, e)
      → r.base ≤ addr
  unfolding first_before
  first_before-le addr [] r e h = cc
  first_before-le addr ((s, f) ∷ m) r e h = ground (arith, first_before-le addr m r e)

  -- In a valid map `get_device` finds what a search through all the entries would find.
  pub get_device-device_at :
      (addr lo : ℕ) (m : Devices E) → IsFrom lo m → get_device addr m ≡ device_at addr m
  unfolding get_device device_at first_before
  get_device-device_at addr lo [] v = refl
  get_device-device_at addr lo ((r, e) ∷ m) v = ground (
    arith,
    get_device-device_at addr (r.base + r.len) m v.3,
    first_before-below addr (r.base + r.len) m v.3,
    device_at-below addr (r.base + r.len) m v.3,
  )

  pub device_at-btree_insert :
      (base len addr lo : ℕ) (e : E) (m : Devices E)
      → base < max_u64
      → 0 < len
      → lo ≤ base
      → IsFrom lo m
      → reject_overlaps base len m ≡ ok tt
      → device_at addr (btree_insert (record { base = base; len = len }) e m)
        ≡ (if holds base len addr then some (addr - base, addr, e) else device_at addr m)
  unfolding device_at btree_insert reject_overlaps
  device_at-btree_insert base len addr lo e [] hb hl h v free = refl
  device_at-btree_insert base len addr lo e ((r, f) ∷ m) hb hl h v free = ground (
    arith,
    device_at-btree_insert base len addr (r.base + r.len) e m hb hl,
    device_at-below addr (r.base + r.len) m v.3,
  )
