-- ===== src/Bus/Devices.antt =====
-- vmm/src/bus.rs: address ranges and the map of devices behind the lock of a bus.
use gunyah_test_vmm.Base.{
  ℕ, ◌-◌, Bool, true, false, ◌&&◌, List, [], ◌∷◌, Option, none, some, Outcome, ok, err, panic, ltb,
  leb, ◌==◌, if◌then◌else◌, saturating_add,
}
use gunyah_test_vmm.Errors.{BusError, empty, overlap}

pub record BusRange : Type 0 where
  pub base : ℕ
  pub len : ℕ

-- `BusRange::contains`
unfoldable pub contains : BusRange → ℕ → Bool
contains r addr = leb r.base addr && ltb addr (saturating_add r.base r.len)

-- `BusRange::overlaps`
abbrev pub overlaps : BusRange → ℕ → ℕ → Bool
overlaps r base len = ltb r.base (saturating_add base len) && ltb base (saturating_add r.base r.len)

-- The `BTreeMap<BusRange, BusEntry>` of a bus: its entries in the order of their keys, which compare
-- by `base` alone. `E` is the type of the entries.
abbrev pub Devices {ℓ} : Type ℓ → Type ℓ
Devices E = List (BusRange × E)

module _ {ℓ} {E : Type ℓ} where
  -- `BTreeMap::insert`: where the key is there, its value is replaced and the old key stays.
  unfoldable pub btree_insert : BusRange → E → Devices E → Devices E
  btree_insert r e [] = (r, e) ∷ []
  btree_insert r e ((s, f) ∷ m) =
      if ltb r.base s.base
      then (r, e) ∷ (s, f) ∷ m
      else if r.base == s.base
      then (s, e) ∷ m
      else (s, f) ∷ btree_insert r e m

  -- whether `BTreeMap::insert` or `BTreeMap::remove` finds a value at the key
  unfoldable pub btree_has : ℕ → Devices E → Bool
  btree_has base [] = false
  btree_has base ((s, f) ∷ m) = if base == s.base then true else btree_has base m

  -- `BTreeMap::remove`
  unfoldable pub btree_remove : ℕ → Devices E → Devices E
  btree_remove base [] = []
  btree_remove base ((s, f) ∷ m) = if base == s.base then m else (s, f) ∷ btree_remove base m

  -- `Bus::first_before`: `range(..=BusRange { base: addr, len: 1 }).next_back()`
  unfoldable pub first_before : ℕ → Devices E → Option (BusRange × E)
  first_before addr [] = none
  first_before addr ((s, f) ∷ m) =
      let rest = first_before addr m in
      if leb s.base addr then elim rest [ none ↦ some (s, f) | some x ↦ some x ] else none

  -- the test of `Bus::get_device` on the entry that `first_before` finds
  abbrev pub within : ℕ → Option (BusRange × E) → Option (ℕ × ℕ × E)
  within addr none = none
  within addr (some (range, entry)) =
      let offset = addr - range.base in
      if ltb offset range.len then some (offset, addr, entry) else none

  -- `Bus::get_device`
  unfoldable pub get_device : ℕ → Devices E → Option (ℕ × ℕ × E)
  get_device addr m = within addr (first_before addr m)

  -- the `try_for_each` of `Bus::insert`, in the order of the map
  unfoldable pub reject_overlaps : ℕ → ℕ → Devices E → Outcome BusError (Unit {0})
  reject_overlaps base len [] = ok tt
  reject_overlaps base len ((s, f) ∷ m) =
      if overlaps s base len
      then err (overlap base len s.base s.len)
      else reject_overlaps base len m

  -- the part of `Bus::insert` below the check
  pub insert_checked :
      E → ℕ → ℕ → Devices E → Outcome BusError (Unit {0}) → Outcome BusError (Unit {0}) × Devices E
  insert_checked entry base len m (ok _) = (
    if btree_has base m then err (overlap base len base len) else ok tt,
    btree_insert (record { base = base; len = len }) entry m,
  )
  insert_checked entry base len m (err e) = (err e, m)
  insert_checked entry base len m panic = (panic, m)

  -- `Bus::insert` and `Bus::insert_sync`, which differ in the constructor of the entry alone. The
  -- result is what the call returns and the map that it leaves.
  unfoldable pub insert : E → ℕ → ℕ → Devices E → Outcome BusError (Unit {0}) × Devices E
  unfolding insert_checked
  insert entry base len m =
      if len == 0
      then (err (overlap base len 0 0), m)
      else insert_checked entry base len m (reject_overlaps base len m)

  -- the `any` of `Bus::remove`
  unfoldable pub has_range : ℕ → ℕ → Devices E → Bool
  has_range base len [] = false
  has_range base len ((s, f) ∷ m) =
      if s.base == base && (s.len == len) then true else has_range base len m

  -- `Bus::remove`
  unfoldable pub remove : ℕ → ℕ → Devices E → Outcome BusError (Unit {0}) × Devices E
  remove base len m =
      if len == 0
      then (err (overlap base len 0 0), m)
      else if has_range base len m
      then (if btree_has base m then ok tt else err empty, btree_remove base m)
      else (err empty, m)
