-- ===== src/Bus/LastAddress.antt =====
-- vmm/src/bus.rs at a range that starts at the last address of u64. `overlaps` saturates there, so it
-- sees no conflict with such a range.
use gunyah_test_vmm.Base.{
  ℕ, ◌+◌, ◌<◌, ◌≡◌, refl, true, false, [], ◌∷◌, ◌++◌, some, ok, err, arith, max_u64, ne→==,
}
use gunyah_test_vmm.Errors.{overlap}
use gunyah_test_vmm.Bus.Devices.{
  BusRange, Devices, btree_insert, btree_has, first_before, get_device, reject_overlaps, insert,
  insert_checked,
}
use gunyah_test_vmm.Bus.Invariant.{IsFrom, IsValid}

abbrev pub last_range : ℕ → BusRange
last_range len = record { base = max_u64; len = len }

module _ {E : Type 0} where
  reject_overlaps_last : (len : ℕ) (m : Devices E) → reject_overlaps max_u64 len m ≡ ok tt
  unfolding reject_overlaps
  reject_overlaps_last len [] = refl
  reject_overlaps_last len ((r, f) ∷ m) = ground (arith, reject_overlaps_last len m)

  btree_insert_last :
      (e : E) (len lo : ℕ) (m : Devices E)
      → IsFrom lo m
      → btree_insert (last_range len) e m ≡ m ++ (last_range len, e) ∷ []
  unfolding btree_insert
  btree_insert_last e len lo [] v = refl
  btree_insert_last e len lo ((r, f) ∷ m) v =
      ground (arith, btree_insert_last e len (r.base + r.len) m v.3)

  btree_insert_last_again :
      (e f : E) (len len' lo : ℕ) (m : Devices E)
      → IsFrom lo m
      → btree_insert (last_range len) e (m ++ (last_range len', f) ∷ [])
        ≡ m ++ (last_range len', e) ∷ []
  unfolding btree_insert
  btree_insert_last_again e f len len' lo [] v = refl
  btree_insert_last_again e f len len' lo ((r, g) ∷ m) v =
      ground (arith, btree_insert_last_again e f len len' (r.base + r.len) m v.3)

  btree_has_last : (lo : ℕ) (m : Devices E) → IsFrom lo m → btree_has max_u64 m ≡ false
  unfolding btree_has
  btree_has_last lo [] v = refl
  btree_has_last lo ((r, f) ∷ m) v = ground (arith, btree_has_last (r.base + r.len) m v.3)

  btree_has_last_again :
      (f : E) (len : ℕ) (m : Devices E) → btree_has max_u64 (m ++ (last_range len, f) ∷ []) ≡ true
  unfolding btree_has
  btree_has_last_again f len [] = refl
  btree_has_last_again f len ((r, g) ∷ m) = ground (arith, btree_has_last_again f len m)

  first_before_last :
      (e : E) (len lo : ℕ) (m : Devices E)
      → IsFrom lo m
      → first_before max_u64 (m ++ (last_range len, e) ∷ []) ≡ some (last_range len, e)
  unfolding first_before
  first_before_last e len lo [] v = refl
  first_before_last e len lo ((r, g) ∷ m) v =
      ground (arith, first_before_last e len (r.base + r.len) m v.3)

  -- An insertion of at least one address at the last address of u64 into a valid map succeeds
  -- whatever the map holds, and takes that address over, also from a device whose range reaches it.
  insert_last_shadows :
      (e : E) (len : ℕ) (m : Devices E)
      → 0 < len
      → IsValid m
      → ((insert e max_u64 len m).0 ≡ ok tt)
        × (get_device max_u64 (insert e max_u64 len m).1 ≡ some (0, max_u64, e))
  unfolding insert get_device
  insert_last_shadows e len m hl v = (
    rw (ne→== len 0 (omega arith), reject_overlaps_last len m, btree_has_last 0 m v) refl,
    rw
        (
          ne→== len 0 (omega arith),
          reject_overlaps_last len m,
          insert_checked,
          btree_insert_last e len 0 m v,
          first_before_last e len 0 m v,
        )
        (ground arith),
  )

  -- A second insertion of at least one address at the last address of u64, in a map that is valid
  -- before that entry, fails with `Overlap`, and yet replaces the device that was there, under the
  -- length that it was inserted with.
  pub insert_last_replaces :
      (e f : E) (len len' : ℕ) (m : Devices E)
      → 0 < len
      → IsValid m
      → insert e max_u64 len (m ++ (last_range len', f) ∷ [])
        ≡ (err (overlap max_u64 len max_u64 len), m ++ (last_range len', e) ∷ [])
  unfolding insert
  insert_last_replaces e f len len' m hl v =
      rw
        (
          ne→== len 0 (omega arith),
          reject_overlaps_last len (m ++ (last_range len', f) ∷ []),
          btree_has_last_again f len' m,
          btree_insert_last_again e f len len' 0 m v,
        )
        refl
