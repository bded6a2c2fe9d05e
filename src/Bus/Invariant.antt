-- ===== src/Bus/Invariant.antt =====
-- vmm/src/bus.rs: what every map of a bus satisfies, and that `insert` and `remove` keep it.
use gunyah_test_vmm.Base.{
  ℕ, ◌+◌, ◌≤◌, ◌<◌, ◌≡◌, ◌⊎◌, inl, inr, refl, true, false, [], ◌∷◌, Outcome, ok, err, arith, ◌==◌,
  max_u64, Bool-cases,
}
use gunyah_test_vmm.Errors.{BusError, overlap}
use gunyah_test_vmm.Bus.Devices.{
  BusRange, Devices, overlaps, btree_insert, btree_has, btree_remove, reject_overlaps, insert,
  remove,
}

module _ {ℓ} {E : Type ℓ} where
  -- The ranges of the map stand in order from `lo` on, none is empty, and none reaches into the
  -- next. The last address of u64 starts no range.
  abbrev pub IsFrom : ℕ → Devices E → Type 0
  IsFrom lo [] = Unit {0}
  IsFrom lo ((r, e) ∷ m) =
      (lo ≤ r.base) × (r.base < max_u64) × (0 < r.len) × IsFrom (r.base + r.len) m

  abbrev pub IsValid : Devices E → Type 0
  IsValid m = IsFrom 0 m

  pub IsFrom-mono : {lo lo' : ℕ} (m : Devices E) → lo' ≤ lo → IsFrom lo m → IsFrom lo' m
  IsFrom-mono [] h v = tt
  IsFrom-mono ((r, e) ∷ m) h v = (omega arith, v.1, v.2, v.3)

  -- No entry has a key below the bound.
  pub btree_has-below :
      (base lo : ℕ) (m : Devices E) → IsFrom lo m → base < lo → btree_has base m ≡ false
  unfolding btree_has
  btree_has-below base lo [] v h = refl
  btree_has-below base lo ((r, e) ∷ m) v h =
      ground (arith, btree_has-below base (r.base + r.len) m v.3)

  pub btree_insert-IsFrom :
      (base len lo : ℕ) (e : E) (m : Devices E)
      → base < max_u64
      → 0 < len
      → lo ≤ base
      → reject_overlaps base len m ≡ ok tt
      → IsFrom lo m
      → IsFrom lo (btree_insert (record { base = base; len = len }) e m)
  unfolding btree_insert reject_overlaps
  btree_insert-IsFrom base len lo e [] hb hl h free v = (h, hb, hl, tt)
  btree_insert-IsFrom base len lo e ((r, f) ∷ m) hb hl h free v =
      ground (arith, btree_insert-IsFrom base len (r.base + r.len) e m hb hl)

  -- A range that overlaps none of the map is not there.
  pub btree_has-reject_overlaps :
      (base len : ℕ) (m : Devices E) (lo : ℕ)
      → base < max_u64
      → 0 < len
      → IsFrom lo m
      → reject_overlaps base len m ≡ ok tt
      → btree_has base m ≡ false
  unfolding btree_has reject_overlaps
  btree_has-reject_overlaps base len [] lo hb hl v free = refl
  btree_has-reject_overlaps base len ((r, f) ∷ m) lo hb hl v free =
      ground (arith, btree_has-reject_overlaps base len m (r.base + r.len) hb hl v.3)

  pub btree_remove-IsFrom :
      (base lo : ℕ) (m : Devices E) → IsFrom lo m → IsFrom lo (btree_remove base m)
  unfolding btree_remove
  btree_remove-IsFrom base lo [] v = tt
  btree_remove-IsFrom base lo ((r, e) ∷ m) v = ground (
    arith,
    btree_remove-IsFrom base (r.base + r.len) m v.3,
    IsFrom-mono {lo = r.base + r.len} {lo' = lo} m,
  )

  -- Every entry overlaps nothing, or the first that does is named.
  pub reject_overlaps-cases :
      (base len : ℕ) (m : Devices E)
      → (reject_overlaps base len m ≡ ok tt)
        ⊎ ((r : BusRange) × (reject_overlaps base len m ≡ err (overlap base len r.base r.len))
            × (overlaps r base len ≡ true))
  unfolding reject_overlaps
  reject_overlaps-cases base len [] = inl refl
  reject_overlaps-cases base len ((r, e) ∷ m) = elim (Bool-cases (overlaps r base len)) [
    | inl hit ↦ inr (r, rw hit refl, hit)
    | inr miss ↦ rw miss (reject_overlaps-cases base len m)
  ]

  -- What an insertion did: it put a range in that overlaps no other, or failed and changed nothing.
  abbrev pub Inserted : E → ℕ → ℕ → Devices E → Outcome BusError (Unit {0}) × Devices E → Type ℓ
  Inserted e base len m r =
      ((r ≡ (ok tt, btree_insert (record { base = base; len = len }) e m))
        × (0 < len)
        × (reject_overlaps base len m ≡ ok tt)
        × (btree_has base m ≡ false))
      ⊎ ((x : BusError) × (r ≡ (err x, m)))

  -- An insertion into a valid map, below the last address of u64, puts in a range that is not empty,
  -- overlaps no other and whose key was not there, or it fails and changes nothing.
  pub insert-Inserted :
      (e : E) (base len : ℕ) (m : Devices E)
      → base < max_u64
      → IsValid m
      → Inserted e base len m (insert e base len m)
  unfolding insert
  insert-Inserted e base len m hb v = elim (Bool-cases (len == 0)) [
    | inl zero_len ↦ inr (overlap base len 0 0, rw zero_len refl)
    | inr some_len ↦ elim (reject_overlaps-cases base len m) [
      | inl free ↦
          let gone = btree_has-reject_overlaps base len m 0 hb (ground arith) v free in
          inl (rw (some_len, free, gone) refl, ground arith, free, gone)
      | inr (r, hit, _) ↦ inr (overlap base len r.base r.len, rw (some_len, hit) refl)
    ]
  ]

  -- Whether it succeeds or fails, an insertion below the last address of u64 keeps a valid map
  -- valid.
  pub insert-IsValid :
      (e : E) (base len : ℕ) (m : Devices E)
      → base < max_u64
      → IsValid m
      → IsValid (insert e base len m).1
  insert-IsValid e base len m hb v = elim (insert-Inserted e base len m hb v) [
    | inl (done, hl, free, _) ↦
        rw done (btree_insert-IsFrom base len 0 e m hb hl (omega arith) free v)
    | inr (x, same) ↦ rw same v
  ]

  -- Whether it succeeds or fails, a removal keeps a valid map valid.
  pub remove-IsValid : (base len : ℕ) (m : Devices E) → IsValid m → IsValid (remove base len m).1
  unfolding remove
  remove-IsValid base len m v = ground (arith, btree_remove-IsFrom base 0 m v)
