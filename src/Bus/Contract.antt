-- ===== src/Bus/Contract.antt =====
-- vmm/src/bus.rs: `insert`, `remove` and `get_device` against the view of a bus as a partial function
-- from addresses to devices.
use Prim.Native.Nat.{max}
use gunyah_test_vmm.Base.{
  ℕ, ◌+◌, ◌-◌, ◌<◌, ◌≡◌, ◌↔◌, ◌⊎◌, inl, inr, refl, sym, ◌∙◌, true, false, [], ◌∷◌, none, some,
  Outcome, ok, err, arith, ◌==◌, if◌then◌else◌, max_u64, Bool-cases, ne→==,
}
use gunyah_test_vmm.Errors.{BusError, empty, overlap}
use gunyah_test_vmm.Bus.Devices.{
  BusRange, Devices, btree_insert, btree_has, btree_remove, get_device, reject_overlaps, insert,
  has_range, remove,
}
use gunyah_test_vmm.Bus.Invariant.{
  IsFrom, IsValid, btree_has-below, btree_has-reject_overlaps, insert-Inserted, insert-IsValid,
  remove-IsValid,
}
use gunyah_test_vmm.Bus.Lookup.{
  holds, device_at, device_at-below, get_device-device_at, device_at-btree_insert,
}

module _ {E : Type 0} where
  -- After a successful insertion into a valid map, below the last address of u64, the addresses of
  -- the new range lead to the new device, at their offset from its base, and every other address
  -- leads where it led before.
  pub get_device-insert :
      (e : E) (base len addr : ℕ) (m : Devices E)
      → base < max_u64
      → IsValid m
      → (insert e base len m).0 ≡ ok tt
      → get_device addr (insert e base len m).1
        ≡ (if holds base len addr then some (addr - base, addr, e) else get_device addr m)
  get_device-insert e base len addr m hb v done =
      rw
        (
          get_device-device_at addr 0 m v,
          get_device-device_at addr 0 _ (insert-IsValid e base len m hb v),
        )
        (elim (insert-Inserted e base len m hb v) [
          | inl (done', hl, free, _) ↦
              rw done' (device_at-btree_insert base len addr 0 e m hb hl (omega arith) v free)
          | inr (x, same) ↦ cc
        ])

  reject_overlaps-device_at :
      (base len addr lo : ℕ) (m : Devices E)
      → base < max_u64
      → IsFrom lo m
      → reject_overlaps base len m ≡ ok tt
      → holds base len addr ≡ true
      → device_at addr m ≡ none
  unfolding device_at reject_overlaps
  reject_overlaps-device_at base len addr lo [] hb v free h = refl
  reject_overlaps-device_at base len addr lo ((r, f) ∷ m) hb v free h =
      ground (arith, reject_overlaps-device_at base len addr (r.base + r.len) m hb v.3)

  device_at-reject_overlaps :
      (base len lo : ℕ) (m : Devices E)
      → base < max_u64
      → 0 < len
      → IsFrom lo m
      → ((addr : ℕ) → holds base len addr ≡ true → addr < max_u64 → device_at addr m ≡ none)
      → reject_overlaps base len m ≡ ok tt
  unfolding device_at reject_overlaps
  device_at-reject_overlaps base len lo [] hb hl v free = refl
  device_at-reject_overlaps base len lo ((r, f) ∷ m) hb hl v free = ground (
    arith,
    free (max base r.base),
    device_at-reject_overlaps base len (r.base + r.len) m hb hl v.3
        (λ a h h'. ground (arith, free a h h')),
  )

  insert-ok :
      (e : E) (base len : ℕ) (m : Devices E)
      → 0 < len
      → base < max_u64
      → IsValid m
      → reject_overlaps base len m ≡ ok tt
      → (insert e base len m).0 ≡ ok tt
  unfolding insert
  insert-ok e base len m hl hb v free =
      rw (ne→== len 0 (omega arith), free, btree_has-reject_overlaps base len m 0 hb hl v free) refl

  -- An insertion of at least one address into a valid map, below the last address of u64, succeeds
  -- exactly when no device holds any address of the new range.
  pub insert_succeeds_iff :
      (e : E) (base len : ℕ) (m : Devices E)
      → 0 < len
      → base < max_u64
      → IsValid m
      → ((insert e base len m).0 ≡ ok tt)
        ↔ ((addr : ℕ) → holds base len addr ≡ true → get_device addr m ≡ none)
  insert_succeeds_iff e base len m hl hb v = (
    (λ done addr h. elim (insert-Inserted e base len m hb v) [
      | inl (_, _, free, _) ↦
          get_device-device_at addr 0 m v ∙ reject_overlaps-device_at base len addr 0 m hb v free h
      | inr (x, same) ↦ cc
    ]),
    (λ nobody. insert-ok e base len m hl hb v (
        device_at-reject_overlaps base len 0 m hb hl v
          (λ a h _. sym (get_device-device_at a 0 m v) ∙ nobody a h))),
  )

  has_range-btree_has :
      (base len : ℕ) (m : Devices E) → has_range base len m ≡ true → btree_has base m ≡ true
  unfolding has_range btree_has
  has_range-btree_has base len [] h = cc
  has_range-btree_has base len ((r, f) ∷ m) h = ground (arith, has_range-btree_has base len m)

  device_at-btree_remove :
      (base len addr lo : ℕ) (m : Devices E)
      → IsFrom lo m
      → has_range base len m ≡ true
      → device_at addr (btree_remove base m)
        ≡ (if holds base len addr then none else device_at addr m)
  unfolding device_at btree_remove has_range
  device_at-btree_remove base len addr lo [] v h = cc
  device_at-btree_remove base len addr lo ((r, f) ∷ m) v h = ground (
    arith,
    has_range-btree_has base len m,
    btree_has-below base (r.base + r.len) m v.3,
    device_at-below addr (r.base + r.len) m v.3,
    device_at-btree_remove base len addr (r.base + r.len) m v.3,
  )

  btree_remove-btree_insert :
      (r : BusRange) (e : E) (m : Devices E)
      → btree_has r.base m ≡ false
      → btree_remove r.base (btree_insert r e m) ≡ m
  unfolding btree_remove btree_insert btree_has
  btree_remove-btree_insert r e [] h = ground arith
  btree_remove-btree_insert r e ((s, f) ∷ m) h = ground (arith, btree_remove-btree_insert r e m)

  has_range-btree_insert :
      (base len : ℕ) (e : E) (m : Devices E)
      → btree_has base m ≡ false
      → has_range base len (btree_insert (record { base = base; len = len }) e m) ≡ true
  unfolding has_range btree_insert btree_has
  has_range-btree_insert base len e [] h = ground arith
  has_range-btree_insert base len e ((s, f) ∷ m) h =
      ground (arith, has_range-btree_insert base len e m)

  -- What a removal did: it took exactly the named range out, or failed and changed nothing.
  abbrev pub Removed : ℕ → ℕ → Devices E → Outcome BusError (Unit {0}) × Devices E → Type 0
  Removed base len m r =
      ((r ≡ (ok tt, btree_remove base m)) × (has_range base len m ≡ true))
      ⊎ ((x : BusError) × (r ≡ (err x, m)))

  remove-Removed : (base len : ℕ) (m : Devices E) → Removed base len m (remove base len m)
  unfolding remove
  remove-Removed base len m = elim (Bool-cases (len == 0)) [
    | inl zero_len ↦ inr (overlap base len 0 0, rw zero_len refl)
    | inr some_len ↦ elim (Bool-cases (has_range base len m)) [
      | inl hit ↦ inl (rw (some_len, hit, has_range-btree_has base len m hit) refl, hit)
      | inr miss ↦ inr (empty, rw (some_len, miss) refl)
    ]
  ]

  -- A successful removal from a valid map takes the addresses of the named range off the bus and
  -- leaves all others; a failed one changes nothing.
  pub get_device-remove :
      (base len addr : ℕ) (m : Devices E)
      → IsValid m
      → (((remove base len m).0 ≡ ok tt)
          × (get_device addr (remove base len m).1
              ≡ (if holds base len addr then none else get_device addr m)))
        ⊎ ((x : BusError) × (remove base len m ≡ (err x, m)))
  get_device-remove base len addr m v = elim (remove-Removed base len m) [
    | inl (done, hit) ↦ inl (
      rw done refl,
      rw
          (
            get_device-device_at addr 0 m v,
            get_device-device_at addr 0 _ (remove-IsValid base len m v),
            done,
          )
          (device_at-btree_remove base len addr 0 m v hit),
    )
    | inr failed ↦ inr failed
  ]

  -- Removing what was just inserted, successfully, into a valid map and below the last address of
  -- u64, succeeds and gives back the map from before.
  pub remove-insert :
      (e : E) (base len : ℕ) (m : Devices E)
      → base < max_u64
      → IsValid m
      → (insert e base len m).0 ≡ ok tt
      → remove base len (insert e base len m).1 ≡ (ok tt, m)
  unfolding remove
  remove-insert e base len m hb v done = elim (insert-Inserted e base len m hb v) [
    | inl (done', hl, _, gone) ↦
        let hit = has_range-btree_insert base len e m gone in
        rw
          (
            done',
            ne→== len 0 (omega arith),
            hit,
            has_range-btree_has base len _ hit,
            btree_remove-btree_insert (record { base = base; len = len }) e m gone,
          )
          refl
    | inr (x, same) ↦ cc
  ]
