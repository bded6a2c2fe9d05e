-- ===== src/Vmm/Machine/Extents.antt =====
-- What `punch_hole` of vmm/src/memory.rs leaves of a region: the addresses that the parts have.
use gunyah_test_vmm.Base.{
  ℕ, ◌+◌, ◌≤◌, ◌<◌, ◌≡◌, refl, Bool, true, false, inl, inr, List, [], ◌∷◌, ◌||◌, ◌==◌, max_u64,
  Bool-cases, arith,
}
use gunyah_test_vmm.Bus.Lookup.{holds}
use gunyah_test_vmm.Vmm.Memory.PunchHole.{parts_left}

-- Some of the parts, by address, place in the file and size, has the address.
abbrev pub covered : List (ℕ × ℕ × ℕ) → ℕ → Bool
covered [] addr = false
covered ((base, off, size) ∷ es) addr = holds base size addr || covered es addr

-- The parts lie in the file as they lie in the guest, from an address on.
abbrev pub InStep : ℕ → List (ℕ × ℕ × ℕ) → Type 0
InStep start [] = Unit {0}
InStep start ((base, off, size) ∷ es) = (base ≡ start + off) × (base < max_u64) × InStep start es

-- The parts are not empty, and no address is in two of them.
abbrev pub AreApart : List (ℕ × ℕ × ℕ) → Type 0
AreApart [] = Unit {0}
AreApart ((base, off, size) ∷ es) =
    (0 < size) × ((addr : ℕ) → holds base size addr ≡ true → covered es addr ≡ false) × AreApart es

module _ (base size offset len addr : ℕ) (inside : offset + len ≤ size) where
  pub parts_left-InStep : base + size < max_u64 → InStep base (parts_left base 0 size offset len)
  parts_left-InStep top = elim (Bool-cases (offset == 0)) [
    | inl x ↦ elim (Bool-cases (offset + len == size)) [
      | inl y ↦ rw x (rw y tt)
      | inr y ↦ rw x (rw y (ground arith))
    ]
    | inr x ↦ elim (Bool-cases (offset + len == size)) [
      | inl y ↦ rw x (rw y (ground arith))
      | inr y ↦ rw x (rw y (ground arith))
    ]
  ]

  pub covered_around_hole :
      holds base size addr ≡ true
      → holds (base + offset) len addr ≡ false
      → covered (parts_left base 0 size offset len) addr ≡ true
  covered_around_hole region hole = ground arith

  pub not_covered_in_hole :
      holds (base + offset) len addr ≡ true
      → covered (parts_left base 0 size offset len) addr ≡ false
  not_covered_in_hole hole = ground arith

  pub not_covered_outside :
      holds base size addr ≡ false → covered (parts_left base 0 size offset len) addr ≡ false
  not_covered_outside region = ground arith

  pub covered_in_region :
      covered (parts_left base 0 size offset len) addr ≡ true → holds base size addr ≡ true
  covered_in_region part = ground arith

  pub hole_in_region : holds (base + offset) len addr ≡ true → holds base size addr ≡ true
  hole_in_region hole = ground arith

pub parts_left-AreApart :
    (base size offset len : ℕ) → offset + len ≤ size → AreApart (parts_left base 0 size offset len)
parts_left-AreApart base size offset len inside = elim (Bool-cases (offset == 0)) [
  | inl x ↦ elim (Bool-cases (offset + len == size)) [
    | inl y ↦ rw x (rw y tt)
    | inr y ↦ rw x (rw y (ground arith, (λ addr h. refl), tt))
  ]
  | inr x ↦ elim (Bool-cases (offset + len == size)) [
    | inl y ↦ rw x (rw y (ground arith, (λ addr h. refl), tt))
    | inr y ↦
        rw x (rw y (ground arith, (λ addr h. ground arith), (ground arith, (λ addr h. refl), tt)))
  ]
]
