-- ===== src/Vmm/DeviceTree/Unlisted.antt =====
-- vmm/src/virtual_machine.rs: machines whose devices list no memory, and that they have no device tree.
use gunyah_test_vmm.Base.{
  ℕ, ◌≡◌, refl, [], ◌∷◌, none, Outcome, panic, Bool-cases, inl, inr, ltb, ◌==◌, arith, ap,
}
use gunyah_test_vmm.Errors.{AnyError}
use gunyah_test_vmm.Effects.{M, ◌>>=◌, ◌>>◌, lift}
use gunyah_test_vmm.Effects.Returns.{Ensures, >>=-Ensures, >>-Ensures, any-Ensures}
use gunyah_test_vmm.Fdt.{FdtWriter}
use gunyah_test_vmm.Bus.Devices.{BusRange, Devices, btree_insert, insert}
use gunyah_test_vmm.Bus.Invariant.{reject_overlaps-cases}
use gunyah_test_vmm.Bus.Dispatch.{BusEntry, device, list_memory_regions}
use gunyah_test_vmm.Vmm.DeviceTree.{GicConfig, first, create_fdt_basic_config}
use gunyah_test_vmm.Vmm.Machine.{GunyahVirtualMachine}

module _ {W F : Type 0} where
  -- The device lists no memory.
  abbrev pub HasNoMemory : BusEntry W F → Type 0
  HasNoMemory e = (w : W) → (device e).memory_regions w ≡ none

  abbrev pub NoneHasMemory : Devices (BusEntry W F) → Type 0
  NoneHasMemory [] = Unit {0}
  NoneHasMemory ((r, e) ∷ m) = HasNoMemory e × NoneHasMemory m

  list_memory_regions-nil :
      (m : Devices (BusEntry W F)) (w : W) → NoneHasMemory m → list_memory_regions m w ≡ []
  unfolding list_memory_regions
  list_memory_regions-nil [] w h = refl
  list_memory_regions-nil ((r, e) ∷ m) w (h, hs) =
      rw (list_memory_regions, h w) (list_memory_regions-nil m w hs)

  btree_insert-NoneHasMemory :
      (r : BusRange) (e : BusEntry W F) (m : Devices (BusEntry W F))
      → HasNoMemory e
      → NoneHasMemory m
      → NoneHasMemory (btree_insert r e m)
  unfolding btree_insert
  btree_insert-NoneHasMemory r e [] h hs = (h, hs)
  btree_insert-NoneHasMemory r e ((s, f) ∷ m) h hs = elim (Bool-cases (ltb r.base s.base)) [
    | inl below ↦ rw below (h, hs)
    | inr above ↦ elim (Bool-cases (r.base == s.base)) [
      | inl same ↦ rw (above, same) (h, hs.1)
      | inr other ↦ rw (above, other) (hs.0, btree_insert-NoneHasMemory r e m h hs.1)
    ]
  ]

  pub insert-NoneHasMemory :
      (e : BusEntry W F) (base len : ℕ) (m : Devices (BusEntry W F))
      → HasNoMemory e
      → NoneHasMemory m
      → NoneHasMemory (insert e base len m).1
  unfolding insert
  insert-NoneHasMemory e base len m h hs = elim (Bool-cases (len == 0)) [
    | inl zero_len ↦ rw zero_len hs
    | inr some_len ↦ elim (reject_overlaps-cases base len m) [
      | inl free ↦ rw (some_len, free) (btree_insert-NoneHasMemory _ e m h hs)
      | inr (r, hit, _) ↦ rw (some_len, hit) hs
    ]
  ]

  -- the bus of the machine lists no memory
  abbrev pub NoMemory : GunyahVirtualMachine W F → Type 0
  NoMemory self = NoneHasMemory self.bus

-- The call returns no value.
abbrev pub NeverReturns : {K A : Type 0} → M K A → Type 0
NeverReturns m = Ensures m (λ _. ⊥)

module _ {K A B : Type 0} where
  lift_panic-NeverReturns :
      (r : Outcome AnyError A) (f : A → M K B) → r ≡ panic → NeverReturns (lift r >>= f)
  unfolding lift ◌>>=◌
  lift_panic-NeverReturns r f e k k' b h = let h' = rw e at h in ground arith

  pub >>=-NeverReturns :
      (m : M K A) (f : A → M K B) → ((a : A) → NeverReturns (f a)) → NeverReturns (m >>= f)
  >>=-NeverReturns m f then = >>=-Ensures (any-Ensures m) (λ a _. then a)

  >>-NeverReturns : (m : M K A) (n : M K B) → NeverReturns n → NeverReturns (m >> n)
  >>-NeverReturns m n then = >>-Ensures m then

module _ {W F : Type 0} (fdt : FdtWriter F) where
  pub create_fdt_basic_config-NeverReturns :
      (self : GunyahVirtualMachine W F) (w : W) (gic : GicConfig) (timers : ℕ × ℕ × ℕ × ℕ)
      → NoMemory self
      → NeverReturns (create_fdt_basic_config fdt self w gic timers)
  unfolding create_fdt_basic_config
  create_fdt_basic_config-NeverReturns self w gic (t0, t1, t2, t3) h =
      let gone : first (list_memory_regions self.bus w) ≡ panic =
        ap first (list_memory_regions-nil self.bus w h) in
      search (>>=-NeverReturns, >>-NeverReturns, lift_panic-NeverReturns, gone) depth 60
