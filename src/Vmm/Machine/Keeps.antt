-- ===== src/Vmm/Machine/Keeps.antt =====
-- vmm/src/virtual_machine.rs: calls on a machine that keep its bus valid, and how they
-- compose.
use gunyah_test_vmm.Base.{String, ℕ, ◌<◌, ◌≡◌, max_u64, ap}
use gunyah_test_vmm.Errors.{AnyError}
use gunyah_test_vmm.Effects.{M, ◌>>=◌, ◌>>◌, pure, fail, or_panic, in_context}
use gunyah_test_vmm.Effects.Returns.{Ensures}
use gunyah_test_vmm.Vmm.Machine.Holds.{
  on_world-Holds, pure-Holds, fail-Holds, update-Holds, or_panic-Holds, in_context-Holds,
  known-Holds, >>=-Holds, >>-Holds,
}
use gunyah_test_vmm.Bus.Invariant.{IsValid, insert-IsValid, remove-IsValid}
use gunyah_test_vmm.Bus.Dispatch.{BusEntry}
use gunyah_test_vmm.Vmm.Machine.{GunyahVirtualMachine, Op, on_world, update, bus_insert, bus_remove}

module _ {W F : Type 0} where
  abbrev pub HasValidBus : GunyahVirtualMachine W F → Type 0
  HasValidBus self = IsValid self.bus

  -- The bus of the machine is valid.
  abbrev pub BusIsValid : GunyahVirtualMachine W F × W → Type 0
  BusIsValid s = HasValidBus s.0

  -- However the call ends, it leaves a valid bus valid.
  abbrev pub Keeps : {A : Type 0} → Op W F A → Type 0
  Keeps op = (s : GunyahVirtualMachine W F × W) → BusIsValid s → BusIsValid (op s).1

  pub on_world-Keeps :
      {A : Type 0} (call : GunyahVirtualMachine W F → M W A) → Keeps (on_world call)
  on_world-Keeps call = on_world-Holds HasValidBus call

  pub bus_insert-Keeps :
      (e : BusEntry W F) (base len : ℕ) → base < max_u64 → Keeps (bus_insert e base len)
  unfolding bus_insert
  bus_insert-Keeps e base len h (self, w) v = insert-IsValid e base len self.bus h v

  pub bus_remove-Keeps : (base len : ℕ) → Keeps (bus_remove {W = W} {F = F} base len)
  unfolding bus_remove
  bus_remove-Keeps base len (self, w) v = remove-IsValid base len self.bus v

  pub pure-Keeps : {A : Type 0} (a : A) → Keeps (pure a)
  pure-Keeps a = pure-Holds HasValidBus a

  pub fail-Keeps : (A : Type 0) (e : AnyError) → Keeps (fail {A = A} e)
  fail-Keeps A e = fail-Holds HasValidBus A e

  pub update-Keeps :
      (change : GunyahVirtualMachine W F → GunyahVirtualMachine W F)
      → ((self : GunyahVirtualMachine W F) → (change self).bus ≡ self.bus)
      → Keeps (update change)
  update-Keeps change same = update-Holds HasValidBus change (λ self v. rw (same self) v)

  pub on_world-Ensures :
      {A : Type 0} (P : A → Type 0) (call : GunyahVirtualMachine W F → M W A)
      → ((self : GunyahVirtualMachine W F) → Ensures (call self) P)
      → Ensures (on_world call) P
  unfolding on_world
  on_world-Ensures P call h (self, w) (self', w') a e = h self w w' a (ap (λ x. (x.0, x.1.1)) e)

module _ {W F A : Type 0} where
  pub or_panic-Keeps : (m : Op W F A) → Keeps m → Keeps (or_panic m)
  or_panic-Keeps m h = or_panic-Holds HasValidBus m h

  pub in_context-Keeps : (t : String) (m : Op W F A) → Keeps m → Keeps (in_context t m)
  in_context-Keeps t m h = in_context-Holds HasValidBus t m h

module _ {W F A B : Type 0} where
  -- a call of whose value `P` is known
  pub known-Keeps :
      (P : A → Type 0) (m : Op W F A) (f : A → Op W F B)
      → Ensures m P
      → Keeps m
      → ((a : A) → P a → Keeps (f a))
      → Keeps (m >>= f)
  known-Keeps P m f known first then = known-Holds HasValidBus P m f known first then

  pub >>=-Keeps :
      (m : Op W F A) (f : A → Op W F B) → Keeps m → ((a : A) → Keeps (f a)) → Keeps (m >>= f)
  >>=-Keeps m f first then = >>=-Holds HasValidBus m f first then

  pub >>-Keeps : (m : Op W F A) (n : Op W F B) → Keeps m → Keeps n → Keeps (m >> n)
  >>-Keeps m n first then = >>-Holds HasValidBus m n first then
