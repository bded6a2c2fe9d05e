-- ===== src/Vmm/Machine/Holds.antt =====
-- vmm/src/virtual_machine.rs: calls on a machine that keep a predicate of it, and how they compose.
use gunyah_test_vmm.Base.{String, ◌≡◌, refl, Outcome, ok, err, panic}
use gunyah_test_vmm.Errors.{AnyError}
use gunyah_test_vmm.Effects.{
  M, continue, ◌>>=◌, ◌>>◌, pure, fail, lift, or_panic, panic_on_err, in_context,
}
use gunyah_test_vmm.Effects.Returns.{Ensures, any-Ensures}
use gunyah_test_vmm.Vmm.Machine.{GunyahVirtualMachine, Op, on_world, update}

module _ {W F : Type 0} (Q : GunyahVirtualMachine W F → Type 0) where
  -- However the call ends, the predicate still holds of the machine.
  abbrev pub Holds : {A : Type 0} → Op W F A → Type 0
  Holds op = (s : GunyahVirtualMachine W F × W) → Q s.0 → Q (op s).1.0

  pub on_world-Holds :
      {A : Type 0} (call : GunyahVirtualMachine W F → M W A) → Holds (on_world call)
  unfolding on_world
  on_world-Holds call (self, w) v = v

  pub pure-Holds : {A : Type 0} (a : A) → Holds (pure a)
  unfolding pure
  pure-Holds a s v = v

  pub fail-Holds : (A : Type 0) (e : AnyError) → Holds (fail {A = A} e)
  unfolding fail
  fail-Holds A e s v = v

  pub lift-Holds : {A : Type 0} (r : Outcome AnyError A) → Holds (lift r)
  unfolding lift
  lift-Holds r s v = v

  pub update-Holds :
      (change : GunyahVirtualMachine W F → GunyahVirtualMachine W F)
      → ((self : GunyahVirtualMachine W F) → Q self → Q (change self))
      → Holds (update change)
  unfolding update
  update-Holds change h (self, w) v = h self v

module _ {W F A : Type 0} (Q : GunyahVirtualMachine W F → Type 0) where
  panic_on_err-Holds :
      (r : Outcome AnyError A × (GunyahVirtualMachine W F × W)) → Q r.1.0 → Q (panic_on_err r).1.0
  panic_on_err-Holds (ok a, s) v = v
  panic_on_err-Holds (err e, s) v = v
  panic_on_err-Holds (panic, s) v = v

  pub or_panic-Holds : (m : Op W F A) → Holds Q m → Holds Q (or_panic m)
  unfolding or_panic
  or_panic-Holds m h s v = panic_on_err-Holds (m s) (h s v)

  pub in_context-Holds : (t : String) (m : Op W F A) → Holds Q m → Holds Q (in_context t m)
  unfolding in_context
  in_context-Holds t m h s v = h s v

module _ {W F A B : Type 0} (Q : GunyahVirtualMachine W F → Type 0) where
  continue-Holds :
      (P : A → Type 0) (f : A → Op W F B) (r : Outcome AnyError A × (GunyahVirtualMachine W F × W))
      → ((s : GunyahVirtualMachine W F × W) (a : A) → r ≡ (ok a, s) → P a)
      → ((a : A) → P a → Holds Q (f a))
      → Q r.1.0
      → Q (continue f r).1.0
  continue-Holds P f (ok a, s) known h v = h a (known s a refl) s v
  continue-Holds P f (err e, s) known h v = v
  continue-Holds P f (panic, s) known h v = v

  -- a call of whose value `P` is known
  pub known-Holds :
      (P : A → Type 0) (m : Op W F A) (f : A → Op W F B)
      → Ensures m P
      → Holds Q m
      → ((a : A) → P a → Holds Q (f a))
      → Holds Q (m >>= f)
  unfolding ◌>>=◌
  known-Holds P m f known first then s v =
      continue-Holds P f (m s) (λ s' a e. known s s' a e) then (first s v)

  pub >>=-Holds :
      (m : Op W F A) (f : A → Op W F B) → Holds Q m → ((a : A) → Holds Q (f a)) → Holds Q (m >>= f)
  >>=-Holds m f first then = known-Holds (λ _. Unit {0}) m f (any-Ensures m) first (λ a _. then a)

  pub >>-Holds : (m : Op W F A) (n : Op W F B) → Holds Q m → Holds Q n → Holds Q (m >> n)
  unfolding ◌>>◌
  >>-Holds m n first then s v =
      continue-Holds (λ _. Unit {0}) (λ _. n) (m s) (λ _ _ _. tt) (λ _ _. then) (first s v)
