-- ===== src/Effects.antt =====
-- Calls that reach the operating system: from its state to a result and the state after the call. The
-- state comes back with an error and a panic too, since what was done stays done.
pub mod Outcomes
pub mod Returns
use gunyah_test_vmm.Base.{String, Outcome, ok, err, panic}
use gunyah_test_vmm.Errors.{AnyError, context}

abbrev pub M : Type 0 → Type 0 → Type 0
M K A = K → Outcome AnyError A × K

-- what follows a call, by how the call ended
abbrev pub continue :
    {K A B : Type 0} → (A → M K B) → Outcome AnyError A × K → Outcome AnyError B × K
continue f (ok a, k) = f a k
continue f (err e, k) = (err e, k)
continue f (panic, k) = (panic, k)

infixl 5 ◌>>=◌ ◌>>◌
unfoldable pub ◌>>=◌ : {K A B : Type 0} → M K A → (A → M K B) → M K B
◌>>=◌ m f k = continue f (m k)

unfoldable pub ◌>>◌ : {K A B : Type 0} → M K A → M K B → M K B
◌>>◌ m n k = continue (λ _. n) (m k)

module _ {K A : Type 0} where
  unfoldable pub pure : A → M K A
  pure a k = (ok a, k)

  unfoldable pub fail : AnyError → M K A
  fail e k = (err e, k)

  -- a step that does not touch the system
  unfoldable pub lift : Outcome AnyError A → M K A
  lift r k = (r, k)

  -- `.context(..)`
  unfoldable pub in_context : String → M K A → M K A
  in_context s m k = let (r, k') = m k in (context s r, k')

  abbrev pub panic_on_err : Outcome AnyError A × K → Outcome AnyError A × K
  panic_on_err (ok a, k) = (ok a, k)
  panic_on_err (err e, k) = (panic, k)
  panic_on_err (panic, k) = (panic, k)

  -- `.unwrap()`, `.expect(..)` and `.unwrap_or_else(|_| panic!(..))`
  unfoldable pub or_panic : M K A → M K A
  or_panic m k = panic_on_err (m k)
