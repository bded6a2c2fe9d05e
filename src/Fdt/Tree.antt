-- ===== src/Fdt/Tree.antt =====
-- A device tree as data, and how it is written: every node is begun, filled and ended.
use gunyah_test_vmm.Base.{◌≡◌, refl, String, Outcome, ok, err, panic}
use mathlib.Core.Path.{fun_ext}
use gunyah_test_vmm.Errors.{AnyError}
use gunyah_test_vmm.Effects.{M, ◌>>=◌, ◌>>◌, pure, continue, lift}
use gunyah_test_vmm.Types.Text.{Text}
use gunyah_test_vmm.Fdt.{Value, FdtWriter}

-- `call` stands for what a device writes for itself.
pub data Items (F : Type 0) : Type 0 where
  done : Items F
  prop : String → Value → Items F → Items F
  node : Text → Items F → Items F → Items F
  call : M F (Unit {0}) → Items F → Items F

module _ {F : Type 0} where
  infixr 60 ◌then◌
  -- one after the other
  unfoldable pub ◌then◌ : Items F → Items F → Items F
  done then y = y
  (prop k v x) then y = prop k v (x then y)
  (node n x z) then y = node n x (z then y)
  (call c x) then y = call c (x then y)

module _ {F : Type 0} (fdt : FdtWriter F) where
  unfoldable pub write_items : Items F → M F (Unit {0})
  write_items done = pure tt
  write_items (prop k v x) = fdt.property k v >> write_items x
  write_items (node n x y) =
      (fdt.begin_node n >>= λ id. write_items x >> fdt.end_node id) >> write_items y
  write_items (call c x) = c >> write_items x

module _ {K A B C : Type 0} where
  continue_assoc :
      (r : Outcome AnyError A × K) (f : A → M K B) (g : B → M K C)
      → continue g (continue f r) ≡ continue (λ a k. continue g (f a k)) r
  continue_assoc (ok a, k) f g = refl
  continue_assoc (err e, k) f g = refl
  continue_assoc (panic, k) f g = refl

  pub >>=_assoc :
      (m : M K A) (f : A → M K B) (g : B → M K C) → (m >>= f) >>= g ≡ m >>= (λ a. f a >>= g)
  unfolding ◌>>=◌
  >>=_assoc m f g = fun_ext (λ k. continue_assoc (m k) f g)

  pub >>=->> : (m : M K A) (f : A → M K B) (n : M K C) → (m >>= f) >> n ≡ m >>= (λ a. f a >> n)
  unfolding ◌>>=◌ ◌>>◌
  >>=->> m f n = fun_ext (λ k. continue_assoc (m k) f (λ _. n))

  pub >>_assoc : (m : M K A) (n : M K B) (o : M K C) → (m >> n) >> o ≡ m >> (n >> o)
  unfolding ◌>>◌
  >>_assoc m n o = fun_ext (λ k. continue_assoc (m k) (λ _. n) (λ _. o))

module _ {K B : Type 0} where
  pub pure->> : (n : M K B) → pure tt >> n ≡ n
  unfolding pure ◌>>◌
  pure->> n = refl

module _ {K : Type 0} where
  continue-pure : (r : Outcome AnyError (Unit {0}) × K) → continue (λ _ k. (ok tt, k)) r ≡ r
  continue-pure (ok tt, k) = refl
  continue-pure (err e, k) = refl
  continue-pure (panic, k) = refl

  pub >>-pure : (m : M K (Unit {0})) → m >> pure tt ≡ m
  unfolding pure ◌>>◌
  >>-pure m = fun_ext (λ k. continue-pure (m k))

module _ {K A B : Type 0} where
  pub lift->>= : (r : Outcome AnyError A) (a : A) (f : A → M K B) → r ≡ ok a → lift r >>= f ≡ f a
  unfolding lift ◌>>=◌
  lift->>= r a f e = rw e refl

module _ {F : Type 0} (fdt : FdtWriter F) where
  -- A tree after another is written after it.
  pub write_items-then :
      (x y : Items F) → write_items fdt (x then y) ≡ write_items fdt x >> write_items fdt y
  unfolding write_items ◌then◌
  write_items-then done y = simp pure->>
  write_items-then (prop k v x) y = simp (>>_assoc, write_items-then x y)
  write_items-then (node n x z) y = simp (>>_assoc, write_items-then z y)
  write_items-then (call c x) y = simp (>>_assoc, write_items-then x y)

-- Calls in a row associate to the right, and empty ones go.
pub ruleset in_a_row = (>>=_assoc, >>=->>, >>_assoc, pure->>, >>-pure)
