-- ===== src/Effects/Returns.antt =====
-- What is known of a call that returned a value, whatever the system answered.
use gunyah_test_vmm.Base.{◌≡◌, refl, sym, String, Outcome, ok, err, panic, arith}
use gunyah_test_vmm.Errors.{AnyError, context}
use gunyah_test_vmm.Effects.{M, continue, ◌>>=◌, ◌>>◌, pure, lift, or_panic, in_context}

module _ {K A B : Type 0} where
  continue-ok :
      (f : A → M K B) (r : Outcome AnyError A × K) (k : K) (b : B)
      → continue f r ≡ (ok b, k)
      → (a : A) × (k' : K) × (r ≡ (ok a, k')) × (f a k' ≡ (ok b, k))
  continue-ok f (ok a, k') k b h = (a, k', refl, h)
  continue-ok f (err e, k') k b h = ground arith
  continue-ok f (panic, k') k b h = ground arith

  -- A call that returns a value has gone through all its steps.
  pub >>=-ok :
      (m : M K A) (f : A → M K B) (k k'' : K) (b : B)
      → (m >>= f) k ≡ (ok b, k'')
      → (a : A) × (k' : K) × (m k ≡ (ok a, k')) × (f a k' ≡ (ok b, k''))
  unfolding ◌>>=◌
  >>=-ok m f k k'' b h = continue-ok f (m k) k'' b h

  pub >>-ok :
      (m : M K A) (n : M K B) (k k'' : K) (b : B)
      → (m >> n) k ≡ (ok b, k'')
      → (a : A) × (k' : K) × (m k ≡ (ok a, k')) × (n k' ≡ (ok b, k''))
  unfolding ◌>>◌
  >>-ok m n k k'' b h = continue-ok (λ _. n) (m k) k'' b h

  -- A call that returns is followed by the rest.
  pub >>=-runs :
      (m : M K A) (f : A → M K B) (k k' : K) (a : A) → m k ≡ (ok a, k') → (m >>= f) k ≡ f a k'
  unfolding ◌>>=◌
  >>=-runs m f k k' a e = rw e refl

  pub >>-runs : (m : M K A) (n : M K B) (k k' : K) (a : A) → m k ≡ (ok a, k') → (m >> n) k ≡ n k'
  unfolding ◌>>◌
  >>-runs m n k k' a e = rw e refl

module _ {K A : Type 0} where
  pub lift-ok :
      (r : Outcome AnyError A) (k k' : K) (a : A) → lift r k ≡ (ok a, k') → (r ≡ ok a) × (k ≡ k')
  unfolding lift
  lift-ok r k k' a h = ground arith

  pub pure-runs : (a : A) (k : K) → pure a k ≡ (ok a, k)
  unfolding pure
  pure-runs a k = refl

  pub pure-ok : (a b : A) (k k' : K) → pure a k ≡ (ok b, k') → (a ≡ b) × (k ≡ k')
  unfolding pure
  pure-ok a b k k' h = ground arith

  context-ok :
      (s : String) (r : Outcome AnyError A × K) (k : K) (a : A)
      → ◌≡◌ {A = Outcome AnyError A × K} (context s r.0, r.1) (ok a, k)
      → r ≡ (ok a, k)
  context-ok s (ok a', k') k a h = h
  context-ok s (err e, k') k a h = ground arith
  context-ok s (panic, k') k a h = ground arith

  pub in_context-ok :
      (s : String) (m : M K A) (k k' : K) (a : A) → in_context s m k ≡ (ok a, k') → m k ≡ (ok a, k')
  unfolding in_context
  in_context-ok s m k k' a h = context-ok s (m k) k' a h

  pub or_panic-ok : (m : M K A) (k k' : K) (a : A) → or_panic m k ≡ (ok a, k') → m k ≡ (ok a, k')
  unfolding or_panic
  or_panic-ok m k k' a h = ground arith

module _ {K A : Type 0} where
  -- If the call returns a value, the value satisfies `P`.
  abbrev pub Ensures : M K A → (A → Type 0) → Type 0
  Ensures m P = (k k' : K) (a : A) → m k ≡ (ok a, k') → P a

  pub pure-Ensures : (P : A → Type 0) (a : A) → P a → Ensures (pure {K = K} a) P
  pure-Ensures P a h k k' b e = let same = (pure-ok a b k k' e).0 in rw (sym same) h

  pub in_context-Ensures :
      {P : A → Type 0} (t : String) (m : M K A) → Ensures m P → Ensures (in_context t m) P
  in_context-Ensures t m h k k' a e = h k k' a (in_context-ok t m k k' a e)

  -- nothing is claimed of the value
  pub any-Ensures : (m : M K A) → Ensures m (λ _. Unit {0})
  any-Ensures m k k' a e = tt

module _ {K A B : Type 0} where
  pub >>=-Ensures :
      {m : M K A} {f : A → M K B} {P : A → Type 0} {Q : B → Type 0}
      → Ensures m P
      → ((a : A) → P a → Ensures (f a) Q)
      → Ensures (m >>= f) Q
  >>=-Ensures {m} {f} first then k k'' b e =
      let (a, k', e1, e2) = >>=-ok m f k k'' b e in then a (first k k' a e1) k' k'' b e2

  pub >>-Ensures : (m : M K A) {n : M K B} {Q : B → Type 0} → Ensures n Q → Ensures (m >> n) Q
  >>-Ensures m {n} then k k'' b e = let (a, k', e1, e2) = >>-ok m n k k'' b e in then k' k'' b e2
