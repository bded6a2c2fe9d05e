-- ===== src/Effects/Outcomes.antt =====
-- What a call that reaches the system ends in, from whatever state it starts.
use gunyah_test_vmm.Base.{◌≡◌, refl, Outcome, ok, err}
use gunyah_test_vmm.Errors.{AnyError}
use gunyah_test_vmm.Effects.{M, ◌>>=◌, ◌>>◌, pure, fail, lift, or_panic}

module _ {K : Type 0} where
  -- The call returns a value that satisfies `P`.
  abbrev pub Succeeds : {A : Type 0} → M K A → (A → Type 0) → Type 0
  Succeeds {A} m P = (k : K) → (a : A) × (k' : K) × (m k ≡ (ok a, k')) × P a

  -- The call returns the error.
  abbrev pub Fails : {A : Type 0} → M K A → AnyError → Type 0
  Fails m e = (k : K) → (k' : K) × (m k ≡ (err e, k'))

module _ {K A : Type 0} where
  pub pure-Succeeds : {P : A → Type 0} (a : A) → P a → Succeeds (pure {K = K} a) P
  unfolding pure
  pure-Succeeds a h k = (a, k, refl, h)

  pub lift-Succeeds :
      {P : A → Type 0} (r : Outcome AnyError A) (a : A)
      → r ≡ ok a
      → P a
      → Succeeds (lift {K = K} r) P
  unfolding lift
  lift-Succeeds r a e h k = (a, k, rw e refl, h)

  pub lift-Fails : (r : Outcome AnyError A) (x : AnyError) → r ≡ err x → Fails (lift {K = K} r) x
  unfolding lift
  lift-Fails r x e k = (k, rw e refl)

  pub fail-Fails : (x : AnyError) → Fails (fail {K = K} {A = A} x) x
  unfolding fail
  fail-Fails x k = (k, refl)

  pub or_panic-Succeeds : {m : M K A} {P : A → Type 0} → Succeeds m P → Succeeds (or_panic m) P
  unfolding or_panic
  or_panic-Succeeds h k = let (a, k', e, q) = h k in (a, k', rw e refl, q)

module _ {K A B : Type 0} where
  pub >>=-Succeeds :
      {m : M K A} {f : A → M K B} {P : A → Type 0} {Q : B → Type 0}
      → Succeeds m P
      → ((a : A) → P a → Succeeds (f a) Q)
      → Succeeds (m >>= f) Q
  unfolding ◌>>=◌
  >>=-Succeeds first then k =
      let (a, k', e, h) = first k in let (b, k'', e', h') = then a h k' in (b, k'', rw e e', h')

  pub >>-Succeeds :
      {m : M K A} {n : M K B} {P : A → Type 0} {Q : B → Type 0}
      → Succeeds m P
      → Succeeds n Q
      → Succeeds (m >> n) Q
  unfolding ◌>>◌
  >>-Succeeds first then k =
      let (a, k', e, h) = first k in let (b, k'', e', h') = then k' in (b, k'', rw e e', h')

  pub >>=-Fails :
      {m : M K A} {f : A → M K B} {P : A → Type 0} {x : AnyError}
      → Succeeds m P
      → ((a : A) → P a → Fails (f a) x)
      → Fails (m >>= f) x
  unfolding ◌>>=◌
  >>=-Fails first then k =
      let (a, k', e, h) = first k in let (k'', e') = then a h k' in (k'', rw e e')

  pub >>-Fails :
      {m : M K A} {n : M K B} {P : A → Type 0} {x : AnyError}
      → Succeeds m P
      → Fails n x
      → Fails (m >> n) x
  unfolding ◌>>◌
  >>-Fails first then k = let (a, k', e, h) = first k in let (k'', e') = then k' in (k'', rw e e')

  pub Fails->>= : {m : M K A} (f : A → M K B) {x : AnyError} → Fails m x → Fails (m >>= f) x
  unfolding ◌>>=◌
  Fails->>= f h k = let (k', e) = h k in (k', rw e refl)
