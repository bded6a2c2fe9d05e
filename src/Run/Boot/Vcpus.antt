-- ===== src/Run/Boot/Vcpus.antt =====
-- src/main.rs: the vCPUs of `execute`, from their creation to their threads.
use gunyah_test_vmm.Base.{
  ℕ, zero, suc, ◌+◌, ◌≤◌, ◌≡◌, ◌≢◌, refl, inl, inr, List, [], ◌∷◌, Outcome, ok, err, panic, arith,
  length, length-append, ap, Outcome-cases,
}
use gunyah_test_vmm.Errors.{AnyError}
use gunyah_test_vmm.Effects.{M, continue, ◌>>=◌, ◌>>◌, pure, fail, in_context}
use gunyah_test_vmm.Effects.Returns.{>>=-ok, >>-ok, pure-ok}
use gunyah_test_vmm.Vmm.Vcpu.{GunyahVcpu, vcpu_new}
use gunyah_test_vmm.Vmm.Machine.{GunyahVirtualMachine, on_world, update, create_vcpu}
use gunyah_test_vmm.Run.Boot.{Host, Attempt, attempt, create_vcpus, pop_vcpu, spawn_vcpus}

-- The call does not panic, whatever the state.
abbrev pub IsSafe : {K A : Type 0} → M K A → Type 0
IsSafe {K} m = (k : K) → (m k).0 ≢ panic

-- how many of the attempts are vCPUs
abbrev pub made : List Attempt → ℕ
made [] = 0
made (inl v ∷ vcpus) = suc (made vcpus)
made (inr x ∷ vcpus) = made vcpus

made-cons : (v : Attempt) (vcpus : List Attempt) → made (v ∷ vcpus) ≡ made (v ∷ []) + made vcpus
made-cons (inl v) vcpus = omega arith
made-cons (inr x) vcpus = omega arith

made-le : (vcpus : List Attempt) → made vcpus ≤ length vcpus
made-le [] = omega arith
made-le (inl v ∷ vcpus) = omega (arith, made-le vcpus)
made-le (inr x ∷ vcpus) = omega (arith, made-le vcpus)

module _ {W F : Type 0} (host : Host W F) where
  pub create_vcpus-length :
      (n id : ℕ) (vcpus out : List Attempt) (s s' : GunyahVirtualMachine W F × W)
      → create_vcpus host n id vcpus s ≡ (ok out, s')
      → length out ≡ n + length vcpus
  unfolding create_vcpus
  create_vcpus-length zero id vcpus out s s' e =
      let (same, _) = pure-ok vcpus out s s' e in let n = ap length same in omega arith
  create_vcpus-length (suc n) id vcpus out s s' e =
      let (vcpu, t, _, rest) = >>=-ok _ _ s s' out e in
      omega (arith, create_vcpus-length n (suc id) (vcpu ∷ vcpus) out t s' rest)

  continue-IsSafe :
      {K A B : Type 0} (f : A → M K B) (r : Outcome AnyError A × K)
      → r.0 ≢ panic
      → ((a : A) → IsSafe (f a))
      → (continue f r).0 ≢ panic
  continue-IsSafe f (ok a, k) h then = then a k
  continue-IsSafe f (err e, k) h then = λ z. ground arith
  continue-IsSafe f (panic, k) h then = absurd (h refl)

  pop_vcpu-IsSafe : (vcpu : Attempt) (vcpus : List Attempt) → IsSafe (pop_vcpu host (vcpu ∷ vcpus))
  unfolding pop_vcpu pure fail
  pop_vcpu-IsSafe (inl v) vcpus k = λ e. ground arith
  pop_vcpu-IsSafe (inr x) vcpus k = λ e. ground arith

  spawn_vcpus-IsSafe :
      (n : ℕ) (vcpus : List Attempt)
      → ((v : GunyahVcpu) → IsSafe (host.spawn v))
      → n ≤ length vcpus
      → IsSafe (spawn_vcpus host n vcpus)
  unfolding spawn_vcpus pop_vcpu pure fail ◌>>=◌ ◌>>◌ on_world
  spawn_vcpus-IsSafe zero vcpus h few k = λ e. ground arith
  spawn_vcpus-IsSafe (suc n) [] h few k = absurd (omega arith)
  spawn_vcpus-IsSafe (suc n) (inl v ∷ vcpus) h few k =
      continue-IsSafe (λ _. spawn_vcpus host n vcpus) (on_world (λ _. host.spawn v) k) (h v k.1)
        (λ _. spawn_vcpus-IsSafe n vcpus h (omega arith))
  spawn_vcpus-IsSafe (suc n) (inr x ∷ vcpus) h few k = λ e. ground arith

  -- Once the vCPUs were asked for, `execute` never finds the vector empty when it takes them out of it
  -- again: where threads can be spawned without a panic, that loop does not panic, in any state, and
  -- whether or not the vCPUs could be made.
  pub spawn_vcpus-create_vcpus-IsSafe :
      (n id : ℕ) (vcpus : List Attempt) (s s' : GunyahVirtualMachine W F × W)
      → ((v : GunyahVcpu) → IsSafe (host.spawn v))
      → create_vcpus host n id [] s ≡ (ok vcpus, s')
      → IsSafe (spawn_vcpus host n vcpus)
  spawn_vcpus-create_vcpus-IsSafe n id vcpus s s' h e =
      let enough = create_vcpus-length n id [] vcpus s s' e in
      spawn_vcpus-IsSafe n vcpus h (omega arith)

  pub spawn_vcpus-made :
      (n : ℕ) (vcpus : List Attempt) (s s' : GunyahVirtualMachine W F × W)
      → spawn_vcpus host n vcpus s ≡ (ok tt, s')
      → length vcpus ≡ n
      → made vcpus ≡ n
  unfolding spawn_vcpus pop_vcpu pure fail ◌>>=◌
  spawn_vcpus-made zero [] s s' e h = refl
  spawn_vcpus-made zero (v ∷ vcpus) s s' e h = absurd (omega arith)
  spawn_vcpus-made (suc n) [] s s' e h = absurd (omega arith)
  spawn_vcpus-made (suc n) (inl v ∷ vcpus) s s' e h =
      let (_, t, _, rest) = >>-ok _ _ s s' tt e in
      let all = spawn_vcpus-made n vcpus t s' rest (omega arith) in omega arith
  spawn_vcpus-made (suc n) (inr x ∷ vcpus) s s' e h = ground arith

module _ {W F : Type 0} (host : Host W F) where
  create_vcpu-made :
      (id : ℕ) (v : Attempt) (s t : GunyahVirtualMachine W F × W)
      → attempt (in_context "Failed to create vcpu" (create_vcpu host.kernel id)) s ≡ (ok v, t)
      → length t.0.vcpus ≡ length s.0.vcpus + made (v ∷ [])
  unfolding attempt in_context create_vcpu on_world update pure ◌>>=◌ ◌>>◌
  create_vcpu-made id v (self, w) t e = elim (Outcome-cases (vcpu_new host.kernel self.vm id w).0) [
    | inl (vcpu, r) ↦ let e' = rw r at e in ground (arith, length-append self.vcpus (vcpu ∷ []))
    | inr (inl (x, r)) ↦ let e' = rw r at e in ground arith
    | inr (inr r) ↦ let e' = rw r at e in ground arith
  ]

  pub create_vcpus-made :
      (n id : ℕ) (vcpus out : List Attempt) (s s' : GunyahVirtualMachine W F × W)
      → create_vcpus host n id vcpus s ≡ (ok out, s')
      → length s'.0.vcpus + made vcpus ≡ length s.0.vcpus + made out
  unfolding create_vcpus
  create_vcpus-made zero id vcpus out s s' e =
      let (same, t) = pure-ok vcpus out s s' e in ground arith
  create_vcpus-made (suc n) id vcpus out s s' e =
      let (v, t, e1, rest) = >>=-ok _ _ s s' out e in
      let one = create_vcpu-made id v s t e1 in
      omega (arith, create_vcpus-made n (suc id) (v ∷ vcpus) out t s' rest, made-cons v vcpus)
