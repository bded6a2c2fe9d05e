-- ===== src/Base/Families.antt =====
-- Families `ℕ → A`, such as the threads of a program by number, and their update at one index.
use Prim.Native.Nat.{ℕ}
use mathlib.Core.Path.{◌≡◌, refl, ap, fun_ext}
use mathlib.Core.Logic.{inl, inr}
use gunyah_test_vmm.Base.Tests.{◌==◌, if◌then◌else◌, Bool-cases, ==→eq}

abbrev pub update {ℓ} : {A : Type ℓ} → (ℕ → A) → ℕ → A → ℕ → A
update f i a j = if i == j then a else f j

module _ {ℓ} {A : Type ℓ} where
  update_same_at : (f : ℕ → A) (i j : ℕ) → update f i (f i) j ≡ f j
  update_same_at f i j = elim (Bool-cases (i == j)) [
    | inl e ↦ rw e (ap f (==→eq i j e))
    | inr e ↦ rw e refl
  ]

  pub update_same : (f : ℕ → A) (i : ℕ) → update f i (f i) ≡ f
  update_same f i = fun_ext (update_same_at f i)

module _ {ℓ κ} {A : Type ℓ} {B : Type κ} (g : A → B) where
  apply-update_at :
      (f : ℕ → A) (i : ℕ) (a : A) (j : ℕ) → g (update f i a j) ≡ update (λ k. g (f k)) i (g a) j
  apply-update_at f i a j = elim (Bool-cases (i == j)) [ inl e ↦ rw e refl | inr e ↦ rw e refl ]

  pub apply-update :
      (f : ℕ → A) (i : ℕ) (a : A) → (λ j. g (update f i a j)) ≡ update (λ k. g (f k)) i (g a)
  apply-update f i a = fun_ext (apply-update_at f i a)
