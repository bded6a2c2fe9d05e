-- ===== src/Run/Threads/Join.antt =====
-- src/main.rs: the end of `execute`, which waits for the threads of the vCPUs.
use gunyah_test_vmm.Base.{
  ℕ, zero, suc, ◌<◌, ◌≡◌, ◌≢◌, refl, sym, ◌∙◌, ap, List, [], ◌∷◌, Option, none, some, Outcome, ok,
  panic, arith,
}
use gunyah_test_vmm.Errors.{AnyError}
use gunyah_test_vmm.Run.Threads.{
  Place, entering, exited, found, inside, reading, has_line, feeding, panicked,
}

-- `vcpus` behind the first loop of `execute`, by the number of the vCPUs, with the last element first
unfoldable pub pushed : ℕ → List ℕ
pushed zero = []
pushed (suc n) = n ∷ pushed n

-- `vcpu_handles` behind the loop that pops the vCPUs and pushes the handles of their threads, with the
-- last element first
unfoldable pub spawned : List ℕ → List ℕ → List ℕ
spawned [] handles = handles
spawned (id ∷ vcpus) handles = spawned vcpus (id ∷ handles)

spawned-first :
    (n : ℕ) (handles : List ℕ) → (rest : List ℕ) × (spawned (pushed (suc n)) handles ≡ 0 ∷ rest)
unfolding spawned pushed
spawned-first zero handles = (handles, refl)
spawned-first (suc n) handles = spawned-first n (suc n ∷ handles)

module _ {W F : Type 0} where
  -- `handle.join()`: `none` while the thread runs. A thread only ends by a panic.
  unfoldable pub join : Place W F → Option (Outcome AnyError (Unit {0}))
  join panicked = some panic
  join _ = none

  -- the last loop of `execute`, with what it returns: `none` while it waits
  unfoldable pub join_all : ℕ → List ℕ → (ℕ → Place W F) → Option (Outcome AnyError (Unit {0}))
  join_all zero handles place = some (ok tt)
  join_all (suc n) [] place = some panic
  join_all (suc n) (id ∷ handles) place = elim (join (place id)) [
    | none ↦ none
    | some (ok _) ↦ join_all n handles place
    | some _ ↦ some panic
  ]

  -- what `execute` does behind the start of the machine, by where the threads stand
  unfoldable pub wait : ℕ → (ℕ → Place W F) → Option (Outcome AnyError (Unit {0}))
  wait n place = join_all n (spawned (pushed n) []) place

  join-panics : (p : Place W F) → join p ≢ some (ok tt)
  unfolding join
  join-panics panicked = λ e. ground arith
  join-panics (entering page) = λ e. ground arith
  join-panics (exited page) = λ e. ground arith
  join-panics (found page io d) = λ e. ground arith
  join-panics (inside page io d) = λ e. ground arith
  join-panics reading = λ e. ground arith
  join-panics (has_line bytes) = λ e. ground arith
  join-panics (feeding bytes) = λ e. ground arith

  join_all-first :
      (n id : ℕ) (handles : List ℕ) (place : ℕ → Place W F) (p : Place W F)
      → place id ≡ p
      → join_all (suc n) (id ∷ handles) place ≡ join p
  unfolding join_all join
  join_all-first n id handles place panicked e = rw (join_all, e) refl
  join_all-first n id handles place (entering page) e = rw (join_all, e) refl
  join_all-first n id handles place (exited page) e = rw (join_all, e) refl
  join_all-first n id handles place (found page io d) e = rw (join_all, e) refl
  join_all-first n id handles place (inside page io d) e = rw (join_all, e) refl
  join_all-first n id handles place reading e = rw (join_all, e) refl
  join_all-first n id handles place (has_line bytes) e = rw (join_all, e) refl
  join_all-first n id handles place (feeding bytes) e = rw (join_all, e) refl

  -- With at least one vCPU, `execute` waits for the thread of vCPU 0 as long as this runs, whatever
  -- becomes of the threads of the other vCPUs, and panics when it has panicked; it does not return.
  pub wait-first :
      (n : ℕ) (place : ℕ → Place W F)
      → 0 < n
      → (wait n place ≡ join (place 0)) × (wait n place ≢ some (ok tt))
  unfolding wait join
  wait-first (suc n) place h =
      let (rest, e) = spawned-first n [] in
      let first = join_all-first n 0 rest place (place 0) refl in
      let whole = ap (λ handles. join_all (suc n) handles place) e ∙ first in
      (whole, λ returned. join-panics (place 0) (sym whole ∙ returned))
  wait-first zero place h = ground arith
