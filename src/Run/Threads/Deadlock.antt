-- ===== src/Run/Threads/Deadlock.antt =====
-- src/main.rs: the threads of a machine never all wait.
use gunyah_test_vmm.Base.{
  ℕ, suc, ◌<◌, ◌≡◌, ◌≢◌, ◌⊎◌, refl, inl, inr, Option, none, some, Outcome, ok, err, panic, arith,
}
use gunyah_test_vmm.Errors.{AnyError}
use gunyah_test_vmm.Gunyah.Kernel.{VcpuRun}
use gunyah_test_vmm.Run.Threads.{
  Started, Lock, free, held, poisoned, Place, entering, exited, found, inside, reading, has_line,
  feeding, panicked, lock_of, unlock, lock, turn, System, init, Reach,
}
use gunyah_test_vmm.Run.Threads.Locks.{lock_used, Reach-LocksAreUsed}

module _ {W F : Type 0} (m : Started W F) where
  -- the lock that a thread is about to take
  abbrev pub lock_wanted : Place W F → Option ℕ
  lock_wanted (found page io e) = lock_of io e
  lock_wanted (has_line bytes) = some m.console
  lock_wanted _ = none

  -- that there is a step for the thread
  abbrev pub CanStep : System W F → ℕ → Type 0
  CanStep s i = turn m i (s.place i) s.locks s.world ≢ none

  -- that the next step of the thread gives the lock back
  abbrev pub GivesBack : ℕ → ℕ → Place W F → (ℕ → Lock) → W → Type 0
  GivesBack k i p l w =
      (r : Place W F × (ℕ → Lock) × W) × (turn m i p l w ≡ some r) × ((j : ℕ) → r.1 k ≢ held j)

  unlock-gives :
      (k : ℕ) (r : Outcome AnyError (Unit {0})) (l : ℕ → Lock) (j : ℕ)
      → unlock (some k) r l k ≢ held j
  unlock-gives k (ok _) l j = λ h. ground arith
  unlock-gives k (err _) l j = λ h. ground arith
  unlock-gives k panic l j = λ h. ground arith

  holder-GivesBack :
      (i k : ℕ) (p : Place W F) (l : ℕ → Lock) (w : W)
      → lock_used m p ≡ some k
      → GivesBack k i p l w
  unfolding turn
  holder-GivesBack i k (inside page io e) l w used = (_, refl, λ j. rw used (unlock-gives k _ l j))
  holder-GivesBack i k (feeding bytes) l w used = (_, refl, λ j. rw used (unlock-gives k _ l j))
  holder-GivesBack i k (entering page) l w used = ground arith
  holder-GivesBack i k (exited page) l w used = ground arith
  holder-GivesBack i k (found page io e) l w used = ground arith
  holder-GivesBack i k reading l w used = ground arith
  holder-GivesBack i k (has_line bytes) l w used = ground arith
  holder-GivesBack i k panicked l w used = ground arith

  -- that the lock is held
  abbrev IsHeld : (ℕ → Lock) → Option ℕ → Type 0
  IsHeld l o = (k j : ℕ) × (o ≡ some k) × (l k ≡ held j)

  lock-steps :
      (i : ℕ) (o : Option ℕ) (next : Place W F) (l : ℕ → Lock) (w : W)
      → (lock i o next l w ≢ none) ⊎ IsHeld l o
  lock-steps i none next l w = inl (λ h. ground arith)
  lock-steps i (some k) next l w = at_lock (l k) refl
    where
      at_lock : (x : Lock) → l k ≡ x → (lock i (some k) next l w ≢ none) ⊎ IsHeld l (some k)
      at_lock free e = inl (λ h. let h' = rw (lock, e) at h in ground arith)
      at_lock (held j) e = inr (k, j, refl, e)
      at_lock poisoned e = inl (λ h. let h' = rw (lock, e) at h in ground arith)

  turn-steps :
      (i : ℕ) (p : Place W F) (l : ℕ → Lock) (w : W)
      → p ≢ panicked
      → (turn m i p l w ≢ none) ⊎ IsHeld l (lock_wanted p)
  unfolding turn
  turn-steps i (entering page) l w alive = inl (λ h. ground arith)
  turn-steps i (exited page) l w alive = inl (λ h. ground arith)
  turn-steps i (found page io e) l w alive = lock-steps i (lock_of io e) (inside page io e) l w
  turn-steps i (inside page io e) l w alive = inl (λ h. ground arith)
  turn-steps i reading l w alive = inl (λ h. ground arith)
  turn-steps i (has_line bytes) l w alive = lock-steps i (some m.console) (feeding bytes) l w
  turn-steps i (feeding bytes) l w alive = inl (λ h. ground arith)
  turn-steps i panicked l w alive = absurd (alive refl)

  -- There is no deadlock: whatever the threads of a started machine have done, a thread that has not
  -- panicked can take its next step, or the lock that it is about to take is held by a thread whose
  -- next step gives that lock back.
  pub no_deadlock :
      (n : ℕ) (pages : ℕ → VcpuRun) (w : W) (s : System W F)
      → Reach m n (init n pages w) s
      → (i : ℕ) → s.place i ≢ panicked
      → CanStep s i
        ⊎ ((k j : ℕ) × (lock_wanted (s.place i) ≡ some k)
            × (s.locks k ≡ held j)
            × (j < suc n)
            × GivesBack k j (s.place j) s.locks s.world)
  no_deadlock n pages w s r i alive = elim (turn-steps i (s.place i) s.locks s.world alive) [
    | inl steps ↦ inl steps
    | inr (k, j, wanted, e) ↦
        let (below, used) = (Reach-LocksAreUsed m n pages w r).holder k j e in
        inr (k, j, wanted, e, below, holder-GivesBack j k (s.place j) s.locks s.world used)
  ]
