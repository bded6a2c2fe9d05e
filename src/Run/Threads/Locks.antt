-- ===== src/Run/Threads/Locks.antt =====
-- src/main.rs: who holds the locks of the devices while the threads of a machine run.
use gunyah_test_vmm.Base.{
  ℕ, suc, ◌<◌, ◌≡◌, ◌≢◌, refl, sym, inl, inr, Option, none, some, List, length, Outcome, ok, err,
  panic, ◌==◌, Bool-cases, arith, update, apply-update,
}
use mathlib.Core.Path.{subst}
use gunyah_test_vmm.Errors.{AnyError}
use gunyah_test_vmm.Gunyah.Kernel.{VcpuRun}
use gunyah_test_vmm.Bus.Devices.{get_device}
use gunyah_test_vmm.Bus.Dispatch.{AccessId, BusEntry}
use gunyah_test_vmm.Run.Threads.{
  Started, Lock, free, held, poisoned, Place, entering, exited, found, inside, reading, has_line,
  feeding, panicked, lock_of, unlock, accesses, route, look, settle, after_ioctl, got_line, fed,
  lock, turn, System, init, Step, pick, Reach, start, later,
}

-- the lock that a thread holds, by where it stands
abbrev pub lock_used : {W F : Type 0} → Started W F → Place W F → Option ℕ
lock_used m (inside page io e) = lock_of io e
lock_used m (feeding bytes) = some m.console
lock_used m _ = none

-- What a step of the thread `i` does with the locks.
data LockMove (i : ℕ) : Option ℕ → (ℕ → Lock) → Option ℕ → (ℕ → Lock) → Type 0 where
  keep : {l : ℕ → Lock} → LockMove i none l none l
  take : {k : ℕ} {l : ℕ → Lock} → l k ≡ free → LockMove i none l (some k) (update l k (held i))
  drop :
      {k : ℕ} {l : ℕ → Lock} {x : Lock}
      → ((j : ℕ) → x ≢ held j)
      → LockMove i (some k) l none (update l k x)

-- The locks that are held are those that the threads below `n` use.
pub record Inv (n : ℕ) (used : ℕ → Option ℕ) (l : ℕ → Lock) : Type 0 where
  pub own : (i k : ℕ) → used i ≡ some k → l k ≡ held i
  pub holder : (k j : ℕ) → l k ≡ held j → (j < n) × (used j ≡ some k)

LockMove-Inv :
    {n i : ℕ} {used : ℕ → Option ℕ} {u u' : Option ℕ} {l l' : ℕ → Lock}
    → i < n
    → used i ≡ u
    → LockMove i u l u' l'
    → Inv n used l
    → Inv n (update used i u') l'
LockMove-Inv {i} {used} lt e keep inv = record {
  own = λ j k h. ground (arith, inv.own j k);
  holder = λ k j h. ground (arith, inv.holder k j h);
}
LockMove-Inv {i} {used} lt e (take {k} fr) inv = record {
  own = λ j k' h. ground (arith, inv.own j k', inv.holder k i);
  holder = λ k' j h. ground (arith, inv.holder k' j);
}
LockMove-Inv {i} {used} lt e (drop {k} nh) inv = record {
  own = λ j k' h. ground (arith, inv.own j k', inv.own i k e);
  holder = λ k' j h. ground (arith, inv.holder k' j, inv.own i k e, nh j);
}

module _ {W F : Type 0} (m : Started W F) (i : ℕ) where
  after_ioctl-unlocked :
      (r : Outcome AnyError (Unit {0})) (page : VcpuRun)
      → lock_used {F = F} m (after_ioctl r page) ≡ none
  after_ioctl-unlocked (ok _) page = refl
  after_ioctl-unlocked (err _) page = refl
  after_ioctl-unlocked panic page = refl

  settle-unlocked :
      (r : Outcome AnyError (Unit {0})) (page : VcpuRun)
      → lock_used {F = F} m (settle r page) ≡ none
  settle-unlocked (ok _) page = refl
  settle-unlocked (err _) page = refl
  settle-unlocked panic page = refl

  got_line-unlocked : (r : Outcome AnyError (List ℕ)) → lock_used {F = F} m (got_line r) ≡ none
  got_line-unlocked (ok bytes) = elim (Bool-cases (length bytes == 0)) [
    | inl e ↦ rw e refl
    | inr e ↦ rw e refl
  ]
  got_line-unlocked (err _) = refl
  got_line-unlocked panic = refl

  fed-unlocked : (r : Outcome AnyError (Unit {0})) → lock_used {F = F} m (fed r) ≡ none
  fed-unlocked (ok _) = refl
  fed-unlocked (err _) = refl
  fed-unlocked panic = refl

  found-unlocked :
      (id : AccessId) (page : VcpuRun) (hit : Option (ℕ × ℕ × BusEntry W F))
      → lock_used m (route id page hit) ≡ none
  found-unlocked id page none = refl
  found-unlocked id page (some (offset, address, e)) = refl

  look-unlocked : (id : AccessId) (page : VcpuRun) → lock_used m (look id m.bus page) ≡ none
  look-unlocked id page = elim (Bool-cases (accesses page)) [
    | inl e ↦ rw e (found-unlocked id page (get_device page.phys_addr m.bus))
    | inr e ↦ rw e refl
  ]

  -- that a step that a thread can take moves its lock in one of these ways
  abbrev Allowed : Option ℕ → (ℕ → Lock) → Option (Place W F × (ℕ → Lock) × W) → Type 0
  Allowed u l none = Unit {0}
  Allowed u l (some (p', l', w')) = LockMove i u l (lock_used m p') l'

  keep_lem :
      (p' : Place W F) (l : ℕ → Lock) → lock_used m p' ≡ none → LockMove i none l (lock_used m p') l
  keep_lem p' l h = rw h keep

  unlock-LockMove :
      (u : Option ℕ) (p' : Place W F) (l : ℕ → Lock) (r : Outcome AnyError (Unit {0}))
      → lock_used m p' ≡ none
      → LockMove i u l (lock_used m p') (unlock u r l)
  unlock-LockMove none p' l r h = keep_lem p' l h
  unlock-LockMove (some k) p' l (ok _) h = rw h (drop (λ j. ground arith))
  unlock-LockMove (some k) p' l (err _) h = rw h (drop (λ j. ground arith))
  unlock-LockMove (some k) p' l panic h = rw h (drop (λ j. ground arith))

  lock-Allowed :
      (o : Option ℕ) (next : Place W F) (l : ℕ → Lock) (w : W)
      → lock_used m next ≡ o
      → Allowed none l (lock i o next l w)
  lock-Allowed none next l w h = keep_lem next l h
  lock-Allowed (some k) next l w h = lock_at (l k) refl
    where
      lock_at : (x : Lock) → l k ≡ x → Allowed none l (lock i (some k) next l w)
      lock_at free e = rw (Allowed, e) (rw h (take e))
      lock_at (held j) e = rw (Allowed, e) tt
      lock_at poisoned e = rw (Allowed, e) keep

  turn-Allowed : (p : Place W F) (l : ℕ → Lock) (w : W) → Allowed (lock_used m p) l (turn m i p l w)
  unfolding turn
  turn-Allowed (entering page) l w = keep_lem _ l (after_ioctl-unlocked _ _)
  turn-Allowed (exited page) l w = keep_lem _ l (look-unlocked _ page)
  turn-Allowed (found page io d) l w = lock-Allowed (lock_of io d) (inside page io d) l w refl
  turn-Allowed (inside page io d) l w = unlock-LockMove (lock_of io d) _ l _ (settle-unlocked _ _)
  turn-Allowed reading l w = keep_lem _ l (got_line-unlocked (m.read_line w).0)
  turn-Allowed (has_line bytes) l w = lock-Allowed (some m.console) (feeding bytes) l w refl
  turn-Allowed (feeding bytes) l w = unlock-LockMove (some m.console) _ l _ (fed-unlocked _)
  turn-Allowed panicked l w = tt

module _ {W F : Type 0} (m : Started W F) where
  abbrev pub LocksAreUsed : ℕ → System W F → Type 0
  LocksAreUsed n s = Inv n (λ i. lock_used m (s.place i)) s.locks

  Step-LocksAreUsed :
      {n : ℕ} {s t : System W F} → Step m n s t → LocksAreUsed (suc n) s → LocksAreUsed (suc n) t
  Step-LocksAreUsed {n} {s} (pick i {p} {l} {w} lt e) inv =
      let allowed : LockMove i (lock_used m (s.place i)) s.locks (lock_used m p) l =
        subst (Allowed m i (lock_used m (s.place i)) s.locks) e
          (turn-Allowed m i (s.place i) s.locks s.world) in
      subst (λ used. Inv (suc n) used l) (sym (apply-update (lock_used m) s.place i p))
        (LockMove-Inv {used = λ j. lock_used m (s.place j)} lt refl allowed inv)

  pub Reach-LocksAreUsed :
      (n : ℕ) (pages : ℕ → VcpuRun) (w : W) {s : System W F}
      → Reach m n (init n pages w) s
      → LocksAreUsed (suc n) s
  Reach-LocksAreUsed n pages w start = record {
    own = λ i k h. elim (Bool-cases (i == n)) [
      | inl e ↦ let h' = rw e at h in ground arith
      | inr e ↦ let h' = rw e at h in ground arith
    ];
    holder = λ k j h. ground arith;
  }
  Reach-LocksAreUsed n pages w (later r step) =
      Step-LocksAreUsed step (Reach-LocksAreUsed n pages w r)

  -- Whatever the threads of a started machine have done, no two of them are behind the lock of the
  -- same device.
  pub mutual_exclusion :
      (n : ℕ) (pages : ℕ → VcpuRun) (w : W) (s : System W F)
      → Reach m n (init n pages w) s
      → (i j k : ℕ) → lock_used m (s.place i) ≡ some k
      → lock_used m (s.place j) ≡ some k
      → i ≡ j
  mutual_exclusion n pages w s r i j k at_i at_j =
      let inv = Reach-LocksAreUsed n pages w r in
      let by_i = inv.own i k at_i in let by_j = inv.own j k at_j in ground arith
