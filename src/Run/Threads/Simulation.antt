-- ===== src/Run/Threads/Simulation.antt =====
-- src/main.rs and vmm/src/vcpu.rs: each step of a thread against the machine that handles every exit
-- at once.
use gunyah_test_vmm.Base.{
  ℕ, ◌≡◌, ◌⊎◌, refl, sym, ◌∙◌, ap, inl, inr, Bool, true, false, List, Option, none, some, Outcome,
  ok, err, panic, ◌==◌, Bool-cases, length, update, update_same, apply-update,
}
use gunyah_test_vmm.Errors.{AnyError}
use gunyah_test_vmm.Gunyah.Kernel.{VcpuRun}
use gunyah_test_vmm.Bus.Devices.{get_device}
use gunyah_test_vmm.Bus.Dispatch.{BusAccessInfo, BusEntry, outer_sync, inner_sync}
use gunyah_test_vmm.Vmm.Vcpu.{handle_exit, resume}
use gunyah_test_vmm.Run.Threads.{
  Started, Lock, free, held, poisoned, Place, entering, exited, found, inside, reading, has_line,
  feeding, panicked, lock_of, unlock, lock, accesses, call_device, look, settle, after_ioctl,
  got_line, fed, turn,
}
use gunyah_test_vmm.Run.Threads.Locks.{lock_used}
use gunyah_test_vmm.Run.Threads.AtOnce.{
  target, break, is_broken, turn_at_once, place_at_once, is_poisoned,
}
use gunyah_test_vmm.Run.Threads.Found.{
  handle_exit-call, handle_exit-nobody, handle_exit-refused, Found, Sound,
}

-- which devices are broken
abbrev pub broken_of : (ℕ → Lock) → ℕ → Bool
broken_of l k = is_poisoned (l k)

broken_of-update :
    (l : ℕ → Lock) (k : ℕ) (x : Lock)
    → broken_of (update l k x) ≡ update (broken_of l) k (is_poisoned x)
broken_of-update l k x = apply-update is_poisoned l k x

broken_of-same :
    (l : ℕ → Lock) (k : ℕ) (x : Lock)
    → is_poisoned (l k) ≡ is_poisoned x
    → broken_of (update l k x) ≡ broken_of l
broken_of-same l k x h =
    broken_of-update l k x ∙ (ap (update (broken_of l) k) (sym h) ∙ update_same (broken_of l) k)

broken_of-unlock :
    (o : Option ℕ) (r : Outcome AnyError (Unit {0})) (l : ℕ → Lock)
    → is_broken o (broken_of l) ≡ false
    → broken_of (unlock o r l) ≡ break o r (broken_of l)
broken_of-unlock none (ok _) l h = refl
broken_of-unlock none (err _) l h = refl
broken_of-unlock none panic l h = refl
broken_of-unlock (some k) (ok _) l h = broken_of-same l k free h
broken_of-unlock (some k) (err _) l h = broken_of-same l k free h
broken_of-unlock (some k) panic l h = broken_of-update l k poisoned

module _ {W F : Type 0} (m : Started W F) (i : ℕ) where
  -- A step of the thread changes nothing of what its state stands for, or it is the step of the thread
  -- by which its exit or its line is handled at once.
  abbrev pub Simulates : Place W F → (ℕ → Lock) → W → Option (Place W F × (ℕ → Lock) × W) → Type 0
  Simulates p l w none = Unit {0}
  Simulates p l w (some (p', l', w')) =
      ((place_at_once p' ≡ place_at_once p) × (broken_of l' ≡ broken_of l) × (w' ≡ w))
      ⊎ (turn_at_once m i (place_at_once p) (broken_of l) w
          ≡ some (place_at_once p', broken_of l', w'))

  target-lock_of :
      (page : VcpuRun) (io : BusAccessInfo) (e : BusEntry W F)
      → Found m i page io e
      → target m page ≡ lock_of io e
  target-lock_of page io (outer_sync d) (access, there, id) = rw (access, there) refl
  target-lock_of page io (inner_sync d) (access, there, id) = rw (access, there) refl

  same_result :
      {p p' : Place W F} {b b' : ℕ → Bool} {w w' : W}
      → p ≡ p'
      → b ≡ b'
      → w ≡ w'
      → ◌≡◌ {A = Option (Place W F × (ℕ → Bool) × W)} (some (p, b, w)) (some (p', b', w'))
  same_result p b w = cc

  at_once-after_ioctl :
      (r : Outcome AnyError (Unit {0})) (page : VcpuRun)
      → after_ioctl {W = W} {F = F} r page ≡ place_at_once (after_ioctl r page)
  at_once-after_ioctl (ok _) page = refl
  at_once-after_ioctl (err _) page = refl
  at_once-after_ioctl panic page = refl

  at_once-settle :
      (r : Outcome AnyError (Unit {0})) (page : VcpuRun)
      → settle {W = W} {F = F} r page ≡ place_at_once (settle r page)
  at_once-settle (ok _) page = refl
  at_once-settle (err _) page = refl
  at_once-settle panic page = refl

  at_once-got_line :
      (r : Outcome AnyError (List ℕ)) → got_line {W = W} {F = F} r ≡ place_at_once (got_line r)
  at_once-got_line (ok bytes) = elim (Bool-cases (length bytes == 0)) [
    | inl e ↦ rw e refl
    | inr e ↦ rw e refl
  ]
  at_once-got_line (err _) = refl
  at_once-got_line panic = refl

  at_once-fed : (r : Outcome AnyError (Unit {0})) → fed {W = W} {F = F} r ≡ place_at_once (fed r)
  at_once-fed (ok _) = refl
  at_once-fed (err _) = refl
  at_once-fed panic = refl

  break-resume :
      (o : Option ℕ) (page : VcpuRun) (r : Outcome AnyError (Unit {0})) (w : W) (b : ℕ → Bool)
      → break o (resume page r w).0 b ≡ break o r b
  break-resume none page r w b = refl
  break-resume (some k) page (ok _) w b = refl
  break-resume (some k) page (err _) w b = refl
  break-resume (some k) page panic w b = refl

  unbroken :
      (o : Option ℕ) (l : ℕ → Lock)
      → ((k : ℕ) → o ≡ some k → l k ≡ held i)
      → is_broken o (broken_of l) ≡ false
  unbroken none l own = refl
  unbroken (some k) l own = ap is_poisoned (own k refl)

  lock-Simulates :
      (o : Option ℕ) (p next : Place W F) (l : ℕ → Lock) (w : W)
      → place_at_once next ≡ place_at_once p
      → (is_broken o (broken_of l) ≡ true
          → turn_at_once m i (place_at_once p) (broken_of l) w ≡ some (panicked, broken_of l, w))
      → Simulates p l w (lock i o next l w)
  lock-Simulates none p next l w same fails = inl (same, refl, refl)
  lock-Simulates (some k) p next l w same fails = at_lock (l k) refl
    where
      at_lock : (x : Lock) → l k ≡ x → Simulates p l w (lock i (some k) next l w)
      at_lock free e =
          rw (Simulates, e) (inl (same, broken_of-same l k (held i) (ap is_poisoned e), refl))
      at_lock (held j) e = rw (Simulates, e) tt
      at_lock poisoned e = rw (Simulates, e) (inr (fails (ap is_poisoned e)))

  exited-Simulates :
      (page : VcpuRun) (l : ℕ → Lock) (w : W)
      → Simulates (exited page) l w (some (look (m.vcpus i).access_id m.bus page, l, w))
  exited-Simulates page l w = elim (Bool-cases (accesses page)) [
    | inl e ↦ routed e (get_device page.phys_addr m.bus) refl
    | inr e ↦
        let (r, eq, ends) = handle_exit-refused (m.vcpus i).access_id m.bus page w e in
        inr (rw (e, eq) (same_result ends refl refl))
  ]
    where
      routed :
          accesses page ≡ true
          → (hit : Option (ℕ × ℕ × BusEntry W F)) → get_device page.phys_addr m.bus ≡ hit
          → Simulates (exited page) l w (some (look (m.vcpus i).access_id m.bus page, l, w))
      routed e none there =
          inr (rw (e, there, handle_exit-nobody (m.vcpus i).access_id m.bus page w e there) refl)
      routed e (some (offset, address, d)) there = inl (rw (e, there) refl, refl, refl)

  broken-panics :
      (page : VcpuRun) (b : ℕ → Bool) (w : W)
      → is_broken (target m page) b ≡ true
      → turn_at_once m i (exited page) b w ≡ some (panicked, b, w)
  broken-panics page b w e = rw e refl

  inside-Simulates :
      (page : VcpuRun) (io : BusAccessInfo) (e : BusEntry W F) (l : ℕ → Lock) (w : W)
      → Found m i page io e
      → ((k : ℕ) → lock_of io e ≡ some k → l k ≡ held i)
      → (let (r, page', w') = call_device page io e w in
          let (r', page'', w'') = resume page' r w' in
          turn_at_once m i (exited page) (broken_of l) w
          ≡ some (place_at_once (settle r' page''), broken_of (unlock (lock_of io e) r l), w''))
  inside-Simulates page io e l w (access, there, id) own =
      let exit =
        ap (λ id. handle_exit id m.bus page w) (sym id)
        ∙ handle_exit-call io.id m.bus page w io.offset io.address e access there in
      let whole = unbroken (lock_of io e) l own in
      let r = (call_device page io e w).0 in
      rw (target-lock_of page io e (access, there, id), whole, exit)
        (same_result (at_once-settle _ _)
          (break-resume (lock_of io e) _ r _ (broken_of l)
            ∙ sym (broken_of-unlock (lock_of io e) r l whole))
          refl)

  pub turn-Simulates :
      (p : Place W F) (l : ℕ → Lock) (w : W)
      → Sound m i p
      → ((k : ℕ) → lock_used m p ≡ some k → l k ≡ held i)
      → Simulates p l w (turn m i p l w)
  unfolding turn
  turn-Simulates (entering page) l w h own = inr (same_result (at_once-after_ioctl _ _) refl refl)
  turn-Simulates (exited page) l w h own = exited-Simulates page l w
  turn-Simulates (found page io d) l w h own =
      lock-Simulates (lock_of io d) (found page io d) (inside page io d) l w refl
        λ e. broken-panics page (broken_of l) w (rw (target-lock_of page io d h) e)
  turn-Simulates (inside page io d) l w h own = inr (inside-Simulates page io d l w h own)
  turn-Simulates reading l w h own =
      inr (same_result (at_once-got_line (m.read_line w).0) refl refl)
  turn-Simulates (has_line bytes) l w h own =
      lock-Simulates (some m.console) (has_line bytes) (feeding bytes) l w refl λ e. rw e refl
  turn-Simulates (feeding bytes) l w h own = inr (
      rw (unbroken (some m.console) l own) (
        same_result (at_once-fed _)
          (sym (broken_of-unlock (some m.console) _ l (unbroken (some m.console) l own))) refl))
  turn-Simulates panicked l w h own = tt
