-- ===== src/Run/Threads/Refines.antt =====
-- src/main.rs and vmm/src/vcpu.rs: the threads of a machine against the machine that handles every
-- exit at once.
use gunyah_test_vmm.Base.{
  ℕ, ◌≡◌, ◌⊎◌, sym, ◌∙◌, ap, inl, inr, Bool, some, ==→eq, ◌==◌, Bool-cases, update, update_same,
  apply-update,
}
use mathlib.Core.Path.{subst}
use gunyah_test_vmm.Gunyah.Kernel.{VcpuRun}
use gunyah_test_vmm.Run.Threads.{
  Started, held, Place, System, init, Step, pick, Reach, start, later,
}
use gunyah_test_vmm.Run.Threads.Locks.{lock_used, Reach-LocksAreUsed}
use gunyah_test_vmm.Run.Threads.AtOnce.{
  AtOnce, StepAtOnce, pick_at_once, ReachAtOnce, start_at_once, later_at_once, place_at_once,
  at_once,
}
use gunyah_test_vmm.Run.Threads.Found.{Sound, SoundAfter, turn-Sound}
use gunyah_test_vmm.Run.Threads.Simulation.{broken_of, Simulates, turn-Simulates}

module _ {W F : Type 0} (m : Started W F) (n : ℕ) where
  abbrev IsSound : System W F → Type 0
  IsSound s = (i : ℕ) → Sound m i (s.place i)

  Step-IsSound : {s t : System W F} → Step m n s t → IsSound s → IsSound t
  Step-IsSound {s} (pick i {p} {l} {w} lt e) sound j = elim (Bool-cases (i == j)) [
    | inl same ↦
        let moved : Sound m i p =
          subst (SoundAfter m i) e (turn-Sound m i (s.place i) s.locks s.world (sound i)) in
        rw (Sound, same) (subst (λ k. Sound m k p) (==→eq i j same) moved)
    | inr other ↦ rw (Sound, other) (sound j)
  ]

  AtOnce-eq :
      {w w' : W} {b b' : ℕ → Bool} {f f' : ℕ → Place W F}
      → w ≡ w'
      → b ≡ b'
      → f ≡ f'
      → ◌≡◌ {A = AtOnce W F}
          (record { world = w; broken = b; place = f })
          (record { world = w'; broken = b'; place = f' })
  AtOnce-eq w b f = cc

  Step-at_once :
      {s t : System W F}
      → Step m n s t
      → IsSound s
      → ((i k : ℕ) → lock_used m (s.place i) ≡ some k → s.locks k ≡ held i)
      → (at_once s ≡ at_once t) ⊎ StepAtOnce m n (at_once s) (at_once t)
  Step-at_once {s} (pick i {p} {l} {w} lt e) sound own =
      let places = apply-update place_at_once s.place i p in
      elim (subst (Simulates m i (s.place i) s.locks s.world) e
        (turn-Simulates m i (s.place i) s.locks s.world (sound i) (own i))) [
          | inl (same, b, w') ↦
              let still =
                ap (update (λ j. place_at_once (s.place j)) i) same
                ∙ update_same (λ j. place_at_once (s.place j)) i in
              inl (sym (AtOnce-eq w' b (places ∙ still)))
          | inr h ↦ inr (
              subst
                (λ f.
                  StepAtOnce m n (at_once s)
                    (record { world = w; broken = broken_of l; place = f }))
                (sym places) (pick_at_once i lt h))
        ]

  Reach-IsSound :
      (pages : ℕ → VcpuRun) (w0 : W) {s : System W F} → Reach m n (init n pages w0) s → IsSound s
  Reach-IsSound pages w0 start =
      λ i. elim (Bool-cases (i == n)) [ inl e ↦ rw (Sound, e) tt | inr e ↦ rw (Sound, e) tt ]
  Reach-IsSound pages w0 (later r step) = Step-IsSound step (Reach-IsSound pages w0 r)

  -- Whatever the threads of a started machine do, in whatever order, and wherever one waits for
  -- another: the state is one that a machine reaches that handles each exit of a vCPU, and each line of
  -- the standard input, at once, in some order. There a thread panics at a device at which another
  -- has panicked before.
  pub Reach-ReachAtOnce :
      (pages : ℕ → VcpuRun) (w0 : W) (s : System W F)
      → Reach m n (init n pages w0) s
      → ReachAtOnce m n (at_once (init n pages w0)) (at_once s)
  Reach-ReachAtOnce pages w0 _ start = start_at_once
  Reach-ReachAtOnce pages w0 _ (later {s} {t} r step) =
      let before = Reach-ReachAtOnce pages w0 s r in
      elim (Step-at_once step (Reach-IsSound pages w0 r) (Reach-LocksAreUsed m n pages w0 r).own) [
        | inl same ↦ subst (ReachAtOnce m n (at_once (init n pages w0))) same before
        | inr h ↦ later_at_once before h
      ]
