-- ===== src/Run/Threads/AtOnce.antt =====
-- src/main.rs and vmm/src/vcpu.rs: the threads of a machine as if every exit, and every line of the
-- standard input, were handled at once. There are no locks, only the devices at which a thread has
-- panicked.
use gunyah_test_vmm.Base.{
  ℕ, suc, ◌<◌, ◌≡◌, Bool, true, false, Option, none, some, Outcome, ok, panic, if◌then◌else◌,
  update,
}
use gunyah_test_vmm.Errors.{AnyError}
use gunyah_test_vmm.Gunyah.Kernel.{VcpuRun}
use gunyah_test_vmm.Gunyah.Functions
use gunyah_test_vmm.Bus.Devices.{get_device}
use gunyah_test_vmm.Serial.{feed_stdin}
use gunyah_test_vmm.Vmm.Vcpu.{handle_exit}
use gunyah_test_vmm.Run.Threads.{
  Started, Lock, free, held, poisoned, Place, entering, exited, found, inside, reading, has_line,
  feeding, panicked, lock_of, accesses, settle, after_ioctl, got_line, fed, System,
}

-- whether a thread has panicked in a call on the device
abbrev pub break : Option ℕ → Outcome AnyError (Unit {0}) → (ℕ → Bool) → ℕ → Bool
break (some k) panic broken = update broken k true
break _ r broken = broken

abbrev pub is_broken : Option ℕ → (ℕ → Bool) → Bool
is_broken none broken = false
is_broken (some k) broken = broken k

module _ {W F : Type 0} where
  -- the device behind a lock that an exit is for
  abbrev pub target : Started W F → VcpuRun → Option ℕ
  target m page =
      if accesses page
      then elim (get_device page.phys_addr m.bus) [
        | none ↦ none
        | some (offset, address, e) ↦
            lock_of (record { offset = offset; address = address; id = (m.vcpus 0).access_id }) e
      ]
      else none

  -- one step of the thread `i`: an `ioctl`, an exit from the `match` to the next `ioctl`, a line that is
  -- read, or a line that is given to the console
  abbrev pub turn_at_once :
      Started W F → ℕ → Place W F → (ℕ → Bool) → W → Option (Place W F × (ℕ → Bool) × W)
  turn_at_once m i (entering page) broken w =
      let vcpu = (m.vcpus i).vcpu in
      let (r, w') = Functions.run m.kernel vcpu (Functions.store m.kernel vcpu page w) in
      some (after_ioctl r (Functions.mmap m.kernel vcpu w'), broken, w')
  turn_at_once m i (exited page) broken w =
      if is_broken (target m page) broken
      then some (panicked, broken, w)
      else (let (r, page', w') = handle_exit (m.vcpus i).access_id m.bus page w in
          some (settle r page', break (target m page) r broken, w'))
  turn_at_once m i reading broken w = let (r, w') = m.read_line w in some (got_line r, broken, w')
  turn_at_once m i (has_line bytes) broken w =
      if broken m.console
      then some (panicked, broken, w)
      else (let (r, w') = feed_stdin m.serial (ok bytes) w in
          some (fed r, break (some m.console) r broken, w'))
  turn_at_once m i _ broken w = none

pub record AtOnce (W F : Type 0) : Type 0 where
  pub world : W
  pub broken : ℕ → Bool
  pub place : ℕ → Place W F

pub data StepAtOnce {W F : Type 0} (m : Started W F) (n : ℕ) (s : AtOnce W F)
    : AtOnce W F → Type 0 where
  pick_at_once :
      (i : ℕ) {p : Place W F} {b : ℕ → Bool} {w : W}
      → i < suc n
      → turn_at_once m i (s.place i) s.broken s.world ≡ some (p, b, w)
      → StepAtOnce m n s (record { world = w; broken = b; place = update s.place i p })

pub data ReachAtOnce {W F : Type 0} (m : Started W F) (n : ℕ) (s0 : AtOnce W F)
    : AtOnce W F → Type 0 where
  start_at_once : ReachAtOnce m n s0 s0
  later_at_once :
      {s t : AtOnce W F} → ReachAtOnce m n s0 s → StepAtOnce m n s t → ReachAtOnce m n s0 t

-- What a state of the threads stands for: whoever is on the way to a device, or in the call, has not
-- begun to handle its exit.
abbrev pub place_at_once : {W F : Type 0} → Place W F → Place W F
place_at_once (found page io e) = exited page
place_at_once (inside page io e) = exited page
place_at_once (feeding bytes) = has_line bytes
place_at_once p = p

abbrev pub is_poisoned : Lock → Bool
is_poisoned free = false
is_poisoned (held _) = false
is_poisoned poisoned = true

abbrev pub at_once : {W F : Type 0} → System W F → AtOnce W F
at_once s = record {
  world = s.world;
  broken = λ k. is_poisoned (s.locks k);
  place = λ i. place_at_once (s.place i);
}
