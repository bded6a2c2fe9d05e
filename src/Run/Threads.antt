-- ===== src/Run/Threads.antt =====
-- src/main.rs, vmm/src/vcpu.rs, vmm/src/bus.rs and src/serial.rs: the threads of a machine that has
-- been started, a step of one thread at a time, in any order. They share the state `W` and the locks of
-- the devices. The map of the bus is not changed any more, and its lock is held only while it is
-- searched. A device that stands behind a lock is known by the address at which its range begins.
pub mod Join
pub mod Locks
pub mod Deadlock
pub mod AtOnce
pub mod Simulation
pub mod Found
pub mod Refines
use gunyah_test_vmm.Base.{
  ℕ, suc, ◌-◌, ◌<◌, ◌≡◌, Bool, ◌&&◌, ◌||◌, leb, ◌==◌, if◌then◌else◌, List, ◌++◌, Option, none, some,
  Outcome, ok, err, panic, length, take, drop, update,
}
use gunyah_test_vmm.Errors.{AnyError}
use gunyah_test_vmm.Effects.{M}
use gunyah_test_vmm.Gunyah.Kernel.{Kernel, VcpuRun}
use gunyah_test_vmm.Gunyah.Functions
use gunyah_test_vmm.Bus.Devices.{Devices, get_device}
use gunyah_test_vmm.Bus.Dispatch.{
  AccessId, BusAccessInfo, BusEntry, outer_sync, inner_sync, forward_read, forward_write,
}
use gunyah_test_vmm.Serial.{SerialPort, feed_stdin}
use gunyah_test_vmm.Vmm.Vcpu.{GunyahVcpu, exit_mmio, resume, resume_fault}

-- What the threads have: the vCPUs by their number, the bus, the registers of the console with the
-- address of its lock, and `read_line` on the standard input.
pub record Started (W F : Type 0) : Type 0 where
  pub kernel : Kernel W
  pub bus : Devices (BusEntry W F)
  pub vcpus : ℕ → GunyahVcpu
  pub serial : SerialPort W
  pub console : ℕ
  pub read_line : M W (List ℕ)

-- a `Mutex`, and which thread holds it
pub data Lock : Type 0 where
  free : Lock
  held : ℕ → Lock
  poisoned : Lock

-- Where a thread stands. The page of a vCPU is its thread's own from an exit to the next `ioctl`, and is
-- kept with the thread.
pub data Place (W F : Type 0) : Type 0 where
  -- at the top of the loop of `GunyahVcpu::run`
  entering : VcpuRun → Place W F
  -- before the `match` on the exit
  exited : VcpuRun → Place W F
  -- before `dev.lock()`, and behind it
  found inside : VcpuRun → BusAccessInfo → BusEntry W F → Place W F
  -- the thread of the standard input: before `read_line`, before the lock of the console, behind it
  reading : Place W F
  has_line feeding : List ℕ → Place W F
  -- a thread that has panicked
  panicked : Place W F

-- An exit that leads to `Bus::read` or `Bus::write`.
abbrev pub accesses : VcpuRun → Bool
accesses page =
    (page.exit_reason == exit_mmio)
    && (((page.is_write == 1) || (page.is_write == 0)) && leb page.len (length page.bytes))

-- the device with which the lock is found, `none` where a device locks for itself
abbrev pub lock_of : {W F : Type 0} → BusAccessInfo → BusEntry W F → Option ℕ
lock_of io (outer_sync _) = some (io.address - io.offset)
lock_of io (inner_sync _) = none

-- A guard that is dropped while its thread panics poisons its lock.
abbrev pub unlock : Option ℕ → Outcome AnyError (Unit {0}) → (ℕ → Lock) → ℕ → Lock
unlock none r locks = locks
unlock (some k) (ok _) locks = update locks k free
unlock (some k) (err _) locks = update locks k free
unlock (some k) panic locks = update locks k poisoned

module _ {W F : Type 0} where
  -- `dev.read(io, data)` or `dev.write(io, data)`, with the data of the page
  abbrev pub call_device :
      VcpuRun → BusAccessInfo → BusEntry W F → W → Outcome AnyError (Unit {0}) × VcpuRun × W
  call_device page io e w =
      if page.is_write == 1
      then (let (r, w') = forward_write e io (take page.len page.bytes) w in (r, page, w'))
      else (let (r, d, w') = forward_read e io (take page.len page.bytes) w in
          (r, record page { bytes = d ++ drop page.len page.bytes }, w'))

  -- the thread behind `?`: an error ends `GunyahVcpu::run`, on which the thread calls `unwrap`
  abbrev pub settle : Outcome AnyError (Unit {0}) → VcpuRun → Place W F
  settle (ok _) page = entering page
  settle (err _) page = panicked
  settle panic page = panicked

  abbrev pub after_ioctl : Outcome AnyError (Unit {0}) → VcpuRun → Place W F
  after_ioctl (ok _) page = exited page
  after_ioctl (err _) page = panicked
  after_ioctl panic page = panicked

  -- `lock().unwrap()` by the thread `i`, which goes to `next`; `none` while another holds the lock
  abbrev pub lock : ℕ → Option ℕ → Place W F → (ℕ → Lock) → W → Option (Place W F × (ℕ → Lock) × W)
  lock i none next locks w = some (next, locks, w)
  lock i (some k) next locks w = elim (locks k) [
    | free ↦ some (next, update locks k (held i), w)
    | held j ↦ none
    | poisoned ↦ some (panicked, locks, w)
  ]

  -- by what the search in the map of the bus has found: without a device the guest gets a fault
  abbrev pub route : AccessId → VcpuRun → Option (ℕ × ℕ × BusEntry W F) → Place W F
  route id page none = entering (record page { resume_action = resume_fault })
  route id page (some (offset, address, e)) =
      found page (record { offset = offset; address = address; id = id }) e

  -- the `match` on the exit up to the lock of the device
  abbrev pub look : AccessId → Devices (BusEntry W F) → VcpuRun → Place W F
  look id bus page =
      if accesses page then route id page (get_device page.phys_addr bus) else panicked

  abbrev pub got_line : Outcome AnyError (List ℕ) → Place W F
  got_line (ok bytes) = if length bytes == 0 then reading else has_line bytes
  got_line (err _) = panicked
  got_line panic = panicked

  abbrev pub fed : Outcome AnyError (Unit {0}) → Place W F
  fed (ok _) = reading
  fed (err _) = panicked
  fed panic = panicked

  -- one step of the thread `i`: where it stands then, the locks and the state; `none` where it waits
  -- for a lock, or has ended
  unfoldable pub turn :
      Started W F → ℕ → Place W F → (ℕ → Lock) → W → Option (Place W F × (ℕ → Lock) × W)
  turn m i (entering page) locks w =
      let vcpu = (m.vcpus i).vcpu in
      let (r, w') = Functions.run m.kernel vcpu (Functions.store m.kernel vcpu page w) in
      some (after_ioctl r (Functions.mmap m.kernel vcpu w'), locks, w')
  turn m i (exited page) locks w = some (look (m.vcpus i).access_id m.bus page, locks, w)
  turn m i (found page io e) locks w = lock i (lock_of io e) (inside page io e) locks w
  turn m i (inside page io e) locks w =
      let (r, page', w') = call_device page io e w in
      let (r', page'', w'') = resume page' r w' in
      some (settle r' page'', unlock (lock_of io e) r locks, w'')
  turn m i reading locks w = let (r, w') = m.read_line w in some (got_line r, locks, w')
  turn m i (has_line bytes) locks w = lock i (some m.console) (feeding bytes) locks w
  turn m i (feeding bytes) locks w =
      let (r, w') = feed_stdin m.serial (ok bytes) w in
      some (fed r, unlock (some m.console) r locks, w')
  turn m i panicked locks w = none

pub record System (W F : Type 0) : Type 0 where
  pub world : W
  pub locks : ℕ → Lock
  pub place : ℕ → Place W F

-- The vCPUs have the threads below `n`, and the thread `n` is the one of the standard input.
abbrev pub init : {W F : Type 0} → ℕ → (ℕ → VcpuRun) → W → System W F
init n pages w = record {
  world = w;
  locks = λ _. free;
  place = λ i. if i == n then reading else entering (pages i);
}

pub data Step {W F : Type 0} (m : Started W F) (n : ℕ) (s : System W F) : System W F → Type 0 where
  pick :
      (i : ℕ) {p : Place W F} {l : ℕ → Lock} {w : W}
      → i < suc n
      → turn m i (s.place i) s.locks s.world ≡ some (p, l, w)
      → Step m n s (record { world = w; locks = l; place = update s.place i p })

pub data Reach {W F : Type 0} (m : Started W F) (n : ℕ) (s0 : System W F)
    : System W F → Type 0 where
  start : Reach m n s0 s0
  later : {s t : System W F} → Reach m n s0 s → Step m n s t → Reach m n s0 t
