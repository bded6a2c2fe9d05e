-- ===== src/Tests/ThreadTests.antt =====
-- src/main.rs: two vCPUs that write to the same device, and the thread of the standard input.
use gunyah_test_vmm.Base.{
  ℕ, ◌≡◌, ◌≢◌, ◌⊎◌, ◌<◌, ◌==◌, if◌then◌else◌, refl, [], ◌∷◌, some, ok, arith,
}
use gunyah_test_vmm.Effects.{pure}
use gunyah_test_vmm.Bus.Dispatch.{vcpu}
use gunyah_test_vmm.Vmm.Vcpu.{GunyahVcpu}
use gunyah_test_vmm.Run.Threads.Deadlock.{CanStep, lock_wanted, GivesBack, no_deadlock}
use gunyah_test_vmm.Run.Threads.AtOnce.{ReachAtOnce, at_once}
use gunyah_test_vmm.Run.Threads.Refines.{Reach-ReachAtOnce}
use gunyah_test_vmm.Run.Threads.Join.{join, wait, wait-first}
use gunyah_test_vmm.Run.Threads.{
  Started, Place, entering, held, System, init, pick, Reach, start, later, panicked, turn,
}
use gunyah_test_vmm.Run.Threads.Locks.{mutual_exclusion}
use gunyah_test_vmm.Tests.MachineTests.{access_page, console}
use gunyah_test_vmm.Tests.LoopTests.{writing, sink}

abbrev vcpu_number : ℕ → GunyahVcpu
vcpu_number i = record {
  access_id = vcpu i;
  vcpu = record { vm = record { fd = 5 }; id = i; vcpu = 8 };
}

abbrev two_vcpus : Started (Unit {0}) (Unit {0})
two_vcpus = record {
  kernel = writing;
  bus = sink;
  vcpus = vcpu_number;
  serial = console.serial;
  console = 0x3f800;
  read_line = pure (97 ∷ 10 ∷ []);
}

abbrev fresh : System (Unit {0}) (Unit {0})
fresh = init 2 (λ _. access_page 0) tt

-- vCPU 0 is in the call on the device, and vCPU 1 waits for its lock.
abbrev contended : (s : System (Unit {0}) (Unit {0})) × Reach two_vcpus 2 fresh s
unfolding turn gunyah_test_vmm.Gunyah.Functions.run gunyah_test_vmm.Effects.◌>>=◌ pure
    gunyah_test_vmm.Gunyah.Functions.mmap gunyah_test_vmm.Bus.Devices.get_device
    gunyah_test_vmm.Bus.Devices.first_before
contended = (
  _,
  later
      (later
        (later (later (later start (pick 0 (omega arith) refl)) (pick 0 (omega arith) refl))
          (pick 0 (omega arith) refl))
        (pick 1 (omega arith) refl))
      (pick 1 (omega arith) refl),
)

mutual_exclusion_example : ◌≡◌ {A = ℕ} 0 0
unfolding turn gunyah_test_vmm.Gunyah.Functions.run gunyah_test_vmm.Effects.◌>>=◌ pure
    gunyah_test_vmm.Gunyah.Functions.mmap gunyah_test_vmm.Bus.Devices.get_device
    gunyah_test_vmm.Bus.Devices.first_before
mutual_exclusion_example =
    mutual_exclusion two_vcpus 2 (λ _. access_page 0) tt contended.0 contended.1 0 0 0x3f800 refl
      refl

no_deadlock_example :
    CanStep two_vcpus contended.0 1
    ⊎ ((k j : ℕ) × (lock_wanted two_vcpus (contended.0.place 1) ≡ some k)
        × (contended.0.locks k ≡ held j)
        × (j < 3)
        × GivesBack two_vcpus k j (contended.0.place j) contended.0.locks contended.0.world)
unfolding turn gunyah_test_vmm.Gunyah.Functions.run gunyah_test_vmm.Effects.◌>>=◌ pure
    gunyah_test_vmm.Gunyah.Functions.mmap gunyah_test_vmm.Bus.Devices.get_device
    gunyah_test_vmm.Bus.Devices.first_before
no_deadlock_example =
    no_deadlock two_vcpus 2 (λ _. access_page 0) tt contended.0 contended.1 1 (λ e. ground arith)

Reach-ReachAtOnce_example : ReachAtOnce two_vcpus 2 (at_once fresh) (at_once contended.0)
unfolding turn gunyah_test_vmm.Gunyah.Functions.run gunyah_test_vmm.Effects.◌>>=◌ pure
    gunyah_test_vmm.Gunyah.Functions.mmap gunyah_test_vmm.Bus.Devices.get_device
    gunyah_test_vmm.Bus.Devices.first_before
Reach-ReachAtOnce_example =
    Reach-ReachAtOnce two_vcpus 2 (λ _. access_page 0) tt contended.0 contended.1

abbrev second_panicked : ℕ → Place (Unit {0}) (Unit {0})
second_panicked i = if i == 1 then panicked else entering (access_page 0)

wait-first_example :
    (wait 2 second_panicked ≡ join (second_panicked 0)) × (wait 2 second_panicked ≢ some (ok tt))
wait-first_example = wait-first 2 second_panicked (omega arith)
