-- ===== src/Tests/BootTests.antt =====
-- src/main.rs from the arguments to running vCPUs, on a host that grants what it is asked for.
use gunyah_test_vmm.Base.{
  ℕ, ◌≡◌, refl, Bool, true, false, if◌then◌else◌, ◌==◌, List, [], ◌∷◌, ◌++◌, inl, Outcome, ok, err,
  debug, arith, length,
}
use gunyah_test_vmm.Errors.{AnyError, msg}
use gunyah_test_vmm.Effects.{pure}
use gunyah_test_vmm.Types.Text.{codes}
use gunyah_test_vmm.Types.Guest.{address_fmt}
use gunyah_test_vmm.Fdt.{FdtWriter}
use gunyah_test_vmm.Gunyah.Kernel.{Kernel, Request, vcpu_mmap_size}
use gunyah_test_vmm.Gunyah.Vm
use gunyah_test_vmm.Vmm.Machine.{GunyahVirtualMachine, from_vm, add_memory}
use gunyah_test_vmm.Bus.Dispatch
use gunyah_test_vmm.Vmm.Vcpu.{GunyahVcpu}
use gunyah_test_vmm.Run.Args.{RunCommand, LoadFileArg, load_file_from_str}
use gunyah_test_vmm.Run.Files.{load_file_from_str-address_fmt}
use gunyah_test_vmm.Run.Boot.{Host, create_vcpus, spawn_vcpus, Attempt, set_up, execute, main}
use gunyah_test_vmm.Run.Boot.Shared.{main-shared-never}
use gunyah_test_vmm.Run.Boot.Vcpus.{IsSafe, spawn_vcpus-create_vcpus-IsSafe}
use gunyah_test_vmm.Tests.Kernels.{generous}
use gunyah_test_vmm.Tests.RunTests.{default_args}

abbrev answer : Request → ℕ
answer vcpu_mmap_size = 0x1000
answer other = 0

-- a kernel whose files have 100 MiB
abbrev pub roomy : Kernel (Unit {0})
roomy = record generous {
  ioctl = λ _ request. pure (answer request);
  file_len = λ _. pure 0x640_0000;
}

-- the open nodes, and whether the innermost may get properties
abbrev pub Open : Type 0
Open = List ℕ × Bool

abbrev end_innermost : ℕ → Open → Outcome AnyError (Unit {0}) × Open
end_innermost id ([], b) = (err (msg "no open node"), ([], b))
end_innermost id (top ∷ rest, b) =
    if id == top then (ok tt, (rest, false)) else (err (msg "not innermost"), (top ∷ rest, b))

abbrev finish_closed : Open → Outcome AnyError (List ℕ)
finish_closed ([], b) = ok (0xd0 ∷ 0x0d ∷ 0xfe ∷ 0xed ∷ [])
finish_closed (top ∷ rest, b) = err (msg "open node")

-- a writer that keeps the rules and remembers the open nodes alone
abbrev pub nesting : FdtWriter Open
nesting = record {
  begin_node = λ _ f. (ok (length f.0), (length f.0 ∷ f.0, true));
  end_node = end_innermost;
  property = λ _ _ f. if f.1 then (ok tt, f) else (err (msg "properties come first"), f);
  finish = finish_closed;
}

abbrev pub test_host : Host (Unit {0}) Open
test_host = record {
  kernel = roomy;
  writer = nesting;
  new_writer = ok ([], true);
  is_file = λ _ _. true;
  read_file = λ _. pure (1 ∷ 2 ∷ 3 ∷ []);
  hpage_pmd_size = pure (codes "2097152");
  base_page_size = 4096;
  serial_port = λ i. record {
    port_read = λ _ w. (0x60, w);
    interrupt_evt = i;
    port_write = λ _ _ w. (ok tt, w);
    fifo_capacity = λ _. 64;
    enqueue_raw_bytes = λ _. pure tt;
  };
  spawn = λ _. pure tt;
}

abbrev loaded_file : LoadFileArg
loaded_file = record { file = codes "/boot/blob"; addr = record { value = 0x8200_0000 } }

load_file_from_str-address_fmt_example :
    load_file_from_str (loaded_file.file ++ (b',' ∷ address_fmt loaded_file.addr)) ≡ ok loaded_file
load_file_from_str-address_fmt_example =
    load_file_from_str-address_fmt loaded_file
      (refl, (refl, (refl, (refl, (refl, (refl, (refl, (refl, (refl, (refl, tt))))))))))
      (omega arith)

abbrev shared_args : RunCommand
shared_args = record default_args { protected = false }

main-shared-never_example : ¬ (main test_host debug shared_args tt ≡ (ok tt, tt))
main-shared-never_example = main-shared-never test_host debug shared_args tt tt refl

abbrev pub empty_machine : GunyahVirtualMachine (Unit {0}) Open × Unit {0}
empty_machine = (from_vm (record { fd = 5 }), tt)

abbrev two : RunCommand
two = record default_args { vcpus = 2 }

abbrev test_vcpu : ℕ → Attempt
test_vcpu id = inl (record {
  access_id = Dispatch.vcpu id;
  vcpu = record { vm = record { fd = 5 }; id = id; vcpu = 0 };
})

abbrev two_vcpus : List Attempt
two_vcpus = test_vcpu 1 ∷ test_vcpu 0 ∷ []

abbrev two_made :
    Outcome AnyError (List Attempt) × (GunyahVirtualMachine (Unit {0}) Open × Unit {0})
two_made = create_vcpus test_host 2 0 [] empty_machine

two_are_made : two_made ≡ (ok two_vcpus, two_made.1)
unfolding gunyah_test_vmm.Effects.in_context gunyah_test_vmm.Effects.lift
    gunyah_test_vmm.Effects.or_panic gunyah_test_vmm.Effects.pure gunyah_test_vmm.Effects.◌>>=◌
    gunyah_test_vmm.Effects.◌>>◌ gunyah_test_vmm.Gunyah.Functions.mmap
    gunyah_test_vmm.Gunyah.Functions.vcpu_new gunyah_test_vmm.Gunyah.Vm.add_function
    gunyah_test_vmm.Gunyah.Vm.fn_desc gunyah_test_vmm.Gunyah.Vm.vm_clone
    gunyah_test_vmm.Gunyah.Vm.vm_dup gunyah_test_vmm.Run.Boot.attempt
    gunyah_test_vmm.Run.Boot.create_vcpus gunyah_test_vmm.Vmm.Machine.create_vcpu
    gunyah_test_vmm.Vmm.Machine.on_world gunyah_test_vmm.Vmm.Machine.update
    gunyah_test_vmm.Vmm.Vcpu.vcpu_new
two_are_made = refl

spawn-IsSafe : (v : GunyahVcpu) → IsSafe (test_host.spawn v)
unfolding pure
spawn-IsSafe v k e = ground arith

spawn_vcpus-create_vcpus-IsSafe_example : IsSafe (spawn_vcpus test_host 2 two_vcpus)
spawn_vcpus-create_vcpus-IsSafe_example =
    spawn_vcpus-create_vcpus-IsSafe test_host 2 0 two_vcpus empty_machine two_made.1 spawn-IsSafe
      two_are_made
