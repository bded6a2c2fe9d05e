-- ===== src/Run/Boot/Running.antt =====
-- src/main.rs: machines that `execute` has started.
use gunyah_test_vmm.Base.{ℕ, ◌≡◌, [], ok, Profile, length, arith, ap}
use gunyah_test_vmm.Effects.{in_context}
use gunyah_test_vmm.Effects.Returns.{>>=-ok, >>-ok}
use gunyah_test_vmm.Vmm.Machine.{GunyahVirtualMachine, start}
use gunyah_test_vmm.Vmm.Machine.Holds.{Holds, on_world-Holds, in_context-Holds}
use gunyah_test_vmm.Run.Args.{RunCommand}
use gunyah_test_vmm.Run.Boot.{Host, spawn_vcpus, set_up, check_args, execute}
use gunyah_test_vmm.Run.Boot.Kept.{set_up-Holds, check_args-Holds, spawn_vcpus-Holds, Holds-after}
use gunyah_test_vmm.Run.Boot.Vcpus.{create_vcpus-length, create_vcpus-made, spawn_vcpus-made}

module _ {W F : Type 0} (host : Host W F) (p : Profile) where
  -- that the machine has `n` vCPUs
  abbrev HasVcpus : ℕ → GunyahVirtualMachine W F → Type 0
  HasVcpus n self = length self.vcpus ≡ n

  set_up-HasVcpus : (n : ℕ) (args : RunCommand) → Holds (HasVcpus n) (set_up host p args)
  set_up-HasVcpus n args =
      set_up-Holds (HasVcpus n) (λ _. Unit {0}) (λ self e base len _ q. q) (λ self l q. q) host p
        args (λ d. tt) (λ r _. tt)

  -- If `execute` gets to where it waits for the threads of the vCPUs, from a machine without vCPUs,
  -- the machine has as many vCPUs as the command line asks for: none was left out, although the
  -- failure to make one is not looked at before the machine is started.
  pub execute-vcpus :
      (args : RunCommand) (s s' : GunyahVirtualMachine W F × W)
      → s.0.vcpus ≡ []
      → execute host p args s ≡ (ok tt, s')
      → length s'.0.vcpus ≡ args.vcpus
  unfolding execute start
  execute-vcpus args s s' none e =
      let (_, s0, checked, e0) = >>-ok _ _ s s' tt e in
      let (vcpus, s1, created, e1) = >>=-ok _ _ s0 s' tt e0 in
      let (_, s2, ready, e2) = >>-ok _ _ s1 s' tt e1 in
      let (_, s3, started, e3) = >>-ok _ _ s2 s' tt e2 in
      let count = create_vcpus-made host args.vcpus 0 [] vcpus s0 s1 created in
      let len = create_vcpus-length host args.vcpus 0 [] vcpus s0 s1 created in
      let all = spawn_vcpus-made host args.vcpus vcpus s3 s' e3 (omega arith) in
      let HasAll = HasVcpus args.vcpus in
      let at0 : length s0.0.vcpus ≡ 0 =
        Holds-after (HasVcpus 0) (check_args host p args) s s0 tt
          (check_args-Holds (HasVcpus 0) host p args) checked (ap length none) in
      let at1 : length s1.0.vcpus ≡ args.vcpus = omega arith in
      let at2 =
        Holds-after HasAll (set_up host p args) s1 s2 tt (set_up-HasVcpus args.vcpus args) ready
          at1 in
      let at3 =
        Holds-after HasAll (in_context "Failed to start the VM" (start host.kernel)) s2 s3 tt
          (in_context-Holds HasAll "Failed to start the VM" (start host.kernel)
            (on_world-Holds HasAll _))
          started at2 in
      Holds-after HasAll (spawn_vcpus host args.vcpus vcpus) s3 s' tt
        (spawn_vcpus-Holds HasAll host p args.vcpus vcpus) e3 at3
