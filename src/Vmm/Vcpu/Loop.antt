-- ===== src/Vmm/Vcpu/Loop.antt =====
-- vmm/src/vcpu.rs: the loop of `GunyahVcpu::run`, round after round.
use gunyah_test_vmm.Base.{
  ℕ, zero, suc, ◌≤◌, ◌≡◌, ◌≢◌, refl, ◌∙◌, List, Outcome, ok, err, panic, take, arith,
}
use gunyah_test_vmm.Errors.{AnyError}
use gunyah_test_vmm.Effects.{◌>>=◌, ◌>>◌, pure}
use gunyah_test_vmm.Gunyah.Kernel.{Kernel, VcpuRun, vcpu_run}
use gunyah_test_vmm.Gunyah.Functions
use gunyah_test_vmm.Bus.Devices.{Devices}
use gunyah_test_vmm.Bus.Dispatch.{BusEntry, read, write}
use gunyah_test_vmm.Vmm.Vcpu.{
  GunyahVcpu, handle_exit, resume, handle_in_place, run_round, run_rounds,
}
use gunyah_test_vmm.Vmm.Vcpu.Exits.{IsAccess, handle_exit-reads, handle_exit-writes}

-- A set of states in which the kernel runs the vCPU until the guest reads or writes at most the
-- bytes of the page, and in which the devices answer without a panic, and which these calls do not
-- leave.
pub record GoesOn {W F : Type 0} (kernel : Kernel W) (self : GunyahVcpu)
    (bus : Devices (BusEntry W F)) (Good : W → Type 0) : Type 0 where
  pub runs :
      (w : W)
      → Good w
      → (n : ℕ) × (w1 : W) × (kernel.ioctl self.vcpu.vcpu vcpu_run w ≡ (ok n, w1))
        × Good w1
        × ((direction : ℕ) × (direction ≤ 1)
            × IsAccess direction (Functions.mmap kernel self.vcpu w1))
  pub reads :
      (w : W) (addr : ℕ) (d : List ℕ)
      → Good w
      → ((read self.access_id addr d bus w).0 ≢ panic) × Good (read self.access_id addr d bus w).2
  pub writes :
      (w : W) (addr : ℕ) (d : List ℕ)
      → Good w
      → ((write self.access_id addr d bus w).0 ≢ panic) × Good (write self.access_id addr d bus w).1
  pub stores : (w : W) (page : VcpuRun) → Good w → Good (Functions.store kernel self.vcpu page w)

module _ {W : Type 0} where
  resume-ok :
      (page : VcpuRun) (r : Outcome AnyError (Unit {0})) (w : W)
      → r ≢ panic
      → (page' : VcpuRun) × (resume page r w ≡ (ok tt, page', w))
  resume-ok page (ok _) w h = (_, refl)
  resume-ok page (err e) w h = (_, refl)
  resume-ok page panic w h = absurd (h refl)

module _ {W F : Type 0} (kernel : Kernel W) (self : GunyahVcpu) (bus : Devices (BusEntry W F))
    (Good : W → Type 0) (goes_on : GoesOn kernel self bus Good) where
  handle_exit-Good :
      (page : VcpuRun) (w : W) (direction : ℕ)
      → Good w
      → direction ≤ 1
      → IsAccess direction page
      → (page' : VcpuRun) × (w' : W) × (handle_exit self.access_id bus page w ≡ (ok tt, page', w'))
        × Good w'
  handle_exit-Good page w zero good small access =
      let d = take page.len page.bytes in
      let (calm, good') = goes_on.reads w page.phys_addr d good in
      let (page', e) = resume-ok _ _ (read self.access_id page.phys_addr d bus w).2 calm in
      (page', _, handle_exit-reads self.access_id bus page w access ∙ e, good')
  handle_exit-Good page w (suc zero) good small access =
      let d = take page.len page.bytes in
      let (calm, good') = goes_on.writes w page.phys_addr d good in
      let (page', e) = resume-ok page _ (write self.access_id page.phys_addr d bus w).1 calm in
      (page', _, handle_exit-writes self.access_id bus page w access ∙ e, good')
  handle_exit-Good page w (suc (suc n)) good small access = absurd (omega arith)

  run_round-Good :
      (w : W) → Good w → (w' : W) × (run_round kernel self bus w ≡ (ok tt, w')) × Good w'
  unfolding run_round Functions.run handle_in_place ◌>>◌ ◌>>=◌ pure
  run_round-Good w good =
      let (n, w1, e, good1, (direction, small, access)) = goes_on.runs w good in
      let page = Functions.mmap kernel self.vcpu w1 in
      let (page', w2, e2, good2) = handle_exit-Good page w1 direction good1 small access in
      (Functions.store kernel self.vcpu page' w2, rw (e, e2) refl, goes_on.stores w2 page' good2)

  -- A vCPU that only exits for reads and writes, of at most the bytes of the page, on devices that do
  -- not panic, never leaves its loop, whether the devices serve the accesses or refuse them: it
  -- begins every round.
  pub run_rounds-Good :
      (n : ℕ) (w : W) → Good w → (w' : W) × (run_rounds kernel n self bus w ≡ (ok tt, w')) × Good w'
  unfolding run_rounds ◌>>◌ pure
  run_rounds-Good zero w good = (w, refl, good)
  run_rounds-Good (suc n) w good =
      let (w1, e, good1) = run_round-Good w good in
      let (w2, e2, good2) = run_rounds-Good n w1 good1 in (w2, rw e e2, good2)
