-- ===== src/Vmm/Vcpu.antt =====
-- vmm/src/vcpu.rs: a vCPU with its handle of the bus. `W` is the state of everything: of the kernel,
-- which the descriptors reach, and of the devices on the bus. The lock of the vCPU is free, since
-- only its own thread takes it.
pub mod Exits
pub mod Provided
pub mod Loop
use gunyah_test_vmm.Base.{
  ℕ, zero, suc, ltb, ◌==◌, if◌then◌else◌, List, ◌++◌, Outcome, ok, err, panic, length, take, drop,
}
use gunyah_test_vmm.Errors.{AnyError, msg}
use gunyah_test_vmm.Effects.{M, ◌>>=◌, ◌>>◌, pure, continue}
use gunyah_test_vmm.Gunyah.Kernel.{Kernel, VcpuRun}
use gunyah_test_vmm.Gunyah.Vm.{Vm, vm_clone}
use gunyah_test_vmm.Gunyah.Functions
use gunyah_test_vmm.Bus.Devices.{Devices}
use gunyah_test_vmm.Bus.Dispatch.{AccessId, BusEntry, read, write}
use gunyah_test_vmm.Bus.Dispatch

-- `gunyah_vcpu_exit`
abbrev pub exit_unknown : ℕ
exit_unknown = 0

abbrev pub exit_mmio : ℕ
exit_mmio = 1

abbrev pub exit_status : ℕ
exit_status = 2

abbrev pub exit_page_fault : ℕ
exit_page_fault = 3

-- `gunyah_vcpu_resume_action`
abbrev pub resume_handled : ℕ
resume_handled = 0

abbrev pub resume_fault : ℕ
resume_fault = 1

-- the `resume_action` that `run` stores for what the bus returned, and what `run` goes on with
abbrev pub resume :
    {W : Type 0}
    → VcpuRun
    → Outcome AnyError (Unit {0})
    → W
    → Outcome AnyError (Unit {0}) × VcpuRun × W
resume page (ok _) w = (ok tt, record page { resume_action = resume_handled }, w)
resume page (err _) w = (ok tt, record page { resume_action = resume_fault }, w)
resume page panic w = (panic, page, w)

module _ {W F : Type 0} where
  -- the arm for `GUNYAH_VCPU_EXIT_MMIO`, by the vCPU's handle of the bus: what is returned, the page
  -- as it is left, and the state. The slice of the eight bytes panics where `len` is too large.
  unfoldable pub handle_mmio :
      AccessId → Devices (BusEntry W F) → VcpuRun → W → Outcome AnyError (Unit {0}) × VcpuRun × W
  handle_mmio id bus reason w =
      if reason.is_write == 1
      then (if ltb (length reason.bytes) reason.len
          then (panic, reason, w)
          else let (handled, w') = write id reason.phys_addr (take reason.len reason.bytes) bus w in
            resume reason handled w')
      else if reason.is_write == 0
      then (if ltb (length reason.bytes) reason.len
          then (panic, reason, w)
          else let (handled, data', w') =
              read id reason.phys_addr (take reason.len reason.bytes) bus w in
            resume (record reason { bytes = data' ++ drop reason.len reason.bytes }) handled w')
      else (panic, reason, w)

  -- the `match` of `GunyahVcpu::run`
  unfoldable pub handle_exit :
      AccessId → Devices (BusEntry W F) → VcpuRun → W → Outcome AnyError (Unit {0}) × VcpuRun × W
  handle_exit id bus page w =
      if page.exit_reason == exit_unknown
      then (err (msg "Unexpected exit for unknown reason"), page, w)
      else if page.exit_reason == exit_mmio
      then handle_mmio id bus page w
      else if page.exit_reason == exit_status
      then (panic, page, w)
      else if page.exit_reason == exit_page_fault
      then (err (msg "Unexpected page fault at {:x}"), page, w)
      else (err (msg "Unknown exit reason: {}"), page, w)

pub record GunyahVcpu : Type 0 where
  pub access_id : AccessId
  pub vcpu : Functions.Vcpu

-- the checks of `vmmio_provide_read`, in order
unfoldable pub check_provided : ℕ → List ℕ → VcpuRun → Outcome AnyError (Unit {0})
check_provided phys_addr data' reason =
    if reason.exit_reason == exit_mmio
    then (if reason.is_write == 0
        then (if reason.phys_addr == phys_addr
            then (if reason.len == length data'
                then ok tt
                else err (msg "vCPU length didn't match"))
            else err (msg "vCPU didn't exit for mmio read at {}"))
        else err (msg "vCPU didn't exit for mmio read"))
    else err (msg "vCPU didn't exit for mmio")

-- `reason.data.copy_from_slice(data)` panics unless the lengths agree.
abbrev copy_from_slice : List ℕ → VcpuRun → Outcome AnyError VcpuRun
copy_from_slice data' reason =
    if length data' == length reason.bytes
    then ok (record reason { bytes = data'; resume_action = resume_handled })
    else panic

-- what `vmmio_provide_read` makes of the page
unfoldable pub provide_read : ℕ → List ℕ → VcpuRun → Outcome AnyError VcpuRun
provide_read phys_addr data' reason = elim (check_provided phys_addr data' reason) [
  | ok _ ↦ copy_from_slice data' reason
  | err e ↦ err e
  | panic ↦ panic
]

module _ {W : Type 0} (kernel : Kernel W) where
  -- `GunyahVcpu::new`
  unfoldable pub vcpu_new : Vm → ℕ → M W GunyahVcpu
  vcpu_new vm id = do
    own ← vm_clone kernel vm
    vcpu ← Functions.vcpu_new kernel own id
    pure (record { access_id = Dispatch.vcpu id; vcpu = vcpu })

  -- `GunyahVcpu::run_once`
  unfoldable pub run_once : GunyahVcpu → M W VcpuRun
  run_once self = Functions.run kernel self.vcpu >> λ w. (ok (Functions.mmap kernel self.vcpu w), w)

  -- `GunyahVcpu::vmmio_provide_read`
  unfoldable pub vmmio_provide_read : GunyahVcpu → ℕ → List ℕ → M W (Unit {0})
  vmmio_provide_read self phys_addr data' w =
      elim (provide_read phys_addr data' (Functions.mmap kernel self.vcpu w)) [
        | ok page ↦ (ok tt, Functions.store kernel self.vcpu page w)
        | err e ↦ (err e, w)
        | panic ↦ (panic, w)
      ]

module _ {W F : Type 0} (kernel : Kernel W) where
  -- the handling of an exit in place
  unfoldable pub handle_in_place : GunyahVcpu → Devices (BusEntry W F) → M W (Unit {0})
  handle_in_place self bus w =
      let (done, page, w') = handle_exit self.access_id bus (Functions.mmap kernel self.vcpu w) w in
      (done, Functions.store kernel self.vcpu page w')

  -- one round of the loop of `GunyahVcpu::run`
  unfoldable pub run_round : GunyahVcpu → Devices (BusEntry W F) → M W (Unit {0})
  run_round self bus = Functions.run kernel self.vcpu >> handle_in_place self bus

  -- the loop: the number of rounds bounds how long it is watched, and `ok` is a loop that goes on
  unfoldable pub run_rounds : ℕ → GunyahVcpu → Devices (BusEntry W F) → M W (Unit {0})
  run_rounds zero self bus = pure tt
  run_rounds (suc n) self bus = run_round self bus >> run_rounds n self bus
