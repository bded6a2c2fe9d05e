-- ===== src/Vmm/Machine.antt =====
-- vmm/src/virtual_machine.rs: a virtual machine, its vCPUs, interrupts and bus. `W` is the state of the
-- kernel and of the devices. A machine is passed along and given back also with an error, since its
-- lists and its bus stand behind locks.
pub mod Holds
pub mod Added
pub mod Keeps
pub mod Validity
pub mod Reachable
pub mod Slices
pub mod Files
pub mod Writes
pub mod Given
pub mod Listed
pub mod Extents
pub mod Parts
pub mod Hole
use gunyah_test_vmm.Base.{
  ℕ, ◌==◌, not, ◌&&◌, if◌then◌else◌, Bool, true, false, List, [], ◌∷◌, ◌++◌, Option, Outcome, ok,
  err, panic, Profile, map_err,
}
use gunyah_test_vmm.Errors.{AnyError, BusError, from_bus}
use gunyah_test_vmm.Effects.{M, ◌>>=◌, ◌>>◌, pure, fail, lift, or_panic, in_context}
use gunyah_test_vmm.Gunyah.Kernel.{Kernel}
use gunyah_test_vmm.Gunyah.Device.{gunyah_new, create_default_vm, create_guest_memory}
use gunyah_test_vmm.Gunyah.GuestMem.{GuestMem, GuestMemRegion, mem_clone, region_new}
use gunyah_test_vmm.Gunyah.Vm.{Vm, ShareType, share, lend, GuestMemoryAccess, vm_clone}
use gunyah_test_vmm.Gunyah.Vm
use gunyah_test_vmm.Gunyah.Functions.{Ioeventfd, ioeventfd_new}
use gunyah_test_vmm.Bus.Devices.{Devices, insert, remove, reject_overlaps}
use gunyah_test_vmm.Bus.Dispatch.{
  AccessId, vmm_userspace, BusEntry, BusDevice, outer_sync, inner_sync, read, write,
}
use gunyah_test_vmm.Vmm.Memory.{GunyahGuestMemoryRegion, memory_region_new, drop_region}
use gunyah_test_vmm.Vmm.Memory
use gunyah_test_vmm.Vmm.Memory.Device.{region_device}
use gunyah_test_vmm.Vmm.Vcpu.{GunyahVcpu, vcpu_new}
use gunyah_test_vmm.Vmm.Interrupt.{GunyahInterrupt, new_level, new_edge}

pub record GunyahVirtualMachine (W F : Type 0) : Type 0 where
  pub vm : Vm
  pub vcpus : List GunyahVcpu
  pub bus : Devices (BusEntry W F)
  pub interrupts : List GunyahInterrupt

-- calls on a machine
abbrev pub Op : Type 0 → Type 0 → Type 0 → Type 0
Op W F A = M (GunyahVirtualMachine W F × W) A

-- `impl From<gunyah::Vm>`
abbrev pub from_vm : {W F : Type 0} → Vm → GunyahVirtualMachine W F
from_vm vm = record { vm = vm; vcpus = []; bus = []; interrupts = [] }

module _ {W F : Type 0} where
  -- a call that leaves the machine alone, given what it reads of it
  unfoldable pub on_world : {A : Type 0} → (GunyahVirtualMachine W F → M W A) → Op W F A
  on_world call (self, w) = let (r, w') = call self w in (r, (self, w'))

  -- a change of the machine alone
  unfoldable pub update : (GunyahVirtualMachine W F → GunyahVirtualMachine W F) → Op W F (Unit {0})
  update change (self, w) = (ok tt, (change self, w))

  abbrev pub with_bus :
      GunyahVirtualMachine W F
      → W
      → Outcome BusError (Unit {0}) × Devices (BusEntry W F)
      → Outcome AnyError (Unit {0}) × (GunyahVirtualMachine W F × W)
  with_bus self w (r, bus) = (map_err from_bus r, (record self { bus = bus }, w))

  -- `self.bus.insert(..)?` and `self.bus.remove(..)`
  unfoldable pub bus_insert : BusEntry W F → ℕ → ℕ → Op W F (Unit {0})
  bus_insert entry base len (self, w) = with_bus self w (insert entry base len self.bus)

  unfoldable pub bus_remove : ℕ → ℕ → Op W F (Unit {0})
  bus_remove base len (self, w) = with_bus self w (remove base len self.bus)

  -- `write_slice` and `read_slice`; what is read comes with the state
  unfoldable pub write_slice : ℕ → List ℕ → Op W F (Unit {0})
  write_slice address bytes = on_world (λ self. write vmm_userspace address bytes self.bus)

  unfoldable pub read_slice :
      ℕ
      → List ℕ
      → GunyahVirtualMachine W F × W
      → Outcome AnyError (Unit {0}) × List ℕ × (GunyahVirtualMachine W F × W)
  read_slice address bytes (self, w) =
      let (r, bytes', w') = read vmm_userspace address bytes self.bus w in (r, bytes', (self, w'))

  unfoldable pub add_device : BusDevice W F → ℕ → ℕ → Op W F (Unit {0})
  add_device device base len = bus_insert (outer_sync device) base len

  unfoldable pub add_device_sync : BusDevice W F → ℕ → ℕ → Op W F (Unit {0})
  add_device_sync device base len = bus_insert (inner_sync device) base len

-- whether `Bus::insert` gets past its checks, so that the bus keeps the device
abbrev keeps : Outcome BusError (Unit {0}) → Bool
keeps (ok _) = true
keeps (err _) = false
keeps panic = false

-- `regular_memory` of `add_memory`
abbrev pub is_regular : ShareType → Bool
is_regular share = false
is_regular lend = true

-- `GunyahVirtualMachine::new`
unfoldable pub machine_new : {W F : Type 0} → Kernel W → M W (GunyahVirtualMachine W F)
machine_new kernel = do
  driver ← in_context "Failed to open gunyah" (gunyah_new kernel)
  vm ← in_context "Failed to create vm" (create_default_vm kernel driver)
  pure (from_vm vm)

module _ {W F : Type 0} (kernel : Kernel W) (p : Profile) where
  -- When the bus refuses a region, its last owner drops it, unless the bus has taken it all the same.
  abbrev pub drop_refused :
      GunyahGuestMemoryRegion
      → Bool
      → Outcome AnyError (Unit {0}) × (GunyahVirtualMachine W F × W)
      → Outcome AnyError (Unit {0}) × (GunyahVirtualMachine W F × W)
  drop_refused region kept (ok _, s) = (ok tt, s)
  drop_refused region kept (err e, s) =
      if kept then (err e, s) else (on_world (λ _. drop_region kernel p region) >> fail e) s
  drop_refused region kept (panic, s) = (panic, s)

  unfoldable pub insert_region : GunyahGuestMemoryRegion → Op W F (Unit {0})
  insert_region region (self, w) =
      let size = region.region.size in
      let base = region.guest_address in
      drop_refused region (not (size == 0) && keeps (reject_overlaps base size self.bus))
        (bus_insert (outer_sync (region_device kernel p region)) base size (self, w))

  unfoldable pub add_memory_region :
      GuestMemRegion
      → ℕ
      → ShareType
      → GuestMemoryAccess
      → Bool
      → Bool
      → Op W F GunyahGuestMemoryRegion
  add_memory_region region guest_address share_type guest_access unmap_on_drop regular_memory = do
    mem ← on_world (λ _. mem_clone kernel region.mem)
    guest_region ← in_context "Failed to add guest memory region to vm" (
        on_world (λ self.
          memory_region_new kernel p (record region { mem = mem }) guest_address self.vm share_type
            guest_access unmap_on_drop regular_memory))
    insert_region guest_region
    pure guest_region

  -- `add_memory`, where `regular` is false for shared memory, and `add_regular_memory`
  unfoldable pub add_memory :
      ℕ → ℕ → ShareType → GuestMemoryAccess → Bool → Op W F GunyahGuestMemoryRegion
  add_memory start len share_type guest_access huge_pages = do
    driver ← on_world (λ _. gunyah_new kernel)
    mem ←
        in_context "Failed to create guest memory"
          (on_world (λ _. create_guest_memory kernel driver len huge_pages))
    region ← on_world (λ _. region_new kernel p mem 0 len)
    add_memory_region region start share_type guest_access false (is_regular share_type)

  unfoldable pub add_regular_memory :
      ℕ → ℕ → ShareType → GuestMemoryAccess → Bool → Op W F GunyahGuestMemoryRegion
  add_regular_memory start len share_type guest_access huge_pages = do
    driver ← on_world (λ _. gunyah_new kernel)
    mem ← on_world (λ _. create_guest_memory kernel driver len huge_pages)
    region ← on_world (λ _. region_new kernel p mem 0 len)
    add_memory_region region start share_type guest_access false true

  -- the loop of `punch_hole`
  unfoldable pub insert_parts : List GunyahGuestMemoryRegion → Op W F (Unit {0})
  insert_parts [] = pure tt
  insert_parts (x ∷ xs) =
      or_panic (bus_insert (outer_sync (region_device kernel p x)) x.guest_address x.region.size)
      >> insert_parts xs

  -- `GunyahVirtualMachine::punch_hole`, which gives back the region as it stands behind its lock
  unfoldable pub punch_hole : GunyahGuestMemoryRegion → ℕ → ℕ → Op W F GunyahGuestMemoryRegion
  punch_hole region offset len = do
    (new_regions, region') ← on_world (λ _. Memory.punch_hole kernel p region offset len)
    or_panic (bus_remove region'.guest_address region'.region.size)
    insert_parts new_regions
    pure region'

module _ {W F : Type 0} (kernel : Kernel W) where
  -- `self.vcpus` gets the vCPU only if it is made.
  unfoldable pub create_vcpu : ℕ → Op W F GunyahVcpu
  create_vcpu id = do
    vcpu ← in_context "Failed to create vcpu" (on_world (λ self. vcpu_new kernel self.vm id))
    update (λ self. record self { vcpus = self.vcpus ++ (vcpu ∷ []) })
    pure vcpu

  unfoldable pub set_dtb_config : ℕ → ℕ → List ℕ → Op W F (Unit {0})
  set_dtb_config start len dtb = do
    in_context "Failed to copy DTB to VM" (write_slice start dtb)
    in_context "Failed to set DTB configuration for VM"
        (on_world (λ self. Vm.set_dtb_config kernel self.vm start len))

  unfoldable pub set_boot_pc : ℕ → Op W F (Unit {0})
  set_boot_pc value = on_world (λ self. Vm.set_boot_pc kernel self.vm value)

  unfoldable pub set_boot_sp : ℕ → Op W F (Unit {0})
  set_boot_sp value = on_world (λ self. Vm.set_boot_sp kernel self.vm value)

  abbrev add_interrupt : (Vm → ℕ → M W GunyahInterrupt) → ℕ → Op W F GunyahInterrupt
  add_interrupt make line = do
    interrupt ← in_context "Failed to create interrupt {}" (on_world (λ self. make self.vm line))
    update (λ self. record self { interrupts = self.interrupts ++ (interrupt ∷ []) })
    pure interrupt

  unfoldable pub add_level_interrupt : ℕ → Op W F GunyahInterrupt
  add_level_interrupt line = add_interrupt (new_level kernel) line

  unfoldable pub add_edge_interrupt : ℕ → Op W F GunyahInterrupt
  add_edge_interrupt line = add_interrupt (new_edge kernel) line

  unfoldable pub add_ioevent : ℕ → ℕ → Option ℕ → Op W F Ioeventfd
  add_ioevent addr len datamatch = do
    own ← on_world (λ self. vm_clone kernel self.vm)
    on_world (λ _. ioeventfd_new kernel own addr len datamatch)

  unfoldable pub start : Op W F (Unit {0})
  start = on_world (λ self. Vm.start kernel self.vm)
