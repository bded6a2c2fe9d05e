-- ===== src/Vmm/Machine/Reachable.antt =====
-- vmm/src/virtual_machine.rs: the machines that calls reach. A call is performed whatever the state, and
-- the next is performed however it ended.
use gunyah_test_vmm.Base.{ℕ, ◌+◌, ◌<◌, refl, List, [], ◌∷◌, Bool, Option, Profile, max_u64}
use gunyah_test_vmm.Gunyah.Kernel.{Kernel}
use gunyah_test_vmm.Gunyah.GuestMem.{GuestMemRegion}
use gunyah_test_vmm.Gunyah.Vm.{ShareType, GuestMemoryAccess}
use gunyah_test_vmm.Bus.Dispatch.{BusDevice}
use gunyah_test_vmm.Vmm.Memory.{GunyahGuestMemoryRegion}
use gunyah_test_vmm.Vmm.Machine.{
  GunyahVirtualMachine, write_slice, add_device, add_device_sync, add_memory_region, add_memory,
  add_regular_memory, punch_hole, create_vcpu, set_dtb_config, set_boot_pc, set_boot_sp,
  add_level_interrupt, add_edge_interrupt, add_ioevent, start,
}
use gunyah_test_vmm.Vmm.Machine.Keeps.{
  BusIsValid, on_world-Keeps, bus_insert-Keeps, pure-Keeps, update-Keeps, in_context-Keeps,
  >>=-Keeps, >>-Keeps,
}
use gunyah_test_vmm.Vmm.Machine.Validity.{
  add_memory_region-Keeps, add_memory-Keeps, add_regular_memory-Keeps, punch_hole-Keeps,
}

-- the calls of a machine that change its state or the system's
pub data Call (W F : Type 0) : Type 0 where
  device_call sync_call : BusDevice W F → (base len : ℕ) → Call W F
  region_call :
      GuestMemRegion
      → (guest_address : ℕ) → ShareType
      → GuestMemoryAccess
      → (unmap_on_drop regular : Bool) → Call W F
  memory_call regular_call : (start len : ℕ) → ShareType → GuestMemoryAccess → Bool → Call W F
  hole_call : GunyahGuestMemoryRegion → (offset len : ℕ) → Call W F
  vcpu_call level_call edge_call pc_call sp_call : ℕ → Call W F
  ioevent_call : (addr len : ℕ) → Option ℕ → Call W F
  write_call : ℕ → List ℕ → Call W F
  dtb_call : (start len : ℕ) → List ℕ → Call W F
  start_call : Call W F

module _ {W F : Type 0} (kernel : Kernel W) (p : Profile) where
  -- the state that a call leaves
  unfoldable pub perform : Call W F → GunyahVirtualMachine W F × W → GunyahVirtualMachine W F × W
  perform (device_call d base len) s = (add_device d base len s).1
  perform (sync_call d base len) s = (add_device_sync d base len s).1
  perform (region_call r a t g u m) s = (add_memory_region kernel p r a t g u m s).1
  perform (memory_call a n t g h) s = (add_memory kernel p a n t g h s).1
  perform (regular_call a n t g h) s = (add_regular_memory kernel p a n t g h s).1
  perform (hole_call r offset len) s = (punch_hole kernel p r offset len s).1
  perform (vcpu_call id) s = (create_vcpu kernel id s).1
  perform (level_call line) s = (add_level_interrupt kernel line s).1
  perform (edge_call line) s = (add_edge_interrupt kernel line s).1
  perform (pc_call v) s = (set_boot_pc kernel v s).1
  perform (sp_call v) s = (set_boot_sp kernel v s).1
  perform (ioevent_call a n m) s = (add_ioevent kernel a n m s).1
  perform (write_call a bytes) s = (write_slice a bytes s).1
  perform (dtb_call a n dtb) s = (set_dtb_config kernel a n dtb s).1
  perform start_call s = (start kernel s).1

  unfoldable pub perform_all :
      List (Call W F) → GunyahVirtualMachine W F × W → GunyahVirtualMachine W F × W
  perform_all [] s = s
  perform_all (c ∷ cs) s = perform_all cs (perform c s)

module _ {W F : Type 0} where
  -- No device of the call begins at the last address of u64.
  abbrev pub IsLow : Call W F → Type 0
  IsLow (device_call _ base _) = base < max_u64
  IsLow (sync_call _ base _) = base < max_u64
  IsLow (region_call _ base _ _ _ _) = base < max_u64
  IsLow (memory_call base _ _ _ _) = base < max_u64
  IsLow (regular_call base _ _ _ _) = base < max_u64
  IsLow (hole_call r offset len) = r.guest_address + offset + len < max_u64
  IsLow (vcpu_call _) = Unit {0}
  IsLow (level_call _) = Unit {0}
  IsLow (edge_call _) = Unit {0}
  IsLow (pc_call _) = Unit {0}
  IsLow (sp_call _) = Unit {0}
  IsLow (ioevent_call _ _ _) = Unit {0}
  IsLow (write_call _ _) = Unit {0}
  IsLow (dtb_call _ _ _) = Unit {0}
  IsLow start_call = Unit {0}

  abbrev pub AllLow : List (Call W F) → Type 0
  AllLow [] = Unit {0}
  AllLow (c ∷ cs) = IsLow c × AllLow cs

module _ {W F : Type 0} (kernel : Kernel W) (p : Profile) where
  perform-BusIsValid :
      (c : Call W F) (s : GunyahVirtualMachine W F × W)
      → IsLow c
      → BusIsValid s
      → BusIsValid (perform kernel p c s)
  unfolding perform add_device add_device_sync create_vcpu add_level_interrupt add_edge_interrupt
      set_boot_pc set_boot_sp add_ioevent write_slice set_dtb_config start
  perform-BusIsValid (device_call d base len) s h v = bus_insert-Keeps _ base len h s v
  perform-BusIsValid (sync_call d base len) s h v = bus_insert-Keeps _ base len h s v
  perform-BusIsValid (region_call r a t g u m) s h v =
      add_memory_region-Keeps kernel p r a t g u m h s v
  perform-BusIsValid (memory_call a n t g x) s h v = add_memory-Keeps kernel p a n t g x h s v
  perform-BusIsValid (regular_call a n t g x) s h v =
      add_regular_memory-Keeps kernel p a n t g x h s v
  perform-BusIsValid (hole_call r offset len) s h v = punch_hole-Keeps kernel p r offset len h s v
  perform-BusIsValid (vcpu_call id) s h v =
      >>=-Keeps _ _ (in_context-Keeps _ _ (on_world-Keeps _))
        (λ vcpu. >>-Keeps _ _ (update-Keeps _ λ self. refl) (pure-Keeps vcpu)) s v
  perform-BusIsValid (level_call line) s h v =
      >>=-Keeps _ _ (in_context-Keeps _ _ (on_world-Keeps _))
        (λ i. >>-Keeps _ _ (update-Keeps _ λ self. refl) (pure-Keeps i)) s v
  perform-BusIsValid (edge_call line) s h v =
      >>=-Keeps _ _ (in_context-Keeps _ _ (on_world-Keeps _))
        (λ i. >>-Keeps _ _ (update-Keeps _ λ self. refl) (pure-Keeps i)) s v
  perform-BusIsValid (pc_call x) s h v = on_world-Keeps _ s v
  perform-BusIsValid (sp_call x) s h v = on_world-Keeps _ s v
  perform-BusIsValid (ioevent_call a n m) s h v =
      >>=-Keeps _ _ (on_world-Keeps _) (λ own. on_world-Keeps _) s v
  perform-BusIsValid (write_call a bytes) s h v = on_world-Keeps _ s v
  perform-BusIsValid (dtb_call a n dtb) s h v =
      >>-Keeps _ _ (in_context-Keeps _ _ (on_world-Keeps _))
        (in_context-Keeps _ _ (on_world-Keeps _)) s v
  perform-BusIsValid start_call s h v = on_world-Keeps _ s v

  -- Whatever calls are made on a machine with a valid bus, and however each ends, the bus is valid
  -- afterwards, if no device or region begins at the last address of u64 and no hole reaches it.
  pub perform_all-BusIsValid :
      (cs : List (Call W F)) (s : GunyahVirtualMachine W F × W)
      → AllLow cs
      → BusIsValid s
      → BusIsValid (perform_all kernel p cs s)
  unfolding perform_all
  perform_all-BusIsValid [] s h v = v
  perform_all-BusIsValid (c ∷ cs) s h v =
      perform_all-BusIsValid cs (perform kernel p c s) h.1 (perform-BusIsValid c s h.0 v)
