-- ===== src/Vmm/Machine/Added.antt =====
-- vmm/src/virtual_machine.rs: what is kept of a machine when memory is added.
use gunyah_test_vmm.Base.{ℕ, ◌≡◌, Bool, true, false, Outcome, ok, err, panic, Profile}
use gunyah_test_vmm.Errors.{AnyError}
use gunyah_test_vmm.Effects.{fail}
use gunyah_test_vmm.Effects.Returns.{in_context-Ensures}
use gunyah_test_vmm.Gunyah.Kernel.{Kernel}
use gunyah_test_vmm.Gunyah.GuestMem.{GuestMemRegion}
use gunyah_test_vmm.Gunyah.Vm.{ShareType, GuestMemoryAccess}
use gunyah_test_vmm.Bus.Devices.{insert}
use gunyah_test_vmm.Bus.Dispatch.{BusEntry, outer_sync}
use gunyah_test_vmm.Vmm.Memory.{GunyahGuestMemoryRegion, drop_region}
use gunyah_test_vmm.Vmm.Memory.Device.{region_device}
use gunyah_test_vmm.Vmm.Machine.Keeps.{on_world-Ensures}
use gunyah_test_vmm.Vmm.Machine.Validity.{memory_region_new-Ensures}
use gunyah_test_vmm.Vmm.Machine.Holds.{
  Holds, on_world-Holds, pure-Holds, fail-Holds, in_context-Holds, known-Holds, >>=-Holds, >>-Holds,
}
use gunyah_test_vmm.Vmm.Machine.{
  GunyahVirtualMachine, is_regular, on_world, bus_insert, drop_refused, insert_region,
  add_memory_region, add_memory,
}

-- `Q` is kept when an entry that satisfies `P` is put on the bus.
abbrev pub IsKeptBy :
    {W F : Type 0} → (GunyahVirtualMachine W F → Type 0) → (BusEntry W F → Type 0) → Type 0
IsKeptBy {W} {F} Q P =
    (self : GunyahVirtualMachine W F) (e : BusEntry W F) (base len : ℕ)
    → P e
    → Q self
    → Q (record self { bus = (insert e base len self.bus).1 })

module _ {W F : Type 0} (Q : GunyahVirtualMachine W F → Type 0) (P : BusEntry W F → Type 0)
    (kept : IsKeptBy Q P) where
  pub bus_insert-Holds : (e : BusEntry W F) (base len : ℕ) → P e → Holds Q (bus_insert e base len)
  unfolding bus_insert
  bus_insert-Holds e base len h (self, w) v = kept self e base len h v

module _ {W F : Type 0} (Q : GunyahVirtualMachine W F → Type 0) (kernel : Kernel W)
    (p : Profile) where
  drop_refused-Holds :
      (region : GunyahGuestMemoryRegion) (taken : Bool)
      (r : Outcome AnyError (Unit {0}) × (GunyahVirtualMachine W F × W))
      → Q r.1.0
      → Q (drop_refused kernel p region taken r).1.0
  drop_refused-Holds region taken (ok _, s) v = v
  drop_refused-Holds region true (err e, s) v = v
  drop_refused-Holds region false (err e, s) v =
      >>-Holds Q (on_world (λ _. drop_region kernel p region)) (fail e) (on_world-Holds Q _)
        (fail-Holds Q (Unit {0}) e) s v
  drop_refused-Holds region taken (panic, s) v = v

module _ {W F : Type 0} (Q : GunyahVirtualMachine W F → Type 0) (P : BusEntry W F → Type 0)
    (kept : IsKeptBy Q P) (kernel : Kernel W) (p : Profile) where
  insert_region-Holds :
      (region : GunyahGuestMemoryRegion)
      → P (outer_sync (region_device kernel p region))
      → Holds Q (insert_region kernel p region)
  unfolding insert_region
  insert_region-Holds region h (self, w) v =
      drop_refused-Holds Q kernel p region _ _
        (bus_insert-Holds Q P kept _ region.guest_address region.region.size h (self, w) v)

  -- whatever region is made, regular or not
  add_memory_region-Holds :
      (region : GuestMemRegion) (guest_address : ℕ) (share_type : ShareType)
      (access : GuestMemoryAccess) (unmap_on_drop regular : Bool)
      → ((r : GunyahGuestMemoryRegion)
          → r.regular_memory ≡ regular
          → P (outer_sync (region_device kernel p r)))
      → Holds Q
          (add_memory_region kernel p region guest_address share_type access unmap_on_drop regular)
  unfolding add_memory_region
  add_memory_region-Holds region guest_address share_type access unmap_on_drop regular h =
      >>=-Holds Q _ _ (on_world-Holds Q _) λ mem.
        known-Holds Q (λ r. (r.guest_address ≡ guest_address) × (r.regular_memory ≡ regular)) _ _
          (in_context-Ensures _ _ (
            on_world-Ensures _ _ λ self.
              memory_region_new-Ensures kernel p (record region { mem = mem }) guest_address self.vm
                share_type access unmap_on_drop regular))
          (in_context-Holds Q _ _ (on_world-Holds Q _))
          λ r known. >>-Holds Q _ _ (insert_region-Holds r (h r known.1)) (pure-Holds Q r)

  pub add_memory-Holds :
      (start len : ℕ) (share_type : ShareType) (access : GuestMemoryAccess) (huge_pages : Bool)
      → ((r : GunyahGuestMemoryRegion)
          → r.regular_memory ≡ is_regular share_type
          → P (outer_sync (region_device kernel p r)))
      → Holds Q (add_memory kernel p start len share_type access huge_pages)
  unfolding add_memory
  add_memory-Holds start len share_type access huge_pages h =
      >>=-Holds Q _ _ (on_world-Holds Q _) λ driver.
        >>=-Holds Q _ _ (in_context-Holds Q _ _ (on_world-Holds Q _)) λ mem.
          >>=-Holds Q _ _ (on_world-Holds Q _)
            λ region. add_memory_region-Holds region start share_type access false _ h
