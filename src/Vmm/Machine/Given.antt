-- ===== src/Vmm/Machine/Given.antt =====
-- vmm/src/virtual_machine.rs: the bus of a machine that has been given memory.
use gunyah_test_vmm.Base.{
  ℕ, ◌<◌, ◌≡◌, refl, sym, ap, ◌∙◌, if◌then◌else◌, Bool, true, false, ok, err, panic, debug, max_u64,
  arith, Outcome,
}
use gunyah_test_vmm.Errors.{AnyError, BusError}
use gunyah_test_vmm.Effects.{M, fail}
use gunyah_test_vmm.Effects.Returns.{
  Ensures, >>=-Ensures, >>-Ensures, any-Ensures, pure-Ensures, >>=-ok, >>-ok, pure-ok, lift-ok,
  in_context-ok,
}
use gunyah_test_vmm.Gunyah.Kernel.{Kernel}
use gunyah_test_vmm.Gunyah.Vm.{Vm, ShareType, GuestMemoryAccess, vm_clone}
use gunyah_test_vmm.Gunyah.GuestMem.{GuestMem, GuestMemRegion, region_new}
use gunyah_test_vmm.Bus.Devices.{Devices, insert}
use gunyah_test_vmm.Bus.Invariant.{IsValid}
use gunyah_test_vmm.Bus.Dispatch.{BusEntry, outer_sync}
use gunyah_test_vmm.Vmm.Memory.{GunyahGuestMemoryRegion, memory_region_new}
use gunyah_test_vmm.Vmm.Memory.Device.{region_device}
use gunyah_test_vmm.Vmm.Machine.{
  GunyahVirtualMachine, on_world, bus_insert, with_bus, insert_region, add_memory_region,
  add_memory, drop_refused, is_regular,
}
use gunyah_test_vmm.Vmm.Machine.Files.{IsOnBus}

module _ {W F : Type 0} where
  -- a call that has left the machine as it was
  pub on_world-ok :
      {A : Type 0} (call : GunyahVirtualMachine W F → M W A) (s s' : GunyahVirtualMachine W F × W)
      (a : A)
      → on_world call s ≡ (ok a, s')
      → (call s.0 s.1 ≡ (ok a, s'.1)) × (s'.0 ≡ s.0)
  unfolding on_world
  on_world-ok call s s' a e = (ap (λ x. (x.0, x.1.1)) e, sym (ap (λ x. x.1.0) e))

  pub with_bus-ok :
      (self : GunyahVirtualMachine W F) (w : W)
      (x : Outcome BusError (Unit {0}) × Devices (BusEntry W F)) (s' : GunyahVirtualMachine W F × W)
      → with_bus self w x ≡ (ok tt, s')
      → (x.0 ≡ ok tt) × (s'.0.bus ≡ x.1)
  with_bus-ok self w (ok _, bus) s' e = (refl, sym (ap (λ x. x.1.0.bus) e))
  with_bus-ok self w (err _, bus) s' e = ground arith
  with_bus-ok self w (panic, bus) s' e = ground arith

checked-ok :
    {A : Type 0} (c : Bool) (x : AnyError) (a b : A)
    → (if c then err x else ok a) ≡ Outcome.ok b
    → a ≡ b
checked-ok true x a b e = ground arith
checked-ok false x a b e = ground arith

region_new-Ensures :
    {W : Type 0} (kernel : Kernel W) (mem : GuestMem) (len : ℕ)
    → Ensures (region_new kernel debug mem 0 len) (λ r. (r.off ≡ 0) × (r.size ≡ len))
unfolding region_new
region_new-Ensures kernel mem len = >>=-Ensures (any-Ensures _) λ end _.
    >>=-Ensures (any-Ensures _) λ extent _ k k' r e.
      let (checked, _) = lift-ok _ k k' r e in
      let same = checked-ok _ _ _ r checked in
      (sym (ap (λ r. r.off) same), sym (ap (λ r. r.size) same))

memory_region_new-region :
    {W : Type 0} (kernel : Kernel W) (region : GuestMemRegion) (guest_address : ℕ) (vm : Vm)
    (share_type : ShareType) (access : GuestMemoryAccess) (unmap_on_drop regular : Bool)
    → Ensures
        (memory_region_new kernel debug region guest_address vm share_type access unmap_on_drop
          regular)
        (λ r.
          (r.region ≡ region) × (r.guest_address ≡ guest_address) × (r.regular_memory ≡ regular))
unfolding memory_region_new
memory_region_new-region kernel region guest_address vm share_type access unmap_on_drop regular =
    >>-Ensures _
      (>>=-Ensures (any-Ensures (vm_clone kernel vm)) λ vm' _. pure-Ensures _ _ (refl, refl, refl))

module _ {W F : Type 0} (kernel : Kernel W) where
  drop_refused-ok :
      (region : GunyahGuestMemoryRegion) (kept : Bool)
      (x : Outcome AnyError (Unit {0}) × (GunyahVirtualMachine W F × W))
      (s' : GunyahVirtualMachine W F × W)
      → drop_refused kernel debug region kept x ≡ (ok tt, s')
      → x ≡ (ok tt, s')
  unfolding fail
  drop_refused-ok region kept (ok _, s) s' e = e
  drop_refused-ok region true (err x, s) s' e = ground arith
  drop_refused-ok region false (err x, s) s' e =
      let (_, s1, _, failed) = >>-ok _ _ s s' tt e in ground arith
  drop_refused-ok region kept (panic, s) s' e = ground arith

  insert_region-ok :
      (region : GunyahGuestMemoryRegion) (s s' : GunyahVirtualMachine W F × W)
      → insert_region kernel debug region s ≡ (ok tt, s')
      → ((insert
            (outer_sync (region_device kernel debug region))
            region.guest_address
            region.region.size
            s.0.bus).0
          ≡ ok tt)
        × (s'.0.bus
            ≡ (insert
                (outer_sync (region_device kernel debug region))
                region.guest_address
                region.region.size
                s.0.bus).1)
  unfolding insert_region bus_insert
  insert_region-ok region (self, w) s' e =
      with_bus-ok self w
        (insert (outer_sync (region_device kernel debug region)) region.guest_address
          region.region.size self.bus)
        s' (drop_refused-ok region _ _ s' e)

  -- what has been put on the bus
  pub add_memory-inserted :
      (start len : ℕ) (share_type : ShareType) (access : GuestMemoryAccess) (huge_pages : Bool)
      (s s' : GunyahVirtualMachine W F × W) (region : GunyahGuestMemoryRegion)
      → add_memory kernel debug start len share_type access huge_pages s ≡ (ok region, s')
      → ((insert (outer_sync (region_device kernel debug region)) start len s.0.bus).0 ≡ ok tt)
        × (s'.0.bus ≡ (insert (outer_sync (region_device kernel debug region)) start len s.0.bus).1)
        × (region.region.off ≡ 0)
        × (region.region.size ≡ len)
        × (region.guest_address ≡ start)
        × (region.regular_memory ≡ is_regular share_type)
  unfolding add_memory add_memory_region
  add_memory-inserted start len share_type access huge_pages s s' region e =
      let (driver, s1, opened, e1) = >>=-ok _ _ s s' region e in
      let (_, same1) = on_world-ok _ s s1 driver opened in
      let (mem, s2, created, e2) = >>=-ok _ _ s1 s' region e1 in
      let (_, same2) = on_world-ok _ s1 s2 mem (in_context-ok _ _ s1 s2 mem created) in
      let (r, s3, made, e3) = >>=-ok _ _ s2 s' region e2 in
      let (checked, same3) = on_world-ok _ s2 s3 r made in
      let (off, size) = region_new-Ensures kernel mem len s2.1 s3.1 r checked in
      let (mem', s4, cloned, e4) = >>=-ok _ _ s3 s' region e3 in
      let (_, same4) = on_world-ok _ s3 s4 mem' cloned in
      let (g, s5, mapped, e5) = >>=-ok _ _ s4 s' region e4 in
      let (added, same5) = on_world-ok _ s4 s5 g (in_context-ok _ _ s4 s5 g mapped) in
      let (of_file, placed, regular) =
        memory_region_new-region kernel (record r { mem = mem' }) start s4.0.vm share_type access
          false _ s4.1 s5.1 g added in
      let (_, s6, inserted, e6) = >>-ok _ _ s5 s' region e5 in
      let (same_region, same_state) = pure-ok g region s6 s' e6 in
      let (is_in, after) = insert_region-ok g s5 s6 inserted in
      let sized : g.region.size ≡ len = ap (λ x. x.size) of_file ∙ size in
      let begins : g.region.off ≡ 0 = ap (λ x. x.off) of_file ∙ off in
      let bus : s5.0.bus ≡ s.0.bus =
        ap (λ m. m.bus) (same5 ∙ (same4 ∙ (same3 ∙ (same2 ∙ same1)))) in
      let call : insert (outer_sync (region_device kernel debug g)) g.guest_address g.region.size
            s5.0.bus
          ≡ insert (outer_sync (region_device kernel debug region)) start len s.0.bus =
        rw (placed, sized, bus, same_region) refl in
      (
        ap (λ x. x.0) (sym call) ∙ is_in,
        ap (λ x. x.0.bus) (sym same_state) ∙ (after ∙ ap (λ x. x.1) call),
        ap (λ x. x.region.off) (sym same_region) ∙ begins,
        ap (λ x. x.region.size) (sym same_region) ∙ sized,
        ap (λ x. x.guest_address) (sym same_region) ∙ placed,
        ap (λ x. x.regular_memory) (sym same_region) ∙ regular,
      )

  -- Memory that has been added is a region of its own file, from its beginning and as long as asked,
  -- which stands on the bus at the address that it was added at.
  pub add_memory-IsOnBus :
      (start len : ℕ) (share_type : ShareType) (access : GuestMemoryAccess) (huge_pages : Bool)
      (s s' : GunyahVirtualMachine W F × W) (region : GunyahGuestMemoryRegion)
      → start < max_u64
      → IsValid s.0.bus
      → add_memory kernel debug start len share_type access huge_pages s ≡ (ok region, s')
      → IsOnBus kernel region start len s'.0.bus
        × (region.region.off ≡ 0)
        × (region.region.size ≡ len)
  add_memory-IsOnBus start len share_type access huge_pages s s' region low valid e =
      let (done, after, begins, sized, _, _) =
        add_memory-inserted start len share_type access huge_pages s s' region e in
      (
        record { rest = s.0.bus; low = low; valid = valid; inserted = done; after = after },
        begins,
        sized,
      )
