-- ===== src/Vmm/Machine/Slices.antt =====
-- vmm/src/virtual_machine.rs: `write_slice` and `read_slice` on a region of guest memory.
use gunyah_test_vmm.Base.{
  ℕ, ◌-◌, ◌≡◌, ◌<◌, refl, ◌==◌, true, List, Outcome, ok, err, panic, Profile, length, max_u64,
  arith, ap, Bool-cases, inl, inr, Outcome-cases,
}
use gunyah_test_vmm.Errors.{AnyError, context}
use gunyah_test_vmm.Effects.{◌>>=◌, lift, fail}
use gunyah_test_vmm.Gunyah.Kernel.{Kernel}
use gunyah_test_vmm.Gunyah.GuestMem.{GuestMemRegion, MmapOptions, map_options}
use gunyah_test_vmm.Bus.Devices.{Devices, insert}
use gunyah_test_vmm.Bus.Invariant.{IsValid}
use gunyah_test_vmm.Bus.Lookup.{holds}
use gunyah_test_vmm.Bus.Dispatch.{
  BusEntry, BusAccessInfo, read, write, vmm_userspace, outer_sync, forward_read, forward_write,
  read-insert, write-insert,
}
use gunyah_test_vmm.Vmm.Memory.{GunyahGuestMemoryRegion}
use gunyah_test_vmm.Vmm.Memory.Device.{
  region_read, region_write, device_read, device_write, region_device,
}
use gunyah_test_vmm.Vmm.Machine.{GunyahVirtualMachine, on_world, write_slice, read_slice}

-- What is copied into the shared mapping of a file is what is copied out of it next.
abbrev pub ReadsBack : {K : Type 0} → Kernel K → Type 0
ReadsBack {K} kernel =
    (fd off : ℕ) (bytes : List ℕ) (k k' : K)
    → kernel.copy_to fd off bytes k ≡ (ok tt, k')
    → kernel.copy_from fd off (length bytes) k' ≡ (ok bytes, k')

module _ {W : Type 0} (kernel : Kernel W) (p : Profile) where
  map_options-len :
      (r : GuestMemRegion) (offset len : ℕ) (options : MmapOptions)
      → map_options p r offset len ≡ ok options
      → options.len ≡ len
  unfolding map_options
  map_options-len r offset len options e = ground arith

  region_read-region_write :
      (self : GunyahGuestMemoryRegion) (offset : ℕ) (bytes : List ℕ) (w w' : W)
      → ReadsBack kernel
      → region_write kernel p self offset bytes w ≡ (ok tt, w')
      → region_read kernel p self offset (length bytes) w' ≡ (ok bytes, w')
  unfolding region_read region_write ◌>>=◌ lift fail
  region_read-region_write self offset bytes w w' back e = elim (Bool-cases (length bytes == 0)) [
    | inl none ↦ let e' = rw none at e in ground arith
    | inr some_bytes ↦ elim (Outcome-cases (map_options p self.region offset (length bytes))) [
      | inl (options, fits) ↦
          let len = map_options-len self.region offset (length bytes) options fits in
          let e' = rw (some_bytes, fits) at e in
          rw (some_bytes, fits, len) (back self.region.mem.fd options.offset bytes w w' e')
      | inr (inl (x, r)) ↦ let e' = rw (some_bytes, r) at e in ground arith
      | inr (inr r) ↦ let e' = rw (some_bytes, r) at e in ground arith
    ]
  ]

context-ok : (t : _) (r : Outcome AnyError (Unit {0})) → context t r ≡ ok tt → r ≡ ok tt
context-ok t (ok _) e = refl
context-ok t (err x) e = ground arith
context-ok t panic e = ground arith

pair_of {ℓ κ} :
    {A : Type ℓ} {B : Type κ} (r : A × B) (a : A) (b : B) → r.0 ≡ a → r.1 ≡ b → r ≡ (a, b)
pair_of r a b e e' = rw (e, e') refl

module _ {W : Type 0} (F : Type 0) (kernel : Kernel W) (p : Profile) where
  pub forward_write-region :
      (region : GunyahGuestMemoryRegion) (io : BusAccessInfo) (bytes : List ℕ) (w w' : W)
      → io.id ≡ vmm_userspace
      → forward_write (outer_sync (region_device {F = F} kernel p region)) io bytes w ≡ (ok tt, w')
      → region_write kernel p region io.offset bytes w ≡ (ok tt, w')
  unfolding forward_write region_device device_write
  forward_write-region region io bytes w w' own e =
      let e' = rw own at e in
      pair_of (region_write kernel p region io.offset bytes w) (ok tt) w'
        (context-ok _ _ (ap (λ x. x.0) e')) (ap (λ x. x.1) e')

  pub forward_read-region :
      (region : GunyahGuestMemoryRegion) (io : BusAccessInfo) (d buffer : List ℕ) (w : W)
      → io.id ≡ vmm_userspace
      → region_read kernel p region io.offset (length buffer) w ≡ (ok d, w)
      → forward_read (outer_sync (region_device {F = F} kernel p region)) io buffer w
        ≡ (ok tt, d, w)
  unfolding forward_read region_device device_read
  forward_read-region region io d buffer w own e = rw (own, e) refl

  forward_read-forward_write :
      (region : GunyahGuestMemoryRegion) (io : BusAccessInfo) (bytes buffer : List ℕ) (w w' : W)
      → ReadsBack kernel
      → io.id ≡ vmm_userspace
      → length buffer ≡ length bytes
      → forward_write (outer_sync (region_device {F = F} kernel p region)) io bytes w ≡ (ok tt, w')
      → forward_read (outer_sync (region_device {F = F} kernel p region)) io buffer w'
        ≡ (ok tt, bytes, w')
  unfolding forward_read forward_write region_device device_read device_write
  forward_read-forward_write region io bytes buffer w w' back own fits e =
      let written = forward_write-region region io bytes w w' own e in
      rw (own, fits, region_read-region_write kernel p region io.offset bytes w w' back written)
        refl

module _ {W F : Type 0} (kernel : Kernel W) (p : Profile) where
  read-write :
      (region : GunyahGuestMemoryRegion) (base len addr : ℕ) (m bus : Devices (BusEntry W F))
      (bytes buffer : List ℕ) (w w' : W)
      → ReadsBack kernel
      → base < max_u64
      → IsValid m
      → (insert (outer_sync (region_device kernel p region)) base len m).0 ≡ ok tt
      → bus ≡ (insert (outer_sync (region_device kernel p region)) base len m).1
      → holds base len addr ≡ true
      → length buffer ≡ length bytes
      → write vmm_userspace addr bytes bus w ≡ (ok tt, w')
      → read vmm_userspace addr buffer bus w' ≡ (ok tt, bytes, w')
  read-write region base len addr m bus bytes buffer w w' back low v done on_bus hit fits e =
      let device = outer_sync (region_device kernel p region) in
      let e' =
        rw (on_bus, write-insert device base len addr m vmm_userspace bytes w low v done, hit) at
          e in
      rw (on_bus, read-insert device base len addr m vmm_userspace buffer w' low v done, hit)
        (forward_read-forward_write F kernel p region
          (record { offset = addr - base; address = addr; id = vmm_userspace }) bytes buffer w w'
          back refl fits e')

  -- On a machine whose valid bus was given a region of guest memory, below the last address of u64: the
  -- bytes that `write_slice` wrote at an address of the region are what `read_slice` reads there next,
  -- into a buffer of their length, if the kernel copies out of a shared mapping what was copied in.
  pub read_slice-write_slice :
      (region : GunyahGuestMemoryRegion) (base len addr : ℕ) (m : Devices (BusEntry W F))
      (self : GunyahVirtualMachine W F) (s : GunyahVirtualMachine W F × W) (bytes buffer : List ℕ)
      (w : W)
      → ReadsBack kernel
      → base < max_u64
      → IsValid m
      → (insert (outer_sync (region_device kernel p region)) base len m).0 ≡ ok tt
      → self.bus ≡ (insert (outer_sync (region_device kernel p region)) base len m).1
      → holds base len addr ≡ true
      → length buffer ≡ length bytes
      → write_slice addr bytes (self, w) ≡ (ok tt, s)
      → read_slice addr buffer s ≡ (ok tt, bytes, s)
  unfolding write_slice read_slice on_world
  read_slice-write_slice region base len addr m self s bytes buffer w back low v done on_bus hit
        fits e =
      let written = write vmm_userspace addr bytes self.bus w in
      let same : (self, written.1) ≡ s = ap (λ x. x.1) e in
      let there = pair_of written (ok tt) written.1 (ap (λ x. x.0) e) refl in
      let back_again =
        read-write region base len addr m self.bus bytes buffer w written.1 back low v done on_bus
          hit fits there in
      rw (← same) (rw back_again refl)
