-- ===== src/Vmm/Machine/Writes.antt =====
-- vmm/src/virtual_machine.rs and vmm/src/memory.rs: writes to guest memory that return.
use gunyah_test_vmm.Base.{
  ℕ, ◌+◌, ◌-◌, ◌≤◌, ◌<◌, ◌≡◌, refl, ◌==◌, true, false, List, ok, debug, length, u64_size, arith,
  lt→ltb, ge→ltb,
}
use gunyah_test_vmm.Effects.{◌>>=◌, lift, fail}
use gunyah_test_vmm.Gunyah.Kernel.{Kernel, Request}
use gunyah_test_vmm.Gunyah.GuestMem.{GuestMemRegion, MmapOptions, map_options}
use gunyah_test_vmm.Bus.Devices.{Devices}
use gunyah_test_vmm.Bus.Lookup.{holds}
use gunyah_test_vmm.Bus.Dispatch.{
  BusEntry, write, vmm_userspace, outer_sync, forward_write, write-insert,
}
use gunyah_test_vmm.Vmm.Memory.{GunyahGuestMemoryRegion}
use gunyah_test_vmm.Vmm.Memory.Device.{region_write, device_write, region_device}
use gunyah_test_vmm.Vmm.Machine.Files.{IsOnBus}

-- A kernel that copies what it is given into a mapping, and grants every request.
pub record Serves {K : Type 0} (kernel : Kernel K) : Type 0 where
  pub copies :
      (fd off : ℕ) (bytes : List ℕ) (k : K)
      → (k' : K) × (kernel.copy_to fd off bytes k ≡ (ok tt, k'))
  pub asks :
      (fd : ℕ) (request : Request) (k : K)
      → (n : ℕ) × (k' : K) × (kernel.ioctl fd request k ≡ (ok n, k'))

map_options-runs :
    (r : GuestMemRegion) (offset len : ℕ)
    → offset + len ≤ r.size
    → r.off + r.size < u64_size
    → (options : MmapOptions) × (map_options debug r offset len ≡ ok options)
unfolding map_options
map_options-runs r offset len inside small = (
  record { offset = r.off + offset; len = len },
  rw
      (
        lt→ltb (offset + len) u64_size (omega arith),
        ge→ltb r.size (offset + len) inside,
        lt→ltb (r.off + offset) u64_size (omega arith),
      )
      refl,
)

module _ {W : Type 0} (kernel : Kernel W) (serves : Serves kernel)
    (self : GunyahGuestMemoryRegion) where
  region_write-runs :
      (offset : ℕ) (bytes : List ℕ) (w : W)
      → ((length bytes == 0) ≡ false)
      → offset + length bytes ≤ self.region.size
      → self.region.off + self.region.size < u64_size
      → (w' : W) × (region_write kernel debug self offset bytes w ≡ (ok tt, w'))
  unfolding region_write ◌>>=◌ lift fail
  region_write-runs offset bytes w full inside small =
      let (options, placed) = map_options-runs self.region offset (length bytes) inside small in
      let (w', copied) = serves.copies self.region.mem.fd options.offset bytes w in
      (w', rw (full, placed) copied)

module _ {W F : Type 0} (kernel : Kernel W) (serves : Serves kernel)
    (region : GunyahGuestMemoryRegion) (base len : ℕ) (bus : Devices (BusEntry W F))
    (on_bus : IsOnBus kernel region base len bus) where
  -- A write that is not empty and lies inside the region returns.
  pub write-runs :
      (addr : ℕ) (bytes : List ℕ) (w : W)
      → ((length bytes == 0) ≡ false)
      → holds base len addr ≡ true
      → (addr - base) + length bytes ≤ region.region.size
      → region.region.off + region.region.size < u64_size
      → (w' : W) × (write vmm_userspace addr bytes bus w ≡ (ok tt, w'))
  unfolding forward_write region_device device_write
  write-runs addr bytes w full hit inside small =
      let device = outer_sync (region_device kernel debug region) in
      let (w', e) =
        region_write-runs kernel serves region (addr - base) bytes w full inside small in
      (
        w',
        rw
            (
              on_bus.after,
              write-insert device base len addr on_bus.rest vmm_userspace bytes w on_bus.low
                  on_bus.valid on_bus.inserted,
              hit,
            )
            (rw (forward_write, e) refl),
      )
