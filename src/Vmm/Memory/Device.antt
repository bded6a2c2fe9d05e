-- ===== src/Vmm/Memory/Device.antt =====
-- vmm/src/memory.rs: a region of guest memory as a device on the bus. The length of a buffer is at
-- least what is copied, so the copy itself stays inside the two slices.
use gunyah_test_vmm.Base.{ℕ, ◌==◌, if◌then◌else◌, List, Outcome, ok, err, panic, Profile, length}
use gunyah_test_vmm.Errors.{AnyError, msg}
use gunyah_test_vmm.Effects.{M, ◌>>=◌, lift, fail}
use gunyah_test_vmm.Gunyah.Kernel.{Kernel}
use gunyah_test_vmm.Gunyah.GuestMem.{map_options}
use gunyah_test_vmm.Bus.Dispatch.{AccessId, vmm_userspace, vcpu, BusDevice, default_device}
use gunyah_test_vmm.Vmm.Memory.{GunyahGuestMemoryRegion, memory_regions}

module _ {W : Type 0} (kernel : Kernel W) (p : Profile) where
  -- the read and the write for `VmmUserspace`
  unfoldable pub region_read : GunyahGuestMemoryRegion → ℕ → ℕ → M W (List ℕ)
  region_read self offset len =
      if len == 0
      then fail (msg "data length was zero")
      else lift (map_options p self.region offset len) >>= λ options.
          kernel.copy_from self.region.mem.fd options.offset options.len

  unfoldable pub region_write : GunyahGuestMemoryRegion → ℕ → List ℕ → M W (Unit {0})
  region_write self offset bytes =
      if length bytes == 0
      then fail (msg "data length was zero")
      else lift (map_options p self.region offset (length bytes)) >>= λ options.
          kernel.copy_to self.region.mem.fd options.offset bytes

  abbrev into_buffer :
      List ℕ → Outcome AnyError (List ℕ) × W → Outcome AnyError (Unit {0}) × List ℕ × W
  into_buffer d (ok bytes, w) = (ok tt, bytes, w)
  into_buffer d (err e, w) = (err e, d, w)
  into_buffer d (panic, w) = (panic, d, w)

  -- the methods, by who asks
  unfoldable pub device_read :
      GunyahGuestMemoryRegion → AccessId → ℕ → List ℕ → W → Outcome AnyError (Unit {0}) × List ℕ × W
  device_read self vmm_userspace offset d w = into_buffer d (region_read self offset (length d) w)
  device_read self (vcpu id) offset d w = (panic, d, w)

  unfoldable pub device_write :
      GunyahGuestMemoryRegion → AccessId → ℕ → List ℕ → W → Outcome AnyError (Unit {0}) × W
  device_write self vmm_userspace offset d w = region_write self offset d w
  device_write self (vcpu id) offset d w = (panic, w)

-- `impl BusDevice for GunyahGuestMemoryRegion`
unfoldable pub region_device :
    {W F : Type 0} → Kernel W → Profile → GunyahGuestMemoryRegion → BusDevice W F
unfolding device_read device_write
region_device kernel p self = record (default_device (λ _. "GunyahGuestMemoryRegion@{:x}")) {
  read = λ access d w. device_read kernel p self access.id access.offset d w;
  write = λ access d w. device_write kernel p self access.id access.offset d w;
  memory_regions = λ _. memory_regions self;
}
