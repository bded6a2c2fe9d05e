-- ===== src/Vmm/Machine/Files.antt =====
-- vmm/src/virtual_machine.rs and vmm/src/memory.rs: what stays in guest memory while more is written to
-- other places of it.
use gunyah_test_vmm.Base.{
  ℕ, ◌+◌, ◌-◌, ◌≤◌, ◌<◌, ◌≡◌, ◌⊎◌, refl, ◌==◌, true, List, ok, debug, length, max_u64, arith, false,
  Bool-cases, inl, inr, Outcome-cases,
}
use gunyah_test_vmm.Effects.{◌>>=◌, lift, fail}
use gunyah_test_vmm.Gunyah.Kernel.{Kernel, Request}
use gunyah_test_vmm.Gunyah.GuestMem.{GuestMemRegion, MmapOptions, map_options}
use gunyah_test_vmm.Bus.Devices.{Devices, insert}
use gunyah_test_vmm.Bus.Invariant.{IsValid}
use gunyah_test_vmm.Bus.Lookup.{holds}
use gunyah_test_vmm.Bus.Dispatch.{
  BusEntry, read, write, vmm_userspace, outer_sync, read-insert, write-insert,
}
use gunyah_test_vmm.Vmm.Memory.{GunyahGuestMemoryRegion}
use gunyah_test_vmm.Vmm.Memory.Device.{region_read, region_write, region_device}
use gunyah_test_vmm.Vmm.Machine.Slices.{ReadsBack, forward_write-region, forward_read-region}

-- What the kernel's files keep: what is copied into the mapping of a file is read back, a copy into a
-- file changes nothing elsewhere in the file, and requests on descriptors change no bytes of it.
pub record FileMemory {K : Type 0} (kernel : Kernel K) : Type 0 where
  pub reads_back : ReadsBack kernel
  pub keeps :
      (fd off off' len : ℕ) (bytes d : List ℕ) (k k' : K)
      → kernel.copy_to fd off bytes k ≡ (ok tt, k')
      → (off' + len ≤ off) ⊎ (off + length bytes ≤ off')
      → kernel.copy_from fd off' len k ≡ (ok d, k)
      → kernel.copy_from fd off' len k' ≡ (ok d, k')
  pub requests :
      (fd off len fd' : ℕ) (request : Request) (d : List ℕ) (k : K)
      → kernel.copy_from fd off len k ≡ (ok d, k)
      → kernel.copy_from fd off len (kernel.ioctl fd' request k).1
        ≡ (ok d, (kernel.ioctl fd' request k).1)

map_options-at :
    (r : GuestMemRegion) (offset len : ℕ) (options : MmapOptions)
    → map_options debug r offset len ≡ ok options
    → (options.offset ≡ r.off + offset) × (options.len ≡ len)
unfolding map_options
map_options-at r offset len options e = ground arith

module _ {W : Type 0} (kernel : Kernel W) (self : GunyahGuestMemoryRegion) where
  -- The bytes can be read at the offset of the region, and a read returns them.
  abbrev pub Stored : ℕ → List ℕ → W → Type 0
  Stored offset d w =
      ((length d == 0) ≡ false)
      × ((options : MmapOptions) × (map_options debug self.region offset (length d) ≡ ok options))
      × (kernel.copy_from self.region.mem.fd (self.region.off + offset) (length d) w ≡ (ok d, w))

  -- a write that has returned, as a copy into the file
  region_write-file :
      (offset : ℕ) (bytes : List ℕ) (w w' : W)
      → region_write kernel debug self offset bytes w ≡ (ok tt, w')
      → ((length bytes == 0) ≡ false)
        × ((options : MmapOptions) × (map_options debug self.region offset (length bytes)
              ≡ ok options))
        × (kernel.copy_to self.region.mem.fd (self.region.off + offset) bytes w ≡ (ok tt, w'))
  unfolding region_write ◌>>=◌ lift fail
  region_write-file offset bytes w w' e = elim (Bool-cases (length bytes == 0)) [
    | inl none ↦ let e' = rw none at e in ground arith
    | inr some_bytes ↦ elim (Outcome-cases (map_options debug self.region offset (length bytes))) [
      | inl (options, fits) ↦
          let at = map_options-at self.region offset (length bytes) options fits in
          (some_bytes, (options, fits), rw (some_bytes, fits, at.0) at e)
      | inr (inl (x, r)) ↦ let e' = rw (some_bytes, r) at e in ground arith
      | inr (inr r) ↦ let e' = rw (some_bytes, r) at e in ground arith
    ]
  ]

  Stored-region_read :
      (offset : ℕ) (d buffer : List ℕ) (w : W)
      → length buffer ≡ length d
      → Stored offset d w
      → region_read kernel debug self offset (length buffer) w ≡ (ok d, w)
  unfolding region_read ◌>>=◌ lift fail
  Stored-region_read offset d buffer w fits (some_bytes, (options, placed), there) =
      let at = map_options-at self.region offset (length d) options placed in
      rw (fits, some_bytes, placed, at.0, at.1) there

module _ {W : Type 0} (kernel : Kernel W) (files : FileMemory kernel)
    (self : GunyahGuestMemoryRegion) where
  region_write-Stored :
      (offset : ℕ) (bytes : List ℕ) (w w' : W)
      → region_write kernel debug self offset bytes w ≡ (ok tt, w')
      → Stored kernel self offset bytes w'
  region_write-Stored offset bytes w w' e =
      let (some_bytes, placed, copied) = region_write-file kernel self offset bytes w w' e in
      (some_bytes, placed, files.reads_back _ _ bytes w w' copied)

  Stored-region_write :
      (offset offset' : ℕ) (d bytes : List ℕ) (w w' : W)
      → region_write kernel debug self offset' bytes w ≡ (ok tt, w')
      → (offset + length d ≤ offset') ⊎ (offset' + length bytes ≤ offset)
      → Stored kernel self offset d w
      → Stored kernel self offset d w'
  Stored-region_write offset offset' d bytes w w' e apart (some_bytes, placed, there) =
      let (_, _, copied) = region_write-file kernel self offset' bytes w w' e in
      let apart' : ((self.region.off + offset) + length d ≤ self.region.off + offset')
          ⊎ ((self.region.off + offset') + length bytes ≤ self.region.off + offset) =
        elim apart [ inl h ↦ inl (omega arith) | inr h ↦ inr (omega arith) ] in
      (some_bytes, placed, files.keeps _ _ _ _ bytes d w w' copied apart' there)

  pub Stored-ioctl :
      (offset fd : ℕ) (request : Request) (d : List ℕ) (w : W)
      → Stored kernel self offset d w
      → Stored kernel self offset d (kernel.ioctl fd request w).1
  Stored-ioctl offset fd request d w (some_bytes, placed, there) =
      (some_bytes, placed, files.requests _ _ _ fd request d w there)

-- That a valid bus was given the region as a device, below the last address of u64.
pub record IsOnBus {W F : Type 0} (kernel : Kernel W) (region : GunyahGuestMemoryRegion)
    (base len : ℕ) (bus : Devices (BusEntry W F)) : Type 0 where
  pub rest : Devices (BusEntry W F)
  pub low : base < max_u64
  pub valid : IsValid rest
  pub inserted : (insert (outer_sync (region_device kernel debug region)) base len rest).0 ≡ ok tt
  pub after : bus ≡ (insert (outer_sync (region_device kernel debug region)) base len rest).1

module _ {W F : Type 0} (kernel : Kernel W) (files : FileMemory kernel)
    (region : GunyahGuestMemoryRegion) (base len : ℕ) (bus : Devices (BusEntry W F))
    (on_bus : IsOnBus kernel region base len bus) where
  write-region :
      (addr : ℕ) (bytes : List ℕ) (w w' : W)
      → holds base len addr ≡ true
      → write vmm_userspace addr bytes bus w ≡ (ok tt, w')
      → region_write kernel debug region (addr - base) bytes w ≡ (ok tt, w')
  write-region addr bytes w w' hit e =
      let device = outer_sync (region_device kernel debug region) in
      let e' =
        rw
          (
            on_bus.after,
            write-insert device base len addr on_bus.rest vmm_userspace bytes w on_bus.low
                on_bus.valid on_bus.inserted,
            hit,
          )
          at e in
      forward_write-region F kernel debug region
        (record { offset = addr - base; address = addr; id = vmm_userspace }) bytes w w' refl e'

  -- What has been written at an address of the region is stored there.
  pub write-Stored :
      (addr : ℕ) (bytes : List ℕ) (w w' : W)
      → holds base len addr ≡ true
      → write vmm_userspace addr bytes bus w ≡ (ok tt, w')
      → Stored kernel region (addr - base) bytes w'
  write-Stored addr bytes w w' hit e =
      region_write-Stored kernel files region (addr - base) bytes w w'
        (write-region addr bytes w w' hit e)

  -- A write elsewhere in the region leaves it stored.
  pub Stored-write :
      (addr addr' : ℕ) (d bytes : List ℕ) (w w' : W)
      → base ≤ addr
      → holds base len addr' ≡ true
      → write vmm_userspace addr' bytes bus w ≡ (ok tt, w')
      → (addr + length d ≤ addr') ⊎ (addr' + length bytes ≤ addr)
      → Stored kernel region (addr - base) d w
      → Stored kernel region (addr - base) d w'
  Stored-write addr addr' d bytes w w' above hit e apart there =
      let apart' : ((addr - base) + length d ≤ addr' - base)
          ⊎ ((addr' - base) + length bytes ≤ addr - base) =
        elim apart [ inl h ↦ inl (ground arith) | inr h ↦ inr (ground arith) ] in
      Stored-region_write kernel files region (addr - base) (addr' - base) d bytes w w'
        (write-region addr' bytes w w' hit e) apart' there

  -- What is stored at an address of the region is read there.
  pub Stored-read :
      (addr : ℕ) (d buffer : List ℕ) (w : W)
      → holds base len addr ≡ true
      → length buffer ≡ length d
      → Stored kernel region (addr - base) d w
      → read vmm_userspace addr buffer bus w ≡ (ok tt, d, w)
  Stored-read addr d buffer w hit fits there =
      let device = outer_sync (region_device kernel debug region) in
      rw
        (
          on_bus.after,
          read-insert device base len addr on_bus.rest vmm_userspace buffer w on_bus.low
              on_bus.valid on_bus.inserted,
          hit,
        )
        (forward_read-region F kernel debug region
          (record { offset = addr - base; address = addr; id = vmm_userspace }) d buffer w refl
          (Stored-region_read kernel region (addr - base) d buffer w fits there))
