-- ===== src/Vmm/Vcpu/Exits.antt =====
-- vmm/src/vcpu.rs: what becomes of the exits of a vCPU.
use gunyah_test_vmm.Base.{
  ℕ, ◌-◌, ◌≤◌, ◌<◌, ◌≡◌, refl, true, false, Bool-cases, inl, inr, ◌++◌, ok, ◌==◌, length, take,
  drop, max_u64, arith, ge→ltb, ==→eq, ne→==,
}
use gunyah_test_vmm.Gunyah.Kernel.{VcpuRun}
use gunyah_test_vmm.Bus.Devices.{Devices, insert}
use gunyah_test_vmm.Bus.Invariant.{IsValid}
use gunyah_test_vmm.Bus.Lookup.{holds}
use gunyah_test_vmm.Bus.Dispatch.{
  AccessId, BusEntry, read, write, forward_read, forward_write, read-insert, write-insert,
}
use gunyah_test_vmm.Vmm.Vcpu.{handle_mmio, handle_exit, resume, exit_mmio, exit_unknown}

-- An exit by which the guest reads (0) or writes (1) at most the eight bytes of the page.
abbrev pub IsAccess : ℕ → VcpuRun → Type 0
IsAccess direction page =
    (page.exit_reason ≡ exit_mmio) × (page.is_write ≡ direction) × (page.len ≤ length page.bytes)

module _ {W F : Type 0} (id : AccessId) (bus : Devices (BusEntry W F)) (page : VcpuRun)
    (w : W) where
  pub handle_exit-reads :
      IsAccess 0 page
      → handle_exit id bus page w ≡ (
          let (r, d, w') = read id page.phys_addr (take page.len page.bytes) bus w in
          resume (record page { bytes = d ++ drop page.len page.bytes }) r w')
  unfolding handle_exit handle_mmio
  handle_exit-reads access =
      rw
        (handle_exit, handle_mmio, access.0, access.1, ge→ltb (length page.bytes) page.len access.2)
        refl

  pub handle_exit-writes :
      IsAccess 1 page
      → handle_exit id bus page w ≡ (
          let (r, w') = write id page.phys_addr (take page.len page.bytes) bus w in
          resume page r w')
  unfolding handle_exit handle_mmio
  handle_exit-writes access =
      rw
        (handle_exit, handle_mmio, access.0, access.1, ge→ltb (length page.bytes) page.len access.2)
        refl

module _ {W F : Type 0} where
  handle_mmio-bounded :
      (id : AccessId) (bus : Devices (BusEntry W F)) (page : VcpuRun) (w : W)
      → (handle_mmio id bus page w).0 ≡ ok tt
      → (direction : ℕ) × (direction ≤ 1)
        × (page.is_write ≡ direction)
        × (page.len ≤ length page.bytes)
  unfolding handle_mmio
  handle_mmio-bounded id bus page w h = elim (Bool-cases (page.is_write == 1)) [
    | inl writes ↦ (1, omega arith, ==→eq page.is_write 1 writes, ground arith)
    | inr e ↦ elim (Bool-cases (page.is_write == 0)) [
      | inl reads ↦ (0, omega arith, ==→eq page.is_write 0 reads, ground arith)
      | inr neither ↦ let no = rw (e, neither) at h in ground arith
    ]
  ]

  -- If an exit is handled without an error or a panic, it was a read or a write of the guest of no
  -- more bytes than the page has.
  handle_exit-IsAccess :
      (id : AccessId) (bus : Devices (BusEntry W F)) (page : VcpuRun) (w : W)
      → (handle_exit id bus page w).0 ≡ ok tt
      → (direction : ℕ) × (direction ≤ 1) × IsAccess direction page
  unfolding handle_exit handle_mmio
  handle_exit-IsAccess id bus page w h = elim (Bool-cases (page.exit_reason == exit_mmio)) [
    | inl is_mmio ↦
        let reason = ==→eq page.exit_reason exit_mmio is_mmio in
        let unknown : (page.exit_reason == exit_unknown) ≡ false =
          ne→== page.exit_reason exit_unknown (λ z. omega arith) in
        let (direction, small, way, fits) =
          handle_mmio-bounded id bus page w (rw (unknown, is_mmio) at h) in
        (direction, small, (reason, way, fits))
    | inr other ↦ let no = rw other at h in ground arith
  ]

  -- When the guest reads at most as many bytes as the page has, at an address of a device that was
  -- inserted into a valid map, below the last address of u64, the device answers: it is told the
  -- offset, the address and the vCPU, its bytes begin the data of the page, the rest of the data
  -- stays, and the guest resumes by what the device returned.
  pub handle_exit-read :
      (e : BusEntry W F) (base len : ℕ) (m : Devices (BusEntry W F)) (id : AccessId)
      (page : VcpuRun) (w : W)
      → base < max_u64
      → IsValid m
      → (insert e base len m).0 ≡ ok tt
      → holds base len page.phys_addr ≡ true
      → IsAccess 0 page
      → handle_exit id (insert e base len m).1 page w ≡ (
          let (r, d, w') =
            forward_read e
              (record { offset = page.phys_addr - base; address = page.phys_addr; id = id })
              (take page.len page.bytes)
              w in
          resume (record page { bytes = d ++ drop page.len page.bytes }) r w')
  unfolding handle_exit handle_mmio
  handle_exit-read e base len m id page w hb v done hit access =
      rw
        (
          handle_exit,
          handle_mmio,
          access.0,
          access.1,
          ge→ltb (length page.bytes) page.len access.2,
          read-insert e base len page.phys_addr m id (take page.len page.bytes) w hb v done,
          hit,
        )
        refl

  -- When the guest writes at most as many bytes as the page has, at an address of a device that was
  -- inserted into a valid map, below the last address of u64, the device gets them, told the offset,
  -- the address and the vCPU; the data of the page stays, and the guest resumes by what the device
  -- returned.
  pub handle_exit-write :
      (e : BusEntry W F) (base len : ℕ) (m : Devices (BusEntry W F)) (id : AccessId)
      (page : VcpuRun) (w : W)
      → base < max_u64
      → IsValid m
      → (insert e base len m).0 ≡ ok tt
      → holds base len page.phys_addr ≡ true
      → IsAccess 1 page
      → handle_exit id (insert e base len m).1 page w ≡ (
          let (r, w') =
            forward_write e
              (record { offset = page.phys_addr - base; address = page.phys_addr; id = id })
              (take page.len page.bytes)
              w in
          resume page r w')
  unfolding handle_exit handle_mmio
  handle_exit-write e base len m id page w hb v done hit access =
      rw
        (
          handle_exit,
          handle_mmio,
          access.0,
          access.1,
          ge→ltb (length page.bytes) page.len access.2,
          write-insert e base len page.phys_addr m id (take page.len page.bytes) w hb v done,
          hit,
        )
        refl
