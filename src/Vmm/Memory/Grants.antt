-- ===== src/Vmm/Memory/Grants.antt =====
-- A kernel that grants every request: what the helpers of vmm/src/memory.rs then return.
use gunyah_test_vmm.Base.{
  ℕ, ◌+◌, ◌-◌, ◌≤◌, ◌<◌, ◌≡◌, refl, arith, Profile, add_u64, sub_u64, u64_size, lt→ltb, ge→ltb,
  le→leb,
}
use gunyah_test_vmm.Errors.{msg}
use gunyah_test_vmm.Effects.{lift}
use gunyah_test_vmm.Effects.Outcomes.{
  Succeeds, Fails, pure-Succeeds, lift-Succeeds, lift-Fails, >>=-Succeeds, >>-Succeeds,
  or_panic-Succeeds, >>=-Fails,
}
use gunyah_test_vmm.Gunyah.Kernel.{Kernel, vm_map_mem, MapMemArgs}
use gunyah_test_vmm.Gunyah.GuestMem.{GuestMem, region_new, mem_clone, mem_dup}
use gunyah_test_vmm.Gunyah.Vm.{Vm, vm_dup}
use gunyah_test_vmm.Vmm.Memory.{GunyahGuestMemoryRegion}

-- A kernel that grants every request here: descriptors can be duplicated, a duplicate refers to a
-- file of the same length, and mappings can be changed. `size_of` is the length of the file behind
-- a descriptor.
pub record Grants {K : Type 0} (kernel : Kernel K) (size_of : ℕ → ℕ) : Type 0 where
  pub dup_ok : (fd : ℕ) → Succeeds (kernel.dup fd) (λ fd'. size_of fd' ≡ size_of fd)
  pub stat_ok : (fd : ℕ) → Succeeds (kernel.stat fd) (λ _. Unit {0})
  pub len_ok : (fd : ℕ) → Succeeds (kernel.file_len fd) (λ n. n ≡ size_of fd)
  pub map_ok :
      (fd : ℕ) (args : MapMemArgs) → Succeeds (kernel.ioctl fd (vm_map_mem args)) (λ _. Unit {0})

-- where a region lies: its guest address, its offset in the file and its size
abbrev pub extent : GunyahGuestMemoryRegion → ℕ × ℕ × ℕ
extent x = (x.guest_address, x.region.off, x.region.size)

module _ {K : Type 0} (kernel : Kernel K) (size_of : ℕ → ℕ) (grants : Grants kernel size_of)
    (p : Profile) where
  pub mem_clone-Succeeds :
      (mem : GuestMem) → Succeeds (mem_clone kernel mem) (λ mem'. size_of mem'.fd ≡ size_of mem.fd)
  unfolding mem_clone mem_dup
  mem_clone-Succeeds mem = or_panic-Succeeds (
      >>=-Succeeds (grants.dup_ok mem.fd)
        λ fd same. >>-Succeeds (grants.stat_ok fd) (pure-Succeeds _ same))

  pub vm_dup-Succeeds : (vm : Vm) → Succeeds (vm_dup kernel vm) (λ _. Unit {0})
  unfolding vm_dup
  vm_dup-Succeeds vm =
      >>=-Succeeds (grants.dup_ok vm.fd)
        λ fd same. >>-Succeeds (grants.stat_ok fd) (pure-Succeeds _ tt)

  pub add-Succeeds :
      (a b : ℕ) → a + b < u64_size → Succeeds (lift {K = K} (add_u64 p a b)) (λ n. n ≡ a + b)
  add-Succeeds a b small = lift-Succeeds _ (a + b) (rw (lt→ltb (a + b) u64_size small) refl) refl

  pub sub-Succeeds : (a b : ℕ) → b ≤ a → Succeeds (lift {K = K} (sub_u64 p a b)) (λ n. n ≡ a - b)
  sub-Succeeds a b le = lift-Succeeds _ (a - b) (rw (le→leb b a le) refl) refl

  pub region_new-Succeeds :
      (mem : GuestMem) (off size : ℕ)
      → off + size < u64_size
      → off + size ≤ size_of mem.fd
      → Succeeds (region_new kernel p mem off size) (λ r. (r.off ≡ off) × (r.size ≡ size))
  unfolding region_new
  region_new-Succeeds mem off size small fits = >>=-Succeeds (add-Succeeds off size small) λ end e.
      >>=-Succeeds (grants.len_ok mem.fd) λ len e'.
        lift-Succeeds _ (record { mem = mem; off = off; size = size })
          (rw (ge→ltb len end (omega arith)) refl) (refl, refl)

  -- A part that reaches past the end of the file is refused.
  pub region_new-Fails :
      (mem : GuestMem) (off size : ℕ)
      → off + size < u64_size
      → size_of mem.fd < off + size
      → Fails (region_new kernel p mem off size) (msg "GuestMemRegion extents past end of GuestMem")
  unfolding region_new
  region_new-Fails mem off size small over = >>=-Fails (add-Succeeds off size small) λ end e.
      >>=-Fails (grants.len_ok mem.fd)
        λ len e'. lift-Fails _ _ (rw (lt→ltb len end (omega arith)) refl)
