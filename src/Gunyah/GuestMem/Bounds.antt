-- ===== src/Gunyah/GuestMem/Bounds.antt =====
-- gunyah/src/guest_mem.rs: whether the checks keep a mapping inside its region and its file.
use gunyah_test_vmm.Base.{
  Outcome, ℕ, ◌+◌, ◌≤◌, ◌<◌, ◌≡◌, refl, Bool-cases, inl, inr, ap, ok, debug, release, u64_size,
  arith, ltb, lt→ltb, ge→ltb, ◌%◌,
}
use gunyah_test_vmm.Effects.{◌>>=◌, lift}
use gunyah_test_vmm.Gunyah.Kernel.{Kernel}
use gunyah_test_vmm.Gunyah.GuestMem.{GuestMem, GuestMemRegion, MmapOptions, region_new, map_options}

-- the checks of `GuestMemRegion::new`
region_new-extent :
    {W : Type 0} (kernel : Kernel W) (mem : GuestMem) (off len file_size : ℕ) (w w1 w' : W)
    (r : GuestMemRegion)
    → kernel.file_len mem.fd w ≡ (ok file_size, w1)
    → region_new kernel debug mem off len w ≡ (ok r, w')
    → (r.off ≡ off) × (r.size ≡ len) × (off + len < u64_size) × (off + len ≤ file_size)
unfolding region_new ◌>>=◌ lift
region_new-extent kernel mem off len file_size w w1 w' r measured made =
    elim (Bool-cases (ltb (off + len) u64_size)) [
      | inl small ↦ elim (Bool-cases (ltb file_size (off + len))) [
        | inl beyond ↦ let no = rw (small, measured, beyond) at made in ground arith
        | inr inside ↦
            let yes = rw (small, measured, inside) at made in
            let is_r : Outcome.ok (record { mem = mem; off = off; size = len }) ≡ ok r =
              ap (λ x. x.0) yes in
            ground arith
      ]
      | inr large ↦ let no = rw large at made in ground arith
    ]

-- Built for debugging: a mapping that is granted in a region, which `GuestMemRegion::new` has made of
-- the file of a memory, is the range of the file asked for; it lies inside the region, and the region
-- inside the file.
pub map_options-region_new :
    {W : Type 0} (kernel : Kernel W) (mem : GuestMem) (off len file_size offset size : ℕ)
    (w w1 w' : W) (r : GuestMemRegion) (options : MmapOptions)
    → kernel.file_len mem.fd w ≡ (ok file_size, w1)
    → region_new kernel debug mem off len w ≡ (ok r, w')
    → map_options debug r offset size ≡ ok options
    → (options.offset ≡ off + offset)
      × (options.len ≡ size)
      × (options.offset + options.len ≤ off + len)
      × (off + len ≤ file_size)
unfolding map_options
map_options-region_new kernel mem off len file_size offset size w w1 w' r options measured made
      granted =
    let (at, sized, small, inside) =
      region_new-extent kernel mem off len file_size w w1 w' r measured made in
    ground arith

-- Built for release, a mapping that begins at the end of the region or later is granted where the
-- sum of its offset and length wraps round once, to no more than the size of the region, and its
-- place in the file does not overflow.
pub map_options-wraps :
    (self : GuestMemRegion) (off size : ℕ)
    → u64_size ≤ off + size
    → off + size ≤ u64_size + self.size
    → self.size ≤ off
    → self.size < u64_size
    → self.off + off < u64_size
    → map_options release self off size ≡ ok (record { offset = self.off + off; len = size })
unfolding map_options
map_options-wraps self off size wraps low beyond word fits =
    let sum : (off + size) % u64_size ≤ self.size = omega arith in
    rw
      (
        ge→ltb (off + size) u64_size wraps,
        ge→ltb self.size ((off + size) % u64_size) sum,
        lt→ltb (self.off + off) u64_size fits,
      )
      refl
