-- ===== src/Vmm/Vcpu/Provided.antt =====
-- vmm/src/vcpu.rs: when `vmmio_provide_read` takes the bytes it is given.
use gunyah_test_vmm.Base.{
  ap, sym, ◌∙◌, ℕ, ◌≡◌, ◌≢◌, ◌↔◌, ◌⊎◌, inl, inr, refl, List, ok, err, panic, length, arith, eq→==,
  ==→eq, ◌==◌, Bool-cases, Outcome-cases,
}
use gunyah_test_vmm.Errors.{AnyError}
use gunyah_test_vmm.Gunyah.Kernel.{Kernel, VcpuRun}
use gunyah_test_vmm.Gunyah.Functions
use gunyah_test_vmm.Vmm.Vcpu.{GunyahVcpu, check_provided, provide_read, vmmio_provide_read}

-- The vCPU has exited for a read at the address, of as many bytes as there are.
abbrev pub Waits : VcpuRun → ℕ → List ℕ → Type 0
Waits page addr d =
    (page.exit_reason ≡ 1) × (page.is_write ≡ 0) × (page.phys_addr ≡ addr) × (page.len ≡ length d)

check_provided-Waits :
    (addr : ℕ) (d : List ℕ) (page : VcpuRun)
    → check_provided addr d page ≡ ok tt
    → Waits page addr d
unfolding check_provided
check_provided-Waits addr d page e = ground arith

Waits-check_provided :
    (addr : ℕ) (d : List ℕ) (page : VcpuRun)
    → Waits page addr d
    → check_provided addr d page ≡ ok tt
unfolding check_provided
Waits-check_provided addr d page (mmio, reads, here, enough) = ground arith

check_provided-panic : (addr : ℕ) (d : List ℕ) (page : VcpuRun) → check_provided addr d page ≢ panic
unfolding check_provided
check_provided-panic addr d page e = ground arith

module _ {W : Type 0} (kernel : Kernel W) (self : GunyahVcpu) (addr : ℕ) (d : List ℕ) (w : W) where
  -- the page that the vCPU shares
  abbrev page : VcpuRun
  page = Functions.mmap kernel self.vcpu w

  -- the state after the bytes have been taken, and the guest resumes as handled
  abbrev taken : W
  taken = Functions.store kernel self.vcpu (record page { bytes = d; resume_action = 0 }) w

  provided_cases :
      (Waits page addr d
        × (length d ≡ length page.bytes)
        × (vmmio_provide_read kernel self addr d w ≡ (ok tt, taken)))
      ⊎ (Waits page addr d
          × (length d ≢ length page.bytes)
          × (vmmio_provide_read kernel self addr d w ≡ (panic, w)))
      ⊎ ((¬ (Waits page addr d))
          × ((e : AnyError) × (vmmio_provide_read kernel self addr d w ≡ (err e, w))))
  unfolding vmmio_provide_read provide_read
  provided_cases = elim (Outcome-cases (check_provided addr d page)) [
    | inl (_, passed) ↦ elim (Bool-cases (length d == length page.bytes)) [
      | inl whole ↦ inl (
        check_provided-Waits addr d page passed,
        ==→eq (length d) (length page.bytes) whole,
        rw (vmmio_provide_read, provide_read, passed, whole) refl,
      )
      | inr part ↦ inr (
          inl (
            check_provided-Waits addr d page passed,
            (λ h. ground (arith, eq→== (length d) (length page.bytes) h)),
            rw (vmmio_provide_read, provide_read, passed, part) refl,
          ))
    ]
    | inr (inl (e, refused)) ↦ inr (
        inr (
          (λ h. let passed = Waits-check_provided addr d page h in ground arith),
          (e, rw (vmmio_provide_read, provide_read, refused) refl),
        ))
    | inr (inr panics) ↦ absurd (check_provided-panic addr d page panics)
  ]

  -- `vmmio_provide_read` succeeds, and stores the bytes, exactly when the vCPU has exited for a read at
  -- the address, of as many bytes as are provided, and these are as many as the page can hold. It
  -- panics, and changes nothing, exactly when the vCPU has exited for such a read and the page can
  -- hold another number of bytes. It returns an error, and changes nothing, exactly when the vCPU has
  -- not exited for such a read.
  pub vmmio_provide_read_iff :
      ((vmmio_provide_read kernel self addr d w ≡ (ok tt, taken))
        ↔ (Waits page addr d × (length d ≡ length page.bytes)))
      × ((vmmio_provide_read kernel self addr d w ≡ (panic, w))
          ↔ (Waits page addr d × (length d ≢ length page.bytes)))
      × (((e : AnyError) × (vmmio_provide_read kernel self addr d w ≡ (err e, w)))
          ↔ (¬ (Waits page addr d)))
  vmmio_provide_read_iff = elim provided_cases [
    | inl (waits, whole, run) ↦ (
      ((λ _. (waits, whole)), (λ _. run)),
      ((λ e. let clash = ap (λ x. x.0) (sym run ∙ e) in ground arith), (λ h. absurd (h.1 whole))),
      (
        (λ (x, e). let clash = ap (λ x. x.0) (sym run ∙ e) in ground arith),
        (λ h. absurd (h waits)),
      ),
    )
    | inr (inl (waits, part, run)) ↦ (
      ((λ e. let clash = ap (λ x. x.0) (sym run ∙ e) in ground arith), (λ h. absurd (part h.1))),
      ((λ _. (waits, part)), (λ _. run)),
      (
        (λ (x, e). let clash = ap (λ x. x.0) (sym run ∙ e) in ground arith),
        (λ h. absurd (h waits)),
      ),
    )
    | inr (inr (other, (x, run))) ↦ (
      ((λ e. let clash = ap (λ x. x.0) (sym run ∙ e) in ground arith), (λ h. absurd (other h.0))),
      ((λ e. let clash = ap (λ x. x.0) (sym run ∙ e) in ground arith), (λ h. absurd (other h.0))),
      ((λ _. other), (λ _. (x, run))),
    )
  ]
