-- ===== src/Run/Boot/Written.antt =====
-- src/main.rs: what `load_binaries` has checked, and what it writes.
use gunyah_test_vmm.Base.{
  String, ℕ, ◌+◌, ◌-◌, pow-pos, lt→ltb, le→leb, ◌^◌, ◌≤◌, ◌<◌, ◌≡◌, refl, sym, ap, ◌∙◌, List, [],
  ◌∷◌, ok, debug, length, arith, Option, u64_size, Outcome,
}
use gunyah_test_vmm.Errors.{AnyError}
use gunyah_test_vmm.Effects.{◌>>=◌, ◌>>◌, in_context, pure}
use gunyah_test_vmm.Effects.Returns.{>>-runs, pure-ok, >>-ok, >>=-ok, in_context-ok}
use gunyah_test_vmm.Gunyah.Kernel.{
  Kernel, Request, vm_set_dtb_config, vm_set_boot_context, boot_context_reg_id,
}
use gunyah_test_vmm.Gunyah.Vm
use gunyah_test_vmm.Bus.Dispatch.{write, vmm_userspace}
use gunyah_test_vmm.Vmm.Machine.{
  GunyahVirtualMachine, Op, on_world, write_slice, set_dtb_config, set_boot_pc,
}
use gunyah_test_vmm.Vmm.Machine.Writes.{Serves}
use gunyah_test_vmm.Serial.{SerialDevice}
use gunyah_test_vmm.Run.Boot.{Host, page_size, generate_fdt, load_binaries, place}
use gunyah_test_vmm.Types.Text.{codes}
use gunyah_test_vmm.Run.Args.{RunCommand}
use gunyah_test_vmm.Types.Guest.{GuestAddress, GuestSize}
use gunyah_test_vmm.Run.Align.{align_size, align_up, align_up_lem, round_up_bounds}
use gunyah_test_vmm.Run.Layout.{Placement, Region, plan, place_dtb_len, check_regions}

-- the regions that `load_binaries` checks
abbrev pub regions : RunCommand → ℕ → ℕ → Placement → List Region
regions args image_len rdisk_len at =
    record { name = codes "dtb"; addr = at.dtb_addr; size = at.dtb_len }
    ∷ record { name = args.image; addr = at.image_base; size = record { value = image_len } }
    ∷ record { name = args.rdisk; addr = at.rdisk_base; size = record { value = rdisk_len } }
    ∷ []

pub plan_cases :
    (page : ℕ) (args : RunCommand) (image_len rdisk_len : ℕ)
    (generate : GuestAddress → GuestAddress → Outcome AnyError (List ℕ)) (at : Placement)
    → plan debug page args image_len rdisk_len generate ≡ ok at
    → (place_dtb_len debug page (length at.dtb) ≡ ok at.dtb_len)
      × (check_regions debug args (regions args image_len rdisk_len at) ≡ ok tt)
unfolding plan
plan_cases page args image_len rdisk_len generate at e = ground arith

padded_fits :
    (k dtb_len : ℕ) (size : GuestSize)
    → place_dtb_len debug (2 ^ k) dtb_len ≡ ok size
    → dtb_len + 2 ^ k + (2 ^ k - 1) < u64_size
unfolding place_dtb_len align_size align_up
padded_fits k dtb_len size e = let one : 0 < 2 ^ k = pow-pos k in ground arith

pub place_dtb_len-le :
    (k dtb_len : ℕ) (size : GuestSize)
    → k ≤ 63
    → place_dtb_len debug (2 ^ k) dtb_len ≡ ok size
    → dtb_len ≤ size.value
unfolding place_dtb_len align_size
place_dtb_len-le k dtb_len size small e =
    let one : 0 < 2 ^ k = pow-pos k in
    let padded = padded_fits k dtb_len size e in
    let e' =
      rw
        (
          lt→ltb (dtb_len + 2 ^ k) u64_size (omega arith),
          le→leb 1 (2 ^ k) one,
          align_up_lem debug k (dtb_len + 2 ^ k) (omega arith) padded,
        )
        at e in
    let (above, _, _) = round_up_bounds k (dtb_len + 2 ^ k) in ground arith

module _ {W F : Type 0} (host : Host W F) where
  -- what `load_binaries` writes and asks for
  abbrev pub writes : Placement → List ℕ → List ℕ → Op W F (Unit {0})
  writes at image rdisk = do
    set_dtb_config host.kernel at.dtb_addr.value at.dtb_len.value at.dtb
    set_boot_pc host.kernel at.image_base.value
    in_context "Unable to copy binary image to VM's memory" (write_slice at.image_base.value image)
    in_context "Unable to copy ramdisk to VM's memory" (write_slice at.rdisk_base.value rdisk)

  pub load_binaries-writes :
      (args : RunCommand) (serial : Option (SerialDevice W)) (self : GunyahVirtualMachine W F)
      (w w1 w2 w3 : W) (image rdisk : List ℕ) (page : ℕ) (at : Placement)
      → host.read_file args.image w ≡ (ok image, w1)
      → host.read_file args.rdisk w1 ≡ (ok rdisk, w2)
      → page_size host debug args w2 ≡ (ok page, w3)
      → plan debug page args
          (length image)
          (length rdisk)
          (generate_fdt host debug self w3 args serial)
        ≡ ok at
      → load_binaries host debug args serial (self, w) ≡ writes at image rdisk (self, w3)
  unfolding load_binaries place on_world in_context ◌>>=◌
  load_binaries-writes args serial self w w1 w2 w3 image rdisk page at r1 r2 r3 planned =
      rw (r1, r2, r3, planned) refl

module _ {W F : Type 0} where
  write_slice-ok :
      (addr : ℕ) (bytes : List ℕ) (s s' : GunyahVirtualMachine W F × W)
      → write_slice addr bytes s ≡ (ok tt, s')
      → (s'.0 ≡ s.0) × (write vmm_userspace addr bytes s.0.bus s.1 ≡ (ok tt, s'.1))
  unfolding write_slice on_world
  write_slice-ok addr bytes s s' e = (sym (ap (λ x. x.1.0) e), ap (λ x. (x.0, x.1.1)) e)

  -- one request to the kernel
  request-ok :
      (kernel : Kernel W) (request : Request) (s s' : GunyahVirtualMachine W F × W)
      → on_world (λ self. kernel.ioctl self.vm.fd request >>= λ _. pure tt) s ≡ (ok tt, s')
      → (s'.0 ≡ s.0) × (s'.1 ≡ (kernel.ioctl s.0.vm.fd request s.1).1)
  unfolding on_world
  request-ok kernel request s s' e =
      let (n, k, asked, done) =
        >>=-ok (kernel.ioctl s.0.vm.fd request) (λ _. pure tt) s.1 s'.1 tt
          (ap (λ x. (x.0, x.1.1)) e) in
      let (_, same) = pure-ok tt tt k s'.1 done in
      (sym (ap (λ x. x.1.0) e), sym same ∙ sym (ap (λ x. x.1) asked))

module _ {W F : Type 0} (host : Host W F) where
  -- the calls that `writes` consists of, each of which has returned
  pub writes-ok :
      (at : Placement) (image rdisk : List ℕ) (self : GunyahVirtualMachine W F) (w : W)
      (s' : GunyahVirtualMachine W F × W)
      → writes host at image rdisk (self, w) ≡ (ok tt, s')
      → (wa wb wc wd : W) × (write vmm_userspace at.dtb_addr.value at.dtb self.bus w ≡ (ok tt, wa))
        × ((fd : ℕ) × (request : Request) × (wb ≡ (host.kernel.ioctl fd request wa).1))
        × ((fd : ℕ) × (request : Request) × (wc ≡ (host.kernel.ioctl fd request wb).1))
        × (write vmm_userspace at.image_base.value image self.bus wc ≡ (ok tt, wd))
        × (write vmm_userspace at.rdisk_base.value rdisk self.bus wd ≡ (ok tt, s'.1))
        × (s'.0 ≡ self)
  unfolding set_dtb_config set_boot_pc Vm.set_dtb_config Vm.set_boot_pc Vm.set_boot_context
  writes-ok at image rdisk self w s' e =
      let (_, s1, dtb, e1) = >>-ok _ _ (self, w) s' tt e in
      let (_, s0, tree, config) = >>-ok _ _ (self, w) s1 tt dtb in
      let (kept0, w0) = write_slice-ok _ _ (self, w) s0 (in_context-ok _ _ (self, w) s0 tt tree) in
      let (kept1, w1) = request-ok host.kernel _ s0 s1 (in_context-ok _ _ s0 s1 tt config) in
      let (_, s2, boot, e2) = >>-ok _ _ s1 s' tt e1 in
      let (kept2, w2) = request-ok host.kernel _ s1 s2 boot in
      let (_, s3, copied, e3) = >>-ok _ _ s2 s' tt e2 in
      let (kept3, w3) = write_slice-ok _ _ s2 s3 (in_context-ok _ _ s2 s3 tt copied) in
      let (kept4, w4) = write_slice-ok _ _ s3 s' (in_context-ok _ _ s3 s' tt e3) in
      let at2 : s2.0 ≡ self = kept2 ∙ (kept1 ∙ kept0) in
      let at3 : s3.0 ≡ self = kept3 ∙ at2 in
      (
        s0.1,
        s1.1,
        s2.1,
        s3.1,
        w0,
        (_, _, w1),
        (_, _, w2),
        ap (λ m. write vmm_userspace at.image_base.value image m.bus s2.1) (sym at2) ∙ w3,
        ap (λ m. write vmm_userspace at.rdisk_base.value rdisk m.bus s3.1) (sym at3) ∙ w4,
        kept4 ∙ at3,
      )

module _ {W F : Type 0} (host : Host W F) (serves : Serves host.kernel) where
  write_slice-runs :
      (addr : ℕ) (bytes : List ℕ) (self : GunyahVirtualMachine W F) (w w' : W)
      → write vmm_userspace addr bytes self.bus w ≡ (ok tt, w')
      → write_slice addr bytes (self, w) ≡ (ok tt, (self, w'))
  unfolding write_slice on_world
  write_slice-runs addr bytes self w w' e = rw e refl

  request-runs :
      (request : Request) (self : GunyahVirtualMachine W F) (w : W)
      → (w' : W) × (on_world
            (λ self. host.kernel.ioctl self.vm.fd request >>= λ _. pure tt)
            (self, w)
          ≡ (ok tt, (self, w')))
  unfolding on_world ◌>>=◌ pure
  request-runs request self w = let (n, w', e) = serves.asks self.vm.fd request w in (w', rw e refl)

  in_context-runs :
      {A : Type 0} (s : String) (m : Op W F A) (t t' : GunyahVirtualMachine W F × W) (a : A)
      → m t ≡ (ok a, t')
      → in_context s m t ≡ (ok a, t')
  unfolding in_context
  in_context-runs s m t t' a e = rw e refl

  -- The calls return where the three writes do, whatever was done before.
  pub writes-runs :
      (at : Placement) (image rdisk : List ℕ) (self : GunyahVirtualMachine W F) (w : W)
      → ((w : W)
          → (w' : W) × (write vmm_userspace at.dtb_addr.value at.dtb self.bus w ≡ (ok tt, w')))
      → ((w : W)
          → (w' : W) × (write vmm_userspace at.image_base.value image self.bus w ≡ (ok tt, w')))
      → ((w : W)
          → (w' : W) × (write vmm_userspace at.rdisk_base.value rdisk self.bus w ≡ (ok tt, w')))
      → (s' : GunyahVirtualMachine W F × W) × (writes host at image rdisk (self, w) ≡ (ok tt, s'))
  unfolding set_dtb_config set_boot_pc Vm.set_dtb_config Vm.set_boot_pc Vm.set_boot_context
  writes-runs at image rdisk self w dtb img ram =
      let (w0, e0) = dtb w in
      let (w1, e1) = request-runs (vm_set_dtb_config at.dtb_addr.value at.dtb_len.value) self w0 in
      let (w2, e2) =
        request-runs (vm_set_boot_context (boot_context_reg_id Vm.reg_set_pc 0) at.image_base.value)
          self w1 in
      let (w3, e3) = img w2 in
      let (w4, e4) = ram w3 in
      let first =
        in_context-runs _ _ _ _ tt (write_slice-runs at.dtb_addr.value at.dtb self w w0 e0) in
      let second = in_context-runs _ _ _ _ tt e1 in
      let third =
        in_context-runs _ _ _ _ tt (write_slice-runs at.image_base.value image self w2 w3 e3) in
      let fourth =
        in_context-runs _ _ _ _ tt (write_slice-runs at.rdisk_base.value rdisk self w3 w4 e4) in
      (
        (self, w4),
        >>-runs _ _ (self, w) (self, w1) tt (>>-runs _ _ (self, w) (self, w0) tt first ∙ second)
            ∙ (>>-runs _ _ (self, w1) (self, w2) tt e2
                ∙ (>>-runs _ _ (self, w2) (self, w3) tt third ∙ fourth)),
      )
