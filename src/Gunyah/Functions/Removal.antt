-- ===== src/Gunyah/Functions/Removal.antt =====
-- gunyah/src/irqfd.rs, gunyah/src/ioeventfd.rs and gunyah/src/vcpu.rs: dropping a value takes back
-- what making it has added.
use gunyah_test_vmm.Base.{
  ℕ, ◌≡◌, ap, sym, Bool, Option, ok, String, arith, ◌==◌, Bool-cases, inl, inr, ==→eq,
}
use gunyah_test_vmm.Effects.{M, ◌>>=◌, ◌>>◌, pure, lift, or_panic, in_context}
use gunyah_test_vmm.Effects.Returns.{>>=-ok, >>-ok, lift-ok, pure-ok, in_context-ok}
use gunyah_test_vmm.Gunyah.Kernel.{Kernel, FnArg}
use gunyah_test_vmm.Gunyah.Vm.{Vm, add_function, remove_function}
use gunyah_test_vmm.Gunyah.Functions.{
  Irqfd, Ioeventfd, Vcpu, irqfd_new, drop_irqfd, ioeventfd_new, drop_ioeventfd, vcpu_new, drop_vcpu,
  assert,
}

assert_zero : (n : ℕ) (x : Unit {0}) → assert (n == 0) ≡ ok x → n ≡ 0
assert_zero n x h = elim (Bool-cases (n == 0)) [
  | inl e ↦ ==→eq n 0 e
  | inr e ↦ let no = rw e at h in ground arith
]

module _ {K B : Type 0} where
  -- a request that must return zero, and what follows it
  added_zero :
      (m : M K ℕ) (n : M K B) (s : String) (k k'' : K) (b : B)
      → (in_context s m >>= λ added. lift (assert (added == 0)) >> n) k ≡ (ok b, k'')
      → (k' : K) × (m k ≡ (ok 0, k')) × (n k' ≡ (ok b, k''))
  added_zero m n s k k'' b h =
      let (added, k1, add, h1) = >>=-ok (in_context s m) _ k k'' b h in
      let (u, k2, zero_added, h2) = >>-ok (lift (assert (added == 0))) n k1 k'' b h1 in
      let (is_zero, same) = lift-ok (assert (added == 0)) k1 k2 u zero_added in
      let e = assert_zero added u is_zero in
      let e' = in_context-ok s m k k1 added add in (k2, rw (e, same) at e', h2)

module _ {K A B : Type 0} where
  then_pure : (m : M K A) (a b : B) (k k' : K) → (m >> pure a) k ≡ (ok b, k') → a ≡ b
  then_pure m a b k k' h =
      let (u, k1, _, h1) = >>-ok m (pure a) k k' b h in (pure-ok a b k1 k' h1).0

module _ {K : Type 0} (kernel : Kernel K) where
  -- If an irqfd is made, then a request has added a function to the virtual machine and returned
  -- zero, and to drop the irqfd is to remove that same function, and to panic if that fails.
  pub drop_irqfd-irqfd_new :
      (vm : Vm) (label : ℕ) (level : Bool) (self : Irqfd) (k k' : K)
      → irqfd_new kernel vm label level k ≡ (ok self, k')
      → (arg : FnArg) × (before after : K) × (add_function kernel vm arg before ≡ (ok 0, after))
        × (drop_irqfd kernel self ≡ (or_panic (remove_function kernel vm arg) >>= λ _. pure tt))
  unfolding irqfd_new drop_irqfd
  drop_irqfd-irqfd_new vm label level self k k' h =
      let (fd, k1, _, h1) = >>=-ok _ _ k k' self h in
      let (_, k2, _, h2) = >>-ok _ _ k1 k' self h1 in
      let (k3, add, h3) = added_zero _ _ _ k2 k' self h2 in
      let (made, end) = pure-ok _ self k3 k' h3 in
      (_, k2, k3, add, ap (drop_irqfd kernel) (sym made))

  -- If an ioeventfd is made, then a request has added a function to the virtual machine and returned
  -- zero, and to drop the ioeventfd is to remove that same function, and to panic if that fails.
  drop_ioeventfd-ioeventfd_new :
      (vm : Vm) (addr len : ℕ) (datamatch : Option ℕ) (self : Ioeventfd) (k k' : K)
      → ioeventfd_new kernel vm addr len datamatch k ≡ (ok self, k')
      → (arg : FnArg) × (before after : K) × (add_function kernel vm arg before ≡ (ok 0, after))
        × (drop_ioeventfd kernel self ≡ (or_panic (remove_function kernel vm arg) >>= λ _. pure tt))
  unfolding ioeventfd_new drop_ioeventfd
  drop_ioeventfd-ioeventfd_new vm addr len datamatch self k k' h =
      let (fd, k1, _, h1) = >>=-ok _ _ k k' self h in
      let (k2, add, h2) = added_zero _ _ _ k1 k' self h1 in
      let made = then_pure _ _ self k2 k' h2 in
      (_, k1, k2, add, ap (drop_ioeventfd kernel) (sym made))

  -- If a vCPU is made, then a request has added a function to the virtual machine and returned the
  -- descriptor of the vCPU, and to drop the vCPU is to remove that same function, and to panic if
  -- that fails.
  pub drop_vcpu-vcpu_new :
      (vm : Vm) (id : ℕ) (self : Vcpu) (k k' : K)
      → vcpu_new kernel vm id k ≡ (ok self, k')
      → (arg : FnArg) × (before after : K) × (add_function kernel vm arg before
          ≡ (ok self.vcpu, after))
        × (drop_vcpu kernel self ≡ (or_panic (remove_function kernel vm arg) >>= λ _. pure tt))
  unfolding vcpu_new drop_vcpu
  drop_vcpu-vcpu_new vm id self k k' h =
      let (fd, k1, add, h1) = >>=-ok _ _ k k' self h in
      let (_, k2, _, h2) = >>=-ok _ _ k1 k' self h1 in
      let (_, k3, _, h3) = >>-ok _ _ k2 k' self h2 in
      let (_, k4, _, h4) = >>-ok _ _ k3 k' self h3 in
      let made = then_pure _ _ self k4 k' h4 in
      let e = in_context-ok _ _ k k1 fd add in
      (_, k, k1, rw (ap (λ x. x.vcpu) made) at e, ap (drop_vcpu kernel) (sym made))
