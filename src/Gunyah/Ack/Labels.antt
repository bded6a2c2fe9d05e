-- ===== src/Gunyah/Ack/Labels.antt =====
-- gunyah/src/vm.rs with the feature `ack-bindings`: the labels of the mappings of a machine.
use native.Mathlib.Nat.{mod-eq_of_lt}
use gunyah_test_vmm.Base.{
  ℕ, ◌+◌, ◌%◌, ◌^◌, ◌≤◌, ◌<◌, ◌≡◌, ◌≢◌, Bool, Bool-cases, inl, inr, List, [], ◌∷◌, ◌++◌, Outcome,
  ok, err, panic, Profile, length, length-append, arith, ap, sym, ◌∙◌,
}
use gunyah_test_vmm.Errors.{AnyError}
use gunyah_test_vmm.Effects.{M, continue, ◌>>=◌, ◌>>◌, pure, lift, or_panic}
use gunyah_test_vmm.Effects.Returns.{>>=-ok, >>-ok, lift-ok, pure-ok}
use gunyah_test_vmm.Gunyah.Vm.{ShareType, GuestMemoryAccess}
use gunyah_test_vmm.Gunyah.Ack.{
  AckKernel, AckVm, AckRegion, AckOp, MapKey, UserspaceMemoryRegion, contains_key, ack_args,
  ack_request, ack_insert, ack_insert_new, ack_map_memory, on_kernel, ack_mem_clone, ack_map_mut,
}

-- The number of mappings does not go down.
abbrev pub Grows : {K A : Type 0} → AckOp K A → Type 0
Grows {K} op = (s : AckVm × K) → length s.0.maps ≤ length (op s).1.0.maps

module _ {K : Type 0} where
  on_kernel-Grows : {A : Type 0} (m : M K A) → Grows (on_kernel m)
  unfolding on_kernel
  on_kernel-Grows m (self, k) = omega arith

  pure-Grows : {A : Type 0} (a : A) → Grows {K = K} (pure a)
  unfolding pure
  pure-Grows a s = omega arith

  lift-Grows : {A : Type 0} (x : Outcome AnyError A) → Grows {K = K} (lift x)
  unfolding lift
  lift-Grows x s = omega arith

module _ {K A B : Type 0} where
  continue-Grows :
      (n : ℕ) (f : A → AckOp K B) (x : Outcome AnyError A × (AckVm × K))
      → n ≤ length x.1.0.maps
      → ((a : A) → Grows (f a))
      → n ≤ length (continue f x).1.0.maps
  continue-Grows n f (ok a, s) h then = omega (arith, then a s)
  continue-Grows n f (err e, s) h then = h
  continue-Grows n f (panic, s) h then = h

  >>=-Grows :
      (m : AckOp K A) (f : A → AckOp K B) → Grows m → ((a : A) → Grows (f a)) → Grows (m >>= f)
  unfolding ◌>>=◌
  >>=-Grows m f first then s = continue-Grows (length s.0.maps) f (m s) (first s) then

  >>-Grows : (m : AckOp K A) (n : AckOp K B) → Grows m → Grows n → Grows (m >> n)
  unfolding ◌>>◌
  >>-Grows m n first then s = continue-Grows (length s.0.maps) (λ _. n) (m s) (first s) (λ _. then)

module _ {K : Type 0} (kernel : AckKernel K) where
  ack_insert-Grows :
      (key : MapKey) (addr : ℕ) (share_type : ShareType) (access : GuestMemoryAccess)
      (region : AckRegion)
      → Grows (ack_insert kernel key addr share_type access region)
  unfolding ack_insert
  ack_insert-Grows key addr share_type access region (self, k) =
      let maps = self.maps ++ ((key, addr) ∷ []) in
      let self' : AckVm = record self { maps = maps } in
      let request =
        ack_request kernel share_type self.fd (ack_args self' key.guest_addr access region addr) in
      omega (
        arith,
        length-append self.maps ((key, addr) ∷ []),
        >>-Grows (on_kernel request) (pure tt) (on_kernel-Grows request) (pure-Grows tt)
            (self', kernel.madvise addr region.size region.mem.huge_pages k),
      )

  ack_insert_new-Grows :
      (key : MapKey) (addr : ℕ) (share_type : ShareType) (access : GuestMemoryAccess)
      (region : AckRegion)
      → Grows (ack_insert_new kernel key addr share_type access region)
  unfolding ack_insert_new
  ack_insert_new-Grows key addr share_type access region s =
      elim (Bool-cases (contains_key key s.0.maps)) [
        | inl there ↦ rw there (omega arith)
        | inr fresh ↦ rw fresh (ack_insert-Grows key addr share_type access region s)
      ]

  ack_map_memory-Grows :
      (p : Profile) (guest_addr : ℕ) (share_type : ShareType) (access : GuestMemoryAccess)
      (unmap : Bool) (region : AckRegion)
      → Grows (ack_map_memory kernel p guest_addr share_type access unmap region)
  unfolding ack_map_memory
  ack_map_memory-Grows p guest_addr share_type access unmap region =
      >>=-Grows _ _ (on_kernel-Grows _) λ mem. >>-Grows _ _ (lift-Grows _) (
        >>=-Grows _ _ (on_kernel-Grows _)
          λ addr. ack_insert_new-Grows _ addr share_type access region)

  on_kernel-ok :
      {A : Type 0} (m : M K A) (s t : AckVm × K) (a : A)
      → on_kernel m s ≡ (ok a, t)
      → (t.0 ≡ s.0) × (m s.1 ≡ (ok a, t.1))
  unfolding on_kernel
  on_kernel-ok m s t a e = (sym (ap (λ x. x.1.0) e), ap (λ x. (x.0, x.1.1)) e)

  -- The kernel granted the request, and answered with this state.
  abbrev pub IsGranted : ShareType → ℕ → UserspaceMemoryRegion → K → Type 0
  IsGranted share_type fd args k' =
      (k : K) × (n : ℕ) × (ack_request kernel share_type fd args k ≡ (ok n, k'))

  -- what a call has done that returned
  ack_insert-ok :
      (key : MapKey) (addr : ℕ) (share_type : ShareType) (access : GuestMemoryAccess)
      (region : AckRegion) (s t : AckVm × K)
      → ack_insert kernel key addr share_type access region s ≡ (ok tt, t)
      → (length t.0.maps ≡ length s.0.maps + 1)
        × IsGranted share_type s.0.fd (ack_args t.0 key.guest_addr access region addr) t.1
  unfolding ack_insert
  ack_insert-ok key addr share_type access region (self, k) t e =
      let maps = self.maps ++ ((key, addr) ∷ []) in
      let self' : AckVm = record self { maps = maps } in
      let k' = kernel.madvise addr region.size region.mem.huge_pages k in
      let request =
        ack_request kernel share_type self.fd (ack_args self' key.guest_addr access region addr) in
      let (n, t1, asked, left) = >>-ok (on_kernel request) (pure tt) (self', k') t tt e in
      let (_, same) = pure-ok tt tt t1 t left in
      let (same_vm, granted) = on_kernel-ok request (self', k') t1 n asked in
      let grown = length-append self.maps ((key, addr) ∷ []) in
      rw (← same, same_vm) (omega arith, (k', n, granted))

  ack_insert_new-ok :
      (key : MapKey) (addr : ℕ) (share_type : ShareType) (access : GuestMemoryAccess)
      (region : AckRegion) (s t : AckVm × K)
      → ack_insert_new kernel key addr share_type access region s ≡ (ok tt, t)
      → (length t.0.maps ≡ length s.0.maps + 1)
        × IsGranted share_type s.0.fd (ack_args t.0 key.guest_addr access region addr) t.1
  unfolding ack_insert_new
  ack_insert_new-ok key addr share_type access region s t e =
      elim (Bool-cases (contains_key key s.0.maps)) [
        | inl there ↦ let e' = rw there at e in ground arith
        | inr fresh ↦ ack_insert-ok key addr share_type access region s t (rw fresh at e)
      ]

  ack_map_memory-ok :
      (p : Profile) (guest_addr : ℕ) (share_type : ShareType) (access : GuestMemoryAccess)
      (unmap : Bool) (region : AckRegion) (s t : AckVm × K)
      → ack_map_memory kernel p guest_addr share_type access unmap region s ≡ (ok tt, t)
      → (length t.0.maps ≡ length s.0.maps + 1)
        × ((addr : ℕ) × IsGranted share_type s.0.fd
              (ack_args t.0 guest_addr access region addr)
              t.1)
  unfolding ack_map_memory
  ack_map_memory-ok p guest_addr share_type access unmap region s t e =
      let (mem, s1, cloned, e1) = >>=-ok _ _ s t tt e in
      let (_, s2, mapped, e2) = >>-ok _ _ s1 t tt e1 in
      let (addr, s3, at_addr, e3) = >>=-ok _ _ s2 t tt e2 in
      let (same1, _) = on_kernel-ok (ack_mem_clone kernel region.mem) s s1 mem cloned in
      let (_, same2) = lift-ok _ s1 s2 tt mapped in
      let (same3, _) = on_kernel-ok (or_panic (ack_map_mut kernel p region)) s2 s3 addr at_addr in
      let same : s3.0 ≡ s.0 = same3 ∙ (sym (ap (λ x. x.0) same2) ∙ same1) in
      let (grown, granted) =
        ack_insert_new-ok (record { guest_addr = guest_addr; region = record region { mem = mem } })
          addr share_type access region s3 t e3 in
      (rw same at grown, (addr, rw same at granted))

-- the arguments of `__map_memory`
pub record MapCall : Type 0 where
  pub guest_addr : ℕ
  pub share_type : ShareType
  pub access : GuestMemoryAccess
  pub unmap : Bool
  pub region : AckRegion

module _ {K : Type 0} (kernel : AckKernel K) (p : Profile) where
  abbrev pub call_map : MapCall → AckOp K (Unit {0})
  call_map c = ack_map_memory kernel p c.guest_addr c.share_type c.access c.unmap c.region

  -- what calls leave, however each ends
  unfoldable pub call_maps : List MapCall → AckVm × K → AckVm × K
  call_maps [] s = s
  call_maps (c ∷ cs) s = call_maps cs (call_map c s).1

  call_maps-Grows :
      (cs : List MapCall) (s : AckVm × K) → length s.0.maps ≤ length (call_maps cs s).0.maps
  unfolding call_maps
  call_maps-Grows [] s = omega arith
  call_maps-Grows (c ∷ cs) s = omega (
    arith,
    call_maps-Grows cs (call_map c s).1,
    ack_map_memory-Grows kernel p c.guest_addr c.share_type c.access c.unmap c.region s,
  )

  differ : (m n : ℕ) → m < n → n < 2 ^ 32 → m % 2 ^ 32 ≢ n % 2 ^ 32
  differ m n less small e = omega (arith, mod-eq_of_lt small)

  -- As long as a machine has fewer than 2 ^ 32 mappings: of two mappings that were granted, whatever
  -- calls came between them and however these ended, the requests that the driver got had different
  -- labels.
  pub ack_map_memory-labels :
      (a b : MapCall) (cs : List MapCall) (s s1 s2 : AckVm × K)
      → call_map a s ≡ (ok tt, s1)
      → call_map b (call_maps cs s1) ≡ (ok tt, s2)
      → length s2.0.maps < 2 ^ 32
      → (x y : UserspaceMemoryRegion) × IsGranted kernel a.share_type s.0.fd x s1.1
        × IsGranted kernel b.share_type (call_maps cs s1).0.fd y s2.1
        × (x.label ≢ y.label)
  unfolding ack_args
  ack_map_memory-labels a b cs s s1 s2 first second few =
      let (one, (addr, granted)) =
        ack_map_memory-ok kernel p a.guest_addr a.share_type a.access a.unmap a.region s s1 first in
      let (two, (addr', granted')) =
        ack_map_memory-ok kernel p b.guest_addr b.share_type b.access b.unmap b.region
          (call_maps cs s1) s2 second in
      let between = call_maps-Grows cs s1 in
      (
        ack_args s1.0 a.guest_addr a.access a.region addr,
        ack_args s2.0 b.guest_addr b.access b.region addr',
        granted,
        granted',
        differ (length s1.0.maps) (length s2.0.maps) (omega arith) few,
      )
