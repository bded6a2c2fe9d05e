-- ===== src/Run/Threads/Found.antt =====
-- src/main.rs and vmm/src/vcpu.rs: what a thread knows of the device that it is on its way to, and
-- how the exit that led there is handled.
use gunyah_test_vmm.Base.{
  ℕ, suc, ◌≡◌, ◌⊎◌, refl, ◌∙◌, ap, inl, inr, true, false, List, ◌++◌, Option, none, some, Outcome,
  ok, err, panic, zero, [], ◌∷◌, ◌==◌, Bool-cases, arith, length, take, drop,
}
use gunyah_test_vmm.Errors.{AnyError}
use gunyah_test_vmm.Gunyah.Kernel.{VcpuRun}
use gunyah_test_vmm.Bus.Devices.{Devices, get_device}
use gunyah_test_vmm.Bus.Dispatch.{AccessId, BusAccessInfo, BusEntry, read, write}
use gunyah_test_vmm.Vmm.Vcpu.{handle_exit, handle_mmio, resume, resume_fault}
use gunyah_test_vmm.Vmm.Vcpu.Exits.{IsAccess, handle_exit-reads, handle_exit-writes}
use gunyah_test_vmm.Run.Threads.{
  Started, Lock, free, held, poisoned, Place, entering, exited, found, inside, reading, has_line,
  feeding, panicked, lock_of, lock, accesses, call_device, route, look, settle, after_ioctl,
  got_line, fed, turn,
}

append-take-drop : (n : ℕ) (l : List ℕ) → take n l ++ drop n l ≡ l
append-take-drop zero l = refl
append-take-drop (suc n) [] = refl
append-take-drop (suc n) (x ∷ l) = ap (◌∷◌ x) (append-take-drop n l)

accesses-IsAccess : (page : VcpuRun) → accesses page ≡ true → IsAccess 1 page ⊎ IsAccess 0 page
accesses-IsAccess page h = ground arith

module _ {W F : Type 0} (id : AccessId) (bus : Devices (BusEntry W F)) (page : VcpuRun)
    (w : W) where
  pub handle_exit-call :
      (offset address : ℕ) (e : BusEntry W F)
      → accesses page ≡ true
      → get_device page.phys_addr bus ≡ some (offset, address, e)
      → handle_exit id bus page w ≡ (
          let (r, page', w') =
            call_device page (record { offset = offset; address = address; id = id }) e w in
          resume page' r w')
  unfolding read write
  handle_exit-call offset address e access there = elim (accesses-IsAccess page access) [
    | inl writes ↦ handle_exit-writes id bus page w writes ∙ rw (write, writes.1, there) refl
    | inr reads ↦ handle_exit-reads id bus page w reads ∙ rw (read, reads.1, there) refl
  ]

  pub handle_exit-nobody :
      accesses page ≡ true
      → get_device page.phys_addr bus ≡ none
      → handle_exit id bus page w ≡ (ok tt, record page { resume_action = resume_fault }, w)
  unfolding read write
  handle_exit-nobody access there = elim (accesses-IsAccess page access) [
    | inl writes ↦ handle_exit-writes id bus page w writes ∙ rw (write, there) refl
    | inr reads ↦
        handle_exit-reads id bus page w reads
        ∙ rw (read, there, append-take-drop page.len page.bytes) refl
  ]

  pub handle_exit-refused :
      accesses page ≡ false
      → (r : Outcome AnyError (Unit {0})) × (handle_exit id bus page w ≡ (r, page, w))
        × (settle {W = W} {F = F} r page ≡ panicked)
  unfolding handle_exit handle_mmio
  handle_exit-refused refused = ((handle_exit id bus page w).0, ground arith, ground arith)

module _ {W F : Type 0} (m : Started W F) (i : ℕ) where
  -- what the search has found for a thread that is on its way to a device
  abbrev pub Found : VcpuRun → BusAccessInfo → BusEntry W F → Type 0
  Found page io e =
      (accesses page ≡ true)
      × (get_device page.phys_addr m.bus ≡ some (io.offset, io.address, e))
      × (io.id ≡ (m.vcpus i).access_id)

  abbrev pub Sound : Place W F → Type 0
  Sound (found page io e) = Found page io e
  Sound (inside page io e) = Found page io e
  Sound _ = Unit {0}

  abbrev pub SoundAfter : Option (Place W F × (ℕ → Lock) × W) → Type 0
  SoundAfter none = Unit {0}
  SoundAfter (some r) = Sound r.0

  after_ioctl-Sound :
      (r : Outcome AnyError (Unit {0})) (page : VcpuRun) → Sound (after_ioctl r page)
  after_ioctl-Sound (ok _) page = tt
  after_ioctl-Sound (err _) page = tt
  after_ioctl-Sound panic page = tt

  settle-Sound : (r : Outcome AnyError (Unit {0})) (page : VcpuRun) → Sound (settle r page)
  settle-Sound (ok _) page = tt
  settle-Sound (err _) page = tt
  settle-Sound panic page = tt

  got_line-Sound : (r : Outcome AnyError (List ℕ)) → Sound (got_line r)
  got_line-Sound (ok bytes) = elim (Bool-cases (length bytes == 0)) [
    | inl e ↦ rw (Sound, e) tt
    | inr e ↦ rw (Sound, e) tt
  ]
  got_line-Sound (err _) = tt
  got_line-Sound panic = tt

  fed-Sound : (r : Outcome AnyError (Unit {0})) → Sound (fed r)
  fed-Sound (ok _) = tt
  fed-Sound (err _) = tt
  fed-Sound panic = tt

  look-Sound : (page : VcpuRun) → Sound (look (m.vcpus i).access_id m.bus page)
  look-Sound page = elim (Bool-cases (accesses page)) [
    | inl e ↦ rw (Sound, e) (routed (get_device page.phys_addr m.bus) refl e)
    | inr e ↦ rw (Sound, e) tt
  ]
    where
      routed :
          (hit : Option (ℕ × ℕ × BusEntry W F))
          → get_device page.phys_addr m.bus ≡ hit
          → accesses page ≡ true
          → Sound (route (m.vcpus i).access_id page hit)
      routed none there e = tt
      routed (some (offset, address, d)) there e = (e, there, refl)

  lock-Sound :
      (o : Option ℕ) (next : Place W F) (l : ℕ → Lock) (w : W)
      → Sound next
      → SoundAfter (lock i o next l w)
  lock-Sound none next l w h = h
  lock-Sound (some k) next l w h = at_lock (l k) refl
    where
      at_lock : (x : Lock) → l k ≡ x → SoundAfter (lock i (some k) next l w)
      at_lock free e = rw (SoundAfter, e) h
      at_lock (held j) e = rw (SoundAfter, e) tt
      at_lock poisoned e = rw (SoundAfter, e) tt

  pub turn-Sound : (p : Place W F) (l : ℕ → Lock) (w : W) → Sound p → SoundAfter (turn m i p l w)
  unfolding turn
  turn-Sound (entering page) l w h = after_ioctl-Sound _ _
  turn-Sound (exited page) l w h = look-Sound page
  turn-Sound (found page io d) l w h = lock-Sound (lock_of io d) (inside page io d) l w h
  turn-Sound (inside page io d) l w h = settle-Sound _ _
  turn-Sound reading l w h = got_line-Sound (m.read_line w).0
  turn-Sound (has_line bytes) l w h = lock-Sound (some m.console) (feeding bytes) l w tt
  turn-Sound (feeding bytes) l w h = fed-Sound _
  turn-Sound panicked l w h = tt
