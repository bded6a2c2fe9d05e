-- ===== src/Serial/Guest.antt =====
-- src/serial.rs and vmm/src/vcpu.rs: accesses of the guest to the console that `SerialDevice::new` has
-- put on the bus.
use gunyah_test_vmm.Base.{
  String, take-drop, false, ℕ, ◌+◌, ◌-◌, ◌≤◌, ◌<◌, ◌≡◌, refl, sym, ap, ◌∙◌, List, [], ◌∷◌, ◌++◌,
  true, Outcome, ok, err, panic, Profile, length-take, Bool-cases, inl, inr, ==→eq, u64_size, arith,
  lt→ltb, le→leb, ltb, ◌==◌, if◌then◌else◌, length, take, drop,
}
use gunyah_test_vmm.Errors.{AnyError, context}
use gunyah_test_vmm.Effects.Returns.{>>=-ok, >>-ok, pure-ok, lift-ok, in_context-ok}
use gunyah_test_vmm.Gunyah.Kernel.{Kernel, VcpuRun}
use gunyah_test_vmm.Bus.Devices.{insert}
use gunyah_test_vmm.Bus.Invariant.{IsValid}
use gunyah_test_vmm.Bus.Lookup.{holds}
use gunyah_test_vmm.Bus.Dispatch.{AccessId, BusEntry, outer_sync, forward_read, forward_write}
use gunyah_test_vmm.Fdt.{FdtWriter}
use gunyah_test_vmm.Vmm.Interrupt.{GunyahInterrupt}
use gunyah_test_vmm.Vmm.Vcpu.{handle_exit, resume}
use gunyah_test_vmm.Vmm.Vcpu.Exits.{IsAccess, handle_exit-read, handle_exit-write}
use gunyah_test_vmm.Vmm.Machine.{
  GunyahVirtualMachine, add_edge_interrupt, add_device, bus_insert, update,
}
use gunyah_test_vmm.Vmm.Machine.Given.{on_world-ok, with_bus-ok}
use gunyah_test_vmm.Serial.{
  SerialPort, SerialDevice, serial_new, serial_device, serial_read, serial_write, refuse,
}

module _ {W F : Type 0} (kernel : Kernel W) (p : Profile) where
  add_edge_interrupt-bus :
      (line : ℕ) (s s' : GunyahVirtualMachine W F × W) (i : GunyahInterrupt)
      → add_edge_interrupt kernel line s ≡ (ok i, s')
      → s'.0.bus ≡ s.0.bus
  unfolding add_edge_interrupt update
  add_edge_interrupt-bus line s s' i e =
      let (i1, s1, made, e1) = >>=-ok _ _ s s' i e in
      let (_, same) = on_world-ok _ s s1 i1 (in_context-ok _ _ s s1 i1 made) in
      let (_, s2, listed, e2) = >>-ok _ _ s1 s' i e1 in
      let (_, same2) = pure-ok i1 i s2 s' e2 in
      ap (λ x. x.0.bus) (sym same2) ∙ (ap (λ x. x.1.0.bus) (sym listed) ∙ ap (λ x. x.bus) same)

  -- where the bus has the console
  serial_new-ok :
      (fdt : FdtWriter F) (make : GunyahInterrupt → SerialPort W) (start line : ℕ)
      (s s' : GunyahVirtualMachine W F × W) (self : SerialDevice W)
      → start + 8 < u64_size
      → serial_new kernel p fdt make start line s ≡ (ok self, s')
      → ((insert (outer_sync (serial_device fdt self)) start (start + 8) s.0.bus).0 ≡ ok tt)
        × (s'.0.bus ≡ (insert (outer_sync (serial_device fdt self)) start (start + 8) s.0.bus).1)
  unfolding serial_new add_device bus_insert
  serial_new-ok fdt make start line s s' self small e =
      let (i, s1, made, e1) = >>=-ok _ _ s s' self e in
      let bus = add_edge_interrupt-bus line s s1 i made in
      let (len, s2, sum, e2) = >>=-ok _ _ s1 s' self e1 in
      let (added, same2) = lift-ok _ s1 s2 len sum in
      let end : len ≡ start + 8 = ground arith in
      let (_, s3, inserted, e3) = >>-ok _ _ s2 s' self e2 in
      let (is_self, same3) = pure-ok _ self s3 s' e3 in
      let (done, after) = with_bus-ok s2.0 s2.1 _ s3 inserted in
      let call : insert (outer_sync (serial_device fdt (record { serial = make i; start = start })))
            start len s2.0.bus
          ≡ insert (outer_sync (serial_device fdt self)) start (start + 8) s.0.bus =
        rw (end, is_self, ← same2, bus) refl in
      (
        ap (λ x. x.0) (sym call) ∙ done,
        ap (λ x. x.0.bus) (sym same3) ∙ (after ∙ ap (λ x. x.1) call),
      )

-- What becomes of the access that a page asks for, by what the registers returned: the guest resumes
-- with `GUNYAH_VCPU_RESUME_HANDLED` or with `GUNYAH_VCPU_RESUME_FAULT`.
abbrev pub resumed :
    {W : Type 0}
    → VcpuRun
    → Outcome AnyError (Unit {0}) × W
    → Outcome AnyError (Unit {0}) × VcpuRun × W
resumed page (ok _, w) = (ok tt, record page { resume_action = 0 }, w)
resumed page (err _, w) = (ok tt, record page { resume_action = 1 }, w)
resumed page (panic, w) = (panic, page, w)

-- what the guest gets for a read at an offset of the console, whose page begins with `byte`
abbrev pub read_at :
    {W : Type 0}
    → SerialPort W
    → ℕ
    → VcpuRun
    → List ℕ
    → W
    → Outcome AnyError (Unit {0}) × VcpuRun × W
read_at port offset page rest w =
    if page.len == 1
    then if ltb offset 256
      then (let (answer, w') = port.port_read offset w in
          (ok tt, record page { bytes = answer ∷ rest; resume_action = 0 }, w'))
      else (panic, page, w)
    else (ok tt, record page { resume_action = 1 }, w)

module _ {W : Type 0} (self : SerialDevice W) (offset : ℕ) (page : VcpuRun) (byte : ℕ)
    (rest : List ℕ) (w : W) (held : page.bytes ≡ byte ∷ rest)
    (fits : page.len ≤ length page.bytes) where
  resume-serial_read :
      (t : String)
      → (let (r, d, w') = serial_read self offset (take page.len page.bytes) w in
          resume (record page { bytes = d ++ drop page.len page.bytes }) (context t r) w')
        ≡ read_at self.serial offset page rest w
  unfolding serial_read
  resume-serial_read t = elim (Bool-cases (page.len == 1)) [
    | inl one ↦
        let len = ==→eq page.len 1 one in
        elim (Bool-cases (ltb offset 256)) [
          | inl low ↦ rw (len, held, low) refl
          | inr high ↦ rw (len, held, high) refl
        ]
    | inr other ↦
        let many : (length (take page.len page.bytes) == 1) ≡ false =
          rw (length-take page.len page.bytes) (ground arith) in
        rw (many, other, take-drop page.len page.bytes) refl
  ]

resume-refused :
    {W : Type 0} (page : VcpuRun) (t : String) (x : Outcome AnyError (Unit {0}) × W)
    → (let (r, w') = refuse x in resume page (context t r) w') ≡ resumed page x
resume-refused page t (ok _, w') = refl
resume-refused page t (err e, w') = refl
resume-refused page t (panic, w') = refl

-- and for a write
abbrev pub write_at :
    {W : Type 0} → SerialPort W → ℕ → VcpuRun → ℕ → W → Outcome AnyError (Unit {0}) × VcpuRun × W
write_at port offset page byte w =
    if page.len == 1
    then if ltb offset 256 then resumed page (port.port_write offset byte w) else (panic, page, w)
    else (ok tt, record page { resume_action = 1 }, w)

module _ {W : Type 0} (self : SerialDevice W) (offset : ℕ) (page : VcpuRun) (byte : ℕ)
    (rest : List ℕ) (w : W) (held : page.bytes ≡ byte ∷ rest)
    (fits : page.len ≤ length page.bytes) where
  serial_write-many :
      (d : List ℕ)
      → (length d == 1) ≡ false
      → (e : AnyError) × (serial_write self offset d w ≡ (err e, w))
  unfolding serial_write
  serial_write-many [] many = (_, refl)
  serial_write-many (x ∷ []) many = ground arith
  serial_write-many (x ∷ y ∷ l) many = (_, refl)

  resume-serial_write :
      (t : String)
      → (let (r, w') = serial_write self offset (take page.len page.bytes) w in
          resume page (context t r) w')
        ≡ write_at self.serial offset page byte w
  unfolding serial_write
  resume-serial_write t = elim (Bool-cases (page.len == 1)) [
    | inl one ↦
        let len = ==→eq page.len 1 one in
        elim (Bool-cases (ltb offset 256)) [
          | inl low ↦
              rw (len, held, low)
                (resume-refused (record page { bytes = byte ∷ rest; len = 1 }) t
                  (self.serial.port_write offset byte w))
          | inr high ↦ rw (len, held, high) refl
        ]
    | inr other ↦
        let many : (length (take page.len page.bytes) == 1) ≡ false =
          rw (length-take page.len page.bytes) (ground arith) in
        let (e, refused) = serial_write-many (take page.len page.bytes) many in
        rw (refused, other) refl
  ]

module _ {W F : Type 0} (kernel : Kernel W) (p : Profile) (fdt : FdtWriter F)
    (make : GunyahInterrupt → SerialPort W) (start line : ℕ) (s s' : GunyahVirtualMachine W F × W)
    (self : SerialDevice W) (small : start + 8 < u64_size) (valid : IsValid s.0.bus)
    (new : serial_new kernel p fdt make start line s ≡ (ok self, s')) where
  abbrev entry : BusEntry W F
  entry = outer_sync (serial_device fdt self)

  console_holds :
      (addr : ℕ) → start ≤ addr → addr < start + (start + 8) → holds start (start + 8) addr ≡ true
  console_holds addr low high =
      rw (le→leb start addr low, lt→ltb (addr - start) (start + 8) (omega arith)) refl

  -- After `SerialDevice::new` has put the console on a valid bus at an address that leaves room for
  -- eight registers below the end of u64, and when the guest reads at most as many bytes as the page
  -- has, at an address from that of the console on and less than the console's address and eight
  -- above it: a read of one byte is answered by the register at the offset, if that is below 256, the
  -- byte comes first in the page, the rest of the page stays, and the guest resumes as handled; at a
  -- higher offset the vCPU panics; a read of any other length resumes with a fault, and neither the
  -- data of the page nor the registers have changed.
  pub handle_exit-serial_new-read :
      (id : AccessId) (page : VcpuRun) (byte : ℕ) (rest : List ℕ) (w : W)
      → start ≤ page.phys_addr
      → page.phys_addr < start + (start + 8)
      → IsAccess 0 page
      → page.bytes ≡ byte ∷ rest
      → handle_exit id s'.0.bus page w ≡ read_at self.serial (page.phys_addr - start) page rest w
  unfolding forward_read serial_device
  handle_exit-serial_new-read id page byte rest w low high access held =
      let (done, after) = serial_new-ok kernel p fdt make start line s s' self small new in
      let hit = console_holds page.phys_addr low high in
      rw
        (
          after,
          handle_exit-read entry start (start + 8) s.0.bus id page w (omega arith) valid done hit
              access,
        )
        (resume-serial_read self (page.phys_addr - start) page byte rest w held access.2 _)

  -- After `SerialDevice::new` has put the console on a valid bus at an address that leaves room for
  -- eight registers below the end of u64, and when the guest writes at most as many bytes as the page
  -- has, at an address from that of the console on and less than the console's address and eight
  -- above it: if one byte is written and the offset is below 256, it goes to the register at the
  -- offset, and the guest resumes as handled or with a fault, as the register accepts the byte or
  -- refuses it, or the vCPU panics where the register does; at a higher offset the vCPU panics; a write of any
  -- other length resumes with a fault and reaches no register. The data of the page stays in each
  -- case.
  pub handle_exit-serial_new-write :
      (id : AccessId) (page : VcpuRun) (byte : ℕ) (rest : List ℕ) (w : W)
      → start ≤ page.phys_addr
      → page.phys_addr < start + (start + 8)
      → IsAccess 1 page
      → page.bytes ≡ byte ∷ rest
      → handle_exit id s'.0.bus page w ≡ write_at self.serial (page.phys_addr - start) page byte w
  unfolding forward_write serial_device
  handle_exit-serial_new-write id page byte rest w low high access held =
      let (done, after) = serial_new-ok kernel p fdt make start line s s' self small new in
      let hit = console_holds page.phys_addr low high in
      rw
        (
          after,
          handle_exit-write entry start (start + 8) s.0.bus id page w (omega arith) valid done hit
              access,
        )
        (resume-serial_write self (page.phys_addr - start) page byte rest w held access.2 _)
