-- ===== src/Run/Boot/Loaded.antt =====
-- src/main.rs: what is in guest memory once `load_binaries` has returned.
use gunyah_test_vmm.Base.{
  ℕ, ◌+◌, ◌-◌, ◌^◌, ◌==◌, ◌≤◌, ◌<◌, ◌≡◌, ◌⊎◌, refl, sym, ◌∙◌, true, false, List, ok, debug, length,
  arith, Option, u64_size,
}
use mathlib.Core.Path.{subst}
use gunyah_test_vmm.Bus.Lookup.{holds}
use gunyah_test_vmm.Vmm.Memory.{GunyahGuestMemoryRegion}
use gunyah_test_vmm.Vmm.Machine.{GunyahVirtualMachine, read_slice}
use gunyah_test_vmm.Bus.Dispatch.{write, vmm_userspace}
use gunyah_test_vmm.Vmm.Machine.Writes.{Serves, write-runs}
use gunyah_test_vmm.Vmm.Machine.Files.{
  FileMemory, IsOnBus, Stored, Stored-ioctl, write-Stored, Stored-write, Stored-read,
}
use gunyah_test_vmm.Serial.{SerialDevice}
use gunyah_test_vmm.Run.Boot.{Host, page_size, generate_fdt, load_binaries}
use gunyah_test_vmm.Run.Args.{RunCommand, mem_end}
use gunyah_test_vmm.Types.Guest.{GuestAddress}
use gunyah_test_vmm.Run.Layout.Checked.{check_regions-AllApart_debug}
use gunyah_test_vmm.Run.Layout.{Placement, plan}
use gunyah_test_vmm.Run.Boot.Written.{
  regions, plan_cases, place_dtb_len-le, writes, load_binaries-writes, writes-ok, writes-runs,
}

-- that `read_slice` finds the bytes at the address
abbrev pub IsRead :
    {W F : Type 0} → GuestAddress → List ℕ → List ℕ → GunyahVirtualMachine W F × W → Type 0
IsRead a buffer bytes s = read_slice a.value buffer s ≡ (ok tt, bytes, s)

-- that the address is one of the region that begins at `base`
abbrev pub InRegion : (base len : ℕ) → GuestAddress → Type 0
InRegion base len a = holds base len a.value ≡ true

module _ {W F : Type 0} (host : Host W F) (files : FileMemory host.kernel)
    (region : GunyahGuestMemoryRegion) (base len : ℕ) (self : GunyahVirtualMachine W F)
    (on_bus : IsOnBus host.kernel region base len self.bus) where
  writes-Stored :
      (at : Placement) (image rdisk : List ℕ) (w : W) (s' : GunyahVirtualMachine W F × W)
      → InRegion base len at.dtb_addr
      → InRegion base len at.image_base
      → InRegion base len at.rdisk_base
      → (at.dtb_addr.value + length at.dtb ≤ at.image_base.value)
        ⊎ (at.image_base.value + length image ≤ at.dtb_addr.value)
      → (at.dtb_addr.value + length at.dtb ≤ at.rdisk_base.value)
        ⊎ (at.rdisk_base.value + length rdisk ≤ at.dtb_addr.value)
      → (at.image_base.value + length image ≤ at.rdisk_base.value)
        ⊎ (at.rdisk_base.value + length rdisk ≤ at.image_base.value)
      → writes host at image rdisk (self, w) ≡ (ok tt, s')
      → Stored host.kernel region (at.dtb_addr.value - base) at.dtb s'.1
        × Stored host.kernel region (at.image_base.value - base) image s'.1
        × Stored host.kernel region (at.rdisk_base.value - base) rdisk s'.1
        × (s'.0 ≡ self)
  writes-Stored at image rdisk w s' hd hi hr di dr ir e =
      let (wa, wb, wc, wd, first, (fd, request, eb), (fd', request', ec), second, third, kept) =
        writes-ok host at image rdisk self w s' e in
      let moved = Stored-write host.kernel files region base len self.bus on_bus in
      let dtb_a =
        write-Stored host.kernel files region base len self.bus on_bus at.dtb_addr.value at.dtb w wa
          hd first in
      let dtb_b : Stored host.kernel region (at.dtb_addr.value - base) at.dtb wb = rw eb (
        Stored-ioctl host.kernel files region (at.dtb_addr.value - base) fd request at.dtb wa
          dtb_a) in
      let dtb_c : Stored host.kernel region (at.dtb_addr.value - base) at.dtb wc = rw ec (
        Stored-ioctl host.kernel files region (at.dtb_addr.value - base) fd' request' at.dtb wb
          dtb_b) in
      let dtb_d =
        moved at.dtb_addr.value at.image_base.value at.dtb image wc wd (ground arith) hi second di
          dtb_c in
      let image_d =
        write-Stored host.kernel files region base len self.bus on_bus at.image_base.value image wc
          wd hi second in
      (
        moved at.dtb_addr.value at.rdisk_base.value at.dtb rdisk wd s'.1 (ground arith) hr third dr
            dtb_d,
        moved at.image_base.value at.rdisk_base.value image rdisk wd s'.1 (ground arith) hr third ir
            image_d,
        write-Stored host.kernel files region base len self.bus on_bus at.rdisk_base.value rdisk wd
            s'.1 hr third,
        kept,
      )

  IsRead-Stored :
      (a : GuestAddress) (buffer d : List ℕ) (s : GunyahVirtualMachine W F × W)
      → InRegion base len a
      → length buffer ≡ length d
      → s.0 ≡ self
      → Stored host.kernel region (a.value - base) d s.1
      → IsRead a buffer d s
  unfolding read_slice
  IsRead-Stored a buffer d s hit fits kept there =
      let on = subst (λ m. IsOnBus host.kernel region base len m.bus) (sym kept) on_bus in
      rw
        (Stored-read host.kernel files region base len s.0.bus on a.value d buffer s.1 hit fits
          there)
        refl

  -- What the calls have stored is read back where `load_binaries` has returned.
  load_binaries-IsRead :
      (args : RunCommand) (serial : Option (SerialDevice W)) (k : ℕ) (top : GuestAddress)
      (image rdisk : List ℕ) (at : Placement) (w w1 w2 w3 : W) (s' : GunyahVirtualMachine W F × W)
      (b_dtb b_image b_rdisk : List ℕ)
      → k ≤ 63
      → host.read_file args.image w ≡ (ok image, w1)
      → host.read_file args.rdisk w1 ≡ (ok rdisk, w2)
      → page_size host debug args w2 ≡ (ok (2 ^ k), w3)
      → plan debug
          (2 ^ k)
          args
          (length image)
          (length rdisk)
          (generate_fdt host debug self w3 args serial)
        ≡ ok at
      → mem_end debug args ≡ ok top
      → InRegion base len at.dtb_addr
      → InRegion base len at.image_base
      → InRegion base len at.rdisk_base
      → length b_dtb ≡ length at.dtb
      → length b_image ≡ length image
      → length b_rdisk ≡ length rdisk
      → load_binaries host debug args serial (self, w) ≡ (ok tt, s')
      → IsRead at.dtb_addr b_dtb at.dtb s'
        × IsRead at.image_base b_image image s'
        × IsRead at.rdisk_base b_rdisk rdisk s'
  load_binaries-IsRead args serial k top image rdisk at w w1 w2 w3 s' b_dtb b_image b_rdisk small r1
        r2 r3 planned m hd hi hr fd fi fr e =
      let (tree, checked) = plan_cases (2 ^ k) args (length image) (length rdisk) _ at planned in
      let room = place_dtb_len-le k (length at.dtb) at.dtb_len small tree in
      let (apart, _, _) =
        check_regions-AllApart_debug args (regions args (length image) (length rdisk) at) top m
          checked in
      let ((di, (dr, _)), ((ir, _), _)) = apart in
      let e' =
        sym (
          load_binaries-writes host args serial self w w1 w2 w3 image rdisk (2 ^ k) at r1 r2 r3
            planned)
        ∙ e in
      let (dtb, img, ram, kept) =
        writes-Stored at image rdisk w3 s' hd hi hr (ground arith) (ground arith) (ground arith)
          e' in
      (
        IsRead-Stored at.dtb_addr b_dtb at.dtb s' hd fd kept dtb,
        IsRead-Stored at.image_base b_image image s' hi fi kept img,
        IsRead-Stored at.rdisk_base b_rdisk rdisk s' hr fr kept ram,
      )

  module _ (serves : Serves host.kernel) where
    -- Each of the three writes returns.
    place-runs :
        (a : GuestAddress) (bytes : List ℕ)
        → InRegion base len a
        → ((length bytes == 0) ≡ false)
        → a.value + length bytes ≤ base + len
        → region.region.size ≡ len
        → region.region.off + region.region.size < u64_size
        → (w : W) → (w' : W) × (write vmm_userspace a.value bytes self.bus w ≡ (ok tt, w'))
    place-runs a bytes hit full inside same small w =
        let above : base ≤ a.value = ground arith in
        write-runs host.kernel serves region base len self.bus on_bus a.value bytes w full hit
          (omega arith) small

    -- `load_binaries` returns, and what it has written is read back.
    pub load_binaries-Loads :
        (args : RunCommand) (serial : Option (SerialDevice W)) (k : ℕ) (top : GuestAddress)
        (image rdisk : List ℕ) (at : Placement) (w w1 w2 w3 : W) (b_dtb b_image b_rdisk : List ℕ)
        → k ≤ 63
        → host.read_file args.image w ≡ (ok image, w1)
        → host.read_file args.rdisk w1 ≡ (ok rdisk, w2)
        → page_size host debug args w2 ≡ (ok (2 ^ k), w3)
        → plan debug
            (2 ^ k)
            args
            (length image)
            (length rdisk)
            (generate_fdt host debug self w3 args serial)
          ≡ ok at
        → mem_end debug args ≡ ok top
        → base + len ≡ top.value
        → region.region.size ≡ len
        → region.region.off + region.region.size < u64_size
        → InRegion base len at.dtb_addr
        → InRegion base len at.image_base
        → InRegion base len at.rdisk_base
        → ((length at.dtb == 0) ≡ false)
        → ((length image == 0) ≡ false)
        → ((length rdisk == 0) ≡ false)
        → length b_dtb ≡ length at.dtb
        → length b_image ≡ length image
        → length b_rdisk ≡ length rdisk
        → (s' : GunyahVirtualMachine W F × W) × (load_binaries host debug args serial (self, w)
            ≡ (ok tt, s'))
          × IsRead at.dtb_addr b_dtb at.dtb s'
          × IsRead at.image_base b_image image s'
          × IsRead at.rdisk_base b_rdisk rdisk s'
    load_binaries-Loads args serial k top image rdisk at w w1 w2 w3 b_dtb b_image b_rdisk small r1
          r2 r3 planned m up same below hd hi hr nd ni nr fd fi fr =
        let (tree, checked) = plan_cases (2 ^ k) args (length image) (length rdisk) _ at planned in
        let room = place_dtb_len-le k (length at.dtb) at.dtb_len small tree in
        let (_, (ed, (ei, (er, _))), _) =
          check_regions-AllApart_debug args (regions args (length image) (length rdisk) at) top m
            checked in
        let (s', ran) =
          writes-runs host serves at image rdisk self w3
            (place-runs at.dtb_addr at.dtb hd nd (ground arith) same below)
            (place-runs at.image_base image hi ni (ground arith) same below)
            (place-runs at.rdisk_base rdisk hr nr (ground arith) same below) in
        let loads =
          load_binaries-writes host args serial self w w1 w2 w3 image rdisk (2 ^ k) at r1 r2 r3
            planned
          ∙ ran in
        let (dtb, img, ram) =
          load_binaries-IsRead args serial k top image rdisk at w w1 w2 w3 s' b_dtb b_image b_rdisk
            small r1 r2 r3 planned m hd hi hr fd fi fr loads in
        (s', loads, dtb, img, ram)
