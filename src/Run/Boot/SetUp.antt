-- ===== src/Run/Boot/SetUp.antt =====
-- src/main.rs: the machine that `execute` has set up before it is started.
use gunyah_test_vmm.Base.{
  ℕ, ◌+◌, ◌^◌, ◌==◌, ◌≤◌, ◌<◌, ◌≡◌, ◌≢◌, refl, ◌∙◌, false, List, some, ok, debug, length, arith,
  max_u64, u64_size, Profile, ne→==,
}
use gunyah_test_vmm.Effects.{or_panic, lift, ◌>>=◌}
use gunyah_test_vmm.Gunyah.Kernel.{Kernel}
use gunyah_test_vmm.Gunyah.Vm.{rwx}
use gunyah_test_vmm.Bus.Invariant.{IsValid}
use gunyah_test_vmm.Fdt.{FdtWriter}
use gunyah_test_vmm.Vmm.Interrupt.{GunyahInterrupt}
use gunyah_test_vmm.Vmm.Memory.{GunyahGuestMemoryRegion}
use gunyah_test_vmm.Vmm.Machine.{GunyahVirtualMachine, add_edge_interrupt, add_device, add_memory}
use gunyah_test_vmm.Vmm.Machine.Keeps.{HasValidBus, Keeps, bus_insert-Keeps}
use gunyah_test_vmm.Vmm.Machine.Holds.{
  lift-Holds, pure-Holds, update-Holds, on_world-Holds, in_context-Holds, >>=-Holds, >>-Holds,
}
use gunyah_test_vmm.Vmm.Machine.Files.{FileMemory}
use gunyah_test_vmm.Vmm.Machine.Writes.{Serves}
use gunyah_test_vmm.Vmm.Machine.Given.{add_memory-IsOnBus}
use gunyah_test_vmm.Serial.{SerialDevice, SerialPort, serial_new}
use gunyah_test_vmm.Types.Guest.{GuestAddress, address_add, size_try_into}
use gunyah_test_vmm.Run.Args.{RunCommand, mem_end}
use gunyah_test_vmm.Run.Layout.{Placement, plan}
use gunyah_test_vmm.Run.Boot.{Host, share_type, page_size, generate_fdt, load_binaries, set_up}
use gunyah_test_vmm.Run.Boot.Loaded.{IsRead, InRegion, load_binaries-Loads}

serial_new-Keeps :
    {W F : Type 0} (kernel : Kernel W) (p : Profile) (fdt : FdtWriter F)
    (make : GunyahInterrupt → SerialPort W) (start line : ℕ)
    → start < max_u64
    → Keeps (serial_new kernel p fdt make start line)
unfolding serial_new add_edge_interrupt add_device
serial_new-Keeps kernel p fdt make start line low =
    >>=-Holds HasValidBus _ _
      (>>=-Holds HasValidBus _ _ (in_context-Holds HasValidBus _ _ (on_world-Holds HasValidBus _))
        λ i.
          >>-Holds HasValidBus _ _ (update-Holds HasValidBus _ λ self v. v)
            (pure-Holds HasValidBus i))
      λ i. >>=-Holds HasValidBus _ _ (lift-Holds HasValidBus _) λ len.
        >>-Holds HasValidBus _ _ (bus_insert-Keeps _ start len low) (pure-Holds HasValidBus _)

-- memory that holds an address and ends at an address
mem_end-lem :
    (args : RunCommand) (top a : GuestAddress)
    → mem_end debug args ≡ ok top
    → InRegion args.mem_base.value args.size.value a
    → (args.mem_base.value + args.size.value ≡ top.value)
      × (args.mem_base.value + args.size.value < u64_size)
      × (args.mem_base.value < max_u64)
      × (args.size.value ≢ 0)
unfolding mem_end address_add
mem_end-lem args top a m hit = ground arith

module _ {W F : Type 0} (host : Host W F) where
  -- the calls of `set_up` one after the other
  set_up-runs :
      (args : RunCommand) (serial : SerialDevice W) (s s1 s2 : GunyahVirtualMachine W F × W)
      (region : GunyahGuestMemoryRegion)
      → args.size.value ≢ 0
      → serial_new host.kernel debug host.writer host.serial_port args.serial_base.value
          args.serial_interrupt s
        ≡ (ok serial, s1)
      → add_memory host.kernel debug args.mem_base.value args.size.value
          (share_type args)
          rwx
          args.huge_pages
          s1
        ≡ (ok region, s2)
      → set_up host debug args s ≡ load_binaries host debug args (some serial) s2
  unfolding set_up ◌>>=◌ lift or_panic size_try_into
  set_up-runs args serial s s1 s2 region full console added =
      rw (console, ne→== args.size.value 0 full, added) refl

module _ {W F : Type 0} (host : Host W F) (files : FileMemory host.kernel)
    (serves : Serves host.kernel) where
  -- Built for debugging, with pages of 2 ^ k bytes (k at most 63), with a kernel that grants every
  -- request, copies what it is given and whose files keep what is copied into them, from a machine
  -- whose bus is valid, and with a console below the last address of u64: if the console is
  -- registered, memory is added, the image and the ramdisk can be read, the placement is made and
  -- puts the device tree, the image and the ramdisk, none of them empty, at addresses of the memory
  -- that the arguments ask for, then `set_up` returns without an error, and after it `read_slice`
  -- finds each of the three as a whole at its place, into a buffer of its length. None of them has
  -- been overwritten by another.
  pub set_up-Loads :
      (args : RunCommand) (serial : SerialDevice W) (k : ℕ) (top : GuestAddress)
      (region : GunyahGuestMemoryRegion) (image rdisk : List ℕ) (at : Placement)
      (s s1 s2 : GunyahVirtualMachine W F × W) (w1 w2 w3 : W) (b_dtb b_image b_rdisk : List ℕ)
      → k ≤ 63
      → IsValid s.0.bus
      → args.serial_base.value < max_u64
      → serial_new host.kernel debug host.writer host.serial_port args.serial_base.value
          args.serial_interrupt s
        ≡ (ok serial, s1)
      → add_memory host.kernel debug args.mem_base.value args.size.value
          (share_type args)
          rwx
          args.huge_pages
          s1
        ≡ (ok region, s2)
      → host.read_file args.image s2.1 ≡ (ok image, w1)
      → host.read_file args.rdisk w1 ≡ (ok rdisk, w2)
      → page_size host debug args w2 ≡ (ok (2 ^ k), w3)
      → plan debug
          (2 ^ k)
          args
          (length image)
          (length rdisk)
          (generate_fdt host debug s2.0 w3 args (some serial))
        ≡ ok at
      → mem_end debug args ≡ ok top
      → InRegion args.mem_base.value args.size.value at.dtb_addr
      → InRegion args.mem_base.value args.size.value at.image_base
      → InRegion args.mem_base.value args.size.value at.rdisk_base
      → ((length at.dtb == 0) ≡ false)
      → ((length image == 0) ≡ false)
      → ((length rdisk == 0) ≡ false)
      → length b_dtb ≡ length at.dtb
      → length b_image ≡ length image
      → length b_rdisk ≡ length rdisk
      → (s' : GunyahVirtualMachine W F × W) × (set_up host debug args s ≡ (ok tt, s'))
        × IsRead at.dtb_addr b_dtb at.dtb s'
        × IsRead at.image_base b_image image s'
        × IsRead at.rdisk_base b_rdisk rdisk s'
  set_up-Loads args serial k top region image rdisk at s s1 s2 w1 w2 w3 b_dtb b_image b_rdisk small
        valid low console added r1 r2 r3 planned m hd hi hr nd ni nr fd fi fr =
      let (up, below, base_low, full) = mem_end-lem args top at.dtb_addr m hd in
      let kept =
        serial_new-Keeps host.kernel debug host.writer host.serial_port args.serial_base.value
          args.serial_interrupt low s valid in
      let valid1 : IsValid s1.0.bus = rw console at kept in
      let (on_bus, begins, sized) =
        add_memory-IsOnBus host.kernel args.mem_base.value args.size.value (share_type args) rwx
          args.huge_pages s1 s2 region base_low valid1 added in
      let (s', loads, dtb, img, ram) =
        load_binaries-Loads host files region args.mem_base.value args.size.value s2.0 on_bus serves
          args (some serial) k top image rdisk at s2.1 w1 w2 w3 b_dtb b_image b_rdisk small r1 r2 r3
          planned m up sized (omega arith) hd hi hr nd ni nr fd fi fr in
      (s', set_up-runs host args serial s s1 s2 region full console added ∙ loads, dtb, img, ram)
