-- ===== src/Tests/AckTests.antt =====
-- gunyah/src built with the feature `ack-bindings`: two mappings of one file.
use gunyah_test_vmm.Base.{ℕ, ◌≡◌, ◌≢◌, refl, false, [], ◌∷◌, ok, debug, arith}
use gunyah_test_vmm.Effects.{pure}
use gunyah_test_vmm.Gunyah.Vm
use gunyah_test_vmm.Gunyah.Ack.{AckKernel, AckRegion, AckVm, UserspaceMemoryRegion}
use gunyah_test_vmm.Gunyah.Ack.Labels.{
  MapCall, call_map, call_maps, IsGranted, ack_map_memory-labels,
}

abbrev android : AckKernel (Unit {0})
android = record {
  dup = λ fd. pure fd;
  identity = λ fd. pure fd;
  map_range = λ _ _ _. pure 0x7000_0000;
  unmap_range = λ _ _ k. k;
  madvise = λ _ _ _ k. k;
  set_user_mem_region = λ _ _. pure 0;
  android_lend_user_mem = λ _ _. pure 0;
  memfd_create = λ _. pure 9;
  set_len = λ _ _. pure tt;
}

abbrev file_region : AckRegion
file_region = record {
  mem = record { fd = 9; identity = 9; huge_pages = false };
  off = 0;
  size = 0x1000;
}

abbrev lend_at : ℕ → MapCall
lend_at guest_addr = record {
  guest_addr = guest_addr;
  share_type = Vm.lend;
  access = Vm.rwx;
  unmap = false;
  region = file_region;
}

abbrev no_maps : AckVm × Unit {0}
no_maps = (record { fd = 5; maps = [] }, tt)

abbrev one_map : AckVm × Unit {0}
one_map = (
  record {
    fd = 5;
    maps = (record { guest_addr = 0x8000_0000; region = file_region }, 0x7000_0000) ∷ [];
  },
  tt,
)

abbrev two_maps : AckVm × Unit {0}
two_maps = (
  record {
    fd = 5;
    maps =
        (record { guest_addr = 0x8000_0000; region = file_region }, 0x7000_0000)
        ∷ (record { guest_addr = 0x9000_0000; region = file_region }, 0x7000_0000)
        ∷ [];
  },
  tt,
)

first_is_mapped : call_map android debug (lend_at 0x8000_0000) no_maps ≡ (ok tt, one_map)
unfolding gunyah_test_vmm.Effects.lift gunyah_test_vmm.Effects.or_panic gunyah_test_vmm.Effects.pure
    gunyah_test_vmm.Effects.◌>>=◌ gunyah_test_vmm.Effects.◌>>◌ gunyah_test_vmm.Gunyah.Ack.ack_args
    gunyah_test_vmm.Gunyah.Ack.ack_flags gunyah_test_vmm.Gunyah.Ack.ack_insert
    gunyah_test_vmm.Gunyah.Ack.ack_insert_new gunyah_test_vmm.Gunyah.Ack.ack_map_memory
    gunyah_test_vmm.Gunyah.Ack.ack_map_mut gunyah_test_vmm.Gunyah.Ack.ack_mem_clone
    gunyah_test_vmm.Gunyah.Ack.ack_mem_dup gunyah_test_vmm.Gunyah.Ack.contains_key
    gunyah_test_vmm.Gunyah.Ack.on_kernel gunyah_test_vmm.Gunyah.Ack.same_key
    gunyah_test_vmm.Gunyah.GuestMem.map_options
first_is_mapped = refl

-- the same mapping once more is refused, and leaves the mappings
again_is_refused : call_maps android debug (lend_at 0x8000_0000 ∷ []) one_map ≡ one_map
unfolding gunyah_test_vmm.Effects.lift gunyah_test_vmm.Effects.or_panic gunyah_test_vmm.Effects.pure
    gunyah_test_vmm.Effects.◌>>=◌ gunyah_test_vmm.Effects.◌>>◌ gunyah_test_vmm.Gunyah.Ack.ack_args
    gunyah_test_vmm.Gunyah.Ack.ack_flags gunyah_test_vmm.Gunyah.Ack.ack_insert
    gunyah_test_vmm.Gunyah.Ack.ack_insert_new gunyah_test_vmm.Gunyah.Ack.ack_map_memory
    gunyah_test_vmm.Gunyah.Ack.ack_map_mut gunyah_test_vmm.Gunyah.Ack.ack_mem_clone
    gunyah_test_vmm.Gunyah.Ack.ack_mem_dup gunyah_test_vmm.Gunyah.Ack.contains_key
    gunyah_test_vmm.Gunyah.Ack.on_kernel gunyah_test_vmm.Gunyah.Ack.same_key
    gunyah_test_vmm.Gunyah.Ack.Labels.call_maps gunyah_test_vmm.Gunyah.GuestMem.map_options
again_is_refused = refl

second_is_mapped :
    call_map android debug
      (lend_at 0x9000_0000)
      (call_maps android debug (lend_at 0x8000_0000 ∷ []) one_map)
    ≡ (ok tt, two_maps)
unfolding gunyah_test_vmm.Effects.lift gunyah_test_vmm.Effects.or_panic gunyah_test_vmm.Effects.pure
    gunyah_test_vmm.Effects.◌>>=◌ gunyah_test_vmm.Effects.◌>>◌ gunyah_test_vmm.Gunyah.Ack.ack_args
    gunyah_test_vmm.Gunyah.Ack.ack_flags gunyah_test_vmm.Gunyah.Ack.ack_insert
    gunyah_test_vmm.Gunyah.Ack.ack_insert_new gunyah_test_vmm.Gunyah.Ack.ack_map_memory
    gunyah_test_vmm.Gunyah.Ack.ack_map_mut gunyah_test_vmm.Gunyah.Ack.ack_mem_clone
    gunyah_test_vmm.Gunyah.Ack.ack_mem_dup gunyah_test_vmm.Gunyah.Ack.contains_key
    gunyah_test_vmm.Gunyah.Ack.on_kernel gunyah_test_vmm.Gunyah.Ack.same_key
    gunyah_test_vmm.Gunyah.Ack.Labels.call_maps gunyah_test_vmm.Gunyah.GuestMem.map_options
second_is_mapped = refl

ack_map_memory-labels_example :
    (x y : UserspaceMemoryRegion) × IsGranted android Vm.lend 5 x tt
    × IsGranted android Vm.lend
        (call_maps android debug (lend_at 0x8000_0000 ∷ []) one_map).0.fd
        y
        tt
    × (x.label ≢ y.label)
ack_map_memory-labels_example =
    ack_map_memory-labels android debug (lend_at 0x8000_0000) (lend_at 0x9000_0000)
      (lend_at 0x8000_0000 ∷ []) no_maps one_map two_maps first_is_mapped second_is_mapped
      (omega arith)
