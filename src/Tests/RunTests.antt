-- ===== src/Tests/RunTests.antt =====
-- src/main.rs on small layouts.
use gunyah_test_vmm.Base.{
  ℕ, ◌+◌, ◌%◌, ◌^◌, ◌≤◌, ◌<◌, ◌≡◌, refl, none, List, [], ◌∷◌, ok, arith, debug, false, true, ◌-◌,
  u64_size,
}
use gunyah_test_vmm.Types.Text.{codes}
use gunyah_test_vmm.Types.Guest.{GuestAddress, GuestSize, address_add}
use gunyah_test_vmm.Run.Args.{RunCommand, mem_end}
use gunyah_test_vmm.Run.Align.{align_address_offset, align_address_offset-least}
use gunyah_test_vmm.Run.Layout.{
  Region, check_regions, sort_by_addr, insert_by_addr, neighbours_overlap, check_last, place_dtb,
  place_dtb_len,
}
use gunyah_test_vmm.Run.Layout.Apart.{All, AllApart, end_of, check_regions-AllApart}
use gunyah_test_vmm.Run.Layout.Checked.{check_regions-AllApart_debug}
use gunyah_test_vmm.Run.Layout.Dtb.{place_dtb-fits}

-- 100 MiB at 2 GiB, and else the defaults of the command line
abbrev pub default_args : RunCommand
default_args = record {
  image = codes "Image";
  image_base = none;
  rdisk = codes "rdisk";
  files = [];
  mem_base = record { value = 0x8000_0000 };
  size = record { value = 0x640_0000 };
  vcpus = 8;
  dtb_base = none;
  huge_pages = false;
  protected = true;
  command_line = [];
  gic_dist_base = record { value = 0x3fff0000 };
  gic_dist_size = record { value = 0x10000 };
  gic_redist_base = none;
  gic_redist_size = record { value = 0x20000 };
  serial_base = record { value = 0x3f800 };
  serial_interrupt = 1;
}

abbrev pub default_top : GuestAddress
default_top = record { value = 0x8640_0000 }

pub default_mem_end : mem_end debug default_args ≡ ok default_top
unfolding mem_end address_add
default_mem_end = refl

abbrev at_size : ℕ → ℕ → Region
at_size base len = record {
  name = codes "region";
  addr = record { value = base };
  size = record { value = len };
}

abbrev three_regions : List Region
three_regions =
    at_size 0x863f_d000 0x2000 ∷ at_size 0x8000_0000 0x20_0000 ∷ at_size 0x8100_0000 0x10_0000 ∷ []

three_regions_pass : check_regions debug default_args three_regions ≡ ok tt
unfolding check_regions sort_by_addr insert_by_addr neighbours_overlap check_last mem_end
    address_add
three_regions_pass = refl

three_regions-small : All (λ r. end_of r < u64_size) three_regions
three_regions-small = omega arith

check_regions-AllApart_example :
    AllApart three_regions × All (λ r. end_of r ≤ default_top.value) three_regions
check_regions-AllApart_example =
    check_regions-AllApart debug default_args three_regions default_top default_mem_end
      three_regions-small three_regions_pass

align_address_offset-least_example :
    (r : GuestAddress) × (align_address_offset debug (record { value = 0x8020_1000 }) (2 ^ 24 - 1)
      ≡ ok r)
    × (0x8020_1000 ≤ r.value)
    × (r.value < 0x8020_1000 + 2 ^ 24)
    × (r.value % 2 ^ 24 ≡ 0)
align_address_offset-least_example =
    align_address_offset-least debug 24 (record { value = 0x8020_1000 }) (omega arith) (omega arith)

place_dtb-fits_example :
    (addr : GuestAddress) × (size : GuestSize) × (place_dtb debug (2 ^ 12) default_args 0x1234 none
      ≡ ok addr)
    × (place_dtb_len debug (2 ^ 12) 0x1234 ≡ ok size)
    × (addr.value % 2 ^ 12 ≡ 0)
    × (size.value % 2 ^ 12 ≡ 0)
    × (0x1234 + 2 ^ 12 ≤ size.value)
    × (addr.value + size.value ≤ default_top.value)
place_dtb-fits_example =
    place_dtb-fits debug 12 default_args 0x1234 default_top (omega arith) default_mem_end
      (omega arith) refl (omega arith)

check_regions-AllApart_debug_example :
    AllApart three_regions
    × All (λ r. end_of r ≤ default_top.value) three_regions
    × All (λ r. end_of r < u64_size) three_regions
check_regions-AllApart_debug_example =
    check_regions-AllApart_debug default_args three_regions default_top default_mem_end
      three_regions_pass
