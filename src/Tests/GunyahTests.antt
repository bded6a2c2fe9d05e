-- ===== src/Tests/GunyahTests.antt =====
-- gunyah/src on a kernel that grants every request.
use gunyah_test_vmm.Base.{◌≤◌, ◌≡◌, refl, true, some, ok, debug, release, arith, ◌+◌, u64_size, ◌-◌}
use gunyah_test_vmm.Effects.{◌>>=◌, ◌>>◌, pure, lift, or_panic, in_context}
use gunyah_test_vmm.Tests.Kernels.{generous}
use gunyah_test_vmm.Gunyah.Kernel.{Kernel, FnArg}
use gunyah_test_vmm.Gunyah.Vm.{Vm, add_function, remove_function}
use gunyah_test_vmm.Gunyah.GuestMem.{GuestMemRegion, MmapOptions, region_new, map_options}
use gunyah_test_vmm.Gunyah.GuestMem.Bounds.{map_options-region_new, map_options-wraps}
use gunyah_test_vmm.Gunyah.Functions.{
  Irqfd, Ioeventfd, Vcpu, irqfd_new, drop_irqfd, ioeventfd_new, vcpu_new, drop_vcpu,
}
use gunyah_test_vmm.Gunyah.Functions.Removal.{drop_irqfd-irqfd_new, drop_vcpu-vcpu_new}

abbrev test_vm : Vm
test_vm = record { fd = 5 }

abbrev test_irqfd : Irqfd
test_irqfd = record { vm = test_vm; label = 1; level = true; eventfd = 3 }

test_irqfd_made : irqfd_new generous test_vm 1 true tt ≡ (ok test_irqfd, tt)
unfolding irqfd_new ◌>>=◌ ◌>>◌ pure lift in_context add_function
test_irqfd_made = refl

drop_irqfd-irqfd_new_example :
    (arg : FnArg) × (before after : Unit {0}) × (add_function generous test_vm arg before
      ≡ (ok 0, after))
    × (drop_irqfd generous test_irqfd
        ≡ (or_panic (remove_function generous test_vm arg) >>= λ _. pure tt))
drop_irqfd-irqfd_new_example =
    drop_irqfd-irqfd_new generous test_vm 1 true test_irqfd tt tt test_irqfd_made

abbrev test_ioeventfd : Ioeventfd
test_ioeventfd = record { vm = test_vm; addr = 0x8000; len = 4; datamatch = some 1; eventfd = 3 }

test_ioeventfd_made : ioeventfd_new generous test_vm 0x8000 4 (some 1) tt ≡ (ok test_ioeventfd, tt)
unfolding ioeventfd_new ◌>>=◌ ◌>>◌ pure lift in_context add_function
test_ioeventfd_made = refl

abbrev test_region : GuestMemRegion
test_region = record { mem = record { fd = 4 }; off = 0x1000; size = 0x8000 }

abbrev granted : MmapOptions
granted = record { offset = 0x5000; len = 0x1000 }

the_file_len : generous.file_len 4 tt ≡ (ok 0x10000, tt)
unfolding pure
the_file_len = refl

the_region : region_new generous debug (record { fd = 4 }) 0x1000 0x8000 tt ≡ (ok test_region, tt)
unfolding region_new gunyah_test_vmm.Effects.lift gunyah_test_vmm.Effects.◌>>=◌ pure
the_region = refl

the_mapping : map_options debug test_region 0x4000 0x1000 ≡ ok granted
unfolding map_options
the_mapping = refl

map_options-region_new_example :
    (granted.offset ≡ 0x1000 + 0x4000)
    × (granted.len ≡ 0x1000)
    × (granted.offset + granted.len ≤ 0x1000 + 0x8000)
    × (0x1000 + 0x8000 ≤ 0x10000)
map_options-region_new_example =
    map_options-region_new generous (record { fd = 4 }) 0x1000 0x8000 0x10000 0x4000 0x1000 tt tt tt
      test_region granted the_file_len the_region the_mapping

map_options-wraps_example :
    map_options release test_region (u64_size - 0x2000) 0x2000
    ≡ ok (record { offset = 0x1000 + (u64_size - 0x2000); len = 0x2000 })
map_options-wraps_example =
    map_options-wraps test_region (u64_size - 0x2000) 0x2000 (omega arith) (omega arith)
      (omega arith) (omega arith) (omega arith)

-- the page of a vCPU has 4 KiB
abbrev generous_with_page : Kernel (Unit {0})
generous_with_page = record generous { ioctl = λ _ _. pure 0x1000 }

abbrev test_vcpu : Vcpu
test_vcpu = record { vm = test_vm; id = 2; vcpu = 0x1000 }

test_vcpu_made : vcpu_new generous_with_page test_vm 2 tt ≡ (ok test_vcpu, tt)
unfolding vcpu_new ◌>>=◌ ◌>>◌ pure lift in_context add_function
test_vcpu_made = refl

drop_vcpu-vcpu_new_example :
    (arg : FnArg) × (before after : Unit {0}) × (add_function generous_with_page test_vm arg before
      ≡ (ok 0x1000, after))
    × (drop_vcpu generous_with_page test_vcpu
        ≡ (or_panic (remove_function generous_with_page test_vm arg) >>= λ _. pure tt))
drop_vcpu-vcpu_new_example =
    drop_vcpu-vcpu_new generous_with_page test_vm 2 test_vcpu tt tt test_vcpu_made
