-- ===== src/Tests/WireTests.antt =====
-- gunyah-bindings/src/ioctls.rs: ioctls as bytes.
use gunyah_test_vmm.Base.{◌≡◌, refl, [], ◌∷◌, some, arith}
use gunyah_test_vmm.Gunyah.Kernel.{irqfd_arg, FnDesc, vm_add_function}
use gunyah_test_vmm.Gunyah.Vm.{fn_desc}
use gunyah_test_vmm.Gunyah.Wire.{message, desc_bytes, fields, le_bytes}
use gunyah_test_vmm.Gunyah.Wire.Received.{receive, receive-message}

abbrev level_interrupt : FnDesc
level_interrupt = record { type_ = 2; arg_size = 16; arg = irqfd_arg 5 32 1 0 }

it_is_in_bytes :
    desc_bytes 0x1000 level_interrupt
    ≡ 2 ∷ 0 ∷ 0 ∷ 0 ∷ 16 ∷ 0 ∷ 0 ∷ 0 ∷ 0 ∷ 0x10 ∷ 0 ∷ 0 ∷ 0 ∷ 0 ∷ 0 ∷ 0 ∷ []
unfolding desc_bytes fields le_bytes
it_is_in_bytes = refl

receive-message_example :
    receive (message 0x1000 (vm_add_function level_interrupt))
    ≡ some (vm_add_function level_interrupt)
unfolding fn_desc
receive-message_example =
    receive-message 0x1000 (vm_add_function level_interrupt) (omega arith)
      (refl, (omega arith, (omega arith, (omega arith, (omega arith, tt)))))
