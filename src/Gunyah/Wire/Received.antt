-- ===== src/Gunyah/Wire/Received.antt =====
-- gunyah-bindings/src/ioctls.rs and gunyah-bindings/src/bindings.rs: a reader of what an ioctl hands
-- to the kernel, which takes the fields at their offsets.
use gunyah_test_vmm.Base.{
  ℕ, ◌^◌, ◌<◌, ◌≡◌, refl, sym, ap, ◌∙◌, ◌==◌, if◌then◌else◌, List, [], ◌∷◌, Option, some, none,
  length, arith,
}
use gunyah_test_vmm.Gunyah.Kernel.{
  FnArg, vcpu_arg, irqfd_arg, ioeventfd_arg, FnDesc, Request, create_vm, vm_start,
  vm_set_dtb_config, vm_add_function, vm_remove_function, vm_map_mem, vm_set_boot_context,
  create_guest_mem, vcpu_run, vcpu_mmap_size,
}
use gunyah_test_vmm.Gunyah.Vm.{fn_desc}
use gunyah_test_vmm.Gunyah.Wire.Fields.{read_fields, AllFit, read_fields-fields}
use gunyah_test_vmm.Gunyah.Wire.{
  le_bytes, fields, argument_bytes, desc_bytes, map_mem_bytes, dtb_config_bytes, create_mem_bytes,
  boot_context_bytes, Passed, nothing, number, structure, Message, message, Field, u32, u64,
}

-- the argument of a function
vcpu_argument : Option (List ℕ) → Option FnArg
vcpu_argument (some (id ∷ [])) = some (vcpu_arg id)
vcpu_argument _ = none

irqfd_argument : Option (List ℕ) → Option FnArg
irqfd_argument (some (fd ∷ label ∷ flags ∷ padding ∷ [])) = some (irqfd_arg fd label flags padding)
irqfd_argument _ = none

ioeventfd_argument : Option (List ℕ) → Option FnArg
ioeventfd_argument (some (datamatch ∷ addr ∷ len ∷ fd ∷ flags ∷ padding ∷ [])) =
    some (ioeventfd_arg datamatch addr len fd flags padding)
ioeventfd_argument _ = none

read_argument : ℕ → List ℕ → Option FnArg
read_argument type_ l =
    if type_ == 1
    then vcpu_argument (read_fields (4 ∷ []) l)
    else if type_ == 2
    then irqfd_argument (read_fields (4 ∷ 4 ∷ 4 ∷ 4 ∷ []) l)
    else if type_ == 3
    then ioeventfd_argument (read_fields (8 ∷ 8 ∷ 4 ∷ 4 ∷ 4 ∷ 4 ∷ []) l)
    else none

-- The argument has as many bytes as the descriptor says.
read_desc : Option (List ℕ) → List ℕ → Option FnDesc
read_desc (some (type_ ∷ arg_size ∷ place ∷ [])) pointed =
    if length pointed == arg_size
    then elim (read_argument type_ pointed) [
      | none ↦ none
      | some arg ↦ some (record { type_ = type_; arg_size = arg_size; arg = arg })
    ]
    else none
read_desc _ pointed = none

-- the other structures
dtb_config : Option (List ℕ) → Option Request
dtb_config (some (addr ∷ size ∷ [])) = some (vm_set_dtb_config addr size)
dtb_config _ = none

create_mem : Option (List ℕ) → Option Request
create_mem (some (flags ∷ size ∷ _ ∷ _ ∷ _ ∷ _ ∷ _ ∷ _ ∷ [])) = some (create_guest_mem flags size)
create_mem _ = none

map_mem : Option (List ℕ) → Option Request
map_mem (some (guest_addr ∷ flags ∷ guest_mem_fd ∷ offset ∷ size ∷ [])) = some (
    vm_map_mem (record {
      guest_addr = guest_addr;
      flags = flags;
      guest_mem_fd = guest_mem_fd;
      offset = offset;
      size = size;
    }))
map_mem _ = none

boot_context : Option (List ℕ) → Option Request
boot_context (some (reg ∷ _ ∷ value ∷ [])) = some (vm_set_boot_context reg value)
boot_context _ = none

of_desc : (FnDesc → Request) → Option FnDesc → Option Request
of_desc f none = none
of_desc f (some desc) = some (f desc)

read_structure : ℕ → List ℕ → List ℕ → Option Request
read_structure nr l pointed =
    if nr == 2
    then dtb_config (read_fields (8 ∷ 8 ∷ []) l)
    else if nr == 4
    then of_desc vm_add_function (read_desc (read_fields (4 ∷ 4 ∷ 8 ∷ []) l) pointed)
    else if nr == 7
    then of_desc vm_remove_function (read_desc (read_fields (4 ∷ 4 ∷ 8 ∷ []) l) pointed)
    else if nr == 8
    then create_mem (read_fields (8 ∷ 8 ∷ 8 ∷ 8 ∷ 8 ∷ 8 ∷ 8 ∷ 8 ∷ []) l)
    else if nr == 9
    then map_mem (read_fields (8 ∷ 4 ∷ 4 ∷ 8 ∷ 8 ∷ []) l)
    else if nr == 0xa
    then boot_context (read_fields (4 ∷ 4 ∷ 8 ∷ []) l)
    else none

read_passed : ℕ → Passed → List ℕ → Option Request
read_passed nr nothing pointed =
    if nr == 3
    then some vm_start
    else if nr == 5
    then some vcpu_run
    else if nr == 6
    then some vcpu_mmap_size
    else none
read_passed nr (number n) pointed = if nr == 0 then some (create_vm n) else none
read_passed nr (structure l) pointed = read_structure nr l pointed

-- What a receiver makes of an ioctl by its number.
pub receive : Message → Option Request
receive m = read_passed m.nr m.passed m.pointed

-- that the fields of a structure have room for what they hold
abbrev ArgumentFits : FnArg → Type 0
ArgumentFits (vcpu_arg id) = AllFit (u32 id ∷ [])
ArgumentFits (irqfd_arg fd label flags padding) =
    AllFit (u32 fd ∷ u32 label ∷ u32 flags ∷ u32 padding ∷ [])
ArgumentFits (ioeventfd_arg datamatch addr len fd flags padding) =
    AllFit (u64 datamatch ∷ u64 addr ∷ u32 len ∷ u32 fd ∷ u32 flags ∷ u32 padding ∷ [])

-- A descriptor is the one that `add_function` and `remove_function` make of its argument.
abbrev pub Fits : Request → Type 0
Fits (create_vm vm_type) = Unit {0}
Fits (vm_set_dtb_config guest_phys_addr size) = AllFit (u64 guest_phys_addr ∷ u64 size ∷ [])
Fits vm_start = Unit {0}
Fits (vm_add_function desc) = (desc ≡ fn_desc desc.arg) × ArgumentFits desc.arg
Fits (vm_remove_function desc) = (desc ≡ fn_desc desc.arg) × ArgumentFits desc.arg
Fits (create_guest_mem flags size) = AllFit (u64 flags ∷ u64 size ∷ [])
Fits (vm_map_mem args) = AllFit (
    u64 args.guest_addr
    ∷ u32 args.flags
    ∷ u32 args.guest_mem_fd
    ∷ u64 args.offset
    ∷ u64 args.size
    ∷ [])
Fits (vm_set_boot_context reg value) = AllFit (u32 reg ∷ u64 value ∷ [])
Fits vcpu_run = Unit {0}
Fits vcpu_mmap_size = Unit {0}

read_argument-argument_bytes :
    (arg : FnArg)
    → ArgumentFits arg
    → read_argument (fn_desc arg).type_ (argument_bytes arg) ≡ some arg
unfolding read_argument argument_bytes fn_desc vcpu_argument irqfd_argument ioeventfd_argument
read_argument-argument_bytes (vcpu_arg id) fit =
    ap vcpu_argument (read_fields-fields (u32 id ∷ []) fit)
read_argument-argument_bytes (irqfd_arg fd label flags padding) fit =
    ap irqfd_argument (read_fields-fields (u32 fd ∷ u32 label ∷ u32 flags ∷ u32 padding ∷ []) fit)
read_argument-argument_bytes (ioeventfd_arg datamatch addr len fd flags padding) fit =
    ap ioeventfd_argument (
      read_fields-fields
        (u64 datamatch ∷ u64 addr ∷ u32 len ∷ u32 fd ∷ u32 flags ∷ u32 padding ∷ []) fit)

-- The size in a descriptor is the number of bytes of the argument.
length-argument_bytes : (arg : FnArg) → length (argument_bytes arg) ≡ (fn_desc arg).arg_size
unfolding argument_bytes fn_desc fields le_bytes
length-argument_bytes (vcpu_arg id) = refl
length-argument_bytes (irqfd_arg fd label flags padding) = refl
length-argument_bytes (ioeventfd_arg datamatch addr len fd flags padding) = refl

desc_fields : ℕ → FnDesc → List Field
desc_fields place desc = u32 desc.type_ ∷ u32 desc.arg_size ∷ u64 place ∷ []

desc_fits : (place : ℕ) (arg : FnArg) → place < 2 ^ 64 → AllFit (desc_fields place (fn_desc arg))
unfolding desc_fields fn_desc
desc_fits place (vcpu_arg id) h = (omega arith, (omega arith, (h, tt)))
desc_fits place (irqfd_arg fd label flags padding) h = (omega arith, (omega arith, (h, tt)))
desc_fits place (ioeventfd_arg datamatch addr len fd flags padding) h =
    (omega arith, (omega arith, (h, tt)))

read_desc-desc_bytes :
    (place : ℕ) (arg : FnArg)
    → place < 2 ^ 64
    → ArgumentFits arg
    → read_desc (read_fields (4 ∷ 4 ∷ 8 ∷ []) (desc_bytes place (fn_desc arg))) (argument_bytes arg)
      ≡ some (fn_desc arg)
unfolding read_desc desc_bytes desc_fields fn_desc
read_desc-desc_bytes place arg h fit =
    ap (λ l. read_desc l (argument_bytes arg))
      (read_fields-fields (desc_fields place (fn_desc arg)) (desc_fits place arg h))
    ∙ rw (length-argument_bytes arg, read_argument-argument_bytes arg fit) (ground arith)

read_desc-made :
    (place : ℕ) (desc : FnDesc)
    → place < 2 ^ 64
    → desc ≡ fn_desc desc.arg
    → ArgumentFits desc.arg
    → read_desc (read_fields (4 ∷ 4 ∷ 8 ∷ []) (desc_bytes place desc)) (argument_bytes desc.arg)
      ≡ some desc
read_desc-made place desc h made fit =
    ap
      (λ d. read_desc (read_fields (4 ∷ 4 ∷ 8 ∷ []) (desc_bytes place d)) (argument_bytes desc.arg))
      made
    ∙ (read_desc-desc_bytes place desc.arg h fit ∙ ap some (sym made))

-- Where the argument of a function lies at an address of u64, the values of a request have room in
-- their fields, and a descriptor of a function is the one that is made of its argument, then a reader
-- that is given the number of the ioctl, the bytes of its structure and the bytes of the argument, and
-- takes each field at its offset, gets the request back. The reader refuses an argument that has not
-- as many bytes as its descriptor says.
pub receive-message :
    (place : ℕ) (request : Request)
    → place < 2 ^ 64
    → Fits request
    → receive (message place request) ≡ some request
unfolding receive read_passed read_structure message dtb_config create_mem map_mem map_mem_bytes
    dtb_config_bytes create_mem_bytes boot_context_bytes boot_context of_desc
receive-message place (create_vm vm_type) h fit = refl
receive-message place (vm_set_dtb_config guest_phys_addr size) h fit =
    ap dtb_config (read_fields-fields (u64 guest_phys_addr ∷ u64 size ∷ []) fit)
receive-message place vm_start h fit = refl
receive-message place (vm_add_function desc) h (made, fit) =
    ap (of_desc vm_add_function) (read_desc-made place desc h made fit)
receive-message place (vm_remove_function desc) h (made, fit) =
    ap (of_desc vm_remove_function) (read_desc-made place desc h made fit)
receive-message place (create_guest_mem flags size) h (f, (s, _)) =
    let zero_fits : 0 < 2 ^ 64 = omega arith in
    ap create_mem (
      read_fields-fields (u64 flags ∷ u64 size ∷ u64 0 ∷ u64 0 ∷ u64 0 ∷ u64 0 ∷ u64 0 ∷ u64 0 ∷ [])
        (f, (s, (zero_fits, (zero_fits, (zero_fits, (zero_fits, (zero_fits, (zero_fits, tt)))))))))
receive-message place (vm_map_mem args) h fit = ap map_mem (
    read_fields-fields
      (u64 args.guest_addr
        ∷ u32 args.flags
        ∷ u32 args.guest_mem_fd
        ∷ u64 args.offset
        ∷ u64 args.size
        ∷ [])
      fit)
receive-message place (vm_set_boot_context reg value) h (r, (v, _)) =
    ap boot_context
      (read_fields-fields (u32 reg ∷ u32 0 ∷ u64 value ∷ []) (r, (omega arith, (v, tt))))
receive-message place vcpu_run h fit = refl
receive-message place vcpu_mmap_size h fit = refl
