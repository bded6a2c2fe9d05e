-- ===== src/Run/Layout.antt =====
-- src/main.rs: where `load_binaries` places the image, the ramdisk and the device tree, and its check
-- that they do not overlap.
pub mod Apart
pub mod Checked
pub mod Dtb
use gunyah_test_vmm.Base.{
  ℕ, ◌+◌, ◌-◌, ltb, leb, if◌then◌else◌, Bool, true, false, List, [], ◌∷◌, Option, none, some,
  Outcome, ok, err, panic, Profile, add_u64, sub_u64, u64_size, ◌>>=◌, length,
}
use gunyah_test_vmm.Errors.{AnyError, msg}
use gunyah_test_vmm.Types.Text.{Text, codes}
use gunyah_test_vmm.Types.Guest.{GuestAddress, GuestSize, address_add, unwrap_some}
use gunyah_test_vmm.Run.Args.{RunCommand, LoadFileArg, mem_end}
use gunyah_test_vmm.Run.Align.{align_address, align_address_offset, align_size}

-- an entry of `regions`
pub record Region : Type 0 where
  pub name : Text
  pub addr : GuestAddress
  pub size : GuestSize

-- `regions.sort_by_key(|v| *v.1)`: entries with one address keep their order
unfoldable pub insert_by_addr : Region → List Region → List Region
insert_by_addr x [] = x ∷ []
insert_by_addr x (y ∷ l) =
    if leb x.addr.value y.addr.value then x ∷ y ∷ l else y ∷ insert_by_addr x l

unfoldable pub sort_by_addr : List Region → List Region
sort_by_addr [] = []
sort_by_addr (x ∷ l) = insert_by_addr x (sort_by_addr l)

-- `regions.windows(2).find(..)`: whether two neighbours overlap
unfoldable pub neighbours_overlap : Profile → List Region → Outcome AnyError Bool
neighbours_overlap p [] = ok false
neighbours_overlap p (x ∷ []) = ok false
neighbours_overlap p (x ∷ y ∷ l) = do
  end ← address_add p x.addr x.size
  if ltb y.addr.value end.value then ok true else neighbours_overlap p (y ∷ l)

-- `regions.last()`
abbrev pub last_region : List Region → Option Region
last_region [] = none
last_region (x ∷ []) = some x
last_region (x ∷ y ∷ l) = last_region (y ∷ l)

-- the test of the last region against the end of memory
unfoldable pub check_last : Profile → RunCommand → Option Region → Outcome AnyError (Unit {0})
check_last p args none = ok tt
check_last p args (some last) = do
  end ← address_add p last.addr last.size
  top ← mem_end p args
  if ltb top.value end.value then err (msg "{} should not lie outside memory ({})") else ok tt

-- the checks of `load_binaries` on its regions
unfoldable pub check_regions : Profile → RunCommand → List Region → Outcome AnyError (Unit {0})
check_regions p args regions = do
  let sorted = sort_by_addr regions
  overlap ← neighbours_overlap p sorted
  if overlap
      then err (msg "{} ({}@{}) should not overlap with {} ({}@{})")
      else check_last p args (last_region sorted)

-- `u64::checked_sub`
abbrev pub checked_sub : ℕ → ℕ → Option ℕ
checked_sub a b = if leb b a then some (a - b) else none

abbrev pub and_then : Option ℕ → (ℕ → Option ℕ) → Option ℕ
and_then none f = none
and_then (some a) f = f a

-- `dtb_addr`: where it is not given, two pages and the length of the device tree below the end of
-- memory, rounded up to a page
unfoldable pub place_dtb :
    Profile → ℕ → RunCommand → ℕ → Option GuestAddress → Outcome AnyError GuestAddress
place_dtb p page_size args dtb_len (some b) = ok b
place_dtb p page_size args dtb_len none = do
  top ← mem_end p args
  a ← unwrap_some (
      and_then (and_then (checked_sub top.value dtb_len) (λ a. checked_sub a page_size))
        (λ a. checked_sub a page_size))
  align_address p page_size (record { value = a })

-- `dtb_len`: the length of the device tree and a page, rounded up to a page
unfoldable pub place_dtb_len : Profile → ℕ → ℕ → Outcome AnyError GuestSize
place_dtb_len p page_size dtb_len = do
  padded ← add_u64 p dtb_len page_size
  align_size p page_size (record { value = padded })

-- `Option::unwrap_or`
abbrev unwrap_or {ℓ} : {A : Type ℓ} → A → Option A → A
unwrap_or d none = d
unwrap_or d (some a) = a

-- the base of the image, and the base of the ramdisk: 16 MiB aligned, behind the image and a page
unfoldable pub place_rdisk :
    Profile → ℕ → RunCommand → ℕ → Outcome AnyError (GuestAddress × GuestAddress)
place_rdisk p page_size args image_len = do
  let image_base = unwrap_or args.mem_base args.image_base
  padded ← add_u64 p image_len page_size
  aligned ← align_size p page_size (record { value = padded })
  image_end ← address_add p image_base aligned
  rdisk_base ← align_address_offset p image_end 0xffffff
  ok (image_base, rdisk_base)

-- What `load_binaries` has settled when it begins to write to the virtual machine.
pub record Placement : Type 0 where
  pub image_base : GuestAddress
  pub rdisk_base : GuestAddress
  pub dtb_addr : GuestAddress
  pub dtb_len : GuestSize
  pub dtb : List ℕ

abbrev no_files : List LoadFileArg → Outcome AnyError (Unit {0})
no_files [] = ok tt
no_files (f ∷ fs) = panic

-- `load_binaries` up to its first write. `generate` is `generate_fdt`, by the range
-- of the ramdisk. Extra files end in `todo!()`.
unfoldable pub plan :
    Profile
    → ℕ
    → RunCommand
    → ℕ
    → ℕ
    → (GuestAddress → GuestAddress → Outcome AnyError (List ℕ))
    → Outcome AnyError Placement
plan p page_size args image_len rdisk_len generate = do
  (image_base, rdisk_base) ← place_rdisk p page_size args image_len
  rdisk_end ← address_add p rdisk_base (record { value = rdisk_len })
  dtb ← generate rdisk_base rdisk_end
  let tree_len = length dtb
  dtb_addr ← place_dtb p page_size args tree_len args.dtb_base
  dtb_len ← place_dtb_len p page_size tree_len
  _ ← no_files args.files
  _ ← check_regions p args (
      record { name = codes "dtb"; addr = dtb_addr; size = dtb_len }
      ∷ record { name = args.image; addr = image_base; size = record { value = image_len } }
      ∷ record { name = args.rdisk; addr = rdisk_base; size = record { value = rdisk_len } }
      ∷ [])
  ok (record {
    image_base = image_base;
    rdisk_base = rdisk_base;
    dtb_addr = dtb_addr;
    dtb_len = dtb_len;
    dtb = dtb;
  })
