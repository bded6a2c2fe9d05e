-- ===== src/Run/Args.antt =====
-- src/main.rs: the arguments and their validation.
use gunyah_test_vmm.Base.{
  ℕ, ◌==◌, if◌then◌else◌, Bool, not, List, [], ◌∷◌, Option, none, some, Outcome, ok, err, Profile,
  sub_u64, mul_u64, ◌>>=◌,
}
use gunyah_test_vmm.Errors.{AnyError, msg}
use gunyah_test_vmm.Vmm.DeviceTree.{GicConfig}
use gunyah_test_vmm.Types.Text.{Text}
use gunyah_test_vmm.Types.Guest.{GuestAddress, GuestSize, address_add, address_from_str}

-- `LoadFileArg`
pub record LoadFileArg : Type 0 where
  pub file : Text
  pub addr : GuestAddress

-- a character before the first of the parts
abbrev pub extend_first : ℕ → List Text → List Text
extend_first c [] = []
extend_first c (part ∷ parts) = (c ∷ part) ∷ parts

-- `str::split` at a character
unfoldable pub split_at : ℕ → Text → List Text
split_at sep [] = [] ∷ []
split_at sep (c ∷ s) =
    let rest = split_at sep s in if c == sep then [] ∷ rest else extend_first c rest

-- the first two parts
abbrev file_and_addr : List Text → Outcome AnyError LoadFileArg
file_and_addr [] = err (msg "No path specified")
file_and_addr (file ∷ []) = err (msg "No address specified")
file_and_addr (file ∷ addr ∷ rest) = do
  a ← address_from_str addr
  ok (record { file = file; addr = a })

-- `<LoadFileArg as FromStr>::from_str`
unfoldable pub load_file_from_str : Text → Outcome AnyError LoadFileArg
load_file_from_str s = file_and_addr (split_at b',' s)

-- `RunCommand`
pub record RunCommand : Type 0 where
  pub image : Text
  pub image_base : Option GuestAddress
  pub rdisk : Text
  pub files : List LoadFileArg
  pub mem_base : GuestAddress
  pub size : GuestSize
  pub vcpus : ℕ
  pub dtb_base : Option GuestAddress
  pub huge_pages : Bool
  pub protected : Bool
  pub command_line : Text
  pub gic_dist_base : GuestAddress
  pub gic_dist_size : GuestSize
  pub gic_redist_base : Option GuestAddress
  pub gic_redist_size : GuestSize
  pub serial_base : GuestAddress
  pub serial_interrupt : ℕ

-- the first of the files that is no file
unfoldable pub find_missing : (Text → Bool) → List LoadFileArg → Option LoadFileArg
find_missing is_file [] = none
find_missing is_file (f ∷ fs) = if is_file f.file then find_missing is_file fs else some f

abbrev check_files : Option LoadFileArg → Outcome AnyError (Unit {0})
check_files none = ok tt
check_files (some f) = err (msg "{} is not a file")

-- `RunCommand::validate`. Which paths name files is up to the file system.
unfoldable pub validate : (Text → Bool) → RunCommand → Outcome AnyError (Unit {0})
validate is_file self =
    if not (is_file self.image)
    then err (msg "{} is not a file")
    else if self.vcpus == 0
    then err (msg "Need more than zero vCPUs to run a virtual machine")
    else check_files (find_missing is_file self.files)

-- `Run::mem_end`
unfoldable pub mem_end : Profile → RunCommand → Outcome AnyError GuestAddress
mem_end p args = address_add p args.mem_base args.size

abbrev redist_base : Profile → RunCommand → Option GuestAddress → Outcome AnyError ℕ
redist_base p args (some b) = ok b.value
redist_base p args none = do
  offset ← mul_u64 p args.gic_redist_size.value args.vcpus
  sub_u64 p args.gic_dist_base.value offset

-- the four numbers of the interrupt controller in `generate_fdt`
unfoldable pub gic_config : Profile → RunCommand → Outcome AnyError GicConfig
gic_config p args = do
  base ← redist_base p args args.gic_redist_base
  size ← mul_u64 p args.gic_redist_size.value args.vcpus
  ok (record {
    dist_base = args.gic_dist_base.value;
    dist_size = args.gic_dist_size.value;
    redist_base = base;
    redist_size = size;
  })
