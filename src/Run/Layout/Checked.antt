-- ===== src/Run/Layout/Checked.antt =====
-- src/main.rs: the checks of `load_binaries` in the debug profile, where a sum that overflows panics.
use gunyah_test_vmm.Base.{◌≤◌, ◌<◌, ◌≡◌, List, [], ◌∷◌, some, false, ok, debug, u64_size, arith}
use gunyah_test_vmm.Types.Guest.{GuestAddress, address_add}
use gunyah_test_vmm.Run.Args.{RunCommand, mem_end}
use gunyah_test_vmm.Run.Layout.{
  Region, sort_by_addr, neighbours_overlap, last_region, check_last, check_regions,
}
use gunyah_test_vmm.Run.Layout.Apart.{
  end_of, All, AllApart, check_regions_cases, All-sort_by_addr, check_regions-AllApart,
}

neighbours_fit :
    (x y : Region) (l : List Region)
    → neighbours_overlap debug (x ∷ y ∷ l) ≡ ok false
    → (end_of x < u64_size) × (neighbours_overlap debug (y ∷ l) ≡ ok false)
unfolding neighbours_overlap address_add
neighbours_fit x y l h = ground arith

last_fits :
    (args : RunCommand) (z : Region) → check_last debug args (some z) ≡ ok tt → end_of z < u64_size
unfolding check_last address_add
last_fits args z h = ground arith

regions_fit :
    (args : RunCommand) (l : List Region)
    → neighbours_overlap debug l ≡ ok false
    → check_last debug args (last_region l) ≡ ok tt
    → All (λ r. end_of r < u64_size) l
regions_fit args [] h c = tt
regions_fit args (x ∷ []) h c = (last_fits args x c, tt)
regions_fit args (x ∷ y ∷ l) h c =
    let (first, rest) = neighbours_fit x y l h in (first, regions_fit args (y ∷ l) rest c)

-- Built for debugging, if the checks of `load_binaries` pass and the end of memory is an address, then
-- no two regions share an address, none ends above the end of memory, and none ends behind u64.
pub check_regions-AllApart_debug :
    (args : RunCommand) (l : List Region) (top : GuestAddress)
    → mem_end debug args ≡ ok top
    → check_regions debug args l ≡ ok tt
    → AllApart l × All (λ r. end_of r ≤ top.value) l × All (λ r. end_of r < u64_size) l
check_regions-AllApart_debug args l top m h =
    let (apart, last) = check_regions_cases debug args l h in
    let fits =
      All-sort_by_addr (λ r. end_of r < u64_size) l
        (regions_fit args (sort_by_addr l) apart last) in
    let (separate, below) = check_regions-AllApart debug args l top m fits h in
    (separate, below, fits)
