-- ===== src/Run/Layout/Apart.antt =====
-- src/main.rs: what the checks of `load_binaries` establish about the regions.
use gunyah_test_vmm.Base.{
  ℕ, ◌+◌, ◌≤◌, ◌<◌, ◌≡◌, ◌⊎◌, inl, inr, refl, false, List, [], ◌∷◌, some, ok, Profile, u64_size,
  arith, leb, Bool-cases, lt→ltb,
}
use gunyah_test_vmm.Types.Guest.{GuestAddress, address_add}
use gunyah_test_vmm.Run.Args.{RunCommand, mem_end}
use gunyah_test_vmm.Run.Layout.{
  Region, insert_by_addr, sort_by_addr, neighbours_overlap, last_region, check_last, check_regions,
}

-- the address behind a region
abbrev pub end_of : Region → ℕ
end_of x = x.addr.value + x.size.value

-- Two regions share no address.
abbrev pub Apart : Region → Region → Type 0
Apart x y = (end_of x ≤ y.addr.value) ⊎ (end_of y ≤ x.addr.value)

abbrev pub All : (Region → Type 0) → List Region → Type 0
All P [] = Unit {0}
All P (x ∷ l) = P x × All P l

-- Any two regions of a list are apart.
abbrev pub AllApart : List Region → Type 0
AllApart [] = Unit {0}
AllApart (x ∷ l) = All (Apart x) l × AllApart l

All-mono :
    {P Q : Region → Type 0} (l : List Region) → ((r : Region) → P r → Q r) → All P l → All Q l
All-mono [] f h = tt
All-mono (x ∷ l) f h = (f x h.0, All-mono l f h.1)

Apart-symm : (x y : Region) → Apart x y → Apart y x
Apart-symm x y (inl h) = inr h
Apart-symm x y (inr h) = inl h

insert_by_addr-All :
    (P : Region → Type 0) (x : Region) (l : List Region)
    → P x
    → All P l
    → All P (insert_by_addr x l)
unfolding insert_by_addr
insert_by_addr-All P x [] h a = (h, a)
insert_by_addr-All P x (y ∷ l) h a = elim (Bool-cases (leb x.addr.value y.addr.value)) [
  | inl e ↦ rw e (h, a)
  | inr e ↦ rw e (a.0, insert_by_addr-All P x l h a.1)
]

sort_by_addr-All : (P : Region → Type 0) (l : List Region) → All P l → All P (sort_by_addr l)
unfolding sort_by_addr
sort_by_addr-All P [] a = tt
sort_by_addr-All P (x ∷ l) a =
    insert_by_addr-All P x (sort_by_addr l) a.0 (sort_by_addr-All P l a.1)

All-insert_by_addr :
    (P : Region → Type 0) (x : Region) (l : List Region)
    → All P (insert_by_addr x l)
    → P x × All P l
unfolding insert_by_addr
All-insert_by_addr P x [] h = h
All-insert_by_addr P x (y ∷ l) h = elim (Bool-cases (leb x.addr.value y.addr.value)) [
  | inl e ↦ rw e at h
  | inr e ↦
      let k : All P (y ∷ insert_by_addr x l) = rw e at h in
      let (px, pl) = All-insert_by_addr P x l k.1 in (px, (k.0, pl))
]

pub All-sort_by_addr : (P : Region → Type 0) (l : List Region) → All P (sort_by_addr l) → All P l
unfolding sort_by_addr
All-sort_by_addr P [] a = tt
All-sort_by_addr P (x ∷ l) a =
    let (px, pl) = All-insert_by_addr P x (sort_by_addr l) a in (px, All-sort_by_addr P l pl)

AllApart-insert_by_addr :
    (x : Region) (l : List Region) → AllApart (insert_by_addr x l) → All (Apart x) l × AllApart l
unfolding insert_by_addr
AllApart-insert_by_addr x [] h = (tt, tt)
AllApart-insert_by_addr x (y ∷ l) h = elim (Bool-cases (leb x.addr.value y.addr.value)) [
  | inl e ↦ rw e at h
  | inr e ↦
      let k : AllApart (y ∷ insert_by_addr x l) = rw e at h in
      let (yx, yl) = All-insert_by_addr (Apart y) x l k.0 in
      let (xl, ll) = AllApart-insert_by_addr x l k.1 in ((Apart-symm y x yx, xl), (yl, ll))
]

-- Sorting does not matter to whether regions are apart.
AllApart-sort_by_addr : (l : List Region) → AllApart (sort_by_addr l) → AllApart l
unfolding sort_by_addr
AllApart-sort_by_addr [] h = tt
AllApart-sort_by_addr (x ∷ l) h =
    let (xs, rest) = AllApart-insert_by_addr x (sort_by_addr l) h in
    (All-sort_by_addr (Apart x) l xs, AllApart-sort_by_addr l rest)

neighbours_step :
    (p : Profile) (x y : Region) (l : List Region)
    → end_of x < u64_size
    → neighbours_overlap p (x ∷ y ∷ l) ≡ ok false
    → (end_of x ≤ y.addr.value) × (neighbours_overlap p (y ∷ l) ≡ ok false)
unfolding neighbours_overlap address_add
neighbours_step p x y l fits h = ground arith

-- If no neighbours overlap, each region ends where a later one starts or before.
later_starts :
    (p : Profile) (x : Region) (l : List Region)
    → All (λ r. end_of r < u64_size) (x ∷ l)
    → neighbours_overlap p (x ∷ l) ≡ ok false
    → All (λ r. end_of x ≤ r.addr.value) l
later_starts p x [] fits h = tt
later_starts p x (y ∷ l) fits h =
    let (first, rest) = neighbours_step p x y l fits.0 h in
    (first, All-mono l (λ r e. omega arith) (later_starts p y l fits.1 rest))

neighbours-AllApart :
    (p : Profile) (l : List Region)
    → All (λ r. end_of r < u64_size) l
    → neighbours_overlap p l ≡ ok false
    → AllApart l
neighbours-AllApart p [] fits h = tt
neighbours-AllApart p (x ∷ []) fits h = (tt, tt)
neighbours-AllApart p (x ∷ y ∷ l) fits h = (
  All-mono (y ∷ l) (λ r e. inl e) (later_starts p x (y ∷ l) fits h),
  neighbours-AllApart p (y ∷ l) fits.1 (neighbours_step p x y l fits.0 h).1,
)

-- The last region ends last.
ends_by_last :
    (p : Profile) (l : List Region) (z : Region)
    → All (λ r. end_of r < u64_size) l
    → neighbours_overlap p l ≡ ok false
    → last_region l ≡ some z
    → All (λ r. end_of r ≤ end_of z) l
ends_by_last p [] z fits h e = tt
ends_by_last p (x ∷ []) z fits h e = (ground arith, tt)
ends_by_last p (x ∷ y ∷ l) z fits h e =
    let (first, rest) = neighbours_step p x y l fits.0 h in
    let later = ends_by_last p (y ∷ l) z fits.1 rest e in (omega arith, later)

pub check_regions_cases :
    (p : Profile) (args : RunCommand) (l : List Region)
    → check_regions p args l ≡ ok tt
    → (neighbours_overlap p (sort_by_addr l) ≡ ok false)
      × (check_last p args (last_region (sort_by_addr l)) ≡ ok tt)
unfolding check_regions
check_regions_cases p args l h = ground arith

check_last_fits :
    (p : Profile) (args : RunCommand) (z : Region) (top : GuestAddress)
    → mem_end p args ≡ ok top
    → end_of z < u64_size
    → check_last p args (some z) ≡ ok tt
    → end_of z ≤ top.value
unfolding check_last address_add
check_last_fits p args z top m fits h =
    let k = rw (lt→ltb (end_of z) u64_size fits, m) at h in ground arith

last_region_cases : (x : Region) (l : List Region) → (z : Region) × (last_region (x ∷ l) ≡ some z)
last_region_cases x [] = (x, refl)
last_region_cases x (y ∷ l) = last_region_cases y l

last_fits :
    (p : Profile) (l : List Region) (z : Region)
    → All (λ r. end_of r < u64_size) l
    → last_region l ≡ some z
    → end_of z < u64_size
last_fits p [] z fits e = ground arith
last_fits p (x ∷ []) z fits e = let k = fits.0 in ground arith
last_fits p (x ∷ y ∷ l) z fits e = last_fits p (y ∷ l) z fits.1 e

regions_below :
    (p : Profile) (args : RunCommand) (l : List Region) (top : GuestAddress)
    → mem_end p args ≡ ok top
    → All (λ r. end_of r < u64_size) l
    → neighbours_overlap p l ≡ ok false
    → check_last p args (last_region l) ≡ ok tt
    → All (λ r. end_of r ≤ top.value) l
regions_below p args [] top m fits h c = tt
regions_below p args (x ∷ l) top m fits h c =
    let (z, e) = last_region_cases x l in
    let ends = ends_by_last p (x ∷ l) z fits h e in
    let zfits = last_fits p (x ∷ l) z fits e in
    let low = check_last_fits p args z top m zfits (rw e at c) in
    All-mono (x ∷ l) (λ r k. omega arith) ends

-- If the checks of `load_binaries` pass, no region of the list ends behind u64, and the end of memory
-- is an address, then no two regions share an address and none ends above the end of memory.
pub check_regions-AllApart :
    (p : Profile) (args : RunCommand) (l : List Region) (top : GuestAddress)
    → mem_end p args ≡ ok top
    → All (λ r. end_of r < u64_size) l
    → check_regions p args l ≡ ok tt
    → AllApart l × All (λ r. end_of r ≤ top.value) l
check_regions-AllApart p args l top m fits h =
    let (apart, last) = check_regions_cases p args l h in
    let sorted_fits = sort_by_addr-All (λ r. end_of r < u64_size) l fits in
    (
      AllApart-sort_by_addr l (neighbours-AllApart p (sort_by_addr l) sorted_fits apart),
      All-sort_by_addr (λ r. end_of r ≤ top.value) l
          (regions_below p args (sort_by_addr l) top m sorted_fits apart last),
    )
