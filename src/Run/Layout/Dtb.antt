-- ===== src/Run/Layout/Dtb.antt =====
-- src/main.rs: where `load_binaries` places the device tree when no address is given.
use native.Mathlib.Nat.{mod-eq_of_lt, add-mod, zero-mod}
use gunyah_test_vmm.Base.{
  ℕ, ◌+◌, ◌-◌, ◌%◌, ◌^◌, ◌≤◌, ◌<◌, ◌≡◌, refl, none, ok, Profile, u64_size, arith, ◌∙◌, Bool-cases,
  inl, inr, lt→ltb, le→leb, leb, pow-pos,
}
use gunyah_test_vmm.Types.Guest.{GuestAddress, GuestSize}
use gunyah_test_vmm.Run.Args.{RunCommand, mem_end}
use gunyah_test_vmm.Run.Align.{
  align_address, align_address_offset, align_size, align_up_lem, round_up, round_up_bounds,
}
use gunyah_test_vmm.Run.Layout.{place_dtb, place_dtb_len}

-- With pages of 2 ^ k bytes, at the end of memory, the tree is placed at this address.
place_dtb_lem :
    (p : Profile) (k : ℕ) (args : RunCommand) (dtb_len : ℕ) (top : GuestAddress)
    → k ≤ 63
    → mem_end p args ≡ ok top
    → top.value < u64_size
    → dtb_len + 2 ^ k + 2 ^ k ≤ top.value
    → place_dtb p (2 ^ k) args dtb_len none
      ≡ ok (record { value = round_up k (top.value - dtb_len - 2 ^ k - 2 ^ k) })
unfolding place_dtb align_address align_address_offset
place_dtb_lem p k args dtb_len top hk m small room =
    let one : 0 < 2 ^ k = pow-pos k in
    rw
      (
        m,
        le→leb dtb_len top.value (omega arith),
        le→leb (2 ^ k) (top.value - dtb_len) (omega arith),
        le→leb (2 ^ k) (top.value - dtb_len - 2 ^ k) (omega arith),
        le→leb 1 (2 ^ k) one,
        align_up_lem p k (top.value - dtb_len - 2 ^ k - 2 ^ k) (omega arith) (omega arith),
      )
      refl

place_dtb_len_lem :
    (p : Profile) (k dtb_len : ℕ)
    → k ≤ 63
    → dtb_len + 2 ^ k + 2 ^ k < u64_size
    → place_dtb_len p (2 ^ k) dtb_len ≡ ok (record { value = round_up k (dtb_len + 2 ^ k) })
unfolding place_dtb_len align_size
place_dtb_len_lem p k dtb_len hk small =
    let one : 0 < 2 ^ k = pow-pos k in
    rw
      (
        lt→ltb (dtb_len + 2 ^ k) u64_size (omega arith),
        le→leb 1 (2 ^ k) one,
        align_up_lem p k (dtb_len + 2 ^ k) (omega arith) (omega arith),
      )
      refl

-- a multiple that is less than a step above another is not above it
mod-le : (n x y : ℕ) → 0 < n → x % n ≡ 0 → y % n ≡ 0 → y ≤ x → x < y + n → x ≡ y
mod-le n x y pos hx hy above h =
    let d : x - y < n = omega arith in
    let zl : 0 + (x - y) ≡ x - y = omega arith in
    let e : (y % n + (x - y) % n) % n ≡ x - y = rw (hy, mod-eq_of_lt d, zl) (mod-eq_of_lt d) in
    let f : (y + (x - y)) % n ≡ x - y = add-mod y (x - y) n ∙ e in
    let g : y + (x - y) ≡ x = omega arith in let z : x % n ≡ x - y = rw g at f in omega arith

fits_below :
    (n top a b len : ℕ)
    → 0 < n
    → top % n ≡ 0
    → a % n ≡ 0
    → b % n ≡ 0
    → a < (top - len - n - n) + n
    → b < (len + n) + n
    → len + n + n ≤ top
    → a + b ≤ top
fits_below n top a b len pos ht ha hb la lb room = elim (Bool-cases (leb top (a + b))) [
  | inl over ↦
      let sum : (a % n + b % n) % n ≡ 0 = rw (ha, hb) (zero-mod n) in
      let e = mod-le n (a + b) top pos (add-mod a b n ∙ sum) ht (ground arith) (omega arith) in
      omega arith
  | inr under ↦ ground arith
]

-- Where no address is given, pages have 2 ^ k bytes (k at most 63), the end of memory is a multiple
-- of them and below 2 ^ 64, and there is room below it for the tree and two pages: the tree and its
-- padding are placed on page boundaries, end at the end of memory or before, and have room for the
-- tree and one page.
pub place_dtb-fits :
    (p : Profile) (k : ℕ) (args : RunCommand) (dtb_len : ℕ) (top : GuestAddress)
    → k ≤ 63
    → mem_end p args ≡ ok top
    → top.value < u64_size
    → top.value % 2 ^ k ≡ 0
    → dtb_len + 2 ^ k + 2 ^ k ≤ top.value
    → (addr : GuestAddress) × (size : GuestSize) × (place_dtb p (2 ^ k) args dtb_len none ≡ ok addr)
      × (place_dtb_len p (2 ^ k) dtb_len ≡ ok size)
      × (addr.value % 2 ^ k ≡ 0)
      × (size.value % 2 ^ k ≡ 0)
      × (dtb_len + 2 ^ k ≤ size.value)
      × (addr.value + size.value ≤ top.value)
place_dtb-fits p k args dtb_len top hk m small whole room =
    let one : 0 < 2 ^ k = pow-pos k in
    let (la, ua, ma) = round_up_bounds k (top.value - dtb_len - 2 ^ k - 2 ^ k) in
    let (lb, ub, mb) = round_up_bounds k (dtb_len + 2 ^ k) in
    (
      record { value = round_up k (top.value - dtb_len - 2 ^ k - 2 ^ k) },
      record { value = round_up k (dtb_len + 2 ^ k) },
      place_dtb_lem p k args dtb_len top hk m small room,
      place_dtb_len_lem p k dtb_len hk (omega arith),
      ma,
      mb,
      lb,
      fits_below (2 ^ k) top.value _ _ dtb_len one whole ma mb ua ub room,
    )
