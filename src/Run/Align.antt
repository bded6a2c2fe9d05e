-- ===== src/Run/Align.antt =====
-- src/main.rs: rounding up to a multiple of a power of two.
use native.Mathlib.Nat.{mod-lt}
use gunyah_test_vmm.Base.{
  ℕ, ◌+◌, ◌-◌, ◌%◌, ◌^◌, ◌≤◌, ◌<◌, ◌≡◌, refl, Outcome, ok, Profile, add_u64, sub_u64, u64_size,
  max_u64, bit_and, ◌>>=◌, arith, lt→ltb, bit_and-high, pow-pos,
}
use gunyah_test_vmm.Errors.{AnyError}
use gunyah_test_vmm.Types.Guest.{GuestAddress, GuestSize}

-- `(v + mask) & !mask` at u64
unfoldable pub align_up : Profile → ℕ → ℕ → Outcome AnyError ℕ
align_up p v mask = do sum ← add_u64 p v mask; ok (bit_and sum (max_u64 - mask))

-- `Run::align_address_offset`
unfoldable pub align_address_offset : Profile → GuestAddress → ℕ → Outcome AnyError GuestAddress
align_address_offset p addr offset = do v ← align_up p addr.value offset; ok (record { value = v })

-- `Run::align_address`, by the page size in use
unfoldable pub align_address : Profile → ℕ → GuestAddress → Outcome AnyError GuestAddress
align_address p page_size addr = do
  page_mask ← sub_u64 p page_size 1
  align_address_offset p addr page_mask

-- `Run::align_size`
unfoldable pub align_size : Profile → ℕ → GuestSize → Outcome AnyError GuestSize
align_size p page_size size = do
  page_mask ← sub_u64 p page_size 1
  v ← align_up p size.value page_mask
  ok (record { value = v })

-- `v` rounded up to a multiple of 2 ^ k
abbrev pub round_up : ℕ → ℕ → ℕ
round_up k v = (v + (2 ^ k - 1)) - (v + (2 ^ k - 1)) % 2 ^ k

-- The code's mask rounds up to the next multiple of 2 ^ k, if the sum does not overflow.
pub align_up_lem :
    (p : Profile) (k v : ℕ)
    → k ≤ 64
    → v + (2 ^ k - 1) < u64_size
    → align_up p v (2 ^ k - 1) ≡ ok (round_up k v)
unfolding align_up
align_up_lem p k v h small =
    let one : 0 < 2 ^ k = pow-pos k in
    let mask : max_u64 - (2 ^ k - 1) ≡ 2 ^ 64 - 2 ^ k = omega arith in
    rw (lt→ltb (v + (2 ^ k - 1)) u64_size small, mask, bit_and-high k 64 (v + (2 ^ k - 1)) h small)
      refl

mod_sub_mod : (x m : ℕ) → 0 < m → (x - x % m) % m ≡ 0
mod_sub_mod x m h = grind arith

-- The rounded value is the least multiple that is not below the given one.
pub round_up_bounds :
    (k v : ℕ) → (v ≤ round_up k v) × (round_up k v < v + 2 ^ k) × (round_up k v % 2 ^ k ≡ 0)
round_up_bounds k v =
    let one : 0 < 2 ^ k = pow-pos k in
    (
      omega (arith, mod-lt (v + (2 ^ k - 1)) one),
      omega (arith, mod-lt (v + (2 ^ k - 1)) one),
      mod_sub_mod (v + (2 ^ k - 1)) (2 ^ k) one,
    )

-- Aligning an address with a mask of `k` ones, at most 64, gives the least multiple of 2 ^ k that is
-- not below it, in either profile, if the sum of the address and the mask fits into u64.
pub align_address_offset-least :
    (p : Profile) (k : ℕ) (addr : GuestAddress)
    → k ≤ 64
    → addr.value + (2 ^ k - 1) < u64_size
    → (r : GuestAddress) × (align_address_offset p addr (2 ^ k - 1) ≡ ok r)
      × (addr.value ≤ r.value)
      × (r.value < addr.value + 2 ^ k)
      × (r.value % 2 ^ k ≡ 0)
unfolding align_address_offset
align_address_offset-least p k addr h small =
    let (above, below, multiple) = round_up_bounds k addr.value in
    (
      record { value = round_up k addr.value },
      rw (align_address_offset, align_up_lem p k addr.value h small) refl,
      above,
      below,
      multiple,
    )
