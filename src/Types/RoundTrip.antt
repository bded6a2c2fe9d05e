-- ===== src/Types/RoundTrip.antt =====
-- src/types.rs: what `Display` prints of an address is read back by `FromStr`.

use mathlib.Core.List.{append-nil}
use gunyah_test_vmm.Base.{
  ℕ, zero, suc, ◌-◌, ◌*◌, ◌/◌, ◌%◌, ◌≤◌, ◌≡◌, ◌≢◌, inl, inr, refl, ◌∙◌, [], ◌∷◌, ◌++◌, some, ok,
  arith, ◌==◌, u64_size, max_u64, length, Bool-cases, lt→ltb,
}
use gunyah_test_vmm.Types.Text.{Text, codes, trim, to_lowercase, strip_prefix, strip_suffix}
use gunyah_test_vmm.Types.Radix.{digit_value, to_digit, push_digit, scan, digit_char, emit, digits}
use gunyah_test_vmm.Types.Digits.{All, scan-emit, emit-All}
use gunyah_test_vmm.Types.Guest.{
  GuestAddress, radix_prefixes, mul_suffixes, find_strip, parse_number, checked_mul,
  address_from_str, zeros, address_fmt,
}
use gunyah_test_vmm.Types.Characters.{
  IsDecimal, IsHex, IsVisible, All-append, All-mono, trim_lem, to_lowercase_hex,
  drop_separators_lem, mul_suffixes-AllUnits, find_strip-append, digit_char-IsHex,
  digit_char-IsDecimal, from_str_radix-scan,
}

-- What stands between the prefix and the unit is read as a number.
pub parse_number-read :
    (s ds t : Text) (radix mul n : ℕ)
    → find_strip strip_prefix radix_prefixes (to_lowercase (trim s)) ≡ some (radix, ds ++ t)
    → find_strip strip_suffix mul_suffixes t ≡ some (mul, [])
    → All IsHex ds
    → ds ≢ []
    → scan radix 0 ds ≡ ok n
    → parse_number s ≡ checked_mul n mul
unfolding parse_number
parse_number-read s [] t radix mul n e u h ne r = absurd (ne refl)
parse_number-read s (c ∷ ds) t radix mul n e u h ne r =
    rw
      (
        e,
        find_strip-append mul_suffixes (c ∷ ds) t mul_suffixes-AllUnits h,
        u,
        append-nil,
        drop_separators_lem (c ∷ ds) h,
        from_str_radix-scan radix c ds h.0,
        r,
      )
      refl

find_prefix_0x :
    (s : Text) → find_strip strip_prefix radix_prefixes (codes "0x" ++ s) ≡ some (16, s)
unfolding find_strip strip_prefix
find_prefix_0x s = refl

find_unit_none : find_strip strip_suffix mul_suffixes [] ≡ some (1, [])
unfolding find_strip strip_suffix
find_unit_none = refl

scan-zeros : (k : ℕ) (s : Text) → scan 16 0 (zeros k ++ s) ≡ scan 16 0 s
unfolding scan to_digit push_digit digit_value
scan-zeros zero s = refl
scan-zeros (suc k) s = scan-zeros k s

pub zeros-IsHex : (k : ℕ) → All IsHex (zeros k)
zeros-IsHex zero = tt
zeros-IsHex (suc k) = (inl (omega arith), zeros-IsHex k)

pub digits-IsHex : (n : ℕ) → All IsHex (digits 16 n)
unfolding digits
digits-IsHex n = emit-All IsHex 16 64 n [] (omega arith) digit_char-IsHex tt

pub digits-IsDecimal : (n : ℕ) → All IsDecimal (digits 10 n)
unfolding digits
digits-IsDecimal n = emit-All IsDecimal 10 64 n [] (omega arith) digit_char-IsDecimal tt

pub hex-IsVisible : (c : ℕ) → IsHex c → IsVisible c
hex-IsVisible c h = ground arith

emit-cons :
    (radix fuel n c : ℕ) (out : Text) → (d : ℕ) × (s : Text) × (emit radix fuel n (c ∷ out) ≡ d ∷ s)
unfolding emit
emit-cons radix zero n c out = (c, out, refl)
emit-cons radix (suc fuel) n c out = elim (Bool-cases (n / radix == 0)) [
  | inl last ↦ (digit_char (n % radix), c ∷ out, rw last refl)
  | inr more ↦ rw more (emit-cons radix fuel (n / radix) (digit_char (n % radix)) (c ∷ out))
]

digits-cons : (radix n : ℕ) → (d : ℕ) × (s : Text) × (digits radix n ≡ d ∷ s)
unfolding digits emit
digits-cons radix n = elim (Bool-cases (n / radix == 0)) [
  | inl last ↦ (digit_char (n % radix), [], rw last refl)
  | inr more ↦ rw more (emit-cons radix 63 (n / radix) (digit_char (n % radix)) [])
]

pub digits-ne-nil : (radix n : ℕ) → digits radix n ≢ []
digits-ne-nil radix n e = let (d, s, e') = digits-cons radix n in cc

append-ne-nil : (s t : Text) → t ≢ [] → s ++ t ≢ []
append-ne-nil [] t h e = h e
append-ne-nil (c ∷ s) t h e = cc

pub scan-digits :
    (radix n : ℕ) → 2 ≤ radix → radix ≤ 16 → n ≤ max_u64 → scan radix 0 (digits radix n) ≡ ok n
unfolding digits scan
scan-digits radix n lo hi h = scan-emit radix 64 n [] lo hi h (omega arith)

pub checked_mul_lem : (n mul v : ℕ) → n * mul ≡ v → v ≤ max_u64 → checked_mul n mul ≡ ok v
checked_mul_lem n mul v e h = rw (e, lt→ltb v u64_size (omega arith)) refl

address_text_lem :
    (body : Text)
    → All IsHex body
    → find_strip strip_prefix radix_prefixes (to_lowercase (trim (codes "0x" ++ body)))
      ≡ some (16, body ++ [])
unfolding to_lowercase
address_text_lem body hex =
    rw
      (
        trim_lem (codes "0x" ++ body)
            (refl, (refl, All-mono IsHex IsVisible body hex-IsVisible hex)),
        to_lowercase_hex body hex,
        append-nil,
      )
      (find_prefix_0x body)

-- Every address that is printed is read back: `FromStr` after `Display` is the identity on u64.
pub address_from_str-address_fmt :
    (a : GuestAddress) → a.value ≤ max_u64 → address_from_str (address_fmt a) ≡ ok a
unfolding address_from_str address_fmt
address_from_str-address_fmt a h =
    let ds = digits 16 a.value in
    let body = zeros (6 - length ds) ++ ds in
    let hex : All IsHex body =
      All-append IsHex (zeros (6 - length ds)) ds (zeros-IsHex _) (digits-IsHex a.value) in
    let read : parse_number (codes "0x" ++ body) ≡ ok a.value =
      parse_number-read (codes "0x" ++ body) body [] 16 1 a.value (address_text_lem body hex)
        find_unit_none hex (append-ne-nil (zeros (6 - length ds)) ds (digits-ne-nil 16 a.value))
        (scan-zeros (6 - length ds) ds ∙ scan-digits 16 a.value (omega arith) (omega arith) h)
      ∙ checked_mul_lem a.value 1 a.value (omega arith) h in
    rw (address_from_str, read) refl
