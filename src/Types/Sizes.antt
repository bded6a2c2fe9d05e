-- ===== src/Types/Sizes.antt =====
-- src/types.rs: what `Display` prints of a size is read back by `FromStr`.

use native.Mathlib.Nat.{div-add-mod, mul_comm}
use gunyah_test_vmm.Base.{
  ℕ, ◌-◌, ◌*◌, ◌/◌, ◌^◌, ◌≤◌, ◌≡◌, ◌≢◌, inl, inr, refl, ◌∙◌, ==→eq, [], ◌∷◌, ◌++◌, none, some,
  Outcome, ok, err, panic, arith, ◌==◌, max_u64, bit_and, bit_and-low, bit_and-zero, pow-pos,
  Bool-cases,
}
use gunyah_test_vmm.Errors.{AnyError}
use gunyah_test_vmm.Types.Text.{Text, codes, trim, to_lowercase, strip_prefix, strip_suffix}
use gunyah_test_vmm.Types.Radix.{digits}
use gunyah_test_vmm.Types.Digits.{All}
use gunyah_test_vmm.Types.Guest.{
  GuestSize, radix_prefixes, mul_suffixes, find_strip, parse_number, size_from_str, size_fmt,
  size_unit, size_text,
}
use gunyah_test_vmm.Types.Characters.{
  IsDecimal, IsHex, IsVisible, All-append, All-mono, trim_lem, to_lowercase-append,
}
use gunyah_test_vmm.Types.RoundTrip.{
  parse_number-read, digits-IsDecimal, hex-IsVisible, digits-ne-nil, scan-digits, checked_mul_lem,
}

strip_prefix_second :
    (p x d c : ℕ) (s : Text) → c ≢ x → strip_prefix (p ∷ x ∷ []) (d ∷ c ∷ s) ≡ none
unfolding strip_prefix
strip_prefix_second p x d c s h = ground arith

strip_prefix_one : (p x d : ℕ) → strip_prefix (p ∷ x ∷ []) (d ∷ []) ≡ none
unfolding strip_prefix
strip_prefix_one p x d = ground arith

strip_prefix-nil : (s : Text) → strip_prefix [] s ≡ some s
unfolding strip_prefix
strip_prefix-nil s = refl

prefix_neither :
    (s : Text)
    → strip_prefix (codes "0x") s ≡ none
    → strip_prefix (codes "0b") s ≡ none
    → find_strip strip_prefix radix_prefixes s ≡ some (10, s)
unfolding find_strip
prefix_neither s x b = rw (find_strip, x, b, strip_prefix-nil s) refl

-- The second character is neither the `x` nor the `b` of a prefix.
prefix_none :
    (d c : ℕ) (s : Text)
    → c ≢ b'x'
    → c ≢ b'b'
    → find_strip strip_prefix radix_prefixes (d ∷ c ∷ s) ≡ some (10, d ∷ c ∷ s)
prefix_none d c s x b =
    prefix_neither (d ∷ c ∷ s) (strip_prefix_second b'0' b'x' d c s x)
      (strip_prefix_second b'0' b'b' d c s b)

abbrev NoPrefix : Text → Type 0
NoPrefix [] = Unit {0}
NoPrefix (c ∷ s) = (c ≢ b'x') × (c ≢ b'b')

decimal_prefix :
    (ds t : Text)
    → All IsDecimal ds
    → ds ≢ []
    → NoPrefix t
    → find_strip strip_prefix radix_prefixes (ds ++ t) ≡ some (10, ds ++ t)
decimal_prefix [] t a h p = absurd (h refl)
decimal_prefix (d ∷ []) [] a h p =
    prefix_neither (d ∷ []) (strip_prefix_one b'0' b'x' d) (strip_prefix_one b'0' b'b' d)
decimal_prefix (d ∷ []) (c ∷ t) a h p = prefix_none d c t p.0 p.1
decimal_prefix (d ∷ c ∷ ds) t a h p = prefix_none d c (ds ++ t) (omega arith) (omega arith)

-- A decimal number and a unit are read as their product.
parse_unit :
    (n mul v : ℕ) (suffix : Text)
    → All IsVisible suffix
    → NoPrefix (to_lowercase suffix)
    → find_strip strip_suffix mul_suffixes (to_lowercase suffix) ≡ some (mul, [])
    → n * mul ≡ v
    → n ≤ v
    → v ≤ max_u64
    → parse_number (digits 10 n ++ suffix) ≡ ok v
parse_unit n mul v suffix vis np u e le fits =
    let ds = digits 10 n in
    let dec : All IsDecimal ds = digits-IsDecimal n in
    let hex : All IsHex ds = All-mono IsDecimal IsHex ds (λ c h. inl h) dec in
    let shown : All IsVisible (ds ++ suffix) =
      All-append IsVisible ds suffix (All-mono IsHex IsVisible ds hex-IsVisible hex) vis in
    let found : find_strip strip_prefix radix_prefixes (to_lowercase (trim (ds ++ suffix)))
        ≡ some (10, ds ++ to_lowercase suffix) =
      rw (trim_lem (ds ++ suffix) shown, to_lowercase-append ds suffix hex)
        (decimal_prefix ds (to_lowercase suffix) dec (digits-ne-nil 10 n) np) in
    parse_number-read (ds ++ suffix) ds (to_lowercase suffix) 10 mul n found u hex
      (digits-ne-nil 10 n) (scan-digits 10 n (omega arith) (omega arith) (omega arith))
    ∙ checked_mul_lem n mul v e fits

unit_whole : (k v : ℕ) → bit_and v (2 ^ k - 1) ≡ 0 → v / 2 ^ k * 2 ^ k ≡ v
unit_whole k v h =
    omega (arith, bit_and-low k v, div-add-mod v (2 ^ k), mul_comm (v / 2 ^ k) (2 ^ k))

-- The text of a size, and that it is read back.
abbrev pub IsReadBack : GuestSize → Outcome AnyError Text → Type 0
IsReadBack s (ok text) = size_from_str text ≡ ok s
IsReadBack s (err e) = ⊥
IsReadBack s panic = ⊥

size_unit-IsReadBack :
    (v k : ℕ) (suffix : Text)
    → All IsVisible suffix
    → NoPrefix (to_lowercase suffix)
    → find_strip strip_suffix mul_suffixes (to_lowercase suffix) ≡ some (2 ^ k, [])
    → bit_and v (2 ^ k - 1) ≡ 0
    → v ≤ max_u64
    → IsReadBack (record { value = v }) (size_text (some (v / 2 ^ k, suffix)))
unfolding size_from_str
size_unit-IsReadBack v k suffix vis np u e h =
    let smaller : v / 2 ^ k ≤ v = omega (arith, pow-pos k) in
    rw
      (size_from_str, parse_unit (v / 2 ^ k) (2 ^ k) v suffix vis np u (unit_whole k v e) smaller h)
      refl

-- `Display` of a size never panics, and what it prints is read back by `FromStr`, for every u64.
pub size_fmt-IsReadBack : (s : GuestSize) → s.value ≤ max_u64 → IsReadBack s (size_fmt s)
unfolding size_fmt size_unit to_lowercase find_strip strip_suffix
size_fmt-IsReadBack s h =
    let v = s.value in
    elim (Bool-cases (bit_and v 0x3fffffff == 0)) [
      | inl e ↦ rw e (
          size_unit-IsReadBack v 30 (codes "GiB") (refl, (refl, (refl, tt))) (omega arith) refl
            (==→eq _ _ e) h)
      | inr g ↦ elim (Bool-cases (bit_and v 0xfffff == 0)) [
        | inl e ↦
            rw (g, e)
              (size_unit-IsReadBack v 20 (codes "MiB") (refl, (refl, (refl, tt))) (omega arith) refl
                (==→eq _ _ e) h)
        | inr m ↦ elim (Bool-cases (bit_and v 0x3ff == 0)) [
          | inl e ↦
              rw (g, m, e)
                (size_unit-IsReadBack v 10 (codes "KiB") (refl, (refl, (refl, tt))) (omega arith)
                  refl (==→eq _ _ e) h)
          | inr k ↦
              rw (g, m, k, bit_and-zero v)
                (size_unit-IsReadBack v 0 [] tt tt refl (bit_and-zero v) h)
        ]
      ]
    ]
