-- ===== src/Types/Characters.antt =====
-- src/types.rs: the text functions on digits and units.
use mathlib.Core.Path.{subst}
use gunyah_test_vmm.Base.{
  ℕ, ◌≤◌, ◌<◌, ◌≡◌, ◌⊎◌, inl, inr, refl, false, List, [], ◌∷◌, ◌++◌, Option, none, some, arith,
  ◌==◌, Option-cases, ne→==,
}
use gunyah_test_vmm.Types.Text.{
  Text, is_whitespace, trim, trim_start, trim_end, lower, to_lowercase, strip_suffix, put_back,
  drop_separators,
}
use gunyah_test_vmm.Types.Radix.{from_str_radix, scan, digit_char}
use gunyah_test_vmm.Types.Digits.{All}
use gunyah_test_vmm.Types.Guest.{mul_suffixes, find_strip}

abbrev pub IsDecimal : ℕ → Type 0
IsDecimal c = (b'0' ≤ c) × (c ≤ b'9')

abbrev pub IsHex : ℕ → Type 0
IsHex c = IsDecimal c ⊎ ((b'a' ≤ c) × (c ≤ b'f'))

abbrev pub IsVisible : ℕ → Type 0
IsVisible c = is_whitespace c ≡ false

pub All-append : (P : ℕ → Type 0) (s t : Text) → All P s → All P t → All P (s ++ t)
All-append P [] t hs ht = ht
All-append P (c ∷ s) t hs ht = (hs.0, All-append P s t hs.1 ht)

pub All-mono : (P Q : ℕ → Type 0) (s : Text) → ((c : ℕ) → P c → Q c) → All P s → All Q s
All-mono P Q [] h a = tt
All-mono P Q (c ∷ s) h a = (h c a.0, All-mono P Q s h a.1)

trim_start_lem : (s : Text) → All IsVisible s → trim_start s ≡ s
unfolding trim_start
trim_start_lem [] v = refl
trim_start_lem (c ∷ s) v = rw v.0 refl

trim_end_lem : (s : Text) → All IsVisible s → trim_end s ≡ s
unfolding trim_end
trim_end_lem [] v = refl
trim_end_lem (c ∷ []) v = rw v.0 refl
trim_end_lem (c ∷ d ∷ s) v = rw (trim_end_lem (d ∷ s) v.1) refl

pub trim_lem : (s : Text) → All IsVisible s → trim s ≡ s
unfolding trim
trim_lem s v = rw (trim_start_lem s v) (trim_end_lem s v)

lower-hex : (c : ℕ) → IsHex c → lower c ≡ c
lower-hex c h = ground arith

pub to_lowercase-append :
    (ds t : Text) → All IsHex ds → to_lowercase (ds ++ t) ≡ ds ++ to_lowercase t
unfolding to_lowercase
to_lowercase-append [] t h = refl
to_lowercase-append (c ∷ ds) t h = rw (lower-hex c h.0, to_lowercase-append ds t h.1) refl

pub to_lowercase_hex : (ds : Text) → All IsHex ds → to_lowercase ds ≡ ds
unfolding to_lowercase
to_lowercase_hex [] h = refl
to_lowercase_hex (c ∷ ds) h = rw (lower-hex c h.0, to_lowercase_hex ds h.1) refl

pub drop_separators_lem : (ds : Text) → All IsHex ds → drop_separators ds ≡ ds
unfolding drop_separators
drop_separators_lem [] h = refl
drop_separators_lem (c ∷ ds) h = ground (arith, drop_separators_lem ds h.1)

-- A suffix that begins with no digit is looked for behind the digits.
abbrev IsUnit : Text → Type 0
IsUnit [] = Unit {0}
IsUnit (c ∷ x) = ¬ IsHex c

strip_suffix-nil : (s : Text) → strip_suffix [] s ≡ some s
unfolding strip_suffix
strip_suffix-nil [] = refl
strip_suffix-nil (c ∷ s) = rw (strip_suffix-nil s) refl

abbrev behind : Text → Option Text → Option Text
behind ds none = none
behind ds (some s) = some (ds ++ s)

behind-nil : (o : Option Text) → o ≡ behind [] o
behind-nil none = refl
behind-nil (some s) = refl

put_back-behind :
    (c : ℕ) (ds : Text) (o : Option Text) → put_back c (behind ds o) ≡ behind (c ∷ ds) o
put_back-behind c ds none = refl
put_back-behind c ds (some s) = refl

hex_ne : (c d : ℕ) → IsHex c → ¬ IsHex d → (c == d) ≡ false
hex_ne c d h n = ne→== c d (λ e. n (subst IsHex e h))

strip_suffix-append :
    (x ds t : Text)
    → IsUnit x
    → All IsHex ds
    → strip_suffix x (ds ++ t) ≡ behind ds (strip_suffix x t)
unfolding strip_suffix
strip_suffix-append [] ds t u h = rw (strip_suffix-nil (ds ++ t), strip_suffix-nil t) refl
strip_suffix-append (d ∷ x) [] t u h = behind-nil (strip_suffix (d ∷ x) t)
strip_suffix-append (d ∷ x) (c ∷ ds) t u h =
    rw (hex_ne c d h.0 u, strip_suffix-append (d ∷ x) ds t u h.1)
      (put_back-behind c ds (strip_suffix (d ∷ x) t))

-- every suffix of a table begins with no digit
abbrev AllUnits : List (ℕ × Text) → Type 0
AllUnits [] = Unit {0}
AllUnits ((n, x) ∷ table) = IsUnit x × AllUnits table

pub mul_suffixes-AllUnits : AllUnits mul_suffixes
mul_suffixes-AllUnits = ground arith

abbrev with_digits : Text → Option (ℕ × Text) → Option (ℕ × Text)
with_digits ds none = none
with_digits ds (some (n, s)) = some (n, ds ++ s)

-- The search for a unit does not depend on the digits before it.
pub find_strip-append :
    (table : List (ℕ × Text)) (ds t : Text)
    → AllUnits table
    → All IsHex ds
    → find_strip strip_suffix table (ds ++ t) ≡ with_digits ds (find_strip strip_suffix table t)
unfolding find_strip
find_strip-append [] ds t u h = refl
find_strip-append ((n, x) ∷ table) ds t u h = elim (Option-cases (strip_suffix x t)) [
  | inl e ↦
      rw (find_strip, strip_suffix-append x ds t u.0 h, e) (find_strip-append table ds t u.1 h)
  | inr (s, e) ↦ rw (find_strip, strip_suffix-append x ds t u.0 h, e) refl
]

pub digit_char-IsHex : (d : ℕ) → d < 16 → IsHex (digit_char d)
digit_char-IsHex d h = ground arith

pub digit_char-IsDecimal : (d : ℕ) → d < 10 → IsDecimal (digit_char d)
digit_char-IsDecimal d h = ground arith

pub from_str_radix-scan :
    (radix c : ℕ) (s : Text) → IsHex c → from_str_radix radix (c ∷ s) ≡ scan radix 0 (c ∷ s)
unfolding from_str_radix
from_str_radix-scan radix c [] h = rw (ne→== c b'+' (ground arith)) refl
from_str_radix-scan radix c (d ∷ s) h = rw (ne→== c b'+' (ground arith)) refl
