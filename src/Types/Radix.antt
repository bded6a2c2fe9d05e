-- ===== src/Types/Radix.antt =====
-- What src/types.rs uses of the standard library to read and to print numbers in a radix.
use gunyah_test_vmm.Base.{
  ℕ, zero, suc, ◌+◌, ◌-◌, ◌*◌, ◌/◌, ◌%◌, ◌&&◌, [], ◌∷◌, Option, none, some, Outcome, ok, err, panic,
  leb, ltb, ◌==◌, if◌then◌else◌, max_u64,
}
use gunyah_test_vmm.Errors.{ParseIntError, no_digits, invalid_digit, pos_overflow}
use gunyah_test_vmm.Types.Text.{Text}

-- `char::to_digit`
unfoldable pub digit_value : ℕ → Option ℕ
digit_value c =
    if leb b'0' c && leb c b'9'
    then some (c - b'0')
    else if leb b'a' c && leb c b'z'
    then some (c - b'a' + 10)
    else if leb b'A' c && leb c b'Z'
    then some (c - b'A' + 10)
    else none

unfoldable pub to_digit : ℕ → ℕ → Option ℕ
to_digit radix c = elim (digit_value c) [
  | none ↦ none
  | some d ↦ if ltb d radix then some d else none
]

-- one round of `u64::from_str_radix`: both the product and the sum are checked
unfoldable pub push_digit : ℕ → ℕ → Option ℕ → Outcome ParseIntError ℕ
push_digit radix n none = err invalid_digit
push_digit radix n (some d) =
    if ltb max_u64 (n * radix + d) then err pos_overflow else ok (n * radix + d)

unfoldable pub scan : ℕ → ℕ → Text → Outcome ParseIntError ℕ
scan radix n [] = ok n
scan radix n (c ∷ s) = elim (push_digit radix n (to_digit radix c)) [
  | ok n' ↦ scan radix n' s
  | err x ↦ err x
  | panic ↦ panic
]

-- `u64::from_str_radix`: one leading plus sign is allowed, if more follows
unfoldable pub from_str_radix : ℕ → Text → Outcome ParseIntError ℕ
unfolding scan
from_str_radix radix [] = err no_digits
from_str_radix radix (c ∷ []) = if c == b'+' then err invalid_digit else scan radix 0 (c ∷ [])
from_str_radix radix (c ∷ d ∷ s) =
    if c == b'+' then scan radix 0 (d ∷ s) else scan radix 0 (c ∷ d ∷ s)

-- the character of a digit, in lower case
abbrev pub digit_char : ℕ → ℕ
digit_char d = if ltb d 10 then b'0' + d else b'a' + (d - 10)

-- The digits of `n` before `out`. A number below 2 ^ fuel has no more than `fuel` of them.
unfoldable pub emit : ℕ → ℕ → ℕ → Text → Text
emit radix zero n out = out
emit radix (suc fuel) n out =
    let rest = emit radix fuel (n / radix) (digit_char (n % radix) ∷ out) in
    if n / radix == 0 then digit_char (n % radix) ∷ out else rest

-- `{}` and `{:x}` of a u64
unfoldable pub digits : ℕ → ℕ → Text
digits radix n = emit radix 64 n []
