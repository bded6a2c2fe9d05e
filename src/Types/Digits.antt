-- ===== src/Types/Digits.antt =====
-- Reading back what was printed in a radix from 2 to 16.
use native.Mathlib.Nat.{pow-suc, div-add-mod, mod-lt, mul_comm}
use gunyah_test_vmm.Base.{
  ℕ, zero, suc, ◌*◌, ◌/◌, ◌%◌, ◌^◌, ◌≤◌, ◌<◌, ◌≡◌, inl, inr, refl, sym, ap, ◌∙◌, ==→eq, [], ◌∷◌,
  some, ok, arith, ltb, ◌==◌, max_u64, Bool-cases, lt→ltb,
}
use gunyah_test_vmm.Types.Text.{Text}
use gunyah_test_vmm.Types.Radix.{digit_value, to_digit, push_digit, scan, digit_char, emit}

-- every character of a text satisfies `P`
abbrev pub All : (ℕ → Type 0) → Text → Type 0
All P [] = Unit {0}
All P (c ∷ s) = P c × All P s

digit_value-digit_char : (d : ℕ) → d < 16 → digit_value (digit_char d) ≡ some d
unfolding digit_value
digit_value-digit_char d h = elim (Bool-cases (ltb d 10)) [
  | inl small ↦ rw small (ground arith)
  | inr large ↦ rw large (ground arith)
]

to_digit-digit_char :
    (radix d : ℕ) → d < radix → radix ≤ 16 → to_digit radix (digit_char d) ≡ some d
unfolding to_digit
to_digit-digit_char radix d h r =
    rw (to_digit, digit_value-digit_char d (omega arith), lt→ltb d radix h) refl

push_last :
    (radix n : ℕ)
    → 2 ≤ radix
    → radix ≤ 16
    → n ≤ max_u64
    → push_digit radix (n / radix) (to_digit radix (digit_char (n % radix))) ≡ ok n
unfolding push_digit
push_last radix n lo hi fits =
    rw (to_digit-digit_char radix (n % radix) (mod-lt n (omega arith)) hi)
      (ground (arith, div-add-mod n radix, mul_comm (n / radix) radix))

scan-push_digit :
    (radix n n' c : ℕ) (out : Text)
    → push_digit radix n (to_digit radix c) ≡ ok n'
    → scan radix n (c ∷ out) ≡ scan radix n' out
unfolding scan
scan-push_digit radix n n' c out e = rw (scan, e) refl

scan_last :
    (radix n : ℕ) (out : Text)
    → 2 ≤ radix
    → radix ≤ 16
    → n ≤ max_u64
    → scan radix (n / radix) (digit_char (n % radix) ∷ out) ≡ scan radix n out
scan_last radix n out lo hi fits =
    scan-push_digit radix (n / radix) n _ out (push_last radix n lo hi fits)

div_below : (radix n p : ℕ) → 2 ≤ radix → n < p * 2 → n / radix < p
div_below radix n p lo h = grind (arith, div-add-mod n radix)

-- Reading the digits of `n` and then `out` is reading `out` after `n`.
pub scan-emit :
    (radix fuel n : ℕ) (out : Text)
    → 2 ≤ radix
    → radix ≤ 16
    → n ≤ max_u64
    → n < 2 ^ fuel
    → scan radix 0 (emit radix fuel n out) ≡ scan radix n out
unfolding emit
scan-emit radix zero n out lo hi fits h = ground arith
scan-emit radix (suc fuel) n out lo hi fits h = elim (Bool-cases (n / radix == 0)) [
  | inl last ↦ rw last (
      ap (λ k. scan radix k (digit_char (n % radix) ∷ out)) (sym (==→eq _ _ last))
      ∙ scan_last radix n out lo hi fits)
  | inr more ↦ rw more (
      scan-emit radix fuel (n / radix) (digit_char (n % radix) ∷ out) lo hi (omega arith)
        (div_below radix n (2 ^ fuel) lo (rw (← pow-suc 2 fuel) h))
      ∙ scan_last radix n out lo hi fits)
]

-- The digits of a number satisfy what every digit of the radix does.
pub emit-All :
    (P : ℕ → Type 0) (radix fuel n : ℕ) (out : Text)
    → 0 < radix
    → ((d : ℕ) → d < radix → P (digit_char d))
    → All P out
    → All P (emit radix fuel n out)
unfolding emit
emit-All P radix zero n out r h o = o
emit-All P radix (suc fuel) n out r h o = elim (Bool-cases (n / radix == 0)) [
  | inl last ↦ rw last (h (n % radix) (mod-lt n r), o)
  | inr more ↦ rw more (emit-All P radix fuel (n / radix) _ r h (h (n % radix) (mod-lt n r), o))
]
