-- ===== src/Types/Guest.antt =====
-- src/types.rs: `GuestAddress` and `GuestSize`.
use gunyah_test_vmm.Base.{
  ℕ, ◌-◌, ◌*◌, ◌/◌, ◌^◌, zero, suc, List, [], ◌∷◌, ◌++◌, Option, none, some, Outcome, ok, err,
  panic, ◌>>=◌, map_err, bit_and, ltb, ◌==◌, if◌then◌else◌, length, u64_size, Profile, add_u64,
  sub_u64,
}
use gunyah_test_vmm.Errors.{AnyError, msg, overflows, from_parse}
use gunyah_test_vmm.Types.Text.{
  Text, codes, trim, to_lowercase, strip_prefix, strip_suffix, drop_separators,
}
use gunyah_test_vmm.Types.Radix.{from_str_radix, digits}

pub record GuestAddress : Type 0 where
  pub value : ℕ

pub record GuestSize : Type 0 where
  pub value : ℕ

-- `RADIX_PREFIXES`
abbrev pub radix_prefixes : List (ℕ × Text)
radix_prefixes = (16, codes "0x") ∷ (2, codes "0b") ∷ (10, []) ∷ []

-- `MUL_SUFFIXES`
abbrev pub mul_suffixes : List (ℕ × Text)
mul_suffixes =
    (1073741824, codes "gib")
    ∷ (1073741824, codes "gb")
    ∷ (1073741824, codes "g")
    ∷ (1048576, codes "mib")
    ∷ (1048576, codes "mb")
    ∷ (1048576, codes "m")
    ∷ (1024, codes "kib")
    ∷ (1024, codes "kb")
    ∷ (1024, codes "k")
    ∷ (1, [])
    ∷ []

-- the first entry of a table that `strip` takes off the text, and what is left of the text
unfoldable pub find_strip : (Text → Text → Option Text) → List (ℕ × Text) → Text → Option (ℕ × Text)
find_strip strip [] s = none
find_strip strip ((n, x) ∷ table) s = elim (strip x s) [
  | none ↦ find_strip strip table s
  | some rest ↦ some (n, rest)
]

-- `val.checked_mul(*mul).context(..)`
abbrev pub checked_mul : ℕ → ℕ → Outcome AnyError ℕ
checked_mul val mul = if ltb (val * mul) u64_size then ok (val * mul) else err (overflows val mul)

-- `Option::unwrap`
abbrev pub unwrap_some {ℓ} : {A : Type ℓ} → Option A → Outcome AnyError A
unwrap_some none = panic
unwrap_some (some a) = ok a

-- the body of both `from_str`
unfoldable pub parse_number : Text → Outcome AnyError ℕ
parse_number s = do
  (radix, digits_and_suffix) ←
      unwrap_some (find_strip strip_prefix radix_prefixes (to_lowercase (trim s)))
  (mul, number) ← unwrap_some (find_strip strip_suffix mul_suffixes digits_and_suffix)
  val ← map_err from_parse (from_str_radix radix (drop_separators number))
  checked_mul val mul

-- `<GuestAddress as FromStr>::from_str`
unfoldable pub address_from_str : Text → Outcome AnyError GuestAddress
address_from_str s = do val ← parse_number s; ok (record { value = val })

-- `<GuestSize as FromStr>::from_str`
unfoldable pub size_from_str : Text → Outcome AnyError GuestSize
size_from_str s = do val ← parse_number s; ok (record { value = val })

-- `n` zeros
abbrev pub zeros : ℕ → Text
zeros zero = []
zeros (suc n) = b'0' ∷ zeros n

-- `<GuestAddress as Display>::fmt`, the format `{:#08x}`: eight characters at least, with the prefix
unfoldable pub address_fmt : GuestAddress → Text
address_fmt a = let ds = digits 16 a.value in codes "0x" ++ (zeros (6 - length ds) ++ ds)

-- `SUFFIXES`, and the search for the first mask that has no bit in common with the size
unfoldable pub size_unit : List (ℕ × ℕ × Text) → ℕ → Option (ℕ × Text)
size_unit [] v = none
size_unit ((p, shift, suffix) ∷ table) v =
    if bit_and v p == 0 then some (v / 2 ^ shift, suffix) else size_unit table v

abbrev pub size_suffixes : List (ℕ × ℕ × Text)
size_suffixes =
    (0x3fffffff, 30, codes "GiB")
    ∷ (0xfffff, 20, codes "MiB")
    ∷ (0x3ff, 10, codes "KiB")
    ∷ (0, 0, [])
    ∷ []

abbrev pub size_text : Option (ℕ × Text) → Outcome AnyError Text
size_text none = panic
size_text (some (n, suffix)) = ok (digits 10 n ++ suffix)

-- `<GuestSize as Display>::fmt`
unfoldable pub size_fmt : GuestSize → Outcome AnyError Text
unfolding size_unit
size_fmt s = size_text (size_unit size_suffixes s.value)

-- `TryFrom<GuestSize> for NonZeroUsize`
unfoldable pub size_try_into : GuestSize → Outcome AnyError ℕ
size_try_into s = if s.value == 0 then err (msg "Unexpected zero size") else ok s.value

-- `Add<GuestSize> for GuestAddress`
unfoldable pub address_add : Profile → GuestAddress → GuestSize → Outcome AnyError GuestAddress
address_add p a s = do v ← add_u64 p a.value s.value; ok (record { value = v })

-- `Sub<GuestSize> for GuestAddress`
unfoldable pub address_sub : Profile → GuestAddress → GuestSize → Outcome AnyError GuestAddress
address_sub p a s = do v ← sub_u64 p a.value s.value; ok (record { value = v })
