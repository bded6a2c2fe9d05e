-- ===== src/Gunyah/Wire/Fields.antt =====
-- gunyah-bindings/src/bindings.rs: numbers in memory and structures of them, read back.
use gunyah_test_vmm.Base.{
  ℕ, zero, suc, ◌+◌, ◌*◌, ◌/◌, ◌%◌, ◌^◌, ◌<◌, ◌≡◌, refl, ap, ◌∙◌, List, [], ◌∷◌, Option, some, none,
  arith,
}
use native.Mathlib.Nat.{pow-suc}
use gunyah_test_vmm.Gunyah.Wire.{le_bytes, fields, Field, u32, u64}

-- A number of so many bytes is taken off.
field : {A : Type 0} → ℕ → List ℕ → (ℕ → List ℕ → Option A) → Option A
field zero l f = f 0 l
field (suc k) [] f = none
field (suc k) (b ∷ l) f = field k l λ n rest. f (b + 256 * n) rest

field-le_bytes :
    {A : Type 0} (k n : ℕ) (rest : List ℕ) (f : ℕ → List ℕ → Option A)
    → n < 256 ^ k
    → field k (le_bytes k n rest) f ≡ f n rest
unfolding field le_bytes
field-le_bytes zero n rest f h = let none_left : 0 ≡ n = omega arith in ap (λ m. f m rest) none_left
field-le_bytes (suc k) n rest f h =
    let fits : n / 256 < 256 ^ k = omega (arith, pow-suc 256 k) in
    let whole : n % 256 + 256 * (n / 256) ≡ n = omega arith in
    field-le_bytes k (n / 256) rest (λ m l. f (n % 256 + 256 * m) l) fits ∙ ap (λ m. f m rest) whole

prepend : ℕ → Option (List ℕ) → Option (List ℕ)
prepend n none = none
prepend n (some l) = some (n ∷ l)

-- Numbers of these many bytes are taken off, and nothing is left over.
pub read_fields : List ℕ → List ℕ → Option (List ℕ)
read_fields [] [] = some []
read_fields [] (_ ∷ _) = none
read_fields (k ∷ ks) l = field k l λ n rest. prepend n (read_fields ks rest)

abbrev pub widths : List Field → List ℕ
widths [] = []
widths (u32 _ ∷ l) = 4 ∷ widths l
widths (u64 _ ∷ l) = 8 ∷ widths l

abbrev pub values : List Field → List ℕ
values [] = []
values (u32 n ∷ l) = n ∷ values l
values (u64 n ∷ l) = n ∷ values l

abbrev pub AllFit : List Field → Type 0
AllFit [] = Unit {0}
AllFit (u32 n ∷ l) = (n < 2 ^ 32) × AllFit l
AllFit (u64 n ∷ l) = (n < 2 ^ 64) × AllFit l

pub read_fields-fields :
    (l : List Field) → AllFit l → read_fields (widths l) (fields l) ≡ some (values l)
unfolding read_fields prepend fields
read_fields-fields [] fit = refl
read_fields-fields (u32 n ∷ l) (h, fit) =
    field-le_bytes 4 n (fields l) _ (omega arith) ∙ rw (read_fields-fields l fit) refl
read_fields-fields (u64 n ∷ l) (h, fit) =
    field-le_bytes 8 n (fields l) _ (omega arith) ∙ rw (read_fields-fields l fit) refl
