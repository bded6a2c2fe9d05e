-- ===== src/Types/Text.antt =====
-- What src/types.rs uses of `str`. A text is the list of its characters; all of them are ASCII.
use Prim.Native.Char.{code}
use gunyah_test_vmm.Base.{
  ℕ, ◌+◌, Bool, true, false, ◌&&◌, ◌||◌, List, [], ◌∷◌, Option, none, some, String, leb, ◌==◌,
  if◌then◌else◌,
}

abbrev pub Text : Type 0
Text = List ℕ

-- the characters of a literal
abbrev pub codes : String → Text
codes String.[] = []
codes (String.◌∷◌ c s) = code c ∷ codes s

-- `char::is_whitespace`
abbrev pub is_whitespace : ℕ → Bool
is_whitespace c = (leb 9 c && leb c 13) || (c == b' ')

unfoldable pub trim_start : Text → Text
trim_start [] = []
trim_start (c ∷ s) = if is_whitespace c then trim_start s else c ∷ s

abbrev keep_unless_blank : ℕ → Text → Text
keep_unless_blank c [] = if is_whitespace c then [] else c ∷ []
keep_unless_blank c (d ∷ s) = c ∷ d ∷ s

unfoldable pub trim_end : Text → Text
trim_end [] = []
trim_end (c ∷ s) = keep_unless_blank c (trim_end s)

-- `str::trim`
unfoldable pub trim : Text → Text
trim s = trim_end (trim_start s)

abbrev pub lower : ℕ → ℕ
lower c = if leb b'A' c && leb c b'Z' then c + 32 else c

-- `str::to_lowercase`
unfoldable pub to_lowercase : Text → Text
to_lowercase [] = []
to_lowercase (c ∷ s) = lower c ∷ to_lowercase s

-- `str::strip_prefix`, which is `Some` where `starts_with` holds
unfoldable pub strip_prefix : Text → Text → Option Text
strip_prefix [] s = some s
strip_prefix (p ∷ ps) [] = none
strip_prefix (p ∷ ps) (c ∷ s) = if p == c then strip_prefix ps s else none

abbrev pub same_text : Text → Text → Bool
same_text [] [] = true
same_text [] (d ∷ t) = false
same_text (c ∷ s) [] = false
same_text (c ∷ s) (d ∷ t) = c == d && same_text s t

abbrev pub put_back : ℕ → Option Text → Option Text
put_back c none = none
put_back c (some s) = some (c ∷ s)

-- `str::strip_suffix`, which is `Some` where `ends_with` holds
unfoldable pub strip_suffix : Text → Text → Option Text
strip_suffix x [] = if same_text [] x then some [] else none
strip_suffix x (c ∷ s) = if same_text (c ∷ s) x then some [] else put_back c (strip_suffix x s)

-- `str::replace(['_', ' '], "")`
unfoldable pub drop_separators : Text → Text
drop_separators [] = []
drop_separators (c ∷ s) =
    if (c == b'_') || (c == b' ') then drop_separators s else c ∷ drop_separators s
