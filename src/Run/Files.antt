-- ===== src/Run/Files.antt =====
-- src/main.rs: a file to load, printed and read back.
use gunyah_test_vmm.Base.{
  ℕ, ◌-◌, ◌≤◌, ◌≡◌, refl, false, [], ◌∷◌, ◌++◌, ok, ◌==◌, max_u64, arith, length,
}
use gunyah_test_vmm.Types.Text.{Text}
use gunyah_test_vmm.Types.Radix.{digits}
use gunyah_test_vmm.Types.Digits.{All}
use gunyah_test_vmm.Types.Guest.{GuestAddress, zeros, address_fmt}
use gunyah_test_vmm.Types.Characters.{IsHex, All-append, All-mono}
use gunyah_test_vmm.Types.RoundTrip.{address_from_str-address_fmt, zeros-IsHex, digits-IsHex}
use gunyah_test_vmm.Run.Args.{LoadFileArg, split_at, load_file_from_str}

-- no character of the text is a comma
abbrev pub NoComma : Text → Type 0
NoComma s = All (λ c. (c == b',') ≡ false) s

split_at-last : (s : Text) → NoComma s → split_at b',' s ≡ s ∷ []
unfolding split_at
split_at-last [] h = refl
split_at-last (c ∷ s) (h, hs) = rw (h, split_at-last s hs) refl

split_at-first : (s t : Text) → NoComma s → NoComma t → split_at b',' (s ++ (b',' ∷ t)) ≡ s ∷ t ∷ []
unfolding split_at
split_at-first [] t h ht = rw (split_at-last t ht) refl
split_at-first (c ∷ s) t (h, hs) ht = rw (h, split_at-first s t hs ht) refl

NoComma-hex : (c : ℕ) → IsHex c → (c == b',') ≡ false
NoComma-hex c h = ground arith

address_fmt-NoComma : (a : GuestAddress) → NoComma (address_fmt a)
unfolding address_fmt
address_fmt-NoComma a =
    let ds = digits 16 a.value in
    (
      refl,
      (
        refl,
        All-mono IsHex (λ c. (c == b',') ≡ false) _ NoComma-hex
            (All-append IsHex (zeros (6 - length ds)) ds (zeros-IsHex _) (digits-IsHex a.value)),
      ),
    )

-- A path without a comma, a comma and a printed address of u64 are read back as the path and the
-- address.
pub load_file_from_str-address_fmt :
    (arg : LoadFileArg)
    → NoComma arg.file
    → arg.addr.value ≤ max_u64
    → load_file_from_str (arg.file ++ (b',' ∷ address_fmt arg.addr)) ≡ ok arg
unfolding load_file_from_str
load_file_from_str-address_fmt arg plain h =
    rw
      (
        split_at-first arg.file (address_fmt arg.addr) plain (address_fmt-NoComma arg.addr),
        address_from_str-address_fmt arg.addr h,
      )
      refl
