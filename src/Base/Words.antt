-- ===== src/Base/Words.antt =====
-- u64 arithmetic. `usize` is 64 bits wide: the program runs on AArch64.
use Prim.Native.Nat.{ℕ, ◌+◌, ◌-◌, ◌*◌, ◌%◌, ◌^◌, min}
use gunyah_test_vmm.Base.Tests.{ltb, leb, if◌then◌else◌}
use gunyah_test_vmm.Base.Outcomes.{Outcome, ok, panic}

abbrev pub u64_size : ℕ
u64_size = 2 ^ 64

abbrev pub max_u64 : ℕ
max_u64 = 2 ^ 64 - 1

-- `u64::saturating_add`
abbrev pub saturating_add : ℕ → ℕ → ℕ
saturating_add a b = min (a + b) max_u64

-- Cargo's profiles: arithmetic that overflows panics in the one and wraps in the other.
pub data Profile : Type 0 where
  debug release : Profile

abbrev pub overflow : {E : Type 0} → Profile → ℕ → Outcome E ℕ
overflow debug n = panic
overflow release n = ok n

-- `a + b`, `a - b` and `a * b` at u64 or usize
abbrev pub add_u64 : {E : Type 0} → Profile → ℕ → ℕ → Outcome E ℕ
add_u64 p a b = if ltb (a + b) u64_size then ok (a + b) else overflow p ((a + b) % u64_size)

abbrev pub sub_u64 : {E : Type 0} → Profile → ℕ → ℕ → Outcome E ℕ
sub_u64 p a b = if leb b a then ok (a - b) else overflow p (a + u64_size - b)

abbrev pub mul_u64 : {E : Type 0} → Profile → ℕ → ℕ → Outcome E ℕ
mul_u64 p a b = if ltb (a * b) u64_size then ok (a * b) else overflow p ((a * b) % u64_size)
