-- ===== src/Errors.antt =====
-- The error types: `Error` of vmm/src/bus.rs, and what the code puts into an `anyhow::Error`.
use gunyah_test_vmm.Base.{ℕ, String, Outcome, map_err}

-- `vmm::Error`
pub data BusError : Type 0 where
  empty : BusError
  overlap : ℕ → ℕ → ℕ → ℕ → BusError

-- `std::num::ParseIntError`, by its kind
pub data ParseIntError : Type 0 where
  no_digits invalid_digit pos_overflow : ParseIntError

-- A message, a context round another error, or an error converted by `?`.
pub data AnyError : Type 0 where
  msg : String → AnyError
  -- `format!("{val} * {mul} overflows")`
  overflows : ℕ → ℕ → AnyError
  with_context : String → AnyError → AnyError
  from_bus : BusError → AnyError
  from_parse : ParseIntError → AnyError
  from_errno : ℕ → AnyError

-- `.context(..)`
abbrev pub context {ℓ} : {A : Type ℓ} → String → Outcome AnyError A → Outcome AnyError A
context s m = map_err (with_context s) m
