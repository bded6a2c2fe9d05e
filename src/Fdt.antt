-- ===== src/Fdt.antt =====
-- The writer of flattened device trees, `FdtWriter` of the crate vm-fdt, as the code calls it: a record
-- of its methods on `F`, the state of a writer. A node is known by the handle that `begin_node` returns.
pub mod Tree
pub mod Nesting
use gunyah_test_vmm.Base.{ℕ, String, List, Outcome}
use gunyah_test_vmm.Errors.{AnyError}
use gunyah_test_vmm.Effects.{M}
use gunyah_test_vmm.Types.Text.{Text}

-- what a property holds, by the method that writes it: `property_null`, `property_string` and so on
pub data Value : Type 0 where
  null : Value
  text : Text → Value
  texts : List Text → Value
  u32 u64 : ℕ → Value
  array_u32 array_u64 : List ℕ → Value

pub record FdtWriter (F : Type 0) : Type 0 where
  pub begin_node : Text → M F ℕ
  pub end_node : ℕ → M F (Unit {0})
  pub property : String → Value → M F (Unit {0})
  -- `finish`, which gives the bytes of the tree
  pub finish : F → Outcome AnyError (List ℕ)
