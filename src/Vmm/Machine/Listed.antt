-- ===== src/Vmm/Machine/Listed.antt =====
-- vmm/src/virtual_machine.rs and vmm/src/bus.rs: which memory a machine lists for its device tree.
use gunyah_test_vmm.Base.{ℕ, ◌≡◌, List, [], ◌∷◌, ◌++◌, Option, none, some}
use gunyah_test_vmm.Gunyah.Kernel.{Kernel}
use gunyah_test_vmm.Gunyah.Vm.{ShareType, share, lend}
use gunyah_test_vmm.Bus.Devices.{Devices}

-- `new` is `old` with `more` put in somewhere.
abbrev pub IsWith : List ℕ → List ℕ → List ℕ → Type 0
IsWith more old new = (l1 l2 : List ℕ) × (old ≡ l1 ++ l2) × (new ≡ l1 ++ (more ++ l2))

-- what a device lists
abbrev listed_by : Option (List ℕ) → List ℕ
listed_by none = []
listed_by (some l) = l

-- what memory of this kind adds to the list
abbrev pub listed_memory : ShareType → ℕ → ℕ → List ℕ
listed_memory share start len = []
listed_memory lend start len = start ∷ len ∷ []
