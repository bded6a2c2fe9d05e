-- ===== src/Fdt/Nesting.antt =====
-- What the crate vm-fdt documents of its writer, as far as the code relies on it: nodes are ended from
-- the innermost, and the properties of a node come before the nodes in it.
use gunyah_test_vmm.Base.{ℕ, ◌≡◌, ◌∙◌, refl, String, Bool, true, false, List, ◌∷◌, ok, arith}
use gunyah_test_vmm.Effects.{M, ◌>>=◌, ◌>>◌, pure}
use gunyah_test_vmm.Types.Text.{Text}
use gunyah_test_vmm.Fdt.{Value, FdtWriter}
use gunyah_test_vmm.Fdt.Tree.{Items, done, prop, node, call, write_items}

-- The open nodes, the innermost first, and whether the innermost may still get properties; the names
-- and the values that are accepted.
pub record Observed (F : Type 0) : Type 1 where
  pub opened : F → List ℕ
  pub property_allowed : F → Bool
  pub NameIsFine : Text → Type 0
  pub ValueIsFine : String → Value → Type 0

module _ {F : Type 0} where
  -- The call returns with these nodes open, wherever it starts with them open and, if `b` is true,
  -- the innermost may get properties.
  abbrev pub Balanced : Observed F → Bool → M F (Unit {0}) → Type 0
  Balanced seen allowed m =
      (f : F)
      → (allowed ≡ true → seen.property_allowed f ≡ true)
      → (f' : F) × (m f ≡ (ok tt, f')) × (seen.opened f' ≡ seen.opened f)

-- the documented behaviour
pub record IsLawful {F : Type 0} (seen : Observed F) (fdt : FdtWriter F) : Type 0 where
  pub begins :
      (name : Text) (f : F)
      → seen.NameIsFine name
      → (id : ℕ) × (f' : F) × (fdt.begin_node name f ≡ (ok id, f'))
        × (seen.opened f' ≡ id ∷ seen.opened f)
        × (seen.property_allowed f' ≡ true)
  pub ends :
      (id : ℕ) (rest : List ℕ) (f : F)
      → seen.opened f ≡ id ∷ rest
      → (f' : F) × (fdt.end_node id f ≡ (ok tt, f')) × (seen.opened f' ≡ rest)
  pub adds :
      (name : String) (value : Value) (f : F)
      → seen.ValueIsFine name value
      → seen.property_allowed f ≡ true
      → (f' : F) × (fdt.property name value f ≡ (ok tt, f'))
        × (seen.opened f' ≡ seen.opened f)
        × (seen.property_allowed f' ≡ true)

module _ {F : Type 0} where
  -- The properties of every node come before the nodes in it.
  abbrev pub IsOrdered : Bool → Items F → Type 0
  IsOrdered allowed done = Unit {0}
  IsOrdered allowed (prop k v x) = (allowed ≡ true) × IsOrdered true x
  IsOrdered allowed (node n x y) = IsOrdered true x × IsOrdered false y
  IsOrdered allowed (call c x) = IsOrdered false x

module _ {F : Type 0} (seen : Observed F) where
  -- The names and values are accepted, and devices write whole nodes.
  abbrev pub IsFine : Items F → Type 0
  IsFine done = Unit {0}
  IsFine (prop k v x) = seen.ValueIsFine k v × IsFine x
  IsFine (node n x y) = seen.NameIsFine n × IsFine x × IsFine y
  IsFine (call c x) = Balanced seen false c × IsFine x

module _ {F : Type 0} (seen : Observed F) (fdt : FdtWriter F) (lawful : IsLawful seen fdt) where
  -- Such a tree is written, and every node that was begun is ended.
  pub write_items-Balanced :
      (allowed : Bool) (x : Items F)
      → IsOrdered allowed x
      → IsFine seen x
      → Balanced seen allowed (write_items fdt x)
  unfolding write_items ◌>>=◌ ◌>>◌ pure
  write_items-Balanced allowed done o h f can = (f, refl, refl)
  write_items-Balanced allowed (prop k v x) (here, o) (fine, h) f can =
      let (f1, e1, o1, c1) = lawful.adds k v f fine (can here) in
      let (f2, e2, o2) = write_items-Balanced true x o h f1 (λ _. c1) in (f2, rw e1 e2, o2 ∙ o1)
  write_items-Balanced allowed (node n x y) (ox, oy) (fine, hx, hy) f can =
      let (id, f1, e1, o1, c1) = lawful.begins n f fine in
      let (f2, e2, o2) = write_items-Balanced true x ox hx f1 (λ _. c1) in
      let (f3, e3, o3) = lawful.ends id (seen.opened f) f2 (o2 ∙ o1) in
      let (f4, e4, o4) = write_items-Balanced false y oy hy f3 (λ no. ground arith) in
      (f4, rw (e1, e2, e3) e4, o4 ∙ o3)
  write_items-Balanced allowed (call c x) o (hc, hx) f can =
      let (f1, e1, o1) = hc f (λ no. ground arith) in
      let (f2, e2, o2) = write_items-Balanced false x o hx f1 (λ no. ground arith) in
      (f2, rw e1 e2, o2 ∙ o1)
