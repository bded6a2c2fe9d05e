-- ===== src/Bus/Dispatch.antt =====
-- vmm/src/bus.rs: the devices behind a bus, and how `read`, `write` and the collectors reach them.
-- A device is the record of its methods on `W`, the state of all devices; `F` is the state of the
-- `FdtWriter` of the crate vm-fdt. A lock that is taken and released leaves no trace in the state.
use Prim.Native.String
use gunyah_test_vmm.Base.{
  ℕ, ◌-◌, ◌<◌, ◌≡◌, refl, String, List, [], ◌∷◌, ◌++◌, Option, none, some, Outcome, ok, err, panic,
  if◌then◌else◌, max_u64, Bool-cases, inl, inr,
}
use gunyah_test_vmm.Errors.{AnyError, msg, context}
use gunyah_test_vmm.Bus.Devices.{Devices, get_device, insert}
use gunyah_test_vmm.Bus.Invariant.{IsValid}
use gunyah_test_vmm.Bus.Lookup.{holds}
use gunyah_test_vmm.Bus.Contract.{get_device-insert}

pub data AccessId : Type 0 where
  vmm_userspace : AccessId
  vcpu : ℕ → AccessId

pub record BusAccessInfo : Type 0 where
  pub offset : ℕ
  pub address : ℕ
  pub id : AccessId

-- `trait BusDevice`. `read` gets the buffer and gives it back, as it does when it fails.
pub record BusDevice (W F : Type 0) : Type 0 where
  pub debug_label : W → String
  pub read : BusAccessInfo → List ℕ → W → Outcome AnyError (Unit {0}) × List ℕ × W
  pub write : BusAccessInfo → List ℕ → W → Outcome AnyError (Unit {0}) × W
  pub memory_regions : W → Option (List ℕ)
  pub gunyah_vdevice_config : W → F → Outcome AnyError (Unit {0}) × F
  pub device_config : W → F → Outcome AnyError (Unit {0}) × F

-- `enum BusDeviceEntry`: a device behind a lock of its own, or one that locks for itself.
pub data BusEntry (W F : Type 0) : Type 0 where
  outer_sync inner_sync : BusDevice W F → BusEntry W F

module _ {W F : Type 0} where
  -- the default methods of the trait
  abbrev pub default_device : (W → String) → BusDevice W F
  default_device label = record {
    debug_label = label;
    read = λ _ d w. (err (msg "Unhandled read"), d, w);
    write = λ _ _ w. (err (msg "Unhandled write"), w);
    memory_regions = λ _. none;
    gunyah_vdevice_config = λ _ f. (ok tt, f);
    device_config = λ _ f. (ok tt, f);
  }

  abbrev pub device : BusEntry W F → BusDevice W F
  device (outer_sync dev) = dev
  device (inner_sync dev) = dev

  -- the call on the device and the context that `Bus::read` adds to its error
  unfoldable pub forward_read :
      BusEntry W F → BusAccessInfo → List ℕ → W → Outcome AnyError (Unit {0}) × List ℕ × W
  forward_read e io d w =
      let (r, d', w') = (device e).read io d w in
      (context (String.◌++◌ ((device e).debug_label w') " failed to handle read") r, d', w')

  unfoldable pub forward_write :
      BusEntry W F → BusAccessInfo → List ℕ → W → Outcome AnyError (Unit {0}) × W
  forward_write e io d w =
      let (r, w') = (device e).write io d w in
      (context (String.◌++◌ ((device e).debug_label w') " failed to handle write") r, w')

  -- `Bus::read`, by the handle of a bus whose `access_id` is `id`
  unfoldable pub read :
      AccessId → ℕ → List ℕ → Devices (BusEntry W F) → W → Outcome AnyError (Unit {0}) × List ℕ × W
  read id addr d m w = elim (get_device addr m) [
    | none ↦ (err (msg "No device suitable"), d, w)
    | some (offset, address, entry) ↦
        forward_read entry (record { offset = offset; address = address; id = id }) d w
  ]

  -- `Bus::write`
  unfoldable pub write :
      AccessId → ℕ → List ℕ → Devices (BusEntry W F) → W → Outcome AnyError (Unit {0}) × W
  write id addr d m w = elim (get_device addr m) [
    | none ↦ (err (msg "No device suitable"), w)
    | some (offset, address, entry) ↦
        forward_write entry (record { offset = offset; address = address; id = id }) d w
  ]

  -- `Bus::list_memory_regions`
  unfoldable pub list_memory_regions : Devices (BusEntry W F) → W → List ℕ
  list_memory_regions [] w = []
  list_memory_regions ((r, e) ∷ m) w = elim ((device e).memory_regions w) [
    | none ↦ list_memory_regions m w
    | some regions ↦ regions ++ list_memory_regions m w
  ]

  -- `try_for_each` over the entries of the map: it stops at the first error
  unfoldable pub try_for_each :
      (BusEntry W F → F → Outcome AnyError (Unit {0}) × F)
      → Devices (BusEntry W F)
      → F
      → Outcome AnyError (Unit {0}) × F
  try_for_each visit [] f = (ok tt, f)
  try_for_each visit ((r, e) ∷ m) f =
      let (done, f') = visit e f in
      elim done [ ok _ ↦ try_for_each visit m f' | err x ↦ (err x, f') | panic ↦ (panic, f') ]

  -- `Bus::generate_gunyah_vdevice_config`
  unfoldable pub generate_gunyah_vdevice_config :
      Devices (BusEntry W F) → W → F → Outcome AnyError (Unit {0}) × F
  generate_gunyah_vdevice_config m w = try_for_each (λ e. (device e).gunyah_vdevice_config w) m

  -- `Bus::generate_device_config`
  unfoldable pub generate_device_config :
      Devices (BusEntry W F) → W → F → Outcome AnyError (Unit {0}) × F
  generate_device_config m w = try_for_each (λ e. (device e).device_config w) m

module _ {W F : Type 0} where
  -- Once a device is inserted into a valid map, below the last address of u64, a read at its
  -- addresses is answered by it, told the offset from its base, the address and who asks; a read at
  -- any other address is answered as before.
  pub read-insert :
      (e : BusEntry W F) (base len addr : ℕ) (m : Devices (BusEntry W F)) (id : AccessId)
      (d : List ℕ) (w : W)
      → base < max_u64
      → IsValid m
      → (insert e base len m).0 ≡ ok tt
      → read id addr d (insert e base len m).1 w ≡ (
          if holds base len addr
          then forward_read e (record { offset = addr - base; address = addr; id = id }) d w
          else read id addr d m w)
  unfolding read
  read-insert e base len addr m id d w hb v done =
      rw (read, get_device-insert e base len addr m hb v done)
        (elim (Bool-cases (holds base len addr)) [
          | inl hit ↦ rw hit refl
          | inr miss ↦ rw miss refl
        ])

  -- Once a device is inserted into a valid map, below the last address of u64, a write at its
  -- addresses goes to it, told the offset from its base, the address and who asks; a write at any
  -- other address goes where it went before.
  pub write-insert :
      (e : BusEntry W F) (base len addr : ℕ) (m : Devices (BusEntry W F)) (id : AccessId)
      (d : List ℕ) (w : W)
      → base < max_u64
      → IsValid m
      → (insert e base len m).0 ≡ ok tt
      → write id addr d (insert e base len m).1 w ≡ (
          if holds base len addr
          then forward_write e (record { offset = addr - base; address = addr; id = id }) d w
          else write id addr d m w)
  unfolding write
  write-insert e base len addr m id d w hb v done =
      rw (write, get_device-insert e base len addr m hb v done)
        (elim (Bool-cases (holds base len addr)) [
          | inl hit ↦ rw hit refl
          | inr miss ↦ rw miss refl
        ])
