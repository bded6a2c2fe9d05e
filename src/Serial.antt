-- ===== src/Serial.antt =====
-- src/serial.rs: the serial console as a device. Its registers are those of the crate vm-superio, a
-- parameter, and so is what the thread that feeds them reads from the standard input.
pub mod Guest
use gunyah_test_vmm.Base.{
  ℕ, ltb, leb, ◌==◌, if◌then◌else◌, List, [], ◌∷◌, ◌++◌, Outcome, ok, err, panic, Profile, add_u64,
  length, map_err,
}
use gunyah_test_vmm.Errors.{AnyError, msg}
use gunyah_test_vmm.Effects.{M, ◌>>=◌, ◌>>◌, pure, lift, or_panic, in_context}
use gunyah_test_vmm.Types.Text.{Text, codes}
use gunyah_test_vmm.Types.Radix.{digits}
use gunyah_test_vmm.Fdt.{FdtWriter, texts, u32, array_u32, array_u64}
use gunyah_test_vmm.Gunyah.Kernel.{Kernel}
use gunyah_test_vmm.Bus.Dispatch.{BusDevice, default_device}
use gunyah_test_vmm.Vmm.Interrupt.{GunyahInterrupt, fdt_config, interrupt_trigger}
use gunyah_test_vmm.Vmm.Machine.{Op, add_device, add_edge_interrupt}

abbrev pub serial_mmio_size : ℕ
serial_mmio_size = 8

-- the registers, `vm_superio::Serial`, by their offset (a u8)
pub record SerialPort (W : Type 0) : Type 0 where
  pub port_read : ℕ → W → ℕ × W
  -- the interrupt behind `interrupt_evt`
  pub interrupt_evt : GunyahInterrupt
  pub port_write : ℕ → ℕ → W → Outcome AnyError (Unit {0}) × W
  pub fifo_capacity : W → ℕ
  pub enqueue_raw_bytes : List ℕ → M W (Unit {0})

pub record SerialDevice (W : Type 0) : Type 0 where
  pub serial : SerialPort W
  pub start : ℕ

module _ {W : Type 0} where
  -- an offset as a u8, or the panic of `try_into().unwrap()`
  abbrev read_register : SerialPort W → ℕ → List ℕ → W → Outcome AnyError (Unit {0}) × List ℕ × W
  read_register serial offset d w =
      if ltb offset 256
      then (let (byte, w') = serial.port_read offset w in (ok tt, byte ∷ [], w'))
      else (panic, d, w)

  abbrev pub refuse : Outcome AnyError (Unit {0}) × W → Outcome AnyError (Unit {0}) × W
  refuse (r, w) = (map_err (λ _. msg "Failed to write to offset: {:x}: {:?}") r, w)

  -- the `read` and `write` of `impl BusDevice`
  unfoldable pub serial_read :
      SerialDevice W → ℕ → List ℕ → W → Outcome AnyError (Unit {0}) × List ℕ × W
  serial_read self offset d w =
      if length d == 1
      then read_register self.serial offset d w
      else (err (msg "Only reads of size 1 allowed"), d, w)

  unfoldable pub serial_write : SerialDevice W → ℕ → List ℕ → W → Outcome AnyError (Unit {0}) × W
  serial_write self offset [] w = (err (msg "Only writes of size 1 allowed"), w)
  serial_write self offset (byte ∷ []) w =
      if ltb offset 256 then refuse (self.serial.port_write offset byte w) else (panic, w)
  serial_write self offset (x ∷ y ∷ rest) w = (err (msg "Only writes of size 1 allowed"), w)

module _ {W : Type 0} (serial : SerialPort W) where
  -- a line of the standard input for the registers, which is dropped where it does not fit
  abbrev enqueue_line : List ℕ → M W (Unit {0})
  enqueue_line bytes w =
      if leb (length bytes) (serial.fifo_capacity w)
      then or_panic (serial.enqueue_raw_bytes bytes) w
      else (ok tt, w)

  -- one round of the thread of `SerialDevice::new`, by what `read_line` returned
  unfoldable pub feed_stdin : Outcome AnyError (List ℕ) → M W (Unit {0})
  feed_stdin line = do
    bytes ← or_panic (lift line)
    if length bytes == 0 then pure tt else enqueue_line bytes

-- `<GunyahEventTrigger as Trigger>::trigger`
unfoldable pub event_trigger : {W : Type 0} → Kernel W → GunyahInterrupt → M W (Unit {0})
event_trigger kernel self = in_context "Failed to trigger event" (interrupt_trigger kernel self)

-- `SerialDevice::device_name`
unfoldable pub device_name : {W : Type 0} → SerialDevice W → Text
device_name self = codes "serial@" ++ digits 16 self.start

-- `SerialDevice::device_config`
unfoldable pub serial_config : {W F : Type 0} → FdtWriter F → SerialDevice W → M F (Unit {0})
unfolding device_name fdt_config
serial_config fdt self = do
  node ← fdt.begin_node (device_name self)
  fdt.property "compatible" (texts (codes "ns16550a" ∷ []))
  fdt.property "reg" (array_u64 (self.start ∷ serial_mmio_size ∷ []))
  let irq_config = fdt_config self.serial.interrupt_evt
  fdt.property "interrupts" (array_u32 irq_config)
  fdt.property "clock-frequency" (u32 0x1c2000)
  fdt.end_node node

-- `impl BusDevice for SerialDevice`
unfoldable pub serial_device : {W F : Type 0} → FdtWriter F → SerialDevice W → BusDevice W F
unfolding serial_read serial_write serial_config
serial_device fdt self = record (default_device (λ _. "ns16550a serial")) {
  read = λ access d w. serial_read self access.offset d w;
  write = λ access d w. serial_write self access.offset d w;
  device_config = λ _. serial_config fdt self;
}

-- `SerialDevice::new`. The registers are made around the interrupt.
unfoldable pub serial_new :
    {W F : Type 0}
    → Kernel W
    → Profile
    → FdtWriter F
    → (GunyahInterrupt → SerialPort W)
    → ℕ
    → ℕ
    → Op W F (SerialDevice W)
serial_new kernel p fdt make start interrupt_line = do
  interrupt ← add_edge_interrupt kernel interrupt_line
  let device : SerialDevice _ = record { serial = make interrupt; start = start }
  len ← lift (add_u64 p start serial_mmio_size)
  add_device (serial_device fdt device) start len
  pure device
