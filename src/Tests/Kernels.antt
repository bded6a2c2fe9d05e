-- ===== src/Tests/Kernels.antt =====
-- a kernel and a writer of device trees for the tests
use gunyah_test_vmm.Base.{[], ok}
use gunyah_test_vmm.Effects.{pure}
use gunyah_test_vmm.Gunyah.Kernel.{Kernel}
use gunyah_test_vmm.Fdt.{FdtWriter}

-- every request returns 0, every descriptor stands for a file of 64 KiB
abbrev pub generous : Kernel (Unit {0})
generous = record {
  ioctl = λ _ _. pure 0;
  dup = λ fd. pure fd;
  stat = λ _. pure tt;
  file_len = λ _. pure 0x10000;
  eventfd = pure 3;
  open_file = λ _ _. pure 6;
  write = λ _ _ k. k;
  map_file = λ _ _. pure tt;
  fallocate = λ _ _ _ _. pure tt;
  map_range = λ _ _ _ _. pure 0x1000;
  vcpu_page = λ _ _. record {
    exit_reason = 0;
    phys_addr = 0;
    bytes = [];
    len = 0;
    is_write = 0;
    resume_action = 0;
  };
  set_vcpu_page = λ _ _ k. k;
  copy_from = λ _ _ _. pure [];
  copy_to = λ _ _ _. pure tt;
}

-- accepts everything and writes nothing
abbrev pub blank : FdtWriter (Unit {0})
blank = record {
  begin_node = λ _. pure 0;
  end_node = λ _. pure tt;
  property = λ _ _. pure tt;
  finish = λ _. ok [];
}
