-- ===== src/Process/Syscall/Tests.antt =====
-- Interrupts under a program with an image of two pages.
use funny_os.Common.{ℕ, ◌≡◌, ◌⊎◌, ◌↔◌, refl, true, false, some, none, arith, ◌==◌}
use funny_os.Process.Syscall.{
  Process, running, Devices, Machine, panics, from_user, interrupt_dispatch, process_range_contains,
  process_user_range_valid, process_handle_syscall,
}
use funny_os.Process.Syscall.Ranges.{InUser, process_user_range_valid_iff}
use funny_os.Process.Syscall.Dispatch.{
  Confined, interrupt_dispatch-Confined, interrupt_dispatch-panics_iff,
}

-- The world counts the bytes written; each line read is empty.
abbrev counting : Devices ℕ
counting = record {
  console_write_n = λ ptr length count. length;
  keyboard_read_line = λ ptr capacity count. (0, count);
}

abbrev hello : Process
hello = record {
  state = running;
  image_base = 0x80_0000_0000;
  image_capacity = 0x2000;
  stack_base = 0x80_000f_0000;
  stack_size = 0x1_0000;
  exit_status = 0;
  exit_requested = false;
}

abbrev writes : Machine ℕ
writes = record {
  active = some hello;
  frame = record { rax = 1; rdi = 0x80_0000_1ff0; rsi = 16; vector = 0x80; cs = 0x1b };
  world = 0;
}

writes_count : (interrupt_dispatch counting writes).1.world ≡ 16
unfolding interrupt_dispatch process_handle_syscall process_user_range_valid process_range_contains
writes_count = refl

process_user_range_valid_iff_example :
    (process_user_range_valid hello 0x80_0000_1ff0 16 ≡ true) ↔ InUser hello 0x80_0000_1ff0 16
process_user_range_valid_iff_example =
    process_user_range_valid_iff hello 0x80_0000_1ff0 16 (omega arith, omega arith) (omega arith)

interrupt_dispatch-Confined_example :
    Confined counting hello writes (interrupt_dispatch counting writes).1.world
interrupt_dispatch-Confined_example =
    interrupt_dispatch-Confined counting hello writes refl (omega arith, omega arith) (omega arith)

interrupt_dispatch-panics_iff_example :
    ((interrupt_dispatch counting writes).0 ≡ panics)
    ↔ ((some hello ≡ none) ⊎ (((0x80 == 0x80) ≡ false) × (from_user writes ≡ false)))
interrupt_dispatch-panics_iff_example = interrupt_dispatch-panics_iff counting writes
