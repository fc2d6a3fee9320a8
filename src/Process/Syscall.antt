-- ===== src/Process/Syscall.antt =====
-- kernel/process.c and kernel/trap.c: what a running program can ask for, and how its faults end it.
pub mod Ranges
pub mod Dispatch
mod Tests
use funny_os.Common.{
  ℕ, ◌+◌, ◌-◌, ◌%◌, ◌^◌, Bool, true, false, ◌&&◌, ◌||◌, not, Option, some, none, List, [], ◌∷◌, leb,
  ltb, ◌==◌, if◌then◌else◌, u32, bit_and, sub64,
}

-- `ProcessState`
pub data ProcessState : Type 0 where
  idle : ProcessState
  loaded : ProcessState
  running : ProcessState
  exited : ProcessState

-- `Process`, the fields that the handlers use
pub record Process : Type 0 where
  pub state : ProcessState
  pub image_base : ℕ
  pub image_capacity : ℕ
  pub stack_base : ℕ
  pub stack_size : ℕ
  pub exit_status : ℕ
  pub exit_requested : Bool

-- `TrapFrame`, the fields that the handlers use
pub record TrapFrame : Type 0 where
  pub rax : ℕ
  pub rdi : ℕ
  pub rsi : ℕ
  pub vector : ℕ
  pub cs : ℕ

unfoldable pub process_range_contains : (base size ptr length : ℕ) → Bool
process_range_contains base size ptr length =
    if length == 0
    then true
    else if ltb ptr base
    then false
    else if ltb size (sub64 ptr base)
    then false
    else leb length (sub64 size (sub64 ptr base))

unfoldable pub process_user_range_valid : Process → (ptr length : ℕ) → Bool
process_user_range_valid p ptr length =
    process_range_contains p.image_base p.image_capacity ptr length
    || process_range_contains p.stack_base p.stack_size ptr length

unfoldable pub process_finish_exit : (status : ℕ) → Process → Process
process_finish_exit status p = record p {
  exit_requested = true;
  exit_status = status;
  state = exited;
}

-- What the console and the keyboard do, to a world that holds the user's memory.
pub record Devices (W : Type 0) : Type 0 where
  pub console_write_n : (ptr length : ℕ) → W → W
  pub keyboard_read_line : (ptr capacity : ℕ) → W → ℕ × W

-- `g_active_process`, the frame, and the world.
pub record Machine (W : Type 0) : Type 0 where
  pub active : Option Process
  pub frame : TrapFrame
  pub world : W

module _ {W : Type 0} (devices : Devices W) where
  abbrev pub answer : ℕ → Machine W → Machine W
  answer value m = record m { frame = record (m.frame) { rax = value } }

  abbrev pub read_line : Machine W → Machine W
  read_line m =
      let r = devices.keyboard_read_line m.frame.rdi m.frame.rsi m.world in
      answer r.0 (record m { world = r.1 })

  abbrev pub write : Machine W → Machine W
  write m =
      answer m.frame.rsi
        (record m { world = devices.console_write_n m.frame.rdi m.frame.rsi m.world })

  -- The result and what is left; the frame is not NULL.
  abbrev pub handle_syscall : Process → Machine W → Machine W
  handle_syscall p m =
      if m.frame.rax % u32 == 0
      then answer 1 (record m { active = some (process_finish_exit (m.frame.rdi % u32) p) })
      else if m.frame.rax % u32 == 1
      then (if not (process_user_range_valid p m.frame.rdi m.frame.rsi)
          then answer 0 m
          else write m)
      else if m.frame.rax % u32 == 2
      then (if m.frame.rsi == 0
          then answer 0 m
          else if not (process_user_range_valid p m.frame.rdi m.frame.rsi)
          then answer 0 m
          else read_line m)
      else answer 0 m

  unfoldable pub process_handle_syscall : Machine W → Bool × Machine W
  process_handle_syscall m = elim m.active [
    | none ↦ (false, m)
    | some p ↦ (true, handle_syscall p m)
  ]

module _ {W : Type 0} where
  unfoldable pub process_should_return_to_kernel : Machine W → Bool
  process_should_return_to_kernel m = elim m.active [ none ↦ false | some p ↦ p.exit_requested ]

  abbrev pub from_user : Machine W → Bool
  from_user m = bit_and m.frame.cs 3 == 3

  unfoldable pub process_handle_fault : Machine W → Bool × Machine W
  process_handle_fault m = elim m.active [
    | none ↦ (false, m)
    | some p ↦
        if not (from_user m)
        then (false, m)
        else (true, record m { active = some (process_finish_exit 0xffff_ffff p) })
  ]

-- How `interrupt_dispatch` is left: back to the interrupted program, to the kernel by
-- `program_return_to_kernel`, or in the panic. The frame is not NULL.
pub data Outcome : Type 0 where
  resumes : Outcome
  returns_to_kernel : Outcome
  panics : Outcome

module _ {W : Type 0} where
  abbrev pub outcome : Machine W → Outcome
  outcome m = if process_should_return_to_kernel m then returns_to_kernel else resumes

  -- The part for faults.
  abbrev pub dispatch_fault : Machine W → Outcome × Machine W
  dispatch_fault m =
      let r = process_handle_fault m in
      if r.0
      then (outcome r.1, r.1)
      else if from_user r.1 && process_should_return_to_kernel r.1
      then (returns_to_kernel, r.1)
      else (panics, r.1)

module _ {W : Type 0} (devices : Devices W) where
  unfoldable pub interrupt_dispatch : Machine W → Outcome × Machine W
  interrupt_dispatch m =
      let r = process_handle_syscall devices m in
      if m.frame.vector == 0x80
      then (if r.0 then (outcome r.1, r.1) else dispatch_fault r.1)
      else dispatch_fault m
