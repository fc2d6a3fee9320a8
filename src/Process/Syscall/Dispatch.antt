-- ===== src/Process/Syscall/Dispatch.antt =====
-- How an interrupt is answered.
use funny_os.Common.{
  ◌%◌, ◌<◌, ◌≡◌, ◌≢◌, refl, sym, ap, ◌∙◌, ◌⊎◌, inl, inr, ◌↔◌, true, false, ◌&&◌, ◌==◌,
  if◌then◌else◌, Bool-cases, Bool, Option-cases, some, none, u32, word,
}
use funny_os.Process.Syscall.{
  Process, Devices, Machine, returns_to_kernel, panics, handle_syscall, process_user_range_valid,
  process_handle_syscall, process_handle_fault, process_should_return_to_kernel, from_user,
  dispatch_fault, outcome, interrupt_dispatch, process_finish_exit,
}
use funny_os.Process.Syscall.Ranges.{Fits, InUser, process_user_range_valid_iff}

module _ {W : Type 0} (devices : Devices W) where
  -- The world is as it was, or a device got a range of the program's memory.
  abbrev pub Confined : Process → Machine W → W → Type 0
  Confined p m w =
      (w ≡ m.world)
      ⊎ (InUser p m.frame.rdi m.frame.rsi
          × ((w ≡ devices.console_write_n m.frame.rdi m.frame.rsi m.world)
              ⊎ (w ≡ (devices.keyboard_read_line m.frame.rdi m.frame.rsi m.world).1)))

  handle_syscall-Confined :
      (p : Process) (m : Machine W)
      → Fits p
      → m.frame.rdi < word
      → Confined p m (handle_syscall devices p m).world
  handle_syscall-Confined p m fits h =
      let valid = process_user_range_valid_iff p m.frame.rdi m.frame.rsi fits h in
      elim (Bool-cases (m.frame.rax % u32 == 0)) [
        | inl t ↦ rw t (inl refl)
        | inr t ↦ elim (Bool-cases (m.frame.rax % u32 == 1)) [
          | inl u ↦ elim (Bool-cases (process_user_range_valid p m.frame.rdi m.frame.rsi)) [
            | inl v ↦ rw (t, u, v) (inr (valid.0 v, inl refl))
            | inr v ↦ rw (t, u, v) (inl refl)
          ]
          | inr u ↦ elim (Bool-cases (m.frame.rax % u32 == 2)) [
            | inl v ↦ elim (Bool-cases (m.frame.rsi == 0)) [
              | inl z ↦ rw (t, u, v, z) (inl refl)
              | inr z ↦ elim (Bool-cases (process_user_range_valid p m.frame.rdi m.frame.rsi)) [
                | inl y ↦ rw (t, u, v, z, y) (inr (valid.0 y, inr refl))
                | inr y ↦ rw (t, u, v, z, y) (inl refl)
              ]
            ]
            | inr v ↦ rw (t, u, v) (inl refl)
          ]
        ]
      ]

  -- The handlers, by whether there is an active process.
  syscall_active :
      (p : Process) (m : Machine W)
      → m.active ≡ some p
      → process_handle_syscall devices m ≡ (true, handle_syscall devices p m)
  unfolding process_handle_syscall
  syscall_active p m e = rw e refl

  syscall_none : (m : Machine W) → m.active ≡ none → process_handle_syscall devices m ≡ (false, m)
  unfolding process_handle_syscall
  syscall_none m e = rw e refl

  fault_active :
      (p : Process) (m : Machine W)
      → m.active ≡ some p
      → from_user m ≡ true
      → process_handle_fault m
        ≡ (true, record m { active = some (process_finish_exit 0xffff_ffff p) })
  unfolding process_handle_fault
  fault_active p m e t = rw (e, t) refl

  fault_kernel : (m : Machine W) → from_user m ≡ false → process_handle_fault m ≡ (false, m)
  unfolding process_handle_fault
  fault_kernel m t = elim (Option-cases m.active) [
    | inl e ↦ rw e refl
    | inr (p, e) ↦ rw (e, t) refl
  ]

  fault_none : (m : Machine W) → m.active ≡ none → process_handle_fault m ≡ (false, m)
  unfolding process_handle_fault
  fault_none m e = rw e refl

  return_none : (m : Machine W) → m.active ≡ none → process_should_return_to_kernel m ≡ false
  unfolding process_should_return_to_kernel
  return_none m e = rw e refl

  -- A fault ends the program that caused it, and panics otherwise.
  fault_ends :
      (p : Process) (m : Machine W)
      → m.active ≡ some p
      → from_user m ≡ true
      → dispatch_fault m
        ≡ (returns_to_kernel, record m { active = some (process_finish_exit 0xffff_ffff p) })
  unfolding process_should_return_to_kernel process_finish_exit
  fault_ends p m e t = rw (fault_active p m e t) refl

  fault_panics_kernel : (m : Machine W) → from_user m ≡ false → dispatch_fault m ≡ (panics, m)
  fault_panics_kernel m t = rw (fault_kernel m t, t) refl

  fault_panics_none : (m : Machine W) → m.active ≡ none → dispatch_fault m ≡ (panics, m)
  fault_panics_none m e =
      rw (fault_none m e, return_none m e)
        (ap (λ b. if b then (returns_to_kernel, m) else (panics, m)) (and_false (from_user m)))
    where
      and_false : (b : Bool) → (b && false) ≡ false
      and_false true = refl
      and_false false = refl

  dispatch_fault-world :
      (p : Process) (m : Machine W) → m.active ≡ some p → (dispatch_fault m).1.world ≡ m.world
  dispatch_fault-world p m e = elim (Bool-cases (from_user m)) [
    | inl t ↦ ap (λ r. r.1.world) (fault_ends p m e t)
    | inr t ↦ ap (λ r. r.1.world) (fault_panics_kernel m t)
  ]

  -- An interrupt under a running program leaves the world as it was, or is a system call for which
  -- the console or the keyboard gets a range that is empty or in the program's image or stack.
  pub interrupt_dispatch-Confined :
      (p : Process) (m : Machine W)
      → m.active ≡ some p
      → Fits p
      → m.frame.rdi < word
      → Confined p m (interrupt_dispatch devices m).1.world
  unfolding interrupt_dispatch
  interrupt_dispatch-Confined p m active fits h = elim (Bool-cases (m.frame.vector == 0x80)) [
    | inl t ↦ rw (t, syscall_active p m active) (handle_syscall-Confined p m fits h)
    | inr t ↦ rw t (inl (dispatch_fault-world p m active))
  ]

  outcome-no_panic : (m : Machine W) → outcome m ≢ panics
  outcome-no_panic m e = elim (Bool-cases (process_should_return_to_kernel m)) [
    | inl t ↦ absurd (cc (t, e))
    | inr t ↦ absurd (cc (t, e))
  ]

  dispatch_syscall :
      (p : Process) (m : Machine W)
      → m.active ≡ some p
      → (m.frame.vector == 0x80) ≡ true
      → interrupt_dispatch devices m
        ≡ (outcome (handle_syscall devices p m), handle_syscall devices p m)
  unfolding interrupt_dispatch
  dispatch_syscall p m e t = rw (t, syscall_active p m e) refl

  dispatch_other :
      (m : Machine W)
      → (m.frame.vector == 0x80) ≡ false
      → interrupt_dispatch devices m ≡ dispatch_fault m
  unfolding interrupt_dispatch
  dispatch_other m t = rw t refl

  not_both :
      (p : Process) (m : Machine W)
      → m.active ≡ some p
      → ((m.frame.vector == 0x80) ≡ true) ⊎ (from_user m ≡ true)
      → (m.active ≡ none) ⊎ (((m.frame.vector == 0x80) ≡ false) × (from_user m ≡ false))
      → ⊥
  not_both p m e a (inl z) = cc (e, z)
  not_both p m e (inl t) (inr q) = cc (t, q.0)
  not_both p m e (inr u) (inr q) = cc (u, q.1)

  -- The kernel panics at an interrupt exactly if no program is active, or the interrupt is no system
  -- call and does not come from user mode: no program can make the kernel panic.
  pub interrupt_dispatch-panics_iff :
      (m : Machine W)
      → ((interrupt_dispatch devices m).0 ≡ panics)
        ↔ ((m.active ≡ none) ⊎ (((m.frame.vector == 0x80) ≡ false) × (from_user m ≡ false)))
  unfolding interrupt_dispatch
  interrupt_dispatch-panics_iff m = elim (Option-cases m.active) [
    | inl e ↦ elim (Bool-cases (m.frame.vector == 0x80)) [
      | inl t ↦ rw (t, syscall_none m e) (λ h. inl e, λ h. ap (λ r. r.0) (fault_panics_none m e))
      | inr t ↦ rw t (λ h. inl e, λ h. ap (λ r. r.0) (fault_panics_none m e))
    ]
    | inr (p, e) ↦ elim (Bool-cases (m.frame.vector == 0x80)) [
      | inl t ↦ (
        λ h. absurd (
            outcome-no_panic (handle_syscall devices p m)
              (sym (ap (λ r. r.0) (dispatch_syscall p m e t)) ∙ h)),
        λ q. absurd (not_both p m e (inl t) q),
      )
      | inr t ↦ elim (Bool-cases (from_user m)) [
        | inl u ↦ (
          λ h.
              absurd (let r = ap (λ r. r.0) (dispatch_other m t ∙ fault_ends p m e u) in cc (r, h)),
          λ q. absurd (not_both p m e (inr u) q),
        )
        | inr u ↦
            (λ h. inr (t, u), λ q. ap (λ r. r.0) (dispatch_other m t ∙ fault_panics_kernel m u))
      ]
    ]
  ]
