-- ===== src/Keyboard/Typed.antt =====
-- What the buffer of `keyboard_read_line` holds.
use funny_os.Common.{
  ℕ, suc, ◌+◌, ◌-◌, ◌≤◌, ◌<◌, ◌≡◌, refl, sym, ap, ◌∙◌, inl, inr, List, [], ◌∷◌, ◌++◌, arith, leb,
  ◌==◌, if◌then◌else◌, Bool-cases, length, get_or, set, take, length-append, length-set,
  length-take, get_or-set_self, get_or-set_ne, take-set_end, take-set_above, take-take,
}
use funny_os.Keyboard.{
  Poll, backspace, write_char, read_char, Line, Reading, waiting, entered, type_char, read_rounds,
  keyboard_read_line,
}

-- The line that is typed, without a buffer: whether it has ended, and what comes after it.
pub data Typing : Type 0 where
  so_far : (line : List ℕ) → Typing
  ended : (line : List ℕ) (rest : List Poll) → Typing

abbrev pub edit : (capacity c : ℕ) (line : List ℕ) → List ℕ
edit capacity c line =
    if c == 8
    then take (length line - 1) line
    else if leb capacity (length line + 1)
    then line
    else line ++ (c ∷ [])

abbrev pub typing : (capacity : ℕ) (polls : List Poll) (line : List ℕ) → Typing
typing capacity [] line = so_far line
typing capacity (p ∷ polls) line =
    let c = read_char p in
    let rest = typing capacity polls (if c == 0 then line else edit capacity c line) in
    if c == 10 then ended line polls else rest

-- The buffer has the line, fits it with a byte to spare, and is as before from its capacity on.
pub record IsHeld (capacity : ℕ) (old line : List ℕ) (l : Line) : Type 0 where
  pub len : l.len ≡ length line
  pub small : length line < capacity
  pub size : length l.buffer ≡ length old
  pub text : take (length line) l.buffer ≡ line
  pub beyond : (i : ℕ) → capacity ≤ i → get_or l.buffer i 0 ≡ get_or old i 0

-- A line that is returned is followed by a NUL.
abbrev pub Agrees : (capacity : ℕ) (old : List ℕ) → Typing → Reading → Type 0
Agrees capacity old (so_far line) (waiting l) = IsHeld capacity old line l
Agrees capacity old (ended line rest) (entered l rest') =
    IsHeld capacity old line l × (get_or l.buffer l.len 0 ≡ 0) × (rest' ≡ rest)
Agrees capacity old _ _ = ⊥

module _ (capacity : ℕ) (old : List ℕ) (fits : capacity ≤ length old) where
  -- A byte written before the capacity.
  set-beyond :
      (buffer : List ℕ) (at c i : ℕ)
      → at < capacity
      → capacity ≤ i
      → get_or (set buffer at c) i 0 ≡ get_or buffer i 0
  set-beyond buffer at c i low high = get_or-set_ne buffer at i c 0 (λ e. omega (arith, e))

  ended-IsHeld :
      (line : List ℕ) (l : Line)
      → IsHeld capacity old line l
      → IsHeld capacity old line
          (record l { buffer = set l.buffer l.len 0; shown = write_char 10 ∷ l.shown })
  ended-IsHeld line l h = record {
    len = h.len;
    small = h.small;
    size = length-set l.buffer l.len 0 ∙ h.size;
    text = take-set_above l.buffer (length line) l.len 0 (omega (arith, h.len)) ∙ h.text;
    beyond = λ i high.
        set-beyond l.buffer l.len 0 i (omega (arith, h.len, h.small)) high ∙ h.beyond i high;
  }

  dropped-IsHeld :
      (line : List ℕ) (l : Line)
      → IsHeld capacity old line l
      → 1 ≤ length line
      → IsHeld capacity old (take (length line - 1) line) (record {
        buffer = set l.buffer (l.len - 1) 0;
        len = l.len - 1;
        shown = backspace ∷ l.shown;
      })
  dropped-IsHeld line l h some_line =
      let short : length (take (length line - 1) line) ≡ length line - 1 =
        omega (arith, length-take (length line - 1) line) in
      record {
        len = omega (arith, short, h.len);
        small = omega (arith, short, h.small);
        size = length-set l.buffer (l.len - 1) 0 ∙ h.size;
        text =
            rw
              (
                short,
                take-set_above l.buffer (length line - 1) (l.len - 1) 0 (omega (arith, h.len)),
              )
              (sym (take-take (length line - 1) (length line) l.buffer (omega arith))
                ∙ ap (take (length line - 1)) h.text);
        beyond = λ i high.
            set-beyond l.buffer (l.len - 1) 0 i (omega (arith, h.len, h.small)) high
            ∙ h.beyond i high;
      }

  added-IsHeld :
      (line : List ℕ) (c : ℕ) (l : Line)
      → IsHeld capacity old line l
      → length line + 1 < capacity
      → IsHeld capacity old (line ++ (c ∷ [])) (record {
        buffer = set (set l.buffer l.len c) (l.len + 1) 0;
        len = l.len + 1;
        shown = write_char c ∷ l.shown;
      })
  added-IsHeld line c l h room =
      let long : length (line ++ (c ∷ [])) ≡ suc (length line) =
        omega (arith, length-append line (c ∷ [])) in
      record {
        len = omega (arith, long, h.len);
        small = omega (arith, long, room);
        size =
            length-set (set l.buffer l.len c) (l.len + 1) 0 ∙ length-set l.buffer l.len c ∙ h.size;
        text =
            rw
              (
                long,
                take-set_above (set l.buffer l.len c) (suc (length line)) (l.len + 1) 0
                    (omega (arith, h.len)),
                h.len,
                take-set_end l.buffer (length line) c (omega (arith, h.size, room, fits)),
                h.text,
              )
              refl;
        beyond = λ i high.
            set-beyond (set l.buffer l.len c) (l.len + 1) 0 i (omega (arith, h.len, room)) high
            ∙ set-beyond l.buffer l.len c i (omega (arith, h.len, room)) high
            ∙ h.beyond i high;
      }

  take-no_line : (line : List ℕ) → length line ≡ 0 → take (length line - 1) line ≡ line
  take-no_line [] e = refl
  take-no_line (x ∷ line) e = absurd (omega (arith, e))

  type_char-IsHeld :
      (line : List ℕ) (c : ℕ) (l : Line)
      → IsHeld capacity old line l
      → IsHeld capacity old (edit capacity c line) (type_char capacity c l)
  unfolding type_char
  type_char-IsHeld line c l h = elim (Bool-cases (c == 8)) [
    | inl t ↦ elim (Bool-cases (l.len == 0)) [
      | inl u ↦ rw (t, u, take-no_line line (ground (arith, u, h.len))) h
      | inr u ↦ rw (t, u) (dropped-IsHeld line l h (ground (arith, u, h.len)))
    ]
    | inr t ↦
        let same : leb capacity (l.len + 1) ≡ leb capacity (length line + 1) =
          ap (λ n. leb capacity (n + 1)) h.len in
        elim (Bool-cases (leb capacity (length line + 1))) [
          | inl u ↦ rw (t, same, u) h
          | inr u ↦ rw (t, same, u) (added-IsHeld line c l h (ground (arith, u)))
        ]
  ]

  read_rounds-Agrees :
      (polls : List Poll) (line : List ℕ) (l : Line)
      → IsHeld capacity old line l
      → Agrees capacity old (typing capacity polls line) (read_rounds capacity polls l)
  unfolding read_rounds
  read_rounds-Agrees [] line l h = h
  read_rounds-Agrees (p ∷ polls) line l h = elim (Bool-cases (read_char p == 10)) [
    | inl t ↦ rw t (
      ended-IsHeld line l h,
      get_or-set_self l.buffer l.len 0 0 (omega (arith, h.len, h.small, h.size, fits)),
      refl,
    )
    | inr t ↦ elim (Bool-cases (read_char p == 0)) [
      | inl u ↦ rw (t, u) (read_rounds-Agrees polls line l h)
      | inr u ↦
          rw (t, u)
            (read_rounds-Agrees polls (edit capacity (read_char p) line)
              (type_char capacity (read_char p) l) (type_char-IsHeld line (read_char p) l h))
    ]
  ]

  -- Into a buffer of at least the capacity's bytes, with a capacity of at least one, the bytes that
  -- come from the serial port and the keyboard are read as the line that they type: a backspace
  -- drops the last character, a character that would not leave a byte for the NUL is not taken, and
  -- the end of the line returns what is there, with a NUL after it and what comes later not read.
  -- No byte of the buffer from the capacity on changes.
  pub keyboard_read_line-Agrees :
      (polls : List Poll)
      → 1 ≤ capacity
      → Agrees capacity old (typing capacity polls []) (keyboard_read_line capacity polls old)
  unfolding keyboard_read_line
  keyboard_read_line-Agrees polls some_capacity = elim (Bool-cases (capacity == 0)) [
    | inl t ↦ absurd (ground (arith, t))
    | inr t ↦ rw t (
        read_rounds-Agrees polls [] _ (record {
          len = refl;
          small = some_capacity;
          size = refl;
          text = refl;
          beyond = λ i high. refl;
        }))
  ]
