-- ===== src/Keyboard.antt =====
-- kernel/keyboard.c: a line read from the serial port and the keyboard.
pub mod Typed
mod Tests
use funny_os.Common.{
  ℕ, ◌+◌, ◌-◌, ◌/◌, ap, not, none, List, [], ◌∷◌, leb, ◌==◌, if◌then◌else◌, get_or, set,
}

-- What a round of the loop finds: a byte at the serial port, else a scancode, else nothing.
pub data Poll : Type 0 where
  serial_byte : ℕ → Poll
  scancode : ℕ → Poll
  idle : Poll

-- What the console is told.
pub data Echo : Type 0 where
  backspace : Echo
  write_char : ℕ → Echo

-- The characters of the scancodes from 0 to 0x39; NUL for those that give none.
abbrev scancode_table : List ℕ
scancode_table =
    0 ∷ 0 ∷ 0x31 ∷ 0x32 ∷ 0x33 ∷ 0x34 ∷ 0x35 ∷ 0x36 ∷ 0x37 ∷ 0x38 ∷ 0x39 ∷ 0x30 ∷ 0x2d ∷ 0 ∷ 8 ∷ 0
    ∷ 0x71 ∷ 0x77 ∷ 0x65 ∷ 0x72 ∷ 0x74 ∷ 0x79 ∷ 0x75 ∷ 0x69 ∷ 0x6f ∷ 0x70 ∷ 0 ∷ 0 ∷ 10 ∷ 0 ∷ 0x61
    ∷ 0x73 ∷ 0x64 ∷ 0x66 ∷ 0x67 ∷ 0x68 ∷ 0x6a ∷ 0x6b ∷ 0x6c ∷ 0 ∷ 0 ∷ 0 ∷ 0 ∷ 0 ∷ 0x7a ∷ 0x78 ∷ 0x63
    ∷ 0x76 ∷ 0x62 ∷ 0x6e ∷ 0x6d ∷ 0 ∷ 0x2e ∷ 0x2f ∷ 0 ∷ 0 ∷ 0 ∷ 0x20 ∷ []

unfoldable pub translate_scancode : ℕ → ℕ
translate_scancode code = get_or scancode_table code 0

-- The character of a round; NUL for a round that goes on.
unfoldable pub read_char : Poll → ℕ
read_char (serial_byte c) = if c == 13 then 10 else if c == 0x7f then 8 else c
read_char (scancode c) = if c == 0xe0 then 0 else if leb 0x80 c then 0 else translate_scancode c
read_char idle = 0

-- `buffer`, `len` and what was shown, the latest first.
pub record Line : Type 0 where
  pub buffer : List ℕ
  pub len : ℕ
  pub shown : List Echo

-- The line goes on, or is returned with what the port and the keyboard give later.
pub data Reading : Type 0 where
  waiting : Line → Reading
  entered : Line → List Poll → Reading

-- A character other than NUL and the end of the line.
unfoldable pub type_char : (capacity c : ℕ) → Line → Line
type_char capacity c l =
    if c == 8
    then (if not (l.len == 0)
        then record {
          buffer = set l.buffer (l.len - 1) 0;
          len = l.len - 1;
          shown = backspace ∷ l.shown;
        }
        else l)
    else if leb capacity (l.len + 1)
    then l
    else record {
      buffer = set (set l.buffer l.len c) (l.len + 1) 0;
      len = l.len + 1;
      shown = write_char c ∷ l.shown;
    }

abbrev end_line : Line → Line
end_line l = record l { buffer = set l.buffer l.len 0; shown = write_char 10 ∷ l.shown }

-- The loop, a round for each poll.
unfoldable pub read_rounds : (capacity : ℕ) → List Poll → Line → Reading
read_rounds capacity [] l = waiting l
read_rounds capacity (p ∷ polls) l =
    let c = read_char p in
    let rest = read_rounds capacity polls (if c == 0 then l else type_char capacity c l) in
    if c == 10 then entered (end_line l) polls else rest

unfoldable pub keyboard_read_line : (capacity : ℕ) → List Poll → (buffer : List ℕ) → Reading
keyboard_read_line capacity polls buffer =
    let start : Line = record { buffer = buffer; len = 0; shown = [] } in
    if capacity == 0 then entered start polls else read_rounds capacity polls start
