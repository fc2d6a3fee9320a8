-- ===== src/Keyboard/Tests.antt =====
-- A line typed into a buffer of six bytes, of which four may be used.
use funny_os.Common.{◌≡◌, refl, List, [], ◌∷◌, arith, replicate}
use funny_os.Keyboard.{
  Poll, serial_byte, scancode, idle, translate_scancode, read_char, keyboard_read_line,
}
use funny_os.Keyboard.Typed.{ended, typing, Agrees, keyboard_read_line-Agrees}

-- "abcd" of which "d" finds no room, a backspace, "1" from the keyboard, and the end of the line.
abbrev some_polls : List Poll
some_polls =
    serial_byte 0x61
    ∷ idle
    ∷ serial_byte 0x62
    ∷ scancode 0x2e
    ∷ scancode 0xae
    ∷ serial_byte 0x64
    ∷ serial_byte 0x7f
    ∷ scancode 2
    ∷ serial_byte 13
    ∷ idle
    ∷ []

keyboard_read_line-Agrees_example :
    Agrees 4
      (replicate 6 0xff)
      (typing 4 some_polls [])
      (keyboard_read_line 4 some_polls (replicate 6 0xff))
keyboard_read_line-Agrees_example =
    keyboard_read_line-Agrees 4 (replicate 6 0xff) (omega arith) some_polls (omega arith)

typing_test : typing 4 some_polls [] ≡ ended (0x61 ∷ 0x62 ∷ 0x31 ∷ []) (idle ∷ [])
unfolding read_char translate_scancode
typing_test = refl
