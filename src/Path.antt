-- ===== src/Path.antt =====
-- kernel/path.c: `path_normalize` and its helpers, over the buffer they write. A C string that is
-- read is the list of its bytes before the NUL.

pub mod Resolve
pub mod Buffer
pub mod Push
pub mod Split
pub mod Normal
pub mod Answer
mod Tests
use funny_os.Common.{
  ℕ, zero, suc, ◌-◌, Bool, true, false, ◌&&◌, ◌||◌, not, List, [], ◌∷◌, length, get_or, set, leb,
  ltb, ◌==◌, if◌then◌else◌, add32, u32, ◌%◌, Option, some, none,
}
use funny_os.KString.{k_toupper}

abbrev pub path_capacity : ℕ
path_capacity = 128

abbrev pub slash : ℕ
slash = 0x2f

abbrev pub dot : ℕ
dot = 0x2e

-- `out`, `*pos`, `starts` and `*count`, which the helpers take by reference.
pub record Output : Type 0 where
  pub out : List ℕ
  pub pos : ℕ
  pub starts : List ℕ
  pub count : ℕ

-- `out[(*pos)++] = c`
abbrev pub put : ℕ → Output → Output
put c o = record o { out = set o.out o.pos c; pos = add32 o.pos 1 }

-- `out[*pos] = '\0'`
abbrev pub terminate : Output → Output
terminate o = record o { out = set o.out o.pos 0 }

unfoldable pub put_upper : List ℕ → Output → Output
put_upper [] o = o
put_upper (c ∷ cs) o = put_upper cs (put (k_toupper c) o)

abbrev pub put_component : List ℕ → Output → Output
put_component name o =
    let o' = terminate (put_upper name (record o { starts = set o.starts o.count o.pos })) in
    record o' { count = add32 o'.count 1 }

-- The component's bytes are `name`; `*pos + len >= capacity` is tested after the separator is out.
abbrev pub push_after_slash : (capacity : ℕ) (name : List ℕ) → Output → Bool × Output
push_after_slash capacity name o =
    if leb capacity (add32 o.pos (length name % u32))
    then (false, o)
    else (true, put_component name o)

unfoldable pub push_component : (capacity : ℕ) (name : List ℕ) → Output → Bool × Output
push_component capacity name o =
    if length name % u32 == 0 || leb path_capacity o.count
    then (false, o)
    else if o.pos == 1
    then push_after_slash capacity name o
    else if leb capacity (add32 o.pos 1)
    then (false, o)
    else push_after_slash capacity name (put slash o)

abbrev pub start_of_last : Output → ℕ
start_of_last o = get_or o.starts (o.count - 1) 0

unfoldable pub pop_component : Output → Output
pop_component o =
    if o.count == 0
    then record o { pos = 1; out = set o.out 1 0 }
    else terminate (record o {
      pos = if ltb 1 (start_of_last o) then start_of_last o - 1 else 1;
      count = o.count - 1;
    })

-- `while (*path == '/') ++path;`
unfoldable pub skip_slashes : List ℕ → List ℕ
skip_slashes [] = []
skip_slashes (c ∷ cs) = let rest = skip_slashes cs in if c == slash then rest else c ∷ cs

-- The bytes up to the next separator, and those from it on.
unfoldable pub name_of : List ℕ → List ℕ
name_of [] = []
name_of (c ∷ cs) = let rest = name_of cs in if c == slash then [] else c ∷ rest

unfoldable pub after_name : List ℕ → List ℕ
after_name [] = []
after_name (c ∷ cs) = let rest = after_name cs in if c == slash then c ∷ cs else rest

unfoldable pub is_dot : List ℕ → Bool
is_dot name = length name == 1 && get_or name 0 0 == dot

unfoldable pub is_dot_dot : List ℕ → Bool
is_dot_dot name = length name == 2 && get_or name 0 0 == dot && get_or name 1 0 == dot

-- One round of the loop at a component.
unfoldable pub absorb_component : (capacity : ℕ) (name : List ℕ) → Output → Bool × Output
absorb_component capacity name o =
    if is_dot name
    then (true, o)
    else if is_dot_dot name
    then (true, pop_component o)
    else push_component capacity name o

-- The rounds of the loop, at most `fuel` of them; `none` when they are not enough.
unfoldable pub absorb_from : (fuel capacity : ℕ) (cursor : List ℕ) → Output → Option (Bool × Output)
absorb_from fuel capacity [] o = some (true, o)
absorb_from zero capacity (c ∷ cs) o = none
absorb_from (suc fuel) capacity (c ∷ cs) o =
    let r = absorb_component capacity (name_of (c ∷ cs)) o in
    let rest = absorb_from fuel capacity (skip_slashes (after_name (c ∷ cs))) r.1 in
    if not r.0 then some (false, r.1) else rest

unfoldable pub absorb_path : (capacity : ℕ) (path : List ℕ) → Output → Option (Bool × Output)
absorb_path capacity path o = absorb_from (length path) capacity (skip_slashes path) o

-- `out[0] = '/'; out[1] = '\0';` and the initial values of the locals; `starts` is not initialised.
abbrev pub initial : (out starts : List ℕ) → Output
initial out starts = record { out = set (set out 0 slash) 1 0; pos = 1; starts = starts; count = 0 }

abbrev pub finish : Bool × Output → Bool × List ℕ
finish (ok, o) = if ok then (true, set o.out o.pos 0) else (false, o.out)

abbrev pub finish_all : Option (Bool × Output) → Option (Bool × List ℕ)
finish_all none = none
finish_all (some r) = some (finish r)

-- The input is absorbed after the working directory, if that was.
abbrev pub absorb_input :
    (capacity : ℕ) (input : List ℕ) → Option (Bool × Output) → Option (Bool × List ℕ)
absorb_input capacity input none = none
absorb_input capacity input (some (false, o)) = some (false, o.out)
absorb_input capacity input (some (true, o)) = finish_all (absorb_path capacity input o)

-- The result and the buffer. `out` and `starts` are the buffers as they are at the call.
unfoldable pub path_normalize :
    (cwd input : List ℕ) (capacity : ℕ) (out starts : List ℕ) → Option (Bool × List ℕ)
path_normalize cwd input capacity out starts =
    if ltb capacity 2
    then some (false, out)
    else absorb_input capacity input (
        if get_or input 0 0 == slash
        then some (true, initial out starts)
        else absorb_path capacity cwd (initial out starts))
