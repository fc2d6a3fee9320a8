-- ===== src/Path/Answer.antt =====
-- `path_normalize` as a whole.
use funny_os.Common.{
  ℕ, ◌≤◌, ◌<◌, ◌^◌, ◌≡◌, refl, ◌∙◌, true, false, List, [], Bool, length, get_or, take, set, arith,
  ltb, ◌==◌, inl, inr, Bool-cases, Option, some, if◌then◌else◌, take-set_above, get_or-set_self,
}
use funny_os.Path.{
  Output, path_capacity, slash, initial, finish_all, absorb_input, absorb_path, path_normalize,
}
use funny_os.Path.Resolve.{components, resolve, text}
use funny_os.Path.Normal.{Matches, absorb_path-Matches, initial-Holds}

-- A path that starts with a separator is resolved from the root, another one from `cwd`.
abbrev pub resolve_on :
    (capacity : ℕ) (names : List (List ℕ)) → Bool × List (List ℕ) → Bool × List (List ℕ)
resolve_on capacity names (false, st) = (false, st)
resolve_on capacity names (true, st) = resolve capacity names st

abbrev pub resolve_input : (capacity : ℕ) (cwd input : List ℕ) → Bool × List (List ℕ)
resolve_input capacity cwd input =
    if get_or input 0 0 == slash
    then resolve capacity (components input) []
    else resolve_on capacity (components input) (resolve capacity (components cwd) [])

-- The call's answer is the abstract one: on success the buffer has the text and its NUL.
abbrev pub Writes : (capacity : ℕ) → Bool × List (List ℕ) → Option (Bool × List ℕ) → Type 0
Writes capacity (false, st) r = (out : List ℕ) × (r ≡ some (false, out))
Writes capacity (true, st) r =
    (out : List ℕ) × (r ≡ some (true, out))
    × (take (length (text st)) out ≡ text st)
    × (get_or out (length (text st)) 1 ≡ 0)
    × (length (text st) < capacity)

finish_all-Writes :
    (capacity : ℕ) (a : Bool × List (List ℕ)) (r : Option (Bool × Output))
    → Matches capacity a r
    → Writes capacity a (finish_all r)
finish_all-Writes capacity (false, st) r (o, e) = rw e (o.out, refl)
finish_all-Writes capacity (true, st) r (o, e, h, shallow) = rw e (
  set o.out o.pos 0,
  refl,
  take-set_above o.out (length (text st)) o.pos 0 (omega (arith, h.at_end)) ∙ h.written,
  rw h.at_end (get_or-set_self o.out (length (text st)) 0 1 (omega (arith, h.fits, h.size))),
  h.fits,
)

absorb_input-Writes :
    (capacity : ℕ) (input : List ℕ) (a : Bool × List (List ℕ)) (r : Option (Bool × Output))
    → 2 ≤ capacity
    → capacity ≤ 2 ^ 31
    → length input < 2 ^ 31
    → Matches capacity a r
    → Writes capacity (resolve_on capacity (components input) a) (absorb_input capacity input r)
absorb_input-Writes capacity input (false, st) r two small short (o, e) = rw e (o.out, refl)
absorb_input-Writes capacity input (true, st) r two small short (o, e, h, shallow) = rw e (
    finish_all-Writes capacity (resolve capacity (components input) st)
      (absorb_path capacity input o)
      (absorb_path-Matches capacity input st o two small short shallow h))

-- For a buffer of at least two bytes and strings of less than 2^31, `path_normalize` returns, and
-- answers as the abstract walk over the components of its paths does: false if a component is one
-- too many or does not fit, and otherwise true with the text of the stack of components in the
-- buffer, a NUL after it, in less than `capacity` bytes.
pub path_normalize-Writes :
    (cwd input : List ℕ) (capacity : ℕ) (out starts : List ℕ)
    → 2 ≤ capacity
    → capacity ≤ 2 ^ 31
    → length cwd < 2 ^ 31
    → length input < 2 ^ 31
    → length out ≡ capacity
    → length starts ≡ path_capacity
    → Writes capacity
        (resolve_input capacity cwd input)
        (path_normalize cwd input capacity out starts)
unfolding path_normalize
path_normalize-Writes cwd input capacity out starts two small short_cwd short size starts_size =
    let enough : ltb capacity 2 ≡ false = ground arith in
    let h = initial-Holds capacity out starts two size starts_size in
    let o = initial out starts in
    rw enough (elim (Bool-cases (get_or input 0 0 == slash)) [
      | inl t ↦ rw t (
          absorb_input-Writes capacity input (true, []) (some (true, o)) two small short
            (o, refl, h, omega arith))
      | inr t ↦ rw t (
          absorb_input-Writes capacity input (resolve capacity (components cwd) [])
            (absorb_path capacity cwd o) two small short
            (absorb_path-Matches capacity cwd [] o two small short_cwd (omega arith) h))
    ])
