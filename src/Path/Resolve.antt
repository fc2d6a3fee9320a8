-- ===== src/Path/Resolve.antt =====
-- What a path means: its components, and the stack of components that they resolve to.
use funny_os.Common.{
  ℕ, ◌+◌, ◌≤◌, ◌<◌, ◌≡◌, Bool, true, false, ◌||◌, List, [], ◌∷◌, ◌++◌, map, length, leb, ◌==◌,
  if◌then◌else◌, arith, length-append, All, refl,
}
use funny_os.KString.{k_toupper}
use funny_os.Path.{path_capacity, slash, is_dot, is_dot_dot}

-- The components of a path: what stands between separators and is not empty.
abbrev pub closed : List ℕ → List (List ℕ) → List (List ℕ)
closed [] rest = rest
closed (c ∷ cs) rest = (c ∷ cs) ∷ rest

abbrev pub gather : (name path : List ℕ) → List (List ℕ)
gather name [] = closed name []
gather name (c ∷ cs) =
    let split = gather [] cs in
    let longer = gather (name ++ (c ∷ [])) cs in if c == slash then closed name split else longer

abbrev pub components : List ℕ → List (List ℕ)
components path = gather [] path

-- A stack of components, the last one first, as text.
abbrev pub body : List (List ℕ) → List ℕ
body [] = []
body (c ∷ st) = body st ++ (slash ∷ c)

abbrev pub text : List (List ℕ) → List ℕ
text [] = slash ∷ []
text (c ∷ st) = body (c ∷ st)

abbrev pub parent : List (List ℕ) → List (List ℕ)
parent [] = []
parent (c ∷ st) = st

-- "." stays, ".." drops the last component, and any other component is added in upper case, unless
-- there are too many or the text and its NUL would not fit.
abbrev pub resolve : (capacity : ℕ) (names st : List (List ℕ)) → Bool × List (List ℕ)
resolve capacity [] st = (true, st)
resolve capacity (c ∷ cs) st =
    let stay = resolve capacity cs st in
    let up = resolve capacity cs (parent st) in
    let down = resolve capacity cs (map k_toupper c ∷ st) in
    if is_dot c
    then stay
    else if is_dot_dot c
    then up
    else if leb path_capacity (length st) || leb capacity (length (body (c ∷ st)))
    then (false, st)
    else down

pub length-upper : (c : List ℕ) → length (map k_toupper c) ≡ length c
length-upper [] = refl
length-upper (x ∷ xs) = omega (arith, length-upper xs)

-- A stack of components that are not empty has a text of at least two bytes per component.
pub body_long :
    (st : List (List ℕ)) → All (λ c. 0 < length c) st → length st + length st ≤ length (body st)
body_long [] h = omega arith
body_long (c ∷ st) h = omega (arith, body_long st h.1, length-append (body st) (slash ∷ c), h.0)
