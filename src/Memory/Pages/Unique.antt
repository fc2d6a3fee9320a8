-- ===== src/Memory/Pages/Unique.antt =====
-- The set of free addresses determines the table.
use funny_os.Common.{ℕ, ◌+◌, ◌≤◌, ◌≡◌, refl, sym, ap₂, subst, ◌↔◌, inl, inr, List, [], ◌∷◌, arith}
use native.Mathlib.Decide.{dec_lt}
use funny_os.Memory.Pages.{FreeRange}
use funny_os.Memory.Pages.Ranges.{limit_of, IsFree, Rises, IsOrdered}

IsFree-ge : (a lo : ℕ) (rs : List FreeRange) → Rises lo rs → IsFree a rs → lo ≤ a
IsFree-ge a lo [] v f = absurd f
IsFree-ge a lo (r ∷ rs) v (inl f) = omega arith
IsFree-ge a lo (r ∷ rs) v (inr f) = omega (arith, IsFree-ge a (limit_of r + 1) rs v.2 f)

-- The first free address of a table, and the first address past its first range.
base_least :
    (a lo : ℕ) (r : FreeRange) (rs : List FreeRange)
    → Rises lo (r ∷ rs)
    → IsFree a (r ∷ rs)
    → r.base ≤ a
base_least a lo r rs v (inl f) = f.0
base_least a lo r rs v (inr f) = omega (arith, IsFree-ge a (limit_of r + 1) rs v.2 f)

limit_not-IsFree :
    (lo : ℕ) (r : FreeRange) (rs : List FreeRange)
    → Rises lo (r ∷ rs)
    → ¬ IsFree (limit_of r) (r ∷ rs)
limit_not-IsFree lo r rs v (inl f) = absurd (omega arith)
limit_not-IsFree lo r rs v (inr f) =
    absurd (omega (arith, IsFree-ge (limit_of r) (limit_of r + 1) rs v.2 f))

module _ (lo : ℕ) (x : FreeRange) (xs : List FreeRange) (y : FreeRange) (ys : List FreeRange)
    (v : Rises lo (x ∷ xs)) (w : Rises lo (y ∷ ys))
    (same : (a : ℕ) → IsFree a (x ∷ xs) → IsFree a (y ∷ ys)) where
  base_le : y.base ≤ x.base
  base_le = base_least x.base lo y ys w (same x.base (inl (omega arith)))

  -- With the same base, the first range is no shorter.
  limit_le : x.base ≡ y.base → limit_of x ≤ limit_of y
  limit_le e = elim (dec_lt (limit_of y) (limit_of x)) [
    | yes h ↦ absurd (limit_not-IsFree lo y ys w (same (limit_of y) (inl (omega arith))))
    | no h ↦ omega arith
  ]

  rest-IsFree : limit_of x ≡ limit_of y → (a : ℕ) → IsFree a xs → IsFree a ys
  rest-IsFree e a f = elim (same a (inr f)) [
    | inl h ↦ absurd (omega (arith, IsFree-ge a (limit_of x + 1) xs v.2 f))
    | inr h ↦ h
  ]

range_eq : (x y : FreeRange) → x.base ≡ y.base → limit_of x ≡ limit_of y → x ≡ y
range_eq x y p q = let n : x.page_count ≡ y.page_count = omega arith in ground arith

empty_of_none : (lo : ℕ) (rs : List FreeRange) → Rises lo rs → ((a : ℕ) → ¬ IsFree a rs) → rs ≡ []
empty_of_none lo [] v h = refl
empty_of_none lo (r ∷ rs) v h = absurd (h r.base (inl (omega arith)))

Rises-unique :
    (lo : ℕ) (xs ys : List FreeRange)
    → Rises lo xs
    → Rises lo ys
    → ((a : ℕ) → IsFree a xs ↔ IsFree a ys)
    → xs ≡ ys
Rises-unique lo [] ys v w same = sym (empty_of_none lo ys w (λ a. (same a).1))
Rises-unique lo (x ∷ xs) [] v w same = empty_of_none lo (x ∷ xs) v (λ a. (same a).0)
Rises-unique lo (x ∷ xs) (y ∷ ys) v w same =
    let there : ((a : ℕ) → IsFree a (x ∷ xs) → IsFree a (y ∷ ys)) = λ a. (same a).0 in
    let back : ((a : ℕ) → IsFree a (y ∷ ys) → IsFree a (x ∷ xs)) = λ a. (same a).1 in
    let p : x.base ≡ y.base =
      omega (arith, base_le lo x xs y ys v w there, base_le lo y ys x xs w v back) in
    let q : limit_of x ≡ limit_of y =
      omega (arith, limit_le lo x xs y ys v w there p, limit_le lo y ys x xs w v back (sym p)) in
    ap₂ ◌∷◌ (range_eq x y p q) (
      Rises-unique (limit_of x + 1) xs ys v.2 (subst (λ m. Rises (m + 1) ys) (sym q) w.2)
        λ a. (rest-IsFree lo x xs y ys v w there q a, rest-IsFree lo y ys x xs w v back (sym q) a))

-- Two tables in order that make the same addresses free are equal.
pub IsOrdered-unique :
    (xs ys : List FreeRange)
    → IsOrdered xs
    → IsOrdered ys
    → ((a : ℕ) → IsFree a xs ↔ IsFree a ys)
    → xs ≡ ys
IsOrdered-unique = Rises-unique 0
