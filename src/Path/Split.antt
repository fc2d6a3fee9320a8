-- ===== src/Path/Split.antt =====
-- The loop of `absorb_path` meets the components of the path, one in each round.
use funny_os.Common.{
  ℕ, ◌≤◌, ◌<◌, ◌≡◌, refl, sym, ap, ap₂, ◌∙◌, true, false, List, [], ◌∷◌, ◌++◌, length, arith, ◌==◌,
  inl, inr, Bool-cases, append-nil, append_assoc,
}
use funny_os.Path.{slash, skip_slashes, name_of, after_name}
use funny_os.Path.Resolve.{components, gather, closed}

-- No separator stands first.
abbrev pub IsClean : List ℕ → Type 0
IsClean [] = Unit
IsClean (c ∷ cs) = (c == slash) ≡ false

pub skip_slashes-IsClean : (s : List ℕ) → IsClean (skip_slashes s)
unfolding skip_slashes
skip_slashes-IsClean [] = tt
skip_slashes-IsClean (c ∷ cs) = elim (Bool-cases (c == slash)) [
  | inl t ↦ rw t (skip_slashes-IsClean cs)
  | inr t ↦ rw t t
]

pub length-skip_slashes : (s : List ℕ) → length (skip_slashes s) ≤ length s
unfolding skip_slashes
length-skip_slashes [] = omega arith
length-skip_slashes (c ∷ cs) = ground (arith, length-skip_slashes cs)

pub length-after_name : (s : List ℕ) → length (after_name s) ≤ length s
unfolding after_name
length-after_name [] = omega arith
length-after_name (c ∷ cs) = ground (arith, length-after_name cs)

pub length-name_of : (s : List ℕ) → length (name_of s) ≤ length s
unfolding name_of
length-name_of [] = omega arith
length-name_of (c ∷ cs) = ground (arith, length-name_of cs)

-- One step of the scans, at a separator and at another byte.
module _ (c : ℕ) (cs : List ℕ) (t : (c == slash) ≡ true) where
  gather_closes : (name : List ℕ) → gather name (c ∷ cs) ≡ closed name (gather [] cs)
  gather_closes name = rw t refl

  name_of_ends : name_of (c ∷ cs) ≡ []
  unfolding name_of
  name_of_ends = rw t refl

  after_name_ends : after_name (c ∷ cs) ≡ c ∷ cs
  unfolding after_name
  after_name_ends = rw t refl

  skip_slashes_skips : skip_slashes (c ∷ cs) ≡ skip_slashes cs
  unfolding skip_slashes
  skip_slashes_skips = rw t refl

module _ (c : ℕ) (cs : List ℕ) (t : (c == slash) ≡ false) where
  gather_grows : (name : List ℕ) → gather name (c ∷ cs) ≡ gather (name ++ (c ∷ [])) cs
  gather_grows name = rw t refl

  name_of_grows : name_of (c ∷ cs) ≡ c ∷ name_of cs
  unfolding name_of
  name_of_grows = rw t refl

  after_name_goes : after_name (c ∷ cs) ≡ after_name cs
  unfolding after_name
  after_name_goes = rw t refl

  skip_slashes_stays : skip_slashes (c ∷ cs) ≡ c ∷ cs
  unfolding skip_slashes
  skip_slashes_stays = rw t refl

pub components-skip_slashes : (s : List ℕ) → components (skip_slashes s) ≡ components s
components-skip_slashes [] = unfold skip_slashes in refl
components-skip_slashes (c ∷ cs) = elim (Bool-cases (c == slash)) [
  | inl t ↦
      ap components (skip_slashes_skips c cs t)
      ∙ components-skip_slashes cs
      ∙ sym (gather_closes c cs t [])
  | inr t ↦ ap components (skip_slashes_stays c cs t)
]

pub gather-name_of :
    (x : ℕ) (xs s : List ℕ)
    → gather (x ∷ xs) s ≡ ((x ∷ xs) ++ name_of s) ∷ components (after_name s)
gather-name_of x xs [] = unfold name_of after_name in ap (λ n. n ∷ []) (sym (append-nil (x ∷ xs)))
gather-name_of x xs (c ∷ cs) = elim (Bool-cases (c == slash)) [
  | inl t ↦
      gather_closes c cs t (x ∷ xs)
      ∙ ap₂ (λ n s. n ∷ s)
          (sym (append-nil (x ∷ xs)) ∙ ap (λ n. (x ∷ xs) ++ n) (sym (name_of_ends c cs t)))
          (sym (gather_closes c cs t []) ∙ ap components (sym (after_name_ends c cs t)))
  | inr t ↦
      gather_grows c cs t (x ∷ xs)
      ∙ gather-name_of x (xs ++ (c ∷ [])) cs
      ∙ ap₂ (λ n s. n ∷ s)
          (append_assoc (x ∷ xs) (c ∷ []) (name_of cs)
            ∙ ap (λ n. (x ∷ xs) ++ n) (sym (name_of_grows c cs t)))
          (ap components (sym (after_name_goes c cs t)))
]

components_first :
    (c : ℕ) (cs : List ℕ)
    → (c == slash) ≡ false
    → components (c ∷ cs) ≡ name_of (c ∷ cs) ∷ components (after_name (c ∷ cs))
components_first c cs t =
    gather_grows c cs t []
    ∙ gather-name_of c [] cs
    ∙ ap₂ (λ n s. n ∷ s) (sym (name_of_grows c cs t)) (ap components (sym (after_name_goes c cs t)))

pub components_step :
    (c : ℕ) (cs : List ℕ)
    → (c == slash) ≡ false
    → components (c ∷ cs) ≡ name_of (c ∷ cs) ∷ components (skip_slashes (after_name (c ∷ cs)))
components_step c cs t =
    components_first c cs t
    ∙ ap (λ rest. name_of (c ∷ cs) ∷ rest) (sym (components-skip_slashes (after_name (c ∷ cs))))

pub name_of_nonempty : (c : ℕ) (cs : List ℕ) → (c == slash) ≡ false → 0 < length (name_of (c ∷ cs))
unfolding name_of
name_of_nonempty c cs t = rw t (omega arith)

pub rest_shorter :
    (c : ℕ) (cs : List ℕ)
    → (c == slash) ≡ false
    → length (skip_slashes (after_name (c ∷ cs))) ≤ length cs
rest_shorter c cs t =
    rw (after_name_goes c cs t)
      (omega (arith, length-skip_slashes (after_name cs), length-after_name cs))
