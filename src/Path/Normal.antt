-- ===== src/Path/Normal.antt =====
-- `path_normalize` writes the text of the stack that the components of its paths resolve to.
use funny_os.Common.{
  ℕ, zero, suc, ◌≤◌, ◌<◌, ◌^◌, ◌≡◌, refl, sym, subst, ◌∙◌, true, false, ◌||◌, List, [], ◌∷◌, map,
  Bool, length, arith, leb, inl, inr, Bool-cases, Option, some, subst₂, ap,
}
use funny_os.KString.{k_toupper}
use funny_os.Path.{
  Output, path_capacity, skip_slashes, name_of, after_name, is_dot, is_dot_dot, initial,
  absorb_component, absorb_from, absorb_path, push_component, pop_component,
}
use funny_os.Path.Resolve.{components, resolve, body, parent}
use funny_os.Path.Buffer.{Holds, pop_component-Holds}
use funny_os.Path.Push.{push_component-Pushed}
use funny_os.Path.Split.{
  IsClean, skip_slashes-IsClean, length-skip_slashes, length-name_of, components-skip_slashes,
  components_step, name_of_nonempty, rest_shorter,
}

-- The loop's result and the abstract one agree.
abbrev pub Matches : (capacity : ℕ) → Bool × List (List ℕ) → Option (Bool × Output) → Type 0
Matches capacity (false, st) r = (o : Output) × (r ≡ some (false, o))
Matches capacity (true, st) r =
    (o : Output) × (r ≡ some (true, o)) × Holds capacity st o × (length st ≤ path_capacity)

parent_shallow :
    (st : List (List ℕ)) → length st ≤ path_capacity → length (parent st) ≤ path_capacity
parent_shallow [] h = h
parent_shallow (c ∷ st) h = omega arith

-- One component of the abstract walk.
module _ (capacity : ℕ) (c : List ℕ) (cs st : List (List ℕ)) where
  resolve_dot : is_dot c ≡ true → resolve capacity (c ∷ cs) st ≡ resolve capacity cs st
  resolve_dot t = rw t refl

  resolve_up :
      is_dot c ≡ false
      → is_dot_dot c ≡ true
      → resolve capacity (c ∷ cs) st ≡ resolve capacity cs (parent st)
  resolve_up t u = rw (t, u) refl

  resolve_full :
      is_dot c ≡ false
      → is_dot_dot c ≡ false
      → (leb path_capacity (length st) || leb capacity (length (body (c ∷ st)))) ≡ true
      → resolve capacity (c ∷ cs) st ≡ (false, st)
  resolve_full t u v = rw (t, u, v) refl

  resolve_down :
      is_dot c ≡ false
      → is_dot_dot c ≡ false
      → (leb path_capacity (length st) || leb capacity (length (body (c ∷ st)))) ≡ false
      → resolve capacity (c ∷ cs) st ≡ resolve capacity cs (map k_toupper c ∷ st)
  resolve_down t u v = rw (t, u, v) refl

-- The loop ends at a component that is refused, and goes on after one that is absorbed.
module _ (fuel capacity c : ℕ) (cs : List ℕ) (o : Output) where
  absorb_stop :
      (absorb_component capacity (name_of (c ∷ cs)) o).0 ≡ false
      → (o' : Output) × (absorb_from (suc fuel) capacity (c ∷ cs) o ≡ some (false, o'))
  unfolding absorb_from
  absorb_stop t = ((absorb_component capacity (name_of (c ∷ cs)) o).1, rw t refl)

  absorb_next :
      (o' : Output)
      → absorb_component capacity (name_of (c ∷ cs)) o ≡ (true, o')
      → absorb_from (suc fuel) capacity (c ∷ cs) o
        ≡ absorb_from fuel capacity (skip_slashes (after_name (c ∷ cs))) o'
  unfolding absorb_from
  absorb_next o' t = rw t refl

module _ (capacity : ℕ) (name : List ℕ) (o : Output) where
  absorb_dot : is_dot name ≡ true → absorb_component capacity name o ≡ (true, o)
  unfolding absorb_component
  absorb_dot t = rw t refl

  absorb_up :
      is_dot name ≡ false
      → is_dot_dot name ≡ true
      → absorb_component capacity name o ≡ (true, pop_component o)
  unfolding absorb_component
  absorb_up t u = rw (t, u) refl

  absorb_push :
      is_dot name ≡ false
      → is_dot_dot name ≡ false
      → absorb_component capacity name o ≡ push_component capacity name o
  unfolding absorb_component
  absorb_push t u = rw (t, u) refl

absorb_from-Matches :
    (fuel capacity : ℕ) (cursor : List ℕ) (st : List (List ℕ)) (o : Output)
    → 2 ≤ capacity
    → capacity ≤ 2 ^ 31
    → length cursor < 2 ^ 31
    → length cursor ≤ fuel
    → IsClean cursor
    → length st ≤ path_capacity
    → Holds capacity st o
    → Matches capacity
        (resolve capacity (components cursor) st)
        (absorb_from fuel capacity cursor o)
absorb_from-Matches fuel capacity [] st o two small short enough clean shallow h =
    unfold absorb_from in (o, refl, h, shallow)
absorb_from-Matches zero capacity (c ∷ cs) st o two small short enough clean shallow h =
    absurd (omega arith)
absorb_from-Matches (suc fuel) capacity (c ∷ cs) st o two small short enough clean shallow h =
    let name = name_of (c ∷ cs) in
    let rest = skip_slashes (after_name (c ∷ cs)) in
    let fewer = rest_shorter c cs clean in
    let go : (st' : List (List ℕ)) (o' : Output)
        → length st' ≤ path_capacity
        → Holds capacity st' o'
        → Matches capacity (resolve capacity (components rest) st')
            (absorb_from fuel capacity rest o') =
      λ st' o'.
        absorb_from-Matches fuel capacity rest st' o' two small (omega arith) (omega arith)
          (skip_slashes-IsClean (after_name (c ∷ cs))) in
    let names = components rest in
    subst
      (λ ns. Matches capacity (resolve capacity ns st) (absorb_from (suc fuel) capacity (c ∷ cs) o))
      (sym (components_step c cs clean))
      (elim (Bool-cases (is_dot name)) [
        | inl t ↦
            subst₂ (Matches capacity) (sym (resolve_dot capacity name names st t))
              (sym (absorb_next fuel capacity c cs o o (absorb_dot capacity name o t)))
              (go st o shallow h)
        | inr t ↦ elim (Bool-cases (is_dot_dot name)) [
          | inl u ↦
              subst₂ (Matches capacity) (sym (resolve_up capacity name names st t u))
                (sym (
                  absorb_next fuel capacity c cs o (pop_component o)
                    (absorb_up capacity name o t u)))
                (go (parent st) (pop_component o) (parent_shallow st shallow)
                  (pop_component-Holds capacity st o two h))
          | inr u ↦
              elim (push_component-Pushed capacity name st o small
                (omega (arith, length-name_of (c ∷ cs))) (name_of_nonempty c cs clean) shallow h) [
                  | inl p ↦
                      subst (λ r. Matches capacity r (absorb_from (suc fuel) capacity (c ∷ cs) o))
                        (sym (resolve_full capacity name names st t u p.1))
                        (absorb_stop fuel capacity c cs o
                          (ap (λ r. r.0) (absorb_push capacity name o t u) ∙ p.0))
                  | inr p ↦
                      let pushed = (push_component capacity name o).1 in
                      subst₂ (Matches capacity) (sym (resolve_down capacity name names st t u p.1))
                        (sym (
                          absorb_next fuel capacity c cs o pushed
                            (absorb_push capacity name o t u ∙ ap (λ b. (b, pushed)) p.0)))
                        (go (map k_toupper name ∷ st) pushed (ground (arith, p.1)) p.2)
                ]
        ]
      ])

pub initial-Holds :
    (capacity : ℕ) (out starts : List ℕ)
    → 2 ≤ capacity
    → length out ≡ capacity
    → length starts ≡ path_capacity
    → Holds capacity [] (initial out starts)
initial-Holds capacity (a ∷ b ∷ out) starts two size starts_size = record {
  size = size;
  starts_size = starts_size;
  written = refl;
  at_end = refl;
  fits = omega arith;
  ended = refl;
  depth = refl;
  named = tt;
  starts_at = tt;
}
initial-Holds capacity (a ∷ []) starts two size starts_size = absurd (omega arith)
initial-Holds capacity [] starts two size starts_size = absurd (omega arith)

pub absorb_path-Matches :
    (capacity : ℕ) (path : List ℕ) (st : List (List ℕ)) (o : Output)
    → 2 ≤ capacity
    → capacity ≤ 2 ^ 31
    → length path < 2 ^ 31
    → length st ≤ path_capacity
    → Holds capacity st o
    → Matches capacity (resolve capacity (components path) st) (absorb_path capacity path o)
unfolding absorb_path
absorb_path-Matches capacity path st o two small short shallow h =
    subst
      (λ names.
        Matches capacity (resolve capacity names st)
          (absorb_from (length path) capacity (skip_slashes path) o))
      (components-skip_slashes path)
      (absorb_from-Matches (length path) capacity (skip_slashes path) st o two small
        (omega (arith, length-skip_slashes path)) (length-skip_slashes path)
        (skip_slashes-IsClean path) shallow h)
