-- ===== src/Path/Buffer.antt =====
-- The buffer that `path_normalize` writes holds the text of a stack of components.
use funny_os.Common.{
  ℕ, suc, ◌+◌, ◌-◌, ◌≤◌, ◌<◌, ◌≡◌, refl, sym, ap, subst, ◌∙◌, false, List, [], ◌∷◌, ◌++◌, map,
  length, get_or, set, take, arith, All, ◌==◌, length-append, length-set, ltb, if◌then◌else◌,
  get_or-set_self, get_or-set_ne, take-set_end, take-set_above, take-take, take-length-append,
  append_assoc, append-nil, u32,
}
use funny_os.KString.{k_toupper}
use funny_os.Path.{
  Output, path_capacity, slash, put, terminate, put_upper, put_component, pop_component,
}
use funny_os.Path.Resolve.{body, text, parent, length-upper, body_long}

-- `starts` has where each component of the stack begins.
abbrev pub Starts : List (List ℕ) → List ℕ → Type 0
Starts [] starts = Unit
Starts (c ∷ st) starts = (get_or starts (length st) 0 ≡ length (body st) + 1) × Starts st starts

pub record Holds (capacity : ℕ) (st : List (List ℕ)) (o : Output) : Type 0 where
  pub size : length o.out ≡ capacity
  pub starts_size : length o.starts ≡ path_capacity
  pub written : take (length (text st)) o.out ≡ text st
  pub at_end : o.pos ≡ length (text st)
  pub fits : length (text st) < capacity
  pub ended : get_or o.out (length (text st)) 0 ≡ 0
  pub depth : o.count ≡ length st
  pub named : All (λ c. 0 < length c) st
  pub starts_at : Starts st o.starts

Starts-set :
    (st : List (List ℕ)) (starts : List ℕ) (i v : ℕ)
    → length st ≤ i
    → Starts st starts
    → Starts st (set starts i v)
Starts-set [] starts i v h s = tt
Starts-set (c ∷ st) starts i v h s = (
  get_or-set_ne starts i (length st) v 0 (λ e. absurd (omega (arith, e))) ∙ s.0,
  Starts-set st starts i v (omega arith) s.1,
)

-- The buffer's first bytes are `t`, and the next one is written after them; `base` is as before.
pub record Prefixed (t : List ℕ) (base o : Output) : Type 0 where
  pub size : length o.out ≡ length base.out
  pub written : take (length t) o.out ≡ t
  pub at_end : o.pos ≡ length t
  pub starts_same : o.starts ≡ base.starts
  pub count_same : o.count ≡ base.count

set_end :
    (xs t : List ℕ) (c : ℕ)
    → length t < length xs
    → take (length t) xs ≡ t
    → take (length (t ++ (c ∷ []))) (set xs (length t) c) ≡ t ++ (c ∷ [])
set_end xs t c room h =
    let n : length (t ++ (c ∷ [])) ≡ suc (length t) = omega (arith, length-append t (c ∷ [])) in
    ap (λ k. take k (set xs (length t) c)) n
    ∙ take-set_end xs (length t) c room
    ∙ ap (λ ys. ys ++ (c ∷ [])) h

pub put-Prefixed :
    (c : ℕ) (t : List ℕ) (base o : Output)
    → length base.out < u32
    → length t < length base.out
    → Prefixed t base o
    → Prefixed (t ++ (c ∷ [])) base (put c o)
put-Prefixed c t base o small room p = record {
  size = length-set o.out o.pos c ∙ p.size;
  written = rw p.at_end (set_end o.out t c (omega (arith, p.size)) p.written);
  at_end = omega (arith, p.at_end, length-append t (c ∷ []));
  starts_same = p.starts_same;
  count_same = p.count_same;
}

put_upper-Prefixed :
    (cs t : List ℕ) (base o : Output)
    → length base.out < u32
    → length t + length cs < length base.out
    → Prefixed t base o
    → Prefixed (t ++ map k_toupper cs) base (put_upper cs o)
unfolding put_upper
put_upper-Prefixed [] t base o small room p = subst (λ s. Prefixed s base o) (sym (append-nil t)) p
put_upper-Prefixed (c ∷ cs) t base o small room p =
    let t' = t ++ (k_toupper c ∷ []) in
    let o' = put (k_toupper c) o in
    let one = put-Prefixed (k_toupper c) t base o small (omega arith) p in
    let room' : length t' + length cs < length base.out =
      omega (arith, length-append t (k_toupper c ∷ [])) in
    subst (λ s. Prefixed s base (put_upper cs o'))
      (append_assoc t (k_toupper c ∷ []) (map k_toupper cs))
      (put_upper-Prefixed cs t' base o' small room' one)

Starts-pushed :
    {capacity : ℕ} (up : List ℕ) (st : List (List ℕ)) (o base : Output)
    → length st < path_capacity
    → Holds capacity st base
    → Prefixed (body st ++ (slash ∷ [])) base o
    → Starts (up ∷ st) (set o.starts o.count o.pos)
Starts-pushed up st o base shallow h p =
    let same : o.starts ≡ base.starts = p.starts_same in
    let n : o.count ≡ length st = omega (arith, p.count_same, h.depth) in
    let e : o.pos ≡ length (body st) + 1 =
      omega (arith, p.at_end, length-append (body st) (slash ∷ [])) in
    rw (same, n, e)
      (
        get_or-set_self base.starts (length st) (length (body st) + 1) 0
            (omega (arith, h.starts_size)),
        Starts-set st base.starts (length st) (length (body st) + 1) (omega arith) h.starts_at,
      )

-- The text ends within a pushed component's buffer, and the NUL follows it.
pub put_component-Holds :
    (capacity : ℕ) (name : List ℕ) (st : List (List ℕ)) (o base : Output)
    → capacity < u32
    → 0 < length name
    → length st < path_capacity
    → length (body (name ∷ st)) < capacity
    → Holds capacity st base
    → Prefixed (body st ++ (slash ∷ [])) base o
    → Holds capacity (map k_toupper name ∷ st) (put_component name o)
put_component-Holds capacity name st o base small nonempty shallow room h p =
    let up = map k_toupper name in
    let o1 = record o { starts = set o.starts o.count o.pos } in
    let base1 = record base { starts = set o.starts o.count o.pos } in
    let p1 : Prefixed (body st ++ (slash ∷ [])) base1 o1 = record {
      size = p.size;
      written = p.written;
      at_end = p.at_end;
      starts_same = refl;
      count_same = p.count_same;
    } in
    let l1 = length-append (body st) (slash ∷ []) in
    let l2 = length-append (body st) (slash ∷ name) in
    let l3 = length-append (body st) (slash ∷ up) in
    let l4 = length-upper name in
    let q =
      put_upper-Prefixed name (body st ++ (slash ∷ [])) base1 o1 (omega (arith, h.size))
        (omega (arith, h.size, l1, l2)) p1 in
    let q' =
      subst (λ s. Prefixed s base1 (put_upper name o1)) (append_assoc (body st) (slash ∷ []) up)
        q in
    record {
      size = length-set _ _ 0 ∙ q'.size ∙ h.size;
      starts_size =
          ap length q'.starts_same
          ∙ length-set o.starts o.count o.pos
          ∙ ap length p.starts_same
          ∙ h.starts_size;
      written = take-set_above _ _ _ 0 (omega (arith, q'.at_end)) ∙ q'.written;
      at_end = q'.at_end;
      fits = omega (arith, l1, l2, l3, l4);
      ended = rw q'.at_end (
          get_or-set_self (put_upper name o1).out (length (body st ++ (slash ∷ up))) 0 0
            (omega (arith, q'.size, h.size, l1, l2, l3, l4)));
      depth = omega (arith, q'.count_same, p.count_same, h.depth);
      named = (omega (arith, l1, l2, l3, l4), h.named);
      starts_at =
          subst (Starts (up ∷ st)) (sym q'.starts_same) (Starts-pushed up st o base shallow h p);
    }

pop_component_lem :
    (o : Output) (n k p : ℕ)
    → o.count ≡ suc n
    → get_or o.starts n 0 ≡ k + 1
    → (if ltb 1 (k + 1) then k + 1 - 1 else 1) ≡ p
    → pop_component o ≡ terminate (record o { pos = p; count = n })
unfolding pop_component
pop_component_lem o n k p count at new_pos =
    let e : suc n - 1 ≡ n = omega arith in
    let live : (suc n == 0) ≡ false = ground arith in rw (count, live, e, at, new_pos) refl

new_pos :
    (st : List (List ℕ))
    → All (λ c. 0 < length c) st
    → (if ltb 1 (length (body st) + 1) then length (body st) + 1 - 1 else 1) ≡ length (text st)
new_pos [] h = refl
new_pos (c ∷ st) h = ground (arith, body_long (c ∷ st) h)

-- The text of a stack starts with that of its parent.
text-parent :
    (c : List ℕ) (st : List (List ℕ))
    → (length (text st) ≤ length (body (c ∷ st)))
      × (take (length (text st)) (body (c ∷ st)) ≡ text st)
text-parent c [] = (omega arith, refl)
text-parent c (d ∷ st) = (
  omega (arith, length-append (body (d ∷ st)) (slash ∷ c)),
  take-length-append (body (d ∷ st)) (slash ∷ c),
)

pub pop_component-Holds :
    (capacity : ℕ) (st : List (List ℕ)) (o : Output)
    → 2 ≤ capacity
    → Holds capacity st o
    → Holds capacity (parent st) (pop_component o)
unfolding pop_component
pop_component-Holds capacity [] o two h = rw h.depth (record {
  size = length-set o.out 1 0 ∙ h.size;
  starts_size = h.starts_size;
  written = take-set_above o.out 1 1 0 (omega arith) ∙ h.written;
  at_end = refl;
  fits = h.fits;
  ended = get_or-set_self o.out 1 0 0 (omega (arith, h.size));
  depth = refl;
  named = tt;
  starts_at = tt;
})
pop_component-Holds capacity (c ∷ st) o two h =
    let len = length-append (body st) (slash ∷ c) in
    let v = text-parent c st in
    let e =
      pop_component_lem o (length st) (length (body st)) (length (text st)) h.depth h.starts_at.0
        (new_pos st h.named.1) in
    subst (Holds capacity st) (sym e) (record {
      size = length-set o.out (length (text st)) 0 ∙ h.size;
      starts_size = h.starts_size;
      written =
          take-set_above o.out (length (text st)) (length (text st)) 0 (omega arith)
          ∙ sym (take-take _ (length (body (c ∷ st))) o.out v.0)
          ∙ ap (take (length (text st))) h.written
          ∙ v.1;
      at_end = refl;
      fits = omega (arith, h.fits, v.0);
      ended = get_or-set_self o.out (length (text st)) 0 0 (omega (arith, h.fits, v.0, h.size));
      depth = refl;
      named = h.named.1;
      starts_at = h.starts_at.1;
    })
