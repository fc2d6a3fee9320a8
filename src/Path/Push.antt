-- ===== src/Path/Push.antt =====
-- `push_component` puts a component in upper case on the stack, exactly if it fits.
use funny_os.Common.{
  ℕ, ◌+◌, ◌≤◌, ◌<◌, ◌%◌, ◌≡◌, refl, true, false, ◌||◌, List, [], ◌∷◌, ◌++◌, map, length, arith, leb,
  ◌==◌, inl, inr, Bool-cases, Bool, length-append, u32, add32, ◌⊎◌, ◌^◌,
}
use funny_os.KString.{k_toupper}
use funny_os.Path.{Output, path_capacity, slash, put, push_after_slash, push_component}
use funny_os.Path.Resolve.{body, text, body_long}
use funny_os.Path.Buffer.{Holds, Prefixed, put-Prefixed, put_component-Holds}

-- What a push of a component that is not empty does.
abbrev pub Pushed : (capacity : ℕ) (name : List ℕ) (st : List (List ℕ)) → Bool × Output → Type 0
Pushed capacity name st r =
    ((r.0 ≡ false)
      × ((leb path_capacity (length st) || leb capacity (length (body (name ∷ st)))) ≡ true))
    ⊎ ((r.0 ≡ true)
        × ((leb path_capacity (length st) || leb capacity (length (body (name ∷ st)))) ≡ false)
        × Holds capacity (map k_toupper name ∷ st) r.1)

module _ (capacity : ℕ) (name : List ℕ) (st : List (List ℕ)) (base : Output)
    (small : capacity ≤ 2 ^ 31) (short : length name < 2 ^ 31) (nonempty : 0 < length name)
    (shallow : length st < path_capacity) (h : Holds capacity st base) where
  after_slash-Pushed :
      (o : Output)
      → Prefixed (body st ++ (slash ∷ [])) base o
      → Pushed capacity name st (push_after_slash capacity name o)
  after_slash-Pushed o p =
      let l1 = length-append (body st) (slash ∷ []) in
      let l2 = length-append (body st) (slash ∷ name) in
      let pos : o.pos ≡ length (body st) + 1 = omega (arith, p.at_end, l1) in
      elim (Bool-cases (leb capacity (add32 o.pos (length name % u32)))) [
        | inl t ↦ rw t (inl (refl, ground (arith, l2)))
        | inr t ↦ rw t (
            inr (
              refl,
              ground (arith, l2),
              put_component-Holds capacity name st o base (omega arith) nonempty shallow
                  (ground (arith, l2)) h p,
            ))
      ]

  text-Prefixed : Prefixed (text st) base base
  text-Prefixed = record {
    size = refl;
    written = h.written;
    at_end = h.at_end;
    starts_same = refl;
    count_same = refl;
  }

push_component-Pushed_shallow :
    (capacity : ℕ) (name : List ℕ) (st : List (List ℕ)) (o : Output)
    → capacity ≤ 2 ^ 31
    → length name < 2 ^ 31
    → 0 < length name
    → length st < path_capacity
    → Holds capacity st o
    → Pushed capacity name st (push_component capacity name o)
unfolding push_component
push_component-Pushed_shallow capacity name [] o small short nonempty shallow h =
    let live : ((length name % u32 == 0) || leb path_capacity o.count) ≡ false =
      ground (arith, h.depth) in
    let first : (o.pos == 1) ≡ true = ground (arith, h.at_end) in
    rw (live, first)
      (after_slash-Pushed capacity name [] o small short nonempty shallow h o
        (text-Prefixed capacity name [] o small short nonempty shallow h))
push_component-Pushed_shallow capacity name (c ∷ st) o small short nonempty shallow h =
    let l = length-append (body (c ∷ st)) (slash ∷ name) in
    let live : ((length name % u32 == 0) || leb path_capacity o.count) ≡ false =
      ground (arith, h.depth) in
    let later : (o.pos == 1) ≡ false = ground (arith, h.at_end, body_long (c ∷ st) h.named) in
    elim (Bool-cases (leb capacity (add32 o.pos 1))) [
      | inl t ↦ rw (live, later, t) (inl (refl, ground (arith, l, h.at_end, h.fits)))
      | inr t ↦
          rw (live, later, t)
            (after_slash-Pushed capacity name (c ∷ st) o small short nonempty shallow h
              (put slash o)
              (put-Prefixed slash (body (c ∷ st)) o o (omega (arith, h.size))
                (omega (arith, h.size, h.fits))
                (text-Prefixed capacity name (c ∷ st) o small short nonempty shallow h)))
    ]

pub push_component-Pushed :
    (capacity : ℕ) (name : List ℕ) (st : List (List ℕ)) (o : Output)
    → capacity ≤ 2 ^ 31
    → length name < 2 ^ 31
    → 0 < length name
    → length st ≤ path_capacity
    → Holds capacity st o
    → Pushed capacity name st (push_component capacity name o)
push_component-Pushed capacity name st o small short nonempty depth h =
    elim (Bool-cases (leb path_capacity (length st))) [
      | inl t ↦
          let full : ((length name % u32 == 0) || leb path_capacity o.count) ≡ true =
            ground (arith, h.depth) in
          unfold push_component in rw full (inl (refl, ground arith))
      | inr t ↦
          push_component-Pushed_shallow capacity name st o small short nonempty (ground arith) h
    ]
