-- ===== src/Memory/Pages/Ownership.antt =====
-- Histories of `alloc_pages` and `free_pages` in which each run that was handed out is given back at
-- most once: no page has two owners.
use funny_os.Common.{
  ℕ, ◌+◌, ◌*◌, ◌≤◌, ◌<◌, ◌≡◌, ◌≢◌, sym, subst, ◌∙◌, ◌⊎◌, inl, inr, true, List, [], ◌∷◌, ◌++◌, arith,
  length, All,
}
use native.Mathlib.Decide.{dec_lt}
use funny_os.Memory.Pages.{
  PageTable, FreeRange, max_free_ranges, alloc_pages, free_pages, append_free_range,
}
use funny_os.Memory.Pages.Ranges.{
  IsRun, IsRange, limit_of, InRun, IsFree, IsOrdered, AvoidsAll, not-IsFree_of_avoids, Rises-All,
}
use funny_os.Memory.Pages.Append.{Added}
use funny_os.Memory.Pages.Alloc.{Allocated, alloc_pages-Allocated, free_pages-Added}

pub record Run : Type 0 where
  pub start : ℕ
  pub count : ℕ

-- The table, and the runs that callers hold.
pub record World : Type 0 where
  pub table : PageTable
  pub held : List Run

pub data Step : World → World → Type 0 where
  alloc :
      (w : World) (n : ℕ)
      → (alloc_pages n w.table).0 ≢ 0
      → Step w (record {
        table = (alloc_pages n w.table).1;
        held = record { start = (alloc_pages n w.table).0; count = n } ∷ w.held;
      })
  free :
      (t : PageTable) (r : Run) (before after : List Run)
      → Step
          (record { table = t; held = before ++ (r ∷ after) })
          (record { table = free_pages r.start r.count t; held = before ++ after })

pub data Reach (w : World) : World → Type 0 where
  here : Reach w w
  next : {u v : World} → Reach w u → Step u v → Reach w v

abbrev pub Holds : Run → ℕ → Type 0
Holds r a = InRun r.start r.count a

abbrev pub Disjoint : Run → Run → Type 0
Disjoint r s = (a : ℕ) → Holds r a → ¬ Holds s a

-- A held run is whole pages, not at address 0, and none of its addresses is free.
abbrev IsOwned : PageTable → Run → Type 0
IsOwned t r = IsRun r.start r.count × (r.start ≢ 0) × ((a : ℕ) → Holds r a → ¬ IsFree a t.ranges)

abbrev pub AllDisjoint : List Run → Type 0
AllDisjoint [] = Unit {0}
AllDisjoint (r ∷ rs) = All (Disjoint r) rs × AllDisjoint rs

pub record IsSound (w : World) : Type 0 where
  pub ready : w.table.ready ≡ true
  pub ordered : IsOrdered w.table.ranges
  pub owned : All (IsOwned w.table) w.held
  pub disjoint : AllDisjoint w.held

range_avoids :
    (r : Run) (x : FreeRange)
    → IsRun r.start r.count
    → IsRange x
    → ((a : ℕ) → Holds r a → ¬ InRun x.base x.page_count a)
    → (limit_of x ≤ r.start) ⊎ (r.start + r.count * 4096 ≤ x.base)
range_avoids r x run v apart = elim (dec_lt r.start x.base) [
  | yes h ↦ elim (dec_lt x.base (r.start + r.count * 4096)) [
    | yes k ↦ absurd (apart x.base (omega arith) (omega arith))
    | no k ↦ inr (omega arith)
  ]
  | no h ↦ elim (dec_lt r.start (limit_of x)) [
    | yes k ↦ absurd (apart r.start (omega arith) (omega arith))
    | no k ↦ inl (omega arith)
  ]
]

IsOwned-AvoidsAll :
    (r : Run) (rs : List FreeRange)
    → IsRun r.start r.count
    → All IsRange rs
    → ((a : ℕ) → Holds r a → ¬ IsFree a rs)
    → AvoidsAll r.start r.count rs
IsOwned-AvoidsAll r [] run v apart = tt
IsOwned-AvoidsAll r (x ∷ xs) run v apart = (
  range_avoids r x run v.0 (λ a h k. apart a h (inl k)),
  IsOwned-AvoidsAll r xs run v.1 (λ a h k. apart a h (inr k)),
)

module _ {ℓ κ} {A : Type ℓ} (P : A → Type κ) where
  All-map {μ} : {Q : A → Type μ} (xs : List A) → ((x : A) → P x → Q x) → All P xs → All Q xs
  All-map [] f h = tt
  All-map (x ∷ xs) f h = (f x h.0, All-map xs f h.1)

  -- A property of a whole list, without one element.
  All-remove : (xs : List A) (y : A) (ys : List A) → All P (xs ++ (y ∷ ys)) → P y × All P (xs ++ ys)
  All-remove [] y ys h = h
  All-remove (x ∷ xs) y ys h = let k = All-remove xs y ys h.1 in (k.0, (h.0, k.1))

  All-both {ν μ} :
      (Q : A → Type ν) {R : A → Type μ} (xs : List A)
      → ((x : A) → P x → Q x → R x)
      → All P xs
      → All Q xs
      → All R xs
  All-both Q [] f h k = tt
  All-both Q (x ∷ xs) f h k = (f x h.0 k.0, All-both Q xs f h.1 k.1)

AllDisjoint-remove :
    (xs : List Run) (y : Run) (ys : List Run)
    → AllDisjoint (xs ++ (y ∷ ys))
    → All (Disjoint y) (xs ++ ys) × AllDisjoint (xs ++ ys)
AllDisjoint-remove [] y ys h = h
AllDisjoint-remove (x ∷ xs) y ys h =
    let k = AllDisjoint-remove xs y ys h.1 in
    let j = All-remove (Disjoint x) xs y ys h.0 in (((λ a p q. j.0 a q p), k.0), (j.1, k.1))

free_pages-full :
    (ptr n : ℕ) (t : PageTable) → 0 < n → max_free_ranges ≤ length t.ranges → free_pages ptr n t ≡ t
unfolding free_pages append_free_range
free_pages-full ptr n t pos full = ground arith

-- `free_pages` adds the run, or fails for want of an entry and changes nothing.
free_pages-cases :
    (r : Run) (t : PageTable)
    → t.ready ≡ true
    → r.start ≢ 0
    → IsRun r.start r.count
    → IsOrdered t.ranges
    → AvoidsAll r.start r.count t.ranges
    → (free_pages r.start r.count t ≡ t)
      ⊎ Added r.start r.count t.ranges (free_pages r.start r.count t).ranges
free_pages-cases r t ready nonnull run v d = elim (dec_lt (length t.ranges) max_free_ranges) [
  | yes h ↦ inr (free_pages-Added r.start r.count t ready nonnull run v d h)
  | no h ↦ inl (free_pages-full r.start r.count t (omega arith) (omega arith))
]

IsOwned-alloc :
    (n : ℕ) (t : PageTable) (r : Run)
    → Allocated (alloc_pages n t).0 n t (alloc_pages n t).1
    → IsOwned t r
    → IsOwned (alloc_pages n t).1 r
IsOwned-alloc n t r k o = (o.0, o.1, λ a h f. o.2 a h ((k.free a).1 (inr f)))

IsOwned-free :
    (r s : Run) (t : PageTable)
    → ((free_pages r.start r.count t ≡ t)
        ⊎ Added r.start r.count t.ranges (free_pages r.start r.count t).ranges)
    → Disjoint r s
    → IsOwned t s
    → IsOwned (free_pages r.start r.count t) s
IsOwned-free r s t (inl e) d o = rw e o
IsOwned-free r s t (inr k) d o =
    (o.0, o.1, λ a h f. elim ((k.free a).0 f) [ inl g ↦ d a g h | inr g ↦ o.2 a h g ])

ready-free : (ptr n : ℕ) (t : PageTable) → (free_pages ptr n t).ready ≡ t.ready
unfolding free_pages
ready-free ptr n t = ground arith

Step-IsSound : {v w : World} → Step v w → IsSound v → IsSound w
Step-IsSound (alloc w n ok) s =
    let k = alloc_pages-Allocated n w.table s.ordered ok in
    record {
      ready = k.ready ∙ s.ready;
      ordered = k.ordered;
      owned = (
        (k.run, ok, λ a h f. not-IsFree_of_avoids _ n _ a k.avoids h f),
        All-map (IsOwned w.table) w.held (λ r o. IsOwned-alloc n w.table r k o) s.owned,
      );
      disjoint = (
        All-map (IsOwned w.table) w.held (λ r o a h g. o.2 a g ((k.free a).1 (inl h))) s.owned,
        s.disjoint,
      );
    }
Step-IsSound (free t r before after) s =
    let o = All-remove (IsOwned t) before r after s.owned in
    let d = AllDisjoint-remove before r after s.disjoint in
    let avoids = IsOwned-AvoidsAll r t.ranges o.0.0 (Rises-All 0 t.ranges s.ordered) o.0.2 in
    let k = free_pages-cases r t s.ready o.0.1 o.0.0 s.ordered avoids in
    record {
      ready = ready-free r.start r.count t ∙ s.ready;
      ordered = elim k [
        | inl e ↦ subst (λ u. IsOrdered u.ranges) (sym e) s.ordered
        | inr a ↦ a.ordered
      ];
      owned =
          All-both (Disjoint r) (IsOwned t) (before ++ after) (λ x. IsOwned-free r x t k) d.0 o.1;
      disjoint = d.1;
    }

-- After any such history from a sound state, the table is in order, the held runs are disjoint from
-- one another, and none of their addresses is free.
pub Reach-IsSound : {v w : World} → IsSound v → Reach v w → IsSound w
Reach-IsSound s here = s
Reach-IsSound s (next r st) = Step-IsSound st (Reach-IsSound s r)
