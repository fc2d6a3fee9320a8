-- ===== src/Fat32/Safe/Shape.antt =====
-- The functions on the table keep its size.
use funny_os.Common.{
  ℕ, zero, suc, ◌≡◌, refl, ◌∙◌, inl, inr, Option, none, some, ltb, leb, ◌==◌, Bool-cases,
}
use funny_os.Fat32.Chain.{
  end_of_chain, Fat, Result, ok, next_cluster, set_cluster, goes_on, find_free_cluster,
  free_cluster_chain, get_cluster_at_index, last_of_chain, append_cluster_to_chain, with_first,
  trim_cluster_chain,
}
use funny_os.Fat32.Chain.Table.{IsTable, set_cluster-IsTable, total_clusters-set}
use funny_os.Fat32.Clusters.{freed}

-- A table for the same clusters.
pub record Shaped (f f' : Fat) : Type 0 where
  pub total : f'.total_clusters ≡ f.total_clusters
  pub table : IsTable f'

pub Shaped-refl : (f : Fat) → IsTable f → Shaped f f
Shaped-refl f h = record { total = refl; table = h }

pub Shaped-trans : (f f' f'' : Fat) → Shaped f f' → Shaped f' f'' → Shaped f f''
Shaped-trans f f' f'' p q = record { total = q.total ∙ p.total; table = q.table }

pub set_cluster-Shaped : (c value : ℕ) (f : Fat) → IsTable f → Shaped f (set_cluster c value f)
set_cluster-Shaped c value f h = record {
  total = total_clusters-set c value f;
  table = set_cluster-IsTable c value f h;
}

-- What a function returns, if it does.
abbrev pub AllShaped : Fat → Option (Result × ℕ × Fat) → Type 0
AllShaped f none = Unit
AllShaped f (some (r, n, f')) = Shaped f f'

AllShaped-later :
    (f f' : Fat) (o : Option (Result × ℕ × Fat)) → Shaped f f' → AllShaped f' o → AllShaped f o
AllShaped-later f f' none p q = tt
AllShaped-later f f' (some (r, n, f'')) p q = Shaped-trans f f' f'' p q

pub free_cluster_chain-Shaped :
    (fuel cluster : ℕ) (f : Fat)
    → IsTable f
    → AllShaped f (freed (free_cluster_chain fuel cluster f))
unfolding free_cluster_chain
free_cluster_chain-Shaped zero cluster f h = tt
free_cluster_chain-Shaped (suc fuel) cluster f h = elim (Bool-cases (goes_on cluster)) [
  | inl t ↦
      let one = set_cluster-Shaped cluster 0 f h in
      rw t (
        AllShaped-later f (set_cluster cluster 0 f) _ one (
          free_cluster_chain-Shaped fuel (next_cluster f cluster) (set_cluster cluster 0 f)
            one.table))
  | inr t ↦ rw t (Shaped-refl f h)
]

linked-Shaped :
    (f f' : Fat) (free : ℕ) (last : Option ℕ)
    → Shaped f f'
    → AllShaped f (elim last [ none ↦ none | some l ↦ some (ok, free, set_cluster l free f') ])
linked-Shaped f f' free none p = tt
linked-Shaped f f' free (some l) p =
    Shaped-trans f f' (set_cluster l free f') p (set_cluster-Shaped l free f' p.table)

pub append_cluster_to_chain-Shaped :
    (fuel first : ℕ) (f : Fat) → IsTable f → AllShaped f (append_cluster_to_chain fuel first f)
unfolding append_cluster_to_chain
append_cluster_to_chain-Shaped fuel first f h =
    let free = find_free_cluster f in
    let f' = set_cluster free end_of_chain f in
    let one = set_cluster-Shaped free end_of_chain f h in
    elim (Bool-cases (free == 0)) [
      | inl t ↦ rw t (Shaped-refl f h)
      | inr t ↦ elim (Bool-cases (first == 0)) [
        | inl u ↦ rw (t, u) one
        | inr u ↦ rw (t, u) (linked-Shaped f f' free (last_of_chain fuel f' first) one)
      ]
    ]

with_first-Shaped :
    (f : Fat) (r : Result) (first : ℕ) (o : Option Fat)
    → AllShaped f (freed o)
    → AllShaped f (with_first r first o)
with_first-Shaped f r first none p = tt
with_first-Shaped f r first (some f') p = p

pub trim_cluster_chain-Shaped :
    (fuel first required : ℕ) (f : Fat)
    → IsTable f
    → AllShaped f (trim_cluster_chain fuel first required f)
unfolding trim_cluster_chain
trim_cluster_chain-Shaped fuel first zero f h = elim (Bool-cases (leb 2 first)) [
  | inl t ↦ rw t (
      with_first-Shaped f ok 0 (free_cluster_chain fuel first f)
        (free_cluster_chain-Shaped fuel first f h))
  | inr t ↦ rw t (Shaped-refl f h)
]
trim_cluster_chain-Shaped fuel first (suc more) f h =
    let cluster = get_cluster_at_index f first more in
    let next = next_cluster f cluster in
    let one = set_cluster-Shaped cluster end_of_chain f h in
    let f' = set_cluster cluster end_of_chain f in
    elim (Bool-cases (ltb first 2)) [
      | inl t ↦ rw t (Shaped-refl f h)
      | inr t ↦ elim (Bool-cases (goes_on cluster)) [
        | inr u ↦ rw (t, u) (Shaped-refl f h)
        | inl u ↦ elim (Bool-cases (goes_on next)) [
          | inr v ↦ rw (t, u, v) one
          | inl v ↦
              rw (t, u, v)
                (AllShaped-later f f' _ one (
                  with_first-Shaped f' ok first (free_cluster_chain fuel next f')
                    (free_cluster_chain-Shaped fuel next f' one.table)))
        ]
      ]
    ]
