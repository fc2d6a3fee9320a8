-- ===== src/Fat32/Chain/Free.antt =====
-- `free_cluster_chain_in_memory`.
use funny_os.Common.{
  ℕ, zero, suc, ◌+◌, ◌<◌, ◌≡◌, ◌≢◌, refl, sym, subst, ◌∙◌, true, false, List, [], ◌∷◌, length, set,
  get_or, ◌==◌, arith, All, some, if◌then◌else◌, ◌⊎◌, inl, inr, Bool-cases,
}
use funny_os.Fat32.Chain.{
  Fat, is_valid_data_cluster, next_cluster, set_cluster, goes_on, free_cluster_chain,
}
use funny_os.Fat32.Chain.Table.{
  IsTable, entry, total_clusters-set, set_cluster-IsTable, set_cluster_valid, entry-set_self,
  entry-set_ne,
}
use funny_os.Fat32.Chain.Walk.{IsChain, goes_on_lem, stops_lem, IsChain-fresh, IsChain-set_ne}

-- The clusters `cs` have been freed, and no other entry has changed.
pub record Freed (cs : List ℕ) (f f' : Fat) : Type 0 where
  pub table : IsTable f'
  pub total : f'.total_clusters ≡ f.total_clusters
  pub zeroed : All (λ c. entry f' c ≡ 0) cs
  pub others : (c : ℕ) → All (λ x. c ≢ x) cs → entry f' c ≡ entry f c

module _ (fuel cluster : ℕ) (f : Fat) where
  free_step :
      goes_on cluster ≡ true
      → free_cluster_chain (suc fuel) cluster f
        ≡ free_cluster_chain fuel (next_cluster f cluster) (set_cluster cluster 0 f)
  unfolding free_cluster_chain
  free_step t = rw t refl

  free_stop : goes_on cluster ≡ false → free_cluster_chain (suc fuel) cluster f ≡ some f
  unfolding free_cluster_chain
  free_stop t = rw t refl

Freed-cons :
    (c : ℕ) (cs : List ℕ) (f f' : Fat)
    → IsTable f
    → is_valid_data_cluster f c ≡ true
    → All (λ x. c ≢ x) cs
    → Freed cs (set_cluster c 0 f) f'
    → Freed (c ∷ cs) f f'
Freed-cons c cs f f' h t fresh r = record {
  table = r.table;
  total = r.total ∙ total_clusters-set c 0 f;
  zeroed = (r.others c fresh ∙ entry-set_self c 0 f h t (omega arith), r.zeroed);
  others = λ d ne. r.others d ne.1 ∙ entry-set_ne c 0 d f (λ e. ne.0 (sym e));
}

-- Freeing a chain, with a round for each of its clusters and one more, makes all of its clusters
-- free and leaves every other entry of the table.
pub free_cluster_chain-Freed :
    (fuel cluster : ℕ) (cs : List ℕ) (f : Fat)
    → IsTable f
    → IsChain f cluster cs
    → length cs < fuel
    → (f' : Fat) × (free_cluster_chain fuel cluster f ≡ some f') × Freed cs f f'
free_cluster_chain-Freed zero cluster cs f h p enough = absurd (omega arith)
free_cluster_chain-Freed (suc fuel) cluster [] f h p enough = (
  f,
  free_stop fuel cluster f (stops_lem cluster p),
  record { table = h; total = refl; zeroed = tt; others = λ c avoids. refl },
)
free_cluster_chain-Freed (suc fuel) cluster (c ∷ cs) f h p enough =
    let fresh = IsChain-fresh f cluster c cs h p in
    let rest = IsChain-set_ne cluster 0 f (next_cluster f cluster) cs fresh p.2 in
    let (f', e, r) =
      free_cluster_chain-Freed fuel (next_cluster f cluster) cs (set_cluster cluster 0 f)
        (set_cluster-IsTable cluster 0 f h) rest (omega arith) in
    (
      f',
      free_step fuel cluster f (goes_on_lem f cluster h p.1) ∙ e,
      subst (λ d. Freed (d ∷ cs) f f') p.0 (Freed-cons cluster cs f f' h p.1 fresh r),
    )

-- The entries that are not zero.
abbrev pub used_count : List ℕ → ℕ
used_count [] = 0
used_count (x ∷ xs) = if x == 0 then used_count xs else suc (used_count xs)

used_count-set_zero :
    (xs : List ℕ) (i : ℕ) → get_or xs i 0 ≢ 0 → suc (used_count (set xs i 0)) ≡ used_count xs
used_count-set_zero [] i h = absurd (h refl)
used_count-set_zero (x ∷ xs) zero h = ground arith
used_count-set_zero (x ∷ xs) (suc i) h = ground (arith, used_count-set_zero xs i h)

next_cluster_stops :
    (f : Fat) (c : ℕ)
    → (is_valid_data_cluster f c ≡ false) ⊎ (entry f c ≡ 0)
    → goes_on (next_cluster f c) ≡ false
unfolding next_cluster
next_cluster_stops f c (inl t) = rw t refl
next_cluster_stops f c (inr e) = elim (Bool-cases (is_valid_data_cluster f c)) [
  | inl t ↦ rw (t, e) refl
  | inr t ↦ rw t refl
]

-- Freeing ends on every table and from every cluster, on a damaged table with a cycle too, within
-- two rounds more than the table has entries in use.
pub free_cluster_chain-ends :
    (fuel cluster : ℕ) (f : Fat)
    → used_count f.entries + 1 < fuel
    → (f' : Fat) × (free_cluster_chain fuel cluster f ≡ some f')
free_cluster_chain-ends zero cluster f enough = absurd (omega arith)
free_cluster_chain-ends (suc zero) cluster f enough = absurd (omega arith)
free_cluster_chain-ends (suc (suc fuel)) cluster f enough = elim (Bool-cases (goes_on cluster)) [
  | inr t ↦ (f, free_stop (suc fuel) cluster f t)
  | inl t ↦
      let f1 = set_cluster cluster 0 f in
      let one = free_step (suc fuel) cluster f t in
      elim (Bool-cases (is_valid_data_cluster f cluster)) [
        | inr u ↦ (f1, one ∙ free_stop fuel _ f1 (next_cluster_stops f cluster (inl u)))
        | inl u ↦ elim (Bool-cases (entry f cluster == 0)) [
          | inl v ↦
              (f1, one ∙ free_stop fuel _ f1 (next_cluster_stops f cluster (inr (ground arith))))
          | inr v ↦
              let e = set_cluster_valid cluster 0 f u (omega arith) in
              let fewer = used_count-set_zero f.entries cluster (ground arith) in
              let (f', r) =
                free_cluster_chain-ends (suc fuel) (next_cluster f cluster) f1
                  (rw e (omega (arith, fewer))) in
              (f', one ∙ r)
        ]
      ]
]
