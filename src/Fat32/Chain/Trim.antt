-- ===== src/Fat32/Chain/Trim.antt =====
-- `trim_cluster_chain`.
use funny_os.Common.{
  ℕ, zero, suc, ◌≤◌, ◌<◌, ◌≡◌, ◌≢◌, refl, sym, ◌∙◌, true, false, List, [], ◌∷◌, length, take, drop,
  arith, All, some, ltb,
}
use funny_os.Fat32.Chain.{
  Fat, ok, end_of_chain, is_valid_data_cluster, next_cluster, set_cluster, goes_on,
  get_cluster_at_index, cut_after, trim_cluster_chain, free_cluster_chain,
}
use funny_os.Fat32.Chain.Table.{
  IsTable, entry, total_clusters-set, set_cluster-IsTable, entry-set_ne, next_cluster-set_self,
}
use funny_os.Fat32.Chain.Walk.{IsChain, goes_on_lem, stops_lem, IsChain-fresh, IsChain-set_ne}
use funny_os.Fat32.Chain.Free.{free_cluster_chain-Freed}

-- The chain `cs` has been cut to its first `n` clusters, the others are free, and no entry of a
-- cluster outside the chain has changed.
pub record Trimmed (n cluster : ℕ) (cs : List ℕ) (f f' : Fat) : Type 0 where
  pub total : f'.total_clusters ≡ f.total_clusters
  pub kept : IsChain f' cluster (take n cs)
  pub zeroed : All (λ c. entry f' c ≡ 0) (drop n cs)
  pub others : (c : ℕ) → All (λ x. c ≢ x) cs → entry f' c ≡ entry f c

next_cluster_same :
    (f f' : Fat) (c : ℕ)
    → f'.total_clusters ≡ f.total_clusters
    → entry f' c ≡ entry f c
    → next_cluster f' c ≡ next_cluster f c
unfolding next_cluster
next_cluster_same f f' c t e = rw (t, e) refl

module _ (fuel first cluster : ℕ) (f : Fat) where
  cut_frees :
      (f' : Fat)
      → goes_on (next_cluster f cluster) ≡ true
      → free_cluster_chain fuel (next_cluster f cluster) (set_cluster cluster end_of_chain f)
        ≡ some f'
      → cut_after fuel first cluster f ≡ some (ok, first, f')
  cut_frees f' t e = rw (t, e) refl

  cut_only :
      goes_on (next_cluster f cluster) ≡ false
      → cut_after fuel first cluster f ≡ some (ok, first, set_cluster cluster end_of_chain f)
  cut_only t = rw t refl

-- The cut at the chain's first cluster.
cut_first-Trimmed :
    (fuel first cluster x : ℕ) (xs : List ℕ) (f : Fat)
    → IsTable f
    → IsChain f cluster (x ∷ xs)
    → length xs < fuel
    → (f' : Fat) × (cut_after fuel first cluster f ≡ some (ok, first, f'))
      × Trimmed 1 cluster (x ∷ xs) f f'
cut_first-Trimmed fuel first cluster x [] f h p enough = (
  set_cluster cluster end_of_chain f,
  cut_only fuel first cluster f (stops_lem _ p.2),
  record {
    total = total_clusters-set cluster end_of_chain f;
    kept = (
      p.0,
      rw (total_clusters-set cluster end_of_chain f) p.1,
      rw (next_cluster-set_self cluster end_of_chain f h p.1 (omega arith)) (omega arith),
    );
    zeroed = tt;
    others = λ c avoids. entry-set_ne cluster end_of_chain c f (λ e. avoids.0 (sym e ∙ p.0));
  },
)
cut_first-Trimmed fuel first cluster x (y ∷ ys) f h p enough =
    let f1 = set_cluster cluster end_of_chain f in
    let fresh = IsChain-fresh f cluster x (y ∷ ys) h p in
    let rest = IsChain-set_ne cluster end_of_chain f (next_cluster f cluster) (y ∷ ys) fresh p.2 in
    let (f', e, r) =
      free_cluster_chain-Freed fuel (next_cluster f cluster) (y ∷ ys) f1
        (set_cluster-IsTable cluster end_of_chain f h) rest enough in
    let total : f'.total_clusters ≡ f.total_clusters =
      r.total ∙ total_clusters-set cluster end_of_chain f in
    let next : next_cluster f' cluster ≡ end_of_chain =
      next_cluster_same f1 f' cluster r.total (r.others cluster fresh)
      ∙ next_cluster-set_self cluster end_of_chain f h p.1 (omega arith) in
    (
      f',
      cut_frees fuel first cluster f f' (goes_on_lem f (next_cluster f cluster) h p.2.1) e,
      record {
        total = total;
        kept = (p.0, rw total p.1, rw next (omega arith));
        zeroed = r.zeroed;
        others = λ c avoids.
            r.others c avoids.1
            ∙ entry-set_ne cluster end_of_chain c f (λ same. avoids.0 (sym same ∙ p.0));
      },
    )

-- The cut at a later one, which `get_cluster_at_index` finds.
cut-Trimmed :
    (more fuel first cluster : ℕ) (cs : List ℕ) (f : Fat)
    → IsTable f
    → IsChain f cluster cs
    → more < length cs
    → length cs ≤ fuel
    → (is_valid_data_cluster f (get_cluster_at_index f cluster more) ≡ true)
      × ((f' : Fat) × (cut_after fuel first (get_cluster_at_index f cluster more) f
            ≡ some (ok, first, f'))
          × Trimmed (suc more) cluster cs f f')
unfolding get_cluster_at_index
cut-Trimmed more fuel first cluster [] f h p there enough = absurd (omega arith)
cut-Trimmed zero fuel first cluster (x ∷ xs) f h p there enough =
    (p.1, cut_first-Trimmed fuel first cluster x xs f h p (omega arith))
cut-Trimmed (suc more) fuel first cluster (x ∷ xs) f h p there enough =
    let fresh = IsChain-fresh f cluster x xs h p in
    let (valid, (f', e, r)) =
      cut-Trimmed more fuel first (next_cluster f cluster) xs f h p.2 (omega arith) (omega arith) in
    rw (goes_on_lem f cluster h p.1) (
      valid,
      (
        f',
        e,
        record {
          total = r.total;
          kept = (
            p.0,
            rw r.total p.1,
            rw (next_cluster_same f f' cluster r.total (r.others cluster fresh)) r.kept,
          );
          zeroed = r.zeroed;
          others = λ c avoids. r.others c avoids.1;
        },
      ),
    )

-- Trimming a chain to a number of clusters that it has, with a round for each of its clusters,
-- succeeds: the chain's first clusters are left as a chain, its other clusters are free, and the
-- entries of clusters outside the chain are as they were.
pub trim_cluster_chain-Trimmed :
    (more fuel cluster : ℕ) (cs : List ℕ) (f : Fat)
    → IsTable f
    → IsChain f cluster cs
    → more < length cs
    → length cs ≤ fuel
    → (f' : Fat) × (trim_cluster_chain fuel cluster (suc more) f ≡ some (ok, cluster, f'))
      × Trimmed (suc more) cluster cs f f'
unfolding trim_cluster_chain
trim_cluster_chain-Trimmed more fuel cluster [] f h p there enough = absurd (omega arith)
trim_cluster_chain-Trimmed more fuel cluster (x ∷ xs) f h p there enough =
    let (valid, (f', e, r)) = cut-Trimmed more fuel cluster cluster (x ∷ xs) f h p there enough in
    let started : ltb cluster 2 ≡ false = ground (arith, p.1) in
    let found = goes_on_lem f (get_cluster_at_index f cluster more) h valid in
    (f', rw (started, found) e, r)
