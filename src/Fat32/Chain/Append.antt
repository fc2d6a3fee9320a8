-- ===== src/Fat32/Chain/Append.antt =====
-- `append_cluster_to_chain`.
use funny_os.Common.{
  ℕ, zero, suc, ◌<◌, ◌≡◌, ◌≢◌, refl, sym, subst, ◌∙◌, ◌⊎◌, inl, inr, true, false, List, [], ◌∷◌,
  ◌++◌, length, ◌==◌, arith, All, some,
}
use funny_os.Fat32.Chain.{
  Fat, ok, no_space, end_of_chain, is_valid_data_cluster, next_cluster, set_cluster, goes_on,
  find_free_cluster, last_of_chain, append_cluster_to_chain,
}
use funny_os.Fat32.Chain.Table.{
  IsTable, entry, total_clusters-set, set_cluster-IsTable, entry-set_ne, next_cluster-set_self,
  next_cluster-set_ne, find_free_cluster-finds,
}
use funny_os.Fat32.Chain.Walk.{
  IsChain, goes_on_lem, stops_lem, IsChain-fresh, IsChain-set_ne, IsChain-used,
}

-- `last` is on the chain `cs`, and with `free` after it the chain has one cluster more.
record Linked (f : Fat) (cluster : ℕ) (cs : List ℕ) (free last : ℕ) : Type 0 where
  on_chain : (d : ℕ) → All (λ x. d ≢ x) cs → d ≢ last
  chain : IsChain (set_cluster last free f) cluster (cs ++ (free ∷ []))

module _ (fuel : ℕ) (f : Fat) (cluster : ℕ) where
  last_here :
      goes_on (next_cluster f cluster) ≡ false → last_of_chain (suc fuel) f cluster ≡ some cluster
  unfolding last_of_chain
  last_here t = rw t refl

  last_later :
      goes_on (next_cluster f cluster) ≡ true
      → last_of_chain (suc fuel) f cluster ≡ last_of_chain fuel f (next_cluster f cluster)
  unfolding last_of_chain
  last_later t = rw t refl

last_of_chain-Linked :
    (fuel cluster free x : ℕ) (xs : List ℕ) (f : Fat)
    → IsTable f
    → IsChain f cluster (x ∷ xs)
    → is_valid_data_cluster f free ≡ true
    → next_cluster f free ≡ end_of_chain
    → All (λ y. free ≢ y) (x ∷ xs)
    → length xs < fuel
    → (last : ℕ) × (last_of_chain fuel f cluster ≡ some last) × Linked f cluster (x ∷ xs) free last
last_of_chain-Linked zero cluster free x xs f h p valid ended avoids enough = absurd (omega arith)
last_of_chain-Linked (suc fuel) cluster free x [] f h p valid ended avoids enough =
    let ne : cluster ≢ free = λ e. avoids.0 (sym e ∙ p.0) in
    (
      cluster,
      last_here fuel f cluster (stops_lem _ p.2),
      record {
        on_chain = λ d ne'. subst (λ k. d ≢ k) (sym p.0) ne'.0;
        chain = (
          p.0,
          rw (total_clusters-set cluster free f) p.1,
          rw (next_cluster-set_self cluster free f h p.1 (ground (arith, h.small))) (
            refl,
            rw (total_clusters-set cluster free f) valid,
            rw (next_cluster-set_ne cluster free free f ne, ended) (omega arith),
          ),
        );
      },
    )
last_of_chain-Linked (suc fuel) cluster free x (y ∷ ys) f h p valid ended avoids enough =
    let fresh = IsChain-fresh f cluster x (y ∷ ys) h p in
    let (last, e, r) =
      last_of_chain-Linked fuel (next_cluster f cluster) free y ys f h p.2 valid ended avoids.1
        (omega arith) in
    let ne : last ≢ cluster = λ same. r.on_chain cluster fresh (sym same) in
    (
      last,
      last_later fuel f cluster (goes_on_lem f (next_cluster f cluster) h p.2.1) ∙ e,
      record {
        on_chain = λ d ne'. r.on_chain d ne'.1;
        chain = (
          p.0,
          rw (total_clusters-set last free f) p.1,
          rw (next_cluster-set_ne last free cluster f ne) r.chain,
        );
      },
    )

-- A free cluster has been put at the end of the chain `cs`, and no entry of another cluster changed.
pub record Appended (cluster : ℕ) (cs : List ℕ) (free : ℕ) (f f' : Fat) : Type 0 where
  pub valid : is_valid_data_cluster f free ≡ true
  pub was_free : entry f free ≡ 0
  pub chain : IsChain f' cluster (cs ++ (free ∷ []))
  pub others : (c : ℕ) → c ≢ free → All (λ x. c ≢ x) cs → entry f' c ≡ entry f c

module _ (fuel first : ℕ) (f : Fat) where
  append_full :
      find_free_cluster f ≡ 0 → append_cluster_to_chain fuel first f ≡ some (no_space, 0, f)
  unfolding append_cluster_to_chain
  append_full e = rw e refl

  append_links :
      (last : ℕ)
      → (find_free_cluster f == 0) ≡ false
      → (first == 0) ≡ false
      → last_of_chain fuel (set_cluster (find_free_cluster f) end_of_chain f) first ≡ some last
      → append_cluster_to_chain fuel first f
        ≡ some (
          ok,
          find_free_cluster f,
          set_cluster last (find_free_cluster f) (set_cluster (find_free_cluster f) end_of_chain f),
        )
  unfolding append_cluster_to_chain
  append_links last t u e = rw (t, u, e) refl

-- Appending to a chain, with a round for each of its clusters, returns `FAT32_NO_SPACE` with the
-- table as it was if no cluster is free; otherwise a cluster that was free stands at the end of
-- the chain, and the entries of all clusters outside the chain are as they were.
pub append_cluster_to_chain-Appended :
    (fuel cluster x : ℕ) (xs : List ℕ) (f : Fat)
    → IsTable f
    → IsChain f cluster (x ∷ xs)
    → length xs < fuel
    → ((append_cluster_to_chain fuel cluster f ≡ some (no_space, 0, f))
        × ((c : ℕ) → is_valid_data_cluster f c ≡ true → entry f c ≢ 0))
      ⊎ ((free : ℕ) × (f' : Fat) × (append_cluster_to_chain fuel cluster f ≡ some (ok, free, f'))
          × Appended cluster (x ∷ xs) free f f')
append_cluster_to_chain-Appended fuel cluster x xs f h p enough = elim (find_free_cluster-finds f) [
  | inl q ↦ inl (append_full fuel cluster f q.0, q.1)
  | inr q ↦
      let free = find_free_cluster f in
      let f1 = set_cluster free end_of_chain f in
      let avoids = IsChain-used f cluster free (x ∷ xs) p q.1 in
      let (last, e, r) =
        last_of_chain-Linked fuel cluster free x xs f1 (set_cluster-IsTable free end_of_chain f h)
          (IsChain-set_ne free end_of_chain f cluster (x ∷ xs) avoids p)
          (rw (total_clusters-set free end_of_chain f) q.0)
          (next_cluster-set_self free end_of_chain f h q.0 (omega arith)) avoids enough in
      inr (
        free,
        set_cluster last free f1,
        append_links fuel cluster f last (ground (arith, q.0)) (ground (arith, p.1)) e,
        record {
          valid = q.0;
          was_free = q.1;
          chain = r.chain;
          others = λ c ne avoid.
              entry-set_ne last free c f1 (λ same. r.on_chain c avoid (sym same))
              ∙ entry-set_ne free end_of_chain c f (λ same. ne (sym same));
        },
      )
]
