-- ===== src/Fat32/Chain/Walk.antt =====
-- Chains of clusters.
use funny_os.Common.{
  ℕ, suc, ◌≤◌, ◌<◌, ◌≡◌, ◌≢◌, refl, sym, ap, subst, ◌∙◌, true, false, List, [], ◌∷◌, length, arith,
  All,
}
use funny_os.Fat32.Chain.{
  Fat, end_of_chain, is_valid_data_cluster, next_cluster, set_cluster, goes_on,
}
use funny_os.Fat32.Chain.Table.{IsTable, entry, total_clusters-set, next_cluster-set_ne}

-- The chain from `cluster` has these clusters and then an end mark.
abbrev pub IsChain : Fat → (cluster : ℕ) (cs : List ℕ) → Type 0
IsChain f cluster [] = end_of_chain ≤ cluster
IsChain f cluster (c ∷ cs) =
    (cluster ≡ c) × (is_valid_data_cluster f cluster ≡ true) × IsChain f (next_cluster f cluster) cs

pub goes_on_lem :
    (f : Fat) (c : ℕ) → IsTable f → is_valid_data_cluster f c ≡ true → goes_on c ≡ true
goes_on_lem f c h t = ground (arith, h.small)

pub stops_lem : (c : ℕ) → end_of_chain ≤ c → goes_on c ≡ false
stops_lem c h = ground arith

-- A cluster has one chain.
IsChain-length :
    (f : Fat) (cluster : ℕ) (xs ys : List ℕ)
    → IsTable f
    → IsChain f cluster xs
    → IsChain f cluster ys
    → length xs ≡ length ys
IsChain-length f cluster [] [] h p q = refl
IsChain-length f cluster [] (y ∷ ys) h p q = absurd (ground (arith, q.1, h.small))
IsChain-length f cluster (x ∷ xs) [] h p q = absurd (ground (arith, p.1, h.small))
IsChain-length f cluster (x ∷ xs) (y ∷ ys) h p q =
    ap suc (IsChain-length f (next_cluster f cluster) xs ys h p.2 q.2)

-- A cluster with a longer chain is not on a shorter one.
avoids_shorter :
    (f : Fat) (c d : ℕ) (whole xs : List ℕ)
    → IsTable f
    → IsChain f c whole
    → IsChain f d xs
    → length xs < length whole
    → All (λ x. c ≢ x) xs
avoids_shorter f c d whole [] h p q lt = tt
avoids_shorter f c d whole (x ∷ xs) h p q lt = (
  λ e. absurd (
      let same =
        IsChain-length f c whole (x ∷ xs) h p (subst (λ k. IsChain f k (x ∷ xs)) (q.0 ∙ sym e) q) in
      omega (arith, same, lt)),
  avoids_shorter f c (next_cluster f d) whole xs h p q.2 (omega arith),
)

pub IsChain-fresh :
    (f : Fat) (c x : ℕ) (xs : List ℕ) → IsTable f → IsChain f c (x ∷ xs) → All (λ y. c ≢ y) xs
IsChain-fresh f c x xs h p = avoids_shorter f c (next_cluster f c) (x ∷ xs) xs h p p.2 (omega arith)

-- A write elsewhere keeps the chain.
pub IsChain-set_ne :
    (cluster value : ℕ) (f : Fat) (c : ℕ) (cs : List ℕ)
    → All (λ x. cluster ≢ x) cs
    → IsChain f c cs
    → IsChain (set_cluster cluster value f) c cs
IsChain-set_ne cluster value f c [] avoids p = p
IsChain-set_ne cluster value f c (x ∷ xs) avoids p =
    let ne : cluster ≢ c = λ e. avoids.0 (e ∙ p.0) in
    let next = next_cluster-set_ne cluster value c f ne in
    (
      p.0,
      rw (total_clusters-set cluster value f) p.1,
      rw next (IsChain-set_ne cluster value f (next_cluster f c) xs avoids.1 p.2),
    )

-- No cluster of a chain is free.
next_cluster-free :
    (f : Fat) (c : ℕ) → is_valid_data_cluster f c ≡ true → entry f c ≡ 0 → next_cluster f c ≡ 0
unfolding next_cluster
next_cluster-free f c t e = rw (t, e) refl

IsChain-nonzero : (f : Fat) (c : ℕ) (cs : List ℕ) → IsChain f c cs → c ≢ 0
IsChain-nonzero f c [] p e = absurd (omega (arith, p, e))
IsChain-nonzero f c (x ∷ xs) p e = absurd (ground (arith, p.1, e))

pub IsChain-used :
    (f : Fat) (c free : ℕ) (cs : List ℕ)
    → IsChain f c cs
    → entry f free ≡ 0
    → All (λ x. free ≢ x) cs
IsChain-used f c free [] p e = tt
IsChain-used f c free (x ∷ xs) p e = (
  λ same.
      IsChain-nonzero f (next_cluster f c) xs p.2
        (next_cluster-free f c p.1 (ap (entry f) (p.0 ∙ sym same) ∙ e)),
  IsChain-used f (next_cluster f c) free xs p.2 e,
)
