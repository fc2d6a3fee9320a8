-- ===== src/Fat32/Chain/Table.antt =====
-- Reading and writing one entry of the table, and the search for a free cluster.
use funny_os.Common.{
  ℕ, zero, suc, ◌+◌, ◌-◌, ◌≤◌, ◌<◌, ◌^◌, ◌≡◌, ◌≢◌, refl, ap, subst, ◌∙◌, ◌⊎◌, inl, inr, true,
  get_or, set, length, ◌==◌, arith, Bool-cases, get_or-set_self, get_or-set_ne, bit_and, length-set,
  bit_and-low28,
}
use funny_os.Fat32.Chain.{
  Fat, end_of_chain, fat_entry_mask, is_valid_data_cluster, next_cluster, set_cluster,
  find_free_from, find_free_cluster,
}

-- The table has an entry for every cluster, and every cluster's number is below the end's.
pub record IsTable (f : Fat) : Type 0 where
  pub covers : f.total_clusters ≤ length f.entries
  pub small : f.total_clusters < end_of_chain

abbrev pub entry : Fat → ℕ → ℕ
entry f cluster = get_or f.entries cluster 0

pub set_cluster_valid :
    (cluster value : ℕ) (f : Fat)
    → is_valid_data_cluster f cluster ≡ true
    → value < 2 ^ 28
    → set_cluster cluster value f ≡ record f { entries = set f.entries cluster value }
unfolding set_cluster
set_cluster_valid cluster value f t h = rw (t, bit_and-low28 value h) refl

pub set_cluster-IsTable :
    (cluster value : ℕ) (f : Fat) → IsTable f → IsTable (set_cluster cluster value f)
unfolding set_cluster
set_cluster-IsTable cluster value f h = elim (Bool-cases (is_valid_data_cluster f cluster)) [
  | inl t ↦ rw t (record {
    covers = omega (arith, h.covers, length-set f.entries cluster (bit_and value fat_entry_mask));
    small = h.small;
  })
  | inr t ↦ rw t h
]

pub total_clusters-set :
    (cluster value : ℕ) (f : Fat) → (set_cluster cluster value f).total_clusters ≡ f.total_clusters
unfolding set_cluster
total_clusters-set cluster value f = elim (Bool-cases (is_valid_data_cluster f cluster)) [
  | inl t ↦ rw t refl
  | inr t ↦ rw t refl
]

pub entry-set_self :
    (cluster value : ℕ) (f : Fat)
    → IsTable f
    → is_valid_data_cluster f cluster ≡ true
    → value < 2 ^ 28
    → entry (set_cluster cluster value f) cluster ≡ value
entry-set_self cluster value f h t small =
    ap (λ g. entry g cluster) (set_cluster_valid cluster value f t small)
    ∙ get_or-set_self f.entries cluster value 0 (ground (arith, h.covers))

pub entry-set_ne :
    (cluster value other : ℕ) (f : Fat)
    → cluster ≢ other
    → entry (set_cluster cluster value f) other ≡ entry f other
unfolding set_cluster
entry-set_ne cluster value other f ne = elim (Bool-cases (is_valid_data_cluster f cluster)) [
  | inl t ↦ rw t (get_or-set_ne f.entries cluster other (bit_and value fat_entry_mask) 0 ne)
  | inr t ↦ rw t refl
]

pub next_cluster-set_self :
    (cluster value : ℕ) (f : Fat)
    → IsTable f
    → is_valid_data_cluster f cluster ≡ true
    → value < 2 ^ 28
    → next_cluster (set_cluster cluster value f) cluster ≡ value
unfolding next_cluster
next_cluster-set_self cluster value f h t small =
    let same : is_valid_data_cluster (set_cluster cluster value f) cluster ≡ true =
      rw (total_clusters-set cluster value f) t in
    rw (same, entry-set_self cluster value f h t small) (bit_and-low28 value small)

pub next_cluster-set_ne :
    (cluster value other : ℕ) (f : Fat)
    → cluster ≢ other
    → next_cluster (set_cluster cluster value f) other ≡ next_cluster f other
unfolding next_cluster
next_cluster-set_ne cluster value other f ne =
    rw (total_clusters-set cluster value f, entry-set_ne cluster value other f ne) refl

not_free_later :
    (lo hi : ℕ) (f : Fat)
    → entry f lo ≢ 0
    → ((c : ℕ) → suc lo ≤ c → c < hi → entry f c ≢ 0)
    → (c : ℕ) → lo ≤ c
    → c < hi
    → entry f c ≢ 0
not_free_later lo hi f first later c above below = elim (Bool-cases (c == lo)) [
  | inl t ↦ let e : lo ≡ c = ground arith in subst (λ d. entry f d ≢ 0) e first
  | inr t ↦ later c (ground arith) below
]

-- What the search from `lo` on finds.
find_free_from-finds :
    (count lo : ℕ) (f : Fat)
    → 0 < lo
    → ((find_free_from count lo f ≡ 0) × ((c : ℕ) → lo ≤ c → c < lo + count → entry f c ≢ 0))
      ⊎ ((lo ≤ find_free_from count lo f)
          × (find_free_from count lo f < lo + count)
          × (entry f (find_free_from count lo f) ≡ 0)
          × ((c : ℕ) → lo ≤ c → c < find_free_from count lo f → entry f c ≢ 0))
unfolding find_free_from
find_free_from-finds zero lo f pos = inl (refl, λ c above below. absurd (omega arith))
find_free_from-finds (suc count) lo f pos = elim (Bool-cases (get_or f.entries lo 0 == 0)) [
  | inl t ↦
      rw t (inr (omega arith, omega arith, ground arith, λ c above below. absurd (omega arith)))
  | inr t ↦ rw t (elim (find_free_from-finds count (suc lo) f (omega arith)) [
    | inl p ↦ inl (
      p.0,
      not_free_later lo (lo + suc count) f (ground arith)
          (λ c above below. p.1 c above (omega arith)),
    )
    | inr p ↦ inr (
      omega (arith, p.0),
      omega (arith, p.1),
      p.2,
      not_free_later lo (find_free_from count (suc lo) f) f (ground arith) p.3,
    )
  ])
]

-- No cluster is free, or the first free one is found.
pub find_free_cluster-finds :
    (f : Fat)
    → ((find_free_cluster f ≡ 0) × ((c : ℕ) → is_valid_data_cluster f c ≡ true → entry f c ≢ 0))
      ⊎ ((is_valid_data_cluster f (find_free_cluster f) ≡ true)
          × (entry f (find_free_cluster f) ≡ 0))
unfolding find_free_cluster
find_free_cluster-finds f = elim (find_free_from-finds (f.total_clusters - 2) 2 f (omega arith)) [
  | inl p ↦ inl (p.0, λ c t. p.1 c (ground arith) (ground arith))
  | inr p ↦ inr (ground (arith, p.0, p.1), p.2)
]
