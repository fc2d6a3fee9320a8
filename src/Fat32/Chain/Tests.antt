-- ===== src/Fat32/Chain/Tests.antt =====
-- Runs on a table of eight clusters: the chain 2, 3, 5 and the free clusters 4, 6 and 7.
use funny_os.Common.{ℕ, ◌≡◌, ◌≢◌, ◌⊎◌, refl, true, List, [], ◌∷◌, some, arith}
use funny_os.Fat32.Chain.{
  Fat, end_of_chain, ok, no_space, is_valid_data_cluster, next_cluster, set_cluster,
  free_cluster_chain, find_free_cluster, find_free_from, last_of_chain, append_cluster_to_chain,
  trim_cluster_chain,
}
use funny_os.Fat32.Chain.Table.{IsTable, entry}
use funny_os.Fat32.Chain.Walk.{IsChain}
use funny_os.Fat32.Chain.Free.{Freed, free_cluster_chain-Freed, free_cluster_chain-ends}
use funny_os.Fat32.Chain.Append.{Appended, append_cluster_to_chain-Appended}
use funny_os.Fat32.Chain.Trim.{Trimmed, trim_cluster_chain-Trimmed}

abbrev eight : Fat
eight = record { entries = 0 ∷ 0 ∷ 3 ∷ 5 ∷ 0 ∷ end_of_chain ∷ 0 ∷ 0 ∷ []; total_clusters = 8 }

abbrev three : List ℕ
three = 2 ∷ 3 ∷ 5 ∷ []

eight-IsTable : IsTable eight
eight-IsTable = record { covers = omega arith; small = omega arith }

three-IsChain : IsChain eight 2 three
unfolding next_cluster
three-IsChain = (refl, refl, (refl, refl, (refl, refl, omega arith)))

-- A cycle 2, 3, 2.
abbrev cycle : Fat
cycle = record { entries = 0 ∷ 0 ∷ 3 ∷ 2 ∷ []; total_clusters = 4 }

free_cycle :
    free_cluster_chain 4 2 cycle
    ≡ some (record { entries = 0 ∷ 0 ∷ 0 ∷ 0 ∷ []; total_clusters = 4 })
unfolding free_cluster_chain next_cluster set_cluster
free_cycle = refl

append_takes_four :
    append_cluster_to_chain 3 2 eight
    ≡ some (
      ok,
      4,
      record { entries = 0 ∷ 0 ∷ 3 ∷ 5 ∷ end_of_chain ∷ 4 ∷ 0 ∷ 0 ∷ []; total_clusters = 8 },
    )
unfolding append_cluster_to_chain find_free_cluster find_free_from last_of_chain next_cluster
    set_cluster
append_takes_four = refl

free_cluster_chain-Freed_example :
    (f' : Fat) × (free_cluster_chain 4 2 eight ≡ some f') × Freed three eight f'
free_cluster_chain-Freed_example =
    free_cluster_chain-Freed 4 2 three eight eight-IsTable three-IsChain (omega arith)

free_cluster_chain-ends_example : (f' : Fat) × (free_cluster_chain 4 2 cycle ≡ some f')
free_cluster_chain-ends_example = free_cluster_chain-ends 4 2 cycle (omega arith)

append_cluster_to_chain-Appended_example :
    ((append_cluster_to_chain 3 2 eight ≡ some (no_space, 0, eight))
      × ((c : ℕ) → is_valid_data_cluster eight c ≡ true → entry eight c ≢ 0))
    ⊎ ((free : ℕ) × (f' : Fat) × (append_cluster_to_chain 3 2 eight ≡ some (ok, free, f'))
        × Appended 2 three free eight f')
append_cluster_to_chain-Appended_example =
    append_cluster_to_chain-Appended 3 2 2 (3 ∷ 5 ∷ []) eight eight-IsTable three-IsChain
      (omega arith)

trim_cluster_chain-Trimmed_example :
    (f' : Fat) × (trim_cluster_chain 3 2 2 eight ≡ some (ok, 2, f')) × Trimmed 2 2 three eight f'
trim_cluster_chain-Trimmed_example =
    trim_cluster_chain-Trimmed 1 3 2 three eight eight-IsTable three-IsChain (omega arith)
      (omega arith)
