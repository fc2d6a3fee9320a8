-- ===== src/Block/Path.antt =====
-- The searches of the firmware's device path end, and read no byte past its size.
use funny_os.Common.{
  ℕ, zero, suc, ◌+◌, ◌≤◌, ◌<◌, ◌≡◌, refl, ap, inl, inr, ◌&&◌, Option, none, some, List, [], arith,
  ltb, leb, if◌then◌else◌, Bool-cases, get_or,
}
use funny_os.Block.{
  half_at, device_path_length, is_node, device_path_is_end, Visit, next, stop, go_on, walk_nodes,
  BlockPathParseResult, invalid, absent, visit_ata, absent_if_none, block_boot_path_to_ata,
  AhciPath, visit_ahci, AhciDeviceAddress, at_port, resolved, block_boot_path_to_ahci,
}
use funny_os.Pci.{Ports, Pci}
use funny_os.BootInfo.{BootInfo}

-- The same bytes below a place.
abbrev pub Same : (size : ℕ) (bytes bytes' : List ℕ) → Type 0
Same size bytes bytes' = (i : ℕ) → i < size → get_or bytes i 0 ≡ get_or bytes' i 0

module _ (size : ℕ) (bytes bytes' : List ℕ) (same : Same size bytes bytes') where
  half_at-same : (at : ℕ) → at + 2 ≤ size → half_at bytes at ≡ half_at bytes' at
  half_at-same at h = rw (same at (omega arith), same (at + 1) (omega arith)) refl

  is_node-same :
      (type subtype at : ℕ)
      → at + 4 ≤ size
      → is_node type subtype bytes at ≡ is_node type subtype bytes' at
  is_node-same type subtype at h = rw (same at (omega arith), same (at + 1) (omega arith)) refl

module _ {S A : Type 0} (bad : A) (size : ℕ) where
  go_on-ends :
      (rest : S → Option (Visit S A)) (x : Visit S A)
      → ((s : S) → (r : Visit S A) × (rest s ≡ some r))
      → (r : Visit S A) × (go_on rest x ≡ some r)
  go_on-ends rest (next s) h = h s
  go_on-ends rest (stop a) h = (stop a, refl)

  -- Each round goes four bytes on at least.
  pub walk_nodes-ends :
      (visit : (at node_length : ℕ) → S → Visit S A) (bytes : List ℕ) (rounds at : ℕ) (s : S)
      → at ≤ size
      → size < at + rounds
      → (r : Visit S A) × (walk_nodes visit bad bytes size rounds at s ≡ some r)
  unfolding walk_nodes
  walk_nodes-ends visit bytes zero at s within h = absurd (omega arith)
  walk_nodes-ends visit bytes (suc rounds) at s within h =
      let len = device_path_length bytes at in
      elim (Bool-cases (leb (at + 4) size && ltb at size)) [
        | inr t ↦ rw t (next s, refl)
        | inl t ↦ elim (Bool-cases (ltb len 4)) [
          | inl u ↦ rw (t, u) (stop bad, refl)
          | inr u ↦ elim (Bool-cases (ltb size (at + len))) [
            | inl x ↦ rw (t, u, x) (stop bad, refl)
            | inr x ↦ elim (Bool-cases (device_path_is_end bytes at)) [
              | inl y ↦ rw (t, u, x, y) (next s, refl)
              | inr y ↦
                  rw (t, u, x, y)
                    (go_on-ends _ (visit at len s) (λ s'.
                      walk_nodes-ends visit bytes rounds (at + len) s' (ground (arith, x))
                        (ground (arith, u))))
            ]
          ]
        ]
      ]

  go_on-same :
      (f g : S → Option (Visit S A)) (x : Visit S A) → ((s : S) → f s ≡ g s) → go_on f x ≡ go_on g x
  go_on-same f g (next s) h = h s
  go_on-same f g (stop a) h = refl

  module _ (bytes bytes' : List ℕ) (same : Same size bytes bytes') where
    -- Two visits that agree on the nodes that lie in the path give the same walk.
    pub walk_nodes-same :
        (visit visit' : (at node_length : ℕ) → S → Visit S A)
        → ((at len : ℕ) (s : S) → 4 ≤ len → at + len ≤ size → visit at len s ≡ visit' at len s)
        → (rounds at : ℕ) (s : S)
        → walk_nodes visit bad bytes size rounds at s
          ≡ walk_nodes visit' bad bytes' size rounds at s
    unfolding walk_nodes
    walk_nodes-same visit visit' agree zero at s = refl
    walk_nodes-same visit visit' agree (suc rounds) at s =
        elim (Bool-cases (leb (at + 4) size && ltb at size)) [
          | inr t ↦ rw t refl
          | inl t ↦
              let inside : at + 4 ≤ size = ground (arith, t) in
              let length_same = half_at-same size bytes bytes' same (at + 2) (omega arith) in
              let end_same = is_node-same size bytes bytes' same 0x7f 0xff at inside in
              let len = device_path_length bytes' at in
              rw (t, length_same, end_same)
                (elim (Bool-cases (ltb len 4)) [
                  | inl u ↦ rw u refl
                  | inr u ↦ elim (Bool-cases (ltb size (at + len))) [
                    | inl x ↦ rw (u, x) refl
                    | inr x ↦ elim (Bool-cases (device_path_is_end bytes' at)) [
                      | inl y ↦ rw (u, x, y) refl
                      | inr y ↦
                          rw (u, x, y, agree at len s (ground (arith, u)) (ground (arith, x)))
                            (go_on-same _ _ (visit' at len s)
                              (λ s'. walk_nodes-same visit visit' agree rounds (at + len) s'))
                    ]
                  ]
                ])
        ]

module _ (size : ℕ) (bytes bytes' : List ℕ) (same : Same size bytes bytes') where
  visit_ata-same :
      (at len : ℕ) (s : Unit {0})
      → 4 ≤ len
      → at + len ≤ size
      → visit_ata bytes at len s ≡ visit_ata bytes' at len s
  unfolding visit_ata
  visit_ata-same at len s some_length inside =
      let kind = is_node-same size bytes bytes' same 3 1 at (omega arith) in
      elim (Bool-cases (is_node 3 1 bytes' at && leb 8 len)) [
        | inr t ↦ rw (kind, t) refl
        | inl t ↦
            let long : 8 ≤ len = ground (arith, t) in
            rw (kind, t, same (at + 4) (omega (arith, long)), same (at + 5) (omega (arith, long)))
              refl
      ]

  visit_ahci-same :
      (at len : ℕ) (s : AhciPath)
      → 4 ≤ len
      → at + len ≤ size
      → visit_ahci bytes at len s ≡ visit_ahci bytes' at len s
  unfolding visit_ahci
  visit_ahci-same at len s some_length inside =
      let pci = is_node-same size bytes bytes' same 1 1 at (omega arith) in
      let sata = is_node-same size bytes bytes' same 3 0x12 at (omega arith) in
      elim (Bool-cases (is_node 1 1 bytes' at && leb 6 len)) [
        | inl t ↦
            let long : 6 ≤ len = ground (arith, t) in
            rw (pci, t, same (at + 4) (omega (arith, long)), same (at + 5) (omega (arith, long)))
              refl
        | inr t ↦ elim (Bool-cases (is_node 3 0x12 bytes' at && leb 10 len)) [
          | inr u ↦ rw (pci, t, sata, u) refl
          | inl u ↦
              let long : 10 ≤ len = ground (arith, u) in
              rw
                (
                  pci,
                  t,
                  sata,
                  u,
                  half_at-same size bytes bytes' same (at + 4) (omega (arith, long)),
                  half_at-same size bytes bytes' same (at + 6) (omega (arith, long)),
                  half_at-same size bytes bytes' same (at + 8) (omega (arith, long)),
                )
                refl
        ]
      ]

-- The searches of the device path read no byte of its array from its size on: boot information
-- whose paths have the same bytes up to there gives the same answers.
pub block_boot_path-Same :
    {W : Type 0} (ports : Ports W) (info : BootInfo) (bytes : List ℕ) (s : Pci W)
    → Same info.boot_device_path_size info.boot_device_path bytes
    → (block_boot_path_to_ata info
        ≡ block_boot_path_to_ata (record info { boot_device_path = bytes }))
      × (block_boot_path_to_ahci ports info s
          ≡ block_boot_path_to_ahci ports (record info { boot_device_path = bytes }) s)
unfolding block_boot_path_to_ata block_boot_path_to_ahci
block_boot_path-Same ports info bytes s same =
    let size = info.boot_device_path_size in
    (
      ap (λ r. if ltb size 4 then some absent else absent_if_none r)
          (walk_nodes-same invalid size info.boot_device_path bytes same _ _
            (visit_ata-same size info.boot_device_path bytes same) (suc size) 0 tt),
      ap (λ r. if ltb size 4 then some (none, s) else resolved ports r s)
          (walk_nodes-same tt size info.boot_device_path bytes same _ _
            (visit_ahci-same size info.boot_device_path bytes same) (suc size) 0 _),
    )

absent_if_none-some :
    (o : Option (Visit (Unit {0}) BlockPathParseResult)) (x : Visit (Unit {0}) BlockPathParseResult)
    → o ≡ some x
    → (r : BlockPathParseResult) × (absent_if_none o ≡ some r)
absent_if_none-some o (next s) e = (absent, rw e refl)
absent_if_none-some o (stop r) e = (r, rw e refl)

pub block_boot_path_to_ata-ends :
    (info : BootInfo) → (r : BlockPathParseResult) × (block_boot_path_to_ata info ≡ some r)
unfolding block_boot_path_to_ata
block_boot_path_to_ata-ends info = elim (Bool-cases (ltb info.boot_device_path_size 4)) [
  | inl t ↦ (absent, rw t refl)
  | inr t ↦
      let size = info.boot_device_path_size in
      let visit = visit_ata info.boot_device_path in
      let (x, e) =
        walk_nodes-ends invalid size visit info.boot_device_path (suc size) 0 tt (omega arith)
          (omega arith) in
      rw t (absent_if_none-some _ x e)
]

resolved-some :
    {W : Type 0} (ports : Ports W) (s : Pci W) (o : Option (Visit AhciPath (Unit {0})))
    (x : Visit AhciPath (Unit {0}))
    → o ≡ some x
    → (r : Option AhciDeviceAddress × Pci W) × (resolved ports o s ≡ some r)
resolved-some ports s o (stop _) e = ((none, s), rw e refl)
resolved-some ports s o (next p) e = (at_port ports p.port p.hops s, rw e refl)

pub block_boot_path_to_ahci-ends :
    {W : Type 0} (ports : Ports W) (info : BootInfo) (s : Pci W)
    → (r : Option AhciDeviceAddress × Pci W) × (block_boot_path_to_ahci ports info s ≡ some r)
unfolding block_boot_path_to_ahci
block_boot_path_to_ahci-ends ports info s = elim (Bool-cases (ltb info.boot_device_path_size 4)) [
  | inl t ↦ ((none, s), rw t refl)
  | inr t ↦
      let size = info.boot_device_path_size in
      let visit = visit_ahci info.boot_device_path in
      let (x, e) =
        walk_nodes-ends tt size visit info.boot_device_path (suc size) 0
          (record { hops = []; port = none }) (omega arith) (omega arith) in
      rw t (resolved-some ports s _ x e)
]
