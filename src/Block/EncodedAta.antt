-- ===== src/Block/EncodedAta.antt =====
-- What the search for an ATA drive of kernel/block.c finds in the bytes of a list of nodes.
use funny_os.Common.{
  ℕ, zero, suc, ◌+◌, ◌<◌, ◌≡◌, refl, ap, ◌∙◌, false, ◌||◌, Option, some, List, [], ◌∷◌, arith, ltb,
  length, length-append, All,
}
use funny_os.Block.{
  is_node, Visit, next, stop, go_on, walk_nodes, BlockPathParseResult, invalid, found, visit_ata,
  absent_if_none,
}
use funny_os.Block.Nodes.{
  Node, pci, sata, atapi, other, encode, encode_path, IsNode, drive_of, Holds, Holds-left,
  Holds-right,
}
use funny_os.Block.Encoded.{
  byte_at-Holds, Holds-Head, length-encode_ge, walk_nodes-step, walk_nodes-end,
}

visit_ata-other :
    (bytes : List ℕ) (at node_length : ℕ)
    → is_node 3 1 bytes at ≡ false
    → visit_ata bytes at node_length tt ≡ next tt
unfolding visit_ata
visit_ata-other bytes at node_length e = rw e refl

visit_ata-found :
    (bytes : List ℕ) (at channel drive : ℕ)
    → IsNode (atapi channel drive)
    → Holds bytes at (encode (atapi channel drive))
    → visit_ata bytes at 8 tt ≡ stop (found (record { channel = channel; drive = drive }))
unfolding visit_ata
visit_ata-found bytes at channel drive v h =
    let xs = encode (atapi channel drive) in
    let t : (ltb 1 channel || ltb 1 drive) ≡ false = ground (arith, v.0, v.1) in
    rw
      (
        byte_at-Holds bytes at xs h (omega arith),
        h 1 (omega arith),
        h 4 (omega arith),
        h 5 (omega arith),
        t,
      )
      refl

-- What a node says of an ATA drive, with those after it.
visit_ata-step :
    (bytes : List ℕ) (at : ℕ) (n : Node) (ns : List Node)
    (rest : Unit {0} → Option (Visit (Unit {0}) BlockPathParseResult))
    → IsNode n
    → Holds bytes at (encode n)
    → absent_if_none (rest tt) ≡ some (drive_of ns)
    → absent_if_none (go_on rest (visit_ata bytes at (length (encode n)) tt))
      ≡ some (drive_of (n ∷ ns))
visit_ata-step bytes at (pci function device) ns rest v h later =
    let e : is_node 3 1 bytes at ≡ false =
      rw (byte_at-Holds bytes at (encode (pci function device)) h (omega arith)) refl in
    rw (visit_ata-other bytes at 6 e) later
visit_ata-step bytes at (sata port multiplier) ns rest v h later =
    let xs = encode (sata port multiplier) in
    let e : is_node 3 1 bytes at ≡ false =
      rw (byte_at-Holds bytes at xs h (omega arith), h 1 (omega arith)) refl in
    rw (visit_ata-other bytes at 10 e) later
visit_ata-step bytes at (atapi channel drive) ns rest v h later =
    rw (visit_ata-found bytes at channel drive v h) refl
visit_ata-step bytes at (other type subtype data_bytes) ns rest v h later =
    let xs = encode (other type subtype data_bytes) in
    let e : is_node 3 1 bytes at ≡ false =
      rw (byte_at-Holds bytes at xs h (omega arith), h 1 (omega arith)) (ground (arith, v.6)) in
    rw (visit_ata-other bytes at (length xs) e) later

pub walk_ata :
    (bytes : List ℕ) (size rounds at : ℕ) (ns : List Node)
    → All IsNode ns
    → Holds bytes at (encode_path ns)
    → at + length (encode_path ns) ≡ size
    → size < at + rounds
    → absent_if_none (walk_nodes (visit_ata bytes) invalid bytes size rounds at tt)
      ≡ some (drive_of ns)
walk_ata bytes size zero at ns v h fits enough = absurd (omega arith)
walk_ata bytes size (suc rounds) at [] v h fits enough =
    ap absent_if_none (walk_nodes-end (visit_ata bytes) invalid bytes size rounds at tt h fits)
walk_ata bytes size (suc rounds) at (n ∷ ns) v h fits enough =
    let here = Holds-left bytes at (encode n) (encode_path ns) h in
    let there = Holds-right bytes at (encode n) (encode_path ns) h in
    let long = length-append (encode n) (encode_path ns) in
    let at' = at + length (encode n) in
    ap absent_if_none (
      walk_nodes-step (visit_ata bytes) invalid bytes size rounds at n tt
        (Holds-Head bytes at n v.0 here) (omega (arith, long)))
    ∙ visit_ata-step bytes at n ns (walk_nodes (visit_ata bytes) invalid bytes size rounds at') v.0
        here
        (walk_ata bytes size rounds at' ns v.1 there (omega (arith, long))
          (omega (arith, length-encode_ge n)))
