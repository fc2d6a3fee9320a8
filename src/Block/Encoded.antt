-- ===== src/Block/Encoded.antt =====
-- What the search for a SATA disk of kernel/block.c finds in the bytes of a list of nodes.
use funny_os.Common.{
  ℕ, zero, suc, ◌+◌, ◌*◌, ◌≤◌, ◌<◌, ◌≡◌, refl, sym, ap, subst, ◌∙◌, true, false, not, ◌&&◌, some,
  List, [], ◌∷◌, ◌++◌, arith, ltb, leb, ◌==◌, length, get_or, length-append, All,
}
use funny_os.Block.{
  byte_at, half_at, device_path_length, device_path_is_end, Visit, next, go_on, walk_nodes,
  BlockPciPathHop, max_pci_path_depth, AhciPath, visit_ahci,
}
use funny_os.Block.Nodes.{
  Node, pci, sata, atapi, other, encode, encode_path, IsNode, hops_of, port_of, Holds, Holds-left,
  Holds-right,
}

pub byte_at-Holds :
    (bytes : List ℕ) (at : ℕ) (xs : List ℕ)
    → Holds bytes at xs
    → 0 < length xs
    → byte_at bytes at ≡ get_or xs 0 0
byte_at-Holds bytes at xs h le =
    let e : at + 0 ≡ at = omega arith in subst (λ i. byte_at bytes i ≡ get_or xs 0 0) e (h 0 le)

half_at-Holds :
    (bytes : List ℕ) (at k : ℕ) (xs : List ℕ)
    → Holds bytes at xs
    → k + 1 < length xs
    → half_at bytes (at + k) ≡ get_or xs k 0 + get_or xs (k + 1) 0 * 256
half_at-Holds bytes at k xs h le =
    let e : at + k + 1 ≡ at + (k + 1) = omega arith in rw (e, h k (omega arith), h (k + 1) le) refl

-- How the loop sees a node.
pub record Head (bytes : List ℕ) (at : ℕ) (n : Node) : Type 0 where
  pub long : device_path_length bytes at ≡ length (encode n)
  pub not_end : device_path_is_end bytes at ≡ false

pub Holds-Head :
    (bytes : List ℕ) (at : ℕ) (n : Node) → IsNode n → Holds bytes at (encode n) → Head bytes at n
Holds-Head bytes at (pci function device) v h = record {
  long = half_at-Holds bytes at 2 (encode (pci function device)) h (omega arith);
  not_end = rw (byte_at-Holds bytes at (encode (pci function device)) h (omega arith)) refl;
}
Holds-Head bytes at (sata port multiplier) v h = record {
  long = half_at-Holds bytes at 2 (encode (sata port multiplier)) h (omega arith);
  not_end = rw (byte_at-Holds bytes at (encode (sata port multiplier)) h (omega arith)) refl;
}
Holds-Head bytes at (atapi channel drive) v h = record {
  long = half_at-Holds bytes at 2 (encode (atapi channel drive)) h (omega arith);
  not_end = rw (byte_at-Holds bytes at (encode (atapi channel drive)) h (omega arith)) refl;
}
Holds-Head bytes at (other type subtype data_bytes) v h = record {
  long =
      half_at-Holds bytes at 2 (encode (other type subtype data_bytes)) h (omega arith)
      ∙ omega (arith, v.2);
  not_end =
      rw
        (
          byte_at-Holds bytes at (encode (other type subtype data_bytes)) h (omega arith),
          h 1 (omega arith),
        )
        (ground (arith, v.7));
}

pub length-encode_ge : (n : Node) → 4 ≤ length (encode n)
length-encode_ge (pci function device) = omega arith
length-encode_ge (sata port multiplier) = omega arith
length-encode_ge (atapi channel drive) = omega arith
length-encode_ge (other type subtype data_bytes) = omega arith

module _ {S A : Type 0} (visit : (at node_length : ℕ) → S → Visit S A) (bad : A) (bytes : List ℕ)
    (size : ℕ) where
  pub walk_nodes-step :
      (rounds at : ℕ) (n : Node) (s : S)
      → Head bytes at n
      → at + length (encode n) ≤ size
      → walk_nodes visit bad bytes size (suc rounds) at s
        ≡ go_on
            (walk_nodes visit bad bytes size rounds (at + length (encode n)))
            (visit at (length (encode n)) s)
  unfolding walk_nodes
  walk_nodes-step rounds at n s head fits =
      let long = length-encode_ge n in
      let t1 : (leb (at + 4) size && ltb at size) ≡ true = ground arith in
      let t2 : ltb (length (encode n)) 4 ≡ false = ground arith in
      let t3 : ltb size (at + length (encode n)) ≡ false = ground arith in
      rw (t1, head.long, t2, t3, head.not_end) refl

  pub walk_nodes-end :
      (rounds at : ℕ) (s : S)
      → Holds bytes at (encode_path [])
      → at + 4 ≡ size
      → walk_nodes visit bad bytes size (suc rounds) at s ≡ some (next s)
  unfolding walk_nodes
  walk_nodes-end rounds at s h fits =
      let t1 : (leb (at + 4) size && ltb at size) ≡ true = ground arith in
      let t3 : ltb size (at + 4) ≡ false = ground arith in
      let long : device_path_length bytes at ≡ 4 =
        half_at-Holds bytes at 2 (encode_path []) h (omega arith) in
      let t4 : device_path_is_end bytes at ≡ true =
        rw (byte_at-Holds bytes at (encode_path []) h (omega arith), h 1 (omega arith)) refl in
      rw (t1, long, t3, t4) refl

-- What a node adds to the path of a SATA disk.
abbrev step_ahci : Node → AhciPath → AhciPath
step_ahci (pci function device) p = record p {
  hops = p.hops ++ (record { device = device; function = function } ∷ []);
}
step_ahci (sata port multiplier) p = record p { port = some port }
step_ahci _ p = p

visit_ahci-step :
    (bytes : List ℕ) (at : ℕ) (n : Node) (p : AhciPath)
    → IsNode n
    → Holds bytes at (encode n)
    → length p.hops + length (hops_of (n ∷ [])) ≤ 8
    → visit_ahci bytes at (length (encode n)) p ≡ next (step_ahci n p)
unfolding visit_ahci
visit_ahci-step bytes at (pci function device) p v h depth =
    let b0 = byte_at-Holds bytes at (encode (pci function device)) h (omega arith) in
    let t : leb max_pci_path_depth (length p.hops) ≡ false = ground arith in
    rw (b0, h 1 (omega arith), h 4 (omega arith), h 5 (omega arith), t) refl
visit_ahci-step bytes at (sata port multiplier) p v h depth =
    let b0 = byte_at-Holds bytes at (encode (sata port multiplier)) h (omega arith) in
    let q : half_at bytes (at + 4) ≡ port =
      half_at-Holds bytes at 4 (encode (sata port multiplier)) h (omega arith) ∙ omega arith in
    let m : half_at bytes (at + 6) ≡ multiplier =
      half_at-Holds bytes at 6 (encode (sata port multiplier)) h (omega arith) ∙ omega arith in
    let l : half_at bytes (at + 8) ≡ 0 =
      half_at-Holds bytes at 8 (encode (sata port multiplier)) h (omega arith) in
    let t1 : leb 32 port ≡ false = ground (arith, v.0) in
    let t2 : (not (multiplier == 0) && not (multiplier == 0xffff)) ≡ false = ground (arith, v.1) in
    rw (b0, h 1 (omega arith), q, m, l, t1, t2) refl
visit_ahci-step bytes at (atapi channel drive) p v h depth =
    rw (byte_at-Holds bytes at (encode (atapi channel drive)) h (omega arith), h 1 (omega arith))
      refl
visit_ahci-step bytes at (other type subtype data_bytes) p v h depth =
    let t1 : (type == 1 && subtype == 1) ≡ false = ground (arith, v.4) in
    let t2 : (type == 3 && subtype == 0x12) ≡ false = ground (arith, v.5) in
    rw
      (
        byte_at-Holds bytes at (encode (other type subtype data_bytes)) h (omega arith),
        h 1 (omega arith),
        t1,
        t2,
      )
      refl

-- What all nodes add.
abbrev gather : AhciPath → List Node → AhciPath
gather p ns = record { hops = p.hops ++ hops_of ns; port = port_of p.port ns }

append-empty : (xs : List BlockPciPathHop) → xs ++ [] ≡ xs
append-empty [] = refl
append-empty (x ∷ xs) = ap (λ ys. x ∷ ys) (append-empty xs)

append-snoc :
    (xs : List BlockPciPathHop) (x : BlockPciPathHop) (ys : List BlockPciPathHop)
    → (xs ++ (x ∷ [])) ++ ys ≡ xs ++ (x ∷ ys)
append-snoc [] x ys = refl
append-snoc (z ∷ xs) x ys = ap (λ zs. z ∷ zs) (append-snoc xs x ys)

gather-step :
    (p : AhciPath) (n : Node) (ns : List Node) → gather (step_ahci n p) ns ≡ gather p (n ∷ ns)
gather-step p (pci function device) ns =
    ap (λ hops. record { hops = hops; port = port_of p.port ns })
      (append-snoc p.hops _ (hops_of ns))
gather-step p (sata port multiplier) ns = refl
gather-step p (atapi channel drive) ns = refl
gather-step p (other type subtype data_bytes) ns = refl

step_ahci-depth :
    (p : AhciPath) (n : Node) (ns : List Node)
    → length (step_ahci n p).hops + length (hops_of ns) ≡ length p.hops + length (hops_of (n ∷ ns))
step_ahci-depth p (pci function device) ns =
    omega (arith, length-append p.hops (record { device = device; function = function } ∷ []))
step_ahci-depth p (sata port multiplier) ns = refl
step_ahci-depth p (atapi channel drive) ns = refl
step_ahci-depth p (other type subtype data_bytes) ns = refl

hops_of-le : (n : Node) (ns : List Node) → length (hops_of (n ∷ [])) ≤ length (hops_of (n ∷ ns))
hops_of-le (pci function device) ns = omega arith
hops_of-le (sata port multiplier) ns = omega arith
hops_of-le (atapi channel drive) ns = omega arith
hops_of-le (other type subtype data_bytes) ns = omega arith

pub walk_ahci :
    (bytes : List ℕ) (size rounds at : ℕ) (ns : List Node) (p : AhciPath)
    → All IsNode ns
    → Holds bytes at (encode_path ns)
    → length p.hops + length (hops_of ns) ≤ 8
    → at + length (encode_path ns) ≡ size
    → size < at + rounds
    → walk_nodes (visit_ahci bytes) tt bytes size rounds at p ≡ some (next (gather p ns))
walk_ahci bytes size zero at ns p v h depth fits enough = absurd (omega arith)
walk_ahci bytes size (suc rounds) at [] p v h depth fits enough =
    walk_nodes-end (visit_ahci bytes) tt bytes size rounds at p h fits
    ∙ ap (λ hops. some (next (record p { hops = hops }))) (sym (append-empty p.hops))
walk_ahci bytes size (suc rounds) at (n ∷ ns) p v h depth fits enough =
    let here = Holds-left bytes at (encode n) (encode_path ns) h in
    let there = Holds-right bytes at (encode n) (encode_path ns) h in
    let long = length-append (encode n) (encode_path ns) in
    walk_nodes-step (visit_ahci bytes) tt bytes size rounds at n p (Holds-Head bytes at n v.0 here)
      (omega (arith, long))
    ∙ ap (go_on (walk_nodes (visit_ahci bytes) tt bytes size rounds (at + length (encode n))))
        (visit_ahci-step bytes at n p v.0 here (omega (arith, hops_of-le n ns)))
    ∙ walk_ahci bytes size rounds (at + length (encode n)) ns (step_ahci n p) v.1 there
        (omega (arith, step_ahci-depth p n ns)) (omega (arith, long))
        (omega (arith, length-encode_ge n))
    ∙ ap (λ q. some (next q)) (gather-step p n ns)
