-- ===== src/Block/Nodes.antt =====
-- The firmware's device path as a list of nodes, in the layout of the UEFI specification, and what
-- the searches of kernel/block.c make of its bytes.
use funny_os.Common.{
  get_or-append, ℕ, zero, suc, ◌+◌, ◌/◌, ◌%◌, ◌<◌, ◌≡◌, refl, sym, ◌∙◌, ◌≢◌, ◌⊎◌, Option, some,
  List, [], ◌∷◌, ◌++◌, arith, length, get_or, length-append, All,
}
use funny_os.Block.{byte_at, BlockPathParseResult, absent, found, BlockPciPathHop}

-- A node of a path: a PCI device, a SATA disk, an ATAPI drive, or one that the kernel passes over.
pub data Node : Type 0 where
  pci : (function device : ℕ) → Node
  sata : (port multiplier : ℕ) → Node
  atapi : (channel drive : ℕ) → Node
  other : (type subtype : ℕ) → List ℕ → Node

-- Type, subtype, length and data. Numbers of two bytes have the low one first; the logical unit of a
-- disk is 0.
abbrev pub encode : Node → List ℕ
encode (pci function device) = 1 ∷ 1 ∷ 6 ∷ 0 ∷ function ∷ device ∷ []
encode (sata port multiplier) =
    3 ∷ 0x12 ∷ 10 ∷ 0 ∷ port % 256 ∷ port / 256 ∷ multiplier % 256 ∷ multiplier / 256 ∷ 0 ∷ 0 ∷ []
encode (atapi channel drive) = 3 ∷ 1 ∷ 8 ∷ 0 ∷ channel ∷ drive ∷ 0 ∷ 0 ∷ []
encode (other type subtype data_bytes) =
    type ∷ subtype ∷ (length data_bytes + 4) % 256 ∷ (length data_bytes + 4) / 256 ∷ data_bytes

-- The nodes and the end of the path.
abbrev pub encode_path : List Node → List ℕ
encode_path [] = 0x7f ∷ 0xff ∷ 4 ∷ 0 ∷ []
encode_path (n ∷ ns) = encode n ++ encode_path ns

-- The node can be written in its layout, and names a disk that the kernel can address.
abbrev pub IsNode : Node → Type 0
IsNode (pci function device) = (function < 256) × (device < 256)
IsNode (sata port multiplier) = (port < 32) × ((multiplier ≡ 0) ⊎ (multiplier ≡ 0xffff))
IsNode (atapi channel drive) = (channel < 2) × (drive < 2)
IsNode (other type subtype data_bytes) =
    (type < 256)
    × (subtype < 256)
    × (length data_bytes + 4 < 0x1_0000)
    × All (λ c. c < 256) data_bytes
    × ((type ≢ 1) ⊎ (subtype ≢ 1))
    × ((type ≢ 3) ⊎ (subtype ≢ 0x12))
    × ((type ≢ 3) ⊎ (subtype ≢ 1))
    × ((type ≢ 0x7f) ⊎ (subtype ≢ 0xff))

-- The PCI devices on the way, from the root on.
abbrev pub hops_of : List Node → List BlockPciPathHop
hops_of [] = []
hops_of (pci function device ∷ ns) = record { device = device; function = function } ∷ hops_of ns
hops_of (_ ∷ ns) = hops_of ns

-- The port of the last SATA disk, if any.
abbrev pub port_of : Option ℕ → List Node → Option ℕ
port_of found_port [] = found_port
port_of found_port (sata port multiplier ∷ ns) = port_of (some port) ns
port_of found_port (_ ∷ ns) = port_of found_port ns

-- The first ATAPI drive, if any.
abbrev pub drive_of : List Node → BlockPathParseResult
drive_of [] = absent
drive_of (atapi channel drive ∷ ns) = found (record { channel = channel; drive = drive })
drive_of (_ ∷ ns) = drive_of ns

-- From a place on, the bytes are these.
abbrev pub Holds : List ℕ → ℕ → List ℕ → Type 0
Holds bytes at xs = (k : ℕ) → k < length xs → byte_at bytes (at + k) ≡ get_or xs k 0

All-get_or : (xs : List ℕ) (k : ℕ) → All (λ c. c < 256) xs → get_or xs k 0 < 256
All-get_or [] k h = omega arith
All-get_or (x ∷ xs) zero h = h.0
All-get_or (x ∷ xs) (suc k) h = All-get_or xs k h.1

All-append :
    (xs ys : List ℕ) → All (λ c. c < 256) xs → All (λ c. c < 256) ys → All (λ c. c < 256) (xs ++ ys)
All-append [] ys h k = k
All-append (x ∷ xs) ys h k = (h.0, All-append xs ys h.1 k)

encode-All : (n : Node) → IsNode n → All (λ c. c < 256) (encode n)
encode-All (pci function device) v = omega (arith, v.0, v.1)
encode-All (sata port multiplier) v = ground (arith, v.0, v.1)
encode-All (atapi channel drive) v = omega (arith, v.0, v.1)
encode-All (other type subtype data_bytes) v =
    (v.0, (v.1, (omega (arith, v.2), (omega (arith, v.2), v.3))))

encode_path-All : (ns : List Node) → All IsNode ns → All (λ c. c < 256) (encode_path ns)
encode_path-All [] v = omega arith
encode_path-All (n ∷ ns) v =
    All-append (encode n) (encode_path ns) (encode-All n v.0) (encode_path-All ns v.1)

pub Holds-start : (ns : List Node) → All IsNode ns → Holds (encode_path ns) 0 (encode_path ns)
Holds-start ns v k h =
    let e : 0 + k ≡ k = omega arith in
    rw e (omega (arith, All-get_or (encode_path ns) k (encode_path-All ns v)))

get_or-past : (xs ys : List ℕ) (k : ℕ) → get_or (xs ++ ys) (length xs + k) 0 ≡ get_or ys k 0
get_or-past [] ys k = let e : 0 + k ≡ k = omega arith in rw e refl
get_or-past (x ∷ xs) ys k =
    let e : suc (length xs) + k ≡ suc (length xs + k) = omega arith in rw e (get_or-past xs ys k)

pub Holds-left :
    (bytes : List ℕ) (at : ℕ) (xs ys : List ℕ) → Holds bytes at (xs ++ ys) → Holds bytes at xs
Holds-left bytes at xs ys h k le =
    h k (omega (arith, length-append xs ys)) ∙ sym (get_or-append xs ys k 0 le)

pub Holds-right :
    (bytes : List ℕ) (at : ℕ) (xs ys : List ℕ)
    → Holds bytes at (xs ++ ys)
    → Holds bytes (at + length xs) ys
Holds-right bytes at xs ys h k le =
    let e : at + length xs + k ≡ at + (length xs + k) = omega arith in
    rw e (h (length xs + k) (omega (arith, length-append xs ys)) ∙ get_or-past xs ys k)
