-- ===== src/Container/ByteArray/Chain.antt =====
-- The chain of blocks under a ByteArray (class ByteArray::Node of bytearray.h). A node is the
-- list of the bytes that `ptr` points to, as long as the node's `size`; a pointer into the chain
-- is the index of its node, and nullptr is `none`.
use server_frame.Prelude.{
  ℕ, zero, suc, ◌+◌, ◌*◌, ◌≤◌, ◌<◌, ◌≡◌, refl, sym, ap, ◌∙◌, List, [], ◌∷◌, ◌++◌, Option, none,
  some, arith, length, length-append, get_elem?, set, All, slice, overwrite, overwrite-append_left,
  overwrite-append_right, slice-append_left, slice-append_right, ltb, if◌then◌else◌, append_assoc,
}

-- All bytes of the chain, the first node's first.
abbrev pub contents : List (List ℕ) → List ℕ
contents [] = []
contents (n ∷ ns) = n ++ contents ns

-- Every node has the size of a block.
abbrev pub IsChain : ℕ → List (List ℕ) → Type 0
IsChain base ns = All (λ n. length n ≡ base) ns

-- The node with index `i`, or nullptr behind the last.
abbrev pub node_at : ℕ → ℕ → Option ℕ
node_at i count = if ltb i count then some i else none

pub length-contents :
    (base : ℕ) (ns : List (List ℕ)) → IsChain base ns → length (contents ns) ≡ length ns * base
length-contents base [] c = omega arith
length-contents base (n ∷ ns) c =
    omega (arith, length-append n (contents ns), length-contents base ns c.1, c.0)

pub contents-append : (ms ns : List (List ℕ)) → contents (ms ++ ns) ≡ contents ms ++ contents ns
contents-append [] ns = refl
contents-append (m ∷ ms) ns =
    ap (◌++◌ m) (contents-append ms ns) ∙ sym (append_assoc m (contents ms) (contents ns))

pub get_elem?-IsChain :
    (base : ℕ) (ns : List (List ℕ)) (i : ℕ)
    → IsChain base ns
    → i < length ns
    → (n : List ℕ) × (get_elem? ns i ≡ some n) × (length n ≡ base)
get_elem?-IsChain base [] i c h = absurd (omega arith)
get_elem?-IsChain base (n ∷ ns) zero c h = (n, refl, c.0)
get_elem?-IsChain base (n ∷ ns) (suc i) c h = get_elem?-IsChain base ns i c.1 (omega arith)

pub set-IsChain :
    (base : ℕ) (ns : List (List ℕ)) (i : ℕ) (n : List ℕ)
    → IsChain base ns
    → length n ≡ base
    → IsChain base (set ns i n)
set-IsChain base [] i n c e = tt
set-IsChain base (m ∷ ms) zero n c e = (e, c.1)
set-IsChain base (m ∷ ms) (suc i) n c e = (c.0, set-IsChain base ms i n c.1 e)

-- A write inside one node is a write to the whole chain, behind the nodes in front of it.
pub contents-set :
    (base : ℕ) (ns : List (List ℕ)) (i p : ℕ) (n bs : List ℕ)
    → IsChain base ns
    → get_elem? ns i ≡ some n
    → p + length bs ≤ base
    → contents (set ns i (overwrite p bs n)) ≡ overwrite (i * base + p) bs (contents ns)
contents-set base [] i p n bs c e h = cc
contents-set base (m ∷ ms) zero p n bs c e h =
    let hit : m ≡ n = cc in
    let e' : 0 * base + p ≡ p = omega arith in
    rw (← hit, e') (sym (overwrite-append_left p bs m (contents ms) (omega (arith, c.0))))
contents-set base (m ∷ ms) (suc i) p n bs c e h =
    let e' : suc i * base + p ≡ length m + (i * base + p) = omega (arith, c.0) in
    rw e' (
      ap (◌++◌ m) (contents-set base ms i p n bs c.1 e h)
      ∙ sym (overwrite-append_right m (i * base + p) bs (contents ms)))

-- So is a read.
pub slice-contents :
    (base : ℕ) (ns : List (List ℕ)) (i p k : ℕ) (n : List ℕ)
    → IsChain base ns
    → get_elem? ns i ≡ some n
    → p + k ≤ base
    → slice (i * base + p) k (contents ns) ≡ slice p k n
slice-contents base [] i p k n c e h = cc
slice-contents base (m ∷ ms) zero p k n c e h =
    let hit : m ≡ n = cc in
    let e' : 0 * base + p ≡ p = omega arith in
    rw (← hit, e') (slice-append_left p k m (contents ms) (omega (arith, c.0)))
slice-contents base (m ∷ ms) (suc i) p k n c e h =
    let e' : suc i * base + p ≡ length m + (i * base + p) = omega (arith, c.0) in
    rw e'
      (slice-append_right m (i * base + p) k (contents ms) ∙ slice-contents base ms i p k n c.1 e h)
