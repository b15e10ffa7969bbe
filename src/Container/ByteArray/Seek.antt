-- ===== src/Container/ByteArray/Seek.antt =====
-- ByteArray::SetPosition and ByteArray::Clear.
use server_frame.Prelude.{
  ℕ, suc, ◌+◌, ◌-◌, ◌*◌, ◌/◌, ◌<◌, ◌≤◌, ◌≡◌, refl, ap, List, [], ◌∷◌, Option, none, some, arith,
  length, ltb, ◌==◌, if◌then◌else◌, take, drop, Bool-cases, inl, inr, lt→ltb, ltb-false, ltb→lt,
  ==_iff,
}
use server_frame.Container.ByteArray.Chain.{IsChain, node_at}
use server_frame.Container.ByteArray.{ByteArray, returns, throws, faults, M}
use server_frame.Container.ByteArray.Invariant.{IsValid, pos_of_mul, le-mul}
use server_frame.Container.ByteArray.Tape.{bytes, behind, ahead}

-- `cur_->next` of node `i`, before the nodes `rest`.
next_node : ℕ → List (List ℕ) → Option ℕ
next_node i [] = none
next_node i (n ∷ rest) = some (suc i)

-- The loop of SetPosition from node `i` on, and the test behind it; `none` is an access through
-- nullptr.
seek : ℕ → ℕ → List (List ℕ) → Option (Option ℕ)
unfolding next_node
seek i v [] = none
seek i v (n ∷ rest) =
    let further = seek (suc i) (v - length n) rest in
    if ltb (length n) v then further else some (if v == length n then next_node i rest else some i)

unfoldable pub set_position : ℕ → M (Unit {0})
unfolding seek
set_position v b = if ltb b.capacity v then throws b else elim (seek 0 v b.nodes) [
  | none ↦ faults
  | some c ↦
      returns tt (record b { position = v; size = if ltb b.size v then v else b.size; cur = c })
]

first_node : List (List ℕ) → List (List ℕ)
first_node [] = []
first_node (n ∷ rest) = n ∷ []

unfoldable pub clear : ByteArray → ByteArray
unfolding first_node
clear b = record b {
  position = 0;
  size = 0;
  capacity = b.base_size;
  nodes = first_node b.nodes;
  cur = some 0;
}

next_node_lem :
    (i : ℕ) (rest : List (List ℕ)) → next_node i rest ≡ node_at (suc i) (suc i + length rest)
unfolding next_node
next_node_lem i [] = rw (ltb-false (suc i) (suc i + 0) (omega arith))
next_node_lem i (n ∷ rest) = rw (lt→ltb (suc i) (suc i + suc (length rest)) (omega arith))

zero_div : (base : ℕ) → 0 < base → 0 / base ≡ 0
zero_div base h = omega arith

div_past : (v base : ℕ) → 0 < base → base ≤ v → v / base ≡ suc ((v - base) / base)
div_past v base p h = grind arith

seek_lem :
    (base i v : ℕ) (ns : List (List ℕ))
    → 0 < base
    → 0 < length ns
    → IsChain base ns
    → v ≤ length ns * base
    → seek i v ns ≡ some (node_at (i + v / base) (i + length ns))
unfolding seek
seek_lem base i v [] ba ne c h = absurd (omega arith)
seek_lem base i v (n ∷ rest) ba ne c h =
    let suc_len : suc i + length rest ≡ i + suc (length rest) = omega arith in
    elim (Bool-cases (ltb base v)) [
      | inl deeper ↦
          let past : base < v = ltb→lt base v deeper in
          let index : suc i + (v - base) / base ≡ i + v / base =
            omega (arith, div_past v base ba (omega arith)) in
          rw (c.0, deeper)
            (rw (index, suc_len) at
              (seek_lem base (suc i) (v - base) rest ba
                (pos_of_mul (length rest) base (omega arith)) c.1 (omega arith)))
      | inr here ↦ elim (Bool-cases (v == base)) [
        | inl edge ↦
            let same : v ≡ base = (==_iff v base).0 edge in
            let one : i + v / base ≡ suc i =
              omega (arith, div_past v base ba (omega arith), zero_div base ba) in
            rw (c.0, here, edge, one, ← suc_len) (ap some (next_node_lem i rest))
        | inr inside ↦
            let below : v < base = ground arith in
            let none_past : i + v / base ≡ i = grind arith in
            rw (c.0, here, inside, none_past, lt→ltb i (i + suc (length rest)) (omega arith))
      ]
    ]

-- The state after a jump to `v`.
abbrev pub moved_to : ByteArray → ℕ → ByteArray
moved_to b v = record b {
  position = v;
  size = if ltb b.size v then v else b.size;
  cur = node_at (v / b.base_size) (length b.nodes);
}

-- A jump within the capacity succeeds and keeps the invariant.
pub set_position_lem :
    (b : ByteArray) (v : ℕ)
    → IsValid b
    → v ≤ b.capacity
    → (set_position v b ≡ returns tt (moved_to b v)) × IsValid (moved_to b v)
unfolding set_position
set_position_lem b v val h = (
  jump,
  record {
    based = val.based;
    rooted = val.rooted;
    chain = val.chain;
    full = val.full;
    addressable = val.addressable;
    within = ground arith;
    fits = ground (arith, val.fits);
    cursor = refl;
  },
)
  where
    jump : set_position v b ≡ returns tt (moved_to b v)
    jump =
        let start : 0 + v / b.base_size ≡ v / b.base_size = omega arith in
        let count : 0 + length b.nodes ≡ length b.nodes = omega arith in
        rw (
          ltb-false b.capacity v h,
          seek_lem b.base_size 0 v b.nodes val.based val.rooted val.chain (omega (arith, val.full)),
          start,
          count,
          set_position,
        )

-- Behind the capacity it throws and changes nothing.
pub set_position_throws : (b : ByteArray) (v : ℕ) → b.capacity < v → set_position v b ≡ throws b
unfolding set_position
set_position_throws b v h = rw (lt→ltb b.capacity v h)

-- A jump within the data keeps the bytes, and cuts them at the new position.
pub moved_to-tape :
    (b : ByteArray) (v : ℕ)
    → v ≤ b.size
    → (behind (moved_to b v) ≡ take v (bytes b))
      × (ahead (moved_to b v) ≡ drop v (bytes b))
      × ((moved_to b v).size ≡ b.size)
moved_to-tape b v h = rw (ltb-false b.size v h) (refl, refl, refl)

-- Clear empties the tape, whatever the array held.
pub clear-IsValid : (b : ByteArray) → IsValid b → IsValid (clear b) × (bytes (clear b) ≡ [])
unfolding clear
clear-IsValid b v = (
  record {
    based = v.based;
    rooted = one.0;
    chain = one.1;
    full = one.2;
    addressable = omega (arith, v.addressable, v.full, grown);
    within = omega arith;
    fits = omega arith;
    cursor =
        let e : 0 / b.base_size ≡ 0 = zero_div b.base_size v.based in
        rw (e, lt→ltb 0 (length (first_node b.nodes)) one.0);
  },
  refl,
)
  where
    first :
        (ns : List (List ℕ))
        → 0 < length ns
        → IsChain b.base_size ns
        → (0 < length (first_node ns))
          × IsChain b.base_size (first_node ns)
          × (b.base_size ≡ length (first_node ns) * b.base_size)
    first [] h c = absurd (omega arith)
    first (n ∷ rest) h c = (omega arith, (c.0, tt), omega arith)

    one :
        (0 < length (first_node b.nodes))
        × IsChain b.base_size (first_node b.nodes)
        × (b.base_size ≡ length (first_node b.nodes) * b.base_size)
    one = first b.nodes v.rooted v.chain

    grown : b.base_size ≤ length b.nodes * b.base_size
    grown = le-mul (length b.nodes) b.base_size v.rooted
