-- ===== src/Container/ByteArray/Invariant.antt =====
-- The invariant of a ByteArray, and what AddCapacity does to it.
use server_frame.Prelude.{
  ℕ, ◌∙◌, ◌%◌, zero, suc, ◌+◌, ◌-◌, ◌*◌, ◌/◌, ◌^◌, ◌≤◌, ◌<◌, ◌≡◌, refl, sym, List, [], ◌++◌, some,
  arith, length, length-append, leb, ◌==◌, if◌then◌else◌, All-append, lt→ltb, leb→le, ==-false,
  append-nil, Bool-cases, inl, inr,
}
use server_frame.Container.ByteArray.Chain.{
  get_elem?-IsChain, IsChain, node_at, contents, contents-append,
}
use server_frame.Container.ByteArray.{
  ByteArray, returns, cur_room, new_node, new_nodes, init, read_size, get_capacity, blocks_for,
  add_capacity,
}

pub record IsValid (b : ByteArray) : Type 0 where
  pub based : 0 < b.base_size
  pub rooted : 0 < length b.nodes
  pub chain : IsChain b.base_size b.nodes
  pub full : b.capacity ≡ length b.nodes * b.base_size
  pub addressable : b.capacity < 2 ^ 64
  pub within : b.position ≤ b.size
  pub fits : b.size ≤ b.capacity
  pub cursor : b.cur ≡ node_at (b.position / b.base_size) (length b.nodes)

length-new_node : (heap : ℕ → ℕ) (start n : ℕ) → length (new_node heap start n) ≡ n
unfolding new_node
length-new_node heap start zero = refl
length-new_node heap start (suc n) = omega (arith, length-new_node heap (suc start) n)

new_nodes-IsChain :
    (heap : ℕ → ℕ) (base start count : ℕ) → IsChain base (new_nodes heap base start count)
unfolding new_nodes
new_nodes-IsChain heap base start zero = tt
new_nodes-IsChain heap base start (suc count) =
    (length-new_node heap start base, new_nodes-IsChain heap base (start + base) count)

length-new_nodes :
    (heap : ℕ → ℕ) (base start count : ℕ) → length (new_nodes heap base start count) ≡ count
unfolding new_nodes
length-new_nodes heap base start zero = refl
length-new_nodes heap base start (suc count) =
    omega (arith, length-new_nodes heap base (start + base) count)

pub init-IsValid : (heap : ℕ → ℕ) (base : ℕ) → 0 < base → base < 2 ^ 64 → IsValid (init heap base)
unfolding init
init-IsValid heap base h k = record {
  based = h;
  rooted = omega arith;
  chain = (length-new_node heap 0 base, tt);
  full = omega arith;
  addressable = k;
  within = omega arith;
  fits = omega arith;
  cursor = let e : 0 / base ≡ 0 = omega arith in rw e;
}

pub get_capacity_lem : (b : ByteArray) → IsValid b → get_capacity b ≡ b.capacity - b.position
unfolding get_capacity
get_capacity_lem b v = omega arith

pub read_size_lem : (b : ByteArray) → IsValid b → read_size b ≡ b.size - b.position
unfolding read_size
read_size_lem b v = omega arith

pub blocks_for_bounds :
    (size base : ℕ)
    → 0 < base
    → (size ≤ blocks_for size base * base) × (blocks_for size base * base < size + base)
unfolding blocks_for
blocks_for_bounds size base h = (grind arith, grind arith)

pub le-mul : (m n : ℕ) → 0 < m → n ≤ m * n
le-mul zero n h = absurd (omega arith)
le-mul (suc m) n h = omega arith

pub pos_of_mul : (m n : ℕ) → 0 < m * n → 0 < m
pos_of_mul zero n h = absurd (omega arith)
pos_of_mul (suc m) n h = omega arith

-- The chain has room for `size` more bytes, its old bytes are kept, and the cursor is in it.
pub record HasRoom (size : ℕ) (b c : ByteArray) : Type 0 where
  pub valid : IsValid c
  pub room : b.position + size ≤ c.capacity
  pub same_base : c.base_size ≡ b.base_size
  pub same_position : c.position ≡ b.position
  pub same_size : c.size ≡ b.size
  pub same_endian : c.endian ≡ b.endian
  pub fresh : List ℕ
  pub kept : contents c.nodes ≡ contents b.nodes ++ fresh

module _ (size : ℕ) (b : ByteArray) (v : IsValid b) (h : 0 < size)
    (bound : b.position + size + b.base_size < 2 ^ 64) where
  -- In the enlarged chain the byte at `position` has a node, new or old.
  div-lt-length : (len : ℕ) → b.position < len * b.base_size → b.position / b.base_size < len
  div-lt-length len k = grind (arith, v.based)

  grown-cursor :
      (count : ℕ)
      → 0 < count
      → (if b.capacity - b.position == 0 then some (length b.nodes) else b.cur)
        ≡ node_at (b.position / b.base_size) (length b.nodes + count)
  grown-cursor count k = elim (Bool-cases (b.capacity - b.position == 0)) [
    | inl empty ↦
        let at_end : b.position ≡ length b.nodes * b.base_size = ground (arith, v.full) in
        let quotient : length b.nodes * b.base_size / b.base_size ≡ length b.nodes =
          grind (arith, v.based) in
        rw (empty, at_end, quotient, lt→ltb (length b.nodes) (length b.nodes + count) (omega arith))
    | inr old ↦
        let inside : b.position / b.base_size < length b.nodes =
          div-lt-length (length b.nodes) (ground (arith, v.full)) in
        rw (
          old,
          v.cursor,
          lt→ltb _ _ inside,
          lt→ltb (b.position / b.base_size) (length b.nodes + count) (omega arith),
        )
  ]

  grown : ByteArray
  grown =
      let count = blocks_for (size - (b.capacity - b.position)) b.base_size in
      record b {
        nodes = b.nodes ++ new_nodes b.heap b.base_size (length b.nodes * b.base_size) count;
        capacity = b.capacity + count * b.base_size;
        cur = if b.capacity - b.position == 0 then some (length b.nodes) else b.cur;
      }

  grown-HasRoom : b.capacity - b.position < size → HasRoom size b grown
  unfolding grown
  grown-HasRoom short =
      let count = blocks_for (size - (b.capacity - b.position)) b.base_size in
      let (enough, tight) =
        blocks_for_bounds (size - (b.capacity - b.position)) b.base_size v.based in
      let start = length b.nodes * b.base_size in
      let len = length-append b.nodes (new_nodes b.heap b.base_size start count) in
      let more = length-new_nodes b.heap b.base_size start count in
      record {
        valid = record {
          based = v.based;
          rooted = omega (arith, len, v.rooted);
          chain = All-append _ b.nodes _ v.chain (new_nodes-IsChain b.heap b.base_size start count);
          full = rw (len, more) (omega arith);
          addressable = omega arith;
          within = v.within;
          fits = omega arith;
          cursor = rw (len, more) (grown-cursor count (pos_of_mul count b.base_size (omega arith)));
        };
        room = omega arith;
        same_base = refl;
        same_position = refl;
        same_size = refl;
        same_endian = refl;
        fresh = contents (new_nodes b.heap b.base_size start count);
        kept = contents-append b.nodes _;
      }

  pub add_capacity-HasRoom : HasRoom size b (add_capacity size b)
  unfolding add_capacity grown
  add_capacity-HasRoom = elim (Bool-cases (leb size (b.capacity - b.position))) [
    | inl enough ↦
        rw (==-false size 0 (omega arith), get_capacity_lem b v, enough)
          (record {
            valid = v;
            room = omega (arith, leb→le size (b.capacity - b.position) enough);
            same_base = refl;
            same_position = refl;
            same_size = refl;
            same_endian = refl;
            fresh = [];
            kept = sym (append-nil (contents b.nodes));
          })
    | inr short ↦
        rw (==-false size 0 (omega arith), get_capacity_lem b v, short)
          (grown-HasRoom (ground arith))
  ]

-- Where the position is below the capacity, the cursor is on the position's node.
module _ (c : ByteArray) (v : IsValid c) (below : c.position < c.capacity) where
  pub position-node : c.position / c.base_size < length c.nodes
  position-node =
      let bound : c.position < length c.nodes * c.base_size = omega (arith, v.full) in
      grind (arith, v.based)

  pub cursor_inside : c.cur ≡ some (c.position / c.base_size)
  cursor_inside = v.cursor ∙ rw (lt→ltb _ _ position-node)

  pub cur_room_lem :
      cur_room (c.position % c.base_size) c ≡ returns (c.base_size - c.position % c.base_size) c
  unfolding cur_room
  cur_room_lem =
      let (node, found, whole) =
        get_elem?-IsChain c.base_size c.nodes (c.position / c.base_size) v.chain position-node in
      let inside : c.position / c.base_size < length c.nodes = position-node in
      let small : c.base_size < 2 ^ 64 =
        omega (arith, le-mul (length c.nodes) c.base_size (omega arith), v.full, v.addressable) in
      let part : c.position % c.base_size < c.base_size = omega (arith, v.based) in
      let wrap : (c.base_size + 2 ^ 64 - c.position % c.base_size) % 2 ^ 64
          ≡ c.base_size - c.position % c.base_size =
        omega arith in
      ground (arith, cursor_inside)
