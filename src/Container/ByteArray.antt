-- ===== src/Container/ByteArray.antt =====
-- The state of a ByteArray and its block-wise operations (bytearray.h, bytearray.cc).
pub mod Chain
pub mod Invariant
pub mod Tape
pub mod Write
pub mod Read
pub mod Seek
pub mod Buffers
pub mod Codec
use server_frame.Prelude.{
  ℕ, zero, suc, ◌+◌, ◌-◌, ◌*◌, ◌/◌, ◌%◌, ◌^◌, List, [], ◌∷◌, ◌++◌, Option, none, some, true, false,
  ltb, leb, ◌==◌, if◌then◌else◌, length, get_elem?, set, take, drop, slice, overwrite,
}
use server_frame.Container.ByteArray.Chain.{node_at}

pub data Endian : Type 0 where
  little big : Endian

-- `cur` is the index of the node that `cur_` points to, and `heap` the bytes, by their offset in
-- the chain, that `new char[]` hands out without initialising them.
pub record ByteArray : Type 0 where
  pub base_size : ℕ
  pub position : ℕ
  pub capacity : ℕ
  pub size : ℕ
  pub nodes : List (List ℕ)
  pub cur : Option ℕ
  pub endian : Endian
  pub heap : ℕ → ℕ

-- A call returns, or throws std::out_of_range with the state it has reached. `faults` is an access
-- through nullptr; `diverges` is no C++ outcome: a loop of the model ran out of fuel.
pub data Outcome {ℓ} (A : Type ℓ) : Type ℓ where
  returns : A → ByteArray → Outcome A
  throws : ByteArray → Outcome A
  faults : Outcome A
  diverges : Outcome A

abbrev pub M {ℓ} : Type ℓ → Type ℓ
M A = ByteArray → Outcome A

infixl 5 ◌>>=◌ ◌>>◌
abbrev pub ◌>>=◌ {ℓ κ} : {A : Type ℓ} {B : Type κ} → M A → (A → M B) → M B
◌>>=◌ m f b = elim (m b) [
  | returns a b' ↦ f a b'
  | throws b' ↦ throws b'
  | faults ↦ faults
  | diverges ↦ diverges
]

abbrev pub ◌>>◌ {ℓ} : {B : Type ℓ} → M (Unit {0}) → M B → M B
m >> k = m >>= λ _. k

abbrev pub pure {ℓ} : {A : Type ℓ} → A → M A
pure a b = returns a b

-- `new Node(base_size_)`: a block of uninitialised bytes.
pub new_node : (ℕ → ℕ) → ℕ → ℕ → List ℕ
new_node heap start zero = []
new_node heap start (suc n) = heap start ∷ new_node heap (suc start) n

-- The `for` loop of AddCapacity, `count` new nodes from offset `start` on.
pub new_nodes : (ℕ → ℕ) → ℕ → ℕ → ℕ → List (List ℕ)
unfolding new_node
new_nodes heap base start zero = []
new_nodes heap base start (suc count) =
    new_node heap start base ∷ new_nodes heap base (start + base) count

pub init : (ℕ → ℕ) → ℕ → ByteArray
init heap base = record {
  base_size = base;
  position = 0;
  capacity = base;
  size = 0;
  nodes = new_node heap 0 base ∷ [];
  cur = some 0;
  endian = big;
  heap = heap;
}

-- GetReadSize; both fields are size_t.
pub read_size : ByteArray → ℕ
read_size b = (b.size + 2 ^ 64 - b.position) % 2 ^ 64

-- GetCapacity
pub get_capacity : ByteArray → ℕ
get_capacity b = (b.capacity + 2 ^ 64 - b.position) % 2 ^ 64

-- `ceil(1.0 * size / base_size_)`, where the doubles are exact.
pub blocks_for : ℕ → ℕ → ℕ
blocks_for size base = (size + base - 1) / base

pub add_capacity : ℕ → ByteArray → ByteArray
add_capacity size b =
    let old_cap = get_capacity b in
    let count = blocks_for (size - old_cap) b.base_size in
    if size == 0 then b else if leb size old_cap then b else record b {
      nodes = b.nodes ++ new_nodes b.heap b.base_size (length b.nodes * b.base_size) count;
      capacity = b.capacity + count * b.base_size;
      cur = if old_cap == 0 then some (length b.nodes) else b.cur;
    }

-- The `while` loop of Write: `bs` is what is left of the buffer, `size` its length.
pub write_loop : ℕ → ℕ → ℕ → List ℕ → M (Unit {0})
write_loop zero npos ncap bs b = diverges
write_loop (suc fuel) npos ncap [] b = returns tt b
write_loop (suc fuel) npos ncap (x ∷ xs) b = elim b.cur [
  | none ↦ faults
  | some i ↦ elim (get_elem? b.nodes i) [
    | none ↦ faults
    | some node ↦
        let size = length (x ∷ xs) in
        elim (leb size ncap) [
          | true ↦ write_loop fuel npos ncap [] (record b {
            nodes = set b.nodes i (overwrite npos (x ∷ xs) node);
            cur = if length node == npos + size then node_at (suc i) (length b.nodes) else some i;
            position = b.position + size;
          })
          | false ↦ elim (get_elem? b.nodes (suc i)) [
            | none ↦ faults
            | some next ↦ write_loop fuel 0 (length next) (drop ncap (x ∷ xs)) (record b {
              nodes = set b.nodes i (overwrite npos (take ncap (x ∷ xs)) node);
              cur = some (suc i);
              position = b.position + ncap;
            })
          ]
        ]
  ]
]

-- `cur_->size - npos`
pub cur_room : ℕ → M ℕ
cur_room npos b = elim b.cur [
  | none ↦ faults
  | some i ↦ elim (get_elem? b.nodes i) [
    | none ↦ faults
    | some node ↦ returns ((length node + 2 ^ 64 - npos) % 2 ^ 64) b
  ]
]

-- `if (position_ > size_) size_ = position_;`
pub grow_size : ByteArray → ByteArray
grow_size b = record b { size = if ltb b.size b.position then b.position else b.size }

-- Write from its first use of `position_` to the end of the loop.
pub write_nodes : List ℕ → M (Unit {0})
unfolding write_loop cur_room
write_nodes bs b =
    let npos = b.position % b.base_size in
    (do ncap ← cur_room npos; write_loop (length bs + 2) npos ncap bs) b

pub write : List ℕ → M (Unit {0})
unfolding add_capacity grow_size
write [] b = returns tt b
write (x ∷ xs) b =
    (do write_nodes (x ∷ xs); λ b'. returns tt (grow_size b')) (add_capacity (length (x ∷ xs)) b)

-- The `while` loop of Read; the bytes read so far are returned in front of the rest.
pub read_loop : ℕ → ℕ → ℕ → ℕ → M (List ℕ)
read_loop zero npos ncap size b = diverges
read_loop (suc fuel) npos ncap zero b = returns [] b
read_loop (suc fuel) npos ncap (suc n) b = elim b.cur [
  | none ↦ faults
  | some i ↦ elim (get_elem? b.nodes i) [
    | none ↦ faults
    | some node ↦ elim (leb (suc n) ncap) [
      | true ↦
          (read_loop fuel npos ncap 0 >>= λ rest. pure (slice npos (suc n) node ++ rest))
            (record b {
              cur =
                  if length node == npos + suc n then node_at (suc i) (length b.nodes) else some i;
              position = b.position + suc n;
            })
      | false ↦ elim (get_elem? b.nodes (suc i)) [
        | none ↦ faults
        | some next ↦
            (read_loop fuel 0 (length next) (suc n - ncap) >>= λ rest.
            pure (slice npos ncap node ++ rest))
              (record b { cur = some (suc i); position = b.position + ncap })
      ]
    ]
  ]
]

pub read : ℕ → M (List ℕ)
unfolding read_size read_loop cur_room
read size b =
    if ltb (read_size b) size
    then throws b
    else (do
      ncap ← cur_room (b.position % b.base_size)
      read_loop (size + 2) (b.position % b.base_size) ncap size)
        b
