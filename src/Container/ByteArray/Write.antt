-- ===== src/Container/ByteArray/Write.antt =====
-- ByteArray::Write over the chain of blocks is one write to a flat stretch of memory.
use server_frame.Prelude.{
  ℕ, zero, suc, ◌+◌, ◌-◌, ◌*◌, ◌/◌, ◌%◌, ◌^◌, ◌≤◌, ◌<◌, ◌≡◌, refl, sym, ◌∙◌, List, [], ◌∷◌, ◌++◌,
  Option, some, arith, length, ltb, leb, ◌==◌, if◌then◌else◌, lt→ltb, leb→le, ==_iff, Bool-cases,
  inl, inr, get_elem?, set, take, drop, overwrite, overwrite-split, length-overwrite, length-take,
  length-drop, length-set, ap, leb-true, leb-false,
}
use server_frame.Container.ByteArray.Chain.{
  IsChain, node_at, contents, contents-set, get_elem?-IsChain, set-IsChain, length-contents,
}
use mathlib.Core.List.{append-nil}
use server_frame.Container.ByteArray.Tape.{behind, ahead, take-written, drop-written}
use server_frame.Container.ByteArray.{
  ◌>>=◌, ByteArray, Outcome, returns, write_loop, write_nodes, grow_size, write, add_capacity,
}
use server_frame.Container.ByteArray.Invariant.{
  IsValid, HasRoom, add_capacity-HasRoom, cursor_inside, cur_room_lem,
}

pub div_block : (i p base : ℕ) → p < base → (i * base + p) / base ≡ i
div_block i p base h = grind arith

pub lt_of_block : (i p len base : ℕ) → i * base + p < len * base → i < len
lt_of_block i p len base h = grind arith

-- Where the cursor stands after `n` bytes from offset `p` of node `i`.
pub next_cursor :
    (i p n base len : ℕ)
    → p + n ≤ base
    → 0 < base
    → i < len
    → (if base == p + n then node_at (suc i) len else some i)
      ≡ node_at ((i * base + p + n) / base) len
next_cursor i p n base len h k l = elim (Bool-cases (base == p + n)) [
  | inl e ↦
      let full : i * base + p + n ≡ suc i * base + 0 = omega (arith, (==_iff base (p + n)).0 e) in
      rw (e, full, div_block (suc i) 0 base k)
  | inr e ↦
      let part : i * base + p + n ≡ i * base + (p + n) = omega arith in
      rw (e, part, div_block i (p + n) base (ground arith), lt→ltb i len l)
]

abbrev moved : ByteArray → List (List ℕ) → ℕ → Option ℕ → Outcome (Unit {0})
moved b ns p c = returns tt (record b { position = p; nodes = ns; cur = c })

-- The result of writing `bs` at the position, with what a write leaves alone.
pub record Written (b : ByteArray) (bs : List ℕ) (o : Outcome (Unit {0})) : Type 0 where
  pub nodes' : List (List ℕ)
  pub result :
      o
      ≡ returns tt (record b {
        position = b.position + length bs;
        nodes = nodes';
        cur = node_at ((b.position + length bs) / b.base_size) (length b.nodes);
      })
  pub chain' : IsChain b.base_size nodes'
  pub count : length nodes' ≡ length b.nodes
  pub bytes : contents nodes' ≡ overwrite b.position bs (contents b.nodes)

-- The round that finishes, and a round that fills its node.
write_loop_last :
    (fuel i npos ncap x : ℕ) (xs node : List ℕ) (b : ByteArray)
    → b.cur ≡ some i
    → get_elem? b.nodes i ≡ some node
    → length (x ∷ xs) ≤ ncap
    → write_loop (suc (suc fuel)) npos ncap (x ∷ xs) b
      ≡ returns tt (record b {
        nodes = set b.nodes i (overwrite npos (x ∷ xs) node);
        cur =
            if length node == npos + length (x ∷ xs)
            then node_at (suc i) (length b.nodes)
            else some i;
        position = b.position + length (x ∷ xs);
      })
unfolding write_loop
write_loop_last fuel i npos ncap x xs node b cu found fit =
    ground (arith, leb-true (length (x ∷ xs)) ncap)

write_loop_more :
    (fuel i npos ncap x : ℕ) (xs node next : List ℕ) (b : ByteArray)
    → b.cur ≡ some i
    → get_elem? b.nodes i ≡ some node
    → get_elem? b.nodes (suc i) ≡ some next
    → ncap < length (x ∷ xs)
    → write_loop (suc fuel) npos ncap (x ∷ xs) b
      ≡ write_loop fuel 0 (length next) (drop ncap (x ∷ xs)) (record b {
        nodes = set b.nodes i (overwrite npos (take ncap (x ∷ xs)) node);
        cur = some (suc i);
        position = b.position + ncap;
      })
unfolding write_loop
write_loop_more fuel i npos ncap x xs node next b cu found found' more =
    ground (arith, leb-false (length (x ∷ xs)) ncap)

write_loop-Written_last :
    (fuel i npos x : ℕ) (xs : List ℕ) (b : ByteArray)
    → IsChain b.base_size b.nodes
    → b.cur ≡ some i
    → b.position ≡ i * b.base_size + npos
    → npos < b.base_size
    → i < length b.nodes
    → length (x ∷ xs) ≤ b.base_size - npos
    → Written b (x ∷ xs) (write_loop (suc (suc fuel)) npos (b.base_size - npos) (x ∷ xs) b)
write_loop-Written_last fuel i npos x xs b c cu po np inside last =
    let (node, found, whole) = get_elem?-IsChain b.base_size b.nodes i c inside in
    record {
      nodes' = set b.nodes i (overwrite npos (x ∷ xs) node);
      result =
          write_loop_last fuel i npos (b.base_size - npos) x xs node b cu found last
          ∙ ap (moved b _ (b.position + length (x ∷ xs))) (
              rw (whole, po)
                (next_cursor i npos (length (x ∷ xs)) b.base_size (length b.nodes) (omega arith)
                  (omega arith) inside));
      chain' = set-IsChain b.base_size b.nodes i _ c (length-overwrite npos (x ∷ xs) node ∙ whole);
      count = length-set b.nodes i _;
      bytes = rw po (contents-set b.base_size b.nodes i npos node (x ∷ xs) c found (omega arith));
    }

-- The state after a round that has filled node `i` from `npos` on.
filled : ByteArray → ℕ → ℕ → List ℕ → List ℕ → ByteArray
filled b i npos bs node = record b {
  nodes = set b.nodes i (overwrite npos (take (b.base_size - npos) bs) node);
  cur = some (suc i);
  position = b.position + (b.base_size - npos);
}

module _ (fuel i npos x : ℕ) (xs node next : List ℕ) (b : ByteArray)
    (c : IsChain b.base_size b.nodes) (cu : b.cur ≡ some i)
    (found : get_elem? b.nodes i ≡ some node) (found' : get_elem? b.nodes (suc i) ≡ some next)
    (po : b.position ≡ i * b.base_size + npos) (np : npos < b.base_size)
    (more : b.base_size - npos < length (x ∷ xs)) where
  write_loop-Written_more :
      length next ≡ b.base_size
      → Written (filled b i npos (x ∷ xs) node) (drop (b.base_size - npos) (x ∷ xs)) (
          write_loop fuel 0
            (b.base_size - 0)
            (drop (b.base_size - npos) (x ∷ xs))
            (filled b i npos (x ∷ xs) node))
      → Written b (x ∷ xs) (write_loop (suc fuel) npos (b.base_size - npos) (x ∷ xs) b)
  unfolding filled
  write_loop-Written_more whole ih =
      let ncap = b.base_size - npos in
      let len : length (take ncap (x ∷ xs)) ≡ ncap = omega (arith, length-take ncap (x ∷ xs)) in
      let total : b.position + ncap + length (drop ncap (x ∷ xs)) ≡ b.position + length (x ∷ xs) =
        omega (arith, length-drop ncap (x ∷ xs)) in
      let same : length (set b.nodes i (overwrite npos (take ncap (x ∷ xs)) node))
          ≡ length b.nodes =
        length-set b.nodes i _ in
      let front : contents (set b.nodes i (overwrite npos (take ncap (x ∷ xs)) node))
          ≡ overwrite b.position (take ncap (x ∷ xs)) (contents b.nodes) =
        rw po (
          contents-set b.base_size b.nodes i npos node (take ncap (x ∷ xs)) c found
            (omega arith)) in
      let room : length next ≡ b.base_size - 0 = omega (arith, whole) in
      record {
        nodes' = ih.nodes';
        result =
            write_loop_more fuel i npos ncap x xs node next b cu found found' more
            ∙ rw (room, ih.result, total, same);
        chain' = ih.chain';
        count = ih.count ∙ same;
        bytes =
            ih.bytes
            ∙ ap (overwrite (b.position + ncap) (drop ncap (x ∷ xs))) front
            ∙ overwrite-split b.position ncap (x ∷ xs) (contents b.nodes) (omega arith);
      }

pub write_loop-Written :
    (fuel i npos : ℕ) (bs : List ℕ) (b : ByteArray)
    → IsChain b.base_size b.nodes
    → b.cur ≡ some i
    → b.position ≡ i * b.base_size + npos
    → npos < b.base_size
    → b.position + length bs ≤ length b.nodes * b.base_size
    → 0 < length bs
    → length bs < fuel
    → Written b bs (write_loop fuel npos (b.base_size - npos) bs b)
unfolding filled
write_loop-Written zero i npos bs b c cu po np fi ne fu = absurd (omega arith)
write_loop-Written (suc fuel) i npos [] b c cu po np fi ne fu = absurd (omega arith)
write_loop-Written (suc zero) i npos (x ∷ xs) b c cu po np fi ne fu = absurd (omega arith)
write_loop-Written (suc (suc fuel)) i npos (x ∷ xs) b c cu po np fi ne fu =
    let inside : i < length b.nodes =
      lt_of_block i npos (length b.nodes) b.base_size (omega arith) in
    elim (Bool-cases (leb (length (x ∷ xs)) (b.base_size - npos))) [
      | inl last ↦ write_loop-Written_last fuel i npos x xs b c cu po np inside (leb→le _ _ last)
      | inr more ↦
          let ncap = b.base_size - npos in
          let over : ncap < length (x ∷ xs) = ground arith in
          let behind : suc i < length b.nodes =
            lt_of_block (suc i) (length (x ∷ xs) - ncap - 1) (length b.nodes) b.base_size
              (omega arith) in
          let (node, found, whole) = get_elem?-IsChain b.base_size b.nodes i c inside in
          let (next, found', whole') = get_elem?-IsChain b.base_size b.nodes (suc i) c behind in
          write_loop-Written_more (suc fuel) i npos x xs node next b c cu found found' po np over
            whole'
            (write_loop-Written (suc fuel) (suc i) 0 (drop ncap (x ∷ xs))
              (filled b i npos (x ∷ xs) node)
              (set-IsChain b.base_size b.nodes i _ c (length-overwrite npos _ node ∙ whole)) refl
              (omega arith) (omega arith)
              (rw (length-set b.nodes i (overwrite npos (take ncap (x ∷ xs)) node))
                (omega (arith, length-drop ncap (x ∷ xs))))
              (omega (arith, length-drop ncap (x ∷ xs))) (omega (arith, length-drop ncap (x ∷ xs))))
    ]

-- A write as a tape operation: it replaces as many bytes ahead as it can, and appends the rest.
pub record Writes (b : ByteArray) (bs : List ℕ) (c : ByteArray) : Type 0 where
  pub valid : IsValid c
  pub behind_c : behind c ≡ behind b ++ bs
  pub ahead_c : ahead c ≡ drop (length bs) (ahead b)
  pub position_c : c.position ≡ b.position + length bs
  pub base_c : c.base_size ≡ b.base_size
  pub endian_c : c.endian ≡ b.endian

module _ (b : ByteArray) (bs : List ℕ) (v : IsValid b) (ne : 0 < length bs) (c : ByteArray)
    (r : HasRoom (length bs) b c) where
  room-Written : Written c bs (write_nodes bs c)
  unfolding write_nodes
  room-Written =
      let below : c.position < c.capacity = omega (arith, r.room, r.same_position) in
      rw (cur_room_lem c r.valid below, ◌>>=◌)
        (write_loop-Written (length bs + 2) (c.position / c.base_size) (c.position % c.base_size) bs
          c r.valid.chain (cursor_inside c r.valid below) (omega (arith, r.valid.based))
          (omega (arith, r.valid.based)) (omega (arith, r.room, r.same_position, r.valid.full)) ne
          (omega arith))

  -- The state at the end of the loop, with its size brought up to date.
  final : List (List ℕ) → ByteArray
  final ns = grow_size (record c {
    position = c.position + length bs;
    nodes = ns;
    cur = node_at ((c.position + length bs) / c.base_size) (length c.nodes);
  })

  size' : ℕ
  size' = if ltb c.size (c.position + length bs) then c.position + length bs else c.size

  grown_bounds : (c.size ≤ size') × (c.position + length bs ≤ size') × (size' ≤ c.capacity)
  unfolding size'
  grown_bounds =
      let fits : c.size ≤ c.capacity = r.valid.fits in
      let room : c.position + length bs ≤ c.capacity = omega (arith, r.room, r.same_position) in
      (ground arith, ground arith, ground arith)

  module _ (ns : List (List ℕ)) (chain : IsChain c.base_size ns)
      (count : length ns ≡ length c.nodes)
      (bytes_ns : contents ns ≡ overwrite c.position bs (contents c.nodes)) where
    final-IsValid : IsValid (final ns)
    unfolding final grow_size size'
    final-IsValid =
        let (low, top, end) = grown_bounds in
        record {
          based = r.valid.based;
          rooted = rw count r.valid.rooted;
          chain = chain;
          full = rw count r.valid.full;
          addressable = r.valid.addressable;
          within = top;
          fits = end;
          cursor = rw count refl;
        }

    final-Writes : Writes b bs (final ns)
    unfolding final grow_size size'
    final-Writes =
        let (low, top, end) = grown_bounds in
        let old_end : b.size ≤ length (contents b.nodes) =
          rw (length-contents b.base_size b.nodes v.chain) (omega (arith, v.fits, v.full)) in
        let room_c : b.position + length bs ≤ length (contents b.nodes ++ r.fresh) =
          rw (← r.kept, length-contents c.base_size c.nodes r.valid.chain)
            (omega (arith, r.room, r.valid.full)) in
        record {
          valid = final-IsValid;
          behind_c =
              rw (bytes_ns, r.kept, r.same_position)
                (take-written b.position b.size bs (contents b.nodes) r.fresh v.within old_end _
                  (rw r.same_position at top) room_c);
          ahead_c =
              rw (bytes_ns, r.kept, r.same_position, r.same_size)
                (drop-written b.position b.size bs (contents b.nodes) r.fresh v.within old_end);
          position_c = omega (arith, r.same_position);
          base_c = r.same_base;
          endian_c = r.same_endian;
        }

-- Write puts `bs` behind the position, whatever the block size, and keeps what it does not replace.
pub write-Writes :
    (b : ByteArray) (bs : List ℕ)
    → IsValid b
    → b.position + length bs + b.base_size < 2 ^ 64
    → (c : ByteArray) × (write bs b ≡ returns tt c) × Writes b bs c
unfolding write
write-Writes b [] v bound = (
  b,
  refl,
  record {
    valid = v;
    behind_c = sym (append-nil (behind b));
    ahead_c = refl;
    position_c = omega arith;
    base_c = refl;
    endian_c = refl;
  },
)
write-Writes b (x ∷ xs) v bound =
    let c = add_capacity (length (x ∷ xs)) b in
    let r = add_capacity-HasRoom (length (x ∷ xs)) b v (omega arith) bound in
    let w = room-Written b (x ∷ xs) v (omega arith) c r in
    (
      final b (x ∷ xs) v (omega arith) c r w.nodes',
      unfold final in rw (w.result, ◌>>=◌),
      final-Writes b (x ∷ xs) v (omega arith) c r w.nodes' w.chain' w.count w.bytes,
    )
