-- ===== src/Container/ByteArray/Read.antt =====
-- ByteArray::Read over the chain of blocks is one read from a flat stretch of memory.
use server_frame.Prelude.{
  ℕ, length-take, zero, suc, ◌+◌, ◌-◌, ◌*◌, ◌/◌, ◌%◌, ◌≤◌, ◌<◌, ◌≡◌, refl, sym, ◌∙◌, List, [], ◌++◌,
  some, arith, length, leb, ◌==◌, if◌then◌else◌, lt→ltb, ltb-false, leb→le, Bool-cases, inl, inr,
  get_elem?, take, drop, slice, slice-add, ap, leb-true, leb-false, append-nil, drop-drop,
  drop-take, take-take,
}
use server_frame.Container.ByteArray.Chain.{
  IsChain, node_at, contents, slice-contents, get_elem?-IsChain, length-contents,
}
use server_frame.Container.ByteArray.Tape.{bytes, behind, ahead}
use server_frame.Container.ByteArray.{ByteArray, Outcome, returns, throws, ◌>>=◌, read_loop, read}
use server_frame.Container.ByteArray.Invariant.{IsValid, read_size_lem, cursor_inside, cur_room_lem}
use server_frame.Container.ByteArray.Write.{lt_of_block, next_cursor}

-- The state after `n` bytes have been read.
abbrev pub passed : ByteArray → ℕ → ByteArray
passed b n = record b {
  position = b.position + n;
  cur = node_at ((b.position + n) / b.base_size) (length b.nodes);
}

-- The result of reading `n` bytes at the position.
abbrev Reads : ByteArray → ℕ → Outcome (List ℕ) → Type 0
Reads b n o = o ≡ returns (slice b.position n (contents b.nodes)) (passed b n)

read_loop_last :
    (fuel i npos ncap n : ℕ) (node : List ℕ) (b : ByteArray)
    → b.cur ≡ some i
    → get_elem? b.nodes i ≡ some node
    → suc n ≤ ncap
    → read_loop (suc (suc fuel)) npos ncap (suc n) b
      ≡ returns (slice npos (suc n) node ++ []) (record b {
        cur = if length node == npos + suc n then node_at (suc i) (length b.nodes) else some i;
        position = b.position + suc n;
      })
unfolding read_loop
read_loop_last fuel i npos ncap n node b cu found fit = ground (arith, leb-true (suc n) ncap)

read_loop_more :
    (fuel i npos ncap n : ℕ) (node next : List ℕ) (b : ByteArray)
    → b.cur ≡ some i
    → get_elem? b.nodes i ≡ some node
    → get_elem? b.nodes (suc i) ≡ some next
    → ncap < suc n
    → (bs : List ℕ) (c : ByteArray)
    → read_loop fuel 0
        (length next)
        (suc n - ncap)
        (record b { cur = some (suc i); position = b.position + ncap })
      ≡ returns bs c
    → read_loop (suc fuel) npos ncap (suc n) b ≡ returns (slice npos ncap node ++ bs) c
unfolding read_loop
read_loop_more fuel i npos ncap n node next b cu found found' more bs c e =
    ground (arith, leb-false (suc n) ncap)

read_loop-Reads_last :
    (fuel i npos n : ℕ) (b : ByteArray)
    → IsChain b.base_size b.nodes
    → b.cur ≡ some i
    → b.position ≡ i * b.base_size + npos
    → npos < b.base_size
    → i < length b.nodes
    → suc n ≤ b.base_size - npos
    → Reads b (suc n) (read_loop (suc (suc fuel)) npos (b.base_size - npos) (suc n) b)
read_loop-Reads_last fuel i npos n b c cu po np inside last =
    let (node, found, whole) = get_elem?-IsChain b.base_size b.nodes i c inside in
    let cursor : (if length node == npos + suc n then node_at (suc i) (length b.nodes) else some i)
        ≡ node_at ((b.position + suc n) / b.base_size) (length b.nodes) =
      rw (whole, po)
        (next_cursor i npos (suc n) b.base_size (length b.nodes) (omega arith) (omega arith)
          inside) in
    let got : slice npos (suc n) node ++ [] ≡ slice b.position (suc n) (contents b.nodes) =
      append-nil _
      ∙ sym
          (rw po (slice-contents b.base_size b.nodes i npos (suc n) node c found (omega arith))) in
    read_loop_last fuel i npos (b.base_size - npos) n node b cu found last
    ∙ (λ j. returns (got j) (record b { position = b.position + suc n; cur = cursor j }))

pub read_loop-Reads :
    (fuel i npos n : ℕ) (b : ByteArray)
    → IsChain b.base_size b.nodes
    → b.cur ≡ some i
    → b.position ≡ i * b.base_size + npos
    → npos < b.base_size
    → b.position + suc n ≤ length b.nodes * b.base_size
    → suc n < fuel
    → Reads b (suc n) (read_loop fuel npos (b.base_size - npos) (suc n) b)
read_loop-Reads zero i npos n b c cu po np fi fu = absurd (omega arith)
read_loop-Reads (suc zero) i npos n b c cu po np fi fu = absurd (omega arith)
read_loop-Reads (suc (suc fuel)) i npos n b c cu po np fi fu =
    let inside : i < length b.nodes =
      lt_of_block i npos (length b.nodes) b.base_size (omega arith) in
    elim (Bool-cases (leb (suc n) (b.base_size - npos))) [
      | inl last ↦ read_loop-Reads_last fuel i npos n b c cu po np inside (leb→le _ _ last)
      | inr more ↦
          let ncap = b.base_size - npos in
          let over : ncap < suc n = ground arith in
          let behind : suc i < length b.nodes =
            lt_of_block (suc i) (suc n - ncap - 1) (length b.nodes) b.base_size (omega arith) in
          let (node, found, whole) = get_elem?-IsChain b.base_size b.nodes i c inside in
          let (next, found', whole') = get_elem?-IsChain b.base_size b.nodes (suc i) c behind in
          let b' : ByteArray = record b { cur = some (suc i); position = b.position + ncap } in
          let left : suc n - ncap ≡ suc (n - ncap) = omega arith in
          let room : length next ≡ b.base_size - 0 = omega (arith, whole') in
          let total : b.position + ncap + suc (n - ncap) ≡ b.position + suc n = omega arith in
          let cut : suc n ≡ ncap + suc (n - ncap) = omega arith in
          let rest : Reads b' (suc (n - ncap))
              (read_loop (suc fuel) 0 (b.base_size - 0) (suc (n - ncap)) b') =
            read_loop-Reads (suc fuel) (suc i) 0 (n - ncap) b' c refl (omega arith) (omega arith)
              (omega arith) (omega arith) in
          let got : slice npos ncap node
                ++ slice (b.position + ncap) (suc (n - ncap)) (contents b.nodes)
              ≡ slice b.position (suc n) (contents b.nodes) =
            ap
              (λ (xs : List ℕ). xs ++ slice (b.position + ncap) (suc (n - ncap)) (contents b.nodes))
              (sym
                (rw po (slice-contents b.base_size b.nodes i npos ncap node c found (omega arith))))
            ∙ sym (
                slice-add b.position ncap (suc (n - ncap)) (contents b.nodes)
                  (rw (length-contents b.base_size b.nodes c) (omega arith)))
            ∙ ap (λ (k : ℕ). slice b.position k (contents b.nodes)) (sym cut) in
          read_loop_more (suc fuel) i npos ncap n node next b cu found found' over
            (slice (b.position + ncap) (suc (n - ncap)) (contents b.nodes))
            (passed b' (suc (n - ncap))) (rw (room, left) rest)
          ∙ (λ j. returns (got j) (record b {
            position = total j;
            cur = node_at (total j / b.base_size) (length b.nodes);
          }))
    ]

pub length-bytes : (b : ByteArray) → IsValid b → length (bytes b) ≡ b.size
length-bytes b v = omega (
  arith,
  length-take b.size (contents b.nodes),
  length-contents b.base_size b.nodes v.chain,
  v.full,
  v.fits,
)

slice-ahead :
    (b : ByteArray) (n : ℕ)
    → b.position + n ≤ b.size
    → slice b.position n (contents b.nodes) ≡ take n (ahead b)
slice-ahead b n h =
    sym (take-take n (b.size - b.position) (drop b.position (contents b.nodes)) (omega arith))
    ∙ ap (take n) (sym (drop-take b.position b.size (contents b.nodes)))

-- Read returns the next `n` bytes ahead and moves the position behind them.
pub record ReadsAhead (b : ByteArray) (n : ℕ) (c : ByteArray) : Type 0 where
  pub valid : IsValid c
  pub behind_c : behind c ≡ behind b ++ take n (ahead b)
  pub ahead_c : ahead c ≡ drop n (ahead b)
  pub position_c : c.position ≡ b.position + n
  pub size_c : c.size ≡ b.size
  pub endian_c : c.endian ≡ b.endian

passed-ReadsAhead :
    (b : ByteArray) (n : ℕ) → IsValid b → b.position + n ≤ b.size → ReadsAhead b n (passed b n)
passed-ReadsAhead b n v h = record {
  valid = record {
    based = v.based;
    rooted = v.rooted;
    chain = v.chain;
    full = v.full;
    addressable = v.addressable;
    within = h;
    fits = v.fits;
    cursor = refl;
  };
  behind_c =
      let e : 0 + b.position ≡ b.position = omega arith in
      rw e at (slice-add 0 b.position n (bytes b) (omega (arith, length-bytes b v)));
  ahead_c = sym (drop-drop n b.position _);
  position_c = refl;
  size_c = refl;
  endian_c = refl;
}

-- Read of a positive number of bytes that the array holds ahead of the position returns them, and
-- moves the position and nothing else, whatever the block size.
pub read-ReadsAhead :
    (b : ByteArray) (n : ℕ)
    → IsValid b
    → 0 < n
    → b.position + n ≤ b.size
    → (read n b ≡ returns (take n (ahead b)) (passed b n)) × ReadsAhead b n (passed b n)
unfolding read
read-ReadsAhead b zero v ne h = absurd (omega arith)
read-ReadsAhead b (suc n) v ne h = (got, passed-ReadsAhead b (suc n) v h)
  where
    below : b.position < b.capacity
    below = omega (arith, v.fits)

    got : read (suc n) b ≡ returns (take (suc n) (ahead b)) (passed b (suc n))
    got =
        rw
          (
            read_size_lem b v,
            ltb-false (b.size - b.position) (suc n) (omega arith),
            cur_room_lem b v below,
            ◌>>=◌,
          )
          (read_loop-Reads (suc n + 2) (b.position / b.base_size) (b.position % b.base_size) n b
              v.chain (cursor_inside b v below) (omega (arith, v.based)) (omega (arith, v.based))
              (omega (arith, v.fits, v.full)) (omega arith)
            ∙ ap (λ (bs : List ℕ). returns bs (passed b (suc n))) (slice-ahead b (suc n) h))

-- With too few bytes ahead Read throws, and leaves the array as it was.
pub read_short : (b : ByteArray) (n : ℕ) → IsValid b → b.size < b.position + n → read n b ≡ throws b
unfolding read
read_short b n v h = rw (read_size_lem b v, lt→ltb (b.size - b.position) n (omega arith))
