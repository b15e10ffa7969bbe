-- ===== src/Container/ByteArray/Buffers.antt =====
-- GetReadBuffers and GetWriteBuffers of server_frame/bytearray.cc: pieces of the blocks.
use server_frame.Prelude.{
  ℕ, zero, suc, ◌+◌, ◌-◌, ◌%◌, ◌/◌, ◌≤◌, ◌<◌, ◌≡◌, refl, sym, ap, ◌∙◌, List, [], ◌∷◌, ◌++◌, Option,
  none, some, true, false, ltb, leb, ◌==◌, if◌then◌else◌, length, get_elem?, slice, arith,
  Option-cases, Bool-cases, inl, inr, take, ltb-false,
}
use server_frame.Container.ByteArray.Chain.{node_at}
use server_frame.Container.ByteArray.Tape.{ahead}
use server_frame.Container.ByteArray.Invariant.{IsValid, read_size_lem, cursor_inside, cur_room_lem}
use server_frame.Container.ByteArray.Read.{passed, read-ReadsAhead}
use server_frame.Container.ByteArray.{
  ByteArray, Outcome, returns, throws, faults, diverges, ◌>>=◌, pure, read_loop, read, read_size,
  cur_room, add_capacity,
}

-- An iovec: the node, the offset in it, and the length.
abbrev pub Piece : Type 0
Piece = ℕ × ℕ × ℕ

-- The loop over the blocks from the node `i` on; `none` is an access through nullptr.
piece_loop : ℕ → ℕ → ℕ → ℕ → ℕ → List (List ℕ) → Option (List Piece)
piece_loop zero npos ncap len i nodes = none
piece_loop (suc fuel) npos ncap zero i nodes = some []
piece_loop (suc fuel) npos ncap (suc n) i nodes = elim (leb (suc n) ncap) [
  | true ↦ elim (piece_loop fuel npos ncap 0 i nodes) [
    | none ↦ none
    | some ps ↦ some ((i, npos, suc n) ∷ ps)
  ]
  | false ↦ elim (get_elem? nodes (suc i)) [
    | none ↦ none
    | some next ↦ elim (piece_loop fuel 0 (length next) (suc n - ncap) (suc i) nodes) [
      | none ↦ none
      | some ps ↦ some ((i, npos, ncap) ∷ ps)
    ]
  ]
]

-- The bytes that the pieces hold.
abbrev pub gather : List (List ℕ) → List Piece → List ℕ
gather nodes [] = []
gather nodes ((i, npos, n) ∷ ps) =
    (elim (get_elem? nodes i) [ none ↦ [] | some node ↦ slice npos n node ]) ++ gather nodes ps

-- The lengths of the iovecs together.
abbrev pub total_length : List Piece → ℕ
total_length [] = 0
total_length ((i, npos, n) ∷ ps) = n + total_length ps

length_of : Option (List Piece) → ℕ
length_of o = elim o [ none ↦ 0 | some ps ↦ total_length ps ]

piece_loop-total :
    (fuel npos ncap n i : ℕ) (nodes : List (List ℕ)) (ps : List Piece)
    → piece_loop fuel npos ncap n i nodes ≡ some ps
    → total_length ps ≡ n
unfolding piece_loop length_of
piece_loop-total zero npos ncap n i nodes ps e = cc
piece_loop-total (suc fuel) npos ncap zero i nodes ps e = sym (ap length_of e)
piece_loop-total (suc fuel) npos ncap (suc n) i nodes ps e = elim (Bool-cases (leb (suc n) ncap)) [
  | inl t ↦ elim (Option-cases (piece_loop fuel npos ncap 0 i nodes)) [
    | inl f ↦ let g : none ≡ some ps = rw (piece_loop, t, f) at e in cc
    | inr (qs, f) ↦
        let g : some ((i, npos, suc n) ∷ qs) ≡ some ps = rw (piece_loop, t, f) at e in
        let rest = piece_loop-total fuel npos ncap 0 i nodes qs f in
        sym (ap length_of g) ∙ omega (arith, rest)
  ]
  | inr t ↦ elim (Option-cases (get_elem? nodes (suc i))) [
    | inl k ↦ let g : none ≡ some ps = rw (piece_loop, t, k) at e in cc
    | inr (next, k) ↦
        elim (Option-cases (piece_loop fuel 0 (length next) (suc n - ncap) (suc i) nodes)) [
          | inl f ↦ let g : none ≡ some ps = rw (piece_loop, t, k, f) at e in cc
          | inr (qs, f) ↦
              let g : some ((i, npos, ncap) ∷ qs) ≡ some ps = rw (piece_loop, t, k, f) at e in
              let rest = piece_loop-total fuel 0 (length next) (suc n - ncap) (suc i) nodes qs f in
              let less : ncap < suc n = ground arith in sym (ap length_of g) ∙ omega (arith, rest)
        ]
  ]
]

result_of : Outcome (List ℕ) → List ℕ
result_of (returns bs b) = bs
result_of (throws b) = []
result_of faults = []
result_of diverges = []

read_nothing :
    (fuel npos ncap : ℕ) (i : ℕ) (nodes : List (List ℕ)) (bs : List ℕ) (b c : ByteArray)
    → read_loop fuel npos ncap 0 b ≡ returns bs c
    → (bs ≡ []) × (piece_loop fuel npos ncap 0 i nodes ≡ some [])
unfolding read_loop piece_loop result_of
read_nothing zero npos ncap i nodes bs b c e = cc
read_nothing (suc fuel) npos ncap i nodes bs b c e = (sym (ap result_of e), refl)

bound :
    (o : Outcome (List ℕ)) (front bs : List ℕ) (c : ByteArray)
    → (elim o [
      | returns a d ↦ returns (front ++ a) d
      | throws d ↦ throws d
      | faults ↦ faults
      | diverges ↦ diverges
    ])
      ≡ returns bs c
    → (rest : List ℕ) × (d : ByteArray) × (o ≡ returns rest d) × (front ++ rest ≡ bs)
unfolding result_of
bound (returns a d) front bs c e = (a, d, refl, ap result_of e)
bound (throws d) front bs c e = cc
bound faults front bs c e = cc
bound diverges front bs c e = cc

-- One more block of the chain, for Read and for the pieces.
pieces-read :
    (fuel npos ncap n i : ℕ) (b : ByteArray) (bs : List ℕ) (c : ByteArray)
    → b.cur ≡ some i
    → read_loop fuel npos ncap n b ≡ returns bs c
    → (ps : List Piece) × (piece_loop fuel npos ncap n i b.nodes ≡ some ps)
      × (gather b.nodes ps ≡ bs)
unfolding read_loop piece_loop result_of
pieces-read zero npos ncap n i b bs c at_i e = cc
pieces-read (suc fuel) npos ncap zero i b bs c at_i e = ([], refl, ap result_of e)
pieces-read (suc fuel) npos ncap (suc n) i b bs c at_i e =
    elim (Option-cases (get_elem? b.nodes i)) [
      | inl f ↦ let g : faults ≡ returns bs c = rw (read_loop, at_i, f) at e in cc
      | inr (node, f) ↦ elim (Bool-cases (leb (suc n) ncap)) [
        | inl t ↦
            let s = record b {
              cur =
                  if length node == npos + suc n then node_at (suc i) (length b.nodes) else some i;
              position = b.position + suc n;
            } in
            let g : (read_loop fuel npos ncap 0 >>= λ rest. pure (slice npos (suc n) node ++ rest))
                  s
                ≡ returns bs c =
              rw (read_loop, at_i, f, t) at e in
            let (rest, d, h, whole) =
              bound (read_loop fuel npos ncap 0 s) (slice npos (suc n) node) bs c g in
            let (none_left, end) = read_nothing fuel npos ncap i b.nodes rest s d h in
            (
              (i, npos, suc n) ∷ [],
              rw (piece_loop, t, end),
              rw f (ap (λ k. slice npos (suc n) node ++ k) (sym none_left) ∙ whole),
            )
        | inr t ↦ elim (Option-cases (get_elem? b.nodes (suc i))) [
          | inl k ↦ let g : faults ≡ returns bs c = rw (read_loop, at_i, f, t, k) at e in cc
          | inr (next, k) ↦
              let s = record b { cur = some (suc i); position = b.position + ncap } in
              let g : (read_loop fuel 0 (length next) (suc n - ncap) >>= λ rest.
              pure (slice npos ncap node ++ rest))
                    s
                  ≡ returns bs c =
                rw (read_loop, at_i, f, t, k) at e in
              let (rest, d, h, whole) =
                bound (read_loop fuel 0 (length next) (suc n - ncap) s) (slice npos ncap node) bs c
                  g in
              let (ps, pieces, same) =
                pieces-read fuel 0 (length next) (suc n - ncap) (suc i) s rest d refl h in
              (
                (i, npos, ncap) ∷ ps,
                rw (piece_loop, t, k, pieces),
                rw f (ap (λ k. slice npos ncap node ++ k) same ∙ whole),
              )
        ]
      ]
    ]

-- The rest of GetReadBuffers for `n` bytes, from the node that `cur_` points to: `size`, which is
-- what it returns, and the iovecs.
pieces_at : ℕ → Option ℕ → ByteArray → Outcome (ℕ × List Piece)
pieces_at n none b = faults
pieces_at n (some i) b =
    (cur_room (b.position % b.base_size) >>= λ ncap c.
    elim (piece_loop (n + 2) (b.position % b.base_size) ncap n i b.nodes) [
      | none ↦ faults
      | some ps ↦ returns (n, ps) c
    ])
      b

-- GetReadBuffers(buffers, len): what it returns, and the iovecs that it adds.
pub get_read_buffers : ℕ → ByteArray → Outcome (ℕ × List Piece)
get_read_buffers len b =
    let n = if ltb (read_size b) len then read_size b else len in
    if n == 0 then returns (0, []) b else pieces_at n b.cur b

-- GetWriteBuffers: the pieces of `len` bytes behind the position, in an array that has room.
get_write_buffers : ℕ → ByteArray → Outcome (ℕ × List Piece)
get_write_buffers len b =
    let c = add_capacity len b in if len == 0 then returns (0, []) b else pieces_at len c.cur c

module _ (b : ByteArray) (n : ℕ) (v : IsValid b) (h : b.position + suc n ≤ b.size) where
  below : b.position < b.capacity
  below = omega (arith, v.fits)

  room : ℕ
  room = b.base_size - b.position % b.base_size

  enough : ltb (read_size b) (suc n) ≡ false
  enough = rw (read_size_lem b v) (ltb-false (b.size - b.position) (suc n) (omega arith))

  read_is : read (suc n) b ≡ read_loop (suc n + 2) (b.position % b.base_size) room (suc n) b
  unfolding read room
  read_is = rw (enough, cur_room_lem b v below, ◌>>=◌)

  from_cursor :
      (ps : List Piece)
      → piece_loop
          (suc n + 2)
          (b.position % b.base_size)
          room
          (suc n)
          (b.position / b.base_size)
          b.nodes
        ≡ some ps
      → pieces_at (suc n) (some (b.position / b.base_size)) b ≡ returns (suc n, ps) b
  unfolding pieces_at room
  from_cursor ps e = rw (cur_room_lem b v below, ◌>>=◌, e)

  asked : get_read_buffers (suc n) b ≡ pieces_at (suc n) b.cur b
  unfolding get_read_buffers
  asked = let positive : (suc n == 0) ≡ false = ground arith in rw (enough, positive)

  buffers_are :
      (ps : List Piece)
      → piece_loop
          (suc n + 2)
          (b.position % b.base_size)
          room
          (suc n)
          (b.position / b.base_size)
          b.nodes
        ≡ some ps
      → get_read_buffers (suc n) b ≡ returns (suc n, ps) b
  buffers_are ps e =
      asked ∙ ap (λ o. pieces_at (suc n) o b) (cursor_inside b v below) ∙ from_cursor ps e

-- GetReadBuffers of a positive number of bytes that the array holds ahead of the position gives
-- pieces of its blocks that hold just those bytes, in order, and leaves the array as it was. It
-- returns their number, which is the sum of the lengths of the pieces.
pub get_read_buffers_lem :
    (b : ByteArray) (n : ℕ)
    → IsValid b
    → 0 < n
    → b.position + n ≤ b.size
    → (ps : List Piece) × (get_read_buffers n b ≡ returns (n, ps) b)
      × (gather b.nodes ps ≡ take n (ahead b))
      × (total_length ps ≡ n)
get_read_buffers_lem b zero v l h = absurd (omega arith)
get_read_buffers_lem b (suc n) v l h =
    let got = (read-ReadsAhead b (suc n) v (omega arith) h).0 in
    let (ps, pieces, same) =
      pieces-read (suc n + 2) (b.position % b.base_size) (room b n v h) (suc n)
        (b.position / b.base_size) b (take (suc n) (ahead b)) (passed b (suc n))
        (cursor_inside b v (below b n v h)) (sym (read_is b n v h) ∙ got) in
    (
      ps,
      buffers_are b n v h ps pieces,
      same,
      piece_loop-total (suc n + 2) (b.position % b.base_size) (room b n v h) (suc n)
          (b.position / b.base_size) b.nodes ps pieces,
    )
