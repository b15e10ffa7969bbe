-- ===== src/Tests/ByteArrays.antt =====
-- Runs of ByteArray, on blocks of four bytes.
use server_frame.Prelude.{
  ℕ, ◌≡◌, refl, some, List, [], ◌∷◌, ◌++◌, arith, length, length-append, take, drop,
}
use server_frame.Container.ByteArray.{ByteArray, returns, little, big, write, read}
use server_frame.Container.ByteArray.Invariant.{IsValid}
use server_frame.Container.ByteArray.Tape.{behind, ahead}
use server_frame.Container.ByteArray.Write.{Writes, write-Writes}
use server_frame.Container.ByteArray.Read.{passed, ReadsAhead, read-ReadsAhead}
use server_frame.Container.ByteArray.Seek.{set_position, moved_to, set_position_lem}
use server_frame.Container.ByteArray.Buffers.{
  Piece, gather, total_length, get_read_buffers, get_read_buffers_lem,
}
use server_frame.Container.ByteArray.Codec.Fixed.{fixed_bytes, length-fixed_bytes}
use server_frame.Container.ByteArray.Codec.Message.{
  Value, two, one, transfer, message_bytes, value_bytes,
}
use server_frame.Container.ByteArray.Codec.RoundTrip.{transfer-returns}

abbrev empty : ByteArray
empty = record {
  base_size = 4;
  position = 0;
  capacity = 4;
  size = 0;
  nodes = (7 ∷ 7 ∷ 7 ∷ 7 ∷ []) ∷ [];
  cur = some 0;
  endian = big;
  heap = λ i. 7;
}

empty-IsValid : IsValid empty
empty-IsValid = record {
  based = omega arith;
  rooted = omega arith;
  chain = (refl, tt);
  full = refl;
  addressable = omega arith;
  within = omega arith;
  fits = omega arith;
  cursor = refl;
}

-- Two bytes have been read of five, which fill a block and start the next.
abbrev filled : ByteArray
filled = record {
  base_size = 4;
  position = 2;
  capacity = 8;
  size = 5;
  nodes = (1 ∷ 2 ∷ 3 ∷ 4 ∷ []) ∷ (5 ∷ 7 ∷ 7 ∷ 7 ∷ []) ∷ [];
  cur = some 0;
  endian = little;
  heap = λ i. 7;
}

filled-IsValid : IsValid filled
filled-IsValid = record {
  based = omega arith;
  rooted = omega arith;
  chain = (refl, (refl, tt));
  full = refl;
  addressable = omega arith;
  within = omega arith;
  fits = omega arith;
  cursor = refl;
}

write-Writes_example :
    (c : ByteArray) × (write (9 ∷ 8 ∷ 7 ∷ 6 ∷ 5 ∷ []) filled ≡ returns tt c)
    × Writes filled (9 ∷ 8 ∷ 7 ∷ 6 ∷ 5 ∷ []) c
write-Writes_example = write-Writes filled (9 ∷ 8 ∷ 7 ∷ 6 ∷ 5 ∷ []) filled-IsValid (omega arith)

read-ReadsAhead_example :
    (read 3 filled ≡ returns (take 3 (ahead filled)) (passed filled 3))
    × ReadsAhead filled 3 (passed filled 3)
read-ReadsAhead_example = read-ReadsAhead filled 3 filled-IsValid (omega arith) (omega arith)

set_position_lem_example :
    (set_position 8 filled ≡ returns tt (moved_to filled 8)) × IsValid (moved_to filled 8)
set_position_lem_example = set_position_lem filled 8 filled-IsValid (omega arith)

abbrev message : List Value
message = Value.fixed two 258 ∷ Value.text one (104 ∷ 105 ∷ []) ∷ []

message-length : length (message_bytes big message) ≡ 5
unfolding message_bytes value_bytes
message-length =
    let text : List ℕ = 104 ∷ 105 ∷ [] in
    let front = length-append (fixed_bytes big 2 258) (fixed_bytes big 1 2 ++ text ++ []) in
    let middle = length-append (fixed_bytes big 1 2 ++ text) [] in
    let back = length-append (fixed_bytes big 1 2) text in
    let all : length (fixed_bytes big 2 258 ++ (fixed_bytes big 1 2 ++ text ++ [])) ≡ 5 =
      omega
        (arith, front, middle, back, length-fixed_bytes big 2 258, length-fixed_bytes big 1 2) in
    all

transfer-returns_example :
    (d : ByteArray) × (transfer message empty ≡ returns message d)
    × IsValid d
    × (behind d ≡ behind empty ++ message_bytes big message)
    × (ahead d ≡ drop (length (message_bytes big message)) (ahead empty))
transfer-returns_example =
    transfer-returns message empty empty-IsValid (omega arith, ((omega arith, omega arith), tt))
      (omega (arith, message-length))

get_read_buffers_lem_example :
    (ps : List Piece) × (get_read_buffers 3 filled ≡ returns (3, ps) filled)
    × (gather filled.nodes ps ≡ take 3 (ahead filled))
    × (total_length ps ≡ 3)
get_read_buffers_lem_example =
    get_read_buffers_lem filled 3 filled-IsValid (omega arith) (omega arith)
