-- ===== src/Tests/Streams.antt =====
-- Runs of ReadFixSize and WriteFixSize on streams that move at most two bytes a call.
use server_frame.Prelude.{
  ℕ, refl, sym, List, [], ◌∷◌, ◌++◌, arith, take, drop, take-append-drop, length-take,
}
use server_frame.Stream.{ReadAnswer, moves, WriteAnswer, takes, read_fix_size, write_fix_size}
use server_frame.Stream.FixSize.{
  HasRead, IsReader, read_fix_size-HasRead, HasWritten, IsWriter, write_fix_size-HasWritten,
}
use Prim.Native.Nat.{min}

abbrev whole : List ℕ → List ℕ
whole s = s

abbrev reader : List ℕ → ℕ → ReadAnswer × List ℕ
reader s n = (moves (take (min n 2) s), drop (min n 2) s)

reader-IsReader : IsReader whole reader
reader-IsReader s n = (sym (take-append-drop (min n 2) s), omega (arith, length-take (min n 2) s))

abbrev writer : List ℕ → List ℕ → WriteAnswer × List ℕ
writer s bs = (takes 2, s ++ take 2 bs)

writer-IsWriter : IsWriter whole writer
writer-IsWriter s bs = refl

read_fix_size-HasRead_example :
    HasRead whole reader (1 ∷ 2 ∷ 3 ∷ 4 ∷ []) 3 (read_fix_size reader 3 3 (1 ∷ 2 ∷ 3 ∷ 4 ∷ []))
read_fix_size-HasRead_example =
    read_fix_size-HasRead whole reader reader-IsReader 3 3 (1 ∷ 2 ∷ 3 ∷ 4 ∷ []) (omega arith)
      (omega arith)

write_fix_size-HasWritten_example :
    HasWritten whole writer
      (9 ∷ [])
      (1 ∷ 2 ∷ 3 ∷ [])
      (write_fix_size writer 3 (1 ∷ 2 ∷ 3 ∷ []) (9 ∷ []))
write_fix_size-HasWritten_example =
    write_fix_size-HasWritten whole writer writer-IsWriter 3 (1 ∷ 2 ∷ 3 ∷ []) (9 ∷ []) (omega arith)
      (omega arith)
