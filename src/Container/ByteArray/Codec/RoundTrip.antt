-- ===== src/Container/ByteArray/Codec/RoundTrip.antt =====
-- Whole messages: a list of typed values written one after the other and read back.
use native.Mathlib.Nat.{mod-eq_of_lt}
use server_frame.Prelude.{
  ℕ, ◌+◌, ◌*◌, ◌%◌, ◌^◌, ◌<◌, ◌≤◌, ◌≡◌, refl, sym, ap, ◌∙◌, List, [], ◌∷◌, ◌++◌, map, arith, length,
  length-append, take, drop, All, drop-drop, append_assoc, take-append_self, drop-append_self,
  take-append-drop, length-take,
}
use server_frame.Container.ByteArray.{ByteArray, returns, M, ◌>>=◌, ◌>>◌, Endian, write}
use server_frame.Container.ByteArray.Invariant.{IsValid}
use server_frame.Container.ByteArray.Tape.{bytes, behind, ahead}
use server_frame.Container.ByteArray.Write.{Writes, write-Writes}
use server_frame.Container.ByteArray.Read.{length-bytes}
use server_frame.Container.ByteArray.Seek.{set_position, moved_to, set_position_lem, moved_to-tape}
use server_frame.Container.ByteArray.Codec.{
  write_fixed, read_fixed, write_uint, read_uint, write_int, read_int, encode_zigzag,
  write_string_fixed, read_string_fixed, write_string_vint, read_string_vint,
}
use server_frame.Container.ByteArray.Codec.Parse.{
  Parses, read-Parses, pure-Parses, >>=-Parses, map-Parses,
}
use server_frame.Container.ByteArray.Codec.Fixed.{fixed_bytes, write_fixed_lem, read_fixed-Parses}
use server_frame.Container.ByteArray.Codec.Varint.{
  Width, w64, bits, uint_bytes, write_uint_lem, read_uint-Parses,
}
use server_frame.Container.ByteArray.Codec.Zigzag.{read_int-Parses, encode_zigzag-lt}
use server_frame.Container.ByteArray.Codec.Message.{
  Size, one, two, four, eight, size_of, Value, shape, IsStorable, write_value, read_value,
  write_all, read_all, value_bytes, message_bytes, transfer,
}

-- `m` writes `bs` to any array of byte order `e` that can address them.
abbrev Produces : Endian → M (Unit {0}) → List ℕ → Type 0
Produces e m bs =
    (b : ByteArray)
    → IsValid b
    → b.endian ≡ e
    → b.position + length bs + b.base_size < 2 ^ 64
    → (c : ByteArray) × (m b ≡ returns tt c) × Writes b bs c

write-Produces :
    (e : Endian) (m : M (Unit {0})) (bs : List ℕ)
    → ((b : ByteArray) → b.endian ≡ e → m b ≡ write bs b)
    → Produces e m bs
write-Produces e m bs h b v en fit =
    let (c, done, w) = write-Writes b bs v fit in (c, h b en ∙ done, w)

>>-Produces :
    (e : Endian) (m k : M (Unit {0})) (bs cs : List ℕ)
    → Produces e m bs
    → Produces e k cs
    → Produces e (m >> k) (bs ++ cs)
>>-Produces e m k bs cs p q b v en fit =
    let len : length (bs ++ cs) ≡ length bs + length cs = length-append bs cs in
    let (c, done, w) = p b v en (omega arith) in
    let (d, done', w') = q c w.valid (w.endian_c ∙ en) (omega (arith, w.position_c, w.base_c)) in
    (
      d,
      rw (done, ◌>>◌, ◌>>=◌) done',
      record {
        valid = w'.valid;
        behind_c =
            w'.behind_c ∙ ap (λ (xs : List ℕ). xs ++ cs) w.behind_c ∙ append_assoc (behind b) bs cs;
        ahead_c =
            w'.ahead_c
            ∙ ap (drop (length cs)) w.ahead_c
            ∙ drop-drop (length cs) (length bs) (ahead b)
            ∙ ap (λ (k : ℕ). drop k (ahead b)) (sym len);
        position_c = omega (arith, w.position_c, w'.position_c);
        base_c = w'.base_c ∙ w.base_c;
        endian_c = w'.endian_c ∙ w.endian_c;
      },
    )

size_of-pos : (s : Size) → 0 < size_of s
size_of-pos one = omega arith
size_of-pos two = omega arith
size_of-pos four = omega arith
size_of-pos eight = omega arith

-- The length that is written is the text's.
length_cut : (s : Size) (n : ℕ) → n < 256 ^ size_of s → n % 2 ^ (8 * size_of s) ≡ n
length_cut one n h = mod-eq_of_lt h
length_cut two n h = mod-eq_of_lt h
length_cut four n h = mod-eq_of_lt h
length_cut eight n h = mod-eq_of_lt h

fixed-Produces : (e : Endian) (n v : ℕ) → Produces e (write_fixed n v) (fixed_bytes e n v)
fixed-Produces e n v =
    write-Produces e _ _
      λ b en. write_fixed_lem n v b ∙ ap (λ (o : Endian). write (fixed_bytes o n v) b) en

uint-Produces :
    (e : Endian) (w : Width) (v : ℕ)
    → v < 2 ^ bits w
    → Produces e (write_uint (bits w) v) (uint_bytes w v)
uint-Produces e w v h = write-Produces e _ _ λ b en. write_uint_lem w v b h

write_value-Produces :
    (e : Endian) (x : Value) → IsStorable x → Produces e (write_value x) (value_bytes e x)
unfolding write_value value_bytes write_int write_string_fixed write_string_vint
write_value-Produces e (Value.fixed s v) h = fixed-Produces e (size_of s) v
write_value-Produces e (Value.uint w v) h = uint-Produces e w v h
write_value-Produces e (Value.int w v) h =
    uint-Produces e w (encode_zigzag (bits w) v) (encode_zigzag-lt w v)
write_value-Produces e (Value.text s xs) (ne, h) = rw (length_cut s (length xs) h) (
    >>-Produces e (write_fixed (size_of s) (length xs)) (write xs) _ xs
      (fixed-Produces e (size_of s) (length xs)) (write-Produces e _ xs λ b en. refl))
write_value-Produces e (Value.vtext xs) (ne, h) =
    >>-Produces e (write_uint 64 (length xs)) (write xs) _ xs (uint-Produces e w64 (length xs) h)
      (write-Produces e _ xs λ b en. refl)

read_value-Parses :
    (e : Endian) (x : Value) → IsStorable x → Parses e (read_value (shape x)) (value_bytes e x) x
unfolding read_value value_bytes read_string_fixed read_string_vint
read_value-Parses e (Value.fixed s v) h =
    map-Parses e (read_fixed (size_of s)) _ _ v _
      (read_fixed-Parses e (size_of s) v (size_of-pos s) h) (pure-Parses e _)
read_value-Parses e (Value.uint w v) h =
    map-Parses e (read_uint (bits w)) _ _ v _ (read_uint-Parses e w v h) (pure-Parses e _)
read_value-Parses e (Value.int w v) h =
    map-Parses e (read_int (bits w)) _ _ v _ (read_int-Parses e w v h) (pure-Parses e _)
read_value-Parses e (Value.text s xs) (ne, h) =
    map-Parses e _ _ _ xs _
      (>>=-Parses e (read_fixed (size_of s)) _ _ xs (length xs) xs
        (read_fixed-Parses e (size_of s) (length xs) (size_of-pos s) h) (read-Parses e xs ne))
      (pure-Parses e _)
read_value-Parses e (Value.vtext xs) (ne, h) =
    map-Parses e _ _ _ xs _
      (>>=-Parses e (read_uint 64) _ _ xs (length xs) xs (read_uint-Parses e w64 (length xs) h)
        (read-Parses e xs ne))
      (pure-Parses e _)

write_all-Produces :
    (e : Endian) (xs : List Value)
    → All IsStorable xs
    → Produces e (write_all xs) (message_bytes e xs)
unfolding write_all message_bytes
write_all-Produces e [] h = write-Produces e _ [] λ b en. unfold write in refl
write_all-Produces e (x ∷ xs) (hx, h) =
    >>-Produces e _ _ _ _ (write_value-Produces e x hx) (write_all-Produces e xs h)

read_all-Parses :
    (e : Endian) (xs : List Value)
    → All IsStorable xs
    → Parses e (read_all (map shape xs)) (message_bytes e xs) xs
unfolding read_all message_bytes
read_all-Parses e [] h = pure-Parses e []
read_all-Parses e (x ∷ xs) (hx, h) =
    >>=-Parses e _ _ _ _ x _ (read_value-Parses e x hx)
      (map-Parses e _ _ _ xs _ (read_all-Parses e xs h) (pure-Parses e _))

-- What a jump back to the start of a write finds: the bytes written, and then what lay behind them.
seek_back :
    (b c : ByteArray) (bs : List ℕ)
    → IsValid b
    → Writes b bs c
    → (set_position b.position c ≡ returns tt (moved_to c b.position))
      × IsValid (moved_to c b.position)
      × (behind (moved_to c b.position) ≡ behind b)
      × (ahead (moved_to c b.position) ≡ bs ++ drop (length bs) (ahead b))
seek_back b c bs v w =
    let start = b.position in
    let in_size : start ≤ c.size = omega (arith, w.position_c, w.valid.within) in
    let (jump, valid) = set_position_lem c start w.valid (omega (arith, w.valid.fits)) in
    let (front, back, _) = moved_to-tape c start in_size in
    let len : length (behind b) ≡ start =
      omega (arith, length-take start (bytes b), length-bytes b v, v.within) in
    let whole : bytes c ≡ behind b ++ (bs ++ drop (length bs) (ahead b)) =
      sym (take-append-drop c.position (bytes c))
      ∙ ap (λ (xs : List ℕ). xs ++ ahead c) w.behind_c
      ∙ append_assoc (behind b) bs (ahead c)
      ∙ ap (λ (xs : List ℕ). behind b ++ (bs ++ xs)) w.ahead_c in
    (
      jump,
      valid,
      front
          ∙ ap (take start) whole
          ∙ (rw len at (take-append_self (behind b) (bs ++ drop (length bs) (ahead b)))),
      back
          ∙ ap (drop start) whole
          ∙ (rw len at (drop-append_self (behind b) (bs ++ drop (length bs) (ahead b)))),
    )

-- From any valid array with room in memory, a message of storable values that is written, sought
-- back and read by its shapes comes back whole, whatever the block size, the byte order and the
-- position. The reads leave the array as the writes did: valid, with the message behind the
-- position and what it did not replace ahead.
pub transfer-returns :
    (xs : List Value) (b : ByteArray)
    → IsValid b
    → All IsStorable xs
    → b.position + length (message_bytes b.endian xs) + b.base_size < 2 ^ 64
    → (d : ByteArray) × (transfer xs b ≡ returns xs d)
      × IsValid d
      × (behind d ≡ behind b ++ message_bytes b.endian xs)
      × (ahead d ≡ drop (length (message_bytes b.endian xs)) (ahead b))
unfolding transfer
transfer-returns xs b v h fit =
    let bs = message_bytes b.endian xs in
    let (c, written, w) = write_all-Produces b.endian xs h b v refl fit in
    let (jump, valid, front, back) = seek_back b c bs v w in
    let r = read_all-Parses b.endian xs h (moved_to c b.position) _ valid w.endian_c back in
    (
      r.final,
      rw (written, ◌>>◌, ◌>>=◌, jump) r.result,
      r.valid,
      r.behind_final ∙ ap (λ (ys : List ℕ). ys ++ bs) front,
      r.ahead_final,
    )
