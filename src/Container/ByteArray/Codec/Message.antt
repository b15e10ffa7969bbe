-- ===== src/Container/ByteArray/Codec/Message.antt =====
-- Messages: lists of typed values, written one after the other by ByteArray's public calls.
use server_frame.Prelude.{ℕ, ◌^◌, ◌<◌, List, [], ◌∷◌, ◌++◌, map, length}
use server_frame.Container.ByteArray.{ByteArray, Outcome, M, pure, ◌>>=◌, ◌>>◌, Endian}
use server_frame.Container.ByteArray.Seek.{set_position}
use server_frame.Container.ByteArray.Codec.{
  write_fixed, read_fixed, write_uint, read_uint, write_int, read_int, encode_zigzag,
  write_string_fixed, read_string_fixed, write_string_vint, read_string_vint,
}
use server_frame.Container.ByteArray.Codec.Fixed.{fixed_bytes}
use server_frame.Container.ByteArray.Codec.Varint.{Width, w64, bits, uint_bytes}

pub data Size : Type 0 where
  one two four eight : Size

abbrev pub size_of : Size → ℕ
size_of one = 1
size_of two = 2
size_of four = 4
size_of eight = 8

-- What a message is made of, and a value of it: the calls of the public interface.
pub data Shape : Type 0 where
  fixed : Size → Shape
  uint int : Width → Shape
  text : Size → Shape
  vtext : Shape

pub data Value : Type 0 where
  fixed : Size → ℕ → Value
  uint int : Width → ℕ → Value
  text : Size → List ℕ → Value
  vtext : List ℕ → Value

abbrev pub shape : Value → Shape
shape (Value.fixed s v) = Shape.fixed s
shape (Value.uint w v) = Shape.uint w
shape (Value.int w v) = Shape.int w
shape (Value.text s xs) = Shape.text s
shape (Value.vtext xs) = Shape.vtext

-- The values that the types of the source can hold; a text has at least one byte.
abbrev pub IsStorable : Value → Type 0
IsStorable (Value.fixed s v) = v < 256 ^ size_of s
IsStorable (Value.uint w v) = v < 2 ^ bits w
IsStorable (Value.int w v) = v < 2 ^ bits w
IsStorable (Value.text s xs) = (0 < length xs) × (length xs < 256 ^ size_of s)
IsStorable (Value.vtext xs) = (0 < length xs) × (length xs < 2 ^ 64)

unfoldable pub write_value : Value → M (Unit {0})
write_value (Value.fixed s v) = write_fixed (size_of s) v
write_value (Value.uint w v) = write_uint (bits w) v
write_value (Value.int w v) = write_int (bits w) v
write_value (Value.text s xs) = write_string_fixed (size_of s) xs
write_value (Value.vtext xs) = write_string_vint xs

unfoldable pub read_value : Shape → M Value
read_value (Shape.fixed s) = read_fixed (size_of s) >>= λ v. pure (Value.fixed s v)
read_value (Shape.uint w) = read_uint (bits w) >>= λ v. pure (Value.uint w v)
read_value (Shape.int w) = read_int (bits w) >>= λ v. pure (Value.int w v)
read_value (Shape.text s) = read_string_fixed (size_of s) >>= λ xs. pure (Value.text s xs)
read_value Shape.vtext = read_string_vint >>= λ xs. pure (Value.vtext xs)

unfoldable pub write_all : List Value → M (Unit {0})
unfolding write_value
write_all [] = pure tt
write_all (x ∷ xs) = write_value x >> write_all xs

unfoldable pub read_all : List Shape → M (List Value)
unfolding read_value
read_all [] = pure []
read_all (s ∷ ss) = do x ← read_value s; xs ← read_all ss; pure (x ∷ xs)

-- The bytes of a value on the tape.
unfoldable pub value_bytes : Endian → Value → List ℕ
value_bytes e (Value.fixed s v) = fixed_bytes e (size_of s) v
value_bytes e (Value.uint w v) = uint_bytes w v
value_bytes e (Value.int w v) = uint_bytes w (encode_zigzag (bits w) v)
value_bytes e (Value.text s xs) = fixed_bytes e (size_of s) (length xs) ++ xs
value_bytes e (Value.vtext xs) = uint_bytes w64 (length xs) ++ xs

unfoldable pub message_bytes : Endian → List Value → List ℕ
unfolding value_bytes
message_bytes e [] = []
message_bytes e (x ∷ xs) = value_bytes e x ++ message_bytes e xs

-- Write, SetPosition back, read.
unfoldable pub transfer : List Value → ByteArray → Outcome (List Value)
transfer xs b = (do write_all xs; set_position b.position; read_all (map shape xs)) b
