-- ===== src/Container/ByteArray/Codec/Fixed.antt =====
-- Numbers of a fixed size in either byte order.
use server_frame.Prelude.{
  ℕ, zero, suc, ◌+◌, ◌*◌, ◌/◌, ◌%◌, ◌^◌, ◌<◌, ◌≡◌, refl, sym, ap, ◌∙◌, List, [], ◌∷◌, arith, length,
  length-append, if◌then◌else◌, All, All-append,
}
use native.Mathlib.Nat.{pow-suc}
use mathlib.Core.List.{append-nil, reverse, reverse-cons, reverse-reverse}
use mathlib.Core.Path.{subst}
use server_frame.Container.ByteArray.Tape.{behind}
use server_frame.Container.ByteArray.{ByteArray, Endian, little, big, returns, pure, write, read}
use server_frame.Container.ByteArray.Codec.{
  to_bytes, from_bytes, byteswap, is_swapped, write_fixed, read_fixed, read_fuint8,
}
use server_frame.Container.ByteArray.Codec.Parse.{Parses, read-Parses, pure-Parses, map-Parses}

pub length-to_bytes : (n v : ℕ) → length (to_bytes n v) ≡ n
unfolding to_bytes
length-to_bytes zero v = refl
length-to_bytes (suc n) v = ap suc (length-to_bytes n (v / 256))

pub from_bytes-to_bytes : (n v : ℕ) → v < 256 ^ n → from_bytes (to_bytes n v) ≡ v
unfolding to_bytes from_bytes
from_bytes-to_bytes zero v h = omega arith
from_bytes-to_bytes (suc n) v h =
    omega (arith, from_bytes-to_bytes n (v / 256) (omega (arith, pow-suc 256 n)))

to_bytes-from_bytes :
    (xs : List ℕ) → All (λ x. x < 256) xs → to_bytes (length xs) (from_bytes xs) ≡ xs
unfolding to_bytes from_bytes
to_bytes-from_bytes [] h = refl
to_bytes-from_bytes (x ∷ xs) (hx, h) =
    let low : (x + 256 * from_bytes xs) % 256 ≡ x = omega arith in
    let high : (x + 256 * from_bytes xs) / 256 ≡ from_bytes xs = omega arith in
    rw (low, high) (ap (◌∷◌ x) (to_bytes-from_bytes xs h))

to_bytes-IsByte : (n v : ℕ) → All (λ x. x < 256) (to_bytes n v)
unfolding to_bytes
to_bytes-IsByte zero v = tt
to_bytes-IsByte (suc n) v = (omega arith, to_bytes-IsByte n (v / 256))

reverse-IsByte : (xs : List ℕ) → All (λ x. x < 256) xs → All (λ x. x < 256) (reverse xs)
reverse-IsByte [] h = tt
reverse-IsByte (x ∷ xs) (hx, h) =
    rw (reverse-cons x xs) (All-append _ (reverse xs) (x ∷ []) (reverse-IsByte xs h) (hx, tt))

length-reverse : (xs : List ℕ) → length (reverse xs) ≡ length xs
length-reverse [] = refl
length-reverse (x ∷ xs) =
    omega
      (arith, ap length (reverse-cons x xs), length-append (reverse xs) (x ∷ []), length-reverse xs)

-- A swapped number has its bytes in the reverse order.
pub to_bytes-byteswap : (n v : ℕ) → to_bytes n (byteswap n v) ≡ reverse (to_bytes n v)
unfolding byteswap
to_bytes-byteswap n v =
    let bs = reverse (to_bytes n v) in
    let len : length bs ≡ n = length-reverse (to_bytes n v) ∙ length-to_bytes n v in
    let back : to_bytes (length bs) (from_bytes bs) ≡ bs =
      to_bytes-from_bytes bs (reverse-IsByte _ (to_bytes-IsByte n v)) in
    rw len at back

-- Byteswap undoes itself on numbers of `n` bytes.
pub byteswap-byteswap : (n v : ℕ) → v < 256 ^ n → byteswap n (byteswap n v) ≡ v
unfolding byteswap
byteswap-byteswap n v h =
    ap (λ (bs : List ℕ). from_bytes (reverse bs)) (to_bytes-byteswap n v)
    ∙ ap from_bytes (reverse-reverse (to_bytes n v))
    ∙ from_bytes-to_bytes n v h

-- The bytes of a fixed-size number on the tape: big endian puts the highest byte first.
pub fixed_bytes : Endian → ℕ → ℕ → List ℕ
fixed_bytes little n v = to_bytes n v
fixed_bytes big n v = reverse (to_bytes n v)

pub length-fixed_bytes : (e : Endian) (n v : ℕ) → length (fixed_bytes e n v) ≡ n
unfolding fixed_bytes
length-fixed_bytes little n v = length-to_bytes n v
length-fixed_bytes big n v = length-reverse (to_bytes n v) ∙ length-to_bytes n v

fixed_bytes-swapped :
    (e : Endian) (n v : ℕ)
    → to_bytes n (if is_swapped e then byteswap n v else v) ≡ fixed_bytes e n v
unfolding fixed_bytes
fixed_bytes-swapped little n v = refl
fixed_bytes-swapped big n v = to_bytes-byteswap n v

pub write_fixed_lem :
    (n v : ℕ) (b : ByteArray) → write_fixed n v b ≡ write (fixed_bytes b.endian n v) b
unfolding write_fixed
write_fixed_lem n v b = ap (λ (bs : List ℕ). write bs b) (fixed_bytes-swapped b.endian n v)

unswapped :
    (e : Endian) (n v : ℕ)
    → v < 256 ^ n
    → (if is_swapped e
        then byteswap n (from_bytes (fixed_bytes e n v))
        else from_bytes (fixed_bytes e n v))
      ≡ v
unfolding fixed_bytes
unswapped little n v h = from_bytes-to_bytes n v h
unswapped big n v h = unfold byteswap in byteswap-byteswap n v h

-- An answer that depends on the byte order in force.
endian-Parses :
    (e : Endian) (f : Endian → ℕ) (a : ℕ) → f e ≡ a → Parses e (λ c. returns (f c.endian) c) [] a
endian-Parses e f a h b rest v en lies = record {
  final = b;
  result = ap (λ (x : ℕ). returns x b) (ap f en ∙ h);
  valid = v;
  ahead_final = lies;
  behind_final = sym (append-nil (behind b));
  size_final = refl;
  endian_final = refl;
}

-- ReadFint and ReadFuint give back what WriteFint and WriteFuint wrote in the same byte order.
pub read_fixed-Parses :
    (e : Endian) (n v : ℕ) → 0 < n → v < 256 ^ n → Parses e (read_fixed n) (fixed_bytes e n v) v
unfolding read_fixed
read_fixed-Parses e n v ne h b rest val en lies =
    let bs = fixed_bytes e n v in
    let len : length bs ≡ n = length-fixed_bytes e n v in
    map-Parses e (read n)
      (λ xs c.
        returns (if is_swapped c.endian then byteswap n (from_bytes xs) else from_bytes xs) c)
      bs bs v
      (subst (λ (k : ℕ). Parses e (read k) bs bs) len (read-Parses e bs (omega (arith, len))))
      (endian-Parses e (λ o. if is_swapped o then byteswap n (from_bytes bs) else from_bytes bs) v
        (unswapped e n v h))
      b rest val en lies

-- ReadFuint8 answers the next byte.
pub read_fuint8-Parses : (e : Endian) (x : ℕ) → Parses e read_fuint8 (x ∷ []) x
unfolding read_fuint8
read_fuint8-Parses e x b rest val en lies =
    map-Parses e (read 1) (λ bs. pure (from_bytes bs)) (x ∷ []) (x ∷ []) x
      (read-Parses e (x ∷ []) (omega arith))
      (unfold from_bytes in let one : x + 256 * 0 ≡ x = omega arith in rw one (pure-Parses e x)) b
      rest val en lies
