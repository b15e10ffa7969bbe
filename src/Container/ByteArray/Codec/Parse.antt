-- ===== src/Container/ByteArray/Codec/Parse.antt =====
-- What it means that a Read operation consumes some bytes and answers a value, with a rule for
-- each way of putting such operations together.
use server_frame.Prelude.{
  ℕ, ◌+◌, ◌-◌, ◌<◌, ◌≡◌, refl, sym, ap, ◌∙◌, List, [], ◌++◌, arith, length, length-append,
  length-drop, take, take-append_self, drop-append_self, append_assoc, append-nil,
}
use server_frame.Container.ByteArray.{ByteArray, Outcome, returns, M, pure, ◌>>=◌, Endian, read}
use server_frame.Container.ByteArray.Invariant.{IsValid}
use server_frame.Container.ByteArray.Tape.{bytes, behind, ahead}
use server_frame.Container.ByteArray.Read.{read-ReadsAhead, passed, length-bytes}

-- The outcome of reading `bs` from a tape on which `rest` follows, with the answer `a`.
pub record Parsed {ℓ} {A : Type ℓ} (b : ByteArray) (bs rest : List ℕ) (a : A) (o : Outcome A)
    : Type ℓ where
  pub final : ByteArray
  pub result : o ≡ returns a final
  pub valid : IsValid final
  pub ahead_final : ahead final ≡ rest
  pub behind_final : behind final ≡ behind b ++ bs
  pub size_final : final.size ≡ b.size
  pub endian_final : final.endian ≡ b.endian

-- Wherever `bs` lies ahead, `m` consumes it and answers `a`.
abbrev pub Parses {ℓ} : {A : Type ℓ} → Endian → M A → List ℕ → A → Type ℓ
Parses e m bs a =
    (b : ByteArray) (rest : List ℕ)
    → IsValid b
    → b.endian ≡ e
    → ahead b ≡ bs ++ rest
    → Parsed b bs rest a (m b)

pub length-ahead : (b : ByteArray) → IsValid b → length (ahead b) ≡ b.size - b.position
length-ahead b v = omega (arith, length-drop b.position (bytes b), length-bytes b v)

pub read-Parses : (e : Endian) (bs : List ℕ) → 0 < length bs → Parses e (read (length bs)) bs bs
read-Parses e bs ne b rest v en lies =
    let len : b.size - b.position ≡ length bs + length rest =
      sym (length-ahead b v) ∙ ap length lies ∙ length-append bs rest in
    let (got, r) = read-ReadsAhead b (length bs) v ne (omega (arith, v.within)) in
    let front : take (length bs) (ahead b) ≡ bs = rw lies (take-append_self bs rest) in
    record {
      final = passed b (length bs);
      result = got ∙ ap (λ (xs : List ℕ). returns xs (passed b (length bs))) front;
      valid = r.valid;
      ahead_final = r.ahead_c ∙ rw lies (drop-append_self bs rest);
      behind_final = r.behind_c ∙ ap (◌++◌ (behind b)) front;
      size_final = r.size_c;
      endian_final = r.endian_c;
    }

pub pure-Parses {ℓ} : {A : Type ℓ} (e : Endian) (a : A) → Parses e (pure a) [] a
pure-Parses e a b rest v en lies = record {
  final = b;
  result = refl;
  valid = v;
  ahead_final = lies;
  behind_final = sym (append-nil (behind b));
  size_final = refl;
  endian_final = refl;
}

pub >>=-Parses {ℓ κ} :
    {A : Type ℓ} {B : Type κ} (e : Endian) (m : M A) (f : A → M B) (bs cs : List ℕ) (a : A) (y : B)
    → Parses e m bs a
    → Parses e (f a) cs y
    → Parses e (m >>= f) (bs ++ cs) y
>>=-Parses e m f bs cs a y p q b rest v en lies =
    let r = p b (cs ++ rest) v en (lies ∙ append_assoc bs cs rest) in
    let s = q r.final rest r.valid (r.endian_final ∙ en) r.ahead_final in
    record {
      final = s.final;
      result = rw (r.result, ◌>>=◌) s.result;
      valid = s.valid;
      ahead_final = s.ahead_final;
      behind_final =
          s.behind_final
          ∙ ap (λ (xs : List ℕ). xs ++ cs) r.behind_final
          ∙ append_assoc (behind b) bs cs;
      size_final = s.size_final ∙ r.size_final;
      endian_final = s.endian_final ∙ r.endian_final;
    }

-- An operation that maps the answer of another.
pub map-Parses {ℓ κ} :
    {A : Type ℓ} {B : Type κ} (e : Endian) (m : M A) (f : A → M B) (bs : List ℕ) (a : A) (y : B)
    → Parses e m bs a
    → Parses e (f a) [] y
    → Parses e (m >>= f) bs y
map-Parses e m f bs a y p q b rest v en lies =
    let r =
      >>=-Parses e m f bs [] a y p q b rest v en
        (lies ∙ ap (λ (xs : List ℕ). xs ++ rest) (sym (append-nil bs))) in
    record {
      final = r.final;
      result = r.result;
      valid = r.valid;
      ahead_final = r.ahead_final;
      behind_final = r.behind_final ∙ ap (◌++◌ (behind b)) (append-nil bs);
      size_final = r.size_final;
      endian_final = r.endian_final;
    }
