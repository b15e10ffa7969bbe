-- ===== src/Stream/FixSize.antt =====
-- ReadFixSize and WriteFixSize over a stream that may move fewer bytes than it is asked for.
use server_frame.Prelude.{
  ℕ, zero, suc, ◌-◌, ◌≤◌, ◌<◌, ◌≡◌, refl, sym, ap, ◌∙◌, ◌⊎◌, inl, inr, List, [], ◌∷◌, ◌++◌, length,
  length-append, take, drop, length-take, length-drop, take-append-drop, append_assoc, append-nil,
  arith, ◌^◌, Option, some, ℤ, pos, negsuc,
}
use server_frame.Stream.{
  ReadAnswer, moves, fails, WriteAnswer, takes, refuses, Answer, full, stops, read_left,
  read_fix_size, write_fix_size, to_left, to_int, answer_of, write_left,
}

-- What a loop answers: all that was asked for, or less and the number that stopped it.
abbrev pub Ended : ℕ → ℕ → Answer → Type 0
Ended asked done r = ((r ≡ full) × (done ≡ asked)) ⊎ ((c : ℕ) × (r ≡ stops c) × (done < asked))

-- What ReadFixSize and WriteFixSize return: the length for all that was asked for, and for less a
-- number that is not positive.
abbrev pub Returned : ℕ → ℕ → Option ℤ → Type 0
Returned asked done r =
    ((r ≡ some (pos asked)) × (done ≡ asked))
    ⊎ (((r ≡ some (pos 0)) ⊎ ((c : ℕ) × (r ≡ some (negsuc c)))) × (done < asked))

to_left-small : (n : ℕ) → n < 2 ^ 31 → to_left n ≡ n
unfolding to_left
to_left-small n l = ground arith

answer_of-Returned :
    (asked done : ℕ) (r : Answer)
    → asked < 2 ^ 31
    → Ended asked done r
    → Returned asked done (answer_of asked r)
unfolding answer_of to_int
answer_of-Returned asked done r l (inl (e, all)) = inl (rw e (ground arith), all)
answer_of-Returned asked done r l (inr (zero, e, less)) = inr (inl (rw e refl), less)
answer_of-Returned asked done r l (inr (suc c, e, less)) = inr (inr (c, rw e refl), less)

module _ {S : Type 0} (contents : S → List ℕ) (step : S → ℕ → ReadAnswer × S) where
  -- Read hands out what the stream holds, in order, and at most as much as it is asked for.
  abbrev pub Hands : S → ℕ → ReadAnswer × S → Type 0
  Hands s n (moves bs, t) = (contents s ≡ bs ++ contents t) × (length bs ≤ n)
  Hands s n (fails c, t) = contents t ≡ contents s

  abbrev pub IsReader : Type 0
  IsReader = (s : S) (n : ℕ) → Hands s n (step s n)

  -- The bytes that were read stood first in the stream, and there are as many as the answer says.
  record ReadLeft (s : S) (n : ℕ) (p : List ℕ × Answer × S) : Type 0 where
    pub front : contents s ≡ p.0 ++ contents p.2
    pub ended : Ended n (length p.0) p.1

  abbrev go_on : ℕ → ℕ → ReadAnswer × S → List ℕ × Answer × S
  go_on fuel left (fails c, t) = ([], stops c, t)
  go_on fuel left (moves [], t) = ([], stops 0, t)
  go_on fuel left (moves (b ∷ rest), t) =
      let (more, r, u) = read_left step fuel (left - length rest) t in (b ∷ rest ++ more, r, u)

  go_on_lem :
      (fuel left : ℕ) (p : ReadAnswer × S)
      → (elim p.0 [
        | fails c ↦ ([], stops c, p.1)
        | moves bs ↦ elim bs [
          | [] ↦ ([], stops 0, p.1)
          | b ∷ rest ↦
              let (more, r, u) = read_left step fuel (left - length rest) p.1 in
              (b ∷ rest ++ more, r, u)
        ]
      ])
        ≡ go_on fuel left p
  go_on_lem fuel left (fails c, t) = refl
  go_on_lem fuel left (moves [], t) = refl
  go_on_lem fuel left (moves (b ∷ rest), t) = refl

  read_step :
      (fuel left : ℕ) (s : S)
      → read_left step (suc fuel) (suc left) s ≡ go_on fuel left (step s (suc left))
  unfolding read_left
  read_step fuel left s = go_on_lem fuel left (step s (suc left))

  go_on-ReadLeft :
      (fuel left : ℕ) (s : S) (p : ReadAnswer × S)
      → Hands s (suc left) p
      → ((n : ℕ) (t : S) → n ≤ fuel → ReadLeft t n (read_left step fuel n t))
      → left ≤ fuel
      → ReadLeft s (suc left) (go_on fuel left p)
  go_on-ReadLeft fuel left s (fails c, t) h ih l = record {
    front = sym h;
    ended = inr (c, refl, omega arith);
  }
  go_on-ReadLeft fuel left s (moves [], t) h ih l = record {
    front = h.0;
    ended = inr (0, refl, omega arith);
  }
  go_on-ReadLeft fuel left s (moves (b ∷ rest), t) h ih l =
      let n = left - length rest in
      let more = (read_left step fuel n t).0 in
      let r = ih n t (omega arith) in
      let bound : suc (length rest) ≤ suc left = h.1 in
      let size = length-append rest more in
      record {
        front = h.0 ∙ ap (λ k. b ∷ rest ++ k) r.front ∙ sym (append_assoc (b ∷ rest) more _);
        ended = elim r.ended [
          | inl (e, all) ↦ inl (e, omega (arith, size, all))
          | inr (c, e, less) ↦ inr (c, e, omega (arith, size, less))
        ];
      }

  read_left-ReadLeft :
      IsReader → (fuel n : ℕ) (s : S) → n ≤ fuel → ReadLeft s n (read_left step fuel n s)
  read_left-ReadLeft reads fuel zero s l =
      unfold read_left in record { front = refl; ended = inl (refl, refl) }
  read_left-ReadLeft reads zero (suc n) s l = absurd (omega arith)
  read_left-ReadLeft reads (suc fuel) (suc n) s l = rw (read_step fuel n s) (
      go_on-ReadLeft fuel n s (step s (suc n)) (reads s (suc n))
        (λ k t m. read_left-ReadLeft reads fuel k t m) (omega arith))

  -- The bytes that were read stood first in the stream, and there are as many as is returned.
  pub record HasRead (s : S) (n : ℕ) (p : List ℕ × Option ℤ × S) : Type 0 where
    pub front : contents s ≡ p.0 ++ contents p.2
    pub ended : Returned n (length p.0) p.1

  -- Over a stream that hands out its bytes in order, ReadFixSize of less than 2^31 bytes ends
  -- within as many calls as bytes are asked for. It reads just the bytes that stood first; it
  -- returns the length asked for when it has read that many, and otherwise 0 or a negative number.
  pub read_fix_size-HasRead :
      IsReader
      → (fuel n : ℕ) (s : S) → n ≤ fuel
      → n < 2 ^ 31
      → HasRead s n (read_fix_size step fuel n s)
  unfolding read_fix_size
  read_fix_size-HasRead reads fuel n s l small =
      let h = read_left-ReadLeft reads fuel n s l in
      rw (read_fix_size, to_left-small n small)
        (record { front = h.front; ended = answer_of-Returned n _ _ small h.ended })

module _ {S : Type 0} (contents : S → List ℕ) (step : S → List ℕ → WriteAnswer × S) where
  -- Write appends the bytes that it takes, which are the first of those it is given.
  abbrev pub Takes : S → List ℕ → WriteAnswer × S → Type 0
  Takes s bs (takes n, t) = contents t ≡ contents s ++ take n bs
  Takes s bs (refuses c, t) = contents t ≡ contents s

  abbrev pub IsWriter : Type 0
  IsWriter = (s : S) (bs : List ℕ) → Takes s bs (step s bs)

  -- The bytes that were taken are the first of the buffer, and stand last in the stream.
  record WrittenLeft (s : S) (bs : List ℕ) (p : List ℕ × Answer × S) : Type 0 where
    pub written : contents p.2 ≡ contents s ++ p.0
    pub split : (rest : List ℕ) × (bs ≡ p.0 ++ rest)
    pub ended : Ended (length bs) (length p.0) p.1

  abbrev write_on : ℕ → ℕ → List ℕ → WriteAnswer × S → List ℕ × Answer × S
  write_on fuel b bs (refuses c, t) = ([], stops c, t)
  write_on fuel b bs (takes zero, t) = ([], stops 0, t)
  write_on fuel b bs (takes (suc m), t) =
      let (more, r, u) = write_left step fuel (drop m bs) t in (b ∷ take m bs ++ more, r, u)

  write_on_lem :
      (fuel b : ℕ) (bs : List ℕ) (p : WriteAnswer × S)
      → (elim p.0 [
        | refuses c ↦ ([], stops c, p.1)
        | takes n ↦ elim n [
          | zero ↦ ([], stops 0, p.1)
          | suc m ↦
              let (more, r, u) = write_left step fuel (drop m bs) p.1 in
              (b ∷ take m bs ++ more, r, u)
        ]
      ])
        ≡ write_on fuel b bs p
  write_on_lem fuel b bs (refuses c, t) = refl
  write_on_lem fuel b bs (takes zero, t) = refl
  write_on_lem fuel b bs (takes (suc m), t) = refl

  write_step :
      (fuel b : ℕ) (bs : List ℕ) (s : S)
      → write_left step (suc fuel) (b ∷ bs) s ≡ write_on fuel b bs (step s (b ∷ bs))
  unfolding write_left
  write_step fuel b bs s = write_on_lem fuel b bs (step s (b ∷ bs))

  write_on-WrittenLeft :
      (fuel b : ℕ) (bs : List ℕ) (s : S) (p : WriteAnswer × S)
      → Takes s (b ∷ bs) p
      → ((ds : List ℕ) (t : S) → length ds ≤ fuel → WrittenLeft t ds (write_left step fuel ds t))
      → length bs ≤ fuel
      → WrittenLeft s (b ∷ bs) (write_on fuel b bs p)
  write_on-WrittenLeft fuel b bs s (refuses c, t) h ih l = record {
    written = h ∙ sym (append-nil (contents s));
    split = (b ∷ bs, refl);
    ended = inr (c, refl, omega arith);
  }
  write_on-WrittenLeft fuel b bs s (takes zero, t) h ih l = record {
    written = h;
    split = (b ∷ bs, refl);
    ended = inr (0, refl, omega arith);
  }
  write_on-WrittenLeft fuel b bs s (takes (suc m), t) h ih l =
      let ds = drop m bs in
      let short = length-drop m bs in
      let front = length-take m bs in
      let more = (write_left step fuel ds t).0 in
      let r = ih ds t (omega (arith, short)) in
      let (rest, split) = r.split in
      let size = length-append (take m bs) more in
      record {
        written =
            r.written ∙ ap (λ k. k ++ more) h ∙ append_assoc (contents s) (b ∷ take m bs) more;
        split = (
          rest,
          ap (λ k. b ∷ k)
              (sym (take-append-drop m bs)
                ∙ ap (λ k. take m bs ++ k) split
                ∙ sym (append_assoc (take m bs) more rest)),
        );
        ended = elim r.ended [
          | inl (e, all) ↦ inl (e, omega (arith, size, all, short, front))
          | inr (c, e, less) ↦ inr (c, e, omega (arith, size, less, short, front))
        ];
      }

  write_left-WrittenLeft :
      IsWriter
      → (fuel : ℕ) (bs : List ℕ) (s : S) → length bs ≤ fuel
      → WrittenLeft s bs (write_left step fuel bs s)
  write_left-WrittenLeft writes fuel [] s l =
      unfold write_left in
      record {
        written = sym (append-nil (contents s));
        split = ([], refl);
        ended = inl (refl, refl);
      }
  write_left-WrittenLeft writes zero (b ∷ bs) s l = absurd (omega arith)
  write_left-WrittenLeft writes (suc fuel) (b ∷ bs) s l = rw (write_step fuel b bs s) (
      write_on-WrittenLeft fuel b bs s (step s (b ∷ bs)) (writes s (b ∷ bs))
        (λ ds t m. write_left-WrittenLeft writes fuel ds t m) (omega arith))

  -- The bytes that were taken are the first of the buffer, and stand last in the stream.
  pub record HasWritten (s : S) (bs : List ℕ) (p : List ℕ × Option ℤ × S) : Type 0 where
    pub written : contents p.2 ≡ contents s ++ p.0
    pub split : (rest : List ℕ) × (bs ≡ p.0 ++ rest)
    pub ended : Returned (length bs) (length p.0) p.1

  take_all : (bs : List ℕ) → length bs < 2 ^ 31 → take (to_left (length bs)) bs ≡ bs
  take_all bs small = rw (to_left-small (length bs) small) (whole bs)
    where
      whole : (xs : List ℕ) → take (length xs) xs ≡ xs
      whole [] = refl
      whole (x ∷ xs) = ap (◌∷◌ x) (whole xs)

  -- Over a stream that appends what it takes, WriteFixSize of less than 2^31 bytes ends within as
  -- many calls as bytes are given. What it writes is a first part of the buffer, each byte once and
  -- in order; it returns the length when that is the whole buffer, and otherwise 0 or a negative
  -- number.
  pub write_fix_size-HasWritten :
      IsWriter
      → (fuel : ℕ) (bs : List ℕ) (s : S) → length bs ≤ fuel
      → length bs < 2 ^ 31
      → HasWritten s bs (write_fix_size step fuel bs s)
  unfolding write_fix_size
  write_fix_size-HasWritten writes fuel bs s l small =
      let h = write_left-WrittenLeft writes fuel bs s l in
      rw (write_fix_size, take_all bs small)
        (record {
          written = h.written;
          split = h.split;
          ended = answer_of-Returned (length bs) _ _ small h.ended;
        })
