-- ===== src/Prelude/Memory.antt =====
-- A stretch of memory as a list: `slice` is what memcpy reads, `overwrite` what it writes.
use Prim.Native.Nat.{ℕ, zero, suc, ◌+◌, ◌≤◌}
use mathlib.Core.Path.{◌≡◌, refl, ap, ◌∙◌}
use mathlib.Core.List.{List, [], ◌∷◌, ◌++◌}
use native.Mathlib.Omega.{arith}
use server_frame.Prelude.Lists.{length, take, drop, length-take, length-drop, take-append-drop}

module _ {ℓ} {A : Type ℓ} where
  abbrev pub slice : ℕ → ℕ → List A → List A
  slice p n xs = take n (drop p xs)

  -- Entries that would lie behind the end are dropped.
  unfoldable pub overwrite : ℕ → List A → List A → List A
  overwrite p bs [] = []
  overwrite (suc p) bs (x ∷ xs) = x ∷ overwrite p bs xs
  overwrite zero [] (x ∷ xs) = x ∷ xs
  overwrite zero (b ∷ bs) (x ∷ xs) = b ∷ overwrite zero bs xs

  pub length-overwrite : (p : ℕ) (bs xs : List A) → length (overwrite p bs xs) ≡ length xs
  unfolding overwrite
  length-overwrite p bs [] = refl
  length-overwrite (suc p) bs (x ∷ xs) = ap suc (length-overwrite p bs xs)
  length-overwrite zero [] (x ∷ xs) = refl
  length-overwrite zero (b ∷ bs) (x ∷ xs) = ap suc (length-overwrite zero bs xs)

  pub overwrite-nil : (p : ℕ) (xs : List A) → overwrite p [] xs ≡ xs
  unfolding overwrite
  overwrite-nil p [] = refl
  overwrite-nil (suc p) (x ∷ xs) = ap (◌∷◌ x) (overwrite-nil p xs)
  overwrite-nil zero (x ∷ xs) = refl

  pub slice-overwrite :
      (p : ℕ) (bs xs : List A)
      → p + length bs ≤ length xs
      → slice p (length bs) (overwrite p bs xs) ≡ bs
  unfolding overwrite
  slice-overwrite zero [] [] h = refl
  slice-overwrite zero [] (x ∷ xs) h = refl
  slice-overwrite zero (b ∷ bs) [] h = absurd (omega arith)
  slice-overwrite zero (b ∷ bs) (x ∷ xs) h = ap (◌∷◌ b) (slice-overwrite zero bs xs (omega arith))
  slice-overwrite (suc p) bs [] h = absurd (omega arith)
  slice-overwrite (suc p) bs (x ∷ xs) h = slice-overwrite p bs xs (omega arith)

  -- What lies in front of the bytes written is kept.
  pub take-overwrite : (n p : ℕ) (bs xs : List A) → n ≤ p → take n (overwrite p bs xs) ≡ take n xs
  unfolding overwrite
  take-overwrite zero p bs xs h = refl
  take-overwrite (suc n) p bs [] h = refl
  take-overwrite (suc n) zero bs (x ∷ xs) h = absurd (omega arith)
  take-overwrite (suc n) (suc p) bs (x ∷ xs) h = ap (◌∷◌ x) (take-overwrite n p bs xs (omega arith))

  -- What lies behind them is kept too.
  pub drop-overwrite :
      (n p : ℕ) (bs xs : List A) → p + length bs ≤ n → drop n (overwrite p bs xs) ≡ drop n xs
  unfolding overwrite
  drop-overwrite n p bs [] h = refl
  drop-overwrite zero zero [] (x ∷ xs) h = refl
  drop-overwrite (suc n) zero [] (x ∷ xs) h = refl
  drop-overwrite zero zero (b ∷ bs) (x ∷ xs) h = absurd (omega arith)
  drop-overwrite (suc n) zero (b ∷ bs) (x ∷ xs) h = drop-overwrite n zero bs xs (omega arith)
  drop-overwrite zero (suc p) bs (x ∷ xs) h = absurd (omega arith)
  drop-overwrite (suc n) (suc p) bs (x ∷ xs) h = drop-overwrite n p bs xs (omega arith)

  -- Two writes side by side are one.
  pub overwrite-append :
      (p : ℕ) (cs bs xs : List A)
      → overwrite (p + length cs) bs (overwrite p cs xs) ≡ overwrite p (cs ++ bs) xs
  unfolding overwrite
  overwrite-append p cs bs [] = refl
  overwrite-append zero [] bs (x ∷ xs) = refl
  overwrite-append zero (c ∷ cs) bs (x ∷ xs) =
      let e : 0 + suc (length cs) ≡ suc (0 + length cs) = omega arith in
      rw e (ap (◌∷◌ c) (overwrite-append zero cs bs xs))
  overwrite-append (suc p) cs bs (x ∷ xs) =
      let e : suc p + length cs ≡ suc (p + length cs) = omega arith in
      rw e (ap (◌∷◌ x) (overwrite-append p cs bs xs))

  overwrite-append_at :
      (p n : ℕ) (cs bs xs : List A)
      → length cs ≡ n
      → overwrite (p + n) bs (overwrite p cs xs) ≡ overwrite p (cs ++ bs) xs
  overwrite-append_at p n cs bs xs e = rw (← e) (overwrite-append p cs bs xs)

  -- A write may be cut in two anywhere.
  pub overwrite-split :
      (p n : ℕ) (bs xs : List A)
      → n ≤ length bs
      → overwrite (p + n) (drop n bs) (overwrite p (take n bs) xs) ≡ overwrite p bs xs
  overwrite-split p n bs xs h =
      overwrite-append_at p n (take n bs) (drop n bs) xs (omega (arith, length-take n bs))
      ∙ ap (λ (ys : List A). overwrite p ys xs) (take-append-drop n bs)

  pub overwrite-append_left :
      (p : ℕ) (bs xs ys : List A)
      → p + length bs ≤ length xs
      → overwrite p bs (xs ++ ys) ≡ overwrite p bs xs ++ ys
  unfolding overwrite
  overwrite-append_left zero [] [] ys h = overwrite-nil zero ys
  overwrite-append_left zero (b ∷ bs) [] ys h = absurd (omega arith)
  overwrite-append_left (suc p) bs [] ys h = absurd (omega arith)
  overwrite-append_left zero [] (x ∷ xs) ys h = refl
  overwrite-append_left zero (b ∷ bs) (x ∷ xs) ys h =
      ap (◌∷◌ b) (overwrite-append_left zero bs xs ys (omega arith))
  overwrite-append_left (suc p) bs (x ∷ xs) ys h =
      ap (◌∷◌ x) (overwrite-append_left p bs xs ys (omega arith))

  pub overwrite-append_right :
      (xs : List A) (p : ℕ) (bs ys : List A)
      → overwrite (length xs + p) bs (xs ++ ys) ≡ xs ++ overwrite p bs ys
  unfolding overwrite
  overwrite-append_right [] p bs ys = let e : 0 + p ≡ p = omega arith in rw e
  overwrite-append_right (x ∷ xs) p bs ys =
      let e : suc (length xs) + p ≡ suc (length xs + p) = omega arith in
      rw e (ap (◌∷◌ x) (overwrite-append_right xs p bs ys))

  pub slice-append_left :
      (p n : ℕ) (xs ys : List A) → p + n ≤ length xs → slice p n (xs ++ ys) ≡ slice p n xs
  slice-append_left zero zero xs ys h = refl
  slice-append_left zero (suc n) [] ys h = absurd (omega arith)
  slice-append_left zero (suc n) (x ∷ xs) ys h =
      ap (◌∷◌ x) (slice-append_left zero n xs ys (omega arith))
  slice-append_left (suc p) n [] ys h = absurd (omega arith)
  slice-append_left (suc p) n (x ∷ xs) ys h = slice-append_left p n xs ys (omega arith)

  pub slice-append_right :
      (xs : List A) (p n : ℕ) (ys : List A) → slice (length xs + p) n (xs ++ ys) ≡ slice p n ys
  slice-append_right [] p n ys = let e : 0 + p ≡ p = omega arith in rw e
  slice-append_right (x ∷ xs) p n ys =
      let e : suc (length xs) + p ≡ suc (length xs + p) = omega arith in
      rw e (slice-append_right xs p n ys)

  -- Two reads side by side are one.
  pub slice-add :
      (p m n : ℕ) (xs : List A)
      → p + (m + n) ≤ length xs
      → slice p (m + n) xs ≡ slice p m xs ++ slice (p + m) n xs
  slice-add zero zero n xs h = let e : 0 + n ≡ n = omega arith in rw e
  slice-add zero (suc m) n [] h = absurd (omega arith)
  slice-add zero (suc m) n (x ∷ xs) h =
      let e : suc m + n ≡ suc (m + n) = omega arith in
      let e' : 0 + suc m ≡ suc (0 + m) = omega arith in
      rw (e, e') (ap (◌∷◌ x) (slice-add zero m n xs (omega arith)))
  slice-add (suc p) m n [] h = absurd (omega arith)
  slice-add (suc p) m n (x ∷ xs) h =
      let e : suc p + m ≡ suc (p + m) = omega arith in rw e (slice-add p m n xs (omega arith))

  pub length-slice : (p n : ℕ) (xs : List A) → p + n ≤ length xs → length (slice p n xs) ≡ n
  length-slice p n xs h = omega (arith, length-take n (drop p xs), length-drop p xs)
