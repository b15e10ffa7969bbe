-- ===== src/Prelude/Cuts.antt =====
-- Laws of `take` and `drop`, alone and with `overwrite`.
use Prim.Native.Nat.{ℕ, zero, suc, ◌+◌, ◌-◌, ◌≤◌}
use mathlib.Core.Path.{◌≡◌, refl, sym, ap, ◌∙◌}
use mathlib.Core.List.{List, [], ◌∷◌, ◌++◌}
use native.Mathlib.Omega.{arith}
use server_frame.Prelude.Lists.{length, take, drop}
use server_frame.Prelude.Memory.{overwrite, drop-overwrite}

module _ {ℓ} {A : Type ℓ} where
  pub take-nil : (n : ℕ) → take {A = A} n [] ≡ []
  take-nil zero = refl
  take-nil (suc n) = refl

  pub drop-nil : (n : ℕ) → drop {A = A} n [] ≡ []
  drop-nil zero = refl
  drop-nil (suc n) = refl

  pub take-take : (m n : ℕ) (xs : List A) → m ≤ n → take m (take n xs) ≡ take m xs
  take-take zero n xs h = refl
  take-take (suc m) zero xs h = absurd (omega arith)
  take-take (suc m) (suc n) [] h = refl
  take-take (suc m) (suc n) (x ∷ xs) h = ap (◌∷◌ x) (take-take m n xs (omega arith))

  pub take-append_left : (n : ℕ) (xs ys : List A) → n ≤ length xs → take n (xs ++ ys) ≡ take n xs
  take-append_left zero xs ys h = refl
  take-append_left (suc n) [] ys h = absurd (omega arith)
  take-append_left (suc n) (x ∷ xs) ys h = ap (◌∷◌ x) (take-append_left n xs ys (omega arith))

  pub take_all : (n : ℕ) (xs : List A) → length xs ≤ n → take n xs ≡ xs
  take_all zero [] h = refl
  take_all zero (x ∷ xs) h = absurd (omega arith)
  take_all (suc n) [] h = refl
  take_all (suc n) (x ∷ xs) h = ap (◌∷◌ x) (take_all n xs (omega arith))

  pub drop_all : (n : ℕ) (xs : List A) → length xs ≤ n → drop n xs ≡ []
  drop_all zero [] h = refl
  drop_all zero (x ∷ xs) h = absurd (omega arith)
  drop_all (suc n) [] h = refl
  drop_all (suc n) (x ∷ xs) h = drop_all n xs (omega arith)

  pub take-append_self : (xs ys : List A) → take (length xs) (xs ++ ys) ≡ xs
  take-append_self [] ys = refl
  take-append_self (x ∷ xs) ys = ap (◌∷◌ x) (take-append_self xs ys)

  pub drop-append_self : (xs ys : List A) → drop (length xs) (xs ++ ys) ≡ ys
  drop-append_self [] ys = refl
  drop-append_self (x ∷ xs) ys = drop-append_self xs ys

  pub drop-drop : (m n : ℕ) (xs : List A) → drop m (drop n xs) ≡ drop (n + m) xs
  drop-drop m zero xs = let e : 0 + m ≡ m = omega arith in rw e
  drop-drop m (suc n) [] = let e : suc n + m ≡ suc (n + m) = omega arith in rw e (drop-nil m)
  drop-drop m (suc n) (x ∷ xs) =
      let e : suc n + m ≡ suc (n + m) = omega arith in rw e (drop-drop m n xs)

  pub drop-take : (m n : ℕ) (xs : List A) → drop m (take n xs) ≡ take (n - m) (drop m xs)
  drop-take zero n xs = let e : n - 0 ≡ n = omega arith in rw e
  drop-take (suc m) zero xs = let e : 0 - suc m ≡ 0 = omega arith in rw e
  drop-take (suc m) (suc n) [] = sym (take-nil (suc n - suc m))
  drop-take (suc m) (suc n) (x ∷ xs) =
      let e : suc n - suc m ≡ n - m = omega arith in rw e (drop-take m n xs)

  -- The bytes up to the end of a write, and those behind it.
  pub take-overwrite_end :
      (p : ℕ) (bs xs : List A)
      → p + length bs ≤ length xs
      → take (p + length bs) (overwrite p bs xs) ≡ take p xs ++ bs
  unfolding overwrite
  take-overwrite_end zero [] xs h = refl
  take-overwrite_end zero (b ∷ bs) [] h = absurd (omega arith)
  take-overwrite_end zero (b ∷ bs) (x ∷ xs) h =
      let e : 0 + suc (length bs) ≡ suc (0 + length bs) = omega arith in
      rw e (ap (◌∷◌ b) (take-overwrite_end zero bs xs (omega arith)))
  take-overwrite_end (suc p) bs [] h = absurd (omega arith)
  take-overwrite_end (suc p) bs (x ∷ xs) h =
      let e : suc p + length bs ≡ suc (p + length bs) = omega arith in
      rw e (ap (◌∷◌ x) (take-overwrite_end p bs xs (omega arith)))

  pub drop-take-overwrite :
      (n p : ℕ) (bs xs : List A)
      → drop (p + length bs) (take n (overwrite p bs xs)) ≡ drop (p + length bs) (take n xs)
  drop-take-overwrite n p bs xs =
      drop-take (p + length bs) n (overwrite p bs xs)
      ∙ ap (take (n - (p + length bs))) (drop-overwrite (p + length bs) p bs xs (omega arith))
      ∙ sym (drop-take (p + length bs) n xs)
