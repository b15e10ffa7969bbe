-- ===== src/Prelude/Family.antt =====
-- Families over the natural numbers: one value replaced, and sums over the first `n`.
use Prim.Native.Nat.{ℕ, zero, suc, ◌+◌, ◌≤◌, ◌<◌}
use mathlib.Core.Path.{◌≡◌, refl, sym}
use mathlib.Core.Logic.{◌≢◌, inl, inr}
use native.Mathlib.Omega.{arith}
use server_frame.Prelude.Tests.{◌==◌, if◌then◌else◌, ==_iff, ==-false, ℕ-cases}

module _ {ℓ} {A : Type ℓ} where
  abbrev pub put : (ℕ → A) → ℕ → A → ℕ → A
  put f i a j = if j == i then a else f j

  pub put_self : (f : ℕ → A) (i : ℕ) (a : A) → put f i a i ≡ a
  put_self f i a = rw ((==_iff i i).1 refl)

  pub put_ne : (f : ℕ → A) (i : ℕ) (a : A) (j : ℕ) → j ≢ i → put f i a j ≡ f j
  put_ne f i a j n = rw (==-false j i n)

  -- The sum of `g` over the members below `n`.
  abbrev pub total : (A → ℕ) → ℕ → (ℕ → A) → ℕ
  total g zero f = 0
  total g (suc n) f = g (f n) + total g n f

  total-put_beyond :
      (g : A → ℕ) (n : ℕ) (f : ℕ → A) (i : ℕ) (a : A) → n ≤ i → total g n (put f i a) ≡ total g n f
  total-put_beyond g zero f i a l = refl
  total-put_beyond g (suc n) f i a l =
      let e : g (put f i a n) ≡ g (f n) = rw (put_ne f i a n (λ k. omega arith)) in
      omega (arith, e, total-put_beyond g n f i a (omega arith))

  pub total-put :
      (g : A → ℕ) (n : ℕ) (f : ℕ → A) (i : ℕ) (a : A)
      → i < n
      → total g n (put f i a) + g (f i) ≡ total g n f + g a
  total-put g zero f i a l = absurd (omega arith)
  total-put g (suc n) f i a l = elim (ℕ-cases i n) [
    | inl e ↦
        let same : g (put f i a n) ≡ g a = rw (← e, put_self f i a) in
        let old : g (f i) ≡ g (f n) = rw e in
        omega (arith, same, old, total-put_beyond g n f i a (omega arith))
    | inr d ↦
        let e : g (put f i a n) ≡ g (f n) = rw (put_ne f i a n (λ k. d (sym k))) in
        omega (arith, e, total-put g n f i a (omega arith))
  ]

  pub total_member : (g : A → ℕ) (n : ℕ) (f : ℕ → A) (i : ℕ) → i < n → g (f i) ≤ total g n f
  total_member g zero f i l = absurd (omega arith)
  total_member g (suc n) f i l = elim (ℕ-cases i n) [
    | inl e ↦ let old : g (f i) ≡ g (f n) = rw e in omega arith
    | inr d ↦ omega (arith, total_member g n f i (omega arith))
  ]

  pub total_bound : (g : A → ℕ) (n : ℕ) (f : ℕ → A) → ((a : A) → g a ≤ 1) → total g n f ≤ n
  total_bound g zero f h = omega arith
  total_bound g (suc n) f h = omega (arith, h (f n), total_bound g n f h)
