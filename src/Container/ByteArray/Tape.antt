-- ===== src/Container/ByteArray/Tape.antt =====
-- What a ByteArray promises: a tape, cut at the position into the bytes behind and ahead.
use server_frame.Prelude.{
  ℕ, ◌+◌, ◌≤◌, ◌≡◌, sym, ap, ◌∙◌, List, ◌++◌, take, drop, length, ltb, if◌then◌else◌, overwrite,
  arith, Bool-cases, inl, inr, ltb→lt, length-take, take-take, take-append_left, drop-drop,
  drop_all, take-overwrite_end, drop-take-overwrite,
}
use server_frame.Container.ByteArray.Chain.{contents}
use server_frame.Container.ByteArray.{ByteArray}

-- The bytes [0, size_) of the chain.
abbrev pub bytes : ByteArray → List ℕ
bytes b = take b.size (contents b.nodes)

abbrev pub behind : ByteArray → List ℕ
behind b = take b.position (bytes b)

abbrev pub ahead : ByteArray → List ℕ
ahead b = drop b.position (bytes b)

-- A write of `bs` at `p` into the memory `old`, enlarged by `fresh`, as its ends see it.
module _ (p s : ℕ) (bs old fresh : List ℕ) (at : p ≤ s) (end : s ≤ length old) where
  pub take-written :
      (s' : ℕ)
      → p + length bs ≤ s'
      → p + length bs ≤ length (old ++ fresh)
      → take (p + length bs) (take s' (overwrite p bs (old ++ fresh))) ≡ take p (take s old) ++ bs
  take-written s' h k =
      take-take (p + length bs) s' _ h
      ∙ take-overwrite_end p bs (old ++ fresh) k
      ∙ ap (λ (xs : List ℕ). xs ++ bs)
          (take-append_left p old fresh (omega arith) ∙ sym (take-take p s old at))

  pub drop-written :
      drop
        (p + length bs)
        (take (if ltb s (p + length bs) then p + length bs else s) (overwrite p bs (old ++ fresh)))
      ≡ drop (length bs) (drop p (take s old))
  drop-written = elim (Bool-cases (ltb s (p + length bs))) [
    | inl longer ↦ rw longer (
        drop_all (p + length bs) _
          (omega (arith, length-take (p + length bs) (overwrite p bs (old ++ fresh))))
        ∙ sym (
            drop-drop (length bs) p (take s old)
            ∙ drop_all (p + length bs) (take s old)
                (omega (arith, length-take s old, ltb→lt s (p + length bs) longer))))
    | inr within ↦ rw within (
        drop-take-overwrite s p bs (old ++ fresh)
        ∙ ap (drop (p + length bs)) (take-append_left s old fresh end)
        ∙ sym (drop-drop (length bs) p (take s old)))
  ]
