-- ===== src/Log/Directives.antt =====
-- The loop of LogFormatter::Init over a text, and over one directive.
use server_frame.Prelude.{
  ℕ, ◌+◌, ◌≡◌, ◌≢◌, refl, sym, ap, ◌∙◌, List, [], ◌∷◌, ◌++◌, append-nil, append_assoc, Option, none,
  some, true, false, ◌==◌, length, length-append, All, ==-false, arith,
}
use server_frame.Prelude.Splits.{cut_found}
use server_frame.Log.{
  directive, State, is_name, scan_name, scan_directive, end_name, flush, turn, loop, is_key,
}

abbrev pub format_text : Option (List ℕ) → List ℕ
format_text none = []
format_text (some fmt) = 123 ∷ (fmt ++ (125 ∷ []))

abbrev pub format_of : Option (List ℕ) → List ℕ
format_of none = []
format_of (some fmt) = fmt

-- The name of a directive ends before such a text.
abbrev pub Ends : List ℕ → Type 0
Ends [] = Unit {0}
Ends (d ∷ ds) = (is_name d ≡ false) × (d ≢ 123)

abbrev pub IsFormat : Option (List ℕ) → List ℕ → Type 0
IsFormat none behind = Ends behind
IsFormat (some fmt) behind = All (λ c. c ≢ 125) fmt

loop_pass : (xs rest : List ℕ) (s : State) → loop (length xs) s (xs ++ rest) ≡ loop 0 s rest
unfolding loop
loop_pass [] rest s = refl
loop_pass (x ∷ xs) rest s = loop_pass xs rest s

loop-turn :
    (c : ℕ) (cs : List ℕ) (s s' : State) (k : ℕ)
    → turn s c cs ≡ (k, s')
    → loop 0 s (c ∷ cs) ≡ loop k s' cs
unfolding loop
loop-turn c cs s s' k e = rw e

pub loop_text :
    (t rest : List ℕ) (s : State)
    → All (λ c. c ≢ 37) t
    → loop 0 s (t ++ rest) ≡ loop 0 (record s { nstr = s.nstr ++ t }) rest
loop_text [] rest s h = ap (λ n. loop 0 (record s { nstr = n }) rest) (sym (append-nil s.nstr))
loop_text (c ∷ t) rest s (n, h) =
    let e : turn s c (t ++ rest) ≡ (0, record s { nstr = s.nstr ++ (c ∷ []) }) =
      unfold turn in rw (==-false c 37 n) in
    loop-turn c (t ++ rest) s (record s { nstr = s.nstr ++ (c ∷ []) }) 0 e
    ∙ loop_text t rest (record s { nstr = s.nstr ++ (c ∷ []) }) h
    ∙ ap (λ n. loop 0 (record s { nstr = n }) rest) (append_assoc s.nstr (c ∷ []) t)

key_name : (c : ℕ) → is_key c ≡ true → (is_name c ≡ true) × (c ≢ 37)
key_name c h = (ground arith, ground arith)

scan_name_end : (t : List ℕ) → Ends t → scan_name t ≡ ([], t)
unfolding scan_name
scan_name_end [] h = refl
scan_name_end (d ∷ t) (h, k) = rw h

scan_name_next :
    (c : ℕ) (cs name rest : List ℕ)
    → is_name c ≡ true
    → scan_name cs ≡ (name, rest)
    → scan_name (c ∷ cs) ≡ (c ∷ name, rest)
unfolding scan_name
scan_name_next c cs name rest h e = rw (h, e)

end_name_plain : (name t : List ℕ) → Ends t → end_name name t ≡ some (name, [], length name)
unfolding end_name
end_name_plain name [] h = refl
end_name_plain name (d ∷ t) (h, k) = rw (==-false d 123 k)

end_name_format :
    (name fmt t : List ℕ)
    → All (λ d. d ≢ 125) fmt
    → end_name name (123 ∷ (fmt ++ (125 ∷ t))) ≡ some (name, fmt, length name + (length fmt + 2))
unfolding end_name
end_name_format name fmt t h = rw (cut_found 125 fmt t h)

scan_directive_plain :
    (c : ℕ) (t : List ℕ) → is_name c ≡ true → Ends t → scan_directive (c ∷ t) ≡ some (c ∷ [], [], 1)
unfolding scan_directive
scan_directive_plain c t h k =
    ap (λ (p : List ℕ × List ℕ). end_name p.0 p.1) (scan_name_next c t [] t h (scan_name_end t k))
    ∙ end_name_plain (c ∷ []) t k

scan_directive_format :
    (c : ℕ) (fmt t : List ℕ)
    → is_name c ≡ true
    → All (λ d. d ≢ 125) fmt
    → scan_directive (c ∷ 123 ∷ (fmt ++ (125 ∷ t))) ≡ some (c ∷ [], fmt, 1 + (length fmt + 2))
unfolding scan_directive
scan_directive_format c fmt t h k =
    ap (λ (p : List ℕ × List ℕ). end_name p.0 p.1)
      (scan_name_next c (123 ∷ (fmt ++ (125 ∷ t))) [] (123 ∷ (fmt ++ (125 ∷ t))) h
        (unfold scan_name in refl))
    ∙ end_name_format (c ∷ []) fmt t k

-- Behind a directive the loop goes on with the text that follows.
behind_directive :
    (c : ℕ) (cs name fmt passed rest : List ℕ) (s : State)
    → (c == 37) ≡ false
    → scan_directive (c ∷ cs) ≡ some (name, fmt, length passed)
    → c ∷ cs ≡ passed ++ rest
    → loop 0 s (37 ∷ c ∷ cs)
      ≡ loop 0 (record s { vec = flush s ++ (directive name fmt ∷ []); nstr = [] }) rest
behind_directive c cs name fmt passed rest s n e f =
    let t : State = record s { vec = flush s ++ (directive name fmt ∷ []); nstr = [] } in
    let step : turn s 37 (c ∷ cs) ≡ (length passed, t) = unfold turn in rw (n, e) in
    loop-turn 37 (c ∷ cs) s t (length passed) step
    ∙ ap (loop (length passed) t) f
    ∙ loop_pass passed rest t

append-Ends : (t rest : List ℕ) → Ends t → Ends rest → Ends (t ++ rest)
append-Ends [] rest h k = k
append-Ends (d ∷ t) rest h k = h

pub loop_directive :
    (c : ℕ) (f : Option (List ℕ)) (t rest : List ℕ) (s : State)
    → is_key c ≡ true
    → IsFormat f t
    → Ends rest
    → loop 0 s (37 ∷ c ∷ (format_text f ++ (t ++ rest)))
      ≡ loop 0
          (record s { vec = flush s ++ (directive (c ∷ []) (format_of f) ∷ []); nstr = [] })
          (t ++ rest)
loop_directive c none t rest s key h ends =
    let (name, n) = key_name c key in
    behind_directive c (t ++ rest) (c ∷ []) [] (c ∷ []) (t ++ rest) s (==-false c 37 n)
      (scan_directive_plain c (t ++ rest) name (append-Ends t rest h ends)) refl
loop_directive c (some fmt) t rest s key h ends =
    let (name, n) = key_name c key in
    let whole = format_text (some fmt) ++ (t ++ rest) in
    let same : c ∷ whole ≡ c ∷ 123 ∷ (fmt ++ (125 ∷ (t ++ rest))) =
      ap (λ x. c ∷ 123 ∷ x) (append_assoc fmt (125 ∷ []) (t ++ rest)) in
    let size : 1 + (length fmt + 2) ≡ length (c ∷ format_text (some fmt)) =
      omega (arith, length-append {0} fmt (125 ∷ [])) in
    behind_directive c whole (c ∷ []) fmt (c ∷ format_text (some fmt)) (t ++ rest) s
      (==-false c 37 n)
      (ap scan_directive same
        ∙ scan_directive_format c fmt (t ++ rest) name h
        ∙ ap (λ k. some (c ∷ [], fmt, k)) size)
      refl
