-- ===== src/Wire/Name/Encode/Inverse.antt =====
-- The other direction: what `encode_domain_name` accepts has the form of a name.
use dnsdata_js.Base.{
  ℕ, zero, suc, ◌%◌, ◌≤◌, ◌≡◌, refl, sym, ap, ◌∙◌, arith, Bool, true, false, ◌⊎◌, inl, inr, List,
  [], ◌∷◌, ◌++◌, map, append-nil, length, length-map, All, is_empty, if◌then◌else◌,
}
use mathlib.Core.Path.{subst}
use dnsdata_js.Base.Slices.{Bytes}
use dnsdata_js.Base.Result.{ok, ◌>>=◌, >>=-eq-ok}
use dnsdata_js.Base.Text.{Text, dot, ends_with_dot}
use dnsdata_js.Wire.Name.{
  label_from, from_dot, push_label, encode_loop, finish_name, encode_domain_name,
}
use dnsdata_js.Wire.Name.Labels.{NoDot, wire_of, dotted}
use dnsdata_js.Wire.Name.Encode.{
  label_from-append-from_dot, label_from-NoDot, from_dot_cases, IsPlain, folded, wire_split,
  encode_loop-nil,
}

NoDot-ends : (d : Text) → NoDot d → ends_with_dot d ≡ false
unfolding ends_with_dot
NoDot-ends [] h = refl
NoDot-ends (c ∷ []) h = ground (arith, h.0)
NoDot-ends (c ∷ e ∷ d) h = NoDot-ends (e ∷ d) h.1

ends_with_dot-append :
    (l : Text) (c : ℕ) (r : Text) → ends_with_dot (l ++ dot ∷ c ∷ r) ≡ ends_with_dot (c ∷ r)
unfolding ends_with_dot
ends_with_dot-append [] c r = refl
ends_with_dot-append (a ∷ []) c r = refl
ends_with_dot-append (a ∷ b ∷ l) c r = ends_with_dot-append (b ∷ l) c r

-- A name with a final dot has a dot left behind its first label.
ends_with_dot-from_dot :
    (d : Text)
    → ends_with_dot d ≡ true
    → (r : Text) × (d ≡ label_from d ++ dot ∷ r) × (from_dot d ≡ dot ∷ r)
ends_with_dot-from_dot d e = elim (from_dot_cases d) [
  | inl none_left ↦
      let whole : label_from d ≡ d =
        sym (append-nil (label_from d))
        ∙ ap (◌++◌ (label_from d)) (sym none_left)
        ∙ label_from-append-from_dot d in
      let no_end : ends_with_dot (label_from d) ≡ false =
        NoDot-ends (label_from d) (label_from-NoDot d) in
      cc (whole, no_end, e)
  | inr (r, left) ↦ (r, sym (label_from-append-from_dot d) ∙ ap (◌++◌ (label_from d)) left, left)
]

-- What a round that has a dot behind the label takes.
push_label-eq-ok :
    (fold : ℕ → ℕ) (first : Bool) (l : Text) (bytes out : Bytes)
    → push_label fold first true l bytes ≡ ok out
    → ((first ≡ true) × (l ≡ []) × (out ≡ bytes))
      ⊎ ((1 ≤ length l) × (length l ≤ 63) × (out ≡ bytes ++ length l ∷ map fold l))
unfolding push_label
push_label-eq-ok fold true [] bytes out e = inl (refl, refl, ground (arith))
push_label-eq-ok fold false [] bytes out e = cc
push_label-eq-ok fold first (c ∷ l) bytes out e = inr (omega arith, ground (arith), ground (arith))

-- What the loop does on a name whose first label has a dot behind it.
encode_loop-at_dot :
    (fold : ℕ → ℕ) (fuel : ℕ) (first : Bool) (d r : Text) (bytes : Bytes)
    → from_dot d ≡ dot ∷ r
    → encode_loop fold (suc fuel) first d bytes ≡ (
        push_label fold first true (label_from d) bytes >>= λ bytes'.
        encode_loop fold fuel false r (if is_empty r then bytes' ++ 0 ∷ [] else bytes'))
unfolding encode_loop
encode_loop-at_dot fold fuel first [] r bytes e = unfold from_dot in cc
encode_loop-at_dot fold fuel first (c ∷ d) r bytes e = rw e

abbrev Shape : (ℕ → ℕ) → Text → Bytes → Bytes → Type 0
Shape fold d bytes out =
    (ls : List Text) × (d ≡ dotted ls) × All IsPlain ls × (out ≡ bytes ++ wire_of (folded fold ls))

Shape-cons :
    (fold : ℕ → ℕ) (l r : Text) (bytes out : Bytes)
    → IsPlain l
    → Shape fold r (bytes ++ length l ∷ map fold l) out
    → Shape fold (l ++ dot ∷ r) bytes out
Shape-cons fold l r bytes out v (ls, e, vs, o) = (
  l ∷ ls,
  ap (λ (t : Text). l ++ dot ∷ t) e,
  (v, vs),
  o ∙ wire_split bytes (map fold l) (folded fold ls) (length l) (sym (length-map l fold)),
)

-- What is left behind a label is nothing or a name with a final dot.
Shape-rest :
    (fold : ℕ → ℕ) (fuel : ℕ) (l r : Text) (mid out : Bytes)
    → ends_with_dot (l ++ dot ∷ r) ≡ true
    → ((x : ℕ) (r' : Text)
        → ends_with_dot (x ∷ r') ≡ true
        → encode_loop fold fuel false (x ∷ r') mid ≡ ok out
        → Shape fold (x ∷ r') mid out)
    → encode_loop fold fuel false r (if is_empty r then mid ++ 0 ∷ [] else mid) ≡ ok out
    → Shape fold r mid out
Shape-rest fold fuel l [] mid out e ih h =
    ([], refl, tt, cc (encode_loop-nil fold fuel false (mid ++ 0 ∷ []), h))
Shape-rest fold fuel l (x ∷ r) mid out e ih h = ih x r (sym (ends_with_dot-append l x r) ∙ e) h

-- Past the first label the loop accepts labels with a dot behind each, and nothing else.
encode_loop-Shape :
    (fold : ℕ → ℕ) (fuel : ℕ) (c : ℕ) (d : Text) (bytes out : Bytes)
    → ends_with_dot (c ∷ d) ≡ true
    → encode_loop fold fuel false (c ∷ d) bytes ≡ ok out
    → Shape fold (c ∷ d) bytes out
encode_loop-Shape fold zero c d bytes out e h = unfold encode_loop in cc
encode_loop-Shape fold (suc fuel) c d bytes out e h =
    let (r, split, left) = ends_with_dot-from_dot (c ∷ d) e in
    let run = sym (encode_loop-at_dot fold fuel false (c ∷ d) r bytes left) ∙ h in
    let (mid, pushed, rest) =
      >>=-eq-ok (push_label fold false true (label_from (c ∷ d)) bytes) _ run in
    let shape =
      Shape-rest fold fuel (label_from (c ∷ d)) r mid out (rw (← split) e)
        (λ x r' e' h'. encode_loop-Shape fold fuel x r' mid out e' h') rest in
    elim (push_label-eq-ok fold false (label_from (c ∷ d)) bytes mid pushed) [
      | inl (no_first, _, _) ↦ cc
      | inr (lo, hi, written) ↦ rw split (
          Shape-cons fold (label_from (c ∷ d)) r bytes out (lo, hi, label_from-NoDot (c ∷ d))
            (subst (λ (m : Bytes). Shape fold r m out) written shape))
    ]

finish_name-eq-ok :
    (bytes out : Bytes)
    → finish_name bytes ≡ ok out
    → (length bytes ≤ 255) × (out ≡ map (λ b. b % 256) bytes)
unfolding finish_name
finish_name-eq-ok bytes out h = (ground arith, ground arith)

-- What the encoder accepts of names with a final dot: the dotted forms of its labels, and the same
-- with one more dot in front, which it drops.
abbrev pub Accepted : (ℕ → ℕ) → Text → Bytes → Type 0
Accepted fold d out =
    (ls : List Text) × ((d ≡ dotted ls) ⊎ (d ≡ dot ∷ dotted ls))
    × All IsPlain ls
    × (out ≡ map (λ b. b % 256) (wire_of (folded fold ls)))
    × (length (wire_of (folded fold ls)) ≤ 255)

finish-Accepted :
    (fold : ℕ → ℕ) (d r : Text) (mid out : Bytes)
    → (d ≡ r) ⊎ (d ≡ dot ∷ r)
    → Shape fold r [] mid
    → finish_name mid ≡ ok out
    → Accepted fold d out
finish-Accepted fold d r mid out form (ls, e, v, o) h =
    let (short, cut) = finish_name-eq-ok mid out h in
    (
      ls,
      elim form [ inl same ↦ inl (same ∙ e) | inr more ↦ inr (more ∙ ap (◌∷◌ dot) e) ],
      v,
      cut ∙ ap (map (λ b. b % 256)) o,
      subst (λ (m : Bytes). length m ≤ 255) o short,
    )

loop-Accepted :
    (fold : ℕ → ℕ) (fuel c : ℕ) (d : Text) (mid out : Bytes)
    → ends_with_dot (c ∷ d) ≡ true
    → encode_loop fold fuel true (c ∷ d) [] ≡ ok mid
    → finish_name mid ≡ ok out
    → Accepted fold (c ∷ d) out
loop-Accepted fold zero c d mid out e h f = unfold encode_loop in cc
loop-Accepted fold (suc fuel) c d mid out e h f =
    let (r, split, left) = ends_with_dot-from_dot (c ∷ d) e in
    let l = label_from (c ∷ d) in
    let run = sym (encode_loop-at_dot fold fuel true (c ∷ d) r [] left) ∙ h in
    let (first, pushed, rest) = >>=-eq-ok (push_label fold true true l []) _ run in
    let shape =
      Shape-rest fold fuel l r first mid (rw (← split) e)
        (λ x r' e' h'. encode_loop-Shape fold fuel x r' first mid e' h') rest in
    elim (push_label-eq-ok fold true l [] first pushed) [
      | inl (_, empty, same) ↦
          finish-Accepted fold (c ∷ d) r mid out
            (inr (split ∙ ap (λ (t : Text). t ++ dot ∷ r) empty))
            (subst (λ (m : Bytes). Shape fold r m mid) same shape) f
      | inr (lo, hi, written) ↦
          finish-Accepted fold (c ∷ d) (l ++ dot ∷ r) mid out (inl split)
            (Shape-cons fold l r [] mid (lo, hi, label_from-NoDot (c ∷ d))
              (subst (λ (m : Bytes). Shape fold r m mid) written shape))
            f
    ]

-- A fully qualified name that `encode_domain_name` accepts is labels of 1 to 63 units with a dot
-- behind each, perhaps with one more dot in front, and the output is their wire form, which has 255
-- octets at most.
pub encode_domain_name-Accepted :
    (fold : ℕ → ℕ) (d : Text) (out : Bytes)
    → ends_with_dot d ≡ true
    → encode_domain_name d fold ≡ ok out
    → Accepted fold d out
unfolding encode_domain_name
encode_domain_name-Accepted fold [] out e h = unfold ends_with_dot in cc
encode_domain_name-Accepted fold (c ∷ d) out e h =
    let (mid, run, fin) =
      >>=-eq-ok (encode_loop fold (length (c ∷ d)) true (c ∷ d) []) finish_name h in
    loop-Accepted fold (length (c ∷ d)) c d mid out e run fin
