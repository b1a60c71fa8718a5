-- ===== src/Verifier/Names/Folded.antt =====
-- packages/core/src/verifier/leaf_negative.ts: a name made of the labels of a name has these labels.
use dnsdata_js.Base.{
  ℕ, false, is_empty, List, [], ◌∷◌, ◌++◌, append_assoc, All, ◌==◌, ◌≡◌, refl, sym, ap, ◌∙◌, inl,
  inr, Bool-cases, arith,
}
use dnsdata_js.Base.Text.{
  Text, dot, text_eq, lower_unit, to_lower, split, cons_first, join, strip_trailing_dot,
}
use dnsdata_js.Dnssec.Canonical.{canonical_labels}
use dnsdata_js.Resolver.Memory.Parents.{strip_trailing_dot-dotted}

-- A label in lower case.
abbrev pub IsFolded : Text → Type 0
IsFolded l = All (λ c. ((c == dot) ≡ false) × (lower_unit c ≡ c)) l

abbrev IsLower : Text → Type 0
IsLower s = All (λ c. lower_unit c ≡ c) s

lower_unit-lower_unit : (c : ℕ) → lower_unit (lower_unit c) ≡ lower_unit c
unfolding lower_unit
lower_unit-lower_unit c = ground arith

to_lower-IsLower : (s : Text) → IsLower (to_lower s)
unfolding to_lower
to_lower-IsLower [] = tt
to_lower-IsLower (c ∷ s) = (lower_unit-lower_unit c, to_lower-IsLower s)

cons_first-All :
    (c : ℕ) (ps : List Text)
    → (c == dot) ≡ false
    → lower_unit c ≡ c
    → All IsFolded ps
    → All IsFolded (cons_first c ps)
cons_first-All c [] d l h = (((d, l), tt), tt)
cons_first-All c (p ∷ ps) d l (h, hs) = (((d, l), h), hs)

split-All : (s : Text) → IsLower s → All IsFolded (split dot s)
unfolding split
split-All [] h = (tt, tt)
split-All (c ∷ s) (l, h) = elim (Bool-cases (c == dot)) [
  | inl t ↦ rw t (tt, split-All s h)
  | inr f ↦ rw f (cons_first-All c (split dot s) f l (split-All s h))
]

pub canonical_labels-All : (name : Text) → All IsFolded (canonical_labels name)
unfolding canonical_labels
canonical_labels-All name =
    let trimmed = to_lower (strip_trailing_dot name) in
    elim (Bool-cases (text_eq trimmed [])) [
      | inl t ↦ rw t tt
      | inr f ↦ rw f (split-All trimmed (to_lower-IsLower (strip_trailing_dot name)))
    ]

split-whole : (l : Text) → IsFolded l → split dot l ≡ l ∷ []
unfolding split
split-whole [] h = refl
split-whole (c ∷ l) ((d, e), h) = let rec = split-whole l h in rw (d, rec) refl

split-first : (l t : Text) → IsFolded l → split dot (l ++ dot ∷ t) ≡ l ∷ split dot t
unfolding split
split-first [] t h = refl
split-first (c ∷ l) t ((d, e), h) = let rec = split-first l t h in rw (d, rec) refl

split-join_folded :
    (l : Text) (ls : List Text)
    → All IsFolded (l ∷ ls)
    → split dot (join (dot ∷ []) (l ∷ ls)) ≡ l ∷ ls
unfolding join
split-join_folded l [] (h, hs) = split-whole l h
split-join_folded l (m ∷ ls) (h, hs) =
    ap (split dot) (append_assoc l (dot ∷ []) (join (dot ∷ []) (m ∷ ls)))
    ∙ split-first l (join (dot ∷ []) (m ∷ ls)) h
    ∙ ap (◌∷◌ l) (split-join_folded m ls hs)

to_lower-first : (l t : Text) → IsFolded l → to_lower (l ++ t) ≡ l ++ to_lower t
unfolding to_lower
to_lower-first [] t h = refl
to_lower-first (c ∷ l) t ((d, e), h) = let rec = to_lower-first l t h in rw (e, rec) refl

to_lower-whole : (l : Text) → IsFolded l → to_lower l ≡ l
unfolding to_lower
to_lower-whole [] h = refl
to_lower-whole (c ∷ l) ((d, e), h) = let rec = to_lower-whole l h in rw (e, rec) refl

to_lower-join :
    (l : Text) (ls : List Text)
    → All IsFolded (l ∷ ls)
    → to_lower (join (dot ∷ []) (l ∷ ls)) ≡ join (dot ∷ []) (l ∷ ls)
unfolding join to_lower lower_unit
to_lower-join l [] (h, hs) = to_lower-whole l h
to_lower-join l (m ∷ ls) (h, hs) =
    ap to_lower (append_assoc l (dot ∷ []) (join (dot ∷ []) (m ∷ ls)))
    ∙ to_lower-first l (dot ∷ join (dot ∷ []) (m ∷ ls)) h
    ∙ ap (λ (t : Text). l ++ dot ∷ t) (to_lower-join m ls hs)
    ∙ sym (append_assoc l (dot ∷ []) (join (dot ∷ []) (m ∷ ls)))

join-nonempty :
    (l : Text) (ls : List Text) → is_empty l ≡ false → text_eq (join (dot ∷ []) (l ∷ ls)) [] ≡ false
unfolding join text_eq
join-nonempty [] ls h = cc
join-nonempty (c ∷ l) [] h = refl
join-nonempty (c ∷ l) (m ∷ ls) h = refl

-- The name with these labels.
abbrev pub name_of : List Text → Text
name_of [] = dot ∷ []
name_of (l ∷ ls) = join (dot ∷ []) (l ∷ ls) ++ dot ∷ []

root-labels : canonical_labels (dot ∷ []) ≡ []
unfolding canonical_labels
root-labels = refl

pub canonical_labels-name_of :
    (ls : List Text)
    → All IsFolded ls
    → All (λ l. is_empty l ≡ false) ls
    → canonical_labels (name_of ls) ≡ ls
unfolding canonical_labels
canonical_labels-name_of [] h n = root-labels
canonical_labels-name_of (l ∷ ls) h (n, ns) =
    rw
      (
        strip_trailing_dot-dotted (join (dot ∷ []) (l ∷ ls)),
        to_lower-join l ls h,
        join-nonempty l ls n,
      )
      (split-join_folded l ls h)
