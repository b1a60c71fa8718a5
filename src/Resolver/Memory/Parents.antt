-- ===== src/Resolver/Memory/Parents.antt =====
-- packages/core/src/resolver/memory/names.ts: a parent has fewer labels.
use dnsdata_js.Base.{
  ℕ, suc, ◌+◌, ◌<◌, ◌≤◌, leb, true, false, if◌then◌else◌, ◌==◌, is_empty, List, [], ◌∷◌, ◌++◌,
  length, drop, Bool-cases, inl, inr, ◌⊎◌, ◌≡◌, refl, sym, ap, ◌∙◌, arith,
}
use dnsdata_js.Base.Text.{
  Text, dot, join, split, cons_first, ends_with_dot, drop_last, strip_trailing_dot,
}
use dnsdata_js.Dnssec.Canonical.Labels.{join-split}
use dnsdata_js.Resolver.Memory.{labels, parent}

-- The dots of a string.
dots : Text → ℕ
dots [] = 0
dots (c ∷ s) = let n = dots s in if c == dot then suc n else n

length-cons_first : (c : ℕ) (ps : List Text) → 1 ≤ length ps → length (cons_first c ps) ≡ length ps
length-cons_first c [] h = omega arith
length-cons_first c (p ∷ ps) h = refl

length-split : (s : Text) → length (split dot s) ≡ suc (dots s)
unfolding split dots
length-split [] = refl
length-split (c ∷ s) = elim (Bool-cases (c == dot)) [
  | inl t ↦ rw (t) (ap suc (length-split s))
  | inr f ↦
      let rec = length-split s in rw (f) (length-cons_first c (split dot s) (omega arith) ∙ rec)
]

dots-append : (s t : Text) → dots (s ++ t) ≡ dots s + dots t
unfolding dots
dots-append [] t = omega arith
dots-append (c ∷ s) t = elim (Bool-cases (c == dot)) [
  | inl h ↦ rw (h) (let rec = dots-append s t in omega arith)
  | inr h ↦ rw (h) (dots-append s t)
]

-- Without its first piece a joined string has a dot less.
dots-join :
    (p q : Text) (ps : List Text)
    → suc (dots (join (dot ∷ []) (q ∷ ps))) ≤ dots (join (dot ∷ []) (p ∷ q ∷ ps))
unfolding dots join
dots-join p q ps =
    let e = dots-append (p ++ dot ∷ []) (join (dot ∷ []) (q ∷ ps)) in
    let f = dots-append p (dot ∷ []) in omega arith

ends_with_dot-dotted : (s : Text) → ends_with_dot (s ++ dot ∷ []) ≡ true
unfolding ends_with_dot
ends_with_dot-dotted [] = refl
ends_with_dot-dotted (c ∷ []) = refl
ends_with_dot-dotted (c ∷ d ∷ s) = ends_with_dot-dotted (d ∷ s)

drop_last-dotted : (s : Text) → drop_last (s ++ dot ∷ []) ≡ s
unfolding drop_last
drop_last-dotted [] = refl
drop_last-dotted (c ∷ []) = refl
drop_last-dotted (c ∷ d ∷ s) = ap (◌∷◌ c) (drop_last-dotted (d ∷ s))

pub strip_trailing_dot-dotted : (s : Text) → strip_trailing_dot (s ++ dot ∷ []) ≡ s
unfolding strip_trailing_dot
strip_trailing_dot-dotted s = rw (ends_with_dot-dotted s) (drop_last-dotted s)

labels_of : Text → List Text
labels_of t = if is_empty t then [] else split dot t

length-labels_of : (t : Text) → length (labels_of t) ≤ suc (dots t)
unfolding labels_of
length-labels_of [] = omega arith
length-labels_of (c ∷ t) = let e = length-split (c ∷ t) in omega arith

length-labels_dotted : (s : Text) → length (labels (s ++ dot ∷ [])) ≤ suc (dots s)
unfolding labels labels_of
length-labels_dotted s = rw (strip_trailing_dot-dotted s) (length-labels_of s)

fewer :
    (t : Text) (l : List Text)
    → labels_of t ≡ l
    → leb (length l) 1 ≡ false
    → suc (dots (join (dot ∷ []) (drop 1 l))) < length l
unfolding labels_of
fewer t [] e h = cc
fewer t (p ∷ []) e h = cc
fewer [] (p ∷ q ∷ ps) e h = cc
fewer (c ∷ t) (p ∷ q ∷ ps) e h =
    let whole : join (dot ∷ []) (p ∷ q ∷ ps) ≡ c ∷ t =
      ap (join (dot ∷ [])) (sym e) ∙ join-split dot (c ∷ t) in
    let less = dots-join p q ps in
    let same = ap dots whole in let pieces = ap length (sym e) ∙ length-split (c ∷ t) in omega arith

labels-strip : (n : Text) → labels_of (strip_trailing_dot n) ≡ labels n
unfolding labels labels_of
labels-strip n = refl

parent-dotted :
    (n : Text)
    → leb (length (labels n)) 1 ≡ false
    → parent n ≡ join (dot ∷ []) (drop 1 (labels n)) ++ dot ∷ []
unfolding parent
parent-dotted n f = rw f refl

parent-root : (n : Text) → leb (length (labels n)) 1 ≡ true → parent n ≡ dot ∷ []
unfolding parent
parent-root n t = rw t refl

-- The parent of a name is the root, or has fewer labels.
pub parent-labels :
    (n : Text) → (parent n ≡ dot ∷ []) ⊎ (length (labels (parent n)) < length (labels n))
parent-labels n = elim (Bool-cases (leb (length (labels n)) 1)) [
  | inl t ↦ inl (parent-root n t)
  | inr f ↦
      let less = fewer (strip_trailing_dot n) (labels n) (labels-strip n) f in
      let most = length-labels_dotted (join (dot ∷ []) (drop 1 (labels n))) in
      let same = ap (λ (x : Text). length (labels x)) (parent-dotted n f) in inr (omega arith)
]
