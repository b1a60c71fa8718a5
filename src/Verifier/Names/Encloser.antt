-- ===== src/Verifier/Names/Encloser.antt =====
-- packages/core/src/verifier/leaf_negative.ts: the longest common ancestor and the closest encloser.
use dnsdata_js.Base.{
  ℕ, suc, ◌-◌, ◌≤◌, true, false, is_empty, if◌then◌else◌, ltb, List, [], ◌∷◌, ◌++◌, length,
  length-append, drop, drop-append_length, All, ◌==◌, ◌≡◌, refl, sym, ap, ◌∙◌, inl, inr, ◌⊎◌,
  Bool-cases, arith,
}
use mathlib.Core.List.{reverse, reverse-append, reverse-reverse}
use mathlib.Core.Path.{subst}
use dnsdata_js.Base.Text.{Text, dot, text_eq, text_eq_iff, join}
use dnsdata_js.Dnssec.Canonical.{canonical_labels, label_count}
use dnsdata_js.Verifier.Names.{
  matched_from_end, longest_common_ancestor, closest_of, closest_encloser_nsec,
}
use dnsdata_js.Verifier.Names.Folded.{
  IsFolded, name_of, canonical_labels-All, canonical_labels-name_of,
}

-- The second list ends in the first.
abbrev pub IsSuffix : List Text → List Text → Type 0
IsSuffix s xs = (p : List Text) × (p ++ s ≡ xs)

-- The longest list that both lists end in.
pub record IsCommon (xs ys s : List Text) : Type 0 where
  pub of_first : IsSuffix s xs
  pub of_second : IsSuffix s ys
  pub longest : (t : List Text) → IsSuffix t xs → IsSuffix t ys → length t ≤ length s

record Shared (ra rb : List Text) : Type 0 where
  common : List Text
  left : List Text
  right : List Text
  left_is : ra ≡ common ++ left
  right_is : rb ≡ common ++ right
  counted : matched_from_end ra rb ≡ length common

shared : (ra rb : List Text) → Shared ra rb
unfolding matched_from_end
shared [] rb = record {
  common = [];
  left = [];
  right = rb;
  left_is = refl;
  right_is = refl;
  counted = refl;
}
shared (x ∷ ra) [] = record {
  common = [];
  left = x ∷ ra;
  right = [];
  left_is = refl;
  right_is = refl;
  counted = refl;
}
shared (x ∷ ra) (y ∷ rb) =
    let r = shared ra rb in
    elim (Bool-cases (text_eq x y)) [
      | inl t ↦ record {
        common = x ∷ r.common;
        left = r.left;
        right = r.right;
        left_is = ap (◌∷◌ x) r.left_is;
        right_is = ap (λ (z : Text). z ∷ rb) (sym ((text_eq_iff x y).0 t)) ∙ ap (◌∷◌ x) r.right_is;
        counted = let c = r.counted in rw (t, c) refl;
      }
      | inr f ↦ record {
        common = [];
        left = x ∷ ra;
        right = y ∷ rb;
        left_is = refl;
        right_is = refl;
        counted = rw f refl;
      }
    ]

matched-longest : (p u v : List Text) → length p ≤ matched_from_end (p ++ u) (p ++ v)
unfolding matched_from_end
matched-longest [] u v = omega arith
matched-longest (x ∷ p) u v =
    let rec = matched-longest p u v in
    let e : text_eq x x ≡ true = (text_eq_iff x x).1 refl in rw e (omega (arith, rec))

length-reverse : (xs : List Text) → length (reverse xs) ≡ length xs
length-reverse [] = refl
length-reverse (x ∷ xs) =
    ap length (reverse-append (x ∷ []) xs)
    ∙ length-append (reverse xs) (x ∷ [])
    ∙ omega (arith, length-reverse xs)

reversed : (xs p q : List Text) → reverse xs ≡ p ++ q → reverse q ++ reverse p ≡ xs
reversed xs p q e = sym (reverse-append p q) ∙ sym (ap reverse e) ∙ reverse-reverse xs

suffix-prefix : (t xs : List Text) → (h : IsSuffix t xs) → reverse xs ≡ reverse t ++ reverse (h.0)
suffix-prefix t xs (p, e) = sym (ap reverse e) ∙ reverse-append p t

-- `longest_common_ancestor` has the longest list of labels that both names end in.
pub longest_common_ancestor-IsCommon :
    (a b : Text)
    → (s : List Text) × IsCommon (canonical_labels a) (canonical_labels b) s
      × (longest_common_ancestor a b ≡ name_of s)
unfolding longest_common_ancestor
longest_common_ancestor-IsCommon a b =
    let la = canonical_labels a in
    let lb = canonical_labels b in
    let r = shared (reverse la) (reverse lb) in
    let whole = reversed la r.common r.left r.left_is in
    (
      reverse r.common,
      record {
        of_first = (reverse r.left, whole);
        of_second = (reverse r.right, reversed lb r.common r.right r.right_is);
        longest = λ t h k.
            omega
              (arith, longest_of la lb t h k, r.counted, length-reverse r.common, length-reverse t);
      },
      named (reverse r.common) (reverse r.left) whole (r.counted ∙ sym (length-reverse r.common)),
    )
  where
    longest_of :
        (la lb t : List Text)
        → IsSuffix t la
        → IsSuffix t lb
        → length (reverse t) ≤ matched_from_end (reverse la) (reverse lb)
    longest_of la lb t h k =
        rw (suffix-prefix t la h, suffix-prefix t lb k)
          (matched-longest (reverse t) (reverse (h.0)) (reverse (k.0)))

    named :
        (s p : List Text)
        → p ++ s ≡ canonical_labels a
        → matched_from_end (reverse (canonical_labels a)) (reverse (canonical_labels b)) ≡ length s
        → (if matched_from_end (reverse (canonical_labels a)) (reverse (canonical_labels b)) == 0
            then dot ∷ []
            else join (dot ∷ []) (
                drop
                  (length (canonical_labels a)
                    - matched_from_end
                        (reverse (canonical_labels a))
                        (reverse (canonical_labels b)))
                  (canonical_labels a))
              ++ dot ∷ [])
          ≡ name_of s
    named [] p e m = rw m refl
    named (l ∷ ls) p e m =
        let some_left : (suc (length ls) == 0) ≡ false = ground arith in
        rw (m, some_left)
          (ap (λ (xs : List Text). join (dot ∷ []) xs ++ dot ∷ [])
            (ap (λ (xs : List Text). drop (length xs - suc (length ls)) xs) (sym e)
              ∙ ap (λ (k : ℕ). drop k (p ++ l ∷ ls)) {y = length p}
                  (omega (arith, length-append p (l ∷ ls)))
              ∙ drop-append_length p (l ∷ ls)))

-- What `closest_encloser_nsec` returns, where it is not empty: the name of the longest list of labels
-- that the name and the owner, or the name and the next name, end in.
pub record IsEncloser (qs os ns s : List Text) : Type 0 where
  pub of_name : IsSuffix s qs
  pub is_there : IsSuffix s os ⊎ IsSuffix s ns
  pub longest :
      (t : List Text) → IsSuffix t qs → IsSuffix t os ⊎ IsSuffix t ns → length t ≤ length s

suffix-All : (P : Text → Type 0) (p s : List Text) → All P (p ++ s) → All P s
suffix-All P [] s h = h
suffix-All P (x ∷ p) s (k, h) = suffix-All P p s h

-- Names without empty labels.
abbrev pub HasLabels : Text → Type 0
HasLabels name = All (λ l. is_empty l ≡ false) (canonical_labels name)

pub canonical_labels-suffix :
    (qname : Text) (s : List Text)
    → HasLabels qname
    → IsSuffix s (canonical_labels qname)
    → canonical_labels (name_of s) ≡ s
canonical_labels-suffix qname s n (p, e) =
    canonical_labels-name_of s
      (suffix-All IsFolded p s (subst (All IsFolded) (sym e) (canonical_labels-All qname)))
      (suffix-All (λ l. is_empty l ≡ false) p s (subst (All (λ l. is_empty l ≡ false)) (sym e) n))

label_count-name_of :
    (qname : Text) (s : List Text)
    → HasLabels qname
    → IsSuffix s (canonical_labels qname)
    → label_count (name_of s) ≡ length s
unfolding label_count
label_count-name_of qname s n h = ap length (canonical_labels-suffix qname s n h)

label_count-nothing : label_count [] ≡ 0
unfolding label_count canonical_labels
label_count-nothing = refl

from_common :
    (qs os ns s t : List Text)
    → IsCommon qs os s
    → IsCommon qs ns t
    → length t ≤ length s
    → IsEncloser qs os ns s
from_common qs os ns s t c d le = record {
  of_name = c.of_first;
  is_there = inl c.of_second;
  longest = within;
}
  where
    within : (u : List Text) → IsSuffix u qs → IsSuffix u os ⊎ IsSuffix u ns → length u ≤ length s
    within u h (inl k) = c.longest u h k
    within u h (inr k) = omega (arith, d.longest u h k)

swapped : (qs os ns s : List Text) → IsEncloser qs ns os s → IsEncloser qs os ns s
swapped qs os ns s e = record { of_name = e.of_name; is_there = other e.is_there; longest = within }
  where
    other : {X Y : Type 0} → X ⊎ Y → Y ⊎ X
    other (inl x) = inr x
    other (inr y) = inl y

    within : (u : List Text) → IsSuffix u qs → IsSuffix u os ⊎ IsSuffix u ns → length u ≤ length s
    within u h k = e.longest u h (other k)

pub closest_encloser_nsec-IsEncloser :
    (qname owner next : Text)
    → HasLabels qname
    → text_eq (closest_encloser_nsec qname owner next) [] ≡ false
    → (s : List Text) × IsEncloser
        (canonical_labels qname)
        (canonical_labels owner)
        (canonical_labels next)
        s
      × (closest_encloser_nsec qname owner next ≡ name_of s)
unfolding closest_encloser_nsec closest_of
closest_encloser_nsec-IsEncloser qname owner next n h =
    let (s, c, e) = longest_common_ancestor-IsCommon qname owner in
    let (t, d, f) = longest_common_ancestor-IsCommon qname next in
    picked s t c d (label_count-name_of qname s n c.of_first)
      (label_count-name_of qname t n d.of_first) (longest_common_ancestor qname owner)
      (longest_common_ancestor qname next) e f h
  where
    picked :
        (s t : List Text)
        → IsCommon (canonical_labels qname) (canonical_labels owner) s
        → IsCommon (canonical_labels qname) (canonical_labels next) t
        → label_count (name_of s) ≡ length s
        → label_count (name_of t) ≡ length t
        → (a b : Text) → a ≡ name_of s
        → b ≡ name_of t
        → text_eq
            (if ltb
                (label_count (if ltb (label_count []) (label_count a) then a else []))
                (label_count b)
              then b
              else if ltb (label_count []) (label_count a)
              then a
              else [])
            []
          ≡ false
        → (x : List Text) × IsEncloser
            (canonical_labels qname)
            (canonical_labels owner)
            (canonical_labels next)
            x
          × ((if ltb
                  (label_count (if ltb (label_count []) (label_count a) then a else []))
                  (label_count b)
                then b
                else if ltb (label_count []) (label_count a)
                then a
                else [])
              ≡ name_of x)
    picked s t c d m k a b e f h =
        let na : label_count a ≡ length s = ap label_count e ∙ m in
        let nb : label_count b ≡ length t = ap label_count f ∙ k in
        let qs = canonical_labels qname in
        let os = canonical_labels owner in
        let ns = canonical_labels next in
        elim (Bool-cases (ltb (label_count []) (label_count a))) [
          | inl p ↦ elim (Bool-cases (ltb (label_count a) (label_count b))) [
            | inl q ↦
                rw (p, q)
                  (t, swapped qs os ns t (from_common qs ns os t s d c (ground (arith, na, nb))), f)
            | inr q ↦ rw (p, q) (s, from_common qs os ns s t c d (ground (arith, na, nb)), e)
          ]
          | inr p ↦ elim (Bool-cases (ltb (label_count []) (label_count b))) [
            | inl q ↦
                rw (p, q)
                  (
                    t,
                    swapped qs os ns t (
                        from_common qs ns os t s d c (ground (arith, na, nb, label_count-nothing))),
                    f,
                  )
            | inr q ↦ let r = (rw (p, q) at h) in absurd (cc)
          ]
        ]
