-- ===== src/Dnssec/Signer/Order.antt =====
-- packages/core/src/dnssec/signer/names.ts: a name below another one stands after it in the
-- canonical order, and the tests of the signer depend on the labels only.
use dnsdata_js.Base.{
  ℕ, ◌-◌, Bool, true, false, ◌&&◌, ◌||◌, not, List, [], ◌∷◌, ◌++◌, take, drop, length, ltb, any,
  All, ◌≡◌, refl, sym, ap, ◌∙◌, inl, inr, Bool-cases, take-append-drop, length-drop, arith,
}
use mathlib.Core.List.{reverse, reverse-append}
use dnsdata_js.Base.Text.{
  Text, text_eq, text_eq_iff, to_lower, ends_with_dot, strip_trailing_dot, dot, drop_last,
  lower_unit,
}
use dnsdata_js.Base.Order.{
  equal, greater, opposite, lexicographic, Comparison, equal_refl, Sign-cases,
}
use dnsdata_js.Base.Sorting.{NotAfter}
use dnsdata_js.Dnssec.Canonical.{
  canonical_labels, compare_canonical_names, compare_text, equal_canonical_names,
}
use dnsdata_js.Dnssec.Canonical.Labels.{equal_canonical_names-compare}
use dnsdata_js.Dnssec.Signer.Owners.{to_lower-strip}
use dnsdata_js.Dnssec.Canonical.Laws.{
  compare_text-Comparison, compare_canonical_names-lexicographic,
  compare_canonical_names-Comparison,
}
use dnsdata_js.Dnssec.SignerNames.{is_at_or_below, same_name, every_same, same_name-compare}
use dnsdata_js.Dnssec.Signer.View.{ZoneView, is_cut, is_occluded}

drop_last-append : (a : Text) (c : ℕ) → drop_last (a ++ c ∷ []) ≡ a
unfolding drop_last
drop_last-append [] c = refl
drop_last-append (x ∷ []) c = refl
drop_last-append (x ∷ y ∷ a) c = ap (◌∷◌ x) (drop_last-append (y ∷ a) c)

append-one_injective : (a b : Text) (c : ℕ) → a ++ c ∷ [] ≡ b ++ c ∷ [] → a ≡ b
append-one_injective a b c e = sym (drop_last-append a c) ∙ ap drop_last e ∙ drop_last-append b c

&&-true : (a b : Bool) → (a && b) ≡ true → (a ≡ true) × (b ≡ true)
&&-true true b h = (refl, h)
&&-true false b h = cc

-- `every_same` compares as many labels as the first list has.
every_same-take :
    (ls ms : List Text) → every_same ls ms ≡ true → ltb (length ls) (length ms) ≡ false → ls ≡ ms
unfolding every_same
every_same-take [] [] h l = refl
every_same-take [] (m ∷ ms) h l = absurd (ground arith)
every_same-take (x ∷ ls) [] h l = cc
every_same-take (x ∷ ls) (y ∷ ms) h l =
    let (a, b) = &&-true (text_eq x y) (every_same ls ms) h in
    let (to, from) = text_eq_iff x y in rw (to a, every_same-take ls ms b (ground arith)) refl

suffix-NotAfter : (a b : List Text) → NotAfter (lexicographic compare_text a (a ++ b))
unfolding lexicographic
suffix-NotAfter [] [] = tt
suffix-NotAfter [] (y ∷ b) = tt
suffix-NotAfter (x ∷ a) b =
    rw (equal_refl compare_text compare_text-Comparison x) (suffix-NotAfter a b)

pub is_at_or_below-NotAfter :
    (name ancestor : Text)
    → is_at_or_below name ancestor ≡ true
    → NotAfter (compare_canonical_names ancestor name)
unfolding is_at_or_below
is_at_or_below-NotAfter name ancestor h =
    elim (Bool-cases (ltb (length (canonical_labels name)) (length (canonical_labels ancestor)))) [
      | inl t ↦ let r = (rw (t, is_at_or_below) at h) in absurd (cc)
      | inr f ↦
          let n = canonical_labels name in
          let k : ℕ = length n - length (canonical_labels ancestor) in
          let e : every_same (drop k n) (canonical_labels ancestor) ≡ true =
            (rw (f, is_at_or_below) at h) in
          let same : drop k n ≡ canonical_labels ancestor =
            every_same-take (drop k n) (canonical_labels ancestor) e
              (ground (arith, length-drop k n)) in
          let split : reverse n ≡ reverse (canonical_labels ancestor) ++ reverse (take k n) =
            ap reverse (sym (take-append-drop k n))
            ∙ reverse-append (take k n) (drop k n)
            ∙ ap (λ (x : List Text). reverse x ++ reverse (take k n)) same in
          rw (compare_canonical_names-lexicographic ancestor name, split)
            (suffix-NotAfter (reverse (canonical_labels ancestor)) (reverse (take k n)))
    ]

-- Two names at or below each other are the same.
pub is_at_or_below-same_name :
    (a b : Text) → is_at_or_below a b ≡ true → is_at_or_below b a ≡ true → same_name a b ≡ true
is_at_or_below-same_name a b h k =
    let m = is_at_or_below-NotAfter a b h in
    let n = is_at_or_below-NotAfter b a k in
    let law : Comparison compare_canonical_names = compare_canonical_names-Comparison in
    let f : compare_canonical_names b a ≡ opposite (compare_canonical_names a b) = law.flip a b in
    let (to, from) = same_name-compare a b in
    elim (Sign-cases (compare_canonical_names a b)) [
      | inl l ↦
          let g : compare_canonical_names b a ≡ greater = f ∙ ap opposite l in absurd (rw g at m)
      | inr (inl e) ↦ from e
      | inr (inr g) ↦ absurd (rw g at n)
    ]

-- No owner at the apex lies below a delegation point.
pub is_occluded-apex :
    (v : ZoneView) (apex : Text)
    → All (λ (c : Text). is_at_or_below c apex ≡ true) v.cuts
    → is_occluded v apex ≡ false
unfolding is_occluded
is_occluded-apex v apex h = none_of v.cuts h
  where
    none_of :
        (cuts : List Text)
        → All (λ (c : Text). is_at_or_below c apex ≡ true) cuts
        → any (λ c. not (same_name c apex) && is_at_or_below apex c) cuts ≡ false
    none_of [] h = refl
    none_of (c ∷ cs) (b, h) = elim (Bool-cases (is_at_or_below apex c)) [
      | inl t ↦ rw (is_at_or_below-same_name c apex b t) (none_of cs h)
      | inr f ↦ rw f (at_rest (same_name c apex) (none_of cs h))
    ]
      where
        at_rest : {r : Bool} (s : Bool) → r ≡ false → ((not s && false) || r) ≡ false
        at_rest true e = e
        at_rest false e = e

any_same : (f g : Text → Bool) (cs : List Text) → ((c : Text) → f c ≡ g c) → any f cs ≡ any g cs
any_same f g [] h = refl
any_same f g (c ∷ cs) h = rw (h c, any_same f g cs h) refl

-- Whether a name is cut or occluded depends on its canonical labels only.
pub is_occluded-labels :
    (v : ZoneView) (a b : Text)
    → canonical_labels a ≡ canonical_labels b
    → (is_occluded v a ≡ is_occluded v b) × (is_cut v a ≡ is_cut v b)
unfolding is_occluded is_cut same_name is_at_or_below
is_occluded-labels v a b e =
    (any_same _ _ v.cuts (λ c. rw e refl), any_same _ _ v.cuts (λ c. rw e refl))

-- Names in the same case order, up to case and with the final dot, are equal in the order.
pub to_lower-compare :
    (a b : Text)
    → ends_with_dot a ≡ true
    → ends_with_dot b ≡ true
    → to_lower a ≡ to_lower b
    → compare_canonical_names a b ≡ equal
unfolding equal_canonical_names
to_lower-compare a b f g e =
    let (to, from) = equal_canonical_names-compare a b in
    let (same, back) =
      text_eq_iff (to_lower (strip_trailing_dot a)) (to_lower (strip_trailing_dot b)) in
    to (
      back (
        append-one_injective _ _ (lower_unit dot)
          (sym (to_lower-strip a f) ∙ e ∙ to_lower-strip b g)))
