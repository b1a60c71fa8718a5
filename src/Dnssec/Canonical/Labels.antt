-- ===== src/Dnssec/Canonical/Labels.antt =====
-- packages/core/src/zone/canonical.ts and dnssec/dnssec_util.ts: when two names are the same.
use dnsdata_js.Base.{
  ℕ, true, List, [], ◌∷◌, ◌≡◌, refl, sym, ap, ◌∙◌, ◌↔◌, if◌then◌else◌, ◌==◌, ==_iff, Bool-cases,
  inl, inr,
}
use dnsdata_js.Base.Text.{
  Text, dot, text_eq, text_eq_iff, to_lower, strip_trailing_dot, split, join,
}
use dnsdata_js.Base.Order.{equal}
use dnsdata_js.Dnssec.Canonical.{canonical_labels, compare_canonical_names, equal_canonical_names}
use dnsdata_js.Dnssec.Canonical.Laws.{compare_canonical_names-equal}

-- The first piece has one unit more.
prepend : ℕ → List Text → List Text
prepend c [] = (c ∷ []) ∷ []
prepend c (p ∷ ps) = (c ∷ p) ∷ ps

join-prepend :
    (sep c : ℕ) (ps : List Text) → join (sep ∷ []) (prepend c ps) ≡ c ∷ join (sep ∷ []) ps
unfolding join prepend
join-prepend sep c [] = refl
join-prepend sep c (p ∷ []) = refl
join-prepend sep c (p ∷ q ∷ ps) = refl

split-shape : (sep : ℕ) (s : Text) → (p : Text) × ((ps : List Text) × (split sep s ≡ p ∷ ps))
unfolding split
split-shape sep [] = ([], ([], refl))
split-shape sep (c ∷ s) =
    let (p, (ps, e)) = split-shape sep s in
    elim (Bool-cases (c == sep)) [
      | inl t ↦ ([], (split sep s, rw (t) refl))
      | inr f ↦ (c ∷ p, (ps, rw (f, e) refl))
    ]

-- `s.split(sep).join(sep)` is `s`.
pub join-split : (sep : ℕ) (s : Text) → join (sep ∷ []) (split sep s) ≡ s
unfolding split join split-shape prepend
join-split sep [] = refl
join-split sep (c ∷ s) =
    let (p, (ps, e)) = split-shape sep s in
    let whole : join (sep ∷ []) (split sep s) ≡ s = join-split sep s in
    let rec = (rw e at whole) in
    elim (Bool-cases (c == sep)) [
      | inl t ↦ let q : c ≡ sep = (==_iff c sep).0 t in rw (t, e, rec, q) refl
      | inr f ↦ rw (f, e) (join-prepend sep c (p ∷ ps) ∙ ap (◌∷◌ c) rec)
    ]

trimmed : Text → Text
trimmed name = to_lower (strip_trailing_dot name)

labels_of_trimmed : Text → List Text
unfolding text_eq
labels_of_trimmed t = if text_eq t [] then [] else split dot t

labels_of_trimmed-injective : (s t : Text) → labels_of_trimmed s ≡ labels_of_trimmed t → s ≡ t
unfolding labels_of_trimmed text_eq
labels_of_trimmed-injective [] [] h = refl
labels_of_trimmed-injective [] (d ∷ t) h = let (p, (ps, e)) = split-shape dot (d ∷ t) in cc
labels_of_trimmed-injective (c ∷ s) [] h = let (p, (ps, e)) = split-shape dot (c ∷ s) in cc
labels_of_trimmed-injective (c ∷ s) (d ∷ t) h =
    sym (join-split dot (c ∷ s)) ∙ ap (join (dot ∷ [])) h ∙ join-split dot (d ∷ t)

-- `equal_canonical_names` is true exactly where `compare_canonical_names` returns 0.
pub equal_canonical_names-compare :
    (a b : Text) → (equal_canonical_names a b ≡ true) ↔ (compare_canonical_names a b ≡ equal)
unfolding equal_canonical_names canonical_labels trimmed labels_of_trimmed
equal_canonical_names-compare a b =
    let (to, from) = compare_canonical_names-equal a b in
    let (same, eq) = text_eq_iff (trimmed a) (trimmed b) in
    (
      λ h. from (ap labels_of_trimmed (same h)),
      λ h. eq (labels_of_trimmed-injective (trimmed a) (trimmed b) (to h)),
    )
