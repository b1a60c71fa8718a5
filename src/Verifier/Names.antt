-- ===== src/Verifier/Names.antt =====
-- packages/core/src/verifier/leaf_negative.ts, verifier.ts and alias.ts: the functions on names.
pub mod Folded
pub mod Encloser
use dnsdata_js.Base.{
  ℕ, suc, ◌-◌, Bool, true, false, ◌&&◌, if◌then◌else◌, List, [], ◌∷◌, ◌++◌, ◌==◌, leb, ltb, length,
  drop, take,
}
use mathlib.Core.List.{reverse}
use dnsdata_js.Base.Text.{
  Text, codes, dot, text_eq, to_lower, ends_with_dot, drop_last, split, join,
}
use dnsdata_js.Base.Spaces.{trim}
use dnsdata_js.Dnssec.Canonical.{canonical_labels, equal_canonical_names, label_count}

unfoldable pub normalize_qname : Text → Text
unfolding trim to_lower text_eq ends_with_dot
normalize_qname s =
    let trimmed = to_lower (trim s) in
    if text_eq trimmed []
    then dot ∷ []
    else if ends_with_dot trimmed
    then trimmed
    else trimmed ++ dot ∷ []

-- The loop of `longest_common_ancestor` over both label lists from their ends.
unfoldable pub matched_from_end : List Text → List Text → ℕ
unfolding text_eq
matched_from_end [] rb = 0
matched_from_end (x ∷ ra) [] = 0
matched_from_end (x ∷ ra) (y ∷ rb) =
    let rest = matched_from_end ra rb in if text_eq x y then suc rest else 0

unfoldable pub longest_common_ancestor : Text → Text → Text
unfolding canonical_labels matched_from_end join
longest_common_ancestor a b =
    let la = canonical_labels a in
    let lb = canonical_labels b in
    let matched = matched_from_end (reverse la) (reverse lb) in
    if matched == 0 then dot ∷ [] else join (dot ∷ []) (drop (length la - matched) la) ++ dot ∷ []

unfoldable pub wildcard_at : Text → Text
unfolding text_eq
wildcard_at ce = if text_eq ce (dot ∷ []) then codes "*." else codes "*." ++ ce

unfoldable pub is_strict_subdomain : Text → Text → Bool
unfolding longest_common_ancestor canonical_labels equal_canonical_names
is_strict_subdomain name parent =
    if leb (length (canonical_labels name)) (length (canonical_labels parent))
    then false
    else equal_canonical_names (longest_common_ancestor name parent) parent

-- The loop of `closest_encloser_nsec` over owner and next.
unfoldable pub closest_of : Text → List Text → Text → Text
unfolding longest_common_ancestor label_count
closest_of qname [] best = best
closest_of qname (cand ∷ cands) best =
    let anc = longest_common_ancestor qname cand in
    closest_of qname cands (if ltb (label_count best) (label_count anc) then anc else best)

unfoldable pub closest_encloser_nsec : Text → Text → Text → Text
unfolding closest_of
closest_encloser_nsec qname owner next = closest_of qname (owner ∷ next ∷ []) []

-- The loop of `ancestors_of`: every tail of the labels, then the root.
unfoldable pub tails_of : List Text → List Text
unfolding join
tails_of [] = (dot ∷ []) ∷ []
tails_of (l ∷ ls) = (join (dot ∷ []) (l ∷ ls) ++ dot ∷ []) ∷ tails_of ls

unfoldable pub ancestors_of : Text → List Text
unfolding normalize_qname tails_of text_eq drop_last split
ancestors_of qname =
    let normalized = normalize_qname qname in
    if text_eq normalized (dot ∷ [])
    then (dot ∷ []) ∷ []
    else tails_of (split dot (drop_last normalized))

-- The loop of `next_closer_name`; `before` is the entry in front, empty at the first.
unfoldable pub entry_before : Text → Text → List Text → Text
unfolding equal_canonical_names
entry_before ce before [] = []
entry_before ce before (a ∷ ancs) =
    let rest = entry_before ce a ancs in if equal_canonical_names a ce then before else rest

unfoldable pub next_closer_name : Text → Text → Text
unfolding ancestors_of entry_before
next_closer_name qname ce = entry_before ce [] (ancestors_of qname)

-- The aligned labels of `synthesise_dname_target`, from the owner's first on.
unfoldable pub same_labels : List Text → List Text → Bool
unfolding text_eq to_lower
same_labels qs [] = true
same_labels [] (o ∷ os) = false
same_labels (q ∷ qs) (o ∷ os) = text_eq (to_lower q) (to_lower o) && same_labels qs os

unfoldable pub synthesise_dname_target : Text → Text → Text → Text
unfolding canonical_labels same_labels join
synthesise_dname_target qname owner target =
    let qs = canonical_labels qname in
    let os = canonical_labels owner in
    let keep = length qs - length os in
    if leb (length qs) (length os)
    then []
    else if same_labels (drop keep qs) os
    then join (dot ∷ []) (take keep qs ++ canonical_labels target) ++ dot ∷ []
    else []
