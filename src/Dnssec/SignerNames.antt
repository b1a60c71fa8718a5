-- ===== src/Dnssec/SignerNames.antt =====
-- packages/core/src/dnssec/signer/names.ts: the names of the zone signer.
use dnsdata_js.Base.{
  ℕ, ◌-◌, Bool, true, false, ◌&&◌, if◌then◌else◌, List, [], ◌∷◌, ◌==◌, ltb, length, drop, ◌≡◌, ◌↔◌,
  arith,
}
use dnsdata_js.Base.Text.{Text, codes, text_eq, text_eq_iff, ends_with_dot}
use dnsdata_js.Base.Order.{equal}
use dnsdata_js.Dnssec.Canonical.{canonical_labels, compare_canonical_names}
use dnsdata_js.Dnssec.Canonical.Laws.{compare_canonical_names-equal}

-- `labels.every((label, i) => label === other[i])`
unfoldable pub every_same : List Text → List Text → Bool
unfolding text_eq
every_same [] other = true
every_same (l ∷ ls) [] = false
every_same (l ∷ ls) (m ∷ ms) = text_eq l m && every_same ls ms

unfoldable pub is_at_or_below : Text → Text → Bool
unfolding canonical_labels every_same
is_at_or_below name ancestor =
    let n = canonical_labels name in
    let a = canonical_labels ancestor in
    if ltb (length n) (length a) then false else every_same (drop (length n - length a) n) a

unfoldable pub same_name : Text → Text → Bool
unfolding canonical_labels every_same
same_name a b =
    let la = canonical_labels a in
    let lb = canonical_labels b in (length la == length lb) && every_same la lb

unfoldable pub is_fqdn : Text → Bool
unfolding ends_with_dot
is_fqdn name = ends_with_dot name

-- One label less where the first is `*`.
abbrev pub without_wildcard : List Text → ℕ
without_wildcard [] = 0
without_wildcard (l ∷ ls) = if text_eq l (codes "*") then length ls else length (l ∷ ls)

unfoldable pub rrsig_labels : Text → ℕ
unfolding canonical_labels
rrsig_labels owner = without_wildcard (canonical_labels owner)

every_same_iff :
    (ls ms : List Text) → (((length ls == length ms) && every_same ls ms) ≡ true) ↔ (ls ≡ ms)
unfolding every_same
every_same_iff [] [] = ground arith
every_same_iff [] (m ∷ ms) = ground arith
every_same_iff (l ∷ ls) [] = ground arith
every_same_iff (l ∷ ls) (m ∷ ms) = grind (arith, text_eq_iff l m, every_same_iff ls ms)

-- `same_name` of the signer is true exactly where the canonical comparison of the zone returns 0.
pub same_name-compare :
    (a b : Text) → (same_name a b ≡ true) ↔ (compare_canonical_names a b ≡ equal)
unfolding same_name
same_name-compare a b =
    let (to, from) = compare_canonical_names-equal a b in
    let (same, eq) = every_same_iff (canonical_labels a) (canonical_labels b) in
    (λ h. from (same h), λ h. eq (to h))
