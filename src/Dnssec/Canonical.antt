-- ===== src/Dnssec/Canonical.antt =====
-- packages/core/src/zone/canonical.ts and dnssec/dnssec_util.ts: the canonical order of names and
-- records (RFC 4034 §6).
use dnsdata_js.Base.{
  ℕ, ◌-◌, Bool, true, false, List, [], ◌∷◌, ◌++◌, length, drop, leb, ◌==◌, ◌||◌, if◌then◌else◌, ◌≡◌,
  not,
}
use mathlib.Core.List.{reverse}
use dnsdata_js.Base.Text.{Text, dot, text_eq, to_lower, strip_trailing_dot, split, join}
use dnsdata_js.Base.Slices.{Bytes}
use dnsdata_js.Base.Order.{Sign, less, equal, greater, sign_of_sub, or_else, lexicographic}
use dnsdata_js.Wire.Builder.{compare_uint8arrays}
pub mod Laws
pub mod Labels
pub mod Entries

-- `canonical_labels`, `canon_labels` and the signer's `labels_of`: one text, three times.
unfoldable pub canonical_labels : Text → List Text
unfolding to_lower strip_trailing_dot split text_eq
canonical_labels name =
    let trimmed = to_lower (strip_trailing_dot name) in
    if text_eq trimmed [] then [] else split dot trimmed

-- `compare_values` of two strings: `<` compares them unit by unit.
unfoldable pub compare_text : Text → Text → Sign
unfolding lexicographic
compare_text = lexicographic sign_of_sub

-- The loop over both label lists from their ends; the lengths decide when one is used up.
unfoldable pub compare_from_end : ℕ → ℕ → List Text → List Text → Sign
unfolding compare_text sign_of_sub
compare_from_end n m [] rb = sign_of_sub n m
compare_from_end n m (x ∷ ra) [] = sign_of_sub n m
compare_from_end n m (x ∷ ra) (y ∷ rb) = or_else (compare_text x y) (compare_from_end n m ra rb)

unfoldable pub compare_canonical_names : Text → Text → Sign
unfolding compare_from_end canonical_labels
compare_canonical_names a b =
    let la = canonical_labels a in
    let lb = canonical_labels b in
    compare_from_end (length la) (length lb) (reverse la) (reverse lb)

pub record CanonicalEntry : Type 0 where
  pub label : Text
  pub type : ℕ
  pub rrclass : ℕ
  pub rdata : Bytes

unfoldable pub compare_canonical_entries : CanonicalEntry → CanonicalEntry → Sign
unfolding compare_canonical_names compare_uint8arrays sign_of_sub
compare_canonical_entries a b = or_else (compare_canonical_names a.label b.label) (
    or_else (sign_of_sub a.type b.type)
      (or_else (sign_of_sub a.rrclass b.rrclass) (compare_uint8arrays a.rdata b.rdata)))

unfoldable pub equal_canonical_names : Text → Text → Bool
unfolding to_lower strip_trailing_dot text_eq
equal_canonical_names a b =
    text_eq (to_lower (strip_trailing_dot a)) (to_lower (strip_trailing_dot b))

unfoldable pub label_count : Text → ℕ
unfolding canonical_labels
label_count name = length (canonical_labels name)

unfoldable pub last_n_labels : Text → ℕ → Text
unfolding canonical_labels join
last_n_labels name n =
    let labels = canonical_labels name in
    if (n == 0) || not (leb n (length labels))
    then dot ∷ []
    else join (dot ∷ []) (drop (length labels - n) labels) ++ dot ∷ []
