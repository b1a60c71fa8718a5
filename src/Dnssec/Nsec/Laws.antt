-- ===== src/Dnssec/Nsec/Laws.antt =====
-- packages/core/src/dnssec/nsec.ts: what the answers of the handler mean.
use dnsdata_js.Base.{ℕ, ◌+◌, Bool, true, false, List, [], ◌∷◌, ◌≡◌, refl, ap, ◌∙◌, ◌↔◌}
use dnsdata_js.Base.Text.{Text}
use dnsdata_js.Base.Order.{Sign, less, equal, greater, opposite, Comparison}
use dnsdata_js.Dnssec.Canonical.{compare_canonical_names}
use dnsdata_js.Dnssec.Canonical.Laws.{compare_canonical_names-Comparison}
use dnsdata_js.Dnssec.Canonical.Labels.{equal_canonical_names-compare}
use dnsdata_js.Dnssec.Denial.{is_equal}
use dnsdata_js.Dnssec.Denial.Count.{one_if}
use dnsdata_js.Dnssec.Denial.Chain.{links, denials, Sorted, denials-links}
use dnsdata_js.Dnssec.Nsec.{Nsec, matches_name, covers_name}

is_equal_iff : (b : Bool) (s t : Sign) → (b ≡ true) ↔ (s ≡ equal) → t ≡ opposite s → b ≡ is_equal t
is_equal_iff true less t (to, from) e = let f = to refl in cc
is_equal_iff true equal t (to, from) e = rw e refl
is_equal_iff true greater t (to, from) e = let f = to refl in cc
is_equal_iff false less t (to, from) e = rw e refl
is_equal_iff false equal t (to, from) e = let f = from refl in cc
is_equal_iff false greater t (to, from) e = rw e refl

matches_name-is_equal :
    (owner qname : Text) → matches_name owner qname ≡ is_equal (compare_canonical_names qname owner)
unfolding matches_name
matches_name-is_equal owner qname =
    let law : Comparison compare_canonical_names = compare_canonical_names-Comparison in
    is_equal_iff _ (compare_canonical_names owner qname) _
      (equal_canonical_names-compare owner qname) (law.flip owner qname)

-- How many records match the name or cover it.
unfoldable pub denying : Text → List (Text × Nsec) → ℕ
unfolding one_if
denying qname [] = 0
denying qname ((owner, n) ∷ rest) =
    one_if (matches_name owner qname) + one_if (covers_name n owner qname) + denying qname rest

unfoldable pub owner_and_next : List (Text × Nsec) → List (Text × Text)
owner_and_next [] = []
owner_and_next ((owner, n) ∷ rest) = (owner, n.next_domain) ∷ owner_and_next rest

denying-denials :
    (qname : Text) (records : List (Text × Nsec))
    → denying qname records ≡ denials compare_canonical_names qname (owner_and_next records)
unfolding denying denials covers_name owner_and_next
denying-denials qname [] = refl
denying-denials qname ((owner, n) ∷ rest) =
    rw (matches_name-is_equal owner qname, denying-denials qname rest) refl

-- The NSEC records of a zone, whose owners stand in canonical order, each with the next owner as
-- its next domain name and the last with the first: every name is matched (`matches_name`) or
-- covered (`covers_name`) by exactly one of them.
pub denying-links :
    (qname first : Text) (rest : List Text) (records : List (Text × Nsec))
    → Sorted compare_canonical_names first rest
    → owner_and_next records ≡ links compare_canonical_names first first rest
    → denying qname records ≡ 1
denying-links qname first rest records s e =
    denying-denials qname records
    ∙ ap (denials compare_canonical_names qname) e
    ∙ denials-links compare_canonical_names compare_canonical_names-Comparison qname first rest s
