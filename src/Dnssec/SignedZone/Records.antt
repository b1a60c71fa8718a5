-- ===== src/Dnssec/SignedZone/Records.antt =====
-- packages/core/src/zone/dns_zone.ts: the records of a zone by owner and type.
use dnsdata_js.Base.{
  ℕ, ◌&&◌, if◌then◌else◌, ◌==◌, Bool, true, false, Option, none, some, List, [], ◌∷◌, ◌++◌, ◌≡◌,
  refl, sym, ap, ◌∙◌, inl, inr, Option-cases, arith,
}
use dnsdata_js.Base.Text.{Text, text_eq, text_eq_iff}
use dnsdata_js.Base.Maps.{get, set}
use dnsdata_js.Base.Spaces.Words.{&&-true}
use dnsdata_js.Types.RrType.Keys.{composite_key, get-set_composite}
use dnsdata_js.Dnssec.Signer.{ResourceRecord}
use dnsdata_js.Dnssec.SignedZone.{ZoneState, zone_key, find_rrset, add_rr}

abbrev or_empty : Option (List ResourceRecord) → List ResourceRecord
or_empty none = []
or_empty (some rrs) = rrs

add_rr-records :
    (z : ZoneState) (rr : ResourceRecord)
    → (add_rr rr z).records
      ≡ set
          (composite_key 0 rr.label rr.type)
          (or_empty (get (composite_key 0 rr.label rr.type) z.records) ++ rr ∷ [])
          z.records
unfolding add_rr zone_key
add_rr-records z rr = elim (Option-cases (get (composite_key 0 rr.label rr.type) z.records)) [
  | inl e ↦ rw (e, add_rr) refl
  | inr (rrs, e) ↦ rw (e, add_rr) refl
]

find_rrset-or_empty :
    (z : ZoneState) (name : Text) (type : ℕ)
    → find_rrset z name type ≡ or_empty (get (composite_key 0 name type) z.records)
unfolding find_rrset zone_key
find_rrset-or_empty z name type = elim (Option-cases (get (composite_key 0 name type) z.records)) [
  | inl e ↦ rw (e, find_rrset) refl
  | inr (rrs, e) ↦ rw (e, find_rrset) refl
]

-- `add_rr` puts the record behind those of its owner and type, and `find_rrset` finds no change
-- anywhere else.
pub find_rrset-add_rr :
    (z : ZoneState) (rr : ResourceRecord) (name : Text) (type : ℕ)
    → find_rrset (add_rr rr z) name type ≡ (
        if text_eq rr.label name && (rr.type == type)
        then find_rrset z name type ++ rr ∷ []
        else find_rrset z name type)
find_rrset-add_rr z rr name type =
    find_rrset-or_empty (add_rr rr z) name type
    ∙ ap (λ (rs : List (Text × List ResourceRecord)). or_empty (get (composite_key 0 name type) rs))
        (add_rr-records z rr)
    ∙ ap or_empty (
        get-set_composite 0 rr.label name rr.type type
          (or_empty (get (composite_key 0 rr.label rr.type) z.records) ++ rr ∷ []) z.records refl)
    ∙ at_key (text_eq rr.label name && (rr.type == type)) refl
  where
    at_key :
        (b : Bool)
        → (text_eq rr.label name && (rr.type == type)) ≡ b
        → or_empty (
            if b
            then some (or_empty (get (composite_key 0 rr.label rr.type) z.records) ++ rr ∷ [])
            else get (composite_key 0 name type) z.records)
          ≡ (if b then find_rrset z name type ++ rr ∷ [] else find_rrset z name type)
    at_key true h =
        let (p, q) = &&-true (text_eq rr.label name) (rr.type == type) h in
        let (to, from) = text_eq_iff rr.label name in
        let same : rr.type ≡ type = ground arith in
        ap (λ (k : Text). or_empty (get k z.records) ++ rr ∷ [])
          (ap (λ (x : Text). composite_key 0 x rr.type) (to p)
            ∙ ap (λ (t : ℕ). composite_key 0 name t) same)
        ∙ ap (λ (rs : List ResourceRecord). rs ++ rr ∷ []) (sym (find_rrset-or_empty z name type))
    at_key false h = sym (find_rrset-or_empty z name type)
