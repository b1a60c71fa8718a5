-- ===== src/Verifier/Signed/Absence.antt =====
-- packages/core/src/dnssec/signer/nsec.ts and verifier/leaf_negative.ts: a zone that the signer
-- signed, and what the verifier cannot be made to believe of it.
use dnsdata_js.Base.{
  ℕ, true, false, ◌||◌, not, ◌==◌, none, List, [], ◌∷◌, map, All, ◌≡◌, refl, sym, ap, ◌∙◌,
}
use mathlib.Core.Path.{subst}
use dnsdata_js.Base.Text.{Text}
use dnsdata_js.Base.Slices.{Bytes}
use dnsdata_js.Base.Among.{Among}
use dnsdata_js.Base.Result.{Result, ok, map_result, ok_injective}
use dnsdata_js.Dnssec.Nsec.{Nsec}
use dnsdata_js.Dnssec.SignerNames.{is_at_or_below}
use dnsdata_js.Dnssec.Signer.{ResourceRecord, is_generated_type, type_ns, type_ds}
use dnsdata_js.Dnssec.Signer.Zone.{
  Entry, entry_of, records_canonical, records_canonical-All, sort_canonical, record_of,
}
use dnsdata_js.Dnssec.Signer.View.{ZoneView, view_of, no_view, is_occluded, is_cut}
use dnsdata_js.Dnssec.Signer.Chain.{build_nsec, chain_owners}
use dnsdata_js.Dnssec.Signer.Apex.{IsSignable}
use dnsdata_js.Dnssec.Signer.Links.{view_from-ok, handlers_of, chained}
use dnsdata_js.Verifier.Negative.{Zone, prove_nx_domain_with_nsec, prove_no_data_with_nsec}
use dnsdata_js.Verifier.Negative.Safety.{IsChain, AreSigned}
use dnsdata_js.Verifier.Signed.{
  IsPlain, build_nsec-chained, chained-IsChain, chained-nx_domain, chained-no_data,
}

-- Every record encodes.
abbrev pub Encodes : (ResourceRecord → Result Bytes) → List ResourceRecord → Type 0
Encodes canonical_rdata z = All (λ (r : ResourceRecord). (d : Bytes) × (canonical_rdata r ≡ ok d)) z

-- Every record that signing keeps is at or below the apex.
abbrev pub IsInside : List ResourceRecord → Text → Type 0
IsInside z apex =
    All
      (λ (r : ResourceRecord).
        is_generated_type r.type ≡ false → is_at_or_below r.label apex ≡ true)
      z

map_result-entries :
    (canonical_rdata : ResourceRecord → Result Bytes) (z : List ResourceRecord)
    → Encodes canonical_rdata z
    → (es : List Entry) × (map_result (entry_of canonical_rdata) z ≡ ok es)
map_result-entries canonical_rdata [] h = ([], refl)
map_result-entries canonical_rdata (r ∷ z) ((d, e), h) =
    let (es, k) = map_result-entries canonical_rdata z h in ((r, d) ∷ es, rw (e, k) refl)

view_of-ok :
    (canonical_rdata : ResourceRecord → Result Bytes) (z : List ResourceRecord) (apex : Text)
    → Encodes canonical_rdata z
    → IsInside z apex
    → (v : ZoneView) × (view_of canonical_rdata z apex ≡ ok v)
unfolding view_of records_canonical
view_of-ok canonical_rdata z apex h i =
    let (es, e) = map_result-entries canonical_rdata z h in
    let rrs : List ResourceRecord = map record_of (sort_canonical es) in
    let c : records_canonical canonical_rdata z ≡ ok rrs = (rw (e, records_canonical) refl) in
    let (v, k) =
      view_from-ok apex rrs no_view (records_canonical-All canonical_rdata _ z rrs i c) in
    (v, rw (c, view_of) k)

-- `build_nsec` returns for a zone whose records encode, lie at or below the apex and have names with
-- the final dot, without white space, an apex spelled in one way that owns a record, and 16-bit
-- types; what the NSEC handler reads from the records it returns is the chain of a zone: the owners
-- in canonical order, each with the next one and the last with the first.
pub build_nsec-IsChain :
    (canonical_rdata : ResourceRecord → Result Bytes) (z : List ResourceRecord) (apex : Text)
    (ttl : ℕ)
    → Encodes canonical_rdata z
    → IsInside z apex
    → IsSignable z apex
    → IsPlain z
    → (out : List ResourceRecord) × (build_nsec canonical_rdata z apex ttl ≡ ok out)
      × ((records : List (Text × Nsec)) × (handlers_of out ≡ ok records) × IsChain records)
build_nsec-IsChain canonical_rdata z apex ttl h i sig plain =
    let (v, e) = view_of-ok canonical_rdata z apex h i in
    let (out, b, k) = build_nsec-chained canonical_rdata z apex v e sig plain ttl in
    (
      out,
      b,
      (chained v apex (chain_owners v), k, chained-IsChain canonical_rdata z apex v e sig plain),
    )

module _ (canonical_rdata : ResourceRecord → Result Bytes) (z : List ResourceRecord) (apex : Text)
    (ttl : ℕ) (v : ZoneView) (out : List ResourceRecord) (records : List (Text × Nsec))
    (zone : Zone) (r : ResourceRecord) where
  records-chained :
      view_of canonical_rdata z apex ≡ ok v
      → IsSignable z apex
      → IsPlain z
      → build_nsec canonical_rdata z apex ttl ≡ ok out
      → handlers_of out ≡ ok records
      → AreSigned zone records
      → AreSigned zone (chained v apex (chain_owners v))
  records-chained e sig plain b k signed =
      let (o, c, l) = build_nsec-chained canonical_rdata z apex v e sig plain ttl in
      let same : records ≡ chained v apex (chain_owners v) =
        ok_injective (sym k ∙ ap handlers_of (ok_injective (sym b ∙ c)) ∙ l) in
      subst (λ (x : List (Text × Nsec)). AreSigned zone x) same signed

  -- The signer against the verifier: where the candidates that verify are what `build_nsec` made of
  -- a signable zone, `prove_nx_domain_with_nsec` has no proof for the name of a record of the zone
  -- that signing keeps and that does not lie below a delegation point.
  pub build_nsec-nx_domain :
      view_of canonical_rdata z apex ≡ ok v
      → IsSignable z apex
      → IsPlain z
      → build_nsec canonical_rdata z apex ttl ≡ ok out
      → handlers_of out ≡ ok records
      → AreSigned zone records
      → Among r z
      → is_generated_type r.type ≡ false
      → is_occluded v r.label ≡ false
      → prove_nx_domain_with_nsec zone r.label ≡ none
  build_nsec-nx_domain e sig plain b k signed m g o =
      chained-nx_domain canonical_rdata z apex v e sig plain r m g o zone
        (records-chained e sig plain b k signed)

  -- Under the same conditions `prove_no_data_with_nsec` has no proof that the record's type is absent
  -- at its name, unless the name is a delegation point and the type neither NS nor DS.
  pub build_nsec-no_data :
      view_of canonical_rdata z apex ≡ ok v
      → IsSignable z apex
      → IsPlain z
      → build_nsec canonical_rdata z apex ttl ≡ ok out
      → handlers_of out ≡ ok records
      → AreSigned zone records
      → Among r z
      → is_generated_type r.type ≡ false
      → is_occluded v r.label ≡ false
      → (not (is_cut v r.label) || (r.type == type_ns) || (r.type == type_ds)) ≡ true
      → prove_no_data_with_nsec zone r.label r.type ≡ none
  build_nsec-no_data e sig plain b k signed m g o shown =
      chained-no_data canonical_rdata z apex v e sig plain r m g o zone
        (records-chained e sig plain b k signed) shown
