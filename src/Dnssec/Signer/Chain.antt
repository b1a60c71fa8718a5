-- ===== src/Dnssec/Signer/Chain.antt =====
-- packages/core/src/dnssec/signer/nsec.ts: the NSEC chain that `build_nsec` makes of a zone.
use dnsdata_js.Base.{
  ℕ, min, get_or, Bool, ◌&&◌, ◌||◌, not, if◌then◌else◌, ◌==◌, Option, none, some, List, [], ◌∷◌,
  ◌++◌, all, is_empty, leb,
}
use dnsdata_js.Base.Text.{Text}
use dnsdata_js.Base.Slices.{Bytes}
use dnsdata_js.Base.Result.{Result, ok, ◌>>=◌}
use dnsdata_js.Types.RrType.{number_from}
use dnsdata_js.Base.Spaces.{trim, split_spaces}
use dnsdata_js.Dnssec.SignerNames.{same_name}
use dnsdata_js.Dnssec.Signer.{ResourceRecord, type_soa, type_nsec, class_in, default_ttl}
use dnsdata_js.Dnssec.Signer.View.{ZoneView, filter, is_occluded, bitmap_text, view_of, space}

unfoldable pub soa_at : List ResourceRecord → Text → Option ResourceRecord
unfolding same_name
soa_at [] apex = none
soa_at (rr ∷ rrs) apex =
    let rest = soa_at rrs apex in
    if (rr.type == type_soa) && same_name rr.label apex then some rr else rest

-- `fields.length > SOA_MINIMUM_FIELD ? fields[SOA_MINIMUM_FIELD] : ''`
abbrev pub soa_minimum : Text → Text
soa_minimum value = get_or (split_spaces (trim value)) 6 []

abbrev is_digit : ℕ → Bool
is_digit c = leb 48 c && leb c 57

unfoldable pub nsec_ttl_of : List ResourceRecord → Text → ℕ
unfolding soa_at split_spaces trim number_from
nsec_ttl_of z apex = elim (soa_at z apex) [
  | none ↦ default_ttl
  | some soa ↦
      let minimum = soa_minimum soa.value in
      if is_empty minimum || not (all is_digit minimum)
      then soa.ttl
      else min soa.ttl (number_from 0 minimum)
]

unfoldable pub chain_ttl : List ResourceRecord → Text → ℕ → ℕ
unfolding nsec_ttl_of
chain_ttl z apex ttl = if ttl == 0 then nsec_ttl_of z apex else ttl

abbrev pub nsec_record : ZoneView → ℕ → Text → Text → ResourceRecord
nsec_record v ttl owner next = record {
  label = owner;
  ttl = ttl;
  rrclass = class_in;
  type = type_nsec;
  value = next ++ space ++ bitmap_text v owner;
  received_rdata = none;
}

-- One record for each owner, with the next owner in it, and the apex in the last.
unfoldable pub nsec_chain : ZoneView → ℕ → Text → List Text → List ResourceRecord
unfolding bitmap_text
nsec_chain v ttl apex [] = []
nsec_chain v ttl apex (owner ∷ []) = nsec_record v ttl owner apex ∷ []
nsec_chain v ttl apex (owner ∷ next ∷ owners) =
    nsec_record v ttl owner next ∷ nsec_chain v ttl apex (next ∷ owners)

unfoldable pub chain_owners : ZoneView → List Text
unfolding filter is_occluded
chain_owners v = filter (λ o. not (is_occluded v o)) v.owners

unfoldable pub build_nsec :
    (ResourceRecord → Result Bytes) → List ResourceRecord → Text → ℕ → Result (List ResourceRecord)
unfolding view_of chain_ttl nsec_chain chain_owners
build_nsec canonical_rdata z apex ttl = view_of canonical_rdata z apex >>= λ v.
    ok (nsec_chain v (chain_ttl z apex ttl) apex (chain_owners v))
