-- ===== src/Tests/Signing.antt =====
-- packages/core/src/dnssec/signer on a zone with records at a., b.a. and, below the delegation
-- point c.a., at d.c.a.
use dnsdata_js.Base.{ℕ, true, false, none, not, ◌||◌, ◌==◌, List, [], ◌∷◌, ◌≡◌, refl, arith}
use dnsdata_js.Base.Text.{Text, codes}
use dnsdata_js.Base.Slices.{Bytes}
use dnsdata_js.Base.Among.{here, there}
use dnsdata_js.Base.Result.{Result, ok}
use dnsdata_js.Dnssec.Canonical.{compare_canonical_names}
use dnsdata_js.Dnssec.Nsec.{Nsec}
use dnsdata_js.Dnssec.Nsec.RoundTrip.{nsec_of}
use dnsdata_js.Dnssec.Signer.{ResourceRecord, is_generated_type}
use dnsdata_js.Dnssec.SignerNames.{is_at_or_below}
use dnsdata_js.Dnssec.Signer.View.{ZoneView, view_of, is_occluded, is_cut}
use dnsdata_js.Dnssec.Signer.Chain.{build_nsec}
use dnsdata_js.Dnssec.Signer.Apex.{IsSignable}
use dnsdata_js.Dnssec.Signer.Links.{handlers_of}
use dnsdata_js.Verifier.Signed.{IsPlain}
use dnsdata_js.Verifier.Signed.Absence.{
  Encodes, IsInside, build_nsec-IsChain, build_nsec-nx_domain, build_nsec-no_data,
}
use dnsdata_js.Verifier.Negative.{Zone, prove_nx_domain_with_nsec, prove_no_data_with_nsec}
use dnsdata_js.Verifier.Negative.Safety.{IsChain, AreSigned}

abbrev rr : Text → ℕ → Text → ResourceRecord
rr label type value = record {
  label = label;
  ttl = 60;
  rrclass = 1;
  type = type;
  value = value;
  received_rdata = none;
}

abbrev b_record : ResourceRecord
b_record = rr (codes "b.a.") 1 (codes "192.0.2.1")

abbrev soa_record : ResourceRecord
soa_record = rr (codes "a.") 6 (codes "ns.a. root.a. 1 2 3 4 30")

abbrev records : List ResourceRecord
records =
    rr (codes "d.c.a.") 1 (codes "192.0.2.2")
    ∷ b_record
    ∷ soa_record
    ∷ rr (codes "c.a.") 2 (codes "d.c.a.")
    ∷ []

abbrev no_rdata : ResourceRecord → Result Bytes
no_rdata r = ok []

abbrev records_view : ZoneView
records_view = record {
  owners = codes "a." ∷ codes "b.a." ∷ codes "c.a." ∷ codes "d.c.a." ∷ [];
  types =
      (codes "a.", 6 ∷ [])
      ∷ (codes "b.a.", 1 ∷ [])
      ∷ (codes "c.a.", 2 ∷ [])
      ∷ (codes "d.c.a.", 1 ∷ [])
      ∷ [];
  cuts = codes "c.a." ∷ [];
}

records-view : view_of no_rdata records (codes "a.") ≡ ok records_view
unfolding view_of
records-view = refl

abbrev chain_records : List ResourceRecord
chain_records =
    record (rr (codes "a.") 47 (codes "b.a. SOA RRSIG NSEC")) { ttl = 30 }
    ∷ record (rr (codes "b.a.") 47 (codes "c.a. A RRSIG NSEC")) { ttl = 30 }
    ∷ record (rr (codes "c.a.") 47 (codes "a. NS RRSIG NSEC")) { ttl = 30 }
    ∷ []

records-chain : build_nsec no_rdata records (codes "a.") 0 ≡ ok chain_records
unfolding build_nsec
records-chain = refl

abbrev chain_handlers : List (Text × Nsec)
chain_handlers =
    (codes "a.", nsec_of (codes "b.a.") (6 ∷ 46 ∷ 47 ∷ []))
    ∷ (codes "b.a.", nsec_of (codes "c.a.") (1 ∷ 46 ∷ 47 ∷ []))
    ∷ (codes "c.a.", nsec_of (codes "a.") (2 ∷ 46 ∷ 47 ∷ []))
    ∷ []

chain-handlers : handlers_of chain_records ≡ ok chain_handlers
unfolding handlers_of
chain-handlers = refl

records-IsSignable : IsSignable records (codes "a.")
unfolding compare_canonical_names is_generated_type
records-IsSignable = record {
  fqdn = (refl, (refl, (refl, (refl, tt))));
  spelled = (λ h. absurd (cc), (λ h. absurd (cc), (λ h. refl, (λ h. absurd (cc), tt))));
  soa = soa_record;
  soa_in = there (there here);
  soa_at = refl;
  soa_kept = refl;
}

records-IsPlain : IsPlain records
records-IsPlain = record {
  words = (refl, (refl, (refl, (refl, tt))));
  types = (omega arith, (omega arith, (omega arith, (omega arith, tt))));
}

records-IsInside : IsInside records (codes "a.")
unfolding is_at_or_below
records-IsInside = (λ h. refl, (λ h. refl, (λ h. refl, (λ h. refl, tt))))

records-Encodes : Encodes no_rdata records
records-Encodes = (([], refl), (([], refl), (([], refl), (([], refl), tt))))

build_nsec-IsChain_example :
    (out : List ResourceRecord) × (build_nsec no_rdata records (codes "a.") 0 ≡ ok out)
    × ((handlers : List (Text × Nsec)) × (handlers_of out ≡ ok handlers) × IsChain handlers)
build_nsec-IsChain_example =
    build_nsec-IsChain no_rdata records (codes "a.") 0 records-Encodes records-IsInside
      records-IsSignable records-IsPlain

-- The zone with the records of the chain as its candidates.
abbrev signed_zone : Zone
signed_zone = record {
  nsec_candidates =
      record { owner = codes "a."; nsec = nsec_of (codes "b.a.") (6 ∷ 46 ∷ 47 ∷ []) }
      ∷ record { owner = codes "b.a."; nsec = nsec_of (codes "c.a.") (1 ∷ 46 ∷ 47 ∷ []) }
      ∷ [];
  nsec3_candidates = [];
  verify_rrset = λ owner type. true;
}

signed_zone-AreSigned : AreSigned signed_zone chain_handlers
signed_zone-AreSigned _ here v = here
signed_zone-AreSigned _ (there here) v = there here
signed_zone-AreSigned o (there (there m)) v = elim m [ ]

b-not_occluded : is_occluded records_view (codes "b.a.") ≡ false
unfolding is_occluded
b-not_occluded = refl

build_nsec-nx_domain_example : prove_nx_domain_with_nsec signed_zone (codes "b.a.") ≡ none
unfolding is_generated_type
build_nsec-nx_domain_example =
    build_nsec-nx_domain no_rdata records (codes "a.") 0 records_view chain_records chain_handlers
      signed_zone b_record records-view records-IsSignable records-IsPlain records-chain
      chain-handlers signed_zone-AreSigned (there here) refl b-not_occluded

b-not_cut : (not (is_cut records_view (codes "b.a.")) || (1 == 2) || (1 == 43)) ≡ true
unfolding is_cut
b-not_cut = refl

build_nsec-no_data_example : prove_no_data_with_nsec signed_zone (codes "b.a.") 1 ≡ none
unfolding is_generated_type
build_nsec-no_data_example =
    build_nsec-no_data no_rdata records (codes "a.") 0 records_view chain_records chain_handlers
      signed_zone b_record records-view records-IsSignable records-IsPlain records-chain
      chain-handlers signed_zone-AreSigned (there here) refl b-not_occluded b-not_cut
