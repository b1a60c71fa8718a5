-- ===== src/Verifier/Negative/Hashed.antt =====
-- packages/core/src/verifier/leaf_negative.ts and negative.ts: the proofs from NSEC3 records, and
-- the order in which both kinds are tried.
use dnsdata_js.Base.{ℕ, ◌&&◌, Option, none, some}
use dnsdata_js.Base.Text.{Text, text_eq}
use dnsdata_js.Base.Slices.{Bytes}
use dnsdata_js.Dnssec.Nsec.{proves_no_data, proves_no_ds}
use dnsdata_js.Dnssec.Nsec3.{covers_hash, has_opt_out}
use dnsdata_js.Verifier.Names.{wildcard_at}
use dnsdata_js.Verifier.Negative.{
  Zone, Evidence, nsec3_without_qtype, nsec3_wildcard_without_qtype, nsec3_denies_wildcard,
  nsec3_without_ds, nsec3_opt_out, of_hash, nsec3_matches, find_nsec3, find_covering_nsec3,
  type_nsec3, closest_encloser_proof_nsec3, Nsec3CeProof, prove_no_data_with_nsec,
  prove_nx_domain_with_nsec, prove_no_ds_with_nsec,
}

-- `a ? a : b`
abbrev pub or_proof : Option Evidence → Option Evidence → Option Evidence
or_proof (some e) other = some e
or_proof none other = other

module _ (sha1 : Bytes → Bytes) where
  -- The end of `prove_no_data_with_nsec3`: the wildcard below the closest encloser.
  unfoldable pub wildcard_no_data_nsec3 : Zone → ℕ → Option Nsec3CeProof → Option Evidence
  unfolding find_nsec3 nsec3_matches wildcard_at proves_no_data
  wildcard_no_data_nsec3 z qtype none = none
  wildcard_no_data_nsec3 z qtype (some p) =
      elim (find_nsec3
        (λ c.
          nsec3_matches sha1 z c (wildcard_at p.ce) && proves_no_data c.nsec3.covered_types qtype)
        z.nsec3_candidates) [
          | none ↦ none
          | some c ↦
              some
                (nsec3_wildcard_without_qtype p.ce_owner p.ce p.nc_owner c.owner (wildcard_at p.ce))
        ]

  unfoldable pub prove_no_data_with_nsec3 : Zone → Text → ℕ → Option Evidence
  unfolding find_nsec3 nsec3_matches proves_no_data wildcard_no_data_nsec3
      closest_encloser_proof_nsec3
  prove_no_data_with_nsec3 z qname qtype =
      elim (find_nsec3
        (λ c. nsec3_matches sha1 z c qname && proves_no_data c.nsec3.covered_types qtype)
        z.nsec3_candidates) [
          | some c ↦ some (nsec3_without_qtype c.owner)
          | none ↦ wildcard_no_data_nsec3 z qtype (closest_encloser_proof_nsec3 sha1 z qname)
        ]

  unfoldable pub prove_nx_domain_with_nsec3 : Zone → Text → Option Evidence
  unfolding closest_encloser_proof_nsec3 find_covering_nsec3 wildcard_at
  prove_nx_domain_with_nsec3 z qname = elim (closest_encloser_proof_nsec3 sha1 z qname) [
    | none ↦ none
    | some p ↦ elim (find_covering_nsec3 sha1 z (wildcard_at p.ce)) [
      | none ↦ none
      | some c ↦ some (nsec3_denies_wildcard p.ce_owner p.ce p.nc_owner c.owner (wildcard_at p.ce))
    ]
  ]

  -- The second loop of `prove_no_ds_with_nsec3`: a covering record with the opt-out flag.
  unfoldable pub opt_out_no_ds : Zone → Text → Option Evidence
  unfolding find_nsec3 has_opt_out covers_hash
  opt_out_no_ds parent child_name =
      elim (find_nsec3
        (λ c.
          has_opt_out c.nsec3
          && of_hash sha1 c child_name (λ h. covers_hash c.nsec3 c.owner_hash h)
          && parent.verify_rrset c.owner type_nsec3)
        parent.nsec3_candidates) [ none ↦ none | some c ↦ some (nsec3_opt_out c.owner) ]

  unfoldable pub prove_no_ds_with_nsec3 : Zone → Text → Option Evidence
  unfolding find_nsec3 text_eq proves_no_ds opt_out_no_ds
  prove_no_ds_with_nsec3 parent child_name =
      elim (find_nsec3
        (λ c.
          of_hash sha1 c child_name (λ h. text_eq h c.owner_hash)
          && proves_no_ds c.nsec3.covered_types
          && parent.verify_rrset c.owner type_nsec3)
        parent.nsec3_candidates) [
          | some c ↦ some (nsec3_without_ds c.owner)
          | none ↦ opt_out_no_ds parent child_name
        ]

  unfoldable pub prove_no_data : Zone → Text → ℕ → Option Evidence
  unfolding prove_no_data_with_nsec prove_no_data_with_nsec3
  prove_no_data z qname qtype =
      or_proof (prove_no_data_with_nsec z qname qtype) (prove_no_data_with_nsec3 z qname qtype)

  unfoldable pub prove_nx_domain : Zone → Text → Option Evidence
  unfolding prove_nx_domain_with_nsec prove_nx_domain_with_nsec3
  prove_nx_domain z qname =
      or_proof (prove_nx_domain_with_nsec z qname) (prove_nx_domain_with_nsec3 z qname)

  unfoldable pub prove_no_ds : Zone → Text → Option Evidence
  unfolding prove_no_ds_with_nsec prove_no_ds_with_nsec3
  prove_no_ds parent child_name =
      or_proof (prove_no_ds_with_nsec parent child_name) (prove_no_ds_with_nsec3 parent child_name)
