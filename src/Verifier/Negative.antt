-- ===== src/Verifier/Negative.antt =====
-- packages/core/src/verifier/leaf_negative.ts and negative.ts: proofs that a record or a name is
-- absent. A description in words is a value of `Evidence` with the same names in it.
use dnsdata_js.Base.{
  ℕ, Bool, true, false, ◌&&◌, ◌||◌, not, if◌then◌else◌, Option, none, some, List, [], ◌∷◌, ◌==◌,
}
use dnsdata_js.Base.Text.{Text, text_eq}
use dnsdata_js.Base.Slices.{Bytes}
use dnsdata_js.Base.Result.{Result, ok, err, stuck}
use dnsdata_js.Dnssec.Canonical.{equal_canonical_names}
use dnsdata_js.Dnssec.Nsec.{Nsec, matches_name, covers_name, proves_no_data, proves_no_ds}
use dnsdata_js.Dnssec.Nsec3.{Nsec3, compute_hash, covers_hash, has_opt_out}
use dnsdata_js.Verifier.Names.{
  wildcard_at, is_strict_subdomain, closest_encloser_nsec, ancestors_of, next_closer_name,
}
pub mod Search
pub mod Safety
pub mod Hashed
pub mod Proofs

pub record NsecCandidate : Type 0 where
  pub owner : Text
  pub nsec : Nsec

pub record Nsec3Candidate : Type 0 where
  pub owner : Text
  pub owner_hash : Bytes
  pub nsec3 : Nsec3

abbrev pub type_nsec : ℕ
type_nsec = 47

abbrev pub type_nsec3 : ℕ
type_nsec3 = 50

-- What the proofs take from a zone: its candidates, and whether an RRset verifies under its keys. A
-- check that throws, which ends the proof with the exception, is left out.
pub record Zone : Type 0 where
  pub nsec_candidates : List NsecCandidate
  pub nsec3_candidates : List Nsec3Candidate
  pub verify_rrset : Text → ℕ → Bool

pub data Evidence : Type 0 where
  nsec_without_qtype nsec_without_ds : Text → Evidence
  nsec_empty_non_terminal : Text → Text → Evidence
  nsec_wildcard_without_qtype nsec_denies_wildcard : Text → Text → Text → Evidence
  nsec3_without_qtype nsec3_without_ds nsec3_opt_out : Text → Evidence
  nsec3_wildcard_without_qtype nsec3_denies_wildcard : Text → Text → Text → Text → Text → Evidence

unfoldable pub find_nsec : Zone → (NsecCandidate → Bool) → List NsecCandidate → Option NsecCandidate
find_nsec z pred [] = none
find_nsec z pred (c ∷ cands) =
    let rest = find_nsec z pred cands in
    if pred c && z.verify_rrset c.owner type_nsec then some c else rest

abbrev pub asserts_without : Text → ℕ → NsecCandidate → Bool
asserts_without name qtype c =
    matches_name c.owner name && proves_no_data c.nsec.covered_types qtype

abbrev pub denies : Text → NsecCandidate → Bool
denies name c = covers_name c.nsec c.owner name

-- The end of `prove_no_data_with_nsec`: the wildcard below the closest encloser.
unfoldable pub wildcard_no_data : Zone → Text → ℕ → NsecCandidate → Option Evidence
unfolding find_nsec text_eq closest_encloser_nsec wildcard_at
wildcard_no_data z qname qtype covering =
    let ce = closest_encloser_nsec qname covering.owner covering.nsec.next_domain in
    let wildcard = wildcard_at ce in
    if text_eq ce []
    then none
    else elim (find_nsec z (asserts_without wildcard qtype) z.nsec_candidates) [
      | none ↦ none
      | some wc ↦ some (nsec_wildcard_without_qtype covering.owner wc.owner wildcard)
    ]

unfoldable pub prove_no_data_with_nsec : Zone → Text → ℕ → Option Evidence
unfolding find_nsec is_strict_subdomain wildcard_no_data
prove_no_data_with_nsec z qname qtype =
    elim (find_nsec z (asserts_without qname qtype) z.nsec_candidates) [
      | some match ↦ some (nsec_without_qtype match.owner)
      | none ↦ elim (find_nsec z (denies qname) z.nsec_candidates) [
        | none ↦ none
        | some covering ↦
            if is_strict_subdomain covering.nsec.next_domain qname
            then some (nsec_empty_non_terminal covering.owner covering.nsec.next_domain)
            else wildcard_no_data z qname qtype covering
      ]
    ]

-- The end of `prove_nx_domain_with_nsec`, with the covering record found.
unfoldable pub wildcard_denied : Zone → Text → NsecCandidate → Option Evidence
unfolding find_nsec is_strict_subdomain closest_encloser_nsec text_eq equal_canonical_names
    wildcard_at
wildcard_denied z qname covering =
    let ce = closest_encloser_nsec qname covering.owner covering.nsec.next_domain in
    let wildcard = wildcard_at ce in
    if is_strict_subdomain covering.nsec.next_domain qname
    then none
    else if text_eq ce [] || equal_canonical_names ce qname
    then none
    else elim (find_nsec z (denies wildcard) z.nsec_candidates) [
      | none ↦ none
      | some denial ↦ some (nsec_denies_wildcard covering.owner denial.owner wildcard)
    ]

unfoldable pub prove_nx_domain_with_nsec : Zone → Text → Option Evidence
unfolding find_nsec wildcard_denied
prove_nx_domain_with_nsec z qname = elim (find_nsec z (denies qname) z.nsec_candidates) [
  | none ↦ none
  | some covering ↦ wildcard_denied z qname covering
]

unfoldable pub prove_no_ds_with_nsec : Zone → Text → Option Evidence
unfolding find_nsec
prove_no_ds_with_nsec parent child_name =
    elim (find_nsec parent
      (λ c. matches_name c.owner child_name && proves_no_ds c.nsec.covered_types)
      parent.nsec_candidates) [ none ↦ none | some c ↦ some (nsec_without_ds c.owner) ]

pub record Nsec3CeProof : Type 0 where
  pub ce : Text
  pub ce_owner : Text
  pub nc : Text
  pub nc_owner : Text

-- The first candidate that passes a test.
unfoldable pub find_nsec3 : (Nsec3Candidate → Bool) → List Nsec3Candidate → Option Nsec3Candidate
find_nsec3 pred [] = none
find_nsec3 pred (c ∷ cands) = let rest = find_nsec3 pred cands in if pred c then some c else rest

module _ (sha1 : Bytes → Bytes) where
  -- What `f` says of the hash of the name under the candidate's parameters; false where it throws.
  abbrev pub of_hash : Nsec3Candidate → Text → (Bytes → Bool) → Bool
  of_hash c name f =
      elim (compute_hash sha1 name c.nsec3.hash_algorithm c.nsec3.iterations c.nsec3.salt) [
        | ok h ↦ f h
        | err e ↦ false
        | stuck ↦ false
      ]

  -- `bytes_equal` of negative.ts is `text_eq`: equal lengths and equal elements.
  unfoldable pub nsec3_matches : Zone → Nsec3Candidate → Text → Bool
  unfolding text_eq
  nsec3_matches z c name =
      of_hash c name (λ h. text_eq h c.owner_hash) && z.verify_rrset c.owner type_nsec3

  unfoldable pub find_covering_nsec3 : Zone → Text → Option Nsec3Candidate
  unfolding find_nsec3
  find_covering_nsec3 z target =
      find_nsec3
        (λ c.
          of_hash c target (λ h. covers_hash c.nsec3 c.owner_hash h)
          && z.verify_rrset c.owner type_nsec3)
        z.nsec3_candidates

  -- The end of `closest_encloser_proof_nsec3`, with the matching record of an ancestor found.
  unfoldable pub proof_at : Zone → Text → Text → Nsec3Candidate → Option Nsec3CeProof
  unfolding equal_canonical_names next_closer_name text_eq find_covering_nsec3
  proof_at z qname a match =
      let nc = next_closer_name qname a in
      if equal_canonical_names a qname || text_eq nc []
      then none
      else elim (find_covering_nsec3 z nc) [
        | none ↦ none
        | some c ↦ some (record { ce = a; ce_owner = match.owner; nc = nc; nc_owner = c.owner })
      ]

  unfoldable pub proof_among : Zone → Text → List Text → Option Nsec3CeProof
  unfolding find_nsec3 nsec3_matches proof_at
  proof_among z qname [] = none
  proof_among z qname (a ∷ ancs) =
      let rest = proof_among z qname ancs in
      elim (find_nsec3 (λ c. nsec3_matches z c a) z.nsec3_candidates) [
        | none ↦ rest
        | some match ↦ proof_at z qname a match
      ]

  unfoldable pub closest_encloser_proof_nsec3 : Zone → Text → Option Nsec3CeProof
  unfolding proof_among ancestors_of
  closest_encloser_proof_nsec3 z qname = proof_among z qname (ancestors_of qname)
