-- ===== src/Verifier/Negative/Safety.antt =====
-- packages/core/src/verifier/leaf_negative.ts: the NSEC proofs are sound for a zone whose records
-- form the chain of RFC 4034.
use dnsdata_js.Base.{
  ℕ, ◌+◌, ◌≤◌, true, false, none, List, [], ◌∷◌, ◌≡◌, refl, inl, inr, ◌⊎◌, Option-cases, Bool-cases,
  ◌==◌, ==_iff, sym, ap, ◌∙◌, arith,
}
use dnsdata_js.Base.Text.{Text}
use dnsdata_js.Dnssec.Canonical.{compare_canonical_names}
use dnsdata_js.Dnssec.Denial.Chain.{links, Sorted}
use dnsdata_js.Dnssec.Denial.Count.{one_if}
use dnsdata_js.Dnssec.Nsec.{
  Nsec, matches_name, covers_name, covers_type, proves_no_data, type_cname,
}
use dnsdata_js.Dnssec.Nsec.Laws.{denying, owner_and_next, denying-links}
use dnsdata_js.Verifier.Negative.{
  Zone, NsecCandidate, find_nsec, type_nsec, denies, asserts_without, prove_nx_domain_with_nsec,
  prove_no_data_with_nsec,
}
use dnsdata_js.Base.Among.{Among, here, there}
use dnsdata_js.Verifier.Negative.Search.{find_nsec-some, &&-true}

-- The records of a zone: its owners in canonical order, each with the next one as the next domain
-- name and the last with the first.
pub record IsChain (records : List (Text × Nsec)) : Type 0 where
  pub first : Text
  pub rest : List Text
  pub sorted : Sorted compare_canonical_names first rest
  pub linked : owner_and_next records ≡ links compare_canonical_names first first rest

-- The candidates that verify under the keys of the zone are records of the zone.
abbrev pub AreSigned : Zone → List (Text × Nsec) → Type 0
AreSigned z records =
    (c : NsecCandidate)
    → Among c z.nsec_candidates
    → z.verify_rrset c.owner type_nsec ≡ true
    → Among (c.owner, c.nsec) records

-- How many records match the name, and how many cover it.
matching : Text → List (Text × Nsec) → ℕ
unfolding one_if
matching qname [] = 0
matching qname ((owner, n) ∷ rest) = one_if (matches_name owner qname) + matching qname rest

covering : Text → List (Text × Nsec) → ℕ
unfolding one_if
covering qname [] = 0
covering qname ((owner, n) ∷ rest) = one_if (covers_name n owner qname) + covering qname rest

denying-split :
    (qname : Text) (records : List (Text × Nsec))
    → denying qname records ≡ matching qname records + covering qname records
unfolding denying matching covering
denying-split qname [] = refl
denying-split qname ((owner, n) ∷ rest) = omega (arith, denying-split qname rest)

matching-Among :
    (qname owner : Text) (n : Nsec) (records : List (Text × Nsec))
    → Among (owner, n) records
    → matches_name owner qname ≡ true
    → 1 ≤ matching qname records
unfolding matching one_if
matching-Among qname owner n _ here h = rw h (omega arith)
matching-Among qname owner n ((o, k) ∷ rest) (there m) h =
    omega (arith, matching-Among qname owner n rest m h)

covering-Among :
    (qname owner : Text) (n : Nsec) (records : List (Text × Nsec))
    → Among (owner, n) records
    → covers_name n owner qname ≡ true
    → 1 ≤ covering qname records
unfolding covering one_if
covering-Among qname owner n _ here h = rw h (omega arith)
covering-Among qname owner n ((o, k) ∷ rest) (there m) h =
    omega (arith, covering-Among qname owner n rest m h)

-- In the chain of a zone, a name that one record matches is covered by none.
not_covered :
    (qname owner : Text) (n : Nsec) (records : List (Text × Nsec))
    → IsChain records
    → Among (owner, n) records
    → matches_name owner qname ≡ true
    → covering qname records ≡ 0
not_covered qname owner n records chain m h = omega (
  arith,
  denying-split qname records,
  matching-Among qname owner n records m h,
  denying-links qname chain.first chain.rest records chain.sorted chain.linked,
)

find_nsec-denies :
    (z : Zone) (qname owner : Text) (n : Nsec) (records : List (Text × Nsec))
    → IsChain records
    → AreSigned z records
    → Among (owner, n) records
    → matches_name owner qname ≡ true
    → find_nsec z (denies qname) z.nsec_candidates ≡ none
find_nsec-denies z qname owner n records chain signed m h =
    elim (Option-cases (find_nsec z (denies qname) z.nsec_candidates)) [
      | inl e ↦ e
      | inr (c, e) ↦
          let (p, (v, k)) = find_nsec-some z (denies qname) z.nsec_candidates c e in
          absurd (
            omega (
              arith,
              not_covered qname owner n records chain m h,
              covering-Among qname c.owner c.nsec records (signed c k v) p,
            ))
    ]

-- No false NXDOMAIN: where the verified candidates are records of the zone, whose records form its
-- chain, `prove_nx_domain_with_nsec` has no proof for a name that owns a record of the chain.
pub prove_nx_domain_with_nsec-owner :
    (z : Zone) (qname owner : Text) (n : Nsec) (records : List (Text × Nsec))
    → IsChain records
    → AreSigned z records
    → Among (owner, n) records
    → matches_name owner qname ≡ true
    → prove_nx_domain_with_nsec z qname ≡ none
unfolding prove_nx_domain_with_nsec
prove_nx_domain_with_nsec-owner z qname owner n records chain signed m h =
    rw (find_nsec-denies z qname owner n records chain signed m h, prove_nx_domain_with_nsec) refl

Among-covers_type :
    (type : ℕ) (covered : List ℕ) → Among type covered → covers_type covered type ≡ true
unfolding covers_type
Among-covers_type type _ here = ground arith
Among-covers_type type (t ∷ ts) (there m) =
    let h = Among-covers_type type ts m in
    elim (Bool-cases (t == type)) [ inl e ↦ rw e refl | inr n ↦ rw n h ]

-- A type that is listed, or an alias, is no NODATA.
listed-proves_no_data :
    (covered : List ℕ) (qtype : ℕ)
    → Among qtype covered ⊎ Among type_cname covered
    → proves_no_data covered qtype ≡ false
unfolding proves_no_data
listed-proves_no_data covered qtype (inl m) =
    let h = Among-covers_type qtype covered m in
    elim (Bool-cases (qtype == type_cname)) [
      | inl t ↦
          let e : qtype ≡ type_cname = (==_iff qtype type_cname).0 t in
          rw (t, sym (ap (covers_type covered) e) ∙ h) refl
      | inr f ↦ rw (f, h) refl
    ]
listed-proves_no_data covered qtype (inr m) =
    let h = Among-covers_type type_cname covered m in
    elim (Bool-cases (qtype == type_cname)) [
      | inl t ↦ rw (t, h) refl
      | inr f ↦ rw (f, h) (ground arith)
    ]

-- No false NODATA: under the same conditions, `prove_no_data_with_nsec` has no proof for a name and
-- type where every record of the zone that matches the name lists the type, or the alias type CNAME.
pub prove_no_data_with_nsec-present :
    (z : Zone) (qname owner : Text) (qtype : ℕ) (n : Nsec) (records : List (Text × Nsec))
    → IsChain records
    → AreSigned z records
    → Among (owner, n) records
    → matches_name owner qname ≡ true
    → ((o : Text) (k : Nsec)
        → Among (o, k) records
        → matches_name o qname ≡ true
        → Among qtype k.covered_types ⊎ Among type_cname k.covered_types)
    → prove_no_data_with_nsec z qname qtype ≡ none
unfolding prove_no_data_with_nsec
prove_no_data_with_nsec-present z qname owner qtype n records chain signed m h present =
    elim (Option-cases (find_nsec z (asserts_without qname qtype) z.nsec_candidates)) [
      | inl e ↦
          rw (e, prove_no_data_with_nsec, find_nsec-denies z qname owner n records chain signed m h)
            refl
      | inr (c, e) ↦
          let (p, (v, k)) = find_nsec-some z (asserts_without qname qtype) z.nsec_candidates c e in
          let (a, b) =
            &&-true (matches_name c.owner qname) (proves_no_data c.nsec.covered_types qtype) p in
          let f =
            listed-proves_no_data c.nsec.covered_types qtype
              (present c.owner c.nsec (signed c k v) a) in
          absurd (cc)
    ]
