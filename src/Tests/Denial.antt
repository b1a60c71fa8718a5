-- ===== src/Tests/Denial.antt =====
-- packages/core/src/dnssec and verifier on a zone with the owners a., b.a. and c.a.
use dnsdata_js.Base.{ℕ, true, none, some, List, [], ◌∷◌, ◌≡◌, refl, ◌↔◌, inl, ◌⊎◌}
use dnsdata_js.Base.Text.{Text, codes}
use dnsdata_js.Base.Slices.{Bytes}
use dnsdata_js.Base.Order.{less, equal}
use dnsdata_js.Verifier.Names.Encloser.{HasLabels}
use dnsdata_js.Dnssec.Canonical.{canonical_labels, compare_canonical_names, equal_canonical_names}
use dnsdata_js.Dnssec.Canonical.Labels.{equal_canonical_names-compare}
use dnsdata_js.Dnssec.SignerNames.{same_name, same_name-compare}
use dnsdata_js.Dnssec.Denial.Chain.{links}
use dnsdata_js.Dnssec.Nsec.{Nsec, covers_name, matches_name}
use dnsdata_js.Dnssec.Nsec.Laws.{denying, owner_and_next, denying-links}
use dnsdata_js.Dnssec.Nsec3.{Nsec3, bytes_compare}
use dnsdata_js.Dnssec.Nsec3.Laws.{denying_hash, hash_and_next, denying_hash-links}
use dnsdata_js.Verifier.Negative.{Zone, prove_nx_domain_with_nsec, prove_no_data_with_nsec}
use dnsdata_js.Verifier.Negative.{Evidence, nsec_denies_wildcard}
use dnsdata_js.Verifier.Negative.Proofs.{NxDomainProof, prove_nx_domain_with_nsec-NxDomainProof}
use dnsdata_js.Base.Among.{Among, here, there}
use dnsdata_js.Verifier.Negative.Safety.{
  IsChain, AreSigned, prove_nx_domain_with_nsec-owner, prove_no_data_with_nsec-present,
}

abbrev record_to : Text → List ℕ → Nsec
record_to next types = record { next_domain = next; type_bitmap = []; covered_types = types }

abbrev a : Text
a = codes "a."

abbrev b : Text
b = codes "b.a."

abbrev c : Text
c = codes "C.a."

abbrev records : List (Text × Nsec)
records =
    (a, record_to b (2 ∷ 6 ∷ [])) ∷ (b, record_to c (1 ∷ [])) ∷ (c, record_to a (1 ∷ 15 ∷ [])) ∷ []

a-b : compare_canonical_names a b ≡ less
unfolding compare_canonical_names
a-b = refl

b-c : compare_canonical_names b c ≡ less
unfolding compare_canonical_names
b-c = refl

records-linked : owner_and_next records ≡ links compare_canonical_names a a (b ∷ c ∷ [])
unfolding owner_and_next links
records-linked = refl

denying-links_example : denying (codes "bb.a.") records ≡ 1
denying-links_example =
    denying-links (codes "bb.a.") a (b ∷ c ∷ []) records (a-b, (b-c, tt)) records-linked

records-IsChain : IsChain records
records-IsChain = record {
  first = a;
  rest = b ∷ c ∷ [];
  sorted = (a-b, (b-c, tt));
  linked = records-linked;
}

-- The zone with the last record as its candidate.
abbrev zone : Zone
zone = record {
  nsec_candidates = record { owner = c; nsec = record_to a (1 ∷ 15 ∷ []) } ∷ [];
  nsec3_candidates = [];
  verify_rrset = λ owner type. true;
}

zone-AreSigned : AreSigned zone records
zone-AreSigned _ here v = there (there here)
zone-AreSigned o (there m) v = elim m [ ]

c-matches : matches_name c (codes "c.A") ≡ true
unfolding matches_name
c-matches = refl

prove_nx_domain_with_nsec-owner_example : prove_nx_domain_with_nsec zone (codes "c.A") ≡ none
prove_nx_domain_with_nsec-owner_example =
    prove_nx_domain_with_nsec-owner zone (codes "c.A") c (record_to a (1 ∷ 15 ∷ [])) records
      records-IsChain zone-AreSigned (there (there here)) c-matches

c-has_mx :
    (o : Text) (k : Nsec)
    → Among (o, k) records
    → matches_name o (codes "c.A") ≡ true
    → Among 15 k.covered_types ⊎ Among 5 k.covered_types
unfolding matches_name
c-has_mx _ _ here h = cc
c-has_mx _ _ (there here) h = cc
c-has_mx _ _ (there (there here)) h = inl (there here)
c-has_mx o k (there (there (there m))) h = elim m [ ]

prove_no_data_with_nsec-present_example : prove_no_data_with_nsec zone (codes "c.A") 15 ≡ none
prove_no_data_with_nsec-present_example =
    prove_no_data_with_nsec-present zone (codes "c.A") c 15 (record_to a (1 ∷ 15 ∷ [])) records
      records-IsChain zone-AreSigned (there (there here)) c-matches c-has_mx

equal_canonical_names-compare_example :
    (equal_canonical_names c (codes "c.A") ≡ true)
    ↔ (compare_canonical_names c (codes "c.A") ≡ equal)
equal_canonical_names-compare_example = equal_canonical_names-compare c (codes "c.A")

abbrev hashed : Bytes → Nsec3
hashed next = record {
  hash_algorithm = 1;
  flags = 0;
  iterations = 0;
  salt = [];
  next_hashed_owner = next;
  type_bitmap = [];
  covered_types = [];
}

hashes-ordered : bytes_compare (1 ∷ []) (9 ∷ []) ≡ less
unfolding bytes_compare
hashes-ordered = refl

hashes-linked :
    hash_and_next ((1 ∷ [], hashed (9 ∷ [])) ∷ (9 ∷ [], hashed (1 ∷ [])) ∷ [])
    ≡ links bytes_compare (1 ∷ []) (1 ∷ []) ((9 ∷ []) ∷ [])
unfolding hash_and_next links
hashes-linked = refl

denying_hash-links_example :
    denying_hash (200 ∷ []) ((1 ∷ [], hashed (9 ∷ [])) ∷ (9 ∷ [], hashed (1 ∷ [])) ∷ []) ≡ 1
denying_hash-links_example =
    denying_hash-links (200 ∷ []) (1 ∷ []) ((9 ∷ []) ∷ [])
      ((1 ∷ [], hashed (9 ∷ [])) ∷ (9 ∷ [], hashed (1 ∷ [])) ∷ []) (hashes-ordered, tt)
      hashes-linked

same_name-compare_example :
    (same_name c (codes "c.A") ≡ true) ↔ (compare_canonical_names c (codes "c.A") ≡ equal)
same_name-compare_example = same_name-compare c (codes "c.A")

-- The zone with all its records as candidates.
abbrev whole_zone : Zone
whole_zone = record {
  nsec_candidates =
      record { owner = a; nsec = record_to b (2 ∷ 6 ∷ []) }
      ∷ record { owner = b; nsec = record_to c (1 ∷ []) }
      ∷ record { owner = c; nsec = record_to a (1 ∷ 15 ∷ []) }
      ∷ [];
  nsec3_candidates = [];
  verify_rrset = λ owner type. true;
}

-- bb.a. is covered by the record of b.a., and *.a. by that of a.
abbrev bb_denied : Evidence
bb_denied = nsec_denies_wildcard b a (codes "*.a.")

bb-proved : prove_nx_domain_with_nsec whole_zone (codes "bb.a.") ≡ some bb_denied
unfolding prove_nx_domain_with_nsec covers_name
bb-proved = refl

bb-HasLabels : HasLabels (codes "bb.a.")
unfolding canonical_labels
bb-HasLabels = (refl, (refl, tt))

prove_nx_domain_with_nsec-NxDomainProof_example : NxDomainProof whole_zone (codes "bb.a.") bb_denied
prove_nx_domain_with_nsec-NxDomainProof_example =
    prove_nx_domain_with_nsec-NxDomainProof whole_zone (codes "bb.a.") bb_denied bb-HasLabels
      bb-proved
