-- ===== src/Verifier/Leaf/Frame.antt =====
-- packages/core/src/verifier/chain.ts and alias.ts: the end of a hop leaves the aliases of the result
-- alone.
use dnsdata_js.Base.{ℕ, if◌then◌else◌, ◌==◌, Option, none, some, List, [], ◌∷◌}
use dnsdata_js.Base.Text.{Text}
use dnsdata_js.Base.Result.{Result, ok, err, stuck}
use dnsdata_js.Dnssec.Canonical.{equal_canonical_names}
use dnsdata_js.Dnssec.Signer.{ResourceRecord}
use dnsdata_js.Dnssec.SignedZone.{DnssecZone, find_rrset, find_rrsigs}
use dnsdata_js.Dnssec.SignedZone.Check.{mode_none}
use dnsdata_js.Verifier.Names.{normalize_qname, ancestors_of}
use dnsdata_js.Verifier.Negative.{Evidence}
use dnsdata_js.Verifier.Verdict.{Verdict, secure_no_data, secure_nx_domain}
use dnsdata_js.Verifier.Walk.{Answer, WildcardInfo, HopOutcome, bogus_outcome, Walk, return, ◌>>=◌}
use dnsdata_js.Verifier.Walk.Frame.{
  Keeps, Keeps->>=, Keeps-return, Keeps-throw_error, Keeps-of_result, Keeps-if,
}
use dnsdata_js.Verifier.Descent.{Verifier, type_dname}
use dnsdata_js.Verifier.Descent.Frame.{check_rrset-Keeps, add_zone_sigs-Keeps, load_records-Keeps}
use dnsdata_js.Verifier.Leaf.{
  type_cname, is_no_target, of_encoding, detect_wildcard, answer_records, answer_signatures,
  build_answer, checked_alias, cname_of, try_cname, dname_at, dname_among, try_dname, with_wildcard,
  positive_leaf, or_denied, negative_leaf, or_else, resolve_leaf,
}

of_encoding-Keeps : {A : Type 0} (r : Result A) → Keeps (of_encoding r)
of_encoding-Keeps (ok a) = Keeps-return a
of_encoding-Keeps (err e) = Keeps-throw_error _
of_encoding-Keeps stuck = Keeps-throw_error _

module _ (v : Verifier) (z : DnssecZone) (zone_name qname : Text) (qtype : ℕ) where
  build_answer-Keeps : Keeps (build_answer v z qname qtype)
  unfolding build_answer
  build_answer-Keeps =
      Keeps->>= _ _ (of_encoding-Keeps (answer_records v (find_rrset z.own qname qtype)))
        (λ records.
          Keeps->>= _ _ (Keeps-of_result (find_rrsigs v.registry z.own qname qtype [])) (λ sigs.
            Keeps->>= _ _ (Keeps-of_result (answer_signatures v z qname qtype sigs))
              (λ signatures. Keeps-return _)))

  checked_alias-Keeps :
      (owner : Text) (type : ℕ) (outcome : Walk HopOutcome)
      → Keeps outcome
      → Keeps (checked_alias v z zone_name owner type outcome)
  unfolding checked_alias
  checked_alias-Keeps owner type outcome h =
      Keeps->>= _ _ (check_rrset-Keeps v.registry v.crypto z owner type mode_none) (λ check.
        Keeps->>= _ _ (add_zone_sigs-Keeps zone_name check.sigs) (λ u.
          Keeps-if check.is_ok _ _
            (Keeps->>= outcome (λ o. return (some o)) h (λ o. Keeps-return (some o)))
            (Keeps-return (some (bogus_outcome zone_name check.code)))))

  cname_of-Keeps : (rrs : List ResourceRecord) → Keeps (cname_of v z zone_name qname rrs)
  unfolding cname_of
  cname_of-Keeps [] = Keeps-return _
  cname_of-Keeps (rr ∷ rrs) =
      Keeps-if (is_no_target (normalize_qname rr.value)) _ _ (Keeps-return _)
        (checked_alias-Keeps qname type_cname _ (Keeps-return _))

  dname_at-Keeps :
      (anc : Text) (rrs : List ResourceRecord) (rest : Walk (Option HopOutcome))
      → Keeps rest
      → Keeps (dname_at v z zone_name qname anc rrs rest)
  unfolding dname_at
  dname_at-Keeps anc [] rest h = h
  dname_at-Keeps anc (rr ∷ rrs) rest h =
      Keeps-if (is_no_target (normalize_qname rr.value)) _ _ (Keeps-return _)
        (checked_alias-Keeps anc type_dname _ (Keeps-return _))

  dname_among-Keeps : (ancs : List Text) → Keeps (dname_among v z zone_name qname ancs)
  unfolding dname_among
  dname_among-Keeps [] = Keeps-return _
  dname_among-Keeps (anc ∷ ancs) =
      Keeps-if (equal_canonical_names anc qname) _ _ (dname_among-Keeps ancs)
        (dname_at-Keeps anc (find_rrset z.own anc type_dname) _ (dname_among-Keeps ancs))

  with_wildcard-Keeps :
      (a : Answer) (w : Option WildcardInfo) → Keeps (with_wildcard v z zone_name a w)
  unfolding with_wildcard
  with_wildcard-Keeps a none = Keeps-return _
  with_wildcard-Keeps a (some wc) =
      Keeps->>= _ _ (Keeps-of_result (v.denials.next_closer_absent z wc.next_closer))
        (λ proved. Keeps-if proved _ _ (Keeps-return _) (Keeps-return _))

  positive_leaf-Keeps : Keeps (positive_leaf v z zone_name qname qtype)
  unfolding positive_leaf
  positive_leaf-Keeps =
      Keeps->>= _ _ (check_rrset-Keeps v.registry v.crypto z qname qtype mode_none) (λ check.
        Keeps->>= _ _ (add_zone_sigs-Keeps zone_name check.sigs) (λ u.
          Keeps-if check.is_ok _ _
            (Keeps->>= _ _ build_answer-Keeps (λ answer.
              Keeps->>= _ _ (Keeps-of_result (detect_wildcard v z qname qtype))
                (λ wildcard. with_wildcard-Keeps answer wildcard)))
            (Keeps-return (bogus_outcome zone_name check.code))))

  or_denied-Keeps :
      (proof : Option Evidence) (verdict : Verdict) (rest : Walk HopOutcome)
      → Keeps rest
      → Keeps (or_denied v proof verdict rest)
  or_denied-Keeps none verdict rest h = h
  or_denied-Keeps (some proof) verdict rest h = Keeps-return _

  negative_leaf-Keeps : Keeps (negative_leaf v z qname qtype)
  unfolding negative_leaf
  negative_leaf-Keeps =
      Keeps->>= _ _ (Keeps-of_result (v.denials.no_data_at z qname qtype)) (λ no_data.
        or_denied-Keeps no_data secure_no_data _ (
          Keeps->>= _ _ (Keeps-of_result (v.denials.nx_domain_at z qname))
            (λ nx_domain. or_denied-Keeps nx_domain secure_nx_domain _ (Keeps-return _))))

  or_else-Keeps :
      (o : Option HopOutcome) (rest : Walk HopOutcome) → Keeps rest → Keeps (or_else v o rest)
  or_else-Keeps none rest h = h
  or_else-Keeps (some o) rest h = Keeps-return _

  loaded_leaf-Keeps :
      (count : ℕ)
      → Keeps (
          if count == 0
          then (try_dname v z zone_name qname >>= λ dname. or_else v dname (
              try_cname v z zone_name qname >>= λ cname.
              or_else v cname (negative_leaf v z qname qtype)))
          else positive_leaf v z zone_name qname qtype)
  unfolding try_dname try_cname
  loaded_leaf-Keeps count =
      Keeps-if (count == 0) _ _
        (Keeps->>= _ _ (dname_among-Keeps (ancestors_of qname)) (λ d. or_else-Keeps d _ (
          Keeps->>= _ _ (cname_of-Keeps (find_rrset z.own qname type_cname))
            (λ c. or_else-Keeps c _ negative_leaf-Keeps))))
        positive_leaf-Keeps

pub resolve_leaf-Keeps :
    (v : Verifier) (z : DnssecZone) (zone_name qname : Text) (qtype : ℕ)
    → Keeps (resolve_leaf v z zone_name qname qtype)
unfolding resolve_leaf
resolve_leaf-Keeps v z zone_name qname qtype =
    Keeps->>= _ _ (load_records-Keeps v.out z qname qtype)
      (λ l. loaded_leaf-Keeps v l.zone zone_name qname qtype l.count)
