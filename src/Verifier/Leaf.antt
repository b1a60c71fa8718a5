-- ===== src/Verifier/Leaf.antt =====
-- packages/core/src/verifier/chain.ts, alias.ts, wildcard.ts and answer.ts: the last zone of a hop.
use dnsdata_js.Base.{
  ℕ, ◌+◌, Bool, true, false, ◌||◌, not, if◌then◌else◌, ◌==◌, leb, Option, none, some, List, [], ◌∷◌,
  ◌++◌, drop,
}
use dnsdata_js.Base.Text.{Text, codes, dot, text_eq}
use dnsdata_js.Base.Result.{Result, ok, err, stuck}
use dnsdata_js.Base.Result
use dnsdata_js.Dnssec.Canonical.{equal_canonical_names, label_count, last_n_labels}
use dnsdata_js.Dnssec.Keys.{RrSig}
use dnsdata_js.Dnssec.SigCheck.{is_verified}
use dnsdata_js.Dnssec.Signer.{ResourceRecord}
use dnsdata_js.Dnssec.SignedZone.{ZoneState, DnssecZone, find_rrset, find_rrsigs}
use dnsdata_js.Dnssec.SignedZone.Check.{mode_none, check_rrsig}
use dnsdata_js.Verifier.Names.{normalize_qname, ancestors_of, synthesise_dname_target}
use dnsdata_js.Verifier.Negative.{Evidence}
use dnsdata_js.Verifier.Verdict.{Verdict, secure, secure_no_data, secure_nx_domain, indeterminate}
use dnsdata_js.Verifier.Walk.{
  ReasonCode, alias_target_invalid, wildcard_proof_missing, AnswerRecord, AnswerSignature, Answer,
  WildcardInfo, AliasStep, HopOutcome, hop_outcome, bogus_outcome, Walk, check_failed, return,
  throw_error, of_result, ◌>>=◌, ◌>>◌,
}
use dnsdata_js.Verifier.Walk
use dnsdata_js.Verifier.Steps.{RrsetCheck, check_rrset, add_zone_sigs}
use dnsdata_js.Verifier.Load.{Loaded, load_records}
use dnsdata_js.Verifier.Descent.{Verifier, Denials, type_dname}
pub mod Justified
pub mod Redirected
pub mod Frame

abbrev pub type_cname : ℕ
type_cname = 5

-- The first signature with fewer labels than the name.
unfoldable pub wildcard_of_sigs : Text → List RrSig → Option WildcardInfo
unfolding label_count last_n_labels
wildcard_of_sigs qname [] = none
wildcard_of_sigs qname (s ∷ sigs) =
    let rest = wildcard_of_sigs qname sigs in
    if leb (label_count qname) s.labels
    then rest
    else some record {
      source = codes "*." ++ last_n_labels qname s.labels;
      closest_encloser = last_n_labels qname s.labels;
      next_closer = last_n_labels qname (s.labels + 1);
    }

-- `new VerifierError(…)` for an exception.
abbrev pub of_encoding {ℓ} : {A : Type ℓ} → Result A → Walk A
of_encoding (ok a) = return a
of_encoding (err e) = throw_error (check_failed e)
of_encoding stuck = throw_error Walk.lost

-- The alias that a signed CNAME or DNAME stands for.
abbrev pub alias_outcome : Bool → Text → Text → Text → HopOutcome
alias_outcome is_dname from target zone = record (hop_outcome secure) {
  alias =
      some
        record { is_dname = is_dname; from = from; target = target; zone = zone; verdict = secure };
}

abbrev pub is_no_target : Text → Bool
is_no_target target = text_eq target [] || text_eq target (dot ∷ [])

module _ (v : Verifier) where
  unfoldable pub detect_wildcard : DnssecZone → Text → ℕ → Result (Option WildcardInfo)
  unfolding find_rrsigs wildcard_of_sigs
  detect_wildcard z qname qtype =
      Result.◌>>=◌ (find_rrsigs v.registry z.own qname qtype [])
        (λ sigs. ok (wildcard_of_sigs qname sigs))

  -- The octets behind the length.
  unfoldable pub answer_records : List ResourceRecord → Result (List AnswerRecord)
  answer_records [] = ok []
  answer_records (rr ∷ rrs) =
      let rest = answer_records rrs in
      Result.◌>>=◌ (v.registry.wire_body rr) (λ body. Result.◌>>=◌ rest (λ found. ok (
        record {
          name = rr.label;
          ttl = rr.ttl;
          class = rr.rrclass;
          type = rr.type;
          value = rr.value;
          rdata = drop 2 body;
        }
        ∷ found)))

  unfoldable pub answer_signatures :
      DnssecZone → Text → ℕ → List RrSig → Result (List AnswerSignature)
  unfolding check_rrsig
  answer_signatures z qname qtype [] = ok []
  answer_signatures z qname qtype (s ∷ sigs) =
      let rest = answer_signatures z qname qtype sigs in
      Result.◌>>=◌ (check_rrsig v.registry v.crypto z qname qtype s mode_none) (λ verdict.
        Result.◌>>=◌ rest (λ found. ok (
          if is_verified verdict.status
          then record {
            key_tag = s.key_tag;
            algorithm = s.algorithm;
            signer = s.signer;
            labels = s.labels;
            inception = s.inception;
            expiration = s.expire;
          }
            ∷ found
          else found)))

  unfoldable pub build_answer : DnssecZone → Text → ℕ → Walk Answer
  unfolding find_rrset answer_records find_rrsigs answer_signatures
  build_answer z qname qtype =
      of_encoding (answer_records (find_rrset z.own qname qtype)) >>= λ records.
      of_result (find_rrsigs v.registry z.own qname qtype []) >>= λ sigs.
      of_result (answer_signatures z qname qtype sigs) >>= λ signatures.
      return (record { name = qname; type = qtype; records = records; signatures = signatures })

  -- A signed alias with its target, after the check of its RRset.
  unfoldable pub checked_alias :
      DnssecZone → Text → Text → ℕ → Walk HopOutcome → Walk (Option HopOutcome)
  unfolding check_rrset add_zone_sigs bogus_outcome
  checked_alias z zone_name owner type outcome =
      check_rrset v.registry v.crypto z owner type mode_none >>= λ check.
      add_zone_sigs zone_name check.sigs
      >> (if check.is_ok
          then (outcome >>= λ o. return (some o))
          else return (some (bogus_outcome zone_name check.code)))

  unfoldable pub cname_of :
      DnssecZone → Text → Text → List ResourceRecord → Walk (Option HopOutcome)
  unfolding normalize_qname text_eq checked_alias bogus_outcome
  cname_of z zone_name qname [] = return none
  cname_of z zone_name qname (rr ∷ rrs) =
      let target = normalize_qname rr.value in
      if is_no_target target
      then return (some (bogus_outcome qname (some alias_target_invalid)))
      else checked_alias z zone_name qname type_cname
          (return (alias_outcome false qname target zone_name))

  unfoldable pub try_cname : DnssecZone → Text → Text → Walk (Option HopOutcome)
  unfolding find_rrset cname_of
  try_cname z zone_name qname = cname_of z zone_name qname (find_rrset z.own qname type_cname)

  unfoldable pub dname_outcome : Text → Text → Text → Text → HopOutcome
  unfolding synthesise_dname_target text_eq bogus_outcome
  dname_outcome zone_name qname anc target =
      let synth = synthesise_dname_target qname anc target in
      if text_eq synth []
      then bogus_outcome anc (some alias_target_invalid)
      else alias_outcome true anc synth zone_name

  -- One ancestor: its DNAME, or the rest of the loop.
  unfoldable pub dname_at :
      DnssecZone
      → Text
      → Text
      → Text
      → List ResourceRecord
      → Walk (Option HopOutcome)
      → Walk (Option HopOutcome)
  unfolding normalize_qname text_eq checked_alias bogus_outcome dname_outcome
  dname_at z zone_name qname anc [] rest = rest
  dname_at z zone_name qname anc (rr ∷ rrs) rest =
      let target = normalize_qname rr.value in
      if is_no_target target
      then return (some (bogus_outcome anc (some alias_target_invalid)))
      else checked_alias z zone_name anc type_dname
          (return (dname_outcome zone_name qname anc target))

  unfoldable pub dname_among : DnssecZone → Text → Text → List Text → Walk (Option HopOutcome)
  unfolding equal_canonical_names find_rrset dname_at
  dname_among z zone_name qname [] = return none
  dname_among z zone_name qname (anc ∷ ancs) =
      let rest = dname_among z zone_name qname ancs in
      if equal_canonical_names anc qname
      then rest
      else dname_at z zone_name qname anc (find_rrset z.own anc type_dname) rest

  unfoldable pub try_dname : DnssecZone → Text → Text → Walk (Option HopOutcome)
  unfolding dname_among ancestors_of
  try_dname z zone_name qname = dname_among z zone_name qname (ancestors_of qname)

  -- A verified RRset, synthesised from a wildcard or not.
  unfoldable pub with_wildcard : DnssecZone → Text → Answer → Option WildcardInfo → Walk HopOutcome
  unfolding bogus_outcome
  with_wildcard z zone_name answer none =
      return (record (hop_outcome secure) { answer = some answer })
  with_wildcard z zone_name answer (some wc) =
      of_result (v.denials.next_closer_absent z wc.next_closer) >>= λ proved.
      if proved
      then return (record (hop_outcome secure) { wildcard = some wc; answer = some answer })
      else return (bogus_outcome zone_name (some wildcard_proof_missing))

  unfoldable pub positive_leaf : DnssecZone → Text → Text → ℕ → Walk HopOutcome
  unfolding check_rrset add_zone_sigs build_answer detect_wildcard with_wildcard bogus_outcome
  positive_leaf z zone_name qname qtype =
      check_rrset v.registry v.crypto z qname qtype mode_none >>= λ check.
      add_zone_sigs zone_name check.sigs
      >> (if check.is_ok
          then (build_answer z qname qtype >>= λ answer.
              of_result (detect_wildcard z qname qtype) >>= λ wildcard.
              with_wildcard z zone_name answer wildcard)
          else return (bogus_outcome zone_name check.code))

  abbrev pub denied_with : Verdict → Evidence → HopOutcome
  denied_with verdict proof = record (hop_outcome verdict) { denial = some proof }

  abbrev pub or_denied : Option Evidence → Verdict → Walk HopOutcome → Walk HopOutcome
  or_denied (some proof) verdict rest = return (denied_with verdict proof)
  or_denied none verdict rest = rest

  unfoldable pub negative_leaf : DnssecZone → Text → ℕ → Walk HopOutcome
  negative_leaf z qname qtype = of_result (v.denials.no_data_at z qname qtype) >>= λ no_data.
      or_denied no_data secure_no_data (
        of_result (v.denials.nx_domain_at z qname) >>= λ nx_domain.
        or_denied nx_domain secure_nx_domain (return (hop_outcome indeterminate)))

  abbrev pub or_else : Option HopOutcome → Walk HopOutcome → Walk HopOutcome
  or_else (some o) rest = return o
  or_else none rest = rest

  unfoldable pub resolve_leaf : DnssecZone → Text → Text → ℕ → Walk HopOutcome
  unfolding load_records positive_leaf try_dname try_cname negative_leaf
  resolve_leaf z zone_name qname qtype = load_records v.out z qname qtype >>= λ l.
      if l.count == 0
      then (try_dname l.zone zone_name qname >>= λ dname. or_else dname (
          try_cname l.zone zone_name qname >>= λ cname.
          or_else cname (negative_leaf l.zone qname qtype)))
      else positive_leaf l.zone zone_name qname qtype
