-- ===== src/Verifier/Leaf/Justified.antt =====
-- packages/core/src/verifier/chain.ts, alias.ts, wildcard.ts and answer.ts: what the outcome of a hop
-- rests on.
use dnsdata_js.Base.{
  ℕ, true, false, if◌then◌else◌, Option, none, some, List, [], ◌∷◌, ◌≡◌, refl, ap, ◌∙◌,
}
use dnsdata_js.Base.Text.{Text}
use dnsdata_js.Base.Result.{Result, ok, err, stuck}
use dnsdata_js.Dnssec.Signer.{ResourceRecord}
use dnsdata_js.Dnssec.SignedZone.{DnssecZone, find_rrset, find_rrsigs}
use dnsdata_js.Dnssec.SignedZone.Check.{mode_none}
use dnsdata_js.Verifier.Names.{normalize_qname, synthesise_dname_target}
use dnsdata_js.Verifier.Negative.{Evidence}
use dnsdata_js.Verifier.Verdict.{Verdict, secure, secure_no_data, secure_nx_domain, indeterminate}
use dnsdata_js.Verifier.Walk.{
  Answer, AnswerRecord, WildcardInfo, AliasStep, HopOutcome, bogus_outcome, Walk, return, of_result,
  ◌>>=◌,
}
use dnsdata_js.Verifier.Walk.Laws.{
  Ensures, Ensures->>=, Ensures-then, Ensures-of_result, Ensures-return, Ensures-if,
  Ensures-throw_error,
}
use dnsdata_js.Verifier.Steps.{add_zone_sigs}
use dnsdata_js.Verifier.Steps.Laws.{Signed, SignedIfOk, check_rrset-Signed}
use dnsdata_js.Verifier.Descent.{Verifier, type_dname}
use dnsdata_js.Verifier.Descent.Trust.{Trusted, IsBogus}
use dnsdata_js.Verifier.Descent.Arrivals.{Stopped}
use dnsdata_js.Verifier.Leaf.{
  type_cname, of_encoding, detect_wildcard, answer_records, answer_signatures, build_answer,
  with_wildcard, positive_leaf, denied_with, or_denied, negative_leaf,
}

-- The records of the answer are those of the RRset in the zone.
pub record IsAnswer (v : Verifier) (z : DnssecZone) (qname : Text) (qtype : ℕ) (a : Answer)
    : Type 0 where
  pub name_is : a.name ≡ qname
  pub type_is : a.type ≡ qtype
  pub records_are : answer_records v (find_rrset z.own qname qtype) ≡ ok a.records

-- No wildcard, or one whose next closer name is proved absent.
abbrev pub WildcardProved : Verifier → DnssecZone → Option WildcardInfo → Type 0
WildcardProved v z none = Unit
WildcardProved v z (some wc) = v.denials.next_closer_absent z wc.next_closer ≡ ok true

abbrev pub alias_type : AliasStep → ℕ
alias_type a = if a.is_dname then type_dname else type_cname

-- A CNAME at the name with its target, or a DNAME at an owner with the name that it makes of this
-- one; the RRset is signed.
pub record IsAlias (v : Verifier) (z : DnssecZone) (qname : Text) (a : AliasStep) : Type 0 where
  pub signed : Signed v.registry v.crypto z a.from (alias_type a) mode_none
  pub first : ResourceRecord
  pub others : List ResourceRecord
  pub records_there : find_rrset z.own a.from (alias_type a) ≡ first ∷ others
  pub owner_is : a.is_dname ≡ false → a.from ≡ qname
  pub target_is : a.target ≡ (
      if a.is_dname
      then synthesise_dname_target qname a.from (normalize_qname first.value)
      else normalize_qname first.value)

-- What an outcome other than bogus and indeterminate rests on: a trusted zone in which the RRset is
-- signed and which holds the records of the answer, or in which the alias is signed, or which has a
-- proof of absence, or which proves a delegation to be unsigned.
pub data Justified (v : Verifier) (qname : Text) (qtype : ℕ) (o : HopOutcome) : Type 0 where
  answered :
      {n : Text} {z : DnssecZone} {a : Answer}
      → Trusted v n z
      → Signed v.registry v.crypto z qname qtype mode_none
      → o.verdict ≡ secure
      → o.alias ≡ none
      → o.answer ≡ some a
      → IsAnswer v z qname qtype a
      → detect_wildcard v z qname qtype ≡ ok o.wildcard
      → WildcardProved v z o.wildcard
      → Justified v qname qtype o
  redirected :
      {n : Text} {z : DnssecZone} {a : AliasStep}
      → Trusted v n z
      → o.alias ≡ some a
      → IsAlias v z qname a
      → Justified v qname qtype o
  no_data :
      {n : Text} {z : DnssecZone} {proof : Evidence}
      → Trusted v n z
      → v.denials.no_data_at z qname qtype ≡ ok (some proof)
      → o.verdict ≡ secure_no_data
      → o.denial ≡ some proof
      → o.alias ≡ none
      → Justified v qname qtype o
  nx_domain :
      {n : Text} {z : DnssecZone} {proof : Evidence}
      → Trusted v n z
      → v.denials.nx_domain_at z qname ≡ ok (some proof)
      → o.verdict ≡ secure_nx_domain
      → o.denial ≡ some proof
      → o.alias ≡ none
      → Justified v qname qtype o
  halted : Stopped v o → Justified v qname qtype o
  failed : IsBogus o → Justified v qname qtype o
  unproved : o.verdict ≡ indeterminate → o.alias ≡ none → Justified v qname qtype o

module _ (v : Verifier) (qname : Text) (qtype : ℕ) (n : Text) (z : DnssecZone)
    (t : Trusted v n z) where
  abbrev J : HopOutcome → Type 0
  J = Justified v qname qtype

  build_answer-IsAnswer : Ensures (IsAnswer v z qname qtype) (build_answer v z qname qtype)
  unfolding build_answer
  build_answer-IsAnswer = encoded (answer_records v (find_rrset z.own qname qtype)) refl
    where
      encoded :
          (r : Result (List AnswerRecord))
          → answer_records v (find_rrset z.own qname qtype) ≡ r
          → Ensures (IsAnswer v z qname qtype) (
              of_encoding r >>= λ records.
              of_result (find_rrsigs v.registry z.own qname qtype []) >>= λ sigs.
              of_result (answer_signatures v z qname qtype sigs) >>= λ signatures.
              return
                (record { name = qname; type = qtype; records = records; signatures = signatures }))
      encoded (err x) e = Ensures-throw_error _ _
      encoded stuck e = Ensures-throw_error _ _
      encoded (ok rs) e =
          Ensures-then _ (of_result (find_rrsigs v.registry z.own qname qtype [])) _ (λ sigs.
            Ensures-then _ (of_result (answer_signatures v z qname qtype sigs)) _ (λ signatures.
              Ensures-return _ _ (record { name_is = refl; type_is = refl; records_are = e })))

  with_wildcard-J :
      (zone_name : Text) (a : Answer) (w : Option WildcardInfo)
      → Signed v.registry v.crypto z qname qtype mode_none
      → IsAnswer v z qname qtype a
      → detect_wildcard v z qname qtype ≡ ok w
      → Ensures J (with_wildcard v z zone_name a w)
  unfolding with_wildcard bogus_outcome
  with_wildcard-J zone_name a none s i e = Ensures-return J _ (answered t s refl refl refl i e tt)
  with_wildcard-J zone_name a (some wc) s i e =
      Ensures->>= _ J _ _ (Ensures-of_result (v.denials.next_closer_absent z wc.next_closer))
        (λ proved p.
          Ensures-if J proved _ _
            (λ h. Ensures-return J _ (answered t s refl refl refl i e (p ∙ ap ok h)))
            (λ h. Ensures-return J _ (failed (refl, refl))))

  pub positive_leaf-J : (zone_name : Text) → Ensures J (positive_leaf v z zone_name qname qtype)
  unfolding positive_leaf bogus_outcome
  positive_leaf-J zone_name =
      Ensures->>= (SignedIfOk v.registry v.crypto z qname qtype mode_none) J _ _
        (check_rrset-Signed v.registry v.crypto z qname qtype mode_none)
        (λ check signed. Ensures-then J (add_zone_sigs zone_name check.sigs) _ (λ u.
          Ensures-if J check.is_ok _ (return (bogus_outcome zone_name check.code))
            (λ h. Ensures->>= (IsAnswer v z qname qtype) J _ _ build_answer-IsAnswer (λ a i.
              Ensures->>= _ J _ _ (Ensures-of_result (detect_wildcard v z qname qtype))
                (λ w e. with_wildcard-J zone_name a w (signed h) i e)))
            (λ h. Ensures-return J (bogus_outcome zone_name check.code) (failed (refl, refl)))))

  or_denied-J :
      (proof : Option Evidence) (verdict : Verdict) (rest : Walk HopOutcome)
      → ((p : Evidence) → proof ≡ some p → J (denied_with v verdict p))
      → Ensures J rest
      → Ensures J (or_denied v proof verdict rest)
  or_denied-J none verdict rest h k = k
  or_denied-J (some p) verdict rest h k = Ensures-return J _ (h p refl)

  pub negative_leaf-J : Ensures J (negative_leaf v z qname qtype)
  unfolding negative_leaf
  negative_leaf-J =
      Ensures->>= _ J _ _ (Ensures-of_result (v.denials.no_data_at z qname qtype)) (λ proof e.
        or_denied-J proof secure_no_data _ (λ p q. no_data t (e ∙ ap ok q) refl refl refl)
          (Ensures->>= _ J _ _ (Ensures-of_result (v.denials.nx_domain_at z qname)) (λ proof e.
            or_denied-J proof secure_nx_domain _ (λ p q. nx_domain t (e ∙ ap ok q) refl refl refl)
              (Ensures-return J _ (unproved refl refl)))))
