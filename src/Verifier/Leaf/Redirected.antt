-- ===== src/Verifier/Leaf/Redirected.antt =====
-- packages/core/src/verifier/chain.ts and alias.ts: aliases at the end of a hop, and all of its end.
use dnsdata_js.Base.{
  ℕ, false, if◌then◌else◌, ◌==◌, Option, none, some, List, [], ◌∷◌, ◌≡◌, refl, inl, inr, Bool-cases,
}
use dnsdata_js.Base.Text.{Text, text_eq}
use dnsdata_js.Dnssec.Canonical.{equal_canonical_names}
use dnsdata_js.Dnssec.Signer.{ResourceRecord}
use dnsdata_js.Dnssec.SignedZone.{DnssecZone, find_rrset, type_dnskey}
use dnsdata_js.Dnssec.SignedZone.Check.{mode_none}
use dnsdata_js.Verifier.Names.{normalize_qname, ancestors_of, synthesise_dname_target}
use dnsdata_js.Verifier.Walk.{HopOutcome, bogus_outcome, Walk, return, ◌>>=◌}
use dnsdata_js.Verifier.Walk.Laws.{Ensures, Ensures->>=, Ensures-then, Ensures-return, Ensures-if}
use dnsdata_js.Verifier.Steps.{add_zone_sigs}
use dnsdata_js.Verifier.Steps.Laws.{Signed, SignedIfOk, check_rrset-Signed}
use dnsdata_js.Verifier.Load.Laws.{KeptBy, load_records-Kept}
use dnsdata_js.Verifier.Descent.{Verifier, type_dname}
use dnsdata_js.Verifier.Descent.Trust.{Trusted, grown, Kept-Grown}
use dnsdata_js.Verifier.Leaf.{
  type_cname, alias_outcome, is_no_target, checked_alias, cname_of, try_cname, dname_outcome,
  dname_at, dname_among, try_dname, positive_leaf, negative_leaf, or_else, resolve_leaf,
}
use dnsdata_js.Verifier.Leaf.Justified.{
  Justified, redirected, failed, positive_leaf-J, negative_leaf-J,
}

module _ (v : Verifier) (qname : Text) (qtype : ℕ) (n : Text) (z : DnssecZone)
    (t : Trusted v n z) where
  abbrev J : HopOutcome → Type 0
  J = Justified v qname qtype

  abbrev MaybeJ : Option HopOutcome → Type 0
  MaybeJ none = Unit
  MaybeJ (some o) = J o

  checked_alias-J :
      (zone_name owner : Text) (type : ℕ) (o : HopOutcome)
      → (Signed v.registry v.crypto z owner type mode_none → J o)
      → Ensures MaybeJ (checked_alias v z zone_name owner type (return o))
  unfolding checked_alias bogus_outcome
  checked_alias-J zone_name owner type o h =
      Ensures->>= (SignedIfOk v.registry v.crypto z owner type mode_none) MaybeJ _ _
        (check_rrset-Signed v.registry v.crypto z owner type mode_none)
        (λ check signed. Ensures-then MaybeJ (add_zone_sigs zone_name check.sigs) _ (λ u.
          Ensures-if MaybeJ check.is_ok (return (some o))
            (return (some (bogus_outcome zone_name check.code)))
            (λ k. Ensures-return MaybeJ (some o) (h (signed k)))
            (λ k.
              Ensures-return MaybeJ (some (bogus_outcome zone_name check.code))
                (failed (refl, refl)))))

  cname_of-J :
      (zone_name : Text) (rrs : List ResourceRecord)
      → find_rrset z.own qname type_cname ≡ rrs
      → Ensures MaybeJ (cname_of v z zone_name qname rrs)
  unfolding cname_of bogus_outcome
  cname_of-J zone_name [] e = Ensures-return MaybeJ none tt
  cname_of-J zone_name (rr ∷ rrs) e =
      let target = normalize_qname rr.value in
      Ensures-if MaybeJ (is_no_target target) _ _
        (λ h. Ensures-return MaybeJ _ (failed (refl, refl)))
        (λ h.
          checked_alias-J zone_name qname type_cname (alias_outcome false qname target zone_name)
            (λ s. redirected t refl (record {
              signed = s;
              first = rr;
              others = rrs;
              records_there = e;
              owner_is = λ h. refl;
              target_is = refl;
            })))

  dname_outcome-J :
      (zone_name anc : Text) (rr : ResourceRecord) (rrs : List ResourceRecord)
      → find_rrset z.own anc type_dname ≡ rr ∷ rrs
      → Signed v.registry v.crypto z anc type_dname mode_none
      → J (dname_outcome v zone_name qname anc (normalize_qname rr.value))
  unfolding dname_outcome bogus_outcome
  dname_outcome-J zone_name anc rr rrs e s =
      let synth = synthesise_dname_target qname anc (normalize_qname rr.value) in
      elim (Bool-cases (text_eq synth [])) [
        | inl h ↦ rw h (failed (refl, refl))
        | inr h ↦ rw h (
            redirected t refl (record {
              signed = s;
              first = rr;
              others = rrs;
              records_there = e;
              owner_is = λ k. absurd (cc);
              target_is = refl;
            }))
      ]

  dname_at-J :
      (zone_name anc : Text) (rrs : List ResourceRecord) (rest : Walk (Option HopOutcome))
      → find_rrset z.own anc type_dname ≡ rrs
      → Ensures MaybeJ rest
      → Ensures MaybeJ (dname_at v z zone_name qname anc rrs rest)
  unfolding dname_at bogus_outcome
  dname_at-J zone_name anc [] rest e h = h
  dname_at-J zone_name anc (rr ∷ rrs) rest e h =
      let target = normalize_qname rr.value in
      Ensures-if MaybeJ (is_no_target target) _ _
        (λ h. Ensures-return MaybeJ _ (failed (refl, refl)))
        (λ h.
          checked_alias-J zone_name anc type_dname (dname_outcome v zone_name qname anc target)
            (dname_outcome-J zone_name anc rr rrs e))

  dname_among-J :
      (zone_name : Text) (ancs : List Text) → Ensures MaybeJ (dname_among v z zone_name qname ancs)
  unfolding dname_among
  dname_among-J zone_name [] = Ensures-return MaybeJ none tt
  dname_among-J zone_name (anc ∷ ancs) =
      Ensures-if MaybeJ (equal_canonical_names anc qname) _ _ (λ h. dname_among-J zone_name ancs)
        (λ h.
          dname_at-J zone_name anc (find_rrset z.own anc type_dname) _ refl
            (dname_among-J zone_name ancs))

  or_else-J :
      (o : Option HopOutcome) (rest : Walk HopOutcome)
      → MaybeJ o
      → Ensures J rest
      → Ensures J (or_else v o rest)
  or_else-J none rest h k = k
  or_else-J (some o) rest h k = Ensures-return J o h

  loaded_leaf-Justified :
      (zone_name : Text) (count : ℕ)
      → Ensures J (
          if count == 0
          then (try_dname v z zone_name qname >>= λ dname. or_else v dname (
              try_cname v z zone_name qname >>= λ cname.
              or_else v cname (negative_leaf v z qname qtype)))
          else positive_leaf v z zone_name qname qtype)
  unfolding try_dname try_cname
  loaded_leaf-Justified zone_name count =
      Ensures-if J (count == 0) _ (positive_leaf v z zone_name qname qtype)
        (λ h.
          Ensures->>= MaybeJ J (try_dname v z zone_name qname) _
            (dname_among-J zone_name (ancestors_of qname))
            (λ d j. or_else-J d _ j (
              Ensures->>= MaybeJ J (try_cname v z zone_name qname) _
                (cname_of-J zone_name (find_rrset z.own qname type_cname) refl)
                (λ c k. or_else-J c _ k (negative_leaf-J v qname qtype n z t)))))
        (λ h. positive_leaf-J v qname qtype n z t zone_name)

-- Every outcome of the last zone of a hop is justified, unless DNSKEY records are asked for.
pub resolve_leaf-Justified :
    (v : Verifier) (z : DnssecZone) (n qname : Text) (qtype : ℕ)
    → (qtype == type_dnskey) ≡ false
    → Trusted v n z
    → Ensures (Justified v qname qtype) (resolve_leaf v z n qname qtype)
unfolding resolve_leaf
resolve_leaf-Justified v z n qname qtype q t =
    Ensures->>= (KeptBy qname qtype z) (Justified v qname qtype) _ _
      (load_records-Kept v.out z qname qtype)
      (λ l kept.
        loaded_leaf-Justified v qname qtype n l.zone
          (grown t (Kept-Grown qname qtype z l.zone q kept)) n l.count)
