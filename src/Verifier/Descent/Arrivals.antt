-- ===== src/Verifier/Descent/Arrivals.antt =====
-- packages/core/src/verifier/chain.ts: where the walk down from the root ends.
use dnsdata_js.Base.{◌==◌, none, some, List, [], ◌∷◌, ◌≡◌, refl}
use dnsdata_js.Base.Text.{Text}
use dnsdata_js.Base.Result.{ok}
use dnsdata_js.Dnssec.SignedZone.{DnssecZone, type_ds, type_dnskey}
use dnsdata_js.Dnssec.SignedZone.Check.{mode_none}
use dnsdata_js.Verifier.Negative.{Evidence}
use dnsdata_js.Verifier.Verdict.{insecure}
use dnsdata_js.Verifier.Walk.{SigCheck, HopOutcome, bogus_outcome, Walk, check_aborted}
use dnsdata_js.Verifier.Walk.Laws.{
  Ensures, Ensures->>=, Ensures-then, Ensures-of_result, Ensures-return, Ensures-if,
}
use dnsdata_js.Verifier.Steps.Laws.{Signed, SignedIfOk, check_rrset-Signed}
use dnsdata_js.Verifier.Load.Laws.{KeptBy, load_records-Kept}
use dnsdata_js.Verifier.Ksks.{match_ksks_with_ds}
use dnsdata_js.Verifier.Descent.{
  Verifier, Descent, descended, unsigned, no_cut, broken, Arrival, arrived, stopped, new_zone,
  descend_keys, descend_into, follow_descent, walk_down,
}
use dnsdata_js.Verifier.Descent.Trust.{Trusted, IsBogus, grown, Kept-Grown, Kept-KeysOnlyAt}
use dnsdata_js.Verifier.Descent.Anchored.{
  StepIsTrusted, IsDescended, no_ds_descent-IsDescended, child_checked-IsDescended,
}

-- A walk that stops above the name: a bogus verdict, or a delegation that a trusted zone proves to
-- be unsigned.
pub data Stopped (v : Verifier) (o : HopOutcome) : Type 0 where
  is_broken : IsBogus o → Stopped v o
  is_unsigned :
      {n name : Text} {z : DnssecZone} {proof : Evidence}
      → Trusted v n z
      → v.denials.no_ds_at z name ≡ ok (some proof)
      → o.verdict ≡ insecure
      → o.insecure_at ≡ some name
      → o.denial ≡ some proof
      → o.alias ≡ none
      → Stopped v o

module _ (v : Verifier) where
  abbrev pub IsArrived : Arrival → Type 0
  IsArrived (arrived z name) = Trusted v name z
  IsArrived (stopped o) = Stopped v o

  descend_keys-IsDescended :
      (name child_name : Text) (parent : DnssecZone) (sigs : List SigCheck)
      → Trusted v name parent
      → Signed v.registry v.crypto parent child_name type_ds mode_none
      → Ensures (IsDescended v name child_name) (descend_keys v parent child_name sigs)
  unfolding descend_keys new_zone
  descend_keys-IsDescended name child_name parent sigs t s =
      Ensures->>= (KeptBy child_name type_dnskey (new_zone v (some parent.own)))
        (IsDescended v name child_name) _ _
        (load_records-Kept v.out (new_zone v (some parent.own)) child_name type_dnskey)
        (λ l kept.
          Ensures->>= _ (IsDescended v name child_name) _ _
            (Ensures-of_result
              (match_ksks_with_ds v.registry v.crypto l.zone.own parent.own child_name))
            (λ m e.
              child_checked-IsDescended v name child_name parent l.zone sigs m t s kept.parent_same
                kept.trusted_same
                (Kept-KeysOnlyAt child_name (new_zone v (some parent.own)) l.zone refl kept) e))

  descend_into-IsDescended :
      (name child_name : Text) (z : DnssecZone)
      → Trusted v name z
      → Ensures (IsDescended v name child_name) (descend_into v z child_name)
  unfolding descend_into
  descend_into-IsDescended name child_name z t =
      Ensures->>= (KeptBy child_name type_ds z) (IsDescended v name child_name) _ _
        (load_records-Kept v.out z child_name type_ds)
        (λ l kept.
          let more : Trusted v name l.zone =
            grown t (Kept-Grown child_name type_ds z l.zone refl kept) in
          Ensures-if (IsDescended v name child_name) (l.count == 0) _ _
            (λ h. no_ds_descent-IsDescended v name child_name l.zone more)
            (λ h.
              Ensures->>= (SignedIfOk v.registry v.crypto l.zone child_name type_ds mode_none)
                (IsDescended v name child_name) _ _
                (check_rrset-Signed v.registry v.crypto l.zone child_name type_ds mode_none)
                (λ check signed.
                  Ensures-if (IsDescended v name child_name) check.is_ok _ _
                    (λ k.
                      descend_keys-IsDescended name child_name l.zone check.sigs more (signed k))
                    (λ k.
                      Ensures-return _ _ (record { parent_trusted = more; step_trusted = tt })))))

  follow_descent-IsArrived :
      (next : DnssecZone → Text → Walk Arrival) (name child_name : Text) (parent : DnssecZone)
      (step : Descent)
      → ((z : DnssecZone) → (n : Text) → Trusted v n z → Ensures IsArrived (next z n))
      → Trusted v name parent
      → StepIsTrusted v child_name parent step
      → Ensures IsArrived
          (follow_descent v next name child_name (record { parent = parent; step = step }))
  unfolding follow_descent bogus_outcome
  follow_descent-IsArrived next name child_name parent (descended z ksk sigs) h t s =
      Ensures-then IsArrived _ _ (λ u. h z child_name s)
  follow_descent-IsArrived next name child_name parent (unsigned proof) h t s =
      Ensures-return IsArrived _ (is_unsigned t s refl refl refl refl)
  follow_descent-IsArrived next name child_name parent no_cut h t s = h parent name t
  follow_descent-IsArrived next name child_name parent (broken code held sigs) h t s =
      Ensures-then IsArrived _ _ (λ u. Ensures-return IsArrived _ (is_broken (refl, refl)))

  pub walk_down-IsArrived :
      (names : List Text) (z : DnssecZone) (name : Text)
      → Trusted v name z
      → Ensures IsArrived (walk_down v names z name)
  unfolding walk_down
  walk_down-IsArrived [] z name t = Ensures-return IsArrived _ t
  walk_down-IsArrived (child_name ∷ names) z name t =
      Ensures-then IsArrived (check_aborted v.out) _ (λ u.
        Ensures->>= (IsDescended v name child_name) IsArrived _ _
          (descend_into-IsDescended name child_name z t)
          (λ d h.
            follow_descent-IsArrived (walk_down v names) name child_name d.parent d.step
              (λ z' n t'. walk_down-IsArrived names z' n t') h.parent_trusted h.step_trusted))
