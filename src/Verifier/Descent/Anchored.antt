-- ===== src/Verifier/Descent/Anchored.antt =====
-- packages/core/src/verifier/chain.ts: the root and each step down from it are trusted.
use dnsdata_js.Base.{
  Bool, true, false, if◌then◌else◌, Option, none, some, List, [], ◌∷◌, ◌++◌, All, ◌≡◌, refl,
}
use dnsdata_js.Base.Text.{Text, dot}
use dnsdata_js.Base.Result.{ok}
use dnsdata_js.Dnssec.Keys.{DnsKey}
use dnsdata_js.Dnssec.SignedZone.{DnssecZone, type_ds, type_dnskey}
use dnsdata_js.Dnssec.SignedZone.Check.{mode_none, mode_ksk}
use dnsdata_js.Verifier.Negative.{Evidence}
use dnsdata_js.Verifier.Walk.{SigCheck, bogus_outcome}
use dnsdata_js.Verifier.Walk.Laws.{
  Ensures, Ensures->>=, Ensures-then, Ensures-of_result, Ensures-return, Ensures-if,
}
use dnsdata_js.Verifier.Steps.{RrsetCheck}
use dnsdata_js.Verifier.Steps.Laws.{Signed, SignedIfOk, check_rrset-Signed}
use dnsdata_js.Verifier.Load.Laws.{KeptBy, load_records-Kept}
use dnsdata_js.Verifier.Ksks.{KskMatch, ksks, mismatch, match_ksks_with_anchors, match_ksks_with_ds}
use dnsdata_js.Verifier.Ksks.Laws.{
  IsAnchored, match_ksks_with_anchors-IsAnchored, match_ksks_with_ds-IsDelegated,
  trust_keys-TrustsOnly,
}
use dnsdata_js.Verifier.Descent.{
  Verifier, Rooted, root, unrooted, Descent, descended, unsigned, no_cut, broken, Descended,
  new_zone, with_keys, root_checked, validate_root, no_ds_descent, insecure_or_no_cut, below_dname,
  child_checked, signing_ksk,
}
use dnsdata_js.Verifier.Descent.Trust.{
  trust_keys-KeysOnlyAt, Kept-KeysOnlyAt, IsBogus, KeysOnlyAt, Trusted, anchored, delegated,
}

module _ (v : Verifier) where
  abbrev pub IsRooted : Rooted → Type 0
  IsRooted (root z) = Trusted v (dot ∷ []) z
  IsRooted (unrooted o) = IsBogus o

  root_checked-IsRooted :
      (z : DnssecZone) (keys : List DnsKey)
      → All (IsAnchored v.crypto v.anchors) keys
      → z.own.trusted_keys ≡ []
      → KeysOnlyAt (dot ∷ []) z.own
      → Ensures IsRooted (root_checked v z keys)
  unfolding root_checked bogus_outcome
  root_checked-IsRooted z [] a t o =
      Ensures-then IsRooted _ _ (λ u. Ensures-return IsRooted _ (refl, refl))
  root_checked-IsRooted z (k ∷ ks) a t o =
      Ensures->>=
        (SignedIfOk v.registry v.crypto (with_keys v (k ∷ ks) z) (dot ∷ []) type_dnskey mode_ksk)
        IsRooted _ _
        (check_rrset-Signed v.registry v.crypto (with_keys v (k ∷ ks) z) (dot ∷ []) type_dnskey
          mode_ksk)
        (λ check signed.
          Ensures-if IsRooted check.is_ok _ _
            (λ h. Ensures-then IsRooted _ _ (λ u. Ensures-return IsRooted _ (
              anchored (k ∷ ks) a (trust_keys-TrustsOnly (k ∷ ks) z.own t) (signed h)
                (trust_keys-KeysOnlyAt (k ∷ ks) (dot ∷ []) z.own o))))
            (λ h. Ensures-then IsRooted _ _ (λ u. Ensures-return IsRooted _ (refl, refl))))

  pub validate_root-IsRooted : Ensures IsRooted (validate_root v)
  unfolding validate_root new_zone
  validate_root-IsRooted =
      Ensures->>= (KeptBy (dot ∷ []) type_dnskey (new_zone v none)) IsRooted _ _
        (load_records-Kept v.out (new_zone v none) (dot ∷ []) type_dnskey)
        (λ l kept.
          Ensures->>= _ IsRooted _ _
            (Ensures-of_result (match_ksks_with_anchors v.registry v.crypto v.anchors l.zone.own))
            (λ keys e.
              root_checked-IsRooted l.zone keys
                (match_ksks_with_anchors-IsAnchored v.registry v.crypto v.anchors l.zone.own keys e)
                kept.trusted_same (Kept-KeysOnlyAt (dot ∷ []) (new_zone v none) l.zone refl kept)))

  -- A step down from a trusted zone: the parent stays trusted, and the child is.
  abbrev pub StepIsTrusted : Text → DnssecZone → Descent → Type 0
  StepIsTrusted child_name parent (descended zone ksk sigs) = Trusted v child_name zone
  StepIsTrusted child_name parent (unsigned proof) =
      v.denials.no_ds_at parent child_name ≡ ok (some proof)
  StepIsTrusted child_name parent no_cut = Unit
  StepIsTrusted child_name parent (broken code held sigs) = Unit

  pub record IsDescended (name child_name : Text) (d : Descended) : Type 0 where
    pub parent_trusted : Trusted v name d.parent
    pub step_trusted : StepIsTrusted child_name d.parent d.step

  pub no_ds_descent-IsDescended :
      (name child_name : Text) (z : DnssecZone)
      → Trusted v name z
      → Ensures (IsDescended name child_name) (no_ds_descent v z child_name)
  unfolding no_ds_descent
  no_ds_descent-IsDescended name child_name z t =
      Ensures-if (IsDescended name child_name) (below_dname z.own child_name) _ _
        (λ h. Ensures-return _ _ (record { parent_trusted = t; step_trusted = tt }))
        (λ h.
          Ensures->>= _ (IsDescended name child_name) _ _
            (Ensures-of_result (v.denials.no_ds_at z child_name))
            (λ proof e.
              Ensures-return _ _ (record { parent_trusted = t; step_trusted = proved proof e })))
    where
      proved :
          (proof : Option Evidence)
          → v.denials.no_ds_at z child_name ≡ ok proof
          → StepIsTrusted child_name z (insecure_or_no_cut v proof)
      proved none e = tt
      proved (some x) e = e

  pub child_checked-IsDescended :
      (name child_name : Text) (parent zone : DnssecZone) (sigs : List SigCheck) (m : KskMatch)
      → Trusted v name parent
      → Signed v.registry v.crypto parent child_name type_ds mode_none
      → zone.parent ≡ some parent.own
      → zone.own.trusted_keys ≡ []
      → KeysOnlyAt child_name zone.own
      → match_ksks_with_ds v.registry v.crypto zone.own parent.own child_name ≡ ok m
      → Ensures (IsDescended name child_name) (child_checked v parent zone child_name sigs m)
  unfolding child_checked
  child_checked-IsDescended name child_name parent zone sigs (mismatch code) t s p n o e =
      Ensures-return _ _ (record { parent_trusted = t; step_trusted = tt })
  child_checked-IsDescended name child_name parent zone sigs (ksks k ks) t s p n o e =
      Ensures->>= _ (IsDescended name child_name) _ _
        (check_rrset-Signed v.registry v.crypto (with_keys v (k ∷ ks) zone) child_name type_dnskey
          mode_ksk)
        (λ check signed.
          Ensures-return _ _
            (record { parent_trusted = t; step_trusted = step check check.is_ok (λ h. signed h) }))
    where
      step :
          (check : RrsetCheck) (b : Bool)
          → (b ≡ true
              → Signed v.registry v.crypto
                  (with_keys v (k ∷ ks) zone)
                  child_name
                  type_dnskey
                  mode_ksk)
          → StepIsTrusted child_name parent (
              if b
              then descended
                  (with_keys v (k ∷ ks) zone)
                  (signing_ksk k ks check.sigs)
                  (sigs ++ check.sigs)
              else broken check.code (some (with_keys v (k ∷ ks) zone).own) (sigs ++ check.sigs))
      step check false h = tt
      step check true h =
          delegated (k ∷ ks) t s
            (match_ksks_with_ds-IsDelegated v.registry v.crypto zone.own parent.own child_name k ks
              e)
            p (trust_keys-TrustsOnly (k ∷ ks) zone.own n) (h refl)
            (trust_keys-KeysOnlyAt (k ∷ ks) child_name zone.own o)
