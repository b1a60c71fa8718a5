-- ===== src/Verifier/Steps/Laws.antt =====
-- packages/core/src/verifier/reason.ts: an RRset that passes the check is signed.
use dnsdata_js.Base.{ℕ, true, Option, none, some, List, [], ◌≡◌, refl, ap, ◌∙◌, sym}
use dnsdata_js.Base.Text.{Text}
use dnsdata_js.Base.Result.{Exception, ok}
use dnsdata_js.Dnssec.Keys.Verify.{Crypto}
use dnsdata_js.Dnssec.SigCheck.{SigResult, rrset_verified}
use dnsdata_js.Dnssec.SignedZone.{DnssecZone, Registry}
use dnsdata_js.Dnssec.SignedZone.Check
use dnsdata_js.Dnssec.SignedZone.Check.{keys_for_mode}
use dnsdata_js.Dnssec.SignedZone.Trust.{IsSigned, results-IsSigned}
use dnsdata_js.Verifier.Walk.{get_world, unsupported, update_result}
use dnsdata_js.Verifier.Walk.Laws.{
  Ensures, Ensures->>=, Ensures-then, Ensures-of_result, Ensures-return, Ensures-throw_error,
  Ensures-if, Ensures-weaken,
}
use dnsdata_js.Verifier.Steps.{RrsetCheck, rrset_check, or_check_error, check_rrset, is_unsupported}

or_check_error-same :
    (check : RrsetCheck) (e : Option Exception) → Ensures (λ c. c ≡ check) (or_check_error check e)
unfolding or_check_error
or_check_error-same check none = Ensures-return _ check refl
or_check_error-same check (some e) =
    Ensures-if _ (is_unsupported check.code) _ _
      (λ t.
        Ensures-then _ (update_result (λ r. record r { reason_code = check.code })) _
          (λ u. Ensures-then _ get_world _ (λ w. Ensures-throw_error _ (unsupported w.result))))
      (λ f. Ensures-throw_error _ _)

module _ (registry : Registry) (crypto : Crypto) (z : DnssecZone) (name : Text)
    (type mode : ℕ) where
  -- An RRSIG over the RRset verifies under a key that the mode accepts.
  abbrev pub Signed : Type 0
  Signed = IsSigned registry crypto z (keys_for_mode registry crypto z mode) name type []

  abbrev pub SignedIfOk : RrsetCheck → Type 0
  SignedIfOk c = c.is_ok ≡ true → Signed

  pub check_rrset-Signed : Ensures SignedIfOk (check_rrset registry crypto z name type mode)
  unfolding check_rrset rrset_check Check.check_rrset
  check_rrset-Signed =
      Ensures->>= (λ rs. Check.check_rrset registry crypto z name type mode [] ≡ ok rs) SignedIfOk _
        _ (Ensures-of_result (Check.check_rrset registry crypto z name type mode []))
        (λ rs e. checked rs e (rrset_verified rs).error)
    where
      checked :
          (rs : List SigResult)
          → Check.check_rrset registry crypto z name type mode [] ≡ ok rs
          → (o : Option Exception)
          → Ensures SignedIfOk (or_check_error (rrset_check name rs (rrset_verified rs).is_valid) o)
      checked rs e o = Ensures-weaken _ SignedIfOk _ (or_check_error-same _ o) (λ c q h.
          results-IsSigned registry crypto z (keys_for_mode registry crypto z mode) name type [] rs
            e (ap (λ (x : RrsetCheck). x.is_ok) (sym q) ∙ h))
