-- ===== src/Verifier/Steps.antt =====
-- packages/core/src/verifier/sigcheck.ts and reason.ts: the checks of signatures, and the steps that
-- keep each of them once.
use dnsdata_js.Base.{
  ℕ, Bool, true, false, ◌&&◌, if◌then◌else◌, ◌==◌, any, is_empty, Option, none, some, List, [], ◌∷◌,
  ◌++◌, map,
}
use dnsdata_js.Base.Text.{Text, text_eq}
use dnsdata_js.Base.Result.{Exception}
use dnsdata_js.Dnssec.Keys.Verify.{Crypto}
use dnsdata_js.Dnssec.SigCheck.{
  SigStatus, SigResult, verified, expired, not_yet_valid, unsupported, invalid, rrset_verified,
}
use dnsdata_js.Dnssec.SignedZone.{DnssecZone, Registry}
use dnsdata_js.Dnssec.SignedZone.Check
use dnsdata_js.Verifier.Walk.{
  ReasonCode, no_rrsig, sig_invalid, sig_expired, sig_not_yet_valid, unsupported_algorithm,
  SigCheck, ZoneStep, WalkResult, Walk, VerifierError, check_failed, return, throw_error, of_result,
  update_result, get_world, ◌>>=◌, ◌>>◌,
}
pub mod Laws

unfoldable pub status_number : SigStatus → ℕ
status_number verified = 0
status_number expired = 1
status_number not_yet_valid = 2
status_number unsupported = 3
status_number SigStatus.no_matching_key = 4
status_number invalid = 5

-- `===` on two statuses
unfoldable pub same_status : SigStatus → SigStatus → Bool
unfolding status_number
same_status a b = status_number a == status_number b

-- One for each result.
unfoldable pub sig_checks : Text → List SigResult → List SigCheck
sig_checks name [] = []
sig_checks name (r ∷ rs) =
    record {
      name = name;
      rr_type = r.rrsig.type_covered;
      key_tag = r.rrsig.key_tag;
      algorithm = r.rrsig.algorithm;
      signer = r.rrsig.signer;
      inception = r.rrsig.inception;
      expiration = r.rrsig.expire;
      result = r.verdict.status;
    }
    ∷ sig_checks name rs

unfoldable pub same_check : SigCheck → SigCheck → Bool
unfolding text_eq same_status
same_check a b =
    text_eq a.name b.name
    && (a.rr_type == b.rr_type)
    && (a.key_tag == b.key_tag)
    && (a.algorithm == b.algorithm)
    && text_eq a.signer b.signer
    && same_status a.result b.result
    && (a.inception == b.inception)
    && (a.expiration == b.expiration)

unfoldable pub add_sigs : List SigCheck → List SigCheck → List SigCheck
unfolding same_check
add_sigs held [] = held
add_sigs held (c ∷ cs) =
    add_sigs (if any (λ s. same_check s c) held then held else held ++ c ∷ []) cs

-- The step of the zone takes the checks that it lacks; a zone without a step gets one.
unfoldable pub add_to_chain : ZoneStep → List ZoneStep → List ZoneStep
unfolding text_eq add_sigs
add_to_chain step [] = record step { signatures = add_sigs [] step.signatures } ∷ []
add_to_chain step (s ∷ ss) =
    let rest = add_to_chain step ss in
    if text_eq s.zone step.zone
    then record s { signatures = add_sigs s.signatures step.signatures } ∷ ss
    else s ∷ rest

unfoldable pub add_step : ZoneStep → Walk (Unit {0})
unfolding add_to_chain
add_step step = update_result (λ r. record r { chain = add_to_chain step r.chain })

unfoldable pub add_zone_sigs : Text → List SigCheck → Walk (Unit {0})
unfolding add_step
add_zone_sigs zone_name checks = add_step record {
  zone = zone_name;
  dnskeys = [];
  ds_digests = [];
  signed_by = none;
  signatures = checks;
}

-- `SIG_FAILURE_ORDER`
abbrev pub sig_failure_order : List (SigStatus × ReasonCode)
sig_failure_order =
    (expired, sig_expired)
    ∷ (not_yet_valid, sig_not_yet_valid)
    ∷ (invalid, sig_invalid)
    ∷ (SigStatus.no_matching_key, ReasonCode.no_matching_key)
    ∷ (unsupported, unsupported_algorithm)
    ∷ []

unfoldable pub first_failure : List (SigStatus × ReasonCode) → List SigResult → ReasonCode
unfolding same_status
first_failure [] rs = sig_invalid
first_failure ((status, code) ∷ order) rs =
    let rest = first_failure order rs in
    if any (λ r. same_status r.verdict.status status) rs then code else rest

unfoldable pub sig_failure_code : List SigResult → ReasonCode
unfolding first_failure
sig_failure_code rs = if is_empty rs then no_rrsig else first_failure sig_failure_order rs

-- `RRSetCheck`
pub record RrsetCheck : Type 0 where
  pub is_ok : Bool
  pub code : Option ReasonCode
  pub sigs : List SigCheck

unfoldable pub rrset_check : Text → List SigResult → Bool → RrsetCheck
unfolding sig_checks sig_failure_code
rrset_check name rs ok_ = record {
  is_ok = ok_;
  code = if ok_ then none else some (sig_failure_code rs);
  sigs = sig_checks name rs;
}

abbrev pub is_unsupported : Option ReasonCode → Bool
is_unsupported (some unsupported_algorithm) = true
is_unsupported _ = false

-- `error === undefined`, or one of the two errors.
unfoldable pub or_check_error : RrsetCheck → Option Exception → Walk RrsetCheck
or_check_error check none = return check
or_check_error check (some e) =
    if is_unsupported check.code
    then (update_result (λ r. record r { reason_code = check.code })
        >> (get_world >>= λ w. throw_error (VerifierError.unsupported w.result)))
    else throw_error (check_failed e)

unfoldable pub check_rrset : Registry → Crypto → DnssecZone → Text → ℕ → ℕ → Walk RrsetCheck
unfolding Check.check_rrset rrset_verified rrset_check or_check_error
check_rrset registry crypto z name rrtype mode =
    of_result (Check.check_rrset registry crypto z name rrtype mode []) >>= λ results.
    or_check_error (rrset_check name results (rrset_verified results).is_valid)
      (rrset_verified results).error
