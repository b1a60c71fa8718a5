-- ===== src/Dnssec/SigCheck/Laws.antt =====
-- packages/core/src/dnssec/sigcheck.ts: any signature, and any key, that verifies is enough.
use dnsdata_js.Base.{
  Bool, true, false, if◌then◌else◌, Option, none, some, List, [], ◌∷◌, any, ◌≡◌, refl, ap, ◌∙◌, inl,
  inr, Bool-cases,
}
use dnsdata_js.Base.Slices.{Bytes}
use dnsdata_js.Base.Among.{Among, here, there}
use dnsdata_js.Base.Result.{Exception, Result, ok, err, stuck}
use dnsdata_js.Dnssec.Keys.{DnsKey}
use dnsdata_js.Dnssec.SigCheck.{
  SigVerdict, SigResult, is_verified, or_first, verified_from, rrset_verified, verifiable_algorithm,
  verify_status, verify_with_rest, verify_with_any, status_of,
}

-- The first error in the list.
unfoldable pub first_error : List SigResult → Option Exception
first_error [] = none
first_error (r ∷ rs) = or_first r.verdict.error (first_error rs)

or_first_assoc : (a b d : Option Exception) → or_first (or_first a b) d ≡ or_first a (or_first b d)
or_first_assoc (some e) b d = refl
or_first_assoc none b d = refl

verified_from-any :
    (first : Option Exception) (rs : List SigResult)
    → verified_from first rs ≡ (
        if any (λ r. is_verified r.verdict.status) rs
        then record { is_valid = true; error = none }
        else record { is_valid = false; error = or_first first (first_error rs) })
unfolding verified_from first_error
verified_from-any none [] = refl
verified_from-any (some e) [] = refl
verified_from-any first (r ∷ rs) = elim (Bool-cases (is_verified r.verdict.status)) [
  | inl t ↦ rw t refl
  | inr f ↦ rw f (
      verified_from-any (or_first first r.verdict.error) rs
      ∙ ap
          (λ (o : Option Exception).
            if any (λ r. is_verified r.verdict.status) rs
            then record { is_valid = true; error = none }
            else record { is_valid = false; error = o })
          (or_first_assoc first r.verdict.error (first_error rs)))
]

-- `rrset_verified` is true exactly where some result verified, and otherwise has the first error of
-- the results, if there is one.
pub rrset_verified-any :
    (rs : List SigResult)
    → rrset_verified rs ≡ (
        if any (λ r. is_verified r.verdict.status) rs
        then record { is_valid = true; error = none }
        else record { is_valid = false; error = first_error rs })
unfolding rrset_verified
rrset_verified-any rs = verified_from-any none rs

module _ (verify : DnsKey → Bytes → Bytes → Result Bool) (data_ signature : Bytes) where
  -- A key of an algorithm that the library verifies, under which the signature verifies.
  pub record Verifies (k : DnsKey) : Type 0 where
    pub algorithm_known : verifiable_algorithm k.algorithm ≡ true
    pub signature_valid : verify k data_ signature ≡ ok true

  status_of-verified :
      (r : Result Bool) → is_verified (status_of verify r).status ≡ true → r ≡ ok true
  status_of-verified (ok true) h = refl
  status_of-verified (ok false) h = cc
  status_of-verified (err e) h = cc
  status_of-verified stuck h = cc

  verify_status-Verifies :
      (k : DnsKey) → is_verified (verify_status verify k data_ signature).status ≡ true → Verifies k
  unfolding verify_status
  verify_status-Verifies k h = elim (Bool-cases (verifiable_algorithm k.algorithm)) [
    | inl t ↦ record {
      algorithm_known = t;
      signature_valid = status_of-verified _ (rw (t, verify_status) at h);
    }
    | inr f ↦ let r = (rw (f, verify_status) at h) in absurd (cc)
  ]

  verify_with_rest-Verifies :
      (first : SigVerdict) (ks : List DnsKey)
      → is_verified first.status ≡ false
      → is_verified (verify_with_rest verify first ks data_ signature).status ≡ true
      → (k : DnsKey) × Among k ks × Verifies k
  unfolding verify_with_rest
  verify_with_rest-Verifies first [] f h = absurd (cc)
  verify_with_rest-Verifies first (k ∷ ks) f h =
      elim (Bool-cases (is_verified (verify_status verify k data_ signature).status)) [
        | inl t ↦ (k, here, verify_status-Verifies k t)
        | inr g ↦
            let (j, m, v) = verify_with_rest-Verifies first ks f (rw (g, verify_with_rest) at h) in
            (j, there m, v)
      ]

  -- Where `verify_with_any` says verified, a key of the list verifies the signature.
  pub verify_with_any-Verifies :
      (ks : List DnsKey)
      → is_verified (verify_with_any verify ks data_ signature).status ≡ true
      → (k : DnsKey) × Among k ks × Verifies k
  unfolding verify_with_any
  verify_with_any-Verifies [] h = absurd (cc)
  verify_with_any-Verifies (k ∷ ks) h =
      elim (Bool-cases (is_verified (verify_status verify k data_ signature).status)) [
        | inl t ↦ (k, here, verify_status-Verifies k t)
        | inr g ↦
            let (j, m, v) =
              verify_with_rest-Verifies (verify_status verify k data_ signature) ks g
                (rw (g, verify_with_any) at h) in
            (j, there m, v)
      ]
