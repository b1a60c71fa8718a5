-- ===== src/Dnssec/SignedZone/Trust.antt =====
-- packages/core/src/dnssec/dnssec_zone.ts: no RRset verifies in a key mode without a key that is
-- authenticated from outside the zone.
use dnsdata_js.Base.{
  ℕ, Bool, true, false, if◌then◌else◌, any, List, [], ◌∷◌, All, ◌≡◌, refl, sym, ap, ◌∙◌, inl, inr,
  Bool-cases, Option, none, some,
}
use mathlib.Core.Path.{subst}
use dnsdata_js.Base.Text.{Text}
use dnsdata_js.Base.Among.{Among, All-Among}
use dnsdata_js.Base.Result.{Exception, Result, ok, err, stuck, >>=-eq-ok, ok_injective}
use dnsdata_js.Dnssec.Keys.{DnsKey, RrSig}
use dnsdata_js.Dnssec.Keys.Verify.{Crypto}
use dnsdata_js.Dnssec.SigCheck.{SigResult, Outcome, is_verified, rrset_verified}
use dnsdata_js.Dnssec.SigCheck.Laws.{rrset_verified-any, first_error}
use dnsdata_js.Dnssec.SignedZone.{DnssecZone, Registry, find_rrset, find_rrsigs, type_dnskey}
use dnsdata_js.Dnssec.SignedZone.Vouched.{IsKeyOf, IsVouched, find_dnskeys-All}
use dnsdata_js.Dnssec.SignedZone.Check.{
  Keys, mode_zsk, mode_ksk, authenticated_keys, check_with, keys_for_mode, keys_of_mode,
  dnskey_rrset_verified, check_rrset, only_keys, check_rrset_with, verify_rrset, result_of,
  or_throw_error,
}
use dnsdata_js.Dnssec.SignedZone.Laws.{
  any-Among, map_result-Among, Both, IsChecked, authenticated_keys-All, check_with-IsChecked,
}

or_throw_error-true : (b : Bool) (e : Option Exception) → or_throw_error b e ≡ ok true → b ≡ true
or_throw_error-true true e h = refl
or_throw_error-true false none h =
    ap (λ (r : Result Bool). elim r [ ok x ↦ x | err x ↦ false | stuck ↦ false ]) h
or_throw_error-true false (some x) h = cc

rrset_verified-is_valid :
    (rs : List SigResult)
    → (rrset_verified rs).is_valid ≡ true
    → any (λ r. is_verified r.verdict.status) rs ≡ true
rrset_verified-is_valid rs h = elim (Bool-cases (any (λ r. is_verified r.verdict.status) rs)) [
  | inl t ↦ t
  | inr f ↦
      let k : false ≡ true =
        ap (λ (o : Outcome). o.is_valid)
          (sym (
            rrset_verified-any rs
            ∙ ap
                (λ (b : Bool).
                  if b
                  then record { is_valid = true; error = none }
                  else record { is_valid = false; error = first_error rs })
                f))
        ∙ h in
      absurd (cc)
]

module _ (registry : Registry) (crypto : Crypto) (z : DnssecZone) where
  -- An RRSIG of the RRset that verified, with the keys that `select` accepts.
  pub record IsSigned (select : List DnsKey → Result Keys) (name : Text) (type : ℕ) (signer : Text)
      : Type 0 where
    pub rrsigs : List RrSig
    pub rrsigs_found : find_rrsigs registry z.own name type signer ≡ ok rrsigs
    pub rrsig : RrSig
    pub rrsig_in : Among rrsig rrsigs
    pub checked : IsChecked registry crypto z select name type rrsig

  pub results-IsSigned :
      (select : List DnsKey → Result Keys) (name : Text) (type : ℕ) (signer : Text)
      (rs : List SigResult)
      → check_rrset_with registry crypto z select name type signer ≡ ok rs
      → (rrset_verified rs).is_valid ≡ true
      → IsSigned select name type signer
  unfolding check_rrset_with
  results-IsSigned select name type signer rs e h =
      let (sigs, found, e1) = >>=-eq-ok (find_rrsigs registry z.own name type signer) _ e in
      let (r, m, v) =
        any-Among (λ r. is_verified r.verdict.status) rs (rrset_verified-is_valid rs h) in
      let (s, k, q) =
        map_result-Among (result_of registry crypto z select name type) sigs rs e1 r m in
      let (w, c, p) = >>=-eq-ok (check_with registry crypto z select name type s) _ q in
      let status : is_verified w.status ≡ true =
        ap (λ (x : SigResult). is_verified x.verdict.status) (ok_injective p) ∙ v in
      record {
        rrsigs = sigs;
        rrsigs_found = found;
        rrsig = s;
        rrsig_in = k;
        checked = check_with-IsChecked registry crypto z select name type s w c status;
      }

  verify_rrset-IsSigned :
      (name : Text) (type mode : ℕ) (signer : Text)
      → verify_rrset registry crypto z name type mode signer ≡ ok true
      → IsSigned (keys_for_mode registry crypto z mode) name type signer
  unfolding verify_rrset check_rrset
  verify_rrset-IsSigned name type mode signer e =
      let (rs, c, q) = >>=-eq-ok (check_rrset registry crypto z name type mode signer) _ e in
      results-IsSigned (keys_for_mode registry crypto z mode) name type signer rs c
        (or_throw_error-true (rrset_verified rs).is_valid _ q)

  -- The key of a check is read from the DNSKEY RRset of the signer, with its tag and algorithm.
  abbrev pub SignerKey : RrSig → DnsKey → Type 0
  SignerKey s = IsKeyOf registry (find_rrset z.own s.signer type_dnskey) s.key_tag s.algorithm

  candidates-All :
      {select : List DnsKey → Result Keys} {name : Text} {type : ℕ} (s : RrSig)
      (c : IsChecked registry crypto z select name type s)
      → All (SignerKey s) c.candidates
  candidates-All s c =
      find_dnskeys-All registry z.own s.signer s.key_tag s.algorithm c.candidates c.found

  keys_for_mode-ksk :
      (P : DnsKey → Type 0) (ks : List DnsKey) (a : Keys)
      → keys_for_mode registry crypto z mode_ksk ks ≡ ok a
      → All P ks
      → All (Both registry crypto z P) a.keys
  unfolding keys_for_mode keys_of_mode
  keys_for_mode-ksk P [] a e h =
      subst (λ (x : Keys). All (Both registry crypto z P) x.keys) (ok_injective e) tt
  keys_for_mode-ksk P (k ∷ ks) a e h = authenticated_keys-All registry crypto z P (k ∷ ks) a e h

  -- Where `verify_rrset` returns true in KSK mode, there is an RRSIG of the RRset whose inception and
  -- expiration enclose the time of the clock, if the zone has one. Its signature over the RRset's
  -- digest target verifies under a key that is read from the DNSKEY RRset of the signer, with the key
  -- tag and algorithm of the RRSIG. The key is a trusted one, or a DS record of its owner in the
  -- parent zone has its algorithm and its digest.
  pub verify_rrset-ksk :
      (name : Text) (type : ℕ) (signer : Text)
      → verify_rrset registry crypto z name type mode_ksk signer ≡ ok true
      → (s : IsSigned (keys_for_mode registry crypto z mode_ksk) name type signer) × SignerKey
          s.rrsig s.checked.key
        × IsVouched registry crypto z s.checked.key
  verify_rrset-ksk name type signer e =
      let s = verify_rrset-IsSigned name type mode_ksk signer e in
      let (k, v) =
        All-Among (Both registry crypto z (SignerKey s.rrsig)) s.checked.key s.checked.accepted.keys
          s.checked.key_in
          (keys_for_mode-ksk (SignerKey s.rrsig) s.checked.candidates s.checked.accepted
            s.checked.selected (candidates-All s.rrsig s.checked)) in
      (s, k, v)

  -- The DNSKEY RRset of the owner has a signature by a key of its signer that is vouched for.
  pub record HasSignedKeys (owner : Text) : Type 0 where
    pub signed : IsSigned (authenticated_keys registry crypto z) owner type_dnskey []
    pub signer_key : SignerKey signed.rrsig signed.checked.key
    pub vouched : IsVouched registry crypto z signed.checked.key

  dnskey_rrset_verified-HasSignedKeys :
      (owner : Text) (o : Outcome)
      → dnskey_rrset_verified registry crypto z owner ≡ ok o
      → o.is_valid ≡ true
      → HasSignedKeys owner
  unfolding dnskey_rrset_verified
  dnskey_rrset_verified-HasSignedKeys owner o e h =
      let (rs, c, q) =
        >>=-eq-ok
          (check_rrset_with registry crypto z (authenticated_keys registry crypto z) owner
            type_dnskey [])
          _ e in
      let s =
        results-IsSigned (authenticated_keys registry crypto z) owner type_dnskey [] rs c
          (ap (λ (x : Outcome). x.is_valid) (ok_injective q) ∙ h) in
      let (k, v) =
        All-Among (Both registry crypto z (SignerKey s.rrsig)) s.checked.key s.checked.accepted.keys
          s.checked.key_in
          (authenticated_keys-All registry crypto z (SignerKey s.rrsig) s.checked.candidates
            s.checked.accepted s.checked.selected (candidates-All s.rrsig s.checked)) in
      record { signed = s; signer_key = k; vouched = v }

  -- A key with property `P`, and one with `P` at whose owner the DNSKEY RRset is signed.
  pub record IsZoneKey (P : DnsKey → Type 0) (k : DnsKey) : Type 0 where
    pub key_is : P k
    pub first : DnsKey
    pub first_is : P first
    pub signed_keys : HasSignedKeys first.label

  keys_for_mode-zsk :
      (P : DnsKey → Type 0) (ks : List DnsKey) (a : Keys) (k : DnsKey)
      → keys_for_mode registry crypto z mode_zsk ks ≡ ok a
      → Among k a.keys
      → All P ks
      → IsZoneKey P k
  unfolding keys_for_mode keys_of_mode
  keys_for_mode-zsk P [] a k e m h =
      let n = subst (λ (x : Keys). Among k x.keys) (sym (ok_injective e)) m in elim n [ ]
  keys_for_mode-zsk P (j ∷ ks) a k e m (p, h) =
      let (o, c, q) = >>=-eq-ok (dnskey_rrset_verified registry crypto z j.label) _ e in
      elim (Bool-cases o.is_valid) [
        | inl t ↦
            let r : ok (only_keys (j ∷ ks)) ≡ ok a = (rw t at q) in
            record {
              key_is =
                  All-Among P k (j ∷ ks)
                    (subst (λ (x : Keys). Among k x.keys) (sym (ok_injective r)) m) (p, h);
              first = j;
              first_is = p;
              signed_keys = dnskey_rrset_verified-HasSignedKeys j.label o c t;
            }
        | inr f ↦
            let r : ok (record { keys = []; error = o.error }) ≡ ok a = (rw f at q) in
            let n = subst (λ (x : Keys). Among k x.keys) (sym (ok_injective r)) m in elim n [ ]
      ]

  -- Where `verify_rrset` returns true in ZSK mode, there is an RRSIG of the RRset that encloses the
  -- time of the clock, if the zone has one, and it verifies under a key that is read from the DNSKEY
  -- RRset of the signer, with the key tag and algorithm of the RRSIG. At the owner of a key that is
  -- read in the same way, the DNSKEY RRset has an RRSIG of the same kind, whose key is a trusted one, or has the
  -- algorithm and the digest of a DS record of its owner in the parent zone.
  pub verify_rrset-zsk :
      (name : Text) (type : ℕ) (signer : Text)
      → verify_rrset registry crypto z name type mode_zsk signer ≡ ok true
      → (s : IsSigned (keys_for_mode registry crypto z mode_zsk) name type signer) × IsZoneKey
          (SignerKey s.rrsig)
          s.checked.key
  verify_rrset-zsk name type signer e =
      let s = verify_rrset-IsSigned name type mode_zsk signer e in
      (
        s,
        keys_for_mode-zsk (SignerKey s.rrsig) s.checked.candidates s.checked.accepted s.checked.key
            s.checked.selected s.checked.key_in (candidates-All s.rrsig s.checked),
      )
