-- ===== src/Dnssec/SignedZone/Vouched.antt =====
-- packages/core/src/dnssec/dnssec_zone.ts: where a key comes from, and what vouches for it.
use dnsdata_js.Base.{
  ℕ, true, false, ◌&&◌, ◌||◌, ◌==◌, ==_iff, Option, none, some, List, [], ◌∷◌, All, ◌≡◌, ap, ◌∙◌,
  inl, inr, Bool-cases, Option-cases, arith,
}
use mathlib.Core.Path.{subst}
use dnsdata_js.Base.Text.{Text, text_eq, text_eq_iff}
use dnsdata_js.Base.Slices.{Bytes}
use dnsdata_js.Base.Among.{Among, here, there}
use dnsdata_js.Base.Result.{ok, >>=-eq-ok, ok_injective}
use dnsdata_js.Dnssec.Keys.{DnsKey, Ds, calc_key_tag, get_ds_digest_data, ds_digest_type_to_hash}
use dnsdata_js.Dnssec.Keys.Verify.{Crypto, verify_digest}
use dnsdata_js.Dnssec.Signer.{ResourceRecord}
use dnsdata_js.Dnssec.SignedZone.{
  ZoneState, DnssecZone, Registry, find_rrset, key_identity, has_text, is_trusted_key, matching,
  select_dnskeys, find_dnskeys, verify_delegation_signer_with_ds, matches_ds, any_ds,
  verify_delegation_signer, type_dnskey, type_ds,
}

module _ (registry : Registry) where
  -- The key is read from one of the records, and has the tag and the algorithm.
  pub record IsKeyOf (rrs : List ResourceRecord) (key_tag algorithm : ℕ) (k : DnsKey) : Type 0 where
    pub rr : ResourceRecord
    pub rr_in : Among rr rrs
    pub read : registry.dnskey_of rr ≡ ok (some k)
    pub tag_same : calc_key_tag k ≡ key_tag
    pub algorithm_same : k.algorithm ≡ algorithm

  later :
      (rr : ResourceRecord) (rrs : List ResourceRecord) (t a : ℕ) (ks : List DnsKey)
      → All (IsKeyOf rrs t a) ks
      → All (IsKeyOf (rr ∷ rrs) t a) ks
  later rr rrs t a [] h = tt
  later rr rrs t a (k ∷ ks) (h, hs) = (
    record {
      rr = h.rr;
      rr_in = there h.rr_in;
      read = h.read;
      tag_same = h.tag_same;
      algorithm_same = h.algorithm_same;
    },
    later rr rrs t a ks hs,
  )

  both_same : (a b c d : ℕ) → ((a == b) && (c == d)) ≡ true → (a ≡ b) × (c ≡ d)
  both_same a b c d h = ground arith

  matching-All :
      (rr : ResourceRecord) (rrs : List ResourceRecord) (t a : ℕ) (h : Option DnsKey)
      (found : List DnsKey)
      → registry.dnskey_of rr ≡ ok h
      → All (IsKeyOf (rr ∷ rrs) t a) found
      → All (IsKeyOf (rr ∷ rrs) t a) (matching registry t a h found)
  matching-All rr rrs t a none found e hs = hs
  matching-All rr rrs t a (some k) found e hs =
      elim (Bool-cases ((calc_key_tag k == t) && (k.algorithm == a))) [
        | inl q ↦
            let (x, y) = both_same (calc_key_tag k) t k.algorithm a q in
            rw q (record { rr = rr; rr_in = here; read = e; tag_same = x; algorithm_same = y }, hs)
        | inr f ↦ rw f hs
      ]

  select_dnskeys-All :
      (t a : ℕ) (rrs : List ResourceRecord) (ks : List DnsKey)
      → select_dnskeys registry t a rrs ≡ ok ks
      → All (IsKeyOf rrs t a) ks
  unfolding select_dnskeys
  select_dnskeys-All t a [] ks e = subst (All (IsKeyOf [] t a)) (ok_injective e) tt
  select_dnskeys-All t a (rr ∷ rrs) ks e =
      let (h, e1, e2) = >>=-eq-ok (registry.dnskey_of rr) _ e in
      let (found, e3, e4) = >>=-eq-ok (select_dnskeys registry t a rrs) _ e2 in
      subst (All (IsKeyOf (rr ∷ rrs) t a)) (ok_injective e4) (
        matching-All rr rrs t a h found e1
          (later rr rrs t a found (select_dnskeys-All t a rrs found e3)))

  -- The keys found are read from the DNSKEY RRset of the signer.
  pub find_dnskeys-All :
      (z : ZoneState) (signer : Text) (t a : ℕ) (ks : List DnsKey)
      → find_dnskeys registry z signer t a ≡ ok ks
      → All (IsKeyOf (find_rrset z signer type_dnskey) t a) ks
  unfolding find_dnskeys
  find_dnskeys-All z signer t a ks e = select_dnskeys-All t a (find_rrset z signer type_dnskey) ks e

  module _ (crypto : Crypto) where
    -- A DS record among these has the algorithm of the key and the digest of its owner and data.
    pub record HasDs (rrs : List ResourceRecord) (k : DnsKey) : Type 0 where
      pub rr : ResourceRecord
      pub rr_in : Among rr rrs
      pub ds : Ds
      pub read : registry.ds_of rr ≡ ok (some ds)
      pub algorithm_same : k.algorithm ≡ ds.algorithm
      pub hash : Text
      pub hash_known : ds_digest_type_to_hash ds.digest_type ≡ ok hash
      pub octets : Bytes
      pub octets_of_key : get_ds_digest_data k ≡ ok octets
      pub digest_same : crypto.create_hash hash octets ≡ ds.digest

    matches_ds-HasDs :
        (rr : ResourceRecord) (rrs : List ResourceRecord) (k : DnsKey) (h : Option Ds)
        → registry.ds_of rr ≡ ok h
        → matches_ds registry crypto k h ≡ ok true
        → HasDs (rr ∷ rrs) k
    unfolding matches_ds verify_delegation_signer_with_ds verify_digest
    matches_ds-HasDs rr rrs k none r e = let q : false ≡ true = ok_injective e in absurd (cc)
    matches_ds-HasDs rr rrs k (some ds) r e =
        elim (Bool-cases
          ((ds.digest_type == 1) || (ds.digest_type == 2) || (ds.digest_type == 4))) [
            | inr f ↦
                let q : ok false ≡ ok true = (rw (f, matches_ds) at e) in
                let k : false ≡ true = ok_injective q in absurd (cc)
            | inl t ↦ elim (Bool-cases (k.algorithm == ds.algorithm)) [
              | inr f ↦
                  let q : ok false ≡ ok true =
                    (rw (t, matches_ds, f, verify_delegation_signer_with_ds) at e) in
                  let k : false ≡ true = ok_injective q in absurd (cc)
              | inl s ↦
                  let (octets, e1, e2) =
                    >>=-eq-ok (get_ds_digest_data k) _
                      (rw (t, matches_ds, s, verify_delegation_signer_with_ds) at e) in
                  let (hash, e3, e4) = >>=-eq-ok (ds_digest_type_to_hash ds.digest_type) _ e2 in
                  record {
                    rr = rr;
                    rr_in = here;
                    ds = ds;
                    read = r;
                    algorithm_same = (==_iff k.algorithm ds.algorithm).0 s;
                    hash = hash;
                    hash_known = e3;
                    octets = octets;
                    octets_of_key = e1;
                    digest_same =
                        (text_eq_iff (crypto.create_hash hash octets) ds.digest).0
                          (ok_injective e4);
                  }
            ]
          ]

    HasDs-later :
        (rr : ResourceRecord) (rrs : List ResourceRecord) (k : DnsKey)
        → HasDs rrs k
        → HasDs (rr ∷ rrs) k
    HasDs-later rr rrs k h = record {
      rr = h.rr;
      rr_in = there h.rr_in;
      ds = h.ds;
      read = h.read;
      algorithm_same = h.algorithm_same;
      hash = h.hash;
      hash_known = h.hash_known;
      octets = h.octets;
      octets_of_key = h.octets_of_key;
      digest_same = h.digest_same;
    }

    any_ds-HasDs :
        (k : DnsKey) (rrs : List ResourceRecord)
        → any_ds registry crypto k rrs ≡ ok true
        → HasDs rrs k
    unfolding any_ds
    any_ds-HasDs k [] e = let q : false ≡ true = ok_injective e in absurd (cc)
    any_ds-HasDs k (rr ∷ rrs) e =
        let (h, e1, e2) = >>=-eq-ok (registry.ds_of rr) _ e in
        let (found, e3, e4) = >>=-eq-ok (matches_ds registry crypto k h) _ e2 in
        elim (Bool-cases found) [
          | inl t ↦ matches_ds-HasDs rr rrs k h e1 (e3 ∙ ap ok t)
          | inr f ↦ HasDs-later rr rrs k (any_ds-HasDs k rrs (rw f at e4))
        ]

    -- The key is a trusted one, or a DS record of its owner in the parent zone has its digest.
    pub data IsVouched (z : DnssecZone) (k : DnsKey) : Type 0 where
      trusted : Among (key_identity k) z.own.trusted_keys → IsVouched z k
      delegated :
          (p : ZoneState)
          → z.parent ≡ some p
          → HasDs (find_rrset p k.label type_ds) k
          → IsVouched z k

    has_text-Among : (s : Text) (ts : List Text) → has_text s ts ≡ true → Among s ts
    has_text-Among s [] h = absurd (cc)
    has_text-Among s (t ∷ ts) h = elim (Bool-cases (text_eq t s)) [
      | inl q ↦ subst (λ (x : Text). Among x (t ∷ ts)) ((text_eq_iff t s).0 q) here
      | inr f ↦ there (has_text-Among s ts (rw f at h))
    ]

    pub verify_delegation_signer-IsVouched :
        (z : DnssecZone) (k : DnsKey)
        → verify_delegation_signer registry crypto z k ≡ ok true
        → IsVouched z k
    unfolding verify_delegation_signer is_trusted_key
    verify_delegation_signer-IsVouched z k e =
        elim (Bool-cases (has_text (key_identity k) z.own.trusted_keys)) [
          | inl t ↦ trusted (has_text-Among (key_identity k) z.own.trusted_keys t)
          | inr f ↦ elim (Option-cases z.parent) [
            | inl n ↦
                let q : ok false ≡ ok true = (rw (f, n, verify_delegation_signer) at e) in
                let k : false ≡ true = ok_injective q in absurd (cc)
            | inr (p, n) ↦ delegated p n (
                any_ds-HasDs k (find_rrset p k.label type_ds)
                  (rw (f, n, verify_delegation_signer) at e))
          ]
        ]
