-- ===== src/Verifier/Ksks/Digests.antt =====
-- packages/core/src/verifier/chain.ts: a key that matches an anchor or a DS record has its digest.
use dnsdata_js.Base.{
  ℕ, Bool, true, false, ◌&&◌, if◌then◌else◌, ◌==◌, some, List, [], ◌∷◌, All, ◌≡◌, ap, ◌∙◌, inl, inr,
  Bool-cases, Option-cases, arith,
}
use mathlib.Core.Path.{subst}
use dnsdata_js.Base.Among.{Among, here, there}
use dnsdata_js.Base.Text.{Text, text_eq, text_eq_iff}
use dnsdata_js.Base.Slices.{Bytes}
use dnsdata_js.Base.Result.{Result, ok, >>=-eq-ok, ok_injective}
use dnsdata_js.Dnssec.Keys.{DnsKey, Ds, calc_key_tag, get_ds_digest_data, ds_digest_type_to_hash}
use dnsdata_js.Dnssec.Keys.Verify.{Crypto, verify_digest}
use dnsdata_js.Verifier.Ksks.{
  Anchor, any_result, filter_result, ds_digest_algorithm, verify_anchor_digest, matches_anchor,
  matches_ds_of,
}

-- What passes a filter passes its test.
pub filter_result-All :
    {A : Type 0} (p : A → Result Bool) (xs kept : List A)
    → filter_result p xs ≡ ok kept
    → All (λ x. p x ≡ ok true) kept
unfolding filter_result
filter_result-All {A = A} p [] kept e = subst (All (λ x. p x ≡ ok true)) (ok_injective e) tt
filter_result-All {A = A} p (x ∷ xs) kept e =
    let (keep, e1, e2) = >>=-eq-ok (p x) _ e in
    let (rest, e3, e4) = >>=-eq-ok (filter_result p xs) _ e2 in
    let ih = filter_result-All p xs rest e3 in
    subst (All (λ x. p x ≡ ok true)) (ok_injective e4) (added x rest keep e1 ih)
  where
    added :
        (x : A) (rest : List A) (keep : Bool)
        → p x ≡ ok keep
        → All (λ x. p x ≡ ok true) rest
        → All (λ x. p x ≡ ok true) (if keep then x ∷ rest else rest)
    added x rest true h k = (h, k)
    added x rest false h k = k

pub any_result-Among :
    {A : Type 0} (p : A → Result Bool) (xs : List A)
    → any_result p xs ≡ ok true
    → (x : A) × Among x xs × (p x ≡ ok true)
unfolding any_result
any_result-Among p [] e = let k : false ≡ true = ok_injective e in absurd (cc)
any_result-Among p (x ∷ xs) e =
    let (found, e1, e2) = >>=-eq-ok (p x) _ e in
    elim (Bool-cases found) [
      | inl t ↦ (x, here, e1 ∙ ap ok t)
      | inr f ↦ let (y, m, h) = any_result-Among p xs (rw f at e2) in (y, there m, h)
    ]

-- The key has the tag and the algorithm, and the digest of its owner and data is the one given.
pub record HasDigest (crypto : Crypto) (k : DnsKey) (key_tag algorithm digest_type : ℕ)
    (digest : Bytes) : Type 0 where
  pub tag_same : key_tag ≡ calc_key_tag k
  pub algorithm_same : algorithm ≡ k.algorithm
  pub hash : Text
  pub hash_known : ds_digest_algorithm digest_type ≡ some hash
  pub octets : Bytes
  pub octets_of_key : get_ds_digest_data k ≡ ok octets
  pub digest_same : crypto.create_hash hash octets ≡ digest

both_same : (a b c d : ℕ) → ((a == b) && (c == d)) ≡ true → (a ≡ b) × (c ≡ d)
both_same a b c d h = ground arith

ok_text_eq : (a b : Text) → ok (text_eq a b) ≡ ok true → a ≡ b
ok_text_eq a b h = (text_eq_iff a b).0 (ok_injective h)

hash-ds_digest_algorithm :
    (t : ℕ) (h : Text) → ds_digest_type_to_hash t ≡ ok h → ds_digest_algorithm t ≡ some h
unfolding ds_digest_type_to_hash ds_digest_algorithm
hash-ds_digest_algorithm t h e = elim (Bool-cases (t == 1)) [
  | inl q ↦ rw q (ap some (ok_injective (rw q at e)))
  | inr n ↦
      let e = (rw n at e) in
      rw n (elim (Bool-cases (t == 2)) [
        | inl q ↦ rw q (ap some (ok_injective (rw q at e)))
        | inr n ↦
            let e = (rw n at e) in
            rw n (elim (Bool-cases (t == 4)) [
              | inl q ↦ rw q (ap some (ok_injective (rw q at e)))
              | inr n ↦ let e = (rw n at e) in cc
            ])
      ])
]

module _ (crypto : Crypto) where
  verify_anchor_digest-HasDigest :
      (k : DnsKey) (a : Anchor)
      → a.key_tag ≡ calc_key_tag k
      → a.algorithm ≡ k.algorithm
      → verify_anchor_digest crypto k a ≡ ok true
      → HasDigest crypto k a.key_tag a.algorithm a.digest_type a.digest
  unfolding verify_anchor_digest
  verify_anchor_digest-HasDigest k a t s e =
      elim (Option-cases (ds_digest_algorithm a.digest_type)) [
        | inl n ↦
            let q : ok false ≡ ok true = (rw (n, verify_anchor_digest) at e) in
            let k : false ≡ true = ok_injective q in absurd (cc)
        | inr (algo, n) ↦
            let (octets, e1, e2) =
              >>=-eq-ok (get_ds_digest_data k) _ (rw (n, verify_anchor_digest) at e) in
            record {
              tag_same = t;
              algorithm_same = s;
              hash = algo;
              hash_known = n;
              octets = octets;
              octets_of_key = e1;
              digest_same = ok_text_eq _ _ e2;
            }
      ]

  pub matches_anchor-HasDigest :
      (k : DnsKey) (a : Anchor)
      → matches_anchor crypto k a ≡ ok true
      → HasDigest crypto k a.key_tag a.algorithm a.digest_type a.digest
  unfolding matches_anchor
  matches_anchor-HasDigest k a e =
      elim (Bool-cases ((a.key_tag == calc_key_tag k) && (a.algorithm == k.algorithm))) [
        | inl t ↦
            let (p, q) = both_same a.key_tag (calc_key_tag k) a.algorithm k.algorithm t in
            verify_anchor_digest-HasDigest k a p q (rw (t, matches_anchor) at e)
        | inr f ↦
            let q : ok false ≡ ok true = (rw (f, matches_anchor) at e) in
            let k : false ≡ true = ok_injective q in absurd (cc)
      ]

  pub matches_ds_of-HasDigest :
      (k : DnsKey) (d : Ds)
      → matches_ds_of crypto k d ≡ ok true
      → HasDigest crypto k d.key_tag d.algorithm d.digest_type d.digest
  unfolding matches_ds_of verify_digest
  matches_ds_of-HasDigest k d e =
      elim (Bool-cases ((d.key_tag == calc_key_tag k) && (d.algorithm == k.algorithm))) [
        | inl t ↦
            let (p, q) = both_same d.key_tag (calc_key_tag k) d.algorithm k.algorithm t in
            let (octets, e1, e2) =
              >>=-eq-ok (get_ds_digest_data k) _ (rw (t, matches_ds_of) at e) in
            let (hash, e3, e4) = >>=-eq-ok (ds_digest_type_to_hash d.digest_type) _ e2 in
            record {
              tag_same = p;
              algorithm_same = q;
              hash = hash;
              hash_known = hash-ds_digest_algorithm d.digest_type hash e3;
              octets = octets;
              octets_of_key = e1;
              digest_same = ok_text_eq _ _ e4;
            }
        | inr f ↦
            let q : ok false ≡ ok true = (rw (f, matches_ds_of) at e) in
            let k : false ≡ true = ok_injective q in absurd (cc)
      ]
