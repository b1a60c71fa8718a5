-- ===== src/Verifier/Ksks/Laws.antt =====
-- packages/core/src/verifier/chain.ts: what the matched keys match.
use dnsdata_js.Base.{List, [], ◌∷◌, ◌++◌, is_empty, All, ◌≡◌, refl, sym, ◌∙◌, inl, inr, Bool-cases}
use mathlib.Core.Path.{subst}
use dnsdata_js.Base.Among.{Among, here, there}
use dnsdata_js.Base.Text.{Text, dot}
use dnsdata_js.Base.Result.{ok, >>=-eq-ok}
use dnsdata_js.Dnssec.Keys.{DnsKey, Ds}
use dnsdata_js.Dnssec.Keys.Verify.{Crypto}
use dnsdata_js.Dnssec.SignedZone.{
  ZoneState, Registry, add_trusted_key, key_identity, has_text, find_rrset, type_dnskey,
}
use dnsdata_js.Verifier.Ksks.{
  Anchor, filter_result, dnskeys_at, dses_at, matches_anchor, match_ksks_with_anchors,
  matches_ds_of, ksks, or_mismatch, match_ksks_with_ds, trust_keys,
}
use dnsdata_js.Verifier.Ksks.Digests.{
  HasDigest, filter_result-All, any_result-Among, matches_anchor-HasDigest, matches_ds_of-HasDigest,
}

All-map {ℓ} :
    {A : Type ℓ} (P Q : A → Type 0) (xs : List A) → ((x : A) → P x → Q x) → All P xs → All Q xs
All-map P Q [] f h = tt
All-map P Q (x ∷ xs) f (p, h) = (f x p, All-map P Q xs f h)

-- A key that an anchor stands for.
pub record IsAnchored (crypto : Crypto) (anchors : List Anchor) (k : DnsKey) : Type 0 where
  pub anchor : Anchor
  pub anchor_in : Among anchor anchors
  pub digest : HasDigest crypto k anchor.key_tag anchor.algorithm anchor.digest_type anchor.digest

-- A key that a DS record of the parent stands for.
pub record IsDelegated (registry : Registry) (crypto : Crypto) (parent : ZoneState) (name : Text)
    (k : DnsKey) : Type 0 where
  pub dses : List Ds
  pub dses_there : dses_at registry parent name ≡ ok dses
  pub ds : Ds
  pub ds_in : Among ds dses
  pub digest : HasDigest crypto k ds.key_tag ds.algorithm ds.digest_type ds.digest

module _ (registry : Registry) (crypto : Crypto) where
  pub match_ksks_with_anchors-IsAnchored :
      (anchors : List Anchor) (z : ZoneState) (keys : List DnsKey)
      → match_ksks_with_anchors registry crypto anchors z ≡ ok keys
      → All (IsAnchored crypto anchors) keys
  unfolding match_ksks_with_anchors
  match_ksks_with_anchors-IsAnchored anchors z keys e =
      let (found, e1, e2) = >>=-eq-ok (dnskeys_at registry z (dot ∷ [])) _ e in
      All-map _ (IsAnchored crypto anchors) keys
        (λ k h.
          let (a, m, q) = any_result-Among (matches_anchor crypto k) anchors h in
          record { anchor = a; anchor_in = m; digest = matches_anchor-HasDigest crypto k a q })
        (filter_result-All _ found keys e2)

  or_mismatch-ksks :
      (ks rest : List DnsKey) (k : DnsKey)
      → ok (or_mismatch ks) ≡ ok (ksks k rest)
      → (ks ≡ k ∷ rest)
  or_mismatch-ksks [] rest k e = cc
  or_mismatch-ksks (x ∷ ks) rest k e = cc

  pub match_ksks_with_ds-IsDelegated :
      (child parent : ZoneState) (name : Text) (k : DnsKey) (ks : List DnsKey)
      → match_ksks_with_ds registry crypto child parent name ≡ ok (ksks k ks)
      → All (IsDelegated registry crypto parent name) (k ∷ ks)
  unfolding match_ksks_with_ds
  match_ksks_with_ds-IsDelegated child parent name k ks e =
      elim (Bool-cases (is_empty (find_rrset child name type_dnskey))) [
        | inl t ↦ let q = (rw (t, match_ksks_with_ds) at e) in cc
        | inr f ↦
            let e = (rw (f, match_ksks_with_ds) at e) in
            let (dses, e1, e2) = >>=-eq-ok (dses_at registry parent name) _ e in
            let (keys, e3, e4) = >>=-eq-ok (dnskeys_at registry child name) _ e2 in
            let (kept, e5, e6) = >>=-eq-ok (filter_result _ keys) _ e4 in
            All-map _ (IsDelegated registry crypto parent name) (k ∷ ks)
              (λ k h.
                let (d, m, q) = any_result-Among (matches_ds_of crypto k) dses h in
                record {
                  dses = dses;
                  dses_there = e1;
                  ds = d;
                  ds_in = m;
                  digest = matches_ds_of-HasDigest crypto k d q;
                })
              (subst (All _) (or_mismatch-ksks kept ks k e6) (filter_result-All _ keys kept e5))
      ]

-- The zone trusts keys of the list only.
abbrev pub TrustsOnly : List DnsKey → ZoneState → Type 0
TrustsOnly keys z = All (λ t. (k : DnsKey) × Among k keys × (key_identity k ≡ t)) z.trusted_keys

All-snoc : (P : Text → Type 0) (ts : List Text) (t : Text) → All P ts → P t → All P (ts ++ t ∷ [])
All-snoc P [] t h p = (p, tt)
All-snoc P (x ∷ ts) t (q, h) p = (q, All-snoc P ts t h p)

trust_keys-from :
    (keys ks : List DnsKey) (z : ZoneState)
    → All (λ k. Among k keys) ks
    → TrustsOnly keys z
    → TrustsOnly keys (trust_keys ks z)
unfolding trust_keys add_trusted_key
trust_keys-from keys [] z a h = h
trust_keys-from keys (k ∷ ks) z (m, a) h =
    trust_keys-from keys ks (add_trusted_key k z) a
      (elim (Bool-cases (has_text (key_identity k) z.trusted_keys)) [
        | inl t ↦ rw (t, add_trusted_key) h
        | inr f ↦
            rw (f, add_trusted_key) (All-snoc _ z.trusted_keys (key_identity k) h (k, m, refl))
      ])

among_all : (ks : List DnsKey) → All (λ k. Among k ks) ks
among_all [] = tt
among_all (k ∷ ks) = (here, All-map _ _ ks (λ x m. there m) (among_all ks))

pub trust_keys-TrustsOnly :
    (ks : List DnsKey) (z : ZoneState) → z.trusted_keys ≡ [] → TrustsOnly ks (trust_keys ks z)
trust_keys-TrustsOnly ks z e =
    trust_keys-from ks ks z (among_all ks)
      (subst (All (λ t. (k : DnsKey) × Among k ks × (key_identity k ≡ t))) (sym e) tt)

-- Nothing else changes.
pub trust_keys-records : (ks : List DnsKey) (z : ZoneState) → (trust_keys ks z).records ≡ z.records
unfolding trust_keys add_trusted_key
trust_keys-records [] z = refl
trust_keys-records (k ∷ ks) z =
    trust_keys-records ks (add_trusted_key k z)
    ∙ elim (Bool-cases (has_text (key_identity k) z.trusted_keys)) [
      | inl t ↦ rw (t, add_trusted_key) refl
      | inr f ↦ rw (f, add_trusted_key) refl
    ]
