-- ===== src/Dnssec/SignedZone/Laws.antt =====
-- packages/core/src/dnssec/dnssec_zone.ts: what a successful check of an RRset rests on.
use dnsdata_js.Base.{
  ℕ, Bool, true, false, is_empty, any, Option, none, some, List, [], ◌∷◌, All, ◌≡◌, refl, sym, ap,
  ◌∙◌, inl, inr, Bool-cases, ◌/◌, ◌≤◌, ltb, arith,
}
use mathlib.Core.Path.{subst}
use dnsdata_js.Base.Text.{Text}
use dnsdata_js.Base.Slices.{Bytes}
use dnsdata_js.Base.Among.{Among, here, there}
use dnsdata_js.Base.Result.{Result, ok, err, stuck, map_result, >>=-eq-ok, ok_injective}
use dnsdata_js.Dnssec.Keys.{DnsKey, RrSig}
use dnsdata_js.Dnssec.Keys.Verify.{Crypto, verify}
use dnsdata_js.Dnssec.SigCheck.{SigVerdict, is_verified}
use dnsdata_js.Dnssec.SigCheck.Laws.{Verifies, verify_with_any-Verifies}
use dnsdata_js.Dnssec.SignedZone.{DnssecZone, Registry, find_dnskeys, verify_delegation_signer}
use dnsdata_js.Dnssec.SignedZone.Vouched.{IsVouched, verify_delegation_signer-IsVouched}
use dnsdata_js.Dnssec.SignedZone.Digest.{create_digest_target}
use dnsdata_js.Dnssec.SignedZone.Check.{
  Keys, validity_status, authenticated_keys, with_key, with_target, check_with,
}

pub any-Among {ℓ} :
    {A : Type ℓ} (p : A → Bool) (xs : List A)
    → any p xs ≡ true
    → (x : A) × Among x xs × (p x ≡ true)
any-Among p [] h = absurd (cc)
any-Among p (x ∷ xs) h = elim (Bool-cases (p x)) [
  | inl t ↦ (x, here, t)
  | inr f ↦ let (y, m, q) = any-Among p xs (rw f at h) in (y, there m, q)
]

pub map_result-Among {ℓ κ} :
    {A : Type ℓ} {B : Type κ} (f : A → Result B) (xs : List A) (ys : List B)
    → map_result f xs ≡ ok ys
    → (y : B) → Among y ys
    → (x : A) × Among x xs × (f x ≡ ok y)
map_result-Among f [] ys e y m =
    let none_in : Among y [] = subst (λ (o : List _). Among y o) (sym (ok_injective e)) m in
    elim none_in [ ]
map_result-Among f (x ∷ xs) ys e y m =
    let (b, p, k) = >>=-eq-ok (f x) _ e in
    let (bs, q, j) = >>=-eq-ok (map_result f xs) _ k in
    at_first (subst (λ (o : List _). Among y o) (sym (ok_injective j)) m) p
      (map_result-Among f xs bs q y)
  where
    at_first :
        {b : _} {bs : List _}
        → Among y (b ∷ bs)
        → f x ≡ ok b
        → (Among y bs → (a : _) × Among a xs × (f a ≡ ok y))
        → (a : _) × Among a (x ∷ xs) × (f a ≡ ok y)
    at_first here p rec = (x, here, p)
    at_first (there m) p rec = let (a, k, q) = rec m in (a, there k, q)

-- With a clock, whose time is in milliseconds, the time is neither before the inception of the
-- signature nor after its expiration.
abbrev pub InWindow : Option ℕ → RrSig → Type 0
InWindow none s = Unit
InWindow (some now) s = (s.inception ≤ now / 1000) × (now / 1000 ≤ s.expire)

validity_status-InWindow :
    (now : Option ℕ) (s : RrSig) → is_verified (validity_status now s) ≡ true → InWindow now s
unfolding validity_status
validity_status-InWindow none s h = tt
validity_status-InWindow (some now) s h = elim (Bool-cases (ltb (now / 1000) s.inception)) [
  | inl t ↦ let q = (rw (t, validity_status) at h) in absurd (cc)
  | inr f ↦ elim (Bool-cases (ltb s.expire (now / 1000))) [
    | inl t ↦ let q = (rw (f, t, validity_status) at h) in absurd (cc)
    | inr g ↦ (ground arith, ground arith)
  ]
]

module _ (registry : Registry) (crypto : Crypto) (z : DnssecZone) where
  -- A key with property `P` that is trusted or that a DS record of the parent vouches for.
  abbrev pub Both : (DnsKey → Type 0) → DnsKey → Type 0
  Both P k = P k × IsVouched registry crypto z k

  with_key-All :
      (P : DnsKey → Type 0) (r : Result Bool) (k : DnsKey) (rest a : Keys)
      → verify_delegation_signer registry crypto z k ≡ r
      → with_key registry crypto z r k rest ≡ ok a
      → P k
      → All (Both P) rest.keys
      → All (Both P) a.keys
  with_key-All P (ok true) k rest a q e p h =
      subst (λ (x : Keys). All (Both P) x.keys) (ok_injective e)
        ((p, verify_delegation_signer-IsVouched registry crypto z k q), h)
  with_key-All P (ok false) k rest a q e p h =
      subst (λ (x : Keys). All (Both P) x.keys) (ok_injective e) h
  with_key-All P (err x) k rest a q e p h =
      subst (λ (x : Keys). All (Both P) x.keys) (ok_injective e) h
  with_key-All P stuck k rest a q e p h = absurd (cc)

  pub authenticated_keys-All :
      (P : DnsKey → Type 0) (ks : List DnsKey) (a : Keys)
      → authenticated_keys registry crypto z ks ≡ ok a
      → All P ks
      → All (Both P) a.keys
  unfolding authenticated_keys
  authenticated_keys-All P [] a e h = subst (λ (x : Keys). All (Both P) x.keys) (ok_injective e) tt
  authenticated_keys-All P (k ∷ ks) a e (p, h) =
      let (rest, c, q) = >>=-eq-ok (authenticated_keys registry crypto z ks) _ e in
      with_key-All P (verify_delegation_signer registry crypto z k) k rest a refl q p
        (authenticated_keys-All P ks rest c h)

  -- What a signature that verified was checked against.
  pub record IsChecked (select : List DnsKey → Result Keys) (name : Text) (type : ℕ) (s : RrSig)
      : Type 0 where
    pub in_window : InWindow z.own.now s
    pub candidates : List DnsKey
    pub found : find_dnskeys registry z.own s.signer s.key_tag s.algorithm ≡ ok candidates
    pub accepted : Keys
    pub selected : select candidates ≡ ok accepted
    pub target : Bytes
    pub target_is : create_digest_target registry z.own s name type ≡ ok (some target)
    pub key : DnsKey
    pub key_in : Among key accepted.keys
    pub verifies : Verifies (verify crypto) target s.signature key

  -- The target of a check that verified, and the key.
  Reached : List DnsKey → RrSig → Result (Option Bytes) → Type 0
  Reached ks s r =
      (t : Bytes) × (r ≡ ok (some t))
      × ((k : DnsKey) × Among k ks × Verifies (verify crypto) t s.signature k)

  with_target-Reached :
      (ks : List DnsKey) (s : RrSig) (r : Result (Option Bytes)) (v : SigVerdict)
      → with_target registry crypto z ks s r ≡ ok v
      → is_verified v.status ≡ true
      → Reached ks s r
  unfolding Reached
  with_target-Reached ks s (ok none) v e h =
      let q = ap (λ (x : SigVerdict). is_verified x.status) (ok_injective e) in absurd (cc)
  with_target-Reached ks s (ok (some t)) v e h = (
    t,
    refl,
    verify_with_any-Verifies (verify crypto) t s.signature ks
        (ap (λ (x : SigVerdict). is_verified x.status) (ok_injective e) ∙ h),
  )
  with_target-Reached ks s (err x) v e h =
      let q = ap (λ (x : SigVerdict). is_verified x.status) (ok_injective e) in absurd (cc)
  with_target-Reached ks s stuck v e h = absurd (cc)

  pub check_with-IsChecked :
      (select : List DnsKey → Result Keys) (name : Text) (type : ℕ) (s : RrSig) (v : SigVerdict)
      → check_with registry crypto z select name type s ≡ ok v
      → is_verified v.status ≡ true
      → IsChecked select name type s
  unfolding check_with Reached
  check_with-IsChecked select name type s v e h =
      elim (Bool-cases (is_verified (validity_status z.own.now s))) [
        | inr f ↦
            let q = ok_injective (rw (f, check_with) at e) in
            let w = ap (λ (x : SigVerdict). is_verified x.status) q in absurd (cc)
        | inl t ↦
            let (cands, found, e1) =
              >>=-eq-ok (find_dnskeys registry z.own s.signer s.key_tag s.algorithm) _
                (rw (t, check_with) at e) in
            let (acc, selected, e2) = >>=-eq-ok (select cands) _ e1 in
            elim (Bool-cases (is_empty acc.keys)) [
              | inl n ↦
                  let q = ok_injective (rw n at e2) in
                  let w = ap (λ (x : SigVerdict). is_verified x.status) q in absurd (cc)
              | inr n ↦
                  let (target, target_is, (k, m, w)) =
                    with_target-Reached acc.keys s (create_digest_target registry z.own s name type)
                      v (rw n at e2) h in
                  record {
                    in_window = validity_status-InWindow z.own.now s t;
                    candidates = cands;
                    found = found;
                    accepted = acc;
                    selected = selected;
                    target = target;
                    target_is = target_is;
                    key = k;
                    key_in = m;
                    verifies = w;
                  }
            ]
      ]
