-- ===== src/Verifier/Load/Laws.antt =====
-- packages/core/src/verifier/chain.ts: which keys a zone can get, and what the cache is for.
use dnsdata_js.Base.{
  ℕ, Bool, false, ◌&&◌, ◌==◌, Option, none, some, List, [], ◌∷◌, ◌≡◌, refl, ap, ◌∙◌, inl, inr,
  Bool-cases, Option-cases, arith,
}
use dnsdata_js.Base.Maps.{get}
use dnsdata_js.Base.Text.{Text, text_eq, text_eq_iff}
use dnsdata_js.Dnssec.Canonical.{equal_canonical_names}
use dnsdata_js.Dnssec.Signer.{ResourceRecord}
use dnsdata_js.Dnssec.SignedZone.{ZoneState, DnssecZone, find_rrset, add_rr, zone_key, type_dnskey}
use dnsdata_js.Dnssec.SignedZone.Records.{find_rrset-add_rr}
use dnsdata_js.Verifier.Walk.{Outside, ask, check_aborted, get_world}
use dnsdata_js.Verifier.Walk.Laws.{Ensures, Ensures-then}
use dnsdata_js.Verifier.Load.{
  Applied, apply_records, is_stray_key, Loaded, load_from, load_records, fetch_records,
  accept_reply, put_cache, cached_in, load_or_fetch,
}

-- The DNSKEY query for a name.
abbrev pub asks_keys_of : Text → Text → ℕ → Bool
asks_keys_of owner name qtype = (qtype == type_dnskey) && equal_canonical_names owner name

add_rr-keys :
    (rr : ResourceRecord) (z : ZoneState) (name owner : Text) (qtype : ℕ)
    → is_stray_key name qtype rr ≡ false
    → asks_keys_of owner name qtype ≡ false
    → find_rrset (add_rr rr z) owner type_dnskey ≡ find_rrset z owner type_dnskey
unfolding is_stray_key
add_rr-keys rr z name owner qtype s a =
    let (to, from) = text_eq_iff rr.label owner in
    let e = find_rrset-add_rr z rr owner type_dnskey in
    elim (Bool-cases (text_eq rr.label owner)) [
      | inr f ↦ e ∙ (rw f refl)
      | inl t ↦
          let same = ap (λ (x : Text). equal_canonical_names x name) (to t) in
          elim (Bool-cases (rr.type == type_dnskey)) [
            | inr f ↦ e ∙ (rw (t, f) refl)
            | inl k ↦ absurd (ground arith)
          ]
    ]

-- Loading changes no DNSKEY RRset but that of the name whose DNSKEY records were asked for.
apply_records-keys :
    (rrs : List ResourceRecord) (name owner : Text) (qtype : ℕ) (a : Applied)
    → asks_keys_of owner name qtype ≡ false
    → find_rrset (apply_records rrs name qtype a).zone owner type_dnskey
      ≡ find_rrset a.zone owner type_dnskey
unfolding apply_records
apply_records-keys [] name owner qtype a h = refl
apply_records-keys (rr ∷ rrs) name owner qtype a h =
    elim (Bool-cases (is_stray_key name qtype rr)) [
      | inl t ↦ rw (t, apply_records) (apply_records-keys rrs name owner qtype a h)
      | inr f ↦
          rw (f, apply_records)
            (apply_records-keys rrs name owner qtype _ h
              ∙ add_rr-keys rr a.zone name owner qtype f h)
    ]

add_rr-trusted_keys :
    (rr : ResourceRecord) (z : ZoneState) → (add_rr rr z).trusted_keys ≡ z.trusted_keys
unfolding add_rr
add_rr-trusted_keys rr z = elim (Option-cases (get (zone_key rr.label rr.type) z.records)) [
  | inl e ↦ rw (e, add_rr) refl
  | inr (rrs, e) ↦ rw (e, add_rr) refl
]

apply_records-trusted_keys :
    (rrs : List ResourceRecord) (name : Text) (qtype : ℕ) (a : Applied)
    → (apply_records rrs name qtype a).zone.trusted_keys ≡ a.zone.trusted_keys
unfolding apply_records
apply_records-trusted_keys [] name qtype a = refl
apply_records-trusted_keys (rr ∷ rrs) name qtype a =
    elim (Bool-cases (is_stray_key name qtype rr)) [
      | inl t ↦ rw (t, apply_records) (apply_records-trusted_keys rrs name qtype a)
      | inr f ↦
          rw (f, apply_records)
            (apply_records-trusted_keys rrs name qtype _ ∙ add_rr-trusted_keys rr a.zone)
    ]

-- The zone with more records: its trusted keys and its parent are the same, and so is every DNSKEY
-- RRset but the one asked for.
pub record Kept (name : Text) (qtype : ℕ) (z z' : DnssecZone) : Type 0 where
  pub trusted_same : z'.own.trusted_keys ≡ z.own.trusted_keys
  pub parent_same : z'.parent ≡ z.parent
  pub keys_same :
      (owner : Text)
      → asks_keys_of owner name qtype ≡ false
      → find_rrset z'.own owner type_dnskey ≡ find_rrset z.own owner type_dnskey

abbrev pub KeptBy : Text → ℕ → DnssecZone → Loaded → Type 0
KeptBy name qtype z l = Kept name qtype z l.zone

load_from-Kept :
    (rrs : List ResourceRecord) (z : DnssecZone) (name : Text) (qtype : ℕ)
    → Ensures (KeptBy name qtype z) (load_from rrs z name qtype)
unfolding load_from
load_from-Kept rrs z name qtype = record {
  holds = λ w. record {
    trusted_same = apply_records-trusted_keys rrs name qtype _;
    parent_same = refl;
    keys_same = λ owner h. apply_records-keys rrs name owner qtype _ h;
  };
}

module _ (out : Outside) where
  fetch_records-Kept :
      (z : DnssecZone) (name : Text) (qtype : ℕ)
      → Ensures (KeptBy name qtype z) (fetch_records out z name qtype)
  unfolding fetch_records
  fetch_records-Kept z name qtype =
      Ensures-then (KeptBy name qtype z) (ask out name qtype) _ (λ reply.
        Ensures-then (KeptBy name qtype z) (accept_reply out reply) _ (λ rrs.
          Ensures-then (KeptBy name qtype z) (put_cache name qtype rrs) _
            (λ u. load_from-Kept rrs z name qtype)))

  load_or_fetch-Kept :
      (c : Option (List ResourceRecord)) (z : DnssecZone) (name : Text) (qtype : ℕ)
      → Ensures (KeptBy name qtype z) (load_or_fetch out c z name qtype)
  load_or_fetch-Kept none z name qtype = fetch_records-Kept z name qtype
  load_or_fetch-Kept (some rrs) z name qtype = load_from-Kept rrs z name qtype

  pub load_records-Kept :
      (z : DnssecZone) (name : Text) (qtype : ℕ)
      → Ensures (KeptBy name qtype z) (load_records out z name qtype)
  unfolding load_records
  load_records-Kept z name qtype = Ensures-then (KeptBy name qtype z) (check_aborted out) _ (λ u.
      Ensures-then (KeptBy name qtype z) get_world _
        (λ w. load_or_fetch-Kept (cached_in w.cache name qtype) z name qtype))
