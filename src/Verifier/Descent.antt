-- ===== src/Verifier/Descent.antt =====
-- packages/core/src/verifier/chain.ts: from the root down, zone by zone. A zone is a value; the
-- parent of a child zone is not written any more once the child is there.
use dnsdata_js.Base.{
  ℕ, Bool, true, false, ◌&&◌, not, if◌then◌else◌, ◌==◌, ltb, any, is_empty, Option, none, some,
  List, [], ◌∷◌, ◌++◌, length,
}
use dnsdata_js.Base.Text.{Text, codes, dot, text_eq, decimal, join, split, strip_trailing_dot}
use dnsdata_js.Base.Result.{Result, ok, err, stuck}
use dnsdata_js.Dnssec.Canonical.{equal_canonical_names}
use dnsdata_js.Dnssec.Keys.{DnsKey, calc_key_tag}
use dnsdata_js.Dnssec.Keys.Verify.{Crypto}
use dnsdata_js.Dnssec.SigCheck.{is_verified}
use dnsdata_js.Dnssec.SignedZone.{ZoneState, DnssecZone, Registry, find_rrset, type_ds, type_dnskey}
use dnsdata_js.Dnssec.SignedZone.Check.{mode_none, mode_ksk}
use dnsdata_js.Verifier.Names.{normalize_qname, ancestors_of}
use dnsdata_js.Verifier.Negative.{Evidence}
use dnsdata_js.Verifier.Verdict.{Verdict}
use dnsdata_js.Verifier.Walk.{
  ReasonCode, trust_anchor_mismatch, no_ds, SigCheck, HopOutcome, hop_outcome, bogus_outcome,
  Outside, Walk, return, of_result, check_aborted, ◌>>=◌, ◌>>◌,
}
use dnsdata_js.Verifier.Steps.{RrsetCheck, check_rrset, add_step}
use dnsdata_js.Verifier.Load.{Loaded, load_records}
use dnsdata_js.Verifier.Ksks.{
  Anchor, KskMatch, ksks, mismatch, match_ksks_with_anchors, match_ksks_with_ds, trust_keys,
  summarize_zone,
}
pub mod Trust
pub mod Anchored
pub mod Arrivals
pub mod Frame

-- The proofs of absence, as the walk uses them; `next_closer_absent` is `prove_qname_non_existence`.
pub record Denials : Type 0 where
  pub no_ds_at : DnssecZone → Text → Result (Option Evidence)
  pub no_data_at : DnssecZone → Text → ℕ → Result (Option Evidence)
  pub nx_domain_at : DnssecZone → Text → Result (Option Evidence)
  pub next_closer_absent : DnssecZone → Text → Result Bool

-- `anchors` is `anchors.ds ?? []`; the clock `now` stands still during a walk.
pub record Verifier : Type 1 where
  pub out : Outside
  pub anchors : List Anchor
  pub now : Option ℕ
  pub registry : Registry
  pub crypto : Crypto
  pub denials : Denials

abbrev pub type_dname : ℕ
type_dname = 39

unfoldable pub suffixes : List Text → List Text
unfolding join
suffixes [] = []
suffixes (l ∷ ls) = suffixes ls ++ (join (dot ∷ []) (l ∷ ls) ++ dot ∷ []) ∷ []

unfoldable pub descendant_zones : Text → List Text
unfolding normalize_qname text_eq strip_trailing_dot split suffixes
descendant_zones qname =
    let name = normalize_qname qname in
    if text_eq name (dot ∷ []) then [] else suffixes (split dot (strip_trailing_dot name))

-- The first key with the tag and algorithm of a check that verified.
unfoldable pub find_ksk : SigCheck → List DnsKey → Option DnsKey
unfolding calc_key_tag
find_ksk s [] = none
find_ksk s (k ∷ ks) =
    let rest = find_ksk s ks in
    if (calc_key_tag k == s.key_tag) && (k.algorithm == s.algorithm) then some k else rest

-- `ksks` is `first` with those behind it.
unfoldable pub signing_ksk : DnsKey → List DnsKey → List SigCheck → DnsKey
unfolding find_ksk
signing_ksk first ks [] = first
signing_ksk first ks (s ∷ sigs) =
    let rest = signing_ksk first ks sigs in
    if is_verified s.result
    then elim (find_ksk s (first ∷ ks)) [ none ↦ rest | some k ↦ k ]
    else rest

unfoldable pub below_dname : ZoneState → Text → Bool
unfolding ancestors_of equal_canonical_names find_rrset
below_dname z name =
    any
      (λ anc. not (equal_canonical_names anc name) && not (is_empty (find_rrset z anc type_dname)))
      (ancestors_of name)

pub data Descent : Type 0 where
  descended : DnssecZone → DnsKey → List SigCheck → Descent
  unsigned : Evidence → Descent
  no_cut : Descent
  broken : Option ReasonCode → Option ZoneState → List SigCheck → Descent

-- The parent zone with what was loaded into it.
pub record Descended : Type 0 where
  pub parent : DnssecZone
  pub step : Descent

-- The root zone, or the outcome where it does not validate.
pub data Rooted : Type 0 where
  root : DnssecZone → Rooted
  unrooted : HopOutcome → Rooted

pub data Arrival : Type 0 where
  arrived : DnssecZone → Text → Arrival
  stopped : HopOutcome → Arrival

module _ (v : Verifier) where
  unfoldable pub new_zone : Option ZoneState → DnssecZone
  new_zone parent = record {
    own = record { records = []; seps = []; trusted_keys = []; now = v.now };
    parent = parent;
  }

  unfoldable pub step_of :
      Text → Option ZoneState → Option ZoneState → Option DnsKey → List SigCheck → Walk (Unit {0})
  unfolding summarize_zone add_step
  step_of name z parent ksk sigs =
      of_result (summarize_zone v.registry name z parent ksk sigs) >>= λ step. add_step step

  abbrev pub with_keys : List DnsKey → DnssecZone → DnssecZone
  with_keys ks z = record z { own = trust_keys ks z.own }

  -- The end of `validate_root`, for the keys that match an anchor.
  unfoldable pub root_checked : DnssecZone → List DnsKey → Walk Rooted
  unfolding step_of trust_keys check_rrset signing_ksk bogus_outcome
  root_checked z [] =
      step_of (dot ∷ []) (some z.own) none none []
      >> return (unrooted (bogus_outcome (dot ∷ []) (some trust_anchor_mismatch)))
  root_checked z (k ∷ ks) =
      let trusted = with_keys (k ∷ ks) z in
      check_rrset v.registry v.crypto trusted (dot ∷ []) type_dnskey mode_ksk >>= λ check.
      if check.is_ok
      then (step_of (dot ∷ []) (some trusted.own) none (some (signing_ksk k ks check.sigs))
            check.sigs
          >> return (root trusted))
      else (step_of (dot ∷ []) (some trusted.own) none none check.sigs
          >> return (unrooted (bogus_outcome (dot ∷ []) check.code)))

  unfoldable pub validate_root : Walk Rooted
  unfolding new_zone load_records match_ksks_with_anchors root_checked
  validate_root = load_records v.out (new_zone none) (dot ∷ []) type_dnskey >>= λ l.
      of_result (match_ksks_with_anchors v.registry v.crypto v.anchors l.zone.own) >>= λ keys.
      root_checked l.zone keys

  abbrev pub insecure_or_no_cut : Option Evidence → Descent
  insecure_or_no_cut none = no_cut
  insecure_or_no_cut (some proof) = unsigned proof

  unfoldable pub no_ds_descent : DnssecZone → Text → Walk Descended
  unfolding below_dname
  no_ds_descent parent child_name =
      if below_dname parent.own child_name
      then return (record { parent = parent; step = no_cut })
      else (of_result (v.denials.no_ds_at parent child_name) >>= λ proof.
          return (record { parent = parent; step = insecure_or_no_cut proof }))

  -- The end of `descend_into`, with the keys of the child matched.
  unfoldable pub child_checked :
      DnssecZone → DnssecZone → Text → List SigCheck → KskMatch → Walk Descended
  unfolding trust_keys check_rrset signing_ksk
  child_checked parent zone child_name sigs (mismatch code) =
      return (record { parent = parent; step = broken (some code) (some zone.own) sigs })
  child_checked parent zone child_name sigs (ksks k ks) =
      let trusted = with_keys (k ∷ ks) zone in
      check_rrset v.registry v.crypto trusted child_name type_dnskey mode_ksk >>= λ check.
      return record {
        parent = parent;
        step =
            if check.is_ok
            then descended trusted (signing_ksk k ks check.sigs) (sigs ++ check.sigs)
            else broken check.code (some trusted.own) (sigs ++ check.sigs);
      }

  unfoldable pub descend_keys : DnssecZone → Text → List SigCheck → Walk Descended
  unfolding new_zone load_records match_ksks_with_ds child_checked
  descend_keys parent child_name sigs =
      load_records v.out (new_zone (some parent.own)) child_name type_dnskey >>= λ l.
      of_result (match_ksks_with_ds v.registry v.crypto l.zone.own parent.own child_name) >>= λ m.
      child_checked parent l.zone child_name sigs m

  unfoldable pub descend_into : DnssecZone → Text → Walk Descended
  unfolding load_records no_ds_descent check_rrset descend_keys
  descend_into parent child_name = load_records v.out parent child_name type_ds >>= λ l.
      if l.count == 0
      then no_ds_descent l.zone child_name
      else (check_rrset v.registry v.crypto l.zone child_name type_ds mode_none >>= λ check.
          if check.is_ok
          then descend_keys l.zone child_name check.sigs
          else return (record { parent = l.zone; step = broken check.code none check.sigs }))

  -- The rest of the loop over `descendant_zones`, which a step enters by `next`.
  unfoldable pub follow_descent :
      (DnssecZone → Text → Walk Arrival) → Text → Text → Descended → Walk Arrival
  unfolding step_of bogus_outcome
  follow_descent next name child_name d = elim d.step [
    | descended zone ksk sigs ↦
        step_of child_name (some zone.own) (some d.parent.own) (some ksk) sigs
        >> next zone child_name
    | unsigned proof ↦ return (
        stopped (record (hop_outcome Verdict.insecure) {
          insecure_at = some child_name;
          denial = some proof;
          reason_code = some no_ds;
        }))
    | no_cut ↦ next d.parent name
    | broken code zone sigs ↦
        step_of child_name zone (some d.parent.own) none sigs
        >> return (stopped (bogus_outcome child_name code))
  ]

  unfoldable pub walk_down : List Text → DnssecZone → Text → Walk Arrival
  unfolding check_aborted descend_into follow_descent
  walk_down [] zone name = return (arrived zone name)
  walk_down (child_name ∷ names) zone name =
      check_aborted v.out
      >> (descend_into zone child_name >>= λ d. follow_descent (walk_down names) name child_name d)
