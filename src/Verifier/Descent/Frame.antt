-- ===== src/Verifier/Descent/Frame.antt =====
-- packages/core/src/verifier/chain.ts: the way down leaves the aliases of the result alone.
use dnsdata_js.Base.{ℕ, true, false, ◌&&◌, not, ◌==◌, Option, none, some, List, [], ◌∷◌, refl}
use dnsdata_js.Base.Text.{Text, dot}
use dnsdata_js.Base.Result.{Exception}
use dnsdata_js.Dnssec.Keys.{DnsKey}
use dnsdata_js.Dnssec.Keys.Verify.{Crypto}
use dnsdata_js.Dnssec.Signer.{ResourceRecord}
use dnsdata_js.Dnssec.SigCheck.{rrset_verified}
use dnsdata_js.Dnssec.SignedZone.{ZoneState, DnssecZone, Registry, type_ds, type_dnskey}
use dnsdata_js.Dnssec.SignedZone.Check
use dnsdata_js.Dnssec.SignedZone.Check.{mode_none, mode_ksk}
use dnsdata_js.Verifier.Walk.{
  Walk, Outside, Reply, responded, rejected, check_failed, resolver_rcode, chain_timeout, SigCheck,
  ZoneStep, trust_anchor_mismatch, bogus_outcome, return, get_world, ask, ◌>>◌,
}
use dnsdata_js.Verifier.Walk.Frame.{
  Keeps, Keeps->>=, Keeps-return, Keeps-throw_error, Keeps-of_result, Keeps-if, Keeps-check_aborted,
}
use dnsdata_js.Verifier.Steps.{
  RrsetCheck, is_unsupported, or_check_error, check_rrset, add_step, add_zone_sigs,
}
use dnsdata_js.Verifier.Load.{
  load_from, accept_reply, fetch_records, load_or_fetch, load_records, cached_in, put_cache,
}
use dnsdata_js.Verifier.Ksks.{
  KskMatch, ksks, mismatch, match_ksks_with_anchors, match_ksks_with_ds, summarize_zone,
}
use dnsdata_js.Verifier.Descent.{
  Verifier, Descended, Descent, descended, unsigned, no_cut, broken, root, unrooted, Arrival,
  stopped, signing_ksk, new_zone, with_keys, step_of, root_checked, validate_root, below_dname,
  no_ds_descent, child_checked, descend_keys, descend_into, follow_descent, walk_down,
}

or_check_error-Keeps : (check : RrsetCheck) (e : Option Exception) → Keeps (or_check_error check e)
unfolding or_check_error
or_check_error-Keeps check none = Keeps-return check
or_check_error-Keeps check (some e) =
    Keeps-if (is_unsupported check.code) _ _ (record { holds = λ w. tt })
      (Keeps-throw_error (check_failed e))

pub check_rrset-Keeps :
    (registry : Registry) (crypto : Crypto) (z : DnssecZone) (name : Text) (rrtype mode : ℕ)
    → Keeps (check_rrset registry crypto z name rrtype mode)
unfolding check_rrset
check_rrset-Keeps registry crypto z name rrtype mode =
    Keeps->>= _ _ (Keeps-of_result (Check.check_rrset registry crypto z name rrtype mode []))
      (λ results. or_check_error-Keeps _ (rrset_verified results).error)

add_step-Keeps : (step : ZoneStep) → Keeps (add_step step)
unfolding add_step
add_step-Keeps step = record { holds = λ w. refl }

pub add_zone_sigs-Keeps : (name : Text) (sigs : List SigCheck) → Keeps (add_zone_sigs name sigs)
unfolding add_zone_sigs
add_zone_sigs-Keeps name sigs = record { holds = λ w. refl }

module _ (out : Outside) (z : DnssecZone) (name : Text) (qtype : ℕ) where
  load_from-Keeps : (rrs : List ResourceRecord) → Keeps (load_from rrs z name qtype)
  unfolding load_from
  load_from-Keeps rrs = record { holds = λ w. refl }

  accept_reply-Keeps : (reply : Reply) → Keeps (accept_reply out reply)
  unfolding accept_reply
  accept_reply-Keeps (rejected true) = Keeps-throw_error chain_timeout
  accept_reply-Keeps (rejected false) = record { holds = λ w. tt }
  accept_reply-Keeps (responded resp) =
      Keeps-if (not (resp.rcode == 0) && not (resp.rcode == 3)) _ _
        (Keeps-throw_error (resolver_rcode resp.rcode)) (Keeps-return resp.records)

  load_or_fetch-Keeps :
      (found : Option (List ResourceRecord)) → Keeps (load_or_fetch out found z name qtype)
  unfolding fetch_records
  load_or_fetch-Keeps (some rrs) = load_from-Keeps rrs
  load_or_fetch-Keeps none =
      Keeps->>= (ask out name qtype) _ (record { holds = λ w. refl })
        (λ reply. Keeps->>= _ _ (accept_reply-Keeps reply) (λ rrs.
          Keeps->>= (put_cache name qtype rrs) _ (record { holds = λ w. refl })
            (λ u. load_from-Keeps rrs)))

  pub load_records-Keeps : Keeps (load_records out z name qtype)
  unfolding load_records
  load_records-Keeps = Keeps->>= _ _ (Keeps-check_aborted out) (λ u.
      Keeps->>= get_world _ (record { holds = λ w. refl })
        (λ w. load_or_fetch-Keeps (cached_in w.cache name qtype)))

module _ (v : Verifier) where
  step_of-Keeps :
      (name : Text) (z parent : Option ZoneState) (ksk : Option DnsKey) (sigs : List SigCheck)
      → Keeps (step_of v name z parent ksk sigs)
  unfolding step_of
  step_of-Keeps name z parent ksk sigs =
      Keeps->>= _ _ (Keeps-of_result (summarize_zone v.registry name z parent ksk sigs))
        (λ step. add_step-Keeps step)

  then_returns : {A : Type 0} {m : Walk (Unit {0})} (a : A) → Keeps m → Keeps (m >> return a)
  then_returns {A} {m} a h = Keeps->>= m (λ u. return a) h (λ u. Keeps-return a)

  root_checked-Keeps : (z : DnssecZone) (keys : List DnsKey) → Keeps (root_checked v z keys)
  unfolding root_checked
  root_checked-Keeps z [] =
      then_returns (unrooted (bogus_outcome (dot ∷ []) (some trust_anchor_mismatch)))
        (step_of-Keeps (dot ∷ []) (some z.own) none none [])
  root_checked-Keeps z (k ∷ ks) =
      let trusted = with_keys v (k ∷ ks) z in
      Keeps->>= _ _ (check_rrset-Keeps v.registry v.crypto trusted (dot ∷ []) type_dnskey mode_ksk)
        (λ check.
          let ksk = signing_ksk k ks check.sigs in
          Keeps-if check.is_ok _ _
            (then_returns (root trusted)
              (step_of-Keeps (dot ∷ []) (some trusted.own) none (some ksk) check.sigs))
            (then_returns (unrooted (bogus_outcome (dot ∷ []) check.code))
              (step_of-Keeps (dot ∷ []) (some trusted.own) none none check.sigs)))

  pub validate_root-Keeps : Keeps (validate_root v)
  unfolding validate_root
  validate_root-Keeps =
      Keeps->>= _ _ (load_records-Keeps v.out (new_zone v none) (dot ∷ []) type_dnskey) (λ l.
        Keeps->>= _ _
          (Keeps-of_result (match_ksks_with_anchors v.registry v.crypto v.anchors l.zone.own))
          (λ keys. root_checked-Keeps l.zone keys))

  no_ds_descent-Keeps :
      (parent : DnssecZone) (child_name : Text) → Keeps (no_ds_descent v parent child_name)
  unfolding no_ds_descent
  no_ds_descent-Keeps parent child_name =
      Keeps-if (below_dname parent.own child_name) _ _ (Keeps-return _) (
        Keeps->>= _ _ (Keeps-of_result (v.denials.no_ds_at parent child_name))
          (λ proof. Keeps-return _))

  child_checked-Keeps :
      (parent zone : DnssecZone) (child_name : Text) (sigs : List SigCheck) (m : KskMatch)
      → Keeps (child_checked v parent zone child_name sigs m)
  unfolding child_checked
  child_checked-Keeps parent zone child_name sigs (mismatch code) = Keeps-return _
  child_checked-Keeps parent zone child_name sigs (ksks k ks) =
      Keeps->>= _ _
        (check_rrset-Keeps v.registry v.crypto (with_keys v (k ∷ ks) zone) child_name type_dnskey
          mode_ksk)
        (λ check. Keeps-return _)

  descend_keys-Keeps :
      (parent : DnssecZone) (child_name : Text) (sigs : List SigCheck)
      → Keeps (descend_keys v parent child_name sigs)
  unfolding descend_keys
  descend_keys-Keeps parent child_name sigs =
      Keeps->>= _ _ (load_records-Keeps v.out (new_zone v (some parent.own)) child_name type_dnskey)
        (λ l.
          Keeps->>= _ _
            (Keeps-of_result
              (match_ksks_with_ds v.registry v.crypto l.zone.own parent.own child_name))
            (λ m. child_checked-Keeps parent l.zone child_name sigs m))

  descend_into-Keeps :
      (parent : DnssecZone) (child_name : Text) → Keeps (descend_into v parent child_name)
  unfolding descend_into
  descend_into-Keeps parent child_name =
      Keeps->>= _ _ (load_records-Keeps v.out parent child_name type_ds) (λ l.
        Keeps-if (l.count == 0) _ _ (no_ds_descent-Keeps l.zone child_name) (
          Keeps->>= _ _ (check_rrset-Keeps v.registry v.crypto l.zone child_name type_ds mode_none)
            (λ check.
              Keeps-if check.is_ok _ _ (descend_keys-Keeps l.zone child_name check.sigs)
                (Keeps-return _))))

  follow_descent-Keeps :
      (next : DnssecZone → Text → Walk Arrival) (name child_name : Text) (d : Descended)
      (s : Descent)
      → ((z : DnssecZone) → (n : Text) → Keeps (next z n))
      → Keeps (follow_descent v next name child_name (record d { step = s }))
  unfolding follow_descent
  follow_descent-Keeps next name child_name d (descended zone ksk sigs) h =
      Keeps->>= _ _ (step_of-Keeps child_name (some zone.own) (some d.parent.own) (some ksk) sigs)
        (λ u. h zone child_name)
  follow_descent-Keeps next name child_name d (unsigned proof) h = Keeps-return _
  follow_descent-Keeps next name child_name d no_cut h = h d.parent name
  follow_descent-Keeps next name child_name d (broken code held sigs) h =
      then_returns (stopped (bogus_outcome child_name code))
        (step_of-Keeps child_name held (some d.parent.own) none sigs)

  pub walk_down-Keeps :
      (names : List Text) (zone : DnssecZone) (name : Text) → Keeps (walk_down v names zone name)
  unfolding walk_down
  walk_down-Keeps [] zone name = Keeps-return _
  walk_down-Keeps (child_name ∷ names) zone name = Keeps->>= _ _ (Keeps-check_aborted v.out) (λ u.
      Keeps->>= _ _ (descend_into-Keeps zone child_name) (λ d.
        follow_descent-Keeps (walk_down v names) name child_name d d.step (walk_down-Keeps names)))
