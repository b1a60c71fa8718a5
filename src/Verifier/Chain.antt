-- ===== src/Verifier/Chain.antt =====
-- packages/core/src/verifier/chain.ts: one hop, and the hops of a walk.
use dnsdata_js.Base.{
  ℕ, zero, suc, Bool, true, false, if◌then◌else◌, any, is_empty, Option, none, some, List, [], ◌∷◌,
  ◌++◌,
}
use dnsdata_js.Base.Text.{Text, dot, text_eq}
use dnsdata_js.Dnssec.SignedZone.{DnssecZone}
use dnsdata_js.Verifier.Names.{normalize_qname}
use dnsdata_js.Verifier.Verdict.{Verdict, secure, combine_verdicts, max_alias_hops}
use dnsdata_js.Verifier.Walk.{
  ReasonCode, alias_loop, alias_limit, AliasStep, Answer, HopOutcome, WalkResult, new_result, World,
  Walk, Settled, VerifierError, fulfilled, threw, invalid_qname, return, throw_error, get_world,
  update_result, check_aborted, ◌>>=◌, ◌>>◌,
}
use dnsdata_js.Verifier.Descent.{
  Verifier, Rooted, root, unrooted, Arrival, arrived, stopped, validate_root, walk_down,
  descendant_zones,
}
use dnsdata_js.Verifier.Leaf.{resolve_leaf}
pub mod Trust
pub mod Bound

abbrev pub or_old {ℓ} : {A : Type ℓ} → Option A → Option A → Option A
or_old none old = old
or_old (some x) old = some x

abbrev pub is_secure_verdict : Verdict → Bool
is_secure_verdict secure = true
is_secure_verdict _ = false

unfoldable pub apply_outcome : HopOutcome → Verdict → WalkResult → WalkResult
apply_outcome o combined r = record r {
  verdict = combined;
  bogus_at = or_old o.bogus_at r.bogus_at;
  insecure_at = or_old o.insecure_at r.insecure_at;
  denial = or_old o.denial r.denial;
  reason_code = or_old o.reason_code r.reason_code;
  wildcard = or_old o.wildcard r.wildcard;
  answer = if is_secure_verdict combined then or_old o.answer r.answer else r.answer;
}

unfoldable pub set_bogus : Text → ReasonCode → WalkResult → WalkResult
set_bogus at code r = record r {
  verdict = Verdict.bogus;
  bogus_at = some at;
  reason_code = some code;
}

-- `combined`, which the first hop sets.
abbrev pub combined_with : Option Verdict → Verdict → Verdict
combined_with none v = v
combined_with (some c) v = combine_verdicts c v

abbrev pub current_result : Walk WalkResult
current_result = get_world >>= λ w. return w.result

abbrev pub push_alias : AliasStep → WalkResult → WalkResult
push_alias a r = record r { aliases = r.aliases ++ a ∷ [] }

module _ (v : Verifier) where
  unfoldable pub at_arrival : Text → ℕ → Arrival → Walk HopOutcome
  unfolding check_aborted resolve_leaf
  at_arrival qname qtype (stopped o) = return o
  at_arrival qname qtype (arrived zone name) =
      check_aborted v.out >> resolve_leaf v zone name qname qtype

  unfoldable pub from_root : Text → ℕ → Rooted → Walk HopOutcome
  unfolding walk_down descendant_zones at_arrival
  from_root qname qtype (unrooted o) = return o
  from_root qname qtype (root zone) =
      walk_down v (descendant_zones qname) zone (dot ∷ []) >>= at_arrival qname qtype

  unfoldable pub validate_one_hop : Text → ℕ → Walk HopOutcome
  unfolding validate_root from_root
  validate_one_hop qname qtype = validate_root v >>= from_root qname qtype

  -- The end of a hop: the result, or the rest of the loop at the target of an alias.
  unfoldable pub follow_hop :
      (Text → Option Verdict → Walk WalkResult) → Option Verdict → HopOutcome → Walk WalkResult
  unfolding combine_verdicts apply_outcome
  follow_hop next combined o =
      let c = combined_with combined o.verdict in
      elim o.alias [
        | some a ↦
            update_result (push_alias (record a { verdict = o.verdict })) >> next a.target (some c)
        | none ↦ update_result (apply_outcome o c) >> current_result
      ]

  -- `for (let hop = 0; hop <= MAX_ALIAS_HOPS; hop++)`, with the hops that are left.
  unfoldable pub hops : ℕ → ℕ → List Text → Text → Option Verdict → Walk WalkResult
  unfolding check_aborted text_eq set_bogus validate_one_hop follow_hop
  hops zero qtype seen qname combined =
      update_result (set_bogus qname alias_limit) >> current_result
  hops (suc n) qtype seen qname combined =
      check_aborted v.out
      >> (if any (λ s. text_eq s qname) seen
          then (update_result (set_bogus qname alias_loop) >> current_result)
          else (validate_one_hop qname qtype >>= λ o.
              follow_hop (hops n qtype (qname ∷ seen)) combined o))

  unfoldable pub validate : Text → ℕ → Walk WalkResult
  unfolding normalize_qname hops
  validate qname qtype =
      if is_empty qname
      then throw_error invalid_qname
      else (update_result (λ r. new_result)
          >> hops (suc max_alias_hops) qtype [] (normalize_qname qname) none)
