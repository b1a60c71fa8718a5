-- ===== src/Verifier/Chain/Bound.antt =====
-- packages/core/src/verifier/chain.ts: how many aliases a walk follows.
use dnsdata_js.Base.{
  ℕ, zero, suc, ◌+◌, ◌≤◌, Bool, true, false, if◌then◌else◌, any, is_empty, Option, none, some, List,
  [], ◌∷◌, length, length-append, ◌≡◌, refl, ap, inl, inr, Option-cases, arith,
}
use mathlib.Core.Path.{subst}
use dnsdata_js.Base.Text.{Text, dot, text_eq}
use dnsdata_js.Verifier.Names.{normalize_qname}
use dnsdata_js.Verifier.Verdict.{Verdict, bogus, max_alias_hops}
use dnsdata_js.Verifier.Walk.{
  alias_loop, alias_limit, HopOutcome, WalkResult, new_result, World, Walk, Settled, fulfilled,
  threw, settle, check_aborted, invalid_qname, throw_error, update_result, ◌>>=◌, ◌>>◌,
}
use dnsdata_js.Verifier.Walk.Frame.{
  SameAliases, Keeps, Keeps->>=, Keeps-return, Keeps-check_aborted,
}
use dnsdata_js.Verifier.Descent.{
  Verifier, Rooted, root, unrooted, Arrival, arrived, stopped, descendant_zones,
}
use dnsdata_js.Verifier.Descent.Frame.{validate_root-Keeps, walk_down-Keeps}
use dnsdata_js.Verifier.Leaf.Frame.{resolve_leaf-Keeps}
use dnsdata_js.Verifier.Chain.{
  apply_outcome, set_bogus, combined_with, current_result, push_alias, at_arrival, from_root,
  validate_one_hop, follow_hop, hops, validate,
}

-- At most `n` aliases, and with as many the result of a walk that gave up.
pub record IsBounded (n : ℕ) (r : WalkResult) : Type 0 where
  pub few : length r.aliases ≤ n
  pub gave_up : length r.aliases ≡ n → (r.verdict ≡ bogus) × (r.reason_code ≡ some alias_limit)

abbrev BoundedBy : ℕ → Settled WalkResult → Type 0
BoundedBy n (fulfilled r w) = IsBounded n r
BoundedBy n (threw e w) = Unit

fewer : (n : ℕ) (r : WalkResult) → suc (length r.aliases) ≤ n → IsBounded n r
fewer n r h = record { few = omega arith; gave_up = λ e. absurd (omega arith) }

settle-BoundedBy :
    {A : Type 0} (n : ℕ) (v : World) (s : Settled A) (next : A → Walk WalkResult)
    → SameAliases v s
    → ((a : A) (w : World)
        → length w.result.aliases ≡ length v.result.aliases
        → BoundedBy n (next a w))
    → BoundedBy n (settle next s)
settle-BoundedBy n v (fulfilled a w) next h k = k a w (ap length h)
settle-BoundedBy n v (threw e w) next h k = tt

module _ (v : Verifier) (qtype : ℕ) where
  at_arrival-Keeps : (qname : Text) (a : Arrival) → Keeps (at_arrival v qname qtype a)
  unfolding at_arrival
  at_arrival-Keeps qname (stopped o) = Keeps-return o
  at_arrival-Keeps qname (arrived z name) =
      Keeps->>= _ _ (Keeps-check_aborted v.out) (λ u. resolve_leaf-Keeps v z name qname qtype)

  from_root-Keeps : (qname : Text) (r : Rooted) → Keeps (from_root v qname qtype r)
  unfolding from_root
  from_root-Keeps qname (unrooted o) = Keeps-return o
  from_root-Keeps qname (root z) =
      Keeps->>= _ _ (walk_down-Keeps v (descendant_zones qname) z (dot ∷ []))
        (at_arrival-Keeps qname)

  validate_one_hop-Keeps : (qname : Text) → Keeps (validate_one_hop v qname qtype)
  unfolding validate_one_hop
  validate_one_hop-Keeps qname = Keeps->>= _ _ (validate_root-Keeps v) (from_root-Keeps qname)

  follow_hop-BoundedBy :
      (n : ℕ) (next : Text → Option Verdict → Walk WalkResult) (c : Option Verdict) (o : HopOutcome)
      (w : World)
      → ((name : Text) (c : Option Verdict) (w : World)
          → BoundedBy (n + length w.result.aliases) (next name c w))
      → BoundedBy (suc n + length w.result.aliases) (follow_hop v next c o w)
  unfolding follow_hop apply_outcome
  follow_hop-BoundedBy n next c o w h = elim (Option-cases o.alias) [
    | inl e ↦ rw (e, follow_hop) (fewer _ _ (omega arith))
    | inr (a, e) ↦
        let pushed = record w { result = push_alias (record a { verdict = o.verdict }) w.result } in
        rw (e, follow_hop)
          (subst (λ k. BoundedBy k (next a.target (some (combined_with c o.verdict)) pushed))
            (omega (arith, length-append w.result.aliases (record a { verdict = o.verdict } ∷ [])))
            (h a.target (some (combined_with c o.verdict)) pushed))
  ]

  unseen-BoundedBy :
      (n : ℕ) (seen : List Text) (name : Text) (c : Option Verdict) (b : Bool) (w : World)
      → ((name' : Text) (c : Option Verdict) (w : World)
          → BoundedBy (n + length w.result.aliases) (hops v n qtype (name ∷ seen) name' c w))
      → BoundedBy (suc n + length w.result.aliases) (
          (if b
              then (update_result (set_bogus name alias_loop) >> current_result)
              else (validate_one_hop v name qtype >>= λ o.
                  follow_hop v (hops v n qtype (name ∷ seen)) c o))
            w)
  unfolding set_bogus
  unseen-BoundedBy n seen name c true w h = fewer _ _ (omega arith)
  unseen-BoundedBy n seen name c false w h =
      settle-BoundedBy (suc n + length w.result.aliases) w (validate_one_hop v name qtype w) _
        ((validate_one_hop-Keeps name).holds w)
        (λ o x same.
          subst (λ k. BoundedBy (suc n + k) (follow_hop v (hops v n qtype (name ∷ seen)) c o x))
            same (follow_hop-BoundedBy n (hops v n qtype (name ∷ seen)) c o x h))

  hops-BoundedBy :
      (n : ℕ) (seen : List Text) (name : Text) (c : Option Verdict) (w : World)
      → BoundedBy (n + length w.result.aliases) (hops v n qtype seen name c w)
  unfolding hops set_bogus
  hops-BoundedBy zero seen name c w = record { few = omega arith; gave_up = λ e. (refl, refl) }
  hops-BoundedBy (suc n) seen name c w =
      settle-BoundedBy (suc n + length w.result.aliases) w (check_aborted v.out w) _
        ((Keeps-check_aborted v.out).holds w)
        (λ u w' same.
          subst (λ k. BoundedBy (suc n + k) (round w')) same
            (unseen-BoundedBy n seen name c (any (λ s. text_eq s name) seen) w'
              (hops-BoundedBy n (name ∷ seen))))
    where
      round : Walk WalkResult
      round =
          if any (λ s. text_eq s name) seen
          then (update_result (set_bogus name alias_loop) >> current_result)
          else (validate_one_hop v name qtype >>= λ o.
              follow_hop v (hops v n qtype (name ∷ seen)) c o)

  validate-BoundedBy :
      (qname : Text) (w : World) → BoundedBy (suc max_alias_hops) (validate v qname qtype w)
  unfolding validate
  validate-BoundedBy qname w = nonempty (is_empty qname)
    where
      nonempty :
          (b : Bool)
          → BoundedBy (suc max_alias_hops) (
              (if b
                  then throw_error invalid_qname
                  else (update_result (λ r. new_result)
                      >> hops v (suc max_alias_hops) qtype [] (normalize_qname qname) none))
                w)
      nonempty true = tt
      nonempty false =
          hops-BoundedBy (suc max_alias_hops) [] (normalize_qname qname) none
            (record w { result = new_result })

-- Whatever the resolver, the signal and the cache are: a result that `validate` returns has at most
-- 11 aliases, and with 11 it is bogus because the limit of aliases is reached.
pub validate-IsBounded :
    (v : Verifier) (qname : Text) (qtype : ℕ) (w w' : World) (r : WalkResult)
    → validate v qname qtype w ≡ fulfilled r w'
    → IsBounded 11 r
validate-IsBounded v qname qtype w w' r e =
    subst (BoundedBy 11) e (validate-BoundedBy v qtype qname w)
