-- ===== src/Dnssec/Signer/Complete.antt =====
-- packages/core/src/dnssec/signer/nsec.ts: what the whole loop of `ZoneView.of` has seen.
use dnsdata_js.Base.{
  true, false, List, [], ◌∷◌, All, All-append, ◌≡◌, sym, ap, ◌∙◌, inl, inr, Bool-cases,
  Option-cases,
}
use mathlib.Core.Path.{subst}
use dnsdata_js.Base.Text.{Text, to_lower}
use dnsdata_js.Base.Maps.{get}
use dnsdata_js.Base.Among.{Among, here, there}
use dnsdata_js.Base.Result.{ok, ok_injective}
use dnsdata_js.Dnssec.SignerNames.{is_at_or_below}
use dnsdata_js.Dnssec.Signer.{ResourceRecord, includes, is_generated_type}
use dnsdata_js.Dnssec.Signer.View.{ZoneView, with_type, with_cut, view_from}
use dnsdata_js.Dnssec.Signer.Recorded.{
  Holds, HasView, with_type-Holds_new, with_type-Holds_old, with_type-HasOwners, with_type-cuts,
  with_cut-types, with_cut-HasCuts,
}

module _ (apex : Text) where
  with_cut-Holds : (r s : ResourceRecord) (v : ZoneView) → Holds v s → Holds (with_cut apex r v) s
  with_cut-Holds r s v (ts, e, h) =
      let (t, o) = with_cut-types apex r v in (ts, ap (get (to_lower s.label)) t ∙ e, h)

  step-HasView :
      (r : ResourceRecord) (v : ZoneView)
      → is_at_or_below r.label apex ≡ true
      → HasView apex v
      → HasView apex (with_cut apex r (with_type r v))
  step-HasView r v b has =
      let (t, o) = with_cut-types apex r (with_type r v) in
      record {
        owners_of = λ key ts e.
            let (x, m, l) =
              with_type-HasOwners v r has.owners_of key ts (ap (get key) (sym t) ∙ e) in
            (x, subst (λ (xs : List Text). Among x xs) (sym o) m, l);
        below_apex = with_cut-HasCuts apex r (with_type r v) b (
            subst (λ (cs : List Text). All (λ (c : Text). is_at_or_below c apex ≡ true) cs)
              (sym (with_type-cuts v r)) has.below_apex);
      }

  -- What the loop leaves when it ends.
  pub record Seen (rrs : List ResourceRecord) (v w : ZoneView) : Type 0 where
    pub view : HasView apex w
    pub kept : (s : ResourceRecord) → Holds v s → Holds w s
    pub all :
        (s : ResourceRecord)
        → Among s rrs
        → is_generated_type s.type ≡ false
        → Holds w s × (is_at_or_below s.label apex ≡ true)

  skip-Seen :
      (r : ResourceRecord) (rrs : List ResourceRecord) (v w : ZoneView)
      → is_generated_type r.type ≡ true
      → Seen rrs v w
      → Seen (r ∷ rrs) v w
  skip-Seen r rrs v w t seen = record { view = seen.view; kept = seen.kept; all = all_of t }
    where
      all_of :
          {r : ResourceRecord}
          → is_generated_type r.type ≡ true
          → (s : ResourceRecord) → Among s (r ∷ rrs)
          → is_generated_type s.type ≡ false
          → Holds w s × (is_at_or_below s.label apex ≡ true)
      all_of u _ here g = absurd (cc)
      all_of u s (there m) g = seen.all s m g

  take-Seen :
      (r : ResourceRecord) (rrs : List ResourceRecord) (v w : ZoneView)
      → is_at_or_below r.label apex ≡ true
      → Seen rrs (with_cut apex r (with_type r v)) w
      → Seen (r ∷ rrs) v w
  take-Seen r rrs v w b seen = record {
    view = seen.view;
    kept = λ s h. seen.kept s (with_cut-Holds r s (with_type r v) (with_type-Holds_old v r s h));
    all = λ s m g. all_of r b (with_type-Holds_new v r) seen s m g;
  }
    where
      all_of :
          (r : ResourceRecord)
          → is_at_or_below r.label apex ≡ true
          → Holds (with_type r v) r
          → Seen rrs (with_cut apex r (with_type r v)) w
          → (s : ResourceRecord) → Among s (r ∷ rrs)
          → is_generated_type s.type ≡ false
          → Holds w s × (is_at_or_below s.label apex ≡ true)
      all_of r b h seen _ here g = (seen.kept r (with_cut-Holds r r (with_type r v) h), b)
      all_of r b h seen s (there m) g = seen.all s m g

  pub view_from-Seen :
      (rrs : List ResourceRecord) (v w : ZoneView)
      → HasView apex v
      → view_from apex rrs v ≡ ok w
      → Seen rrs v w
  unfolding view_from
  view_from-Seen [] v w has e =
      subst (λ (x : ZoneView). Seen [] v x) (ok_injective e)
        record { view = has; kept = λ s h. h; all = λ s m g. elim m [ ] }
  view_from-Seen (r ∷ rrs) v w has e = elim (Bool-cases (is_generated_type r.type)) [
    | inl t ↦ skip-Seen r rrs v w t (view_from-Seen rrs v w has (rw (t, view_from) at e))
    | inr g ↦ elim (Bool-cases (is_at_or_below r.label apex)) [
      | inl b ↦ take-Seen r rrs v w b (
          view_from-Seen rrs (with_cut apex r (with_type r v)) w (step-HasView r v b has)
            (rw (g, b, view_from) at e))
      | inr b ↦ let r' = (rw (g, b, view_from) at e) in cc
    ]
  ]

  -- What holds of every owner that may stand in the zone holds of the owners of the view.
  module _ {κ} (P : Text → Type κ) where
    with_type-owners :
        (v : ZoneView) (r : ResourceRecord)
        → P r.label
        → All P v.owners
        → All P (with_type r v).owners
    unfolding with_type
    with_type-owners v r p h = elim (Option-cases (get (to_lower r.label) v.types)) [
      | inl e ↦ rw (e, with_type) (All-append P v.owners (r.label ∷ []) h (p, tt))
      | inr (at, e) ↦ elim (Bool-cases (includes at r.type)) [
        | inl t ↦ rw (e, t, with_type) h
        | inr f ↦ rw (e, f, with_type) h
      ]
    ]

    pub view_from-owners :
        (rrs : List ResourceRecord) (v w : ZoneView)
        → All (λ (r : ResourceRecord). is_at_or_below r.label apex ≡ true → P r.label) rrs
        → All P v.owners
        → view_from apex rrs v ≡ ok w
        → All P w.owners
    unfolding view_from
    view_from-owners [] v w _ h e = subst (λ (x : ZoneView). All P x.owners) (ok_injective e) h
    view_from-owners (r ∷ rrs) v w (p, ps) h e = elim (Bool-cases (is_generated_type r.type)) [
      | inl t ↦ view_from-owners rrs v w ps h (rw (t, view_from) at e)
      | inr g ↦ elim (Bool-cases (is_at_or_below r.label apex)) [
        | inl b ↦
            let (t, o) = with_cut-types apex r (with_type r v) in
            view_from-owners rrs (with_cut apex r (with_type r v)) w ps
              (subst (λ (xs : List Text). All P xs) (sym o) (with_type-owners v r (p b) h))
              (rw (g, b, view_from) at e)
        | inr b ↦ let r' = (rw (g, b, view_from) at e) in cc
      ]
    ]
