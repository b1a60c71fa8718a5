-- ===== src/Dnssec/Signer/Owners.antt =====
-- packages/core/src/dnssec/signer/nsec.ts: the owners that `ZoneView.of` collects from records in
-- canonical order.
use dnsdata_js.Base.{
  ℕ, true, ◌&&◌, not, ◌==◌, none, some, List, [], ◌∷◌, ◌++◌, any, All, All-append, ◌≡◌, refl, sym,
  ap, ◌∙◌, inl, inr, Bool-cases, Option-cases, arith,
}
use mathlib.Core.Path.{subst}
use dnsdata_js.Base.Text.{
  Text, dot, text_eq, text_eq_iff, to_lower, lower_unit, ends_with_dot, drop_last,
  strip_trailing_dot,
}
use dnsdata_js.Base.Order.{less, equal, Sign-cases}
use dnsdata_js.Base.Maps.{get, set, get-set_same, get-set-some}
use dnsdata_js.Base.Sorting.{Ascending, Weakly, NotAfter}
use dnsdata_js.Dnssec.Canonical.{compare_canonical_names, equal_canonical_names}
use dnsdata_js.Dnssec.Canonical.Labels.{equal_canonical_names-compare}
use dnsdata_js.Base.Result.{ok, ok_injective}
use dnsdata_js.Dnssec.SignerNames.{same_name, is_at_or_below}
use dnsdata_js.Dnssec.Signer.{ResourceRecord, includes, is_generated_type, type_ns}
use dnsdata_js.Dnssec.Signer.Zone.{by_label}
use dnsdata_js.Dnssec.Signer.View.{ZoneView, with_type, with_cut, view_from}

drop_last-dot : (s : Text) → ends_with_dot s ≡ true → drop_last s ++ dot ∷ [] ≡ s
unfolding ends_with_dot drop_last
drop_last-dot [] h = cc
drop_last-dot (c ∷ []) h = ground arith
drop_last-dot (c ∷ d ∷ s) h = ap (◌∷◌ c) (drop_last-dot (d ∷ s) h)

to_lower-append : (a b : Text) → to_lower (a ++ b) ≡ to_lower a ++ to_lower b
unfolding to_lower
to_lower-append [] b = refl
to_lower-append (c ∷ a) b = ap (◌∷◌ (lower_unit c)) (to_lower-append a b)

pub to_lower-strip :
    (a : Text)
    → ends_with_dot a ≡ true
    → to_lower a ≡ to_lower (strip_trailing_dot a) ++ to_lower (dot ∷ [])
unfolding strip_trailing_dot
to_lower-strip a h =
    rw h (ap to_lower (sym (drop_last-dot a h)) ∙ to_lower-append (drop_last a) (dot ∷ []))

-- Names with the final dot that the canonical comparison calls equal differ in case only.
pub compare-equal-to_lower :
    (a b : Text)
    → ends_with_dot a ≡ true
    → ends_with_dot b ≡ true
    → compare_canonical_names a b ≡ equal
    → to_lower a ≡ to_lower b
unfolding equal_canonical_names
compare-equal-to_lower a b f g e =
    let (to, from) = equal_canonical_names-compare a b in
    let (same, back) =
      text_eq_iff (to_lower (strip_trailing_dot a)) (to_lower (strip_trailing_dot b)) in
    to_lower-strip a f
    ∙ ap (λ (x : Text). x ++ to_lower (dot ∷ [])) (same (from e))
    ∙ sym (to_lower-strip b g)

-- What holds of the view when the records `rest` are still to come.
pub record IsView (v : ZoneView) (rest : List ResourceRecord) : Type 0 where
  pub ascending : Ascending compare_canonical_names v.owners
  pub before :
      All
        (λ (o : Text).
          All (λ (r : ResourceRecord). NotAfter (compare_canonical_names o r.label)) rest)
        v.owners
  pub keyed : All (λ (o : Text). (ts : List ℕ) × (get (to_lower o) v.types ≡ some ts)) v.owners
  pub fqdn : All (λ (o : Text). ends_with_dot o ≡ true) v.owners

-- No owner has the key of the next record, so all of them stand before it.
all_less :
    (v : ZoneView) (r : ResourceRecord) (rest : List ResourceRecord) (owners : List Text)
    → ends_with_dot r.label ≡ true
    → get (to_lower r.label) v.types ≡ none
    → All
        (λ (o : Text).
          All (λ (s : ResourceRecord). NotAfter (compare_canonical_names o s.label)) (r ∷ rest))
        owners
    → All (λ (o : Text). (ts : List ℕ) × (get (to_lower o) v.types ≡ some ts)) owners
    → All (λ (o : Text). ends_with_dot o ≡ true) owners
    → All (λ (o : Text). compare_canonical_names o r.label ≡ less) owners
all_less v r rest [] d e b k f = tt
all_less v r rest (o ∷ owners) d e ((n, _), b) ((ts, h), k) (f, fs) = (
  elim (Sign-cases (compare_canonical_names o r.label)) [
    | inl l ↦ l
    | inr (inl q) ↦
        let same : to_lower o ≡ to_lower r.label = compare-equal-to_lower o r.label f d q in
        let found : get (to_lower r.label) v.types ≡ some ts =
          subst (λ (x : Text). get x v.types ≡ some ts) same h in
        absurd (cc)
    | inr (inr g) ↦ absurd (rw g at n)
  ],
  all_less v r rest owners d e b k fs,
)

Ascending-append :
    (owners : List Text) (x : Text)
    → Ascending compare_canonical_names owners
    → All (λ (o : Text). compare_canonical_names o x ≡ less) owners
    → Ascending compare_canonical_names (owners ++ x ∷ [])
Ascending-append [] x a h = (tt, tt)
Ascending-append (o ∷ owners) x (p, a) (l, h) = (
  All-append (λ (y : Text). compare_canonical_names o y ≡ less) owners (x ∷ []) p (l, tt),
  Ascending-append owners x a h,
)

keyed-set :
    (types : List (Text × List ℕ)) (key : Text) (at : List ℕ) (owners : List Text)
    → All (λ (o : Text). (ts : List ℕ) × (get (to_lower o) types ≡ some ts)) owners
    → All (λ (o : Text). (ts : List ℕ) × (get (to_lower o) (set key at types) ≡ some ts)) owners
keyed-set types key at [] k = tt
keyed-set types key at (o ∷ owners) ((ts, h), k) =
    (get-set-some key (to_lower o) at ts types h, keyed-set types key at owners k)

before-tail :
    (r : ResourceRecord) (rest : List ResourceRecord) (owners : List Text)
    → All
        (λ (o : Text).
          All (λ (s : ResourceRecord). NotAfter (compare_canonical_names o s.label)) (r ∷ rest))
        owners
    → All
        (λ (o : Text).
          All (λ (s : ResourceRecord). NotAfter (compare_canonical_names o s.label)) rest)
        owners
before-tail r rest [] b = tt
before-tail r rest (o ∷ owners) ((_, h), b) = (h, before-tail r rest owners b)

pub skip-IsView :
    (v : ZoneView) (r : ResourceRecord) (rest : List ResourceRecord)
    → IsView v (r ∷ rest)
    → IsView v rest
skip-IsView v r rest i = record {
  ascending = i.ascending;
  before = before-tail r rest v.owners i.before;
  keyed = i.keyed;
  fqdn = i.fqdn;
}

-- One record more keeps the owners in strictly ascending order.
pub with_type-IsView :
    (v : ZoneView) (r : ResourceRecord) (rest : List ResourceRecord)
    → ends_with_dot r.label ≡ true
    → All (λ (s : ResourceRecord). NotAfter (by_label r s)) rest
    → IsView v (r ∷ rest)
    → IsView (with_type r v) rest
unfolding with_type
with_type-IsView v r rest d n i = elim (Option-cases (get (to_lower r.label) v.types)) [
  | inl e ↦
      rw (e, with_type)
        record {
          ascending =
              Ascending-append v.owners r.label i.ascending
                (all_less v r rest v.owners d e i.before i.keyed i.fqdn);
          before =
              All-append _ v.owners (r.label ∷ []) (before-tail r rest v.owners i.before) (n, tt);
          keyed =
              All-append _ v.owners (r.label ∷ [])
                (keyed-set v.types (to_lower r.label) (r.type ∷ []) v.owners i.keyed)
                ((r.type ∷ [], get-set_same (to_lower r.label) (r.type ∷ []) v.types), tt);
          fqdn = All-append _ v.owners (r.label ∷ []) i.fqdn (d, tt);
        }
  | inr (at, e) ↦ elim (Bool-cases (includes at r.type)) [
    | inl t ↦ rw (e, t, with_type) (skip-IsView v r rest i)
    | inr f ↦
        rw (e, f, with_type)
          record {
            ascending = i.ascending;
            before = before-tail r rest v.owners i.before;
            keyed = keyed-set v.types (to_lower r.label) (at ++ r.type ∷ []) v.owners i.keyed;
            fqdn = i.fqdn;
          }
  ]
]

pub with_cut-IsView :
    (apex : Text) (v : ZoneView) (r : ResourceRecord) (rest : List ResourceRecord)
    → IsView v rest
    → IsView (with_cut apex r v) rest
unfolding with_cut
with_cut-IsView apex v r rest i =
    elim (Bool-cases (
      (r.type == type_ns)
      && not (same_name r.label apex)
      && not (any (λ c. text_eq c r.label) v.cuts))) [
        | inl t ↦
            rw (t, with_cut)
              record { ascending = i.ascending; before = i.before; keyed = i.keyed; fqdn = i.fqdn }
        | inr f ↦ rw (f, with_cut) i
      ]

pub view_from-IsView :
    (apex : Text) (rrs : List ResourceRecord) (v w : ZoneView)
    → Weakly by_label rrs
    → All (λ (r : ResourceRecord). ends_with_dot r.label ≡ true) rrs
    → IsView v rrs
    → view_from apex rrs v ≡ ok w
    → IsView w []
unfolding view_from
view_from-IsView apex [] v w _ _ i e = subst (λ (x : ZoneView). IsView x []) (ok_injective e) i
view_from-IsView apex (r ∷ rrs) v w (n, k) (d, f) i e =
    elim (Bool-cases (is_generated_type r.type)) [
      | inl t ↦ view_from-IsView apex rrs v w k f (skip-IsView v r rrs i) (rw (t, view_from) at e)
      | inr g ↦ elim (Bool-cases (is_at_or_below r.label apex)) [
        | inl b ↦
            view_from-IsView apex rrs (with_cut apex r (with_type r v)) w k f
              (with_cut-IsView apex (with_type r v) r rrs (with_type-IsView v r rrs d n i))
              (rw (g, b, view_from) at e)
        | inr b ↦ let r' = (rw (g, b, view_from) at e) in cc
      ]
    ]
