-- ===== src/Dnssec/Signer/Recorded.antt =====
-- packages/core/src/dnssec/signer/nsec.ts: `ZoneView.of` records the type of every record that
-- signing does not produce, under an owner of the same name.
use dnsdata_js.Base.{
  ℕ, true, ◌&&◌, not, ◌==◌, none, some, List, [], ◌∷◌, ◌++◌, any, All, All-append, ◌≡◌, refl, sym,
  ap, ◌∙◌, inl, inr, Bool-cases, Option-cases, arith,
}
use mathlib.Core.Path.{subst}
use dnsdata_js.Base.Text.{Text, text_eq, text_eq_iff, to_lower}
use dnsdata_js.Base.Maps.{get, set, get-set_same, get-set_other}
use dnsdata_js.Base.Among.{Among, here, Among-append_left, Among-append_right}
use dnsdata_js.Dnssec.SignerNames.{same_name, is_at_or_below}
use dnsdata_js.Dnssec.Signer.{ResourceRecord, includes, type_ns}
use dnsdata_js.Dnssec.Signer.View.{ZoneView, with_type, with_cut}

-- The type of the record is listed under its lower-cased owner.
abbrev pub Holds : ZoneView → ResourceRecord → Type 0
Holds v r = (ts : List ℕ) × (get (to_lower r.label) v.types ≡ some ts) × (includes ts r.type ≡ true)

-- Every key is the lower-cased form of an owner.
abbrev pub HasOwners : ZoneView → Type 0
HasOwners v =
    (key : Text) (ts : List ℕ)
    → get key v.types ≡ some ts
    → (o : Text) × Among o v.owners × (to_lower o ≡ key)

abbrev pub HasCuts : Text → ZoneView → Type 0
HasCuts apex v = All (λ (c : Text). is_at_or_below c apex ≡ true) v.cuts

includes-append_left :
    (ts : List ℕ) (t u : ℕ) → includes ts t ≡ true → includes (ts ++ u ∷ []) t ≡ true
unfolding includes
includes-append_left [] t u h = cc
includes-append_left (s ∷ ts) t u h = ground (arith, includes-append_left ts t u)

includes-append_right : (ts : List ℕ) (u : ℕ) → includes (ts ++ u ∷ []) u ≡ true
unfolding includes
includes-append_right [] u = ground arith
includes-append_right (s ∷ ts) u = ground (arith, includes-append_right ts u)

includes-one : (u : ℕ) → includes (u ∷ []) u ≡ true
unfolding includes
includes-one u = ground arith

pub with_type-Holds_new : (v : ZoneView) (r : ResourceRecord) → Holds (with_type r v) r
unfolding with_type
with_type-Holds_new v r = elim (Option-cases (get (to_lower r.label) v.types)) [
  | inl e ↦
      rw (e, with_type)
        (r.type ∷ [], get-set_same (to_lower r.label) (r.type ∷ []) v.types, includes-one r.type)
  | inr (at, e) ↦ elim (Bool-cases (includes at r.type)) [
    | inl t ↦ rw (e, t, with_type) (at, e, t)
    | inr f ↦
        rw (e, f, with_type)
          (
            at ++ r.type ∷ [],
            get-set_same (to_lower r.label) (at ++ r.type ∷ []) v.types,
            includes-append_right at r.type,
          )
  ]
]

-- The list under a key is kept, or replaced by one that has its types too.
set-Holds :
    (types : List (Text × List ℕ)) (key j : Text) (at ts : List ℕ) (t u : ℕ)
    → get key types ≡ some at
    → get j types ≡ some ts
    → includes ts t ≡ true
    → (us : List ℕ) × (get j (set key (at ++ u ∷ []) types) ≡ some us) × (includes us t ≡ true)
set-Holds types key j at ts t u e f h = elim (Bool-cases (text_eq key j)) [
  | inl q ↦
      let (to, from) = text_eq_iff key j in
      let g : get key types ≡ some ts = ap (λ (x : Text). get x types) (to q) ∙ f in
      let same : at ≡ ts = ap (λ o. elim o [ none ↦ at | some x ↦ x ]) (sym e ∙ g) in
      (
        at ++ u ∷ [],
        subst (λ (x : Text). get x (set key (at ++ u ∷ []) types) ≡ some (at ++ u ∷ [])) (to q)
            (get-set_same key (at ++ u ∷ []) types),
        includes-append_left at t u (ap (λ (x : List ℕ). includes x t) same ∙ h),
      )
  | inr q ↦ (ts, get-set_other key j (at ++ u ∷ []) types q ∙ f, h)
]

pub with_type-Holds_old :
    (v : ZoneView) (r s : ResourceRecord) → Holds v s → Holds (with_type r v) s
unfolding with_type
with_type-Holds_old v r s (ts, f, h) = elim (Option-cases (get (to_lower r.label) v.types)) [
  | inl e ↦
      rw (e, with_type)
        (elim (Bool-cases (text_eq (to_lower r.label) (to_lower s.label))) [
          | inl q ↦
              let (to, from) = text_eq_iff (to_lower r.label) (to_lower s.label) in
              let g : get (to_lower s.label) v.types ≡ none =
                subst (λ (x : Text). get x v.types ≡ none) (to q) e in
              absurd (cc)
          | inr q ↦ (
            ts,
            get-set_other (to_lower r.label) (to_lower s.label) (r.type ∷ []) v.types q ∙ f,
            h,
          )
        ])
  | inr (at, e) ↦ elim (Bool-cases (includes at r.type)) [
    | inl t ↦ rw (e, t, with_type) (ts, f, h)
    | inr g ↦
        rw (e, g, with_type)
          (set-Holds v.types (to_lower r.label) (to_lower s.label) at ts s.type r.type e f h)
  ]
]

set-HasOwners :
    (v : ZoneView) (key : Text) (at : List ℕ) (owners : List Text) (o : Text)
    → HasOwners v
    → ((x : Text) → Among x v.owners → Among x owners)
    → Among o owners
    → to_lower o ≡ key
    → (j : Text) (ts : List ℕ) → get j (set key at v.types) ≡ some ts
    → (x : Text) × Among x owners × (to_lower x ≡ j)
set-HasOwners v key at owners o has wider m l j ts h = elim (Bool-cases (text_eq key j)) [
  | inl q ↦ let (to, from) = text_eq_iff key j in (o, m, l ∙ to q)
  | inr q ↦
      let (x, k, e) = has j ts (sym (get-set_other key j at v.types q) ∙ h) in (x, wider x k, e)
]

pub with_type-HasOwners :
    (v : ZoneView) (r : ResourceRecord) → HasOwners v → HasOwners (with_type r v)
unfolding with_type
with_type-HasOwners v r has = elim (Option-cases (get (to_lower r.label) v.types)) [
  | inl e ↦
      rw (e, with_type)
        (set-HasOwners v (to_lower r.label) (r.type ∷ []) (v.owners ++ r.label ∷ []) r.label has
          (λ x m. Among-append_left x v.owners (r.label ∷ []) m)
          (Among-append_right r.label v.owners (r.label ∷ []) here) refl)
  | inr (at, e) ↦ elim (Bool-cases (includes at r.type)) [
    | inl t ↦ rw (e, t, with_type) has
    | inr f ↦
        let (o, m, l) = has (to_lower r.label) at e in
        rw (e, f, with_type)
          (set-HasOwners v (to_lower r.label) (at ++ r.type ∷ []) v.owners o has (λ x k. k) m l)
  ]
]

pub with_type-cuts : (v : ZoneView) (r : ResourceRecord) → (with_type r v).cuts ≡ v.cuts
unfolding with_type
with_type-cuts v r = elim (Option-cases (get (to_lower r.label) v.types)) [
  | inl e ↦ rw (e, with_type) refl
  | inr (at, e) ↦ elim (Bool-cases (includes at r.type)) [
    | inl t ↦ rw (e, t, with_type) refl
    | inr f ↦ rw (e, f, with_type) refl
  ]
]

-- What a view has of the records: `with_cut` leaves it as it is but for the cuts.
pub record HasView (apex : Text) (v : ZoneView) : Type 0 where
  pub owners_of : HasOwners v
  pub below_apex : HasCuts apex v

pub with_cut-types :
    (apex : Text) (r : ResourceRecord) (v : ZoneView)
    → ((with_cut apex r v).types ≡ v.types) × ((with_cut apex r v).owners ≡ v.owners)
unfolding with_cut
with_cut-types apex r v =
    elim (Bool-cases (
      (r.type == type_ns)
      && not (same_name r.label apex)
      && not (any (λ c. text_eq c r.label) v.cuts))) [
        | inl t ↦ rw (t, with_cut) (refl, refl)
        | inr f ↦ rw (f, with_cut) (refl, refl)
      ]

pub with_cut-HasCuts :
    (apex : Text) (r : ResourceRecord) (v : ZoneView)
    → is_at_or_below r.label apex ≡ true
    → HasCuts apex v
    → HasCuts apex (with_cut apex r v)
unfolding with_cut
with_cut-HasCuts apex r v b h =
    elim (Bool-cases (
      (r.type == type_ns)
      && not (same_name r.label apex)
      && not (any (λ c. text_eq c r.label) v.cuts))) [
        | inl t ↦ rw (t, with_cut) (All-append _ v.cuts (r.label ∷ []) h (b, tt))
        | inr f ↦ rw (f, with_cut) h
      ]
