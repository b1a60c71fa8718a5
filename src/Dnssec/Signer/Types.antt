-- ===== src/Dnssec/Signer/Types.antt =====
-- packages/core/src/dnssec/signer/nsec.ts: the types that an NSEC record of the chain lists.
use dnsdata_js.Base.{
  ℕ, ◌≤◌, Bool, true, ◌||◌, ◌==◌, none, some, List, [], ◌∷◌, ◌++◌, All, All-append, ◌≡◌, refl, sym,
  ap, ◌∙◌, inl, inr, Bool-cases, Option-cases, arith,
}
use mathlib.Core.Path.{subst}
use dnsdata_js.Base.Text.{Text, text_eq, to_lower}
use dnsdata_js.Base.Order.{sign_of_sub}
use dnsdata_js.Base.Maps.{get, set}
use dnsdata_js.Base.Among.{Among, here, there}
use dnsdata_js.Base.Sorting.{sort, Among-sort, All-sort}
use dnsdata_js.Base.Result.{ok, ok_injective}
use dnsdata_js.Dnssec.SignerNames.{is_at_or_below}
use dnsdata_js.Dnssec.Signer.{ResourceRecord, includes, is_generated_type, type_rrsig, type_nsec}
use dnsdata_js.Dnssec.Signer.View.{
  ZoneView, with_type, with_cut, view_from, types_at, filter, once_onto, sorted_types, chain_types,
  bitmap_types,
}
use dnsdata_js.Dnssec.Signer.Recorded.{with_cut-types}
use dnsdata_js.Dnssec.Signer.Apex.{All-filter, Among-filter}

includes-Among : (ts : List ℕ) (t : ℕ) → includes ts t ≡ true → Among t ts
unfolding includes
includes-Among [] t h = absurd (cc)
includes-Among (u ∷ ts) t h = elim (Bool-cases (u == t)) [
  | inl e ↦ let q : u ≡ t = ground arith in subst (λ (x : ℕ). Among x (u ∷ ts)) q here
  | inr f ↦ there (includes-Among ts t (rw f at h))
]

Among-includes : (ts : List ℕ) (t : ℕ) → Among t ts → includes ts t ≡ true
unfolding includes
Among-includes [] t m = elim m [ ]
Among-includes (_ ∷ ts) t here = ground arith
Among-includes (u ∷ ts) t (there m) = ground (arith, Among-includes ts t m)

pub includes-append :
    (ts us : List ℕ) (t : ℕ) → includes (ts ++ us) t ≡ (includes ts t || includes us t)
unfolding includes
includes-append [] us t = refl
includes-append (u ∷ ts) us t = ground (arith, includes-append ts us t)

includes-once_onto :
    (seen ts : List ℕ) (t : ℕ)
    → (includes seen t || includes ts t) ≡ true
    → includes (once_onto seen ts) t ≡ true
unfolding once_onto includes
includes-once_onto seen [] t h = ground arith
includes-once_onto seen (u ∷ ts) t h = elim (Bool-cases (includes seen u)) [
  | inl e ↦ rw e (
      includes-once_onto seen ts t (elim (Bool-cases (u == t)) [
        | inl q ↦ let s : u ≡ t = ground arith in rw (ap (includes seen) (sym s) ∙ e) refl
        | inr q ↦ (rw q at h)
      ]))
  | inr f ↦
      rw f
        (includes-once_onto (seen ++ u ∷ []) ts t (ground (arith, includes-append seen (u ∷ []) t)))
]

pub includes-sort :
    (us : List ℕ) (t : ℕ) → includes us t ≡ true → includes (sort sign_of_sub us) t ≡ true
includes-sort us t h =
    Among-includes (sort sign_of_sub us) t (Among-sort sign_of_sub t us (includes-Among us t h))

pub includes-filter :
    (keep : ℕ → Bool) (ts : List ℕ) (t : ℕ)
    → includes ts t ≡ true
    → keep t ≡ true
    → includes (filter keep ts) t ≡ true
includes-filter keep ts t h k =
    Among-includes (filter keep ts) t (Among-filter keep t ts (includes-Among ts t h) k)

-- Sorting and leaving out repeats loses no type.
pub includes-sorted_types :
    (ts : List ℕ) (t : ℕ) → includes ts t ≡ true → includes (sorted_types ts) t ≡ true
unfolding sorted_types includes
includes-sorted_types ts t h = includes-sort (once_onto [] ts) t (includes-once_onto [] ts t h)

abbrev pub Are16Bit : List ℕ → Type 0
Are16Bit ts = All (λ (t : ℕ). t ≤ 0xffff) ts

once_onto-Are16Bit : (seen ts : List ℕ) → Are16Bit seen → Are16Bit ts → Are16Bit (once_onto seen ts)
unfolding once_onto
once_onto-Are16Bit seen [] s h = s
once_onto-Are16Bit seen (t ∷ ts) s (b, h) = elim (Bool-cases (includes seen t)) [
  | inl e ↦ rw e (once_onto-Are16Bit seen ts s h)
  | inr f ↦ rw f (once_onto-Are16Bit (seen ++ t ∷ []) ts (All-append _ seen (t ∷ []) s (b, tt)) h)
]

sorted_types-Are16Bit : (ts : List ℕ) → Are16Bit ts → Are16Bit (sorted_types ts)
unfolding sorted_types
sorted_types-Are16Bit ts h =
    All-sort sign_of_sub (λ (t : ℕ). t ≤ 0xffff) (once_onto [] ts) (once_onto-Are16Bit [] ts tt h)

abbrev pub HasTypes : List (Text × List ℕ) → Type 0
HasTypes types = All (λ (e : Text × List ℕ). Are16Bit e.1) types

set-HasTypes :
    (key : Text) (ts : List ℕ) (types : List (Text × List ℕ))
    → Are16Bit ts
    → HasTypes types
    → HasTypes (set key ts types)
unfolding set
set-HasTypes key ts [] b h = (b, tt)
set-HasTypes key ts ((l, us) ∷ types) b (c, h) = elim (Bool-cases (text_eq l key)) [
  | inl t ↦ rw t (b, h)
  | inr f ↦ rw f (c, set-HasTypes key ts types b h)
]

get-HasTypes :
    (key : Text) (ts : List ℕ) (types : List (Text × List ℕ))
    → HasTypes types
    → get key types ≡ some ts
    → Are16Bit ts
unfolding get
get-HasTypes key ts [] h e = absurd (cc)
get-HasTypes key ts ((l, us) ∷ types) (b, h) e = elim (Bool-cases (text_eq l key)) [
  | inl t ↦
      let same : some us ≡ some ts = (rw t at e) in
      subst (λ (x : List ℕ). Are16Bit x) (ap (λ o. elim o [ none ↦ us | some x ↦ x ]) same) b
  | inr f ↦ get-HasTypes key ts types h (rw f at e)
]

with_type-HasTypes :
    (v : ZoneView) (r : ResourceRecord)
    → r.type ≤ 0xffff
    → HasTypes v.types
    → HasTypes (with_type r v).types
unfolding with_type
with_type-HasTypes v r b h = elim (Option-cases (get (to_lower r.label) v.types)) [
  | inl e ↦ rw (e, with_type) (set-HasTypes (to_lower r.label) (r.type ∷ []) v.types (b, tt) h)
  | inr (at, e) ↦ elim (Bool-cases (includes at r.type)) [
    | inl t ↦ rw (e, t, with_type) h
    | inr f ↦
        rw (e, f, with_type)
          (set-HasTypes (to_lower r.label) (at ++ r.type ∷ []) v.types
            (All-append _ at (r.type ∷ []) (get-HasTypes (to_lower r.label) at v.types h e) (b, tt))
            h)
  ]
]

pub view_from-HasTypes :
    (apex : Text) (rrs : List ResourceRecord) (v w : ZoneView)
    → All (λ (r : ResourceRecord). r.type ≤ 0xffff) rrs
    → HasTypes v.types
    → view_from apex rrs v ≡ ok w
    → HasTypes w.types
unfolding view_from
view_from-HasTypes apex [] v w _ h e = subst (λ (x : ZoneView). HasTypes x.types) (ok_injective e) h
view_from-HasTypes apex (r ∷ rrs) v w (b, bs) h e = elim (Bool-cases (is_generated_type r.type)) [
  | inl t ↦ view_from-HasTypes apex rrs v w bs h (rw (t, view_from) at e)
  | inr g ↦ elim (Bool-cases (is_at_or_below r.label apex)) [
    | inl k ↦
        let (t, o) = with_cut-types apex r (with_type r v) in
        view_from-HasTypes apex rrs (with_cut apex r (with_type r v)) w bs
          (subst (λ (x : List (Text × List ℕ)). HasTypes x) (sym t) (with_type-HasTypes v r b h))
          (rw (g, k, view_from) at e)
    | inr k ↦ let r' = (rw (g, k, view_from) at e) in cc
  ]
]

-- The types of a bitmap are 16-bit numbers where those of the zone are.
pub bitmap_types-Are16Bit :
    (v : ZoneView) (owner : Text)
    → HasTypes v.types
    → Are16Bit (sorted_types (bitmap_types v owner))
unfolding chain_types types_at
bitmap_types-Are16Bit v owner h = sorted_types-Are16Bit (bitmap_types v owner) (
    All-append _ (chain_types v owner) (type_rrsig ∷ type_nsec ∷ [])
      (All-filter _ _ (types_at v owner) (elim (Option-cases (get (to_lower owner) v.types)) [
        | inl e ↦ rw (e, types_at) tt
        | inr (ts, e) ↦ rw (e, types_at) (get-HasTypes (to_lower owner) ts v.types h e)
      ]))
      (omega arith, (omega arith, tt)))
