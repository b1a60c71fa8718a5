-- ===== src/Dnssec/Signer/View.antt =====
-- packages/core/src/dnssec/signer/nsec.ts: what signing sees of a zone, `ZoneView`, and the NSEC
-- chain that `build_nsec` makes of it.
use dnsdata_js.Base.{
  ℕ, Bool, ◌&&◌, ◌||◌, not, if◌then◌else◌, ◌==◌, none, some, List, [], ◌∷◌, ◌++◌, map, any,
}
use dnsdata_js.Base.Text.{Text, codes, to_lower, text_eq, join}
use dnsdata_js.Base.Order.{sign_of_sub}
use dnsdata_js.Base.Maps.{get, set}
use dnsdata_js.Base.Sorting.{sort}
use dnsdata_js.Base.Slices.{Bytes}
use dnsdata_js.Base.Result.{Result, ok, ◌>>=◌, ◌>>◌, throw_if, rethrow_as, signer_error}
use dnsdata_js.Types.RrType.{rr_type_name}
use dnsdata_js.Dnssec.SignerNames.{is_at_or_below, same_name}
use dnsdata_js.Dnssec.Signer.{
  ResourceRecord, type_ns, type_ds, type_rrsig, type_nsec, includes, is_generated_type,
}
use dnsdata_js.Dnssec.Signer.Zone.{records_canonical}

-- The owners in canonical order, the types at each lower-cased owner, and the delegation points.
pub record ZoneView : Type 0 where
  pub owners : List Text
  pub types : List (Text × List ℕ)
  pub cuts : List Text

abbrev pub no_view : ZoneView
no_view = record { owners = []; types = []; cuts = [] }

-- `owners` and `types` with one more record.
unfoldable pub with_type : ResourceRecord → ZoneView → ZoneView
unfolding to_lower get set includes
with_type rr v =
    let key = to_lower rr.label in
    elim (get key v.types) [
      | none ↦ record v {
        owners = v.owners ++ rr.label ∷ [];
        types = set key (rr.type ∷ []) v.types;
      }
      | some at ↦
          if includes at rr.type
          then v
          else record v { types = set key (at ++ rr.type ∷ []) v.types }
    ]

unfoldable pub with_cut : Text → ResourceRecord → ZoneView → ZoneView
unfolding same_name text_eq
with_cut apex rr v =
    if (rr.type == type_ns)
      && not (same_name rr.label apex)
      && not (any (λ c. text_eq c rr.label) v.cuts)
    then record v { cuts = v.cuts ++ rr.label ∷ [] }
    else v

-- The loop of `ZoneView.of`.
unfoldable pub view_from : Text → List ResourceRecord → ZoneView → Result ZoneView
unfolding is_generated_type is_at_or_below with_type with_cut
view_from apex [] v = ok v
view_from apex (rr ∷ rrs) v =
    let skipped = view_from apex rrs v in
    let taken = view_from apex rrs (with_cut apex rr (with_type rr v)) in
    if is_generated_type rr.type
    then skipped
    else throw_if (not (is_at_or_below rr.label apex)) signer_error >> taken

module _ (v : ZoneView) where
  unfoldable pub types_at : Text → List ℕ
  unfolding get to_lower
  types_at owner = elim (get (to_lower owner) v.types) [ none ↦ [] | some at ↦ at ]

  unfoldable pub is_cut : Text → Bool
  unfolding same_name
  is_cut name = any (λ c. same_name c name) v.cuts

  unfoldable pub is_occluded : Text → Bool
  unfolding same_name is_at_or_below
  is_occluded name = any (λ c. not (same_name c name) && is_at_or_below name c) v.cuts

-- `ts.filter(keep)`
unfoldable pub filter {ℓ} : {A : Type ℓ} → (A → Bool) → List A → List A
filter keep [] = []
filter keep (x ∷ xs) = let rest = filter keep xs in if keep x then x ∷ rest else rest

-- `[...new Set(ts)]`: the first of each.
unfoldable pub once_onto : List ℕ → List ℕ → List ℕ
unfolding includes
once_onto seen [] = seen
once_onto seen (t ∷ ts) = once_onto (if includes seen t then seen else seen ++ t ∷ []) ts

unfoldable pub sorted_types : List ℕ → List ℕ
unfolding once_onto sort sign_of_sub
sorted_types ts = sort sign_of_sub (once_onto [] ts)

abbrev pub space : Text
space = codes " "

unfoldable pub type_names : List ℕ → Text
unfolding sorted_types rr_type_name join
type_names ts = join space (map rr_type_name (sorted_types ts))

module _ (v : ZoneView) where
  unfoldable pub chain_types : Text → List ℕ
  unfolding filter types_at is_cut
  chain_types owner =
      let cut = is_cut v owner in
      filter (λ t. not cut || (t == type_ns) || (t == type_ds)) (types_at v owner)

  abbrev pub bitmap_types : Text → List ℕ
  bitmap_types owner = chain_types owner ++ type_rrsig ∷ type_nsec ∷ []

  unfoldable pub bitmap_text : Text → Text
  unfolding chain_types type_names
  bitmap_text owner = type_names (bitmap_types owner)

  unfoldable pub is_signed : Text → Bool
  unfolding is_cut types_at includes
  is_signed owner = not (is_cut v owner) || includes (types_at v owner) type_ds

module _ (canonical_rdata : ResourceRecord → Result Bytes) where
  -- `ZoneView.of`
  unfoldable pub view_of : List ResourceRecord → Text → Result ZoneView
  unfolding records_canonical view_from
  view_of z apex = rethrow_as signer_error (records_canonical canonical_rdata z) >>= λ rrs.
      view_from apex rrs no_view
