-- ===== src/Resolver/Memory/ZoneIndex.antt =====
-- packages/core/src/resolver/memory/zone_index.ts: the owners of a zone, the names that exist with
-- them and the delegation points.
use dnsdata_js.Base.{
  ℕ, zero, suc, ◌+◌, Bool, true, false, not, ◌&&◌, ◌||◌, if◌then◌else◌, ◌==◌, ltb, Option, none,
  some, List, [], ◌∷◌, ◌++◌, length,
}
use dnsdata_js.Base.Text.{Text, dot, text_eq}
use dnsdata_js.Base.Maps.{get, set}
use dnsdata_js.Dnssec.Signer.{ResourceRecord, type_ns}
use dnsdata_js.Resolver.Memory.{labels, normalize, parent, is_at_or_below}

pub record ZoneIndex : Type 0 where
  pub by_name : List (Text × List ResourceRecord)
  pub exists : List Text
  pub cuts : List Text

abbrev pub no_index : ZoneIndex
no_index = record { by_name = []; exists = []; cuts = [] }

-- `Set.has` and `Array.includes` on strings
unfoldable pub has : Text → List Text → Bool
unfolding text_eq
has n [] = false
has n (x ∷ xs) = text_eq x n || has n xs

-- `for (let n = owner; !exists.has(n); n = parent(n))`, with fuel for the parents.
unfoldable pub add_existing : Text → ℕ → Text → List Text → List Text
unfolding has text_eq parent
add_existing apex zero n exists = exists
add_existing apex (suc f) n exists =
    let above = add_existing apex f (parent n) (n ∷ exists) in
    if has n exists then exists else if text_eq n apex then n ∷ exists else above

-- Every parent has a label less, and the root, which comes again, may come in two spellings.
abbrev pub steps_up : Text → ℕ
steps_up owner = length (labels owner) + 3

unfoldable pub records : ZoneIndex → Text → List ResourceRecord
unfolding get
records idx name = elim (get name idx.by_name) [ none ↦ [] | some rrs ↦ rrs ]

unfoldable pub has_name : ZoneIndex → Text → Bool
unfolding has
has_name idx name = has name idx.exists

-- An owner of NS records below the apex is a delegation point, once.
unfoldable pub add_cut : Text → ℕ → Text → List Text → List Text
unfolding has text_eq
add_cut apex type owner cuts =
    if (type == type_ns) && (not (text_eq owner apex) && not (has owner cuts))
    then cuts ++ owner ∷ []
    else cuts

-- The lines of `add` that do not parse the value of the record; `none` where they throw
-- `MemoryConfigError`, for an owner outside the zone.
unfoldable pub add_owner : Text → ResourceRecord → ZoneIndex → Option ZoneIndex
unfolding is_at_or_below normalize records set add_cut add_existing
add_owner apex rr idx =
    let owner = normalize rr.label in
    if not (is_at_or_below owner apex)
    then none
    else some record {
      by_name = set owner (records idx owner ++ rr ∷ []) idx.by_name;
      exists = add_existing apex (steps_up owner) owner idx.exists;
      cuts = add_cut apex rr.type owner idx.cuts;
    }

-- The records of a zone, one after the other.
unfoldable pub index_from : Text → List ResourceRecord → ZoneIndex → Option ZoneIndex
unfolding add_owner
index_from apex [] idx = some idx
index_from apex (rr ∷ rrs) idx = elim (add_owner apex rr idx) [
  | none ↦ none
  | some next ↦ index_from apex rrs next
]

-- The cut with the fewest labels so far, the first of them.
unfoldable pub cut_from : Text → List Text → Option Text → Option Text
unfolding is_at_or_below labels
cut_from name [] best = best
cut_from name (c ∷ cs) best =
    let closer : Bool = elim best [
      | none ↦ true
      | some b ↦ ltb (length (labels c)) (length (labels b))
    ] in
    cut_from name cs (if is_at_or_below name c && closer then some c else best)

unfoldable pub cut_above : ZoneIndex → Text → Option Text
unfolding cut_from
cut_above idx name = cut_from name idx.cuts none

-- `while (!exists.has(n) && n !== apex && n !== '.') n = parent(n)`, with fuel for the parents.
unfoldable pub encloser_from : Text → List Text → ℕ → Text → Text
unfolding has text_eq parent
encloser_from apex exists zero n = n
encloser_from apex exists (suc f) n =
    let above = encloser_from apex exists f (parent n) in
    if not (has n exists) && (not (text_eq n apex) && not (text_eq n (dot ∷ []))) then above else n

unfoldable pub closest_encloser : Text → ZoneIndex → Text → Text
unfolding encloser_from
closest_encloser apex idx name = encloser_from apex idx.exists (steps_up name) name
