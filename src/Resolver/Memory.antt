-- ===== src/Resolver/Memory.antt =====
-- packages/core/src/resolver/memory/names.ts: the names of the in-memory authority.
use dnsdata_js.Base.{
  ℕ, ◌+◌, ◌-◌, leb, ltb, Bool, false, if◌then◌else◌, is_empty, List, [], ◌∷◌, ◌++◌, length, drop,
}
use dnsdata_js.Base.Text.{
  Text, codes, dot, text_eq, to_lower, join, split, ends_with_dot, strip_trailing_dot,
}
use dnsdata_js.Base.Spaces.{trim}
use dnsdata_js.Dnssec.SignerNames.{every_same}
pub mod ZoneIndex
pub mod Parents
pub mod Existing
pub mod Laws

unfoldable pub normalize : Text → Text
unfolding trim to_lower ends_with_dot
normalize name =
    let trimmed = to_lower (trim name) in
    if ends_with_dot trimmed then trimmed else trimmed ++ dot ∷ []

unfoldable pub labels : Text → List Text
unfolding strip_trailing_dot split
labels name =
    let trimmed = strip_trailing_dot name in if is_empty trimmed then [] else split dot trimmed

unfoldable pub is_at_or_below : Text → Text → Bool
unfolding labels every_same
is_at_or_below name ancestor =
    let n = labels name in
    let a = labels ancestor in
    if ltb (length n) (length a) then false else every_same (drop (length n - length a) n) a

unfoldable pub parent : Text → Text
unfolding labels join
parent name =
    let l = labels name in
    if leb (length l) 1 then dot ∷ [] else join (dot ∷ []) (drop 1 l) ++ dot ∷ []

unfoldable pub wildcard_of : Text → Text
unfolding text_eq
wildcard_of name = if text_eq name (dot ∷ []) then codes "*." else codes "*." ++ name

unfoldable pub next_closer : Text → Text → Text
unfolding labels join
next_closer name ce =
    let l = labels name in
    let keep = length (labels ce) + 1 in join (dot ∷ []) (drop (length l - keep) l) ++ dot ∷ []
