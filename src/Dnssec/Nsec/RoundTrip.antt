-- ===== src/Dnssec/Nsec/RoundTrip.antt =====
-- packages/core/src/dnssec/nsec.ts: the constructor reads back what is written as an NSEC value.
use dnsdata_js.Base.{ℕ, ◌≤◌, List, [], ◌∷◌, ◌++◌, map, All, ◌≡◌, refl, ap, ◌∙◌, true}
use dnsdata_js.Base.Text.{Text, join}
use dnsdata_js.Base.Order.{sign_of_sub}
use dnsdata_js.Base.Sorting.{sort}
use dnsdata_js.Base.Spaces.Words.{is_word, AreWords, split_spaces-trim-join}
use dnsdata_js.Base.Result.{ok}
use dnsdata_js.Types.RrType.{rr_type_name}
use dnsdata_js.Types.RrType.Generic.{string_to_rr_type-rr_type_name}
use dnsdata_js.Types.RrType.Words.{rr_type_name-is_word}
use dnsdata_js.Dnssec.Nsec.{Nsec}
use dnsdata_js.Dnssec.Nsec.Bitmap.{encode_type_bitmap}
use dnsdata_js.Dnssec.Nsec.Presentation.{read_types, nsec_of_parts, nsec_of_value}

map-AreWords : (ts : List ℕ) → AreWords (map rr_type_name ts)
map-AreWords [] = tt
map-AreWords (t ∷ ts) = (rr_type_name-is_word t, map-AreWords ts)

read_types-names :
    (ts : List ℕ) → All (λ (t : ℕ). t ≤ 0xffff) ts → read_types (map rr_type_name ts) ≡ ts
unfolding read_types
read_types-names [] h = refl
read_types-names (t ∷ ts) (b, h) =
    rw (string_to_rr_type-rr_type_name t b) (ap (λ (x : List ℕ). t ∷ x) (read_types-names ts h))

-- The handler that the types make.
abbrev pub nsec_of : Text → List ℕ → Nsec
nsec_of next ts = record {
  next_domain = next;
  type_bitmap = encode_type_bitmap (sort sign_of_sub ts);
  covered_types = sort sign_of_sub ts;
}

-- For a next domain name without white space and 16-bit types, at least one, `new DNSRR_NSEC` reads
-- the name and the types, sorted, from the name and the type names joined by spaces.
pub nsec_of_value-join :
    (next : Text) (t : ℕ) (ts : List ℕ)
    → is_word next ≡ true
    → All (λ (u : ℕ). u ≤ 0xffff) (t ∷ ts)
    → nsec_of_value (next ++ (32 ∷ []) ++ join (32 ∷ []) (map rr_type_name (t ∷ ts)))
      ≡ ok (nsec_of next (t ∷ ts))
unfolding nsec_of_value join
nsec_of_value-join next t ts w h =
    ap nsec_of_parts
      (split_spaces-trim-join next (map rr_type_name (t ∷ ts)) (w, map-AreWords (t ∷ ts)))
    ∙ ap (λ (x : List ℕ). ok (nsec_of next x)) (read_types-names (t ∷ ts) h)
