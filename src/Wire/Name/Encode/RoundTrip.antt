-- ===== src/Wire/Name/Encode/RoundTrip.antt =====
-- Encoding a name and parsing the octets gives the name back.
use dnsdata_js.Base.{
  ℕ, ◌+◌, ◌%◌, ◌≡◌, ◌≢◌, refl, sym, ap, ◌∙◌, arith, true, false, ◌⊎◌, inl, inr, List, [], ◌∷◌, ◌++◌,
  map, length, length-map, All,
}
use mathlib.Core.Path.{subst, ap₂}
use dnsdata_js.Base.Slices.{Bytes, IsByte}
use dnsdata_js.Base.Result.{ok}
use dnsdata_js.Base.Text.{Text, dot, ends_with_dot}
use dnsdata_js.Wire.Name.{
  encode_domain_name, assemble_name, parse_domain_name, ascii_to_lower, domain_name2wire,
  domain_name2wire_preserve_case,
}
use dnsdata_js.Wire.Name.Labels.{IsLabel, wire_of, dotted, assemble_name-dotted}
use dnsdata_js.Wire.Name.Encode.{IsPlain, folded, Maps, wire_of-IsByte}
use dnsdata_js.Wire.Name.Encode.Inverse.{encode_domain_name-Accepted}
use dnsdata_js.Wire.Name.Parse.RoundTrip.{parse_domain_name-wire_of}

-- A case mapping keeps octets, and the dot.
pub record IsFold (fold : ℕ → ℕ) : Type 0 where
  pub keeps_bytes : (c : ℕ) → IsByte c → IsByte (fold c)
  pub keeps_dot : fold dot ≡ dot

map-append : (f : ℕ → ℕ) (xs ys : Text) → map f (xs ++ ys) ≡ map f xs ++ map f ys
map-append f [] ys = refl
map-append f (x ∷ xs) ys = ap (◌∷◌ (f x)) (map-append f xs ys)

All-front : (xs ys : Text) → All IsByte (xs ++ ys) → All IsByte xs × All IsByte ys
All-front [] ys h = (tt, h)
All-front (x ∷ xs) ys (p, h) = let (a, b) = All-front xs ys h in ((p, a), b)

-- The name is the root, or does not begin with a dot.
abbrev pub NoLeadingDot : Text → Type 0
NoLeadingDot s = (s ≡ dot ∷ []) ⊎ ((r : Text) → s ≢ dot ∷ r)

dotted-ne-nil : (l : Text) (ls : List Text) → dotted (l ∷ ls) ≢ []
dotted-ne-nil [] ls e = cc
dotted-ne-nil (c ∷ l) ls e = cc

no_dot_in_nil : ends_with_dot [] ≡ false
unfolding ends_with_dot
no_dot_in_nil = refl

pub assemble_name-nil : assemble_name [] ≡ dot ∷ []
unfolding assemble_name
assemble_name-nil = refl

module _ (fold : ℕ → ℕ) (k : IsFold fold) where
  fold-IsByte : (l : Text) → All IsByte l → Maps fold l
  fold-IsByte [] h = tt
  fold-IsByte (c ∷ l) (p, h) = (k.keeps_bytes c p, fold-IsByte l h)

  dotted-Maps : (ls : List Text) → All IsByte (dotted ls) → All (Maps fold) ls
  dotted-Maps [] h = tt
  dotted-Maps (l ∷ ls) h =
      let (a, b) = All-front l (dot ∷ dotted ls) h in (fold-IsByte l a, dotted-Maps ls b.1)

  folded-IsLabel :
      (ls : List Text) → All IsPlain ls → All (Maps fold) ls → All IsLabel (folded fold ls)
  folded-IsLabel [] v w = tt
  folded-IsLabel (l ∷ ls) (p, v) (q, w) = (
    (omega (arith, length-map l fold), omega (arith, length-map l fold), q),
    folded-IsLabel ls v w,
  )

  map-dotted : (ls : List Text) → map fold (dotted ls) ≡ dotted (folded fold ls)
  map-dotted [] = refl
  map-dotted (l ∷ ls) =
      map-append fold l (dot ∷ dotted ls)
      ∙ ap₂ (λ (c : ℕ) (t : Text). map fold l ++ c ∷ t) k.keeps_dot (map-dotted ls)

  kept : (bs : Bytes) → All IsByte bs → map (λ b. b % 256) bs ≡ bs
  kept [] v = refl
  kept (b ∷ bs) (p, v) =
      ap₂ (λ (x : ℕ) (xs : Bytes). x ∷ xs) {x = b % 256} (omega arith) (kept bs v)

  named :
      (s : Text) (ls : List Text)
      → NoLeadingDot s
      → ends_with_dot s ≡ true
      → (s ≡ dotted ls) ⊎ (s ≡ dot ∷ dotted ls)
      → assemble_name (folded fold ls) ≡ map fold s
  named s [] lead e (inl same) = cc (no_dot_in_nil)
  named s [] lead e (inr same) = root ∙ ap (map fold) (sym same)
    where
      root : assemble_name [] ≡ map fold (dot ∷ [])
      root = assemble_name-nil ∙ ap (λ (c : ℕ). c ∷ []) (sym k.keeps_dot)
  named s (l ∷ ls) lead e (inl same) =
      assemble_name-dotted (map fold l) (folded fold ls)
      ∙ sym (map-dotted (l ∷ ls))
      ∙ ap (map fold) (sym same)
  named s (l ∷ ls) (inl root) e (inr same) = absurd (dotted-ne-nil l ls (cc (root, same)))
  named s (l ∷ ls) (inr no_dot) e (inr same) = absurd (no_dot (dotted (l ∷ ls)) same)

  form-IsByte :
      (s : Text) (ls : List Text)
      → All IsByte s
      → (s ≡ dotted ls) ⊎ (s ≡ dot ∷ dotted ls)
      → All IsByte (dotted ls)
  form-IsByte s ls h (inl same) = subst (All IsByte) same h
  form-IsByte s ls h (inr same) = (subst (All IsByte) same h).1

  -- Whatever fully qualified name the encoder accepts, the parser reads it back from the octets,
  -- under the encoder's case mapping, wherever they stand in a message.
  pub parse_domain_name-encode :
      (s : Text) (w pre rest : Bytes)
      → All IsByte s
      → ends_with_dot s ≡ true
      → NoLeadingDot s
      → encode_domain_name s fold ≡ ok w
      → parse_domain_name (pre ++ (w ++ rest)) (length pre)
        ≡ ok (record { name = map fold s; next = length pre + length w })
  parse_domain_name-encode s w pre rest octets e lead h =
      let (ls, form, plain, out, short) = encode_domain_name-Accepted fold s w e h in
      let maps = dotted-Maps ls (form-IsByte s ls octets form) in
      let same : w ≡ wire_of (folded fold ls) = out ∙ kept _ (wire_of-IsByte fold ls plain maps) in
      ap (λ (x : Bytes). parse_domain_name (pre ++ (x ++ rest)) (length pre)) same
      ∙ parse_domain_name-wire_of (folded fold ls) pre rest (folded-IsLabel ls plain maps)
      ∙ ap₂ (λ (n : Text) (x : Bytes). ok (record { name = n; next = length pre + length x }))
          (named s ls lead e form) (sym same)

ascii_to_lower-IsFold : IsFold ascii_to_lower
unfolding ascii_to_lower
ascii_to_lower-IsFold = record { keeps_bytes = λ c h. ground arith; keeps_dot = refl }

identity-IsFold : IsFold (λ c. c)
identity-IsFold = record { keeps_bytes = λ c h. h; keeps_dot = refl }

-- `domain_name2wire` then `parse_domain_name` lower-cases a fully qualified name of octets that
-- does not begin with a dot, and changes nothing else; the offset is that behind the octets.
pub parse_domain_name-domain_name2wire :
    (s : Text) (w pre rest : Bytes)
    → All IsByte s
    → ends_with_dot s ≡ true
    → NoLeadingDot s
    → domain_name2wire s ≡ ok w
    → parse_domain_name (pre ++ (w ++ rest)) (length pre)
      ≡ ok (record { name = map ascii_to_lower s; next = length pre + length w })
unfolding domain_name2wire
parse_domain_name-domain_name2wire s w pre rest octets e lead h =
    parse_domain_name-encode ascii_to_lower ascii_to_lower-IsFold s w pre rest octets e lead h

map_id : (s : Text) → map (λ c. c) s ≡ s
map_id [] = refl
map_id (c ∷ s) = ap (◌∷◌ c) (map_id s)

-- After `domain_name2wire_preserve_case`, `parse_domain_name` gives back every fully qualified name
-- of octets that does not begin with a dot, and the offset behind the octets.
pub parse_domain_name-preserve_case :
    (s : Text) (w pre rest : Bytes)
    → All IsByte s
    → ends_with_dot s ≡ true
    → NoLeadingDot s
    → domain_name2wire_preserve_case s ≡ ok w
    → parse_domain_name (pre ++ (w ++ rest)) (length pre)
      ≡ ok (record { name = s; next = length pre + length w })
unfolding domain_name2wire_preserve_case
parse_domain_name-preserve_case s w pre rest octets e lead h =
    parse_domain_name-encode (λ c. c) identity-IsFold s w pre rest octets e lead h
    ∙ ap (λ (n : Text). ok (record { name = n; next = length pre + length w })) (map_id s)
