-- ===== src/Types/RrType/Keys.antt =====
-- packages/core/src/verifier/cache.ts and zone/dns_zone.ts: keys put together of a name and a number.
use dnsdata_js.Base.{
  ℕ, suc, Bool, true, false, ◌&&◌, if◌then◌else◌, ◌==◌, all, some, List, [], ◌∷◌, ◌++◌, ◌≡◌, refl,
  sym, ap, ◌∙◌, inl, inr, Bool-cases, arith,
}
use dnsdata_js.Base.Text.{Text, text_eq, text_eq_iff, decimal}
use dnsdata_js.Base.Maps.{get, set, get-set_same, get-set_other}
use dnsdata_js.Types.RrType.{is_digit, number_from}
use dnsdata_js.Types.RrType.Generic.{all-digits_onto, number_from-digits_onto}

abbrev pub composite_key : ℕ → Text → ℕ → Text
composite_key sep name n = name ++ sep ∷ decimal n

number_from-decimal : (n : ℕ) → number_from 0 (decimal n) ≡ n
unfolding decimal number_from
number_from-decimal n = number_from-digits_onto (suc n) n [] (omega arith)

all-decimal : (n : ℕ) → all is_digit (decimal n) ≡ true
unfolding decimal
all-decimal n = all-digits_onto (suc n) n [] (omega arith) refl

abbrev tail_of : Text → Text
tail_of [] = []
tail_of (c ∷ s) = s

abbrev head_of : ℕ → Text → ℕ
head_of d [] = d
head_of d (c ∷ s) = c

-- The digits have no separator in them.
no_separator :
    (sep : ℕ) (ds b es : Text)
    → is_digit sep ≡ false
    → all is_digit ds ≡ true
    → ¬ (ds ≡ b ++ sep ∷ es)
no_separator sep [] [] es s h e = cc
no_separator sep [] (y ∷ b) es s h e = cc
no_separator sep (d ∷ ds) [] es s h e =
    let q : d ≡ sep = ap (head_of d) e in
    let k : is_digit d ≡ false = ap is_digit q ∙ s in let r : false ≡ true = (rw k at h) in cc
no_separator sep (d ∷ ds) (y ∷ b) es s h e = elim (Bool-cases (is_digit d)) [
  | inl t ↦ no_separator sep ds b es s (rw t at h) (ap tail_of e)
  | inr f ↦ let r : false ≡ true = (rw f at h) in cc
]

split_key :
    (sep : ℕ) (a b ds es : Text)
    → is_digit sep ≡ false
    → all is_digit ds ≡ true
    → all is_digit es ≡ true
    → a ++ sep ∷ ds ≡ b ++ sep ∷ es
    → (a ≡ b) × (ds ≡ es)
split_key sep [] [] ds es s h k e = (refl, ap tail_of e)
split_key sep [] (y ∷ b) ds es s h k e = absurd (no_separator sep ds b es s h (ap tail_of e))
split_key sep (x ∷ a) [] ds es s h k e = absurd (no_separator sep es a ds s k (sym (ap tail_of e)))
split_key sep (x ∷ a) (y ∷ b) ds es s h k e =
    let (p, q) = split_key sep a b ds es s h k (ap tail_of e) in
    (ap (λ (c : ℕ). c ∷ a) (ap (head_of x) e) ∙ ap (λ (t : Text). y ∷ t) p, q)

composite_key-same :
    (sep : ℕ) (a b : Text) (m n : ℕ)
    → is_digit sep ≡ false
    → text_eq (composite_key sep a m) (composite_key sep b n) ≡ (text_eq a b && (m == n))
composite_key-same sep a b m n s =
    elim (Bool-cases (text_eq (composite_key sep a m) (composite_key sep b n))) [
      | inl t ↦
          let (to, from) = text_eq_iff (composite_key sep a m) (composite_key sep b n) in
          let (p, q) =
            split_key sep a b (decimal m) (decimal n) s (all-decimal m) (all-decimal n) (to t) in
          let same : m ≡ n =
            sym (number_from-decimal m) ∙ ap (number_from 0) q ∙ number_from-decimal n in
          let (to', from') = text_eq_iff a b in t ∙ sym (rw (from' p) (ground arith))
      | inr f ↦
          f
          ∙ sym (
              both_false (text_eq a b) (m == n) (λ p q.
                let (to', from') = text_eq_iff a b in
                let (to, from) = text_eq_iff (composite_key sep a m) (composite_key sep b n) in
                let same : m ≡ n = ground arith in
                let k = from (
                  ap (λ (x : Text). composite_key sep x m) (to' p)
                  ∙ ap (λ (i : ℕ). composite_key sep b i) same) in
                cc))
    ]
  where
    both_false : (x y : Bool) → (x ≡ true → ¬ (y ≡ true)) → (x && y) ≡ false
    both_false true true h = absurd (h refl refl)
    both_false true false h = refl
    both_false false y h = refl

-- A map under such keys is a map under pairs of a name and a number.
pub get-set_composite {ℓ} :
    {V : Type ℓ} (sep : ℕ) (a b : Text) (m n : ℕ) (v : V) (entries : List (Text × V))
    → is_digit sep ≡ false
    → get (composite_key sep b n) (set (composite_key sep a m) v entries)
      ≡ (if text_eq a b && (m == n) then some v else get (composite_key sep b n) entries)
get-set_composite sep a b m n v entries s = elim (Bool-cases (text_eq a b && (m == n))) [
  | inl t ↦
      let k = composite_key-same sep a b m n s ∙ t in
      let (to, from) = text_eq_iff (composite_key sep a m) (composite_key sep b n) in
      rw t (
        ap (λ (x : Text). get x (set (composite_key sep a m) v entries)) (sym (to k))
        ∙ get-set_same (composite_key sep a m) v entries)
  | inr f ↦ rw f (
      get-set_other (composite_key sep a m) (composite_key sep b n) v entries
        (composite_key-same sep a b m n s ∙ f))
]
