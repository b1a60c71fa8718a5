-- ===== src/Types/RrType/Words.antt =====
-- packages/core/src/types/dns_type_table.ts: the name of a type is one word.
use dnsdata_js.Base.{
  ℕ, ◌==◌, Bool, true, not, ◌&&◌, Option, none, some, List, [], ◌∷◌, ◌++◌, all, ◌≡◌, refl, ap, sym,
  suc, ◌∙◌, inl, inr, Bool-cases, arith,
}
use dnsdata_js.Base.Text.{Text, decimal}
use dnsdata_js.Base.Result.{unknown_rrtype}
use dnsdata_js.Base.Spaces.{is_space}
use dnsdata_js.Base.Spaces.Words.{is_word, &&-true}
use dnsdata_js.Types.Table.{case_of, or_throw}
use dnsdata_js.Types.RrType.{
  is_digit, name_or, rr_type_name, rr_type_to_string, rr_type_names, generic_type_prefix,
}
use dnsdata_js.Types.RrType.Generic.{all-digits_onto}

unfoldable are_words : List (ℕ × Text) → Bool
are_words [] = true
are_words ((n, s) ∷ t) = is_word s && are_words t

case_of-is_word :
    (t : List (ℕ × Text)) (n : ℕ) (s : Text)
    → are_words t ≡ true
    → case_of t n ≡ some s
    → is_word s ≡ true
unfolding are_words case_of
case_of-is_word [] n s h e = cc
case_of-is_word ((m, u) ∷ t) n s h e =
    let (a, b) = &&-true (is_word u) (are_words t) h in
    elim (Bool-cases (m == n)) [
      | inl q ↦
          let same : some u ≡ some s = (rw q at e) in
          ap (λ o. elim o [ none ↦ true | some x ↦ is_word x ]) (sym same) ∙ a
      | inr f ↦ case_of-is_word t n s b (rw f at e)
    ]

digit-not_space : (c : ℕ) → is_digit c ≡ true → not (is_space c) ≡ true
digit-not_space c h = ground arith

all-not_space : (s : Text) → all is_digit s ≡ true → all (λ c. not (is_space c)) s ≡ true
all-not_space [] h = refl
all-not_space (c ∷ s) h =
    let (a, b) = &&-true (is_digit c) (all is_digit s) h in
    rw (digit-not_space c a) (all-not_space s b)

-- `TYPE` and the digits have no white space between them.
generic-is_word : (n : ℕ) → is_word (generic_type_prefix ++ decimal n) ≡ true
unfolding decimal
generic-is_word n = all-not_space (decimal n) (all-digits_onto (suc n) n [] (omega arith) refl)

name_or-is_word :
    (n : ℕ) (o : Option Text)
    → case_of rr_type_names n ≡ o
    → is_word (name_or generic_type_prefix n (or_throw unknown_rrtype o)) ≡ true
unfolding are_words
name_or-is_word n none e = generic-is_word n
name_or-is_word n (some s) e = case_of-is_word rr_type_names n s refl e

-- The name that `RRTypeName` gives to a type is one word.
pub rr_type_name-is_word : (n : ℕ) → is_word (rr_type_name n) ≡ true
unfolding rr_type_name rr_type_to_string
rr_type_name-is_word n = name_or-is_word n (case_of rr_type_names n) refl
