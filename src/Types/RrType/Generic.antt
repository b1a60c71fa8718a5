-- ===== src/Types/RrType/Generic.antt =====
-- packages/core/src/types/dns_type_table.ts: the generic names `TYPE123` and `CLASS123`.
use dnsdata_js.Base.{
  ℕ, zero, suc, ◌+◌, ◌-◌, ◌*◌, ◌/◌, ◌%◌, ◌≤◌, ◌<◌, true, false, some, [], ◌∷◌, ◌++◌, ◌≡◌, refl, ap,
  ◌∙◌, arith, all, leb, ltb, length, Bool-cases, inl, inr, ltb→lt, le→leb,
}
use dnsdata_js.Base.Text.{Text, digits_onto, decimal}
use dnsdata_js.Base.Result.{Result, ok, err, stuck}
use dnsdata_js.Types.RrType.{
  is_digit, number_from, parse_generic_mnemonic, generic_type_prefix, rr_type_name,
  rr_type_to_string, string_to_rr_type, name_or,
}
use dnsdata_js.Types.RrType.RoundTrip.{string_to_rr_type-rr_type_to_string}

pub number_from-digits_onto :
    (f n : ℕ) (out : Text) → n < f → number_from 0 (digits_onto f n out) ≡ number_from n out
unfolding number_from digits_onto
number_from-digits_onto zero n out h = absurd (omega arith)
number_from-digits_onto (suc f) n out h = elim (Bool-cases (ltb n 10)) [
  | inl t ↦
      rw t (ap (λ (k : ℕ). number_from k out) {x = 0 * 10 + (48 + n - 48)} {y = n} (omega arith))
  | inr e ↦
      let big : 10 ≤ n = ground arith in
      rw e (
        number_from-digits_onto f (n / 10) ((48 + n % 10) ∷ out) (omega arith)
        ∙ ap (λ (k : ℕ). number_from k out) {x = n / 10 * 10 + (48 + n % 10 - 48)} {y = n}
            (omega arith))
]

small_digit : (n : ℕ) → n < 10 → is_digit (48 + n) ≡ true
small_digit n h = ground arith

pub all-digits_onto :
    (f n : ℕ) (out : Text)
    → n < f
    → all is_digit out ≡ true
    → all is_digit (digits_onto f n out) ≡ true
unfolding digits_onto
all-digits_onto zero n out h k = absurd (omega arith)
all-digits_onto (suc f) n out h k = elim (Bool-cases (ltb n 10)) [
  | inl t ↦ rw (t, small_digit n (ltb→lt n 10 t), k) refl
  | inr e ↦
      let big : 10 ≤ n = ground arith in
      rw e (
        all-digits_onto f (n / 10) ((48 + n % 10) ∷ out) (omega arith)
          (rw (small_digit (n % 10) (omega arith), k) refl))
]

length-digits_onto : (f n : ℕ) (out : Text) → n < f → 1 ≤ length (digits_onto f n out)
unfolding digits_onto
length-digits_onto zero n out h = absurd (omega arith)
length-digits_onto (suc f) n out h = elim (Bool-cases (ltb n 10)) [
  | inl t ↦ rw t (omega arith)
  | inr e ↦
      let big : 10 ≤ n = ground arith in
      rw e (length-digits_onto f (n / 10) ((48 + n % 10) ∷ out) (omega arith))
]

no_shorter : (k : ℕ) → 1 ≤ k → leb (suc (suc (suc (suc k)))) 4 ≡ false
no_shorter k h = ground arith

parse_generic_mnemonic-decimal :
    (n : ℕ)
    → n ≤ 0xffff
    → parse_generic_mnemonic (generic_type_prefix ++ decimal n) generic_type_prefix ≡ some n
unfolding parse_generic_mnemonic decimal
parse_generic_mnemonic-decimal n h =
    rw
      (
        no_shorter (length (digits_onto (suc n) n []))
            (length-digits_onto (suc n) n [] (omega arith)),
        all-digits_onto (suc n) n [] (omega arith) refl,
        number_from-digits_onto (suc n) n [] (omega arith),
        le→leb n 0xffff h,
      )
      refl

type_name-cases :
    (type : ℕ) (r : Result Text)
    → type ≤ 0xffff
    → rr_type_to_string type ≡ r
    → string_to_rr_type (name_or generic_type_prefix type r) ≡ ok type
unfolding string_to_rr_type decimal
type_name-cases type (ok s) h e = string_to_rr_type-rr_type_to_string type s e
type_name-cases type (err x) h e = rw (parse_generic_mnemonic-decimal type h) refl
type_name-cases type stuck h e = rw (parse_generic_mnemonic-decimal type h) refl

-- `StringToRRType` reads back the name that `RRTypeName` gives to any 16-bit type, a mnemonic or the
-- generic form, as that type.
pub string_to_rr_type-rr_type_name :
    (type : ℕ) → type ≤ 0xffff → string_to_rr_type (rr_type_name type) ≡ ok type
unfolding rr_type_name
string_to_rr_type-rr_type_name type h = type_name-cases type (rr_type_to_string type) h refl
