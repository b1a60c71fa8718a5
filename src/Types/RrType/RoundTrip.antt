-- ===== src/Types/RrType/RoundTrip.antt =====
-- packages/core/src/types/dns_type_table.ts and algorithm.ts: a name that is written is read back.
use dnsdata_js.Base.{ℕ, true, ◌≡◌, refl}
use dnsdata_js.Base.Text.{Text}
use dnsdata_js.Base.Result.{ok, unknown_rrtype, unknown_rrclass, unknown_algorithm}
use dnsdata_js.Types.Table.Laws.{reads, reads-or_throw}
use dnsdata_js.Types.RrType.{
  rr_type_names, rr_type_to_string, string_to_rr_type, class_names, rr_class_to_string,
  string_to_rr_class,
}
use dnsdata_js.Types.Algorithm.{algorithm_names, algorithm_to_string, string_to_algorithm}

reads-rr_type_names : reads string_to_rr_type rr_type_names ≡ true
unfolding reads string_to_rr_type
reads-rr_type_names = refl

reads-class_names : reads string_to_rr_class class_names ≡ true
unfolding reads string_to_rr_class
reads-class_names = refl

reads-algorithm_names : reads string_to_algorithm algorithm_names ≡ true
unfolding reads string_to_algorithm
reads-algorithm_names = refl

-- The mnemonic that `RRTypeToString` gives for a type is read back by `StringToRRType`, generic
-- forms first as they are, as that type.
pub string_to_rr_type-rr_type_to_string :
    (type : ℕ) (s : Text) → rr_type_to_string type ≡ ok s → string_to_rr_type s ≡ ok type
unfolding rr_type_to_string
string_to_rr_type-rr_type_to_string type s =
    reads-or_throw string_to_rr_type rr_type_names unknown_rrtype type s reads-rr_type_names

-- The mnemonic that `RRClassToString` gives for a class is read back by `StringToRRClass` as that
-- class.
pub string_to_rr_class-rr_class_to_string :
    (klass : ℕ) (s : Text) → rr_class_to_string klass ≡ ok s → string_to_rr_class s ≡ ok klass
unfolding rr_class_to_string
string_to_rr_class-rr_class_to_string klass s =
    reads-or_throw string_to_rr_class class_names unknown_rrclass klass s reads-class_names

-- The mnemonic that `AlgorithmToString` gives for a number is read back by `StringToAlgorithm` as
-- that number.
pub string_to_algorithm-algorithm_to_string :
    (alg : ℕ) (s : Text) → algorithm_to_string alg ≡ ok s → string_to_algorithm s ≡ ok alg
unfolding algorithm_to_string
string_to_algorithm-algorithm_to_string alg s =
    reads-or_throw string_to_algorithm algorithm_names unknown_algorithm alg s reads-algorithm_names
