-- ===== src/Types/Algorithm.antt =====
-- packages/core/src/types/algorithm.ts: DNSSEC algorithm numbers and their names.
use dnsdata_js.Base.{ℕ, Bool, List, [], ◌∷◌, ◌==◌, any}
use dnsdata_js.Base.Text.{Text, codes}
use dnsdata_js.Base.Result.{unknown_algorithm, Result}
use dnsdata_js.Types.Table.{case_of, case_of_name, or_throw}

abbrev pub algorithm_names : List (ℕ × Text)
algorithm_names =
    (0, codes "DELETE")
    ∷ (1, codes "RSAMD5")
    ∷ (2, codes "DH")
    ∷ (3, codes "DSA")
    ∷ (5, codes "RSASHA1")
    ∷ (6, codes "DSA-NSEC3-SHA1")
    ∷ (7, codes "RSASHA1-NSEC3-SHA1")
    ∷ (8, codes "RSASHA256")
    ∷ (10, codes "RSASHA512")
    ∷ (12, codes "ECC-GOST")
    ∷ (13, codes "ECDSAP256SHA256")
    ∷ (14, codes "ECDSAP384SHA384")
    ∷ (15, codes "ED25519")
    ∷ (16, codes "ED448")
    ∷ (252, codes "INDIRECT")
    ∷ (253, codes "PRIVATEDNS")
    ∷ (254, codes "PRIVATEOID")
    ∷ []

unfoldable pub algorithm_to_string : ℕ → Result Text
unfolding case_of
algorithm_to_string a = or_throw unknown_algorithm (case_of algorithm_names a)

abbrev pub algorithm_numbers : List (ℕ × Text)
algorithm_numbers =
    (0, codes "DELETE")
    ∷ (1, codes "RSAMD5")
    ∷ (2, codes "DH")
    ∷ (3, codes "DSA")
    ∷ (5, codes "RSASHA1")
    ∷ (6, codes "DSA-NSEC3-SHA1")
    ∷ (7, codes "RSASHA1-NSEC3-SHA1")
    ∷ (8, codes "RSASHA256")
    ∷ (10, codes "RSASHA512")
    ∷ (12, codes "ECC-GOST")
    ∷ (13, codes "ECDSAP256SHA256")
    ∷ (14, codes "ECDSAP384SHA384")
    ∷ (15, codes "ED25519")
    ∷ (16, codes "ED448")
    ∷ (252, codes "INDIRECT")
    ∷ (253, codes "PRIVATEDNS")
    ∷ (254, codes "PRIVATEOID")
    ∷ []

unfoldable pub string_to_algorithm : Text → Result ℕ
unfolding case_of_name
string_to_algorithm s = or_throw unknown_algorithm (case_of_name algorithm_numbers s)

unfoldable pub algorithm_supported : ℕ → Bool
algorithm_supported a = any (λ n. n == a) (5 ∷ 7 ∷ 8 ∷ 10 ∷ 13 ∷ 14 ∷ 15 ∷ [])
