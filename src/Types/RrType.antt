-- ===== src/Types/RrType.antt =====
-- packages/core/src/types/dns_type_table.ts: record types and their names.
pub mod RoundTrip
pub mod Generic
pub mod Words
pub mod Keys
use dnsdata_js.Base.{
  ℕ, zero, suc, ◌+◌, ◌-◌, ◌*◌, Bool, true, false, ◌&&◌, Option, none, some, List, [], ◌∷◌, ◌++◌,
  map, leb, ltb, if◌then◌else◌, length, all, take, drop, is_empty,
}
use dnsdata_js.Base.Text.{Text, codes, text_eq, decimal}
use dnsdata_js.Base.Result.{unknown_rrtype, unknown_rrclass, Result, ok, err}
use dnsdata_js.Types.Table.{case_of, case_of_name, or_throw}

abbrev pub rr_type_names : List (ℕ × Text)
rr_type_names =
    (0, codes "INVALID")
    ∷ (1, codes "A")
    ∷ (2, codes "NS")
    ∷ (5, codes "CNAME")
    ∷ (6, codes "SOA")
    ∷ (12, codes "PTR")
    ∷ (13, codes "HINFO")
    ∷ (15, codes "MX")
    ∷ (16, codes "TXT")
    ∷ (17, codes "RP")
    ∷ (28, codes "AAAA")
    ∷ (29, codes "LOC")
    ∷ (33, codes "SRV")
    ∷ (35, codes "NAPTR")
    ∷ (37, codes "CERT")
    ∷ (39, codes "DNAME")
    ∷ (41, codes "OPT")
    ∷ (43, codes "DS")
    ∷ (44, codes "SSHFP")
    ∷ (46, codes "RRSIG")
    ∷ (47, codes "NSEC")
    ∷ (48, codes "DNSKEY")
    ∷ (50, codes "NSEC3")
    ∷ (51, codes "NSEC3PARAM")
    ∷ (52, codes "TLSA")
    ∷ (53, codes "SMIMEA")
    ∷ (59, codes "CDS")
    ∷ (60, codes "CDNSKEY")
    ∷ (61, codes "OPENPGPKEY")
    ∷ (62, codes "CSYNC")
    ∷ (64, codes "SVCB")
    ∷ (65, codes "HTTPS")
    ∷ (108, codes "EUI48")
    ∷ (109, codes "EUI64")
    ∷ (256, codes "URI")
    ∷ (257, codes "CAA")
    ∷ []

unfoldable pub rr_type_to_string : ℕ → Result Text
unfolding case_of
rr_type_to_string type = or_throw unknown_rrtype (case_of rr_type_names type)

abbrev pub class_names : List (ℕ × Text)
class_names =
    (0, codes "INVALID")
    ∷ (1, codes "IN")
    ∷ (2, codes "UNALLOC_2")
    ∷ (3, codes "CHAOS")
    ∷ (4, codes "HS")
    ∷ (254, codes "NONE")
    ∷ (255, codes "ANY")
    ∷ []

unfoldable pub rr_class_to_string : ℕ → Result Text
unfolding case_of
rr_class_to_string klass = or_throw unknown_rrclass (case_of class_names klass)

abbrev pub generic_type_prefix : Text
generic_type_prefix = codes "TYPE"

abbrev pub generic_class_prefix : Text
generic_class_prefix = codes "CLASS"

-- `toUpperCase` of an ASCII unit.
abbrev pub ascii_upper : ℕ → ℕ
ascii_upper c = if leb b'a' c && leb c b'z' then c - 32 else c

abbrev pub is_digit : ℕ → Bool
is_digit c = leb b'0' c && leb c b'9'

-- `Number(digits)` on decimal digits.
unfoldable pub number_from : ℕ → Text → ℕ
number_from acc [] = acc
number_from acc (d ∷ ds) = number_from (acc * 10 + (d - 48)) ds

unfoldable pub parse_generic_mnemonic : Text → Text → Option ℕ
unfolding text_eq number_from
parse_generic_mnemonic str prefix =
    let digits = drop (length prefix) str in
    let n = number_from 0 digits in
    if leb (length str) (length prefix)
    then none
    else if text_eq (map ascii_upper (take (length prefix) str)) prefix
    then (if all is_digit digits then (if leb n 0xffff then some n else none) else none)
    else none

-- The name, or the generic form.
abbrev pub name_or : Text → ℕ → Result Text → Text
name_or prefix n (ok s) = s
name_or prefix n _ = prefix ++ decimal n

unfoldable pub rr_type_name : ℕ → Text
unfolding rr_type_to_string decimal
rr_type_name type = name_or generic_type_prefix type (rr_type_to_string type)

unfoldable pub rr_class_name : ℕ → Text
unfolding rr_class_to_string decimal
rr_class_name klass = name_or generic_class_prefix klass (rr_class_to_string klass)

abbrev pub type_numbers : List (ℕ × Text)
type_numbers =
    (0, codes "INVALID")
    ∷ (1, codes "A")
    ∷ (2, codes "NS")
    ∷ (5, codes "CNAME")
    ∷ (6, codes "SOA")
    ∷ (12, codes "PTR")
    ∷ (13, codes "HINFO")
    ∷ (15, codes "MX")
    ∷ (16, codes "TXT")
    ∷ (17, codes "RP")
    ∷ (28, codes "AAAA")
    ∷ (29, codes "LOC")
    ∷ (33, codes "SRV")
    ∷ (35, codes "NAPTR")
    ∷ (37, codes "CERT")
    ∷ (39, codes "DNAME")
    ∷ (41, codes "OPT")
    ∷ (43, codes "DS")
    ∷ (44, codes "SSHFP")
    ∷ (46, codes "RRSIG")
    ∷ (47, codes "NSEC")
    ∷ (48, codes "DNSKEY")
    ∷ (50, codes "NSEC3")
    ∷ (51, codes "NSEC3PARAM")
    ∷ (52, codes "TLSA")
    ∷ (53, codes "SMIMEA")
    ∷ (59, codes "CDS")
    ∷ (60, codes "CDNSKEY")
    ∷ (61, codes "OPENPGPKEY")
    ∷ (62, codes "CSYNC")
    ∷ (64, codes "SVCB")
    ∷ (65, codes "HTTPS")
    ∷ (108, codes "EUI48")
    ∷ (109, codes "EUI64")
    ∷ (256, codes "URI")
    ∷ (257, codes "CAA")
    ∷ []

abbrev or_generic : Option ℕ → Result ℕ → Result ℕ
or_generic (some n) r = ok n
or_generic none r = r

unfoldable pub string_to_rr_type : Text → Result ℕ
unfolding parse_generic_mnemonic case_of_name
string_to_rr_type str =
    or_generic (parse_generic_mnemonic str generic_type_prefix)
      (or_throw unknown_rrtype (case_of_name type_numbers str))

abbrev pub class_numbers : List (ℕ × Text)
class_numbers =
    (0, codes "INVALID")
    ∷ (1, codes "IN")
    ∷ (2, codes "UNALLOC_2")
    ∷ (3, codes "CHAOS")
    ∷ (4, codes "HS")
    ∷ (254, codes "NONE")
    ∷ (255, codes "ANY")
    ∷ []

unfoldable pub string_to_rr_class : Text → Result ℕ
unfolding parse_generic_mnemonic case_of_name
string_to_rr_class str =
    or_generic (parse_generic_mnemonic str generic_class_prefix)
      (or_throw unknown_rrclass (case_of_name class_numbers str))
