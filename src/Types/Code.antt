-- ===== src/Types/Code.antt =====
-- packages/core/src/types/dns_type_table.ts: operation and response codes, and which types and
-- classes a request may ask for.
use dnsdata_js.Base.{ℕ, Bool, true, false, Option, none, some, List, [], ◌∷◌}
use dnsdata_js.Base.Text.{Text, codes}
use dnsdata_js.Base.Result.{unknown_opcode, unknown_rcode, Result}
use dnsdata_js.Types.Table.{case_of, case_of_name, or_throw}

abbrev pub opcode_names : List (ℕ × Text)
opcode_names =
    (0, codes "Query")
    ∷ (1, codes "IQuery")
    ∷ (2, codes "Status")
    ∷ (4, codes "Notify")
    ∷ (5, codes "Update")
    ∷ []

unfoldable pub opcode_to_string : ℕ → Result Text
unfolding case_of
opcode_to_string opcode = or_throw unknown_opcode (case_of opcode_names opcode)

abbrev pub opcode_numbers : List (ℕ × Text)
opcode_numbers =
    (0, codes "Query")
    ∷ (1, codes "IQuery")
    ∷ (2, codes "Status")
    ∷ (4, codes "Notify")
    ∷ (5, codes "Update")
    ∷ []

unfoldable pub string_to_opcode : Text → Result ℕ
unfolding case_of_name
string_to_opcode str = or_throw unknown_opcode (case_of_name opcode_numbers str)

abbrev pub rcode_names : List (ℕ × Text)
rcode_names =
    (0, codes "NOERROR")
    ∷ (1, codes "FORMERR")
    ∷ (2, codes "SERVFAIL")
    ∷ (3, codes "NXDOMAIN")
    ∷ (4, codes "NOTIMPL")
    ∷ (5, codes "REFUSED")
    ∷ (6, codes "YXDOMAIN")
    ∷ (7, codes "YXRRSET")
    ∷ (8, codes "NXRRSET")
    ∷ (9, codes "NOTAUTH")
    ∷ (10, codes "NOTZONE")
    ∷ (16, codes "BADVERS/SIG")
    ∷ (17, codes "BADKEY")
    ∷ (18, codes "BADTIME")
    ∷ []

unfoldable pub rcode_to_string : ℕ → Result Text
unfolding case_of
rcode_to_string rcode = or_throw unknown_rcode (case_of rcode_names rcode)

abbrev pub rcode_numbers : List (ℕ × Text)
rcode_numbers =
    (0, codes "NOERROR")
    ∷ (1, codes "FORMERR")
    ∷ (2, codes "SERVFAIL")
    ∷ (3, codes "NXDOMAIN")
    ∷ (4, codes "NOTIMPL")
    ∷ (5, codes "REFUSED")
    ∷ (6, codes "YXDOMAIN")
    ∷ (7, codes "YXRRSET")
    ∷ (8, codes "NXRRSET")
    ∷ (9, codes "NOTAUTH")
    ∷ (10, codes "NOTZONE")
    ∷ (16, codes "BADVERS/SIG")
    ∷ (17, codes "BADKEY")
    ∷ (18, codes "BADTIME")
    ∷ []

unfoldable pub string_to_rcode : Text → Result ℕ
unfolding case_of_name
string_to_rcode str = or_throw unknown_rcode (case_of_name rcode_numbers str)

abbrev pub or_false : Option Bool → Bool
or_false none = false
or_false (some b) = b

abbrev pub valid_types : List (ℕ × Bool)
valid_types =
    (0, false)
    ∷ (1, true)
    ∷ (2, true)
    ∷ (5, true)
    ∷ (6, true)
    ∷ (12, true)
    ∷ (13, true)
    ∷ (15, true)
    ∷ (16, true)
    ∷ (17, true)
    ∷ (28, true)
    ∷ (29, true)
    ∷ (33, true)
    ∷ (35, true)
    ∷ (37, true)
    ∷ (39, true)
    ∷ (43, true)
    ∷ (44, true)
    ∷ (46, true)
    ∷ (47, true)
    ∷ (48, true)
    ∷ (50, true)
    ∷ (51, true)
    ∷ (52, true)
    ∷ (53, true)
    ∷ (59, true)
    ∷ (60, true)
    ∷ (61, true)
    ∷ (62, true)
    ∷ (64, true)
    ∷ (65, true)
    ∷ (108, true)
    ∷ (109, true)
    ∷ (256, true)
    ∷ []

unfoldable pub qtype_valid_for_request : ℕ → Bool
unfolding case_of
qtype_valid_for_request type = or_false (case_of valid_types type)

abbrev pub valid_classes : List (ℕ × Bool)
valid_classes = (0, false) ∷ (1, true) ∷ (3, true) ∷ (4, true) ∷ (254, false) ∷ (255, true) ∷ []

unfoldable pub qclass_valid_for_request : ℕ → Bool
unfolding case_of
qclass_valid_for_request klass = or_false (case_of valid_classes klass)
