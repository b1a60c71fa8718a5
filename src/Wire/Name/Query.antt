-- ===== src/Wire/Name/Query.antt =====
-- packages/core/src/wire/dns_wire.ts: `build_query_with_options` and its variants. The random
-- transaction ID of `build_query` is an argument.
use dnsdata_js.Base.{ℕ, ◌+◌, ◌/◌, ◌%◌, ◌^◌, Bool, false, [], ◌∷◌, ◌++◌, if◌then◌else◌, is_empty}
use dnsdata_js.Base.Slices.{Bytes}
use dnsdata_js.Base.Text.{Text, dot, ends_with_dot}
use dnsdata_js.Base.Result.{Result, ok, ◌>>=◌}
use dnsdata_js.Wire.Name.{domain_name2wire}

abbrev pub flag_rd : ℕ
flag_rd = 0x0100

abbrev pub flag_cd : ℕ
flag_cd = 0x0010

abbrev pub opt_type : ℕ
opt_type = 41

abbrev pub udp_payload_size : ℕ
udp_payload_size = 4096

abbrev pub do_bit : ℕ
do_bit = 0x8000

abbrev pub class_in : ℕ
class_in = 1

unfoldable pub ensure_fqdn : Text → Text
unfolding ends_with_dot
ensure_fqdn name =
    if is_empty name then dot ∷ [] else if ends_with_dot name then name else name ++ dot ∷ []

-- `view.setUint16` and `view.setUint32`: the octets written.
abbrev pub set_uint16 : ℕ → Bytes
set_uint16 v = v / 2 ^ 8 % 256 ∷ v % 256 ∷ []

abbrev pub set_uint32 : ℕ → Bytes
set_uint32 v = v / 2 ^ 24 % 256 ∷ v / 2 ^ 16 % 256 ∷ v / 2 ^ 8 % 256 ∷ v % 256 ∷ []

abbrev pub query_flags : Bool → ℕ
query_flags checking_disabled = if checking_disabled then flag_rd + flag_cd else flag_rd

-- The twelve octets in front of the question.
abbrev pub query_header : ℕ → Bool → Bytes
query_header id checking_disabled =
    set_uint16 id
    ++ (set_uint16 (query_flags checking_disabled)
        ++ (set_uint16 1 ++ (set_uint16 0 ++ (set_uint16 0 ++ set_uint16 1))))

-- The root name, the type, the payload size, the DO bit and an empty RDATA.
abbrev pub opt_record : Bytes
opt_record =
    0
    ∷ (set_uint16 opt_type ++ (set_uint16 udp_payload_size ++ (set_uint32 do_bit ++ set_uint16 0)))

unfoldable pub build_query_with_options : ℕ → Text → ℕ → Bool → Result Bytes
unfolding domain_name2wire ensure_fqdn
build_query_with_options id qname qtype checking_disabled =
    domain_name2wire (ensure_fqdn qname) >>= λ name_wire. ok (
      query_header id checking_disabled
      ++ (name_wire ++ (set_uint16 qtype ++ (set_uint16 class_in ++ opt_record))))

unfoldable pub build_query_with_id : ℕ → Text → ℕ → Result Bytes
unfolding build_query_with_options
build_query_with_id id qname qtype = build_query_with_options id qname qtype false

unfoldable pub build_query : ℕ → Text → ℕ → Result Bytes
unfolding build_query_with_id
build_query random_query_id qname qtype = build_query_with_id random_query_id qname qtype
