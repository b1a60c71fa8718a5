-- ===== src/Wire/Message/QueryParse.antt =====
-- Building a query and parsing it.
use dnsdata_js.Base.{
  ℕ, ◌+◌, ◌-◌, ◌%◌, ◌^◌, ◌≡◌, refl, sym, ap, ◌∙◌, arith, Bool, true, if◌then◌else◌, [], ◌∷◌, ◌++◌,
  map, append_assoc, length, length-append, All, le→ltb_false,
}
use dnsdata_js.Base.Slices.{Bytes, IsByte}
use dnsdata_js.Base.Text.{Text, dot, ends_with_dot}
use dnsdata_js.Base.Result.{ok, rethrow_as, >>=-eq-ok, message_malformed}
use dnsdata_js.Wire.View.{uint16_at, uint16_at-append}
use dnsdata_js.Wire.Name.{parse_domain_name, ascii_to_lower, domain_name2wire}
use dnsdata_js.Wire.Name.Encode.RoundTrip.{NoLeadingDot, parse_domain_name-domain_name2wire}
use dnsdata_js.Wire.Name.Query.{
  ensure_fqdn, set_uint16, query_flags, query_header, opt_record, class_in,
  build_query_with_options,
}
use dnsdata_js.Wire.Message.{
  RawMessage, parse_rrs, parse_rr_section, parse_header, parse_question, parse_message,
}
use dnsdata_js.Wire.Message.Sections.{parse_header-long}
use dnsdata_js.Wire.Message.Query.{parse_question-fields, opt_rr, parse_rr-opt_record}

ends_with_dot-concat : (s : Text) → ends_with_dot (s ++ dot ∷ []) ≡ true
unfolding ends_with_dot
ends_with_dot-concat [] = refl
ends_with_dot-concat (c ∷ []) = refl
ends_with_dot-concat (c ∷ d ∷ s) = ends_with_dot-concat (d ∷ s)

pub ensure_fqdn-ends : (s : Text) → ends_with_dot (ensure_fqdn s) ≡ true
unfolding ensure_fqdn
ensure_fqdn-ends [] = refl
ensure_fqdn-ends (c ∷ s) = ground (arith, ends_with_dot-concat (c ∷ s))

-- The query's octets around the encoded name.
abbrev query_octets : ℕ → ℕ → Bool → Bytes → Bytes
query_octets id qtype disabled w =
    query_header id disabled ++ (w ++ (set_uint16 qtype ++ (set_uint16 class_in ++ opt_record)))

build_query-eq-ok :
    (id : ℕ) (qname : Text) (qtype : ℕ) (disabled : Bool) (msg : Bytes)
    → build_query_with_options id qname qtype disabled ≡ ok msg
    → (w : Bytes) × (domain_name2wire (ensure_fqdn qname) ≡ ok w)
      × (msg ≡ query_octets id qtype disabled w)
unfolding build_query_with_options
build_query-eq-ok id qname qtype disabled msg h =
    let (w, e, o) = >>=-eq-ok (domain_name2wire (ensure_fqdn qname)) _ h in (w, e, ground (arith))

-- The message that the parser makes of a query: RD set, CD where checking is disabled, class IN.
abbrev pub parsed_query : ℕ → Text → ℕ → Bool → Bytes → RawMessage
parsed_query id qname qtype disabled msg = record {
  raw = msg;
  header = record {
    id = id % 2 ^ 16;
    flags = if disabled then 0x0110 else 0x0100;
    qdcount = 1;
    ancount = 0;
    nscount = 0;
    arcount = 1;
  };
  question = record {
    name = map ascii_to_lower (ensure_fqdn qname);
    type = qtype % 2 ^ 16;
    class = 1;
  };
  answer = [];
  authority = [];
  additional = opt_rr (length msg - 11) ∷ [];
}

module _ (id : ℕ) (qtype : ℕ) (disabled : Bool) (w : Bytes) where
  abbrev after_name : Bytes
  after_name = set_uint16 qtype ++ (set_uint16 class_in ++ opt_record)

  abbrev whole : Bytes
  whole = query_octets id qtype disabled w

  length-whole : length whole ≡ 12 + length w + 15
  length-whole = omega (arith, length-append w after_name)

  header_read :
      parse_header whole
      ≡ ok (record {
        id = id % 2 ^ 16;
        flags = query_flags disabled;
        qdcount = 1;
        ancount = 0;
        nscount = 0;
        arcount = 1;
      })
  header_read = parse_header-long whole (omega (arith, length-whole)) ∙ λ i. ok (record {
    id = id_read i;
    flags = flags_read i;
    qdcount = 1;
    ancount = 0;
    nscount = 0;
    arcount = 1;
  })
    where
      id_read : uint16_at whole 0 ≡ id % 2 ^ 16
      id_read = omega arith

      flags_read : uint16_at whole 2 ≡ query_flags disabled
      flags_read = ground arith

  -- The octets from the question's fields on.
  behind_name : whole ≡ (query_header id disabled ++ w) ++ after_name
  behind_name = sym (append_assoc (query_header id disabled) w after_name)

  tail_field : (p k : ℕ) → p ≡ 12 + length w + k → uint16_at whole p ≡ uint16_at after_name k
  tail_field p k e =
      ap (λ (x : Bytes). uint16_at x p) behind_name
      ∙ uint16_at-append (query_header id disabled ++ w) after_name p k
          (omega (arith, length-append (query_header id disabled) w))

  -- The octets from the OPT record on.
  before_opt : Bytes
  before_opt = (query_header id disabled ++ w) ++ (set_uint16 qtype ++ set_uint16 class_in)

  opt_split : whole ≡ before_opt ++ opt_record
  unfolding before_opt
  opt_split =
      behind_name
      ∙ sym (
          append_assoc (query_header id disabled ++ w) (set_uint16 qtype ++ set_uint16 class_in)
            opt_record)

  length-before_opt : 12 + length w + 4 ≡ length before_opt
  unfolding before_opt
  length-before_opt = omega (
    arith,
    length-append (query_header id disabled ++ w) (set_uint16 qtype ++ set_uint16 class_in),
    length-append (query_header id disabled) w,
  )

  additional_read :
      parse_rr_section whole (12 + length w + 4) 1
      ≡ ok (record { rrs = opt_rr (12 + length w + 4) ∷ []; next = 12 + length w + 4 + 11 })
  unfolding parse_rr_section parse_rrs
  additional_read =
      rw (parse_rr-opt_record whole before_opt (12 + length w + 4) opt_split length-before_opt)

  no_records :
      (pos : ℕ)
      → rethrow_as message_malformed (parse_rr_section whole pos 0)
        ≡ ok (record { rrs = []; next = pos })
  unfolding parse_rr_section parse_rrs
  no_records pos = refl

  question_read :
      (name : Text)
      → parse_domain_name whole 12 ≡ ok (record { name = name; next = 12 + length w })
      → parse_question whole 12
        ≡ ok (record {
          question = record { name = name; type = qtype % 2 ^ 16; class = class_in };
          next = 12 + length w + 4;
        })
  question_read name e =
      parse_question-fields whole 12 (record { name = name; next = 12 + length w }) (qtype % 2 ^ 16)
        class_in e (tail_field (12 + length w) 0 (omega arith) ∙ omega arith)
        (tail_field (12 + length w + 2) 2 (omega arith)) (omega (arith, length-whole))

  message_read :
      (qname : Text)
      → parse_domain_name whole 12
        ≡ ok (record { name = map ascii_to_lower (ensure_fqdn qname); next = 12 + length w })
      → parse_message whole ≡ ok (parsed_query id qname qtype disabled whole)
  unfolding parse_message
  message_read qname e =
      rw
        (
          le→ltb_false (length whole) 12 (omega (arith, length-whole)),
          header_read,
          question_read (map ascii_to_lower (ensure_fqdn qname)) e,
          no_records (12 + length w + 4),
          no_records (12 + length w + 4),
          additional_read,
        )
        (λ i. ok (record (parsed_query id qname qtype disabled whole) {
          additional = opt_rr (here i) ∷ [];
        }))
    where
      here : 12 + length w + 4 ≡ length whole - 11
      here = omega (arith, length-whole)

-- The parser reads a query as it was built: the ID and flags, one question with the name
-- lower-cased and fully qualified, the type modulo 2^16 and class IN, no answers, and one additional
-- record, the OPT with the payload size and the DO bit. The name consists of octets, and does not
-- begin with a dot.
pub parse_message-build_query :
    (id : ℕ) (qname : Text) (qtype : ℕ) (disabled : Bool) (msg : Bytes)
    → All IsByte (ensure_fqdn qname)
    → NoLeadingDot (ensure_fqdn qname)
    → build_query_with_options id qname qtype disabled ≡ ok msg
    → parse_message msg ≡ ok (parsed_query id qname qtype disabled msg)
parse_message-build_query id qname qtype disabled msg octets lead h =
    let (w, e, same) = build_query-eq-ok id qname qtype disabled msg h in
    rw same (
      message_read id qtype disabled w qname (
        parse_domain_name-domain_name2wire (ensure_fqdn qname) w (query_header id disabled)
          (after_name id qtype disabled w) octets (ensure_fqdn-ends qname) lead e))
