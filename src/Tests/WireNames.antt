-- ===== src/Tests/WireNames.antt =====
-- packages/core/src/wire/dns_wire.ts and dns_wire_util.ts on concrete names.
use dnsdata_js.Base.{true, [], ◌∷◌, ◌++◌, ◌≡◌, refl, arith, inr, All, map}
use dnsdata_js.Base.Text.{Text, codes, ends_with_dot}
use dnsdata_js.Base.Slices.{Bytes, IsByte}
use dnsdata_js.Base.Result.{ok, err, pointer_forward, wire_error}
use dnsdata_js.Wire.Name.{
  ascii_to_lower, label_from, from_dot, push_label, encode_loop, finish_name, encode_domain_name,
  domain_name2wire, domain_name2wire_preserve_case, parse_domain_name, assemble_name,
}
use dnsdata_js.Wire.Name.Decode.{wire2domain_name}
use dnsdata_js.Wire.Name.Decode.RoundTrip.{wire2domain_name-wire_of}
use dnsdata_js.Wire.Name.Labels.{IsLabel}
use dnsdata_js.Wire.Name.Encode.Inverse.{encode_domain_name-Accepted, Accepted}
use dnsdata_js.Wire.Name.Encode.RoundTrip.{
  NoLeadingDot, parse_domain_name-domain_name2wire, parse_domain_name-preserve_case,
}
use dnsdata_js.Wire.Name.Parse.{parse_domain_name-InRange, InRange}
use dnsdata_js.Wire.Name.Parse.Pointers.{parse_domain_name-pointer}
use dnsdata_js.Wire.Name.Parse.Forward.{by_pointer, parse_domain_name-forward}

abbrev spelled : Text
spelled = codes "Ab.c."

abbrev spelled_wire : Bytes
spelled_wire = 2 ∷ 65 ∷ 98 ∷ 1 ∷ 99 ∷ 0 ∷ []

spelled-IsByte : All IsByte spelled
spelled-IsByte = (omega arith, (omega arith, (omega arith, (omega arith, (omega arith, tt)))))

spelled-ends_with_dot : ends_with_dot spelled ≡ true
unfolding ends_with_dot
spelled-ends_with_dot = refl

spelled-NoLeadingDot : NoLeadingDot spelled
spelled-NoLeadingDot = inr (λ r e. cc)

spelled-preserved : domain_name2wire_preserve_case spelled ≡ ok spelled_wire
unfolding domain_name2wire_preserve_case encode_domain_name encode_loop push_label label_from
    from_dot finish_name
spelled-preserved = refl

spelled-lowered : domain_name2wire spelled ≡ ok (2 ∷ 97 ∷ 98 ∷ 1 ∷ 99 ∷ 0 ∷ [])
unfolding domain_name2wire ascii_to_lower encode_domain_name encode_loop push_label label_from
    from_dot finish_name
spelled-lowered = refl

-- A leading dot is dropped, where any other empty label is an error.
leading_dot : domain_name2wire (codes ".com.") ≡ ok (3 ∷ 99 ∷ 111 ∷ 109 ∷ 0 ∷ [])
unfolding domain_name2wire ascii_to_lower encode_domain_name encode_loop push_label label_from
    from_dot finish_name
leading_dot = refl

empty_label : domain_name2wire (codes "a..com.") ≡ err wire_error
unfolding domain_name2wire ascii_to_lower encode_domain_name encode_loop push_label label_from
    from_dot finish_name
empty_label = refl

parse_domain_name-preserve_case_example :
    parse_domain_name ((7 ∷ []) ++ (spelled_wire ++ (9 ∷ []))) 1
    ≡ ok (record { name = spelled; next = 7 })
parse_domain_name-preserve_case_example =
    parse_domain_name-preserve_case spelled spelled_wire (7 ∷ []) (9 ∷ []) spelled-IsByte
      spelled-ends_with_dot spelled-NoLeadingDot spelled-preserved

parse_domain_name-domain_name2wire_example :
    parse_domain_name ((7 ∷ []) ++ ((2 ∷ 97 ∷ 98 ∷ 1 ∷ 99 ∷ 0 ∷ []) ++ (9 ∷ []))) 1
    ≡ ok (record { name = map ascii_to_lower spelled; next = 7 })
parse_domain_name-domain_name2wire_example =
    parse_domain_name-domain_name2wire spelled (2 ∷ 97 ∷ 98 ∷ 1 ∷ 99 ∷ 0 ∷ []) (7 ∷ []) (9 ∷ [])
      spelled-IsByte spelled-ends_with_dot spelled-NoLeadingDot spelled-lowered

encode_domain_name-Accepted_example : Accepted (λ c. c) spelled spelled_wire
unfolding domain_name2wire_preserve_case
encode_domain_name-Accepted_example =
    encode_domain_name-Accepted (λ c. c) spelled spelled_wire spelled-ends_with_dot
      spelled-preserved

parse_domain_name-InRange_example :
    InRange 1 (7 ∷ 1 ∷ 97 ∷ 0 ∷ []) (parse_domain_name (7 ∷ 1 ∷ 97 ∷ 0 ∷ []) 1)
parse_domain_name-InRange_example = parse_domain_name-InRange (7 ∷ 1 ∷ 97 ∷ 0 ∷ []) 1

abbrev top : Text
top = codes "com"

abbrev www : Text
www = codes "www"

abbrev compressed : Bytes
compressed = 3 ∷ 99 ∷ 111 ∷ 109 ∷ 0 ∷ 3 ∷ 119 ∷ 119 ∷ 119 ∷ 192 ∷ 0 ∷ []

top-IsLabel : All IsLabel (top ∷ [])
top-IsLabel = ((omega arith, omega arith, (omega arith, (omega arith, (omega arith, tt)))), tt)

www-IsLabel : All IsLabel (www ∷ [])
www-IsLabel = ((omega arith, omega arith, (omega arith, (omega arith, (omega arith, tt)))), tt)

parse_domain_name-pointer_example :
    parse_domain_name compressed 5
    ≡ ok (record { name = assemble_name (www ∷ top ∷ []); next = 11 })
parse_domain_name-pointer_example =
    parse_domain_name-pointer (www ∷ []) (top ∷ []) compressed (3 ∷ 99 ∷ 111 ∷ 109 ∷ 0 ∷ []) [] []
      (3 ∷ 119 ∷ 119 ∷ 119 ∷ 192 ∷ 0 ∷ []) refl refl (omega arith) (omega arith) www-IsLabel
      top-IsLabel

-- com. with a pointer to itself behind the label, and a pointer to it.
abbrev looped : Bytes
looped = 3 ∷ 99 ∷ 111 ∷ 109 ∷ 192 ∷ 4 ∷ 3 ∷ 119 ∷ 119 ∷ 119 ∷ 192 ∷ 0 ∷ []

parse_domain_name-forward_example : parse_domain_name looped 6 ≡ err pointer_forward
parse_domain_name-forward_example =
    parse_domain_name-forward (top ∷ []) looped [] (3 ∷ 119 ∷ 119 ∷ 119 ∷ 192 ∷ 0 ∷ []) 4 6
      (by_pointer (www ∷ []) (3 ∷ 99 ∷ 111 ∷ 109 ∷ 192 ∷ 4 ∷ []) [] refl (omega arith) (omega arith)
        www-IsLabel)
      refl top-IsLabel (omega arith) (omega arith)

wire2domain_name-wire_of_example :
    (n : Text) × (wire2domain_name (3 ∷ 119 ∷ 119 ∷ 119 ∷ 0 ∷ []) ≡ ok n)
    × (parse_domain_name (7 ∷ 3 ∷ 119 ∷ 119 ∷ 119 ∷ 0 ∷ []) 1 ≡ ok (record { name = n; next = 6 }))
wire2domain_name-wire_of_example = wire2domain_name-wire_of (www ∷ []) (7 ∷ []) [] www-IsLabel
