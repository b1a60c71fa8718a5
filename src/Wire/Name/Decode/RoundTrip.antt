-- ===== src/Wire/Name/Decode/RoundTrip.antt =====
-- packages/core/src/wire/dns_wire.ts: `wire2domain_name` on names in wire form.
use dnsdata_js.Base.{
  ℕ, zero, suc, ◌+◌, ◌≤◌, Bool, true, false, List, [], ◌∷◌, ◌++◌, ◌≡◌, refl, sym, ap, ◌∙◌, arith,
  length, All, append_assoc, length-append, take-append_length, drop-append_length, if◌then◌else◌,
  leb, ◌==◌, le→ltb_false,
}
use dnsdata_js.Base.Text.{Text, dot}
use dnsdata_js.Base.Result.{ok}
use dnsdata_js.Base.Slices.{Bytes}
use dnsdata_js.Wire.Name.{assemble_name, parse_domain_name}
use dnsdata_js.Wire.Name.Parse.RoundTrip.{parse_domain_name-wire_of}
use dnsdata_js.Wire.Name.Labels.{wire_labels, wire_of, dotted, IsLabel, assemble_name-dotted}
use dnsdata_js.Wire.Name.Encode.RoundTrip.{assemble_name-nil}
use dnsdata_js.Wire.Name.Decode.{decode_loop, wire2domain_name}

not_zero : (n : ℕ) → 1 ≤ n → (n == 0) ≡ false
not_zero n h = ground arith

not_large : (n : ℕ) → n ≤ 63 → leb 0x40 n ≡ false
not_large n h = ground arith

decode_loop-label :
    (fuel : ℕ) (first : Bool) (l : Text) (rest x : Text)
    → IsLabel l
    → decode_loop (suc fuel) first (length l ∷ (l ++ rest)) x
      ≡ decode_loop fuel false rest ((if first then x else x ++ dot ∷ []) ++ l)
unfolding decode_loop
decode_loop-label fuel first l rest x (least, most, octets) =
    rw
      (
        not_zero (length l) least,
        not_large (length l) most,
        le→ltb_false (length (l ++ rest)) (length l) (omega (arith, length-append l rest)),
        drop-append_length l rest,
        take-append_length l rest,
      )
      refl

decode_loop-wire_of :
    (fuel : ℕ) (ls : List Text) (x : Text)
    → length (wire_of ls) ≤ fuel
    → All IsLabel ls
    → decode_loop fuel false (wire_of ls) x ≡ ok (x ++ dot ∷ dotted ls)
unfolding decode_loop
decode_loop-wire_of zero [] x h v = absurd (omega arith)
decode_loop-wire_of (suc fuel) [] x h v = refl
decode_loop-wire_of zero (l ∷ ls) x h v = absurd (omega arith)
decode_loop-wire_of (suc fuel) (l ∷ ls) x h (v, vs) =
    rw (append_assoc l (wire_labels ls) (0 ∷ [])) (
      decode_loop-label fuel false l (wire_of ls) x v
      ∙ decode_loop-wire_of fuel ls ((x ++ dot ∷ []) ++ l)
          (omega (
            arith,
            length-append (l ++ wire_labels ls) (0 ∷ []),
            length-append l (wire_labels ls),
            length-append (wire_labels ls) (0 ∷ []),
          ))
          vs
      ∙ ap ok (
          append_assoc (x ++ dot ∷ []) l (dot ∷ dotted ls)
          ∙ append_assoc x (dot ∷ []) (l ++ dot ∷ dotted ls)))

wire2domain_name-labels :
    (ls : List Text) → All IsLabel ls → wire2domain_name (wire_of ls) ≡ ok (assemble_name ls)
unfolding wire2domain_name decode_loop
wire2domain_name-labels [] v = ap ok (sym assemble_name-nil)
wire2domain_name-labels (l ∷ ls) (v, vs) =
    rw (append_assoc l (wire_labels ls) (0 ∷ []), assemble_name-dotted l ls)
      (decode_loop-label (length (l ++ wire_of ls)) true l (wire_of ls) [] v
        ∙ decode_loop-wire_of (length (l ++ wire_of ls)) ls l
            (omega (arith, length-append l (wire_of ls))) vs)

-- On labels in wire form, wherever they stand in a message, `parse_domain_name` returns a name and
-- the offset behind the labels, and `wire2domain_name` of the octets of the labels is the same name.
pub wire2domain_name-wire_of :
    (ls : List Text) (pre rest : Bytes)
    → All IsLabel ls
    → (n : Text) × (wire2domain_name (wire_of ls) ≡ ok n)
      × (parse_domain_name (pre ++ (wire_of ls ++ rest)) (length pre)
          ≡ ok (record { name = n; next = length pre + length (wire_of ls) }))
wire2domain_name-wire_of ls pre rest v =
    (assemble_name ls, wire2domain_name-labels ls v, parse_domain_name-wire_of ls pre rest v)
