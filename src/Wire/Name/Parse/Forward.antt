-- ===== src/Wire/Name/Parse/Forward.antt =====
-- Compression pointers in `parse_domain_name` that do not point earlier.
use dnsdata_js.Base.{
  ℕ, suc, ◌+◌, ◌-◌, ◌/◌, ◌%◌, ◌≤◌, ◌<◌, ◌≡◌, refl, sym, ap, ◌∙◌, arith, List, ◌∷◌, ◌++◌,
  append_assoc, length, length-append, All, false, leb,
}
use dnsdata_js.Base.Slices.{Bytes, byte_at}
use dnsdata_js.Base.Result.{err, pointer_forward}
use dnsdata_js.Base.Text.{Text}
use dnsdata_js.Wire.Name.{
  Cursor, fail, follow_pointer, parse_round, parse_loop, parse_fuel, start_at, parse_domain_name,
}
use dnsdata_js.Wire.Name.Labels.{IsLabel, wire_labels}
use dnsdata_js.Wire.Name.Parse.RoundTrip.{
  parse_round-octet, past, parse_loop-wire_labels, length-le-wire_labels, parse_loop_step,
}
use dnsdata_js.Wire.Name.Parse.Pointers.{
  pointer_to, byte_at-pointer, parse_octet-pointer, parse_round-pointer, parse_loop-fail, jumped,
}

-- A round at such a pointer, whatever was read before.
parse_round-forward :
    (msg pre rest : Bytes) (c : Cursor) (q : ℕ)
    → msg ≡ pre ++ (pointer_to q ++ rest)
    → c.pos ≡ length pre
    → q < 16384
    → length pre ≤ q
    → parse_round msg c ≡ fail pointer_forward
parse_round-forward msg pre rest c q m at small ahead =
    ap (λ (x : Bytes). parse_round x c) m
    ∙ parse_round-octet pre (192 + q / 256) (q % 256 ∷ rest) c at
    ∙ parse_octet-pointer whole c q small
    ∙ thrown
  where
    whole : Bytes
    whole = pre ++ (pointer_to q ++ rest)

    long : length whole ≡ length pre + (2 + length rest)
    long = omega (arith, length-append pre (pointer_to q ++ rest))

    low : byte_at whole (c.pos + 1) ≡ q % 256
    low = byte_at-pointer pre q rest c.pos at

    thrown : follow_pointer whole c (192 + q / 256) ≡ fail pointer_forward
    thrown = unfold follow_pointer in ground (arith, low, long)

-- Labels and then such a pointer, for a loop that stands before the labels.
parse_loop-forward :
    (ls : List Text) (msg pre rest : Bytes) (c : Cursor) (q fuel : ℕ)
    → msg ≡ pre ++ (wire_labels ls ++ (pointer_to q ++ rest))
    → length ls < fuel
    → c.pos ≡ length pre
    → All IsLabel ls
    → q < 16384
    → length pre + length (wire_labels ls) ≤ q
    → parse_loop fuel msg c ≡ err pointer_forward
parse_loop-forward ls msg pre rest c q fuel m enough at v small ahead =
    parse_loop-wire_labels ls msg pre (pointer_to q ++ rest) c fuel (fuel - length ls) m
      (omega arith) at v
    ∙ parse_loop-fail (fuel - length ls) msg (past c ls (length pre + length (wire_labels ls)))
        (omega arith)
        (parse_round-forward msg (pre ++ wire_labels ls) rest
          (past c ls (length pre + length (wire_labels ls))) q
          (m ∙ sym (append_assoc pre (wire_labels ls) (pointer_to q ++ rest)))
          (sym (length-append pre (wire_labels ls))) small
          (omega (arith, length-append pre (wire_labels ls))))

-- How a name that is read from an offset comes to the position `at`: it starts there, or its labels
-- end in a pointer that points there and earlier.
pub data ComesTo (msg : Bytes) (at : ℕ) : ℕ → Type 0 where
  at_once : ComesTo msg at at
  by_pointer :
      (js : List Text) (before behind : Bytes)
      → msg ≡ before ++ (wire_labels js ++ (pointer_to at ++ behind))
      → at < length before + length (wire_labels js)
      → at < 16384
      → All IsLabel js
      → ComesTo msg at (length before)

-- A pointer that does not point before itself is refused as such, behind any labels and where the
-- name comes to these labels at once or by a pointer before.
pub parse_domain_name-forward :
    (ls : List Text) (msg pre rest : Bytes) (q offset : ℕ)
    → ComesTo msg (length pre) offset
    → msg ≡ pre ++ (wire_labels ls ++ (pointer_to q ++ rest))
    → All IsLabel ls
    → q < 16384
    → length pre + length (wire_labels ls) ≤ q
    → parse_domain_name msg offset ≡ err pointer_forward
unfolding parse_domain_name
parse_domain_name-forward ls msg pre rest q _ at_once m v small ahead = rw inside (
    parse_loop-forward ls msg pre rest (start_at (length pre)) q (parse_fuel msg) m
      (omega (arith, long, length-le-wire_labels ls)) refl v small ahead)
  where
    long : length msg ≡ length pre + length (wire_labels ls) + 2 + length rest
    long = omega (
      arith,
      ap length m,
      length-append pre (wire_labels ls ++ (pointer_to q ++ rest)),
      length-append (wire_labels ls) (pointer_to q ++ rest),
    )

    inside : leb (length msg) (length pre) ≡ false
    inside = ground (arith, long)
parse_domain_name-forward ls msg pre rest q _ (by_pointer js before behind m' back low v') m v small
      ahead =
    rw inside (
      parse_loop-wire_labels js msg before (pointer_to (length pre) ++ behind)
        (start_at (length before)) (parse_fuel msg) (suc fuel) m'
        (omega (arith, long', length-le-wire_labels js)) refl v'
      ∙ parse_loop_step fuel msg c (jumped c (length pre)) (
          parse_round-pointer msg (before ++ wire_labels js) behind c (length pre)
            (m' ∙ sym (append_assoc before (wire_labels js) (pointer_to (length pre) ++ behind)))
            (sym (length-append before (wire_labels js))) back low refl refl)
      ∙ parse_loop-forward ls msg pre rest (jumped c (length pre)) q fuel m
          (omega (arith, long, long', length-le-wire_labels ls, length-le-wire_labels js)) refl v
          small ahead)
  where
    fuel : ℕ
    fuel = parse_fuel msg - length js - 1

    c : Cursor
    c = past (start_at (length before)) js (length before + length (wire_labels js))

    long : length msg ≡ length pre + length (wire_labels ls) + 2 + length rest
    long = omega (
      arith,
      ap length m,
      length-append pre (wire_labels ls ++ (pointer_to q ++ rest)),
      length-append (wire_labels ls) (pointer_to q ++ rest),
    )

    long' : length msg ≡ length before + length (wire_labels js) + 2 + length behind
    long' = omega (
      arith,
      ap length m',
      length-append before (wire_labels js ++ (pointer_to (length pre) ++ behind)),
      length-append (wire_labels js) (pointer_to (length pre) ++ behind),
    )

    inside : leb (length msg) (length before) ≡ false
    inside = ground (arith, long')
