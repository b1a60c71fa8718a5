-- ===== src/Wire/Name/Parse/Pointers.antt =====
-- Compression pointers in `parse_domain_name`.
use dnsdata_js.Base.{
  ℕ, zero, suc, ◌+◌, ◌-◌, ◌/◌, ◌%◌, ◌<◌, ◌≡◌, refl, sym, ap, ◌∙◌, arith, some, List, [], ◌∷◌, ◌++◌,
  append_assoc, length, length-append, All, false, leb,
}
use dnsdata_js.Base.Slices.{Bytes, byte_at}
use dnsdata_js.Base.Result.{Exception, ok, err}
use dnsdata_js.Base.Text.{Text}
use dnsdata_js.Wire.Name.{
  Cursor, more, fail, next_or, follow_pointer, parse_octet, parse_round, parse_loop, parse_fuel,
  start_at, parse_domain_name, assemble_name,
}
use dnsdata_js.Wire.Name.Labels.{IsLabel, wire_labels, wire_of}
use dnsdata_js.Wire.Name.Parse.RoundTrip.{
  parse_round-octet, past, parse_loop-wire_labels, parse_loop-wire_of, length-le-wire_labels,
  parse_loop_step,
}

-- The two octets of a pointer to `q`.
abbrev pub pointer_to : ℕ → Bytes
pointer_to q = (192 + q / 256) ∷ q % 256 ∷ []

second_octet :
    (pre : Bytes) (a b : ℕ) (rest : Bytes) → byte_at (pre ++ a ∷ b ∷ rest) (suc (length pre)) ≡ b
second_octet [] a b rest = refl
second_octet (p ∷ pre) a b rest = second_octet pre a b rest

pub byte_at-pointer :
    (pre : Bytes) (q : ℕ) (rest : Bytes) (p : ℕ)
    → p ≡ length pre
    → byte_at (pre ++ (pointer_to q ++ rest)) (p + 1) ≡ q % 256
byte_at-pointer pre q rest p at =
    ap (byte_at (pre ++ (pointer_to q ++ rest))) {x = p + 1} {y = suc (length pre)} (omega arith)
    ∙ second_octet pre (192 + q / 256) (q % 256) rest

pub parse_octet-pointer :
    (msg : Bytes) (c : Cursor) (q : ℕ)
    → q < 16384
    → parse_octet msg c (192 + q / 256) ≡ follow_pointer msg c (192 + q / 256)
unfolding parse_octet
parse_octet-pointer msg c q small = unfold follow_pointer in ground arith

abbrev pub jumped : Cursor → ℕ → Cursor
jumped c q = record {
  labels = c.labels;
  pos = q;
  next = some (next_or c.next (c.pos + 2));
  visited = q ∷ c.visited;
  hops = c.hops + 1;
}

-- The first pointer of a name, to an earlier position, is followed.
follow_pointer-first :
    (msg : Bytes) (c : Cursor) (q : ℕ)
    → byte_at msg (c.pos + 1) ≡ q % 256
    → c.pos + 1 < length msg
    → q < c.pos
    → q < 16384
    → c.visited ≡ []
    → c.hops ≡ 0
    → follow_pointer msg c (192 + q / 256) ≡ more (jumped c q)
unfolding follow_pointer
follow_pointer-first msg c q low inside back small fresh none_yet = ground (arith, low, fresh)

-- The round at a name's first pointer.
pub parse_round-pointer :
    (msg pre rest : Bytes) (c : Cursor) (q : ℕ)
    → msg ≡ pre ++ (pointer_to q ++ rest)
    → c.pos ≡ length pre
    → q < c.pos
    → q < 16384
    → c.visited ≡ []
    → c.hops ≡ 0
    → parse_round msg c ≡ more (jumped c q)
parse_round-pointer msg pre rest c q m at back small fresh none_yet =
    ap (λ (x : Bytes). parse_round x c) m
    ∙ parse_round-octet pre (192 + q / 256) (q % 256 ∷ rest) c at
    ∙ parse_octet-pointer (pre ++ (pointer_to q ++ rest)) c q small
    ∙ follow_pointer-first (pre ++ (pointer_to q ++ rest)) c q (byte_at-pointer pre q rest c.pos at)
        (omega (arith, length-append pre (pointer_to q ++ rest))) back small fresh none_yet

-- A compressed name: labels, then a pointer to an earlier name in the message. The result has the
-- labels of both, and the next offset is that behind the pointer.
pub parse_domain_name-pointer :
    (ls ms : List Text) (msg pre rest pre' rest' : Bytes)
    → msg ≡ pre ++ (wire_labels ls ++ (pointer_to (length pre') ++ rest))
    → msg ≡ pre' ++ (wire_of ms ++ rest')
    → length pre' < length pre + length (wire_labels ls)
    → length pre' < 16384
    → All IsLabel ls
    → All IsLabel ms
    → parse_domain_name msg (length pre)
      ≡ ok (record {
        name = assemble_name (ls ++ ms);
        next = length pre + length (wire_labels ls) + 2;
      })
unfolding parse_domain_name
parse_domain_name-pointer ls ms msg pre rest pre' rest' m m' back small v v' = rw inside (
    parse_loop-wire_labels ls msg pre (pointer_to (length pre') ++ rest) (start_at (length pre))
      (parse_fuel msg) (suc fuel) m (omega (arith, long, length-le-wire_labels ls)) refl v
    ∙ parse_loop_step fuel msg c (jumped c (length pre')) (
        parse_round-pointer msg (pre ++ wire_labels ls) rest c (length pre') split
          (sym (length-append pre (wire_labels ls))) back small refl refl)
    ∙ parse_loop-wire_of ms msg pre' rest' (jumped c (length pre')) fuel m'
        (omega (arith, long, long', length-le-wire_labels ls, length-le-wire_labels ms)) refl v')
  where
    fuel : ℕ
    fuel = parse_fuel msg - length ls - 1

    c : Cursor
    c = past (start_at (length pre)) ls (length pre + length (wire_labels ls))

    split : msg ≡ (pre ++ wire_labels ls) ++ (pointer_to (length pre') ++ rest)
    split = m ∙ sym (append_assoc pre (wire_labels ls) (pointer_to (length pre') ++ rest))

    long : length msg ≡ length pre + length (wire_labels ls) + 2 + length rest
    long = omega (
      arith,
      ap length m,
      length-append pre (wire_labels ls ++ (pointer_to (length pre') ++ rest)),
      length-append (wire_labels ls) (pointer_to (length pre') ++ rest),
    )

    long' : length (wire_labels ms) < length msg
    long' = omega (
      arith,
      ap length m',
      length-append pre' (wire_of ms ++ rest'),
      length-append (wire_of ms) rest',
      length-append (wire_labels ms) (0 ∷ []),
    )

    inside : leb (length msg) (length pre) ≡ false
    inside = ground (arith, long)

pub parse_loop-fail :
    (fuel : ℕ) (msg : Bytes) (c : Cursor) {e : Exception}
    → 0 < fuel
    → parse_round msg c ≡ fail e
    → parse_loop fuel msg c ≡ err e
unfolding parse_loop
parse_loop-fail zero msg c lt r = absurd (omega arith)
parse_loop-fail (suc fuel) msg c lt r = rw (r, parse_loop)
