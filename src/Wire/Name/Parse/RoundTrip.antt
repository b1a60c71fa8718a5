-- ===== src/Wire/Name/Parse/RoundTrip.antt =====
-- `parse_domain_name` on names in wire form: it reads the labels back, whatever stands around.
use dnsdata_js.Base.{
  ℕ, zero, suc, ◌+◌, ◌-◌, ◌≤◌, ◌<◌, ◌≡◌, refl, sym, ap, ◌∙◌, arith, some, List, [], ◌∷◌, ◌++◌,
  append-nil, append_assoc, length, length-append, get_elem?, get_elem?-append_length, All, false,
  leb,
}
use dnsdata_js.Base.Slices.{Bytes, slice_behind}
use dnsdata_js.Base.Result.{ok}
use mathlib.Core.Path.{ap₂}
use dnsdata_js.Base.Text.{Text}
use dnsdata_js.Wire.Name.{
  Cursor, more, done, next_or, read_label, parse_octet, parse_round, parse_loop, parse_fuel,
  start_at, parse_domain_name, assemble_name, at_octet,
}
use dnsdata_js.Wire.Name.Labels.{IsLabel, wire_labels, wire_of}

-- A round on a message whose octet at the position is known.
pub parse_round-octet :
    (pre : Bytes) (b : ℕ) (rest : Bytes) (c : Cursor)
    → c.pos ≡ length pre
    → parse_round (pre ++ b ∷ rest) c ≡ parse_octet (pre ++ b ∷ rest) c b
unfolding parse_round
parse_round-octet pre b rest c at = rw (at_known, at_octet)
  where
    at_known : get_elem? (pre ++ b ∷ rest) c.pos ≡ some b
    at_known = ap (get_elem? (pre ++ b ∷ rest)) at ∙ get_elem?-append_length pre b rest

abbrev pub past : Cursor → List Text → ℕ → Cursor
past c ls p = record c { labels = c.labels ++ ls; pos = p }

past_nil : (c : Cursor) (p : ℕ) → c.pos ≡ p → c ≡ past c [] p
past_nil c p e = λ i. record {
  labels = sym (append-nil c.labels) i;
  pos = e i;
  next = c.next;
  visited = c.visited;
  hops = c.hops;
}

past-past :
    (c : Cursor) (ls ms : List Text) (p q r : ℕ)
    → q ≡ r
    → past (past c ls p) ms q ≡ past c (ls ++ ms) r
past-past c ls ms p q r e = λ i. record {
  labels = append_assoc c.labels ls ms i;
  pos = e i;
  next = c.next;
  visited = c.visited;
  hops = c.hops;
}

read_label-wire :
    (pre l rest : Bytes) (c : Cursor)
    → c.pos ≡ length pre
    → IsLabel l
    → read_label (pre ++ length l ∷ (l ++ rest)) c (length l)
      ≡ more (past c (l ∷ []) (c.pos + 1 + length l))
unfolding read_label
read_label-wire pre l rest c at v = ground (
  arith,
  length-append pre (length l ∷ (l ++ rest)),
  length-append l rest,
  slice_behind pre (length l) l rest c.pos (length l) at refl,
)

parse_octet-label :
    (msg : Bytes) (c : Cursor) (b : ℕ) → 1 ≤ b → b ≤ 63 → parse_octet msg c b ≡ read_label msg c b
unfolding parse_octet
parse_octet-label msg c b lo hi = ground arith

-- One round takes one label.
parse_round-label :
    (pre l rest : Bytes) (c : Cursor)
    → c.pos ≡ length pre
    → IsLabel l
    → parse_round (pre ++ length l ∷ (l ++ rest)) c ≡ more (past c (l ∷ []) (c.pos + 1 + length l))
parse_round-label pre l rest c at v =
    parse_round-octet pre (length l) (l ++ rest) c at
    ∙ parse_octet-label _ c (length l) v.0 v.1
    ∙ read_label-wire pre l rest c at v

pub parse_loop_step :
    (fuel : ℕ) (msg : Bytes) (c c' : Cursor)
    → parse_round msg c ≡ more c'
    → parse_loop (suc fuel) msg c ≡ parse_loop fuel msg c'
unfolding parse_loop
parse_loop_step fuel msg c c' e = rw (e, parse_loop)

split_first :
    (pre l tail rest : Bytes) (n : ℕ)
    → pre ++ (n ∷ (l ++ tail) ++ rest) ≡ pre ++ n ∷ (l ++ (tail ++ rest))
split_first pre l tail rest n = ap (λ (t : Bytes). pre ++ n ∷ t) (append_assoc l tail rest)

-- The loop runs over the labels, one round each.
pub parse_loop-wire_labels :
    (ls : List Text) (msg pre rest : Bytes) (c : Cursor) (total fuel : ℕ)
    → msg ≡ pre ++ (wire_labels ls ++ rest)
    → total ≡ length ls + fuel
    → c.pos ≡ length pre
    → All IsLabel ls
    → parse_loop total msg c
      ≡ parse_loop fuel msg (past c ls (length pre + length (wire_labels ls)))
parse_loop-wire_labels [] msg pre rest c total fuel m e at v =
    ap₂ (λ t d. parse_loop t msg d) {x = total} {y = fuel} (omega arith)
      (past_nil c (length pre + 0) (omega arith))
parse_loop-wire_labels (l ∷ ls) msg pre rest c zero fuel m e at v = absurd (omega arith)
parse_loop-wire_labels (l ∷ ls) msg pre rest c (suc total) fuel m e at (v, vs) =
    let tail = wire_labels ls ++ rest in
    let here = m ∙ split_first pre l (wire_labels ls) rest (length l) in
    let c' = past c (l ∷ []) (c.pos + 1 + length l) in
    let pre' = pre ++ length l ∷ l in
    let long = length-append pre (length l ∷ l) in
    parse_loop_step total msg c c'
      (ap (λ (x : Bytes). parse_round x c) here ∙ parse_round-label pre l tail c at v)
    ∙ parse_loop-wire_labels ls msg pre' rest c' total fuel
        (here ∙ sym (append_assoc pre (length l ∷ l) tail)) (omega arith) (omega (arith, long)) vs
    ∙ ap (parse_loop fuel msg) (
        past-past c (l ∷ []) ls (c.pos + 1 + length l) (length pre' + length (wire_labels ls))
          (length pre + length (wire_labels (l ∷ ls)))
          (omega (arith, long, length-append l (wire_labels ls))))

-- At the root's zero the loop returns.
parse_loop-root :
    (fuel : ℕ) (msg pre rest : Bytes) (c : Cursor)
    → msg ≡ pre ++ 0 ∷ rest
    → c.pos ≡ length pre
    → parse_loop (suc fuel) msg c
      ≡ ok (record { name = assemble_name c.labels; next = next_or c.next (c.pos + 1) })
unfolding parse_loop
parse_loop-root fuel msg pre rest c m at = rw (found, parse_loop)
  where
    found :
        parse_round msg c
        ≡ done (record { name = assemble_name c.labels; next = next_or c.next (c.pos + 1) })
    found =
        ap (λ (x : Bytes). parse_round x c) m
        ∙ parse_round-octet pre 0 rest c at
        ∙ (unfold parse_octet in refl)

-- Labels with the root's zero behind them: the loop returns their name. The position behind the
-- zero is the next one, unless a pointer has fixed that before.
pub parse_loop-wire_of :
    (ls : List Text) (msg pre rest : Bytes) (c : Cursor) (fuel : ℕ)
    → msg ≡ pre ++ (wire_of ls ++ rest)
    → length ls < fuel
    → c.pos ≡ length pre
    → All IsLabel ls
    → parse_loop fuel msg c
      ≡ ok (record {
        name = assemble_name (c.labels ++ ls);
        next = next_or c.next (length pre + length (wire_of ls));
      })
parse_loop-wire_of ls msg pre rest c fuel m f at v =
    let p = length pre + length (wire_labels ls) in
    let split = m ∙ ap (◌++◌ pre) (append_assoc (wire_labels ls) (0 ∷ []) rest) in
    parse_loop-wire_labels ls msg pre (0 ∷ rest) c fuel (suc (fuel - length ls - 1)) split
      (omega arith) at v
    ∙ parse_loop-root (fuel - length ls - 1) msg (pre ++ wire_labels ls) rest (past c ls p)
        (split ∙ sym (append_assoc pre (wire_labels ls) (0 ∷ rest)))
        (sym (length-append pre (wire_labels ls)))
    ∙ ap (λ (k : ℕ). ok (record { name = assemble_name (c.labels ++ ls); next = next_or c.next k }))
        {x = p + 1} (omega (arith, length-append (wire_labels ls) (0 ∷ [])))

pub length-le-wire_labels : (ls : List Text) → length ls ≤ length (wire_labels ls)
length-le-wire_labels [] = omega arith
length-le-wire_labels (l ∷ ls) =
    omega (arith, length-append l (wire_labels ls), length-le-wire_labels ls)

-- `parse_domain_name` reads a name in wire form back wherever it stands in a message: it returns
-- the labels, each with a dot behind it, and the offset behind the name.
pub parse_domain_name-wire_of :
    (ls : List Text) (pre rest : Bytes)
    → All IsLabel ls
    → parse_domain_name (pre ++ (wire_of ls ++ rest)) (length pre)
      ≡ ok (record { name = assemble_name ls; next = length pre + length (wire_of ls) })
unfolding parse_domain_name
parse_domain_name-wire_of ls pre rest v = rw (inside) (
    parse_loop-wire_of ls msg pre rest (start_at (length pre)) (parse_fuel msg) refl
      (omega (arith, long, length-le-wire_labels ls)) refl v)
  where
    msg : Bytes
    msg = pre ++ (wire_of ls ++ rest)

    long : length msg ≡ length pre + (length (wire_labels ls) + 1 + length rest)
    long = omega (
      arith,
      length-append pre (wire_of ls ++ rest),
      length-append (wire_of ls) rest,
      length-append (wire_labels ls) (0 ∷ []),
    )

    inside : leb (length msg) (length pre) ≡ false
    inside = ground (arith, long)
