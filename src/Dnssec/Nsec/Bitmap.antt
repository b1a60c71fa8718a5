-- ===== src/Dnssec/Nsec/Bitmap.antt =====
-- packages/core/src/dnssec/nsec.ts: the type bitmap of RFC 4034 section 4.1.2, written.
use dnsdata_js.Base.{
  ℕ, zero, suc, ◌+◌, ◌-◌, ◌/◌, ◌%◌, ◌^◌, ltb, if◌then◌else◌, ◌==◌, List, [], ◌∷◌, ◌++◌,
}
use dnsdata_js.Base.Slices.{Bytes}
use dnsdata_js.Base.Order.{Sign, sign_of_sub}
use dnsdata_js.Base.Sorting.{sort}

-- `windows`: the offsets of each window, in the order in which the windows first came.
abbrev Windows : Type 0
Windows = List (ℕ × List ℕ)

unfoldable pub push_offset : ℕ → ℕ → Windows → Windows
push_offset w off [] = (w, off ∷ []) ∷ []
push_offset w off ((u, offs) ∷ ws) =
    let rest = push_offset w off ws in
    if u == w then (u, offs ++ off ∷ []) ∷ ws else (u, offs) ∷ rest

-- The grouping loop, with `(t >> 8) & 0xff` and `t & 0xff`.
unfoldable pub group_types : List ℕ → Windows → Windows
unfolding push_offset
group_types [] ws = ws
group_types (t ∷ ts) ws = group_types ts (push_offset ((t / 256) % 256) (t % 256) ws)

abbrev by_window : ℕ × List ℕ → ℕ × List ℕ → Sign
by_window a b = sign_of_sub a.0 b.0

-- `Math.max(...offsets)`
unfoldable pub largest : List ℕ → ℕ
largest [] = 0
largest (n ∷ ns) = let m = largest ns in if ltb n m then m else n

unfoldable pub zeros : ℕ → Bytes
zeros zero = []
zeros (suc n) = 0 ∷ zeros n

-- `byte | 0x80 >> bit`
abbrev pub or_bit : ℕ → ℕ → ℕ
or_bit byte bit =
    let mask = 2 ^ (suc 6 - bit) in if (byte / mask) % 2 == 1 then byte else byte + mask

-- `bitmap[i] |= 0x80 >> bit`
unfoldable pub set_bit : ℕ → ℕ → Bytes → Bytes
set_bit i bit [] = []
set_bit zero bit (b ∷ bs) = or_bit b bit ∷ bs
set_bit (suc i) bit (b ∷ bs) = b ∷ set_bit i bit bs

unfoldable pub set_bits : List ℕ → Bytes → Bytes
unfolding set_bit
set_bits [] bitmap = bitmap
set_bits (off ∷ offs) bitmap = set_bits offs (set_bit (off / 8) (off % 8) bitmap)

-- The block of one window: its number, its length and its octets.
unfoldable pub window_entry : ℕ × List ℕ → Bytes
unfolding largest zeros set_bits
window_entry (w, offs) =
    let bitmap_len = largest offs / 8 + 1 in w ∷ bitmap_len ∷ set_bits offs (zeros bitmap_len)

unfoldable pub window_entries : List (ℕ × List ℕ) → Bytes
unfolding window_entry
window_entries [] = []
window_entries (w ∷ ws) = window_entry w ++ window_entries ws

unfoldable pub encode_type_bitmap : List ℕ → Bytes
unfolding group_types sort sign_of_sub window_entries
encode_type_bitmap types = window_entries (sort by_window (group_types types []))
