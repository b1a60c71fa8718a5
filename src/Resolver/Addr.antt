-- ===== src/Resolver/Addr.antt =====
-- packages/core/src/resolver/addr.ts: `host:port` addresses.
use dnsdata_js.Base.{ℕ, Bool, false, ◌&&◌, not, if◌then◌else◌, ◌==◌, any, [], ◌∷◌, ◌++◌}
use dnsdata_js.Base.Text.{Text, decimal}

abbrev pub colon : ℕ
colon = b':'

abbrev pub open_bracket : ℕ
open_bracket = b'['

abbrev pub close_bracket : ℕ
close_bracket = b']'

-- `s.includes(c)` for one unit.
abbrev pub contains : ℕ → Text → Bool
contains c s = any (λ d. d == c) s

abbrev pub starts_with_bracket : Text → Bool
starts_with_bracket [] = false
starts_with_bracket (c ∷ s) = c == open_bracket

-- What follows the first `c`; nothing where there is none.
unfoldable pub after_first : ℕ → Text → Text
after_first c [] = []
after_first c (d ∷ s) = let rest = after_first c s in if d == c then s else rest

abbrev pub starts_with_colon : Text → Bool
starts_with_colon [] = false
starts_with_colon (c ∷ s) = c == colon

-- `[…]:` with a port behind it, or exactly one colon.
unfoldable pub has_port : Text → Bool
unfolding after_first
has_port addr =
    if starts_with_bracket addr
    then starts_with_colon (after_first close_bracket addr)
    else contains colon addr && not (contains colon (after_first colon addr))

unfoldable pub normalize_host_port : Text → ℕ → Text
unfolding has_port decimal
normalize_host_port addr default_port =
    if has_port addr
    then addr
    else if contains colon addr && not (starts_with_bracket addr)
    then open_bracket ∷ addr ++ close_bracket ∷ colon ∷ decimal default_port
    else addr ++ colon ∷ decimal default_port
