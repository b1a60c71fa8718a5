-- ===== src/Dnssec/Denial.antt =====
-- packages/core/src/dnssec/nsec.ts and nsec3.ts: when a record denies a name. `covers_name` and
-- `covers_hash` are the same code on two comparisons, which is the parameter here.
use dnsdata_js.Base.{Bool, true, false, ◌&&◌, ◌||◌, if◌then◌else◌, List, [], ◌∷◌}
use dnsdata_js.Base.Order.{Sign, less, equal, greater}
pub mod Count
pub mod Chain

abbrev pub is_less : Sign → Bool
is_less less = true
is_less _ = false

abbrev pub is_equal : Sign → Bool
is_equal equal = true
is_equal _ = false

abbrev pub is_greater : Sign → Bool
is_greater greater = true
is_greater _ = false

unfoldable pub covers {ℓ} : {A : Type ℓ} → (A → A → Sign) → A → A → A → Bool
covers compare owner next qname =
    let cmp_owner = compare qname owner in
    let cmp_next = compare qname next in
    if is_equal cmp_owner || is_equal cmp_next
    then false
    else if is_less (compare next owner) || is_equal (compare next owner)
    then is_greater cmp_owner || is_less cmp_next
    else is_greater cmp_owner && is_less cmp_next
