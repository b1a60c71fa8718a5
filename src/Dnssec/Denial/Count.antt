-- ===== src/Dnssec/Denial/Count.antt =====
-- packages/core/src/dnssec/nsec.ts and nsec3.ts: what one record of a zone says of a name, by the
-- signs of the three comparisons that `covers_name` and `covers_hash` make.
use dnsdata_js.Base.{ℕ, ◌+◌, Bool, false, if◌then◌else◌, ◌≡◌, refl, ◌⊎◌, inl, inr, ◌&&◌, ◌||◌}
use dnsdata_js.Base.Order.{Sign, less, equal, greater}
use dnsdata_js.Dnssec.Denial.{is_equal, is_less, is_greater}

unfoldable pub one_if : Bool → ℕ
one_if b = if b then 1 else 0

-- What one record adds, by the signs of the three comparisons.
unfoldable pub count : Sign → Sign → Sign → ℕ
unfolding one_if
count s t u =
    one_if (is_equal s)
    + one_if (
        if is_equal s || is_equal t
        then false
        else if is_less u || is_equal u
        then is_greater s || is_less t
        else is_greater s && is_less t)

pub count-at :
    {s t u : Sign} (s' t' u' : Sign) → s ≡ s' → t ≡ t' → u ≡ u' → count s t u ≡ count s' t' u'
count-at s' t' u' e f g = cc

unfoldable pub NotGreater : Sign → Type 0
NotGreater less = Unit
NotGreater equal = Unit
NotGreater greater = ⊥

-- What the records from `owner` on say of a name above the first one.
unfoldable pub above : Sign → ℕ
above less = 0
above equal = 1
above greater = 1

pub last-above : (s t u : Sign) → t ≡ greater → NotGreater u → count s t u ≡ above s
unfolding count one_if above NotGreater
last-above less greater less e h = refl
last-above less greater equal e h = refl
last-above equal greater less e h = refl
last-above equal greater equal e h = refl
last-above greater greater less e h = refl
last-above greater greater equal e h = refl
last-above s less u e h = cc
last-above s equal u e h = cc
last-above s greater greater e h = absurd h

-- The name stands before, at or behind the owner; s' is its place by the next one.
unfoldable pub Places : Sign → Sign → Type 0
Places less s' = s' ≡ less
Places equal s' = s' ≡ less
Places greater s' = Unit

pub inner-above : (s s' u : Sign) → u ≡ greater → Places s s' → count s s' u + above s' ≡ above s
unfolding count one_if above Places
inner-above less less greater e p = refl
inner-above equal less greater e p = refl
inner-above greater less greater e p = refl
inner-above greater equal greater e p = refl
inner-above greater greater greater e p = refl
inner-above less equal u e p = cc
inner-above less greater u e p = cc
inner-above equal equal u e p = cc
inner-above equal greater u e p = cc
inner-above s s' less e p = cc
inner-above s s' equal e p = cc

pub NotGreater-of : (s : Sign) → (s ≡ less) ⊎ (s ≡ equal) → NotGreater s
unfolding NotGreater
NotGreater-of less e = tt
NotGreater-of equal e = tt
NotGreater-of greater (inl e) = cc
NotGreater-of greater (inr e) = cc

-- What the records behind the first one say of a name not above it.
unfoldable pub below : Sign → ℕ
below less = 1
below equal = 0
below greater = 0

pub last-below : (t u : Sign) → u ≡ less → NotGreater t → count less t u ≡ below t
unfolding count one_if below NotGreater
last-below less less e n = refl
last-below equal less e n = refl
last-below greater less e n = absurd n
last-below t equal e n = cc
last-below t greater e n = cc

pub first-below :
    (s s' u : Sign) → NotGreater s → s' ≡ less → u ≡ greater → count s s' u + below s ≡ 1
unfolding count one_if below NotGreater
first-below less less greater n e f = refl
first-below equal less greater n e f = refl
first-below greater less greater n e f = absurd n
first-below s equal u n e f = cc
first-below s greater u n e f = cc
first-below s less less n e f = cc
first-below s less equal n e f = cc

pub only-below : (s u : Sign) → NotGreater s → u ≡ equal → count s s u ≡ 1
unfolding count one_if NotGreater
only-below less equal n e = refl
only-below equal equal n e = refl
only-below greater equal n e = absurd n
only-below s less n e = cc
only-below s greater n e = cc
