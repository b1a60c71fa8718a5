-- ===== src/Base/Result.antt =====
-- packages/core/src/dns_exception.ts: the exceptions, as values. A message text is left out; the
-- class is kept, since the callers tell exceptions apart by their class.
use mathlib.Core.Path.{◌≡◌, refl, ap}
use mathlib.Core.Bool.{Bool, true, false}
use mathlib.Core.List.{List, [], ◌∷◌}

-- `type_error`, `range_error` and `plain_error` are the language's TypeError, RangeError and Error.
pub data Exception : Type 0 where
  wire_error pointer_loop pointer_forward message_malformed rdata_decode : Exception
  zone_exception presentation_format rdata_format zone_parse unsupported_algorithm : Exception
  unknown_opcode unknown_rcode unknown_rrtype unknown_rrclass unknown_algorithm : Exception
  signer_error : Exception
  type_error range_error plain_error : Exception

-- `stuck` is no value of the program: the fuel of a loop ran out.
pub data Result {ℓ} (A : Type ℓ) : Type ℓ where
  ok : A → Result A
  err : Exception → Result A
  stuck : Result A

-- What follows runs on the value, and not after an exception.
infixl 5 ◌>>=◌ ◌>>◌
abbrev pub ◌>>=◌ {ℓ κ} : {B : Type κ} {A : Type ℓ} → Result A → (A → Result B) → Result B
stuck >>= next = stuck
(err thrown) >>= next = err thrown
(ok value) >>= next = next value

-- Where the value is of no use.
abbrev pub ◌>>◌ {κ} : {B : Type κ} → Result (Unit {0}) → Result B → Result B
done >> later = done >>= λ nothing. later

-- `if (bad) throw e;`
abbrev pub throw_if : Bool → Exception → Result (Unit {0})
throw_if true e = err e
throw_if false e = ok tt

-- `try { m } catch { throw e; }`
abbrev pub rethrow_as {ℓ} : {A : Type ℓ} → Exception → Result A → Result A
rethrow_as e (ok a) = ok a
rethrow_as e (err x) = err e
rethrow_as e stuck = stuck

-- Every element in turn, up to the first exception.
abbrev pub map_result {ℓ κ} : {A : Type ℓ} {B : Type κ} → (A → Result B) → List A → Result (List B)
map_result f [] = ok []
map_result f (x ∷ xs) = f x >>= λ y. map_result f xs >>= λ ys. ok (y ∷ ys)

-- A result that is reached: a value or an exception, never `stuck`.
abbrev pub IsReached {ℓ} : {A : Type ℓ} → Result A → Type 0
IsReached (ok a) = Unit
IsReached (err e) = Unit
IsReached stuck = ⊥

-- What holds of the value, if there is one.
abbrev pub Returned {ℓ κ} : {A : Type ℓ} → (A → Type κ) → Result A → Type κ
Returned P (ok a) = P a
Returned P (err e) = Unit
Returned P stuck = Unit

pub >>=-eq-ok {ℓ κ} :
    {A : Type ℓ} {B : Type κ} (first : Result A) (next : A → Result B) {y : B}
    → (first >>= next) ≡ ok y
    → (x : A) × (first ≡ ok x) × (next x ≡ ok y)
>>=-eq-ok stuck next e = cc
>>=-eq-ok (err thrown) next e = cc
>>=-eq-ok (ok x) next e = (x, refl, e)

pub ok_injective {ℓ} : {A : Type ℓ} {a b : A} → ok a ≡ ok b → a ≡ b
ok_injective {A = A} {a} {b} e =
    ap (λ (r : Result A). elim r [ ok x ↦ x | err x ↦ a | stuck ↦ a ]) e

pub rethrow_as-eq-ok {ℓ} :
    {A : Type ℓ} (e : Exception) (m : Result A) {a : A} → rethrow_as e m ≡ ok a → m ≡ ok a
rethrow_as-eq-ok e (ok a) h = h
rethrow_as-eq-ok e (err x) h = cc
rethrow_as-eq-ok e stuck h = cc

-- A value with property P, or the exception e: nothing else is thrown, and the fuel suffices.
abbrev pub OrThrows {ℓ} : {A : Type ℓ} → Exception → (A → Type 0) → Result A → Type 0
OrThrows e P (ok a) = P a
OrThrows e P (err x) = x ≡ e
OrThrows e P stuck = ⊥

pub OrThrows->>= {ℓ κ} :
    {A : Type ℓ} {B : Type κ} (e : Exception) (P : A → Type 0) (Q : B → Type 0) (m : Result A)
    (f : A → Result B)
    → OrThrows e P m
    → ((a : A) → m ≡ ok a → P a → OrThrows e Q (f a))
    → OrThrows e Q (m >>= f)
OrThrows->>= e P Q (ok a) f h k = k a refl h
OrThrows->>= e P Q (err x) f h k = h
OrThrows->>= e P Q stuck f h k = h

pub OrThrows-throw_if {ℓ} :
    {B : Type ℓ} (e : Exception) (Q : B → Type 0) (b : Bool) (r : Result B)
    → (b ≡ false → OrThrows e Q r)
    → OrThrows e Q (throw_if b e >>= λ _. r)
OrThrows-throw_if e Q true r h = refl
OrThrows-throw_if e Q false r h = h refl

pub OrThrows-rethrow_as {ℓ} :
    {A : Type ℓ} (e e' : Exception) (P : A → Type 0) (m : Result A)
    → OrThrows e' P m
    → OrThrows e P (rethrow_as e m)
OrThrows-rethrow_as e e' P (ok a) h = h
OrThrows-rethrow_as e e' P (err x) h = refl
OrThrows-rethrow_as e e' P stuck h = h
