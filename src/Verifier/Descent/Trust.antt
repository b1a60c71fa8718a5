-- ===== src/Verifier/Descent/Trust.antt =====
-- packages/core/src/verifier/chain.ts: every zone that the walk arrives at hangs on a trust anchor.
use dnsdata_js.Base.{ℕ, false, ◌==◌, none, some, List, [], ◌∷◌, All, ◌≡◌, refl, sym, ap, ◌∙◌}
use dnsdata_js.Base.Text.{Text, dot}
use dnsdata_js.Dnssec.Canonical.{equal_canonical_names}
use dnsdata_js.Dnssec.Keys.{DnsKey}
use dnsdata_js.Dnssec.Signer.{ResourceRecord}
use dnsdata_js.Dnssec.SignedZone.{ZoneState, DnssecZone, find_rrset, type_ds, type_dnskey}
use dnsdata_js.Dnssec.SignedZone.Check.{mode_none, mode_ksk}
use dnsdata_js.Verifier.Verdict.{Verdict}
use dnsdata_js.Verifier.Walk.{HopOutcome}
use dnsdata_js.Verifier.Steps.Laws.{Signed}
use dnsdata_js.Verifier.Load.Laws.{Kept}
use dnsdata_js.Verifier.Ksks.{trust_keys}
use dnsdata_js.Verifier.Ksks.Laws.{IsAnchored, IsDelegated, TrustsOnly, trust_keys-records}
use dnsdata_js.Verifier.Descent.{Verifier}

-- The zone holds DNSKEY records of its own name only.
abbrev pub KeysOnlyAt : Text → ZoneState → Type 0
KeysOnlyAt name z =
    (owner : Text) → equal_canonical_names owner name ≡ false → find_rrset z owner type_dnskey ≡ []

-- More records, but the same keys.
pub record Grown (z z' : DnssecZone) : Type 0 where
  pub trusted_same : z'.own.trusted_keys ≡ z.own.trusted_keys
  pub parent_same : z'.parent ≡ z.parent
  pub keys_same :
      (owner : Text) → find_rrset z'.own owner type_dnskey ≡ find_rrset z.own owner type_dnskey

-- The chain of trust. The root's trusted keys have the digest of an anchor; those of another zone
-- have the digest of a DS record of the parent, a trusted zone, in a DS RRset with a signature under
-- the parent's keys. The DNSKEY RRset of the zone has a signature under an authenticated key, and
-- the zone holds no other DNSKEY records.
pub data Trusted (v : Verifier) : Text → DnssecZone → Type 0 where
  anchored :
      {z : DnssecZone} (keys : List DnsKey)
      → All (IsAnchored v.crypto v.anchors) keys
      → TrustsOnly keys z.own
      → Signed v.registry v.crypto z (dot ∷ []) type_dnskey mode_ksk
      → KeysOnlyAt (dot ∷ []) z.own
      → Trusted v (dot ∷ []) z
  delegated :
      {name p : Text} {child parent : DnssecZone} (keys : List DnsKey)
      → Trusted v p parent
      → Signed v.registry v.crypto parent name type_ds mode_none
      → All (IsDelegated v.registry v.crypto parent.own name) keys
      → child.parent ≡ some parent.own
      → TrustsOnly keys child.own
      → Signed v.registry v.crypto child name type_dnskey mode_ksk
      → KeysOnlyAt name child.own
      → Trusted v name child
  grown : {name : Text} {z z' : DnssecZone} → Trusted v name z → Grown z z' → Trusted v name z'

pub Kept-Grown :
    (name : Text) (qtype : ℕ) (z z' : DnssecZone)
    → (qtype == type_dnskey) ≡ false
    → Kept name qtype z z'
    → Grown z z'
Kept-Grown name qtype z z' h k = record {
  trusted_same = k.trusted_same;
  parent_same = k.parent_same;
  keys_same = λ owner. k.keys_same owner (rw h refl);
}

find_in : List (Text × List ResourceRecord) → Text → ℕ → List ResourceRecord
find_in rs name type =
    find_rrset record { records = rs; seps = []; trusted_keys = []; now = none } name type

find_rrset-find_in :
    (z : ZoneState) (name : Text) (type : ℕ) → find_rrset z name type ≡ find_in z.records name type
unfolding find_rrset find_in
find_rrset-find_in z name type = refl

find_rrset-same :
    (z z' : ZoneState) (name : Text) (type : ℕ)
    → z.records ≡ z'.records
    → find_rrset z name type ≡ find_rrset z' name type
find_rrset-same z z' name type e =
    find_rrset-find_in z name type
    ∙ ap (λ (rs : List (Text × List ResourceRecord)). find_in rs name type) e
    ∙ sym (find_rrset-find_in z' name type)

find_in-nothing : (name : Text) (type : ℕ) → find_in [] name type ≡ []
unfolding find_in find_rrset
find_in-nothing name type = refl

pub trust_keys-KeysOnlyAt :
    (ks : List DnsKey) (name : Text) (z : ZoneState)
    → KeysOnlyAt name z
    → KeysOnlyAt name (trust_keys ks z)
trust_keys-KeysOnlyAt ks name z h owner e =
    find_rrset-same (trust_keys ks z) z owner type_dnskey (trust_keys-records ks z) ∙ h owner e

-- A new zone with the DNSKEY records of a name.
pub Kept-KeysOnlyAt :
    (name : Text) (z z' : DnssecZone)
    → z.own.records ≡ []
    → Kept name type_dnskey z z'
    → KeysOnlyAt name z'.own
Kept-KeysOnlyAt name z z' e k owner h =
    k.keys_same owner (rw h refl)
    ∙ (find_rrset-find_in z.own owner type_dnskey
        ∙ ap (λ (rs : List (Text × List ResourceRecord)). find_in rs owner type_dnskey) e
        ∙ find_in-nothing owner type_dnskey)

-- A bogus outcome, of no alias.
abbrev pub IsBogus : HopOutcome → Type 0
IsBogus o = (o.verdict ≡ Verdict.bogus) × (o.alias ≡ none)
