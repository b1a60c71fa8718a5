-- ===== src/Verifier/Chain/Trust.antt =====
-- packages/core/src/verifier/chain.ts: a secure verdict rests on a chain of trust.
use dnsdata_js.Base.{ℕ, some, ◌≡◌}
use dnsdata_js.Base.Text.{Text}
use dnsdata_js.Dnssec.SignedZone.{DnssecZone}
use dnsdata_js.Dnssec.SignedZone.Check.{mode_none}
use dnsdata_js.Verifier.Verdict.{Verdict, secure}
use dnsdata_js.Verifier.Walk.{AliasStep, Answer, WalkResult, Walk}
use dnsdata_js.Verifier.Steps.Laws.{Signed}
use dnsdata_js.Verifier.Descent.{Verifier}
use dnsdata_js.Verifier.Descent.Trust.{Trusted}
use dnsdata_js.Verifier.Leaf.Justified.{Justified, IsAlias, IsAnswer}

-- From a name to the one at the end of signed aliases.
pub data Reaches (v : Verifier) : Text → Text → Type 0 where
  here : {name : Text} → Reaches v name name
  via :
      {name last n : Text} {z : DnssecZone} (a : AliasStep)
      → Trusted v n z
      → IsAlias v z name a
      → Reaches v a.target last
      → Reaches v name last

-- The answer of a result, in a trusted zone in which its RRset is signed.
pub record IsSecured (v : Verifier) (qtype : ℕ) (first : Text) (r : WalkResult) : Type 0 where
  pub name : Text
  pub reached : Reaches v first name
  pub zone_name : Text
  pub zone : DnssecZone
  pub trusted : Trusted v zone_name zone
  pub signed : Signed v.registry v.crypto zone name qtype mode_none
  pub answer : Answer
  pub answer_there : r.answer ≡ some answer
  pub answer_is : IsAnswer v zone name qtype answer

abbrev pub SecureRests : Verifier → ℕ → Text → WalkResult → Type 0
SecureRests v qtype first r = r.verdict ≡ secure → IsSecured v qtype first r
