-- ===== src/Verifier/Verdict.antt =====
-- packages/core/src/verifier/verdict.ts: the verdicts and how those of several hops are combined.
use dnsdata_js.Base.{ℕ, Bool, true, false, ◌||◌, if◌then◌else◌}
pub mod Laws

pub data Verdict : Type 0 where
  indeterminate secure secure_no_data secure_nx_domain insecure bogus : Verdict

abbrev pub max_alias_hops : ℕ
max_alias_hops = 10

abbrev is_bogus : Verdict → Bool
is_bogus bogus = true
is_bogus _ = false

abbrev is_insecure : Verdict → Bool
is_insecure insecure = true
is_insecure _ = false

abbrev is_indeterminate : Verdict → Bool
is_indeterminate indeterminate = true
is_indeterminate _ = false

abbrev is_secure : Verdict → Bool
is_secure secure = true
is_secure _ = false

unfoldable pub combine_verdicts : Verdict → Verdict → Verdict
combine_verdicts a b =
    if is_bogus a || is_bogus b
    then bogus
    else if is_insecure a || is_insecure b
    then insecure
    else if is_indeterminate a || is_indeterminate b
    then indeterminate
    else if is_secure b
    then a
    else b
