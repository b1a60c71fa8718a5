-- ===== src/Dnssec/Nsec/Presentation.antt =====
-- packages/core/src/dnssec/nsec.ts: the constructor of the NSEC handler, which reads the
-- presentation form.
use dnsdata_js.Base.{ℕ, List, [], ◌∷◌}
use dnsdata_js.Base.Text.{Text}
use dnsdata_js.Base.Spaces.{trim, split_spaces}
use dnsdata_js.Base.Order.{sign_of_sub}
use dnsdata_js.Base.Sorting.{sort}
use dnsdata_js.Base.Result.{Result, ok, err, stuck, presentation_format}
use dnsdata_js.Types.RrType.{string_to_rr_type}
use dnsdata_js.Dnssec.Nsec.{Nsec}
use dnsdata_js.Dnssec.Nsec.Bitmap.{encode_type_bitmap}

abbrev or_ignored : Result ℕ → List ℕ → List ℕ
or_ignored (ok t) ts = t ∷ ts
or_ignored (err e) ts = ts
or_ignored stuck ts = ts

-- The loop over the mnemonics: unknown ones are ignored.
unfoldable pub read_types : List Text → List ℕ
unfolding string_to_rr_type
read_types [] = []
read_types (p ∷ ps) = or_ignored (string_to_rr_type p) (read_types ps)

abbrev pub nsec_of_parts : List Text → Result Nsec
nsec_of_parts [] = err presentation_format
nsec_of_parts (next ∷ []) = err presentation_format
nsec_of_parts (next ∷ part ∷ parts) =
    let covered = sort sign_of_sub (read_types (part ∷ parts)) in
    ok (record {
      next_domain = next;
      type_bitmap = encode_type_bitmap covered;
      covered_types = covered;
    })

-- `new DNSRR_NSEC(rr, value)`
unfoldable pub nsec_of_value : Text → Result Nsec
unfolding trim split_spaces read_types sort encode_type_bitmap
nsec_of_value value = nsec_of_parts (split_spaces (trim value))
