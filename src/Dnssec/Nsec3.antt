-- ===== src/Dnssec/Nsec3.antt =====
-- packages/core/src/dnssec/nsec3.ts: the NSEC3 and NSEC3PARAM handlers. SHA-1 is the parameter
-- `sha1`: the hash of all octets passed to `update`, in order.
use dnsdata_js.Base.{
  ℕ, zero, suc, ◌+◌, ◌%◌, Bool, true, false, ◌&&◌, ◌||◌, not, if◌then◌else◌, List, [], ◌∷◌, ◌++◌,
  ◌==◌, length,
}
use dnsdata_js.Base.Text.{Text, to_lower}
use dnsdata_js.Base.Slices.{Bytes}
use dnsdata_js.Base.Order.{Sign, less, equal, greater, sign_of_sub}
use dnsdata_js.Base.Result.{Result, ok, err, plain_error, throw_if, ◌>>=◌, ◌>>◌}
use dnsdata_js.Wire.Builder.{WireBuilder, append_uint8, append_uint16, append_bytes}
use dnsdata_js.Wire.Name.{domain_name2wire}
use dnsdata_js.Dnssec.Denial.{covers}
use dnsdata_js.Dnssec.Nsec.{proves_no_data, proves_no_ds, covers_type}
pub mod Laws

pub record Nsec3 : Type 0 where
  pub hash_algorithm : ℕ
  pub flags : ℕ
  pub iterations : ℕ
  pub salt : Bytes
  pub next_hashed_owner : Bytes
  pub type_bitmap : Bytes
  pub covered_types : List ℕ

-- The loop over the common length, then the lengths.
unfoldable pub bytes_compare : Bytes → Bytes → Sign
unfolding sign_of_sub
bytes_compare [] b = sign_of_sub 0 (length b)
bytes_compare (x ∷ a) [] = sign_of_sub (length (x ∷ a)) 0
bytes_compare (x ∷ a) (y ∷ b) =
    let c = sign_of_sub x y in
    let rest = bytes_compare a b in elim c [ equal ↦ rest | less ↦ less | greater ↦ greater ]

unfoldable pub has_opt_out : Nsec3 → Bool
has_opt_out n = not (n.flags % 2 == 0)

unfoldable pub covers_hash : Nsec3 → Bytes → Bytes → Bool
unfolding covers bytes_compare
covers_hash n owner_hash target = covers bytes_compare owner_hash n.next_hashed_owner target

module _ (sha1 : Bytes → Bytes) where
  -- The loop of `compute_hash`.
  unfoldable pub rehash : ℕ → Bytes → Bytes → Bytes
  rehash zero salt digest = digest
  rehash (suc iterations) salt digest = rehash iterations salt (sha1 (digest ++ salt))

  unfoldable pub compute_hash : Text → ℕ → ℕ → Bytes → Result Bytes
  unfolding rehash
  compute_hash name algorithm iterations salt =
      throw_if (not (algorithm == 1)) plain_error
      >> domain_name2wire (to_lower name)
      >>= λ name_wire. ok (rehash iterations salt (sha1 (name_wire ++ salt)))

unfoldable pub get_wire_body : Nsec3 → WireBuilder → WireBuilder
unfolding append_uint8 append_uint16 append_bytes
get_wire_body n builder = append_bytes n.type_bitmap (
    append_bytes n.next_hashed_owner (
      append_uint8 (length n.next_hashed_owner) (
        append_bytes n.salt (
          append_uint8 (length n.salt) (
            append_uint16 n.iterations (
              append_uint8 n.flags (
                append_uint8 n.hash_algorithm (
                  append_uint16
                    (6 + length n.salt + length n.next_hashed_owner + length n.type_bitmap)
                    builder))))))))

pub record Nsec3Param : Type 0 where
  pub hash_algorithm : ℕ
  pub flags : ℕ
  pub iterations : ℕ
  pub salt : Bytes

unfoldable pub get_wire_body_param : Nsec3Param → WireBuilder → WireBuilder
unfolding append_uint8 append_uint16 append_bytes
get_wire_body_param n builder = append_bytes n.salt (
    append_uint8 (length n.salt) (
      append_uint16 n.iterations (
        append_uint8 n.flags
          (append_uint8 n.hash_algorithm (append_uint16 (5 + length n.salt) builder)))))
