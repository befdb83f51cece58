-- ===== src/Node/Refusal.antt =====
-- Why a dial did not come to a connection, and why a link ended: `ConnectError` in
-- crates/zyris-core/src/error.rs, `Ending` in crates/zyris-core/src/node.rs.
use zyris_protocol.Prelude.{ℕ, ◌≡◌, refl, Bool, true, false, Option, none, some, Text}
use zyris_protocol.Proto.Error.{WireError, unauthorized, unsupported_version}
use zyris_protocol.Proto.Envelope.{protocol_major}

pub data TransportError : Type 0 where
  closed : TransportError
  io : Text → TransportError

pub data ConnectError : Type 0 where
  revoked unauthorized_token no_tls_provider : ConnectError
  version_mismatch : Text → Option Text → ConnectError
  unreachable : TransportError → ConnectError

-- `digits` writes a number; `peer_major` is the major version read out of the payload.
module _ (digits : ℕ → Text) (peer_major : WireError → Option Text) where
  -- `From<WireError> for ConnectError`.
  unfoldable pub from_wire : WireError → ConnectError
  from_wire error = elim error.code [
    | unauthorized ↦ unauthorized_token
    | unsupported_version ↦ version_mismatch (digits protocol_major) (peer_major error)
    | _ ↦ unreachable (io error.message)
  ]

unfoldable pub is_fatal : ConnectError → Bool
is_fatal (unreachable inner) = false
is_fatal _ = true

pub data Ending : Type 0 where
  asked ending_revoked ending_unauthorized ending_no_tls_provider : Ending
  ending_version : Text → Option Text → Ending
  ending_unreachable : TransportError → Ending

-- `Ending::of`.
unfoldable pub ending_of : ConnectError → Ending
ending_of revoked = ending_revoked
ending_of unauthorized_token = ending_unauthorized
ending_of (version_mismatch ours theirs) = ending_version ours theirs
ending_of (unreachable inner) = ending_unreachable inner
ending_of no_tls_provider = ending_no_tls_provider

-- `Ending::into_result`: `none` is `Ok(())`.
unfoldable pub into_result : Ending → Option ConnectError
into_result asked = none
into_result ending_revoked = some revoked
into_result ending_unauthorized = some unauthorized_token
into_result (ending_version ours theirs) = some (version_mismatch ours theirs)
into_result (ending_unreachable inner) = some (unreachable inner)
into_result ending_no_tls_provider = some no_tls_provider

pub into_result-ending_of : (e : ConnectError) → into_result (ending_of e) ≡ some e
unfolding into_result ending_of
into_result-ending_of revoked = refl
into_result-ending_of unauthorized_token = refl
into_result-ending_of (version_mismatch ours theirs) = refl
into_result-ending_of (unreachable inner) = refl
into_result-ending_of no_tls_provider = refl
