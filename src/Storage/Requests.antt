-- ===== src/Storage/Requests.antt =====
-- internal/storage/storage.go: pending authorization requests and NIP-46 sessions in
-- `MemoryStorage`, each held by one map.
use cloistr_signer.Prelude.{
  String, ◌&&◌, none, some, List, if◌then◌else◌, ltb, not, str_eq, [], ◌∷◌,
}
use cloistr_signer.Prelude.Dict.{Dict, lookup, delete, insert, retain, values}
use cloistr_signer.Storage.Types.{
  Time, request_not_found, request_expired, session_not_found, Result, ok, err, PendingRequest,
  Session,
}

unfoldable pub create_pending_request : PendingRequest → Dict PendingRequest → Dict PendingRequest
create_pending_request req m = insert req.id req m

unfoldable pub get_pending_request : Time → String → Dict PendingRequest → Result PendingRequest
get_pending_request now id m = elim (lookup id m) [
  | none ↦ err request_not_found
  | some req ↦ if ltb req.expires_at now then err request_expired else ok req
]

unfoldable pub list_pending_requests : Time → String → Dict PendingRequest → List PendingRequest
list_pending_requests now key_pubkey m =
    values (λ _ req. str_eq req.key_pubkey key_pubkey && ltb now req.expires_at) m

unfoldable pub delete_pending_request : String → Dict PendingRequest → Dict PendingRequest
delete_pending_request id m = delete id m

unfoldable pub clean_expired_requests : Time → Dict PendingRequest → Dict PendingRequest
clean_expired_requests now m = retain (λ _ req. not (ltb req.expires_at now)) m

unfoldable pub create_session : Session → Dict Session → Dict Session
create_session session m = insert session.id session m

unfoldable pub get_session : Time → String → Dict Session → Result Session
get_session now id m = elim (lookup id m) [
  | none ↦ err session_not_found
  | some session ↦ if ltb session.expires_at now then err session_not_found else ok session
]

-- The first entry of the range that matches and has not expired.
unfoldable pub get_session_by_client : Time → String → String → Dict Session → Result Session
get_session_by_client now key_id client_pubkey [] = err session_not_found
get_session_by_client now key_id client_pubkey ((_, session) ∷ m) =
    let rest = get_session_by_client now key_id client_pubkey m in
    if str_eq session.key_id key_id && str_eq session.client_pubkey client_pubkey
    then (if ltb session.expires_at now then rest else ok session)
    else rest

unfoldable pub delete_session : String → Dict Session → Dict Session
delete_session id m = delete id m

unfoldable pub clean_expired_sessions : Time → Dict Session → Dict Session
clean_expired_sessions now m = retain (λ _ session. not (ltb session.expires_at now)) m
