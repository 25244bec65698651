-- ===== src/Examples/Signing.antt =====
-- Requests to the signer.
use cloistr_signer.Prelude.{
  String, true, false, Option, none, some, List, [], ◌∷◌, ◌≡◌, refl, ◌↔◌, arith,
}
use cloistr_signer.Prelude.Dict.{lookup}
use cloistr_signer.Storage.Types.{Permission}
use cloistr_signer.Storage.Grants.{get_permission, check_grant, grants_of}
use cloistr_signer.Storage.Grants.View.{grant}
use cloistr_signer.Storage.Grants.Access.{IsLive}
use cloistr_signer.Signer.Types.{Signer, done, result, error, grant_expired}
use cloistr_signer.Signer.Sign.{
  is_frost_user, key_is_disposable, handle_sign_event, handle_batch_sign, screen_event,
  kind_allowed, sign_as, sign_each,
}
use cloistr_signer.Signer.Sign.Sound.{
  IsSigned, EachSigned, handle_sign_event_sound, handle_batch_sign_sound,
}
use cloistr_signer.Signer.Authorize.{is_method_allowed, allows_method, should_require_approval}
use cloistr_signer.Signer.Authorize.Methods.{Permits, is_method_allowed_iff}
use cloistr_signer.Signer.Request.{handle_request, answer, switch_method, answer_method}
use cloistr_signer.Signer.Request.Proxy.{handle_request-proxy}
use cloistr_signer.Signer.Handle.{should_proxy_method}
use cloistr_signer.Signer.Approval.{
  answered, polled, approved, wait_for_authorization, handle_pending_approval, to_reply,
}
use cloistr_signer.Signer.Approval.Decided.{ApprovedBy, wait_approved_iff, poll_approves}
use cloistr_signer.Signer.Process.{
  Arrival, Clock, dispatch, process_request, process_granted, serve, run_request,
}
use cloistr_signer.Signer.Process.Authorised.{
  IsAuthorised, dispatch_result-IsAuthorised, dispatch_lapsed,
}
use cloistr_signer.Examples.{
  table, a_grant, an_expiring_grant, one_grant, a_library, a_signer, a_request,
}

abbrev clock : Clock
clock = record {
  looked_up = 20;
  tested = 20;
  marked = 20;
  created = 20;
  stored = 20;
  policy = 20;
  session_from = 20;
  session_to = 20;
  used = 21;
}

abbrev arrival : Signer → Arrival
arrival s = record {
  target = "k1";
  priv = "priv";
  client = "alice";
  req = a_request "sign_event";
  clock = clock;
  events = [];
  resumed = s;
}

abbrev served : Signer
served = a_signer (one_grant (a_grant "alice"))

served_result : (dispatch a_library (arrival served) served).1 ≡ some (result "hello")
unfolding dispatch get_permission check_grant lookup grants_of process_request process_granted
    is_method_allowed allows_method should_require_approval serve run_request handle_request answer
    switch_method answer_method handle_sign_event screen_event kind_allowed key_is_disposable
    is_frost_user sign_as
served_result = refl

dispatch_result-IsAuthorised_example : IsAuthorised (arrival served) served
dispatch_result-IsAuthorised_example =
    dispatch_result-IsAuthorised a_library (arrival served) served "hello" served_result

abbrev late : Signer
late = a_signer (one_grant an_expiring_grant)

late_grant : grant late.grants "k1" "alice" ≡ some an_expiring_grant
unfolding grants_of lookup
late_grant = refl

late_not_IsLive : ¬ IsLive 20 an_expiring_grant
late_not_IsLive l = let bad = l.in_time 10 refl in omega arith

key_kept : lookup "k1" late.key_table.keys_by_pubkey ≡ some 0
unfolding lookup
key_kept = refl

dispatch_lapsed_example :
    dispatch a_library (arrival late) late ≡ (late, some (error grant_expired))
dispatch_lapsed_example =
    dispatch_lapsed a_library (arrival late) late an_expiring_grant 0 late_grant late_not_IsLive
      key_kept

own_key : is_frost_user (table false) "k1" ≡ false
unfolding is_frost_user lookup
own_key = refl

signed_event :
    handle_sign_event a_library (table false) "k1" "priv" "alice" ("event" ∷ []) (a_grant "alice")
    ≡ done "hello"
unfolding handle_sign_event screen_event kind_allowed key_is_disposable lookup is_frost_user sign_as
signed_event = refl

handle_sign_event_sound_example :
    (param : String) × (rest : List String) × ("event" ∷ [] ≡ param ∷ rest)
    × IsSigned a_library
        (key_is_disposable (table false) "k1")
        "k1"
        "priv"
        (a_grant "alice")
        param
        "hello"
handle_sign_event_sound_example =
    handle_sign_event_sound a_library (table false) "k1" "priv" (a_grant "alice") "alice"
      ("event" ∷ []) "hello" own_key signed_event

signed_batch :
    handle_batch_sign a_library (table false) "k1" "priv" ("event" ∷ "event" ∷ []) (a_grant "alice")
    ≡ done "batch"
unfolding handle_batch_sign sign_each screen_event kind_allowed key_is_disposable lookup sign_as
signed_batch = refl

handle_batch_sign_sound_example :
    (texts : List String) × (a_library.marshal_batch texts ≡ some "batch")
    × EachSigned a_library
        (key_is_disposable (table false) "k1")
        "k1"
        "priv"
        (a_grant "alice")
        ("event" ∷ "event" ∷ [])
        texts
handle_batch_sign_sound_example =
    handle_batch_sign_sound a_library (table false) "k1" "priv" (a_grant "alice")
      ("event" ∷ "event" ∷ []) "batch" signed_batch

is_method_allowed_iff_example :
    (is_method_allowed (a_grant "alice") "sign_event" ≡ true)
    ↔ Permits (a_grant "alice").methods "sign_event"
is_method_allowed_iff_example = is_method_allowed_iff (a_grant "alice") "sign_event"

wait_approved_iff_example :
    ((sent : Option Permission) × (wait_for_authorization "k1" "bob" none
          (polled 9 [] ∷ answered true ∷ [])
        ≡ approved sent))
    ↔ ApprovedBy "k1" "bob" (polled 9 [] ∷ answered true ∷ [])
wait_approved_iff_example = wait_approved_iff "k1" "bob" none (polled 9 [] ∷ answered true ∷ [])

-- A grant that asks for approval of each request.
abbrev watched : Permission
watched = record (a_grant "alice") { require_approval = some true }

none_stored : (p : Permission) → grant [] "k1" "alice" ≡ some p → ¬ IsLive 21 p
unfolding grants_of lookup
none_stored p found = absurd (cc)

watched_stored : grant (one_grant watched) "k1" "alice" ≡ some watched
unfolding grants_of lookup
watched_stored = refl

watched-IsLive : IsLive 22 watched
watched-IsLive = record { unrevoked = refl; in_time = λ t e. absurd (cc) }

poll_approves_example :
    handle_pending_approval a_library 20 20 20 "k1" "priv" "alice"
      (a_request "sign_event")
      (some watched)
      (polled 21 [] ∷ polled 22 (one_grant watched) ∷ answered false ∷ [])
      served
    ≡ (let (s', outcome) =
          handle_request a_library 20 20 20 "k1" "priv" "alice"
            (a_request "sign_event")
            watched
            served in
        (s', to_reply outcome))
poll_approves_example =
    poll_approves a_library 20 20 20 "k1" "priv" "alice" (a_request "sign_event") (some watched)
      (polled 21 [] ∷ []) 22 (one_grant watched) (answered false ∷ []) served watched
      (none_stored, tt) watched_stored watched-IsLive

abbrev standing_in : Signer
standing_in = record served { proxy_keys = ("k1", "bunker://k9") ∷ [] }

stands_in : lookup "k1" standing_in.proxy_keys ≡ some "bunker://k9"
unfolding lookup
stands_in = refl

forwards : should_proxy_method "sign_event" ≡ true
unfolding should_proxy_method
forwards = refl

handle_request-proxy_example :
    handle_request a_library 20 20 20 "k1" "priv" "alice"
      (a_request "sign_event")
      (record (a_grant "alice") { allowed_kinds = 7 ∷ [] })
      standing_in
    ≡ handle_request a_library 20 20 20 "k1" "priv" "alice"
        (a_request "sign_event")
        (record (a_grant "alice") { allowed_kinds = 1 ∷ [] })
        standing_in
handle_request-proxy_example =
    handle_request-proxy a_library "k1" "priv" "alice" "bunker://k9" (a_request "sign_event")
      standing_in stands_in forwards 20 20 20 (record (a_grant "alice") { allowed_kinds = 7 ∷ [] })
      (1 ∷ [])
