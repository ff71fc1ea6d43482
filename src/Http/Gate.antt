-- ===== src/Http/Gate.antt =====
-- What the handlers of internal/httpapi/server.go let through to the store, and what they answer.
use mfd.Prelude.{String, Bool, true, false, ◌≡◌, refl}
use mfd.Http.Handlers.{Route, Request, Decoder, handle, write_error}
use mfd.Http.Serve.{Store, serve}

-- The routes that need the operator's token: all that read or change broker data or orders.
abbrev pub is_operator : Route → Bool
is_operator Route.get_snapshots = true
is_operator Route.post_sync = true
is_operator Route.get_strategies = true
is_operator Route.post_preview = true
is_operator (Route.get_strategy id) = true
is_operator (Route.post_execute id) = true
is_operator (Route.post_reconcile id) = true
is_operator _ = false

-- A request for an operator's route without the token is answered with 401 and never reaches the
-- store, whatever else it holds.
pub handle-unauthorized :
    {S V : Type 0} (json : Decoder) (authorized : String → Bool) (store : Store S V) (route : Route)
    (request : Request) (s : S)
    → is_operator route ≡ true
    → authorized request.operator_token ≡ false
    → serve store (handle json authorized route request) s
      ≡ (write_error 401 "operator_token_required", s)
unfolding handle serve
handle-unauthorized json authorized store Route.get_healthz request s o h = cc
handle-unauthorized json authorized store Route.get_readyz request s o h = cc
handle-unauthorized json authorized store Route.get_metrics request s o h = cc
handle-unauthorized json authorized store Route.get_runs request s o h = cc
handle-unauthorized json authorized store Route.get_operations request s o h = cc
handle-unauthorized json authorized store Route.get_etoro_status request s o h = cc
handle-unauthorized json authorized store Route.post_replays request s o h = cc
handle-unauthorized json authorized store (Route.get_run id) request s o h = cc
handle-unauthorized json authorized store Route.get_snapshots request s o h = rw h refl
handle-unauthorized json authorized store Route.post_sync request s o h = rw h refl
handle-unauthorized json authorized store Route.get_strategies request s o h = rw h refl
handle-unauthorized json authorized store Route.post_preview request s o h = rw h refl
handle-unauthorized json authorized store (Route.get_strategy id) request s o h = rw h refl
handle-unauthorized json authorized store (Route.post_execute id) request s o h = rw h refl
handle-unauthorized json authorized store (Route.post_reconcile id) request s o h = rw h refl
