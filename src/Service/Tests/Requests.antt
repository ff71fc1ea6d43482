-- ===== src/Service/Tests/Requests.antt =====
-- Requests to internal/httpapi/server.go on concrete inputs: an operator synchronises, previews and
-- executes; another client guesses the token.
use mfd.Prelude.{none, some, List, [], ◌∷◌, String, ℕ, ◌≡◌, refl, ok, All, true, ◌+◌}
use mfd.Http.Handlers.{Route, Request, Decoder, handle}
use mfd.Http.Patterns.{match_segments, match_run, new_id, hex}
use mfd.Http.Serve.{Store, serve}
use mfd.Broker.Status.{
  sync, status, authorized, is_configured, status_row, latest_first, insert_latest,
}
use mfd.Broker.Sync.{
  sync_environment, sync_demo_after_order, record_success, sync_client, sync_configured_slot,
}
use mfd.Broker.Records.{valid_broker_environment}
use mfd.Service.Calls.{Rest, sync_next}
use mfd.Service.Safety.{IsSafe}
use mfd.Service.Platform.{
  Outside, Written, Texts, Platform, answer_requests, platform_call, service_answer,
}
use mfd.Service.Requests.{answer_requests-IsSafe, RequestIsHonest}
use mfd.Service.Tests.{
  parse, first_round, idle_session, opened-Consistent, opened-IsSpaced, reads-ReadIsHonest,
  answers-IsHonest,
}
use mfd.Demo.Lookup.{lookup_demo_order_with_fallback, demo_lookup_state}
use mfd.Demo.Reconcile.{
  reconciled_state, sync_after, mark_demo_unknown, apply_lookup, on_reply, demo_reconcile,
}
use mfd.Demo.Execute.{submit_outcome, record_submit, launch, hold_demo, execute_plan, demo_execute}
use mfd.Demo.Transactions.{unknown_tx, lookup_tx, submit_tx, intent_tx, hold_tx, preview_tx}
use mfd.Demo.Reads.{demo_run, insert_event, order_events, save_preview, demo_preview}
use mfd.Prelude.Int.{ℤ, pos, ◌+ℤ◌, ◌-ℤ◌}
use mfd.Decimal.Whole.{whole}
use mfd.Demo.Records.{Bytes}
use mfd.Demo.Session.{transact, raise, pure, query, ◌>>=◌, Session}
use mfd.Demo.Fixture.{client, clocks, passed, receipt, seal, digest}
use mfd.Demo.Lifecycle.Operations.{perform}
use mfd.Demo.Tables.{add_demo_event, save_artifacts, save_artifact, update_run, insert_run}
use mfd.Broker.Store.{insert_snapshot, persist_tx, persist}
use mfd.Broker.Sessions.{broker_call}

abbrev no_experiments : Decoder
no_experiments = record {
  first_value = λ body. some body;
  at_end = λ body. true;
  strict = λ body. none;
}

abbrev counted : Store ℕ String
counted = record {
  read_value = λ call n. (ok "value", n + 1);
  enqueue_run = λ key payload n. (ok key, n + 1);
  ready_dependencies = λ n. [];
  read_metrics = λ n. ok "";
}

abbrev texts : Texts
texts = record { id_of = λ id. 7; key_of = λ key. "key" }

abbrev words : Written ℤ String
words = record {
  decision = λ view. "decision";
  decisions = λ views. "decisions";
  snapshots = λ items. "snapshots";
  status = λ row. "status";
  overview = λ rows. "overview";
}

abbrev decision_id : List ℕ
decision_id = new_id (record {
  first = (1, 171, 255, 16);
  second = (0, 1);
  third = (2, 3);
  fourth = (4, 5);
  last = (6, 7, 8, 9, 10, 11);
})

abbrev request_with : String → Request
request_with token = record {
  operator_token = token;
  environment = "demo";
  idempotency_key = b'k' ∷ b'e' ∷ b'y' ∷ b'-' ∷ b'0' ∷ b'0' ∷ b'0' ∷ b'1' ∷ [];
  content_type = "";
  content = [];
}

abbrev outside : Outside ℤ
outside = record {
  fresh = 7;
  now = pos 0;
  db_now = pos 1;
  clocks = clocks;
  evaluation = passed;
  reply = receipt;
  lookups = λ c. client;
  round = first_round;
}

abbrev platform : Platform ℤ Bytes ℕ
platform = record { jobs = 0; broker = some idle_session }

abbrev operator : Request
operator = request_with "0123456789abcdef0123456789abcdef"

abbrev requests : List (Outside ℤ × (Route × Request))
requests =
    (outside, (Route.post_sync, operator))
    ∷ (outside, (Route.post_preview, operator))
    ∷ (outside, (Route.post_execute decision_id, request_with "guess"))
    ∷ (outside, (Route.post_execute decision_id, operator))
    ∷ (outside, (Route.post_execute decision_id, operator))
    ∷ []

requests-RequestIsHonest : All (RequestIsHonest parse) requests
requests-RequestIsHonest = (
  answers-IsHonest,
  (answers-IsHonest, (answers-IsHonest, (answers-IsHonest, (answers-IsHonest, tt)))),
)

abbrev after_requests : Platform ℤ Bytes ℕ
after_requests =
    answer_requests whole seal seal digest parse texts words counted no_experiments requests
      platform

abbrev posts_of : Platform ℤ Bytes ℕ → List ℕ
posts_of p = elim p.broker [ none ↦ [] | some s ↦ s.posts ]

-- One order was posted, of the three requests to execute.
after_requests-posts : posts_of after_requests ≡ 7 ∷ []
unfolding answer_requests serve handle match_segments match_run new_id hex platform_call
    service_answer sync valid_broker_environment sync_environment status authorized is_configured
    status_row latest_first insert_latest sync_next broker_call sync_configured_slot sync_client
    record_success persist persist_tx insert_snapshot sync_demo_after_order perform demo_preview
    save_preview preview_tx insert_run order_events insert_event demo_execute ◌>>=◌ demo_run query
    pure raise transact execute_plan hold_demo launch record_submit submit_outcome hold_tx intent_tx
    submit_tx lookup_tx unknown_tx update_run save_artifact save_artifacts add_demo_event
    demo_reconcile on_reply apply_lookup mark_demo_unknown sync_after reconciled_state
    demo_lookup_state lookup_demo_order_with_fallback ◌+ℤ◌ ◌-ℤ◌
after_requests-posts = refl

answer_requests-IsSafe_example :
    (t : Session ℤ Bytes (Rest ℤ Bytes)) × (after_requests.broker ≡ some t)
    × IsSafe whole seal digest parse idle_session t
answer_requests-IsSafe_example =
    answer_requests-IsSafe whole seal seal digest parse texts words counted no_experiments requests
      platform idle_session refl requests-RequestIsHonest reads-ReadIsHonest opened-Consistent
      opened-IsSpaced refl refl refl
