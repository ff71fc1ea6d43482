-- ===== src/Http/Tests.antt =====
-- The HTTP interface (internal/httpapi/server.go) on concrete requests.
use text.Mathlib.Text.{◌==◌ as str_eq}
use mfd.Http.Gate.{handle-unauthorized}
use mfd.Http.Identifiers.{key_pattern_lem, new_id-id_pattern}
use mfd.Http.Routes.{handle-IsProper}
use mfd.Http.Patterns.{hex, match_run, new_id, key_pattern, id_pattern, match_segments}
use mfd.Http.Handlers.{Body, write, write_error, Route, handle, Request, Decoder}
use mfd.Http.Proper.{IsProper}
use mfd.Http.Serve.{serve, Store}
use mfd.Prelude.{refl, [], ◌∷◌, ◌≡◌, none, ◌+◌, Bool, ok, some, true, String, List, ℕ}

abbrev no_experiments : Decoder
no_experiments = record {
  first_value = λ body. some body;
  at_end = λ body. true;
  strict = λ body. none;
}

abbrev has_token : String → Bool
has_token token = str_eq token "token"

-- A store that counts what it is asked.
abbrev counting : Store ℕ String
counting = record {
  read_value = λ call n. (ok "value", n + 1);
  enqueue_run = λ key payload n. (ok key, n + 1);
  ready_dependencies = λ n. [];
  read_metrics = λ n. ok "";
}

abbrev some_id : List ℕ
some_id = new_id (record {
  first = (1, 171, 255, 16);
  second = (0, 1);
  third = (2, 3);
  fourth = (4, 5);
  last = (6, 7, 8, 9, 10, 11);
})

abbrev request_with : String → Request
request_with token = record {
  operator_token = token;
  environment = "";
  idempotency_key = [];
  content_type = "";
  content = [];
}

executed :
    serve counting
      (handle no_experiments has_token (Route.post_execute some_id) (request_with "token"))
      4
    ≡ (write 200 (Body.contents "value"), 5)
unfolding serve handle match_segments match_run new_id hex
executed = refl

malformed :
    serve counting
      (handle no_experiments has_token (Route.post_execute (1 ∷ [])) (request_with "token"))
      4
    ≡ (write_error 400 "invalid_decision_id", 4)
unfolding serve handle match_segments match_run
malformed = refl

handle-unauthorized_example :
    serve counting
      (handle no_experiments has_token (Route.post_execute some_id) (request_with "guess"))
      4
    ≡ (write_error 401 "operator_token_required", 4)
handle-unauthorized_example =
    handle-unauthorized no_experiments has_token counting (Route.post_execute some_id)
      (request_with "guess") 4 refl refl

handle-IsProper_example :
    IsProper {V = String} true
      (handle no_experiments has_token (Route.post_execute some_id) (request_with "token"))
handle-IsProper_example =
    handle-IsProper String no_experiments has_token (Route.post_execute some_id)
      (request_with "token")

key_pattern_lem_example :
    match_segments key_pattern (b'k' ∷ b'e' ∷ b'y' ∷ b'-' ∷ b'0' ∷ b'0' ∷ b'0' ∷ b'1' ∷ []) ≡ true
key_pattern_lem_example =
    key_pattern_lem (b'k' ∷ b'e' ∷ b'y' ∷ b'-' ∷ b'0' ∷ b'0' ∷ b'0' ∷ b'1' ∷ [])

new_id-id_pattern_example : match_segments id_pattern some_id ≡ true
new_id-id_pattern_example = new_id-id_pattern (record {
  first = (1, 171, 255, 16);
  second = (0, 1);
  third = (2, 3);
  fourth = (4, 5);
  last = (6, 7, 8, 9, 10, 11);
})
