-- ===== src/Http/Serve.antt =====
-- The interface Store of internal/httpapi/server.go, and a request's way through a handler.
use mfd.Prelude.{ℕ, String, Bool, List, Result}
use mfd.Lab.Records.{Experiment}
use mfd.Http.Handlers.{StoreError, Call, HttpHandler, Response}

-- The store's methods, over its state.
pub record Store (S V : Type 0) : Type 0 where
  pub read_value : Call → S → Result StoreError V × S
  pub enqueue_run : List ℕ → Experiment → S → Result StoreError (List ℕ) × S
  pub ready_dependencies : S → List (String × Bool)
  pub read_metrics : S → Result StoreError String

abbrev pub answer_with : {R W S : Type 0} → (R → W) → R × S → W × S
answer_with answer (reply, s) = (answer reply, s)

unfoldable pub serve : {S V : Type 0} → Store S V → HttpHandler V → S → Response V × S
serve store (HttpHandler.respond response) s = (response, s)
serve store (HttpHandler.ask_value call answer) s = answer_with answer (store.read_value call s)
serve store (HttpHandler.ask_enqueue key payload answer) s =
    answer_with answer (store.enqueue_run key payload s)
serve store (HttpHandler.ask_ready answer) s = (answer (store.ready_dependencies s), s)
serve store (HttpHandler.ask_metrics answer) s = (answer (store.read_metrics s), s)
