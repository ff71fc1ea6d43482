-- ===== src/Etoro/Orders.antt =====
-- SubmitDemoMarket, LookupDemoOrder and LookupDemoOrderByID (internal/etoro/trading.go). An identifier
-- of a request is a number; encoding/json is an argument.
use mfd.Etoro.Wire.{
  Endpoint, request, after_request, failed_with, Answer, Client, HttpResponse, HttpRequest,
  ClientError, GoText,
}
use mfd.Prelude.{
  ℕ, String, Bool, false, not, ◌||◌, Option, none, some, List, [], ◌==◌, Result, ok, err,
  if◌then◌else◌, fail_if, ◌>>◌, ◌>>=◌, keep, map,
}
use mfd.Prelude.Int.{ℤ, pos, ltb_ℤ, pos_part}
use mfd.Demo.Records.{Bytes}
use mfd.Demo.Transactions.{OrderLookup}
use mfd.Etoro.Market.{or_schema}

-- What the responses are decoded into. A reference is a request identifier, if it is the text of one.
pub record ReceiptData : Type 0 where
  pub order_id : ℤ
  pub reference_id : Option ℕ

-- A status' raw error code: missing or null, a text, a number, or neither.
pub data ErrorCode : Type 0 where
  no_code bad_code : ErrorCode
  code_text code_number : String → ErrorCode

pub record LookupData : Type 0 where
  pub order_id : ℤ
  pub status_id : ℤ
  pub status_name : String
  pub error_code : ErrorCode
  pub error_message : String
  pub executions : List ℤ

pub record OrdersJson : Type 0 where
  pub receipt : Bytes → Option ReceiptData
  pub lookup : Bytes → Option LookupData

pub record OrderReceipt : Type 0 where
  pub order_id : ℕ
  pub reference_id : ℕ

abbrev pub refers_to : Option ℕ → ℕ → Bool
refers_to none id = false
refers_to (some reference) id = reference == id

abbrev pub read_error_code : ErrorCode → Result ClientError String
read_error_code ErrorCode.no_code = ok ""
read_error_code ErrorCode.bad_code = err ClientError.schema_failure
read_error_code (ErrorCode.code_text code) = ok code
read_error_code (ErrorCode.code_number code) = ok code

abbrev pub is_positive_id : ℤ → Bool
is_positive_id id = ltb_ℤ (pos 0) id

module _ (json : OrdersJson) where
  unfoldable pub read_receipt : ℕ → Bytes → Result ClientError OrderReceipt
  read_receipt request_id raw = do
    answer ← or_schema (json.receipt raw)
    fail_if (not (is_positive_id answer.order_id) || not (refers_to answer.reference_id request_id))
        ClientError.schema_failure
    ok (record { order_id = pos_part answer.order_id; reference_id = request_id })

  unfoldable pub read_lookup : Bytes → Result ClientError OrderLookup
  read_lookup raw = do
    answer ← or_schema (json.lookup raw)
    fail_if (not (is_positive_id answer.order_id) || not (is_positive_id answer.status_id))
        ClientError.schema_failure
    code ← read_error_code answer.error_code
    ok (record {
      order_id = pos_part answer.order_id;
      status_id = pos_part answer.status_id;
      status_name = answer.status_name;
      error_code = code;
      error_message = answer.error_message;
      position_ids = map pos_part (keep is_positive_id answer.executions);
    })

module _ {D : Type 0} (text : GoText) (json : OrdersJson)
    (send : HttpRequest D → Option HttpResponse) (client : Client) where
  unfoldable pub submit_demo_market : ℕ → ℕ → D → Answer OrderReceipt
  submit_demo_market request_id instrument_id amount =
      after_request
        (request text send client (Endpoint.demo_order instrument_id amount) (some request_id))
        (read_receipt json request_id)

  unfoldable pub lookup_demo_order : ℕ → Answer OrderLookup
  lookup_demo_order reference_id =
      after_request (request text send client (Endpoint.lookup_by_reference reference_id) none)
        (read_lookup json)

  unfoldable pub lookup_demo_order_by_id : ℕ → Answer OrderLookup
  lookup_demo_order_by_id order_id =
      if order_id == 0
      then failed_with [] 0 ClientError.order_id_required
      else after_request (request text send client (Endpoint.lookup_by_order order_id) none)
          (read_lookup json)
