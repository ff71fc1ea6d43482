-- ===== src/Demo/Lookup.antt =====
-- demoLookupState and lookupDemoOrderWithFallback (internal/platform/demo_strategy.go).
use Prim.Native.String.{◌++◌ as concat}
use text.Mathlib.Text.{◌==◌ as str_eq}
use mfd.Prelude.{
  ℕ, String, Bool, true, false, not, ◌&&◌, ◌||◌, Option, none, some, length, ◌==◌, if◌then◌else◌,
  Result, err,
}
use mfd.Demo.Records.{Bytes, RunStatus}
use mfd.Demo.Transactions.{OrderLookup}

-- `case 3`: the order is filled.
on_filled : OrderLookup → RunStatus × String
on_filled lookup =
    if length lookup.position_ids == 0
    then (
      RunStatus.unknown,
      "Broker reported Filled without a position ID; manual reconciliation required.",
    )
    else (
      RunStatus.filled, "Broker lookup confirmed a filled Demo order and returned its position ID.",
    )

-- `case 4`: the order was rejected.
on_rejected : OrderLookup → RunStatus × String
on_rejected lookup =
    if not (length lookup.position_ids == 0)
    then (
      RunStatus.unknown,
      "Broker reported rejection with position executions; manual reconciliation required.",
    )
    else (
      RunStatus.rejected,
      if not (str_eq lookup.error_code "") && not (str_eq lookup.error_code "0")
          then concat "Broker lookup confirmed the Demo order was rejected."
              (concat " eToro error code: " (concat lookup.error_code "."))
          else "Broker lookup confirmed the Demo order was rejected.",
    )

unfoldable pub demo_lookup_state : OrderLookup → RunStatus × String
unfolding on_filled on_rejected
demo_lookup_state lookup =
    if s == 3
    then on_filled lookup
    else if s == 5 || s == 10
    then (
      RunStatus.partially_filled,
      "Broker lookup reported a partial fill; further reconciliation is required.",
    )
    else if s == 4
    then on_rejected lookup
    else if s == 1 || s == 2 || s == 11 || s == 12
    then (RunStatus.accepted, "Broker lookup shows the Demo order is still in flight.")
    else (
      RunStatus.unknown,
      "Broker returned an unrecognized order status; manual reconciliation required.",
    )
  where
    s : ℕ
    s = lookup.status_id

-- Why a lookup gave no answer: the provider's status code, or anything else.
pub data LookupFailure : Type 0 where
  api_error : ℕ → LookupFailure
  other_failure : LookupFailure

pub record LookupReply : Type 0 where
  pub raw : Bytes
  pub http_status : ℕ
  pub result : Result LookupFailure OrderLookup

-- The Demo client, as the lookups use it: LookupDemoOrder and LookupDemoOrderByID.
pub record LookupClient : Type 0 where
  pub by_reference : ℕ → LookupReply
  pub by_order_id : ℕ → LookupReply

abbrev pub is_missing : Result LookupFailure OrderLookup → Bool
is_missing (err (LookupFailure.api_error n)) = n == 404
is_missing _ = false

-- The reply, and whether it came by the order ID.
unfoldable pub lookup_demo_order_with_fallback : LookupClient → ℕ → Option ℕ → LookupReply × Bool
lookup_demo_order_with_fallback c reference_id none = (c.by_reference reference_id, false)
lookup_demo_order_with_fallback c reference_id (some order_id) =
    if is_missing (c.by_reference reference_id).result
    then (c.by_order_id order_id, true)
    else (c.by_reference reference_id, false)
