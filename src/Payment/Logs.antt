-- ===== src/Payment/Logs.antt =====
-- services/payment-service/src/payment/payment-logs.ts: the blocks of text that the payment flow
-- logs. What the logger does with them is left out.
use eventflow_kafka_microser.Prelude.{String, Option, none, some, List, [], ◌∷◌, concat, join}
use eventflow_kafka_microser.Js.Value.{Num}
use eventflow_kafka_microser.Js.Host.{Host, int}
use eventflow_kafka_microser.Js.Text.{trim}

-- `value ?? 'n/a'`
abbrev or_absent : Option String → String
or_absent none = "n/a"
or_absent (some s) = s

-- A block of lines, between the line breaks of the template, trimmed.
unfoldable pub block : List String → String
unfolding concat join
block lines = trim (concat ("\n" ∷ join "\n" lines ∷ "\n" ∷ []))

abbrev line : String → String → String
line label value = concat (label ∷ "=" ∷ value ∷ [])

module _ ⦃H : Host⦄ where
  -- `amount ?? 'n/a'`
  abbrev num_or_absent : Option Num → String
  num_or_absent none = "n/a"
  num_or_absent (some x) = H.print x

  -- `count ?? 0`
  abbrev count_text : Option Num → String
  count_text none = H.print (int 0)
  count_text (some x) = H.print x

  unfoldable pub log_event_received :
      String → String → String → String → Option String → Option Num → String
  unfolding block concat
  log_event_received topic event_type event_id order_id partition_key retry_count = block (
      "[EVENT RECEIVED]"
      ∷ line "topic" topic
      ∷ line "eventType" event_type
      ∷ line "eventId" event_id
      ∷ line "orderId" order_id
      ∷ line "partitionKey" (or_absent partition_key)
      ∷ line "retryCount" (count_text retry_count)
      ∷ [])

  unfoldable pub log_idempotency_skip : String → String → String → String
  unfolding block concat
  log_idempotency_skip reason event_id order_id = block (
      "[IDEMPOTENCY SKIP]"
      ∷ line "reason" reason
      ∷ line "eventId" event_id
      ∷ line "orderId" order_id
      ∷ [])

  unfoldable pub log_retry_scheduled : String → String → Num → Num → Num → String
  unfolding block concat
  log_retry_scheduled event_id order_id attempt max_attempts backoff_ms = block (
      "[PAYMENT RETRY]"
      ∷ line "eventId" event_id
      ∷ line "orderId" order_id
      ∷ line "attempt" (concat (H.print attempt ∷ "/" ∷ H.print max_attempts ∷ []))
      ∷ line "backoffMs" (H.print backoff_ms)
      ∷ [])

  unfoldable pub log_payment_success :
      String → String → Option String → Option Num → Option String → String
  unfolding block concat
  log_payment_success order_id payment_id transaction_id amount currency = block (
      "[PAYMENT SUCCESS]"
      ∷ line "orderId" order_id
      ∷ line "paymentId" payment_id
      ∷ line "status" "approved"
      ∷ line "transactionId" (or_absent transaction_id)
      ∷ line "amount" (num_or_absent amount)
      ∷ line "currency" (or_absent currency)
      ∷ [])

  -- `source ?? 'gateway_simulation'`
  abbrev source_text : Option String → String
  source_text none = "gateway_simulation"
  source_text (some s) = s

  unfoldable pub log_payment_failed :
      String → String → String → Option String → Option String → String
  unfolding block concat
  log_payment_failed order_id payment_id reason failure_type source = block (
      "[PAYMENT FAILED]"
      ∷ line "orderId" order_id
      ∷ line "paymentId" payment_id
      ∷ line "reason" reason
      ∷ line "failureType" (or_absent failure_type)
      ∷ line "source" (source_text source)
      ∷ [])

  unfoldable pub log_payment_started : String → Num → String → Num → String
  unfolding block concat
  log_payment_started order_id amount currency failure_rate = block (
      "[PAYMENT STARTED]"
      ∷ line "orderId" order_id
      ∷ line "amount" (H.print amount)
      ∷ line "currency" currency
      ∷ line "simulatedFailureRate" (H.print failure_rate)
      ∷ line "expectedApprovalRate" (H.print (H.sub (int 1) failure_rate))
      ∷ [])
