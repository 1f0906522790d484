-- ===== src/Payment/Idempotency.antt =====
-- services/payment-service/src/idempotency: processed-events.service.ts and the entity it stores.
-- The table is that of TypeORM, which is a parameter: `ProcessedEventRepository`.
use eventflow_kafka_microser.Js.Io.{◌>>=◌, Io, gets, throw, draw, modify}
use eventflow_kafka_microser.Prelude.{String, Bool, Option, true, ℕ, some, false, ltb, none}
use eventflow_kafka_microser.Events.Types.{EventType}
use eventflow_kafka_microser.Js.Errors.{Thrown}

pub data ProcessedEventOutcome : Type 0 where
  approved failed skipped_duplicate_order : ProcessedEventOutcome

pub record ProcessedEvent : Type 0 where
  pub inbound_event_id : String
  pub event_type : EventType
  pub order_id : String
  pub payment_id : Option String
  pub outcome : ProcessedEventOutcome

abbrev pub is_approved : ProcessedEventOutcome → Bool
is_approved approved = true
is_approved _ = false

-- `Repository<ProcessedEventEntity>` as far as the service calls it. `save` inserts the row, or
-- replaces that of the same primary key, unless the database refuses: `save_error` is its answer at
-- the given call.
pub record ProcessedEventRepository (Db : Type 0) : Type 0 where
  -- `findOne({ where: { inboundEventId } })`
  pub find_by_event : Db → String → Option ProcessedEvent
  -- `findOne({ where: { orderId, outcome: 'approved' } })`
  pub find_approved : Db → String → Option ProcessedEvent
  -- `count({ where: { inboundEventId } })`, `count({ where: { orderId, outcome: 'approved' } })`
  pub count_by_event : Db → String → ℕ
  pub count_approved : Db → String → ℕ
  pub save : Db → ProcessedEvent → Db
  pub save_error : ℕ → ProcessedEvent → Option Thrown

-- `IdempotencyCheckResult`
pub data IdempotencyCheckResult : Type 0 where
  new : IdempotencyCheckResult
  duplicate_event duplicate_order : ProcessedEvent → IdempotencyCheckResult

module _ {Db : Type 0} (repository : ProcessedEventRepository Db) where
  unfoldable pub is_inbound_event_processed : String → Io Db Bool
  is_inbound_event_processed inbound_event_id =
      gets (λ db. ltb 0 (repository.count_by_event db inbound_event_id))

  unfoldable pub has_approved_payment_for_order : String → Io Db Bool
  has_approved_payment_for_order order_id =
      gets (λ db. ltb 0 (repository.count_approved db order_id))

  abbrev by_order : Option ProcessedEvent → IdempotencyCheckResult
  by_order none = new
  by_order (some r) = duplicate_order r

  abbrev by_event : Option ProcessedEvent → IdempotencyCheckResult → IdempotencyCheckResult
  by_event none rest = rest
  by_event (some r) rest = duplicate_event r

  unfoldable pub check : Db → String → String → IdempotencyCheckResult
  check db inbound_event_id order_id =
      by_event (repository.find_by_event db inbound_event_id)
        (by_order (repository.find_approved db order_id))

  unfoldable pub check_order_created : String → String → Io Db IdempotencyCheckResult
  check_order_created inbound_event_id order_id = gets (λ db. check db inbound_event_id order_id)

  abbrev pub saved : ProcessedEvent → Option Thrown → Io Db (Unit {0})
  saved row none = modify (λ db. repository.save db row)
  saved row (some e) = throw e

  unfoldable pub record_processed : ProcessedEvent → Io Db (Unit {0})
  record_processed row = do refused ← draw (λ n. repository.save_error n row); saved row refused
