-- ===== src/Examples/Checks.antt =====
-- The checks of the scripts on concrete records.
use eventflow_kafka_microser.Prelude.{
  refl, ◌∷◌, [], none, some, All, List, String, ℕ, ◌≡◌, ◌↔◌, length, Option, ◌*◌, arith,
}
use eventflow_kafka_microser.Js.Value.{Value, obj, undefined, field, str, get, end, prop}
use eventflow_kafka_microser.Scripts.{each_message, Delivery, strict_equal}
use eventflow_kafka_microser.Js.Io.Laws.{OnOk}
use eventflow_kafka_microser.Scripts.Flows.{is_order_created, is_payment_outcome}
use eventflow_kafka_microser.Scripts.Flows.Services.{
  Checked, Flows, create_order-Checked, create_order-Flows,
}
use eventflow_kafka_microser.Js.Host.{read}
use eventflow_kafka_microser.Examples.Messages.{calm, T0, orders, two_items, table, start_0, start}
use eventflow_kafka_microser.Js.Errors.{ok, ◌>>=◌}
use eventflow_kafka_microser.Examples.Handlers.{transports}
use eventflow_kafka_microser.Scripts.Flows.Passes.{IsPassedOver}
use eventflow_kafka_microser.Orders.Service.{create_order}
use eventflow_kafka_microser.Examples.Journeys.{calm-Generators}
use eventflow_kafka_microser.Scripts.Partitions.{Seen, check_flow}
use eventflow_kafka_microser.Scripts.Partitions.Found.{IsOfOrder, IsShared, check_flow_iff}
use eventflow_kafka_microser.Scripts.Partitions.Placed.{IsPlacedBy}
use eventflow_kafka_microser.Scripts.Scale.{Admin, verify_scale, Group, client_ids}
use eventflow_kafka_microser.Scripts.Scale.Rounds.{Reaches, Distinct, verify_scale_iff}

abbrev elsewhere : Value
elsewhere = obj (field "eventType" (str "order.cancelled") end)

-- A record without a value, and one of another event type.
abbrev others : List Delivery
others =
    record { partition = 0; key = undefined; body = none }
    ∷ record { partition = 1; key = str "order-2"; body = some (ok elsewhere) }
    ∷ []

pass_over_orders : All (IsPassedOver (is_order_created ⦃H = calm⦄)) others
unfolding each_message is_order_created read get prop strict_equal ◌>>=◌
pass_over_orders = (refl, (refl, tt))

pass_over_payments : All (IsPassedOver (is_payment_outcome ⦃H = calm⦄)) others
unfolding each_message is_payment_outcome read get prop strict_equal ◌>>=◌
pass_over_payments = (refl, (refl, tt))

create_order-Checked_example :
    OnOk
      (Checked ⦃H = calm⦄ T0 transports orders others [] 2 two_items start_0)
      (create_order ⦃H = calm⦄ T0 orders two_items start_0)
create_order-Checked_example =
    create_order-Checked ⦃H = calm⦄ T0 transports orders others [] 2 two_items start_0
      pass_over_orders

create_order-Flows_example :
    OnOk
      (Flows ⦃H = calm⦄ T0 transports orders T0 transports table others [] others [] 2 0
        (start [])
        two_items
        start_0)
      (create_order ⦃H = calm⦄ T0 orders two_items start_0)
create_order-Flows_example =
    create_order-Flows ⦃H = calm⦄ T0 transports orders T0 transports table others [] others [] 2 0
      calm-Generators (start []) two_items start_0 pass_over_orders pass_over_payments

-- Two orders, whose records come from two partitions.
abbrev seen_of : String → ℕ → Seen
seen_of id p = record {
  partition = p;
  key = some id;
  order_id = str id;
  event_id = str "4c0f6f0e-9a3b-4d55-8a55-0d8a1b2c3d4e";
}

abbrev two_seen : List Seen
two_seen = seen_of "order-1" 0 ∷ seen_of "order-2" 2 ∷ []

check_flow_iff_example :
    (check_flow ⦃H = calm⦄ 2 3 ("order-1" ∷ "order-2" ∷ []) two_seen ≡ ok tt) ↔ (
      (length two_seen ≡ 2)
      × All (IsOfOrder ⦃H = calm⦄ ("order-1" ∷ "order-2" ∷ []) 3) two_seen
      × IsShared ⦃H = calm⦄ 2 3 two_seen
      × ((place : Option String → ℕ) × IsPlacedBy ⦃H = calm⦄ place two_seen))
check_flow_iff_example = check_flow_iff ⦃H = calm⦄ 2 3 ("order-1" ∷ "order-2" ∷ []) two_seen

-- A broker that lists the group with two members, asked every two seconds.
abbrev two_members : Admin
two_members = record {
  clock = λ n. 2000 * n;
  list_groups = λ n. ok ("eventflow.payment-service" ∷ []);
  describe_groups = λ n. ok (
    some (
        record { client_id = some "payment-1"; member_id = "m1" }
        ∷ record { client_id = some "payment-2"; member_id = "m2" }
        ∷ []),
    "Stable",
  );
}

verify_scale_iff_example :
    (verify_scale ⦃H = calm⦄ two_members "eventflow.payment-service" 2 8 0 ≡ ok tt) ↔ (
      (group : Group) × Reaches ⦃H = calm⦄ two_members "eventflow.payment-service" 2 15000 0 group
      × Distinct (client_ids group.members))
verify_scale_iff_example =
    verify_scale_iff ⦃H = calm⦄ two_members "eventflow.payment-service" 2 (λ n. ground arith) 8 0
      refl refl refl
