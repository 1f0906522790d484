-- ===== src/Examples/Duplicates.antt =====
-- A record whose acknowledgement is lost twice, and which the producer publishes again.
use eventflow_kafka_microser.Prelude.{◌≡◌, refl, ◌∷◌, []}
use eventflow_kafka_microser.Examples.Surroundings.{surrounding}
use eventflow_kafka_microser.Examples.Messages.{record_of_order, start_0, three_attempts}
use eventflow_kafka_microser.Js.Io.{◌>>=◌, attempt, emit_kafka_event, sleep}
use eventflow_kafka_microser.Kafka.Producer.{publish_with_producer_retry, publish_from}

-- The broker has appended the record three times.
appended_three_times :
    ((publish_with_producer_retry ⦃H = surrounding 2⦄ three_attempts
      (emit_kafka_event ⦃H = surrounding 2⦄ record_of_order)
      start_0).1
    ).log
    ≡ record_of_order ∷ record_of_order ∷ record_of_order ∷ []
unfolding publish_with_producer_retry publish_from ◌>>=◌ attempt emit_kafka_event sleep
appended_three_times = refl
