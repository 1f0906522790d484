-- ===== src/Kafka/Producer/Laws.antt =====
-- The producer's retries, around one `emit`.
use eventflow_kafka_microser.Prelude.{
  ℕ, ◌≡◌, refl, ◌++◌, ◌∷◌, [], suc, zero, some, ◌+◌, List, none, arith, ap, append_assoc, subst,
  sym, ◌∙◌, append-nil,
}
use eventflow_kafka_microser.Js.Io.{◌>>=◌, World, emit_kafka_event, sleep, copies}
use eventflow_kafka_microser.Js.Host.{Host, Message, int}
use eventflow_kafka_microser.Js.Errors.{Result, ok, err, Thrown}
use eventflow_kafka_microser.Kafka.Producer.{publish_from, publish_with_producer_retry}
use eventflow_kafka_microser.Kafka.Retry.{RetryPolicyConfig, calculate_backoff_ms}
use eventflow_kafka_microser.Js.Io.Laws.{if-run, attempt-emit, accepted_by, refused_by}
use eventflow_kafka_microser.Js.Value.{Num}

-- The record was acknowledged once, behind those before, or not at all and an error is thrown; the
-- store is as before.
abbrev pub IsAcknowledged :
    {Db : Type 0} → Message → World Db → Result (Unit {0}) × World Db → Type 0
IsAcknowledged m w (ok _, w') = (w'.sent ≡ w.sent ++ m ∷ []) × (w'.db ≡ w.db)
IsAcknowledged m w (err e, w') = (w'.sent ≡ w.sent) × (w'.db ≡ w.db)

module _ ⦃H : Host⦄ (m : Message) where
  -- From a draw on, the client answered as many calls with an error.
  abbrev pub Fails : ℕ → ℕ → Type 0
  Fails t zero = Unit
  Fails t (suc j) = ((e : Thrown) × (H.emit_error t m ≡ some e)) × Fails (t + 1) j

  -- The copies that the broker has appended by as many calls, beside an acknowledged one.
  abbrev pub appended_from : ℕ → ℕ → ℕ
  appended_from t zero = 0
  appended_from t (suc j) = H.appended t m + appended_from (t + 1) j

  -- `j` calls failed, and either the next was acknowledged or there was none; the log of the broker
  -- has gained the copies of the record that those calls appended, and no other record.
  abbrev pub AtLeastOnce : {Db : Type 0} → World Db → Result (Unit {0}) × World Db → Type 0
  AtLeastOnce w (ok _, w') =
      (j : ℕ) × (w'.tick ≡ w.tick + suc j)
      × Fails w.tick j
      × (H.emit_error (w.tick + j) m ≡ none)
      × (w'.sent ≡ w.sent ++ m ∷ [])
      × (w'.log ≡ w.log ++ copies (suc (appended_from w.tick (suc j))) m)
      × (w'.db ≡ w.db)
  AtLeastOnce w (err e, w') =
      (j : ℕ) × (w'.tick ≡ w.tick + j)
      × Fails w.tick j
      × (w'.sent ≡ w.sent)
      × (w'.log ≡ w.log ++ copies (appended_from w.tick j) m)
      × (w'.db ≡ w.db)

  copies_add : (a b : ℕ) → copies a m ++ copies b m ≡ copies (a + b) m
  copies_add zero b = ap (λ n. copies n m) (omega arith)
  copies_add (suc a) b =
      ap (λ x. m ∷ x) (copies_add a b)
      ∙ ap (λ n. copies n m) (let e : suc (a + b) ≡ suc a + b = omega arith in e)

  log_add :
      (log : List Message) (a b : ℕ) → (log ++ copies a m) ++ copies b m ≡ log ++ copies (a + b) m
  log_add log a b = append_assoc log _ _ ∙ ap (λ x. log ++ x) (copies_add a b)

  log_add_suc :
      (log : List Message) (a b : ℕ)
      → (log ++ copies a m) ++ copies (suc b) m ≡ log ++ copies (suc (a + b)) m
  log_add_suc log a b =
      log_add log a (suc b)
      ∙ ap (λ n. log ++ copies n m) (let e : a + suc b ≡ suc (a + b) = omega arith in e)

  module _ {Db : Type 0} where
    -- The state behind a failed call and a wait.
    abbrev waited : Num → World Db → World Db
    waited ms w = record w {
      tick = w.tick + 1;
      log = w.log ++ copies (H.appended w.tick m) m;
      slept = w.slept ++ ms ∷ [];
    }

    -- A failed call before a run adds its copies to those of the run.
    again :
        (ms : Num) (e : Thrown) (w : World Db) (r : Result (Unit {0}) × World Db)
        → H.emit_error w.tick m ≡ some e
        → AtLeastOnce (waited ms w) r
        → AtLeastOnce w r
    again ms e w (ok _, w') h (j, t, f, n, s, l, d) = (
      suc j,
      omega arith,
      ((e, h), f),
      subst (λ i. H.emit_error i m ≡ none) (omega arith) n,
      s,
      l ∙ log_add_suc w.log (H.appended w.tick m) _,
      d,
    )
    again ms e w (err _, w') h (j, t, f, s, l, d) =
        (suc j, omega arith, ((e, h), f), s, l ∙ log_add w.log (H.appended w.tick m) _, d)

    -- One call, which is acknowledged.
    at_once :
        (w : World Db)
        → H.emit_error w.tick m ≡ none
        → AtLeastOnce w (ok tt, accepted_by (H.appended w.tick m) m w)
    at_once w h = (
      0,
      refl,
      tt,
      subst (λ i. H.emit_error i m ≡ none) (omega arith) h,
      refl,
      ap (λ n. w.log ++ copies (suc n) m) (omega arith),
      refl,
    )

    no_call : (e : Thrown) (w : World Db) → AtLeastOnce w (err e, w)
    no_call e w = (0, omega arith, tt, refl, sym (append-nil w.log), refl)

    -- One call, which fails.
    at_last :
        (e t : Thrown) (w : World Db)
        → H.emit_error w.tick m ≡ some e
        → AtLeastOnce w (err t, refused_by (H.appended w.tick m) m w)
    at_last e t w h =
        (1, refl, ((e, h), tt), refl, ap (λ n. w.log ++ copies n m) (omega arith), refl)

module _ ⦃H : Host⦄ {Db : Type 0} (config : RetryPolicyConfig) (m : Message) where
  publish_from-AtLeastOnce :
      (fuel k : ℕ) (last : Thrown) (w : World Db)
      → AtLeastOnce m w (publish_from config (emit_kafka_event m) fuel k last w)
  unfolding publish_from ◌>>=◌ sleep
  publish_from-AtLeastOnce zero k last w = no_call m last w
  publish_from-AtLeastOnce (suc fuel) k last w =
      if-run (AtLeastOnce m w) (H.le (int k) config.max_attempts) _ _ w
        (attempt-emit (AtLeastOnce m w) m _ w (at_once m w) (λ e h.
          if-run (AtLeastOnce m w) (H.le config.max_attempts (int k)) _ _ _ (at_last m e e w h) (
            again m (calculate_backoff_ms (int k) config) e w _ h
              (publish_from-AtLeastOnce fuel (suc k) e _))))
        (no_call m last w)

  -- Whatever the policy and the client's answers, `publishWithProducerRetry` around an `emit` stops at
  -- the first acknowledgement: if it returns, some calls failed and the next was acknowledged, and
  -- the broker has appended the record at least once; if it throws, every call failed, and none is
  -- acknowledged. In both cases the log of the broker has gained exactly the copies that these calls
  -- appended, of this one record: a failed call may have appended a copy, and the retries behind it
  -- may then duplicate the record. The store is as before.
  pub publish_with_producer_retry-AtLeastOnce :
      (w : World Db) → AtLeastOnce m w (publish_with_producer_retry config (emit_kafka_event m) w)
  unfolding publish_with_producer_retry
  publish_with_producer_retry-AtLeastOnce w = publish_from-AtLeastOnce _ 1 _ w

  AtLeastOnce-IsAcknowledged :
      (w : World Db) (r : Result (Unit {0}) × World Db) → AtLeastOnce m w r → IsAcknowledged m w r
  AtLeastOnce-IsAcknowledged w (ok _, w') (j, t, f, n, s, l, d) = (s, d)
  AtLeastOnce-IsAcknowledged w (err e, w') (j, t, f, s, l, d) = (s, d)

  pub publish_with_producer_retry-IsAcknowledged :
      (w : World Db)
      → IsAcknowledged m w (publish_with_producer_retry config (emit_kafka_event m) w)
  publish_with_producer_retry-IsAcknowledged w =
      AtLeastOnce-IsAcknowledged w _ (publish_with_producer_retry-AtLeastOnce w)
