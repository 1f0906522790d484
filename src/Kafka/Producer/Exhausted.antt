-- ===== src/Kafka/Producer/Exhausted.antt =====
-- How often the producer tries, and how long it waits, around one `emit`.
use eventflow_kafka_microser.Prelude.{
  ℕ, ◌≡◌, refl, ◌++◌, ◌∷◌, [], suc, zero, ◌+◌, ◌≤◌, some, true, false, append-nil, append_assoc,
  arith, leb, ltb, ◌<◌, subst, ◌∙◌, sym, ◌-◌, ap,
}
use eventflow_kafka_microser.Js.Io.{◌>>=◌, World, emit_kafka_event, sleep, copies}
use eventflow_kafka_microser.Js.Host.{Host, Message, int}
use eventflow_kafka_microser.Js.Host.Laws.{WholeNumbers, max_safe_integer}
use eventflow_kafka_microser.Js.Errors.{Result, ok, err, Thrown, other}
use eventflow_kafka_microser.Kafka.Producer.{publish_from, publish_with_producer_retry}
use eventflow_kafka_microser.Kafka.Retry.{
  RetryPolicyConfig, backoffs_from, get_retry_backoff_schedule, calculate_backoff_ms,
}
use eventflow_kafka_microser.Js.Io.Laws.{if_true-run, if_false-run, attempt-emit}
use eventflow_kafka_microser.Js.Value.{undefined}

pub leb-true : (a b : ℕ) → a ≤ b → leb a b ≡ true
leb-true a b h = ground arith

pub leb-false : (a b : ℕ) → b < a → leb a b ≡ false
leb-false a b h = ground arith

pub ltb-true : (a b : ℕ) → a < b → ltb a b ≡ true
ltb-true a b h = ground arith

pub ltb-false : (a b : ℕ) → b ≤ a → ltb a b ≡ false
ltb-false a b h = ground arith

module _ ⦃H : Host⦄ (config : RetryPolicyConfig) where
  pub backoffs_from-lt :
      (f k : ℕ)
      → H.lt (int k) config.max_attempts ≡ true
      → backoffs_from (suc f) k config
        ≡ calculate_backoff_ms (int k) config ∷ backoffs_from f (suc k) config
  unfolding backoffs_from
  backoffs_from-lt f k l = rw l refl

  pub backoffs_from-nlt :
      (f k : ℕ) → H.lt (int k) config.max_attempts ≡ false → backoffs_from (suc f) k config ≡ []
  unfolding backoffs_from
  backoffs_from-nlt f k l = rw l refl

module _ ⦃H : Host⦄ (m : Message) where
  at_tick : {e : Thrown} (a b : ℕ) → a ≡ b → H.emit_error a m ≡ some e → H.emit_error b m ≡ some e
  at_tick {e = e} a b q h = subst (λ j. H.emit_error j m ≡ some e) q h

module _ ⦃H : Host⦄ (config : RetryPolicyConfig) (N : WholeNumbers H) (n : ℕ)
    (e : config.max_attempts ≡ int n) (s : n ≤ max_safe_integer) where
  le-max : (j : ℕ) → j ≤ n → H.le (int j) config.max_attempts ≡ true
  le-max j h = rw e (N.le_int j n (omega arith) s ∙ leb-true j n h)

  max-le : (j : ℕ) → n ≤ j → j ≤ max_safe_integer → H.le config.max_attempts (int j) ≡ true
  max-le j h u = rw e (N.le_int n j s u ∙ leb-true n j h)

  max-nle : (j : ℕ) → j < n → H.le config.max_attempts (int j) ≡ false
  max-nle j h = rw e (N.le_int n j s (omega arith) ∙ leb-false n j h)

  pub lt-max : (j : ℕ) → j < n → H.lt (int j) config.max_attempts ≡ true
  lt-max j h = rw e (N.lt_int j n (omega arith) s ∙ ltb-true j n h)

  lt-nmax : H.lt (int n) config.max_attempts ≡ false
  lt-nmax = rw e (N.lt_int n n s s ∙ ltb-false n n (omega arith))

module _ ⦃H : Host⦄ {Db : Type 0} (config : RetryPolicyConfig) (m : Message) where
  -- The calls of the client from attempt `k` on, of which `f + 1` are left: fewer if one is accepted;
  -- else all of them, with the waits of the schedule between them and the error of the last.
  abbrev pub Tried : ℕ → ℕ → World Db → Result (Unit {0}) × World Db → Type 0
  Tried f k w (ok _, w') = w'.tick ≤ w.tick + suc f
  Tried f k w (err e, w') =
      (w'.tick ≡ w.tick + suc f)
      × (w'.slept ≡ w.slept ++ backoffs_from (suc f) k config)
      × (H.emit_error (w.tick + f) m ≡ some e)

  -- The state behind a failed call and the wait after it.
  abbrev waited : ℕ → World Db → World Db
  waited k w = record w {
    tick = w.tick + 1;
    log = w.log ++ copies (H.appended w.tick m) m;
    slept = w.slept ++ calculate_backoff_ms (int k) config ∷ [];
  }

  -- A failed call that is not the last adds its wait to those of the calls behind it.
  advance :
      (f k : ℕ) (w : World Db) (r : Result (Unit {0}) × World Db)
      → H.lt (int k) config.max_attempts ≡ true
      → Tried f (suc k) (waited k w) r
      → Tried (suc f) k w r
  advance f k w (ok _, w') l h = omega arith
  advance f k w (err e, w') l (t, s, a) = (omega arith, s ∙ waits, at_tick m _ _ (omega arith) a)
    where
      waits :
          (w.slept ++ calculate_backoff_ms (int k) config ∷ [])
            ++ backoffs_from (suc f) (suc k) config
          ≡ w.slept ++ backoffs_from (suc (suc f)) k config
      waits =
          append_assoc w.slept _ _
          ∙ ap (λ x. w.slept ++ x) (sym (backoffs_from-lt config (suc f) k l))

  module _ (N : WholeNumbers H) (n : ℕ) (e : config.max_attempts ≡ int n)
      (s : n ≤ max_safe_integer) where
    last_waits : (k : ℕ) (w : World Db) → k ≡ n → w.slept ≡ w.slept ++ backoffs_from 1 k config
    last_waits k w q =
        subst (λ j. w.slept ≡ w.slept ++ backoffs_from 1 j config) (sym q)
          (sym (append-nil w.slept)
            ∙ ap (λ x. w.slept ++ x) (sym (backoffs_from-nlt config 0 n (lt-nmax config N n e s))))

    publish_from-Tried :
        (f k : ℕ) (last : Thrown) (w : World Db)
        → f + k ≡ n
        → Tried f k w (publish_from config (emit_kafka_event m) (suc (suc f)) k last w)
    unfolding publish_from ◌>>=◌ sleep
    publish_from-Tried zero k last w q =
        if_true-run (Tried 0 k w) (H.le (int k) config.max_attempts) _ _ w
          (le-max config N n e s k (omega arith))
          (attempt-emit (Tried 0 k w) m _ w (λ h. omega arith)
            (λ t h.
              if_true-run (Tried 0 k w) (H.le config.max_attempts (int k)) _ _ _
                (max-le config N n e s k (omega arith) (omega arith))
                (omega arith, last_waits k w (omega arith), at_tick m _ _ (omega arith) h)))
    publish_from-Tried (suc f) k last w q =
        if_true-run (Tried (suc f) k w) (H.le (int k) config.max_attempts) _ _ w
          (le-max config N n e s k (omega arith))
          (attempt-emit (Tried (suc f) k w) m _ w (λ h. omega arith)
            (λ t h.
              if_false-run (Tried (suc f) k w) (H.le config.max_attempts (int k)) _ _ _
                (max-nle config N n e s k (omega arith))
                (advance f k w _ (lt-max config N n e s k (omega arith))
                  (publish_from-Tried f (suc k) t (waited k w) (omega arith)))))

-- What a run under a policy of `n` attempts does: it returns after at most `n` calls of the client, or
-- throws the error of the last of exactly `n` calls, with the waits of the schedule between them.
abbrev pub Exhausts :
    ⦃H : Host⦄
    → {Db : Type 0} → RetryPolicyConfig
    → Message
    → ℕ
    → World Db
    → Result (Unit {0}) × World Db
    → Type 0
Exhausts config m n w (ok _, w') = w'.tick ≤ w.tick + n
Exhausts ⦃H⦄ config m n w (err e, w') =
    (w'.tick ≡ w.tick + n)
    × (w'.slept ≡ w.slept ++ get_retry_backoff_schedule config)
    × (H.emit_error (w.tick + (n - 1)) m ≡ some e)

module _ ⦃H : Host⦄ {Db : Type 0} (config : RetryPolicyConfig) (m : Message) where
  Tried-Exhausts :
      (f : ℕ) (w : World Db) (r : Result (Unit {0}) × World Db)
      → H.floor config.max_attempts ≡ suc f
      → Tried config m f 1 w r
      → Exhausts config m (suc f) w r
  unfolding get_retry_backoff_schedule
  Tried-Exhausts f w (ok _, w') q h = h
  Tried-Exhausts f w (err e, w') q (t, s, a) = (t, rw q s, at_tick m _ _ (omega arith) a)

  -- With a whole number n = f + 1 of attempts, at most `Number.MAX_SAFE_INTEGER`, the loop
  -- returns after at most n calls of the client, or it throws the error with which the client answered
  -- the n-th of exactly n calls and has slept, in order, the delays of `getRetryBackoffSchedule`.
  pub publish_with_producer_retry-Exhausts :
      (N : WholeNumbers H) (f : ℕ) (w : World Db)
      → config.max_attempts ≡ int (suc f)
      → suc f ≤ max_safe_integer
      → Exhausts config m (suc f) w (publish_with_producer_retry config (emit_kafka_event m) w)
  unfolding publish_with_producer_retry
  publish_with_producer_retry-Exhausts N f w e s =
      subst
        (λ g.
          Exhausts config m (suc f) w
            (publish_from config (emit_kafka_event m) (suc g) 1 (other undefined) w))
        (sym attempts)
        (Tried-Exhausts f w _ attempts
          (publish_from-Tried config m N (suc f) e s f 1 (other undefined) w (omega arith)))
    where
      attempts : H.floor config.max_attempts ≡ suc f
      attempts = ap H.floor e ∙ N.floor_int (suc f) s
