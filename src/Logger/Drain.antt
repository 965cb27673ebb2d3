-- ===== src/Logger/Drain.antt =====
-- The logger of src/util/async_log.cpp from `start` to the end of its consumer.
use native.Mathlib.Nat.{mod_self, mod-eq_of_lt}
use fx_dropcopy_primary_reco.Prelude.{
  ℕ, zero, suc, ◌+◌, ◌-◌, ◌%◌, ◌^◌, ◌≤◌, ◌<◌, ◌≡◌, refl, ap, sym, ◌∙◌, subst, List, [], ◌∷◌, arith,
  length, get_or, All, take, ltb, true, false, not, ◌||◌, bit_and, bit_and_mask,
}
use fx_dropcopy_primary_reco.Logger.{
  AsyncLogger, Consumer, empty_slot, slot_at, free_at, start, new_slots, is_power_of_two, Step,
  step, run,
}
use fx_dropcopy_primary_reco.Logger.Record.{LogRecord}
use fx_dropcopy_primary_reco.Logger.Slots.{take_all}
use fx_dropcopy_primary_reco.Logger.Invariant.{Core}
use fx_dropcopy_primary_reco.Logger.Fifo.{IsFine}
use fx_dropcopy_primary_reco.Logger.Runs.{free_at-IsFine, copied, step-IsFine}
use fx_dropcopy_primary_reco.Logger.Ending.{all_published, takes_one, sees_none, writes_nothing}

-- Any interleaving of the accesses of any number of logging threads with the consumer keeps the ring
-- in order. What the consumer has written is the records of the first claims, in the order of the
-- claims, none twice and none left out; as long as fewer than 2 ^ 63 positions are claimed.
pub run_in_order :
    (k : ℕ) (s : AsyncLogger) (steps : List Step)
    → IsFine k (length steps) s
    → let s' = run s steps in IsFine k 0 s' × (s'.sink ≡ take s'.tail s'.history)
unfolding run
run_in_order k s [] v = (v, v.sink_eq)
run_in_order k s (x ∷ steps) v =
    run_in_order k (step s x) steps (step-IsFine k (length steps) s x v)

slot-new_slots : (i n p : ℕ) → p < n → (get_or (new_slots i n) p empty_slot).sequence ≡ i + p
unfolding new_slots
slot-new_slots i zero p h = absurd (omega arith)
slot-new_slots i (suc n) zero h = omega arith
slot-new_slots i (suc n) (suc p) h = omega (arith, slot-new_slots (i + 1) n p (omega arith))

length-new_slots : (i n : ℕ) → length (new_slots i n) ≡ n
unfolding new_slots
length-new_slots i zero = refl
length-new_slots i (suc n) = ap suc (length-new_slots (i + 1) n)

-- A logger in which no thread is logging, and which has written nothing.
pub record IsFresh (s : AsyncLogger) : Type 0 where
  pub no_loaded : s.loaded ≡ []
  pub no_seen : s.seen ≡ []
  pub no_pending : s.pending ≡ []
  pub no_sink : s.sink ≡ []
  pub no_history : s.history ≡ []

-- The accesses with which the consumer takes n records, and then finds none.
abbrev pub draining : ℕ → List Step
draining zero = Step.consumes ∷ Step.consumes ∷ []
draining (suc n) =
    Step.consumes ∷ Step.consumes ∷ Step.consumes ∷ Step.consumes ∷ Step.consumes ∷ draining n

-- What the end of the consumer leaves: every record that was claimed before is in the sink, and no other
-- is ever written.
pub record Drained (history : List LogRecord) (s : AsyncLogger) : Type 0 where
  pub all_written : s.sink ≡ history
  pub returned : s.consumer ≡ Consumer.ended
  pub no_more : (steps : List Step) → (run s steps).sink ≡ history

-- When the stop is requested and every claim so far was published, the consumer at the head of its loop
-- writes the n records that are left, with five accesses for each, and returns after two more. What
-- threads claim and publish after that, which `try_log` still lets a thread do that was past its test of
-- the stop flag, is never written, whatever the steps.
pub consumer_drains :
    (k n : ℕ) (s : AsyncLogger)
    → IsFine k 0 s
    → s.consumer ≡ Consumer.testing
    → s.stop ≡ true
    → s.pending ≡ []
    → s.head ≡ s.tail + n
    → Drained s.history (run s (draining n))
unfolding free_at
consumer_drains k zero s v at e p h =
    let n : s.tail ≡ length s.history = omega (arith, v.core.logged) in
    let all : s.sink ≡ s.history = v.sink_eq ∙ ap (λ j. take j s.history) n ∙ take_all s.history in
    subst (Drained s.history) (sym (sees_none s at e (omega arith))) (record {
      all_written = all;
      returned = refl;
      no_more = λ steps. writes_nothing (record s { consumer = Consumer.ended }) steps refl ∙ all;
    })
consumer_drains k (suc n) s v at e p h =
    let less : s.tail < s.head = omega arith in
    let ready = all_published k 0 s v p less in
    let fine = free_at-IsFine k 0 s v (slot_at s s.tail).entry ready (copied k 0 s v ready) in
    subst (Drained s.history) (sym (takes_one k 0 s (draining n) v at e less ready)) (
      consumer_drains k n (free_at s (slot_at s s.tail).entry) fine refl e p
        (omega (arith, v.room)))

power : (k : ℕ) → 1 < 2 ^ k → (not (is_power_of_two (2 ^ k)) || ltb (2 ^ k) 2) ≡ false
unfolding is_power_of_two
power k h =
    let b : bit_and (2 ^ k) (2 ^ k - 1) ≡ 0 = bit_and_mask k (2 ^ k) ∙ mod_self (2 ^ k) in
    rw b (ground arith)

fresh-Core : (k : ℕ) → Core k 0 0 (new_slots 0 (2 ^ k)) [] []
fresh-Core k = record {
  cells = length-new_slots 0 (2 ^ k);
  low = omega arith;
  high = omega arith;
  logged = refl;
  ahead = λ p a b.
      let q : p % 2 ^ k ≡ p = mod-eq_of_lt (omega arith) in
      rw q (omega (arith, slot-new_slots 0 (2 ^ k) p (omega arith)));
  behind = λ p a b. absurd (omega arith);
  open_claims = tt;
  distinct = tt;
}

-- `start` with a power of two of at least two slots, on a logger that is not running: it is in order.
pub start-IsFine :
    (k budget : ℕ) (s : AsyncLogger)
    → IsFresh s
    → s.stop ≡ true
    → 1 < 2 ^ k
    → budget + 2 ^ k < 9_223_372_036_854_775_808
    → ((start s (2 ^ k) true true).1 ≡ true) × IsFine k budget (start s (2 ^ k) true true).0
unfolding start
start-IsFine k budget s f e wide fits =
    rw (power k wide, e)
      (
        refl,
        record {
          core =
              subst (λ h. Core k 0 0 (new_slots 0 (2 ^ k)) s.pending h) (sym f.no_history)
                (subst (λ c. Core k 0 0 (new_slots 0 (2 ^ k)) c []) (sym f.no_pending)
                  (fresh-Core k));
          wide = wide;
          mask_eq = refl;
          room = omega arith;
          loaded_ok = subst (λ xs. All (λ p. p ≤ 0) xs) (sym f.no_loaded) tt;
          seen_ok = subst (λ xs. All (λ p. p < 0 + 2 ^ k) xs) (sym f.no_seen) tt;
          sink_eq = f.no_sink;
          reading = tt;
        },
      )

-- A logger that is started with 2 ^ k slots, two or more, writes the records of its callers in the order
-- in which they claimed their positions, whatever the order in which the steps of the threads and of
-- the consumer fall. The steps are the loads and stores of the flag, of the head and of the slots'
-- sequences, the filling of a slot and the copy out of it. After any of them, what is in the sink is what
-- the first claims gave, and the invariant of the ring holds. The number of steps is below 2 ^ 63, less
-- the slots.
pub logger_in_order :
    (k : ℕ) (s : AsyncLogger) (steps : List Step)
    → IsFresh s
    → s.stop ≡ true
    → 1 < 2 ^ k
    → length steps + 2 ^ k < 9_223_372_036_854_775_808
    → let (s₀, started) = start s (2 ^ k) true true in
      let s' = run s₀ steps in
      (started ≡ true) × IsFine k 0 s' × (s'.sink ≡ take s'.tail s'.history)
logger_in_order k s steps f e wide fits =
    let (started, v) = start-IsFine k (length steps) s f e wide fits in
    let (fine, order) = run_in_order k (start s (2 ^ k) true true).0 steps v in
    (started, fine, order)
