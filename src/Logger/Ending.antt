-- ===== src/Logger/Ending.antt =====
-- The end of the consumer of src/util/async_log.cpp after `stop`.
use fx_dropcopy_primary_reco.Prelude.{
  either, ℕ, ◌+◌, ◌<◌, ◌≡◌, refl, sym, ◌∙◌, subst, inl, inr, Option, none, some, List, [], ◌∷◌,
  arith, ◌==◌, ◌!=◌, true, false, not, ◌&&◌, inc64,
}
use fx_dropcopy_primary_reco.Logger.{
  AsyncLogger, Claim, Consumer, pick, begin, load_head, look_at, claim_at, is_behind, fill_at,
  publish_at, go_on, free_at, consume_at, request_stop, Step, step, run, slot_at, look_picked,
  claim_picked, publish_picked,
}
use fx_dropcopy_primary_reco.Logger.Invariant.{slot, Has}
use fx_dropcopy_primary_reco.Logger.Fifo.{IsFine, slot_at-eq}

-- With every claim published, the consumer's slot holds a record until it has come to `head`.
pub all_published :
    (k budget : ℕ) (s : AsyncLogger)
    → IsFine k budget s
    → s.pending ≡ []
    → s.tail < s.head
    → (slot k s.slots s.tail).sequence ≡ s.tail + 1
all_published k budget s v none_open less = elim (v.core.behind s.tail (omega arith) less) [
  | inl waits ↦ absurd (subst (Has s.tail) none_open waits.1)
  | inr done ↦ done.0
]

-- With the stop requested, five accesses of the consumer take and write a record that was published.
pub takes_one :
    (k budget : ℕ) (s : AsyncLogger) (rest : List Step)
    → IsFine k budget s
    → s.consumer ≡ Consumer.testing
    → s.stop ≡ true
    → s.tail < s.head
    → (slot k s.slots s.tail).sequence ≡ s.tail + 1
    → run s (Step.consumes ∷ Step.consumes ∷ Step.consumes ∷ Step.consumes ∷ Step.consumes ∷ rest)
      ≡ run (free_at s (slot_at s s.tail).entry) rest
unfolding run step consume_at
takes_one k budget s rest v at stop less e =
    let next : s.tail + 1 ≡ inc64 s.tail = omega (arith, v.room) in
    let seq : (slot_at s s.tail).sequence ≡ inc64 s.tail =
      subst (λ x. x.sequence ≡ inc64 s.tail) (sym (slot_at-eq k budget s s.tail v)) (e ∙ next) in
    let ready : ((slot_at s s.tail).sequence == inc64 s.tail) ≡ true = ground arith in
    let more : (s.tail != s.head) ≡ true = ground arith in rw (at, stop, more, ready) refl

-- And two see that there is none left, and end its function.
pub sees_none :
    (s : AsyncLogger)
    → s.consumer ≡ Consumer.testing
    → s.stop ≡ true
    → s.tail ≡ s.head
    → run s (Step.consumes ∷ Step.consumes ∷ []) ≡ record s { consumer = Consumer.ended }
unfolding run step consume_at
sees_none s at stop same =
    let none_left : (s.tail != s.head) ≡ false = ground arith in rw (at, stop, none_left) refl

-- Nothing is written, and the consumer stays where it is.
record Rests (s s' : AsyncLogger) : Type 0 where
  same_consumer : s'.consumer ≡ s.consumer
  same_sink : s'.sink ≡ s.sink

rested : {s : AsyncLogger} → Rests s s
rested = record { same_consumer = refl; same_sink = refl }

step-Rests : (s : AsyncLogger) (x : Step) → s.consumer ≡ Consumer.ended → Rests s (step s x)
unfolding step begin load_head look_at claim_at go_on fill_at publish_at request_stop consume_at
step-Rests s Step.begins e =
    either (Rests s) s.stop rested (record { same_consumer = refl; same_sink = refl })
step-Rests s Step.loads e =
    either (Rests s) (s.entering == 0) rested (record { same_consumer = refl; same_sink = refl })
step-Rests s (Step.looks i) e = look (pick i s.loaded)
  where
    look : (o : Option (ℕ × List ℕ)) → Rests s (look_picked s o)
    look none = rested
    look (some p) =
        either (Rests s) ((slot_at s p.0).sequence == p.0)
          (record { same_consumer = refl; same_sink = refl })
          (either (Rests s) (is_behind (slot_at s p.0).sequence p.0)
            (record { same_consumer = refl; same_sink = refl })
            (record { same_consumer = refl; same_sink = refl }))
step-Rests s (Step.claims i entry weak) e = claim (pick i s.seen)
  where
    claim : (o : Option (ℕ × List ℕ)) → Rests s (claim_picked s entry weak o)
    claim none = rested
    claim (some p) =
        either (Rests s) (s.head == p.0 && not weak)
          (record { same_consumer = refl; same_sink = refl })
          (record { same_consumer = refl; same_sink = refl })
step-Rests s (Step.publishes i) e = publish (pick i s.pending)
  where
    publish : (o : Option (Claim × List Claim)) → Rests s (publish_picked s o)
    publish none = rested
    publish (some p) =
        either (Rests s) p.0.filled (record { same_consumer = refl; same_sink = refl })
          (record { same_consumer = refl; same_sink = refl })
step-Rests s Step.consumes e = subst (λ c. Rests s (consume_at s c)) (sym e) rested
step-Rests s Step.stops e = record { same_consumer = refl; same_sink = refl }

-- The consumer's function has returned: whatever is logged after that, nothing is written.
pub writes_nothing :
    (s : AsyncLogger) (steps : List Step)
    → s.consumer ≡ Consumer.ended
    → (run s steps).sink ≡ s.sink
unfolding run
writes_nothing s [] e = refl
writes_nothing s (x ∷ steps) e =
    let r = step-Rests s x e in writes_nothing (step s x) steps (r.same_consumer ∙ e) ∙ r.same_sink
