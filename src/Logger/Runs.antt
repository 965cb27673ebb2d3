-- ===== src/Logger/Runs.antt =====
-- Every step of the consumer of src/util/async_log.cpp keeps the logger in order, and so does any step.
use fx_dropcopy_primary_reco.Prelude.{
  either, ℕ, suc, ◌+◌, ◌%◌, ◌^◌, ◌≤◌, ◌<◌, ◌≡◌, ap, sym, ◌∙◌, subst, inl, inr, Option, none, some,
  List, [], ◌∷◌, ◌++◌, arith, All, take, Bool-cases, ◌==◌, ◌!=◌, bit_and, bit_and_mask, set, inc64,
  add64,
}
use fx_dropcopy_primary_reco.Logger.{
  AsyncLogger, Claim, Consumer, pick, free_at, consume_at, request_stop, Step, step, slot_at,
  look_picked, claim_picked, publish_picked,
}
use fx_dropcopy_primary_reco.Logger.Record.{LogRecord, empty_record}
use fx_dropcopy_primary_reco.Logger.Slots.{OnPick, All-pick, take_next}
use fx_dropcopy_primary_reco.Logger.Invariant.{slot, Core, IsOpen, Reading, recorded}
use fx_dropcopy_primary_reco.Logger.Keeping.{Splits, pop-Core, popped-recorded, ready-lt}
use fx_dropcopy_primary_reco.Logger.Fifo.{IsFine, All-weaken, slot_at-eq, Alone-pick, Splits-pick}
use fx_dropcopy_primary_reco.Logger.Threads.{
  same-IsFine, begin-IsFine, load_head-IsFine, look_at-IsFine, claim_at-IsFine, go_on-IsFine,
}

-- A step less to take.
fewer : (k budget : ℕ) (s : AsyncLogger) → IsFine k (suc budget) s → IsFine k budget s
fewer k budget s v = same-IsFine k budget s v

module _ (k budget : ℕ) (s : AsyncLogger) where
  reloaded :
      (loaded : List ℕ)
      → IsFine k budget s
      → All (λ p. p ≤ s.head) loaded
      → IsFine k budget (record s { loaded = loaded })
  reloaded loaded v h = record {
    core = v.core;
    wide = v.wide;
    mask_eq = v.mask_eq;
    room = v.room;
    loaded_ok = h;
    seen_ok = v.seen_ok;
    sink_eq = v.sink_eq;
    reading = v.reading;
  }

  reseen :
      (seen : List ℕ)
      → IsFine k budget s
      → All (λ p. p < s.tail + 2 ^ k) seen
      → IsFine k budget (record s { seen = seen })
  reseen seen v h = record {
    core = v.core;
    wide = v.wide;
    mask_eq = v.mask_eq;
    room = v.room;
    loaded_ok = v.loaded_ok;
    seen_ok = h;
    sink_eq = v.sink_eq;
    reading = v.reading;
  }

  stopped : IsFine k budget s → IsFine k budget (request_stop s)
  unfolding request_stop
  stopped v = record {
    core = v.core;
    wide = v.wide;
    mask_eq = v.mask_eq;
    room = v.room;
    loaded_ok = v.loaded_ok;
    seen_ok = v.seen_ok;
    sink_eq = v.sink_eq;
    reading = v.reading;
  }

module _ (k budget : ℕ) (s : AsyncLogger) (v : IsFine k budget s) where
  pub with_consumer :
      (c : Consumer)
      → Reading k s.tail s.slots s.history c
      → IsFine k budget (record s { consumer = c })
  with_consumer c h = record {
    core = v.core;
    wide = v.wide;
    mask_eq = v.mask_eq;
    room = v.room;
    loaded_ok = v.loaded_ok;
    seen_ok = v.seen_ok;
    sink_eq = v.sink_eq;
    reading = h;
  }

  -- The slot that was read is freed, and its record written.
  pub free_at-IsFine :
      (entry : LogRecord)
      → (slot k s.slots s.tail).sequence ≡ s.tail + 1
      → entry ≡ recorded s.history s.tail
      → IsFine k budget (free_at s entry)
  unfolding free_at
  free_at-IsFine entry e copied =
      let less = ready-lt k s.head s.tail s.slots s.pending s.history v.core e in
      let core = pop-Core k s.head s.tail s.slots s.pending s.history v.core e less in
      let at : slot_at s s.tail ≡ slot k s.slots s.tail = slot_at-eq k budget s s.tail v in
      let here : s.tail % 2 ^ k ≡ bit_and s.tail s.mask =
        sym (ap (bit_and s.tail) v.mask_eq ∙ bit_and_mask k s.tail) in
      let next : s.tail + 1 ≡ inc64 s.tail = omega (arith, v.room) in
      let w = v.wide in
      let m = v.mask_eq in
      let freed : s.tail + 2 ^ k ≡ add64 (add64 s.tail s.mask) 1 = omega (arith, v.room) in
      record {
        core =
            subst (λ n. Core k s.head n (free_at s entry).slots s.pending s.history) next
              (subst (λ cells. Core k s.head (s.tail + 1) cells s.pending s.history)
                (λ i.
                  set s.slots (here i) (record { sequence = freed i; entry = (sym at i).entry }))
                core);
        wide = v.wide;
        mask_eq = v.mask_eq;
        room = v.room;
        loaded_ok = v.loaded_ok;
        seen_ok =
            All-weaken (λ n. n < s.tail + 2 ^ k) (λ n. n < inc64 s.tail + 2 ^ k) s.seen
              (λ n h. omega (arith, next)) v.seen_ok;
        sink_eq =
            let n = v.core.logged in
            let shown : s.sink ++ entry ∷ []
                ≡ take s.tail s.history ++ recorded s.history s.tail ∷ [] =
              λ i. v.sink_eq i ++ copied i ∷ [] in
            let last : suc s.tail ≡ inc64 s.tail = omega arith in
            shown
            ∙ sym (take_next s.tail s.history empty_record (omega arith))
            ∙ ap (λ j. take j s.history) last;
        reading = tt;
      }

  -- What the consumer copies is the record of the claim.
  pub copied :
      (slot k s.slots s.tail).sequence ≡ s.tail + 1
      → (slot_at s s.tail).entry ≡ recorded s.history s.tail
  copied e =
      let less = ready-lt k s.head s.tail s.slots s.pending s.history v.core e in
      ap (λ x. x.entry) (slot_at-eq k budget s s.tail v)
      ∙ popped-recorded k s.head s.tail s.slots s.pending s.history v.core e less

  pub consume_at-IsFine :
      (c : Consumer) → Reading k s.tail s.slots s.history c → IsFine k budget (consume_at s c)
  unfolding consume_at
  consume_at-IsFine Consumer.testing h =
      with_consumer _ (either (Reading k s.tail s.slots s.history) s.stop tt tt)
  consume_at-IsFine Consumer.comparing h =
      with_consumer _ (either (Reading k s.tail s.slots s.history) (s.tail != s.head) tt tt)
  consume_at-IsFine Consumer.loading h =
      elim (Bool-cases ((slot_at s s.tail).sequence == inc64 s.tail)) [
        | inr waits ↦ rw waits (with_consumer Consumer.testing tt)
        | inl ready ↦
            let e : (slot_at s s.tail).sequence ≡ s.tail + 1 = ground (arith, v.room, v.core.low) in
            rw ready (
              with_consumer Consumer.copying
                (subst (λ x. x.sequence ≡ s.tail + 1) (slot_at-eq k budget s s.tail v) e))
      ]
  consume_at-IsFine Consumer.copying h = with_consumer _ (h, copied h)
  consume_at-IsFine (Consumer.freeing entry) h = free_at-IsFine entry h.0 h.1
  consume_at-IsFine Consumer.ended h = v

-- Each step keeps the logger in order.
pub step-IsFine :
    (k budget : ℕ) (s : AsyncLogger) (x : Step)
    → IsFine k (suc budget) s
    → IsFine k budget (step s x)
unfolding step
step-IsFine k budget s Step.begins v = begin-IsFine k budget s v
step-IsFine k budget s Step.loads v = load_head-IsFine k budget s v
step-IsFine k budget s (Step.looks i) v =
    look (pick i s.loaded) (All-pick (λ p. p ≤ s.head) i s.loaded)
  where
    look :
        (o : Option (ℕ × List ℕ))
        → OnPick
            (λ p rest. All (λ q. q ≤ s.head) s.loaded → (p ≤ s.head) × All (λ q. q ≤ s.head) rest)
            o
        → IsFine k budget (look_picked s o)
    look none h = fewer k budget s v
    look (some p) h =
        let (low, rest) = h v.loaded_ok in
        look_at-IsFine k budget _ (reloaded k (suc budget) s p.1 v rest) p.0 low
step-IsFine k budget s (Step.claims i entry weak) v =
    claim (pick i s.seen) (All-pick (λ p. p < s.tail + 2 ^ k) i s.seen)
  where
    claim :
        (o : Option (ℕ × List ℕ))
        → OnPick
            (λ p rest.
              All (λ q. q < s.tail + 2 ^ k) s.seen
              → (p < s.tail + 2 ^ k) × All (λ q. q < s.tail + 2 ^ k) rest)
            o
        → IsFine k budget (claim_picked s entry weak o)
    claim none h = fewer k budget s v
    claim (some p) h =
        let (free, rest) = h v.seen_ok in
        claim_at-IsFine k budget _ (reseen k (suc budget) s p.1 v rest) p.0 entry weak free
step-IsFine k budget s (Step.publishes i) v =
    let c = v.core in
    publish (pick i s.pending) (
      Splits-pick k s.head s.tail s.slots s.pending s.history c (pick i s.pending)
        (Alone-pick i s.pending) (All-pick (IsOpen k s.head s.tail s.slots s.history) i s.pending))
  where
    publish :
        (o : Option (Claim × List Claim))
        → OnPick (λ c rest. Splits k s.head s.tail s.slots s.pending s.history v.core c rest) o
        → IsFine k budget (publish_picked s o)
    publish none h = fewer k budget s v
    publish (some p) h = go_on-IsFine k budget s v p.0 p.1 h
step-IsFine k budget s Step.consumes v =
    consume_at-IsFine k budget s (fewer k budget s v) s.consumer v.reading
step-IsFine k budget s Step.stops v = stopped k budget s (fewer k budget s v)
