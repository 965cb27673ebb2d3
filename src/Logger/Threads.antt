-- ===== src/Logger/Threads.antt =====
-- Every step of the threads that log in src/util/async_log.cpp keeps the logger in order.
use fx_dropcopy_primary_reco.Prelude.{
  either, ℕ, suc, ◌+◌, ◌-◌, ◌%◌, ◌^◌, ◌≤◌, ◌<◌, ◌≡◌, ap, sym, ◌∙◌, subst, inl, inr, List, [], ◌∷◌,
  ◌++◌, arith, get_or, All, pow-pos, Bool, true, false, Bool-cases, ltb, ◌==◌, not, ◌&&◌, bit_and,
  bit_and_mask, set, inc64,
}
use fx_dropcopy_primary_reco.Logger.{
  AsyncLogger, Slot, empty_slot, Claim, begin, load_head, look_at, claim_at, fill_at, publish_at,
  go_on, slot_at, is_behind,
}
use fx_dropcopy_primary_reco.Logger.Record.{LogRecord}
use fx_dropcopy_primary_reco.Logger.Slots.{round-mod, take-append_le}
use fx_dropcopy_primary_reco.Logger.Invariant.{slot, Core}
use fx_dropcopy_primary_reco.Logger.Keeping.{
  Splits, claim-Core, claim-Reading, write-Reading, fill-Core, publish-Core,
}
use fx_dropcopy_primary_reco.Logger.Fifo.{IsFine, All-weaken, slot_at-eq}

module _ (k budget : ℕ) (s : AsyncLogger) (v : IsFine k (suc budget) s) where
  room_left : s.head + budget + 2 ^ k < 9_223_372_036_854_775_808
  room_left = omega (arith, v.room)

  -- Other threads before their first look at a slot.
  pub with_loaded :
      (loaded : List ℕ)
      → All (λ p. p ≤ s.head) loaded
      → IsFine k budget (record s { loaded = loaded })
  with_loaded loaded h = record {
    core = v.core;
    wide = v.wide;
    mask_eq = v.mask_eq;
    room = room_left;
    loaded_ok = h;
    seen_ok = v.seen_ok;
    sink_eq = v.sink_eq;
    reading = v.reading;
  }

  with_entering :
      (entering : ℕ) (loaded : List ℕ)
      → All (λ p. p ≤ s.head) loaded
      → IsFine k budget (record s { entering = entering; loaded = loaded })
  with_entering entering loaded h = record {
    core = v.core;
    wide = v.wide;
    mask_eq = v.mask_eq;
    room = room_left;
    loaded_ok = h;
    seen_ok = v.seen_ok;
    sink_eq = v.sink_eq;
    reading = v.reading;
  }

  with_seen :
      (seen : List ℕ)
      → All (λ p. p < s.tail + 2 ^ k) seen
      → IsFine k budget (record s { seen = seen })
  with_seen seen h = record {
    core = v.core;
    wide = v.wide;
    mask_eq = v.mask_eq;
    room = room_left;
    loaded_ok = v.loaded_ok;
    seen_ok = h;
    sink_eq = v.sink_eq;
    reading = v.reading;
  }

  pub same-IsFine : IsFine k budget s
  same-IsFine = with_loaded s.loaded v.loaded_ok

  pub begin-IsFine : IsFine k budget (begin s)
  unfolding begin
  begin-IsFine =
      either (IsFine k budget) s.stop same-IsFine
        (with_entering (s.entering + 1) s.loaded v.loaded_ok)

  pub load_head-IsFine : IsFine k budget (load_head s)
  unfolding load_head
  load_head-IsFine =
      either (IsFine k budget) (s.entering == 0) same-IsFine
        (with_entering (s.entering - 1) (s.head ∷ s.loaded) (omega arith, v.loaded_ok))

  -- A slot whose sequence is its position is one that the consumer has freed: a ring has two slots at
  -- least, so a slot that holds the record one round before has another sequence.
  free_slot : (p : ℕ) → p ≤ s.head → (slot k s.slots p).sequence ≡ p → p < s.tail + 2 ^ k
  free_slot p low e = elim (Bool-cases (ltb p (s.tail + 2 ^ k))) [
    | inl near ↦ ground arith
    | inr far ↦
        let h = v.core.high in
        let w = v.wide in
        let q : p ≡ s.tail + 2 ^ k = ground arith in
        let wraps : (s.tail + 2 ^ k) % 2 ^ k ≡ s.tail % 2 ^ k =
          round-mod (2 ^ k) s.tail (pow-pos k) in
        let here : (slot k s.slots s.tail).sequence ≡ s.tail + 2 ^ k =
          subst (λ i. (get_or s.slots i empty_slot).sequence ≡ s.tail + 2 ^ k) wraps
            (subst (λ n. (slot k s.slots n).sequence ≡ n) q e) in
        elim (v.core.behind s.tail (omega arith) (omega arith)) [
          | inl waits ↦ absurd (omega (arith, waits.0))
          | inr done ↦ absurd (omega (arith, done.0))
        ]
  ]

  pub look_at-IsFine : (p : ℕ) → p ≤ s.head → IsFine k budget (look_at s p)
  unfolding look_at
  look_at-IsFine p low =
      let seq = (slot_at s p).sequence in
      elim (Bool-cases (seq == p)) [
        | inl free ↦
            let e : seq ≡ p = ground arith in
            let there : (slot k s.slots p).sequence ≡ p =
              subst (λ x. x.sequence ≡ p) (slot_at-eq k (suc budget) s p v) e in
            rw free (with_seen (p ∷ s.seen) (free_slot p low there, v.seen_ok))
        | inr other ↦ rw other (
            either (IsFine k budget) (is_behind seq p)
              (record {
                core = v.core;
                wide = v.wide;
                mask_eq = v.mask_eq;
                room = room_left;
                loaded_ok = v.loaded_ok;
                seen_ok = v.seen_ok;
                sink_eq = v.sink_eq;
                reading = v.reading;
              })
              (with_entering (s.entering + 1) s.loaded v.loaded_ok))
      ]

  pub claim_at-IsFine :
      (p : ℕ) (entry : LogRecord) (weak : Bool)
      → p < s.tail + 2 ^ k
      → IsFine k budget (claim_at s p entry weak)
  unfolding claim_at
  claim_at-IsFine p entry weak free = elim (Bool-cases (s.head == p && not weak)) [
    | inr lost ↦ rw lost (with_loaded (s.head ∷ s.loaded) (omega arith, v.loaded_ok))
    | inl won ↦
        let e : p ≡ s.head = ground arith in
        let next : inc64 p ≡ s.head + 1 = omega (arith, v.room) in
        let core =
          claim-Core k s.head s.tail s.slots s.pending s.history v.core entry (rw (← e) free) in
        rw won (record {
          core =
              subst
                (λ n.
                  Core k n s.tail s.slots
                    ((record { pos = p; entry = entry; filled = false }) ∷ s.pending)
                    (s.history ++ entry ∷ []))
                (sym next)
                (subst
                  (λ n.
                    Core k (s.head + 1) s.tail s.slots
                      ((record { pos = n; entry = entry; filled = false }) ∷ s.pending)
                      (s.history ++ entry ∷ []))
                  (sym e) core);
          wide = v.wide;
          mask_eq = v.mask_eq;
          room = omega (arith, v.room, next);
          loaded_ok =
              All-weaken (λ n. n ≤ s.head) (λ n. n ≤ inc64 p) s.loaded (λ n h. omega (arith, next))
                v.loaded_ok;
          seen_ok = v.seen_ok;
          sink_eq =
              let low = v.core.low in
              let n = v.core.logged in
              v.sink_eq ∙ sym (take-append_le s.tail s.history (entry ∷ []) (omega arith));
          reading =
              claim-Reading k s.head s.tail s.slots s.pending s.history v.core entry s.consumer
                v.reading;
        })
  ]

  -- The state after a write to the slot of a claim.
  wrote :
      (c : Claim) (rest pending : List Claim) (new : Slot)
      → Splits k s.head s.tail s.slots s.pending s.history v.core c rest
      → Core k s.head s.tail (set s.slots (c.pos % 2 ^ k) new) pending s.history
      → IsFine k budget (record s { slots = set s.slots (c.pos % 2 ^ k) new; pending = pending })
  wrote c rest pending new split core = record {
    core = core;
    wide = v.wide;
    mask_eq = v.mask_eq;
    room = room_left;
    loaded_ok = v.loaded_ok;
    seen_ok = v.seen_ok;
    sink_eq = v.sink_eq;
    reading =
        write-Reading k s.head s.tail s.slots s.pending s.history v.core c rest split new s.consumer
          v.reading;
  }

  here : (c : Claim) → c.pos % 2 ^ k ≡ bit_and c.pos s.mask
  here c = sym (ap (bit_and c.pos) v.mask_eq ∙ bit_and_mask k c.pos)

  fill_at-IsFine :
      (c : Claim) (rest : List Claim)
      → Splits k s.head s.tail s.slots s.pending s.history v.core c rest
      → IsFine k budget (fill_at (record s { pending = rest }) c)
  unfolding fill_at
  fill_at-IsFine c rest split =
      let core = fill-Core k s.head s.tail s.slots s.pending s.history v.core c rest split in
      let fine =
        wrote c rest ((record c { filled = true }) ∷ rest)
          (record (slot k s.slots c.pos) { entry = c.entry }) split core in
      subst
        (λ i. IsFine k budget (record s {
          slots = set s.slots i (record (get_or s.slots i empty_slot) { entry = c.entry });
          pending = (record c { filled = true }) ∷ rest;
        }))
        (here c) fine

  publish_at-IsFine :
      (c : Claim) (rest : List Claim)
      → Splits k s.head s.tail s.slots s.pending s.history v.core c rest
      → c.filled ≡ true
      → IsFine k budget (publish_at (record s { pending = rest }) c)
  unfolding publish_at
  publish_at-IsFine c rest split done =
      let next : c.pos + 1 ≡ inc64 c.pos = omega (arith, split.is_open.1, v.room) in
      let core =
        publish-Core k s.head s.tail s.slots s.pending s.history v.core c rest split done in
      let fine =
        wrote c rest rest (record (slot k s.slots c.pos) { sequence = c.pos + 1 }) split core in
      subst
        (λ i. IsFine k budget (record s {
          slots = set s.slots i (record (get_or s.slots i empty_slot) { sequence = inc64 c.pos });
          pending = rest;
        }))
        (here c)
        (subst
          (λ n. IsFine k budget (record s {
            slots = set s.slots (c.pos % 2 ^ k) (record (slot k s.slots c.pos) { sequence = n });
            pending = rest;
          }))
          next fine)

  pub go_on-IsFine :
      (c : Claim) (rest : List Claim)
      → Splits k s.head s.tail s.slots s.pending s.history v.core c rest
      → IsFine k budget (go_on (record s { pending = rest }) c)
  unfolding go_on
  go_on-IsFine c rest split = elim (Bool-cases c.filled) [
    | inl done ↦ rw done (publish_at-IsFine c rest split done)
    | inr open_still ↦ rw open_still (fill_at-IsFine c rest split)
  ]
