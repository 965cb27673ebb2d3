-- ===== src/Logger/Keeping.antt =====
-- What the claims, the writes and the reads of src/util/async_log.cpp do to the invariant of its ring.
use fx_dropcopy_primary_reco.Prelude.{
  ℕ, ◌+◌, ◌%◌, ◌^◌, ◌≤◌, ◌<◌, ◌≡◌, ◌≢◌, refl, ap, sym, ◌∙◌, subst, ◌⊎◌, inl, inr, List, [], ◌∷◌,
  ◌++◌, arith, length-append, length-set, set, All, pow-pos, Bool-cases, ltb, ◌==◌, true, false,
}
use fx_dropcopy_primary_reco.Logger.{Slot, Claim, Consumer}
use fx_dropcopy_primary_reco.Logger.Record.{LogRecord, empty_record}
use fx_dropcopy_primary_reco.Logger.Slots.{round-mod, get_or-append_end}
use fx_dropcopy_primary_reco.Logger.Invariant.{
  slot, recorded, Has, Distinct, Held, IsOpen, Core, Reading, Reading-same, All-map, All-both,
  Held-same, IsOpen-same, recorded_lt, at_written, elsewhere, apart,
}

module _ (k head tail : ℕ) (slots : List Slot) (pending : List Claim) (history : List LogRecord)
    (v : Core k head tail slots pending history) where
  claimed-Held :
      (entry : LogRecord) (p : ℕ)
      → tail ≤ p
      → p < head + 1
      → (slot k slots head).sequence ≡ head
      → Held k slots
          ((record { pos = head; entry = entry; filled = false }) ∷ pending)
          (history ++ entry ∷ [])
          p
  claimed-Held entry p a b free = elim (Bool-cases (p == head)) [
    | inl here ↦ let e : p ≡ head = ground arith in rw e (inl (free, inl refl))
    | inr other ↦
        let less : p < head = ground arith in
        elim (v.behind p a less) [
          | inl waits ↦ inl (waits.0, inr waits.1)
          | inr done ↦ inr (done.0, done.1 ∙ sym (recorded_lt history entry p (rw v.logged less)))
        ]
  ]

  -- A claim of the position `head`, which the consumer has freed.
  pub claim-Core :
      (entry : LogRecord)
      → head < tail + 2 ^ k
      → Core k
          (head + 1)
          tail
          slots
          ((record { pos = head; entry = entry; filled = false }) ∷ pending)
          (history ++ entry ∷ [])
  claim-Core entry free =
      let free_slot = v.ahead head (omega arith) free in
      record {
        cells = v.cells;
        low = omega (arith, v.low);
        high = omega arith;
        logged = omega (arith, length-append history (entry ∷ []), v.logged);
        ahead = λ p a b. v.ahead p (omega arith) b;
        behind = λ p a b. claimed-Held entry p a b free_slot;
        open_claims = (
          (
            v.low,
            omega arith,
            free_slot,
            sym (
                subst (λ n. recorded (history ++ entry ∷ []) n ≡ entry) v.logged
                  (get_or-append_end history entry empty_record)),
            λ f. absurd (ground arith),
          ),
          All-map pending
              (λ c h. (
                h.0,
                omega (arith, h.1),
                h.2,
                h.3 ∙ sym (recorded_lt history entry c.pos (rw v.logged (h.1))),
                h.4,
              ))
              v.open_claims,
        );
        distinct = (All-map pending (λ c h e. omega (arith, h.1)) v.open_claims, v.distinct);
      }

  -- The record at the consumer's position was published.
  pub ready-lt : (slot k slots tail).sequence ≡ tail + 1 → tail < head
  ready-lt e = elim (Bool-cases (ltb tail head)) [
    | inl less ↦ ground arith
    | inr more ↦
        let low = v.low in
        let m = pow-pos k in
        let q = v.ahead tail (ground arith) (omega arith) in absurd (omega arith)
  ]

  pub claim-Reading :
      (entry : LogRecord) (c : Consumer)
      → Reading k tail slots history c
      → Reading k tail slots (history ++ entry ∷ []) c
  claim-Reading entry Consumer.testing h = tt
  claim-Reading entry Consumer.comparing h = tt
  claim-Reading entry Consumer.loading h = tt
  claim-Reading entry Consumer.copying h = h
  claim-Reading entry (Consumer.freeing e) h =
      (h.0, h.1 ∙ sym (recorded_lt history entry tail (rw v.logged (ready-lt (h.0)))))
  claim-Reading entry Consumer.ended h = tt

  -- The claim c was the only one of its position, and the others are `rest`.
  pub record Splits (c : Claim) (rest : List Claim) : Type 0 where
    pub is_open : IsOpen k head tail slots history c
    pub others : All (IsOpen k head tail slots history) rest
    pub apart_from : All (λ d. d.pos ≢ c.pos) rest
    pub distinct : Distinct rest
    pub has : (p : ℕ) → Has p pending → (p ≡ c.pos) ⊎ Has p rest

  -- Another position of the same round is not touched by a write.
  pub untouched :
      (q p : ℕ) (new : Slot)
      → tail ≤ q
      → q < head
      → tail ≤ p
      → p < tail + 2 ^ k
      → p ≢ q
      → slot k (set slots (q % 2 ^ k) new) p ≡ slot k slots p
  untouched q p new a b c d ne =
      elsewhere k slots q p new (apart k tail q p a c (omega (arith, v.high)) d (λ e. ne (sym e)))

  module _ (c : Claim) (rest : List Claim) (s : Splits c rest) where
    abbrev published : Slot
    published = record (slot k slots c.pos) { sequence = c.pos + 1 }

    abbrev slots' : List Slot
    slots' = set slots (c.pos % 2 ^ k) published

    published-Held : c.filled ≡ true → (p : ℕ) → tail ≤ p → p < head → Held k slots' rest history p
    published-Held done p a b = elim (Bool-cases (p == c.pos)) [
      | inl here ↦
          let e : p ≡ c.pos = ground arith in
          let w = at_written k slots c.pos published v.cells in
          rw e (inr (ap (λ x. x.sequence) w, ap (λ x. x.entry) w ∙ s.is_open.4 done ∙ s.is_open.3))
      | inr other ↦
          let ne : p ≢ c.pos = λ e. ground arith in
          let o = s.is_open in
          Held-same k slots slots' pending rest history p
            (untouched c.pos p published o.0 o.1 a (omega (arith, v.high)) ne)
            (λ h. elim (s.has p h) [ inl e ↦ absurd (ne e) | inr r ↦ r ]) (v.behind p a b)
    ]

    -- A claim whose record was written is published.
    pub publish-Core : c.filled ≡ true → Core k head tail slots' rest history
    publish-Core done =
        let o = s.is_open in
        record {
          cells = length-set slots (c.pos % 2 ^ k) published ∙ v.cells;
          low = v.low;
          high = v.high;
          logged = v.logged;
          ahead = λ p a b.
              let ne : p ≢ c.pos = λ e. omega (arith, o.1) in
              ap (λ x. x.sequence) (untouched c.pos p published o.0 o.1 (omega (arith, v.low)) b ne)
              ∙ v.ahead p a b;
          behind = published-Held done;
          open_claims =
              All-both rest
                (λ d h ne.
                  IsOpen-same k head tail tail slots slots' history d
                    (untouched c.pos d.pos published o.0 o.1 h.0 (omega (arith, h.1, v.high)) ne)
                    h.0 h)
                s.others s.apart_from;
          distinct = s.distinct;
        }

    abbrev marked : Claim
    marked = record c { filled = true }

    abbrev with_record : Slot
    with_record = record (slot k slots c.pos) { entry = c.entry }

    abbrev filled_slots : List Slot
    filled_slots = set slots (c.pos % 2 ^ k) with_record

    filled-Held : (p : ℕ) → tail ≤ p → p < head → Held k filled_slots (marked ∷ rest) history p
    filled-Held p a b = elim (Bool-cases (p == c.pos)) [
      | inl here ↦
          let e : p ≡ c.pos = ground arith in
          let w = at_written k slots c.pos with_record v.cells in
          rw e (inl (ap (λ x. x.sequence) w ∙ s.is_open.2, inl refl))
      | inr other ↦
          let ne : p ≢ c.pos = λ e. ground arith in
          let o = s.is_open in
          Held-same k slots filled_slots pending (marked ∷ rest) history p
            (untouched c.pos p with_record o.0 o.1 a (omega (arith, v.high)) ne) (s.has p)
            (v.behind p a b)
    ]

    -- A write to the slot of a claim is not seen by the consumer, which reads a published one.
    pub write-Reading :
        (new : Slot) (r : Consumer)
        → Reading k tail slots history r
        → Reading k tail (set slots (c.pos % 2 ^ k) new) history r
    write-Reading new r h =
        let o = s.is_open in
        Reading-same k tail slots (set slots (c.pos % 2 ^ k) new) history r
          (λ e.
            let ne : tail ≢ c.pos = λ q.
              let there = subst (λ n. (slot k slots n).sequence ≡ n) (sym q) o.2 in omega arith in
            untouched c.pos tail new o.0 o.1 (omega arith) (let m = pow-pos k in omega arith) ne)
          h

    -- A claim's record is written into its slot.
    pub fill-Core : Core k head tail filled_slots (marked ∷ rest) history
    fill-Core =
        let o = s.is_open in
        let w = at_written k slots c.pos with_record v.cells in
        record {
          cells = length-set slots (c.pos % 2 ^ k) with_record ∙ v.cells;
          low = v.low;
          high = v.high;
          logged = v.logged;
          ahead = λ p a b.
              let ne : p ≢ c.pos = λ e. omega (arith, o.1) in
              ap (λ x. x.sequence)
                (untouched c.pos p with_record o.0 o.1 (omega (arith, v.low)) b ne)
              ∙ v.ahead p a b;
          behind = filled-Held;
          open_claims = (
            (o.0, o.1, ap (λ x. x.sequence) w ∙ o.2, o.3, λ f. ap (λ x. x.entry) w),
            All-both rest
                (λ d h ne.
                  IsOpen-same k head tail tail slots filled_slots history d
                    (untouched c.pos d.pos with_record o.0 o.1 h.0 (omega (arith, h.1, v.high)) ne)
                    h.0 h)
                s.others s.apart_from,
          );
          distinct = (s.apart_from, s.distinct);
        }

  -- The consumer finds the record of the claim at its position, and frees the slot.
  module _ (ready : (slot k slots tail).sequence ≡ tail + 1) (filled : tail < head) where
    pub popped-recorded : (slot k slots tail).entry ≡ recorded history tail
    popped-recorded = elim (v.behind tail (omega arith) filled) [
      | inl waits ↦ absurd (omega (arith, waits.0))
      | inr done ↦ done.1
    ]

    abbrev freed : Slot
    freed = record { sequence = tail + 2 ^ k; entry = (slot k slots tail).entry }

    abbrev left : List Slot
    left = set slots (tail % 2 ^ k) freed

    freed-ahead : (p : ℕ) → head ≤ p → p < tail + 1 + 2 ^ k → (slot k left p).sequence ≡ p
    freed-ahead p a b = elim (Bool-cases (p == tail + 2 ^ k)) [
      | inl here ↦
          let e : p ≡ tail + 2 ^ k = ground arith in
          rw (e, round-mod (2 ^ k) tail (pow-pos k))
            (ap (λ x. x.sequence) (at_written k slots tail freed v.cells))
      | inr other ↦
          let near : p < tail + 2 ^ k = ground arith in
          ap (λ x. x.sequence)
            (untouched tail p freed (omega arith) filled (omega arith) near (λ e. omega arith))
          ∙ v.ahead p a near
    ]

    pub pop-Core : Core k head (tail + 1) left pending history
    pop-Core = record {
      cells = length-set slots (tail % 2 ^ k) freed ∙ v.cells;
      low = omega arith;
      high = omega (arith, v.high);
      logged = v.logged;
      ahead = freed-ahead;
      behind = λ p a b.
          Held-same k slots left pending pending history p
            (untouched tail p freed (omega arith) filled (omega arith) (omega (arith, v.high))
              (λ e. omega arith))
            (λ h. h) (v.behind p (omega arith) b);
      open_claims =
          All-map pending
            (λ c h.
              let ne : c.pos ≢ tail =
                λ e. let q = subst (λ n. (slot k slots n).sequence ≡ n) e h.2 in omega arith in
              let low' : tail + 1 ≤ c.pos = ground (arith, h.0) in
              IsOpen-same k head tail (tail + 1) slots left history c
                (untouched tail c.pos freed (omega arith) filled h.0 (omega (arith, h.1, v.high))
                  ne)
                low' h)
            v.open_claims;
      distinct = v.distinct;
    }
