-- ===== src/Logger.antt =====
-- src/util/async_log.hpp and src/util/async_log.cpp: the ring through which any number of threads log
-- and one thread writes. A thread in `try_log` stands before one of its accesses to shared memory; the
-- state holds the local variables of the threads at each such point. The steps are the loads and stores
-- of the stop flag, of the head and of the slots' sequences, the filling of a slot and the copy out of it.
pub mod Record
pub mod Slots
pub mod Invariant
pub mod Keeping
pub mod Fifo
pub mod Threads
pub mod Runs
pub mod Ending
pub mod Drain
pub mod Message
use fx_dropcopy_primary_reco.Prelude.{
  ℕ, zero, suc, ◌+◌, ◌-◌, Bool, true, false, not, ◌&&◌, ◌||◌, Option, none, some, List, [], ◌∷◌,
  ◌++◌, if◌then◌else◌, ltb, leb, ◌==◌, ◌!=◌, get_or, set, replicate, bit_and, u64, add64, sub64,
  inc64,
}
use fx_dropcopy_primary_reco.Logger.Record.{LogRecord, empty_record, LogLevel, level_rank}

pub record Slot : Type 0 where
  pub sequence : ℕ
  pub entry : LogRecord

abbrev pub empty_slot : Slot
empty_slot = record { sequence = 0; entry = empty_record }

-- A claimed position, the record that its thread writes there, and whether it has written it.
pub record Claim : Type 0 where
  pub pos : ℕ
  pub entry : LogRecord
  pub filled : Bool

-- Where the consumer stands: before the load of `stop_`, of `head_`, of the slot's sequence; before the
-- copy of the slot's record, and, with the copy, before the store that frees the slot; or its function
-- has returned.
pub data Consumer : Type 0 where
  testing : Consumer
  comparing : Consumer
  loading : Consumer
  copying : Consumer
  freeing : LogRecord → Consumer
  ended : Consumer

-- The logger, with what has been written to the sink. Then the threads in `try_log`: how many are
-- to load `head_`, those that have loaded it, those that have seen the slot free, and those that have claimed a position.
-- `history` is not in the code: the records of the claims, in the order of the claims.
pub record AsyncLogger : Type 0 where
  pub head : ℕ
  pub tail : ℕ
  pub mask : ℕ
  pub capacity : ℕ
  pub slots : List Slot
  pub stop : Bool
  pub dropped : ℕ
  pub written : ℕ
  pub sink : List LogRecord
  pub consumer : Consumer
  pub entering : ℕ
  pub loaded : List ℕ
  pub seen : List ℕ
  pub pending : List Claim
  pub history : List LogRecord

unfoldable pub is_power_of_two : ℕ → Bool
is_power_of_two v = v != 0 && bit_and v (v - 1) == 0

-- The loop that numbers the slots.
unfoldable pub new_slots : ℕ → ℕ → List Slot
new_slots i zero = []
new_slots i (suc n) = (record { sequence = i; entry = empty_record }) ∷ new_slots (i + 1) n

-- `start`, when the file can be opened and the thread be created as `opens` and `spawns` say.
unfoldable pub start : AsyncLogger → ℕ → Bool → Bool → AsyncLogger × Bool
unfolding is_power_of_two new_slots
start s capacity_pow2 opens spawns =
    let s' : AsyncLogger = record s {
      head = 0;
      tail = 0;
      mask = capacity_pow2 - 1;
      capacity = capacity_pow2;
      slots = new_slots 0 capacity_pow2;
    } in
    if not (is_power_of_two capacity_pow2) || ltb capacity_pow2 2
    then (s, false)
    else if not s.stop
    then (s, true)
    else if not opens
    then (s', false)
    else if not spawns
    then (s', false)
    else (record s' { stop = false; consumer = Consumer.testing }, true)

-- `stop`, up to the join of the consumer.
unfoldable pub request_stop : AsyncLogger → AsyncLogger
request_stop s = record s { stop = true }

abbrev pub slot_at : AsyncLogger → ℕ → Slot
slot_at s pos = get_or s.slots (bit_and pos s.mask) empty_slot

-- `dif < 0`, for the difference of the two words as signed numbers.
unfoldable pub is_behind : ℕ → ℕ → Bool
is_behind seq pos = leb 9_223_372_036_854_775_808 (sub64 seq pos)

-- The head of `try_log`: the test of the stop flag.
unfoldable pub begin : AsyncLogger → AsyncLogger
begin s = if s.stop then s else record s { entering = s.entering + 1 }

-- A thread loads `head_`.
unfoldable pub load_head : AsyncLogger → AsyncLogger
load_head s =
    if s.entering == 0
    then s
    else record s { entering = s.entering - 1; loaded = s.head ∷ s.loaded }

-- A thread at `pos` loads the sequence of its slot: it has seen it free, gives up, or is to load
-- `head_` again.
unfoldable pub look_at : AsyncLogger → ℕ → AsyncLogger
unfolding is_behind
look_at s pos =
    let seq = (slot_at s pos).sequence in
    if seq == pos
    then record s { seen = pos ∷ s.seen }
    else if is_behind seq pos
    then record s { dropped = inc64 s.dropped }
    else record s { entering = s.entering + 1 }

-- The compare-and-exchange of `head_`; when it fails, it loads `head_` again. `weak` is a failure
-- without a reason, which a weak one may have.
unfoldable pub claim_at : AsyncLogger → ℕ → LogRecord → Bool → AsyncLogger
claim_at s pos entry weak =
    if s.head == pos && not weak
    then record s {
      head = inc64 pos;
      pending = (record { pos = pos; entry = entry; filled = false }) ∷ s.pending;
      history = s.history ++ entry ∷ [];
    }
    else record s { loaded = s.head ∷ s.loaded }

-- The thread writes the record into the slot that it has claimed.
unfoldable pub fill_at : AsyncLogger → Claim → AsyncLogger
fill_at s c = record s {
  slots = set s.slots (bit_and c.pos s.mask) (record (slot_at s c.pos) { entry = c.entry });
  pending = (record c { filled = true }) ∷ s.pending;
}

-- It stores the sequence, with which the consumer may read the record.
unfoldable pub publish_at : AsyncLogger → Claim → AsyncLogger
publish_at s c = record s {
  slots = set s.slots (bit_and c.pos s.mask) (record (slot_at s c.pos) { sequence = inc64 c.pos });
}

-- The next access of a thread with a claim.
unfoldable pub go_on : AsyncLogger → Claim → AsyncLogger
unfolding fill_at publish_at
go_on s c = if c.filled then publish_at s c else fill_at s c

-- The store of `try_pop` that frees the slot for the position one round later. No other thread sees
-- what follows: `tail_`, and the record in the sink.
unfoldable pub free_at : AsyncLogger → LogRecord → AsyncLogger
free_at s entry = record s {
  slots =
      set s.slots (bit_and s.tail s.mask)
        (record (slot_at s s.tail) { sequence = add64 (add64 s.tail s.mask) 1 });
  tail = inc64 s.tail;
  sink = s.sink ++ entry ∷ [];
  written = inc64 s.written;
  consumer = Consumer.testing;
}

-- The next access of the consumer: the condition of its loop, and `try_pop`, which gives up when the
-- sequence does not say that the record was published.
unfoldable pub consume_at : AsyncLogger → Consumer → AsyncLogger
unfolding free_at
consume_at s Consumer.testing = record s {
  consumer = if s.stop then Consumer.comparing else Consumer.loading;
}
consume_at s Consumer.comparing = record s {
  consumer = if s.tail != s.head then Consumer.loading else Consumer.ended;
}
consume_at s Consumer.loading = record s {
  consumer =
      if (slot_at s s.tail).sequence == inc64 s.tail then Consumer.copying else Consumer.testing;
}
consume_at s Consumer.copying = record s { consumer = Consumer.freeing (slot_at s s.tail).entry }
consume_at s (Consumer.freeing entry) = free_at s entry
consume_at s Consumer.ended = s

-- The i-th of the threads at a point, and the others.
abbrev pub pick {ℓ} : {A : Type ℓ} → ℕ → List A → Option (A × List A)
pick i [] = none
pick zero (x ∷ xs) = some (x, xs)
pick (suc i) (x ∷ xs) = elim (pick i xs) [ none ↦ none | some p ↦ some (p.0, x ∷ p.1) ]

-- The next step of one thread.
pub data Step : Type 0 where
  begins : Step
  loads : Step
  looks : ℕ → Step
  claims : ℕ → LogRecord → Bool → Step
  publishes : ℕ → Step
  consumes : Step
  stops : Step

abbrev pub look_picked : AsyncLogger → Option (ℕ × List ℕ) → AsyncLogger
look_picked s none = s
look_picked s (some p) = look_at (record s { loaded = p.1 }) p.0

abbrev pub claim_picked : AsyncLogger → LogRecord → Bool → Option (ℕ × List ℕ) → AsyncLogger
claim_picked s entry weak none = s
claim_picked s entry weak (some p) = claim_at (record s { seen = p.1 }) p.0 entry weak

abbrev pub publish_picked : AsyncLogger → Option (Claim × List Claim) → AsyncLogger
publish_picked s none = s
publish_picked s (some p) = go_on (record s { pending = p.1 }) p.0

-- A step of a thread that is not there changes nothing.
unfoldable pub step : AsyncLogger → Step → AsyncLogger
unfolding begin load_head look_at claim_at go_on consume_at request_stop
step s Step.begins = begin s
step s Step.loads = load_head s
step s (Step.looks i) = look_picked s (pick i s.loaded)
step s (Step.claims i entry weak) = claim_picked s entry weak (pick i s.seen)
step s (Step.publishes i) = publish_picked s (pick i s.pending)
step s Step.consumes = consume_at s s.consumer
step s Step.stops = request_stop s

unfoldable pub run : AsyncLogger → List Step → AsyncLogger
unfolding step
run s [] = s
run s (x ∷ xs) = run (step s x) xs
