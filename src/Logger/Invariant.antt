-- ===== src/Logger/Invariant.antt =====
-- The invariant of the ring in src/util/async_log.cpp.
use fx_dropcopy_primary_reco.Prelude.{
  ℕ, ◌+◌, ◌%◌, ◌^◌, ◌≤◌, ◌<◌, ◌≡◌, ◌≢◌, ap, sym, ◌∙◌, ◌⊎◌, inl, inr, List, [], ◌∷◌, ◌++◌, arith,
  length, get_or, set, get_or-set_self, get_or-set_ne, All, pow-pos, Bool-cases, ltb, true,
}
use fx_dropcopy_primary_reco.Logger.{Slot, empty_slot, Claim, Consumer}
use fx_dropcopy_primary_reco.Logger.Record.{LogRecord, empty_record}
use fx_dropcopy_primary_reco.Logger.Slots.{mod-ne, get_or-append_lt}

-- The slot of a position.
abbrev pub slot : ℕ → List Slot → ℕ → Slot
slot k slots p = get_or slots (p % 2 ^ k) empty_slot

abbrev pub recorded : List LogRecord → ℕ → LogRecord
recorded history p = get_or history p empty_record

-- A thread has claimed the position and not yet published it.
abbrev pub Has : ℕ → List Claim → Type 0
Has p [] = ⊥
Has p (c ∷ cs) = (p ≡ c.pos) ⊎ Has p cs

abbrev pub Distinct : List Claim → Type 0
Distinct [] = Unit
Distinct (c ∷ cs) = All (λ d. d.pos ≢ c.pos) cs × Distinct cs

-- A claimed position that the consumer has not come to: its thread is still to publish it, or its slot
-- holds the record of the claim.
abbrev pub Held : ℕ → List Slot → List Claim → List LogRecord → ℕ → Type 0
Held k slots pending history p =
    (((slot k slots p).sequence ≡ p) × Has p pending)
    ⊎ (((slot k slots p).sequence ≡ p + 1) × ((slot k slots p).entry ≡ recorded history p))

abbrev pub IsOpen : ℕ → ℕ → ℕ → List Slot → List LogRecord → Claim → Type 0
IsOpen k head tail slots history c =
    (tail ≤ c.pos)
    × (c.pos < head)
    × ((slot k slots c.pos).sequence ≡ c.pos)
    × (c.entry ≡ recorded history c.pos)
    × (c.filled ≡ true → (slot k slots c.pos).entry ≡ c.entry)

pub record Core (k head tail : ℕ) (slots : List Slot) (pending : List Claim)
    (history : List LogRecord) : Type 0 where
  pub cells : length slots ≡ 2 ^ k
  pub low : tail ≤ head
  pub high : head ≤ tail + 2 ^ k
  pub logged : length history ≡ head
  pub ahead : (p : ℕ) → head ≤ p → p < tail + 2 ^ k → (slot k slots p).sequence ≡ p
  pub behind : (p : ℕ) → tail ≤ p → p < head → Held k slots pending history p
  pub open_claims : All (IsOpen k head tail slots history) pending
  pub distinct : Distinct pending

-- What the consumer knows of the slot at its position: the record was published, and its copy is the
-- record of the claim.
abbrev pub Reading : ℕ → ℕ → List Slot → List LogRecord → Consumer → Type 0
Reading k tail slots history Consumer.copying = (slot k slots tail).sequence ≡ tail + 1
Reading k tail slots history (Consumer.freeing entry) =
    ((slot k slots tail).sequence ≡ tail + 1) × (entry ≡ recorded history tail)
Reading k tail slots history _ = Unit

-- It goes on to hold while that slot is not written.
pub Reading-same :
    (k tail : ℕ) (slots slots' : List Slot) (history : List LogRecord) (c : Consumer)
    → ((slot k slots tail).sequence ≡ tail + 1 → slot k slots' tail ≡ slot k slots tail)
    → Reading k tail slots history c
    → Reading k tail slots' history c
Reading-same k tail slots slots' history Consumer.testing f h = tt
Reading-same k tail slots slots' history Consumer.comparing f h = tt
Reading-same k tail slots slots' history Consumer.loading f h = tt
Reading-same k tail slots slots' history Consumer.copying f h = ap (λ x. x.sequence) (f h) ∙ h
Reading-same k tail slots slots' history (Consumer.freeing entry) f h =
    (ap (λ x. x.sequence) (f h.0) ∙ h.0, h.1)
Reading-same k tail slots slots' history Consumer.ended f h = tt

pub All-map :
    {P Q : Claim → Type 0} (xs : List Claim) → ((c : Claim) → P c → Q c) → All P xs → All Q xs
All-map [] f h = tt
All-map (x ∷ xs) f h = (f x h.0, All-map xs f h.1)

pub All-both :
    {P Q R : Claim → Type 0} (xs : List Claim)
    → ((c : Claim) → P c → Q c → R c)
    → All P xs
    → All Q xs
    → All R xs
All-both [] f h k = tt
All-both (x ∷ xs) f h k = (f x h.0 k.0, All-both xs f h.1 k.1)

-- What holds of a position goes on where its slot was not written.
pub Held-same :
    (k : ℕ) (slots slots' : List Slot) (pending rest : List Claim) (history : List LogRecord)
    (p : ℕ)
    → slot k slots' p ≡ slot k slots p
    → (Has p pending → Has p rest)
    → Held k slots pending history p
    → Held k slots' rest history p
Held-same k slots slots' pending rest history p e f (inl h) =
    inl (ap (λ x. x.sequence) e ∙ h.0, f h.1)
Held-same k slots slots' pending rest history p e f (inr h) =
    inr (ap (λ x. x.sequence) e ∙ h.0, ap (λ x. x.entry) e ∙ h.1)

pub IsOpen-same :
    (k head tail tail' : ℕ) (slots slots' : List Slot) (history : List LogRecord) (c : Claim)
    → slot k slots' c.pos ≡ slot k slots c.pos
    → tail' ≤ c.pos
    → IsOpen k head tail slots history c
    → IsOpen k head tail' slots' history c
IsOpen-same k head tail tail' slots slots' history c e low h =
    (low, h.1, ap (λ x. x.sequence) e ∙ h.2, h.3, λ f. ap (λ x. x.entry) e ∙ h.4 f)

pub recorded_lt :
    (history : List LogRecord) (entry : LogRecord) (p : ℕ)
    → p < length history
    → recorded (history ++ entry ∷ []) p ≡ recorded history p
recorded_lt history entry p h = get_or-append_lt history (entry ∷ []) p empty_record h

-- The slots after the one of position q was written.
pub written : ℕ → List Slot → ℕ → Slot → List Slot
written k slots q new = set slots (q % 2 ^ k) new

pub at_written :
    (k : ℕ) (slots : List Slot) (q : ℕ) (new : Slot)
    → length slots ≡ 2 ^ k
    → slot k (set slots (q % 2 ^ k) new) q ≡ new
at_written k slots q new h =
    let m = pow-pos k in get_or-set_self slots (q % 2 ^ k) new empty_slot (rw h (grind arith))

pub elsewhere :
    (k : ℕ) (slots : List Slot) (q p : ℕ) (new : Slot)
    → q % 2 ^ k ≢ p % 2 ^ k
    → slot k (set slots (q % 2 ^ k) new) p ≡ slot k slots p
elsewhere k slots q p new h = get_or-set_ne slots (q % 2 ^ k) (p % 2 ^ k) new empty_slot h

-- Two positions of one round of the ring.
pub apart :
    (k tail p q : ℕ)
    → tail ≤ p
    → tail ≤ q
    → p < tail + 2 ^ k
    → q < tail + 2 ^ k
    → p ≢ q
    → p % 2 ^ k ≢ q % 2 ^ k
apart k tail p q a b c d ne e = elim (Bool-cases (ltb p q)) [
  | inl less ↦ mod-ne (2 ^ k) p q (pow-pos k) (ground arith) (omega arith) e
  | inr more ↦ mod-ne (2 ^ k) q p (pow-pos k) (ground arith) (omega arith) (sym e)
]
