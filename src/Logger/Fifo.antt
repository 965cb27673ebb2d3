-- ===== src/Logger/Fifo.antt =====
-- The logger of src/util/async_log.cpp in order, and a claim taken out of those that are open.
use fx_dropcopy_primary_reco.Prelude.{
  ℕ, ◌+◌, ◌-◌, ◌^◌, ◌≤◌, ◌<◌, ◌≡◌, ◌≢◌, ap, sym, ◌∙◌, ◌⊎◌, inl, inr, Option, none, some, List, [],
  ◌∷◌, get_or, All, take, bit_and, bit_and_mask,
}
use fx_dropcopy_primary_reco.Logger.{AsyncLogger, Slot, empty_slot, Claim, pick, slot_at}
use fx_dropcopy_primary_reco.Logger.Record.{LogRecord}
use fx_dropcopy_primary_reco.Logger.Slots.{OnPick, pick-OnPick}
use fx_dropcopy_primary_reco.Logger.Invariant.{slot, Core, Has, Distinct, IsOpen, Reading}
use fx_dropcopy_primary_reco.Logger.Keeping.{Splits}

-- A logger of 2 ^ k slots that is to take `budget` more steps.
pub record IsFine (k budget : ℕ) (s : AsyncLogger) : Type 0 where
  pub core : Core k s.head s.tail s.slots s.pending s.history
  pub wide : 1 < 2 ^ k
  pub mask_eq : s.mask ≡ 2 ^ k - 1
  pub room : s.head + budget + 2 ^ k < 9_223_372_036_854_775_808
  pub loaded_ok : All (λ p. p ≤ s.head) s.loaded
  pub seen_ok : All (λ p. p < s.tail + 2 ^ k) s.seen
  pub sink_eq : s.sink ≡ take s.tail s.history
  pub reading : Reading k s.tail s.slots s.history s.consumer

pub All-weaken : (P Q : ℕ → Type 0) (xs : List ℕ) → ((p : ℕ) → P p → Q p) → All P xs → All Q xs
All-weaken P Q [] f h = tt
All-weaken P Q (x ∷ xs) f h = (f x h.0, All-weaken P Q xs f h.1)

pub slot_at-eq :
    (k budget : ℕ) (s : AsyncLogger) (p : ℕ) → IsFine k budget s → slot_at s p ≡ slot k s.slots p
slot_at-eq k budget s p v =
    ap (λ m. get_or s.slots (bit_and p m) empty_slot) v.mask_eq
    ∙ ap (λ i. get_or s.slots i empty_slot) (bit_and_mask k p)

-- The claim that was taken out has a position of its own, and the others keep theirs.
abbrev pub Alone : Claim → List Claim → List Claim → Type 0
Alone c rest cs =
    (Distinct cs → All (λ d. d.pos ≢ c.pos) rest × Distinct rest)
    × ((p : ℕ) → All (λ d. d.pos ≢ p) cs → (c.pos ≢ p) × All (λ d. d.pos ≢ p) rest)
    × ((p : ℕ) → Has p cs → (p ≡ c.pos) ⊎ Has p rest)

Alone-later : (d c : Claim) (rest cs : List Claim) → Alone c rest cs → Alone c (d ∷ rest) (d ∷ cs)
Alone-later d c rest cs (a, b, h) = (
  λ q.
      let (own, others) = b d.pos q.0 in
      let (ne, distinct) = a q.1 in (((λ e. own (sym e)), ne), (others, distinct)),
  λ p q. let (own, others) = b p q.1 in (own, (q.0, others)),
  λ p q. elim q [
    | inl e ↦ inr (inl e)
    | inr m ↦ elim (h p m) [ inl e ↦ inl e | inr r ↦ inr (inr r) ]
  ],
)

pub Alone-pick : (i : ℕ) (cs : List Claim) → OnPick (λ c rest. Alone c rest cs) (pick i cs)
Alone-pick i cs = pick-OnPick Alone (λ c rest. ((λ q. q), (λ p q. q), (λ p q. q))) Alone-later i cs

-- One claim taken out of those that are open.
pub Splits-pick :
    (k head tail : ℕ) (slots : List Slot) (pending : List Claim) (history : List LogRecord)
    (v : Core k head tail slots pending history) (o : Option (Claim × List Claim))
    → OnPick (λ c rest. Alone c rest pending) o
    → OnPick
        (λ c rest.
          All (IsOpen k head tail slots history) pending
          → IsOpen k head tail slots history c × All (IsOpen k head tail slots history) rest)
        o
    → OnPick (λ c rest. Splits k head tail slots pending history v c rest) o
Splits-pick k head tail slots pending history v none a b = tt
Splits-pick k head tail slots pending history v (some p) a b =
    let (is_open, others) = b v.open_claims in
    let (apart_from, distinct) = a.0 v.distinct in
    record {
      is_open = is_open;
      others = others;
      apart_from = apart_from;
      distinct = distinct;
      has = a.2;
    }
