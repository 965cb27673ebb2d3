-- ===== src/Daemon/Feeds.antt =====
-- What a fragment does to the ring of its feed in src/ingest/aeron_subscriber.cpp.
use fx_dropcopy_primary_reco.Prelude.{
  either, ℕ, ◌+◌, ◌-◌, ◌^◌, ◌≤◌, ◌<◌, ◌≡◌, refl, sym, subst, Bool, Bool-cases, inl, inr, List, [],
  ◌∷◌, ◌++◌, arith, length, length-append, u64, ltb, ◌==◌, if◌then◌else◌, All,
}
use fx_dropcopy_primary_reco.Event.{Source, ExecEvent, from_wire}
use fx_dropcopy_primary_reco.Ring.{SpscRing, try_push, size_approx}
use fx_dropcopy_primary_reco.Ring.Refine.{
  contents, enqueue, try_push_refines, length-contents, try_push-IsValid,
}
use fx_dropcopy_primary_reco.Reconciler.{ring_bits}
use fx_dropcopy_primary_reco.Reconciler.Feeds.{Fits, IsFeed}
use fx_dropcopy_primary_reco.Aeron.{Feed, feed_bits, wire_size, read_wire, push_event, on_fragment}

enqueue-length :
    (limit : ℕ) (q : List ExecEvent) (v : ExecEvent)
    → let (q', done) = enqueue limit q v in length q' + (if done then 0 else 1) ≡ length q + 1
unfolding enqueue
enqueue-length limit q v = elim (Bool-cases (ltb (length q) limit)) [
  | inl fits ↦ rw fits (omega (arith, length-append q (v ∷ [])))
  | inr full ↦ rw full (omega arith)
]

try_push-size :
    (source : Source) (r : SpscRing ExecEvent) (v : ExecEvent)
    → IsFeed source r
    → let p = try_push ring_bits r v in
      size_approx ring_bits p.0 + (if p.1 then 0 else 1) ≡ size_approx ring_bits r + 1
try_push-size source r v f =
    let p = try_push ring_bits r v in
    let e = try_push_refines ring_bits v r v f.valid in
    let q = contents ring_bits v r in
    let n = enqueue-length (2 ^ ring_bits - 1) q v in
    let m = subst (λ t. length t.0 + (if t.1 then 0 else 1) ≡ length q + 1) (sym e) n in
    omega (arith, m, length-contents ring_bits v p.0, length-contents ring_bits v r)

All-enqueue :
    (source : Source) (limit : ℕ) (q : List ExecEvent) (v : ExecEvent)
    → All (Fits source) q
    → Fits source v
    → All (Fits source) (enqueue limit q v).0
unfolding enqueue
All-enqueue source limit q v h fits =
    either (λ (p : List ExecEvent × Bool). All (Fits source) p.0) (ltb (length q) limit)
      (All-append q h) h
  where
    All-append : (xs : List ExecEvent) → All (Fits source) xs → All (Fits source) (xs ++ v ∷ [])
    All-append [] h = (fits, tt)
    All-append (x ∷ xs) h = (h.0, All-append xs h.1)

try_push-IsFeed :
    (source : Source) (r : SpscRing ExecEvent) (v : ExecEvent)
    → IsFeed source r
    → Fits source v
    → IsFeed source (try_push ring_bits r v).0
try_push-IsFeed source r v f h = record {
  valid = try_push-IsValid ring_bits r v f.valid;
  fit = λ d.
      subst (λ p. All (Fits source) p.0) (sym (try_push_refines ring_bits d r v f.valid))
        (All-enqueue source (2 ^ ring_bits - 1) (contents ring_bits d r) v (f.fit d) h);
}

-- The fragments that a feed's ring holds, and those that were lost.
abbrev pub weight : Feed → ℕ
weight f = size_approx feed_bits f.ring + f.stats.parse_failures + f.stats.drops

-- One more fragment, in the ring or lost.
pub record Weighs (source : Source) (f f' : Feed) : Type 0 where
  pub feed : IsFeed source f'.ring
  pub one : weight f' ≡ weight f + 1
  pub size_le : size_approx feed_bits f'.ring ≤ size_approx feed_bits f.ring + 1

push_event-Weighs :
    (source : Source) (f : Feed) (ev : ExecEvent)
    → IsFeed source f.ring
    → Fits source ev
    → f.stats.drops + 1 < u64
    → Weighs source f (push_event f ev)
unfolding push_event
push_event-Weighs source f ev v h low =
    let p = try_push feed_bits f.ring ev in
    let n = try_push-size source f.ring ev v in
    let good = try_push-IsFeed source f.ring ev v h in
    let count : Bool → Type 0 =
      λ b. size_approx ring_bits p.0 + (if b then 0 else 1) ≡ size_approx ring_bits f.ring + 1 in
    elim (Bool-cases p.1) [
      | inl done ↦
          let m = subst count done n in
          rw done (record { feed = good; one = omega (arith, m); size_le = omega (arith, m) })
      | inr full ↦ rw full (record { feed = v; one = omega arith; size_le = omega arith })
    ]

pub on_fragment-Weighs :
    (source : Source) (tsc : ℕ) (f : Feed) (bytes : List ℕ)
    → IsFeed source f.ring
    → (read_wire bytes).seq_num + 1 < u64
    → f.stats.drops + 1 < u64
    → f.stats.parse_failures + 1 < u64
    → Weighs source f (on_fragment source tsc f bytes)
unfolding on_fragment from_wire
on_fragment-Weighs source tsc f bytes v h low low' =
    either (Weighs source f) (length bytes == wire_size)
      (push_event-Weighs source f (from_wire (read_wire bytes) source tsc) v (h, refl) low)
      (record { feed = v; one = omega arith; size_le = omega arith })
