-- ===== src/Reconciler/Feeds.antt =====
-- The rings that `Reconciler::run` of src/core/reconciler.cpp takes its events from.
use fx_dropcopy_primary_reco.Prelude.{
  ◌+◌, ◌<◌, ◌≡◌, refl, sym, ◌∙◌, subst, Bool, true, false, Bool-cases, inl, inr, List, [], ◌∷◌,
  arith, length, All, u64, ◌==◌,
}
use fx_dropcopy_primary_reco.Event.{Source, ExecEvent}
use fx_dropcopy_primary_reco.Ring.{SpscRing, try_pop, size_approx}
use fx_dropcopy_primary_reco.Ring.Refine
use fx_dropcopy_primary_reco.Ring.Refine.{
  contents, dequeue, try_pop_refines, length-contents, try_pop-IsValid,
}
use fx_dropcopy_primary_reco.Reconciler.{ring_bits}

-- An event of the feed, after whose number the tracker's expected number is still a 64-bit number.
abbrev pub Fits : Source → ExecEvent → Type 0
Fits source ev = (ev.seq_num + 1 < u64) × (ev.source ≡ source)

-- A well-formed ring that holds events of the feed alone. `contents` has a default for the cells out of
-- range, which there are none of.
pub record IsFeed (source : Source) (r : SpscRing ExecEvent) : Type 0 where
  pub valid : Refine.IsValid ring_bits r
  pub fit : (d : ExecEvent) → All (Fits source) (contents ring_bits d r)

-- What a `pop` of a queue takes and leaves.
record Dequeued (source : Source) (q : List ExecEvent) (p : List ExecEvent × ExecEvent × Bool)
    : Type 0 where
  pub left : p.2 ≡ true → All (Fits source) p.0 × Fits source p.1 × (length p.0 + 1 ≡ length q)
  pub empty : p.2 ≡ false → length q ≡ 0

dequeue-Dequeued :
    (source : Source) (q : List ExecEvent) (d : ExecEvent)
    → All (Fits source) q
    → Dequeued source q (dequeue q d)
unfolding dequeue
dequeue-Dequeued source [] d h = record { left = λ e. absurd (ground arith); empty = λ e. refl }
dequeue-Dequeued source (x ∷ q) d h = record {
  left = λ e. (h.1, h.0, omega arith);
  empty = λ e. absurd (ground arith);
}

-- What is left in the ring does not depend on what `out` held.
try_pop-left :
    (r : SpscRing ExecEvent) (d e : ExecEvent)
    → ((try_pop ring_bits r d).0 ≡ (try_pop ring_bits r e).0)
      × ((try_pop ring_bits r d).2 ≡ (try_pop ring_bits r e).2)
unfolding try_pop
try_pop-left r d e = elim (Bool-cases (r.tail == r.head)) [
  | inl same ↦ rw same (refl, refl)
  | inr other ↦ rw other (refl, refl)
]

popped-Dequeued :
    (source : Source) (r : SpscRing ExecEvent) (d : ExecEvent)
    → IsFeed source r
    → let p = try_pop ring_bits r d in
      Dequeued source (contents ring_bits d r) (contents ring_bits d p.0, p.1, p.2)
popped-Dequeued source r d f =
    subst (Dequeued source (contents ring_bits d r)) (sym (try_pop_refines ring_bits d r f.valid))
      (dequeue-Dequeued source (contents ring_bits d r) d (f.fit d))

-- What a successful pop does: one event less, and one of the feed.
pub record Popped (source : Source) (r r' : SpscRing ExecEvent) (ev : ExecEvent) : Type 0 where
  pub feed : IsFeed source r'
  pub fits : Fits source ev
  pub fewer : size_approx ring_bits r' + 1 ≡ size_approx ring_bits r

pub try_pop-Popped :
    (source : Source) (r : SpscRing ExecEvent) (out : ExecEvent)
    → IsFeed source r
    → (try_pop ring_bits r out).2 ≡ true
    → Popped source r (try_pop ring_bits r out).0 (try_pop ring_bits r out).1
try_pop-Popped source r out f h =
    let p = try_pop ring_bits r out in
    let (rest, fits, fewer) = (popped-Dequeued source r out f).left h in
    record {
      feed = record {
        valid = try_pop-IsValid ring_bits r out f.valid;
        fit = λ d.
            let (same, done) = try_pop-left r d out in
            subst (λ t. All (Fits source) (contents ring_bits d t)) same
              ((popped-Dequeued source r d f).left (done ∙ h)).0;
      };
      fits = fits;
      fewer =
          omega (arith, fewer, length-contents ring_bits out p.0, length-contents ring_bits out r);
    }

pub try_pop-empty :
    (source : Source) (r : SpscRing ExecEvent) (out : ExecEvent)
    → IsFeed source r
    → (try_pop ring_bits r out).2 ≡ false
    → size_approx ring_bits r ≡ 0
try_pop-empty source r out f h =
    omega (arith, (popped-Dequeued source r out f).empty h, length-contents ring_bits out r)
