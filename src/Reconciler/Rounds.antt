-- ===== src/Reconciler/Rounds.antt =====
-- A round of `Reconciler::run` in src/core/reconciler.cpp handles the events that it takes from the
-- rings, each once.
use fx_dropcopy_primary_reco.Prelude.{
  either, ℕ, ◌+◌, ◌≤◌, ◌<◌, ◌≡◌, refl, ap, ◌∙◌, subst, Bool-cases, inl, inr, none, arith, u64, ◌==◌,
  max, if◌then◌else◌,
}
use fx_dropcopy_primary_reco.Event.{Source}
use fx_dropcopy_primary_reco.Clock.{TscCalibration}
use fx_dropcopy_primary_reco.Ring.{try_pop, size_approx}
use fx_dropcopy_primary_reco.Store.{Layout}
use fx_dropcopy_primary_reco.Reconciler.{Reconciler, ring_bits}
use fx_dropcopy_primary_reco.Reconciler.Process.{process_event}
use fx_dropcopy_primary_reco.Reconciler.Sound.{IsSound}
use fx_dropcopy_primary_reco.Reconciler.Events.{Counts, of_feed, HasRoom, process_event-Counts}
use fx_dropcopy_primary_reco.Counters.{ReconCounters}
use fx_dropcopy_primary_reco.Reconciler.Immediate.{process_event-Calm}
use fx_dropcopy_primary_reco.Reconciler.Run.{Loop, consume_primary, consume_dropcopy, consume}
use fx_dropcopy_primary_reco.Reconciler.Feeds.{IsFeed, try_pop-Popped, try_pop-empty}

-- The reconciler is sound, and each ring holds events of its feed.
pub record IsRunning (k : ℕ) (s : Loop) : Type 0 where
  pub sound : IsSound k s.recon
  pub primary : IsFeed Source.primary s.primary
  pub dropcopy : IsFeed Source.drop_copy s.dropcopy

-- p events of the primary feed and d of the drop copy were taken from the rings, and handled.
pub record Takes (k p d : ℕ) (s s' : Loop) : Type 0 where
  pub running : IsRunning k s'
  pub counts : Counts p d s.recon.counters s'.recon.counters
  pub primary_left : size_approx ring_bits s'.primary + p ≡ size_approx ring_bits s.primary
  pub dropcopy_left : size_approx ring_bits s'.dropcopy + d ≡ size_approx ring_bits s.dropcopy
  pub no_wheel : s.recon.timer_wheel ≡ none → s'.recon.timer_wheel ≡ none

-- One event of a ring that holds any.
abbrev pub at_most_one : ℕ → ℕ
at_most_one size = if size == 0 then 0 else 1

pub at_most_one-le : (n : ℕ) → at_most_one n ≤ 1
at_most_one-le n = either (λ m. m ≤ 1) (n == 0) (omega arith) (omega arith)

at_most_one-suc : (m n : ℕ) → m + 1 ≡ n → at_most_one n ≡ 1
at_most_one-suc m n h = ground arith

at_most_one-zero : (n : ℕ) → n ≡ 0 → at_most_one n ≡ 0
at_most_one-zero n h = ground arith

pub uncounted :
    (a b : ReconCounters)
    → a.internal_events ≡ b.internal_events
    → a.dropcopy_events ≡ b.dropcopy_events
    → a.store_overflow ≡ b.store_overflow
    → Counts 0 0 b a
uncounted a b i d o = record {
  primary_refused = 0;
  dropcopy_refused = 0;
  primary_le = omega arith;
  dropcopy_le = omega arith;
  internal_is = omega arith;
  dropcopy_is = omega arith;
  overflow_is = omega arith;
}

pub both-Counts :
    {a b c : ReconCounters} {p d p' d' p'' d'' : ℕ}
    → p'' ≡ p + p'
    → d'' ≡ d + d'
    → Counts p d a b
    → Counts p' d' b c
    → Counts p'' d'' a c
both-Counts e e' x y = record {
  primary_refused = x.primary_refused + y.primary_refused;
  dropcopy_refused = x.dropcopy_refused + y.dropcopy_refused;
  primary_le = omega (arith, x.primary_le, y.primary_le);
  dropcopy_le = omega (arith, x.dropcopy_le, y.dropcopy_le);
  internal_is = omega (arith, x.internal_is, y.internal_is);
  dropcopy_is = omega (arith, x.dropcopy_is, y.dropcopy_is);
  overflow_is = omega (arith, x.overflow_is, y.overflow_is);
}

pub both-Takes :
    {k p d p' d' p'' d'' : ℕ} {s s' s'' : Loop}
    → p'' ≡ p + p'
    → d'' ≡ d + d'
    → Takes k p d s s'
    → Takes k p' d' s' s''
    → Takes k p'' d'' s s''
both-Takes e e' a b = record {
  running = b.running;
  counts = both-Counts e e' a.counts b.counts;
  primary_left = omega (arith, a.primary_left, b.primary_left);
  dropcopy_left = omega (arith, a.dropcopy_left, b.dropcopy_left);
  no_wheel = λ q. b.no_wheel (a.no_wheel q);
}

with_poll-IsSound :
    (k : ℕ) (r : Reconciler) (tsc : ℕ) → IsSound k r → IsSound k (record r { last_poll_tsc = tsc })
with_poll-IsSound k r tsc v = record {
  store_valid = v.store_valid;
  parts_valid = record {
    primary_valid = v.parts_valid.primary_valid;
    dropcopy_valid = v.parts_valid.dropcopy_valid;
    divergences_valid = v.parts_valid.divergences_valid;
    gaps_valid = v.parts_valid.gaps_valid;
  };
}

pub nothing-Takes : (k : ℕ) (s : Loop) → IsRunning k s → Takes k 0 0 s s
nothing-Takes k s v = record {
  running = v;
  counts = uncounted s.recon.counters s.recon.counters refl refl refl;
  primary_left = omega arith;
  dropcopy_left = omega arith;
  no_wheel = λ e. e;
}

-- The counters of events have room for n more.
abbrev pub Room : ℕ → Reconciler → Type 0
Room n r =
    (r.counters.internal_events + n < u64)
    × (r.counters.dropcopy_events + n < u64)
    × (r.counters.store_overflow + n < u64)

room : (r : Reconciler) → Room 1 r → HasRoom r
room r h = record { internal_room = h.0; dropcopy_room = h.1; overflow_room = h.2 }

module _ (l : Layout) (cal : TscCalibration) (k : ℕ) where
  consume_primary-Takes :
      (s : Loop)
      → IsRunning k s
      → Room 1 s.recon
      → Takes k (at_most_one (size_approx ring_bits s.primary)) 0 s (consume_primary l cal s).0
  unfolding consume_primary
  consume_primary-Takes s v h = elim (Bool-cases (try_pop ring_bits s.primary s.primary_evt).2) [
    | inr empty ↦
        let e = try_pop-empty Source.primary s.primary s.primary_evt v.primary empty in
        rw (at_most_one-zero _ e, empty) (nothing-Takes k s v)
    | inl popped ↦
        let p = try_pop-Popped Source.primary s.primary s.primary_evt v.primary popped in
        let ev = (try_pop ring_bits s.primary s.primary_evt).1 in
        let r = process_event l cal s.recon ev in
        let (sound, one) =
          process_event-Counts l cal k s.recon ev v.sound (room s.recon h) p.fits.0 in
        rw (at_most_one-suc _ _ p.fewer, popped)
          (record {
            running = record {
              sound = with_poll-IsSound k r ev.ingest_tsc sound;
              primary = p.feed;
              dropcopy = v.dropcopy;
            };
            counts =
                subst
                  (λ source.
                    Counts (of_feed source Source.primary) (of_feed source Source.drop_copy)
                      s.recon.counters r.counters)
                  p.fits.1 one;
            primary_left = p.fewer;
            dropcopy_left = omega arith;
            no_wheel = λ e. (process_event-Calm l cal s.recon ev e).same_wheel ∙ e;
          })
  ]

  consume_dropcopy-Takes :
      (s : Loop)
      → IsRunning k s
      → Room 1 s.recon
      → Takes k 0 (at_most_one (size_approx ring_bits s.dropcopy)) s (consume_dropcopy l cal s).0
  unfolding consume_dropcopy
  consume_dropcopy-Takes s v h = elim (Bool-cases (try_pop ring_bits s.dropcopy s.dropcopy_evt).2) [
    | inr empty ↦
        let e = try_pop-empty Source.drop_copy s.dropcopy s.dropcopy_evt v.dropcopy empty in
        rw (at_most_one-zero _ e, empty) (nothing-Takes k s v)
    | inl popped ↦
        let p = try_pop-Popped Source.drop_copy s.dropcopy s.dropcopy_evt v.dropcopy popped in
        let ev = (try_pop ring_bits s.dropcopy s.dropcopy_evt).1 in
        let r = process_event l cal s.recon ev in
        let (sound, one) =
          process_event-Counts l cal k s.recon ev v.sound (room s.recon h) p.fits.0 in
        rw (at_most_one-suc _ _ p.fewer, popped)
          (record {
            running = record {
              sound = with_poll-IsSound k r (max r.last_poll_tsc ev.ingest_tsc) sound;
              primary = v.primary;
              dropcopy = p.feed;
            };
            counts =
                subst
                  (λ source.
                    Counts (of_feed source Source.primary) (of_feed source Source.drop_copy)
                      s.recon.counters r.counters)
                  p.fits.1 one;
            primary_left = omega arith;
            dropcopy_left = p.fewer;
            no_wheel = λ e. (process_event-Calm l cal s.recon ev e).same_wheel ∙ e;
          })
  ]

  -- An event of each ring that holds any is taken and handled.
  pub consume-Takes :
      (s : Loop)
      → IsRunning k s
      → Room 2 s.recon
      → Takes k
          (at_most_one (size_approx ring_bits s.primary))
          (at_most_one (size_approx ring_bits s.dropcopy))
          s
          (consume l cal s).0
  unfolding consume
  consume-Takes s v h =
      let a =
        consume_primary-Takes s v (omega (arith, h.0), omega (arith, h.1), omega (arith, h.2)) in
      let s₁ = (consume_primary l cal s).0 in
      let c = a.counts in
      let few = at_most_one-le (size_approx ring_bits s.primary) in
      let room₁ : Room 1 s₁.recon = (
        omega (arith, c.internal_is, h.0),
        omega (arith, c.dropcopy_is, h.1),
        omega (arith, c.overflow_is, c.primary_le, c.dropcopy_le, h.2),
      ) in
      let b = consume_dropcopy-Takes s₁ a.running room₁ in
      let same : size_approx ring_bits s₁.dropcopy ≡ size_approx ring_bits s.dropcopy =
        omega (arith, a.dropcopy_left) in
      let few_d = ap at_most_one same in both-Takes (omega arith) (omega (arith, few_d)) a b
