-- ===== src/Daemon/Conserved.antt =====
-- Every fragment that reaches the daemon of src/api/recond_main.cpp is accounted for.
use fx_dropcopy_primary_reco.Prelude.{
  ℕ, ◌+◌, ◌-◌, ◌≤◌, ◌<◌, ◌≡◌, refl, ap, ◌∙◌, inl, none, some, List, [], ◌∷◌, arith, u64,
}
use fx_dropcopy_primary_reco.Event.{Source, empty_event}
use fx_dropcopy_primary_reco.Clock.{TscCalibration}
use fx_dropcopy_primary_reco.Ring
use fx_dropcopy_primary_reco.Sequence.{empty_gap_event}
use fx_dropcopy_primary_reco.Sequence.Invariant.{empty-IsValid}
use fx_dropcopy_primary_reco.Divergence.{empty_divergence}
use fx_dropcopy_primary_reco.Store.View
use fx_dropcopy_primary_reco.Reconciler.Run.{Loop, enter}
use fx_dropcopy_primary_reco.Ring.{SpscRing, try_push, size_approx}
use fx_dropcopy_primary_reco.Ring.Window.{window}
use fx_dropcopy_primary_reco.Ring.Refine.{make-IsValid}
use fx_dropcopy_primary_reco.Store.{Layout, OrderStateStore}
use fx_dropcopy_primary_reco.Reconciler.{ring_bits}
use fx_dropcopy_primary_reco.Reconciler.Rounds.{IsRunning, Room, Takes, at_most_one, consume-Takes}
use fx_dropcopy_primary_reco.Reconciler.Feeds.{IsFeed}
use fx_dropcopy_primary_reco.Reconciler.Events.{of_feed}
use fx_dropcopy_primary_reco.Reconciler.Turns.{round-Takes}
use fx_dropcopy_primary_reco.Aeron.{Feed, read_wire}
use fx_dropcopy_primary_reco.Daemon.{make_reconciler, start_daemon, Daemon, deliver, Step, run}
use fx_dropcopy_primary_reco.Daemon.Feeds.{on_fragment-Weighs}

-- What a feed's fragments have become: events that were handled, events that wait in the ring,
-- fragments of a wrong length, and events that were dropped since the ring was full.
abbrev pub held : Source → Daemon → ℕ
held Source.primary d =
    d.loop.recon.counters.internal_events
    + size_approx ring_bits d.loop.primary
    + d.primary_stats.parse_failures
    + d.primary_stats.drops
held Source.drop_copy d =
    d.loop.recon.counters.dropcopy_events
    + size_approx ring_bits d.loop.dropcopy
    + d.dropcopy_stats.parse_failures
    + d.dropcopy_stats.drops

-- With the events of both feeds that found no room in the store.
abbrev pub account : Daemon → ℕ
account d = held Source.primary d + held Source.drop_copy d + d.loop.recon.counters.store_overflow

-- p more fragments of the primary feed and d of the drop copy, of which the store had no room for
-- `primary_refused` and `dropcopy_refused`.
pub record Accounts (p d : ℕ) (a b : Daemon) : Type 0 where
  pub primary_refused : ℕ
  pub dropcopy_refused : ℕ
  pub primary_is : held Source.primary b + primary_refused ≡ held Source.primary a + p
  pub dropcopy_is : held Source.drop_copy b + dropcopy_refused ≡ held Source.drop_copy a + d
  pub overflow_is :
      b.loop.recon.counters.store_overflow
      ≡ a.loop.recon.counters.store_overflow + primary_refused + dropcopy_refused
  pub internal_grows : a.loop.recon.counters.internal_events ≤ b.loop.recon.counters.internal_events
  pub dropcopy_grows : a.loop.recon.counters.dropcopy_events ≤ b.loop.recon.counters.dropcopy_events

both-Accounts :
    {a b c : Daemon} {p d p' d' p'' d'' : ℕ}
    → p'' ≡ p + p'
    → d'' ≡ d + d'
    → Accounts p d a b
    → Accounts p' d' b c
    → Accounts p'' d'' a c
both-Accounts e e' x y = record {
  primary_refused = x.primary_refused + y.primary_refused;
  dropcopy_refused = x.dropcopy_refused + y.dropcopy_refused;
  primary_is = omega (arith, x.primary_is, y.primary_is);
  dropcopy_is = omega (arith, x.dropcopy_is, y.dropcopy_is);
  overflow_is = omega (arith, x.overflow_is, y.overflow_is);
  internal_grows = omega (arith, x.internal_grows, y.internal_grows);
  dropcopy_grows = omega (arith, x.dropcopy_grows, y.dropcopy_grows);
}

-- A daemon without a timer wheel, as it is started.
pub record IsUp (k : ℕ) (d : Daemon) : Type 0 where
  pub running : IsRunning k d.loop
  pub no_wheel : d.loop.recon.timer_wheel ≡ none

-- Nothing was refused: the fragment is held.
held-Accounts :
    (p n : ℕ) (a b : Daemon)
    → b.loop.recon.counters ≡ a.loop.recon.counters
    → held Source.primary b ≡ held Source.primary a + p
    → held Source.drop_copy b ≡ held Source.drop_copy a + n
    → Accounts p n a b
held-Accounts p n a b e h h' = record {
  primary_refused = 0;
  dropcopy_refused = 0;
  primary_is = omega arith;
  dropcopy_is = omega arith;
  overflow_is = omega (arith, ap (λ c. c.store_overflow) e);
  internal_grows = omega (arith, ap (λ c. c.internal_events) e);
  dropcopy_grows = omega (arith, ap (λ c. c.dropcopy_events) e);
}

-- The events that wait in a feed's ring.
abbrev pub waiting : Source → Daemon → ℕ
waiting Source.primary d = size_approx ring_bits d.loop.primary
waiting Source.drop_copy d = size_approx ring_bits d.loop.dropcopy

each_feed :
    (d d' : Daemon) (source : Source)
    → waiting Source.primary d' ≤ waiting Source.primary d + of_feed source Source.primary
    → waiting Source.drop_copy d' ≤ waiting Source.drop_copy d + of_feed source Source.drop_copy
    → (feed : Source) → waiting feed d' ≤ waiting feed d + of_feed source feed
each_feed d d' source a b Source.primary = a
each_feed d d' source a b Source.drop_copy = b

deliver-Accounts :
    (k : ℕ) (d : Daemon) (source : Source) (tsc : ℕ) (bytes : List ℕ)
    → IsUp k d
    → (read_wire bytes).seq_num + 1 < u64
    → account d + 1 < u64
    → IsUp k (deliver d source tsc bytes)
      × Accounts
          (of_feed source Source.primary)
          (of_feed source Source.drop_copy)
          d
          (deliver d source tsc bytes)
      × ((feed : Source)
          → waiting feed (deliver d source tsc bytes) ≤ waiting feed d + of_feed source feed)
unfolding deliver
deliver-Accounts k d Source.primary tsc bytes v h low =
    let f : Feed = record { ring = d.loop.primary; stats = d.primary_stats } in
    let w =
      on_fragment-Weighs Source.primary tsc f bytes v.running.primary h (omega arith)
        (omega arith) in
    (
      record {
        running = record {
          sound = v.running.sound;
          primary = w.feed;
          dropcopy = v.running.dropcopy;
        };
        no_wheel = v.no_wheel;
      },
      held-Accounts 1 0 d _ refl (omega (arith, w.one)) (omega arith),
      each_feed d _ Source.primary w.size_le (omega arith),
    )
deliver-Accounts k d Source.drop_copy tsc bytes v h low =
    let f : Feed = record { ring = d.loop.dropcopy; stats = d.dropcopy_stats } in
    let w =
      on_fragment-Weighs Source.drop_copy tsc f bytes v.running.dropcopy h (omega arith)
        (omega arith) in
    (
      record {
        running = record {
          sound = v.running.sound;
          primary = v.running.primary;
          dropcopy = w.feed;
        };
        no_wheel = v.no_wheel;
      },
      held-Accounts 0 1 d _ refl (omega arith) (omega (arith, w.one)),
      each_feed d _ Source.drop_copy (omega arith) w.size_le,
    )

-- A round moves events from the rings to the counters.
round-Accounts :
    {k p n : ℕ} (d : Daemon) (s : Loop)
    → Takes k p n d.loop s
    → Accounts 0 0 d (record d { loop = s })
round-Accounts d s t =
    let c = t.counts in
    record {
      primary_refused = c.primary_refused;
      dropcopy_refused = c.dropcopy_refused;
      primary_is = omega (arith, c.internal_is, t.primary_left);
      dropcopy_is = omega (arith, c.dropcopy_is, t.dropcopy_left);
      overflow_is = c.overflow_is;
      internal_grows = omega (arith, c.internal_is, c.primary_le);
      dropcopy_grows = omega (arith, c.dropcopy_is, c.dropcopy_le);
    }

-- What would wait of n events and of those of the fragments, with one event taken in each round.
abbrev pub backlog : Source → ℕ → List Step → ℕ
backlog feed n [] = n
backlog feed n (Step.fragment source tsc bytes ∷ steps) =
    backlog feed (n + of_feed source feed) steps
backlog feed n (Step.polls now ∷ steps) = backlog feed (n - 1) steps

backlog-le :
    (feed : Source) (m n : ℕ) (steps : List Step)
    → m ≤ n
    → backlog feed m steps ≤ backlog feed n steps
backlog-le feed m n [] h = h
backlog-le feed m n (Step.fragment source tsc bytes ∷ steps) h =
    backlog-le feed (m + of_feed source feed) (n + of_feed source feed) steps (omega arith)
backlog-le feed m n (Step.polls now ∷ steps) h = backlog-le feed (m - 1) (n - 1) steps (omega arith)

of_feed-one : (s : Source) → of_feed s Source.primary + of_feed s Source.drop_copy ≡ 1
of_feed-one Source.primary = refl
of_feed-one Source.drop_copy = refl

round-waiting :
    {k : ℕ} (d : Daemon) (s : Loop)
    → Takes k
        (at_most_one (waiting Source.primary d))
        (at_most_one (waiting Source.drop_copy d))
        d.loop
        s
    → (feed : Source) → waiting feed (record d { loop = s }) ≤ waiting feed d - 1
round-waiting d s t Source.primary = let e = t.primary_left in ground arith
round-waiting d s t Source.drop_copy = let e = t.dropcopy_left in ground arith

-- The fragments of a feed.
abbrev pub fragments : Source → List Step → ℕ
fragments feed [] = 0
fragments feed (Step.fragment source tsc bytes ∷ steps) = of_feed source feed + fragments feed steps
fragments feed (Step.polls now ∷ steps) = fragments feed steps

-- No fragment carries the last sequence number that there is.
abbrev pub AllFit : List Step → Type 0
AllFit [] = Unit
AllFit (Step.fragment source tsc bytes ∷ steps) =
    ((read_wire bytes).seq_num + 1 < u64) × AllFit steps
AllFit (Step.polls now ∷ steps) = AllFit steps

-- A daemon without a timer wheel runs through any fragments and rounds, in any order, with no fuel for
-- timers. For each feed by itself, each fragment is accounted for: the reconciler counted it once, by the
-- counter of that feed or as one that found no room in the store, or it waits in that feed's ring, or
-- that feed's thread counted it as dropped or as not parsed. The rings hold events of their feed, and no
-- more wait in a ring than when every round takes one of those that wait. No sequence number may be the last 64-bit one, and the counts have to fit.
pub run-Accounts :
    (l : Layout) (cal : TscCalibration) (k : ℕ) (d : Daemon) (steps : List Step)
    → IsUp k d
    → AllFit steps
    → account d + fragments Source.primary steps + fragments Source.drop_copy steps + 2 < u64
    → (d' : Daemon) × (run l cal 0 0 d steps ≡ some d')
      × IsUp k d'
      × Accounts (fragments Source.primary steps) (fragments Source.drop_copy steps) d d'
      × ((feed : Source) → waiting feed d' ≤ backlog feed (waiting feed d) steps)
unfolding run
run-Accounts l cal k d [] v fit low =
    (d, refl, v, held-Accounts 0 0 d d refl (omega arith) (omega arith), λ feed. omega arith)
run-Accounts l cal k d (Step.fragment source tsc bytes ∷ steps) v fit low =
    let one = of_feed-one source in
    let (up, a, more) = deliver-Accounts k d source tsc bytes v fit.0 (omega arith) in
    let (d', ran, up', rest, few) =
      run-Accounts l cal k (deliver d source tsc bytes) steps up fit.1
        (omega (arith, a.primary_is, a.dropcopy_is, a.overflow_is)) in
    (
      d',
      ran,
      up',
      both-Accounts refl refl a rest,
      λ feed. omega (
        arith,
        few feed,
        backlog-le feed (waiting feed (deliver d source tsc bytes))
            (waiting feed d + of_feed source feed) steps (more feed),
      ),
    )
run-Accounts l cal k d (Step.polls now ∷ steps) v fit low =
    let room : Room 2 d.loop.recon = (omega arith, omega arith, omega arith) in
    let taken = consume-Takes l cal k d.loop v.running room in
    let (s, turned, c) =
      round-Takes l cal k 0 0 d.loop now v.running room (inl (taken.no_wheel v.no_wheel)) in
    let d₁ : Daemon = record d { loop = s } in
    let up : IsUp k d₁ = record { running = c.running; no_wheel = c.no_wheel v.no_wheel } in
    let a : Accounts 0 0 d d₁ = round-Accounts d s c in
    let (d', ran, up', rest, few) =
      run-Accounts l cal k d₁ steps up fit
        (omega (arith, a.primary_is, a.dropcopy_is, a.overflow_is)) in
    (
      d',
      ap (λ o. elim o [ none ↦ none | some t ↦ run l cal 0 0 (record d { loop = t }) steps ]) turned
          ∙ ran,
      up',
      both-Accounts (omega arith) (omega arith) a rest,
      λ feed. omega (
        arith,
        few feed,
        backlog-le feed (waiting feed d₁) (waiting feed d - 1) steps (round-waiting d s c feed),
      ),
    )

fresh-IsFeed : (source : Source) → IsFeed source (Ring.make ring_bits empty_event)
unfolding Ring.make size_approx window
fresh-IsFeed source = record { valid = make-IsValid ring_bits empty_event; fit = λ d. tt }

-- A daemon that starts on a well-formed store is up.
pub start_daemon-IsUp :
    (k : ℕ) (store : OrderStateStore) (tsc tsc' : ℕ)
    → View.IsValid k store
    → IsUp k (start_daemon store tsc tsc')
unfolding start_daemon make_reconciler enter
start_daemon-IsUp k store tsc tsc' v = record {
  running = record {
    sound = record {
      store_valid = v;
      parts_valid = record {
        primary_valid = empty-IsValid;
        dropcopy_valid = empty-IsValid;
        divergences_valid = make-IsValid ring_bits empty_divergence;
        gaps_valid = make-IsValid ring_bits empty_gap_event;
      };
    };
    primary = fresh-IsFeed Source.primary;
    dropcopy = fresh-IsFeed Source.drop_copy;
  };
  no_wheel = refl;
}
