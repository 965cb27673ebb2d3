-- ===== src/Reconciler/Events.antt =====
-- The handling of an event in src/core/reconciler.cpp: the invariant, and the count of the events.
use fx_dropcopy_primary_reco.Prelude.{
  ℕ, ◌+◌, ◌≤◌, ◌<◌, ◌≡◌, refl, ◌∙◌, arith, Option, none, some, u64,
}
use fx_dropcopy_primary_reco.Event.{Source, ExecEvent}
use fx_dropcopy_primary_reco.Clock.{TscCalibration}
use fx_dropcopy_primary_reco.Order.{
  OrderState, fresh_order, apply_internal_exec, apply_dropcopy_exec, make_order_key,
}
use fx_dropcopy_primary_reco.Store.{Layout, OrderStateStore, deref, upsert, upsert_key}
use fx_dropcopy_primary_reco.Store.Upsert
use fx_dropcopy_primary_reco.Counters.{ReconCounters}
use fx_dropcopy_primary_reco.Reconciler.{Reconciler}
use fx_dropcopy_primary_reco.Reconciler.Deadline.{store_back}
use fx_dropcopy_primary_reco.Reconciler.Process.{
  mark, apply_view, update, track, process_event, update_at, update_found,
}
use fx_dropcopy_primary_reco.Reconciler.Keeps.{IsValid, Keeps, both-Keeps}
use fx_dropcopy_primary_reco.Reconciler.Sound.{IsSound, store_back-IsSound}
use fx_dropcopy_primary_reco.Reconciler.Tracking.{reconcile-Keeps, mark-Keeps, track-Keeps}

-- One for the feed of an event, and zero for the other.
abbrev pub of_feed : Source → Source → ℕ
of_feed Source.primary Source.primary = 1
of_feed Source.drop_copy Source.drop_copy = 1
of_feed _ _ = 0

-- What the handling of an order does to the reconciler: it counts an event of the feed.
pub record Handles (key : ℕ) (feed : Source) (r : Reconciler) (p : Reconciler × OrderState)
    : Type 0 where
  pub same_key : p.1.key ≡ key
  pub same_store : p.0.store ≡ r.store
  pub one_internal :
      r.counters.internal_events + 1 < u64
      → p.0.counters.internal_events ≡ r.counters.internal_events + of_feed feed Source.primary
  pub one_dropcopy :
      r.counters.dropcopy_events + 1 < u64
      → p.0.counters.dropcopy_events ≡ r.counters.dropcopy_events + of_feed feed Source.drop_copy
  pub same_overflow : p.0.counters.store_overflow ≡ r.counters.store_overflow
  pub keeps_valid : IsValid r → IsValid p.0

apply_view-Handles :
    (r : Reconciler) (os : OrderState) (ev : ExecEvent) (source : Source)
    → let v = apply_view r os ev source in Handles os.key source r (v.0, v.1)
unfolding apply_view apply_internal_exec apply_dropcopy_exec
apply_view-Handles r os ev Source.primary = record {
  same_key = ground arith;
  same_store = refl;
  one_internal = λ h. omega arith;
  one_dropcopy = λ h. omega arith;
  same_overflow = refl;
  keeps_valid = λ v. record {
    primary_valid = v.primary_valid;
    dropcopy_valid = v.dropcopy_valid;
    divergences_valid = v.divergences_valid;
    gaps_valid = v.gaps_valid;
  };
}
apply_view-Handles r os ev Source.drop_copy = record {
  same_key = ground arith;
  same_store = refl;
  one_internal = λ h. omega arith;
  one_dropcopy = λ h. omega arith;
  same_overflow = refl;
  keeps_valid = λ v. record {
    primary_valid = v.primary_valid;
    dropcopy_valid = v.dropcopy_valid;
    divergences_valid = v.divergences_valid;
    gaps_valid = v.gaps_valid;
  };
}

after_keeping :
    {key : ℕ} {feed : Source} {r : Reconciler} {p q : Reconciler × OrderState}
    → Keeps key r p
    → Handles p.1.key feed p.0 q
    → Handles key feed r q
after_keeping a b = record {
  same_key = b.same_key ∙ a.same_key;
  same_store = b.same_store ∙ a.same_store;
  one_internal = λ h. let i = a.same_internal in let e = b.one_internal (rw i h) in omega arith;
  one_dropcopy = λ h. let d = a.same_dropcopy in let e = b.one_dropcopy (rw d h) in omega arith;
  same_overflow = b.same_overflow ∙ a.same_overflow;
  keeps_valid = λ v. b.keeps_valid (a.keeps_valid v);
}

before_keeping :
    {key : ℕ} {feed : Source} {r : Reconciler} {p q : Reconciler × OrderState}
    → Handles key feed r p
    → Keeps p.1.key p.0 q
    → Handles key feed r q
before_keeping a b = record {
  same_key = b.same_key ∙ a.same_key;
  same_store = b.same_store ∙ a.same_store;
  one_internal = λ h. b.same_internal ∙ a.one_internal h;
  one_dropcopy = λ h. b.same_dropcopy ∙ a.one_dropcopy h;
  same_overflow = b.same_overflow ∙ a.same_overflow;
  keeps_valid = λ v. b.keeps_valid (a.keeps_valid v);
}

pub update-Handles :
    (cal : TscCalibration) (ev : ExecEvent) (r : Reconciler) (os : OrderState)
    → Handles os.key ev.source r (update cal ev r os)
unfolding update
update-Handles cal ev r os =
    let p = mark Source.primary (r, os) in
    let q = mark Source.drop_copy p in
    let (r', os', ok) = apply_view q.0 q.1 ev ev.source in
    after_keeping
      (both-Keeps (mark-Keeps Source.primary r os) (mark-Keeps Source.drop_copy p.0 p.1))
      (before_keeping (apply_view-Handles q.0 q.1 ev ev.source) (reconcile-Keeps cal ev r' os' ok))

-- The events of the primary feed, those of the drop copy, and those that found no room in the store.
abbrev pub events : Reconciler → ℕ × ℕ × ℕ
events r = (r.counters.internal_events, r.counters.dropcopy_events, r.counters.store_overflow)

-- Of p events of the primary feed and d of the drop copy each was counted once: as an event of its
-- feed, or among those that found no room in the store, which are `refused` of the p and the d.
pub record Counts (p d : ℕ) (r r' : ReconCounters) : Type 0 where
  pub primary_refused : ℕ
  pub dropcopy_refused : ℕ
  pub primary_le : primary_refused ≤ p
  pub dropcopy_le : dropcopy_refused ≤ d
  pub internal_is : r'.internal_events + primary_refused ≡ r.internal_events + p
  pub dropcopy_is : r'.dropcopy_events + dropcopy_refused ≡ r.dropcopy_events + d
  pub overflow_is : r'.store_overflow ≡ r.store_overflow + primary_refused + dropcopy_refused

-- An event that was counted, and one that was refused.
abbrev CountsOne : Source → ReconCounters → ReconCounters → Type 0
CountsOne feed r r' = Counts (of_feed feed Source.primary) (of_feed feed Source.drop_copy) r r'

refused-Counts :
    (feed : Source) (r r' : ReconCounters)
    → r'.internal_events ≡ r.internal_events
    → r'.dropcopy_events ≡ r.dropcopy_events
    → r'.store_overflow ≡ r.store_overflow + 1
    → CountsOne feed r r'
refused-Counts Source.primary r r' i d o = record {
  primary_refused = 1;
  dropcopy_refused = 0;
  primary_le = omega arith;
  dropcopy_le = omega arith;
  internal_is = omega arith;
  dropcopy_is = omega arith;
  overflow_is = omega arith;
}
refused-Counts Source.drop_copy r r' i d o = record {
  primary_refused = 0;
  dropcopy_refused = 1;
  primary_le = omega arith;
  dropcopy_le = omega arith;
  internal_is = omega arith;
  dropcopy_is = omega arith;
  overflow_is = omega arith;
}

-- No counter of events is about to wrap around.
pub record HasRoom (r : Reconciler) : Type 0 where
  pub internal_room : r.counters.internal_events + 1 < u64
  pub dropcopy_room : r.counters.dropcopy_events + 1 < u64
  pub overflow_room : r.counters.store_overflow + 1 < u64

update_at-step :
    (cal : TscCalibration) (ev : ExecEvent) (k : ℕ) (r : Reconciler) (i : ℕ) (os : OrderState)
    → IsSound k r
    → HasRoom r
    → deref r.store i ≡ some os
    → IsSound k (store_back i (update cal ev r os))
      × CountsOne ev.source r.counters (store_back i (update cal ev r os)).counters
update_at-step cal ev k r i os v room d =
    let u = update cal ev r os in
    let h = update-Handles cal ev r os in
    (
      store_back-IsSound k i r os u v d h.same_key h.same_store h.keeps_valid,
      record {
        primary_refused = 0;
        dropcopy_refused = 0;
        primary_le = omega arith;
        dropcopy_le = omega arith;
        internal_is = omega (arith, h.one_internal room.internal_room);
        dropcopy_is = omega (arith, h.one_dropcopy room.dropcopy_room);
        overflow_is = omega (arith, h.same_overflow);
      },
    )

stored :
    (l : Layout) (cal : TscCalibration) (ev : ExecEvent) (k : ℕ) (r : Reconciler)
    (st : OrderStateStore) (ptr : Option ℕ)
    → IsSound k r
    → HasRoom r
    → upsert_key l r.store (make_order_key ev) ≡ (st, ptr)
    → let r' = update_found cal ev (record r { store = st }) ptr in
      IsSound k r' × CountsOne ev.source r.counters r'.counters
unfolding update_found update_at
stored l cal ev k r st none v room e =
    let w = v.parts_valid in
    (
      record {
        store_valid = Upsert.refused-IsValid l k r.store st (make_order_key ev) v.store_valid e;
        parts_valid = record {
          primary_valid = w.primary_valid;
          dropcopy_valid = w.dropcopy_valid;
          divergences_valid = w.divergences_valid;
          gaps_valid = w.gaps_valid;
        };
      },
      let h = room.overflow_room in refused-Counts ev.source r.counters _ refl refl (omega arith),
    )
stored l cal ev k r st (some i) v room e =
    let w = v.parts_valid in
    let u = Upsert.upsert_key-Upserted l k r.store st (make_order_key ev) i v.store_valid e in
    let (os, d, _) = u.holds in
    let r' : Reconciler = record r { store = st } in
    let sound : IsSound k r' = record {
      store_valid = u.valid;
      parts_valid = record {
        primary_valid = w.primary_valid;
        dropcopy_valid = w.dropcopy_valid;
        divergences_valid = w.divergences_valid;
        gaps_valid = w.gaps_valid;
      };
    } in
    let room' : HasRoom r' = record {
      internal_room = room.internal_room;
      dropcopy_room = room.dropcopy_room;
      overflow_room = room.overflow_room;
    } in
    rw d (update_at-step cal ev k r' i os sound room' d)

-- An event keeps the reconciler sound and is counted once: by the counter of its own feed, or as one
-- that found no room in the store. The counter of the other feed stays.
pub process_event-Counts :
    (l : Layout) (cal : TscCalibration) (k : ℕ) (r : Reconciler) (ev : ExecEvent)
    → IsSound k r
    → HasRoom r
    → ev.seq_num + 1 < u64
    → let r' = process_event l cal r ev in
      IsSound k r'
      × Counts
          (of_feed ev.source Source.primary)
          (of_feed ev.source Source.drop_copy)
          r.counters
          r'.counters
unfolding process_event upsert
process_event-Counts l cal k r ev v room h =
    let r' = track r ev in
    let kept = track-Keeps r (fresh_order 0) ev h in
    let i = kept.same_internal in
    let d = kept.same_dropcopy in
    let o = kept.same_overflow in
    let sound : IsSound k r' = record {
      store_valid = rw kept.same_store v.store_valid;
      parts_valid = kept.keeps_valid v.parts_valid;
    } in
    let room' : HasRoom r' = record {
      internal_room = rw i room.internal_room;
      dropcopy_room = rw d room.dropcopy_room;
      overflow_room = rw o room.overflow_room;
    } in
    let (after, counted_one) = stored l cal ev k r' _ _ sound room' refl in
    (
      after,
      record {
        primary_refused = counted_one.primary_refused;
        dropcopy_refused = counted_one.dropcopy_refused;
        primary_le = counted_one.primary_le;
        dropcopy_le = counted_one.dropcopy_le;
        internal_is = omega (arith, counted_one.internal_is);
        dropcopy_is = omega (arith, counted_one.dropcopy_is);
        overflow_is = omega (arith, counted_one.overflow_is);
      },
    )
