-- ===== src/Aeron/Delivery.antt =====
-- What becomes of the fragments that reach the handler of src/ingest/aeron_subscriber.cpp, and of the
-- events that src/api/aeron_publisher.cpp sends.
use fx_dropcopy_primary_reco.Prelude.{
  ℕ, ◌+◌, ◌-◌, ◌^◌, ◌<◌, ◌≡◌, refl, ap, ◌∙◌, true, false, Bool-cases, inl, inr, List, [], ◌∷◌, ◌++◌,
  arith, length, ◌==◌, u64, ltb, if◌then◌else◌, inc64,
}
use fx_dropcopy_primary_reco.Prelude.Int.{pos}
use fx_dropcopy_primary_reco.Event.{
  Source, WireExecEvent, ExecEvent, empty_event, from_wire, clamp_id, zero_id,
}
use fx_dropcopy_primary_reco.Ring.{try_push}
use fx_dropcopy_primary_reco.Ring.Refine.{IsValid, contents, enqueue, try_push_refines}
use fx_dropcopy_primary_reco.Event.Decode.{length-memcpy, clamp_id-le, clamp_id-le_self}
use fx_dropcopy_primary_reco.Aeron.{
  Feed, ThreadStats, feed_bits, wire_size, read_wire, write_wire, push_event, on_fragment, fill_id,
  make_wire_exec, exec_prefix, order_prefix, clord_prefix,
}
use fx_dropcopy_primary_reco.Aeron.Bytes.{print_size}
use fx_dropcopy_primary_reco.Aeron.RoundTrip.{IsWire, read_wire-write_wire, length-write_wire}

-- The fragments that the counters of a feed tell of.
abbrev pub told : ThreadStats → ℕ
told st = st.produced + st.parse_failures + st.drops

push_event-told :
    (f : Feed) (ev : ExecEvent)
    → told f.stats + 1 < u64
    → told (push_event f ev).stats ≡ told f.stats + 1
unfolding push_event
push_event-told f ev h = ground arith

pub on_fragment-told :
    (source : Source) (tsc : ℕ) (f : Feed) (bytes : List ℕ)
    → told f.stats + 1 < u64
    → told (on_fragment source tsc f bytes).stats ≡ told f.stats + 1
unfolding on_fragment
on_fragment-told source tsc f bytes h = elim (Bool-cases (length bytes == wire_size)) [
  | inl whole ↦ rw whole (push_event-told f (from_wire (read_wire bytes) source tsc) h)
  | inr short ↦ rw short (omega arith)
]

-- The handler reads a whole message as the struct that was written, and pushes its event.
pub on_fragment-write_wire :
    (source : Source) (tsc : ℕ) (f : Feed) (w : WireExecEvent)
    → IsWire w
    → on_fragment source tsc f (write_wire w) ≡ push_event f (from_wire w source tsc)
unfolding on_fragment
on_fragment-write_wire source tsc f w h =
    rw (length-write_wire w h)
      (ap (λ v. push_event f (from_wire v source tsc)) (read_wire-write_wire w h))

push_event-Pushed :
    (f : Feed) (ev : ExecEvent)
    → IsValid feed_bits f.ring
    → let f' = push_event f ev in
      let q = contents feed_bits empty_event f.ring in
      let room = ltb (length q) (2 ^ feed_bits - 1) in
      let st = f.stats in
      (contents feed_bits empty_event f'.ring ≡ (if room then q ++ ev ∷ [] else q))
      × (f'.stats ≡ (
          if room
          then record st { produced = inc64 st.produced }
          else record st { drops = inc64 st.drops }))
unfolding push_event enqueue
push_event-Pushed f ev v =
    let q = contents feed_bits empty_event f.ring in
    let e = try_push_refines feed_bits empty_event f.ring ev v in
    let pushed = (try_push feed_bits f.ring ev).1 in
    elim (Bool-cases (ltb (length q) (2 ^ feed_bits - 1))) [
      | inl room ↦
          let p : pushed ≡ true = ap (λ t. t.1) e ∙ rw room refl in
          let c : contents feed_bits empty_event (try_push feed_bits f.ring ev).0 ≡ q ++ ev ∷ [] =
            ap (λ t. t.0) e ∙ rw room refl in
          rw (p, room) (c, refl)
      | inr full ↦
          let p : pushed ≡ false = ap (λ t. t.1) e ∙ rw full refl in rw (p, full) (refl, refl)
    ]

-- The fields of an event that the publisher makes with the number `seq`.
pub record IsMade (source : Source) (tsc seq : ℕ) (ev : ExecEvent) : Type 0 where
  pub source_is : ev.source ≡ source
  pub number_is : ev.seq_num ≡ seq
  pub read_at : ev.ingest_tsc ≡ tsc
  pub qty_is : ev.qty ≡ pos (100 + seq)
  pub cum_qty_is : ev.cum_qty ≡ pos (100 + seq)
  pub price_is : ev.price_micro ≡ pos (1_000_000 + seq)

made :
    (source : Source) (tsc seq : ℕ)
    → IsMade source tsc seq (from_wire (make_wire_exec seq) source tsc)
unfolding from_wire make_wire_exec
made source tsc seq = record {
  source_is = refl;
  number_is = refl;
  read_at = refl;
  qty_is = refl;
  cum_qty_is = refl;
  price_is = refl;
}

length-fill_id : (src : List ℕ) → length (fill_id src).0 ≡ 32
unfolding fill_id
length-fill_id src =
    length-memcpy zero_id src (clamp_id (length src)) (clamp_id-le_self (length src))
      (clamp_id-le (length src))

fill_id-lt : (src : List ℕ) → (fill_id src).1 < 256
unfolding fill_id
fill_id-lt src = omega arith

make_wire_exec-IsWire : (seq : ℕ) → seq < 9_223_372_036_853_775_808 → IsWire (make_wire_exec seq)
unfolding make_wire_exec
make_wire_exec-IsWire seq h = record {
  laid_out = record {
    exec = length-fill_id (exec_prefix ++ print_size seq);
    order = length-fill_id (order_prefix ++ print_size seq);
    clord = length-fill_id (clord_prefix ++ print_size seq);
  };
  exec_type = omega arith;
  ord_status = omega arith;
  seq_num = omega arith;
  session_id = omega arith;
  price_micro = (omega arith, omega arith);
  qty = (omega arith, omega arith);
  cum_qty = (omega arith, omega arith);
  sending_time = omega arith;
  transact_time = omega arith;
  exec_id_len = fill_id-lt (exec_prefix ++ print_size seq);
  order_id_len = fill_id-lt (order_prefix ++ print_size seq);
  clord_id_len = fill_id-lt (clord_prefix ++ print_size seq);
}

-- An event that the publisher sends gets behind the others in the ring of the subscriber's feed, with its
-- own number, quantities and price and the feed's source, and is counted as produced. When the ring
-- already holds all but one of its slots, the ring stays as it is and the event is counted as dropped. No
-- other counter of the feed changes.
pub published_event-arrives :
    (source : Source) (tsc seq : ℕ) (f : Feed)
    → seq < 9_223_372_036_853_775_808
    → IsValid feed_bits f.ring
    → let f' = on_fragment source tsc f (write_wire (make_wire_exec seq)) in
      let q = contents feed_bits empty_event f.ring in
      let room = ltb (length q) (2 ^ feed_bits - 1) in
      let st = f.stats in
      (ev : ExecEvent) × IsMade source tsc seq ev
      × (contents feed_bits empty_event f'.ring ≡ (if room then q ++ ev ∷ [] else q))
      × (f'.stats ≡ (
          if room
          then record st { produced = inc64 st.produced }
          else record st { drops = inc64 st.drops }))
published_event-arrives source tsc seq f h v =
    let ev = from_wire (make_wire_exec seq) source tsc in
    let e =
      on_fragment-write_wire source tsc f (make_wire_exec seq) (make_wire_exec-IsWire seq h) in
    let (held, counted) = push_event-Pushed f ev v in
    (
      ev,
      made source tsc seq,
      ap (λ g. contents feed_bits empty_event g.ring) e ∙ held,
      ap (λ g. g.stats) e ∙ counted,
    )
