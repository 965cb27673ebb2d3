-- ===== src/Aeron.antt =====
-- src/ingest/aeron_subscriber.cpp and src/api/aeron_publisher.cpp: an execution event as the bytes of
-- a message, the handler of a fragment, and the events that the publisher sends.
pub mod Bytes
pub mod RoundTrip
pub mod Delivery
use fx_dropcopy_primary_reco.Prelude.{
  ℕ, ◌+◌, ◌%◌, Bool, true, false, List, [], ◌∷◌, ◌++◌, if◌then◌else◌, ◌==◌, length, take, drop,
  replicate, memcpy, u8, u64, inc64,
}
use fx_dropcopy_primary_reco.Prelude.Int.{ℤ, pos}
use fx_dropcopy_primary_reco.Event.{
  Source, ExecEvent, WireExecEvent, from_wire, id_capacity, clamp_id, zero_id,
}
use fx_dropcopy_primary_reco.Ring.{SpscRing, try_push}
use fx_dropcopy_primary_reco.Aeron.Bytes.{
  read_le, write_le, to_int64, of_int64, print_digits, print_size,
}

-- `sizeof(core::WireExecEvent)`, which a `static_assert` states.
abbrev pub wire_size : ℕ
wire_size = 151

-- The rings of the feeds hold 2 ^ 16 cells.
abbrev pub feed_bits : ℕ
feed_bits = 16

-- The bytes as the fields of the packed struct, each after the one before it.
unfoldable pub read_wire : List ℕ → WireExecEvent
unfolding read_le to_int64
read_wire bytes = record {
  exec_type = read_le 1 bytes;
  ord_status = read_le 1 (drop 1 bytes);
  seq_num = read_le 8 (drop 2 bytes);
  session_id = read_le 2 (drop 10 bytes);
  price_micro = to_int64 (read_le 8 (drop 12 bytes));
  qty = to_int64 (read_le 8 (drop 20 bytes));
  cum_qty = to_int64 (read_le 8 (drop 28 bytes));
  sending_time = read_le 8 (drop 36 bytes);
  transact_time = read_le 8 (drop 44 bytes);
  exec_id = take 32 (drop 52 bytes);
  exec_id_len = read_le 1 (drop 84 bytes);
  order_id = take 32 (drop 85 bytes);
  order_id_len = read_le 1 (drop 117 bytes);
  clord_id = take 32 (drop 118 bytes);
  clord_id_len = read_le 1 (drop 150 bytes);
}

-- `std::memcpy(buffer.data(), &evt, sizeof(core::WireExecEvent))`
unfoldable pub write_wire : WireExecEvent → List ℕ
unfolding write_le
write_wire w =
    write_le 1 w.exec_type
    ++ (write_le 1 w.ord_status
        ++ (write_le 8 w.seq_num
            ++ (write_le 2 w.session_id
                ++ (write_le 8 (of_int64 w.price_micro)
                    ++ (write_le 8 (of_int64 w.qty)
                        ++ (write_le 8 (of_int64 w.cum_qty)
                            ++ (write_le 8 w.sending_time
                                ++ (write_le 8 w.transact_time
                                    ++ (w.exec_id
                                        ++ (write_le 1 w.exec_id_len
                                            ++ (w.order_id
                                                ++ (write_le 1 w.order_id_len
                                                    ++ (w.clord_id
                                                        ++ write_le 1 w.clord_id_len)))))))))))))

pub record ThreadStats : Type 0 where
  pub produced : ℕ
  pub parse_failures : ℕ
  pub drops : ℕ

abbrev pub no_stats : ThreadStats
no_stats = record { produced = 0; parse_failures = 0; drops = 0 }

-- What the handler of a feed's thread works on.
pub record Feed : Type 0 where
  pub ring : SpscRing ExecEvent
  pub stats : ThreadStats

unfoldable pub push_event : Feed → ExecEvent → Feed
push_event f ev =
    let (ring, pushed) = try_push feed_bits f.ring ev in
    if pushed
    then record { ring = ring; stats = record (f.stats) { produced = inc64 f.stats.produced } }
    else record f { stats = record (f.stats) { drops = inc64 f.stats.drops } }

-- The handler of a fragment; `tsc` is what `util::rdtsc` reads.
unfoldable pub on_fragment : Source → ℕ → Feed → List ℕ → Feed
unfolding push_event read_wire from_wire
on_fragment source tsc f bytes =
    if length bytes == wire_size
    then push_event f (from_wire (read_wire bytes) source tsc)
    else record f { stats = record (f.stats) { parse_failures = inc64 f.stats.parse_failures } }

-- `fill_id(dest, src, len_out)` on a field that holds zeros.
unfoldable pub fill_id : List ℕ → List ℕ × ℕ
fill_id src = let len = clamp_id (length src) in (memcpy zero_id src len, len % u8)

-- The bytes of "EXEC", "OID" and "CID".
abbrev pub exec_prefix : List ℕ
exec_prefix = 69 ∷ 88 ∷ 69 ∷ 67 ∷ []

abbrev pub order_prefix : List ℕ
order_prefix = 79 ∷ 73 ∷ 68 ∷ []

abbrev pub clord_prefix : List ℕ
clord_prefix = 67 ∷ 73 ∷ 68 ∷ []

unfoldable pub make_wire_exec : ℕ → WireExecEvent
unfolding fill_id print_size
make_wire_exec seq =
    let exec = fill_id (exec_prefix ++ print_size seq) in
    let order = fill_id (order_prefix ++ print_size seq) in
    let clord = fill_id (clord_prefix ++ print_size seq) in
    record {
      exec_type = 2;
      ord_status = 2;
      seq_num = seq;
      session_id = 0;
      price_micro = pos (1_000_000 + seq);
      qty = pos (100 + seq);
      cum_qty = pos (100 + seq);
      sending_time = (20_240_101_000_000_000 + seq) % u64;
      transact_time = (20_240_101_000_000_000 + seq) % u64;
      exec_id = exec.0;
      exec_id_len = exec.1;
      order_id = order.0;
      order_id_len = order.1;
      clord_id = clord.0;
      clord_id_len = clord.1;
    }
