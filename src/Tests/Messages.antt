-- ===== src/Tests/Messages.antt =====
-- The messages at concrete inputs.
use fx_dropcopy_primary_reco.Prelude.{
  ltb, if◌then◌else◌, ◌-◌, ◌^◌, ◌≡◌, refl, arith, some, List, [], ◌∷◌, length, All, take, ◌++◌, ◌≤◌,
  ◌<◌, ℕ, replicate,
}
use fx_dropcopy_primary_reco.Prelude.Int.{pos, negsuc}
use fx_dropcopy_primary_reco.Event.{Source, ExecEvent, empty_event}
use fx_dropcopy_primary_reco.Event.Decode.{IsWellFormed}
use fx_dropcopy_primary_reco.Ring
use fx_dropcopy_primary_reco.FixParser.{ParseResult, parse_exec_report, finish, start}
use fx_dropcopy_primary_reco.FixParser.Cases.{IsReadInto}
use fx_dropcopy_primary_reco.FixParser.Total.{parse_exec_report-total}
use fx_dropcopy_primary_reco.FixParser.Fields.{
  Field, IsField, render_fields, read_fields, parse_exec_report-render_fields,
}
use fx_dropcopy_primary_reco.FixParser.Report.{
  Report, IsSendable, print_report, reported, parse_exec_report-print_report,
}
use fx_dropcopy_primary_reco.Aeron.{
  Feed, no_stats, feed_bits, read_wire, write_wire, on_fragment, make_wire_exec,
}
use fx_dropcopy_primary_reco.Aeron.RoundTrip.{IsWire, read_wire-write_wire}
use fx_dropcopy_primary_reco.Aeron.Delivery.{IsMade, published_event-arrives}
use fx_dropcopy_primary_reco.Ring.Refine.{contents, make-IsValid}
use fx_dropcopy_primary_reco.Logger.Record.{formatted}
use fx_dropcopy_primary_reco.Logger.Message.{formatted-cases}
use fx_dropcopy_primary_reco.Tests.Data.{message}

empty_event-IsWellFormed : IsWellFormed empty_event
empty_event-IsWellFormed = record {
  exec = (refl, omega arith);
  order = (refl, omega arith);
  clord = (refl, omega arith);
}

-- "31=7" and a separator, and then text without a '='.
abbrev report_bytes : List ℕ
report_bytes = 51 ∷ 49 ∷ 61 ∷ 55 ∷ 1 ∷ 65 ∷ []

parse_exec_report-total_example :
    (answer : ParseResult × ExecEvent) × (parse_exec_report 9 report_bytes empty_event
      ≡ some answer)
    × IsReadInto empty_event answer.1
parse_exec_report-total_example =
    parse_exec_report-total 9 report_bytes empty_event empty_event-IsWellFormed

-- The same price, and a MsgType of another message, which is refused.
abbrev two_fields : List Field
two_fields =
    (record { name = 51 ∷ 49 ∷ []; value = 55 ∷ [] })
    ∷ (record { name = 51 ∷ 53 ∷ []; value = 68 ∷ [] })
    ∷ []

two_fields-IsField : All IsField two_fields
two_fields-IsField = (
  (((λ e. omega arith), ((λ e. omega arith), tt)), ((λ e. omega arith), tt)),
  ((((λ e. omega arith), ((λ e. omega arith), tt)), ((λ e. omega arith), tt)), tt),
)

parse_exec_report-render_fields_example :
    parse_exec_report 9 (render_fields two_fields) empty_event
    ≡ some (finish 9 (read_fields (start empty_event) two_fields))
parse_exec_report-render_fields_example =
    parse_exec_report-render_fields 9 two_fields empty_event two_fields-IsField

-- A fill of 10 at -3, of the order "A".
abbrev filled : Report
filled = record {
  exec_type = 50;
  ord_status = 50;
  price_micro = negsuc 2;
  qty = pos 10;
  cum_qty = pos 10;
  sending_time = 100;
  transact_time = 101;
  exec_id = 69 ∷ [];
  clord_id = [];
  order_id = 65 ∷ [];
}

filled-IsSendable : IsSendable filled
filled-IsSendable = record {
  exec_type = λ e. omega arith;
  ord_status = λ e. omega arith;
  price_micro = (omega arith, omega arith);
  qty = (omega arith, omega arith);
  cum_qty = (omega arith, omega arith);
  sending_time = omega arith;
  transact_time = omega arith;
  exec_id = ((λ e. omega arith), tt);
  clord_id = tt;
  order_id = ((λ e. omega arith), tt);
  named = omega arith;
}

parse_exec_report-print_report_example :
    parse_exec_report 9 (render_fields (print_report filled)) empty_event
    ≡ some (ParseResult.ok, reported 9 filled empty_event)
parse_exec_report-print_report_example =
    parse_exec_report-print_report filled 9 empty_event filled-IsSendable

message-IsWire : IsWire message
message-IsWire = record {
  laid_out = record { exec = refl; order = refl; clord = refl };
  exec_type = omega arith;
  ord_status = omega arith;
  seq_num = omega arith;
  session_id = omega arith;
  price_micro = (omega arith, omega arith);
  qty = (omega arith, omega arith);
  cum_qty = (omega arith, omega arith);
  sending_time = omega arith;
  transact_time = omega arith;
  exec_id_len = omega arith;
  order_id_len = omega arith;
  clord_id_len = omega arith;
}

read_wire-write_wire_example : read_wire (write_wire message) ≡ message
read_wire-write_wire_example = read_wire-write_wire message message-IsWire

abbrev empty_feed : Feed
empty_feed = record { ring = Ring.make feed_bits empty_event; stats = no_stats }

published_event-arrives_example :
    let f' = on_fragment Source.primary 5 empty_feed (write_wire (make_wire_exec 1)) in
    let q = contents feed_bits empty_event empty_feed.ring in
    let room = ltb (length q) (2 ^ feed_bits - 1) in
    (ev : ExecEvent) × IsMade Source.primary 5 1 ev
    × (contents feed_bits empty_event f'.ring ≡ (if room then q ++ ev ∷ [] else q))
    × (f'.stats
        ≡ (if room then record no_stats { produced = 1 } else record no_stats { drops = 1 }))
published_event-arrives_example =
    published_event-arrives Source.primary 5 1 empty_feed (omega arith)
      (make-IsValid feed_bits empty_event)

abbrev long_text : List ℕ
long_text = replicate 200 97

formatted-cases_example :
    (length long_text < 192 → formatted long_text ≡ long_text)
    × (192 ≤ length long_text → formatted long_text ≡ take 191 long_text ++ 0 ∷ [])
formatted-cases_example = formatted-cases long_text
