-- ===== src/FixParser.antt =====
-- src/ingest/fix_parser.cpp: the parser of FIX execution reports, over the bytes of a message.
pub mod Numbers
pub mod Cases
pub mod Total
pub mod Decimal
pub mod Fields
pub mod Report
use fx_dropcopy_primary_reco.Prelude.{
  ℕ, zero, suc, ◌+◌, Bool, true, false, ◌&&◌, ◌||◌, not, Option, none, some, List, [], ◌∷◌, length,
  if◌then◌else◌, ◌==◌, memcpy,
}
use fx_dropcopy_primary_reco.Prelude.Int.{ℤ, pos, ◌==ℤ◌}
use fx_dropcopy_primary_reco.Event.{ExecType, OrdStatus, ExecEvent, clamp_id}
use fx_dropcopy_primary_reco.FixParser.Numbers.{parse_int64, parse_uint64}

pub data ParseResult : Type 0 where
  ok missing_field invalid : ParseResult

abbrev pub soh : ℕ
soh = 1

-- The byte of '='.
abbrev pub equals : ℕ
equals = 61

unfoldable pub map_exec_type : ℕ → ExecType
map_exec_type c =
    if c == 48
    then ExecType.new
    else if c == 49
    then ExecType.partial_fill
    else if c == 50
    then ExecType.fill
    else if c == 52
    then ExecType.cancel
    else if c == 53
    then ExecType.replace
    else if c == 56
    then ExecType.rejected
    else ExecType.unknown

unfoldable pub map_ord_status : ℕ → OrdStatus
map_ord_status c =
    if c == 48
    then OrdStatus.new
    else if c == 65
    then OrdStatus.pending_new
    else if c == 54
    then OrdStatus.cancel_pending
    else if c == 49
    then OrdStatus.partially_filled
    else if c == 50
    then OrdStatus.filled
    else if c == 52
    then OrdStatus.canceled
    else if c == 53
    then OrdStatus.replaced
    else if c == 56
    then OrdStatus.rejected
    else OrdStatus.unknown

-- The buffer and the length that `assign_id(begin, end, dest, len)` leaves.
unfoldable pub assign_id : List ℕ → List ℕ → List ℕ × ℕ
assign_id value dest = let to_copy = clamp_id (length value) in (memcpy dest value to_copy, to_copy)

-- The local flags of `parse_exec_report`, and the event that it fills.
pub record Parse : Type 0 where
  pub out : ExecEvent
  pub has_exec_type : Bool
  pub has_ord_status : Bool
  pub has_price : Bool
  pub has_qty : Bool
  pub has_exec_id : Bool
  pub has_time : Bool

abbrev pub start : ExecEvent → Parse
start out = record {
  out = out;
  has_exec_type = false;
  has_ord_status = false;
  has_price = false;
  has_qty = false;
  has_exec_id = false;
  has_time = false;
}

-- The cases of `switch (tag)`.
pub data Tag : Type 0 where
  msg_type exec_type ord_status last_px last_qty cum_qty exec_id clord_id order_id : Tag
  sending_time transact_time unread : Tag

unfoldable pub tag_case : ℤ → Tag
tag_case t =
    if t ==ℤ pos 35
    then Tag.msg_type
    else if t ==ℤ pos 150
    then Tag.exec_type
    else if t ==ℤ pos 39
    then Tag.ord_status
    else if t ==ℤ pos 31
    then Tag.last_px
    else if t ==ℤ pos 32
    then Tag.last_qty
    else if t ==ℤ pos 14
    then Tag.cum_qty
    else if t ==ℤ pos 17
    then Tag.exec_id
    else if t ==ℤ pos 11
    then Tag.clord_id
    else if t ==ℤ pos 37
    then Tag.order_id
    else if t ==ℤ pos 52
    then Tag.sending_time
    else if t ==ℤ pos 60
    then Tag.transact_time
    else Tag.unread

-- The rest of a numeric case, when `parse_int64` or `parse_uint64` has answered.
abbrev pub with_price : Parse → Option ℤ → Option Parse
with_price s none = none
with_price s (some p) = some (record s { out = record s.out { price_micro = p }; has_price = true })

abbrev pub with_qty : Parse → Option ℤ → Option Parse
with_qty s none = none
with_qty s (some q) = some (record s { out = record s.out { qty = q }; has_qty = true })

abbrev pub with_cum_qty : Parse → Option ℤ → Option Parse
with_cum_qty s none = none
with_cum_qty s (some q) = some (record s { out = record s.out { cum_qty = q } })

abbrev pub with_sending_time : Parse → Option ℕ → Option Parse
with_sending_time s none = none
with_sending_time s (some t) =
    some (record s { out = record s.out { sending_time = t }; has_time = true })

abbrev pub with_transact_time : Parse → Option ℕ → Option Parse
with_transact_time s none = none
with_transact_time s (some t) =
    some (record s { out = record s.out { transact_time = t }; has_time = true })

-- The body of the switch: `none` is `return ParseResult::Invalid`.
unfoldable pub apply_case : Tag → List ℕ → Parse → Option Parse
apply_case Tag.msg_type [] s = none
apply_case Tag.msg_type (c ∷ cs) s = if c == 56 then some s else none
apply_case Tag.exec_type [] s = none
apply_case Tag.exec_type (c ∷ cs) s =
    some (record s { out = record s.out { exec_type = map_exec_type c }; has_exec_type = true })
apply_case Tag.ord_status [] s = none
apply_case Tag.ord_status (c ∷ cs) s =
    some (record s { out = record s.out { ord_status = map_ord_status c }; has_ord_status = true })
apply_case Tag.last_px value s = with_price s (parse_int64 value)
apply_case Tag.last_qty value s = with_qty s (parse_int64 value)
apply_case Tag.cum_qty value s = with_cum_qty s (parse_int64 value)
apply_case Tag.exec_id value s =
    let id = assign_id value s.out.exec_id in
    some
      (record s { out = record s.out { exec_id = id.0; exec_id_len = id.1 }; has_exec_id = true })
apply_case Tag.clord_id value s =
    let id = assign_id value s.out.clord_id in
    some (record s { out = record s.out { clord_id = id.0; clord_id_len = id.1 } })
apply_case Tag.order_id value s =
    let id = assign_id value s.out.order_id in
    some (record s { out = record s.out { order_id = id.0; order_id_len = id.1 } })
apply_case Tag.sending_time value s = with_sending_time s (parse_uint64 value)
apply_case Tag.transact_time value s = with_transact_time s (parse_uint64 value)
apply_case Tag.unread value s = some s

unfoldable pub apply_field : ℤ → List ℕ → Parse → Option Parse
apply_field tag value s = apply_case (tag_case tag) value s

-- `while (ptr < end && *ptr != c) ++ptr`: what it passes, and what is left.
unfoldable pub before : ℕ → List ℕ → List ℕ
before c [] = []
before c (x ∷ xs) = let rest = before c xs in if x == c then [] else x ∷ rest

unfoldable pub onwards : ℕ → List ℕ → List ℕ
onwards c [] = []
onwards c (x ∷ xs) = let rest = onwards c xs in if x == c then x ∷ xs else rest

-- `if (ptr < end) ++ptr`
abbrev pub skip_separator : List ℕ → List ℕ
skip_separator [] = []
skip_separator (x ∷ xs) = xs

-- One turn of the loop: it breaks, returns `Invalid`, or goes on with what is left.
pub data Turn : Type 0 where
  break reject : Parse → Turn
  continue : Parse → List ℕ → Turn

unfoldable pub after_switch : Parse → List ℕ → Option Parse → Turn
after_switch s rest none = Turn.reject s
after_switch s rest (some s') = Turn.continue s' rest

unfoldable pub read_value : Parse → List ℕ → Option ℤ → Turn
read_value s bytes none = Turn.reject s
read_value s bytes (some tag) =
    after_switch s (skip_separator (onwards soh bytes)) (apply_field tag (before soh bytes) s)

unfoldable pub read_tag : Parse → List ℕ → List ℕ → Turn
read_tag s name [] = Turn.break s
read_tag s name (sign ∷ bytes) = read_value s bytes (parse_int64 name)

unfoldable pub turn : Parse → List ℕ → Turn
turn s bytes = read_tag s (before equals bytes) (onwards equals bytes)

-- The loop, left by `break` or at the end of the data, or by `return ParseResult::Invalid`.
pub data Outcome : Type 0 where
  finished refused : Parse → Outcome

-- `none` is a loop that has not ended after `fuel` turns.
unfoldable pub parse_loop : ℕ → Parse → List ℕ → Option Outcome
parse_loop zero s bytes = none
parse_loop (suc fuel) s bytes = elim (turn s bytes) [
  | Turn.break s' ↦ some (Outcome.finished s')
  | Turn.reject s' ↦ some (Outcome.refused s')
  | Turn.continue s' rest ↦ parse_loop fuel s' rest
]

unfoldable pub required : Parse → Bool
required s = not (
    not s.has_exec_type
    || not s.has_ord_status
    || not s.has_price
    || not s.has_qty
    || not s.has_exec_id
    || not s.has_time)

-- The statements after the loop, and the result with what `out` holds at the return.
unfoldable pub finish : ℕ → Outcome → ParseResult × ExecEvent
finish tsc (Outcome.refused s) = (ParseResult.invalid, s.out)
finish tsc (Outcome.finished s) =
    let out = record s.out { ingest_tsc = tsc } in
    if (s.out.order_id_len == 0) && (s.out.clord_id_len == 0)
    then (ParseResult.missing_field, out)
    else if required s
    then (ParseResult.ok, out)
    else (ParseResult.missing_field, out)

abbrev pub finish_option : ℕ → Option Outcome → Option (ParseResult × ExecEvent)
finish_option tsc none = none
finish_option tsc (some o) = some (finish tsc o)

-- `tsc` is what `util::rdtsc` reads; a turn that goes on takes at least one byte.
unfoldable pub parse_exec_report : ℕ → List ℕ → ExecEvent → Option (ParseResult × ExecEvent)
parse_exec_report tsc bytes out =
    finish_option tsc (parse_loop (suc (length bytes)) (start out) bytes)
