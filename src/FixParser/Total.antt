-- ===== src/FixParser/Total.antt =====
-- src/ingest/fix_parser.cpp: the loop of `parse_exec_report` ends for any bytes, and what it may change.
use fx_dropcopy_primary_reco.Prelude.{
  ℕ, zero, suc, ◌≤◌, ◌<◌, ◌≡◌, refl, ap, Bool, true, false, Option, none, some, List, [], ◌∷◌,
  arith, length, ◌==◌, if◌then◌else◌, ◌&&◌,
}
use fx_dropcopy_primary_reco.Prelude.Int.{ℤ}
use fx_dropcopy_primary_reco.Event.{ExecEvent}
use fx_dropcopy_primary_reco.Event.Decode.{IsWellFormed}
use fx_dropcopy_primary_reco.FixParser.{
  ParseResult, Parse, start, apply_case, apply_field, tag_case, onwards, before, skip_separator,
  soh, equals, Turn, after_switch, read_value, read_tag, turn, Outcome, parse_loop, finish,
  finish_option, required, parse_exec_report,
}
use fx_dropcopy_primary_reco.FixParser.Numbers.{parse_int64}
use fx_dropcopy_primary_reco.FixParser.Cases.{
  IsReadInto, OnSome, apply_case-keeps, left_by, length-onwards, length-skip_separator, reread,
}

module _ (out : ExecEvent) where
  -- A turn on at most n bytes leaves a good event, and fewer than n bytes when it goes on.
  abbrev AfterTurn : ℕ → Turn → Type 0
  AfterTurn n (Turn.break s) = IsReadInto out s.out
  AfterTurn n (Turn.reject s) = IsReadInto out s.out
  AfterTurn n (Turn.continue s rest) = IsReadInto out s.out × (length rest < n)

  after_switch-keeps :
      (n : ℕ) (s : Parse) (rest : List ℕ) (o : Option Parse)
      → IsReadInto out s.out
      → OnSome (IsReadInto out) o
      → length rest < n
      → AfterTurn n (after_switch s rest o)
  unfolding after_switch
  after_switch-keeps n s rest none h k small = h
  after_switch-keeps n s rest (some s') h k small = (k, small)

  read_value-keeps :
      (n : ℕ) (s : Parse) (bytes : List ℕ) (o : Option ℤ)
      → IsReadInto out s.out
      → length bytes < n
      → AfterTurn n (read_value s bytes o)
  unfolding read_value apply_field
  read_value-keeps n s bytes none h small = h
  read_value-keeps n s bytes (some tag) h small =
      after_switch-keeps n s (skip_separator (onwards soh bytes))
        (apply_case (tag_case tag) (before soh bytes) s) h
        (apply_case-keeps out (tag_case tag) (before soh bytes) s h)
        (omega (arith, length-skip_separator (onwards soh bytes), length-onwards soh bytes))

  read_tag-keeps :
      (n : ℕ) (s : Parse) (name left : List ℕ)
      → IsReadInto out s.out
      → length left ≤ n
      → AfterTurn n (read_tag s name left)
  unfolding read_tag
  read_tag-keeps n s name [] h small = h
  read_tag-keeps n s name (sign ∷ bytes) h small =
      read_value-keeps n s bytes (parse_int64 name) h small

  turn-keeps :
      (s : Parse) (bytes : List ℕ) → IsReadInto out s.out → AfterTurn (length bytes) (turn s bytes)
  unfolding turn
  turn-keeps s bytes h =
      read_tag-keeps (length bytes) s (before equals bytes) (onwards equals bytes) h
        (length-onwards equals bytes)

  abbrev Ends : Option Outcome → Type 0
  Ends answer = (o : Outcome) × (answer ≡ some o) × IsReadInto out (left_by o).out

  turn-Ends :
      (fuel n : ℕ) (t : Turn)
      → AfterTurn n t
      → ((s : Parse) (rest : List ℕ)
          → IsReadInto out s.out
          → length rest < n
          → Ends (parse_loop fuel s rest))
      → Ends (elim t [
        | Turn.break s ↦ some (Outcome.finished s)
        | Turn.reject s ↦ some (Outcome.refused s)
        | Turn.continue s rest ↦ parse_loop fuel s rest
      ])
  turn-Ends fuel n (Turn.break s) k go = (Outcome.finished s, refl, k)
  turn-Ends fuel n (Turn.reject s) k go = (Outcome.refused s, refl, k)
  turn-Ends fuel n (Turn.continue s rest) k go = go s rest k.0 k.1

  -- Fuel above the number of bytes is enough.
  parse_loop-total :
      (fuel : ℕ) (s : Parse) (bytes : List ℕ)
      → IsReadInto out s.out
      → length bytes < fuel
      → Ends (parse_loop fuel s bytes)
  unfolding parse_loop
  parse_loop-total zero s bytes h small = absurd (omega arith)
  parse_loop-total (suc fuel) s bytes h small =
      turn-Ends fuel (length bytes) (turn s bytes) (turn-keeps s bytes h)
        (λ s' rest g l. parse_loop-total fuel s' rest g (omega arith))

  either_keeps :
      (b : Bool) (x y : ParseResult × ExecEvent)
      → IsReadInto out x.1
      → IsReadInto out y.1
      → IsReadInto out (if b then x else y).1
  either_keeps true x y h k = h
  either_keeps false x y h k = k

  finish-keeps :
      (tsc : ℕ) (o : Outcome) → IsReadInto out (left_by o).out → IsReadInto out (finish tsc o).1
  unfolding finish
  finish-keeps tsc (Outcome.refused s) h = h
  finish-keeps tsc (Outcome.finished s) h =
      let stamped = record s.out { ingest_tsc = tsc } in
      let good = reread out s.out stamped h (λ i. i) (λ i. i) (λ i. i) refl refl refl in
      let lacking : ParseResult × ExecEvent = (ParseResult.missing_field, stamped) in
      either_keeps ((s.out.order_id_len == 0) && (s.out.clord_id_len == 0)) lacking
        (if required s then (ParseResult.ok, stamped) else lacking) good
        (either_keeps (required s) (ParseResult.ok, stamped) lacking good good)

-- Whatever bytes it is given, `parse_exec_report` returns. The event it leaves keeps its ids
-- within their buffers when the one it was given did, and has that one's sequence number, session
-- and source: no tag sets them.
pub parse_exec_report-total :
    (tsc : ℕ) (bytes : List ℕ) (out : ExecEvent)
    → IsWellFormed out
    → (answer : ParseResult × ExecEvent) × (parse_exec_report tsc bytes out ≡ some answer)
      × IsReadInto out answer.1
unfolding parse_exec_report
parse_exec_report-total tsc bytes out h =
    let good : IsReadInto out out = record {
      well_formed = h;
      seq_num = refl;
      session_id = refl;
      source = refl;
    } in
    let ended = parse_loop-total out (suc (length bytes)) (start out) bytes good (omega arith) in
    (finish tsc ended.0, ap (finish_option tsc) ended.1, finish-keeps out tsc ended.0 ended.2)
