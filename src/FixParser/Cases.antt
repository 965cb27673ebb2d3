-- ===== src/FixParser/Cases.antt =====
-- src/ingest/fix_parser.cpp: what the cases of the switch on a tag may change.
use fx_dropcopy_primary_reco.Prelude.{
  ℕ, ◌≤◌, ◌≡◌, refl, ◌∙◌, Bool, true, false, Option, none, some, List, [], ◌∷◌, arith, length, ◌==◌,
  if◌then◌else◌,
}
use fx_dropcopy_primary_reco.Prelude.Int.{ℤ}
use fx_dropcopy_primary_reco.Event.{ExecEvent, id_capacity, clamp_id}
use fx_dropcopy_primary_reco.Event.Decode.{
  IsId, IsWellFormed, length-memcpy, clamp_id-le, clamp_id-le_self,
}
use fx_dropcopy_primary_reco.FixParser.{
  Parse, Tag, apply_case, assign_id, with_price, with_qty, with_cum_qty, with_sending_time,
  with_transact_time, onwards, skip_separator, Outcome, map_exec_type, map_ord_status,
}
use fx_dropcopy_primary_reco.FixParser.Numbers.{parse_int64, parse_uint64}

-- An event read into `out`: its ids stay in their buffers, and no field of a message sets its
-- sequence number, its session or its source.
pub record IsReadInto (out e : ExecEvent) : Type 0 where
  pub well_formed : IsWellFormed e
  pub seq_num : e.seq_num ≡ out.seq_num
  pub session_id : e.session_id ≡ out.session_id
  pub source : e.source ≡ out.source

abbrev pub OnSome : (ExecEvent → Type 0) → Option Parse → Type 0
OnSome P none = Unit
OnSome P (some s) = P s.out

pub assign_id-IsId :
    (value dest : List ℕ)
    → length dest ≡ id_capacity
    → IsId (assign_id value dest).0 (assign_id value dest).1
unfolding assign_id
assign_id-IsId value dest h = (
  omega (
    arith,
    length-memcpy value dest (clamp_id (length value)),
    length-memcpy dest value (clamp_id (length value)) (clamp_id-le_self (length value))
        (omega (arith, clamp_id-le (length value))),
  ),
  clamp_id-le (length value),
)

pub length-skip_separator : (bytes : List ℕ) → length (skip_separator bytes) ≤ length bytes
length-skip_separator [] = omega arith
length-skip_separator (x ∷ xs) = omega arith

pub length-onwards : (c : ℕ) (bytes : List ℕ) → length (onwards c bytes) ≤ length bytes
unfolding onwards
length-onwards c [] = omega arith
length-onwards c (x ∷ xs) = ground (arith, length-onwards c xs)

abbrev pub left_by : Outcome → Parse
left_by (Outcome.finished s) = s
left_by (Outcome.refused s) = s

module _ (out : ExecEvent) where
  -- An event that has the identity of a good one, and ids that are good when that one's are.
  pub reread :
      (e e' : ExecEvent)
      → IsReadInto out e
      → (IsId e.exec_id e.exec_id_len → IsId e'.exec_id e'.exec_id_len)
      → (IsId e.order_id e.order_id_len → IsId e'.order_id e'.order_id_len)
      → (IsId e.clord_id e.clord_id_len → IsId e'.clord_id e'.clord_id_len)
      → e'.seq_num ≡ e.seq_num
      → e'.session_id ≡ e.session_id
      → e'.source ≡ e.source
      → IsReadInto out e'
  reread e e' h f g k q₁ q₂ q₃ = record {
    well_formed = record {
      exec = f h.well_formed.exec;
      order = g h.well_formed.order;
      clord = k h.well_formed.clord;
    };
    seq_num = q₁ ∙ h.seq_num;
    session_id = q₂ ∙ h.session_id;
    source = q₃ ∙ h.source;
  }

  with_price-keeps :
      (s : Parse) (o : Option ℤ) → IsReadInto out s.out → OnSome (IsReadInto out) (with_price s o)
  with_price-keeps s none h = tt
  with_price-keeps s (some p) h =
      reread s.out (record s.out { price_micro = p }) h (λ i. i) (λ i. i) (λ i. i) refl refl refl

  with_qty-keeps :
      (s : Parse) (o : Option ℤ) → IsReadInto out s.out → OnSome (IsReadInto out) (with_qty s o)
  with_qty-keeps s none h = tt
  with_qty-keeps s (some q) h =
      reread s.out (record s.out { qty = q }) h (λ i. i) (λ i. i) (λ i. i) refl refl refl

  with_cum_qty-keeps :
      (s : Parse) (o : Option ℤ) → IsReadInto out s.out → OnSome (IsReadInto out) (with_cum_qty s o)
  with_cum_qty-keeps s none h = tt
  with_cum_qty-keeps s (some q) h =
      reread s.out (record s.out { cum_qty = q }) h (λ i. i) (λ i. i) (λ i. i) refl refl refl

  with_sending_time-keeps :
      (s : Parse) (o : Option ℕ)
      → IsReadInto out s.out
      → OnSome (IsReadInto out) (with_sending_time s o)
  with_sending_time-keeps s none h = tt
  with_sending_time-keeps s (some t) h =
      reread s.out (record s.out { sending_time = t }) h (λ i. i) (λ i. i) (λ i. i) refl refl refl

  with_transact_time-keeps :
      (s : Parse) (o : Option ℕ)
      → IsReadInto out s.out
      → OnSome (IsReadInto out) (with_transact_time s o)
  with_transact_time-keeps s none h = tt
  with_transact_time-keeps s (some t) h =
      reread s.out (record s.out { transact_time = t }) h (λ i. i) (λ i. i) (λ i. i) refl refl refl

  keep_if :
      (b : Bool) (s : Parse)
      → IsReadInto out s.out
      → OnSome (IsReadInto out) (if b then some s else none)
  keep_if true s h = h
  keep_if false s h = tt

  -- Every case of the switch leaves an event read into `out`, or refuses.
  pub apply_case-keeps :
      (tag : Tag) (value : List ℕ) (s : Parse)
      → IsReadInto out s.out
      → OnSome (IsReadInto out) (apply_case tag value s)
  unfolding apply_case
  apply_case-keeps Tag.msg_type [] s h = tt
  apply_case-keeps Tag.msg_type (c ∷ cs) s h = keep_if (c == 56) s h
  apply_case-keeps Tag.exec_type [] s h = tt
  apply_case-keeps Tag.exec_type (c ∷ cs) s h =
      reread s.out (record s.out { exec_type = map_exec_type c }) h (λ i. i) (λ i. i) (λ i. i) refl
        refl refl
  apply_case-keeps Tag.ord_status [] s h = tt
  apply_case-keeps Tag.ord_status (c ∷ cs) s h =
      reread s.out (record s.out { ord_status = map_ord_status c }) h (λ i. i) (λ i. i) (λ i. i)
        refl refl refl
  apply_case-keeps Tag.last_px value s h = with_price-keeps s (parse_int64 value) h
  apply_case-keeps Tag.last_qty value s h = with_qty-keeps s (parse_int64 value) h
  apply_case-keeps Tag.cum_qty value s h = with_cum_qty-keeps s (parse_int64 value) h
  apply_case-keeps Tag.exec_id value s h =
      let id = assign_id value s.out.exec_id in
      reread s.out (record s.out { exec_id = id.0; exec_id_len = id.1 }) h
        (λ i. assign_id-IsId value s.out.exec_id (i.0)) (λ i. i) (λ i. i) refl refl refl
  apply_case-keeps Tag.clord_id value s h =
      let id = assign_id value s.out.clord_id in
      reread s.out (record s.out { clord_id = id.0; clord_id_len = id.1 }) h (λ i. i) (λ i. i)
        (λ i. assign_id-IsId value s.out.clord_id (i.0)) refl refl refl
  apply_case-keeps Tag.order_id value s h =
      let id = assign_id value s.out.order_id in
      reread s.out (record s.out { order_id = id.0; order_id_len = id.1 }) h (λ i. i)
        (λ i. assign_id-IsId value s.out.order_id (i.0)) (λ i. i) refl refl refl
  apply_case-keeps Tag.sending_time value s h = with_sending_time-keeps s (parse_uint64 value) h
  apply_case-keeps Tag.transact_time value s h = with_transact_time-keeps s (parse_uint64 value) h
  apply_case-keeps Tag.unread value s h = h
