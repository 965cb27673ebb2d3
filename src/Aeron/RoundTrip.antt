-- ===== src/Aeron/RoundTrip.antt =====
-- A message that src/api/aeron_publisher.cpp writes is the one that src/ingest/aeron_subscriber.cpp
-- reads.
use fx_dropcopy_primary_reco.Prelude.{
  ℕ, zero, suc, ◌+◌, ◌^◌, ◌<◌, ◌≡◌, refl, ap, ◌∙◌, List, [], ◌∷◌, ◌++◌, arith, length, take, drop,
  u64, u16, u8, length-append,
}
use fx_dropcopy_primary_reco.Prelude.Int.{ℤ, pos, negsuc, IsInt64}
use fx_dropcopy_primary_reco.Event.{WireExecEvent}
use fx_dropcopy_primary_reco.Event.Decode.{IsLaidOut}
use fx_dropcopy_primary_reco.Aeron.{read_wire, write_wire, wire_size}
use fx_dropcopy_primary_reco.Aeron.Bytes.{
  read_le, write_le, to_int64, of_int64, length-write_le, read_le-write_le, to_int64-of_int64,
}

-- A value of the packed struct.
pub record IsWire (w : WireExecEvent) : Type 0 where
  pub laid_out : IsLaidOut w
  pub exec_type : w.exec_type < u8
  pub ord_status : w.ord_status < u8
  pub seq_num : w.seq_num < u64
  pub session_id : w.session_id < u16
  pub price_micro : IsInt64 w.price_micro
  pub qty : IsInt64 w.qty
  pub cum_qty : IsInt64 w.cum_qty
  pub sending_time : w.sending_time < u64
  pub transact_time : w.transact_time < u64
  pub exec_id_len : w.exec_id_len < u8
  pub order_id_len : w.order_id_len < u8
  pub clord_id_len : w.clord_id_len < u8

take-append : (n : ℕ) (xs ys : List ℕ) → length xs ≡ n → take n (xs ++ ys) ≡ xs
take-append zero [] ys h = refl
take-append zero (x ∷ xs) ys h = absurd (omega arith)
take-append (suc n) [] ys h = absurd (omega arith)
take-append (suc n) (x ∷ xs) ys h = ap (λ t. x ∷ t) (take-append n xs ys (omega arith))

-- Dropping a list of n entries, and k more.
drop-append :
    (n k m : ℕ) (xs ys : List ℕ) → m ≡ n + k → length xs ≡ n → drop m (xs ++ ys) ≡ drop k ys
drop-append zero k m [] ys e h = let q : m ≡ k = omega arith in ap (λ j. drop j ys) q
drop-append zero k m (x ∷ xs) ys e h = absurd (omega arith)
drop-append (suc n) k m [] ys e h = absurd (omega arith)
drop-append (suc n) k zero (x ∷ xs) ys e h = absurd (omega arith)
drop-append (suc n) k (suc m) (x ∷ xs) ys e h = drop-append n k m xs ys (omega arith) (omega arith)

module _ (w : WireExecEvent) (h : IsWire w) where
  -- The bytes of the clord_id's length, and of what follows the other two ids.
  clord_part : List ℕ
  clord_part = w.clord_id ++ write_le 1 w.clord_id_len

  order_part : List ℕ
  order_part = w.order_id ++ (write_le 1 w.order_id_len ++ clord_part)

  from_exec : drop 52 (write_wire w) ≡ w.exec_id ++ (write_le 1 w.exec_id_len ++ order_part)
  unfolding write_wire write_le order_part clord_part
  from_exec = refl

  from_exec_len :
      (k m : ℕ)
      → m ≡ 32 + k
      → drop m (drop 52 (write_wire w)) ≡ drop k (write_le 1 w.exec_id_len ++ order_part)
  from_exec_len k m e =
      ap (drop m) from_exec
      ∙ drop-append 32 k m w.exec_id (write_le 1 w.exec_id_len ++ order_part) e h.laid_out.exec

  from_order_len :
      (k m : ℕ)
      → m ≡ 65 + k
      → drop m (drop 52 (write_wire w)) ≡ drop k (write_le 1 w.order_id_len ++ clord_part)
  from_order_len k m e =
      from_exec_len (33 + k) m (omega arith)
      ∙ drop-append 1 (32 + k) (33 + k) (write_le 1 w.exec_id_len) order_part (omega arith)
          (length-write_le 1 w.exec_id_len)
      ∙ unfold order_part in drop-append 32 k (32 + k) w.order_id _ (omega arith) h.laid_out.order

  from_clord_len :
      (k m : ℕ) → m ≡ 98 + k → drop m (drop 52 (write_wire w)) ≡ drop k (write_le 1 w.clord_id_len)
  from_clord_len k m e =
      from_order_len (33 + k) m (omega arith)
      ∙ drop-append 1 (32 + k) (33 + k) (write_le 1 w.order_id_len) clord_part (omega arith)
          (length-write_le 1 w.order_id_len)
      ∙ unfold clord_part in drop-append 32 k (32 + k) w.clord_id _ (omega arith) h.laid_out.clord

  -- A number in a field that is followed by other bytes.
  read_number :
      (n v : ℕ) (bytes rest : List ℕ)
      → bytes ≡ write_le n v ++ rest
      → v < 256 ^ n
      → read_le n bytes ≡ v
  read_number n v bytes rest e small = ap (read_le n) e ∙ read_le-write_le n v rest small

  of_int64-lt : (a : ℤ) → of_int64 a < u64
  of_int64-lt (pos n) = omega arith
  of_int64-lt (negsuc n) = omega arith

  read_signed :
      (a : ℤ) (bytes rest : List ℕ)
      → bytes ≡ write_le 8 (of_int64 a) ++ rest
      → IsInt64 a
      → to_int64 (read_le 8 bytes) ≡ a
  read_signed a bytes rest e small =
      ap to_int64 (read_number 8 (of_int64 a) bytes rest e (omega (arith, of_int64-lt a)))
      ∙ to_int64-of_int64 a small

  abbrev got : WireExecEvent
  got = read_wire (write_wire w)

  got_exec_type : got.exec_type ≡ w.exec_type
  unfolding read_wire write_wire write_le
  got_exec_type =
      read_number 1 w.exec_type (drop 0 (write_wire w)) (drop 1 (write_wire w)) refl
        (omega (arith, h.exec_type))

  got_ord_status : got.ord_status ≡ w.ord_status
  unfolding read_wire write_wire write_le
  got_ord_status =
      read_number 1 w.ord_status (drop 1 (write_wire w)) (drop 2 (write_wire w)) refl
        (omega (arith, h.ord_status))

  got_seq_num : got.seq_num ≡ w.seq_num
  unfolding read_wire write_wire write_le
  got_seq_num =
      read_number 8 w.seq_num (drop 2 (write_wire w)) (drop 10 (write_wire w)) refl
        (omega (arith, h.seq_num))

  got_session_id : got.session_id ≡ w.session_id
  unfolding read_wire write_wire write_le
  got_session_id =
      read_number 2 w.session_id (drop 10 (write_wire w)) (drop 12 (write_wire w)) refl
        (omega (arith, h.session_id))

  got_price_micro : got.price_micro ≡ w.price_micro
  unfolding read_wire write_wire write_le
  got_price_micro =
      read_signed w.price_micro (drop 12 (write_wire w)) (drop 20 (write_wire w)) refl h.price_micro

  got_qty : got.qty ≡ w.qty
  unfolding read_wire write_wire write_le
  got_qty = read_signed w.qty (drop 20 (write_wire w)) (drop 28 (write_wire w)) refl h.qty

  got_cum_qty : got.cum_qty ≡ w.cum_qty
  unfolding read_wire write_wire write_le
  got_cum_qty =
      read_signed w.cum_qty (drop 28 (write_wire w)) (drop 36 (write_wire w)) refl h.cum_qty

  got_sending_time : got.sending_time ≡ w.sending_time
  unfolding read_wire write_wire write_le
  got_sending_time =
      read_number 8 w.sending_time (drop 36 (write_wire w)) (drop 44 (write_wire w)) refl
        (omega (arith, h.sending_time))

  got_transact_time : got.transact_time ≡ w.transact_time
  unfolding read_wire write_wire write_le
  got_transact_time =
      read_number 8 w.transact_time (drop 44 (write_wire w)) (drop 52 (write_wire w)) refl
        (omega (arith, h.transact_time))

  got_exec_id : got.exec_id ≡ w.exec_id
  unfolding read_wire
  got_exec_id =
      ap (take 32) from_exec
      ∙ take-append 32 w.exec_id (write_le 1 w.exec_id_len ++ order_part) h.laid_out.exec

  got_exec_id_len : got.exec_id_len ≡ w.exec_id_len
  unfolding read_wire write_wire write_le
  got_exec_id_len =
      read_number 1 w.exec_id_len (drop 84 (write_wire w)) order_part (from_exec_len 0 32 refl)
        (omega (arith, h.exec_id_len))

  got_order_id : got.order_id ≡ w.order_id
  unfolding read_wire write_wire write_le order_part
  got_order_id =
      ap (take 32) (from_exec_len 1 33 refl) ∙ take-append 32 w.order_id _ h.laid_out.order

  got_order_id_len : got.order_id_len ≡ w.order_id_len
  unfolding read_wire write_wire write_le
  got_order_id_len =
      read_number 1 w.order_id_len (drop 117 (write_wire w)) clord_part (from_order_len 0 65 refl)
        (omega (arith, h.order_id_len))

  got_clord_id : got.clord_id ≡ w.clord_id
  unfolding read_wire write_wire write_le clord_part
  got_clord_id =
      ap (take 32) (from_order_len 1 66 refl) ∙ take-append 32 w.clord_id _ h.laid_out.clord

  got_clord_id_len : got.clord_id_len ≡ w.clord_id_len
  unfolding read_wire write_wire write_le
  got_clord_id_len =
      read_number 1 w.clord_id_len (drop 150 (write_wire w)) [] (from_clord_len 0 98 refl)
        (omega (arith, h.clord_id_len))

-- A message of fields that fit is read by the subscriber as the struct that was written.
pub read_wire-write_wire : (w : WireExecEvent) → IsWire w → read_wire (write_wire w) ≡ w
read_wire-write_wire w h i = record {
  exec_type = got_exec_type w h i;
  ord_status = got_ord_status w h i;
  seq_num = got_seq_num w h i;
  session_id = got_session_id w h i;
  price_micro = got_price_micro w h i;
  qty = got_qty w h i;
  cum_qty = got_cum_qty w h i;
  sending_time = got_sending_time w h i;
  transact_time = got_transact_time w h i;
  exec_id = got_exec_id w h i;
  exec_id_len = got_exec_id_len w h i;
  order_id = got_order_id w h i;
  order_id_len = got_order_id_len w h i;
  clord_id = got_clord_id w h i;
  clord_id_len = got_clord_id_len w h i;
}

-- A message has `sizeof(core::WireExecEvent)` bytes.
pub length-write_wire : (w : WireExecEvent) → IsWire w → length (write_wire w) ≡ wire_size
unfolding write_wire write_le
length-write_wire w h =
    let e = h.laid_out in
    omega (
      arith,
      e.exec,
      e.order,
      e.clord,
      length-append w.exec_id (
          write_le 1 w.exec_id_len
          ++ (w.order_id
              ++ (write_le 1 w.order_id_len ++ (w.clord_id ++ write_le 1 w.clord_id_len)))),
      length-append w.order_id
          (write_le 1 w.order_id_len ++ (w.clord_id ++ write_le 1 w.clord_id_len)),
      length-append w.clord_id (write_le 1 w.clord_id_len),
    )
