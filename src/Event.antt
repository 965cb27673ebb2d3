-- ===== src/Event.antt =====
-- src/core/exec_event.hpp and src/core/wire_exec_event.hpp: the execution event, its wire form,
-- and the decoding of one from the other.
pub mod Decode
use fx_dropcopy_primary_reco.Prelude.{
  ℕ, zero, suc, ◌+◌, ◌-◌, Bool, List, arith, ltb, leb, ◌==◌, if◌then◌else◌, take, replicate, memcpy,
}
use fx_dropcopy_primary_reco.Prelude.Int.{ℤ, pos}

pub data Source : Type 0 where
  primary drop_copy : Source

abbrev pub is_primary : Source → Bool
is_primary Source.primary = Bool.true
is_primary Source.drop_copy = Bool.false

-- An `enum class` over `uint8_t` holds any byte, which `from_wire` casts unchecked:
-- `other n` is the byte n + 7.
pub data ExecType : Type 0 where
  new partial_fill fill cancel replace rejected unknown : ExecType
  other : ℕ → ExecType

-- `other n` is the byte n + 10.
pub data OrdStatus : Type 0 where
  new partially_filled filled canceled replaced rejected unknown pending_new working : OrdStatus
  cancel_pending : OrdStatus
  other : ℕ → OrdStatus

-- The byte of a status: what `==` on the enum compares.
abbrev pub status_byte : OrdStatus → ℕ
status_byte OrdStatus.new = 0
status_byte OrdStatus.partially_filled = 1
status_byte OrdStatus.filled = 2
status_byte OrdStatus.canceled = 3
status_byte OrdStatus.replaced = 4
status_byte OrdStatus.rejected = 5
status_byte OrdStatus.unknown = 6
status_byte OrdStatus.pending_new = 7
status_byte OrdStatus.working = 8
status_byte OrdStatus.cancel_pending = 9
status_byte (OrdStatus.other n) = n + 10

-- `static_cast<OrdStatus>(b)`
unfoldable pub to_status : ℕ → OrdStatus
to_status zero = OrdStatus.new
to_status (suc zero) = OrdStatus.partially_filled
to_status (suc (suc zero)) = OrdStatus.filled
to_status (suc (suc (suc zero))) = OrdStatus.canceled
to_status (suc (suc (suc (suc zero)))) = OrdStatus.replaced
to_status (suc (suc (suc (suc (suc zero))))) = OrdStatus.rejected
to_status (suc (suc (suc (suc (suc (suc zero)))))) = OrdStatus.unknown
to_status (suc (suc (suc (suc (suc (suc (suc zero))))))) = OrdStatus.pending_new
to_status (suc (suc (suc (suc (suc (suc (suc (suc zero)))))))) = OrdStatus.working
to_status (suc (suc (suc (suc (suc (suc (suc (suc (suc zero))))))))) = OrdStatus.cancel_pending
to_status (suc (suc (suc (suc (suc (suc (suc (suc (suc (suc n)))))))))) = OrdStatus.other n

-- `static_cast<ExecType>(b)`
unfoldable pub to_exec_type : ℕ → ExecType
to_exec_type zero = ExecType.new
to_exec_type (suc zero) = ExecType.partial_fill
to_exec_type (suc (suc zero)) = ExecType.fill
to_exec_type (suc (suc (suc zero))) = ExecType.cancel
to_exec_type (suc (suc (suc (suc zero)))) = ExecType.replace
to_exec_type (suc (suc (suc (suc (suc zero))))) = ExecType.rejected
to_exec_type (suc (suc (suc (suc (suc (suc zero)))))) = ExecType.unknown
to_exec_type (suc (suc (suc (suc (suc (suc (suc n))))))) = ExecType.other n

infix 50 ◌==ˢ◌
abbrev pub ◌==ˢ◌ : OrdStatus → OrdStatus → Bool
a ==ˢ b = status_byte a == status_byte b

abbrev pub id_capacity : ℕ
id_capacity = 32

-- An id is a buffer of `id_capacity` bytes and the number of those in use.
pub record ExecEvent : Type 0 where
  pub source : Source
  pub exec_type : ExecType
  pub ord_status : OrdStatus
  pub seq_num : ℕ
  pub session_id : ℕ
  pub price_micro : ℤ
  pub qty : ℤ
  pub cum_qty : ℤ
  pub sending_time : ℕ
  pub transact_time : ℕ
  pub ingest_tsc : ℕ
  pub exec_id : List ℕ
  pub exec_id_len : ℕ
  pub order_id : List ℕ
  pub order_id_len : ℕ
  pub clord_id : List ℕ
  pub clord_id_len : ℕ

abbrev pub zero_id : List ℕ
zero_id = replicate 32 0

-- `ExecEvent evt{}`
abbrev pub empty_event : ExecEvent
empty_event = record {
  source = Source.primary;
  exec_type = ExecType.unknown;
  ord_status = OrdStatus.unknown;
  seq_num = 0;
  session_id = 0;
  price_micro = pos 0;
  qty = pos 0;
  cum_qty = pos 0;
  sending_time = 0;
  transact_time = 0;
  ingest_tsc = 0;
  exec_id = zero_id;
  exec_id_len = 0;
  order_id = zero_id;
  order_id_len = 0;
  clord_id = zero_id;
  clord_id_len = 0;
}

-- `len > id_capacity ? id_capacity : len`
abbrev pub clamp_id : ℕ → ℕ
clamp_id len = if ltb id_capacity len then id_capacity else len

unfoldable pub set_order_id : ExecEvent → List ℕ → ℕ → ExecEvent
set_order_id e bytes len = record e {
  order_id = memcpy e.order_id bytes (clamp_id len);
  order_id_len = clamp_id len;
}

unfoldable pub set_clord_id : ExecEvent → List ℕ → ℕ → ExecEvent
set_clord_id e bytes len = record e {
  clord_id = memcpy e.clord_id bytes (clamp_id len);
  clord_id_len = clamp_id len;
}

unfoldable pub set_exec_id : ExecEvent → List ℕ → ℕ → ExecEvent
set_exec_id e bytes len = record e {
  exec_id = memcpy e.exec_id bytes (clamp_id len);
  exec_id_len = clamp_id len;
}

-- The fields of the packed message, each with the value that its bytes stand for.
pub record WireExecEvent : Type 0 where
  pub exec_type : ℕ
  pub ord_status : ℕ
  pub seq_num : ℕ
  pub session_id : ℕ
  pub price_micro : ℤ
  pub qty : ℤ
  pub cum_qty : ℤ
  pub sending_time : ℕ
  pub transact_time : ℕ
  pub exec_id : List ℕ
  pub exec_id_len : ℕ
  pub order_id : List ℕ
  pub order_id_len : ℕ
  pub clord_id : List ℕ
  pub clord_id_len : ℕ

unfoldable pub from_wire : WireExecEvent → Source → ℕ → ExecEvent
from_wire w src ingest_tsc = record {
  source = src;
  exec_type = to_exec_type w.exec_type;
  ord_status = to_status w.ord_status;
  seq_num = w.seq_num;
  session_id = w.session_id;
  price_micro = w.price_micro;
  qty = w.qty;
  cum_qty = w.cum_qty;
  sending_time = w.sending_time;
  transact_time = w.transact_time;
  ingest_tsc = ingest_tsc;
  exec_id = memcpy zero_id w.exec_id (clamp_id w.exec_id_len);
  exec_id_len = clamp_id w.exec_id_len;
  order_id = memcpy zero_id w.order_id (clamp_id w.order_id_len);
  order_id_len = clamp_id w.order_id_len;
  clord_id = memcpy zero_id w.clord_id (clamp_id w.clord_id_len);
  clord_id_len = clamp_id w.clord_id_len;
}
