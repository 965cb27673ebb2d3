-- ===== src/Event/Decode.antt =====
-- What `from_wire` of src/core/exec_event.hpp makes of an arbitrary message.
use fx_dropcopy_primary_reco.Prelude.{
  ℕ, zero, suc, ◌+◌, ◌≤◌, ◌≡◌, refl, ap, List, arith, length, take, drop, length-append,
  length-take, length-drop, memcpy,
}
use fx_dropcopy_primary_reco.Event.{
  Source, OrdStatus, status_byte, to_status, ExecEvent, WireExecEvent, from_wire, id_capacity,
  clamp_id, zero_id,
}

pub status_byte-to_status : (b : ℕ) → status_byte (to_status b) ≡ b
unfolding to_status
status_byte-to_status zero = refl
status_byte-to_status (suc zero) = refl
status_byte-to_status (suc (suc zero)) = refl
status_byte-to_status (suc (suc (suc zero))) = refl
status_byte-to_status (suc (suc (suc (suc zero)))) = refl
status_byte-to_status (suc (suc (suc (suc (suc zero))))) = refl
status_byte-to_status (suc (suc (suc (suc (suc (suc zero)))))) = refl
status_byte-to_status (suc (suc (suc (suc (suc (suc (suc zero))))))) = refl
status_byte-to_status (suc (suc (suc (suc (suc (suc (suc (suc zero)))))))) = refl
status_byte-to_status (suc (suc (suc (suc (suc (suc (suc (suc (suc zero))))))))) = refl
status_byte-to_status (suc (suc (suc (suc (suc (suc (suc (suc (suc (suc n)))))))))) = omega arith

pub to_status-status_byte : (s : OrdStatus) → to_status (status_byte s) ≡ s
unfolding to_status
to_status-status_byte (OrdStatus.other n) = ap to_status (
    let e : n + 10 ≡ suc (suc (suc (suc (suc (suc (suc (suc (suc (suc n))))))))) = omega arith in e)
to_status-status_byte _ = refl

-- An id buffer that holds an id: `id_capacity` bytes, of which `len` are in use.
abbrev pub IsId : List ℕ → ℕ → Type 0
IsId bytes len = (length bytes ≡ id_capacity) × (len ≤ id_capacity)

pub record IsWellFormed (e : ExecEvent) : Type 0 where
  pub exec : IsId e.exec_id e.exec_id_len
  pub order : IsId e.order_id e.order_id_len
  pub clord : IsId e.clord_id e.clord_id_len

pub length-memcpy :
    (dest src : List ℕ) (n : ℕ)
    → n ≤ length src
    → n ≤ length dest
    → length (memcpy dest src n) ≡ length dest
length-memcpy dest src n h k =
    omega (arith, length-append (take n src) (drop n dest), length-take n src, length-drop n dest)

pub clamp_id-le : (n : ℕ) → clamp_id n ≤ id_capacity
clamp_id-le n = ground arith

pub clamp_id-le_self : (n : ℕ) → clamp_id n ≤ n
clamp_id-le_self n = ground arith

-- The wire's id arrays have `id_capacity` bytes; its lengths are any bytes.
pub record IsLaidOut (w : WireExecEvent) : Type 0 where
  pub exec : length w.exec_id ≡ id_capacity
  pub order : length w.order_id ≡ id_capacity
  pub clord : length w.clord_id ≡ id_capacity

memcpy-IsId :
    (src : List ℕ) (n : ℕ)
    → length src ≡ id_capacity
    → IsId (memcpy zero_id src (clamp_id n)) (clamp_id n)
memcpy-IsId src n h = (
  length-memcpy zero_id src (clamp_id n) (omega (arith, clamp_id-le n)) (clamp_id-le n),
  clamp_id-le n,
)

-- Whatever length bytes a message claims, the decoded event's ids stay in their buffers; the
-- status byte and the sequence number come through unchanged.
pub from_wire-IsWellFormed :
    (w : WireExecEvent) (src : Source) (tsc : ℕ)
    → IsLaidOut w
    → IsWellFormed (from_wire w src tsc)
      × (status_byte (from_wire w src tsc).ord_status ≡ w.ord_status)
      × ((from_wire w src tsc).seq_num ≡ w.seq_num)
unfolding from_wire
from_wire-IsWellFormed w src tsc h = (
  record {
    exec = memcpy-IsId w.exec_id w.exec_id_len h.exec;
    order = memcpy-IsId w.order_id w.order_id_len h.order;
    clord = memcpy-IsId w.clord_id w.clord_id_len h.clord;
  },
  status_byte-to_status w.ord_status,
  refl,
)
