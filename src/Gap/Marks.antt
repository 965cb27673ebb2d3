-- ===== src/Gap/Marks.antt =====
-- What the marks of src/core/gap_uncertainty.hpp do to suppression and to the count of orders.
use fx_dropcopy_primary_reco.Prelude.{ℕ, ◌+◌, ◌<◌, ◌≡◌, ◌≢◌, true, false, arith, u8, u32}
use fx_dropcopy_primary_reco.Event.{Source}
use fx_dropcopy_primary_reco.Mask.{has}
use fx_dropcopy_primary_reco.Mask.Bits.{FlagLaws, primary_laws, drop_copy_laws}
use fx_dropcopy_primary_reco.Order.{OrderState}
use fx_dropcopy_primary_reco.Sequence.{SequenceTracker}
use fx_dropcopy_primary_reco.Gap.{
  get_gap_flag_for_source, mark_gap_uncertainty, clear_gap_uncertainty, is_suppressed_by_gap,
}

abbrev pub other_source : Source → Source
other_source Source.primary = Source.drop_copy
other_source Source.drop_copy = Source.primary

-- The laws of a source's flag against the other's.
pub source_laws :
    (source : Source) (v : ℕ)
    → v < u8
    → FlagLaws (get_gap_flag_for_source source) (get_gap_flag_for_source (other_source source)) v
source_laws Source.primary v h = primary_laws v h
source_laws Source.drop_copy v h = drop_copy_laws v h

-- Marking an order that carries the mark of this very gap changes nothing.
mark_known :
    (s : OrderState) (source : Source) (t : SequenceTracker)
    → s.gap_uncertainty_flags < u8
    → has s.gap_uncertainty_flags (get_gap_flag_for_source source) ≡ true
    → s.gap_suppression_epoch ≡ t.gap_epoch
    → mark_gap_uncertainty s source t ≡ (s, t)
unfolding mark_gap_uncertainty
mark_known s Source.primary t b h e = ground (arith, primary_laws s.gap_uncertainty_flags b)
mark_known s Source.drop_copy t b h e = ground (arith, drop_copy_laws s.gap_uncertainty_flags b)

mark_marks :
    (s : OrderState) (source : Source) (t : SequenceTracker)
    → s.gap_uncertainty_flags < u8
    → t.gap_open ≡ true
    → let m = mark_gap_uncertainty s source t in
      (has m.0.gap_uncertainty_flags (get_gap_flag_for_source source) ≡ true)
      × (m.0.gap_suppression_epoch ≡ m.1.gap_epoch)
      × (m.1.gap_open ≡ true)
      × (m.0.gap_uncertainty_flags < u8)
unfolding mark_gap_uncertainty
mark_marks s Source.primary t b o = ground (arith, primary_laws s.gap_uncertainty_flags b)
mark_marks s Source.drop_copy t b o = ground (arith, drop_copy_laws s.gap_uncertainty_flags b)

-- An order marked under an open gap is suppressed by it, and marking it again changes neither the
-- order nor the tracker.
mark-suppressed :
    (s : OrderState) (source : Source) (t : SequenceTracker)
    → s.gap_uncertainty_flags < u8
    → t.gap_open ≡ true
    → let m = mark_gap_uncertainty s source t in
      (is_suppressed_by_gap m.0 source m.1 ≡ true) × (mark_gap_uncertainty m.0 source m.1 ≡ m)
unfolding is_suppressed_by_gap
mark-suppressed s source t b o =
    let (h, e, o', b') = mark_marks s source t b o in (ground arith, mark_known _ source _ b' h e)

-- An order that was not marked and is marked and cleared again carries the flags it had, and the
-- tracker counts as many orders as before; the clearing reports that there was a mark.
pub clear-mark :
    (s : OrderState) (source : Source) (t : SequenceTracker)
    → s.gap_uncertainty_flags < u8
    → t.gap_open ≡ true
    → t.orders_in_gap_count + 1 < u32
    → has s.gap_uncertainty_flags (get_gap_flag_for_source source) ≡ false
    → let m = mark_gap_uncertainty s source t in
      let c = clear_gap_uncertainty m.0 source m.1 in
      (c.0.gap_uncertainty_flags ≡ s.gap_uncertainty_flags) × (c.1 ≡ t) × (c.2 ≡ true)
unfolding mark_gap_uncertainty clear_gap_uncertainty
clear-mark s Source.primary t b o n h = ground (arith, primary_laws s.gap_uncertainty_flags b)
clear-mark s Source.drop_copy t b o n h = ground (arith, drop_copy_laws s.gap_uncertainty_flags b)

-- Marking for one source leaves the other source's flag as it was.
pub mark-other :
    (s : OrderState) (source : Source) (t : SequenceTracker)
    → s.gap_uncertainty_flags < u8
    → has
        (mark_gap_uncertainty s source t).0.gap_uncertainty_flags
        (get_gap_flag_for_source (other_source source))
      ≡ has s.gap_uncertainty_flags (get_gap_flag_for_source (other_source source))
unfolding mark_gap_uncertainty
mark-other s Source.primary t b = ground (arith, primary_laws s.gap_uncertainty_flags b)
mark-other s Source.drop_copy t b = ground (arith, drop_copy_laws s.gap_uncertainty_flags b)

-- The two sources share one epoch: an order marked under an open primary gap, and then under an
-- open drop-copy gap of another epoch, still carries the flag of the primary gap, which is still
-- open, and is no longer suppressed by it.
pub mark_both_forgets :
    (s : OrderState) (p d : SequenceTracker)
    → s.gap_uncertainty_flags < u8
    → p.gap_open ≡ true
    → d.gap_open ≡ true
    → p.gap_epoch ≢ d.gap_epoch
    → let m = mark_gap_uncertainty s Source.primary p in
      let n = mark_gap_uncertainty m.0 Source.drop_copy d in
      (has n.0.gap_uncertainty_flags 1 ≡ true)
      × (is_suppressed_by_gap n.0 Source.primary m.1 ≡ false)
unfolding mark_gap_uncertainty is_suppressed_by_gap
mark_both_forgets s p d b o o' e =
    let (h, e', o'', b') = mark_marks s Source.primary p b o in
    let m = mark_gap_uncertainty s Source.primary p in
    (rw (mark-other m.0 Source.drop_copy d b') h, ground arith)
