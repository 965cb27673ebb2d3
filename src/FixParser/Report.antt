-- ===== src/FixParser/Report.antt =====
-- src/ingest/fix_parser.cpp: an execution report that is written as its fields is read back.
use fx_dropcopy_primary_reco.Prelude.{
  ℕ, suc, ◌+◌, ◌⊎◌, inl, inr, ◌<◌, ◌≡◌, ◌≢◌, refl, ap, ◌∙◌, true, false, none, some, List, [], ◌∷◌,
  arith, length, All, ◌==◌, memcpy, u64, ◌&&◌,
}
use fx_dropcopy_primary_reco.Prelude.Int.{ℤ, pos, negsuc, IsInt64}
use fx_dropcopy_primary_reco.Event.{ExecEvent, clamp_id}
use fx_dropcopy_primary_reco.FixParser.{
  ParseResult, Parse, start, Tag, tag_case, apply_case, apply_field, with_price, with_qty,
  with_cum_qty, with_sending_time, with_transact_time, map_exec_type, map_ord_status, assign_id,
  soh, equals, Outcome, finish, required, parse_exec_report,
}
use fx_dropcopy_primary_reco.FixParser.Decimal.{
  print_nat, print_int, IsDigit, All-IsDigit-print_nat, parse_uint64-print_nat,
  parse_int64-print_int,
}
use fx_dropcopy_primary_reco.FixParser.Fields.{
  Field, Lacks, IsField, render_fields, read_tagged, read_field, read_fields,
  parse_exec_report-render_fields,
}

-- What a sender puts into a report: the first bytes of its ExecType and OrdStatus, its numbers, and
-- the text of its ids.
pub record Report : Type 0 where
  pub exec_type : ℕ
  pub ord_status : ℕ
  pub price_micro : ℤ
  pub qty : ℤ
  pub cum_qty : ℤ
  pub sending_time : ℕ
  pub transact_time : ℕ
  pub exec_id : List ℕ
  pub clord_id : List ℕ
  pub order_id : List ℕ

abbrev tagged : ℕ → List ℕ → Field
tagged tag value = record { name = print_nat tag; value = value }

unfoldable pub print_report : Report → List Field
print_report r =
    tagged 35 (56 ∷ [])
    ∷ tagged 37 r.order_id
    ∷ tagged 11 r.clord_id
    ∷ tagged 17 r.exec_id
    ∷ tagged 150 (r.exec_type ∷ [])
    ∷ tagged 39 (r.ord_status ∷ [])
    ∷ tagged 31 (print_int r.price_micro)
    ∷ tagged 32 (print_int r.qty)
    ∷ tagged 14 (print_int r.cum_qty)
    ∷ tagged 52 (print_nat r.sending_time)
    ∷ tagged 60 (print_nat r.transact_time)
    ∷ []

-- The numbers fit, an id names the order, and no text holds the separator.
pub record IsSendable (r : Report) : Type 0 where
  pub exec_type : r.exec_type ≢ soh
  pub ord_status : r.ord_status ≢ soh
  pub price_micro : IsInt64 r.price_micro
  pub qty : IsInt64 r.qty
  pub cum_qty : IsInt64 r.cum_qty
  pub sending_time : r.sending_time < u64
  pub transact_time : r.transact_time < u64
  pub exec_id : Lacks soh r.exec_id
  pub clord_id : Lacks soh r.clord_id
  pub order_id : Lacks soh r.order_id
  pub named : 0 < length r.order_id + length r.clord_id

-- The event that a report stands for, read into `out`.
unfoldable pub reported : ℕ → Report → ExecEvent → ExecEvent
reported tsc r out = record out {
  exec_type = map_exec_type r.exec_type;
  ord_status = map_ord_status r.ord_status;
  price_micro = r.price_micro;
  qty = r.qty;
  cum_qty = r.cum_qty;
  sending_time = r.sending_time;
  transact_time = r.transact_time;
  ingest_tsc = tsc;
  exec_id = memcpy out.exec_id r.exec_id (clamp_id (length r.exec_id));
  exec_id_len = clamp_id (length r.exec_id);
  order_id = memcpy out.order_id r.order_id (clamp_id (length r.order_id));
  order_id_len = clamp_id (length r.order_id);
  clord_id = memcpy out.clord_id r.clord_id (clamp_id (length r.clord_id));
  clord_id_len = clamp_id (length r.clord_id);
}

Lacks-map : (c : ℕ) (xs : List ℕ) → (c < 45) ⊎ (57 < c) → All IsDigit xs → Lacks c xs
Lacks-map c [] far h = tt
Lacks-map c (x ∷ xs) far h = ((λ e. ground (arith, h.0.0, h.0.1)), Lacks-map c xs far h.1)

Lacks-print_nat : (c n : ℕ) → (c < 45) ⊎ (57 < c) → Lacks c (print_nat n)
Lacks-print_nat c n far = Lacks-map c (print_nat n) far (All-IsDigit-print_nat n)

Lacks-print_int : (c : ℕ) (a : ℤ) → (c < 45) ⊎ (57 < c) → Lacks c (print_int a)
unfolding print_int
Lacks-print_int c (pos n) far = Lacks-print_nat c n far
Lacks-print_int c (negsuc n) far = ((λ e. ground arith), Lacks-print_nat c (suc n) far)

print_report-IsField : (r : Report) → IsSendable r → All IsField (print_report r)
unfolding print_report
print_report-IsField r h =
    let tag : (n : ℕ) → Lacks equals (print_nat n) =
      λ n. Lacks-print_nat equals n (inr (omega arith)) in
    let far : (soh < 45) ⊎ (57 < soh) = inl (omega arith) in
    (
      (tag 35, ((λ e. omega arith), tt)),
      (
        (tag 37, h.order_id),
        (
          (tag 11, h.clord_id),
          (
            (tag 17, h.exec_id),
            (
              (tag 150, (h.exec_type, tt)),
              (
                (tag 39, (h.ord_status, tt)),
                (
                  (tag 31, Lacks-print_int soh r.price_micro far),
                  (
                    (tag 32, Lacks-print_int soh r.qty far),
                    (
                      (tag 14, Lacks-print_int soh r.cum_qty far),
                      (
                        (tag 52, Lacks-print_nat soh r.sending_time far),
                        ((tag 60, Lacks-print_nat soh r.transact_time far), tt),
                      ),
                    ),
                  ),
                ),
              ),
            ),
          ),
        ),
      ),
    )

-- A field whose tag is n, when it is read.
read_field-tagged :
    (n : ℕ) (value : List ℕ) (s : Parse) (c : Tag)
    → n < 1000
    → tag_case (pos n) ≡ c
    → read_field (tagged n value) s ≡ apply_case c value s
unfolding apply_field print_int
read_field-tagged n value s c h q =
    ap (λ o. read_tagged o value s) (parse_int64-print_int (pos n) (omega arith, omega arith))
    ∙ ap (λ k. apply_case k value s) q

read_price :
    (p : ℤ) (s : Parse)
    → IsInt64 p
    → read_field (tagged 31 (print_int p)) s
      ≡ some (record s { out = record s.out { price_micro = p }; has_price = true })
unfolding tag_case apply_case
read_price p s h =
    read_field-tagged 31 (print_int p) s Tag.last_px (omega arith) refl
    ∙ ap (with_price s) (parse_int64-print_int p h)

read_qty :
    (q : ℤ) (s : Parse)
    → IsInt64 q
    → read_field (tagged 32 (print_int q)) s
      ≡ some (record s { out = record s.out { qty = q }; has_qty = true })
unfolding tag_case apply_case
read_qty q s h =
    read_field-tagged 32 (print_int q) s Tag.last_qty (omega arith) refl
    ∙ ap (with_qty s) (parse_int64-print_int q h)

read_cum_qty :
    (q : ℤ) (s : Parse)
    → IsInt64 q
    → read_field (tagged 14 (print_int q)) s
      ≡ some (record s { out = record s.out { cum_qty = q } })
unfolding tag_case apply_case
read_cum_qty q s h =
    read_field-tagged 14 (print_int q) s Tag.cum_qty (omega arith) refl
    ∙ ap (with_cum_qty s) (parse_int64-print_int q h)

read_sending_time :
    (t : ℕ) (s : Parse)
    → t < u64
    → read_field (tagged 52 (print_nat t)) s
      ≡ some (record s { out = record s.out { sending_time = t }; has_time = true })
unfolding tag_case apply_case
read_sending_time t s h =
    read_field-tagged 52 (print_nat t) s Tag.sending_time (omega arith) refl
    ∙ ap (with_sending_time s) (parse_uint64-print_nat t h)

read_transact_time :
    (t : ℕ) (s : Parse)
    → t < u64
    → read_field (tagged 60 (print_nat t)) s
      ≡ some (record s { out = record s.out { transact_time = t }; has_time = true })
unfolding tag_case apply_case
read_transact_time t s h =
    read_field-tagged 60 (print_nat t) s Tag.transact_time (omega arith) refl
    ∙ ap (with_transact_time s) (parse_uint64-print_nat t h)

read_fields-next :
    (s : Parse) {s' : Parse} (f : Field) (fs : List Field)
    → read_field f s ≡ some s'
    → read_fields s (f ∷ fs) ≡ read_fields s' fs
unfolding read_fields
read_fields-next s f fs h =
    ap (λ o. elim o [ none ↦ Outcome.refused s | some t ↦ read_fields t fs ]) h

finish_ok :
    (tsc : ℕ) (s : Parse)
    → ((s.out.order_id_len == 0) && (s.out.clord_id_len == 0)) ≡ false
    → required s ≡ true
    → finish tsc (read_fields s []) ≡ (ParseResult.ok, record s.out { ingest_tsc = tsc })
unfolding read_fields finish
finish_ok tsc s h k = rw h (rw k refl)

clamp_id-named : (a b : ℕ) → 0 < a + b → ((clamp_id a == 0) && (clamp_id b == 0)) ≡ false
clamp_id-named a b h = ground arith

-- The fields of a report, read in order, all flags set.
read_fields-print_report :
    (r : Report) (tsc : ℕ) (out : ExecEvent)
    → IsSendable r
    → finish tsc (read_fields (start out) (print_report r)) ≡ (ParseResult.ok, reported tsc r out)
unfolding print_report reported tag_case apply_case assign_id finish required
read_fields-print_report r tsc out h =
    ap (finish tsc) (
      read_fields-next _ _ _ (read_field-tagged 35 _ _ Tag.msg_type (omega arith) refl)
      ∙ read_fields-next _ _ _ (read_field-tagged 37 _ _ Tag.order_id (omega arith) refl)
      ∙ read_fields-next _ _ _ (read_field-tagged 11 _ _ Tag.clord_id (omega arith) refl)
      ∙ read_fields-next _ _ _ (read_field-tagged 17 _ _ Tag.exec_id (omega arith) refl)
      ∙ read_fields-next _ _ _ (read_field-tagged 150 _ _ Tag.exec_type (omega arith) refl)
      ∙ read_fields-next _ _ _ (read_field-tagged 39 _ _ Tag.ord_status (omega arith) refl)
      ∙ read_fields-next _ _ _ (read_price r.price_micro _ h.price_micro)
      ∙ read_fields-next _ _ _ (read_qty r.qty _ h.qty)
      ∙ read_fields-next _ _ _ (read_cum_qty r.cum_qty _ h.cum_qty)
      ∙ read_fields-next _ _ _ (read_sending_time r.sending_time _ h.sending_time)
      ∙ read_fields-next _ _ _ (read_transact_time r.transact_time _ h.transact_time))
    ∙ finish_ok tsc _ (clamp_id-named (length r.order_id) (length r.clord_id) h.named) refl

-- An execution report written as fields is parsed to the event it stands for, and accepted, when its
-- numbers fit, it has an order id or a client order id, and no text holds the separator.
pub parse_exec_report-print_report :
    (r : Report) (tsc : ℕ) (out : ExecEvent)
    → IsSendable r
    → parse_exec_report tsc (render_fields (print_report r)) out
      ≡ some (ParseResult.ok, reported tsc r out)
parse_exec_report-print_report r tsc out h =
    parse_exec_report-render_fields tsc (print_report r) out (print_report-IsField r h)
    ∙ ap some (read_fields-print_report r tsc out h)
