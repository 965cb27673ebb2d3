-- ===== src/Logger/Message.antt =====
-- The text that `try_logf` of src/util/async_log.cpp passes to `try_log`, and the record that it fills.
use fx_dropcopy_primary_reco.Prelude.{
  ℕ, zero, suc, ◌≤◌, ◌<◌, ◌≡◌, refl, ap, ◌∙◌, Option, none, some, List, [], ◌∷◌, ◌++◌, arith,
  length, length-append, length-take, length-replicate, take, min, replicate,
}
use fx_dropcopy_primary_reco.Event.Decode.{length-memcpy}
use fx_dropcopy_primary_reco.Logger.Record.{
  LogRecord, LogCall, fill_record, formatted, category_bytes, category_size, message_size,
}

take-append_lt :
    (n m : ℕ) (xs ys : List ℕ) → length xs ≤ m → length xs ≡ n → take n (take m xs ++ ys) ≡ xs
take-append_lt zero m [] ys h e = refl
take-append_lt (suc n) m [] ys h e = absurd (omega arith)
take-append_lt n zero (x ∷ xs) ys h e = absurd (omega arith)
take-append_lt zero (suc m) (x ∷ xs) ys h e = absurd (omega arith)
take-append_lt (suc n) (suc m) (x ∷ xs) ys h e =
    ap (λ t. x ∷ t) (take-append_lt n m xs ys (omega arith) (omega arith))

take_long : (n : ℕ) (xs : List ℕ) → length xs ≤ n → take n xs ≡ xs
take_long zero [] h = refl
take_long zero (x ∷ xs) h = absurd (omega arith)
take_long (suc n) [] h = refl
take_long (suc n) (x ∷ xs) h = ap (λ t. x ∷ t) (take_long n xs (omega arith))

-- A text of up to 191 bytes is passed on whole. A longer one is cut to 191 bytes, and the zero that
-- ends the buffer is passed on as a 192nd.
pub formatted-cases :
    (text : List ℕ)
    → (length text < message_size → formatted text ≡ text)
      × (message_size ≤ length text → formatted text ≡ take 191 text ++ 0 ∷ [])
unfolding formatted
formatted-cases text = (
  λ h.
      let e : min (length text) 192 ≡ length text = omega arith in
      ap (λ n. take n (take 191 text ++ (0 ∷ []))) e
      ∙ take-append_lt (length text) 191 text (0 ∷ []) (omega arith) refl,
  λ h.
      let e : min (length text) 192 ≡ 192 = omega arith in
      ap (λ n. take n (take 191 text ++ (0 ∷ []))) e
      ∙ take_long 192 (take 191 text ++ (0 ∷ []))
          (omega (arith, length-append (take 191 text) (0 ∷ []), length-take 191 text)),
)

length-category_bytes : (c : Option (List ℕ)) → length (category_bytes c) ≡ category_size
length-category_bytes none = length-replicate {A = ℕ} 8 0
length-category_bytes (some bytes) =
    length-memcpy (replicate 8 0) bytes (min 8 (length bytes)) (omega arith)
      (omega (arith, length-replicate {A = ℕ} 8 0))
    ∙ length-replicate {A = ℕ} 8 0

take-take_append : (n : ℕ) (xs ys : List ℕ) → n ≤ length xs → take n (take n xs ++ ys) ≡ take n xs
take-take_append zero xs ys h = refl
take-take_append (suc n) [] ys h = absurd (omega arith)
take-take_append (suc n) (x ∷ xs) ys h = ap (λ t. x ∷ t) (take-take_append n xs ys (omega arith))

-- Whatever is logged, the record's buffers keep their sizes, and its length is that of the message,
-- 192 at most, of which it holds the bytes.
pub fill_record-fits :
    (old : LogRecord) (call : LogCall) (now_ticks thread_id_hash : ℕ)
    → length old.message ≡ message_size
    → let rec = fill_record old call now_ticks thread_id_hash in
      (length rec.category ≡ category_size)
      × (length rec.message ≡ message_size)
      × (rec.message_len ≡ min message_size (length call.message))
      × (take rec.message_len rec.message ≡ take rec.message_len call.message)
unfolding fill_record
fill_record-fits old call now_ticks thread_id_hash h = (
  length-category_bytes call.category,
  length-memcpy old.message call.message (min 192 (length call.message)) (omega arith)
        (omega (arith, h))
      ∙ h,
  refl,
  take-take_append (min 192 (length call.message)) call.message _ (omega arith),
)
