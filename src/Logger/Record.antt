-- ===== src/Logger/Record.antt =====
-- src/util/log.hpp and src/util/async_log.hpp: the levels and the record of a log message, and what
-- src/util/async_log.cpp puts into one.
use fx_dropcopy_primary_reco.Prelude.{
  ℕ, ◌-◌, Option, none, some, List, [], ◌∷◌, ◌++◌, length, min, memcpy, replicate, take,
}

pub data LogLevel : Type 0 where
  trace debug info warn error fatal : LogLevel

abbrev pub level_rank : LogLevel → ℕ
level_rank LogLevel.trace = 0
level_rank LogLevel.debug = 1
level_rank LogLevel.info = 2
level_rank LogLevel.warn = 3
level_rank LogLevel.error = 4
level_rank LogLevel.fatal = 5

abbrev pub category_size : ℕ
category_size = 8

abbrev pub message_size : ℕ
message_size = 192

pub record LogRecord : Type 0 where
  pub timestamp : ℕ
  pub level : LogLevel
  pub thread_id_hash : ℕ
  pub category : List ℕ
  pub message_len : ℕ
  pub message : List ℕ
  pub arg0 : ℕ
  pub arg1 : ℕ

abbrev pub empty_record : LogRecord
empty_record = record {
  timestamp = 0;
  level = LogLevel.info;
  thread_id_hash = 0;
  category = replicate 8 0;
  message_len = 0;
  message = replicate 192 0;
  arg0 = 0;
  arg1 = 0;
}

-- What a call of `try_log` is given; a category is `none` for a null pointer, and else its bytes
-- before the terminating zero.
pub record LogCall : Type 0 where
  pub level : LogLevel
  pub category : Option (List ℕ)
  pub message : List ℕ
  pub arg0 : ℕ
  pub arg1 : ℕ

abbrev pub category_bytes : Option (List ℕ) → List ℕ
category_bytes none = replicate category_size 0
category_bytes (some bytes) =
    memcpy (replicate category_size 0) bytes (min category_size (length bytes))

-- The slot's record after the fields are written: bytes of `message` past its length stay as they
-- were.
unfoldable pub fill_record : LogRecord → LogCall → ℕ → ℕ → LogRecord
fill_record old call now_ticks thread_id_hash =
    let len : ℕ = min message_size (length call.message) in
    record {
      timestamp = now_ticks;
      level = call.level;
      thread_id_hash = thread_id_hash;
      category = category_bytes call.category;
      message_len = len;
      message = memcpy old.message call.message len;
      arg0 = call.arg0;
      arg1 = call.arg1;
    }

-- The bytes that `try_logf` passes on, for the text that the format stands for: `vsnprintf` writes at
-- most 191 of them and a zero, and returns the length of the whole text.
unfoldable pub formatted : List ℕ → List ℕ
formatted text =
    let buffer = take (message_size - 1) text ++ (0 ∷ []) in
    take (min (length text) message_size) buffer
