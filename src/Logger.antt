-- ===== src/Logger.antt =====
-- hw07-logger/logger/logger.c: a log file, and the two programs that use it.
pub mod Lines
mod Tests
use otus_c_2025_3_kushko.Common.{
  ℕ, Bool, true, false, List, [], ◌∷◌, ◌++◌, Option, none, some, if◌then◌else◌,
}
use otus_c_2025_3_kushko.Common.Int.{ℤ, pos}
use otus_c_2025_3_kushko.Common.Decimal.{show_int}
use otus_c_2025_3_kushko.Common.Text.{codes}

-- LogType_t; `unnamed` is a number that has no name.
pub data LogType : Type 0 where
  debug info warning error unnamed : LogType

-- struct Logger: the text of the file, when it is open, and its path. The mutex makes each call of
-- `logger_log` one step.
pub record Logger : Type 0 where
  pub fp : Option (List ℕ)
  pub file_path : List ℕ

-- `logger_init`, with the text that is in the file when it opens for appending.
unfoldable pub logger_init : List ℕ → Option (List ℕ) → Logger
logger_init path opened = record { fp = opened; file_path = path }

abbrev pub prefix : LogType → List ℕ
prefix debug = codes "[DEBUG]"
prefix info = codes "[INFO ]"
prefix warning = codes "[WARN ]"
prefix error = codes "[ERROR]"
prefix unnamed = codes "[LOG  ]"

abbrev pub is_error : LogType → Bool
is_error debug = false
is_error info = false
is_error warning = false
is_error error = true
is_error unnamed = false

-- The arguments of a call, and what `backtrace_symbols` gives in it.
pub record Entry : Type 0 where
  pub log_type : LogType
  pub line : ℤ
  pub func : List ℕ
  pub file : List ℕ
  pub message : List ℕ
  pub strings : Option (List (List ℕ))

-- The text of a message without its end of line.
unfoldable pub entry_text : Entry → List ℕ
entry_text e =
    prefix e.log_type
    ++ 9
      ∷ (e.file
          ++ b':'
            ∷ (show_int e.line
                ++ 9 ∷ (codes "function '" ++ (e.func ++ b'\'' ∷ 9 ∷ 9 ∷ e.message))))

abbrev trace_text : List (List ℕ) → List ℕ
trace_text [] = []
trace_text (s ∷ strings) = s ++ 10 ∷ trace_text strings

-- What `logger_log_trace` prints.
abbrev pub trace_of : Option (List (List ℕ)) → List ℕ
trace_of none = []
trace_of (some strings) = trace_text strings

unfoldable pub logger_log_trace : Option (List (List ℕ)) → Logger → Logger
logger_log_trace strings logger = elim logger.fp [
  | none ↦ logger
  | some text ↦ record logger { fp = some (text ++ trace_of strings) }
]

-- The part of `logger_log` with an open file.
unfoldable pub write_entry : Entry → List ℕ → Logger → Logger
write_entry e text logger =
    let written = record logger { fp = some (text ++ (entry_text e ++ 10 ∷ [])) } in
    if is_error e.log_type then logger_log_trace e.strings written else written

-- A null pointer is `none`.
unfoldable pub logger_log : Option Logger → Entry → Option Logger
logger_log none e = none
logger_log (some logger) e = elim logger.fp [
  | none ↦ some logger
  | some text ↦ some (write_entry e text logger)
]

-- The calls of several threads, in the order in which they take the mutex.
unfoldable pub log_all : Option Logger → List Entry → Option Logger
log_all logger [] = logger
log_all logger (e ∷ entries) = log_all (logger_log logger e) entries

-- The text of the file that `logger_free` leaves, if it was open.
unfoldable pub logger_free : Logger → Option (List ℕ)
logger_free logger = logger.fp

abbrev call : LogType → ℕ → List ℕ → List ℕ → List ℕ → Option (List (List ℕ)) → Entry
call log_type line func file message strings = record {
  log_type = log_type;
  line = pos line;
  func = func;
  file = file;
  message = message;
  strings = strings;
}

-- `main` of hw07-logger/app/main.c, with the file's name as the compiler gives it, and `bar`.
unfoldable pub app_calls : List ℕ → Option (List (List ℕ)) → List Entry
app_calls file strings =
    call debug 21 (codes "main") file (codes "Debug message!") strings
    ∷ call info 22 (codes "main") file (codes "Info message!") strings
    ∷ call warning 23 (codes "main") file (codes "Warning message!") strings
    ∷ call error 10 (codes "bar") file (codes "FP is NULL!!!") strings
    ∷ []

-- `main` of hw07-logger/logger/main.c.
unfoldable pub logger_calls : List ℕ → Option (List (List ℕ)) → List Entry
logger_calls file strings =
    call debug 8 (codes "main") file (codes "Debug message!") strings
    ∷ call info 9 (codes "main") file (codes "Info message!") strings
    ∷ call warning 10 (codes "main") file (codes "Warning message!") strings
    ∷ call error 11 (codes "main") file (codes "Error message!") strings
    ∷ []
