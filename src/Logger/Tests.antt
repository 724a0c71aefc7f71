-- ===== src/Logger/Tests.antt =====
-- The log of the programs of hw07-logger.
use otus_c_2025_3_kushko.Common.{ℕ, ◌≡◌, refl, List, [], ◌∷◌, ◌++◌, Option, none, some, arith}
use otus_c_2025_3_kushko.Common.Int.{pos}
use otus_c_2025_3_kushko.Common.Decimal.{show_int, show_nat}
use otus_c_2025_3_kushko.Common.Text.{codes}
use otus_c_2025_3_kushko.Logger.{
  error, logger_init, Entry, entry_text, log_all, logger_free, app_calls, logger_calls,
}
use otus_c_2025_3_kushko.Logger.Lines.{unlines, split_lines, log_lines, log_all_lem}

abbrev path : List ℕ
path = codes "log.txt"

abbrev symbols : Option (List (List ℕ))
symbols = some (codes "bar" ∷ codes "main" ∷ [])

first_call :
    log_lines (app_calls (codes "m.c") none)
    ≡ codes "[DEBUG]\tm.c:21\tfunction 'main'\t\tDebug message!"
      ∷ codes "[INFO ]\tm.c:22\tfunction 'main'\t\tInfo message!"
      ∷ codes "[WARN ]\tm.c:23\tfunction 'main'\t\tWarning message!"
      ∷ codes "[ERROR]\tm.c:10\tfunction 'bar'\t\tFP is NULL!!!"
      ∷ []
unfolding app_calls entry_text show_int show_nat
first_call = refl

last_call :
    log_lines (logger_calls (codes "m.c") symbols)
    ≡ codes "[DEBUG]\tm.c:8\tfunction 'main'\t\tDebug message!"
      ∷ codes "[INFO ]\tm.c:9\tfunction 'main'\t\tInfo message!"
      ∷ codes "[WARN ]\tm.c:10\tfunction 'main'\t\tWarning message!"
      ∷ codes "[ERROR]\tm.c:11\tfunction 'main'\t\tError message!"
      ∷ codes "bar"
      ∷ codes "main"
      ∷ []
unfolding logger_calls entry_text show_int show_nat
last_call = refl

abbrev failure : Entry
failure = record {
  log_type = error;
  line = pos 11;
  func = codes "main";
  file = codes "m.c";
  message = codes "Error message!";
  strings = symbols;
}

log_all_lem_example :
    ((text : List ℕ) × (log_all
          (some (logger_init path (some (unlines (codes "old" ∷ [])))))
          (failure ∷ [])
        ≡ some (record { fp = some text; file_path = path }))
      × (logger_free (record { fp = some text; file_path = path }) ≡ some text)
      × (split_lines text ≡ ((codes "old" ∷ []) ++ log_lines (failure ∷ [])) ++ [] ∷ []))
    × (log_all (some (logger_init path none)) (failure ∷ []) ≡ some (logger_init path none))
    × (log_all none (failure ∷ []) ≡ none)
log_all_lem_example = log_all_lem path (codes "old" ∷ []) (failure ∷ []) (omega arith) (
  record { func = omega arith; file = omega arith; message = omega arith; trace = omega arith },
  tt,
)
