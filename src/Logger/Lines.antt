-- ===== src/Logger/Lines.antt =====
-- The lines that hw07-logger/logger/logger.c leaves in a log.
use otus_c_2025_3_kushko.Common.{
  ℕ, suc, ◌≡◌, ◌≢◌, refl, sym, ap, ◌∙◌, true, List, [], ◌∷◌, ◌++◌, append-nil, append_assoc, Option,
  none, some, All, ◌==◌, if◌then◌else◌, inl, inr, Bool-cases, arith,
}
use otus_c_2025_3_kushko.Common.Int.{ℤ, pos, negsuc}
use otus_c_2025_3_kushko.Common.Decimal.{show_int, show_nat, show_nat-IsDigits, is_digit}
use otus_c_2025_3_kushko.Common.Text.{codes}
use otus_c_2025_3_kushko.Logger.{
  LogType, debug, info, warning, error, unnamed, prefix, is_error, Logger, logger_init, Entry,
  entry_text, trace_of, logger_log_trace, write_entry, logger_log, log_all, logger_free,
}

abbrev pub IsOneLine : List ℕ → Type 0
IsOneLine = All (λ c. c ≢ 10)

-- The lines of a text; what follows the last end of line is one more.
abbrev add_to_first : ℕ → List (List ℕ) → List (List ℕ)
add_to_first c [] = (c ∷ []) ∷ []
add_to_first c (line ∷ lines) = (c ∷ line) ∷ lines

unfoldable pub split_lines : List ℕ → List (List ℕ)
split_lines [] = [] ∷ []
split_lines (c ∷ cs) =
    let later = split_lines cs in if c == 10 then [] ∷ later else add_to_first c later

abbrev pub unlines : List (List ℕ) → List ℕ
unlines [] = []
unlines (line ∷ lines) = line ++ 10 ∷ unlines lines

abbrev pub AreLines : List (List ℕ) → Type 0
AreLines = All IsOneLine

split_lines-line :
    (line rest : List ℕ)
    → IsOneLine line
    → split_lines (line ++ 10 ∷ rest) ≡ line ∷ split_lines rest
unfolding split_lines
split_lines-line [] rest h = refl
split_lines-line (c ∷ cs) rest h = ground (arith, split_lines-line cs rest h.1, h.0)

split_lines-unlines :
    (lines : List (List ℕ)) → AreLines lines → split_lines (unlines lines) ≡ lines ++ [] ∷ []
unfolding split_lines
split_lines-unlines [] h = refl
split_lines-unlines (line ∷ lines) h =
    split_lines-line line (unlines lines) h.0 ∙ ap (λ ls. line ∷ ls) (split_lines-unlines lines h.1)

unlines-append : (xs ys : List (List ℕ)) → unlines (xs ++ ys) ≡ unlines xs ++ unlines ys
unlines-append [] ys = refl
unlines-append (x ∷ xs) ys =
    ap (λ t. x ++ 10 ∷ t) (unlines-append xs ys)
    ∙ sym (append_assoc x (10 ∷ unlines xs) (unlines ys))

pub All-append {ℓ κ} :
    {A : Type ℓ} (P : A → Type κ) (xs ys : List A) → All P xs → All P ys → All P (xs ++ ys)
All-append P [] ys h k = k
All-append P (x ∷ xs) ys h k = (h.0, All-append P xs ys h.1 k)

-- The symbols of a backtrace.
abbrev trace_lines : Option (List (List ℕ)) → List (List ℕ)
trace_lines none = []
trace_lines (some strings) = strings

-- The line of a message: its level, its place in the source, and its text.
abbrev pub message_line : Entry → List ℕ
message_line e =
    prefix e.log_type
    ++ (codes "\t"
        ++ (e.file
            ++ (codes ":"
                ++ (show_int e.line
                    ++ (codes "\tfunction '" ++ (e.func ++ (codes "'\t\t" ++ e.message)))))))

-- The lines of a call: its message, and behind an error the backtrace.
abbrev pub entry_lines : Entry → List (List ℕ)
entry_lines e = message_line e ∷ (if is_error e.log_type then trace_lines e.strings else [])

-- No text of the call has an end of line.
pub record IsPlain (e : Entry) : Type 0 where
  pub func : IsOneLine e.func
  pub file : IsOneLine e.file
  pub message : IsOneLine e.message
  pub trace : AreLines (trace_lines e.strings)

pub digits-IsOneLine : (cs : List ℕ) → All (λ c. is_digit c ≡ true) cs → IsOneLine cs
digits-IsOneLine [] h = tt
digits-IsOneLine (c ∷ cs) h = (ground (arith, h.0), digits-IsOneLine cs h.1)

show_int-IsOneLine : (n : ℤ) → IsOneLine (show_int n)
unfolding show_int
show_int-IsOneLine (pos n) = digits-IsOneLine (show_nat n) (show_nat-IsDigits n).digits
show_int-IsOneLine (negsuc n) =
    (omega arith, digits-IsOneLine (show_nat (suc n)) (show_nat-IsDigits (suc n)).digits)

prefix-IsOneLine : (t : LogType) → IsOneLine (prefix t)
prefix-IsOneLine debug = omega arith
prefix-IsOneLine info = omega arith
prefix-IsOneLine warning = omega arith
prefix-IsOneLine error = omega arith
prefix-IsOneLine unnamed = omega arith

entry_text-IsOneLine : (e : Entry) → IsPlain e → IsOneLine (entry_text e)
unfolding entry_text
entry_text-IsOneLine e v =
    let P = λ (c : ℕ). c ≢ 10 in
    All-append P (prefix e.log_type) _ (prefix-IsOneLine e.log_type) (
      omega arith,
      All-append P e.file _ v.file (
        omega arith,
        All-append P (show_int e.line) _ (show_int-IsOneLine e.line) (
          omega arith,
          All-append P (codes "function '") _ (omega arith)
              (All-append P e.func _ v.func (omega arith, (omega arith, (omega arith, v.message)))),
        ),
      ),
    )

entry_lines-AreLines : (e : Entry) → IsPlain e → AreLines (entry_lines e)
unfolding entry_text
entry_lines-AreLines e v = elim (Bool-cases (is_error e.log_type)) [
  | inl is ↦ rw is (entry_text-IsOneLine e v, v.trace)
  | inr isnt ↦ rw isnt (entry_text-IsOneLine e v, tt)
]

trace_of-unlines :
    (strings : Option (List (List ℕ))) → trace_of strings ≡ unlines (trace_lines strings)
trace_of-unlines none = refl
trace_of-unlines (some []) = refl
trace_of-unlines (some (s ∷ strings)) = ap (λ t. s ++ 10 ∷ t) (trace_of-unlines (some strings))

-- The logger after more text.
abbrev with_text : Logger → List ℕ → Logger
with_text logger text = record logger { fp = some text }

write_entry-unlines :
    (e : Entry) (text : List ℕ) (logger : Logger)
    → write_entry e text logger ≡ with_text logger (text ++ unlines (entry_lines e))
unfolding write_entry logger_log_trace entry_text
write_entry-unlines e text logger = elim (Bool-cases (is_error e.log_type)) [
  | inl is ↦ rw is (
      ap (with_text logger) (
        append_assoc text (entry_text e ++ 10 ∷ []) (trace_of e.strings)
        ∙ ap (λ t. text ++ t)
            (append_assoc (entry_text e) (10 ∷ []) (trace_of e.strings)
              ∙ ap (λ t. entry_text e ++ 10 ∷ t) (trace_of-unlines e.strings))))
  | inr isnt ↦ rw isnt refl
]

-- The lines of several calls, in their order.
abbrev pub log_lines : List Entry → List (List ℕ)
log_lines [] = []
log_lines (e ∷ entries) = entry_lines e ++ log_lines entries

pub log_lines-append : (xs ys : List Entry) → log_lines (xs ++ ys) ≡ log_lines xs ++ log_lines ys
log_lines-append [] ys = refl
log_lines-append (e ∷ xs) ys =
    ap (λ ls. entry_lines e ++ ls) (log_lines-append xs ys)
    ∙ sym (append_assoc (entry_lines e) (log_lines xs) (log_lines ys))

abbrev pub ArePlain : List Entry → Type 0
ArePlain = All IsPlain

log_lines-AreLines : (entries : List Entry) → ArePlain entries → AreLines (log_lines entries)
log_lines-AreLines [] h = tt
log_lines-AreLines (e ∷ entries) h =
    All-append IsOneLine (entry_lines e) (log_lines entries) (entry_lines-AreLines e h.0)
      (log_lines-AreLines entries h.1)

log_all-text :
    (entries : List Entry) (text path : List ℕ)
    → log_all (some (record { fp = some text; file_path = path })) entries
      ≡ some (record { fp = some (text ++ unlines (log_lines entries)); file_path = path })
unfolding log_all logger_log
log_all-text [] text path =
    ap (λ t. some (record { fp = some t; file_path = path })) (sym (append-nil text))
log_all-text (e ∷ entries) text path =
    let logger : Logger = record { fp = some text; file_path = path } in
    ap (λ l. log_all (some l) entries) (write_entry-unlines e text logger)
    ∙ log_all-text entries (text ++ unlines (entry_lines e)) path
    ∙ ap (λ t. some (record { fp = some t; file_path = path }))
        (append_assoc text (unlines (entry_lines e)) (unlines (log_lines entries))
          ∙ ap (λ t. text ++ t) (sym (unlines-append (entry_lines e) (log_lines entries))))

log_all-shut :
    (entries : List Entry) (path : List ℕ)
    → log_all (some (logger_init path none)) entries ≡ some (logger_init path none)
unfolding log_all logger_log logger_init
log_all-shut [] path = refl
log_all-shut (e ∷ entries) path = log_all-shut entries path

log_all-none : (entries : List Entry) → log_all none entries ≡ none
unfolding log_all logger_log
log_all-none [] = refl
log_all-none (e ∷ entries) = log_all-none entries

-- In whatever order threads log, with texts that have no end of line, to a file of whole lines: the
-- lines read back from the file are those that were there and then, for each call in order, one
-- line for its message, and behind that of an error, and of no other, the lines of its backtrace.
-- To no logger, or one whose file did not open, nothing is written.
pub log_all_lem :
    (path : List ℕ) (old : List (List ℕ)) (entries : List Entry)
    → AreLines old
    → ArePlain entries
    → ((text : List ℕ) × (log_all (some (logger_init path (some (unlines old)))) entries
          ≡ some (record { fp = some text; file_path = path }))
        × (logger_free (record { fp = some text; file_path = path }) ≡ some text)
        × (split_lines text ≡ (old ++ log_lines entries) ++ [] ∷ []))
      × (log_all (some (logger_init path none)) entries ≡ some (logger_init path none))
      × (log_all none entries ≡ none)
unfolding logger_init logger_free
log_all_lem path old entries h k =
    let text = unlines old ++ unlines (log_lines entries) in
    (
      (
        text,
        log_all-text entries (unlines old) path,
        refl,
        ap split_lines (sym (unlines-append old (log_lines entries)))
            ∙ split_lines-unlines (old ++ log_lines entries)
                (All-append IsOneLine old (log_lines entries) h (log_lines-AreLines entries k)),
      ),
      log_all-shut entries path,
      log_all-none entries,
    )
