-- ===== src/Database.antt =====
-- hw15-database/main.c: statistics of a column of a table. The database is a library: what its
-- statements give is an argument.
pub mod Dispersion
mod Tests
use otus_c_2025_3_kushko.Common.{
  ℕ, zero, suc, ◌+◌, ◌-◌, ◌*◌, ◌/◌, ◌%◌, ◌^◌, Bool, true, false, List, [], ◌∷◌, ◌++◌, Option, none,
  some, get_or, take, length, ltb, ◌==◌, if◌then◌else◌,
}
use otus_c_2025_3_kushko.Common.Int.{wrap_int, ℤ, pos, negsuc, ◌+ℤ◌, ◌-ℤ◌, ◌*ℤ◌}
use otus_c_2025_3_kushko.Common.Decimal.{show_int}
use otus_c_2025_3_kushko.Common.Text.{codes}

-- The constants of the source.
abbrev pub database_name : List ℕ
database_name = codes "db.sqlite"

abbrev pub table_name : List ℕ
table_name = codes "students"

abbrev pub column_name : List (List ℕ)
column_name =
    codes "id"
    ∷ codes "name"
    ∷ codes "age"
    ∷ codes "math_score"
    ∷ codes "history_score"
    ∷ codes "chemistry_score"
    ∷ []

abbrev pub column_type : List (List ℕ)
column_type =
    codes "INTEGER PRIMARY KEY ASC AUTOINCREMENT NOT NULL UNIQUE DEFAULT (1)"
    ∷ codes "TEXT"
    ∷ codes "INTEGER"
    ∷ codes "INTEGER"
    ∷ codes "INTEGER"
    ∷ codes "INTEGER"
    ∷ []

abbrev pub name : List (List ℕ)
name =
    codes "TomasAndersen"
    ∷ codes "PeterParker"
    ∷ codes "HarryPotter"
    ∷ codes "BruceWayne"
    ∷ codes "ClarkKent"
    ∷ codes "SarahConor"
    ∷ codes "EllenRipley"
    ∷ codes "NatashaRomanova"
    ∷ codes "MaryJane"
    ∷ codes "AnnaDark"
    ∷ []

abbrev pub age : List ℕ
age = 17 ∷ 18 ∷ 16 ∷ 15 ∷ 18 ∷ 16 ∷ 16 ∷ 17 ∷ 18 ∷ 17 ∷ []

abbrev pub math_score : List ℕ
math_score = 70 ∷ 65 ∷ 85 ∷ 95 ∷ 100 ∷ 85 ∷ 55 ∷ 90 ∷ 55 ∷ 92 ∷ []

abbrev pub history_score : List ℕ
history_score = 100 ∷ 78 ∷ 82 ∷ 93 ∷ 100 ∷ 81 ∷ 66 ∷ 73 ∷ 54 ∷ 93 ∷ []

abbrev pub chemistry_score : List ℕ
chemistry_score = 88 ∷ 75 ∷ 61 ∷ 98 ∷ 52 ∷ 87 ∷ 92 ∷ 45 ∷ 72 ∷ 98 ∷ []

-- `snprintf` into a buffer of QUERY_MAX_LEN bytes.
abbrev pub in_query : List ℕ → List ℕ
in_query statement = take 255 statement

-- A name and a type of `column_name` and `column_type`.
abbrev column : ℕ → List ℕ
column i = get_or column_name i [] ++ 32 ∷ get_or column_type i []

-- The statement that makes the table, before the cut to the buffer.
unfoldable pub create_statement : List ℕ
create_statement =
    codes "CREATE TABLE IF NOT EXISTS "
    ++ (table_name
        ++ (codes " ("
            ++ (column 0
                ++ (codes ", "
                    ++ (column 1
                        ++ (codes ", "
                            ++ (column 2
                                ++ (codes ", "
                                    ++ (column 3
                                        ++ (codes ", "
                                            ++ (column 4
                                                ++ (codes ", "
                                                    ++ (column 5 ++ codes ");")))))))))))))

abbrev number : List ℕ → ℕ → List ℕ
number xs i = show_int (pos (get_or xs i 0))

-- The statement that adds row `i`.
unfoldable pub insert_statement : ℕ → List ℕ
insert_statement i =
    codes "INSERT OR IGNORE INTO "
    ++ (table_name
        ++ (codes " VALUES("
            ++ (show_int (pos (i + 1))
                ++ (codes ", '"
                    ++ (get_or name i []
                        ++ (codes "', "
                            ++ (number age i
                                ++ (codes ", "
                                    ++ (number math_score i
                                        ++ (codes ", "
                                            ++ (number history_score i
                                                ++ (codes ", "
                                                    ++ (number chemistry_score i
                                                        ++ codes ");")))))))))))))

-- The rounds of the loop of `init_db`, from `i` on.
abbrev insert_from : ℕ → ℕ → List (List ℕ)
insert_from i zero = []
insert_from i (suc n) = in_query (insert_statement i) ∷ insert_from (i + 1) n

-- The statements that `init_db` executes, in order; an error of one is printed and does not stop it.
unfoldable pub init_db : List (List ℕ)
init_db = in_query create_statement ∷ insert_from 0 10

-- The operations of `get_stat`.
pub data Operation : Type 0 where
  sum avg max min dsp : Operation

abbrev pub op_str : Operation → List ℕ
op_str sum = codes "sum"
op_str avg = codes "avg"
op_str max = codes "max"
op_str min = codes "min"
op_str dsp = codes "dsp"

-- QUERY_STAT
unfoldable pub stat_query : Operation → List ℕ → List ℕ → List ℕ
stat_query op column table = in_query (
    codes "SELECT "
    ++ (op_str op
        ++ (codes "("
            ++ (column
                ++ (codes ") AS \""
                    ++ (op_str op ++ (codes "_" ++ (column ++ (codes "\" FROM " ++ table)))))))))

unfoldable pub rows_query : List ℕ → List ℕ → List ℕ
rows_query column table = in_query (codes "SELECT " ++ (column ++ (codes " FROM " ++ table)))

-- The quotient of an int by a positive number, cut towards zero.
abbrev pub quotient : ℤ → ℕ → ℤ
quotient (pos n) d = pos (n / d)
quotient (negsuc n) d = pos 0 -ℤ pos (suc n / d)

-- What `get_stat` returns; with no rows the dispersion divides by zero.
pub data Stat : Type 0 where
  result : ℤ → Stat
  division_by_zero : Stat

-- `res` after the loop over the rows of a statement.
abbrev pub last_value : ℤ → List ℤ → ℤ
last_value res [] = res
last_value res (value ∷ rows) = last_value value rows

-- `sum` and `cnt` after the loop of the dispersion.
unfoldable pub add_squares : ℤ → List ℤ → ℤ → ℕ → ℤ × ℕ
add_squares mean [] total cnt = (total, cnt)
add_squares mean (value ∷ rows) total cnt =
    let val = wrap_int (value -ℤ mean) in
    add_squares mean rows (wrap_int (total +ℤ wrap_int (val *ℤ val))) (cnt + 1)

-- `query` gives the first column of a statement's rows, or nothing when it cannot be prepared.
module _ (query : List ℕ → Option (List ℤ)) where
  abbrev pub one_value : Option (List ℤ) → ℤ
  one_value none = negsuc 0
  one_value (some rows) = last_value (pos 0) rows

  abbrev divide : ℤ × ℕ → Stat
  divide (total, cnt) = if cnt == 0 then division_by_zero else result (quotient total cnt)

  abbrev pub dispersion : ℤ → Option (List ℤ) → Stat
  dispersion mean none = result (negsuc 0)
  dispersion mean (some rows) = divide (add_squares mean rows (pos 0) 0)

  unfoldable pub get_stat : Operation → List ℕ → List ℕ → Stat
  get_stat sum column table = result (one_value (query (stat_query sum column table)))
  get_stat avg column table = result (one_value (query (stat_query avg column table)))
  get_stat max column table = result (one_value (query (stat_query max column table)))
  get_stat min column table = result (one_value (query (stat_query min column table)))
  get_stat dsp column table =
      dispersion (one_value (query (stat_query avg column table))) (query (rows_query column table))

-- What `main` executes and prints of its five operations; a division by zero ends the program.
pub record Summary : Type 0 where
  pub executed : List (List ℕ)
  pub printed : List (List ℕ × Stat)

-- The arguments are those after the program's name.
abbrev table_of : List (List ℕ) → List ℕ
table_of args = get_or args 1 table_name

abbrev column_of : List (List ℕ) → List ℕ
column_of args = get_or args 2 (get_or column_name 2 [])

-- The statements that are executed unless three arguments are given.
unfoldable pub executed_first : List (List ℕ) → List (List ℕ)
executed_first args = if ltb (length args) 3 then init_db else []

-- `open_db` fails, or gives what a statement's rows are after some statements were executed.
module _ (open_db : List ℕ → Option (List (List ℕ) → List ℕ → Option (List ℤ))) where
  abbrev report_of : (List ℕ → Option (List ℤ)) → List (List ℕ) → Summary
  report_of query args =
      let stat = λ (op : Operation). get_stat query op (column_of args) (table_of args) in
      record {
        executed = executed_first args;
        printed =
            (codes "SUM", stat sum)
            ∷ (codes "AVG", stat avg)
            ∷ (codes "MAX", stat max)
            ∷ (codes "MIN", stat min)
            ∷ (codes "DSP", stat dsp)
            ∷ [];
      }

  unfoldable pub main : List (List ℕ) → Option Summary
  main args = elim (open_db (get_or args 0 database_name)) [
    | none ↦ none
    | some rows_after ↦ some (report_of (rows_after (executed_first args)) args)
  ]
