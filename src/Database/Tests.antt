-- ===== src/Database/Tests.antt =====
-- Tests of the model of hw15-database/main.c.
use otus_c_2025_3_kushko.Common.{
  ℕ, ◌≡◌, refl, List, [], ◌∷◌, Option, none, some, if◌then◌else◌, arith,
}
use otus_c_2025_3_kushko.Common.Int.{ℤ, pos}
use otus_c_2025_3_kushko.Common.Decimal.{show_int, show_nat}
use otus_c_2025_3_kushko.Common.Text.{codes, same_text}
use otus_c_2025_3_kushko.Database.{
  dsp, stat_query, rows_query, in_query, create_statement, insert_statement, result,
  division_by_zero, get_stat, add_squares,
}
use otus_c_2025_3_kushko.Database.Dispersion.{dispersion_lem}

-- The statement that makes the table is not cut by the buffer.
create_statement-fits : in_query create_statement ≡ create_statement
unfolding create_statement
create_statement-fits = refl

insert_statement-first :
    insert_statement 0
    ≡ codes "INSERT OR IGNORE INTO students VALUES(1, 'TomasAndersen', 17, 70, 100, 88);"
unfolding insert_statement show_int show_nat
insert_statement-first = refl

-- A database that knows the two statements of the DSP of a column `c` of a table `t`: 4, 6 and 8.
abbrev marks : List ℕ → Option (List ℤ)
marks statement =
    if same_text statement (codes "SELECT c FROM t")
    then some (pos 4 ∷ pos 6 ∷ pos 8 ∷ [])
    else if same_text statement (codes "SELECT avg(c) AS \"avg_c\" FROM t")
    then some (pos 6 ∷ [])
    else none

dispersion_lem_example : get_stat marks dsp (codes "c") (codes "t") ≡ result (pos 2)
unfolding stat_query rows_query
dispersion_lem_example =
    dispersion_lem marks (codes "c") (codes "t") (4 ∷ 6 ∷ 8 ∷ []) 6 refl refl (omega arith)
      (omega arith, (omega arith, (omega arith, tt))) (omega arith) (omega arith)

-- A table that is empty: the dispersion divides by zero.
empty_table-dsp : get_stat (λ statement. some []) dsp (codes "c") (codes "t") ≡ division_by_zero
unfolding get_stat add_squares
empty_table-dsp = refl
