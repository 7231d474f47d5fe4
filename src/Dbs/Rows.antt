-- ===== src/Dbs/Rows.antt =====
-- What the SQL statements of the repositories mean for the rows of one table.
use scalable_e_commerce_plat.Base.{
  ℕ, suc, String, Bool, true, ◌&&◌, List, [], ◌∷◌, ◌++◌, map, Option, none, some, Result, ok, err,
  engine, Fault, record_not_found, out_of_range, unique_violation, take, drop, leb, ℤ, pos_part,
  if◌then◌else◌,
}

module _ {R : Type 0} where
  abbrev pub first_where : (R → Bool) → List R → Option R
  first_where p [] = none
  first_where p (r ∷ rows) = if p r then some r else first_where p rows

  abbrev pub first_row : (R → Bool) → List R → Result R
  first_row p rows = elim (first_where p rows) [
    | none ↦ err (engine record_not_found)
    | some r ↦ ok r
  ]

  abbrev pub filter_where : (R → Bool) → List R → List R
  filter_where p [] = []
  filter_where p (r ∷ rows) = if p r then r ∷ filter_where p rows else filter_where p rows

  -- ORDER BY an instant: insertion sort, oldest first.
  abbrev pub insert_by : (R → ℕ) → R → List R → List R
  insert_by key r [] = r ∷ []
  insert_by key r (x ∷ rows) =
      if leb (key r) (key x) then r ∷ x ∷ rows else x ∷ insert_by key r rows

  abbrev pub sort_by : (R → ℕ) → List R → List R
  sort_by key [] = []
  sort_by key (r ∷ rows) = insert_by key r (sort_by key rows)

  abbrev pub limited : Option ℕ → List R → List R
  limited none rows = rows
  limited (some n) rows = take n rows

  abbrev pub find_rows : (R → Bool) → (R → ℕ) → Option ℕ → List R → List R
  find_rows p by limit rows = limited limit (sort_by by (filter_where p rows))

  abbrev pub count_where : (R → Bool) → List R → ℕ
  count_where p [] = 0
  count_where p (r ∷ rows) = if p r then suc (count_where p rows) else count_where p rows

  abbrev pub map_where : (R → Bool) → (R → R) → List R → List R
  map_where p set [] = []
  map_where p set (r ∷ rows) = (if p r then set r else r) ∷ map_where p set rows

  -- Whether each row that the condition selects passes a test.
  abbrev pub all_where : (R → Bool) → (R → Bool) → List R → Bool
  all_where p test [] = true
  all_where p test (r ∷ rows) = (if p r then test r else true) && all_where p test rows

  -- A value out of a column's range fails the whole statement.
  abbrev pub update_rows : (R → Bool) → (R → R) → (R → Bool) → List R → Result (ℕ × List R)
  update_rows p set fits rows =
      if all_where p (λ r. fits (set r)) rows
      then ok (count_where p rows, map_where p set rows)
      else err (engine out_of_range)

  -- UPDATE … RETURNING *: the rows as they are after it.
  abbrev pub update_returning_rows :
      (R → Bool) → (R → R) → (R → Bool) → List R → Result (List R × List R)
  update_returning_rows p set fits rows =
      if all_where p (λ r. fits (set r)) rows
      then ok (map set (filter_where p rows), map_where p set rows)
      else err (engine out_of_range)

  -- The first constraint that a present row makes an INSERT violate.
  abbrev pub first_violated : (R → List String) → List R → Option String
  first_violated violates [] = none
  first_violated violates (r ∷ rows) = elim (violates r) [
    | [] ↦ first_violated violates rows
    | c ∷ _ ↦ some c
  ]

  abbrev pub insert_row : (R → List String) → R → List R → Result (List R)
  insert_row violates row rows = elim (first_violated violates rows) [
    | none ↦ ok (rows ++ (row ∷ []))
    | some c ↦ err (engine (unique_violation c))
  ]

  -- One INSERT of several rows: all of them, or none.
  abbrev pub insert_rows : (R → R → List String) → List R → List R → Result (List R)
  insert_rows violates [] rows = ok rows
  insert_rows violates (row ∷ batch) rows = elim (first_violated (violates row) rows) [
    | none ↦ insert_rows violates batch (rows ++ (row ∷ []))
    | some c ↦ err (engine (unique_violation c))
  ]

  abbrev pub upsert_row : (R → Bool) → (R → R) → (R → Bool) → R → List R → Result (R × List R)
  upsert_row same set fits row rows = elim (first_where same rows) [
    | none ↦ ok (row, rows ++ (row ∷ []))
    | some old ↦
        if fits (set old) then ok (set old, map_where same set rows) else err (engine out_of_range)
  ]

  abbrev pub save_row : (R → Bool) → R → List R → List R
  save_row same row rows = elim (first_where same rows) [
    | none ↦ rows ++ (row ∷ [])
    | some old ↦ map_where same (λ _. row) rows
  ]

  -- INSERT or Save of a row: `refused` is what the row's own values break, and the constraints are
  -- those that another row makes it violate.
  abbrev pub write_row :
      Option Fault → (R → Bool) → (R → List String) → R → List R → Result (List R)
  write_row (some f) same violates row rows = err (engine f)
  write_row none same violates row rows =
      elim (first_violated (λ r. if same r then [] else violates r) rows) [
        | none ↦ ok (save_row same row rows)
        | some c ↦ err (engine (unique_violation c))
      ]

  -- INSERT … ON CONFLICT (key) DO NOTHING. `refused` is what the row's own values break, and `lacking`
  -- the foreign key that it would break once it is inserted.
  abbrev pub insert_ignoring_row :
      Option Fault → (R → Bool) → (R → List String) → Option Fault → R → List R → Result (List R)
  insert_ignoring_row (some f) same violates lacking row rows = err (engine f)
  insert_ignoring_row none same violates lacking row rows = elim (first_where same rows) [
    | some old ↦ ok rows
    | none ↦ elim (insert_row violates row rows) [
      | err e ↦ err e
      | ok rows' ↦ elim lacking [ none ↦ ok rows' | some f ↦ err (engine f) ]
    ]
  ]

  -- DELETE
  abbrev pub delete_rows : (R → Bool) → List R → List R
  delete_rows p [] = []
  delete_rows p (r ∷ rows) = if p r then delete_rows p rows else r ∷ delete_rows p rows

  -- ORDER BY a column, ascending or descending: `by` ranks a row by its value in that column. Rows of
  -- one rank stay in the order of the table.
  abbrev pub insert_down : (R → ℕ) → R → List R → List R
  insert_down key r [] = r ∷ []
  insert_down key r (x ∷ rows) =
      if leb (key x) (key r) then r ∷ x ∷ rows else x ∷ insert_down key r rows

  abbrev pub ordered_by : Bool → (R → ℕ) → List R → List R
  ordered_by desc key [] = []
  ordered_by desc key (r ∷ rows) =
      if desc
      then insert_down key r (ordered_by desc key rows)
      else insert_by key r (ordered_by desc key rows)

  -- LIMIT and OFFSET; GORM leaves out an offset that is not positive.
  abbrev pub page_rows : (R → Bool) → (R → ℕ) → Bool → ℕ → ℤ → List R → List R
  page_rows p by desc limit offset rows =
      take limit (drop (pos_part offset) (ordered_by desc by (filter_where p rows)))
