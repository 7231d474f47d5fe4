-- ===== src/Dbs.antt =====
-- pkg/dbs: the database as the repositories see it. GORM and PostgreSQL are a parameter, `Engine`:
-- a statement on a table's rows answers what the SQL means (Dbs/Rows), or reports a fault of the
-- connection and leaves the rows alone, and a transaction is settled as gorm.Transaction documents.
pub mod Rows
pub mod Keyed
pub mod Pages
pub mod Saved
pub mod Reference
use scalable_e_commerce_plat.Base.{
  ℕ, String, ◌≡◌, ◌⊎◌, Bool, true, List, Option, Result, ok, err, engine, Fault, ℤ, other, Action,
}
use Rows.{
  first_row, find_rows, update_rows, update_returning_rows, insert_row, insert_rows, upsert_row,
  save_row, write_row, insert_ignoring_row, delete_rows, count_where, page_rows,
}

-- An answer is the meaning of the statement, or a fault that the statement does not explain.
abbrev pub Replies : {A : Type 0} → Result A → Result A → Type 0
Replies answer meaning = (answer ≡ meaning) ⊎ ((n : ℕ) × (answer ≡ err (engine (other n))))

-- A transaction keeps what its function wrote when that returns no error, and else rolls back.
abbrev pub settle : {S A : Type 0} → S → Result A × S → Result A × S
settle s (ok a, s') = (ok a, s')
settle s (err e, s') = (err e, s)

abbrev pub Settles : {S A : Type 0} → S → Result A × S → Result A × S → Type 0
Settles s answer done =
    (answer ≡ settle s done) ⊎ ((n : ℕ) × (answer ≡ (err (engine (other n)), s)))

pub record Engine : Type 1 where
  -- First(&row) with its WHERE condition
  pub first : (R : Type 0) → (R → Bool) → List R → Result R
  pub first_replies :
      (R : Type 0) (p : R → Bool) (rows : List R) → Replies (first R p rows) (first_row p rows)
  -- Find(&rows) with WHERE, ORDER BY an instant, and LIMIT if there is one
  pub find : (R : Type 0) → (R → Bool) → (R → ℕ) → Option ℕ → List R → Result (List R)
  pub find_replies :
      (R : Type 0) (p : R → Bool) (by : R → ℕ) (limit : Option ℕ) (rows : List R)
      → Replies (find R p by limit rows) (ok (find_rows p by limit rows))
  -- UPDATE with WHERE and SET, and the range of the columns set: the rows affected
  pub update : (R : Type 0) → (R → Bool) → (R → R) → (R → Bool) → List R → Result (ℕ × List R)
  pub update_replies :
      (R : Type 0) (p : R → Bool) (set : R → R) (fits : R → Bool) (rows : List R)
      → Replies (update R p set fits rows) (update_rows p set fits rows)
  pub update_returning :
      (R : Type 0) → (R → Bool) → (R → R) → (R → Bool) → List R → Result (List R × List R)
  pub update_returning_replies :
      (R : Type 0) (p : R → Bool) (set : R → R) (fits : R → Bool) (rows : List R)
      → Replies (update_returning R p set fits rows) (update_returning_rows p set fits rows)
  -- INSERT, with the constraint that a present row makes it violate
  pub insert : (R : Type 0) → (R → List String) → R → List R → Result (List R)
  pub insert_replies :
      (R : Type 0) (violates : R → List String) (row : R) (rows : List R)
      → Replies (insert R violates row rows) (insert_row violates row rows)
  pub insert_batch : (R : Type 0) → (R → R → List String) → List R → List R → Result (List R)
  pub insert_batch_replies :
      (R : Type 0) (violates : R → R → List String) (batch rows : List R)
      → Replies (insert_batch R violates batch rows) (insert_rows violates batch rows)
  -- INSERT … ON CONFLICT (key) DO UPDATE SET … RETURNING *
  pub upsert : (R : Type 0) → (R → Bool) → (R → R) → (R → Bool) → R → List R → Result (R × List R)
  pub upsert_replies :
      (R : Type 0) (same : R → Bool) (set : R → R) (fits : R → Bool) (row : R) (rows : List R)
      → Replies (upsert R same set fits row rows) (upsert_row same set fits row rows)
  pub count : (R : Type 0) → (R → Bool) → List R → Result ℕ
  pub count_replies :
      (R : Type 0) (p : R → Bool) (rows : List R)
      → Replies (count R p rows) (ok (count_where p rows))
  -- Find(&rows) with WHERE, ORDER BY a column, LIMIT and OFFSET
  pub find_page : (R : Type 0) → (R → Bool) → (R → ℕ) → Bool → ℕ → ℤ → List R → Result (List R)
  pub find_page_replies :
      (R : Type 0) (p : R → Bool) (by : R → ℕ) (desc : Bool) (limit : ℕ) (offset : ℤ)
      (rows : List R)
      → Replies
          (find_page R p by desc limit offset rows)
          (ok (page_rows p by desc limit offset rows))
  -- INSERT, or Save, of a row with constraints of its own
  pub write :
      (R : Type 0) → Option Fault → (R → Bool) → (R → List String) → R → List R → Result (List R)
  pub write_replies :
      (R : Type 0) (refused : Option Fault) (same : R → Bool) (violates : R → List String) (row : R)
      (rows : List R)
      → Replies (write R refused same violates row rows) (write_row refused same violates row rows)
  pub insert_ignoring :
      (R : Type 0)
      → Option Fault
      → (R → Bool)
      → (R → List String)
      → Option Fault
      → R
      → List R
      → Result (List R)
  pub insert_ignoring_replies :
      (R : Type 0) (refused : Option Fault) (same : R → Bool) (violates : R → List String)
      (lacking : Option Fault) (row : R) (rows : List R)
      → Replies
          (insert_ignoring R refused same violates lacking row rows)
          (insert_ignoring_row refused same violates lacking row rows)
  pub delete : (R : Type 0) → (R → Bool) → List R → Result (List R)
  pub delete_replies :
      (R : Type 0) (p : R → Bool) (rows : List R)
      → Replies (delete R p rows) (ok (delete_rows p rows))
  -- Save(&row): every column of the row with its primary key, or an INSERT
  pub save : (R : Type 0) → (R → Bool) → R → List R → Result (List R)
  pub save_replies :
      (R : Type 0) (same : R → Bool) (row : R) (rows : List R)
      → Replies (save R same row rows) (ok (save_row same row rows))
  -- gorm.Transaction. `calls` says whether the function was called; it is not where BEGIN fails.
  pub transaction : (S A : Type 0) → Action S A → Action S A
  pub transaction_settles :
      (S A : Type 0) (body : Action S A) (s : S) → Settles s (transaction S A body s) (body s)
  pub calls : (S A : Type 0) → Action S A → S → Bool
  pub calls_lem :
      (S A : Type 0) (body : Action S A) (s : S)
      → (calls S A body s ≡ true)
        ⊎ ((n : ℕ) × (transaction S A body s ≡ (err (engine (other n)), s)))

-- A statement on one table of the store: the rows that it leaves are written back.
abbrev pub statement :
    {S R A : Type 0} → (S → List R) → (List R → S → S) → (List R → Result (A × List R)) → Action S A
statement rows write run s = elim (run (rows s)) [
  | ok (a, rows') ↦ (ok a, write rows' s)
  | err e ↦ (err e, s)
]

abbrev pub query : {S R A : Type 0} → (S → List R) → (List R → Result A) → Action S A
query rows run s = (run (rows s), s)

-- A statement that answers the rows alone, and the value that its caller goes on with.
abbrev pub answering : {R A : Type 0} → A → Result (List R) → Result (A × List R)
answering a (ok rows) = ok (a, rows)
answering a (err e) = err e
