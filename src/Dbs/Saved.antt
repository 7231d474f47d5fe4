-- ===== src/Dbs/Saved.antt =====
-- A row that is saved by its key.
use scalable_e_commerce_plat.Base.{
  String, ◌≡◌, refl, none, some, List, [], ◌∷◌, ◌==◌, eq_iff, arith, inl, inr, subst, Option-cases,
  Bool-cases, if◌then◌else◌,
}
use scalable_e_commerce_plat.Dbs.Rows.{map_where, save_row}
use scalable_e_commerce_plat.Dbs.Keyed.{find_key, find_key-append}

module _ {R : Type 0} (key : R → String) where
  find_key-replaced :
      (j : String) (row : R) (rows : List R)
      → find_key key j (map_where (λ r. key r == key row) (λ _. row) rows)
        ≡ elim (find_key key j rows) [
          | none ↦ none
          | some old ↦ if key row == j then some row else some old
        ]
  find_key-replaced j row [] = refl
  find_key-replaced j row (r ∷ rows) = ground (
    arith,
    eq_iff (key r) (key row),
    eq_iff (key row) j,
    eq_iff (key r) j,
    find_key-replaced j row rows,
  )

  -- A row that is saved is the event with its id, and no other event has changed.
  pub find_key-save_row :
      (j : String) (row : R) (rows : List R)
      → find_key key j (save_row (λ r. key r == key row) row rows)
        ≡ (if key row == j then some row else find_key key j rows)
  find_key-save_row j row rows = elim (Option-cases (find_key key (key row) rows)) [
    | inl z ↦ elim (Bool-cases (key row == j)) [
      | inl t ↦ ground (
        arith,
        z,
        t,
        find_key-append key j row rows,
        subst (λ i. find_key key i rows ≡ none) ((eq_iff (key row) j).0 t) z,
      )
      | inr t ↦ ground (arith, z, t, find_key-append key j row rows)
    ]
    | inr (old, z) ↦ elim (Bool-cases (key row == j)) [
      | inl t ↦ ground (
        arith,
        z,
        t,
        find_key-replaced j row rows,
        subst (λ i. find_key key i rows ≡ some old) ((eq_iff (key row) j).0 t) z,
      )
      | inr t ↦ ground (arith, z, t, find_key-replaced j row rows)
    ]
  ]
