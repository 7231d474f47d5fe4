-- ===== src/Inventory/Setting.antt =====
-- SetStock, which finds or creates the row of a product and then saves it with a quantity. The two
-- statements are no transaction: a fault of the second leaves what the first has done.
use scalable_e_commerce_plat.Base.{
  ℕ, String, ◌≡◌, refl, Bool, true, List, [], ◌∷◌, ◌++◌, Option, none, some, Result, ok, err,
  engine, other, ◌==◌, eq_iff, arith, inl, inr, sym, subst, ap, ◌∙◌, Option-cases, Bool-cases, ℤ,
  pos, if◌then◌else◌,
}
use scalable_e_commerce_plat.Dbs.{Engine}
use scalable_e_commerce_plat.Dbs.Rows.{map_where, save_row, first_violated}
use scalable_e_commerce_plat.Dbs.Keyed.{
  find_key, IsUnique, find_key-key, find_key-append, append-IsUnique,
}
use scalable_e_commerce_plat.Store.{Tables}
use scalable_e_commerce_plat.Validation.{Validation}
use scalable_e_commerce_plat.Inventory.Model.{Inventory, SetInventoryReq, before_create}
use scalable_e_commerce_plat.Inventory.Stock.{
  product_of, stock, InStock, IsSound, stock-map_where, map_where-IsSound, append_stock, added,
  selects, sets,
}
use scalable_e_commerce_plat.Inventory.Repository
use scalable_e_commerce_plat.Inventory.Service

abbrev pub id_of : Inventory → String
id_of r = r.id

abbrev with_quantity : ℤ → Inventory → Inventory
with_quantity q r = record r { quantity = q }

-- The row found under a product is found under its id as well.
find_key_by_id :
    (p : String) (rows : List Inventory) (old : Inventory)
    → find_key product_of p rows ≡ some old
    → find_key id_of old.id rows ≡ none
    → ⊥
find_key_by_id p [] old e f = cc (e, f)
find_key_by_id p (r ∷ rows) old e f =
    ground (arith, e, f, eq_iff old.id old.id, find_key_by_id p rows old)

untouched_by_id :
    (k : String) (row : Inventory) (rows : List Inventory)
    → find_key id_of k rows ≡ none
    → map_where (λ r. r.id == k) (λ _. row) rows ≡ rows
untouched_by_id k row [] e = refl
untouched_by_id k row (r ∷ rows) e = ground (arith, e, untouched_by_id k row rows)

module _ (p : String) (q : ℤ) where
  abbrev always : ℤ → Bool
  always _ = true

  untouched_by_product :
      (rows : List Inventory)
      → find_key product_of p rows ≡ none
      → map_where (selects p always (λ _. q)) (sets p always (λ _. q)) rows ≡ rows
  untouched_by_product [] e = refl
  untouched_by_product (r ∷ rows) e = ground (arith, e, untouched_by_product rows)

  -- A save of the product's row by its id is an update by the product.
  save_by_id :
      (rows : List Inventory) (old : Inventory)
      → IsUnique product_of rows
      → IsUnique id_of rows
      → find_key product_of p rows ≡ some old
      → map_where (λ r. r.id == old.id) (λ _. with_quantity q old) rows
        ≡ map_where (selects p always (λ _. q)) (sets p always (λ _. q)) rows
  save_by_id [] old u w e = refl
  save_by_id (r ∷ rows) old u w e = elim (Bool-cases (r.product_id == p)) [
    | inl t ↦
        let v : r ≡ old = ground (arith, e, t) in
        let a =
          untouched_by_id old.id (with_quantity q old) rows
            (subst (λ (x : Inventory). find_key id_of x.id rows ≡ none) v (w.0)) in
        let b =
          untouched_by_product rows
            (subst (λ i. find_key product_of i rows ≡ none) ((eq_iff r.product_id p).0 t) (u.0)) in
        ground (arith, t, v, a, b, eq_iff old.id old.id)
    | inr t ↦
        let f : find_key product_of p rows ≡ some old = ground (arith, e, t) in
        elim (Bool-cases (r.id == old.id)) [
          | inl c ↦ absurd (
              find_key_by_id p rows old f
                (subst (λ i. find_key id_of i rows ≡ none) ((eq_iff r.id old.id).0 c) (w.0)))
          | inr c ↦ ground (arith, t, c, save_by_id rows old (u.1) (w.1) f)
        ]
  ]

-- The stock of each product when that of one is set.
abbrev pub assigned : String → ℤ → String → Option ℤ → Option ℤ
assigned p q j o = if j == p then some q else o

-- What SetStock has done: it set the stock of the product; or the engine reported a fault, and the
-- stock is as before, or 0 where the product had none.
pub data SetOutcome {F : Type 0} (p : String) (q : ℤ) (s : Tables F)
    (out : Result Inventory × Tables F) : Type 0 where
  assigned_now :
      (row : Inventory) (rows : List Inventory)
      → out ≡ (ok row, record s { inventories = rows })
      → row.product_id ≡ p
      → row.quantity ≡ q
      → IsSound rows
      → ((j : String) → stock j rows ≡ assigned p q j (stock j s.inventories))
      → SetOutcome p q s out
  unassigned : (n : ℕ) → out ≡ (err (engine (other n)), s) → SetOutcome p q s out
  only_created :
      (n : ℕ) (rows : List Inventory)
      → out ≡ (err (engine (other n)), record s { inventories = rows })
      → stock p s.inventories ≡ none
      → IsSound rows
      → ((j : String) → stock j rows ≡ assigned p (pos 0) j (stock j s.inventories))
      → SetOutcome p q s out

-- The rows after a save of the product's row.
module _ (p : String) (q : ℤ) (rows : List Inventory) (old : Inventory) (b : InStock q)
    (h : IsSound rows) (w : IsUnique id_of rows) (e : find_key product_of p rows ≡ some old) where
  save_row_found :
      save_row (λ r. r.id == old.id) (with_quantity q old) rows
      ≡ map_where (selects p (always p q) (λ _. q)) (sets p (always p q) (λ _. q)) rows
  save_row_found = elim (Option-cases (find_key id_of old.id rows)) [
    | inl z ↦ absurd (find_key_by_id p rows old e z)
    | inr (x, z) ↦ ground (arith, z, save_by_id p q rows old h.unique w e)
  ]

  save_row-IsSound : IsSound (save_row (λ r. r.id == old.id) (with_quantity q old) rows)
  save_row-IsSound =
      subst IsSound (sym save_row_found)
        (map_where-IsSound p (always p q) (λ _. q) rows (λ n _ _. b) h)

  stock-save_row :
      (j : String)
      → stock j (save_row (λ r. r.id == old.id) (with_quantity q old) rows)
        ≡ assigned p q j (stock j rows)
  stock-save_row j =
      ap (stock j) save_row_found
      ∙ stock-map_where p (always p q) (λ _. q) j rows
      ∙ elim (Bool-cases (j == p)) [
        | inl t ↦ ground (
          arith,
          t,
          subst (λ i. find_key product_of i rows ≡ some old) (sym ((eq_iff j p).0 t)) e,
        )
        | inr t ↦ elim (Option-cases (stock j rows)) [
          | inl z ↦ ground (arith, t, z)
          | inr (n, z) ↦ ground (arith, t, z)
        ]
      ]

-- A row with a product and an id that no row has violates nothing.
first_violated-none :
    (row : Inventory) (rows : List Inventory)
    → find_key product_of row.product_id rows ≡ none
    → find_key id_of row.id rows ≡ none
    → first_violated (Repository.violates row) rows ≡ none
first_violated-none row [] e f = refl
first_violated-none row (r ∷ rows) e f = ground (arith, e, f, first_violated-none row rows)

module _ {F : Type 0} (v : Validation) (db : Engine) (uuid : String) (req : SetInventoryReq)
    (s : Tables F) (valid : v.set_inventory req ≡ ok tt) (b : InStock req.quantity)
    (h : IsSound s.inventories) (w : IsUnique id_of s.inventories) where
  abbrev p : String
  p = req.product_id

  created_stock :
      (rows : List Inventory)
      → stock p rows ≡ none
      → (j : String) → added p (pos 0) j (stock j rows) ≡ assigned p (pos 0) j (stock j rows)
  created_stock rows z j = elim (Bool-cases (j == p)) [
    | inl t ↦ ground (arith, t, subst (λ i. stock i rows ≡ none) (sym ((eq_iff j p).0 t)) z)
    | inr t ↦ elim (Option-cases (stock j rows)) [
      | inl y ↦ ground (arith, t, y)
      | inr (n, y) ↦ ground (arith, t, y)
    ]
  ]

  assigned-added :
      (o : Option ℤ) (j : String)
      → assigned p req.quantity j (added p (pos 0) j o) ≡ assigned p req.quantity j o
  assigned-added none j = ground arith
  assigned-added (some n) j = ground arith

  -- The product has a row.
  set_stock_found :
      (old : Inventory)
      → find_key product_of p s.inventories ≡ some old
      → SetOutcome p req.quantity s (Service.set_stock v db uuid req s)
  unfolding Service.set_stock Service.get_or_create Repository.get_by_product_id Repository.update
  set_stock_found old e =
      let found = db.first_replies Inventory (λ r. r.product_id == p) s.inventories in
      let row = with_quantity req.quantity old in
      elim found [
        | inr (n, f) ↦ unassigned n (ground (arith, valid, f))
        | inl f ↦ elim (db.save_replies Inventory (λ r. r.id == old.id) row s.inventories) [
          | inr (n, g) ↦ unassigned n (ground (arith, valid, f, e, g))
          | inl g ↦
              assigned_now row (save_row (λ r. r.id == old.id) row s.inventories)
                (ground (arith, valid, f, e, g)) (find_key-key product_of p s.inventories old e)
                refl (save_row-IsSound p req.quantity s.inventories old b h w e)
                (stock-save_row p req.quantity s.inventories old b h w e)
        ]
      ]

  set_stock_missing :
      find_key product_of p s.inventories ≡ none
      → find_key id_of uuid s.inventories ≡ none
      → SetOutcome p req.quantity s (Service.set_stock v db uuid req s)
  unfolding Service.set_stock Service.get_or_create Repository.get_by_product_id Repository.create
      Repository.update before_create
  set_stock_missing e fresh =
      let found = db.first_replies Inventory (λ r. r.product_id == p) s.inventories in
      let empty : Inventory = record { id = uuid; product_id = p; quantity = pos 0 } in
      let row = with_quantity req.quantity empty in
      let rows = s.inventories ++ (empty ∷ []) in
      let clear = first_violated-none empty s.inventories e fresh in
      let (sound, held) =
        append_stock p (pos 0) uuid s.inventories (omega arith) (ground (arith, e)) h in
      let w' = append-IsUnique id_of empty s.inventories fresh w in
      let e' : find_key product_of p rows ≡ some empty =
        ground (arith, e, find_key-append product_of p empty s.inventories, eq_iff p p) in
      elim found [
        | inr (n, f) ↦ unassigned n (ground (arith, valid, f))
        | inl f ↦
            elim (db.insert_replies Inventory (Repository.violates empty) empty s.inventories) [
              | inr (n, g) ↦ unassigned n (ground (arith, valid, f, e, g))
              | inl g ↦ elim (db.save_replies Inventory (λ r. r.id == uuid) row rows) [
                | inr (n, k) ↦
                    only_created n rows (ground (arith, valid, f, e, g, clear, k))
                      (ground (arith, e)) sound
                      (λ j. held j ∙ created_stock s.inventories (ground (arith, e)) j)
                | inl k ↦
                    assigned_now row (save_row (λ r. r.id == uuid) row rows)
                      (ground (arith, valid, f, e, g, clear, k)) refl refl
                      (save_row-IsSound p req.quantity rows empty b sound w' e')
                      (λ j.
                        stock-save_row p req.quantity rows empty b sound w' e' j
                        ∙ ap (assigned p req.quantity j) (held j)
                        ∙ assigned-added (stock j s.inventories) j)
              ]
            ]
      ]

  -- An accepted SetStock with a quantity that is not negative and fits int64, on sound rows with
  -- distinct ids, none of them the new row's, sets the stock of the product and of no other, and
  -- the rows stay sound. Or the engine reports a fault, and the stock is as before, or 0 where the
  -- product had none.
  pub set_stock-SetOutcome :
      find_key id_of uuid s.inventories ≡ none
      → SetOutcome p req.quantity s (Service.set_stock v db uuid req s)
  set_stock-SetOutcome fresh = elim (Option-cases (find_key product_of p s.inventories)) [
    | inl e ↦ set_stock_missing e fresh
    | inr (old, e) ↦ set_stock_found old e
  ]
