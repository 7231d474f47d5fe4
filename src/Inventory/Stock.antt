-- ===== src/Inventory/Stock.antt =====
-- The abstract view of the inventory table, the quantity of each product, and the invariant under
-- which the unique index and the column hold it.
use scalable_e_commerce_plat.Base.{
  ℕ, ◌≤◌, String, ◌≡◌, refl, Bool, true, false, ◌&&◌, List, [], ◌∷◌, ◌++◌, Option, none, some,
  arith, ◌==◌, eq_iff, ℤ, pos, negsuc, ◌+ℤ◌, ◌≤ℤ◌, max_int64, in_int64, All, All-append,
  if◌then◌else◌, Bool-cases, Option-cases, ◌∙◌, subst, sym, Result, err, engine, other, inl, inr,
}
use scalable_e_commerce_plat.Dbs.Rows.{map_where}
use scalable_e_commerce_plat.Dbs.Keyed.{
  find_key, IsUnique, append-IsUnique, find_key-append, find_key-ne, map_where-guard,
  find_key-map_where, find_key-key, map_where-IsUnique, map_where-All,
}
use scalable_e_commerce_plat.Store.{Tables}
use scalable_e_commerce_plat.Inventory.Model.{Inventory}

abbrev pub product_of : Inventory → String
product_of r = r.product_id

abbrev pub quantity_of : Option Inventory → Option ℤ
quantity_of none = none
quantity_of (some r) = some r.quantity

-- The quantity on hand of a product, `none` where no row records one.
abbrev pub stock : String → List Inventory → Option ℤ
stock product_id rows = quantity_of (find_key product_of product_id rows)

-- A quantity that is not negative and fits the column.
abbrev pub InStock : ℤ → Type 0
InStock (pos n) = n ≤ max_int64
InStock (negsuc n) = ⊥

pub record IsSound (rows : List Inventory) : Type 0 where
  pub unique : IsUnique product_of rows
  pub bounded : All (λ r. InStock r.quantity) rows

-- What a change by `delta` on the condition `enough` makes of the stock of each product.
abbrev pub changed : String → (ℤ → Bool) → (ℤ → ℤ) → String → Option ℤ → Option ℤ
changed product_id enough change j none = none
changed product_id enough change j (some n) =
    some (if j == product_id && enough n then change n else n)

module _ (product_id : String) (enough : ℤ → Bool) (change : ℤ → ℤ) where
  abbrev pub selects : Inventory → Bool
  selects r = r.product_id == product_id && enough r.quantity

  abbrev pub sets : Inventory → Inventory
  sets r = record r { quantity = change r.quantity }

  pub stock-map_where :
      (j : String) (rows : List Inventory)
      → stock j (map_where selects sets rows) ≡ changed product_id enough change j (stock j rows)
  stock-map_where j rows = elim (Option-cases (find_key product_of j rows)) [
    | inl e ↦ rw (find_key-map_where product_of selects sets (λ r. refl) j rows) (rw e refl)
    | inr (r, e) ↦
        rw (find_key-map_where product_of selects sets (λ r. refl) j rows)
          (rw e (ground (arith, find_key-key product_of j rows r e)))
  ]

  pub map_where-IsSound :
      (rows : List Inventory)
      → ((n : ℤ) → InStock n → enough n ≡ true → InStock (change n))
      → IsSound rows
      → IsSound (map_where selects sets rows)
  map_where-IsSound rows keep s = record {
    unique = map_where-IsUnique product_of selects sets (λ r. refl) rows s.unique;
    bounded =
        map_where-All (λ r. InStock r.quantity) selects sets rows
          (λ r h e. keep r.quantity h (ground arith)) s.bounded;
  }

-- The stock of each product after an upsert that adds `quantity`, or stores it where the product
-- has no row; a sum that does not fit the column leaves the stock.
abbrev pub added : String → ℤ → String → Option ℤ → Option ℤ
added product_id quantity j none = if j == product_id then some quantity else none
added product_id quantity j (some n) =
    some (if j == product_id && in_int64 (n +ℤ quantity) then n +ℤ quantity else n)

module _ (product_id : String) (quantity : ℤ) where
  abbrev pub adds : Inventory → Inventory
  adds r = record r { quantity = r.quantity +ℤ quantity }

  adds_InStock :
      (n : ℤ)
      → pos 1 ≤ℤ quantity
      → InStock n
      → in_int64 (n +ℤ quantity) ≡ true
      → InStock (n +ℤ quantity)
  unfolding ◌+ℤ◌
  adds_InStock (pos n) p b e = ground arith
  adds_InStock (negsuc n) p b e = elim b [ ]

  pub append_stock :
      (id : String) (rows : List Inventory)
      → InStock quantity
      → stock product_id rows ≡ none
      → IsSound rows
      → let row : Inventory = record { id = id; product_id = product_id; quantity = quantity } in
        IsSound (rows ++ (row ∷ []))
        × ((j : String) → stock j (rows ++ (row ∷ [])) ≡ added product_id quantity j (stock j rows))
  append_stock id rows b e h = (
    record {
      unique = append-IsUnique product_of _ rows absent h.unique;
      bounded = All-append (λ r. InStock r.quantity) rows _ h.bounded (b, tt);
    },
    λ j. elim (Option-cases (find_key product_of j rows)) [
      | inl n ↦ ground (
        arith,
        n,
        find_key-append product_of j row rows,
        eq_iff product_id j,
        eq_iff j product_id,
      )
      | inr (r, f) ↦ ground (
        arith,
        f,
        find_key-append product_of j row rows,
        find_key-ne product_of j product_id rows r absent f,
      )
    ],
  )
    where
      row : Inventory
      row = record { id = id; product_id = product_id; quantity = quantity }

      absent : find_key product_of product_id rows ≡ none
      absent = ground arith

  pub increase_stock :
      (rows : List Inventory)
      → pos 1 ≤ℤ quantity
      → (n : ℤ) → stock product_id rows ≡ some n
      → in_int64 (n +ℤ quantity) ≡ true
      → IsSound rows
      → IsSound (map_where (λ r. r.product_id == product_id) adds rows)
        × ((j : String)
            → stock j (map_where (λ r. r.product_id == product_id) adds rows)
              ≡ added product_id quantity j (stock j rows))
  increase_stock rows p n e b h = elim (Option-cases (find_key product_of product_id rows)) [
    | inl f ↦ cc (e, f)
    | inr (r, f) ↦
        rw
          (← map_where-guard product_of product_id (λ x. in_int64 (x.quantity +ℤ quantity)) adds
            rows r h.unique f (ground (arith, f)))
          (
            map_where-IsSound product_id (λ m. in_int64 (m +ℤ quantity)) (λ m. m +ℤ quantity) rows
                (λ m c t. adds_InStock m p c t) h,
            λ j.
                stock-map_where product_id (λ m. in_int64 (m +ℤ quantity)) (λ m. m +ℤ quantity) j
                  rows
                ∙ elim (Option-cases (find_key product_of j rows)) [
                  | inl g ↦ ground (
                    arith,
                    g,
                    eq_iff product_id j,
                    eq_iff j product_id,
                    find_key-ne product_of product_id j rows r g f,
                  )
                  | inr (x, g) ↦ rw g refl
                ],
          )
  ]

  -- A sum that the column cannot hold changes nothing in the view.
  pub added_refused :
      (rows : List Inventory) (n : ℤ)
      → stock product_id rows ≡ some n
      → in_int64 (n +ℤ quantity) ≡ false
      → (j : String) → stock j rows ≡ added product_id quantity j (stock j rows)
  added_refused rows n e b j = elim (Bool-cases (j == product_id)) [
    | inl t ↦ ground (arith, subst (λ i. stock i rows ≡ some n) (sym ((eq_iff j product_id).0 t)) e)
    | inr f ↦ ground (arith, f)
  ]

-- What a call on the inventory table has done, by the view of the stock: it answered and changed
-- each product's stock as said, the rows still sound; or the engine reported a fault, and nothing
-- has changed.
pub data Stocked {F A : Type 0} (answer : Result A) (after : String → Option ℤ → Option ℤ)
    (s : Tables F) (out : Result A × Tables F) : Type 0 where
  settled :
      (rows : List Inventory)
      → out ≡ (answer, record s { inventories = rows })
      → IsSound rows
      → ((j : String) → stock j rows ≡ after j (stock j s.inventories))
      → Stocked answer after s out
  faulted : (n : ℕ) → out ≡ (err (engine (other n)), s) → Stocked answer after s out
