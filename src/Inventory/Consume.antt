-- ===== src/Inventory/Consume.antt =====
-- `ConsumeStock` against the view of the stock: what it answers, and what is left of each product.
use scalable_e_commerce_plat.Base.{
  ◌>>◌, raise, subst, ℕ, String, ◌≡◌, refl, Bool, true, false, ◌&&◌, List, Option, none, some,
  arith, ◌==◌, le→leb, ◌∙◌, Result, ok, err, engine, other, inventory_not_found, insufficient_stock,
  ℤ, pos, negsuc, ◌-ℤ◌, ◌≤ℤ◌, leb_ℤ, max_int64, in_int64, if◌then◌else◌, Bool-cases, Option-cases,
  inl, inr, ◌⊎◌,
}
use scalable_e_commerce_plat.Dbs.{Engine}
use scalable_e_commerce_plat.Dbs.Rows.{map_where, all_where}
use scalable_e_commerce_plat.Dbs.Keyed.{
  find_key, first_where-All, map_where-none, count_where-hits, all_where-passes,
}
use scalable_e_commerce_plat.Store.{Tables}
use scalable_e_commerce_plat.Validation.{Validation}
use scalable_e_commerce_plat.Inventory.Model.{Inventory}
use scalable_e_commerce_plat.Inventory.Stock.{
  product_of, stock, InStock, IsSound, changed, stock-map_where, map_where-IsSound, Stocked,
  settled, faulted,
}
use scalable_e_commerce_plat.Inventory.Repository
use scalable_e_commerce_plat.Inventory.Repository.{quantity_fits}
use scalable_e_commerce_plat.Inventory.Service

-- The answer to a request for `quantity` of a product with this stock.
abbrev pub consume_answer : ℤ → Option ℤ → Result (Unit {0})
consume_answer quantity none = err inventory_not_found
consume_answer quantity (some n) = if leb_ℤ quantity n then ok tt else err insufficient_stock

-- The quantities after a consumption that the stock of the product covers, or that it does not.
abbrev pub taken : String → ℤ → String → Option ℤ → Option ℤ
taken product_id quantity = changed product_id (leb_ℤ quantity) (λ n. n -ℤ quantity)

module _ (product_id : String) (quantity : ℤ) where
  abbrev covers : Inventory → Bool
  covers r = leb_ℤ quantity r.quantity

  abbrev takes : Inventory → Inventory
  takes r = record r { quantity = r.quantity -ℤ quantity }

  abbrev covered : Option ℤ → Bool
  covered none = false
  covered (some n) = leb_ℤ quantity n

  takes_InStock :
      (n : ℤ) → pos 1 ≤ℤ quantity → InStock n → leb_ℤ quantity n ≡ true → InStock (n -ℤ quantity)
  unfolding ◌-ℤ◌
  takes_InStock (pos n) p b e = ground arith
  takes_InStock (negsuc n) p b e = elim b [ ]

  InStock→in_int64 : (n : ℤ) → InStock n → in_int64 n ≡ true
  InStock→in_int64 (pos n) b = le→leb n max_int64 b
  InStock→in_int64 (negsuc n) b = elim b [ ]

  fits :
      (rows : List Inventory)
      → pos 1 ≤ℤ quantity
      → IsSound rows
      → all_where (λ r. r.product_id == product_id && covers r) (λ r. quantity_fits (takes r)) rows
        ≡ true
  fits rows p h =
      all_where-passes product_of product_id covers _ rows h.unique
      ∙ elim (Option-cases (find_key product_of product_id rows)) [
        | inl e ↦ rw e refl
        | inr (r, e) ↦ rw e (elim (Bool-cases (covers r)) [
          | inl c ↦ rw c (
              InStock→in_int64 _
                (takes_InStock r.quantity p (first_where-All _ _ rows r h.bounded e) c))
          | inr c ↦ rw c refl
        ])
      ]

  consume_stock_repository :
      {F : Type 0} (db : Engine) (s : Tables F)
      → pos 1 ≤ℤ quantity
      → IsSound s.inventories
      → (Repository.consume_stock db product_id quantity s ≡ (
        ok (covered (stock product_id s.inventories)),
        record s {
          inventories = map_where (λ r. r.product_id == product_id && covers r) takes s.inventories;
        },
      ))
        ⊎ ((n : ℕ) × (Repository.consume_stock db product_id quantity s
              ≡ (err (engine (other n)), s)))
  unfolding Repository.consume_stock
  consume_stock_repository db s p h = ground (
    arith,
    db.update_replies Inventory (λ r. r.product_id == product_id && covers r) takes quantity_fits
        s.inventories,
    fits s.inventories p h,
    count_where-hits product_of product_id covers s.inventories h.unique,
  )

  -- The lookup that tells a missing product from a short one.
  get_inventory_fails :
      {F : Type 0} (v : Validation) (db : Engine) (s : Tables F)
      → covered (stock product_id s.inventories) ≡ false
      → ((Service.get_inventory v db product_id >> raise insufficient_stock) s
          ≡ (consume_answer quantity (stock product_id s.inventories), s))
        ⊎ ((n : ℕ) × ((Service.get_inventory v db product_id
                  >> raise {A = Unit {0}} insufficient_stock)
                s
              ≡ (err (engine (other n)), s)))
  unfolding Service.get_inventory Repository.get_by_product_id
  get_inventory_fails v db s c =
      elim (db.first_replies Inventory (λ r. r.product_id == product_id) s.inventories) [
        | inl e ↦ inl (ground (arith, e))
        | inr (n, e) ↦ inr (n, ground (arith, e))
      ]

  not_covered_unchanged :
      (rows : List Inventory)
      → IsSound rows
      → covered (stock product_id rows) ≡ false
      → map_where (λ r. r.product_id == product_id && covers r) takes rows ≡ rows
  not_covered_unchanged rows h c =
      map_where-none _ takes rows
        (ground (arith, count_where-hits product_of product_id covers rows h.unique))

-- A consumption of a positive quantity, on sound rows, answers by the stock of the product alone,
-- takes exactly that quantity from it when it is covered, and changes no other product and no other
-- table; the rows stay sound. Or the engine reports a fault and nothing has changed.
pub consume_stock_refines :
    {F : Type 0} (v : Validation) (db : Engine) (product_id : String) (quantity : ℤ) (s : Tables F)
    → pos 1 ≤ℤ quantity
    → IsSound s.inventories
    → Stocked
        (consume_answer quantity (stock product_id s.inventories))
        (taken product_id quantity)
        s
        (Service.consume_stock v db product_id quantity s)
unfolding Service.consume_stock
consume_stock_refines v db product_id quantity s p h =
    elim (consume_stock_repository product_id quantity db s p h) [
      | inr (n, e) ↦ faulted n (ground (arith, e))
      | inl e ↦ elim (Bool-cases (covered product_id quantity (stock product_id s.inventories))) [
        | inl c ↦
            settled _ (ground (arith, e))
              (map_where-IsSound product_id (leb_ℤ quantity) (λ n. n -ℤ quantity) s.inventories
                (λ n b c'. takes_InStock product_id quantity n p b c') h)
              (λ j.
                stock-map_where product_id (leb_ℤ quantity) (λ n. n -ℤ quantity) j s.inventories)
        | inr c ↦ elim (get_inventory_fails product_id quantity v db s c) [
          | inl g ↦
              settled s.inventories
                (ground (arith, e, g, not_covered_unchanged product_id quantity s.inventories h c))
                h
                (λ j.
                  subst (λ rows. stock j rows ≡ taken product_id quantity j (stock j s.inventories))
                    (not_covered_unchanged product_id quantity s.inventories h c)
                    (stock-map_where product_id (leb_ℤ quantity) (λ n. n -ℤ quantity) j
                      s.inventories))
          | inr (n, g) ↦
              faulted n
                (ground (arith, e, g, not_covered_unchanged product_id quantity s.inventories h c))
        ]
      ]
    ]
