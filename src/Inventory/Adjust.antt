-- ===== src/Inventory/Adjust.antt =====
-- `AdjustStock` against the view of the stock.
use scalable_e_commerce_plat.Base.{
  String, ◌≡◌, refl, Bool, true, false, ◌&&◌, List, [], Option, none, some, arith, ◌==◌, Result, ok,
  err, engine, out_of_range, inventory_not_found, insufficient_stock, ℤ, pos, negsuc, ◌+ℤ◌, ◌≤ℤ◌,
  leb_ℤ, ltb_ℤ, max_int64, in_int64, if◌then◌else◌, Bool-cases, Option-cases, inl, inr, subst, ◌∙◌,
  le→leb, InInt64,
}
use scalable_e_commerce_plat.Dbs.{Engine}
use scalable_e_commerce_plat.Dbs.Rows.{map_where, all_where}
use scalable_e_commerce_plat.Dbs.Keyed.{
  find_key, hits, all_where-passes, filter_where-selected, map_where-none, count_where-hits,
  first_where-All,
}
use scalable_e_commerce_plat.Store.{Tables}
use scalable_e_commerce_plat.Validation.{Validation}
use scalable_e_commerce_plat.Inventory.Model.{Inventory, AdjustInventoryReq, before_create}
use scalable_e_commerce_plat.Inventory.Stock.{
  product_of, stock, InStock, IsSound, added, adds, changed, append_stock, increase_stock,
  added_refused, Stocked, settled, faulted, stock-map_where, map_where-IsSound,
}
use scalable_e_commerce_plat.Inventory.Repository
use scalable_e_commerce_plat.Inventory.Repository.{quantity_fits}
use scalable_e_commerce_plat.Inventory.Service

-- The answer with the quantity of the row alone.
abbrev pub on_hand : {F : Type 0} → Result Inventory × Tables F → Result ℤ × Tables F
on_hand (ok row, s) = (ok row.quantity, s)
on_hand (err e, s) = (err e, s)

-- The answer to a request to change this stock by `delta`.
abbrev pub increase_answer : ℤ → Option ℤ → Result ℤ
increase_answer delta none = ok delta
increase_answer delta (some n) =
    if in_int64 (n +ℤ delta) then ok (n +ℤ delta) else err (engine out_of_range)

abbrev pub decrease_answer : ℤ → Option ℤ → Result ℤ
decrease_answer delta none = err inventory_not_found
decrease_answer delta (some n) =
    if leb_ℤ (pos 0) (n +ℤ delta) then ok (n +ℤ delta) else err insufficient_stock

abbrev pub adjust_answer : ℤ → Option ℤ → Result ℤ
adjust_answer delta = if ltb_ℤ (pos 0) delta then increase_answer delta else decrease_answer delta

abbrev pub adjusted : String → ℤ → String → Option ℤ → Option ℤ
adjusted product_id delta =
    if ltb_ℤ (pos 0) delta
    then added product_id delta
    else changed product_id (λ n. leb_ℤ (pos 0) (n +ℤ delta)) (λ n. n +ℤ delta)

module _ {F : Type 0} (v : Validation) (db : Engine) (uuid product_id : String)
    (req : AdjustInventoryReq) (s : Tables F) (valid : v.adjust_inventory req ≡ ok tt)
    (h : IsSound s.inventories) where
  abbrev delta : ℤ
  delta = req.quantity_delta

  increases :
      ltb_ℤ (pos 0) delta ≡ true
      → InInt64 delta
      → Stocked
          (increase_answer delta (stock product_id s.inventories))
          (added product_id delta)
          s
          (on_hand (Service.adjust_stock v db uuid product_id req s))
  unfolding Service.adjust_stock Repository.adjust_stock before_create
  increases p b =
      elim (db.upsert_replies Inventory (λ r. r.product_id == product_id) (adds product_id delta)
        quantity_fits (record { id = uuid; product_id = product_id; quantity = delta })
        s.inventories) [
          | inr (n, e) ↦ faulted n (ground (arith, e))
          | inl e ↦ elim (Option-cases (stock product_id s.inventories)) [
            | inl z ↦
                let a = append_stock product_id delta uuid s.inventories b' z h in
                settled _ (ground (arith, e, z)) a.0 a.1
            | inr (n, z) ↦ elim (Bool-cases (in_int64 (n +ℤ delta))) [
              | inl f ↦
                  let a = increase_stock product_id delta s.inventories p' n z f h in
                  settled _ (ground (arith, e, z, f)) a.0 a.1
              | inr f ↦
                  settled s.inventories (ground (arith, e, z, f)) h
                    (added_refused product_id delta s.inventories n z f)
            ]
          ]
        ]
    where
      positive : (d : ℤ) → ltb_ℤ (pos 0) d ≡ true → InInt64 d → InStock d × (pos 1 ≤ℤ d)
      positive (pos n) t c = (c, ground arith)
      positive (negsuc n) t c = absurd (ground arith)

      p' : pos 1 ≤ℤ delta
      p' = (positive delta p b).1

      b' : InStock delta
      b' = (positive delta p b).0

  abbrev stays : Inventory → Bool
  stays r = leb_ℤ (pos 0) (r.quantity +ℤ delta)

  stays_InStock :
      (d n : ℤ)
      → ltb_ℤ (pos 0) d ≡ false
      → InStock n
      → leb_ℤ (pos 0) (n +ℤ d) ≡ true
      → InStock (n +ℤ d)
  unfolding ◌+ℤ◌
  stays_InStock (pos d) (pos n) p b e = ground arith
  stays_InStock (negsuc d) (pos n) p b e = ground arith
  stays_InStock d (negsuc n) p b e = elim b [ ]

  InStock→in_int64 : (n : ℤ) → InStock n → in_int64 n ≡ true
  InStock→in_int64 (pos n) b = le→leb n max_int64 b
  InStock→in_int64 (negsuc n) b = elim b [ ]

  decrease_fits :
      ltb_ℤ (pos 0) delta ≡ false
      → all_where
          (λ r. r.product_id == product_id && stays r)
          (λ r. quantity_fits (adds product_id delta r))
          s.inventories
        ≡ true
  decrease_fits p =
      all_where-passes product_of product_id stays _ s.inventories h.unique
      ∙ elim (Option-cases (find_key product_of product_id s.inventories)) [
        | inl e ↦ rw e refl
        | inr (r, e) ↦ rw e (elim (Bool-cases (stays r)) [
          | inl c ↦ rw c (
              InStock→in_int64 _ (
                stays_InStock delta r.quantity p (first_where-All _ _ s.inventories r h.bounded e)
                  c))
          | inr c ↦ rw c refl
        ])
      ]

  abbrev left : List Inventory
  left =
      map_where (λ r. r.product_id == product_id && stays r) (adds product_id delta) s.inventories

  left-IsSound : ltb_ℤ (pos 0) delta ≡ false → IsSound left
  left-IsSound p =
      map_where-IsSound product_id (λ n. leb_ℤ (pos 0) (n +ℤ delta)) (λ n. n +ℤ delta) s.inventories
        (λ n b c. stays_InStock delta n p b c) h

  left-stock :
      (j : String)
      → stock j left
        ≡ changed product_id
            (λ n. leb_ℤ (pos 0) (n +ℤ delta))
            (λ n. n +ℤ delta)
            j
            (stock j s.inventories)
  left-stock j =
      stock-map_where product_id (λ n. leb_ℤ (pos 0) (n +ℤ delta)) (λ n. n +ℤ delta) j s.inventories

  unchanged :
      hits product_of stays (find_key product_of product_id s.inventories) ≡ 0
      → left ≡ s.inventories
  unchanged z =
      map_where-none _ (adds product_id delta) s.inventories
        (count_where-hits product_of product_id stays s.inventories h.unique ∙ z)

  abbrev Decreased : Type 0
  Decreased =
      Stocked (decrease_answer delta (stock product_id s.inventories))
        (changed product_id (λ n. leb_ℤ (pos 0) (n +ℤ delta)) (λ n. n +ℤ delta)) s
        (on_hand (Service.adjust_stock v db uuid product_id req s))

  -- Where no row was selected, the lookup tells a missing product from a short one.
  not_decreased :
      ltb_ℤ (pos 0) delta ≡ false
      → hits product_of stays (find_key product_of product_id s.inventories) ≡ 0
      → db.update_returning Inventory
          (λ r. r.product_id == product_id && stays r)
          (adds product_id delta)
          quantity_fits
          s.inventories
        ≡ ok ([], s.inventories)
      → Decreased
  unfolding Service.adjust_stock Repository.adjust_stock Service.get_inventory
      Repository.get_by_product_id
  not_decreased p z e =
      elim (db.first_replies Inventory (λ r. r.product_id == product_id) s.inventories) [
        | inr (n, f) ↦ faulted n (ground (arith, e, f))
        | inl f ↦ settled s.inventories (ground (arith, e, f)) h (λ j.
            subst
              (λ rows.
                stock j rows
                ≡ changed product_id (λ n. leb_ℤ (pos 0) (n +ℤ delta)) (λ n. n +ℤ delta) j
                    (stock j s.inventories))
              (unchanged z) (left-stock j))
      ]

  decreases : ltb_ℤ (pos 0) delta ≡ false → Decreased
  unfolding Service.adjust_stock Repository.adjust_stock
  decreases p =
      elim (db.update_returning_replies Inventory (λ r. r.product_id == product_id && stays r)
        (adds product_id delta) quantity_fits s.inventories) [
          | inr (n, e) ↦ faulted n (ground (arith, e))
          | inl e ↦ elim (Option-cases (find_key product_of product_id s.inventories)) [
            | inl z ↦ not_decreased p (rw z refl) (
                ground (
                  arith,
                  e,
                  z,
                  decrease_fits p,
                  unchanged (rw z refl),
                  filter_where-selected product_of product_id stays s.inventories h.unique,
                ))
            | inr (r, z) ↦ elim (Bool-cases (stays r)) [
              | inl c ↦
                  settled left
                    (ground (
                      arith,
                      e,
                      z,
                      c,
                      decrease_fits p,
                      filter_where-selected product_of product_id stays s.inventories h.unique,
                    ))
                    (left-IsSound p) left-stock
              | inr c ↦ not_decreased p (rw z (rw c refl)) (
                  ground (
                    arith,
                    e,
                    z,
                    c,
                    decrease_fits p,
                    unchanged (rw z (rw c refl)),
                    filter_where-selected product_of product_id stays s.inventories h.unique,
                  ))
            ]
          ]
        ]

-- An accepted adjustment by an int64 delta, on sound rows, answers and acts by the stock of the
-- product alone: a positive delta is added to it or creates it, any other needs a row and is
-- refused as insufficient where the result would be negative. No other product and no other table
-- changes, and the rows stay sound. Or the engine reports a fault and nothing has changed.
pub adjust_stock_refines :
    {F : Type 0} (v : Validation) (db : Engine) (uuid product_id : String)
    (req : AdjustInventoryReq) (s : Tables F)
    → v.adjust_inventory req ≡ ok tt
    → InInt64 req.quantity_delta
    → IsSound s.inventories
    → Stocked
        (adjust_answer req.quantity_delta (stock product_id s.inventories))
        (adjusted product_id req.quantity_delta)
        s
        (on_hand (Service.adjust_stock v db uuid product_id req s))
adjust_stock_refines v db uuid product_id req s valid b h =
    elim (Bool-cases (ltb_ℤ (pos 0) req.quantity_delta)) [
      | inl p ↦ rw p (increases v db uuid product_id req s valid h p b)
      | inr p ↦ rw p (decreases v db uuid product_id req s valid h p)
    ]
