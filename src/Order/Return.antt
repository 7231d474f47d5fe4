-- ===== src/Order/Return.antt =====
-- What the loop of CancelOrder over a plan does to the stock of every product.
use scalable_e_commerce_plat.Base.{
  ℕ, ◌+◌, ◌≤◌, String, ◌≡◌, refl, true, List, [], ◌∷◌, Option, none, some, Result, ok, ◌==◌, eq_iff,
  nat_eq, if◌then◌else◌, arith, Bool-cases, inl, inr, All, subst, sym, ap, >>=-eq-ok, ℤ, pos, ◌+ℤ◌,
  in_int64, max_int64, int_laws, ◌∙◌,
}
use scalable_e_commerce_plat.Dbs.{Engine}
use scalable_e_commerce_plat.Store.{Tables, write_inventories}
use scalable_e_commerce_plat.Validation.{Validation}
use scalable_e_commerce_plat.Money.{Floats}
use scalable_e_commerce_plat.Inventory.Stock.{stock, IsSound, Stocked, settled, faulted, added}
use scalable_e_commerce_plat.Inventory.Restock.{restock_answer, restock_refines}
use scalable_e_commerce_plat.Inventory.Service as Stock
use scalable_e_commerce_plat.Order.Plan.{StockConsumption}
use scalable_e_commerce_plat.Order.Plan.Totals.{planned}
use scalable_e_commerce_plat.Order.Service.{Env, restock_all}
use scalable_e_commerce_plat.Order.Draw.{only}

abbrev pub plus : ℕ → Option ℤ → Option ℤ
plus q none = if nat_eq q 0 then none else some (pos q)
plus q (some n) = some (n +ℤ pos q)

-- The second state is the first with `give j` more of each product `j`; nothing else has changed,
-- and the rows are sound.
pub record Returned {F : Type 0} (give : String → ℕ) (s s' : Tables F) : Type 0 where
  pub frame : s' ≡ record s { inventories = s'.inventories }
  pub sound : IsSound s'.inventories
  pub held : (j : String) → stock j s'.inventories ≡ plus (give j) (stock j s.inventories)

plus_zero : (o : Option ℤ) → plus 0 o ≡ o
unfolding ◌+ℤ◌
plus_zero none = refl
plus_zero (some n) = ground arith

plus-plus : (p q : ℕ) (o : Option ℤ) → plus q (plus p o) ≡ plus (p + q) o
unfolding ◌+ℤ◌
plus-plus p q none = ground arith
plus-plus p q (some n) = ap some (omega int_laws)

added_held :
    (id : String) (q : ℕ) (j : String) (o : Option ℤ)
    → 1 ≤ q
    → ((n : ℤ) → o ≡ some n → (j == id) ≡ true → in_int64 (n +ℤ pos q) ≡ true)
    → added id (pos q) j o ≡ plus (only id q j) o
added_held id q j none p h = ground (arith, eq_iff j id, eq_iff id j)
added_held id q j (some n) p h =
    ground (arith, h n refl, eq_iff j id, eq_iff id j, plus_zero (some n))

restocked-Returned :
    {F : Type 0} (id : String) (q : ℕ) (s : Tables F) (out : Result (Unit {0}) × Tables F)
    → 1 ≤ q
    → Stocked (restock_answer (pos q) (stock id s.inventories)) (added id (pos q)) s out
    → out.0 ≡ ok tt
    → Returned (only id q) s out.1
restocked-Returned id q s out p (faulted n e) o = absurd (cc (e, o))
restocked-Returned id q s out p (settled rows e sound st) o =
    subst (λ (x : Result (Unit {0}) × Tables _). Returned (only id q) s x.1) (sym e)
      (record {
        frame = refl;
        sound = sound;
        held = λ j.
            st j
            ∙ added_held id q j (stock j s.inventories) p (λ n z t.
              fits n (subst (λ i. stock i s.inventories ≡ some n) ((eq_iff j id).0 t) z));
      })
  where
    fits : (n : ℤ) → stock id s.inventories ≡ some n → in_int64 (n +ℤ pos q) ≡ true
    fits n z = elim (Bool-cases (in_int64 (n +ℤ pos q))) [
      | inl t ↦ t
      | inr f ↦ absurd (ground (arith, e, o, z, f))
    ]

Returned-trans :
    {F : Type 0} (t u : String → ℕ) (r s s' : Tables F)
    → Returned t r s
    → Returned u s s'
    → Returned (λ j. t j + u j) r s'
Returned-trans t u r s s' d e = record {
  frame = e.frame ∙ ap (λ (x : Tables _). write_inventories s'.inventories x) d.frame;
  sound = e.sound;
  held = λ j. e.held j ∙ ap (plus (u j)) (d.held j) ∙ plus-plus (t j) (u j) (stock j r.inventories);
}

Returned-refl : {F : Type 0} (s : Tables F) → IsSound s.inventories → Returned (λ _. 0) s s
Returned-refl s h = record {
  frame = refl;
  sound = h;
  held = λ j. sym (plus_zero (stock j s.inventories));
}

module _ (fl : Floats) (v : Validation) (db : Engine) (env : Env fl.Float) where
  -- A loop of restocks that succeeds has given each product back what the plan says.
  pub restock_all-Returned :
      (items : List StockConsumption) (s : Tables fl.Float)
      → All (λ item. (1 ≤ item.quantity) × (item.quantity ≤ max_int64)) items
      → IsSound s.inventories
      → (restock_all fl v db env items s).0 ≡ ok tt
      → Returned (λ j. planned j items) s (restock_all fl v db env items s).1
  unfolding restock_all
  restock_all-Returned [] s p h o = Returned-refl s h
  restock_all-Returned (item ∷ items) s p h o =
      let first =
        Stock.restock {F = fl.Float} v db (env.inventory_id item.product_id) item.product_id
          (pos item.quantity) in
      let (_, f, g) = >>=-eq-ok first (λ _. restock_all fl v db env items) s tt o in
      let d =
        restocked-Returned item.product_id item.quantity s (first s) p.0.0
          (restock_refines v db (env.inventory_id item.product_id) item.product_id
            (pos item.quantity) s (omega (arith, p.0.0)) (p.0.1) h)
          f in
      subst
        (λ (x : Result (Unit {0}) × Tables fl.Float).
          Returned (λ j. planned j (item ∷ items)) s x.1)
        (sym g)
        (Returned-trans (only item.product_id item.quantity) (λ j. planned j items) s (first s).1 _
          d
          (restock_all-Returned items (first s).1 p.1 d.sound
            (ap (λ (x : Result (Unit {0}) × Tables fl.Float). x.0) (sym g) ∙ o)))
