-- ===== src/Order/Draw.antt =====
-- What the loops of PlaceOrder and CancelOrder over a plan do to the stock of every product.
use scalable_e_commerce_plat.Base.{
  ℕ, ◌+◌, ◌≤◌, String, ◌≡◌, refl, true, List, [], ◌∷◌, Option, none, some, Result, ok, ◌==◌, eq_iff,
  if◌then◌else◌, arith, Bool-cases, inl, inr, All, subst, sym, ap, >>=-eq-ok, ℤ, pos, ◌-ℤ◌, leb_ℤ,
  int_laws, ◌∙◌, Option-cases,
}
use scalable_e_commerce_plat.Dbs.{Engine}
use scalable_e_commerce_plat.Store.{Tables, write_inventories}
use scalable_e_commerce_plat.Validation.{Validation}
use scalable_e_commerce_plat.Money.{Floats}
use scalable_e_commerce_plat.Inventory.Stock.{stock, IsSound, Stocked, settled, faulted}
use scalable_e_commerce_plat.Inventory.Consume.{consume_answer, taken, consume_stock_refines}
use scalable_e_commerce_plat.Inventory.Service as Stock
use scalable_e_commerce_plat.Order.Plan.{StockConsumption}
use scalable_e_commerce_plat.Order.Plan.Totals.{planned}
use scalable_e_commerce_plat.Order.Service.{Env, consume_all}

abbrev pub minus : ℕ → Option ℤ → Option ℤ
minus q none = none
minus q (some n) = some (n -ℤ pos q)

-- The second state is the first with `take j` less of each product `j`, which had a stock if any
-- is taken; nothing else has changed, and the rows are sound.
pub record Drawn {F : Type 0} (take : String → ℕ) (s s' : Tables F) : Type 0 where
  pub frame : s' ≡ record s { inventories = s'.inventories }
  pub sound : IsSound s'.inventories
  pub left : (j : String) → stock j s'.inventories ≡ minus (take j) (stock j s.inventories)
  pub had : (j : String) → stock j s.inventories ≡ none → take j ≡ 0

abbrev pub only : String → ℕ → String → ℕ
only id q j = if id == j then q else 0

minus_zero : (o : Option ℤ) → minus 0 o ≡ o
unfolding ◌-ℤ◌
minus_zero none = refl
minus_zero (some n) = ground arith

minus-minus : (p q : ℕ) (o : Option ℤ) → minus q (minus p o) ≡ minus (p + q) o
minus-minus p q none = refl
minus-minus p q (some n) = ap some (omega int_laws)

-- One consumption that succeeds.
module _ {F : Type 0} (id : String) (q : ℕ) (s : Tables F) (n : ℤ)
    (z : stock id s.inventories ≡ some n) where
  stock_at : (j : String) → (j == id) ≡ true → stock j s.inventories ≡ some n
  stock_at j t = subst (λ i. stock i s.inventories ≡ some n) (sym ((eq_iff j id).0 t)) z

  taken_left :
      leb_ℤ (pos q) n ≡ true
      → (j : String)
      → taken id (pos q) j (stock j s.inventories) ≡ minus (only id q j) (stock j s.inventories)
  taken_left c j = elim (Bool-cases (j == id)) [
    | inl t ↦ ground (arith, t, c, stock_at j t, eq_iff j id, eq_iff id j)
    | inr f ↦ elim (Option-cases (stock j s.inventories)) [
      | inl e ↦ rw e refl
      | inr (x, e) ↦ ground (arith, e, f, eq_iff j id, eq_iff id j, minus_zero (some x))
    ]
  ]

  only_had : (j : String) → stock j s.inventories ≡ none → only id q j ≡ 0
  only_had j e = elim (Bool-cases (id == j)) [
    | inl t ↦ absurd (ground (arith, e, stock_at j, eq_iff j id, eq_iff id j))
    | inr f ↦ rw f refl
  ]

consumed-Drawn :
    {F : Type 0} (id : String) (q : ℕ) (s : Tables F) (out : Result (Unit {0}) × Tables F)
    → Stocked (consume_answer (pos q) (stock id s.inventories)) (taken id (pos q)) s out
    → out.0 ≡ ok tt
    → Drawn (only id q) s out.1
consumed-Drawn id q s out (faulted n e) o = absurd (cc (e, o))
consumed-Drawn id q s out (settled rows e sound st) o =
    elim (Option-cases (stock id s.inventories)) [
      | inl z ↦ absurd (ground (arith, e, o, z))
      | inr (n, z) ↦
          subst (λ (x : Result (Unit {0}) × Tables _). Drawn (only id q) s x.1) (sym e)
            (record {
              frame = refl;
              sound = sound;
              left = λ j. st j ∙ taken_left id q s n z (ground (arith, e, o, z)) j;
              had = only_had id q s n z;
            })
    ]

Drawn-trans :
    {F : Type 0} (t u : String → ℕ) (r s s' : Tables F)
    → Drawn t r s
    → Drawn u s s'
    → Drawn (λ j. t j + u j) r s'
Drawn-trans t u r s s' d e = record {
  frame = e.frame ∙ ap (λ (x : Tables _). write_inventories s'.inventories x) d.frame;
  sound = e.sound;
  left =
      λ j. e.left j ∙ ap (minus (u j)) (d.left j) ∙ minus-minus (t j) (u j) (stock j r.inventories);
  had = λ j z. omega (arith, d.had j z, e.had j (d.left j ∙ ap (minus (t j)) z));
}

Drawn-refl : {F : Type 0} (s : Tables F) → IsSound s.inventories → Drawn (λ _. 0) s s
Drawn-refl s h = record {
  frame = refl;
  sound = h;
  left = λ j. sym (minus_zero (stock j s.inventories));
  had = λ j z. refl;
}

module _ (fl : Floats) (v : Validation) (db : Engine) (env : Env fl.Float) where
  -- A loop of consumptions that succeeds has taken of each product what the plan says.
  pub consume_all-Drawn :
      (items : List StockConsumption) (s : Tables fl.Float)
      → All (λ item. 1 ≤ item.quantity) items
      → IsSound s.inventories
      → (consume_all fl v db env items s).0 ≡ ok tt
      → Drawn (λ j. planned j items) s (consume_all fl v db env items s).1
  unfolding consume_all
  consume_all-Drawn [] s p h o = Drawn-refl s h
  consume_all-Drawn (item ∷ items) s p h o =
      let first = Stock.consume_stock {F = fl.Float} v db item.product_id (pos item.quantity) in
      let (_, f, g) = >>=-eq-ok first (λ _. consume_all fl v db env items) s tt o in
      let d =
        consumed-Drawn item.product_id item.quantity s (first s)
          (consume_stock_refines v db item.product_id (pos item.quantity) s (omega (arith, p.0)) h)
          f in
      subst
        (λ (x : Result (Unit {0}) × Tables fl.Float). Drawn (λ j. planned j (item ∷ items)) s x.1)
        (sym g)
        (Drawn-trans (only item.product_id item.quantity) (λ j. planned j items) s (first s).1 _ d
          (consume_all-Drawn items (first s).1 p.1 d.sound
            (ap (λ (x : Result (Unit {0}) × Tables fl.Float). x.0) (sym g) ∙ o)))
