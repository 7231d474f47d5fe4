-- ===== src/Order/Lines.antt =====
-- The lines of an order as CancelOrder reads them: none orders nothing, where no stored line does.
use scalable_e_commerce_plat.Base.{
  ℕ, ◌≤◌, Bool, List, [], ◌∷◌, map, ◌==◌, inl, inr, Bool-cases, All, leb,
}
use scalable_e_commerce_plat.Dbs.Rows.{filter_where, insert_by, sort_by}
use scalable_e_commerce_plat.Store.{Tables}
use scalable_e_commerce_plat.Order.Model.{Product, Order, OrderLine}
use scalable_e_commerce_plat.Order.Repository.{attach}
use scalable_e_commerce_plat.Order.Replay.{loaded}

module _ {F : Type 0} where
  -- A line that orders something.
  abbrev pub IsOrdered : OrderLine F → Type 0
  IsOrdered line = 1 ≤ line.quantity

  filter_where-All :
      (p : OrderLine F → Bool) (rows : List (OrderLine F))
      → All IsOrdered rows
      → All IsOrdered (filter_where p rows)
  filter_where-All p [] h = h
  filter_where-All p (r ∷ rows) h = elim (Bool-cases (p r)) [
    | inl t ↦ rw t (h.0, filter_where-All p rows h.1)
    | inr t ↦ rw t (filter_where-All p rows h.1)
  ]

  insert_by-All :
      (key : OrderLine F → ℕ) (r : OrderLine F) (rows : List (OrderLine F))
      → IsOrdered r
      → All IsOrdered rows
      → All IsOrdered (insert_by key r rows)
  insert_by-All key r [] h k = (h, k)
  insert_by-All key r (x ∷ rows) h k = elim (Bool-cases (leb (key r) (key x))) [
    | inl t ↦ rw t (h, k)
    | inr t ↦ rw t (k.0, insert_by-All key r rows h k.1)
  ]

  sort_by-All :
      (key : OrderLine F → ℕ) (rows : List (OrderLine F))
      → All IsOrdered rows
      → All IsOrdered (sort_by key rows)
  sort_by-All key [] h = h
  sort_by-All key (r ∷ rows) h =
      insert_by-All key r (sort_by key rows) h.0 (sort_by-All key rows h.1)

  attach-All :
      (products : List (Product F)) (rows : List (OrderLine F))
      → All IsOrdered rows
      → All IsOrdered (map (attach products) rows)
  attach-All products [] h = h
  attach-All products (r ∷ rows) h = (h.0, attach-All products rows h.1)

  pub loaded-All :
      (s : Tables F) (row : Order F)
      → All IsOrdered s.order_lines
      → All IsOrdered (loaded s row).lines
  loaded-All s row h =
      attach-All _ _ (
        sort_by-All (λ _. 0) _ (filter_where-All (λ line. line.order_id == row.id) s.order_lines h))
