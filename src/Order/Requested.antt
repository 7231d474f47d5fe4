-- ===== src/Order/Requested.antt =====
-- What a request asks, in stock and in cents, and the lines that PlaceOrder makes of it.
use scalable_e_commerce_plat.Base.{
  ℕ, ◌+◌, ◌*◌, ◌≤◌, String, ◌≡◌, refl, List, [], ◌∷◌, map, ◌==◌, ap, All, if◌then◌else◌,
}
use scalable_e_commerce_plat.Store.{Tables}
use scalable_e_commerce_plat.Money.{Floats}
use scalable_e_commerce_plat.Order.Model.{OrderLine, PlaceOrderLineReq}
use scalable_e_commerce_plat.Order.Plan.Totals.{ordered}
use scalable_e_commerce_plat.Order.Pricing.{unit_cents, cents_total, with_price}
use scalable_e_commerce_plat.Order.Service.{new_line}

-- What a request asks of each product.
abbrev pub requested : String → List PlaceOrderLineReq → ℕ
requested j [] = 0
requested j (line ∷ lines) = (if line.product_id == j then line.quantity else 0) + requested j lines

module _ (fl : Floats) where
  -- The price of a request in cents, at the prices on record.
  abbrev pub price_of_request : Tables fl.Float → List PlaceOrderLineReq → ℕ
  price_of_request s [] = 0
  price_of_request s (line ∷ lines) =
      unit_cents fl s line.product_id * line.quantity + price_of_request s lines

  -- The lines that are stored, before they are numbered.
  abbrev pub lines_of_request : Tables fl.Float → List PlaceOrderLineReq → List (OrderLine fl.Float)
  lines_of_request s lines = map (with_price fl s) (map (new_line fl.zero_float) lines)

  pub ordered-lines_of_request :
      (s : Tables fl.Float) (j : String) (lines : List PlaceOrderLineReq)
      → ordered j (lines_of_request s lines) ≡ requested j lines
  ordered-lines_of_request s j [] = refl
  ordered-lines_of_request s j (line ∷ lines) =
      ap (λ n. (if line.product_id == j then line.quantity else 0) + n)
        (ordered-lines_of_request s j lines)

  pub cents_total-requested :
      (s : Tables fl.Float) (lines : List PlaceOrderLineReq)
      → cents_total fl s (map (new_line fl.zero_float) lines) ≡ price_of_request s lines
  cents_total-requested s [] = refl
  cents_total-requested s (line ∷ lines) =
      ap (λ n. unit_cents fl s line.product_id * line.quantity + n) (cents_total-requested s lines)

  pub All-lines_of_request :
      (s : Tables fl.Float) (lines : List PlaceOrderLineReq)
      → All (λ line. 1 ≤ line.quantity) lines
      → All (λ line. 1 ≤ line.quantity) (lines_of_request s lines)
  All-lines_of_request s [] h = h
  All-lines_of_request s (line ∷ lines) h = (h.0, All-lines_of_request s lines h.1)
