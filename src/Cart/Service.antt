-- ===== src/Cart/Service.antt =====
-- internal/cart/service/cart.go. `uuid` is the id of a cart that the call creates.
use scalable_e_commerce_plat.Base.{String, Result, Action, lift, ◌>>◌}
use scalable_e_commerce_plat.Dbs.{Engine}
use scalable_e_commerce_plat.Cart.Model.{Cart, CartTables, AddProductReq, RemoveProductReq}
use scalable_e_commerce_plat.Cart.Repository as Carts

-- The validator's verdict on the two requests.
pub record CartValidation : Type 0 where
  pub add_product : AddProductReq → Result (Unit {0})
  pub remove_product : RemoveProductReq → Result (Unit {0})

module _ {F : Type 0} (v : CartValidation) (db : Engine) (uuid : String) where
  unfoldable pub get_cart_by_user_id : String → Action (CartTables F) (Cart F)
  get_cart_by_user_id user_id = Carts.get_or_create_cart db uuid user_id

  unfoldable pub add_product : AddProductReq → Action (CartTables F) (Cart F)
  add_product req =
      lift (v.add_product req)
      >> Carts.add_product db uuid req.user_id req.line.product_id req.line.quantity

  unfoldable pub remove_product : RemoveProductReq → Action (CartTables F) (Cart F)
  remove_product req =
      lift (v.remove_product req) >> Carts.remove_product db uuid req.user_id req.product_id
