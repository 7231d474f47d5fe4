-- ===== src/Product/Service.antt =====
-- internal/product/service/product.go.
use scalable_e_commerce_plat.Base.{
  String, Bool, false, not, ◌||◌, List, Action, pure, lift, ◌>>=◌, ◌>>◌, ◌==◌, pos, if◌then◌else◌,
}
use scalable_e_commerce_plat.Dbs.{Engine}
use scalable_e_commerce_plat.Money.{Floats, to_minor_units}
use scalable_e_commerce_plat.Paging.{Pagination}
use scalable_e_commerce_plat.Store.{Tables}
use scalable_e_commerce_plat.Order.Model.{Product}
use scalable_e_commerce_plat.Product.Repository as Products
use scalable_e_commerce_plat.Product.Repository.{
  Env, ListProductReq, CreateProductReq, UpdateProductReq,
}

module _ (fl : Floats) (db : Engine) (env : Env fl.Float) where
  unfoldable pub get_product_by_id : String → Action (Tables fl.Float) (Product fl.Float)
  get_product_by_id id = Products.get_product_by_id fl db env id

  unfoldable pub list_products :
      ListProductReq → Action (Tables fl.Float) (List (Product fl.Float) × Pagination)
  list_products req = Products.list_products fl db env req

  -- `utils.Copy(&product, req)` into the zero product.
  unfoldable pub create : CreateProductReq fl.Float → Action (Tables fl.Float) (Product fl.Float)
  create req = do
    lift (env.validate_create req)
    _ ← lift (to_minor_units fl req.price)
    Products.create fl db env (record {
      id = "";
      code = "";
      name = req.name;
      description = req.description;
      price = req.price;
      active = false;
      created_at = 0;
      updated_at = 0;
    })

  abbrev pub is_zero : fl.Float → Bool
  is_zero x = not (fl.is_nan x || fl.lt_float x fl.zero_float || fl.lt_float fl.zero_float x)

  -- `utils.Copy(product, req)`: the JSON of the request leaves out what is empty.
  abbrev pub copied : UpdateProductReq fl.Float → Product fl.Float → Product fl.Float
  copied req product = record product {
    name = if req.name == "" then product.name else req.name;
    description = if req.description == "" then product.description else req.description;
    price = if is_zero req.price then product.price else req.price;
  }

  unfoldable pub update :
      String → UpdateProductReq fl.Float → Action (Tables fl.Float) (Product fl.Float)
  update id req = do
    lift (env.validate_update req)
    _ ← if is_zero req.price then pure (pos 0) else lift (to_minor_units fl req.price)
    product ← Products.get_product_by_id fl db env id
    Products.update fl db env (copied req product)
