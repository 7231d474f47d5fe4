-- ===== src/Product/Http/Shown.antt =====
-- internal/product/port/http/handlers.go: what GetProductByID shows after other requests.
use scalable_e_commerce_plat.Base.{
  String, ◌≡◌, none, some, Option, List, [], ◌∷◌, Result, engine, record_not_found,
}
use scalable_e_commerce_plat.Dbs.{Engine}
use scalable_e_commerce_plat.Dbs.Keyed.{find_key}
use scalable_e_commerce_plat.Money.{Floats}
use scalable_e_commerce_plat.Response.{Response, error_response, json_response}
use scalable_e_commerce_plat.Store.{Tables}
use scalable_e_commerce_plat.Order.Model.{Product}
use scalable_e_commerce_plat.Product.Repository as Products
use scalable_e_commerce_plat.Product.Repository.{Env, CreateProductReq, UpdateProductReq}
use scalable_e_commerce_plat.Product.Service as Service
use scalable_e_commerce_plat.Product.Http.{
  ProductRes, ProductCache, ProductHandler, copy_product, get_product_by_id, create_product,
  update_product,
}
use scalable_e_commerce_plat.Product.Http.Fresh.{IsProductCache, id_of, IsFresh}

-- A request to the handler, with the id and the code that a new product gets.
pub data Call (F : Type 0) : Type 0 where
  reads : String → Call F
  creates : String → String → Result (CreateProductReq F) → Call F
  updates : String → Result (UpdateProductReq F) → Call F

module _ (fl : Floats) (db : Engine) {R : Type 0} (h : ProductHandler R fl.Float) where
  abbrev pub after_call : Env fl.Float → Call fl.Float → Tables fl.Float × R → Tables fl.Float × R
  after_call env (reads id) (s, r) = (get_product_by_id fl db env h id s r).1
  after_call env (creates uuid code req) (s, r) =
      (create_product fl db (record env { uuid = uuid; code = code }) h req s r).1
  after_call env (updates id req) (s, r) = (update_product fl db env h id req s r).1

  -- The tables and the Redis that requests leave, one after the other.
  abbrev pub after : Env fl.Float → List (Call fl.Float) → Tables fl.Float × R → Tables fl.Float × R
  after env [] c = c
  after env (call ∷ calls) c = after env calls (after_call env call c)

  -- What GetProductByID answers by the row on record alone.
  abbrev pub shown : String → Tables fl.Float → Response (ProductRes fl.Float)
  shown id s = elim (find_key id_of id s.products) [
    | none ↦ error_response h.environment 404 (engine record_not_found) "Not found"
    | some row ↦ json_response 200 (copy_product row)
  ]

  module _ (at : R → String → Option (ProductRes fl.Float)) (cache : ProductCache R fl.Float)
      (on : h.cache ≡ some cache) (laws : IsProductCache at cache) (env : Env fl.Float) where
    abbrev Held : Tables fl.Float × R → Type 0
    Held c = IsFresh at c.0.products c.1
