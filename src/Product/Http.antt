-- ===== src/Product/Http.antt =====
-- internal/product/port/http/handlers.go. Redis is a parameter that acts on a state `R`; a request
-- comes with its body as gin has bound it. The log is left out.
pub mod Keys
pub mod Fresh
pub mod Shown
use Prim.Native.String.{◌++◌}
use scalable_e_commerce_plat.Base.{
  ℕ, String, Bool, Option, none, some, List, [], ◌∷◌, map, Result, ok, err, Error, Action, ◌==◌, ℤ,
  pos, ltb_ℤ, cause, invalid_amount, if◌then◌else◌,
}
use scalable_e_commerce_plat.Dbs.{Engine}
use scalable_e_commerce_plat.Money.{Floats}
use scalable_e_commerce_plat.Paging.{Pagination}
use scalable_e_commerce_plat.Response.{Response, error_response, json_response}
use scalable_e_commerce_plat.Store.{Tables}
use scalable_e_commerce_plat.Order.Model.{Product}
use scalable_e_commerce_plat.Product.Repository.{
  Env, ListProductReq, CreateProductReq, UpdateProductReq,
}
use scalable_e_commerce_plat.Product.Service as Service

-- dto.Product
pub record ProductRes (F : Type 0) : Type 0 where
  pub id : String
  pub code : String
  pub name : String
  pub description : String
  pub price : F
  pub active : Bool
  pub created_at : ℕ
  pub updated_at : ℕ

pub record ListProductRes (F : Type 0) : Type 0 where
  pub products : List (ProductRes F)
  pub pagination : Pagination

-- pkg/redis, by the operations that the handler calls. A duration is in nanoseconds.
pub record ProductCache (R F : Type 0) : Type 0 where
  pub get_product : String → Action R (ProductRes F)
  pub set_product : String → ProductRes F → ℤ → Action R (Unit {0})
  pub get_list : String → Action R (ListProductRes F)
  pub set_list : String → ListProductRes F → ℤ → Action R (Unit {0})
  pub get_version : String → Action R ℤ
  pub remove : String → Action R (Unit {0})
  pub increment : String → ℤ → Action R ℤ

-- `list_key` is the text of a version and the SHA-256 sum of the query, as productListCacheKey formats it.
pub record ProductHandler (R F : Type 0) : Type 0 where
  pub cache : Option (ProductCache R F)
  pub environment : String
  pub list_key : ℤ → ListProductReq → String

-- config.ProductCachingTime
abbrev pub product_caching_time : ℤ
product_caching_time = pos 60000000000

abbrev pub product_list_cache_version_key : String
product_list_cache_version_key = "cache:products:version"

abbrev pub product_detail_cache_key : String → String
product_detail_cache_key product_id = "cache:product:" ++ product_id

-- `utils.Copy(&res, &product)`
abbrev pub copy_product : {F : Type 0} → Product F → ProductRes F
copy_product p = record {
  id = p.id;
  code = p.code;
  name = p.name;
  description = p.description;
  price = p.price;
  active = p.active;
  created_at = p.created_at;
  updated_at = p.updated_at;
}

-- What a write answers for an error.
abbrev pub write_error : Error → ℕ × String
write_error e = elim (cause e) [
  | invalid_amount ↦ (400, "Invalid price")
  | _ ↦ (500, "Something went wrong")
]

module _ (fl : Floats) (db : Engine) (env : Env fl.Float) {R : Type 0}
    (h : ProductHandler R fl.Float) where
  -- The answer of a call, and the tables and the Redis that it leaves.
  abbrev pub Answered : Type 0 → Type 0
  Answered A = Response A × (Tables fl.Float × R)

  unfoldable pub get_product_by_id : String → Tables fl.Float → R → Answered (ProductRes fl.Float)
  get_product_by_id id s r = elim h.cache [
    | none ↦
        let (a, s1) = Service.get_product_by_id fl db env id s in
        elim a [
          | err e ↦ (error_response h.environment 404 e "Not found", (s1, r))
          | ok product ↦ (json_response 200 (copy_product product), (s1, r))
        ]
    | some cache ↦
        let (found, r1) = cache.get_product (product_detail_cache_key id) r in
        elim found [
          | ok res ↦ (json_response 200 res, (s, r1))
          | err _ ↦
              let (a, s1) = Service.get_product_by_id fl db env id s in
              elim a [
                | err e ↦ (error_response h.environment 404 e "Not found", (s1, r1))
                | ok product ↦
                    let res = copy_product product in
                    (
                      json_response 200 res,
                      (
                        s1,
                        (cache.set_product (product_detail_cache_key id) res product_caching_time
                            r1).1,
                      ),
                    )
              ]
        ]
  ]

  unfoldable pub product_list_cache_version : R → ℤ × R
  product_list_cache_version r = elim h.cache [
    | none ↦ (pos 0, r)
    | some cache ↦
        let (version, r1) = cache.get_version product_list_cache_version_key r in
        elim version [ err _ ↦ (pos 0, r1) | ok v ↦ (if ltb_ℤ v (pos 0) then pos 0 else v, r1) ]
  ]

  unfoldable pub list_answer :
      ListProductReq
      → (ListProductRes fl.Float → R → R)
      → Tables fl.Float
      → R
      → Answered (ListProductRes fl.Float)
  list_answer req keep s r =
      let (a, s1) = Service.list_products fl db env req s in
      elim a [
        | err e ↦ (error_response h.environment 500 e "Something went wrong", (s1, r))
        | ok (products, pagination) ↦
            let res : ListProductRes fl.Float = record {
              products = map copy_product products;
              pagination = pagination;
            } in
            (json_response 200 res, (s1, keep res r))
      ]

  unfoldable pub list_products :
      Result ListProductReq → Tables fl.Float → R → Answered (ListProductRes fl.Float)
  list_products (err e) s r = (error_response h.environment 400 e "Invalid parameters", (s, r))
  list_products (ok req) s r =
      let (version, r1) = product_list_cache_version r in
      let key = h.list_key version req in
      elim h.cache [
        | none ↦ list_answer req (λ _ r2. r2) s r1
        | some cache ↦
            let (found, r2) = cache.get_list key r1 in
            elim found [
              | ok res ↦ (json_response 200 res, (s, r2))
              | err _ ↦
                  list_answer req (λ res r3. (cache.set_list key res product_caching_time r3).1) s
                    r2
            ]
      ]

  unfoldable pub invalidate_product_lists : R → R
  invalidate_product_lists r = elim h.cache [
    | none ↦ r
    | some cache ↦ (cache.increment product_list_cache_version_key (pos 0) r).1
  ]

  unfoldable pub invalidate_product : String → R → R
  invalidate_product id r = elim h.cache [
    | none ↦ r
    | some cache ↦ invalidate_product_lists (cache.remove (product_detail_cache_key id) r).1
  ]

  unfoldable pub create_product :
      Result (CreateProductReq fl.Float) → Tables fl.Float → R → Answered (ProductRes fl.Float)
  create_product (err e) s r = (error_response h.environment 400 e "Invalid parameters", (s, r))
  create_product (ok req) s r =
      let (a, s1) = Service.create fl db env req s in
      elim a [
        | err e ↦
            let (status, message) = write_error e in
            (error_response h.environment status e message, (s1, r))
        | ok product ↦ (json_response 200 (copy_product product), (s1, invalidate_product_lists r))
      ]

  unfoldable pub update_product :
      String
      → Result (UpdateProductReq fl.Float)
      → Tables fl.Float
      → R
      → Answered (ProductRes fl.Float)
  update_product id (err e) s r = (error_response h.environment 400 e "Invalid parameters", (s, r))
  update_product id (ok req) s r =
      let (a, s1) = Service.update fl db env id req s in
      elim a [
        | err e ↦
            let (status, message) = write_error e in
            (error_response h.environment status e message, (s1, r))
        | ok product ↦ (json_response 200 (copy_product product), (s1, invalidate_product id r))
      ]
