-- ===== src/Product/Repository.antt =====
-- internal/product/model, dto and repository. `Env` has what a call meets: the id and the code that
-- BeforeCreate generates, the clock, the validator, LIKE, and the scale that migrations/000005 demands
-- of a price; `rank` orders the rows by the values of a column.
use scalable_e_commerce_plat.Base.{
  nat_eq, ℕ, String, Bool, true, false, not, ◌&&◌, ◌||◌, List, [], ◌∷◌, Option, none, some, Action,
  pure, ◌>>=◌, ◌==◌, ℤ, pos, Result, Fault, check_violation, pos_part, if◌then◌else◌,
}
use Prim.Native.String.{◌++◌}
use scalable_e_commerce_plat.Database.{OrderByColumn, safe_order_by_column}
use scalable_e_commerce_plat.Dbs.{Engine, query, statement, answering}
use scalable_e_commerce_plat.Money.{Floats}
use scalable_e_commerce_plat.Paging as Paging
use scalable_e_commerce_plat.Paging.{Pagination}
use scalable_e_commerce_plat.Store.{Tables, write_products}
use scalable_e_commerce_plat.Order.Model.{Product}

pub record ListProductReq : Type 0 where
  pub name : String
  pub code : String
  pub page : ℤ
  pub limit : ℤ
  pub order_by : String
  pub order_desc : Bool

pub record CreateProductReq (F : Type 0) : Type 0 where
  pub name : String
  pub description : String
  pub price : F

pub record UpdateProductReq (F : Type 0) : Type 0 where
  pub name : String
  pub description : String
  pub price : F

pub record Env (F : Type 0) : Type 0 where
  pub uuid : String
  pub code : String
  pub now : ℕ
  pub validate_create : CreateProductReq F → Result (Unit {0})
  pub validate_update : UpdateProductReq F → Result (Unit {0})
  pub has_scale : F → Bool
  -- `name LIKE pattern`
  pub like : String → String → Bool
  pub ceil : ℤ → ℤ → ℤ
  pub rank : String → Product F → ℕ

abbrev pub before_create : {F : Type 0} → String → String → Product F → Product F
before_create uuid code product = record product { id = uuid; code = code; active = true }

abbrev pub product_list_order_columns : List (String × String)
product_list_order_columns =
    ("active", "active")
    ∷ ("code", "code")
    ∷ ("created_at", "created_at")
    ∷ ("name", "name")
    ∷ ("price", "price")
    ∷ ("updated_at", "updated_at")
    ∷ []

abbrev pub product_list_order : String → Bool → OrderByColumn
product_list_order order_by desc =
    safe_order_by_column order_by desc "created_at" product_list_order_columns

-- The constraints of migrations/ that a present row makes a write violate.
abbrev pub violates : {F : Type 0} → Product F → Product F → List String
violates row r =
    if r.id == row.id
    then "products_pkey" ∷ []
    else if r.code == row.code
    then "idx_product_code" ∷ []
    else if r.name == row.name
    then "idx_product_name" ∷ []
    else []

module _ (fl : Floats) (db : Engine) (env : Env fl.Float) where
  -- The CHECK constraints of a row.
  abbrev pub refused : Product fl.Float → Option Fault
  refused row =
      if not (fl.lt_float fl.zero_float row.price)
      then some (check_violation "products_price_check")
      else if not (env.has_scale row.price)
      then some (check_violation "products_price_scale_check")
      else none

  unfoldable pub get_product_by_id : String → Action (Tables fl.Float) (Product fl.Float)
  get_product_by_id id = query (λ s. s.products) (db.first (Product fl.Float) (λ p. p.id == id))

  -- GORM stamps the time of a creation, and that of every update.
  abbrev pub created : Product fl.Float → Product fl.Float
  created product = record (before_create env.uuid env.code product) {
    created_at = if nat_eq product.created_at 0 then env.now else product.created_at;
    updated_at = if nat_eq product.updated_at 0 then env.now else product.updated_at;
  }

  abbrev pub updated : Product fl.Float → Product fl.Float
  updated product = record product { updated_at = env.now }

  unfoldable pub create : Product fl.Float → Action (Tables fl.Float) (Product fl.Float)
  create product =
      let row = created product in
      statement (λ s. s.products) write_products
        (λ rows.
          answering row
            (db.write (Product fl.Float) (refused row) (λ _. false) (violates row) row rows))

  -- The product as `Save` leaves it.
  unfoldable pub update : Product fl.Float → Action (Tables fl.Float) (Product fl.Float)
  update product =
      let row = updated product in
      statement (λ s. s.products) write_products
        (λ rows.
          answering row (
            db.write (Product fl.Float) (refused row) (λ p. p.id == row.id) (violates row) row
              rows))

  unfoldable pub list_products :
      ListProductReq → Action (Tables fl.Float) (List (Product fl.Float) × Pagination)
  list_products req = do
    let matches = λ (p : Product fl.Float).
        (req.name == "" || env.like p.name ("%" ++ req.name ++ "%"))
        && (req.code == "" || p.code == req.code)
    let order = product_list_order req.order_by req.order_desc
    total ← query (λ s. s.products) (db.count (Product fl.Float) matches)
    let pagination = Paging.new env.ceil req.page req.limit (pos total)
    products ←
        query (λ s. s.products)
          (db.find_page (Product fl.Float) matches (env.rank order.column) order.desc
            (pos_part pagination.limit) pagination.skip)
    pure (products, pagination)
