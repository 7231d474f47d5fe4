-- ===== src/Cart/Model.antt =====
-- internal/cart/model and internal/cart/dto, and the tables that the repository uses. `F` is the type
-- of float64; time stamps are left out.
use scalable_e_commerce_plat.Base.{ℕ, String, Option, List}

pub record User : Type 0 where
  pub id : String
  pub email : String

pub record Product (F : Type 0) : Type 0 where
  pub id : String
  pub code : String
  pub name : String
  pub description : String
  pub price : F

pub record CartLine (F : Type 0) : Type 0 where
  pub cart_id : String
  pub product_id : String
  pub product : Option (Product F)
  pub quantity : ℕ

-- A row has no user and no lines; a cart that is loaded has both.
pub record Cart (F : Type 0) : Type 0 where
  pub id : String
  pub user_id : String
  pub user : Option User
  pub lines : List (CartLine F)

-- `Cart.BeforeCreate`; `uuid` is what uuid.New returns.
unfoldable pub before_create : {F : Type 0} → String → Cart F → Cart F
before_create uuid cart = record cart { id = uuid }

pub record CartTables (F : Type 0) : Type 0 where
  pub users : List User
  pub products : List (Product F)
  pub carts : List (Cart F)
  pub cart_lines : List (CartLine F)

pub record CartLineReq : Type 0 where
  pub product_id : String
  pub quantity : ℕ

pub record AddProductReq : Type 0 where
  pub user_id : String
  pub line : CartLineReq

pub record RemoveProductReq : Type 0 where
  pub user_id : String
  pub product_id : String
