-- ===== src/Tests/Products.antt =====
-- Runs of the product handlers.
use scalable_e_commerce_plat.Base.{
  ℕ, ◌+◌, ◌-◌, ◌/◌, String, ok, err, true, none, some, Option, [], ◌∷◌, List, pos, pos_part,
  new_error, ◌==◌, if◌then◌else◌,
}
use scalable_e_commerce_plat.Dbs.Reference.{reliable}
use scalable_e_commerce_plat.Store.{Tables}
use scalable_e_commerce_plat.Product.Repository.{Env}
use scalable_e_commerce_plat.Product.Http.{ProductRes, ProductCache, ProductHandler}
use scalable_e_commerce_plat.Product.Http.Shown.{Call, reads, creates, updates, after}
use scalable_e_commerce_plat.Tests.{hundredths, shop}

-- The products that Redis holds.
abbrev Redis : Type 0
Redis = String → Option (ProductRes ℕ)

abbrev cache : ProductCache Redis ℕ
cache = record {
  get_product =
      λ key r. elim (r key) [ none ↦ (err (new_error "redis: nil"), r) | some x ↦ (ok x, r) ];
  set_product = λ key x ttl r. (ok tt, λ k. if k == key then some x else r k);
  get_list = λ key r. (err (new_error "redis: nil"), r);
  set_list = λ key x ttl r. (ok tt, r);
  get_version = λ key r. (err (new_error "redis: nil"), r);
  remove = λ key r. (ok tt, λ k. if k == key then none else r k);
  increment = λ key ttl r. (ok (pos 1), r);
}

abbrev at : Redis → String → Option (ProductRes ℕ)
at r = r

abbrev handler : ProductHandler Redis ℕ
handler = record {
  cache = some cache;
  environment = "production";
  list_key = λ version req. "cache:products:v0:";
}

abbrev env : Env ℕ
env = record {
  uuid = "p1";
  code = "P1";
  now = 2000;
  validate_create = λ _. ok tt;
  validate_update = λ _. ok tt;
  has_scale = λ _. true;
  like = λ name pattern. true;
  ceil = λ total limit. pos ((pos_part total + pos_part limit - 1) / pos_part limit);
  rank = λ column p. p.price;
}

abbrev calls : List (Call ℕ)
calls =
    reads "tea"
    ∷ updates "tea" (ok (record { name = "green tea"; description = ""; price = 300 }))
    ∷ creates "pot" "P2" (ok (record { name = "pot"; description = ""; price = 2500 }))
    ∷ []

abbrev left : Tables ℕ × Redis
left = after hundredths reliable handler env calls (shop, λ _. none)
