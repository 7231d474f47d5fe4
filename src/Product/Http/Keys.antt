-- ===== src/Product/Http/Keys.antt =====
-- internal/product/port/http/handlers.go: the keys of the products in Redis.
use Prim.Native.String.append
use Prim.Native.String.{◌++◌}
use scalable_e_commerce_plat.Base.{
  ◌≡◌, some, none, String, ap, arith, Bool-cases, inl, inr, false, ◌==◌, eq_iff, sym, ◌∙◌,
}
use scalable_e_commerce_plat.Base.Words.{rest_of}
use scalable_e_commerce_plat.Product.Http.{product_detail_cache_key, product_list_cache_version_key}

rest_of-append : (p s : String) → rest_of p (p ++ s) ≡ some s
rest_of-append String.[] s = ap (rest_of String.[]) (λ i. append.nil s i)
rest_of-append (String.◌∷◌ c p) s =
    let step : String.◌∷◌ c p ++ s ≡ String.◌∷◌ c (p ++ s) = λ i. append.cons c p s i in
    ap (rest_of (String.◌∷◌ c p)) step ∙ ground (arith, rest_of-append p s)

-- Keys of two products differ, and none is the key of the version.
pub product_detail_cache_key-eq :
    (a b : String) → (product_detail_cache_key a == product_detail_cache_key b) ≡ (a == b)
product_detail_cache_key-eq a b = elim (Bool-cases (a == b)) [
  | inl t ↦ cc (
    t,
    (eq_iff a b).0 t,
    (eq_iff (product_detail_cache_key a) (product_detail_cache_key b)).1
        (ap product_detail_cache_key ((eq_iff a b).0 t)),
  )
  | inr f ↦ elim (Bool-cases (product_detail_cache_key a == product_detail_cache_key b)) [
    | inr g ↦ g ∙ sym f
    | inl g ↦
        let same : some a ≡ some b =
          sym (rest_of-append "cache:product:" a)
          ∙ ap (rest_of "cache:product:")
              ((eq_iff (product_detail_cache_key a) (product_detail_cache_key b)).0 g)
          ∙ rest_of-append "cache:product:" b in
        absurd (ground (arith, f, eq_iff a b, same))
  ]
]

pub product_detail_cache_key-version :
    (a : String) → (product_detail_cache_key a == product_list_cache_version_key) ≡ false
product_detail_cache_key-version a =
    elim (Bool-cases (product_detail_cache_key a == product_list_cache_version_key)) [
      | inr g ↦ g
      | inl g ↦
          let same : none ≡ some a =
            ap (rest_of "cache:product:")
              (sym ((eq_iff (product_detail_cache_key a) product_list_cache_version_key).0 g))
            ∙ rest_of-append "cache:product:" a in
          absurd (ground (arith, same))
    ]
