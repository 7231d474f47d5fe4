-- ===== src/Paging.antt =====
-- pkg/paging/paging.go. `ceil total limit` is int64(math.Ceil(float64(total) / float64(limit))).
use scalable_e_commerce_plat.Base.{
  Bool, ◌&&◌, ◌||◌, arith, ℤ, pos, ◌≤ℤ◌, ◌-ℤ◌, ◌*ℤ◌, ltb_ℤ, leb_ℤ, wrap64, if◌then◌else◌,
}

pub record Pagination : Type 0 where
  pub current_page : ℤ
  pub total : ℤ
  pub total_page : ℤ
  pub limit : ℤ
  pub skip : ℤ

abbrev pub is_zero : ℤ → Bool
is_zero n = leb_ℤ n (pos 0) && leb_ℤ (pos 0) n

unfoldable pub new : (ℤ → ℤ → ℤ) → ℤ → ℤ → ℤ → Pagination
new ceil page page_size total =
    let limit = if ltb_ℤ (pos 0) page_size && leb_ℤ page_size (pos 20) then page_size else pos 20 in
    let total_page = ceil total limit in
    let current = if ltb_ℤ page (pos 1) || is_zero total_page then pos 1 else page in
    record {
      current_page = current;
      total = total;
      total_page = total_page;
      limit = limit;
      skip = wrap64 (wrap64 (current -ℤ pos 1) *ℤ limit);
    }

-- A page has at least one row and at most 20.
pub new-limit :
    (ceil : ℤ → ℤ → ℤ) (page page_size total : ℤ)
    → (pos 1 ≤ℤ (new ceil page page_size total).limit)
      × ((new ceil page page_size total).limit ≤ℤ pos 20)
unfolding new
new-limit ceil page page_size total = ground arith
