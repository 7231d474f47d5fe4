-- ===== src/Dbs/Pages.antt =====
-- What a page of rows holds.
use scalable_e_commerce_plat.Base.{
  ℕ, zero, suc, Bool, true, false, ◌≡◌, refl, sym, subst, List, [], ◌∷◌, ℤ, pos_part, inl, inr, All,
  take, drop, arith, Bool-cases, if◌then◌else◌,
}
use scalable_e_commerce_plat.Dbs.Rows.{
  filter_where, sort_by, insert_by, insert_down, ordered_by, page_rows,
}

module _ {R : Type 0} where
  pub sort_by-const : (rows : List R) → sort_by (λ _. 0) rows ≡ rows
  sort_by-const [] = refl
  sort_by-const (r ∷ []) = refl
  sort_by-const (r ∷ x ∷ rows) = rw (sort_by-const (x ∷ rows)) refl

  -- A condition that another one implies selects the same rows after it.
  pub filter_where-filter_where :
      (p q : R → Bool) (rows : List R)
      → ((r : R) → q r ≡ true → p r ≡ true)
      → filter_where q (filter_where p rows) ≡ filter_where q rows
  filter_where-filter_where p q [] h = refl
  filter_where-filter_where p q (r ∷ rows) h =
      let ih = filter_where-filter_where p q rows h in
      elim (Bool-cases (q r)) [
        | inl t ↦ let e = h r t in ground (arith, t, e, ih)
        | inr t ↦ ground (arith, t, ih)
      ]

  module _ (P : R → Type 0) where
    filter_where-All :
        (p : R → Bool) (rows : List R) → ((r : R) → p r ≡ true → P r) → All P (filter_where p rows)
    filter_where-All p [] h = tt
    filter_where-All p (r ∷ rows) h =
        let ih = filter_where-All p rows h in
        elim (Bool-cases (p r)) [
          | inl t ↦
              subst (λ b. All P (if b then r ∷ filter_where p rows else filter_where p rows))
                (sym t) (h r t, ih)
          | inr t ↦
              subst (λ b. All P (if b then r ∷ filter_where p rows else filter_where p rows))
                (sym t) ih
        ]

    pub filter_where-All_both :
        (p : R → Bool) (rows : List R)
        → All P rows
        → All (λ r. P r × (p r ≡ true)) (filter_where p rows)
    filter_where-All_both p [] h = tt
    filter_where-All_both p (r ∷ rows) h = elim (Bool-cases (p r)) [
      | inl t ↦ rw t ((h.0, t), filter_where-All_both p rows h.1)
      | inr t ↦ rw t (filter_where-All_both p rows h.1)
    ]

    pub insert_by-All :
        (key : R → ℕ) (r : R) (rows : List R) → P r → All P rows → All P (insert_by key r rows)
    insert_by-All key r [] hr h = (hr, tt)
    insert_by-All key r (x ∷ rows) hr h =
        let ih = insert_by-All key r rows hr h.1 in ground (arith, hr, h, ih)

    insert_down-All :
        (key : R → ℕ) (r : R) (rows : List R) → P r → All P rows → All P (insert_down key r rows)
    insert_down-All key r [] hr h = (hr, tt)
    insert_down-All key r (x ∷ rows) hr h =
        let ih = insert_down-All key r rows hr h.1 in ground (arith, hr, h, ih)

    ordered_by-All :
        (desc : Bool) (key : R → ℕ) (rows : List R) → All P rows → All P (ordered_by desc key rows)
    ordered_by-All desc key [] h = tt
    ordered_by-All true key (r ∷ rows) h =
        insert_down-All key r (ordered_by true key rows) h.0 (ordered_by-All true key rows h.1)
    ordered_by-All false key (r ∷ rows) h =
        insert_by-All key r (ordered_by false key rows) h.0 (ordered_by-All false key rows h.1)

    pub sort_by-All : (key : R → ℕ) (rows : List R) → All P rows → All P (sort_by key rows)
    sort_by-All key [] h = tt
    sort_by-All key (r ∷ rows) h =
        insert_by-All key r (sort_by key rows) h.0 (sort_by-All key rows h.1)

    pub take-All : (n : ℕ) (rows : List R) → All P rows → All P (take n rows)
    take-All zero rows h = tt
    take-All (suc n) [] h = tt
    take-All (suc n) (r ∷ rows) h = (h.0, take-All n rows h.1)

    drop-All : (n : ℕ) (rows : List R) → All P rows → All P (drop n rows)
    drop-All zero rows h = h
    drop-All (suc n) [] h = tt
    drop-All (suc n) (r ∷ rows) h = drop-All n rows h.1

    pub page_rows-All :
        (p : R → Bool) (by : R → ℕ) (desc : Bool) (limit : ℕ) (offset : ℤ) (rows : List R)
        → ((r : R) → p r ≡ true → P r)
        → All P (page_rows p by desc limit offset rows)
    page_rows-All p by desc limit offset rows h =
        take-All limit (drop (pos_part offset) (ordered_by desc by (filter_where p rows))) (
          drop-All (pos_part offset) (ordered_by desc by (filter_where p rows))
            (ordered_by-All desc by (filter_where p rows) (filter_where-All p rows h)))
