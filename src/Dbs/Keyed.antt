-- ===== src/Dbs/Keyed.antt =====
-- Tables whose rows have a unique text column: lookups by it, and what a statement does to them.
use scalable_e_commerce_plat.Base.{
  ℕ, String, ◌≡◌, refl, Bool, true, false, ◌&&◌, List, [], ◌∷◌, ◌++◌, Option, none, some, inl, inr,
  arith, All, subst, ◌==◌, eq_iff, if◌then◌else◌, Bool-cases,
}
use scalable_e_commerce_plat.Dbs.Rows.{first_where, count_where, filter_where, map_where, all_where}

module _ {R : Type 0} where
  pub first_where-holds :
      (p : R → Bool) (rows : List R) (r : R) → first_where p rows ≡ some r → p r ≡ true
  first_where-holds p [] r h = cc
  first_where-holds p (x ∷ rows) r h = ground (arith, first_where-holds p rows r)

  -- A row at the end is found after the others.
  pub first_where-snoc :
      (p : R → Bool) (rows : List R) (row : R)
      → first_where p (rows ++ (row ∷ []))
        ≡ elim (first_where p rows) [ none ↦ if p row then some row else none | some r ↦ some r ]
  first_where-snoc p [] row = refl
  first_where-snoc p (r ∷ rows) row = ground (arith, first_where-snoc p rows row)

  pub first_where-none :
      (p : R → Bool) (rows : List R) → All (λ r. p r ≡ false) rows → first_where p rows ≡ none
  first_where-none p [] h = refl
  first_where-none p (r ∷ rows) h = ground (arith, h.0, first_where-none p rows h.1)

  pub first_where-All :
      (P : R → Type 0) (p : R → Bool) (rows : List R) (r : R)
      → All P rows
      → first_where p rows ≡ some r
      → P r
  first_where-All P p [] r h e = cc
  first_where-All P p (x ∷ rows) r h e = elim (Bool-cases (p x)) [
    | inl hit ↦ subst P (ground arith) h.0
    | inr miss ↦ first_where-All P p rows r h.1 (ground arith)
  ]

  pub map_where-none :
      (p : R → Bool) (set : R → R) (rows : List R)
      → count_where p rows ≡ 0
      → map_where p set rows ≡ rows
  map_where-none p set [] h = refl
  map_where-none p set (r ∷ rows) h = ground (arith, map_where-none p set rows)

  pub map_where-All :
      (P : R → Type 0) (p : R → Bool) (set : R → R) (rows : List R)
      → ((r : R) → P r → p r ≡ true → P (set r))
      → All P rows
      → All P (map_where p set rows)
  map_where-All P p set [] keep h = tt
  map_where-All P p set (r ∷ rows) keep h = elim (Bool-cases (p r)) [
    | inl hit ↦ (rw hit (keep r h.0 hit), map_where-All P p set rows keep h.1)
    | inr miss ↦ (rw miss h.0, map_where-All P p set rows keep h.1)
  ]

module _ {R : Type 0} (key : R → String) where
  abbrev pub find_key : String → List R → Option R
  find_key k = first_where (λ r. key r == k)

  abbrev pub IsUnique : List R → Type 0
  IsUnique [] = Unit {0}
  IsUnique (r ∷ rows) = (find_key (key r) rows ≡ none) × IsUnique rows

  pub find_key-key : (k : String) (rows : List R) (r : R) → find_key k rows ≡ some r → key r ≡ k
  find_key-key k rows r h = (eq_iff (key r) k).0 (first_where-holds _ rows r h)

  -- The row found, written by the statement if the condition selects it.
  abbrev pub written : (R → Bool) → (R → R) → Option R → Option R
  written p set none = none
  written p set (some r) = some (if p r then set r else r)

  abbrev pub hits : (R → Bool) → Option R → ℕ
  hits p none = 0
  hits p (some r) = if p r then 1 else 0

  module _ (p : R → Bool) (set : R → R) (keeps : (r : R) → key (set r) ≡ key r) where
    pub find_key-map_where :
        (k : String) (rows : List R)
        → find_key k (map_where p set rows) ≡ written p set (find_key k rows)
    find_key-map_where k [] = refl
    find_key-map_where k (r ∷ rows) = ground (arith, keeps r, find_key-map_where k rows)

    pub map_where-IsUnique : (rows : List R) → IsUnique rows → IsUnique (map_where p set rows)
    map_where-IsUnique [] u = tt
    map_where-IsUnique (r ∷ rows) u =
        ground (arith, keeps r, find_key-map_where (key r) rows, map_where-IsUnique rows u.1)

  module _ (k : String) (g : R → Bool) where
    count_where-none :
        (rows : List R) → find_key k rows ≡ none → count_where (λ r. key r == k && g r) rows ≡ 0
    count_where-none [] h = refl
    count_where-none (r ∷ rows) h = ground (arith, count_where-none rows)

    -- A unique key selects at most one row.
    pub count_where-hits :
        (rows : List R)
        → IsUnique rows
        → count_where (λ r. key r == k && g r) rows ≡ hits g (find_key k rows)
    count_where-hits [] u = refl
    count_where-hits (r ∷ rows) u =
        ground (arith, eq_iff (key r) k, count_where-none rows, count_where-hits rows u.1)

    filter_where-none :
        (rows : List R) → find_key k rows ≡ none → filter_where (λ r. key r == k && g r) rows ≡ []
    filter_where-none [] h = refl
    filter_where-none (r ∷ rows) h = ground (arith, filter_where-none rows)

    abbrev pub selected : Option R → List R
    selected none = []
    selected (some r) = if g r then r ∷ [] else []

    pub filter_where-selected :
        (rows : List R)
        → IsUnique rows
        → filter_where (λ r. key r == k && g r) rows ≡ selected (find_key k rows)
    filter_where-selected [] u = refl
    filter_where-selected (r ∷ rows) u =
        ground (arith, eq_iff (key r) k, filter_where-none rows, filter_where-selected rows u.1)

    all_where-none :
        (test : R → Bool) (rows : List R)
        → find_key k rows ≡ none
        → all_where (λ r. key r == k && g r) test rows ≡ true
    all_where-none test [] h = refl
    all_where-none test (r ∷ rows) h = ground (arith, all_where-none test rows)

    abbrev pub passes : (R → Bool) → Option R → Bool
    passes test none = true
    passes test (some r) = if g r then test r else true

    pub all_where-passes :
        (test : R → Bool) (rows : List R)
        → IsUnique rows
        → all_where (λ r. key r == k && g r) test rows ≡ passes test (find_key k rows)
    all_where-passes test [] u = refl
    all_where-passes test (r ∷ rows) u =
        ground (arith, eq_iff (key r) k, all_where-none test rows, all_where-passes test rows u.1)

  pub find_key-ne :
      (j k : String) (rows : List R) (r : R)
      → find_key k rows ≡ none
      → find_key j rows ≡ some r
      → (j == k) ≡ false
  find_key-ne j k rows r h e = elim (Bool-cases (j == k)) [
    | inl t ↦ cc (h, subst (λ i. find_key i rows ≡ some r) ((eq_iff j k).0 t) e)
    | inr f ↦ f
  ]

  map_where-missing :
      (p : R → Bool) (set : R → R) (k : String) (rows : List R)
      → ((r : R) → p r ≡ true → (key r == k) ≡ true)
      → find_key k rows ≡ none
      → map_where p set rows ≡ rows
  map_where-missing p set k [] w h = refl
  map_where-missing p set k (r ∷ rows) w h = ground (arith, w r, map_where-missing p set k rows w)

  -- A condition beside the key that the one row with the key meets changes nothing.
  pub map_where-guard :
      (k : String) (g : R → Bool) (set : R → R) (rows : List R) (r : R)
      → IsUnique rows
      → find_key k rows ≡ some r
      → g r ≡ true
      → map_where (λ x. key x == k && g x) set rows ≡ map_where (λ x. key x == k) set rows
  map_where-guard k g set [] r u h t = refl
  map_where-guard k g set (x ∷ rows) r u h t = elim (Bool-cases (key x == k)) [
    | inl e ↦ ground (
      arith,
      map_where-missing (λ y. key y == k && g y) set k rows (λ y q. ground arith),
      map_where-missing (λ y. key y == k) set k rows (λ y q. q),
      subst (λ i. find_key i rows ≡ none) ((eq_iff (key x) k).0 e) (u.0),
    )
    | inr e ↦ ground (arith, map_where-guard k g set rows r (u.1))
  ]

  pub find_key-append :
      (k : String) (r : R) (rows : List R)
      → find_key k (rows ++ (r ∷ []))
        ≡ elim (find_key k rows) [ none ↦ if key r == k then some r else none | some x ↦ some x ]
  find_key-append k r [] = refl
  find_key-append k r (x ∷ rows) = ground (arith, find_key-append k r rows)

  pub append-IsUnique :
      (r : R) (rows : List R)
      → find_key (key r) rows ≡ none
      → IsUnique rows
      → IsUnique (rows ++ (r ∷ []))
  append-IsUnique r [] h u = (refl, tt)
  append-IsUnique r (x ∷ rows) h u = ground (
    arith,
    eq_iff (key x) (key r),
    eq_iff (key r) (key x),
    find_key-append (key x) r rows,
    append-IsUnique r rows,
  )
