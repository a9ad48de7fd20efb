-- ===== src/Store/Rows.antt =====
-- What the clauses of a SQL statement do with a table: WHERE, SET, DELETE, COUNT, ORDER BY,
-- LIMIT and OFFSET. The rows of a table stand in no particular order, and `sort_by` is stable,
-- so rows that tie may come out in any order.
use signal_flow.Base.{
  zero, suc, false, ◌⊎◌, ap, subst, All-mono, Bool-cases, true, ◌≡◌, refl, inl, inr, In, All, arith,
  ℕ, ℤ, pos, negsuc, Bool, not, String, Option, none, some, List, [], ◌∷◌, if◌then◌else◌, length,
  take, drop, Result, ok, err, Error, other,
}

abbrev limit_error : String → Error
limit_error text = record { kind = other; text = text }

module _ {R : Type 0} where
  abbrev pub select_where : (R → Bool) → List R → List R
  select_where p [] = []
  select_where p (r ∷ rs) = if p r then r ∷ select_where p rs else select_where p rs

  abbrev pub update_where : (R → Bool) → (R → R) → List R → List R
  update_where p f [] = []
  update_where p f (r ∷ rs) = (if p r then f r else r) ∷ update_where p f rs

  abbrev pub delete_where : (R → Bool) → List R → List R
  delete_where p rs = select_where (λ r. not (p r)) rs

  abbrev pub count_where : (R → Bool) → List R → ℕ
  count_where p rs = length (select_where p rs)

  abbrev pub first_where : (R → Bool) → List R → Option R
  first_where p [] = none
  first_where p (r ∷ rs) = if p r then some r else first_where p rs

  abbrev pub insert_by : (R → R → Bool) → R → List R → List R
  insert_by before r [] = r ∷ []
  insert_by before r (x ∷ xs) = if before r x then r ∷ x ∷ xs else x ∷ insert_by before r xs

  -- ORDER BY, where `before r x` is that `r` may come out ahead of `x`.
  abbrev pub sort_by : (R → R → Bool) → List R → List R
  sort_by before [] = []
  sort_by before (r ∷ rs) = insert_by before r (sort_by before rs)

  -- LIMIT and OFFSET, which the server refuses below zero.
  abbrev pub limit_rows : ℤ → List R → Result (List R)
  limit_rows (pos n) rs = ok (take n rs)
  limit_rows (negsuc n) rs = err (limit_error "LIMIT must not be negative")

  abbrev pub page_rows : ℤ → ℤ → List R → Result (List R)
  page_rows (pos offset) limit rs = limit_rows limit (drop offset rs)
  page_rows (negsuc n) limit rs = err (limit_error "OFFSET must not be negative")

-- Where the rows of a result come from.
module _ {R : Type 0} where
  pub select_where-All :
      (p : R → Bool) (rs : List R) → All (λ r. In r rs × (p r ≡ true)) (select_where p rs)
  select_where-All p [] = tt
  select_where-All p (r ∷ rs) =
      let rest =
        All-mono _ (λ x. In x (r ∷ rs) × (p x ≡ true)) (select_where p rs) (λ x h. (inr h.0, h.1))
          (select_where-All p rs) in
      elim (Bool-cases (p r)) [
        | inl e ↦ rw (e, if◌then◌else◌) ((inl refl, e), rest)
        | inr e ↦ rw (e, if◌then◌else◌) rest
      ]

  insert_by-All :
      (P : R → Type 0) (before : R → R → Bool) (r : R) (xs : List R)
      → P r
      → All P xs
      → All P (insert_by before r xs)
  insert_by-All P before r [] p h = (p, tt)
  insert_by-All P before r (x ∷ xs) p h = ground (arith, insert_by-All P before r xs p h.1)

  pub sort_by-All :
      (P : R → Type 0) (before : R → R → Bool) (xs : List R) → All P xs → All P (sort_by before xs)
  sort_by-All P before [] h = tt
  sort_by-All P before (x ∷ xs) h = insert_by-All P before x _ h.0 (sort_by-All P before xs h.1)

-- A row of an UPDATE's result is a row of the table, changed or not.
pub In-update_where :
    {R : Type 0} (p : R → Bool) (f : R → R) (rows : List R) (r : R)
    → In r (update_where p f rows)
    → (o : R) × In o rows × (((p o ≡ true) × (r ≡ f o)) ⊎ ((p o ≡ false) × (r ≡ o)))
In-update_where p f [] r m = elim m [ ]
In-update_where p f (x ∷ rows) r (inl e) = elim (Bool-cases (p x)) [
  | inl hit ↦ (x, inl refl, inl (hit, ground arith))
  | inr miss ↦ (x, inl refl, inr (miss, ground arith))
]
In-update_where p f (x ∷ rows) r (inr m) =
    let (o, listed, how) = In-update_where p f rows r m in (o, inr listed, how)

-- A row that is found is in the table and passes the test.
pub first_where-In :
    {R : Type 0} (p : R → Bool) (rows : List R) (r : R)
    → first_where p rows ≡ some r
    → In r rows × (p r ≡ true)
first_where-In p [] r e = cc
first_where-In p (x ∷ rows) r e = elim (Bool-cases (p x)) [
  | inl hit ↦ (inl (ground arith), ground arith)
  | inr miss ↦ let rest = first_where-In p rows r (ground arith) in (inr rest.0, rest.1)
]

-- The rows that pass are all in the result, in whatever order.
module _ {R : Type 0} where
  pub In-select_where :
      (p : R → Bool) (rs : List R) (r : R) → In r rs → p r ≡ true → In r (select_where p rs)
  In-select_where p [] r m h = elim m [ ]
  In-select_where p (x ∷ rs) r (inl e) h = rw (← e, h, if◌then◌else◌) (inl refl)
  In-select_where p (x ∷ rs) r (inr m) h =
      let rest = In-select_where p rs r m h in
      elim (Bool-cases (p x)) [
        | inl e ↦ rw (e, if◌then◌else◌) (inr rest)
        | inr e ↦ rw (e, if◌then◌else◌) rest
      ]

  In-insert_by :
      (before : R → R → Bool) (x : R) (rs : List R) (r : R)
      → (r ≡ x) ⊎ In r rs
      → In r (insert_by before x rs)
  In-insert_by before x [] r m = m
  In-insert_by before x (y ∷ rs) r m = elim (Bool-cases (before x y)) [
    | inl e ↦ rw (e, if◌then◌else◌) m
    | inr e ↦
        rw (e, if◌then◌else◌)
          (elim m [
            | inl same ↦ inr (In-insert_by before x rs r (inl same))
            | inr (inl same) ↦ inl same
            | inr (inr rest) ↦ inr (In-insert_by before x rs r (inr rest))
          ])
  ]

  pub In-sort_by :
      (before : R → R → Bool) (rs : List R) (r : R) → In r rs → In r (sort_by before rs)
  In-sort_by before [] r m = m
  In-sort_by before (x ∷ rs) r (inl e) = In-insert_by before x _ r (inl e)
  In-sort_by before (x ∷ rs) r (inr m) = In-insert_by before x _ r (inr (In-sort_by before rs r m))

  -- Nothing is left out unless the limit is reached.
  In-take : (n : ℕ) (rs : List R) (r : R) → In r rs → In r (take n rs) ⊎ (n ≡ length (take n rs))
  In-take zero rs r m = inr refl
  In-take (suc n) [] r m = elim m [ ]
  In-take (suc n) (x ∷ rs) r (inl e) = inl (inl e)
  In-take (suc n) (x ∷ rs) r (inr m) = elim (In-take n rs r m) [
    | inl kept ↦ inl (inr kept)
    | inr full ↦ inr (ap (λ k. suc k) full)
  ]

  pub In-limit_rows :
      (limit : ℤ) (rs out : List R) (r : R)
      → limit_rows limit rs ≡ ok out
      → In r rs
      → In r out ⊎ (limit ≡ pos (length out))
  In-limit_rows (pos n) rs out r e m =
      let same : take n rs ≡ out = ground arith in
      subst (λ xs. In r xs ⊎ (pos n ≡ pos (length xs))) same
        (elim (In-take n rs r m) [ inl kept ↦ inl kept | inr full ↦ inr (ap pos full) ])
  In-limit_rows (negsuc n) rs out r e m = cc
