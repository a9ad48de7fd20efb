-- ===== src/Store/Counting.antt =====
-- What COUNT(*) and an UPDATE mean, told without a test: how many rows have a property, and what
-- each row of a table has become.
use signal_flow.Base.{
  ◌≡◌, refl, ◌↔◌, ◌⊎◌, inl, inr, ℕ, suc, Bool, true, false, List, [], ◌∷◌, Bool-cases,
  if◌then◌else◌, In,
}
use signal_flow.Store.Rows.{count_where, update_where}

module _ {R : Type 0} where
  -- Of the rows, `n` have the property: each row has it and counts, or has it not and does not.
  abbrev pub Counted : (R → Type 0) → ℕ → List R → Type 0
  Counted P n [] = n ≡ 0
  Counted P n (r ∷ rs) =
      (P r × ((k : ℕ) × (n ≡ suc k) × Counted P k rs)) ⊎ ((P r → ⊥) × Counted P n rs)

  -- A test that decides the property counts the rows that have it.
  pub count_where-Counted :
      (P : R → Type 0) (p : R → Bool)
      → ((r : R) → (p r ≡ true) ↔ P r)
      → (rs : List R) → Counted P (count_where p rs) rs
  count_where-Counted P p decides [] = refl
  count_where-Counted P p decides (r ∷ rs) =
      let rest = count_where-Counted P p decides rs in
      elim (Bool-cases (p r)) [
        | inl e ↦ rw (e, if◌then◌else◌) (inl ((decides r).0 e, (_, refl, rest)))
        | inr e ↦ rw (e, if◌then◌else◌) (inr (λ h. let e' = (decides r).1 h in cc, rest))
      ]

  -- Two tables of equal length, whose rows are related one by one.
  abbrev pub RowByRow : (R → R → Type 0) → List R → List R → Type 0
  RowByRow Q [] [] = Unit {0}
  RowByRow Q [] (t ∷ ts) = ⊥
  RowByRow Q (r ∷ rs) [] = ⊥
  RowByRow Q (r ∷ rs) (t ∷ ts) = Q r t × RowByRow Q rs ts

  pub update_where-RowByRow :
      (Q : R → R → Type 0) (p : R → Bool) (f : R → R)
      → ((r : R) → p r ≡ true → Q r (f r))
      → ((r : R) → p r ≡ false → Q r r)
      → (rs : List R) → RowByRow Q rs (update_where p f rs)
  update_where-RowByRow Q p f hit miss [] = tt
  update_where-RowByRow Q p f hit miss (r ∷ rs) =
      let rest = update_where-RowByRow Q p f hit miss rs in
      elim (Bool-cases (p r)) [
        | inl e ↦ rw (e, if◌then◌else◌) (hit r e, rest)
        | inr e ↦ rw (e, if◌then◌else◌) (miss r e, rest)
      ]

  -- An UPDATE keeps the rows that it does not reach, and writes the ones that it does.
  pub In-update_where_miss :
      (p : R → Bool) (f : R → R) (rs : List R) (r : R)
      → In r rs
      → p r ≡ false
      → In r (update_where p f rs)
  In-update_where_miss p f [] r m e = elim m [ ]
  In-update_where_miss p f (x ∷ rs) r (inl is) e = rw (← is, e, if◌then◌else◌) (inl refl)
  In-update_where_miss p f (x ∷ rs) r (inr m) e = inr (In-update_where_miss p f rs r m e)

  pub In-update_where_hit :
      (p : R → Bool) (f : R → R) (rs : List R) (r : R)
      → In r rs
      → p r ≡ true
      → In (f r) (update_where p f rs)
  In-update_where_hit p f [] r m e = elim m [ ]
  In-update_where_hit p f (x ∷ rs) r (inl is) e = rw (← is, e, if◌then◌else◌) (inl refl)
  In-update_where_hit p f (x ∷ rs) r (inr m) e = inr (In-update_where_hit p f rs r m e)
