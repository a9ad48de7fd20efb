-- ===== src/Store/Keys.antt =====
-- Tables whose rows have a key: what is kept by adding, changing and removing rows.
use signal_flow.Base.{
  String, Bool, true, false, ◌≡◌, ◌≢◌, refl, sym, ◌∙◌, inl, inr, List, [], ◌∷◌, ◌++◌, All,
  All-append, Bool-cases, if◌then◌else◌, ◌==◌, any, ◌||◌, arith, eq_iff, ne_of_test,
}
use signal_flow.Store.Rows.{select_where, update_where}

module _ {R : Type 0} where
  pub All-select_where :
      (P : R → Type 0) (p : R → Bool) (rs : List R) → All P rs → All P (select_where p rs)
  All-select_where P p [] h = tt
  All-select_where P p (r ∷ rs) h = elim (Bool-cases (p r)) [
    | inl e ↦ rw (e, if◌then◌else◌) (h.0, All-select_where P p rs h.1)
    | inr e ↦ rw (e, if◌then◌else◌) (All-select_where P p rs h.1)
  ]

  -- The rows that were selected pass the test.
  pub All-selected :
      (P : R → Type 0) (p : R → Bool) (rs : List R)
      → ((r : R) → p r ≡ true → P r)
      → All P (select_where p rs)
  All-selected P p [] h = tt
  All-selected P p (r ∷ rs) h = elim (Bool-cases (p r)) [
    | inl e ↦ rw (e, if◌then◌else◌) (h r e, All-selected P p rs h)
    | inr e ↦ rw (e, if◌then◌else◌) (All-selected P p rs h)
  ]

  pub All-update_where :
      (P : R → Type 0) (p : R → Bool) (f : R → R) (rs : List R)
      → ((r : R) → p r ≡ true → P r → P (f r))
      → All P rs
      → All P (update_where p f rs)
  All-update_where P p f [] k h = tt
  All-update_where P p f (r ∷ rs) k h = elim (Bool-cases (p r)) [
    | inl e ↦ rw (e, if◌then◌else◌) (k r e h.0, All-update_where P p f rs k h.1)
    | inr e ↦ rw (e, if◌then◌else◌) (h.0, All-update_where P p f rs k h.1)
  ]

  -- No two rows have the same key.
  abbrev pub Unique : (R → String) → List R → Type 0
  Unique key [] = Unit {0}
  Unique key (r ∷ rs) = All (λ x. key r ≢ key x) rs × Unique key rs

  module _ (key : R → String) where
    abbrev pub has_key : String → List R → Bool
    has_key k rs = any (λ r. key r == k) rs

    pub has_key-append :
        (k : String) (rs more : List R) → has_key k rs ≡ true → has_key k (rs ++ more) ≡ true
    has_key-append k [] more h = cc
    has_key-append k (r ∷ rs) more h = elim (Bool-cases (key r == k)) [
      | inl e ↦ rw (e, ◌||◌) refl
      | inr e ↦ rw (e, ◌||◌) (has_key-append k rs more (ground (arith, e, h)))
    ]

    pub has_key-update_where :
        (k : String) (p : R → Bool) (f : R → R) (rs : List R)
        → ((r : R) → key (f r) ≡ key r)
        → has_key k (update_where p f rs) ≡ has_key k rs
    has_key-update_where k p f [] same = refl
    has_key-update_where k p f (r ∷ rs) same = elim (Bool-cases (p r)) [
      | inl e ↦ rw (e, if◌then◌else◌, same r, has_key-update_where k p f rs same) refl
      | inr e ↦ rw (e, if◌then◌else◌, has_key-update_where k p f rs same) refl
    ]

    pub Unique-select_where :
        (p : R → Bool) (rs : List R) → Unique key rs → Unique key (select_where p rs)
    Unique-select_where p [] h = tt
    Unique-select_where p (r ∷ rs) h = elim (Bool-cases (p r)) [
      | inl e ↦
          rw (e, if◌then◌else◌)
            (All-select_where (λ x. key r ≢ key x) p rs h.0, Unique-select_where p rs h.1)
      | inr e ↦ rw (e, if◌then◌else◌) (Unique-select_where p rs h.1)
    ]

    pub Unique-update_where :
        (p : R → Bool) (f : R → R) (rs : List R)
        → ((r : R) → key (f r) ≡ key r)
        → Unique key rs
        → Unique key (update_where p f rs)
    Unique-update_where p f [] same h = tt
    Unique-update_where p f (r ∷ rs) same h =
        let others : (k : String)
            → All (λ x. k ≢ key x) rs
            → All (λ x. k ≢ key x) (update_where p f rs) =
          λ k a. All-update_where (λ x. k ≢ key x) p f rs (λ x _ ne e. ne (e ∙ same x)) a in
        let rest = Unique-update_where p f rs same h.1 in
        elim (Bool-cases (p r)) [
          | inl e ↦ rw (e, if◌then◌else◌) (rw (same r) (others (key r) h.0), rest)
          | inr e ↦ rw (e, if◌then◌else◌) (others (key r) h.0, rest)
        ]

    absent : (k : String) (rs : List R) → has_key k rs ≡ false → All (λ x. key x ≢ k) rs
    absent k [] h = tt
    absent k (r ∷ rs) h =
        (ne_of_test (key r) k (ground (arith, h)), absent k rs (ground (arith, h)))

    Unique-append_at :
        (r : R) (rs : List R)
        → All (λ x. key x ≢ key r) rs
        → Unique key rs
        → Unique key (rs ++ r ∷ [])
    Unique-append_at r [] a h = (tt, tt)
    Unique-append_at r (x ∷ rs) a h =
        (All-append (λ y. key x ≢ key y) rs (r ∷ []) h.0 (a.0, tt), Unique-append_at r rs a.1 h.1)

    -- A row with a new key joins.
    pub Unique-append :
        (r : R) (rs : List R)
        → has_key (key r) rs ≡ false
        → Unique key rs
        → Unique key (rs ++ r ∷ [])
    Unique-append r rs new h = Unique-append_at r rs (absent (key r) rs new) h

-- An UPDATE of the one row with this identifier sets another key, which no other row has.
module _ {R : Type 0} (id key : R → String) (k new : String) (f : R → R)
    (sets : (r : R) → key (f r) ≡ new) where
  abbrev pub Free : List R → Type 0
  Free rs = All (λ x. (id x == k) ≡ false → key x ≢ new) rs

  pub Unique-set_key :
      (rs : List R)
      → Unique id rs
      → Free rs
      → Unique key rs
      → Unique key (update_where (λ r. id r == k) f rs)
  Unique-set_key [] ids free h = tt
  Unique-set_key (r ∷ rs) ids free h =
      let rest = Unique-set_key rs ids.1 free.1 h.1 in
      elim (Bool-cases (id r == k)) [
        | inl e ↦
            rw (e, if◌then◌else◌)
              (All-update_where_other rs ids.0 free.1 ((eq_iff (id r) k).0 e), rest)
        | inr e ↦
            rw (e, if◌then◌else◌)
              (
                All-update_where (λ x. key r ≢ key x) (λ r. id r == k) f rs
                    (λ x _ _ same. free.0 e (same ∙ sets x)) h.0,
                rest,
              )
      ]
    where
      All-update_where_other :
          {r : R} (rs : List R)
          → All (λ x. id r ≢ id x) rs
          → Free rs
          → id r ≡ k
          → All (λ x. key (f r) ≢ key x) (update_where (λ r. id r == k) f rs)
      All-update_where_other [] ids free e = tt
      All-update_where_other {r} (x ∷ rs) ids free e = elim (Bool-cases (id x == k)) [
        | inl hit ↦ absurd (ids.0 (e ∙ sym ((eq_iff (id x) k).0 hit)))
        | inr miss ↦
            rw (miss, if◌then◌else◌)
              ((λ same. free.0 miss (sym same ∙ sets r)), All-update_where_other rs ids.1 free.1 e)
      ]
