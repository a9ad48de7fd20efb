-- ===== src/Handler/Dashboard/Form/Laws.antt =====
-- Names between commas, there and back.
use signal_flow.Base.{
  ℕ, String, false, none, some, List, [], ◌∷◌, ◌≡◌, ◌↔◌, refl, inl, inr, All, Bool-cases,
  if◌then◌else◌, ◌==◌, eq_iff, ne_of_test, All-mono,
}
use signal_flow.Base.Text.{trim_space}
use signal_flow.Base.Text.Laws.{
  IsFilled, IsPart, Lacks, join, split-join, split-Lacks, trim_space-IsTrimmed, trim_space-Lacks,
  trim_space_of_trimmed, join-IsTrimmed, join-IsFilled, test_of_filled,
}
use signal_flow.Domain.{elements}
use signal_flow.Handler.Dashboard.Form.{keep_parts, parse_csv}

IsFilled-of_test : (s : String) → (s == "") ≡ false → IsFilled s
IsFilled-of_test String.[] e = absurd (ne_of_test "" "" e refl)
IsFilled-of_test (String.◌∷◌ c s) e = tt

keep_parts_of_parts : (sep : ℕ) (ps : List String) → All (IsPart sep) ps → keep_parts ps ≡ ps
unfolding keep_parts
keep_parts_of_parts sep [] h = refl
keep_parts_of_parts sep (p ∷ ps) ((filled, trimmed, _), h) =
    rw (trim_space_of_trimmed p trimmed, test_of_filled p filled, keep_parts_of_parts sep ps h) refl

-- Names that are trimmed, not empty and without a comma, joined by commas, are read back as they
-- were, in their order.
pub parse_csv-join :
    (p : String) (ps : List String)
    → All (IsPart b',') (p ∷ ps)
    → parse_csv (join "," (p ∷ ps)) ≡ some (p ∷ ps)
unfolding parse_csv
parse_csv-join p ps h =
    rw
      (
        trim_space_of_trimmed _ (join-IsTrimmed "," p ps h),
        test_of_filled _ (join-IsFilled "," p ps h.0.0),
        split-join "," p ps (All-mono (IsPart b',') (Lacks b',') (p ∷ ps) (λ x part. part.2) h),
        keep_parts_of_parts b',' (p ∷ ps) h,
      )
      refl

keep_parts-IsPart :
    (sep : ℕ) (ps : List String) → All (Lacks sep) ps → All (IsPart sep) (keep_parts ps)
unfolding keep_parts
keep_parts-IsPart sep [] h = tt
keep_parts-IsPart sep (p ∷ ps) (lacks, h) =
    let rest = keep_parts-IsPart sep ps h in
    elim (Bool-cases (trim_space p == "")) [
      | inl e ↦ rw (e, if◌then◌else◌) rest
      | inr e ↦
          rw (e, if◌then◌else◌)
            ((IsFilled-of_test _ e, trim_space-IsTrimmed p, trim_space-Lacks sep p lacks), rest)
    ]

-- Whatever the field holds, the names read from it are trimmed, not empty and without a comma; and
-- the slice is nil exactly for a field that is blank.
pub parse_csv-IsPart :
    (s : String)
    → All (IsPart b',') (elements (parse_csv s)) × ((parse_csv s ≡ none) ↔ (trim_space s ≡ ""))
unfolding parse_csv
parse_csv-IsPart s = elim (Bool-cases (trim_space s == "")) [
  | inl e ↦ rw (e, if◌then◌else◌) (tt, ((λ _. (eq_iff (trim_space s) "").0 e), (λ _. refl)))
  | inr e ↦
      rw (e, if◌then◌else◌)
        (
          keep_parts-IsPart b',' _ (split-Lacks b',' (trim_space s)),
          ((λ same. cc), (λ blank. absurd (ne_of_test (trim_space s) "" e blank))),
        )
]
