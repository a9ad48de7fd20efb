-- ===== src/Base/Text/Laws.antt =====
-- Trimming and splitting, backwards and forwards.
use Prim.Native.Nat.{ℕ}
use Prim.Native.Char.{Char, code}
use Prim.Native.String.{String}
use Prim.Native.String.append
use mathlib.Core.Path.{◌≡◌, refl, ap, ◌∙◌, subst}
use mathlib.Core.Logic.{inl, inr}
use mathlib.Core.Bool.{false}
use mathlib.Core.List.{List, [], ◌∷◌}
use text.Mathlib.TextEquality.{eq_iff}
use native.Mathlib.Omega.{arith}
use signal_flow.Base.Tests.{Bool-cases, nat_eq, if◌then◌else◌, ◌+++◌, ◌==◌}
use signal_flow.Base.Lists.{All}
use signal_flow.Base.Text.{
  is_space, trim_left, trim_right, trim_space, keep_before, push_first, split,
}

-- The first character, if there is one, is no space; likewise the last.
abbrev pub StartsDark : String → Type 0
StartsDark String.[] = Unit {0}
StartsDark (String.◌∷◌ c s) = is_space c ≡ false

abbrev EndsDarkFrom : Char → String → Type 0
EndsDarkFrom c String.[] = is_space c ≡ false
EndsDarkFrom c (String.◌∷◌ d s) = EndsDarkFrom d s

abbrev pub EndsDark : String → Type 0
EndsDark String.[] = Unit {0}
EndsDark (String.◌∷◌ c s) = EndsDarkFrom c s

-- A text with no space around it.
abbrev pub IsTrimmed : String → Type 0
IsTrimmed s = StartsDark s × EndsDark s

trim_left-StartsDark : (s : String) → StartsDark (trim_left s)
unfolding trim_left
trim_left-StartsDark String.[] = tt
trim_left-StartsDark (String.◌∷◌ c s) = elim (Bool-cases (is_space c)) [
  | inl e ↦ rw (e, if◌then◌else◌) (trim_left-StartsDark s)
  | inr e ↦ rw (e, if◌then◌else◌) e
]

trim_left_of_dark : (s : String) → StartsDark s → trim_left s ≡ s
unfolding trim_left
trim_left_of_dark String.[] h = refl
trim_left_of_dark (String.◌∷◌ c s) h = rw h refl

-- A text that ends in no space keeps its end; a character before it changes nothing.
trim_right_of_dark :
    (c : Char) (s : String) → EndsDarkFrom c s → trim_right (String.◌∷◌ c s) ≡ String.◌∷◌ c s
unfolding trim_right
trim_right_of_dark c String.[] h = rw h refl
trim_right_of_dark c (String.◌∷◌ d s) h = rw (trim_right_of_dark d s h) refl

trim_right_dark : (s : String) → EndsDark s → trim_right s ≡ s
unfolding trim_right
trim_right_dark String.[] h = refl
trim_right_dark (String.◌∷◌ c s) h = trim_right_of_dark c s h

pub trim_space_of_trimmed : (s : String) → IsTrimmed s → trim_space s ≡ s
unfolding trim_space
trim_space_of_trimmed s (starts, ends) =
    ap trim_right (trim_left_of_dark s starts) ∙ trim_right_dark s ends

keep_before-EndsDark : (c : Char) (s : String) → EndsDark s → EndsDark (keep_before c s)
keep_before-EndsDark c String.[] h = elim (Bool-cases (is_space c)) [
  | inl e ↦ rw (e, if◌then◌else◌) tt
  | inr e ↦ rw (e, if◌then◌else◌) e
]
keep_before-EndsDark c (String.◌∷◌ d s) h = h

trim_right-EndsDark : (s : String) → EndsDark (trim_right s)
unfolding trim_right
trim_right-EndsDark String.[] = tt
trim_right-EndsDark (String.◌∷◌ c s) = keep_before-EndsDark c (trim_right s) (trim_right-EndsDark s)

keep_before-StartsDark : (c : Char) (s : String) → is_space c ≡ false → StartsDark (keep_before c s)
keep_before-StartsDark c String.[] h = rw (h, if◌then◌else◌) h
keep_before-StartsDark c (String.◌∷◌ d s) h = h

trim_right-StartsDark : (s : String) → StartsDark s → StartsDark (trim_right s)
unfolding trim_right
trim_right-StartsDark String.[] h = tt
trim_right-StartsDark (String.◌∷◌ c s) h = keep_before-StartsDark c (trim_right s) h

pub trim_space-IsTrimmed : (s : String) → IsTrimmed (trim_space s)
unfolding trim_space
trim_space-IsTrimmed s = (
  trim_right-StartsDark (trim_left s) (trim_left-StartsDark s),
  trim_right-EndsDark (trim_left s),
)

-- The character is not in the text.
abbrev pub Lacks : ℕ → String → Type 0
Lacks sep String.[] = Unit {0}
Lacks sep (String.◌∷◌ c s) = (nat_eq (code c) sep ≡ false) × Lacks sep s

trim_left-Lacks : (sep : ℕ) (s : String) → Lacks sep s → Lacks sep (trim_left s)
unfolding trim_left
trim_left-Lacks sep String.[] h = tt
trim_left-Lacks sep (String.◌∷◌ c s) h = elim (Bool-cases (is_space c)) [
  | inl e ↦ rw (e, if◌then◌else◌) (trim_left-Lacks sep s h.1)
  | inr e ↦ rw (e, if◌then◌else◌) h
]

keep_before-Lacks :
    (sep : ℕ) (c : Char) (s : String)
    → nat_eq (code c) sep ≡ false
    → Lacks sep s
    → Lacks sep (keep_before c s)
keep_before-Lacks sep c String.[] h l = elim (Bool-cases (is_space c)) [
  | inl e ↦ rw (e, if◌then◌else◌) tt
  | inr e ↦ rw (e, if◌then◌else◌) (h, tt)
]
keep_before-Lacks sep c (String.◌∷◌ d s) h l = (h, l)

trim_right-Lacks : (sep : ℕ) (s : String) → Lacks sep s → Lacks sep (trim_right s)
unfolding trim_right
trim_right-Lacks sep String.[] h = tt
trim_right-Lacks sep (String.◌∷◌ c s) h =
    keep_before-Lacks sep c (trim_right s) h.0 (trim_right-Lacks sep s h.1)

pub trim_space-Lacks : (sep : ℕ) (s : String) → Lacks sep s → Lacks sep (trim_space s)
unfolding trim_space
trim_space-Lacks sep s h = trim_right-Lacks sep (trim_left s) (trim_left-Lacks sep s h)

push_first-Lacks :
    (sep : ℕ) (c : Char) (ps : List String)
    → nat_eq (code c) sep ≡ false
    → All (Lacks sep) ps
    → All (Lacks sep) (push_first c ps)
push_first-Lacks sep c [] h l = ((h, tt), tt)
push_first-Lacks sep c (p ∷ ps) h (l, ls) = ((h, l), ls)

-- No part of a split has the separator.
pub split-Lacks : (sep : ℕ) (s : String) → All (Lacks sep) (split sep s)
unfolding split
split-Lacks sep String.[] = (tt, tt)
split-Lacks sep (String.◌∷◌ c s) = elim (Bool-cases (nat_eq (code c) sep)) [
  | inl e ↦ rw (e, if◌then◌else◌) (tt, split-Lacks sep s)
  | inr e ↦ rw (e, if◌then◌else◌) (push_first-Lacks sep c (split sep s) e (split-Lacks sep s))
]

-- A text, and another behind it.
abbrev pub then_text : String → String → String
then_text String.[] t = t
then_text (String.◌∷◌ c s) t = String.◌∷◌ c (then_text s t)

-- Go's `+` on texts is the same.
pub append-then_text : (s t : String) → s +++ t ≡ then_text s t
append-then_text String.[] t = append.nil t
append-then_text (String.◌∷◌ c s) t = append.cons c s t ∙ ap (String.◌∷◌ c) (append-then_text s t)

-- strings.Join by a separator of one character.
abbrev pub join : Char → List String → String
join sep [] = String.[]
join sep (p ∷ []) = p
join sep (p ∷ q ∷ ps) = then_text p (String.◌∷◌ sep (join sep (q ∷ ps)))

split_of_Lacks : (sep : ℕ) (p : String) → Lacks sep p → split sep p ≡ p ∷ []
unfolding split
split_of_Lacks sep String.[] h = refl
split_of_Lacks sep (String.◌∷◌ c s) h = rw (h.0, split_of_Lacks sep s h.1) refl

split-then_text :
    (c : Char) (p rest : String)
    → Lacks (code c) p
    → split (code c) (then_text p (String.◌∷◌ c rest)) ≡ p ∷ split (code c) rest
unfolding split
split-then_text c String.[] rest h = ground arith
split-then_text c (String.◌∷◌ d p) rest h = rw (h.0, split-then_text c p rest h.1) refl

-- Splitting gives the joined parts back, where there is one and none has the separator.
pub split-join :
    (c : Char) (p : String) (ps : List String)
    → All (Lacks (code c)) (p ∷ ps)
    → split (code c) (join c (p ∷ ps)) ≡ p ∷ ps
split-join c p [] h = split_of_Lacks (code c) p h.0
split-join c p (q ∷ ps) h = split-then_text c p _ h.0 ∙ ap (λ qs. p ∷ qs) (split-join c q ps h.1)

-- A text that ends in no space ends so behind any other.
abbrev pub IsFilled : String → Type 0
IsFilled String.[] = ⊥
IsFilled (String.◌∷◌ c s) = Unit {0}

pub test_of_filled : (text : String) → IsFilled text → (text == "") ≡ false
test_of_filled text filled = elim (Bool-cases (text == "")) [
  | inl e ↦ absurd (subst IsFilled ((eq_iff text "").0 e) filled)
  | inr e ↦ e
]

then_text-EndsDarkFrom :
    (c d : Char) (s t : String) → EndsDarkFrom d t → EndsDarkFrom c (then_text s (String.◌∷◌ d t))
then_text-EndsDarkFrom c d String.[] t h = h
then_text-EndsDarkFrom c d (String.◌∷◌ e s) t h = then_text-EndsDarkFrom e d s t h

then_text-EndsDark :
    (d : Char) (s t : String) → EndsDarkFrom d t → EndsDark (then_text s (String.◌∷◌ d t))
then_text-EndsDark d String.[] t h = h
then_text-EndsDark d (String.◌∷◌ c s) t h = then_text-EndsDarkFrom c d s t h

EndsDark-behind : (d : Char) (t : String) → IsFilled t → EndsDark t → EndsDarkFrom d t
EndsDark-behind d String.[] f h = elim f [ ]
EndsDark-behind d (String.◌∷◌ c t) f h = h

-- What a caller puts between the separators.
abbrev pub IsPart : ℕ → String → Type 0
IsPart sep p = IsFilled p × IsTrimmed p × Lacks sep p

pub join-IsFilled :
    (c : Char) (p : String) (ps : List String) → IsFilled p → IsFilled (join c (p ∷ ps))
join-IsFilled c p [] h = h
join-IsFilled c String.[] (q ∷ ps) h = elim h [ ]
join-IsFilled c (String.◌∷◌ d p) (q ∷ ps) h = tt

join-StartsDark :
    (c : Char) (p : String) (ps : List String)
    → IsFilled p
    → StartsDark p
    → StartsDark (join c (p ∷ ps))
join-StartsDark c p [] f h = h
join-StartsDark c String.[] (q ∷ ps) f h = elim f [ ]
join-StartsDark c (String.◌∷◌ d p) (q ∷ ps) f h = h

join-EndsDark :
    (c : Char) (p : String) (ps : List String)
    → All (IsPart (code c)) (p ∷ ps)
    → EndsDark (join c (p ∷ ps))
join-EndsDark c p [] h = h.0.1.1
join-EndsDark c p (q ∷ ps) h =
    then_text-EndsDark c p (join c (q ∷ ps)) (
      EndsDark-behind c (join c (q ∷ ps)) (join-IsFilled c q ps h.1.0.0) (join-EndsDark c q ps h.1))

pub join-IsTrimmed :
    (c : Char) (p : String) (ps : List String)
    → All (IsPart (code c)) (p ∷ ps)
    → IsTrimmed (join c (p ∷ ps))
join-IsTrimmed c p ps h = (join-StartsDark c p ps h.0.0 h.0.1.0, join-EndsDark c p ps h)
