-- ===== src/Prelude/Texts.antt =====
-- Texts as lists of code points, and the tests on them that the programs make.
use Prim.Native.Nat.{ℕ, ◌+◌, ◌-◌}
use Prim.Native.Char.{code}
use Prim.Native.String.{String}
use mathlib.Core.Path.{◌≡◌, refl, ap}
use mathlib.Core.Bool.{Bool, true, false, ◌&&◌, ◌||◌}
use mathlib.Core.List.{List, [], ◌∷◌, ◌++◌}
use native.Mathlib.Omega.{arith}
use mathlib.Core.Logic.{inl, inr}
use poly_strategy.Prelude.Tests.{leb, Bool-cases, ◌==◌, if◌then◌else◌}

abbrev pub Text : Type 0
Text = List ℕ

abbrev pub codes : String → Text
codes String.[] = []
codes (String.◌∷◌ c s) = code c ∷ codes s

-- `str.lower` on one code point. Letters outside ASCII are left as they are.
abbrev pub lower_code : ℕ → ℕ
lower_code c = if leb b'A' c && leb c b'Z' then c + 32 else c

-- `str.upper`, likewise.
abbrev pub upper_code : ℕ → ℕ
upper_code c = if leb b'a' c && leb c b'z' then c - 32 else c

pub lower_upper : (c : ℕ) → lower_code (upper_code c) ≡ lower_code c
lower_upper c = ground arith

abbrev pub lower : Text → Text
lower [] = []
lower (c ∷ cs) = lower_code c ∷ lower cs

abbrev pub upper : Text → Text
upper [] = []
upper (c ∷ cs) = upper_code c ∷ upper cs

pub lower-upper : (t : Text) → lower (upper t) ≡ lower t
lower-upper [] = refl
lower-upper (c ∷ cs) = ground (arith, lower_upper c, lower-upper cs)

unfoldable pub starts_with : Text → Text → Bool
starts_with [] t = true
starts_with (p ∷ ps) [] = false
starts_with (p ∷ ps) (c ∷ cs) = p == c && starts_with ps cs

-- `part in text`
unfoldable pub occurs_in : Text → Text → Bool
unfolding starts_with
occurs_in part [] = starts_with part []
occurs_in part (c ∷ cs) = starts_with part (c ∷ cs) || occurs_in part cs

-- Some part occurs: `a in text or b in text or ...`
unfoldable pub any_in : List Text → Text → Bool
unfolding occurs_in
any_in [] text = false
any_in (p ∷ ps) text = occurs_in p text || any_in ps text

-- The text is the part with something before and after it.
abbrev pub Contains : (part text : Text) → Type 0
Contains part text = (before : Text) × (after : Text) × (text ≡ before ++ (part ++ after))

starts_with_sound :
    (part text : Text) → starts_with part text ≡ true → (after : Text) × (text ≡ part ++ after)
unfolding starts_with
starts_with_sound [] text h = (text, refl)
starts_with_sound (p ∷ ps) [] h = absurd (cc)
starts_with_sound (p ∷ ps) (c ∷ cs) h =
    let both : ((p == c) ≡ true) × (starts_with ps cs ≡ true) = ground arith in
    let (after, e) = starts_with_sound ps cs both.1 in
    let same : p ≡ c = ground arith in (after, (cc))

starts_with_complete : (part after : Text) → starts_with part (part ++ after) ≡ true
unfolding starts_with
starts_with_complete [] after = refl
starts_with_complete (p ∷ ps) after = ground (arith, starts_with_complete ps after)

pub occurs_in-Contains : (part text : Text) → occurs_in part text ≡ true → Contains part text
unfolding occurs_in
occurs_in-Contains part [] h =
    let (after, split) = starts_with_sound part [] h in ([], after, split)
occurs_in-Contains part (c ∷ cs) h = elim (Bool-cases (starts_with part (c ∷ cs))) [
  | inl e ↦ let (after, split) = starts_with_sound part (c ∷ cs) e in ([], after, split)
  | inr e ↦
      let later : occurs_in part cs ≡ true = ground arith in
      let (before, after, split) = occurs_in-Contains part cs later in
      (c ∷ before, after, ap (λ t. c ∷ t) split)
]

starts_with-occurs_in :
    (part text : Text) → starts_with part text ≡ true → occurs_in part text ≡ true
unfolding occurs_in
starts_with-occurs_in part [] h = h
starts_with-occurs_in part (c ∷ cs) h = rw h refl

occurs_in-append : (part before after : Text) → occurs_in part (before ++ (part ++ after)) ≡ true
unfolding occurs_in
occurs_in-append part [] after =
    starts_with-occurs_in part (part ++ after) (starts_with_complete part after)
occurs_in-append part (c ∷ before) after = ground (arith, occurs_in-append part before after)

pub Contains-occurs_in : (part text : Text) → Contains part text → occurs_in part text ≡ true
Contains-occurs_in part text (before, after, split) = rw split (occurs_in-append part before after)
