-- ===== src/Prelude/Split.antt =====
-- `str.splitlines`, `str.startswith`, `in` and `str.lower` of Python.
use mathlib.Core.Bool.{Bool, true, false, ◌&&◌, ◌||◌}
use mathlib.Core.List.{List, [], ◌∷◌, ◌++◌}
use mathlib.Core.Logic.{◌≢◌, ◌⊎◌, inl, inr}
use mathlib.Core.Option.{Option, none, some}
use mathlib.Core.Path.{◌≡◌, refl, ap, ◌∙◌}
use Prim.Native.Nat.{ℕ, ◌+◌}
use native.Mathlib.Omega.{arith}
use odoo_custom.Prelude.Tests.{leb, ◌==◌, if◌then◌else◌, Bool-cases}
use odoo_custom.Prelude.Lists.{All}
use odoo_custom.Prelude.Text.{Text}

-- The line breaks of `splitlines`; a carriage return takes a line feed with it.
abbrev pub is_break : ℕ → Bool
is_break c =
    (leb 10 c && leb c 13) || (leb 28 c && leb c 30) || c == 0x85 || c == 0x2028 || c == 0x2029

abbrev pub prepend : ℕ → List Text → List Text
prepend c [] = (c ∷ []) ∷ []
prepend c (l ∷ ls) = (c ∷ l) ∷ ls

-- The lines of a text, behind a carriage return or not.
unfoldable pub lines_after : Bool → Text → List Text
lines_after after_cr [] = []
lines_after after_cr (c ∷ cs) =
    let skipped = lines_after false cs in
    let broken = lines_after (c == 13) cs in
    if after_cr && c == 10 then skipped else if is_break c then [] ∷ broken else prepend c skipped

unfoldable pub splitlines : Text → List Text
splitlines = lines_after false

-- What is left of a text behind a prefix.
abbrev pub behind : Text → Text → Option Text
behind [] t = some t
behind (p ∷ ps) [] = none
behind (p ∷ ps) (c ∷ cs) = if p == c then behind ps cs else none

abbrev pub is_there {ℓ} : {A : Type ℓ} → Option A → Bool
is_there none = false
is_there (some a) = true

abbrev pub starts_with : Text → Text → Bool
starts_with t prefix = is_there (behind prefix t)

-- What is left behind the first occurrence of a text.
unfoldable pub behind_first : Text → Text → Option Text
behind_first sub [] = behind sub []
behind_first sub (c ∷ cs) =
    let later = behind_first sub cs in
    elim (behind sub (c ∷ cs)) [ some rest ↦ some rest | none ↦ later ]

-- `sub in t`
abbrev pub contains : Text → Text → Bool
contains sub t = is_there (behind_first sub t)

-- `str.lower` on ASCII.
abbrev pub lower : Text → Text
lower [] = []
lower (c ∷ cs) = (if leb b'A' c && leb c b'Z' then c + 32 else c) ∷ lower cs

pub behind-append : (p t : Text) → behind p (p ++ t) ≡ some t
behind-append [] t = refl
behind-append (c ∷ p) t = let later = behind-append p t in ground (arith, later)

abbrev pub IsUnbroken : ℕ → Type 0
IsUnbroken c = is_break c ≡ false

-- A text without line breaks is one line, with or without a line feed behind it.
pub lines_unbroken :
    (c : ℕ) (cs : Text)
    → All IsUnbroken (c ∷ cs)
    → splitlines ((c ∷ cs) ++ (10 ∷ [])) ≡ (c ∷ cs) ∷ []
unfolding splitlines lines_after
lines_unbroken c [] all = let h = all.0 in ground arith
lines_unbroken c (d ∷ ds) all =
    let h = all.0 in let later = lines_unbroken d ds all.1 in ground (arith, later)

abbrev IsLed : Bool → List Text → Type 0
IsLed after_cr pre = (after_cr ≡ true) ⊎ (pre ≢ [])

prepend-append :
    (c : ℕ) (pre ls : List Text)
    → pre ≢ []
    → (prepend c (pre ++ ls) ≡ prepend c pre ++ ls) × (prepend c pre ≢ [])
prepend-append c [] ls h = absurd (h refl)
prepend-append c (p ∷ ps) ls h = (refl, (cc))

-- The lines of a text with a line feed in it end with those behind the line feed.
lines_after_feed :
    (after_cr : Bool) (out rest : Text)
    → (pre : List Text) × (lines_after after_cr (out ++ (10 ∷ rest))
        ≡ pre ++ lines_after false rest)
      × IsLed after_cr pre
unfolding lines_after
lines_after_feed true [] rest = ([], refl, inl refl)
lines_after_feed false [] rest = ([] ∷ [], refl, inr (cc))
lines_after_feed after_cr (c ∷ out) rest = elim (Bool-cases (after_cr && c == 10)) [
  | inl skipping ↦
      let (pre, e, led) = lines_after_feed false out rest in
      (pre, ground (arith, skipping, e), inl (ground arith))
  | inr kept ↦ elim (Bool-cases (is_break c)) [
    | inl breaks ↦
        let (pre, e, led) = lines_after_feed (c == 13) out rest in
        ([] ∷ pre, ground (arith, kept, breaks, e), inr (cc))
    | inr not_break ↦
        let (pre, e, led) = lines_after_feed false out rest in
        let full : pre ≢ [] = elim led [ inl odd ↦ absurd (cc) | inr full ↦ full ] in
        let (joined, more) = prepend-append c pre (lines_after false rest) full in
        (prepend c pre, rw (kept, not_break) (ap (prepend c) e ∙ joined), inr more)
  ]
]

-- The last line of an output is what follows its last line feed, if that has no line breaks.
pub splitlines_last :
    (out : Text) (c : ℕ) (cs : Text)
    → All IsUnbroken (c ∷ cs)
    → (pre : List Text) × (splitlines (out ++ (10 ∷ ((c ∷ cs) ++ (10 ∷ []))))
        ≡ pre ++ ((c ∷ cs) ∷ []))
unfolding splitlines
splitlines_last out c cs all =
    let (pre, e, _) = lines_after_feed false out ((c ∷ cs) ++ (10 ∷ [])) in
    (pre, e ∙ ap (λ ls. pre ++ ls) (lines_unbroken c cs all))
