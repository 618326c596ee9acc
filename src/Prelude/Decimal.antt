-- ===== src/Prelude/Decimal.antt =====
-- `int(text)` of Python on ASCII text, and that it reads back what `str` printed.
use mathlib.Core.Bool.{Bool, true, false, ◌&&◌}
use mathlib.Core.List.{[], ◌∷◌}
use mathlib.Core.Logic.{◌≢◌, inl, inr}
use mathlib.Core.Option.{Option, none, some}
use mathlib.Core.Path.{◌≡◌, refl, ap, ◌∙◌, subst}
use Prim.Native.Nat.{ℕ, zero, suc, ◌+◌, ◌-◌, ◌*◌, ◌/◌, ◌%◌, ◌<◌}
use native.Mathlib.Omega.{arith}
use odoo_custom.Prelude.Tests.{ltb, leb, ◌==◌, if◌then◌else◌, Bool-cases, if-holds}
use odoo_custom.Prelude.Lists.{All}
use odoo_custom.Prelude.Int.{ℤ, pos, negsuc}
use odoo_custom.Prelude.Text.{Text, strip, show_ℕ, digits_onto, is_space, lstrip, rstrip}

abbrev pub is_digit : ℕ → Bool
is_digit c = leb 48 c && leb c 57

-- The digits of a number behind `n`; an underscore may stand between two digits.
unfoldable pub scan : Bool → ℕ → Text → Option ℕ
scan after_digit n [] = if after_digit then some n else none
scan after_digit n (c ∷ cs) =
    let more = scan true (n * 10 + (c - 48)) cs in
    let next = scan false n cs in
    if is_digit c then more else if c == b'_' && after_digit then next else none

abbrev pub negated : Option ℕ → Option ℤ
negated none = none
negated (some zero) = some (pos 0)
negated (some (suc n)) = some (negsuc n)

abbrev pub positive : Option ℕ → Option ℤ
positive none = none
positive (some n) = some (pos n)

abbrev pub signed : Text → Option ℤ
signed [] = none
signed (c ∷ cs) =
    if c == b'-'
    then negated (scan false 0 cs)
    else if c == b'+'
    then positive (scan false 0 cs)
    else positive (scan false 0 (c ∷ cs))

-- `int(text)`, `none` where it raises a ValueError.
unfoldable pub int_of : Text → Option ℤ
unfolding scan strip
int_of t = signed (strip t)

scan_digit :
    (after : Bool) (n d : ℕ) (cs : Text)
    → d < 10
    → scan after n ((48 + d) ∷ cs) ≡ scan true (n * 10 + d) cs
unfolding scan
scan_digit after n d cs h = ground arith

-- Reading the digits of `n` in front of a text is reading the text behind `n`.
scan-digits_onto :
    (fuel n : ℕ) (after : Bool) (acc : Text)
    → n < fuel
    → scan after 0 (digits_onto fuel n acc) ≡ scan true n acc
unfolding digits_onto
scan-digits_onto zero n after acc h = absurd (omega arith)
scan-digits_onto (suc fuel) n after acc h = elim (Bool-cases (ltb n 10)) [
  | inl small ↦
      rw small (scan_digit after 0 n acc (ground arith) ∙ ap (λ m. scan true m acc) (omega arith))
  | inr large ↦ rw large (
      scan-digits_onto fuel (n / 10) after ((48 + n % 10) ∷ acc) (ground arith)
      ∙ (scan_digit true (n / 10) (n % 10) acc (omega arith)
          ∙ ap (λ m. scan true m acc) (omega arith)))
]

abbrev IsDigit : ℕ → Type 0
IsDigit c = is_digit c ≡ true

digits_onto-IsDigit :
    (fuel n : ℕ) (acc : Text) → All IsDigit acc → All IsDigit (digits_onto fuel n acc)
unfolding digits_onto
digits_onto-IsDigit zero n acc all = all
digits_onto-IsDigit (suc fuel) n acc all =
    if-holds (All IsDigit) (ltb n 10) _ _ (λ small. (ground arith, all))
      (λ large. digits_onto-IsDigit fuel (n / 10) ((48 + n % 10) ∷ acc) (ground arith, all))

digits_onto-ne-nil : (fuel n : ℕ) (acc : Text) → acc ≢ [] → digits_onto fuel n acc ≢ []
unfolding digits_onto
digits_onto-ne-nil zero n acc h = h
digits_onto-ne-nil (suc fuel) n acc h =
    if-holds (λ t. t ≢ []) (ltb n 10) _ _ (λ small. cc)
      (λ large. digits_onto-ne-nil fuel (n / 10) ((48 + n % 10) ∷ acc) (cc))

digits_onto-suc-ne-nil : (fuel n : ℕ) → digits_onto (suc fuel) n [] ≢ []
unfolding digits_onto
digits_onto-suc-ne-nil fuel n =
    if-holds (λ t. t ≢ []) (ltb n 10) _ _ (λ small. cc)
      (λ large. digits_onto-ne-nil fuel (n / 10) ((48 + n % 10) ∷ []) (cc))

pub show_ℕ-ne-nil : (n : ℕ) → show_ℕ n ≢ []
unfolding show_ℕ
show_ℕ-ne-nil n =
    subst (λ k. digits_onto k n [] ≢ []) {x = suc n} (omega arith) (digits_onto-suc-ne-nil n n)

not_space : (c : ℕ) → IsDigit c → is_space c ≡ false
unfolding is_space
not_space c d = ground arith

rstrip-IsDigit : (t : Text) → All IsDigit t → rstrip t ≡ t
unfolding rstrip
rstrip-IsDigit [] all = refl
rstrip-IsDigit (c ∷ []) all = rw (not_space c all.0) refl
rstrip-IsDigit (c ∷ d ∷ ds) all = rw (rstrip-IsDigit (d ∷ ds) all.1) refl

lstrip-IsDigit : (t : Text) → All IsDigit t → lstrip t ≡ t
unfolding lstrip
lstrip-IsDigit [] all = refl
lstrip-IsDigit (c ∷ cs) all = rw (not_space c all.0) refl

signed-IsDigit : (t : Text) → All IsDigit t → t ≢ [] → signed t ≡ positive (scan false 0 t)
signed-IsDigit [] all h = absurd (h refl)
signed-IsDigit (c ∷ cs) all h = let d = all.0 in ground arith

-- `int(str(n))` is `n`.
pub int_of-show_ℕ : (n : ℕ) → int_of (show_ℕ n) ≡ some (pos n)
unfolding int_of strip
int_of-show_ℕ n =
    let t = show_ℕ n in
    let all : All IsDigit t = unfold show_ℕ in digits_onto-IsDigit (n + 1) n [] tt in
    let bare : rstrip (lstrip t) ≡ t = ap rstrip (lstrip-IsDigit t all) ∙ rstrip-IsDigit t all in
    let read : scan false 0 t ≡ some n =
      unfold show_ℕ scan in scan-digits_onto (n + 1) n false [] (omega arith) in
    ap signed bare ∙ (signed-IsDigit t all (show_ℕ-ne-nil n) ∙ ap positive read)
