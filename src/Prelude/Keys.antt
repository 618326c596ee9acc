-- ===== src/Prelude/Keys.antt =====
-- Keys of tables: types with an equality test.
use odoo_custom.Prelude.Tests.{◌==◌, ==_iff, Bool-cases}
use odoo_custom.Prelude.Text.{Text, text_eq, text_eq→eq}
use Prim.Native.Nat.{ℕ}
use mathlib.Core.Path.{◌≡◌, refl, sym, ◌∙◌}
use mathlib.Core.Logic.{inl, inr}
use mathlib.Core.Bool.{Bool, true, ◌&&◌}
use mathlib.Core.List.{[], ◌∷◌}
use native.Mathlib.Omega.{arith}

pub record Key {ℓ} (K : Type ℓ) : Type ℓ where
  pub same : K → K → Bool
  pub same-eq : (a b : K) → same a b ≡ true → a ≡ b
  pub same_refl : (a : K) → same a a ≡ true

pub text_eq_refl : (a : Text) → text_eq a a ≡ true
text_eq_refl [] = refl
text_eq_refl (c ∷ cs) = let rest = text_eq_refl cs in let here = (==_iff c c).1 refl in ground arith

instance abbrev pub text_key : Key Text
text_key = record { same = text_eq; same-eq = text_eq→eq; same_refl = text_eq_refl }

instance abbrev pub nat_key : Key ℕ
nat_key = record {
  same = ◌==◌;
  same-eq = λ a b e. (==_iff a b).0 e;
  same_refl = λ a. (==_iff a a).1 refl;
}

module _ {ℓ κ} {A : Type ℓ} {B : Type κ} (k : Key A) (l : Key B) where
  abbrev pub both : A × B → A × B → Bool
  both (a, b) (c, d) = k.same a c && l.same b d

  pub both-eq : (p q : A × B) → both p q ≡ true → p ≡ q
  both-eq (a, b) (c, d) e =
      let left = k.same-eq a c (ground arith) in let right = l.same-eq b d (ground arith) in cc

  pub both_refl : (p : A × B) → both p p ≡ true
  both_refl (a, b) = rw (k.same_refl a, l.same_refl b) refl

instance abbrev pub pair_key {ℓ κ} : {A : Type ℓ} {B : Type κ} ⦃k : Key A⦄ ⦃l : Key B⦄ → Key (A × B)
pair_key ⦃k⦄ ⦃l⦄ = record { same = both k l; same-eq = both-eq k l; same_refl = both_refl k l }

module _ {ℓ} {K : Type ℓ} ⦃k : Key K⦄ where
  pub same_sym : (a b : K) → k.same a b ≡ k.same b a
  same_sym a b = elim (Bool-cases (k.same a b)) [
    | inl e ↦ (let is = k.same-eq a b e in rw is refl)
    | inr e ↦ elim (Bool-cases (k.same b a)) [
      | inr f ↦ e ∙ sym f
      | inl f ↦ (let is = k.same-eq b a f in rw is refl)
    ]
  ]

abbrev pub equals {ℓ} : {K : Type ℓ} ⦃k : Key K⦄ → K → K → Bool
equals ⦃k⦄ = k.same
