-- ===== src/Prelude/Lists.antt =====
-- Lists measured by native numbers, and the operations on rows that the components share:
-- an UPDATE with a WHERE clause, a search for the first match and a filter by a Boolean test.
use Prim.Native.Nat.{ℕ, zero, suc, ◌+◌, ◌≤◌}
use mathlib.Core.Path.{◌≡◌, refl, sym, subst}
use mathlib.Core.Logic.{◌⊎◌, inl, inr}
use mathlib.Core.Bool.{Bool, true, false}
use mathlib.Core.List.{List, [], ◌∷◌, ◌++◌, Memᴰ}
use mathlib.Core.Option.{Option, none, some}
use native.Mathlib.Omega.{arith}
use odoo_custom.Prelude.Tests.{if◌then◌else◌, Bool-cases}

module _ {ℓ} {A : Type ℓ} where
  abbrev pub length : List A → ℕ
  length [] = 0
  length (x ∷ xs) = suc (length xs)

  pub length-append : (xs ys : List A) → length (xs ++ ys) ≡ length xs + length ys
  length-append [] ys = omega arith
  length-append (x ∷ xs) ys = omega (arith, length-append xs ys)

  abbrev pub take : ℕ → List A → List A
  take zero xs = []
  take (suc n) [] = []
  take (suc n) (x ∷ xs) = x ∷ take n xs

  abbrev pub drop : ℕ → List A → List A
  drop zero xs = xs
  drop (suc n) [] = []
  drop (suc n) (x ∷ xs) = drop n xs

  pub length-take-le : (n : ℕ) (xs : List A) → length (take n xs) ≤ n
  length-take-le zero xs = omega arith
  length-take-le (suc n) [] = omega arith
  length-take-le (suc n) (x ∷ xs) = omega (arith, length-take-le n xs)

  abbrev pub All {κ} : (A → Type κ) → List A → Type κ
  All P [] = Unit
  All P (x ∷ xs) = P x × All P xs

  pub All-map {κ μ} :
      (P : A → Type κ) (Q : A → Type μ) (xs : List A) → ((x : A) → P x → Q x) → All P xs → All Q xs
  All-map P Q [] h a = tt
  All-map P Q (x ∷ xs) h a = (h x a.0, All-map P Q xs h a.1)

  pub not-member-nil : {x : A} → ¬ Memᴰ x []
  not-member-nil m = elim m [ ]

  pub member-cons : {x y : A} {ys : List A} → Memᴰ x (y ∷ ys) → (x ≡ y) ⊎ Memᴰ x ys
  member-cons (Memᴰ.head e) = inl e
  member-cons (Memᴰ.tail m) = inr m

  pub All-member {κ} : (P : A → Type κ) (xs : List A) {x : A} → Memᴰ x xs → All P xs → P x
  All-member P [] m a = elim m [ ]
  All-member P (y ∷ ys) {x} (Memᴰ.head e) a = subst P (sym e) a.0
  All-member P (y ∷ ys) {x} (Memᴰ.tail m) a = All-member P ys m a.1

  unfoldable pub keep_if : (A → Bool) → List A → List A
  keep_if p [] = []
  keep_if p (x ∷ xs) = if p x then x ∷ keep_if p xs else keep_if p xs

  unfoldable pub find? : (A → Bool) → List A → Option A
  find? p [] = none
  find? p (x ∷ xs) = if p x then some x else find? p xs

  unfoldable pub update_where : (A → Bool) → (A → A) → List A → List A
  update_where p f [] = []
  update_where p f (x ∷ xs) = (if p x then f x else x) ∷ update_where p f xs

  -- What holds of every row that the WHERE clause meets, after the update, and of every other row.
  pub All-update_where {κ μ} :
      (P : A → Type κ) (Q : A → Type μ) (p : A → Bool) (f : A → A) (xs : List A)
      → ((x : A) → p x ≡ true → P x → Q (f x))
      → ((x : A) → p x ≡ false → P x → Q x)
      → All P xs
      → All Q (update_where p f xs)
  unfolding update_where
  All-update_where P Q p f [] hit miss a = tt
  All-update_where P Q p f (x ∷ xs) hit miss a = (
    elim (Bool-cases (p x)) [ inl e ↦ rw e (hit x e a.0) | inr e ↦ rw e (miss x e a.0) ],
    All-update_where P Q p f xs hit miss a.1,
  )

  pub All-of-each {κ} : (P : A → Type κ) (xs : List A) → ((x : A) → P x) → All P xs
  All-of-each P [] h = tt
  All-of-each P (x ∷ xs) h = (h x, All-of-each P xs h)

  pub All-keep_if {κ} :
      (P : A → Type κ) (p : A → Bool) (xs : List A)
      → ((x : A) → p x ≡ true → P x)
      → All P (keep_if p xs)
  unfolding keep_if
  All-keep_if P p [] h = tt
  All-keep_if P p (x ∷ xs) h = elim (Bool-cases (p x)) [
    | inl e ↦ rw e (h x e, All-keep_if P p xs h)
    | inr e ↦ rw e (All-keep_if P p xs h)
  ]

  pub find?-holds :
      (p : A → Bool) (xs : List A) {x : A} → find? p xs ≡ some x → (p x ≡ true) × Memᴰ x xs
  unfolding find?
  find?-holds p [] e = absurd (cc)
  find?-holds p (y ∷ ys) {x} e = elim (Bool-cases (p y)) [
    | inl t ↦ (let same : y ≡ x = ground arith in (rw same at t, Memᴰ.head (sym same)))
    | inr f ↦ let r = find?-holds p ys (rw f at e) in (r.0, Memᴰ.tail r.1)
  ]

  -- The first match after an UPDATE that does not change what is searched for.
  pub find?-update_where :
      (p : A → Bool) (f : A → A) (xs : List A) {x : A}
      → ((y : A) → p y ≡ true → p (f y) ≡ true)
      → find? p xs ≡ some x
      → find? p (update_where p f xs) ≡ some (f x)
  unfolding find? update_where
  find?-update_where p f [] keep e = absurd (cc)
  find?-update_where p f (y ∷ ys) {x} keep e = elim (Bool-cases (p y)) [
    | inl hit ↦ ground (arith, hit, keep y hit)
    | inr miss ↦
        let later = find?-update_where p f ys keep (rw miss at e) in ground (arith, miss, later)
  ]

  -- An UPDATE whose WHERE clause no row meets changes nothing.
  pub update_where-none :
      (p : A → Bool) (f : A → A) (xs : List A)
      → All (λ x. p x ≡ false) xs
      → update_where p f xs ≡ xs
  unfolding update_where
  update_where-none p f [] a = refl
  update_where-none p f (x ∷ xs) a =
      let later = update_where-none p f xs a.1 in ground (arith, a.0, later)

  pub keep_if-hit :
      (p : A → Bool) (x : A) (xs : List A) → p x ≡ true → keep_if p (x ∷ xs) ≡ x ∷ keep_if p xs
  unfolding keep_if
  keep_if-hit p x xs e = ground (arith, e)

  pub keep_if-miss :
      (p : A → Bool) (x : A) (xs : List A) → p x ≡ false → keep_if p (x ∷ xs) ≡ keep_if p xs
  unfolding keep_if
  keep_if-miss p x xs e = ground (arith, e)

  pub find?-none : (p : A → Bool) (xs : List A) → find? p xs ≡ none → All (λ x. p x ≡ false) xs
  unfolding find?
  find?-none p [] e = tt
  find?-none p (x ∷ xs) e = elim (Bool-cases (p x)) [
    | inl hit ↦ absurd (ground (arith, hit))
    | inr miss ↦ (miss, find?-none p xs (rw miss at e))
  ]

  pub All-zip {κ μ} :
      (P : A → Type κ) (Q : A → Type μ) (xs : List A)
      → All P xs
      → All Q xs
      → All (λ x. P x × Q x) xs
  All-zip P Q [] a b = tt
  All-zip P Q (x ∷ xs) a b = ((a.0, b.0), All-zip P Q xs a.1 b.1)

  pub keep_if-member :
      (p : A → Bool) (xs : List A) {x : A} → Memᴰ x (keep_if p xs) → Memᴰ x xs × (p x ≡ true)
  unfolding keep_if
  keep_if-member p [] m = absurd (not-member-nil m)
  keep_if-member p (y ∷ ys) {x} m = elim (Bool-cases (p y)) [
    | inl kept ↦ elim (member-cons (rw kept at m)) [
      | inl same ↦ rw same (Memᴰ.head refl, kept)
      | inr later ↦ let r = keep_if-member p ys later in (Memᴰ.tail r.0, r.1)
    ]
    | inr dropped ↦ let r = keep_if-member p ys (rw dropped at m) in (Memᴰ.tail r.0, r.1)
  ]

  pub member-keep_if :
      (p : A → Bool) (xs : List A) {x : A} → Memᴰ x xs → p x ≡ true → Memᴰ x (keep_if p xs)
  unfolding keep_if
  member-keep_if p [] m e = elim m [ ]
  member-keep_if p (y ∷ ys) {x} (Memᴰ.head same) e =
      let kept : p y ≡ true = subst (λ z. p z ≡ true) same e in rw kept (Memᴰ.head same)
  member-keep_if p (y ∷ ys) {x} (Memᴰ.tail m) e = elim (Bool-cases (p y)) [
    | inl kept ↦ rw kept (Memᴰ.tail (member-keep_if p ys m e))
    | inr dropped ↦ rw dropped (member-keep_if p ys m e)
  ]
