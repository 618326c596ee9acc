-- ===== src/Prelude/Tables.antt =====
-- Tables of rows with a key: the first row with a key, the insert that replaces the row of a key, and
-- the update of the rows of a key.
use odoo_custom.Prelude.Tests.{if◌then◌else◌, Bool-cases}
use odoo_custom.Prelude.Lists.{All, All-of-each, keep_if, find?, update_where}
use odoo_custom.Prelude.Keys.{Key, same_sym}
use mathlib.Core.Path.{◌≡◌, refl, sym, ap, ◌∙◌, subst}
use mathlib.Core.Logic.{inl, inr}
use mathlib.Core.Bool.{Bool, false, not}
use mathlib.Core.List.{List, [], ◌∷◌, ◌++◌, Memᴰ}
use mathlib.Core.Option.{Option, none, some}
use mathlib.Core.Option
use native.Mathlib.Omega.{arith}

abbrev pub or_else {ℓ} : {A : Type ℓ} → Option A → Option A → Option A
or_else none o = o
or_else (some a) o = some a

abbrev pub only_if {ℓ} : {A : Type ℓ} → (A → Bool) → Option A → Option A
only_if p none = none
only_if p (some a) = if p a then some a else none

pub or_else-none {ℓ} : {A : Type ℓ} (o : Option A) → or_else o none ≡ o
or_else-none none = refl
or_else-none (some a) = refl

module _ {ℓ κ} {A : Type ℓ} {K : Type κ} ⦃k : Key K⦄ (key : A → K) where
  -- The first row with a key.
  abbrev pub find_by : K → List A → Option A
  find_by x = find? (λ a. k.same (key a) x)

  abbrev pub without : K → List A → List A
  without x = keep_if (λ a. not (k.same (key a) x))

  -- INSERT OR REPLACE: the row of the same key goes, and the new one comes last.
  unfoldable pub upsert : A → List A → List A
  upsert a as' = without (key a) as' ++ (a ∷ [])

  pub find_by-append :
      (x : K) (as' : List A) (a : A)
      → find_by x (as' ++ (a ∷ []))
        ≡ or_else (find_by x as') (if k.same (key a) x then some a else none)
  unfolding find?
  find_by-append x [] a = refl
  find_by-append x (b ∷ bs) a = elim (Bool-cases (k.same (key b) x)) [
    | inl hit ↦ rw hit refl
    | inr miss ↦ rw miss (find_by-append x bs a)
  ]

module _ {ℓ κ μ} {A : Type ℓ} {K : Type κ} {J : Type μ} ⦃k : Key K⦄ ⦃j : Key J⦄ (pk : A → K)
    (key : A → J) where
  -- A row has the one key exactly if it has the other.
  abbrev pub IsPaired : K → J → A → Type 0
  IsPaired y z b = k.same (pk b) y ≡ j.same (key b) z

  find_by-without :
      (x : J) (y : K) (z : J) (bs : List A)
      → All (IsPaired y z) bs
      → find_by key x (without pk y bs) ≡ (if j.same z x then none else find_by key x bs)
  unfolding find? keep_if
  find_by-without x y z [] all = elim (Bool-cases (j.same z x)) [
    | inl e ↦ rw e refl
    | inr e ↦ rw e refl
  ]
  find_by-without x y z (b ∷ bs) all =
      let later = find_by-without x y z bs all.1 in
      elim (Bool-cases (k.same (pk b) y)) [
        | inl gone ↦
            let is = j.same-eq (key b) z (sym all.0 ∙ gone) in
            elim (Bool-cases (j.same z x)) [
              | inl hit ↦ ground (arith, gone, hit, later)
              | inr miss ↦
                  (let not_b : j.same (key b) x ≡ false = rw is miss in
                    ground (arith, gone, miss, not_b, later))
            ]
        | inr stays ↦ elim (Bool-cases (j.same (key b) x)) [
          | inr miss ↦ ground (arith, stays, miss, later)
          | inl hit ↦
              let is = j.same-eq (key b) x hit in
              let other : j.same z x ≡ false =
                same_sym z x ∙ (subst (λ w. j.same w z ≡ false) is (sym all.0 ∙ stays)) in
              ground (arith, stays, hit, other)
        ]
      ]

  -- What is found after a row has replaced the one of its key, if the rows pair that key with the one
  -- that is searched for.
  pub find_by-upsert :
      (x : J) (a : A) (bs : List A)
      → All (IsPaired (pk a) (key a)) bs
      → find_by key x (upsert pk a bs) ≡ (if j.same (key a) x then some a else find_by key x bs)
  unfolding upsert
  find_by-upsert x a bs all =
      let before = find_by-without x (pk a) (key a) bs all in
      let after = find_by-append key x (without pk (pk a) bs) a in
      elim (Bool-cases (j.same (key a) x)) [
        | inl hit ↦ after ∙ rw (before, hit) refl
        | inr miss ↦ after ∙ rw (before, miss) (or_else-none (find_by key x bs))
      ]

  -- What is found after an update of the rows of a key that leaves their keys as they are, if the rows
  -- pair that key with `z`.
  pub find_by-update :
      (x : J) (y : K) (z : J) (f : A → A) (bs : List A)
      → ((b : A) → key (f b) ≡ key b)
      → All (IsPaired y z) bs
      → find_by key x (update_where (λ b. k.same (pk b) y) f bs)
        ≡ (if j.same z x then Option.map f (find_by pk y bs) else find_by key x bs)
  unfolding find? update_where
  find_by-update x y z f [] kept all = elim (Bool-cases (j.same z x)) [
    | inl e ↦ rw e refl
    | inr e ↦ rw e refl
  ]
  find_by-update x y z f (b ∷ bs) kept all =
      let later = find_by-update x y z f bs kept all.1 in
      elim (Bool-cases (k.same (pk b) y)) [
        | inl here ↦
            let is = j.same-eq (key b) z (sym all.0 ∙ here) in
            let old : j.same (key b) x ≡ j.same z x = rw is refl in
            let new : j.same (key (f b)) x ≡ j.same z x = rw (kept b, is) refl in
            elim (Bool-cases (j.same z x)) [
              | inl hit ↦ (let new' = new ∙ hit in ground (arith, here, hit, new'))
              | inr miss ↦
                  (let new' = new ∙ miss in
                    let old' = old ∙ miss in ground (arith, here, miss, new', old', later))
            ]
        | inr else_where ↦ elim (Bool-cases (j.same (key b) x)) [
          | inr miss ↦ ground (arith, else_where, miss, later)
          | inl hit ↦
              let is = j.same-eq (key b) x hit in
              let other : j.same z x ≡ false =
                same_sym z x ∙ (subst (λ w. j.same w z ≡ false) is (sym all.0 ∙ else_where)) in
              ground (arith, else_where, hit, other)
        ]
      ]

module _ {ℓ κ} {A : Type ℓ} {K : Type κ} ⦃k : Key K⦄ (key : A → K) where
  -- No two rows have the same key.
  abbrev pub IsUnique : List A → Type ℓ
  IsUnique [] = Unit
  IsUnique (b ∷ bs) = (find_by key (key b) bs ≡ none) × IsUnique bs

  keep_if-missing :
      (x : K) (p : A → Bool) (bs : List A)
      → find_by key x bs ≡ none
      → find_by key x (keep_if p bs) ≡ none
  unfolding find? keep_if
  keep_if-missing x p [] e = refl
  keep_if-missing x p (b ∷ bs) e = elim (Bool-cases (k.same (key b) x)) [
    | inl hit ↦ absurd (ground (arith, hit, e))
    | inr miss ↦
        let later = keep_if-missing x p bs (rw miss at e) in
        elim (Bool-cases (p b)) [
          | inl kept ↦ ground (arith, kept, miss, later)
          | inr gone ↦ ground (arith, gone, later)
        ]
  ]

  pub keep_if-IsUnique : (p : A → Bool) (bs : List A) → IsUnique bs → IsUnique (keep_if p bs)
  unfolding keep_if
  keep_if-IsUnique p [] u = tt
  keep_if-IsUnique p (b ∷ bs) u = elim (Bool-cases (p b)) [
    | inl kept ↦ rw kept (keep_if-missing (key b) p bs u.0, keep_if-IsUnique p bs u.1)
    | inr gone ↦ rw gone (keep_if-IsUnique p bs u.1)
  ]

  -- A key finds its row if that is kept.
  pub find_by-keep_if :
      (x : K) (p : A → Bool) (bs : List A)
      → IsUnique bs
      → find_by key x (keep_if p bs) ≡ only_if p (find_by key x bs)
  unfolding find? keep_if
  find_by-keep_if x p [] u = refl
  find_by-keep_if x p (b ∷ bs) u =
      let later = find_by-keep_if x p bs u.1 in
      elim (Bool-cases (k.same (key b) x)) [
        | inr miss ↦ elim (Bool-cases (p b)) [
          | inl kept ↦ ground (arith, kept, miss, later)
          | inr gone ↦ ground (arith, gone, miss, later)
        ]
        | inl hit ↦ elim (Bool-cases (p b)) [
          | inl kept ↦ ground (arith, kept, hit)
          | inr gone ↦
              let none_later =
                keep_if-missing x p bs
                  (subst (λ y. find_by key y bs ≡ none) (k.same-eq (key b) x hit) u.0) in
              ground (arith, gone, hit, none_later)
        ]
      ]

  pub append-IsUnique :
      (a : A) (bs : List A)
      → find_by key (key a) bs ≡ none
      → IsUnique bs
      → IsUnique (bs ++ (a ∷ []))
  unfolding find?
  append-IsUnique a [] e u = (refl, tt)
  append-IsUnique a (b ∷ bs) e u = elim (Bool-cases (k.same (key b) (key a))) [
    | inl hit ↦ absurd (ground (arith, hit, e))
    | inr miss ↦ (
      find_by-append key (key b) bs a ∙ rw (u.0, same_sym (key a) (key b), miss) refl,
      append-IsUnique a bs (rw miss at e) u.1,
    )
  ]

  pub upsert-IsUnique : (a : A) (bs : List A) → IsUnique bs → IsUnique (upsert key a bs)
  unfolding upsert
  upsert-IsUnique a bs u =
      append-IsUnique a (without key (key a) bs)
        (find_by-without key key (key a) (key a) (key a) bs
            (All-of-each (IsPaired key key (key a) (key a)) bs (λ b. refl))
          ∙ rw (k.same_refl (key a)) refl)
        (keep_if-IsUnique (λ b. not (k.same (key b) (key a))) bs u)

  pub find_by-member :
      (a : A) (bs : List A) → IsUnique bs → Memᴰ a bs → find_by key (key a) bs ≡ some a
  unfolding find?
  find_by-member a [] u m = elim m [ ]
  find_by-member a (b ∷ bs) u (Memᴰ.head e) = rw (e, k.same_refl (key b)) refl
  find_by-member a (b ∷ bs) u (Memᴰ.tail m) =
      let later = find_by-member a bs u.1 m in
      elim (Bool-cases (k.same (key b) (key a))) [
        | inr miss ↦ rw miss later
        | inl hit ↦
            let gone = subst (λ y. find_by key y bs ≡ none) (k.same-eq (key b) (key a) hit) u.0 in
            absurd (ground (arith, gone, later))
      ]

  same_keys-find_by :
      (x : K) (p : A → Bool) (f : A → A) (bs : List A)
      → ((b : A) → key (f b) ≡ key b)
      → find_by key x bs ≡ none
      → find_by key x (update_where p f bs) ≡ none
  unfolding find? update_where
  same_keys-find_by x p f [] kept e = refl
  same_keys-find_by x p f (b ∷ bs) kept e = elim (Bool-cases (k.same (key b) x)) [
    | inl hit ↦ absurd (ground (arith, hit, e))
    | inr miss ↦
        let later = same_keys-find_by x p f bs kept (rw miss at e) in
        elim (Bool-cases (p b)) [
          | inl on ↦
              (let still = ap (λ y. k.same y x) (kept b) ∙ miss in ground (arith, on, still, later))
          | inr off ↦ ground (arith, off, miss, later)
        ]
  ]

  pub update_where-IsUnique :
      (p : A → Bool) (f : A → A) (bs : List A)
      → ((b : A) → key (f b) ≡ key b)
      → IsUnique bs
      → IsUnique (update_where p f bs)
  unfolding update_where
  update_where-IsUnique p f [] kept u = tt
  update_where-IsUnique p f (b ∷ bs) kept u = (
    same_keys-find_by (key (if p b then f b else b)) p f bs kept
        (elim (Bool-cases (p b)) [ inl on ↦ rw (on, kept b) u.0 | inr off ↦ rw off u.0 ]),
    update_where-IsUnique p f bs kept u.1,
  )
