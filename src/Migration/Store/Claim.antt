-- ===== src/Migration/Store/Claim.antt =====
-- What the claim of infra/runners/migration_runner/db.py takes: described by the words of its SQL
-- statement, without the tests and the search that the model computes with.
use odoo_custom.Prelude.{
  ℕ, ◌≤◌, ◌<◌, ◌≡◌, ◌≢◌, refl, subst, ◌⊎◌, ◌↔◌, inl, inr, Bool, true, false, not, ◌&&◌, List, [],
  ◌∷◌, Memᴰ, not-member-nil, member-cons, Option, none, some, arith, All, All-map, Bool-cases,
  Option-cases,
}
use odoo_custom.Migration.Schema.{
  JobStatus, queued, blocked, running, Wave, canary, paused, named, Job, Tenant,
}
use odoo_custom.Migration.Store.{
  find_tenant, is_paused, has_elapsed, is_waiting, is_claimable, candidates, comes_before, earliest,
}

-- The job waits in the queue, or is blocked until a time that has passed or is not given; its
-- tenant is not paused; and it is due.
abbrev pub IsClaimable : ℕ → Job → Tenant → Type 0
IsClaimable now j t =
    ((j.status ≡ queued) ⊎ ((j.status ≡ blocked) × ((u : ℕ) → j.blocked_until ≡ some u → u ≤ now)))
    × (t.wave ≢ some paused)
    × (j.enqueued_at ≤ now)

-- The order of the queue: by the time of enqueueing, then by the identifier.
abbrev pub Precedes : Job → Job → Type 0
Precedes a b = (a.enqueued_at < b.enqueued_at) ⊎ ((a.enqueued_at ≡ b.enqueued_at) × (a.id ≤ b.id))

is_paused_iff : (w : Option Wave) → (is_paused w ≡ false) ↔ (w ≢ some paused)
is_paused_iff none = ((λ e. cc), (λ h. refl))
is_paused_iff (some canary) = ((λ e. cc), (λ h. refl))
is_paused_iff (some paused) = ((λ e. cc), (λ h. absurd (h refl)))
is_paused_iff (some (named n)) = ((λ e. cc), (λ h. refl))

has_elapsed_iff :
    (b : Option ℕ) (now : ℕ) → (has_elapsed b now ≡ true) ↔ ((u : ℕ) → b ≡ some u → u ≤ now)
has_elapsed_iff none now = ((λ e u p. absurd (cc)), (λ h. refl))
has_elapsed_iff (some t) now = ((λ e u p. ground arith), (λ h. ground (arith, h t refl)))

is_waiting_iff :
    (s : JobStatus) (b : Option ℕ) (now : ℕ)
    → (is_waiting s b now ≡ true)
      ↔ ((s ≡ queued) ⊎ ((s ≡ blocked) × ((u : ℕ) → b ≡ some u → u ≤ now)))
is_waiting_iff queued b now = ((λ e. inl refl), (λ h. refl))
is_waiting_iff blocked b now = (
  (λ e. inr (refl, (has_elapsed_iff b now).0 e)),
  (λ h. elim h [ inl e ↦ absurd (cc) | inr r ↦ (has_elapsed_iff b now).1 r.1 ]),
)
is_waiting_iff running b now = ((λ e. cc), (λ h. elim h [ inl e ↦ cc | inr r ↦ cc r.0 ]))
is_waiting_iff _ b now = ((λ e. cc), (λ h. elim h [ inl e ↦ cc | inr r ↦ cc r.0 ]))

-- The WHERE clause of the claim says what the words above say.
pub is_claimable_iff :
    (now : ℕ) (j : Job) (t : Tenant) → (is_claimable now j t ≡ true) ↔ IsClaimable now j t
unfolding is_claimable
is_claimable_iff now j t = (
  (λ e. (
    (is_waiting_iff j.status j.blocked_until now).0 (ground arith),
    (is_paused_iff t.wave).0 (ground arith),
    ground arith,
  )),
  (λ (w, p, d).
      ground
        (arith, (is_waiting_iff j.status j.blocked_until now).1 w, (is_paused_iff t.wave).1 p)),
)

comes_before→Precedes : (a b : Job) → comes_before a b ≡ true → Precedes a b
unfolding comes_before
comes_before→Precedes a b e = ground arith

not-comes_before→Precedes : (a b : Job) → comes_before a b ≡ false → Precedes b a
unfolding comes_before
not-comes_before→Precedes a b e = ground arith

Precedes-refl : (a : Job) → Precedes a a
Precedes-refl a = inr (refl, omega arith)

Precedes-trans : (a b c : Job) → Precedes a b → Precedes b c → Precedes a c
Precedes-trans a b c p q = ground arith

pub earliest-none : (xs : List (Job × Tenant)) → earliest xs ≡ none → xs ≡ []
unfolding earliest
earliest-none [] e = refl
earliest-none (x ∷ xs) e = ground arith

abbrev pub IsFirst : List (Job × Tenant) → Job × Tenant → Type 0
IsFirst xs x = Memᴰ x xs × All (λ y. Precedes x.0 y.0) xs

-- The search returns one of the rows, and one that no other precedes.
pub earliest_lem :
    (xs : List (Job × Tenant)) (x : Job × Tenant) → earliest xs ≡ some x → IsFirst xs x
unfolding earliest
earliest_lem [] x e = absurd (cc)
earliest_lem (y ∷ ys) x e = elim (Option-cases (earliest ys)) [
  | inl none_left ↦
      let same : y ≡ x = ground arith in
      let nothing : ys ≡ [] = earliest-none ys none_left in
      subst (IsFirst (y ∷ ys)) same (Memᴰ.head refl, (Precedes-refl y.0, rw nothing tt))
  | inr (z, found) ↦
      let (member, first) = earliest_lem ys z found in
      elim (Bool-cases (comes_before y.0 z.0)) [
        | inl before ↦
            let same : y ≡ x = ground arith in
            let p = comes_before→Precedes y.0 z.0 before in
            subst (IsFirst (y ∷ ys)) same (
              Memᴰ.head refl,
              (Precedes-refl y.0, All-map _ _ ys (λ k q. Precedes-trans y.0 z.0 k.0 p q) first),
            )
        | inr after ↦
            let same : z ≡ x = ground arith in
            let p = not-comes_before→Precedes y.0 z.0 after in
            subst (IsFirst (y ∷ ys)) same (Memᴰ.tail member, (p, first))
      ]
]

-- A row of the join comes from a job of the table.
pub candidates_sound :
    (now : ℕ) (locked : ℕ → Bool) (ts : List Tenant) (js : List Job) (x : Job × Tenant)
    → Memᴰ x (candidates now locked ts js)
    → Memᴰ x.0 js
      × (find_tenant x.0.tenant_id ts ≡ some x.1)
      × (is_claimable now x.0 x.1 ≡ true)
      × (locked x.0.id ≡ false)
unfolding candidates
candidates_sound now locked ts [] x m = absurd (not-member-nil m)
candidates_sound now locked ts (j ∷ js) x m = elim (Option-cases (find_tenant j.tenant_id ts)) [
  | inl absent ↦
      let r = candidates_sound now locked ts js x (rw (absent, candidates) at m) in
      (Memᴰ.tail r.0, r.1, r.2, r.3)
  | inr (t, found) ↦ elim (Bool-cases (is_claimable now j t && not (locked j.id))) [
    | inl taken ↦ elim (member-cons (rw (found, taken, candidates) at m)) [
      | inl same ↦ rw same (Memᴰ.head refl, found, ground arith, ground arith)
      | inr later ↦
          let r = candidates_sound now locked ts js x later in (Memᴰ.tail r.0, r.1, r.2, r.3)
    ]
    | inr passed ↦
        let r = candidates_sound now locked ts js x (rw (found, passed, candidates) at m) in
        (Memᴰ.tail r.0, r.1, r.2, r.3)
  ]
]

-- Job `k` can be taken at `now`.
abbrev pub IsOpen : ℕ → (ℕ → Bool) → List Tenant → Job → Type 0
IsOpen now locked ts k =
    (u : Tenant) × (find_tenant k.tenant_id ts ≡ some u)
    × IsClaimable now k u
    × (locked k.id ≡ false)

shut-IsOpen :
    (now : ℕ) (locked : ℕ → Bool) (j : Job) (t : Tenant)
    → (is_claimable now j t && not (locked j.id)) ≡ false
    → IsClaimable now j t
    → locked j.id ≡ false
    → ⊥
shut-IsOpen now locked j t shut fits free =
    let open_test = (is_claimable_iff now j t).1 fits in ground arith

some_eq : {o : Option Tenant} {t u : Tenant} → o ≡ some t → o ≡ some u → t ≡ u
some_eq p q = cc

-- What holds of every row of the join holds of every job that can be taken.
pub candidates_complete :
    (P : Job → Type 0) (now : ℕ) (locked : ℕ → Bool) (ts : List Tenant) (js : List Job)
    → All (λ y. P y.0) (candidates now locked ts js)
    → All (λ k. IsOpen now locked ts k → P k) js
unfolding candidates
candidates_complete P now locked ts [] a = tt
candidates_complete P now locked ts (j ∷ js) a = elim (Option-cases (find_tenant j.tenant_id ts)) [
  | inl absent ↦ (
    (λ (u, owner, _, _). absurd (cc)),
    candidates_complete P now locked ts js (rw (absent, candidates) at a),
  )
  | inr (t, found) ↦ elim (Bool-cases (is_claimable now j t && not (locked j.id))) [
    | inl taken ↦
        let both = rw (found, taken, candidates) at a in
        ((λ _. both.0), candidates_complete P now locked ts js both.1)
    | inr passed ↦ (
      (λ (u, owner, fits, free). absurd (
          shut-IsOpen now locked j t passed (subst (IsClaimable now j) (some_eq owner found) fits)
            free)),
      candidates_complete P now locked ts js (rw (found, passed, candidates) at a),
    )
  ]
]
