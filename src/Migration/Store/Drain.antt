-- ===== src/Migration/Store/Drain.antt =====
-- Successive claims from the queue of infra/runners/migration_runner/db.py.
use odoo_custom.Prelude.{
  ℕ, zero, suc, ◌≤◌, ◌<◌, ◌≡◌, refl, sym, subst, ap, inl, inr, Bool, false, not, ◌&&◌, List, [],
  ◌∷◌, Memᴰ, Option, none, some, arith, All, All-map, Bool-cases, Option-cases, keep_if, length,
  ◌==◌, ==_iff, update_where, not-member-nil,
}
use odoo_custom.Prelude.Text.{Text}
use odoo_custom.Migration.Schema.{Job, Tenant, Db, JobRow}
use odoo_custom.Migration.Store.{
  find_tenant, is_claimable, candidates, earliest, job_row, set_running, update_job, claim_next_job,
}
use odoo_custom.Migration.Store.Claim.{earliest-none, earliest_lem, IsOpen, candidates_complete}

abbrev other_than : ℕ → Job × Tenant → Bool
other_than id x = not (x.0.id == id)

module _ {ℓ} {A : Type ℓ} (p : A → Bool) where
  length-keep_if-le : (xs : List A) → length (keep_if p xs) ≤ length xs
  unfolding keep_if
  length-keep_if-le [] = omega arith
  length-keep_if-le (x ∷ xs) = ground (arith, length-keep_if-le xs)

  length-keep_if-lt :
      (xs : List A) {x : A} → Memᴰ x xs → p x ≡ false → length (keep_if p xs) < length xs
  unfolding keep_if
  length-keep_if-lt [] m e = absurd (not-member-nil m)
  length-keep_if-lt (y ∷ ys) {x} (Memᴰ.head is) e =
      let here : p y ≡ false = rw (sym is) e in ground (arith, here, length-keep_if-le ys)
  length-keep_if-lt (y ∷ ys) (Memᴰ.tail m) e = ground (arith, length-keep_if-lt ys m e)

  All-of-keep_if {κ} :
      (P : A → Type κ) (xs : List A)
      → ((x : A) → p x ≡ false → P x)
      → All P (keep_if p xs)
      → All P xs
  unfolding keep_if
  All-of-keep_if P [] h a = tt
  All-of-keep_if P (x ∷ xs) h a = elim (Bool-cases (p x)) [
    | inl kept ↦ (let b = rw kept at a in (b.0, All-of-keep_if P xs h b.1))
    | inr gone ↦ (h x gone, All-of-keep_if P xs h (rw gone at a))
  ]

-- Behind a claim: whether it returned a row, and then the claims after it.
abbrev pub go_on : (Db → List ℕ × Db) → Option JobRow × Db → List ℕ × Db
go_on rest (none, db) = ([], db)
go_on rest (some row, db) = let (ids, db') = rest db in (row.id ∷ ids, db')

module _ (host : Text) (now : ℕ) (locked : ℕ → Bool) where
  running-shut : (j : Job) (t : Tenant) → is_claimable now (set_running host now j) t ≡ false
  unfolding is_claimable
  running-shut j t = refl

  -- A job that has been claimed is no longer a candidate, and all others still are.
  candidates-update_job :
      (id : ℕ) (ts : List Tenant) (js : List Job)
      → candidates now locked ts (update_where (λ j. j.id == id) (set_running host now) js)
        ≡ keep_if (other_than id) (candidates now locked ts js)
  unfolding candidates update_where keep_if
  candidates-update_job id ts [] = refl
  candidates-update_job id ts (j ∷ js) =
      let later = candidates-update_job id ts js in
      let shut = λ (t : Tenant). running-shut j t in
      elim (Option-cases (find_tenant j.tenant_id ts)) [
        | inl absent ↦ elim (Bool-cases (j.id == id)) [
          | inl hit ↦ ground (arith, absent, hit, later)
          | inr miss ↦ ground (arith, absent, miss, later)
        ]
        | inr (t, is) ↦ elim (Bool-cases (j.id == id)) [
          | inl hit ↦ elim (Bool-cases (is_claimable now j t && not (locked j.id))) [
            | inl open_still ↦ ground (arith, is, hit, open_still, shut t, later)
            | inr closed ↦ ground (arith, is, hit, closed, shut t, later)
          ]
          | inr miss ↦ elim (Bool-cases (is_claimable now j t && not (locked j.id))) [
            | inl open_still ↦ ground (arith, is, miss, open_still, later)
            | inr closed ↦ ground (arith, is, miss, closed, later)
          ]
        ]
      ]

  -- The identifiers that claims at one time return, one after the other, and the database behind them.
  unfoldable pub claims : ℕ → Db → List ℕ × Db
  claims zero db = ([], db)
  claims (suc n) db = go_on (λ db'. claims n db') (claim_next_job host now locked db)

  length-candidates-le :
      (ts : List Tenant) (js : List Job) → length (candidates now locked ts js) ≤ length js
  unfolding candidates
  length-candidates-le ts [] = omega arith
  length-candidates-le ts (j ∷ js) =
      let later = length-candidates-le ts js in
      elim (Option-cases (find_tenant j.tenant_id ts)) [
        | inl absent ↦ ground (arith, absent, later)
        | inr (t, is) ↦ ground (arith, is, later)
      ]

  abbrev waiting : Db → List (Job × Tenant)
  waiting db = candidates now locked db.tenants db.jobs

  -- Every candidate is claimed, and no candidate is left.
  abbrev Drained : List (Job × Tenant) → List ℕ × Db → Type 0
  Drained xs (ids, db') = All (λ x. Memᴰ x.0.id ids) xs × (waiting db' ≡ [])

  taken : Job → Db → Db
  taken j db = update_job j.id (set_running host now) db

  waiting-taken :
      (j : Job) (db : Db) → waiting (taken j db) ≡ keep_if (other_than j.id) (waiting db)
  unfolding taken update_job
  waiting-taken j db = candidates-update_job j.id db.tenants db.jobs

  add_taken :
      (x : Job × Tenant) (db : Db) (r : List ℕ × Db)
      → Drained (waiting (taken x.0 db)) r
      → Drained (waiting db) (x.0.id ∷ r.0, r.1)
  add_taken x db r (later, empty) = (
    All-of-keep_if (other_than x.0.id) (λ y. Memᴰ y.0.id (x.0.id ∷ r.0)) (waiting db)
        (λ y same. Memᴰ.head (ground (arith, same)))
        (All-map (λ (y : Job × Tenant). Memᴰ y.0.id r.0) (λ y. Memᴰ y.0.id (x.0.id ∷ r.0))
          (keep_if (other_than x.0.id) (waiting db)) (λ y m. Memᴰ.tail m)
          (subst (All (λ y. Memᴰ y.0.id r.0)) (waiting-taken x.0 db) later)),
    empty,
  )

  none_waiting : (xs : List (Job × Tenant)) → xs ≡ [] → All (λ x. Memᴰ x.0.id []) xs × (xs ≡ [])
  none_waiting [] e = (tt, e)
  none_waiting (x ∷ xs) e = absurd (ground (arith, e))

  none_left : (xs : List (Job × Tenant)) → length xs ≤ 0 → xs ≡ []
  none_left [] few = refl
  none_left (x ∷ xs) few = absurd (omega arith)

  claim-none :
      (db : Db) → earliest (waiting db) ≡ none → claim_next_job host now locked db ≡ (none, db)
  unfolding claim_next_job
  claim-none db absent = rw (absent, claim_next_job) refl

  claim-some :
      (x : Job × Tenant) (db : Db)
      → earliest (waiting db) ≡ some x
      → claim_next_job host now locked db ≡ (some (job_row x.0 x.1), taken x.0 db)
  unfolding claim_next_job taken
  claim-some x db is = rw (is, claim_next_job) refl

  claims-Drained : (n : ℕ) (db : Db) → length (waiting db) ≤ n → Drained (waiting db) (claims n db)
  unfolding claims
  claims-Drained zero db few = none_waiting (waiting db) (none_left (waiting db) few)
  claims-Drained (suc n) db few = elim (Option-cases (earliest (waiting db))) [
    | inl absent ↦
        let empty = earliest-none (waiting db) absent in
        subst (λ r. Drained (waiting db) (go_on (λ db'. claims n db') r))
          (sym (claim-none db absent)) (none_waiting (waiting db) empty)
    | inr (x, is) ↦
        let (member, _) = earliest_lem (waiting db) x is in
        let fewer =
          length-keep_if-lt (other_than x.0.id) (waiting db) member
            (rw ((==_iff x.0.id x.0.id).1 refl) refl) in
        subst (λ r. Drained (waiting db) (go_on (λ db'. claims n db') r)) (sym (claim-some x db is))
          (add_taken x db (claims n (taken x.0 db))
            (claims-Drained n (taken x.0 db) (rw (waiting-taken x.0 db) (omega arith))))
  ]

  -- As many claims at one time as the table has jobs return every job that can be taken, as long as
  -- nothing else writes to the queue, and the next claim returns nothing.
  pub claims-IsOpen :
      (db : Db)
      → let (ids, db') = claims (length db.jobs) db in
        All (λ k. IsOpen now locked db.tenants k → Memᴰ k.id ids) db.jobs
        × (claim_next_job host now locked db' ≡ (none, db'))
  unfolding earliest
  claims-IsOpen db =
      let n = length db.jobs in
      let (every, empty) = claims-Drained n db (length-candidates-le db.tenants db.jobs) in
      (
        candidates_complete (λ k. Memᴰ k.id (claims n db).0) now locked db.tenants db.jobs every,
        claim-none (claims n db).1 (ap earliest empty),
      )
