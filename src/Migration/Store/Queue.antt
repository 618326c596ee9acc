-- ===== src/Migration/Store/Queue.antt =====
-- The queue as infra/runners/migration_runner/db.py keeps it: which job the claim takes, and which
-- jobs a claim leaves alone after another transaction has written them.
use odoo_custom.Prelude.{
  ℕ, ◌+◌, ◌*◌, ◌<◌, ◌≡◌, ◌≢◌, refl, sym, subst, ap, ◌∙◌, inl, inr, Bool, false, Memᴰ, Option, none,
  some, arith, All, All-member, All-of-each, All-update_where, Option-cases, find?-holds,
}
use odoo_custom.Prelude.Text.{Text}
use odoo_custom.Migration.Schema.{paused, Job, Tenant, Db, JobRow}
use odoo_custom.Migration.Store.{
  find_tenant, candidates, earliest, job_row, set_running, update_job, update_tenant,
  claim_next_job, Failure, set_paused, set_failed, transition_to_blocked, retry_transient,
  finalize_failed, second,
}
use odoo_custom.Migration.Store.Claim.{
  IsClaimable, Precedes, is_claimable_iff, earliest-none, earliest_lem, candidates_sound, IsOpen,
  candidates_complete,
}

-- What a claim that returns a row has done: the row is that of a job of the table which could be
-- taken, and which precedes every job that could be taken; the job is running, under this host.
pub record IsNext (host : Text) (now : ℕ) (locked : ℕ → Bool) (db : Db) (row : JobRow) (db' : Db)
    : Type 0 where
  pub job : Job
  pub tenant : Tenant
  pub listed : Memᴰ job db.jobs
  pub owner : find_tenant job.tenant_id db.tenants ≡ some tenant
  pub claimable : IsClaimable now job tenant
  pub free : locked job.id ≡ false
  pub first : All (λ k. IsOpen now locked db.tenants k → Precedes job k) db.jobs
  pub row_of : row ≡ job_row job tenant
  pub after : db' ≡ update_job job.id (set_running host now) db

abbrev pub Claims : Text → ℕ → (ℕ → Bool) → Db → Option JobRow × Db → Type 0
Claims host now locked db (none, db') =
    (db' ≡ db) × All (λ k. ¬ IsOpen now locked db.tenants k) db.jobs
Claims host now locked db (some row, db') = IsNext host now locked db row db'

-- The claim takes the first of the jobs that can be taken and marks it as running, and it returns
-- nothing and changes nothing exactly when no job can be taken.
pub claim_next_job-Claims :
    (host : Text) (now : ℕ) (locked : ℕ → Bool) (db : Db)
    → Claims host now locked db (claim_next_job host now locked db)
unfolding claim_next_job
claim_next_job-Claims host now locked db =
    elim (Option-cases (earliest (candidates now locked db.tenants db.jobs))) [
      | inl absent ↦
          rw (absent, claim_next_job)
            (
              refl,
              candidates_complete (λ _. ⊥) now locked db.tenants db.jobs
                  (rw (earliest-none _ absent) tt),
            )
      | inr (x, found) ↦
          let (member, first) = earliest_lem _ x found in
          let r = candidates_sound now locked db.tenants db.jobs x member in
          rw (found, claim_next_job)
            (record {
              job = x.0;
              tenant = x.1;
              listed = r.0;
              owner = r.1;
              claimable = (is_claimable_iff now x.0 x.1).0 r.2;
              free = r.3;
              first = candidates_complete (Precedes x.0) now locked db.tenants db.jobs first;
              row_of = refl;
              after = refl;
            })
    ]

-- What a claim that returns `row` has done.
pub claimed :
    (host : Text) (now : ℕ) (locked : ℕ → Bool) (db : Db) {row : JobRow} {db' : Db}
    → claim_next_job host now locked db ≡ (some row, db')
    → IsNext host now locked db row db'
claimed host now locked db e =
    subst (Claims host now locked db) e (claim_next_job-Claims host now locked db)

-- If no job named `k` can be taken, the claim does not take `k`.
pub claim-ne :
    (host : Text) (now : ℕ) (locked : ℕ → Bool) (db : Db) (k : ℕ) {row : JobRow} {db' : Db}
    → All (λ j. (t : Tenant) → j.id ≡ k → ¬ IsClaimable now j t) db.jobs
    → claim_next_job host now locked db ≡ (some row, db')
    → row.id ≢ k
claim-ne host now locked db k {row} shut e same =
    let n = claimed host now locked db e in
    All-member _ db.jobs n.listed shut n.tenant (sym (ap (λ (r : JobRow). r.id) n.row_of) ∙ same)
      n.claimable

-- After an UPDATE of job `k`: what the assignments make of a row named `k`, and every other row.
pub All-update_job {ℓ} :
    (P : Job → Type ℓ) (k : ℕ) (set : Job → Job) (db : Db)
    → ((j : Job) → j.id ≡ k → P (set j))
    → ((j : Job) → j.id ≢ k → P j)
    → All P (update_job k set db).jobs
unfolding update_job
All-update_job P k set db hit miss =
    All-update_where (λ _. Unit {0}) P _ set db.jobs (λ j e _. hit j (ground arith))
      (λ j e _. miss j (ground arith)) (All-of-each _ db.jobs (λ _. tt))

-- An UPDATE that makes each row named `k` unclaimable keeps the next claim from taking `k`.
pub update_job-unclaimed :
    (host : Text) (now : ℕ) (locked : ℕ → Bool) (db : Db) (k : ℕ) (set : Job → Job) {row : JobRow}
    {db' : Db}
    → ((j : Job) (t : Tenant) → ¬ IsClaimable now (set j) t)
    → claim_next_job host now locked (update_job k set db) ≡ (some row, db')
    → row.id ≢ k
update_job-unclaimed host now locked db k set shut e =
    claim-ne host now locked (update_job k set db) k
      (All-update_job _ k set db (λ j _ t _. shut j t) (λ j other t same. absurd (other same))) e

-- Two claims, one after the other, never return the same job, whichever processes make them and
-- whatever rows others lock.
pub claim-claim-ne :
    (host host' : Text) (now now' : ℕ) (locked locked' : ℕ → Bool) (db : Db) {row row' : JobRow}
    {db' db'' : Db}
    → claim_next_job host now locked db ≡ (some row, db')
    → claim_next_job host' now' locked' db' ≡ (some row', db'')
    → row'.id ≢ row.id
claim-claim-ne host host' now now' locked locked' db {row} {row'} {db'} {db''} e e' =
    let n = claimed host now locked db e in
    let named = ap (λ (r : JobRow). r.id) n.row_of in
    let again = subst (λ d. claim_next_job host' now' locked' d ≡ (some row', db'')) n.after e' in
    λ same.
      update_job-unclaimed host' now' locked' db n.job.id (set_running host now)
        (λ j t c. ground (arith, c.0)) again (same ∙ named)

-- A job that was blocked until `until` is not taken before that time.
pub claim-transition_to_blocked :
    (host : Text) (now until : ℕ) (locked : ℕ → Bool) (db : Db) (k : ℕ) {row : JobRow} {db' : Db}
    → now < until
    → claim_next_job host now locked (transition_to_blocked k (some until) db) ≡ (some row, db')
    → row.id ≢ k
unfolding transition_to_blocked
claim-transition_to_blocked host now until locked db k early e =
    update_job-unclaimed host now locked db k _
      (λ j t c. elim c.0 [ inl e' ↦ cc | inr r ↦ let due = r.1 until refl in omega arith ]) e

-- A job that was put back for a retry is not taken before its backoff has passed.
pub claim-retry_transient :
    (host : Text) (now put_at backoff_seconds : ℕ) (excerpt : Text) (locked : ℕ → Bool) (db : Db)
    (k : ℕ) {row : JobRow} {db' : Db}
    → now < put_at + backoff_seconds * second
    → claim_next_job host now locked (retry_transient put_at k backoff_seconds excerpt db)
      ≡ (some row, db')
    → row.id ≢ k
unfolding retry_transient
claim-retry_transient host now put_at backoff_seconds excerpt locked db k early e =
    update_job-unclaimed host now locked db k _ (λ j t c. let due = c.2 in omega arith) e

update_tenant-paused :
    (tid now : ℕ) (db : Db)
    → All
        (λ (t : Tenant). t.id ≡ tid → t.wave ≡ some paused)
        (update_tenant tid (set_paused now) db).tenants
unfolding update_tenant
update_tenant-paused tid now db =
    All-update_where (λ _. Unit {0}) _ _ _ db.tenants (λ t e _ same. refl)
      (λ t e _ same. absurd (ground arith)) (All-of-each _ db.tenants (λ _. tt))

-- Once a job of a tenant has failed, no job of that tenant is taken: the tenant is paused.
pub claim-finalize_failed :
    (host : Text) (now failed_at : ℕ) (status : Failure) (excerpt : Text) (locked : ℕ → Bool)
    (db : Db) (k tid : ℕ) {row : JobRow} {db' : Db}
    → claim_next_job host now locked (finalize_failed failed_at k tid status excerpt db)
      ≡ (some row, db')
    → row.tenant_id ≢ tid
unfolding finalize_failed
claim-finalize_failed host now failed_at status excerpt locked db k tid e same =
    let db₁ = update_job k (set_failed failed_at status excerpt) db in
    let n = claimed host now locked (update_tenant tid (set_paused failed_at) db₁) e in
    let (matches, member) = find?-holds _ _ n.owner in
    let owned = sym (ap (λ (r : JobRow). r.tenant_id) n.row_of) ∙ same in
    let stopped =
      All-member _ _ member (update_tenant-paused tid failed_at db₁) (ground (arith, owned)) in
    n.claimable.1 stopped
