-- ===== src/Agents/Sweep/Ripe.antt =====
-- Which drafts the sweep of agents/agents/spec_generator/core.py confirms.
use odoo_custom.Prelude.{
  ℕ, ◌+◌, ◌≤◌, ◌≡◌, ◌≢◌, ◌⊎◌, refl, sym, ◌∙◌, inl, inr, Bool, true, false, ◌&&◌, List, [], ◌∷◌,
  ◌++◌, Option, none, some, arith, All, All-map, Memᴰ, Bool-cases, if-holds, if◌then◌else◌, ltb,
  ◌==◌,
}
use odoo_custom.Prelude.Text.{Text, codes}
use odoo_custom.Prelude.Split.{contains}
use odoo_custom.Agents.Intake.{member}
use odoo_custom.Agents.Sweep.{
  Candidate, Decision, already_confirmed, no_updated_at, too_young, needs_clarification_marker,
  confirm, Effect, add_label, remove_label, comment, Sweep, day, decide_at, decide_sweep, target,
  labelled, confirm_candidate, Summary, decided, and_then, handle_candidate, sweep,
}

-- The draft is not confirmed yet, was last updated a day ago or earlier, and has no open question.
pub record IsRipe (now : ℕ) (c : Candidate) : Type 0 where
  pub unconfirmed : member (codes "intent-confirmed") c.labels ≡ false
  pub updated_at : ℕ
  pub updated : c.updated_at ≡ some updated_at
  pub silent : updated_at + day ≤ now
  pub clear : contains (codes "[NEEDS CLARIFICATION]") c.spec_body ≡ false

decide_at-IsRipe :
    (now : ℕ) (c : Candidate) (o : Option ℕ)
    → member (codes "intent-confirmed") c.labels ≡ false
    → c.updated_at ≡ o
    → decide_at now c o ≡ confirm
    → IsRipe now c
decide_at-IsRipe now c none fresh is e = absurd (cc)
decide_at-IsRipe now c (some u) fresh is e = elim (Bool-cases (ltb now (u + day))) [
  | inl young ↦ absurd (ground (arith, young, e))
  | inr old ↦ elim (Bool-cases (contains (codes "[NEEDS CLARIFICATION]") c.spec_body)) [
    | inl marked ↦ absurd (ground (arith, old, marked, e))
    | inr clear ↦ record {
      unconfirmed = fresh;
      updated_at = u;
      updated = is;
      silent = ground (arith, old);
      clear = clear;
    }
  ]
]

decide_sweep-IsRipe : (now : ℕ) (c : Candidate) → decide_sweep now c ≡ confirm → IsRipe now c
unfolding decide_sweep
decide_sweep-IsRipe now c e = elim (Bool-cases (member (codes "intent-confirmed") c.labels)) [
  | inl done ↦ absurd (ground (arith, done, e))
  | inr fresh ↦ decide_at-IsRipe now c c.updated_at fresh refl (rw fresh at e)
]

IsRipe-decide_sweep : (now : ℕ) (c : Candidate) → IsRipe now c → decide_sweep now c ≡ confirm
unfolding decide_sweep
IsRipe-decide_sweep now c r =
    let fresh = r.unconfirmed in
    let is = r.updated in
    let silent = r.silent in
    let clear = r.clear in
    let old : ltb now (r.updated_at + day) ≡ false = ground arith in rw (fresh, is, old, clear) refl

module _ (w : Sweep) where
  -- The call is made for the candidate: its label, the removal of a stale label that it has, or the
  -- comment on its issue.
  abbrev pub IsCall : Candidate → Effect → Type 0
  IsCall c e =
      (e ≡ add_label (target c) (codes "intent-confirmed"))
      ⊎ ((e ≡ remove_label (target c) (codes "awaiting-reporter-confirm"))
          × (member (codes "awaiting-reporter-confirm") c.labels ≡ true))
      ⊎ ((e ≡ remove_label (target c) (codes "awaiting-reporter-reconfirm"))
          × (member (codes "awaiting-reporter-reconfirm") c.labels ≡ true))
      ⊎ ((e ≡ comment c.issue_number) × (c.issue_number ≢ 0))

  -- The candidate got its label, lost each stale label that it had, and its issue got the comment.
  pub record Confirms (c : Candidate) (es : List Effect) : Type 0 where
    pub is_labelled : Memᴰ (add_label (target c) (codes "intent-confirmed")) es
    pub is_unmarked :
        member (codes "awaiting-reporter-confirm") c.labels ≡ true
        → Memᴰ (remove_label (target c) (codes "awaiting-reporter-confirm")) es
    pub is_unmarked_again :
        member (codes "awaiting-reporter-reconfirm") c.labels ≡ true
        → Memᴰ (remove_label (target c) (codes "awaiting-reporter-reconfirm")) es
    pub is_told : c.issue_number ≢ 0 → Memᴰ (comment c.issue_number) es

  -- The call is one of those for a ripe candidate of the list.
  abbrev pub IsFor : List Candidate → Effect → Type 0
  IsFor cs e = (c : Candidate) × Memᴰ c cs × IsRipe w.now c × IsCall c e

  -- Nothing is called where the sweep does not act, else only for ripe candidates; and if no call
  -- raised, every ripe candidate got all its calls and is listed as confirmed.
  abbrev pub Sweeps : List Candidate → Summary → Type 0
  Sweeps cs s =
      All (IsFor cs) s.effects
      × (w.act && w.has_issues ≡ false → s.effects ≡ [])
      × (w.act && w.has_issues ≡ true
          → s.raised ≡ false
          → All (λ c. IsRipe w.now c → Confirms c s.effects × Memᴰ (target c) s.confirmed) cs)

  member-append_left : {A : Type 0} {x : A} (xs ys : List A) → Memᴰ x xs → Memᴰ x (xs ++ ys)
  member-append_left [] ys m = elim m [ ]
  member-append_left (y ∷ xs) ys (Memᴰ.head e) = Memᴰ.head e
  member-append_left (y ∷ xs) ys (Memᴰ.tail m) = Memᴰ.tail (member-append_left xs ys m)

  All-append :
      {A : Type 0} (P : A → Type 0) (xs ys : List A) → All P xs → All P ys → All P (xs ++ ys)
  All-append P [] ys a b = b
  All-append P (x ∷ xs) ys a b = (a.0, All-append P xs ys a.1 b)

  All-members : {A : Type 0} (P : A → Type 0) (xs : List A) → ((x : A) → Memᴰ x xs → P x) → All P xs
  All-members P [] h = tt
  All-members P (x ∷ xs) h = (h x (Memᴰ.head refl), All-members P xs (λ y m. h y (Memᴰ.tail m)))

  later-IsFor :
      (c : Candidate) (cs : List Candidate) (es : List Effect)
      → All (IsFor cs) es
      → All (IsFor (c ∷ cs)) es
  later-IsFor c cs es =
      All-map (IsFor cs) (IsFor (c ∷ cs)) es (λ e (d, m, r, i). (d, Memᴰ.tail m, r, i))

  member-append_right : {A : Type 0} {x : A} (xs ys : List A) → Memᴰ x ys → Memᴰ x (xs ++ ys)
  member-append_right [] ys m = m
  member-append_right (y ∷ xs) ys m = Memᴰ.tail (member-append_right xs ys m)

  Confirms-mono :
      (c : Candidate) (es fs : List Effect)
      → ((e : Effect) → Memᴰ e es → Memᴰ e fs)
      → Confirms c es
      → Confirms c fs
  Confirms-mono c es fs more h = record {
    is_labelled = more _ h.is_labelled;
    is_unmarked = λ e. more _ (h.is_unmarked e);
    is_unmarked_again = λ e. more _ (h.is_unmarked_again e);
    is_told = λ e. more _ (h.is_told e);
  }

  -- The removal of one stale label.
  removal-IsCall :
      (c : Candidate) (label : Text) (b : Bool)
      → (b ≡ true → IsCall c (remove_label (target c) label))
      → All (IsCall c) (if b then remove_label (target c) label ∷ [] else [])
  removal-IsCall c label true h = (h refl, tt)
  removal-IsCall c label false h = tt

  removal_there :
      (n : ℕ) (label : Text) (b : Bool)
      → b ≡ true
      → Memᴰ (remove_label n label) (if b then remove_label n label ∷ [] else [])
  removal_there n label true e = Memᴰ.head refl
  removal_there n label false e = absurd (cc)

  labelled-IsCall : (c : Candidate) → All (IsCall c) (labelled c)
  labelled-IsCall c = (
    inl refl,
    All-append (IsCall c) _ _
        (removal-IsCall c (codes "awaiting-reporter-confirm") _ (λ e. inr (inl (refl, e))))
        (removal-IsCall c (codes "awaiting-reporter-reconfirm") _ (λ e. inr (inr (inl (refl, e))))),
  )

  labelled-Confirms :
      (c : Candidate) (es : List Effect)
      → (c.issue_number ≢ 0 → Memᴰ (comment c.issue_number) es)
      → Confirms c (labelled c ++ es)
  labelled-Confirms c es told = record {
    is_labelled = Memᴰ.head refl;
    is_unmarked = λ e.
        member-append_left (labelled c) es
          (Memᴰ.tail (member-append_left _ _ (removal_there (target c) _ _ e)));
    is_unmarked_again = λ e.
        member-append_left (labelled c) es
          (Memᴰ.tail (member-append_right _ _ (removal_there (target c) _ _ e)));
    is_told = λ e. member-append_right (labelled c) es (told e);
  }

  -- The calls for one candidate, which are all there unless one raised.
  Handles : Candidate → List Effect × Bool → Type 0
  Handles c x = All (IsCall c) x.0 × (x.1 ≡ false → Confirms c x.0)

  confirm_candidate-Handles : (c : Candidate) → Handles c (confirm_candidate w c)
  unfolding Handles
  confirm_candidate-Handles c =
      let last = comment c.issue_number ∷ [] in
      if-holds (Handles c) (w.raises (add_label (target c) (codes "intent-confirmed"))) _ _
        (λ e. (tt, (λ calm. absurd (cc))))
        (λ e.
          if-holds (Handles c) (c.issue_number == 0) _ _
            (λ z. (
              labelled-IsCall c,
              (λ calm.
                  Confirms-mono c (labelled c ++ []) (labelled c) (λ d m. unappend _ m)
                    (labelled-Confirms c [] (λ other. absurd (other (ground arith))))),
            ))
            (λ z.
              if-holds (Handles c) (w.raises (comment c.issue_number)) _ _
                (λ r. (labelled-IsCall c, (λ calm. absurd (cc))))
                (λ r. (
                  All-append (IsCall c) (labelled c) last (labelled-IsCall c)
                      (inr (inr (inr (refl, (λ zero. ground arith)))), tt),
                  (λ calm. labelled-Confirms c last (λ other. Memᴰ.head refl)),
                ))))
    where
      unappend : {A : Type 0} {x : A} (xs : List A) → Memᴰ x (xs ++ []) → Memᴰ x xs
      unappend [] m = elim m [ ]
      unappend (y ∷ xs) (Memᴰ.head e) = Memᴰ.head e
      unappend (y ∷ xs) (Memᴰ.tail m) = Memᴰ.tail (unappend xs m)

  confirm_candidate-IsFor :
      (c : Candidate) (cs : List Candidate)
      → IsRipe w.now c
      → All (IsFor (c ∷ cs)) (confirm_candidate w c).0
  unfolding Handles
  confirm_candidate-IsFor c cs ripe =
      All-map (IsCall c) (IsFor (c ∷ cs)) (confirm_candidate w c).0
        (λ e i. (c, Memᴰ.head refl, ripe, i)) (confirm_candidate-Handles c).0

  -- A candidate is confirmed by the effects and is listed.
  abbrev IsDone : List Effect → List ℕ → Candidate → Type 0
  IsDone es xs c = IsRipe w.now c → Confirms c es × Memᴰ (target c) xs

  confirmed_later :
      (n : ℕ) (cs : List Candidate) (es fs : List Effect) (xs : List ℕ)
      → All (IsDone es xs) cs
      → All (IsDone (fs ++ es) (n ∷ xs)) cs
  confirmed_later n cs es fs xs = All-map (IsDone es xs) (IsDone (fs ++ es) (n ∷ xs)) cs (λ d h r.
      let (calls, listed) = h r in
      (Confirms-mono d es (fs ++ es) (λ e m. member-append_right fs es m) calls, Memᴰ.tail listed))

  and_then-Sweeps :
      (c : Candidate) (cs : List Candidate) (x : List Effect × Bool) (rest : Summary)
      → w.act && w.has_issues ≡ true
      → All (IsFor (c ∷ cs)) x.0
      → (x.1 ≡ false → Confirms c x.0)
      → Sweeps cs rest
      → Sweeps (c ∷ cs) (and_then c x rest)
  and_then-Sweeps c cs (effects, true) rest on all calls s =
      (all, (λ off. absurd (cc)), (λ on' calm. absurd (cc)))
  and_then-Sweeps c cs (effects, false) rest on all calls s = (
    All-append (IsFor (c ∷ cs)) effects rest.effects all (later-IsFor c cs rest.effects s.0),
    (λ off. absurd (cc)),
    (λ on' calm. (
      (λ ripe. (
        Confirms-mono c effects (effects ++ rest.effects)
            (λ e m. member-append_left effects rest.effects m) (calls refl),
        Memᴰ.head refl,
      )),
      confirmed_later (target c) cs rest.effects effects rest.confirmed (s.2 on' calm),
    )),
  )

  -- A candidate that is not ripe.
  decided-Sweeps :
      (c : Candidate) (cs : List Candidate) (d : Decision) (rest : Summary)
      → ¬ IsRipe w.now c
      → Sweeps cs rest
      → Sweeps (c ∷ cs) (decided d rest)
  decided-Sweeps c cs d rest unripe s = (
    later-IsFor c cs rest.effects s.0,
    s.1,
    (λ on calm. ((λ ripe. absurd (unripe ripe)), s.2 on calm)),
  )

  unripe :
      (c : Candidate) (d : Decision) → decide_sweep w.now c ≡ d → d ≢ confirm → ¬ IsRipe w.now c
  unripe c d is other ripe = other (sym is ∙ IsRipe-decide_sweep w.now c ripe)

  handle_candidate-Sweeps :
      (c : Candidate) (cs : List Candidate) (d : Decision) (rest : Summary)
      → decide_sweep w.now c ≡ d
      → Sweeps cs rest
      → Sweeps (c ∷ cs) (handle_candidate w c d rest)
  handle_candidate-Sweeps c cs confirm rest is s =
      if-holds (Sweeps (c ∷ cs)) (w.act && w.has_issues) _ _
        (λ on.
          and_then-Sweeps c cs (confirm_candidate w c) rest on
            (confirm_candidate-IsFor c cs (decide_sweep-IsRipe w.now c is))
            (unfold Handles in (confirm_candidate-Handles c).1) s)
        (λ off. (later-IsFor c cs rest.effects s.0, s.1, (λ on calm. absurd (cc))))
  handle_candidate-Sweeps c cs already_confirmed rest is s =
      decided-Sweeps c cs already_confirmed rest (unripe c already_confirmed is (λ e. absurd (cc)))
        s
  handle_candidate-Sweeps c cs no_updated_at rest is s =
      decided-Sweeps c cs no_updated_at rest (unripe c no_updated_at is (λ e. absurd (cc))) s
  handle_candidate-Sweeps c cs too_young rest is s =
      decided-Sweeps c cs too_young rest (unripe c too_young is (λ e. absurd (cc))) s
  handle_candidate-Sweeps c cs needs_clarification_marker rest is s =
      decided-Sweeps c cs needs_clarification_marker rest
        (unripe c needs_clarification_marker is (λ e. absurd (cc))) s

  -- A sweep that does not act, or has no issue tracker, calls nothing; otherwise every call is the
  -- label, the removal of a stale label or the comment for a candidate that is not confirmed yet, was
  -- last updated at least a day ago and has no open question. If no call but a removal of a label
  -- raised, every such candidate is listed as confirmed and got the label intent-confirmed, the removal
  -- of each stale label that it has, and the comment on its issue where it has one.
  pub sweep-Sweeps : (cs : List Candidate) → Sweeps cs (sweep w cs)
  unfolding sweep
  sweep-Sweeps [] = (tt, (λ off. refl), (λ on calm. tt))
  sweep-Sweeps (c ∷ cs) =
      handle_candidate-Sweeps c cs (decide_sweep w.now c) (sweep w cs) refl (sweep-Sweeps cs)
