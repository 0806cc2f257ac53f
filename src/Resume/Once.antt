-- ===== src/Resume/Once.antt =====
-- services/queue_resume.py and state/queue.py: every entry resumes an earlier one, and no two resume the
-- same one.
use draw_things_control.Prelude.{
  ℕ, Bool, true, false, ◌≡◌, refl, ap, sym, ◌∙◌, String, Option, none, some, List, [], ◌∷◌, ◌++◌,
  arith, ◌==◌, All, All-append, Option-cases, Bool-cases, inl, inr, any, leb, if_ind, not,
  if◌then◌else◌,
}
use mathlib.Core.Path.{subst}
use draw_things_control.Errors.{ok, Result-cases}
use draw_things_control.Json.{Codec}
use draw_things_control.Queue.Rows
use draw_things_control.Queue.Rows.{
  QueueRow, Table, update, select, NewQueueEntry, set_running, set_finished, set_cancelled,
  set_requeued, ordered, insert_ordered,
}
use draw_things_control.Queue.Rows.Invariant.{
  Op, step, IsWellFormed, IsConsistent, submits, claims, links, finishes, sets_error, cancels,
  requeues, prunes,
}
use draw_things_control.Resume.Handoff.{JobDefinition}
use draw_things_control.Resume.Entry.{
  Env, Store, ResumeChain, resume_entry, BeforeSubmit, submit_directly, resumed_by_some_entry,
  resumes_number, checked_point,
}
use draw_things_control.Resume.Accepted.{
  new_resume, accepted_inversion, refused_resume, new_resume-fields,
}
use draw_things_control.Resume.Links.{Below, LinksDown}

abbrev shares : Option ℕ → Option ℕ → Bool
shares (some a) (some b) = a == b
shares _ _ = false

abbrev Unshared : Option ℕ → List QueueRow → Type 0
Unshared o rows = All (λ (r : QueueRow). shares r.resumes o ≡ false) rows

abbrev IsOnce : List QueueRow → Type 0
IsOnce [] = Unit
IsOnce (r ∷ rows) = Unshared r.resumes rows × IsOnce rows

pub record IsLinked (t : Table) : Type 0 where
  pub down : LinksDown t
  pub once : IsOnce t.rows

-- A change of a row that is not one of its links.
abbrev KeepsLinks : (QueueRow → QueueRow) → Type 0
KeepsLinks f = (r : QueueRow) → ((f r).queue_number ≡ r.queue_number) × ((f r).resumes ≡ r.resumes)

module _ (f : QueueRow → QueueRow) (i : ℕ) (keeps : KeepsLinks f) where
  Unshared-update :
      (o : Option ℕ) (rows : List QueueRow) → Unshared o rows → Unshared o (update f i rows)
  unfolding update
  Unshared-update o [] h = tt
  Unshared-update o (r ∷ rows) h = (
    if_ind (λ (q : QueueRow). shares q.resumes o ≡ false) (r.id == i) (f r) r
        (λ _. ap (λ x. shares x o) (keeps r).1 ∙ h.0) (λ _. h.0),
    Unshared-update o rows h.1,
  )

  IsOnce-update : (rows : List QueueRow) → IsOnce rows → IsOnce (update f i rows)
  unfolding update
  IsOnce-update [] h = tt
  IsOnce-update (r ∷ rows) h = (
    if_ind (λ (q : QueueRow). Unshared q.resumes (update f i rows)) (r.id == i) (f r) r
        (λ _.
          subst (λ o. Unshared o (update f i rows)) (sym (keeps r).1)
            (Unshared-update r.resumes rows h.0))
        (λ _. Unshared-update r.resumes rows h.0),
    IsOnce-update rows h.1,
  )

  down-update :
      (rows : List QueueRow)
      → All (λ (r : QueueRow). Below r.resumes r.queue_number) rows
      → All (λ (r : QueueRow). Below r.resumes r.queue_number) (update f i rows)
  unfolding update
  down-update [] h = tt
  down-update (r ∷ rows) h = (
    if_ind (λ (q : QueueRow). Below q.resumes q.queue_number) (r.id == i) (f r) r
        (λ _.
          subst (λ o. Below o (f r).queue_number) (sym (keeps r).1)
            (subst (λ n. Below r.resumes n) (sym (keeps r).0) h.0))
        (λ _. h.0),
    down-update rows h.1,
  )

  update-IsLinked : (t : Table) → IsLinked t → IsLinked (record t { rows = update f i t.rows })
  update-IsLinked t h = record {
    down = down-update t.rows h.down;
    once = IsOnce-update t.rows h.once;
  }

module _ (p : QueueRow → Bool) where
  All-kept {κ} : (P : QueueRow → Type κ) (rows : List QueueRow) → All P rows → All P (select p rows)
  unfolding select
  All-kept P [] h = tt
  All-kept P (r ∷ rows) h =
      if_ind (All P) (p r) (r ∷ select p rows) (select p rows) (λ _. (h.0, All-kept P rows h.1))
        (λ _. All-kept P rows h.1)

  IsOnce-kept : (rows : List QueueRow) → IsOnce rows → IsOnce (select p rows)
  unfolding select
  IsOnce-kept [] h = tt
  IsOnce-kept (r ∷ rows) h =
      if_ind IsOnce (p r) (r ∷ select p rows) (select p rows)
        (λ _. (
          All-kept (λ (q : QueueRow). shares q.resumes r.resumes ≡ false) rows h.0,
          IsOnce-kept rows h.1,
        ))
        (λ _. IsOnce-kept rows h.1)

shares_sym : (a b : Option ℕ) → shares a b ≡ false → shares b a ≡ false
shares_sym none none h = refl
shares_sym none (some b) h = refl
shares_sym (some a) none h = refl
shares_sym (some a) (some b) h = ground arith

IsOnce-snoc :
    (rows : List QueueRow) (r : QueueRow)
    → IsOnce rows
    → Unshared r.resumes rows
    → IsOnce (rows ++ r ∷ [])
IsOnce-snoc [] r h k = (tt, tt)
IsOnce-snoc (q ∷ rows) r h k = (
  All-append (λ (x : QueueRow). shares x.resumes q.resumes ≡ false) rows (r ∷ []) h.0
      (shares_sym q.resumes r.resumes k.0, tt),
  IsOnce-snoc rows r h.1 k.1,
)

-- A new last row that resumes an entry with a given number, which no other row resumes, or none.
snoc-IsLinked :
    (t t' : Table) (r : QueueRow)
    → IsLinked t
    → t'.rows ≡ t.rows ++ r ∷ []
    → Below r.resumes r.queue_number
    → Unshared r.resumes t.rows
    → IsLinked t'
snoc-IsLinked t t' r h e below unshared = record {
  down =
      subst (λ rows. All (λ (q : QueueRow). Below q.resumes q.queue_number) rows) (sym e)
        (All-append (λ (q : QueueRow). Below q.resumes q.queue_number) t.rows (r ∷ []) h.down
          (below, tt));
  once = subst IsOnce (sym e) (IsOnce-snoc t.rows r h.once unshared);
}

Unshared-none : (rows : List QueueRow) → Unshared none rows
Unshared-none [] = tt
Unshared-none (r ∷ rows) = (
  elim (Option-cases r.resumes) [ inl e ↦ ground (arith, e) | inr (k, e) ↦ ground (arith, e) ],
  Unshared-none rows,
)

All-of-inserted {κ} :
    (P : QueueRow → Type κ) (r : QueueRow) (rows : List QueueRow)
    → All P (insert_ordered r rows)
    → P r × All P rows
unfolding insert_ordered
All-of-inserted P r [] h = (h.0, tt)
All-of-inserted P r (q ∷ rows) h = elim (Bool-cases (leb r.queue_number q.queue_number)) [
  | inl e ↦
      let h' : All P (r ∷ q ∷ rows) =
        subst (λ b. All P (if b then r ∷ q ∷ rows else q ∷ insert_ordered r rows)) e h in
      (h'.0, h'.1)
  | inr e ↦
      let h' : All P (q ∷ insert_ordered r rows) =
        subst (λ b. All P (if b then r ∷ q ∷ rows else q ∷ insert_ordered r rows)) e h in
      let rest = All-of-inserted P r rows h'.1 in (rest.0, (h'.0, rest.1))
]

All-of-ordered {κ} :
    (P : QueueRow → Type κ) (rows : List QueueRow) → All P (ordered rows) → All P rows
unfolding ordered
All-of-ordered P [] h = tt
All-of-ordered P (r ∷ rows) h =
    let both = All-of-inserted P r (ordered rows) h in (both.0, All-of-ordered P rows both.1)

select_all : (rows : List QueueRow) → select (λ _. true) rows ≡ rows
unfolding select
select_all [] = refl
select_all (r ∷ rows) = ap (λ xs. r ∷ xs) (select_all rows)

none_resumes :
    (n : ℕ) (rows : List QueueRow) → any (resumes_number n) rows ≡ false → Unshared (some n) rows
none_resumes n [] h = tt
none_resumes n (r ∷ rows) h = (
  elim (Option-cases r.resumes) [ inl e ↦ ground (arith, e) | inr (k, e) ↦ ground (arith, e) ],
  none_resumes n rows (ground arith),
)

unresumed : (t : Table) (n : ℕ) → resumed_by_some_entry t n ≡ false → Unshared (some n) t.rows
unfolding resumed_by_some_entry Rows.list
unresumed t n h = subst (Unshared (some n)) (select_all t.rows) (
    All-of-ordered (λ (r : QueueRow). shares r.resumes (some n) ≡ false) (select (λ _. true) t.rows)
      (none_resumes n (ordered (select (λ _. true) t.rows)) h))

checked_point-unresumed :
    (env : Env) (caller : Option String) (store : Store) (r : QueueRow)
    (p : ResumeChain × JobDefinition)
    → checked_point env caller store r ≡ ok p
    → resumed_by_some_entry store.queue r.queue_number ≡ false
unfolding checked_point
checked_point-unresumed env caller store r p h = ground arith

All-find_row {κ} :
    (P : QueueRow → Type κ) (i : ℕ) (rows : List QueueRow) (r : QueueRow)
    → All P rows
    → Rows.find_row i rows ≡ some r
    → P r
unfolding Rows.find_row
All-find_row P i [] r all h = cc
All-find_row P i (q ∷ rows) r all h = elim (Bool-cases (q.id == i)) [
  | inl e ↦ subst P (ground arith) all.0
  | inr e ↦ All-find_row P i rows r all.1 (ground arith)
]

resume_entry-IsLinked :
    (env : Env) (before : BeforeSubmit) (caller : Option String) (now : String) (i : ℕ)
    (store : Store)
    → IsWellFormed store.queue
    → IsLinked store.queue
    → IsLinked (resume_entry env before submit_directly caller now i store).1
resume_entry-IsLinked env before caller now i store w linked =
    elim (Result-cases (resume_entry env before submit_directly caller now i store).0) [
      | inr (failure, e) ↦
          subst IsLinked (sym (refused_resume env before caller now i store failure e)) linked
      | inl (row, e) ↦
          let (r, found, p, checked, made, after) =
            accepted_inversion env before caller now i store row e in
          let (resumes, first, number, rows) = new_resume-fields env caller now store.queue r p in
          let given =
            All-find_row (IsConsistent store.queue) i store.queue.rows r w.consistent
              (unfold Rows.get in found) in
          subst IsLinked (sym after) (
            snoc-IsLinked store.queue (new_resume env caller now store.queue r p).1
              (new_resume env caller now store.queue r p).0 linked rows
              (subst (λ o. Below o (new_resume env caller now store.queue r p).0.queue_number)
                (sym resumes) (omega (arith, number, given.number_given)))
              (subst (λ o. Unshared o store.queue.rows) (sym resumes)
                (unresumed store.queue r.queue_number
                  (checked_point-unresumed env caller store r p checked))))
    ]

-- A submission that resumes nothing.
abbrev IsPlain : Op → Type 0
IsPlain (submits new) = new.resumes ≡ none
IsPlain _ = Unit {0}

submit-IsLinked :
    (c : Codec) (new : NewQueueEntry) (t : Table)
    → new.resumes ≡ none
    → IsLinked t
    → IsLinked (Rows.submit c new t).1
unfolding Rows.submit Rows.new_row
submit-IsLinked c new t plain h =
    let none_resumed : (Rows.new_row c new t).resumes ≡ none = elim (Option-cases new.snapshot) [
      | inl e ↦ rw e plain
      | inr (s, e) ↦ rw e plain
    ] in
    snoc-IsLinked t (Rows.submit c new t).1 (Rows.new_row c new t) h refl
      (subst (λ o. Below o (Rows.new_row c new t).queue_number) (sym none_resumed) tt)
      (subst (λ o. Unshared o t.rows) (sym none_resumed) (Unshared-none t.rows))

claim-IsLinked :
    (c : Codec) (now : String) (t : Table) → IsLinked t → IsLinked (Rows.claim_oldest c now t).1
unfolding Rows.claim_oldest set_running
claim-IsLinked c now t h =
    elim (Option-cases
      (Rows.first_of_rows (ordered (select (λ r. Rows.is_queued r.state) t.rows)))) [
        | inl e ↦ rw (e, Rows.claim_oldest) h
        | inr (r, e) ↦
            rw (e, Rows.claim_oldest)
              (update-IsLinked (set_running c now) r.id (λ q. (refl, refl)) t h)
      ]

set_cancelled_links :
    (c : Codec) (now : String) (r : QueueRow)
    → ((set_cancelled c now r).queue_number ≡ r.queue_number)
      × ((set_cancelled c now r).resumes ≡ r.resumes)
unfolding set_cancelled
set_cancelled_links c now r = (ground arith, ground arith)

cancel-IsLinked :
    (c : Codec) (i : ℕ) (now : String) (t : Table)
    → IsLinked t
    → IsLinked (Rows.cancel_queued c i now t).1
unfolding Rows.cancel_queued
cancel-IsLinked c i now t h =
    update-IsLinked (set_cancelled c now) i (λ r. set_cancelled_links c now r) t h

prune-IsLinked :
    (cutoff : ℕ) (keep : List ℕ) (t : Table) → IsLinked t → IsLinked (Rows.prune cutoff keep t).1
unfolding Rows.prune
prune-IsLinked cutoff keep t h =
    let kept = λ (r : QueueRow). not (Rows.is_pruned cutoff keep r) in
    record {
      down = All-kept kept (λ (r : QueueRow). Below r.resumes r.queue_number) t.rows h.down;
      once = IsOnce-kept kept t.rows h.once;
    }

step-IsLinked : (c : Codec) (op : Op) (t : Table) → IsPlain op → IsLinked t → IsLinked (step c op t)
unfolding step Rows.link_execution Rows.finish set_finished Rows.set_error Rows.requeue set_requeued
step-IsLinked c (submits new) t plain h = submit-IsLinked c new t plain h
step-IsLinked c (claims now) t plain h = claim-IsLinked c now t h
step-IsLinked c (links i n) t plain h =
    update-IsLinked (λ r. record r { execution_number = some n }) i (λ r. (refl, refl)) t h
step-IsLinked c (finishes i state at e clear) t plain h =
    update-IsLinked (set_finished c state at e clear) i (λ r. (refl, refl)) t h
step-IsLinked c (sets_error i e) t plain h =
    update-IsLinked (λ r. record r { error = some e }) i (λ r. (refl, refl)) t h
step-IsLinked c (cancels i now) t plain h = cancel-IsLinked c i now t h
step-IsLinked c (requeues i) t plain h = update-IsLinked set_requeued i (λ r. (refl, refl)) t h
step-IsLinked c (prunes cutoff keep) t plain h = prune-IsLinked cutoff keep t h

-- Every write of a well-formed queue keeps its links sound, where each entry resumes one with a
-- smaller number, and no two resume the same one: a resume, whatever it answers and whoever asks for
-- it, and every method of the table, where a submission that is no resume resumes nothing.
pub links_kept :
    (env : Env) (before : BeforeSubmit) (caller : Option String) (now : String) (i : ℕ) (op : Op)
    (store : Store)
    → IsPlain op
    → IsWellFormed store.queue
    → IsLinked store.queue
    → IsLinked (resume_entry env before submit_directly caller now i store).1
      × IsLinked (step env.codec op store.queue)
links_kept env before caller now i op store plain w linked = (
  resume_entry-IsLinked env before caller now i store w linked,
  step-IsLinked env.codec op store.queue plain linked,
)
