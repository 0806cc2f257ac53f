-- ===== src/History/Uses.antt =====
-- services/history_delete.py: a deletion leaves what a queued or running entry uses.
use draw_things_control.Prelude.{
  ℕ, String, Bool, true, false, not, ◌&&◌, ◌||◌, ◌≡◌, refl, Option, none, some, List, [], ◌∷◌, ◌++◌,
  arith, zero, suc, Option-cases, is_none, ◌==◌, is_some, ==→≡, any, Bool-cases, inl, inr,
  if◌then◌else◌,
}
use draw_things_control.Executions
use draw_things_control.Executions.{ExecutionRow, InUse, reason_of, job_is_running}
use draw_things_control.Executions.Deletion.{among}
use draw_things_control.Queue.Events.{QueueState}
use draw_things_control.Resume.Walk.{Walk, walk_chain, holds, gave}
use draw_things_control.Resume.Entry.{Store}
use draw_things_control.History.{
  ResumeLink, is_active, chain, resume_links, set_default, add_opt, add_all, add_link, add_links,
  in_use, own_reason, resume_reason, Broken, find_link, linked, ancestor, has_succeeded, link_walk,
  read_of,
}

abbrev pub waits_or_runs : QueueState → Bool
waits_or_runs QueueState.queued = true
waits_or_runs QueueState.running = true
waits_or_runs _ = false

active_state : (l : ResumeLink) → is_active l ≡ waits_or_runs l.state
active_state l = ground arith

abbrev pub is_number : ℕ → Option ℕ → Bool
is_number n none = false
is_number n (some k) = k == n

-- The entry with a queue number.
abbrev pub entry_numbered : ℕ → List ResumeLink → Option ResumeLink
entry_numbered n [] = none
entry_numbered n (l ∷ links) = elim (entry_numbered n links) [
  | some found ↦ some found
  | none ↦ if l.queue_number == n then some l else none
]

-- Whether a resume of the entry reads an execution: the entry's own, if it is stored; and if that has no
-- succeeded run, or there is none, what a resume of the entry that this one resumes reads. A finished
-- entry whose execution is gone ends it. An entry resumes one with a smaller number, so that its number
-- bounds how far this goes.
abbrev pub reads : ℕ → List ResumeLink → ℕ → ResumeLink → Bool
reads zero links n l = false
reads (suc left) links n l =
    let earlier : Bool = elim l.resumes [
      | none ↦ false
      | some k ↦ elim (entry_numbered k links) [ none ↦ false | some p ↦ reads left links n p ]
    ] in
    if is_none l.execution_number
    then earlier
    else if l.execution_exists
    then is_number n l.execution_number || (is_none l.last_succeeded && earlier)
    else waits_or_runs l.state && earlier

-- The executions that an entry uses: its own, the one it resumes, and those that its resume reads.
abbrev pub uses : List ResumeLink → ℕ → ResumeLink → Bool
uses links n l =
    is_number n l.execution_number
    || (is_number n l.resumes_execution || reads (suc l.queue_number) links n l)

entry_numbered_lem : (n : ℕ) (links : List ResumeLink) → find_link n links ≡ entry_numbered n links
unfolding find_link
entry_numbered_lem n [] = refl
entry_numbered_lem n (l ∷ links) = ground (arith, entry_numbered_lem n links)

abbrev walk : List ResumeLink → ℕ → ResumeLink → Walk ResumeLink ResumeLink Broken
walk links left l =
    walk_chain (λ (k : ResumeLink). k.resumes) linked (ancestor links) has_succeeded left l

-- What is read from the entry that this one resumes.
walk_earlier :
    (links : List ResumeLink) (n left : ℕ) (l : ResumeLink) (x : Option ResumeLink) (o : Option ℕ)
    → l.resumes ≡ o
    → ((p : ResumeLink) → among n (read_of (walk links left p).steps) ≡ reads left links n p)
    → linked l ≡ gave x
    → holds has_succeeded x ≡ false
    → among n (read_of (walk links (suc left) l).steps) ≡ (
        among n (read_of ((l, x) ∷ [])) || (elim o [
          | none ↦ false
          | some k ↦ elim (entry_numbered k links) [ none ↦ false | some p ↦ reads left links n p ]
        ]))
unfolding walk_chain read_of ancestor
walk_earlier links n left l x none e ih found more = ground (arith, e, found, more)
walk_earlier links n left l x (some k) e ih found more =
    elim (Option-cases (entry_numbered k links)) [
      | inl gone ↦ ground (arith, e, found, more, gone, entry_numbered_lem k links)
      | inr (p, there) ↦ ground (arith, e, found, more, there, entry_numbered_lem k links, ih p)
    ]

chain-reads :
    (links : List ResumeLink) (n left : ℕ) (l : ResumeLink)
    → among n (read_of (walk links left l).steps) ≡ reads left links n l
unfolding walk_chain read_of linked
chain-reads links n zero l = refl
chain-reads links n (suc left) l = elim (Option-cases l.execution_number) [
  | inl no_execution ↦
      let r =
        walk_earlier links n left l none l.resumes refl (chain-reads links n left)
          (ground (arith, no_execution)) refl in
      ground (arith, no_execution, r)
  | inr (m, own) ↦ elim (Bool-cases l.execution_exists) [
    | inl stored ↦ elim (Option-cases l.last_succeeded) [
      | inl fresh ↦
          let r =
            walk_earlier links n left l (some l) l.resumes refl (chain-reads links n left)
              (ground (arith, own, stored)) (ground (arith, fresh)) in
          ground (arith, own, stored, fresh, r)
      | inr (k, done) ↦ ground (arith, own, stored, done)
    ]
    | inr gone ↦ elim (Bool-cases (is_active l)) [
      | inl on ↦
          let r =
            walk_earlier links n left l none l.resumes refl (chain-reads links n left)
              (ground (arith, own, gone, on)) refl in
          ground (arith, own, gone, on, r, active_state l)
      | inr off ↦ ground (arith, own, gone, off, active_state l)
    ]
  ]
]

uses-chain :
    (links : List ResumeLink) (n : ℕ) (l : ResumeLink)
    → (is_number n l.execution_number
        || (is_number n l.resumes_execution || among n (chain links l).0))
      ≡ uses links n l
unfolding chain link_walk
uses-chain links n l = ground (arith, chain-reads links n (suc l.queue_number) l)

abbrev has : ℕ → InUse → Bool
has n m = is_some (reason_of n m)

has-append :
    (n k : ℕ) (reason : String) (m : InUse) → has n (m ++ (k, reason) ∷ []) ≡ (has n m || (k == n))
unfolding reason_of
has-append n k reason [] = ground arith
has-append n k reason ((j, r) ∷ m) = ground (arith, has-append n k reason m)

has-set_default :
    (n k : ℕ) (reason : String) (m : InUse) → has n (set_default k reason m) ≡ (has n m || (k == n))
unfolding set_default
has-set_default n k reason m = elim (Bool-cases (has k m)) [
  | inl e ↦ ground (arith, e, ==→≡ k n)
  | inr e ↦ ground (arith, e, has-append n k reason m)
]

has-add_opt :
    (n : ℕ) (o : Option ℕ) (reason : ℕ → String) (m : InUse)
    → has n (add_opt o reason m) ≡ (has n m || is_number n o)
unfolding add_opt
has-add_opt n none reason m = ground arith
has-add_opt n (some k) reason m = has-set_default n k (reason k) m

has-add_all :
    (n : ℕ) (ns : List ℕ) (reason : ℕ → String) (m : InUse)
    → has n (add_all ns reason m) ≡ (has n m || among n ns)
unfolding add_all
has-add_all n [] reason m = ground arith
has-add_all n (k ∷ ns) reason m =
    ground (
      arith,
      has-add_all n ns reason (set_default k (reason k) m),
      has-set_default n k (reason k) m,
    )

has-add_link :
    (n : ℕ) (links : List ResumeLink) (l : ResumeLink) (m : InUse)
    → has n (add_link links l m) ≡ (has n m || (is_active l && uses links n l))
unfolding add_link
has-add_link n links l m =
    let own = add_opt l.execution_number (own_reason l) m in
    let from = add_opt l.resumes_execution (resume_reason l "from") own in
    ground (
      arith,
      has-add_all n (chain links l).0 (resume_reason l "through") from,
      has-add_opt n l.resumes_execution (resume_reason l "from") own,
      has-add_opt n l.execution_number (own_reason l) m,
      uses-chain links n l,
    )

has-add_links :
    (n : ℕ) (links rest : List ResumeLink) (m : InUse)
    → has n (add_links links rest m) ≡ (has n m || any (λ l. is_active l && uses links n l) rest)
unfolding add_links
has-add_links n links [] m = ground arith
has-add_links n links (l ∷ rest) m =
    ground (arith, has-add_links n links rest (add_link links l m), has-add_link n links l m)

-- `in_use` names exactly the executions that queued and running entries use.
pub in_use-uses :
    (links : List ResumeLink) (n : ℕ)
    → has n (in_use links) ≡ any (λ l. is_active l && uses links n l) links
unfolding in_use reason_of
in_use-uses links n = has-add_links n links links []

-- Whether an execution may be deleted: it is stored, it does not run, and no queued or running entry
-- uses it.
abbrev pub is_free : Store → ℕ → Option ExecutionRow → Bool
is_free store n none = false
is_free store n (some x) =
    let links = resume_links store in
    not (job_is_running x.status)
    && not (any (λ (l : ResumeLink). waits_or_runs l.state && uses links n l) links)
