-- ===== src/Worker/Laws.antt =====
-- The tasks that a worker runs at once: which they are, and how many.
use agent_operator.Prelude.{
  ℕ, zero, suc, ◌-◌, ◌≤◌, ◌≡◌, refl, sym, inl, inr, Bool-cases, arith, true, false, ◌||◌, List, [],
  ◌∷◌, ◌++◌, Table, length, take, leb, ◌==◌, if◌then◌else◌, length-append, append_assoc, append-nil,
}
use agent_operator.State.{created, same_state}
use agent_operator.Store.{Task, Database}
use agent_operator.Worker.{
  TaskWorker, is_active, created_tasks, claim_tasks, poll_once, remove_active, Event, started,
  polled, finished, stopped, react, react_all,
}

-- No task is run twice at once.
abbrev pub IsUnique : List ℕ → Type 0
IsUnique [] = Unit
IsUnique (id ∷ ids) = (is_active id ids ≡ false) × IsUnique ids

-- The tasks of a batch that are not run yet.
abbrev pub idle : List ℕ → List ℕ → List ℕ
idle active [] = []
idle active (id ∷ ids) = if is_active id active then idle active ids else id ∷ idle active ids

pub record IsSound (worker : TaskWorker) : Type 0 where
  pub unique : IsUnique worker.active_tasks
  pub bound : length worker.active_tasks ≤ worker.max_concurrent_tasks

is_active-append :
    (id : ℕ) (xs ys : List ℕ) → is_active id (xs ++ ys) ≡ (is_active id xs || is_active id ys)
unfolding is_active
is_active-append id [] ys = refl
is_active-append id (x ∷ xs) ys = ground (arith, is_active-append id xs ys)

IsUnique-append_one :
    (id : ℕ) (xs : List ℕ) → IsUnique xs → is_active id xs ≡ false → IsUnique (xs ++ id ∷ [])
unfolding is_active
IsUnique-append_one id [] h new = (refl, tt)
IsUnique-append_one id (x ∷ xs) h new = (
  ground (arith, h.0, new, is_active-append x xs (id ∷ [])),
  IsUnique-append_one id xs h.1 (ground (arith, new)),
)

claim_tasks-IsUnique :
    (limit : ℕ) (ids active : List ℕ) → IsUnique active → IsUnique (claim_tasks limit ids active)
unfolding claim_tasks
claim_tasks-IsUnique limit [] active h = h
claim_tasks-IsUnique limit (id ∷ ids) active h = elim (Bool-cases (is_active id active)) [
  | inl old ↦ rw old (claim_tasks-IsUnique limit ids active h)
  | inr new ↦ rw new (elim (Bool-cases (leb limit (length active))) [
    | inl full ↦ rw full h
    | inr free ↦
        rw free
          (claim_tasks-IsUnique limit ids (active ++ id ∷ []) (IsUnique-append_one id active h new))
  ])
]

claim_tasks_bound :
    (limit : ℕ) (ids active : List ℕ)
    → length active ≤ limit
    → length (claim_tasks limit ids active) ≤ limit
unfolding claim_tasks
claim_tasks_bound limit [] active h = h
claim_tasks_bound limit (id ∷ ids) active h = ground (
  arith,
  length-append active (id ∷ []),
  claim_tasks_bound limit ids active,
  claim_tasks_bound limit ids (active ++ id ∷ []),
)

is_active-remove :
    (id j : ℕ) (xs : List ℕ) → is_active j xs ≡ false → is_active j (remove_active id xs) ≡ false
unfolding is_active remove_active
is_active-remove id j [] h = refl
is_active-remove id j (x ∷ xs) h = ground (arith, is_active-remove id j xs)

remove_active-IsUnique : (id : ℕ) (xs : List ℕ) → IsUnique xs → IsUnique (remove_active id xs)
unfolding remove_active
remove_active-IsUnique id [] h = tt
remove_active-IsUnique id (x ∷ xs) h = elim (Bool-cases (x == id)) [
  | inl here ↦ rw here (remove_active-IsUnique id xs h.1)
  | inr there ↦ rw there (is_active-remove id x xs h.0, remove_active-IsUnique id xs h.1)
]

remove_active_bound : (id : ℕ) (xs : List ℕ) → length (remove_active id xs) ≤ length xs
unfolding remove_active
remove_active_bound id [] = omega arith
remove_active_bound id (x ∷ xs) = ground (arith, remove_active_bound id xs)

poll_once-IsSound :
    (db : Database) (worker : TaskWorker) → IsSound worker → IsSound (poll_once db worker)
unfolding poll_once
poll_once-IsSound db worker h =
    let limit = worker.max_concurrent_tasks in
    let ids = take limit (created_tasks db.tasks) in
    record {
      unique = claim_tasks-IsUnique limit ids worker.active_tasks h.unique;
      bound = claim_tasks_bound limit ids worker.active_tasks h.bound;
    }

react-IsSound :
    (event : Event) (worker : TaskWorker) → IsSound worker → IsSound (react event worker)
unfolding react
react-IsSound (polled db) worker h =
    elim worker.running as (λ on. IsSound (if on then poll_once db worker else worker)) [
      | true ↦ poll_once-IsSound db worker h
      | false ↦ h
    ]
react-IsSound (finished id) worker h = record {
  unique = remove_active-IsUnique id worker.active_tasks h.unique;
  bound = omega (arith, h.bound, remove_active_bound id worker.active_tasks);
}
react-IsSound started worker h = record { unique = h.unique; bound = h.bound }
react-IsSound stopped worker h = record { unique = h.unique; bound = h.bound }

-- If a worker runs no task twice and no more tasks than its limit, then this still holds after any
-- sequence of starts, polls, over any databases, ends of runs and stops.
pub react_all-IsSound :
    (events : List Event) (worker : TaskWorker) → IsSound worker → IsSound (react_all events worker)
unfolding react_all
react_all-IsSound [] worker h = h
react_all-IsSound (event ∷ events) worker h =
    react_all-IsSound events (react event worker) (react-IsSound event worker h)

idle-append :
    (id : ℕ) (active ids : List ℕ)
    → is_active id ids ≡ false
    → idle (active ++ id ∷ []) ids ≡ idle active ids
unfolding is_active
idle-append id active [] h = refl
idle-append id active (x ∷ xs) h =
    ground (arith, h, is_active-append x active (id ∷ []), idle-append id active xs)

take_full :
    (limit : ℕ) (active ids : List ℕ)
    → leb limit (length active) ≡ true
    → active ++ take (limit - length active) ids ≡ active
take_full limit active ids full =
    let none_left : limit - length active ≡ 0 = ground (arith, full) in
    rw none_left (append-nil active)

take_free :
    (limit : ℕ) (id : ℕ) (active ids : List ℕ)
    → leb limit (length active) ≡ false
    → (active ++ id ∷ []) ++ take (limit - length (active ++ id ∷ [])) ids
      ≡ active ++ take (limit - length active) (id ∷ ids)
take_free limit id active ids free =
    let left : limit - length active ≡ suc (limit - length (active ++ id ∷ [])) =
      ground (arith, free, length-append active (id ∷ [])) in
    rw left (append_assoc active (id ∷ []) _)

take-nil : (n : ℕ) → take {A = ℕ} n [] ≡ []
take-nil zero = refl
take-nil (suc n) = refl

claim_tasks_exact :
    (limit : ℕ) (ids active : List ℕ)
    → IsUnique ids
    → claim_tasks limit ids active ≡ active ++ take (limit - length active) (idle active ids)
unfolding claim_tasks
claim_tasks_exact limit [] active h =
    sym (rw (take-nil (limit - length active)) (append-nil active))
claim_tasks_exact limit (id ∷ ids) active h = elim (Bool-cases (is_active id active)) [
  | inl old ↦ rw old (claim_tasks_exact limit ids active h.1)
  | inr new ↦ rw new (elim (Bool-cases (leb limit (length active))) [
    | inl full ↦ rw full (sym (take_full limit active _ full))
    | inr free ↦ rw free (
        rw (claim_tasks_exact limit ids (active ++ id ∷ []) h.1, idle-append id active ids h.0)
          (take_free limit id active (idle active ids) free))
  ])
]

take_absent :
    (n id : ℕ) (ids : List ℕ) → is_active id ids ≡ false → is_active id (take n ids) ≡ false
unfolding is_active
take_absent zero id ids h = refl
take_absent (suc n) id [] h = refl
take_absent (suc n) id (x ∷ xs) h = ground (arith, take_absent n id xs)

take-IsUnique : (n : ℕ) (ids : List ℕ) → IsUnique ids → IsUnique (take n ids)
take-IsUnique zero ids h = tt
take-IsUnique (suc n) [] h = tt
take-IsUnique (suc n) (x ∷ xs) h = (take_absent n x xs h.0, take-IsUnique n xs h.1)

abbrev pub keys : Table Task → List ℕ
keys [] = []
keys ((id, task) ∷ rows) = id ∷ keys rows

created_absent :
    (id : ℕ) (rows : Table Task)
    → is_active id (keys rows) ≡ false
    → is_active id (created_tasks rows) ≡ false
unfolding is_active created_tasks
created_absent id [] h = refl
created_absent id ((j, task) ∷ rows) h = ground (arith, created_absent id rows)

created_tasks-IsUnique : (rows : Table Task) → IsUnique (keys rows) → IsUnique (created_tasks rows)
unfolding created_tasks
created_tasks-IsUnique [] h = tt
created_tasks-IsUnique ((id, task) ∷ rows) h = elim (Bool-cases (same_state task.state created)) [
  | inl new ↦ rw new (created_absent id rows h.0, created_tasks-IsUnique rows h.1)
  | inr other ↦ rw other (created_tasks-IsUnique rows h.1)
]

-- If no two tasks share a key, then a poll takes the oldest CREATED tasks, as many as the limit, and
-- of these it adds the ones that do not run yet, in order, as far as there are free places.
pub poll_once_exact :
    (db : Database) (worker : TaskWorker)
    → IsUnique (keys db.tasks)
    → let limit = worker.max_concurrent_tasks in
      let active = worker.active_tasks in
      (poll_once db worker).active_tasks
      ≡ active ++ take (limit - length active) (idle active (take limit (created_tasks db.tasks)))
unfolding poll_once
poll_once_exact db worker h =
    let limit = worker.max_concurrent_tasks in
    let ids = take limit (created_tasks db.tasks) in
    claim_tasks_exact limit ids worker.active_tasks
      (take-IsUnique limit (created_tasks db.tasks) (created_tasks-IsUnique db.tasks h))
