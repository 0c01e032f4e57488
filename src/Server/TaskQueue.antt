-- ===== src/Server/TaskQueue.antt =====
-- tools/appserver/singletaskqueue.cpp: the tasks of one client run one after the other. A method
-- holds the queue's mutex, so each is one step.
use qt_data_sync.Common.{
  ◌≡◌, refl, sym, ap, ◌∙◌, arith, ℕ, suc, Bool, true, false, List, [], ◌∷◌, ◌++◌, map,
  if◌then◌else◌, length, take, drop, append_assoc, append-nil, Bool-cases, inl, inr,
}
use qt_data_sync.Common.Equality.{◌==◌, ==_iff, ==_refl, nat_eq}

-- The queue, the tasks that the thread pool runs, and those started and completed so far.
pub record Queue : Type 0 where
  pub tasks : List ℕ
  pub running : List ℕ
  pub started : List ℕ
  pub completed : List ℕ

pub data Action : Type 0 where
  enqueue finish : ℕ → Action
  clear : Action

abbrev pub start_head : List ℕ → Queue → Queue
start_head [] q = q
start_head (t ∷ ts) q = record q { running = q.running ++ t ∷ []; started = q.started ++ t ∷ [] }

unfoldable pub next_task : Queue → Queue
next_task q = start_head q.tasks q

unfoldable pub enqueue_task : ℕ → Queue → Queue
enqueue_task t q =
    let q' = record q { tasks = q.tasks ++ t ∷ [] } in
    if length q'.tasks == 1 then next_task q' else q'

-- All but the head are deleted; the result says whether the queue is empty.
unfoldable pub clear_tasks : Queue → Bool × Queue
clear_tasks q = (length (take 1 q.tasks) == 0, record q { tasks = take 1 q.tasks })

abbrev pub remove_one : ℕ → List ℕ → List ℕ
remove_one t [] = []
remove_one t (x ∷ xs) = let rest = remove_one t xs in if x == t then xs else x ∷ rest

abbrev pub is_in : ℕ → List ℕ → Bool
is_in t [] = false
is_in t (x ∷ xs) = if x == t then true else is_in t xs

-- A warning is all that comes of a task that is not the head.
unfoldable pub complete_task : ℕ → Queue → Queue
complete_task t q = next_task (record q {
  tasks = drop 1 q.tasks;
  running = remove_one t q.running;
  completed = q.completed ++ t ∷ [];
})

-- Task::run, once safeRun returns; the pool runs only what was started.
unfoldable pub act : Action → Queue → Queue
act (enqueue t) q = enqueue_task t q
act (finish t) q = if is_in t q.running then complete_task t q else q
act clear q = (clear_tasks q).1

unfoldable pub act_all : List Action → Queue → Queue
act_all [] q = q
act_all (a ∷ more) q = act_all more (act a q)

-- A queue whose head runs alone, with what has completed.
unfoldable pub serving : List ℕ → List ℕ → Queue
serving ts c = record { tasks = ts; running = take 1 ts; started = c ++ take 1 ts; completed = c }

-- What the queue promises: tasks wait in order, and only the head can finish.
abbrev pub finish_head : ℕ → List ℕ → List ℕ → List ℕ × List ℕ
finish_head t [] c = ([], c)
finish_head t (x ∷ ts) c = if x == t then (ts, c ++ t ∷ []) else (x ∷ ts, c)

abbrev pub served : Action → List ℕ × List ℕ → List ℕ × List ℕ
served (enqueue t) (ts, c) = (ts ++ t ∷ [], c)
served (finish t) (ts, c) = finish_head t ts c
served clear (ts, c) = (take 1 ts, c)

unfoldable pub all_served : List Action → List ℕ × List ℕ → List ℕ × List ℕ
all_served [] v = v
all_served (a ∷ more) v = all_served more (served a v)

not_alone : (n : ℕ) → (suc (suc n) == 1) ≡ false
not_alone n = ground arith

enqueue_lem : (t : ℕ) (ts c : List ℕ) → enqueue_task t (serving ts c) ≡ serving (ts ++ t ∷ []) c
unfolding enqueue_task next_task serving
enqueue_lem t [] c = rw (append-nil c) refl
enqueue_lem t (x ∷ []) c = refl
enqueue_lem t (x ∷ y ∷ ts) c = rw (not_alone (length (ts ++ t ∷ []))) refl

next_lem :
    (ts c : List ℕ)
    → next_task (record { tasks = ts; running = []; started = c; completed = c }) ≡ serving ts c
unfolding next_task serving
next_lem [] c = rw (append-nil c) refl
next_lem (t ∷ ts) c = refl

finish_lem :
    (t : ℕ) (ts c : List ℕ)
    → act (finish t) (serving ts c) ≡ serving (finish_head t ts c).0 (finish_head t ts c).1
unfolding act complete_task serving
finish_lem t [] c = refl
finish_lem t (x ∷ ts) c = elim (Bool-cases (x == t)) [
  | inl e ↦ rw e (
      ap
        (λ y.
          next_task
            (record { tasks = ts; running = []; started = c ++ y ∷ []; completed = c ++ t ∷ [] }))
        ((==_iff x t).0 e)
      ∙ next_lem ts (c ++ t ∷ []))
  | inr e ↦ rw e refl
]

clear_lem : (ts c : List ℕ) → act clear (serving ts c) ≡ serving (take 1 ts) c
unfolding act clear_tasks serving
clear_lem [] c = refl
clear_lem (t ∷ ts) c = refl

act-enqueue : (t : ℕ) (ts c : List ℕ) → act (enqueue t) (serving ts c) ≡ serving (ts ++ t ∷ []) c
unfolding act
act-enqueue t ts c = enqueue_lem t ts c

act_lem :
    (a : Action) (ts c : List ℕ)
    → act a (serving ts c) ≡ serving (served a (ts, c)).0 (served a (ts, c)).1
act_lem (enqueue t) ts c = act-enqueue t ts c
act_lem (finish t) ts c = finish_lem t ts c
act_lem clear ts c = clear_lem ts c

-- Whatever is enqueued, finished and cleared in any order, the queue serves its tasks one at a
-- time: the head runs and nothing else, what was started is what has completed and the head, and
-- tasks complete in the order in which they wait, from a queue of which this is so.
pub act_all-served :
    (actions : List Action) (ts c : List ℕ)
    → act_all actions (serving ts c)
      ≡ serving (all_served actions (ts, c)).0 (all_served actions (ts, c)).1
unfolding act_all all_served
act_all-served [] ts c = refl
act_all-served (a ∷ more) ts c =
    ap (act_all more) (act_lem a ts c)
    ∙ act_all-served more (served a (ts, c)).0 (served a (ts, c)).1

-- When each task that runs returns, all tasks complete, in order, and the queue is empty, from a
-- queue whose head alone runs.
pub act_all-Drains : (ts c : List ℕ) → act_all (map finish ts) (serving ts c) ≡ serving [] (c ++ ts)
unfolding act_all
act_all-Drains [] c = ap (serving []) (sym (append-nil c))
act_all-Drains (t ∷ ts) c =
    ap (act_all (map finish ts)) (finish_lem t (t ∷ ts) c ∙ head t)
    ∙ act_all-Drains ts (c ++ t ∷ [])
    ∙ ap (serving []) (append_assoc c (t ∷ []) ts)
  where
    head :
        (t : ℕ)
        → serving (finish_head t (t ∷ ts) c).0 (finish_head t (t ∷ ts) c).1
          ≡ serving ts (c ++ t ∷ [])
    head t = rw (==_refl t) refl
