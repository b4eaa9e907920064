-- ===== src/Tasks.antt =====
-- The scheduler of src/kernel/tasks/task.cpp. The address of `task_exit` and of `task_start`, which
-- is assembly, are parameters; `switch_task`, also assembly, is what `schedule` asks for.
pub mod Turns
pub mod Fairness
mod Tests
use solstice_os.Base.{
  ℕ, zero, suc, ◌+◌, ◌-◌, ◌*◌, ◌%◌, Bool, true, false, not, ◌||◌, ◌&&◌, if◌then◌else◌, ltb, ◌==◌,
  Option, none, some, List, [], ◌∷◌,
}
use solstice_os.Base.Store.{update}
use solstice_os.Memory.Pmm.{Pmm, pmm_alloc}

-- `state` is 0 for a free slot and 1 for a ready task.
pub record Task : Type 0 where
  pub rsp : ℕ
  pub state : ℕ

abbrev pub max_tasks : ℕ
max_tasks = 8

pub record Tasks : Type 0 where
  pub tasks : ℕ → Task
  pub current : ℕ
  pub tasking_on : Bool

abbrev pub set_state : ℕ → Tasks → Tasks
set_state i s = record s { tasks = update s.tasks i (record (s.tasks i) { state = 1 }) }

unfoldable pub init_tasking : Tasks → Tasks
init_tasking s = record (set_state 0 s) { tasking_on = true }

-- What `task_exit` does before it waits forever.
unfoldable pub task_exit : Tasks → Tasks
task_exit s = record s {
  tasks = update s.tasks s.current (record (s.tasks s.current) { state = 0 });
}

-- `*--stack = v` for each of the words in turn, on 64-bit cells.
unfoldable pub push_all : List ℕ → (stack : ℕ) → (ℕ → ℕ) → ℕ × (ℕ → ℕ)
push_all [] stack mem = (stack, mem)
push_all (v ∷ vs) stack mem = push_all vs (stack - 8) (update mem (stack - 8) v)

-- The loop of `task_create` that looks for a free slot, at `i` with `left` slots to go.
unfoldable pub free_slot : (left i : ℕ) → (ℕ → Task) → Option ℕ
free_slot zero i tasks = none
free_slot (suc left) i tasks =
    let rest = free_slot left (i + 1) tasks in if (tasks i).state == 0 then some i else rest

module _ (exit_address start_address : ℕ) where
  -- The words on a new task's stack, the first pushed first: `task_exit`, the entry, `task_start`, and
  -- zeros for the six registers that `switch_task` pops.
  abbrev pub start_frame : ℕ → List ℕ
  start_frame entry = exit_address ∷ entry ∷ start_address ∷ 0 ∷ 0 ∷ 0 ∷ 0 ∷ 0 ∷ 0 ∷ []

  -- The slot, and none where the source returns -1.
  unfoldable pub task_create : (entry : ℕ) → Tasks → Pmm → Option ℕ × Tasks × Pmm
  task_create entry s pmm = elim (free_slot (max_tasks - 1) 1 s.tasks) [
    | none ↦ (none, s, pmm)
    | some i ↦
        let (page, pmm') = pmm_alloc pmm in
        let (stack, mem) = push_all (start_frame entry) (page + 4096) pmm'.mem in
        (
          some i,
          record s { tasks = update s.tasks i (record { rsp = stack; state = 1 }) },
          record pmm' { mem = mem },
        )
  ]

-- The loop of `schedule`, which comes back to `current` after 8 rounds.
unfoldable pub next_task : (fuel : ℕ) → (ℕ → Task) → (current next : ℕ) → ℕ
next_task zero tasks current next = next
next_task (suc fuel) tasks current next =
    let next' = (next + 1) % max_tasks in
    let rest = next_task fuel tasks current next' in
    if not ((tasks next').state == 1) && not (next' == current) then rest else next'

-- With the switch from one task's stack to another's that `switch_task` is asked for.
unfoldable pub schedule : Tasks → Option (ℕ × ℕ) × Tasks
schedule s =
    let next = next_task max_tasks s.tasks s.current s.current in
    if not s.tasking_on || (next == s.current)
    then (none, s)
    else (some (s.current, next), record s { current = next })
