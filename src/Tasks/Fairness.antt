-- ===== src/Tasks/Fairness.antt =====
-- `schedule` of src/kernel/tasks/task.cpp, called again and again while tasks come and go.
use solstice_os.Base.{
  ltb, ℕ, zero, suc, ◌+◌, ◌-◌, ◌%◌, ◌<◌, ◌≤◌, ◌≡◌, ◌≢◌, inl, inr, ap, ◌∙◌, true, ◌==◌, arith,
  Bool-cases,
}
use solstice_os.Tasks.{Task, Tasks, schedule}
use solstice_os.Tasks.Turns.{schedule-IsNext}

-- The state after `n` calls of `schedule`, where the slots hold `slots m` at the call number `m`: in
-- between, tasks may be created and end.
abbrev pub turns : (slots : ℕ → ℕ → Task) (n : ℕ) → Tasks → Tasks
turns slots zero s = s
turns slots (suc n) s = turns (λ m. slots (suc m)) n (schedule (record s { tasks = slots 0 })).1

-- How many slots `i` is behind `current` in the cyclic order.
abbrev ahead : (i current : ℕ) → ℕ
ahead i current = (i + 8 - current) % 8

-- A call goes on to a slot that is nearer, and not past a ready one.
schedule-nearer :
    (s : Tasks) (i : ℕ)
    → s.current < 8
    → s.tasking_on ≡ true
    → i < 8
    → s.current ≢ i
    → (s.tasks i).state ≡ 1
    → ((schedule s).1.current < 8)
      × ((schedule s).1.tasking_on ≡ true)
      × (ahead i (schedule s).1.current < ahead i s.current)
schedule-nearer s i inside on small other ready =
    let (k, (some_k, le, _, before), after, _) = schedule-IsNext s inside on in
    let d = ahead i s.current in
    let reach : (s.current + d) % 8 ≡ i = omega arith in
    let ready' : (s.tasks ((s.current + d) % 8)).state ≡ 1 =
      ap (λ (j : ℕ). (s.tasks j).state) reach ∙ ready in
    let not_past : k ≤ d = elim (Bool-cases (ltb d k)) [
      | inl past ↦ absurd (before d (omega arith) (ground arith) ready')
      | inr up_to ↦ ground arith
    ] in
    rw after (omega arith, on, omega arith)

turns-reach :
    (d : ℕ) (slots : ℕ → ℕ → Task) (s : Tasks) (i : ℕ)
    → s.current < 8
    → s.tasking_on ≡ true
    → i < 8
    → ((n : ℕ) → (slots n i).state ≡ 1)
    → ahead i s.current ≤ d
    → (n : ℕ) × (n ≤ d) × ((turns slots n s).current ≡ i)
turns-reach zero slots s i inside on small ready near = (0, omega arith, omega arith)
turns-reach (suc d) slots s i inside on small ready near = elim (Bool-cases (s.current == i)) [
  | inl here ↦ (0, omega arith, ground arith)
  | inr elsewhere ↦
      let s₁ = record s { tasks = slots 0 } in
      let (inside', on', nearer) = schedule-nearer s₁ i inside on small (ground arith) (ready 0) in
      let (n, le, e) =
        turns-reach d (λ m. slots (suc m)) (schedule s₁).1 i inside' on' small (λ m. ready (suc m))
          (omega (arith, nearer)) in
      (suc n, omega (arith, le), e)
]

-- A task that stays ready gets its turn within seven calls of `schedule`, whatever the other slots hold
-- at each of the calls, once tasking is on.
pub schedule-turn :
    (slots : ℕ → ℕ → Task) (s : Tasks) (i : ℕ)
    → s.current < 8
    → s.tasking_on ≡ true
    → i < 8
    → ((n : ℕ) → (slots n i).state ≡ 1)
    → (n : ℕ) × (n ≤ 7) × ((turns slots n s).current ≡ i)
schedule-turn slots s i inside on small ready =
    turns-reach 7 slots s i inside on small ready (omega arith)
