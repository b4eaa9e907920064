-- ===== src/Tasks/Turns.antt =====
-- Whose turn is next, and what a new task starts with.
use solstice_os.Base.{
  subst, ℕ, zero, suc, ◌+◌, ◌-◌, ◌*◌, ◌%◌, ◌<◌, ◌≤◌, ◌≡◌, ◌≢◌, ◌⊎◌, inl, inr, refl, ap, sym, ◌∙◌,
  true, false, not, ◌&&◌, if◌then◌else◌, ◌==◌, none, some, arith, Bool-cases, Option-cases,
}
use solstice_os.Memory.Pmm.{Pmm, pmm_alloc}
use solstice_os.Tasks.{Task, Tasks, free_slot, push_all, task_create, next_task, schedule}

-- The ready task that a round from `current` meets first is `k` slots on; if no other task is
-- ready, the round ends at `current` itself, 8 slots on.
abbrev pub IsNext : (ℕ → Task) → (current k : ℕ) → Type 0
IsNext tasks current k =
    (0 < k)
    × (k ≤ 8)
    × ((k ≡ 8) ⊎ ((tasks ((current + k) % 8)).state ≡ 1))
    × ((j : ℕ) → 0 < j → j < k → (tasks ((current + j) % 8)).state ≢ 1)

module _ (fuel : ℕ) (tasks : ℕ → Task) (current next m : ℕ) (at : (next + 1) % 8 ≡ m) where
  next_task_on :
      (not ((tasks m).state == 1) && not (m == current)) ≡ true
      → next_task (suc fuel) tasks current next ≡ next_task fuel tasks current m
  unfolding next_task
  next_task_on more = rw (at, more) refl

  next_task_stop :
      (not ((tasks m).state == 1) && not (m == current)) ≡ false
      → next_task (suc fuel) tasks current next ≡ m
  unfolding next_task
  next_task_stop stop = rw (at, stop) refl

next_task-IsNext :
    (fuel : ℕ) (tasks : ℕ → Task) (current k : ℕ)
    → current < 8
    → k + fuel ≡ 8
    → 0 < fuel
    → ((j : ℕ) → 0 < j → j ≤ k → (tasks ((current + j) % 8)).state ≢ 1)
    → (n : ℕ) × (next_task fuel tasks current ((current + k) % 8) ≡ (current + n) % 8)
      × IsNext tasks current n
unfolding next_task
next_task-IsNext zero tasks current k inside sum some_fuel before = absurd (omega arith)
next_task-IsNext (suc fuel) tasks current k inside sum some_fuel before =
    let next : ((current + k) % 8 + 1) % 8 ≡ (current + (k + 1)) % 8 = omega arith in
    elim (Bool-cases (
      not ((tasks ((current + (k + 1)) % 8)).state == 1)
      && not ((current + (k + 1)) % 8 == current))) [
        | inl more ↦
            let idle : (tasks ((current + (k + 1)) % 8)).state ≢ 1 = ground arith in
            let short : (current + (k + 1)) % 8 ≢ current = ground arith in
            let (n, e, is) =
              next_task-IsNext fuel tasks current (k + 1) inside (omega arith)
                (omega (arith, short))
                (λ j p le. elim (Bool-cases (j == k + 1)) [
                  | inl hit ↦ let q : j ≡ k + 1 = ground arith in rw q idle
                  | inr miss ↦ before j p (ground arith)
                ]) in
            (n, next_task_on fuel tasks current _ _ next more ∙ e, is)
        | inr stop ↦ (
          k + 1,
          next_task_stop fuel tasks current _ _ next stop,
          (omega arith, omega arith, ground arith, λ j p lt. before j p (omega arith)),
        )
      ]

moved :
    (s : Tasks) (k : ℕ)
    → s.tasking_on ≡ true
    → s.current < 8
    → next_task 8 s.tasks s.current s.current ≡ (s.current + k) % 8
    → IsNext s.tasks s.current k
    → ((schedule s).1 ≡ record s { current = (s.current + k) % 8 })
      × ((schedule s).0 ≡ (if k == 8 then none else some (s.current, (s.current + k) % 8)))
unfolding schedule
moved s k on inside e is = elim (Bool-cases (k == 8)) [
  | inl whole ↦
      let back : (s.current + k) % 8 ≡ s.current = ground arith in
      let same : ((s.current + k) % 8 == s.current) ≡ true = ground arith in
      (rw (on, e, same) (rw back refl), rw (on, e, same, whole) refl)
  | inr part ↦
      let other : ((s.current + k) % 8 == s.current) ≡ false = ground (arith, is.1, is.0) in
      (rw (on, e, other) refl, rw (on, e, other, part) refl)
]

-- `schedule`, once `init_tasking` has turned tasking on, is round robin: the task that runs next is
-- the first ready one after the current in the cyclic order of the slots, and the current one stays
-- when no other task is ready. Nothing else changes.
pub schedule-IsNext :
    (s : Tasks)
    → s.current < 8
    → s.tasking_on ≡ true
    → (k : ℕ) × IsNext s.tasks s.current k
      × ((schedule s).1 ≡ record s { current = (s.current + k) % 8 })
      × ((schedule s).0 ≡ (if k == 8 then none else some (s.current, (s.current + k) % 8)))
schedule-IsNext s inside on =
    let start : (s.current + 0) % 8 ≡ s.current = omega arith in
    let (k, e, is) =
      next_task-IsNext 8 s.tasks s.current 0 inside refl (omega arith)
        (λ j p le. absurd (omega arith)) in
    let e' : next_task 8 s.tasks s.current s.current ≡ (s.current + k) % 8 =
      ap (next_task 8 s.tasks s.current) (sym start) ∙ e in
    let result = moved s k on inside e' is in (k, is, result.0, result.1)

free_slot-lt :
    (left i : ℕ) (tasks : ℕ → Task) (n : ℕ)
    → free_slot left i tasks ≡ some n
    → (i ≤ n) × (n < i + left) × ((tasks n).state ≡ 0)
unfolding free_slot
free_slot-lt zero i tasks n e = absurd (cc e)
free_slot-lt (suc left) i tasks n e = elim (Bool-cases ((tasks i).state == 0)) [
  | inl free ↦ let q : i ≡ n = ground arith in ground (arith, ap (λ j. (tasks j).state) q)
  | inr taken ↦
      let ih = free_slot-lt left (i + 1) tasks n (ground arith) in
      (omega (arith, ih.0), omega (arith, ih.1), ih.2)
]

free_slot-none :
    (left i : ℕ) (tasks : ℕ → Task)
    → free_slot left i tasks ≡ none
    → (j : ℕ) → i ≤ j
    → j < i + left
    → (tasks j).state ≢ 0
unfolding free_slot
free_slot-none zero i tasks e j from to = absurd (omega arith)
free_slot-none (suc left) i tasks e j from to = elim (Bool-cases ((tasks i).state == 0)) [
  | inl free ↦ absurd (ground arith)
  | inr taken ↦ elim (Bool-cases (i == j)) [
    | inl here ↦
        let q : i ≡ j = ground arith in subst (λ (k : ℕ). (tasks k).state ≢ 0) q (ground arith)
    | inr further ↦ free_slot-none left (i + 1) tasks (ground arith) j (ground arith) (omega arith)
  ]
]

-- What `switch_task` finds at a stack pointer: six registers to pop, and the addresses that its `ret`,
-- the one of `task_start`, and the entry's own go to.
abbrev pub Starts : (mem : ℕ → ℕ) (rsp exit_address start_address entry : ℕ) → Type 0
Starts mem rsp exit_address start_address entry =
    ((j : ℕ) → j < 6 → mem (rsp + 8 * j) ≡ 0)
    × (mem (rsp + 48) ≡ start_address)
    × (mem (rsp + 56) ≡ entry)
    × (mem (rsp + 64) ≡ exit_address)

-- How a call of `task_create` may end.
abbrev pub Created : (exit_address start_address entry : ℕ) → Tasks → Pmm → Type 0
Created exit_address start_address entry s pmm =
    let (slot, s', pmm') = task_create exit_address start_address entry s pmm in
    let page = (pmm_alloc pmm).0 in
    ((slot ≡ none) × (s' ≡ s) × (pmm' ≡ pmm) × ((i : ℕ) → 0 < i → i < 8 → (s.tasks i).state ≢ 0))
    ⊎ ((i : ℕ) × (slot ≡ some i)
        × (0 < i)
        × (i < 8)
        × ((s.tasks i).state ≡ 0)
        × ((s'.tasks i).state ≡ 1)
        × ((s'.tasks i).rsp ≡ page + 4096 - 72)
        × Starts pmm'.mem (page + 4096 - 72) exit_address start_address entry
        × ((j : ℕ) → j ≢ i → s'.tasks j ≡ s.tasks j)
        × ((a : ℕ)
            → (a < page + 4096 - 72) ⊎ (page + 4096 ≤ a)
            → pmm'.mem a ≡ (pmm_alloc pmm).1.mem a))

-- If one of the slots 1 to 7 is free `task_create` takes a free one of them, makes it ready, and prepares the top 72 bytes of a
-- page for the first switch to it: the task starts at its entry, and returns to `task_exit`. The
-- other slots, and the memory outside those bytes, are as before. Only if none of them is free it fails, and nothing changes.
pub task_create-Starts :
    (exit_address start_address entry : ℕ) (s : Tasks) (pmm : Pmm)
    → Created exit_address start_address entry s pmm
unfolding task_create push_all
task_create-Starts exit_address start_address entry s pmm =
    elim (Option-cases (free_slot 7 1 s.tasks)) [
      | inl e ↦
          rw (e, task_create)
            (inl (
              refl,
              refl,
              refl,
              λ i some_slot less. free_slot-none 7 1 s.tasks e i (omega arith) (omega arith),
            ))
      | inr (i, e) ↦
          let at = free_slot-lt 7 1 s.tasks i e in
          let page = (pmm_alloc pmm).0 in
          rw (e, task_create)
            (inr (
              i,
              refl,
              omega (arith, at.0),
              omega (arith, at.1),
              at.2,
              ground arith,
              ground arith,
              (λ j h. ground arith, ground arith, ground arith, ground arith),
              λ j ne. ground arith,
              λ a out. ground arith,
            ))
    ]
