-- ===== src/Tasks/Tests.antt =====
-- Instances of the scheduler's theorems.
use solstice_os.Base.{
  ◌≤◌, ◌*◌, ℕ, ◌+◌, ◌%◌, ◌≡◌, ◌==◌, true, if◌then◌else◌, none, some, arith, refl, ltb,
}
use solstice_os.Memory.Pmm.{Pmm}
use solstice_os.Tasks.{Task, Tasks, schedule, next_task}
use solstice_os.Tasks.Fairness.{turns, schedule-turn}
use solstice_os.Tasks.Turns.{IsNext, schedule-IsNext, Created, task_create-Starts}

-- Tasks 0 to 2 are ready, and 2 is running.
abbrev three : Tasks
three = record {
  tasks = λ i. record { rsp = 4096 * i; state = if ltb i 3 then 1 else 0 };
  current = 2;
  tasking_on = true;
}

schedule-IsNext_example :
    (k : ℕ) × IsNext three.tasks 2 k
    × ((schedule three).1 ≡ record three { current = (2 + k) % 8 })
    × ((schedule three).0 ≡ (if k == 8 then none else some (2, (2 + k) % 8)))
schedule-IsNext_example = schedule-IsNext three (omega arith) refl

-- After task 2 it is the turn of task 0.
three_turn : (schedule three).0 ≡ some (2, 0)
unfolding schedule next_task
three_turn = refl

abbrev one_page : Pmm
one_page = record { mem = λ a. 0; head = 0x200000; total = 1 }

task_create-Starts_example : Created 0x1000 0x2000 0x3000 three one_page
task_create-Starts_example = task_create-Starts 0x1000 0x2000 0x3000 three one_page

-- Task 1 stays ready, and task 5 is ready at every second call.
abbrev busy : ℕ → ℕ → Task
busy n i = record { rsp = 0; state = if i == 1 then 1 else if i == 5 then n % 2 else 0 }

schedule-turn_example : (n : ℕ) × (n ≤ 7) × ((turns busy n three).current ≡ 1)
schedule-turn_example = schedule-turn busy three 1 (omega arith) refl (omega arith) (λ n. refl)
