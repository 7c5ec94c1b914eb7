-- ===== src/Supervisor/Launch.antt =====
-- Start of internal/adapters/process/supervisor.go: how it classifies what happens to a launch.
use harnessing.Prelude.{
  String, Bool, true, false, not, Option, none, some, List, [], ◌∷◌, ◌≡◌, str_eq, if◌then◌else◌,
  ◌||◌,
}
use harnessing.Domain.Errors.{
  Result, ok, fail, ErrorCode, invalid_argument, missing_tool, spawn_failed, unsupported,
}
use harnessing.Domain.Records.{ExecutionSpec}

-- What the operating system answers: exec.LookPath, writeContextFile, the two pipes, cmd.Start,
-- waitidPeek as often as it is called before the deadline (`none` for its error), and reapLeader.
pub record LaunchAnswers : Type 0 where
  pub on_path : Bool
  pub context_written : Bool
  pub stdout_pipe : Bool
  pub stderr_pipe : Bool
  pub spawned : Bool
  pub peeks : List (Option Bool)
  pub reap_ok : Bool

-- The process as the operating system has it.
pub data Process : Type 0 where
  absent running exited reaped : Process

-- The process, whether the supervisor's map has its record, and whether its natural exit is observed.
pub record Launched : Type 0 where
  pub process : Process
  pub registered : Bool
  pub observed : Bool

abbrev pub nothing_launched : Launched
nothing_launched = record { process = absent; registered = false; observed = false }

-- cmd.Start, waitidPeek and reapLeader, as far as the process goes.
abbrev pub cmd_start : Bool → Launched → Launched
cmd_start spawned l = if spawned then record l { process = running } else l

abbrev pub waitid_peek : Option Bool → Launched → Launched
waitid_peek (some true) l = record l { process = exited }
waitid_peek _ l = l

abbrev pub reap_leader : Bool → Launched → Launched
reap_leader reap_ok l = if reap_ok then record l { process = reaped } else l

-- forget
abbrev pub forget : Launched → Launched
forget l = record l { registered = false }

-- The loop over waitidPeek within StartupWindow; the error of the reap only words the detail.
unfoldable pub startup_window : Bool → List (Option Bool) → Launched → Result (Unit {0}) × Launched
startup_window reap_ok [] l = (ok tt, record l { observed = true })
startup_window reap_ok (none ∷ peeks) l = (fail spawn_failed, forget (waitid_peek none l))
startup_window reap_ok (some true ∷ peeks) l =
    (fail spawn_failed, forget (reap_leader reap_ok (waitid_peek (some true) l)))
startup_window reap_ok (some false ∷ peeks) l =
    startup_window reap_ok peeks (waitid_peek (some false) l)

abbrev pub start_process : LaunchAnswers → Launched → Result (Unit {0}) × Launched
start_process a l =
    if not a.spawned
    then (fail spawn_failed, l)
    else startup_window a.reap_ok a.peeks (record l { registered = true })

abbrev pub spawn : LaunchAnswers → Launched → Result (Unit {0}) × Launched
spawn a l =
    if not a.stdout_pipe || not a.stderr_pipe
    then (fail spawn_failed, l)
    else start_process a (cmd_start a.spawned l)

abbrev pub with_transport : LaunchAnswers → String → Launched → Result (Unit {0}) × Launched
with_transport a transport l =
    if str_eq transport ""
    then spawn a l
    else if str_eq transport "context-file"
    then (if a.context_written then spawn a l else (fail spawn_failed, l))
    else (fail unsupported, l)

abbrev pub launch : LaunchAnswers → List String → String → Launched → Result (Unit {0}) × Launched
launch a [] transport l = (fail invalid_argument, l)
launch a (executable ∷ args) transport l =
    if a.on_path then with_transport a transport l else (fail missing_tool, l)

-- Start
unfoldable pub start : LaunchAnswers → ExecutionSpec → Result (Unit {0}) × Launched
start a spec = launch a spec.args spec.context_transport nothing_launched

abbrev pub is_lost : List (Option Bool) → Bool
is_lost [] = false
is_lost (none ∷ peeks) = true
is_lost (some b ∷ peeks) = is_lost peeks

-- Why a launch failed, and what it leaves of the process.
pub data Failure (a : LaunchAnswers) (args : List String) (transport : String) (c : ErrorCode)
    (p : Process) : Type 0 where
  no_executable : args ≡ [] → c ≡ invalid_argument → p ≡ absent → Failure a args transport c p
  not_on_path : a.on_path ≡ false → c ≡ missing_tool → p ≡ absent → Failure a args transport c p
  other_transport :
      str_eq transport "" ≡ false
      → str_eq transport "context-file" ≡ false
      → c ≡ unsupported
      → p ≡ absent
      → Failure a args transport c p
  not_spawned : c ≡ spawn_failed → p ≡ absent → Failure a args transport c p
  exited_early :
      c ≡ spawn_failed → p ≡ (if a.reap_ok then reaped else exited) → Failure a args transport c p
  unobservable :
      is_lost a.peeks ≡ true → c ≡ spawn_failed → p ≡ running → Failure a args transport c p

abbrev pub left_running : Launched
left_running = record { process = running; registered = true; observed = true }

-- What the engine is told, and what is left.
pub data IsClassified (a : LaunchAnswers) (args : List String) (transport : String)
    (r : Result (Unit {0}) × Launched) : Type 0 where
  runs : r.0 ≡ ok tt → r.1 ≡ left_running → IsClassified a args transport r
  failed :
      (c : ErrorCode)
      → r.0 ≡ fail c
      → r.1.registered ≡ false
      → r.1.observed ≡ false
      → Failure a args transport c r.1.process
      → IsClassified a args transport r
