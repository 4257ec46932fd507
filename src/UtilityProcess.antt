-- ===== src/UtilityProcess.antt =====
-- internal/utilityprocess/process.go: a helper process and its event log. The getters' copies of
-- slices have no counterpart, since values are never shared here.
pub mod Life
pub mod Tests
use golectron.Prelude.{
  ℕ, ℤ, Bool, true, false, not, ◌&&◌, ◌||◌, Option, none, some, List, [], ◌∷◌, ◌++◌, Outcome, ok,
  err, any, if◌then◌else◌,
}
use golectron.Text.{Text, codes, text_eq, is_empty, trim_space, contains_any}

pub data OptionsField : Type 0 where
  module_path_required stdio_field environment_field : OptionsField

pub data ProcessError : Type 0 where
  invalid_options : OptionsField → ProcessError
  not_running already_running stdin_not_piped : ProcessError

abbrev pub stdio_pipe : Text
stdio_pipe = codes "pipe"

abbrev pub stdio_ignore : Text
stdio_ignore = codes "ignore"

abbrev pub stdio_inherit : Text
stdio_inherit = codes "inherit"

pub record Options : Type 0 where
  pub module_path : Text
  pub args : List Text
  pub environment : List Text
  pub stdio : Text
  pub service_name : Text
  pub sandbox : Bool
  pub disclaim_tcc : Bool

-- An `EventRecord`: a spawn, a message with its bytes, an exit with its code.
pub data EventRecord : Type 0 where
  event_spawn : EventRecord
  event_message : List ℕ → EventRecord
  event_exit : ℤ → EventRecord

pub record Process : Type 0 where
  pub options : Options
  pub running : Bool
  pub events : List EventRecord
  pub stdin : List (List ℕ)

-- The characters that end a line or a string of the environment.
abbrev control_characters : Text
control_characters = 0 ∷ 13 ∷ 10 ∷ []

pub bad_environment : Text → Bool
bad_environment env = not (contains_any env (codes "=")) || contains_any env control_characters

abbrev known_stdio : Text → Bool
known_stdio s = text_eq s stdio_pipe || (text_eq s stdio_ignore || text_eq s stdio_inherit)

pub normalize_options : Options → Outcome ProcessError Options
normalize_options o =
    let path = trim_space o.module_path in
    let stdio = if is_empty o.stdio then stdio_pipe else o.stdio in
    if is_empty path
    then err (invalid_options module_path_required)
    else if not (known_stdio stdio)
    then err (invalid_options stdio_field)
    else if any bad_environment o.environment
    then err (invalid_options environment_field)
    else ok
        (record o { module_path = path; service_name = trim_space o.service_name; stdio = stdio })

pub fork : Options → Outcome ProcessError Process
fork o = elim (normalize_options o) [
  | err e ↦ err e
  | ok normalized ↦ ok (record { options = normalized; running = false; events = []; stdin = [] })
]

pub start : Process → Option ProcessError × Process
start p =
    if p.running
    then (some already_running, p)
    else (none, record p { running = true; events = p.events ++ event_spawn ∷ [] })

pub post_message : List ℕ → Process → Option ProcessError × Process
post_message message p =
    if not p.running
    then (some not_running, p)
    else (none, record p { events = p.events ++ event_message message ∷ [] })

pub write_stdin : List ℕ → Process → Option ProcessError × Process
write_stdin bytes p =
    if not p.running
    then (some not_running, p)
    else if not (text_eq p.options.stdio stdio_pipe)
    then (some stdin_not_piped, p)
    else (none, record p { stdin = p.stdin ++ bytes ∷ [] })

pub kill : ℤ → Process → Option ProcessError × Process
kill exit_code p =
    if not p.running
    then (some not_running, p)
    else (none, record p { running = false; events = p.events ++ event_exit exit_code ∷ [] })

pub data Call : Type 0 where
  start_call : Call
  post_message_call : List ℕ → Call
  write_stdin_call : List ℕ → Call
  kill_call : ℤ → Call

pub perform : Call → Process → Option ProcessError × Process
perform start_call p = start p
perform (post_message_call m) p = post_message m p
perform (write_stdin_call d) p = write_stdin d p
perform (kill_call c) p = kill c p

pub run : List Call → Process → Process
run [] p = p
run (c ∷ cs) p = run cs (perform c p).1
