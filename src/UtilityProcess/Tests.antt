-- ===== src/UtilityProcess/Tests.antt =====
-- Runs of internal/utilityprocess/process.go, and the theorems at a concrete process.
use golectron.Prelude.{◌≡◌, refl, true, false, some, pos, [], ◌∷◌, ok}
use golectron.Text.{codes, text_eq, is_space, trim_left, trim_right, trim_space}
use golectron.UtilityProcess.{
  Options, Process, not_running, stdio_pipe, bad_environment, normalize_options, fork, kill,
  start_call, post_message_call, write_stdin_call, kill_call, perform, run,
}
use golectron.UtilityProcess.Life.{IsConsistent, run-fork-IsConsistent}

abbrev given : Options
given = record {
  module_path = codes " worker.js";
  args = [];
  environment = codes "A=1" ∷ [];
  stdio = [];
  service_name = [];
  sandbox = true;
  disclaim_tcc = false;
}

abbrev normal : Options
normal = record {
  module_path = codes "worker.js";
  args = [];
  environment = codes "A=1" ∷ [];
  stdio = stdio_pipe;
  service_name = [];
  sandbox = true;
  disclaim_tcc = false;
}

given_normal : normalize_options given ≡ ok normal
unfolding normalize_options bad_environment trim_space trim_left trim_right is_space text_eq
given_normal = refl

abbrev forked : Process
forked = record { options = normal; running = false; events = []; stdin = [] }

fork_accepted : fork given ≡ ok forked
unfolding fork normalize_options bad_environment trim_space trim_left trim_right is_space text_eq
fork_accepted = refl

run-fork-IsConsistent_example : IsConsistent (
    run
      (start_call ∷ post_message_call (1 ∷ []) ∷ write_stdin_call (2 ∷ []) ∷ kill_call (pos 0) ∷ [])
      forked)
run-fork-IsConsistent_example =
    run-fork-IsConsistent given forked
      (start_call ∷ post_message_call (1 ∷ []) ∷ write_stdin_call (2 ∷ []) ∷ kill_call (pos 0) ∷ [])
      fork_accepted

kill_idle : (perform (kill_call (pos 1)) forked).0 ≡ some not_running
unfolding perform kill
kill_idle = refl
