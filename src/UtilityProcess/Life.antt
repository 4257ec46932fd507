-- ===== src/UtilityProcess/Life.antt =====
-- The life of a utility process of internal/utilityprocess/process.go, read off its event log.
use golectron.Prelude.{
  ℕ, ℤ, ◌≡◌, refl, Bool, true, false, not, Option, none, some, List, [], ◌∷◌, ◌++◌, Outcome, ok,
  err, any, if◌then◌else◌, if-elim, arith, ◌∙◌, sym, Outcome-cases, subst, inl, inr,
}
use golectron.Text.{Text, text_eq, is_empty, trim_space}
use golectron.Text.Trim.{trim_space_idem}
use golectron.UtilityProcess.{
  Options, EventRecord, event_spawn, event_message, event_exit, Process, ProcessError,
  bad_environment, known_stdio, stdio_pipe, normalize_options, fork, start, post_message,
  write_stdin, kill, Call, start_call, post_message_call, write_stdin_call, kill_call, perform, run,
}

-- Whether the process runs after a log: it runs from a spawn to the next exit, a message comes only
-- while it runs, and `none` stands for a log that no process writes.
abbrev pub running_after : List EventRecord → Bool → Option Bool
running_after [] b = some b
running_after (event_spawn ∷ es) b = if b then none else running_after es true
running_after (event_message m ∷ es) b = if b then running_after es true else none
running_after (event_exit c ∷ es) b = if b then running_after es false else none

abbrev then_event : Option Bool → EventRecord → Option Bool
then_event none e = none
then_event (some b) e = running_after (e ∷ []) b

running_after-snoc :
    (es : List EventRecord) (b : Bool) (e : EventRecord)
    → running_after (es ++ e ∷ []) b ≡ then_event (running_after es b) e
running_after-snoc [] b e = refl
running_after-snoc (event_spawn ∷ es) true e = refl
running_after-snoc (event_spawn ∷ es) false e = running_after-snoc es true e
running_after-snoc (event_message m ∷ es) true e = running_after-snoc es true e
running_after-snoc (event_message m ∷ es) false e = refl
running_after-snoc (event_exit c ∷ es) true e = running_after-snoc es false e
running_after-snoc (event_exit c ∷ es) false e = refl

-- The log agrees with the process, and data went to stdin only if that is a pipe.
pub record IsConsistent (p : Process) : Type 0 where
  pub logged : running_after p.events false ≡ some p.running
  pub piped : text_eq p.options.stdio stdio_pipe ≡ false → p.stdin ≡ []

start-IsConsistent : (p : Process) → IsConsistent p → IsConsistent (start p).1
unfolding start
start-IsConsistent p h =
    if-elim (λ (s : Option ProcessError × Process). IsConsistent s.1) p.running (λ _. h)
      (λ e. record {
        logged = running_after-snoc p.events false event_spawn ∙ rw (h.logged, e) refl;
        piped = h.piped;
      })

of_not : (b : Bool) → not b ≡ false → b ≡ true
of_not true e = refl
of_not false e = sym e

post_message-IsConsistent :
    (m : List ℕ) (p : Process) → IsConsistent p → IsConsistent (post_message m p).1
unfolding post_message
post_message-IsConsistent m p h =
    if-elim (λ (s : Option ProcessError × Process). IsConsistent s.1) (not p.running) (λ _. h)
      (λ e. record {
        logged =
            running_after-snoc p.events false (event_message m)
            ∙ rw (h.logged, of_not p.running e) refl;
        piped = h.piped;
      })

write_stdin-IsConsistent :
    (d : List ℕ) (p : Process) → IsConsistent p → IsConsistent (write_stdin d p).1
unfolding write_stdin
write_stdin-IsConsistent d p h =
    if-elim (λ (s : Option ProcessError × Process). IsConsistent s.1) (not p.running) (λ _. h)
      (λ _.
        if-elim (λ (s : Option ProcessError × Process). IsConsistent s.1)
          (not (text_eq p.options.stdio stdio_pipe)) (λ _. h)
          (λ e. record {
            logged = h.logged;
            piped = λ f. cc (f, of_not (text_eq p.options.stdio stdio_pipe) e);
          }))

kill-IsConsistent : (c : ℤ) (p : Process) → IsConsistent p → IsConsistent (kill c p).1
unfolding kill
kill-IsConsistent c p h =
    if-elim (λ (s : Option ProcessError × Process). IsConsistent s.1) (not p.running) (λ _. h)
      (λ e. record {
        logged =
            running_after-snoc p.events false (event_exit c)
            ∙ rw (h.logged, of_not p.running e) refl;
        piped = h.piped;
      })

perform-IsConsistent : (c : Call) (p : Process) → IsConsistent p → IsConsistent (perform c p).1
unfolding perform
perform-IsConsistent start_call p h = start-IsConsistent p h
perform-IsConsistent (post_message_call m) p h = post_message-IsConsistent m p h
perform-IsConsistent (write_stdin_call d) p h = write_stdin-IsConsistent d p h
perform-IsConsistent (kill_call c) p h = kill-IsConsistent c p h

run-Consistent : (cs : List Call) (p : Process) → IsConsistent p → IsConsistent (run cs p)
unfolding run
run-Consistent [] p h = h
run-Consistent (c ∷ cs) p h = run-Consistent cs (perform c p).1 (perform-IsConsistent c p h)

fork_at :
    (o n : Options)
    → normalize_options o ≡ ok n
    → fork o ≡ ok (record { options = n; running = false; events = []; stdin = [] })
unfolding fork
fork_at o n e = rw (e, fork) refl

fork_refused : (o : Options) (e : ProcessError) → normalize_options o ≡ err e → fork o ≡ err e
unfolding fork
fork_refused o e h = rw (h, fork) refl

made : {p q : Process} → Path (Outcome ProcessError Process) (ok p) (ok q) → p ≡ q
made e = cc e

fork-IsConsistent : (o : Options) (p : Process) → fork o ≡ ok p → IsConsistent p
fork-IsConsistent o p h = elim (Outcome-cases (normalize_options o)) [
  | inl (n, e) ↦
      subst IsConsistent (made (sym (fork_at o n e) ∙ h))
        (record { logged = refl; piped = λ f. refl })
  | inr (x, e) ↦ cc (h, fork_refused o x e)
]

-- Whatever calls a process that was forked has answered, its log is a sequence of lives, each a
-- spawn, messages and an exit, where the last may still go on; the process runs exactly if it does;
-- and where its stdin is no pipe, nothing was written there.
pub run-fork-IsConsistent :
    (o : Options) (p : Process) (cs : List Call) → fork o ≡ ok p → IsConsistent (run cs p)
run-fork-IsConsistent o p cs h = run-Consistent cs p (fork-IsConsistent o p h)

-- A call that is refused leaves the process as it was.
pub perform-refused :
    (c : Call) (p : Process) (e : ProcessError) → (perform c p).0 ≡ some e → (perform c p).1 ≡ p
unfolding perform start post_message write_stdin kill
perform-refused start_call p e h = ground arith
perform-refused (post_message_call m) p e h = ground arith
perform-refused (write_stdin_call d) p e h = ground arith
perform-refused (kill_call c) p e h = ground arith

-- Options that `normalize_options` answers.
record IsNormal (n : Options) : Type 0 where
  path : trim_space n.module_path ≡ n.module_path
  path_given : is_empty n.module_path ≡ false
  stdio_given : is_empty n.stdio ≡ false
  stdio_known : not (known_stdio n.stdio) ≡ false
  service : trim_space n.service_name ≡ n.service_name
  environment_good : any bad_environment n.environment ≡ false

IsNormal-normalize_options : (n : Options) → IsNormal n → normalize_options n ≡ ok n
unfolding normalize_options
IsNormal-normalize_options n h =
    rw (h.path, h.path_given, h.stdio_given, h.stdio_known, h.environment_good, h.service) refl

stdio_nonempty : (s : Text) → is_empty (if is_empty s then stdio_pipe else s) ≡ false
stdio_nonempty [] = refl
stdio_nonempty (c ∷ s) = refl

answered : {n m : Options} → Path (Outcome ProcessError Options) (ok n) (ok m) → n ≡ m
answered e = cc e

normalize_options-IsNormal : (o n : Options) → normalize_options o ≡ ok n → IsNormal n
unfolding normalize_options
normalize_options-IsNormal o n =
    if-elim (λ s. s ≡ ok n → IsNormal n) (is_empty (trim_space o.module_path)) (λ _ h. cc h)
      (λ path.
        if-elim (λ s. s ≡ ok n → IsNormal n)
          (not (known_stdio (if is_empty o.stdio then stdio_pipe else o.stdio))) (λ _ h. cc h)
          (λ known.
            if-elim (λ s. s ≡ ok n → IsNormal n) (any bad_environment o.environment) (λ _ h. cc h)
              (λ good h. subst IsNormal (answered h) (record {
                path = trim_space_idem o.module_path;
                path_given = path;
                stdio_given = stdio_nonempty o.stdio;
                stdio_known = known;
                service = trim_space_idem o.service_name;
                environment_good = good;
              }))))

-- Options that were normalized are normalized to themselves.
pub normalize_options_stable :
    (o n : Options) → normalize_options o ≡ ok n → normalize_options n ≡ ok n
normalize_options_stable o n h = IsNormal-normalize_options n (normalize_options-IsNormal o n h)
