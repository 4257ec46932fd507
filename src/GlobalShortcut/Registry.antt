-- ===== src/GlobalShortcut/Registry.antt =====
-- internal/globalshortcut/registry.go: the shortcuts an application holds, by canonical accelerator.
-- `H` is the type of the callbacks and hooks; calling one changes the world `W` and may call the
-- registry, since `Trigger` releases its lock first.
pub mod Laws
pub mod Canonical
pub mod Tests
use golectron.Prelude.{
  Bool, true, false, not, Option, none, some, List, [], ◌∷◌, Outcome, ok, err, if◌then◌else◌,
}
use golectron.Text.{Text, trim_space}
use golectron.Dict.{Dict, empty, put, delete, has}
use golectron.GlobalShortcut.Accelerator.{
  CaseTable, Accelerator, AcceleratorError, to_string, parse_accelerator,
}

pub data RegisterError : Type 0 where
  not_parsed : AcceleratorError → RegisterError
  callback_required : RegisterError

pub record Registry (H : Type 0) : Type 0 where
  pub callbacks : Dict H
  pub suspended : Bool
  pub trigger_hook : Option H

-- `NewRegistry`
abbrev pub new_registry : {H : Type 0} → Registry H
new_registry = record { callbacks = empty; suspended = false; trigger_hook = none }

-- What `RegisterAll` reports for one accelerator.
abbrev registered : Outcome RegisterError Bool → Bool
registered (ok b) = b
registered (err e) = false

module _ {H : Type 0} where
  pub unregister_all : Registry H → Registry H
  unregister_all r = record r { callbacks = empty }

  pub set_suspended : Bool → Registry H → Registry H
  set_suspended b r = record r { suspended = b }

  pub set_trigger_hook : Option H → Registry H → Registry H
  set_trigger_hook hook r = record r { trigger_hook = hook }

module _ (table : CaseTable) where
  pub canonical_accelerator : Text → Option Text
  canonical_accelerator accelerator = elim (parse_accelerator table accelerator) [
    | ok parsed ↦ some (to_string parsed)
    | err e ↦ none
  ]

  -- The name under which `RegisterAll` reports an accelerator.
  pub result_name : Text → Text
  result_name accelerator = elim (canonical_accelerator accelerator) [
    | some canonical ↦ canonical
    | none ↦ trim_space accelerator
  ]

module _ (table : CaseTable) {H : Type 0} where
  pub register : Text → Option H → Registry H → Outcome RegisterError Bool × Registry H
  register accelerator callback r = elim (parse_accelerator table accelerator) [
    | err e ↦ (err (not_parsed e), r)
    | ok parsed ↦ elim callback [
      | none ↦ (err callback_required, r)
      | some h ↦
          if has (r.callbacks (to_string parsed))
          then (ok false, r)
          else (ok true, record r { callbacks = put (to_string parsed) h r.callbacks })
    ]
  ]

  pub is_registered : Text → Registry H → Bool
  is_registered accelerator r = elim (canonical_accelerator table accelerator) [
    | none ↦ false
    | some canonical ↦ has (r.callbacks canonical)
  ]

  pub unregister : Text → Registry H → Registry H
  unregister accelerator r = elim (canonical_accelerator table accelerator) [
    | none ↦ r
    | some canonical ↦ record r { callbacks = delete canonical r.callbacks }
  ]

  -- The loop of `RegisterAll`, with the results so far.
  pub register_loop : List Text → Option H → Dict Bool → Registry H → Dict Bool × Registry H
  register_loop [] callback results r = (results, r)
  register_loop (a ∷ rest) callback results r =
      let s = register a callback r in
      register_loop rest callback (put (result_name table a) (registered s.0) results) s.1

  pub register_all : List Text → Option H → Registry H → Dict Bool × Registry H
  register_all accelerators callback r = register_loop accelerators callback empty r

-- One call of the registry's methods.
pub data Call (H : Type 0) : Type 0 where
  register_call : Text → Option H → Call H
  register_all_call : List Text → Option H → Call H
  unregister_call : Text → Call H
  unregister_all_call : Call H
  set_suspended_call : Bool → Call H
  set_trigger_hook_call : Option H → Call H
  trigger_call : Text → Call H

module _ (table : CaseTable) {H W : Type 0} (call_back : H → W × Registry H → W × Registry H)
    (call_hook : H → Text → W × Registry H → W × Registry H) where
  abbrev hooked : Option H → Text → W × Registry H → W × Registry H
  hooked none canonical s = s
  hooked (some hook) canonical s = call_hook hook canonical s

  pub trigger : Text → W × Registry H → Bool × (W × Registry H)
  trigger accelerator s = elim (canonical_accelerator table accelerator) [
    | none ↦ (false, s)
    | some canonical ↦ elim ((s.1).callbacks canonical) [
      | none ↦ (false, s)
      | some callback ↦
          if (s.1).suspended
          then (true, s)
          else (true, call_back callback (hooked (s.1).trigger_hook canonical s))
    ]
  ]

  pub perform : Call H → W × Registry H → W × Registry H
  perform (register_call a h) s = (s.0, (register table a h s.1).1)
  perform (register_all_call names h) s = (s.0, (register_all table names h s.1).1)
  perform (unregister_call a) s = (s.0, unregister table a s.1)
  perform unregister_all_call s = (s.0, unregister_all s.1)
  perform (set_suspended_call b) s = (s.0, set_suspended b s.1)
  perform (set_trigger_hook_call h) s = (s.0, set_trigger_hook h s.1)
  perform (trigger_call a) s = (trigger a s).1

  pub run : List (Call H) → W × Registry H → W × Registry H
  run [] s = s
  run (c ∷ cs) s = run cs (perform c s)
