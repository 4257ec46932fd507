-- ===== src/GlobalShortcut/Registry/Tests.antt =====
-- Runs of internal/globalshortcut/registry.go, and the theorems at a concrete registry.
use golectron.Prelude.{ℕ, ◌+◌, some, [], ◌∷◌}
use golectron.Text.{Text}
use golectron.GlobalShortcut.Accelerator.Tests.{plain, plain-CaseLaws, typed}
use golectron.GlobalShortcut.Registry.{Registry, new_registry, register_call, trigger_call, run}
use golectron.GlobalShortcut.Registry.Canonical.{IsCanonical, CallsKeep, run-IsCanonical}

abbrev blank : Registry ℕ
blank = new_registry

-- A callback adds its number to the world.
abbrev count : ℕ → ℕ × Registry ℕ → ℕ × Registry ℕ
count h s = (h + s.0, s.1)

abbrev silent : ℕ → Text → ℕ × Registry ℕ → ℕ × Registry ℕ
silent h k s = s

count-CallsKeep : CallsKeep plain count silent
count-CallsKeep = record { call_back_keeps = λ h s p. p; call_hook_keeps = λ h k s p. p }

run-IsCanonical_example :
    IsCanonical plain
      (run plain count silent
        (register_call typed (some 7) ∷ trigger_call typed ∷ [])
        (1, blank)).1.callbacks
run-IsCanonical_example =
    run-IsCanonical plain count silent plain-CaseLaws count-CallsKeep
      (register_call typed (some 7) ∷ trigger_call typed ∷ []) 1
