-- ===== src/ContextBridge/Tests.antt =====
-- Runs of internal/contextbridge/bridge.go, and the theorems at a concrete bridge.
use golectron.Prelude.{pos, ◌≡◌, refl, false, none, some, [], ◌∷◌, ok}
use golectron.Text.{codes, text_eq, is_space, trim_left, trim_right, trim_space}
use golectron.ContextBridge.{
  Value, num, fn, object, empty, member, put_member, bad_api_key, clone_value, Bridge,
  expose_cloned, expose_in_isolated_world, exposure, mutate_exposure, mutation_not_allowed,
  expose_call, complete_preload_call, run,
}
use golectron.ContextBridge.Frozen.Cloned.{clone_value_idem}
use golectron.ContextBridge.Exposed.{expose_stays}

abbrev api : Value
api = object (member (codes " send") (fn (codes "send ")) (member (codes "version") (num 3) empty))

abbrev cloned_api : Value
cloned_api =
    object (member (codes "send") (fn (codes "send")) (member (codes "version") (num 3) empty))

api_cloned : clone_value api ≡ ok cloned_api
unfolding clone_value put_member text_eq trim_space trim_left trim_right is_space
api_cloned = refl

clone_value_idem_example : clone_value cloned_api ≡ ok cloned_api
clone_value_idem_example = clone_value_idem api cloned_api api_cloned

abbrev fresh : Bridge
fresh = record { preload_complete = false; exposures = λ world key. none }

key_good : bad_api_key (trim_space (codes "api")) ≡ false
unfolding trim_space trim_left trim_right is_space
key_good = refl

api_exposed : (expose_in_isolated_world (pos 0) (codes "api") api fresh).0 ≡ none
unfolding expose_in_isolated_world expose_cloned clone_value put_member text_eq trim_space trim_left
    trim_right is_space
api_exposed = refl

abbrev later : Bridge
later =
    run (complete_preload_call ∷ expose_call (pos 0) (codes "api") (num 4) ∷ [])
      (expose_in_isolated_world (pos 0) (codes "api") api fresh).1

expose_stays_example :
    (exposure (pos 0) (trim_space (codes "api")) later ≡ some cloned_api)
    × (mutate_exposure (pos 0) (trim_space (codes "api")) (num 1) later ≡ mutation_not_allowed)
expose_stays_example =
    expose_stays (pos 0) (codes "api") api cloned_api (num 1) fresh
      (complete_preload_call ∷ expose_call (pos 0) (codes "api") (num 4) ∷ []) refl refl key_good
      api_cloned api_exposed
