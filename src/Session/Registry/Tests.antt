-- ===== src/Session/Registry/Tests.antt =====
-- Runs of the registry of internal/session/session.go, and the theorems at concrete partitions.
use golectron.Prelude.{ℕ, ◌≡◌, refl, List, [], ◌∷◌, ok}
use golectron.Text.{codes, text_eq, is_space, trim_left, trim_right, trim_space}
use golectron.Session.Registry.{
  new_registry, default_session, partition_session, from_partition, Call, default_call,
  partition_call, perform, run,
}
use golectron.Session.Registry.Entered.{IsSessionOf}
use golectron.Session.Registry.Partitions.{from_partition_again, from_partition-run}

names_same : trim_space (codes "persist:a") ≡ trim_space (codes " persist:a")
unfolding trim_space trim_left trim_right is_space
names_same = refl

asked_given : (from_partition {H = ℕ} (codes " persist:a") new_registry).0 ≡ ok 0
unfolding from_partition partition_session new_registry trim_space trim_left trim_right is_space
asked_given = refl

from_partition_again_example :
    (from_partition (codes "persist:a") (
      run
        (default_call ∷ partition_call (codes "b") ∷ [])
        (from_partition {H = ℕ} (codes " persist:a") new_registry).1)).0
    ≡ ok 0
from_partition_again_example =
    from_partition_again (codes " persist:a") (codes "persist:a") 0
      (default_call ∷ partition_call (codes "b") ∷ []) new_registry names_same asked_given

abbrev calls : List Call
calls = default_call ∷ partition_call (codes "b") ∷ []

third_given : (from_partition {H = ℕ} (codes "persist:a") (run calls new_registry)).0 ≡ ok 2
unfolding text_eq run perform default_session from_partition partition_session new_registry
    trim_space trim_left trim_right is_space
third_given = refl

from_partition-run_example :
    IsSessionOf
      (trim_space (codes "persist:a"))
      2
      (from_partition {H = ℕ} (codes "persist:a") (run calls new_registry)).1
from_partition-run_example = from_partition-run (codes "persist:a") 2 calls third_given
