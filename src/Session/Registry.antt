-- ===== src/Session/Registry.antt =====
-- `Registry` of internal/session/session.go: which session a partition has. A `*Session` is a
-- reference into the table `sessions`, and `next` is the next free one. What is done to a session
-- through its reference leaves the registry as it is.
pub mod Entered
pub mod Partitions
pub mod Tests
use golectron.Prelude.{
  ℕ, ◌+◌, Bool, true, false, ◌==◌, ltb, ◌||◌, Option, none, some, List, [], ◌∷◌, Outcome, ok, err,
  if◌then◌else◌,
}
use golectron.Text.{Text, codes, is_empty, trim_space, contains_any, has_prefix}
use golectron.Dict.{Dict, empty, put}
use golectron.Session.{SessionError, invalid_partition, Session, new_session}

pub record Registry (H : Type 0) : Type 0 where
  pub sessions : ℕ → Session H
  pub next : ℕ
  pub defaults : Option ℕ
  pub by_name : Dict ℕ

-- The constant `PersistPrefix`.
abbrev pub persist_prefix : Text
persist_prefix = codes "persist:"

abbrev pub no_partition : Text
no_partition = []

abbrev pub bad_partition : Text → Bool
bad_partition partition = contains_any partition (0 ∷ 13 ∷ 10 ∷ [])

module _ {H : Type 0} where
  pub new_registry : Registry H
  new_registry = record {
    sessions = λ ref. new_session no_partition true;
    next = 0;
    defaults = none;
    by_name = empty;
  }

  abbrev pub allocate : Session H → Registry H → Registry H
  allocate s r = record r {
    sessions = λ ref. if ref == r.next then s else r.sessions ref;
    next = r.next + 1;
  }

  pub default_session : Registry H → ℕ × Registry H
  default_session r = elim r.defaults [
    | some ref ↦ (ref, r)
    | none ↦
        (r.next, record (allocate (new_session no_partition true) r) { defaults = some r.next })
  ]

  -- The session of a partition that is not empty.
  pub partition_session : Text → Registry H → ℕ × Registry H
  partition_session partition r = elim (r.by_name partition) [
    | some ref ↦ (ref, r)
    | none ↦ (
      r.next,
      record (allocate (new_session partition (has_prefix partition persist_prefix)) r) {
        by_name = put partition r.next r.by_name;
      },
    )
  ]

  abbrev pub found : ℕ × Registry H → Outcome SessionError ℕ × Registry H
  found (ref, r) = (ok ref, r)

  pub from_partition : Text → Registry H → Outcome SessionError ℕ × Registry H
  from_partition raw r =
      let partition = trim_space raw in
      if bad_partition partition
      then (err invalid_partition, r)
      else if is_empty partition
      then found (default_session r)
      else found (partition_session partition r)

-- A call of a client.
pub data Call : Type 0 where
  default_call : Call
  partition_call : Text → Call

module _ {H : Type 0} where
  pub perform : Call → Registry H → Registry H
  perform default_call r = (default_session r).1
  perform (partition_call partition) r = (from_partition partition r).1

  pub run : List Call → Registry H → Registry H
  run [] r = r
  run (c ∷ cs) r = run cs (perform c r)
