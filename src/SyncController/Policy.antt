-- ===== src/SyncController/Policy.antt =====
-- modeling/exchange.txt: the rules for a local entry and a downloaded change, as a function on
-- entries that knows nothing of tables, files or transactions.
use qt_data_sync.Common.{ℕ, ◌+◌, true, false, not, Option, none, some, if◌then◌else◌, ltb}
use qt_data_sync.Common.Equality.{◌==◌, nat_eq}
use qt_data_sync.Json.{Bytes, Fields, json_hash, is_empty}
use qt_data_sync.Environment.{Env, prefer_changed, prefer_deleted}
use qt_data_sync.LocalStore.Coherent.{Entry, absent, tombstone, present, broken}
use qt_data_sync.SyncController.{Remote, deleted, changed}

abbrev pub non_empty : Fields → Option Fields
non_empty d = if is_empty d then none else some d

-- What the resolver makes of two datasets: `none` if it throws, `some none` if it has no answer.
abbrev pub ask :
    Option (Bytes → Fields → Fields → Option Fields)
    → Bytes
    → Fields
    → Fields
    → Option (Option Fields)
ask none t d1 d2 = some none
ask (some f) t d1 d2 = elim (f t d1 d2) [ none ↦ none | some r ↦ some (non_empty r) ]

module _ {C : Type 0} (env : Env C) (t : Bytes) where
  -- Two different datasets of version `v`.
  unfoldable pub choose_data : ℕ → Fields → Fields → Option (Option Fields) → Option Entry
  choose_data v d1 d2 none = none
  choose_data v d1 d2 (some (some merged)) = some (present (v + 1) merged true)
  choose_data v d1 d2 (some none) =
      if ltb (json_hash env.text d2) (json_hash env.text d1)
      then some (present (v + 1) d1 true)
      else some (present (v + 1) d2 true)

  -- The entry after a change, or `none` where the resolver throws.
  unfoldable pub choose : Entry → Remote → Option Entry
  unfolding choose_data
  choose (present v1 d1 c) (deleted v2) =
      if ltb v1 v2
      then some (tombstone v2 (not env.persist_deleted))
      else if v1 == v2
      then elim env.conflict_policy [
        | prefer_changed ↦ some (present (v1 + 1) d1 true)
        | prefer_deleted ↦ some (tombstone (v2 + 1) true)
      ]
      else some (present v1 d1 c)
  choose (present v1 d1 c) (changed v2 d2) =
      if ltb v1 v2
      then some (present v2 d2 false)
      else if v1 == v2
      then (if json_hash env.text d1 == json_hash env.text d2
          then some (present v1 d1 false)
          else choose_data v1 d1 d2 (ask env.conflict_resolver t d1 d2))
      else some (present v1 d1 c)
  choose (tombstone v1 c) (deleted v2) =
      if ltb v2 v1
      then some (tombstone v1 c)
      else if env.persist_deleted
      then some (tombstone v2 false)
      else some absent
  choose (tombstone v1 c) (changed v2 d2) =
      if ltb v1 v2
      then some (present v2 d2 false)
      else if v1 == v2
      then elim env.conflict_policy [
        | prefer_changed ↦ some (present (v2 + 1) d2 true)
        | prefer_deleted ↦ some (tombstone (v1 + 1) true)
      ]
      else some (tombstone v1 c)
  choose absent (deleted v2) =
      if env.persist_deleted then some (tombstone v2 false) else some absent
  choose absent (changed v2 d2) = some (present v2 d2 false)
  choose broken remote = some broken
