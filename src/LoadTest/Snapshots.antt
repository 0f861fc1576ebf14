-- ===== src/LoadTest/Snapshots.antt =====
-- The statistics of loadtest/scenarios/user_flow.go when users and `snapshot` run at once.
-- `record` and `snapshot` hold the mutex; `recordError` does not, so that it can come between the
-- `Load` and the `Store` of `snapshot`.
pub mod Reported
use go_api_gateway.Prelude.{ℕ, ◌≡◌, Option, none, some, List, [], ◌∷◌, ◌++◌}
use go_api_gateway.LoadTest.{Stats, new_stats, record_reply, record_error, Snapshot, taken}

-- The statistics, what a `snapshot` that is under way has read, and the snapshots that are over, in
-- their order.
pub record Flow : Type 0 where
  pub stats : Stats
  pub reading : Option Snapshot
  pub reports : List Snapshot

abbrev pub new_flow : Flow
new_flow = record { stats = new_stats; reading = none; reports = [] }

-- A call of `record` or of `recordError`, or one half of a `snapshot`.
pub data Op : Type 0 where
  reply : (code d : ℕ) → Op
  error : Op
  load : Op
  store : Op

-- One step, and which it was. `store` stands for the three assignments behind `Load`.
pub data Step : Flow → Op → Flow → Type 0 where
  replied :
      (f : Flow) (code d : ℕ)
      → f.reading ≡ none
      → Step f (reply code d) (record f { stats = record_reply code d f.stats })
  erred : (f : Flow) → Step f error (record f { stats = record_error f.stats })
  loaded : (f : Flow) → f.reading ≡ none → Step f load (record f { reading = some (taken f.stats) })
  stored :
      (f : Flow) (snap : Snapshot)
      → f.reading ≡ some snap
      → Step f store
          (record { stats = new_stats; reading = none; reports = f.reports ++ snap ∷ [] })

-- The steps from one state to another, in their order.
pub data Run : Flow → List Op → Flow → Type 0 where
  done : (f : Flow) → Run f [] f
  then_ : {f g h : Flow} {op : Op} {ops : List Op} → Step f op g → Run g ops h → Run f (op ∷ ops) h
