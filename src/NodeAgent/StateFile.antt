-- ===== src/NodeAgent/StateFile.antt =====
-- `StateFileSimulationAdapter` of apps/node-agent/src/simulation-adapter.ts. The file's text, its
-- JSON with the shape and the formats of the schema, the hash and the file operations are parameters:
-- which of the operations throws, and what a write that throws leaves in the temporary file. What a power
-- failure does to unsynchronized files is not modelled.
pub mod Durability
use vpnplatform.Base.{
  ℕ, Bool, true, false, ◌&&◌, ◌||◌, not, Option, none, some, ltb, ◌==◌, if◌then◌else◌,
}
use vpnplatform.NodeAgent.Snapshot.{Snapshot, snapshot_valid}

pub record PersistedState : Type 0 where
  pub version : ℕ
  pub snapshot_hash : ℕ
  pub applied_at : ℕ
  pub snapshot : Snapshot

pub record StateEnvelope : Type 0 where
  pub current : PersistedState
  pub previous : Option PersistedState

-- The texts of the state file and of the temporary file, where they exist.
pub record Files (Text : Type 0) : Type 0 where
  pub state : Option Text
  pub temporary : Option Text

-- `JSON.stringify` with a line's end, and `JSON.parse` with the shape of the schema, which may refuse
-- a text. The `superRefine` of its snapshots is `envelope_valid`.
pub record Codec (Text : Type 0) : Type 0 where
  pub print : StateEnvelope → Text
  pub parse_json : Text → Option StateEnvelope
  pub hash : Snapshot → ℕ

-- Which operations throw; `removes` are the removals before and after the write.
pub record Faults (Text : Type 0) : Type 0 where
  pub read : Bool
  pub mkdir : Bool
  pub first_remove : Bool
  pub open_temporary : Bool
  pub write : Bool
  pub partial_text : Text
  pub sync : Bool
  pub close : Bool
  pub rename : Bool
  pub sync_parent : Bool
  pub last_remove : Bool
  pub confirm : Bool

pub data ApplyResult : Type 0 where
  applied already_applied : ApplyResult
  version_downgrade version_collision unreadable io_error : ApplyResult

pub record Applied (Text : Type 0) : Type 0 where
  pub result : ApplyResult
  pub files : Files Text

pub data ReadState : Type 0 where
  no_state : ReadState
  state_of : StateEnvelope → ReadState
  read_error : ReadState

-- `stateEnvelopeSchema` on what has its shape: both snapshots are valid.
abbrev pub envelope_valid : StateEnvelope → Bool
envelope_valid e =
    snapshot_valid e.current.snapshot
    && elim e.previous [ none ↦ true | some state ↦ snapshot_valid state.snapshot ]

abbrev pub parsed : Option StateEnvelope → ReadState
parsed none = read_error
parsed (some e) = if envelope_valid e then state_of e else read_error

-- ENOENT stands for no state.
abbrev pub read_state : {Text : Type 0} → Codec Text → Faults Text → Files Text → ReadState
read_state codec faults files =
    if faults.read
    then read_error
    else elim files.state [ none ↦ no_state | some text ↦ parsed (codec.parse_json text) ]

abbrev pub remove_temporary : {Text : Type 0} → Files Text → Files Text
remove_temporary files = record files { temporary = none }

-- The `finally` block: the removal of the temporary file, which may throw itself.
abbrev pub finally_remove : {Text : Type 0} → Faults Text → ApplyResult → Files Text → Applied Text
finally_remove faults result files =
    if faults.last_remove
    then record { result = io_error; files = files }
    else record { result = result; files = remove_temporary files }

abbrev pub with_temporary : {Text : Type 0} → Text → Files Text → Files Text
with_temporary text files = record files { temporary = some text }

-- The `try` block; `files` has no temporary file.
abbrev pub write_temporary : {Text : Type 0} → Faults Text → Text → Files Text → Applied Text
write_temporary faults text files =
    if faults.open_temporary
    then finally_remove faults io_error files
    else if faults.write
    then finally_remove faults io_error (with_temporary faults.partial_text files)
    else if faults.sync || faults.close || faults.rename
    then finally_remove faults io_error (with_temporary text files)
    else if faults.sync_parent
    then finally_remove faults io_error (record { state = some text; temporary = none })
    else finally_remove faults applied (record { state = some text; temporary = none })

abbrev pub write_durably : {Text : Type 0} → Faults Text → Text → Files Text → Applied Text
write_durably faults text files =
    if faults.mkdir || faults.first_remove
    then record { result = io_error; files = files }
    else write_temporary faults text (remove_temporary files)

abbrev pub confirm_durability : {Text : Type 0} → Faults Text → Files Text → Applied Text
confirm_durability faults files = record {
  result = if faults.confirm then io_error else already_applied;
  files = files;
}

abbrev pub next_state : {Text : Type 0} → Codec Text → (now : ℕ) → Snapshot → PersistedState
next_state codec now snapshot = record {
  version = snapshot.desired_config_version;
  snapshot_hash = codec.hash snapshot;
  applied_at = now;
  snapshot = snapshot;
}

abbrev pub apply_read :
    {Text : Type 0}
    → Codec Text
    → Faults Text
    → (now : ℕ) → Snapshot
    → ReadState
    → Files Text
    → Applied Text
apply_read codec faults now snapshot read_error files = record {
  result = unreadable;
  files = files;
}
apply_read codec faults now snapshot no_state files =
    write_durably faults
      (codec.print (record { current = next_state codec now snapshot; previous = none })) files
apply_read codec faults now snapshot (state_of e) files =
    if ltb snapshot.desired_config_version e.current.version
    then record { result = version_downgrade; files = files }
    else if e.current.version == snapshot.desired_config_version
    then if e.current.snapshot_hash == codec.hash snapshot
      then confirm_durability faults files
      else record { result = version_collision; files = files }
    else write_durably faults
        (codec.print
          (record { current = next_state codec now snapshot; previous = some e.current }))
        files

unfoldable pub apply_snapshot :
    {Text : Type 0} → Codec Text → Faults Text → (now : ℕ) → Snapshot → Files Text → Applied Text
apply_snapshot codec faults now snapshot files =
    apply_read codec faults now snapshot (read_state codec faults files) files
