-- ===== src/NodeAgent/StateFile/Durability.antt =====
-- What survives in the state file.
use vpnplatform.Base.{
  ℕ, ◌≤◌, ◌≡◌, refl, ◌⊎◌, inl, inr, Bool, true, false, Option, none, some, arith, ltb, ◌==◌,
  Bool-cases, Option-cases, ◌∙◌, ap, if◌then◌else◌,
}
use vpnplatform.NodeAgent.Snapshot.{Snapshot, snapshot_valid}
use vpnplatform.NodeAgent.StateFile.{
  PersistedState, StateEnvelope, Files, Codec, Faults, ApplyResult, applied, already_applied,
  version_downgrade, io_error, Applied, ReadState, no_state, state_of, read_error, envelope_valid,
  parsed, read_state, write_durably, next_state, apply_read, apply_snapshot,
}

-- A write leaves the old text or the new one, the new one if it succeeds; then no temporary file.
write_durably_lem :
    {Text : Type 0} (faults : Faults Text) (text : Text) (files : Files Text)
    → let done = write_durably faults text files in
      ((done.files.state ≡ files.state) ⊎ (done.files.state ≡ some text))
      × (((done.result ≡ io_error))
          ⊎ ((done.result ≡ applied)
              × (done.files.state ≡ some text)
              × (done.files.temporary ≡ none)))
write_durably_lem faults text files = ground arith

-- What was read has an older version than the snapshot, or nothing was there.
abbrev pub newer_than : ReadState → Snapshot → Bool
newer_than no_state snapshot = true
newer_than (state_of e) snapshot = ltb e.current.version snapshot.desired_config_version
newer_than read_error snapshot = false

abbrev pub previous_of : ReadState → Option PersistedState
previous_of no_state = none
previous_of (state_of e) = some e.current
previous_of read_error = none

-- The envelope that the adapter writes over what it read.
abbrev pub envelope_over : {Text : Type 0} → Codec Text → ℕ → Snapshot → ReadState → StateEnvelope
envelope_over codec now snapshot read = record {
  current = next_state codec now snapshot;
  previous = previous_of read;
}

abbrev pub is_applied : ApplyResult → Bool
is_applied applied = true
is_applied _ = false

-- How a call ends that read `read`.
abbrev pub Ends :
    {Text : Type 0} → Codec Text → ℕ → Snapshot → ReadState → Files Text → Applied Text → Type 0
Ends codec now snapshot read files done =
    let text = codec.print (envelope_over codec now snapshot read) in
    ((done.result ≡ applied)
      × (newer_than read snapshot ≡ true)
      × (done.files.state ≡ some text)
      × (done.files.temporary ≡ none))
    ⊎ ((is_applied done.result ≡ false)
        × ((done.files.state ≡ files.state)
            ⊎ ((done.result ≡ io_error)
                × (newer_than read snapshot ≡ true)
                × (done.files.state ≡ some text))))

write-Ends :
    {Text : Type 0} (codec : Codec Text) (faults : Faults Text) (now : ℕ) (snapshot : Snapshot)
    (read : ReadState) (files : Files Text)
    → newer_than read snapshot ≡ true
    → Ends codec now snapshot read files
        (write_durably faults (codec.print (envelope_over codec now snapshot read)) files)
write-Ends codec faults now snapshot read files newer =
    let text = codec.print (envelope_over codec now snapshot read) in
    let (kept, ended) = write_durably_lem faults text files in
    elim ended [
      | inr (ok, new, clean) ↦ inl (ok, newer, new, clean)
      | inl failed ↦ inr (
        ground (arith, failed),
        elim kept [ inl old ↦ inl old | inr new ↦ inr (failed, newer, new) ],
      )
    ]

apply_read-Ends :
    {Text : Type 0} (codec : Codec Text) (faults : Faults Text) (now : ℕ) (snapshot : Snapshot)
    (read : ReadState) (files : Files Text)
    → Ends codec now snapshot read files (apply_read codec faults now snapshot read files)
apply_read-Ends codec faults now snapshot read_error files = inr (refl, inl refl)
apply_read-Ends codec faults now snapshot no_state files =
    write-Ends codec faults now snapshot no_state files refl
apply_read-Ends codec faults now snapshot (state_of e) files =
    elim (Bool-cases (ltb snapshot.desired_config_version e.current.version)) [
      | inl older ↦ rw older (inr (refl, inl refl))
      | inr n ↦ rw n (elim (Bool-cases (e.current.version == snapshot.desired_config_version)) [
        | inl same ↦ rw same (elim (Bool-cases (e.current.snapshot_hash == codec.hash snapshot)) [
          | inl hashed ↦ rw hashed (inr (ground arith, inl refl))
          | inr other ↦ rw other (inr (refl, inl refl))
        ])
        | inr different ↦
            let newer : newer_than (state_of e) snapshot ≡ true = ground arith in
            rw different (write-Ends codec faults now snapshot (state_of e) files newer)
      ])
    ]

-- Applying a snapshot is all or nothing, whichever file operations throw. It answers `applied`
-- only with the new envelope in the state file, over an older version or none, and no temporary
-- file left; in every other case the state file is as it was, unless an operation threw, where it
-- may hold the new envelope of a newer version.
pub apply_atomic :
    {Text : Type 0} (codec : Codec Text) (faults : Faults Text) (now : ℕ) (snapshot : Snapshot)
    (files : Files Text)
    → Ends codec now snapshot
        (read_state codec faults files)
        files
        (apply_snapshot codec faults now snapshot files)
unfolding apply_snapshot
apply_atomic codec faults now snapshot files =
    apply_read-Ends codec faults now snapshot (read_state codec faults files) files

-- An envelope that was read is valid.
ReadOk : ReadState → Type 0
ReadOk no_state = Unit
ReadOk (state_of e) = envelope_valid e ≡ true
ReadOk read_error = Unit

parsed-ReadOk : (o : Option StateEnvelope) → ReadOk (parsed o)
unfolding ReadOk
parsed-ReadOk none = tt
parsed-ReadOk (some e) = elim (Bool-cases (envelope_valid e)) [ inl y ↦ rw y y | inr n ↦ rw n tt ]

read_state-ReadOk :
    {Text : Type 0} (codec : Codec Text) (faults : Faults Text) (files : Files Text)
    → ReadOk (read_state codec faults files)
unfolding ReadOk
read_state-ReadOk codec faults files = elim (Bool-cases faults.read) [
  | inl y ↦ rw y tt
  | inr n ↦ elim (Option-cases files.state) [
    | inl e ↦ rw (n, e) tt
    | inr (text, e) ↦ rw (n, e) (parsed-ReadOk (codec.parse_json text))
  ]
]

-- A valid snapshot over what was read makes a valid envelope.
envelope_over-valid :
    {Text : Type 0} (codec : Codec Text) (now : ℕ) (snapshot : Snapshot) (read : ReadState)
    → snapshot_valid snapshot ≡ true
    → ReadOk read
    → envelope_valid (envelope_over codec now snapshot read) ≡ true
unfolding ReadOk
envelope_over-valid codec now snapshot no_state valid ok = rw valid refl
envelope_over-valid codec now snapshot (state_of e) valid ok = ground (arith, valid, ok)
envelope_over-valid codec now snapshot read_error valid ok = rw valid refl

read_back :
    {Text : Type 0} (codec : Codec Text) (faults : Faults Text) (e : StateEnvelope)
    (files : Files Text)
    → codec.parse_json (codec.print e) ≡ some e
    → envelope_valid e ≡ true
    → faults.read ≡ false
    → files.state ≡ some (codec.print e)
    → read_state codec faults files ≡ state_of e
read_back codec faults e files trip valid quiet there =
    rw (quiet, there) (ap parsed trip ∙ ap (λ b. if b then state_of e else read_error) valid)

-- Round trip of a valid snapshot, where the JSON of the envelope that the call writes parses back
-- as that envelope: once the snapshot is applied, a reading of the state file, with the schema's
-- check, gives its envelope; applying the snapshot again, without faults of the reading and of the
-- confirmation, answers `already-applied` and changes nothing; and a snapshot of an older version is
-- refused and changes nothing.
pub apply_round_trip :
    {Text : Type 0} (codec : Codec Text) (faults later : Faults Text) (now then_ : ℕ)
    (snapshot other : Snapshot) (files : Files Text)
    → snapshot_valid snapshot ≡ true
    → (let e = envelope_over codec now snapshot (read_state codec faults files) in
        codec.parse_json (codec.print e) ≡ some e)
    → later.read ≡ false
    → later.confirm ≡ false
    → (apply_snapshot codec faults now snapshot files).result ≡ applied
    → let next = (apply_snapshot codec faults now snapshot files).files in
      (read_state codec later next
        ≡ state_of (envelope_over codec now snapshot (read_state codec faults files)))
      × (apply_snapshot codec later then_ snapshot next
          ≡ record { result = already_applied; files = next })
      × ((snapshot.desired_config_version ≤ other.desired_config_version)
          ⊎ (apply_snapshot codec later then_ other next
              ≡ record { result = version_downgrade; files = next }))
unfolding apply_snapshot
apply_round_trip codec faults later now then_ snapshot other files valid trip quiet sure done =
    let read = read_state codec faults files in
    let next = (apply_snapshot codec faults now snapshot files).files in
    let e = envelope_over codec now snapshot read in
    let written : next.state ≡ some (codec.print e) =
      elim (apply_atomic codec faults now snapshot files) [
        | inl (_, _, new, _) ↦ new
        | inr (not_done, _) ↦ absurd (ground (arith, done, not_done))
      ] in
    let ok =
      envelope_over-valid codec now snapshot read valid (read_state-ReadOk codec faults files) in
    let back = read_back codec later e next trip ok quiet written in
    (
      back,
      ap (λ r. apply_read codec later then_ snapshot r next) back ∙ ground (arith, sure),
      elim (Bool-cases (ltb other.desired_config_version snapshot.desired_config_version)) [
        | inr n ↦ inl (ground arith)
        | inl older ↦ inr (ap (λ r. apply_read codec later then_ other r next) back ∙ rw older refl)
      ],
    )
