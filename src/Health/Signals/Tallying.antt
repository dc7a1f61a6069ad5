-- ===== src/Health/Signals/Tallying.antt =====
-- The invariant of the loop over the signals.
use vpnplatform.Base.{
  ℕ, ◌≡◌, refl, ◌⊎◌, inl, inr, none, some, List, [], ◌∷◌, ◌++◌, map, arith, elem, In, All, Nodup,
  Option-cases, In-append, elem→In, ◌↔◌, Nodup-snoc, map-snoc, All-snoc,
}
use vpnplatform.Base.Sort.{In-sort_by, In-map-sort_by}
use vpnplatform.Health.Policy.{HealthPolicyConfig}
use vpnplatform.Health.Signals.{
  ProbeSignal, SignalEvaluation, duplicate_source, duplicate_independence_key, evaluation,
  CycleContext, signal_rejection_reason, Tally, empty_tally, has_vote, tally_signal, tally_signals,
  tally, ordered_signals, arrives_before,
}

abbrev pub source_of : ProbeSignal → ℕ
source_of s = s.source_id

abbrev pub key_of : ProbeSignal → ℕ
key_of s = s.independence_key

abbrev pub id_of : SignalEvaluation → ℕ
id_of e = e.signal_id

abbrev pub sources : List ProbeSignal → List ℕ
sources = map source_of

abbrev pub keys : List ProbeSignal → List ℕ
keys = map key_of

abbrev pub signal_id : ProbeSignal → ℕ
signal_id s = s.id

abbrev pub ids : List ProbeSignal → List ℕ
ids = map signal_id

abbrev pub evaluated_ids : List SignalEvaluation → List ℕ
evaluated_ids = map id_of

has_vote-elem : (key : ℕ) (votes : List ProbeSignal) → has_vote key votes ≡ elem key (keys votes)
has_vote-elem key [] = refl
has_vote-elem key (v ∷ votes) = ground (arith, has_vote-elem key votes)

-- What holds of the Sets and Maps between two signals, where `seen` stand before.
pub record TallyOk (policy : HealthPolicyConfig) (cycle : CycleContext) (t : Tally) : Type 0 where
  pub sources_seen : sources t.votes ≡ t.seen_source_ids
  pub sources_distinct : Nodup (sources t.votes)
  pub keys_distinct : Nodup (keys t.votes)
  pub votes_accepted : All (λ s. signal_rejection_reason policy cycle s ≡ none) t.votes
  pub evaluated : evaluated_ids t.signal_evaluations ≡ t.seen_signal_ids
  pub evaluated_once : Nodup t.seen_signal_ids

-- A signal becomes a vote only if nothing speaks against it.
tally_signal-votes :
    (policy : HealthPolicyConfig) (cycle : CycleContext) (t : Tally) (s : ProbeSignal)
    → ((tally_signal policy cycle t s).votes ≡ t.votes)
      ⊎ ((signal_rejection_reason policy cycle s ≡ none)
          × ((tally_signal policy cycle t s).votes ≡ t.votes ++ s ∷ []))
unfolding tally_signal
tally_signal-votes policy cycle t s = ground arith

tally_signal-evaluated :
    (policy : HealthPolicyConfig) (cycle : CycleContext) (t : Tally) (s : ProbeSignal)
    → evaluated_ids t.signal_evaluations ≡ t.seen_signal_ids
    → evaluated_ids (tally_signal policy cycle t s).signal_evaluations
      ≡ (tally_signal policy cycle t s).seen_signal_ids
unfolding tally_signal
tally_signal-evaluated policy cycle t s h =
    elim (Option-cases (signal_rejection_reason policy cycle s)) [
      | inl valid ↦ ground (
        arith,
        map-snoc id_of (evaluation s none) t.signal_evaluations,
        map-snoc id_of (evaluation s (some duplicate_source)) t.signal_evaluations,
        map-snoc id_of (evaluation s (some duplicate_independence_key)) t.signal_evaluations,
      )
      | inr (r, invalid) ↦
          ground (arith, map-snoc id_of (evaluation s (some r)) t.signal_evaluations)
    ]

-- Every signal keeps the invariant.
tally_signal-TallyOk :
    (policy : HealthPolicyConfig) (cycle : CycleContext) (t : Tally) (s : ProbeSignal)
    → TallyOk policy cycle t
    → TallyOk policy cycle (tally_signal policy cycle t s)
unfolding tally_signal
tally_signal-TallyOk policy cycle t s h = record {
  sources_seen = ground (arith, map-snoc source_of s t.votes);
  sources_distinct =
      ground (arith, map-snoc source_of s t.votes, Nodup-snoc s.source_id (sources t.votes));
  keys_distinct = ground (
    arith,
    map-snoc key_of s t.votes,
    has_vote-elem s.independence_key t.votes,
    Nodup-snoc s.independence_key (keys t.votes),
  );
  votes_accepted = elim (tally_signal-votes policy cycle t s) [
    | inl same ↦ rw same h.votes_accepted
    | inr (valid, more) ↦ rw more (All-snoc _ s t.votes h.votes_accepted valid)
  ];
  evaluated = tally_signal-evaluated policy cycle t s h.evaluated;
  evaluated_once = ground (arith, Nodup-snoc s.id t.seen_signal_ids);
}

tally_signals-TallyOk :
    (policy : HealthPolicyConfig) (cycle : CycleContext) (t : Tally) (ss : List ProbeSignal)
    → TallyOk policy cycle t
    → TallyOk policy cycle (tally_signals policy cycle t ss)
unfolding tally_signals
tally_signals-TallyOk policy cycle t [] h = h
tally_signals-TallyOk policy cycle t (s ∷ ss) h =
    tally_signals-TallyOk policy cycle (tally_signal policy cycle t s) ss
      (tally_signal-TallyOk policy cycle t s h)

-- The loop over any signals ends with votes of different sources, which are the seen sources,
-- and different independence keys, none of them rejected by the checks, and with one evaluation
-- for each id that it saw.
pub tally-TallyOk :
    (policy : HealthPolicyConfig) (cycle : CycleContext) (ss : List ProbeSignal)
    → TallyOk policy cycle (tally policy cycle ss)
unfolding tally
tally-TallyOk policy cycle ss =
    tally_signals-TallyOk policy cycle empty_tally (ordered_signals ss) (ground arith)

tally_signals-votes-In :
    (policy : HealthPolicyConfig) (cycle : CycleContext) (t : Tally) (v : ProbeSignal)
    (ss : List ProbeSignal)
    → In v (tally_signals policy cycle t ss).votes
    → In v t.votes ⊎ In v ss
unfolding tally_signals
tally_signals-votes-In policy cycle t v [] i = inl i
tally_signals-votes-In policy cycle t v (s ∷ ss) i = ground (
  arith,
  tally_signals-votes-In policy cycle (tally_signal policy cycle t s) v ss i,
  tally_signal-votes policy cycle t s,
  In-append v t.votes (s ∷ []),
)

-- Every vote is one of the signals.
pub tally-votes-In :
    (policy : HealthPolicyConfig) (cycle : CycleContext) (v : ProbeSignal) (ss : List ProbeSignal)
    → In v (tally policy cycle ss).votes
    → In v ss
unfolding tally
tally-votes-In policy cycle v ss i =
    elim (tally_signals-votes-In policy cycle empty_tally v (ordered_signals ss) i) [
      | inl h ↦ absurd h
      | inr h ↦ (In-sort_by arrives_before v ss).0 h
    ]

tally_signal-seen :
    (policy : HealthPolicyConfig) (cycle : CycleContext) (t : Tally) (s : ProbeSignal) (n : ℕ)
    → In n (tally_signal policy cycle t s).seen_signal_ids ↔ ((n ≡ s.id) ⊎ In n t.seen_signal_ids)
unfolding tally_signal
tally_signal-seen policy cycle t s n =
    ground (arith, In-append n t.seen_signal_ids (s.id ∷ []), elem→In s.id t.seen_signal_ids)

tally_signals-seen :
    (policy : HealthPolicyConfig) (cycle : CycleContext) (t : Tally) (n : ℕ) (ss : List ProbeSignal)
    → In n (tally_signals policy cycle t ss).seen_signal_ids
      ↔ (In n t.seen_signal_ids ⊎ In n (ids ss))
unfolding tally_signals
tally_signals-seen policy cycle t n [] = ground arith
tally_signals-seen policy cycle t n (s ∷ ss) = ground (
  arith,
  tally_signals-seen policy cycle (tally_signal policy cycle t s) n ss,
  tally_signal-seen policy cycle t s n,
)

-- The ids that were seen are those of the signals.
pub tally-seen :
    (policy : HealthPolicyConfig) (cycle : CycleContext) (n : ℕ) (ss : List ProbeSignal)
    → In n (tally policy cycle ss).seen_signal_ids ↔ In n (ids ss)
unfolding tally
tally-seen policy cycle n ss = ground (
  arith,
  tally_signals-seen policy cycle empty_tally n (ordered_signals ss),
  In-map-sort_by arrives_before signal_id n ss,
)
