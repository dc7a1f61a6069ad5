-- ===== src/Health/Cycle/Quorum.antt =====
-- What a decision about a cycle rests on.
use vpnplatform.Base.{
  ℕ, ◌≤◌, ◌<◌, ◌≡◌, ◌≢◌, ◌↔◌, ◌⊎◌, inl, inr, Bool, true, Option, none, some, List, [], ◌∷◌, arith,
  length, filter, length-filter-le, length-pos, ap, sym, In, All, Nodup, In-filter, filter-In,
  find-In, All-filter, filter-All, Nodup-filter, All-map, All-tabulate, Option-cases, leb→le, ltb,
  ◌+◌,
}
use vpnplatform.Base.Sort.{Nodup-sort_by, In-map-sort_by}
use vpnplatform.Health.Policy.{RouteFailureClass, HealthPolicyConfig, same_class-eq}
use vpnplatform.Health.Signals.{
  ProbeOutcome, ProbeSignal, CycleContext, Tally, SignalEvaluation, signal_rejection_reason, tally,
  milliseconds,
}
use vpnplatform.Health.Signals.Tallying.{
  tally-TallyOk, tally-votes-In, tally-seen, sources, keys, ids, evaluated_ids, id_of,
}
use vpnplatform.Health.Cycle.{
  success, failed, mixed, is_route_vote, is_success_vote, is_failure_vote, failures_of_class,
  has_class, confirmed_failure_class, decide_cycle, successes_of, failures_of, route_votes,
  aggregate_health_probe_cycle,
}

abbrev by_id : SignalEvaluation → SignalEvaluation → Bool
by_id a b = ltb a.signal_id b.signal_id

-- Voters of one cycle: signals of the input that nothing speaks against, no two of one source
-- and no two of one independence key.
pub record AreVoters (policy : HealthPolicyConfig) (cycle : CycleContext)
    (signals voters : List ProbeSignal) : Type 0 where
  pub given : All (λ v. In v signals) voters
  pub accepted : All (λ v. signal_rejection_reason policy cycle v ≡ none) voters
  pub sources_distinct : Nodup (sources voters)
  pub keys_distinct : Nodup (keys voters)

votes-AreVoters :
    (policy : HealthPolicyConfig) (cycle : CycleContext) (signals : List ProbeSignal)
    → AreVoters policy cycle signals (tally policy cycle signals).votes
votes-AreVoters policy cycle signals =
    let ok = tally-TallyOk policy cycle signals in
    record {
      given = All-tabulate _ _ (λ v i. tally-votes-In policy cycle v signals i);
      accepted = ok.votes_accepted;
      sources_distinct = ok.sources_distinct;
      keys_distinct = ok.keys_distinct;
    }

filter-AreVoters :
    (policy : HealthPolicyConfig) (cycle : CycleContext) (signals voters : List ProbeSignal)
    (p : ProbeSignal → Bool)
    → AreVoters policy cycle signals voters
    → AreVoters policy cycle signals (filter p voters)
filter-AreVoters policy cycle signals voters p h = record {
  given = All-filter p _ voters h.given;
  accepted = All-filter p _ voters h.accepted;
  sources_distinct = Nodup-filter p _ voters h.sources_distinct;
  keys_distinct = Nodup-filter p _ voters h.keys_distinct;
}

success_outcome : (v : ProbeSignal) → is_success_vote v ≡ true → v.outcome ≡ ProbeOutcome.success
success_outcome v h = ground arith

decide_cycle-success :
    (policy : HealthPolicyConfig) (cycle : CycleContext) (ss fs : List ProbeSignal)
    → (decide_cycle policy cycle ss fs).0 ≡ success
    → policy.probe_source_quorum ≤ length ss
unfolding decide_cycle
decide_cycle-success policy cycle ss fs h = ground arith

-- A SUCCESS cycle has a quorum of voters, each of which reports success. Voters are signals of
-- the input that are not rejected, of different sources and different independence keys.
pub aggregate-success_quorum :
    (policy : HealthPolicyConfig) (cycle : CycleContext) (signals : List ProbeSignal)
    → (aggregate_health_probe_cycle policy cycle signals).decision ≡ success
    → (voters : List ProbeSignal) × AreVoters policy cycle signals voters
      × All (λ v. v.outcome ≡ ProbeOutcome.success) voters
      × (policy.probe_source_quorum ≤ length voters)
unfolding aggregate_health_probe_cycle
aggregate-success_quorum policy cycle signals h =
    let t = tally policy cycle signals in
    let routes =
      filter-AreVoters policy cycle signals t.votes is_route_vote
        (votes-AreVoters policy cycle signals) in
    (
      successes_of t,
      filter-AreVoters policy cycle signals (route_votes t) is_success_vote routes,
      All-map _ _ _ success_outcome (filter-All is_success_vote (route_votes t)),
      decide_cycle-success policy cycle _ _ h,
    )

has_class-eq :
    (c : RouteFailureClass) (o : Option RouteFailureClass) → has_class c o ≡ true → o ≡ some c
has_class-eq c none h = cc
has_class-eq c (some d) h = ap some (sym (same_class-eq c d h))

decide_cycle-failed :
    (policy : HealthPolicyConfig) (cycle : CycleContext) (ss fs : List ProbeSignal)
    → 0 < policy.probe_source_quorum
    → (decide_cycle policy cycle ss fs).0 ≡ failed
    → (c : RouteFailureClass) × ((decide_cycle policy cycle ss fs).1 ≡ some c)
      × (policy.probe_source_quorum ≤ length (failures_of_class c fs))
      × (ss ≡ [])
unfolding decide_cycle
decide_cycle-failed policy cycle ss fs q h =
    elim (Option-cases (confirmed_failure_class policy fs)) [
      | inl nothing ↦ absurd (ground arith)
      | inr (c, e) ↦
          let enough = leb→le _ _ (find-In _ c policy.route_failure_classes e).1 in
          let fewer = length-filter-le (λ (s : ProbeSignal). has_class c s.failure_class) fs in
          (c, ground arith, enough, ground arith)
    ]

failure_class_vote :
    (policy : HealthPolicyConfig) (c : RouteFailureClass) (v : ProbeSignal)
    → has_class c v.failure_class ≡ true
    → v.failure_class ≡ some c
failure_class_vote policy c v h = has_class-eq c v.failure_class h

failure_outcome :
    (policy : HealthPolicyConfig) (v : ProbeSignal)
    → is_failure_vote policy v ≡ true
    → v.outcome ≡ ProbeOutcome.failure
failure_outcome policy v h = ground arith

All-zip :
    {A : Type 0} (P Q : A → Type 0) (xs : List A) → All P xs → All Q xs → All (λ a. P a × Q a) xs
All-zip P Q [] p q = tt
All-zip P Q (x ∷ xs) p q = ((p.0, q.0), All-zip P Q xs p.1 q.1)

no_success :
    (t : Tally) (v : ProbeSignal)
    → successes_of t ≡ []
    → In v t.votes
    → v.outcome ≢ ProbeOutcome.success
no_success t v nobody i s =
    let counted = filter-In is_route_vote v t.votes i (ground arith) in
    let found = filter-In is_success_vote v (route_votes t) counted (ground arith) in
    ground (arith, found)

-- With a positive quorum, a FAILED cycle names a failure class and has a quorum of voters, each
-- of which reports a failure of that class, and no vote of the cycle reports success. Voters
-- are signals of the input that are not rejected, of different sources and different
-- independence keys.
pub aggregate-failed_quorum :
    (policy : HealthPolicyConfig) (cycle : CycleContext) (signals : List ProbeSignal)
    → 0 < policy.probe_source_quorum
    → (aggregate_health_probe_cycle policy cycle signals).decision ≡ failed
    → (c : RouteFailureClass) × (voters : List ProbeSignal) × ((aggregate_health_probe_cycle policy
          cycle signals).failure_class
        ≡ some c)
      × AreVoters policy cycle signals voters
      × All (λ v. (v.outcome ≡ ProbeOutcome.failure) × (v.failure_class ≡ some c)) voters
      × (policy.probe_source_quorum ≤ length voters)
      × All (λ v. v.outcome ≢ ProbeOutcome.success) (tally policy cycle signals).votes
unfolding aggregate_health_probe_cycle
aggregate-failed_quorum policy cycle signals q h =
    let t = tally policy cycle signals in
    let routes =
      filter-AreVoters policy cycle signals t.votes is_route_vote
        (votes-AreVoters policy cycle signals) in
    let fails =
      filter-AreVoters policy cycle signals (route_votes t) (is_failure_vote policy) routes in
    let (c, named, enough, nobody) =
      decide_cycle-failed policy cycle (successes_of t) (failures_of policy t) q h in
    (
      c,
      failures_of_class c (failures_of policy t),
      named,
      filter-AreVoters policy cycle signals (failures_of policy t) _ fails,
      All-zip _ _ _
          (All-filter _ _ (failures_of policy t) (
            All-map _ _ _ (failure_outcome policy)
              (filter-All (is_failure_vote policy) (route_votes t))))
          (All-map _ _ _ (failure_class_vote policy c)
            (filter-All (λ (s : ProbeSignal). has_class c s.failure_class) (failures_of policy t))),
      enough,
      All-tabulate _ t.votes λ v i s. no_success t v nobody i s,
    )

decide_cycle-mixed :
    (policy : HealthPolicyConfig) (cycle : CycleContext) (ss fs : List ProbeSignal)
    → let decided = decide_cycle policy cycle ss fs in
      ((decided.0 ≡ mixed) ↔ ((0 < length ss) × (0 < length fs)))
      × (((decided.0 ≡ mixed)
            × (decided.2
                ≡ some
                    (cycle.cycle_started_at + milliseconds policy.additional_probe_delay_seconds)))
          ⊎ ((decided.0 ≢ mixed) × (decided.2 ≡ none)))
unfolding decide_cycle
decide_cycle-mixed policy cycle ss fs = ground arith

-- A route vote that passes a test is found by filtering, and conversely.
some_vote :
    (t : Tally) (p : ProbeSignal → Bool)
    → ((v : ProbeSignal) → p v ≡ true → is_route_vote v ≡ true)
    → (0 < length (filter p (route_votes t))) ↔ ((v : ProbeSignal) × In v t.votes × (p v ≡ true))
some_vote t p routes = (
  λ h.
      let (v, i) = (length-pos _).0 h in
      let (counted, passes) = In-filter p v (route_votes t) i in
      (v, (In-filter is_route_vote v t.votes counted).0, passes),
  λ (v, i, passes).
      (length-pos _).1
        (v, filter-In p v _ (filter-In is_route_vote v t.votes i (routes v passes)) passes),
)

-- The cycle is MIXED exactly when one vote reports a success and another a failure of a class of
-- the policy, and then, and only then, an additional probe is due after the policy's delay.
pub aggregate-mixed :
    (policy : HealthPolicyConfig) (cycle : CycleContext) (signals : List ProbeSignal)
    → let result = aggregate_health_probe_cycle policy cycle signals in
      let votes = (tally policy cycle signals).votes in
      ((result.decision ≡ mixed) ↔ (
        ((v : ProbeSignal) × In v votes × (v.outcome ≡ ProbeOutcome.success))
        × ((v : ProbeSignal) × In v votes × (is_failure_vote policy v ≡ true))))
      × (((result.decision ≡ mixed)
            × (result.additional_probe_due_at
                ≡ some
                    (cycle.cycle_started_at + milliseconds policy.additional_probe_delay_seconds)))
          ⊎ ((result.decision ≢ mixed) × (result.additional_probe_due_at ≡ none)))
unfolding aggregate_health_probe_cycle
aggregate-mixed policy cycle signals =
    let t = tally policy cycle signals in
    let (both, due) = decide_cycle-mixed policy cycle (successes_of t) (failures_of policy t) in
    let some_success = some_vote t is_success_vote (λ v h. ground arith) in
    let some_failure = some_vote t (is_failure_vote policy) (λ v h. ground arith) in
    (
      (
        λ h.
            let (s, f) = both.0 h in
            let (v, i, e) = some_success.0 s in ((v, i, success_outcome v e), some_failure.0 f),
        λ ((v, i, e), f). both.1 (some_success.1 (v, i, ground arith), some_failure.1 f),
      ),
      due,
    )

-- Every id among the signals is evaluated once, and no other id is.
pub aggregate-evaluated_once :
    (policy : HealthPolicyConfig) (cycle : CycleContext) (signals : List ProbeSignal)
    → let result = aggregate_health_probe_cycle policy cycle signals in
      Nodup (evaluated_ids result.signal_evaluations)
      × ((n : ℕ) → In n (evaluated_ids result.signal_evaluations) ↔ In n (ids signals))
unfolding aggregate_health_probe_cycle
aggregate-evaluated_once policy cycle signals =
    let t = tally policy cycle signals in
    let ok = tally-TallyOk policy cycle signals in
    (
      Nodup-sort_by by_id id_of t.signal_evaluations (rw ok.evaluated ok.evaluated_once),
      λ n. ground (
        arith,
        ok.evaluated,
        In-map-sort_by by_id id_of n t.signal_evaluations,
        tally-seen policy cycle n signals,
      ),
    )
