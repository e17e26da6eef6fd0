-- ===== src/Graph/Executor/Body.antt =====
-- The body of `execute_node`: it never reads through a null pointer, and leaves at the node the
-- flag and the result that the dataflow equations give.
use xsigma.Common.{
  ℕ, ◌<◌, ◌≡◌, ◌≢◌, refl, String, true, false, ◌⊎◌, inl, inr, Option, none, some, List, map, arith,
  Bool-cases, if◌then◌else◌, length, get_or, set, length-set, get_or-set, ◌==◌,
}
use xsigma.Graph.Dependency.{dependency_range}
use xsigma.Graph.Executor.Step.{
  Attempt, returned, threw, threw_unknown, Plan, Run, any_failed, record_failure, fail_node, settle,
  serve, execute_body,
}
use xsigma.Graph.Executor.Dataflow.{
  Outcome, value, raised, skipped, failing, compute, attempted, served, is_clean, any_failing,
  Flagged, Holds, AllShow, flagged_skips, clear_gathers,
}

module _ {V : Type 0} (nothing : V) (p : Plan V) where
  -- `t` is `s` after the body of `id`: the flag, the slot and the failure record may have changed.
  pub record Ran (outcome : ℕ → Outcome V) (s : Run V) (id : ℕ) (t : Run V) : Type 0 where
    pub remaining : t.remaining ≡ s.remaining
    pub consumers_left : t.consumers_left ≡ s.consumers_left
    pub ready_heap : t.ready_heap ≡ s.ready_heap
    pub completed : t.completed ≡ s.completed
    pub cancelled : t.cancelled ≡ s.cancelled
    pub phases : t.phases ≡ s.phases
    pub idle : t.idle ≡ s.idle
    pub width_failed : length t.failed ≡ length s.failed
    pub width_results : length t.results ≡ length s.results
    pub other_flags : (u : ℕ) → u ≢ id → get_or t.failed u false ≡ get_or s.failed u false
    pub other_slots : (u : ℕ) → u ≢ id → get_or t.results u none ≡ get_or s.results u none
    pub flag : Flagged nothing p s.cancelled t.failed outcome id
    pub slot : Holds nothing p t.failed t.results outcome id
    pub first :
        (t.failure ≡ s.failure)
        ⊎ ((message : String) × (s.failure ≡ none)
            × (outcome id ≡ raised message)
            × (t.failure ≡ some (id, message)))
    pub reported :
        get_or t.failed id false ≡ true
        → (s.cancelled ≡ true) ⊎ ((outcome id ≡ skipped) ⊎ (t.failure ≢ none))

  module _ (outcome : ℕ → Outcome V) (s : Run V) (id : ℕ) (clean : get_or s.failed id false ≡ false)
      (failed_lt : id < length s.failed) (results_lt : id < length s.results) where
    flag_at :
        (u : ℕ)
        → get_or (set s.failed id true) u false
          ≡ (if u == id then true else get_or s.failed u false)
    flag_at u = ground (arith, get_or-set s.failed id u true false)

    slot_at :
        (x : V) (u : ℕ)
        → get_or (set s.results id (some x)) u none
          ≡ (if u == id then some x else get_or s.results u none)
    slot_at x u = ground (arith, get_or-set s.results id u (some x) none)

    -- The node returns a value.
    pub value-Ran :
        (x : V)
        → outcome id ≡ value x
        → Ran outcome s id (record s { results = set s.results id (some x) })
    value-Ran x e = record {
      remaining = refl;
      consumers_left = refl;
      ready_heap = refl;
      completed = refl;
      cancelled = refl;
      phases = refl;
      idle = refl;
      width_failed = refl;
      width_results = length-set s.results id (some x);
      other_flags = λ u ne. refl;
      other_slots = λ u ne. ground (arith, slot_at x u);
      flag = record { clear = λ h. rw e; marked = λ h. cc };
      slot = rw (clean, e) (ground (arith, slot_at x id));
      first = inl refl;
      reported = λ h. cc;
    }

    -- The node fails, with what `record_failure` keeps.
    pub fail-Ran :
        (message : String)
        → outcome id ≡ raised message
        → Ran outcome s id (fail_node nothing p s id message)
    unfolding fail_node
    fail-Ran message e = record {
      remaining = refl;
      consumers_left = refl;
      ready_heap = refl;
      completed = refl;
      cancelled = refl;
      phases = refl;
      idle = refl;
      width_failed = length-set s.failed id true;
      width_results = length-set s.results id (some nothing);
      other_flags = λ u ne. ground (arith, flag_at u);
      other_slots = λ u ne. ground (arith, slot_at nothing u);
      flag = record { clear = λ h. ground (arith, flag_at id); marked = λ h. inr (rw e) };
      slot = ground (arith, slot_at nothing id, flag_at id);
      first = first_of_two s.failure refl;
      reported = λ h. inr (inr (some_left s.failure));
    }
      where
        first_of_two :
            (f : Option (ℕ × String))
            → s.failure ≡ f
            → (record_failure nothing p id message f ≡ f)
              ⊎ ((m : String) × (f ≡ none)
                  × (outcome id ≡ raised m)
                  × (record_failure nothing p id message f ≡ some (id, m)))
        first_of_two none h = inr (message, refl, e, refl)
        first_of_two (some old) h = inl refl

        some_left : (f : Option (ℕ × String)) → record_failure nothing p id message f ≢ none
        some_left none h = cc
        some_left (some old) h = cc

    -- The node is skipped.
    pub skip-Ran :
        (s.cancelled ≡ true) ⊎ (outcome id ≡ skipped)
        → Ran outcome s id
            (record s { failed = set s.failed id true; results = set s.results id (some nothing) })
    skip-Ran why = record {
      remaining = refl;
      consumers_left = refl;
      ready_heap = refl;
      completed = refl;
      cancelled = refl;
      phases = refl;
      idle = refl;
      width_failed = length-set s.failed id true;
      width_results = length-set s.results id (some nothing);
      other_flags = λ u ne. ground (arith, flag_at u);
      other_slots = λ u ne. ground (arith, slot_at nothing u);
      flag = record { clear = λ h. ground (arith, flag_at id); marked = λ h. marks why };
      slot = ground (arith, slot_at nothing id, flag_at id);
      first = inl refl;
      reported = λ h. ground (arith, why);
    }
      where
        marks :
            (s.cancelled ≡ true) ⊎ (outcome id ≡ skipped)
            → (s.cancelled ≡ true) ⊎ (failing nothing p (outcome id) ≡ true)
        marks (inl h) = inl h
        marks (inr h) = inr (rw h)

    serve-Ran :
        (cached : Option V)
        → outcome id ≡ served nothing p cached
        → Ran outcome s id (serve nothing p s id cached)
    unfolding serve
    serve-Ran none e = fail-Ran _ e
    serve-Ran (some x) e = value-Ran x e

    settle-Ran :
        (text : String) (a : Attempt V)
        → outcome id ≡ attempted nothing p text a
        → Ran outcome s id (settle nothing p s id text a)
    unfolding settle
    settle-Ran text (returned x) e = value-Ran x e
    settle-Ran text (threw message) e = fail-Ran message e
    settle-Ran text threw_unknown e = fail-Ran text e

    abbrev deps : List ℕ
    deps = dependency_range p.graph id

    -- The body does not fault once the dependencies have run, and computes the node's outcome.
    pub execute_body-Ran :
        AllShow nothing p s.cancelled s.failed s.results outcome deps
        → outcome id ≡ compute nothing p id (map outcome deps)
        → (t : Run V) × (execute_body nothing p s id ≡ some t) × Ran outcome s id t
    unfolding execute_body compute
    execute_body-Ran ready e = elim (Bool-cases s.cancelled) [
      | inl stopped ↦ (_, rw (stopped, execute_body), skip-Ran (inl stopped))
      | inr going ↦ elim (Bool-cases (any_failed nothing p s.failed deps)) [
        | inl bad ↦ (
          _,
          simp (going, bad),
          skip-Ran (
              skipped_by
                (flagged_skips nothing p s.cancelled s.failed s.results outcome deps ready bad)),
        )
        | inr good ↦
            let (values, inputs) =
              clear_gathers nothing p s.cancelled s.failed s.results outcome deps ready good in
            elim (Bool-cases (is_clean nothing p id)) [
              | inl cached ↦
                  (_, simp (going, good, cached), serve-Ran (p.cache id) (rw (values, cached) at e))
              | inr fresh ↦
                  (_, simp (going, good, fresh, inputs), settle-Ran _ _ (rw (values, fresh) at e))
            ]
      ]
    ]
      where
        skipped_by :
            (s.cancelled ≡ true) ⊎ (any_failing nothing p (map outcome deps) ≡ true)
            → (s.cancelled ≡ true) ⊎ (outcome id ≡ skipped)
        skipped_by (inl h) = inl h
        skipped_by (inr h) = inr (rw h at e)
