-- ===== src/Model/State/Runs.antt =====
-- Any sequence of operations on a new state.
use k8s_diagnose.Prelude.{String, List}
use k8s_diagnose.Model.Types.{
  Finding, RootCause, Acknowledgement, Check, ScopedScore, Scalar, State,
}
use k8s_diagnose.Model.State.{
  new_state, add, add_check, observe, set_root_causes, set_scoped_score, acknowledge, sort_findings,
}
use k8s_diagnose.Model.State.Invariant.{
  IsValid, new_state-IsValid, add-IsValid, add_check-IsValid, observe-IsValid,
  set_root_causes-IsValid, set_scoped_score-IsValid, acknowledge-IsValid, sort_findings-IsValid,
}

module _ (digest : String → String) where
  -- A call of one of the methods that change a state.
  pub data Call : State → State → Type 0 where
    adds : (s : State) (f : Finding) → Call s (add digest s f)
    adds_check : (s : State) (c : Check) → Call s (add_check s c)
    observes :
        (s : State) (category id : String) (value : List (String × Scalar))
        → Call s (observe s category id value)
    sets_root_causes : (s : State) (rs : List RootCause) → Call s (set_root_causes s rs)
    sets_scoped_score : (s : State) (w : ScopedScore) → Call s (set_scoped_score s w)
    acknowledges : (s : State) (id : String) (a : Acknowledgement) → Call s (acknowledge s id a).0
    sorts : (s : State) → Call s (sort_findings s)

  -- The states that a program reaches from `NewState()`.
  pub data Reachable : State → Type 0 where
    new : Reachable new_state
    call : {s t : State} → Reachable s → Call s t → Reachable t

  Call-IsValid : {s t : State} → Call s t → IsValid digest s → IsValid digest t
  Call-IsValid (adds s f) v = add-IsValid digest v f
  Call-IsValid (adds_check s c) v = add_check-IsValid digest v c
  Call-IsValid (observes s category id value) v = observe-IsValid digest v category id value
  Call-IsValid (sets_root_causes s rs) v = set_root_causes-IsValid digest v rs
  Call-IsValid (sets_scoped_score s w) v = set_scoped_score-IsValid digest v w
  Call-IsValid (acknowledges s id a) v = acknowledge-IsValid digest v id a
  Call-IsValid (sorts s) v = sort_findings-IsValid digest v

  -- After any sequence of calls of the methods of `State` on a new state, no two findings have the
  -- same key and `seen` holds exactly their keys, no two checks have the same ID, and a scoped
  -- score is at least 0 and at most its maximum, or 0 where that is negative.
  pub Reachable-IsValid : {s : State} → Reachable s → IsValid digest s
  Reachable-IsValid new = new_state-IsValid digest
  Reachable-IsValid (call r c) = Call-IsValid c (Reachable-IsValid r)
