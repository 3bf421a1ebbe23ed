-- ===== src/Application/Outcomes.antt =====
-- What the methods of internal/application/deployment/service.go report.
use sh_mcp_go.Prelude.{
  ℕ, suc, String, ◌≡◌, ap, Option-cases, ◌⊎◌, inl, inr, refl, sym, ◌∙◌, none, some, List, [], ◌∷◌,
  ◌++◌, Result, ok, err, arith, ◌≢◌, Bool, true, false, not, ◌&&◌, is_nil, if◌then◌else◌,
}
use sh_mcp_go.Deployment.Status
use sh_mcp_go.Deployment.Status.{deploying, upgrading}
use sh_mcp_go.Deployment.Errors.{Error, wrapped}
use sh_mcp_go.Deployment.Events.{Moment}
use sh_mcp_go.Deployment.Entity
use sh_mcp_go.Deployment.Entity.{Deployment, HistoryEntry, history_entry, initial, new}
use sh_mcp_go.Application.Commands.{ChartResult}
use sh_mcp_go.Application.Ports.{
  Call, save, publish, install, upgrade, rollback, uninstall, Release, Ports, Run, return_error,
}
use sh_mcp_go.Application.Service.{chart_result, publish_events, give_up, finish}
use sh_mcp_go.Application.Rules.{attempt_rule, transition_rule, mark_failed-state}

-- How many of the calls are of Helm.
abbrev pub helm_calls : List Call → ℕ
helm_calls [] = 0
helm_calls (install _ ∷ h) = suc (helm_calls h)
helm_calls (upgrade _ ∷ h) = suc (helm_calls h)
helm_calls (rollback _ ∷ h) = suc (helm_calls h)
helm_calls (uninstall _ ∷ h) = suc (helm_calls h)
helm_calls (_ ∷ h) = helm_calls h

-- The aggregate has succeeded, and the last entry of its history has the revision of Helm's release.
pub record IsDone (rel : Release) (d : Deployment) : Type 0 where
  pub state : d.status ≡ Status.succeeded
  pub earlier : List HistoryEntry
  pub last : HistoryEntry
  pub recorded : d.history ≡ earlier ++ last ∷ []
  pub revision : last.helm_version ≡ rel.version

-- The result has the aggregate's id, and what Helm's release says.
pub record IsResultOf (d : Deployment) (rel : Release) (r : ChartResult) : Type 0 where
  pub identified : r.deployment_id ≡ d.id
  pub named : r.release_name ≡ rel.name
  pub placed : r.namespace ≡ rel.namespace
  pub revised : r.revision ≡ rel.version
  pub state : r.status ≡ Status.succeeded
  pub noted : (rel.notes ≡ some (r.notes)) ⊎ ((rel.notes ≡ none) × (r.notes ≡ ""))

chart_result-IsResultOf :
    (d : Deployment) (rel : Release)
    → d.status ≡ Status.succeeded
    → IsResultOf d rel (chart_result d rel)
chart_result-IsResultOf d rel done = record {
  identified = refl;
  named = refl;
  placed = refl;
  revised = refl;
  state = done;
  noted = elim (Option-cases (rel.notes)) [ inl e ↦ inr (e, rw e) | inr (notes, e) ↦ inl (rw e) ];
}

abbrev pub IsUnderWay : Deployment → Type 0
IsUnderWay d = (d.status ≡ deploying) ⊎ (d.status ≡ upgrading)

mark_succeeded-IsDone :
    (m : Moment) (rel : Release) (d : Deployment)
    → IsUnderWay d
    → ((Entity.mark_succeeded m rel.version d).1 ≡ none)
      × IsDone rel (Entity.mark_succeeded m rel.version d).0
unfolding Entity.mark_succeeded
mark_succeeded-IsDone m rel d (inl e) = (
  rw e,
  rw e (record {
    state = refl;
    earlier = d.history;
    last = history_entry m rel.version d;
    recorded = rw e;
    revision = refl;
  }),
)
mark_succeeded-IsDone m rel d (inr e) = (
  rw e,
  rw e (record {
    state = refl;
    earlier = d.history;
    last = history_entry m rel.version d;
    recorded = rw e;
    revision = refl;
  }),
)

pub start_deployment-IsUnderWay :
    (m : Moment) (d : Deployment)
    → (Entity.start_deployment m d).1 ≡ none
    → IsUnderWay (Entity.start_deployment m d).0
unfolding Entity.start_deployment
start_deployment-IsUnderWay m d h = ground arith

pub start_upgrade-IsUnderWay :
    (m : Moment) (chart : _) (values : _) (d : Deployment)
    → (Entity.start_upgrade m chart values d).1 ≡ none
    → IsUnderWay (Entity.start_upgrade m chart values d).0
unfolding Entity.start_upgrade
start_upgrade-IsUnderWay m chart values d h = ground arith

-- `what` names Helm's method in an error, `helm` is its answer and `c` the call of it; `h` are the
-- calls from before.
module _ (ports : Ports) (clock : ℕ → Moment) where
  -- After the calls `k` the publisher gets all events of the aggregate, in one call, where there are
  -- any and the service has a publisher; its answer does not matter.
  pub data Published (d : Deployment) (k : List Call) : List Call → Type 0 where
    published : ports.has_publisher ≡ true → d.events ≢ [] → Published d k (publish d.events ∷ k)
    no_publisher : ports.has_publisher ≡ false → Published d k k
    no_events : d.events ≡ [] → Published d k k

  pub publish_events-Published :
      (d : Deployment) (k : List Call) → Published d k (publish_events ports clock d k)
  unfolding publish_events
  publish_events-Published d k = decided (ports.has_publisher) (is_nil d.events) refl refl
    where
      is_nil-empty : {A : Type 0} (l : List A) → is_nil l ≡ true → l ≡ []
      is_nil-empty [] h = refl
      is_nil-empty (x ∷ l) h = cc

      decided :
          (has nothing : Bool)
          → ports.has_publisher ≡ has
          → is_nil d.events ≡ nothing
          → Published d k (if has && not nothing then publish d.events ∷ k else k)
      decided false nothing e f = no_publisher e
      decided true true e f = no_events (is_nil-empty d.events f)
      decided true false e f = published e (λ empty. cc (sym f ∙ ap is_nil empty))

  pub data Reported (what : String) (helm : List Call → Result Error Release) (c : Call)
      (h : List Call) : Run ChartResult → Type 0 where
    -- Helm succeeded, and the aggregate was saved as SUCCEEDED and its events published.
    done :
        (k l : List Call) (rel : Release) (d : Deployment) (r : ChartResult)
        → helm_calls k ≡ helm_calls h
        → helm k ≡ ok rel
        → IsDone rel d
        → ports.save (c ∷ k) d ≡ none
        → Published d (save d ∷ c ∷ k) l
        → IsResultOf d rel r
        → Reported what helm c h (l, ok r)
    -- Helm succeeded, but the aggregate could not be saved.
    unsaved :
        (k : List Call) (rel : Release) (d : Deployment) (e : Error)
        → helm_calls k ≡ helm_calls h
        → helm k ≡ ok rel
        → IsDone rel d
        → ports.save (c ∷ k) d ≡ some e
        → Reported what helm c h (save d ∷ c ∷ k, err e)
    -- Helm failed, a save as FAILED was tried and the events were published.
    helm_failed :
        (k l : List Call) (d : Deployment) (e : Error)
        → helm_calls k ≡ helm_calls h
        → helm k ≡ err e
        → d.status ≡ Status.failed
        → Published d (save d ∷ c ∷ k) l
        → Reported what helm c h (l, err (wrapped what e))
    -- Helm was not called.
    untried :
        (k : List Call) (e : Error)
        → helm_calls k ≡ helm_calls h
        → Reported what helm c h (k, err e)

  module _ (what : String) (helm : List Call → Result Error Release) (c : Call)
      (h : List Call) where
    pub finish-Reported :
        (d : Deployment) (rel : Release) (k : List Call)
        → IsUnderWay d
        → helm_calls k ≡ helm_calls h
        → helm k ≡ ok rel
        → Reported what helm c h (finish ports clock d rel (c ∷ k))
    unfolding finish
    finish-Reported d rel k way same answer =
        let (accepted, is_done) = mark_succeeded-IsDone (clock 2) rel d way in
        let marked = (Entity.mark_succeeded (clock 2) rel.version d).0 in
        transition_rule (Reported what helm c h) (Entity.mark_succeeded (clock 2) rel.version d)
          (c ∷ k) _
          (λ _.
            attempt_rule (Reported what helm c h) (ports.save (c ∷ k) marked) (save marked)
              return_error (c ∷ k) _
              (λ saved.
                done k _ rel marked _ same answer is_done saved (publish_events-Published marked _)
                  (chart_result-IsResultOf marked rel is_done.state))
              (λ e refused. unsaved k rel marked e same answer is_done refused))
          (λ e refused. absurd (cc (sym accepted ∙ refused)))

    pub give_up-Reported :
        (d : Deployment) (e : Error) (k : List Call)
        → helm_calls k ≡ helm_calls h
        → helm k ≡ err e
        → Reported what helm c h (give_up ports clock {A = ChartResult} what d e (c ∷ k))
    unfolding give_up
    give_up-Reported d e k same answer =
        helm_failed k _ (Entity.mark_failed (clock 2) (ports.error_text e) d).0 e same answer
          (mark_failed-state (clock 2) (ports.error_text e) d) (publish_events-Published _ _)
