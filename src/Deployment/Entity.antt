-- ===== src/Deployment/Entity.antt =====
-- internal/domain/deployment/entity.go: the aggregate and its methods. A method that mutates
-- `*Deployment` returns the new record, and its error, where it has one, as an `Option`.
use sh_mcp_go.Prelude.{
  Result, ok, err, ℕ, ◌+◌, ◌%◌, ◌^◌, String, Bool, true, false, not, Option, none, some, List, [],
  ◌∷◌, ◌++◌, insert, if◌then◌else◌,
}
use sh_mcp_go.Deployment.Status.{
  Status, pending, planning, deploying, succeeded, failed, rolling_back, rolled_back, upgrading,
  uninstalled,
}
use sh_mcp_go.Deployment.Errors.{Error, invalid_transition}
use sh_mcp_go.Deployment.Naming.{validate_release_name, validate_namespace}
use sh_mcp_go.Deployment.Chart.{ChartReference, validate_chart}
use sh_mcp_go.Deployment.Values.{Values}
use sh_mcp_go.Deployment.Events.{Moment, Detail, Event, new_event}

-- `version` and `helm_version` are the bit patterns of an `int`.
pub record HistoryEntry : Type 0 where
  pub version : ℕ
  pub status : Status
  pub chart_ref : ChartReference
  pub helm_version : ℕ
  pub timestamp : ℕ
  pub notes : String

pub record Deployment : Type 0 where
  pub id : String
  pub name : String
  pub namespace : String
  pub chart_ref : ChartReference
  pub values : Values
  pub status : Status
  pub version : ℕ
  pub history : List HistoryEntry
  pub events : List Event
  pub created_at : ℕ
  pub updated_at : ℕ
  pub annotations : List (String × String)
  pub labels : List (String × String)

-- `record`, for the event that `detail` describes.
unfoldable pub record_event : Moment → Detail → Deployment → Deployment
unfolding new_event
record_event m detail d = record d {
  events = d.events ++ new_event m d.id d.name d.namespace detail ∷ [];
}

abbrev pub Created : Type 0
Created = Result Error Deployment

-- The aggregate that `New` builds once its arguments are valid.
unfoldable pub initial : Moment → (id name ns : String) → ChartReference → Values → Deployment
unfolding record_event
initial m id name ns chart values = record_event m (Detail.created chart) (record {
  id = id;
  name = name;
  namespace = ns;
  chart_ref = chart;
  values = values;
  status = pending;
  version = 1;
  history = [];
  events = [];
  created_at = m.updated_at;
  updated_at = m.updated_at;
  annotations = [];
  labels = [];
})

-- The first error that is not nil, or else the aggregate.
abbrev pub unless : Option Error → Created → Created
unless none next = next
unless (some e) next = err e

-- `New`; `id` is the generated one.
unfoldable pub new :
    (is_semver : String → Bool) → Moment → (id name ns : String) → ChartReference → Values → Created
unfolding initial
new is_semver m id name ns chart values = unless (validate_release_name name) (
    unless (validate_namespace ns)
      (unless (validate_chart is_semver chart) (ok (initial m id name ns chart values))))

-- `Reconstitute`.
unfoldable pub reconstitute :
    (id name ns : String)
    → ChartReference
    → Values
    → Status
    → (version : ℕ) → List HistoryEntry
    → (created_at updated_at : ℕ) → (annotations labels : List (String × String)) → Deployment
reconstitute id name ns chart values status version history created_at updated_at annotations
      labels =
    record {
      id = id;
      name = name;
      namespace = ns;
      chart_ref = chart;
      values = values;
      status = status;
      version = version;
      history = history;
      events = [];
      created_at = created_at;
      updated_at = updated_at;
      annotations = annotations;
      labels = labels;
    }

-- What a command leaves: the aggregate and the error, `none` for nil.
abbrev pub Outcome : Type 0
Outcome = Deployment × Option Error

abbrev may_deploy : Status → Bool
may_deploy pending = true
may_deploy planning = true
may_deploy _ = false

abbrev pub in_progress : Status → Bool
in_progress deploying = true
in_progress upgrading = true
in_progress _ = false

abbrev has_succeeded : Status → Bool
has_succeeded succeeded = true
has_succeeded _ = false

abbrev may_roll_back : Status → Bool
may_roll_back failed = true
may_roll_back succeeded = true
may_roll_back _ = false

unfoldable pub start_deployment : Moment → Deployment → Outcome
unfolding record_event
start_deployment m d =
    if not (may_deploy d.status) then (d, some (invalid_transition d.status deploying)) else (
      record_event m Detail.started (record d { status = deploying; updated_at = m.updated_at }),
      none,
    )

-- The entry that `MarkSucceeded` appends.
abbrev pub history_entry : Moment → (helm_revision : ℕ) → Deployment → HistoryEntry
history_entry m helm_revision d = record {
  version = d.version;
  status = d.status;
  chart_ref = d.chart_ref;
  helm_version = helm_revision;
  timestamp = m.recorded_at;
  notes = "";
}

unfoldable pub mark_succeeded : Moment → (helm_revision : ℕ) → Deployment → Outcome
unfolding record_event
mark_succeeded m helm_revision d =
    if not (in_progress d.status) then (d, some (invalid_transition d.status succeeded)) else (
      record_event m (Detail.succeeded helm_revision) (record d {
        history = d.history ++ history_entry m helm_revision d ∷ [];
        status = succeeded;
        version = (d.version + 1) % 2 ^ 64;
        updated_at = m.updated_at;
      }),
      none,
    )

-- `MarkFailed`; its error is always nil.
unfoldable pub mark_failed : Moment → (reason : String) → Deployment → Outcome
unfolding record_event
mark_failed m reason d = (
  record_event m (Detail.failed reason) (record d { status = failed; updated_at = m.updated_at }),
  none,
)

unfoldable pub start_upgrade : Moment → ChartReference → Values → Deployment → Outcome
unfolding record_event
start_upgrade m chart values d =
    if not (has_succeeded d.status) then (d, some (invalid_transition d.status upgrading)) else (
      record_event m (Detail.upgrade_started chart) (record d {
        chart_ref = chart;
        values = values;
        status = upgrading;
        updated_at = m.updated_at;
      }),
      none,
    )

unfoldable pub start_rollback : Moment → (to_version : ℕ) → Deployment → Outcome
unfolding record_event
start_rollback m to_version d =
    if not (may_roll_back d.status) then (d, some (invalid_transition d.status rolling_back)) else (
      record_event m (Detail.rollback_started to_version)
          (record d { status = rolling_back; updated_at = m.updated_at }),
      none,
    )

unfoldable pub mark_rolled_back : Moment → (to_version : ℕ) → Deployment → Deployment
unfolding record_event
mark_rolled_back m to_version d =
    record_event m (Detail.rolled_back to_version)
      (record d { status = rolled_back; updated_at = m.updated_at })

unfoldable pub set_label : Moment → (key val : String) → Deployment → Deployment
set_label m key val d = record d { labels = insert key val d.labels; updated_at = m.updated_at }

unfoldable pub set_annotation : Moment → (key val : String) → Deployment → Deployment
set_annotation m key val d = record d {
  annotations = insert key val d.annotations;
  updated_at = m.updated_at;
}

unfoldable pub is_terminal : Deployment → Bool
is_terminal d = elim d.status [
  | succeeded ↦ true
  | failed ↦ true
  | rolled_back ↦ true
  | uninstalled ↦ true
  | _ ↦ false
]

-- `DrainEvents`: the events, and the aggregate without them.
unfoldable pub drain_events : Deployment → Deployment × List Event
drain_events d = (record d { events = [] }, d.events)
