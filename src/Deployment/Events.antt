-- ===== src/Deployment/Events.antt =====
-- internal/domain/deployment/events.go: the domain events.
use sh_mcp_go.Prelude.{ℕ, String}
use sh_mcp_go.Deployment.Chart.{ChartReference}

-- What the clock and the id generator answer during one method call: the time written to a history
-- entry, to `updatedAt` and to the event, and the event's id.
pub record Moment : Type 0 where
  pub recorded_at : ℕ
  pub updated_at : ℕ
  pub occurred_at : ℕ
  pub event_id : String

pub data EventType : Type 0 where
  created started succeeded failed upgrade_started rollback_started rolled_back : EventType

-- The fields that each event adds to the base ones and to the release's name and namespace.
pub data Detail : Type 0 where
  created : ChartReference → Detail
  started : Detail
  succeeded : (helm_revision : ℕ) → Detail
  failed : (reason : String) → Detail
  upgrade_started : (new_chart : ChartReference) → Detail
  rollback_started : (to_version : ℕ) → Detail
  rolled_back : (to_version : ℕ) → Detail

pub record Event : Type 0 where
  pub event_id : String
  pub aggregate_id : String
  pub event_type : EventType
  pub occurred_at : ℕ
  pub release_name : String
  pub namespace : String
  pub detail : Detail

-- The type that each constructor function passes to `newBase`.
unfoldable pub type_of : Detail → EventType
type_of (Detail.created _) = EventType.created
type_of Detail.started = EventType.started
type_of (Detail.succeeded _) = EventType.succeeded
type_of (Detail.failed _) = EventType.failed
type_of (Detail.upgrade_started _) = EventType.upgrade_started
type_of (Detail.rollback_started _) = EventType.rollback_started
type_of (Detail.rolled_back _) = EventType.rolled_back

-- `newBase` and the `New…Event` functions.
unfoldable pub new_event : Moment → (id name ns : String) → Detail → Event
unfolding type_of
new_event m id name ns detail = record {
  event_id = m.event_id;
  aggregate_id = id;
  event_type = type_of detail;
  occurred_at = m.occurred_at;
  release_name = name;
  namespace = ns;
  detail = detail;
}
