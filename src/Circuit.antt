-- ===== src/Circuit.antt =====
-- internal/infrastructure/circuit/breaker.go. The library gobreaker is a parameter.
use sh_mcp_go.Prelude.{ℕ, ◌*◌, String, Bool, ◌&&◌, Option, none, some, Result, ok, err, leb}

-- `State`, and that of gobreaker.
pub data State : Type 0 where
  state_closed state_half_open state_open : State

pub data LibraryState : Type 0 where
  library_closed library_half_open library_open : LibraryState

-- `gbState`; a value that gobreaker does not name would be closed too.
unfoldable pub gb_state : LibraryState → State
gb_state library_half_open = state_half_open
gb_state library_open = state_open
gb_state library_closed = state_closed

-- What the code reads of `gobreaker.Counts`; both are of 32 bits.
pub record Counts : Type 0 where
  pub requests : ℕ
  pub total_failures : ℕ

-- `defaultReadyToTrip`. The quotient of two numbers of 32 bits is as a float at least 0.6 where it is
-- that as a fraction.
unfoldable pub default_ready_to_trip : Counts → Bool
default_ready_to_trip counts =
    leb 3 (counts.requests) && leb (3 * counts.requests) (5 * counts.total_failures)

-- `Settings`; times are in nanoseconds.
pub record Settings : Type 0 where
  pub name : String
  pub max_requests : ℕ
  pub interval : ℕ
  pub timeout : ℕ
  pub ready_to_trip : Option (Counts → Bool)

-- `gobreaker.Settings`.
pub record LibrarySettings : Type 0 where
  pub name : String
  pub max_requests : ℕ
  pub interval : ℕ
  pub timeout : ℕ
  pub ready_to_trip : Counts → Bool

-- The settings that `NewBreaker` passes on.
unfoldable pub library_settings : Settings → LibrarySettings
unfolding default_ready_to_trip
library_settings s = record {
  name = s.name;
  max_requests = s.max_requests;
  interval = s.interval;
  timeout = s.timeout;
  ready_to_trip = elim (s.ready_to_trip) [ none ↦ default_ready_to_trip | some f ↦ f ];
}

-- The function that gobreaker calls when the state changes.
unfoldable pub on_state_change :
    {Effect : Type 0}
    → (changed : (name : String) → (from to : State) → Effect) → (name : String)
    → (from to : LibraryState) → Effect
unfolding gb_state
on_state_change changed name from to = changed name (gb_state from) (gb_state to)

-- `DefaultHelmBreaker` and `DefaultK8sBreaker`.
unfoldable pub default_helm_breaker : Settings
default_helm_breaker = record {
  name = "helm";
  max_requests = 1;
  interval = 60000000000;
  timeout = 30000000000;
  ready_to_trip = none;
}

unfoldable pub default_k8s_breaker : Settings
default_k8s_breaker = record {
  name = "kubernetes";
  max_requests = 2;
  interval = 30000000000;
  timeout = 15000000000;
  ready_to_trip = none;
}

-- An error of `Execute`: of the context, or of gobreaker or the function, with the breaker's name.
pub data ExecuteError (E : Type 0) : Type 0 where
  context_error : E → ExecuteError E
  breaker_error : (name : String) → E → ExecuteError E

-- `Execute`, over a state that the function changes. `execute` is gobreaker's, `ctx_error` is the error
-- of a context that is done.
module _ {S E V : Type 0} (execute : (S → S × Result E V) → S → S × Result E V)
    (name : String) where
  abbrev pub named : S × Result E V → S × Result (ExecuteError E) V
  named (s, ok v) = (s, ok v)
  named (s, err e) = (s, err (breaker_error name e))

  unfoldable pub execute_fn :
      (ctx_error : Option E) → (fn : S → S × Result E V) → S → S × Result (ExecuteError E) V
  execute_fn (some e) fn s = (s, err (context_error e))
  execute_fn none fn s = named (execute fn s)
