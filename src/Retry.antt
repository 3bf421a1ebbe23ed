-- ===== src/Retry.antt =====
-- internal/infrastructure/retry/policy.go. The library retry-go is a parameter.
use sh_mcp_go.Prelude.{ℕ, ◌≡◌, Option, none, some, List, [], ◌∷◌, ◌++◌}

-- The options of retry-go. `Func` stands for the functions that it takes: the kind of delay, which
-- errors are tried again, and what is done before that.
pub data RetryOption (Func : Type 0) : Type 0 where
  attempts delay max_delay : ℕ → RetryOption Func
  context : RetryOption Func
  delay_type retry_if on_retry : Func → RetryOption Func

-- retry-go: `back_off_delay` is its `BackOffDelay`, `run` its `Do`, for a function that changes a
-- state. `warn` is the function of the code that logs a failed attempt.
pub record RetryGo (Func : Type 0) : Type 1 where
  pub back_off_delay : Func
  pub warn : Func
  pub run : {S E : Type 0} → List (RetryOption Func) → (S → S × Option E) → S → S × Option E

-- What it promises: the state is changed by calls of the function only, and where no error is
-- returned, the last call returned none.
pub record RetryLaws {Func : Type 0} (retry_go : RetryGo Func) : Type 1 where
  pub only_calls :
      {S E : Type 0} (P : S → Type 0) (options : List (RetryOption Func)) (f : S → S × Option E)
      (s : S)
      → ((s : S) → P s → P (f s).0)
      → P s
      → P (retry_go.run options f s).0
  pub success :
      {S E : Type 0} (options : List (RetryOption Func)) (f : S → S × Option E) (s : S)
      → (retry_go.run options f s).1 ≡ none
      → (before : S) × ((f before).1 ≡ none) × ((retry_go.run options f s).0 ≡ (f before).0)

pub record Policy (Func : Type 0) : Type 0 where
  pub attempts : ℕ
  pub delay : ℕ
  pub max_delay : ℕ
  pub delay_type : Option Func
  pub retry_if : Option Func
  pub on_retry : Option Func

-- A `time.Second`.
abbrev pub second : ℕ
second = 1000000000

module _ {Func : Type 0} (retry_go : RetryGo Func) where
  -- `DefaultHelmPolicy`.
  unfoldable pub default_helm_policy : Policy Func
  default_helm_policy = record {
    attempts = 3;
    delay = 2000000000;
    max_delay = 30000000000;
    delay_type = some (retry_go.back_off_delay);
    retry_if = none;
    on_retry = none;
  }

  -- `DefaultK8sPolicy`.
  unfoldable pub default_k8s_policy : Policy Func
  default_k8s_policy = record {
    attempts = 5;
    delay = 1000000000;
    max_delay = 15000000000;
    delay_type = some (retry_go.back_off_delay);
    retry_if = none;
    on_retry = none;
  }

  -- `or_else fallback f` is f where it is not nil.
  abbrev pub or_else : (fallback : Func) → Option Func → Func
  or_else fallback none = fallback
  or_else fallback (some f) = f

  abbrev pub retry_if_option : Option Func → List (RetryOption Func)
  retry_if_option none = []
  retry_if_option (some f) = RetryOption.retry_if f ∷ []

  -- The options that `Do` builds.
  unfoldable pub options : Policy Func → List (RetryOption Func)
  options policy =
      RetryOption.attempts (policy.attempts)
      ∷ RetryOption.delay (policy.delay)
      ∷ RetryOption.max_delay (policy.max_delay)
      ∷ RetryOption.context
      ∷ RetryOption.delay_type (or_else (retry_go.back_off_delay) (policy.delay_type))
      ∷ (retry_if_option (policy.retry_if)
          ++ (RetryOption.on_retry (or_else (retry_go.warn) (policy.on_retry)) ∷ []))

  -- `Do`.
  unfoldable pub retry_do : {S E : Type 0} → Policy Func → (S → S × Option E) → S → S × Option E
  unfolding options
  retry_do policy f s = retry_go.run (options policy) f s

  -- The call inside `DoWithResult`: its result is kept beside the state.
  unfoldable pub keep_result :
      {S E V : Type 0} → (S → S × V × Option E) → S × V → (S × V) × Option E
  keep_result f (s, old) = let (after, value, e) = f s in ((after, value), e)

  -- `DoWithResult`; `zero` is the zero value of the result's type.
  unfoldable pub do_with_result :
      {S E V : Type 0} → Policy Func → (zero : V) → (S → S × V × Option E) → S → S × V × Option E
  unfolding retry_do keep_result
  do_with_result policy zero f s =
      let (after, e) = retry_do policy (keep_result f) (s, zero) in (after.0, after.1, e)
