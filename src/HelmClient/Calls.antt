-- ===== src/HelmClient/Calls.antt =====
-- How the methods of internal/adapters/helm/client.go go on after a call, and what holds then.
use sh_mcp_go.Prelude.{◌≡◌, Option, none, some, Result, ok, err}
use sh_mcp_go.HelmClient.Errors.{Error}
use sh_mcp_go.HelmClient.Sdk.{Sdk, World}

-- The error as it is.
abbrev pub unwrapped : Error → Error
unwrapped e = e

module _ {sdk : Sdk} where
  -- `if err != nil { return …, failed(err) }`.
  unfoldable pub then_do :
      {A B : Type 0}
      → World sdk × Result Error A
      → (failed : Error → Error) → (next : A → World sdk → World sdk × Result Error B)
      → World sdk × Result Error B
  then_do (w, ok a) failed next = next a w
  then_do (w, err e) failed next = (w, err (failed e))

  -- The same for a call that answers with an error only and changes nothing.
  unfoldable pub unless :
      {B : Type 0}
      → Option Error
      → World sdk
      → (next : World sdk → World sdk × Result Error B) → World sdk × Result Error B
  unless none w next = next w
  unless (some e) w next = (w, err e)

  -- The cluster is as it was.
  pub record IsUntouched {B : Type 0} (c : sdk.Cluster) (r : World sdk × Result Error B)
      : Type 0 where
    pub untouched : r.0.cluster ≡ c

  pub then_do-IsUntouched :
      {A B : Type 0} (c : sdk.Cluster) (r : World sdk × Result Error A) (failed : Error → Error)
      (next : A → World sdk → World sdk × Result Error B)
      → IsUntouched c r
      → ((a : A) (w : World sdk) → w.cluster ≡ c → IsUntouched c (next a w))
      → IsUntouched c (then_do r failed next)
  unfolding then_do
  then_do-IsUntouched c (w, ok a) failed next h k = k a w h.untouched
  then_do-IsUntouched c (w, err e) failed next h k = record { untouched = h.untouched }

  pub unless-IsUntouched :
      {B : Type 0} (c : sdk.Cluster) (e : Option Error) (w : World sdk)
      (next : World sdk → World sdk × Result Error B)
      → w.cluster ≡ c
      → IsUntouched c (next w)
      → IsUntouched c (unless e w next)
  unfolding unless
  unless-IsUntouched c none w next h k = k
  unless-IsUntouched c (some e) w next h k = record { untouched = h }
