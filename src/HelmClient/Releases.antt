-- ===== src/HelmClient/Releases.antt =====
-- What internal/adapters/helm/client.go reads of the SDK's releases and charts. A map, a slice or a
-- pointer whose nil the code tells apart is an `Option`.
use sh_mcp_go.Prelude.{ℕ, String, Bool, Option, List, Any}

pub record Hook : Type 0 where
  pub name : String
  pub kind : String
  pub path : String
  pub events : List String
  -- `LastRun.Phase`
  pub phase : String
  pub weight : ℕ

pub record Info : Type 0 where
  pub status : String
  pub notes : String
  pub last_deployed : ℕ
  pub resources : Option Any

pub record Dependency : Type 0 where
  pub name : String
  pub version : String
  pub repository : String
  pub condition : String
  pub tags : List String
  pub alias : String

pub record Metadata : Type 0 where
  pub name : String
  pub version : String
  pub dependencies : List Dependency

pub record File : Type 0 where
  pub name : String
  pub content : String

pub record Chart : Type 0 where
  pub metadata : Option Metadata
  pub values : Option (List (String × Any))
  pub files : List File

pub record Release : Type 0 where
  pub name : String
  pub version : ℕ
  pub manifest : String
  pub info : Option Info
  pub hooks : List Hook
  pub chart : Option Chart

-- An answer of the type `any`: a `*releasev1.Release`, which is not nil, or something else.
pub data RawRelease : Type 0 where
  release : Release → RawRelease
  other_release : RawRelease

-- The same for a `*chartv2.Chart`.
pub data RawChart : Type 0 where
  chart : Chart → RawChart
  other_chart : RawChart

pub record ChartVersion : Type 0 where
  pub version : String
  pub app_version : String
  pub description : String

-- `repov1.IndexFile`, by its `Entries` in the order in which they are visited.
abbrev pub IndexFile : Type 0
IndexFile = List (String × List ChartVersion)

-- `repov1.Entry`.
pub record Entry : Type 0 where
  pub name : String
  pub url : String
  pub username : String
  pub password : String
  pub ca_file : String
  pub cert_file : String
  pub key_file : String
  pub insecure_skip_tls_verify : Bool
  pub pass_credentials_all : Bool
