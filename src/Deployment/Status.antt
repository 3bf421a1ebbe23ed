-- ===== src/Deployment/Status.antt =====
-- internal/domain/deployment/entity.go: the lifecycle states.
use sh_mcp_go.Prelude.{String}

-- `other` holds the strings that name no declared state, which a database row may carry.
pub data Status : Type 0 where
  pending planning validating deploying succeeded failed : Status
  rolling_back rolled_back upgrading uninstalled : Status
  other : String → Status
