-- ===== src/Protocol/Limits.antt =====
-- packages/adapter-protocol/src/limits.js: the branch of a limits object.
use publish.Prelude.{Bool}
use publish.Json.{Value}
use publish.Kernel.DecisionFields.{property}
use publish.Protocol.Capability.{is_text}

-- `null` and what is no object have no property.
unfoldable pub is_filesystem_provider_limits : Value → Bool
is_filesystem_provider_limits limits = is_text (property limits "transport") "filesystem"

unfoldable pub is_http_provider_limits : Value → Bool
is_http_provider_limits limits = is_text (property limits "transport") "http"
