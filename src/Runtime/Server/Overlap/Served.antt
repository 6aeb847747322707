-- ===== src/Runtime/Server/Overlap/Served.antt =====
-- The dispatcher of a server whose requests overlap.
use ts_plugins.Common.{◌≡◌}
use ts_plugins.Runtime.Dispatcher.Calls.{Reach}
use ts_plugins.Runtime.Server.{Server}
use ts_plugins.Runtime.Server.Overlap.{ServerWorld}

-- The server keeps the dispatcher of a run of calls.
pub record KeepsRun {ℓ} {Schema H : Type ℓ} (server : Server Schema H) (w : ServerWorld Schema)
    : Type 0 where
  pub reach : Reach server.dispatcher w.calls
  pub same : w.server.dispatcher ≡ w.calls.state
