-- ===== src/Routing/Step.antt =====
-- The calls of the manager of mvirt-net/src/routing.rs, and what a reactor can do between them.
use mvirt.Prelude.{ℕ, String}
use mvirt.Routing.Table.{FirstKey}
use mvirt.Routing.Target.{IpPrefix, RouteTarget}

-- A reactor that registers brings the order of its copy. A number says which receiver, of updates or of commands, takes a message or goes away.
pub data Step : Type 0 where
  register_reactor : FirstKey → Step
  register_command_channel : FirstKey → Step
  cleanup_closed_channels : Step
  create_table : String → String → Step
  delete_table : String → Step
  add_route : String → IpPrefix → RouteTarget → Step
  remove_route : String → IpPrefix → Step
  set_default_table : String → Step
  take_update : ℕ → Step
  take_command : ℕ → Step
  close_update : ℕ → Step
  close_command : ℕ → Step
