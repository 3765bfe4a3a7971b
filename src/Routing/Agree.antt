-- ===== src/Routing/Agree.antt =====
-- The copies of the reactors follow the tables of the manager.
use mvirt.Routing.Target.{PrefixTrie}
use mvirt.Routing.Update.{apply_update}
use mvirt.Routing.Reactor.{handle_command}
use mvirt.Routing.Step.{Step}
use mvirt.Routing.Manager.{RoutingManager}
use mvirt.Routing.InStep.{InStep}

module _ ⦃trie : PrefixTrie⦄ where
  record IsSynced (m : RoutingManager) : Type 0 where
    updates : InStep apply_update m.order m.tables m.update_senders
    commands : InStep handle_command m.order m.tables m.command_senders
