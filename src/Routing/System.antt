-- ===== src/Routing/System.antt =====
-- The manager and its reactors at work: calls of the manager, and a reactor that takes a message or
-- goes away, in any order.
use mvirt.Prelude.{ℕ, zero, suc, false, List, [], ◌∷◌}
use mvirt.Routing.Target.{PrefixTrie}
use mvirt.Routing.Table.{RoutingTables, FirstKey}
use mvirt.Routing.Update.{apply_update}
use mvirt.Routing.Reactor.{handle_command}
use mvirt.Routing.Step.{Step}
use mvirt.Routing.Manager.{
  Receiver, RoutingManager, register_reactor, register_command_channel, cleanup_closed_channels,
  create_table, delete_table, add_route, remove_route, set_default_table,
}

module _ {A : Type 0} where
  -- One element, by its place, is changed.
  unfoldable pub change_at : ℕ → (A → A) → List A → List A
  change_at n change [] = []
  change_at zero change (x ∷ xs) = change x ∷ xs
  change_at (suc n) change (x ∷ xs) = x ∷ change_at n change xs

module _ ⦃trie : PrefixTrie⦄ {M : Type 0} where
  unfoldable pub take : (FirstKey → M → RoutingTables → RoutingTables) → Receiver M → Receiver M
  take handle r = elim r.pending [
    | [] ↦ r
    | message ∷ rest ↦ record r { pending = rest; local = handle r.order message r.local }
  ]

  unfoldable pub close : Receiver M → Receiver M
  close r = record r { open_ = false }

module _ ⦃trie : PrefixTrie⦄ where
  unfoldable pub step : Step → RoutingManager → RoutingManager
  step (Step.register_reactor order) m = register_reactor order m
  step (Step.register_command_channel order) m = register_command_channel order m
  step Step.cleanup_closed_channels m = cleanup_closed_channels m
  step (Step.create_table id name) m = create_table id name m
  step (Step.delete_table id) m = delete_table id m
  step (Step.add_route table_id prefix target) m = add_route table_id prefix target m
  step (Step.remove_route table_id prefix) m = remove_route table_id prefix m
  step (Step.set_default_table id) m = set_default_table id m
  step (Step.take_update n) m = record m {
    update_senders = change_at n (take (apply_update)) m.update_senders;
  }
  step (Step.take_command n) m = record m {
    command_senders = change_at n (take (handle_command)) m.command_senders;
  }
  step (Step.close_update n) m = record m { update_senders = change_at n close m.update_senders }
  step (Step.close_command n) m = record m { command_senders = change_at n close m.command_senders }

  unfoldable pub run : List Step → RoutingManager → RoutingManager
  run [] m = m
  run (s ∷ rest) m = run rest (step s m)
