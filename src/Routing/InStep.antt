-- ===== src/Routing/InStep.antt =====
-- What keeps the copies of the tables of mvirt-net/src/routing.rs in step when messages are sent and
-- taken.
use mathlib.Core.Path.{subst}
use mvirt.Redb.{lookup, without}
use mvirt.Prelude.{
  Option, none, some, String, sym, ℕ, zero, suc, Bool, true, false, ◌≡◌, refl, ap, ◌∙◌, List, [],
  ◌∷◌, ◌++◌, Memᴰ, Bool-cases, inl, inr, is_some, if◌then◌else◌,
}
use mathlib.Core.List.Memᴰ.{head, tail, not-nil}
use mvirt.Routing.Target.{PrefixTrie}
use mvirt.Routing.Table.{
  LpmTable, RoutingTables, FirstKey, change_table, set_default, put, new_table, add_table,
  remove_table,
}
use mvirt.Routing.Update.{RouteUpdate, ReactorCommand, apply_update, with_route, without_route}
use mvirt.Routing.Reactor.{handle_command}
use mvirt.Routing.Manager.{Receiver, send_all, newcomer, route_update_to_command}
use mvirt.Routing.System.{change_at, take, close}

module _ ⦃trie : PrefixTrie⦄ where
  -- What an update of a table makes of all tables, from the table that is found.
  abbrev changed :
      Option LpmTable
      → String
      → (LpmTable → LpmTable)
      → List (String × LpmTable)
      → List (String × LpmTable)
  changed none id change ts = ts
  changed (some t) id change ts = put id (change t) ts

  change_table-tables :
      (r : RoutingTables) (id : String) (change : LpmTable → LpmTable)
      → (change_table r id change).tables ≡ changed (lookup id r.tables) id change r.tables
  unfolding change_table
  change_table-tables r id change = split (lookup id r.tables)
    where
      split :
          (o : Option LpmTable)
          → (elim o as (λ x. RoutingTables) [
            | none ↦ r
            | some t ↦ record r { tables = put id (change t) r.tables }
          ]).tables
            ≡ changed o id change r.tables
      split none = refl
      split (some t) = refl

  set_default-tables : (r : RoutingTables) (id : String) → (set_default r id).tables ≡ r.tables
  unfolding set_default
  set_default-tables r id = elim (Bool-cases (is_some (lookup id r.tables))) [
    | inl there ↦ rw there refl
    | inr gone ↦ rw gone refl
  ]

  -- The tables that are there afterwards depend on the tables that are there before, and neither on
  -- the default nor on an order.
  pub command-tables :
      (o p : FirstKey) (c : ReactorCommand) (a b : RoutingTables)
      → a.tables ≡ b.tables
      → (handle_command o c a).tables ≡ (handle_command p c b).tables
  unfolding handle_command add_table remove_table
  command-tables o p ReactorCommand.shutdown a b same = same
  command-tables o p (ReactorCommand.create_table id name) a b same =
      ap (put (new_table id name).id (new_table id name)) same
  command-tables o p (ReactorCommand.delete_table id) a b same = ap (without id) same
  command-tables o p (ReactorCommand.add_route id prefix target) a b same =
      change_table-tables a id (with_route prefix target)
      ∙ ap (λ ts. changed (lookup id ts) id (with_route prefix target) ts) same
      ∙ sym (change_table-tables b id (with_route prefix target))
  command-tables o p (ReactorCommand.remove_route id prefix) a b same =
      change_table-tables a id (without_route prefix)
      ∙ ap (λ ts. changed (lookup id ts) id (without_route prefix) ts) same
      ∙ sym (change_table-tables b id (without_route prefix))
  command-tables o p (ReactorCommand.set_default_table id) a b same =
      set_default-tables a id ∙ same ∙ sym (set_default-tables b id)

  -- The commands of a reactor do what the updates do.
  pub handle_command-route_update_to_command :
      (o : FirstKey) (u : RouteUpdate) (t : RoutingTables)
      → handle_command o (route_update_to_command u) t ≡ apply_update o u t
  unfolding handle_command route_update_to_command apply_update
  handle_command-route_update_to_command o (RouteUpdate.create_table id name) t = refl
  handle_command-route_update_to_command o _ t = refl

  pub update-tables :
      (o p : FirstKey) (u : RouteUpdate) (a b : RoutingTables)
      → a.tables ≡ b.tables
      → (apply_update o u a).tables ≡ (apply_update p u b).tables
  update-tables o p u a b same =
      ap (λ t. t.tables) (sym (handle_command-route_update_to_command o u a))
      ∙ command-tables o p (route_update_to_command u) a b same
      ∙ ap (λ t. t.tables) (handle_command-route_update_to_command p u b)

module _ ⦃trie : PrefixTrie⦄ {M : Type 0}
    (handle : FirstKey → M → RoutingTables → RoutingTables) where
  -- The tables once all messages are taken.
  unfoldable pub drain : FirstKey → List M → RoutingTables → RoutingTables
  drain order [] t = t
  drain order (m ∷ rest) t = drain order rest (handle order m t)

  abbrev pub caught_up : Receiver M → RoutingTables
  caught_up r = drain r.order r.pending r.local

  -- The same tables, and with the same order of keys the same default too.
  abbrev Alike : FirstKey → RoutingTables → Receiver M → Type 0
  Alike order t r = ((caught_up r).tables ≡ t.tables) × (r.order ≡ order → caught_up r ≡ t)

  abbrev pub InStep : FirstKey → RoutingTables → List (Receiver M) → Type 0
  InStep order t rs = (r : Receiver M) → Memᴰ r rs → r.open_ ≡ true → Alike order t r

  drain-append :
      (o : FirstKey) (ms : List M) (m : M) (t : RoutingTables)
      → drain o (ms ++ m ∷ []) t ≡ handle o m (drain o ms t)
  unfolding drain
  drain-append o [] m t = refl
  drain-append o (n ∷ ms) m t = drain-append o ms m (handle o n t)

  module _ (order : FirstKey) (t : RoutingTables) where
    pub InStep-nil : InStep order t []
    InStep-nil r there = absurd (not-nil there)

    InStep-cons :
        (q : Receiver M) (rs : List (Receiver M))
        → (q.open_ ≡ true → Alike order t q)
        → InStep order t rs
        → InStep order t (q ∷ rs)
    InStep-cons q rs first rest r (head same) here =
        subst (Alike order t) (sym same) (first (ap (λ x. x.open_) (sym same) ∙ here))
    InStep-cons q rs first rest r (tail later) here = rest r later here

    InStep-head :
        (q : Receiver M) (rs : List (Receiver M))
        → InStep order t (q ∷ rs)
        → q.open_ ≡ true
        → Alike order t q
    InStep-head q rs h here = h q (head refl) here

    InStep-tail :
        (q : Receiver M) (rs : List (Receiver M)) → InStep order t (q ∷ rs) → InStep order t rs
    InStep-tail q rs h r later here = h r (tail later) here

    InStep-if :
        (b : Bool) (q : Receiver M) (rs : List (Receiver M))
        → (b ≡ true → Alike order t q)
        → InStep order t rs
        → InStep order t (if b then q ∷ rs else rs)
    InStep-if true q rs first rest = InStep-cons q rs (λ _. first refl) rest
    InStep-if false q rs first rest = rest

    pub newcomer-InStep :
        (o : FirstKey) (rs : List (Receiver M))
        → InStep order t rs
        → InStep order t (rs ++ newcomer o t ∷ [])
    unfolding drain
    newcomer-InStep o [] h = InStep-cons (newcomer o t) [] (λ _. (refl, λ _. refl)) h
    newcomer-InStep o (q ∷ rs) h =
        InStep-cons q (rs ++ newcomer o t ∷ []) (InStep-head q rs h)
          (newcomer-InStep o rs (InStep-tail q rs h))

    -- A change of a receiver that keeps what it will have, if it is open afterwards.
    abbrev pub Harmless : (Receiver M → Receiver M) → Type 0
    Harmless change =
        (q : Receiver M)
        → (change q).open_ ≡ true
        → (q.open_ ≡ true) × (Alike order t q → Alike order t (change q))

    pub change_at-InStep :
        (change : Receiver M → Receiver M)
        → Harmless change
        → (n : ℕ) (rs : List (Receiver M)) → InStep order t rs
        → InStep order t (change_at n change rs)
    unfolding change_at
    change_at-InStep change keeps n [] h = h
    change_at-InStep change keeps zero (q ∷ rs) h =
        InStep-cons (change q) rs (λ here. (keeps q here).1 (InStep-head q rs h (keeps q here).0))
          (InStep-tail q rs h)
    change_at-InStep change keeps (suc n) (q ∷ rs) h =
        InStep-cons q (change_at n change rs) (InStep-head q rs h)
          (change_at-InStep change keeps n rs (InStep-tail q rs h))

    pub take-Harmless : Harmless (take handle)
    unfolding take drain
    take-Harmless q here = split q.pending q.local q.open_ here
      where
        split :
            (pending : List M) (local : RoutingTables) (o : Bool)
            → (take handle (record q { open_ = o; pending = pending; local = local })).open_ ≡ true
            → (o ≡ true)
              × (Alike order t (record q { open_ = o; pending = pending; local = local })
                  → Alike order t
                      (take handle (record q { open_ = o; pending = pending; local = local })))
        split [] local o here = (here, λ k. k)
        split (m ∷ rest) local o here = (here, λ k. k)

    pub close-Harmless : Harmless close
    unfolding close
    close-Harmless q here = cc

  pub send_all-InStep :
      ((o p : FirstKey) (m : M) (a b : RoutingTables)
        → a.tables ≡ b.tables
        → (handle o m a).tables ≡ (handle p m b).tables)
      → (order : FirstKey) (t : RoutingTables) (m : M) (rs : List (Receiver M)) → InStep order t rs
      → InStep order (handle order m t) (send_all m rs)
  unfolding send_all
  send_all-InStep same_tables order t m [] h = InStep-nil order (handle order m t)
  send_all-InStep same_tables order t m (q ∷ rs) h =
      InStep-if order (handle order m t) q.open_ (record q { pending = q.pending ++ m ∷ [] })
        (send_all m rs)
        (λ here.
          let (tables, all) = InStep-head order t q rs h here in
          let e = drain-append q.order q.pending m q.local in
          (
            ap (λ x. x.tables) e ∙ same_tables q.order order m (caught_up q) t tables,
            λ agree. e ∙ (λ i. handle (agree i) m (all agree i)),
          ))
        (send_all-InStep same_tables order t m rs (InStep-tail order t q rs h))
