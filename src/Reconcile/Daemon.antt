-- ===== src/Reconcile/Daemon.antt =====
-- The clients of mvirt-daemon-protos, which the build generates, and the registry of connected nodes
-- (mvirt-cplane/src/tunnel.rs), as an interface: what the reconcilers of mvirt-cplane/src/reconciler
-- call.
use mvirt.Prelude.{ℕ, String, Option, List, Bool, ◌<>◌}

-- `Result<_, tonic::Status>`, by the code that the reconcilers look for.
pub data Rpc (A : Type 0) : Type 0 where
  answered : A → Rpc A
  not_found : String → Rpc A
  refused : String → Rpc A

pub record NicConfig : Type 0 where
  pub tap : Option String
  pub mac : Option String
  pub vhost_socket : Option String

pub record DiskConfig : Type 0 where
  pub path : String
  pub readonly : Bool

pub record VmConfig : Type 0 where
  pub vcpus : ℕ
  pub memory_mb : ℕ
  pub boot_mode : ℕ
  pub kernel : Option String
  pub initramfs : Option String
  pub cmdline : Option String
  pub disks : List DiskConfig
  pub nics : List NicConfig
  pub user_data : Option String
  pub nested_virt : Bool

pub record CreateVmRequest : Type 0 where
  pub id : Option String
  pub name : Option String
  pub config : Option VmConfig

-- The state is the number of a `VmState`.
pub record Vm : Type 0 where
  pub id : String
  pub state : ℕ

-- A node is a handle once it is connected. The world is all that is on the nodes.
pub record Nodes : Type 1 where
  pub World : Type 0
  pub Handle : Type 0
  pub get : String → World → Option Handle
  pub get_vm : Handle → String → World → Rpc Vm × World
  pub create_vm : Handle → CreateVmRequest → World → Rpc Vm × World
  pub start_vm : Handle → String → World → Rpc (Unit {0}) × World
  pub stop_vm : Handle → String → ℕ → World → Rpc (Unit {0}) × World

-- `Result<_, String>`.
pub data Tried (A : Type 0) : Type 0 where
  done : A → Tried A
  failed : String → Tried A

-- `map_err(|s| format!("call: {}", s.message()))`.
abbrev pub tried : {A : Type 0} → String → Rpc A → Tried A
tried call (answered a) = done a
tried call (not_found message) = failed (call <> ": " <> message)
tried call (refused message) = failed (call <> ": " <> message)

module _ ⦃nodes : Nodes⦄ where
  abbrev pub Calls : Type 0 → Type 0
  Calls A = nodes.World → Tried A × nodes.World

  abbrev pub and_then :
      {A B : Type 0} → Tried A × nodes.World → (A → Calls B) → Tried B × nodes.World
  and_then (done a, w) f = f a w
  and_then (failed text, w) f = (failed text, w)

  infixl 5 ◌>>=◌
  abbrev pub ◌>>=◌ : {A B : Type 0} → Calls A → (A → Calls B) → Calls B
  ◌>>=◌ m f w = and_then (m w) f

  abbrev pub pure : {A : Type 0} → Tried A → Calls A
  pure a w = (a, w)

  abbrev pub call : {A : Type 0} → String → (nodes.World → Rpc A × nodes.World) → Calls A
  call name rpc w = let (reply, after) = rpc w in (tried name reply, after)

  -- `NotFound` is an answer of its own.
  abbrev pub found : {A : Type 0} → String → Rpc A → Tried (Option A)
  found name (answered a) = done (Option.some a)
  found name (not_found message) = done Option.none
  found name (refused message) = failed (name <> ": " <> message)

  abbrev pub lookup_call :
      {A : Type 0} → String → (nodes.World → Rpc A × nodes.World) → Calls (Option A)
  lookup_call name rpc w = let (reply, after) = rpc w in (found name reply, after)
