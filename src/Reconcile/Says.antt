-- ===== src/Reconcile/Says.antt =====
-- What `drive` of mvirt-cplane/src/reconciler/vm.rs makes of what a VM's daemon says.
use mvirt.Prelude.{
  String, if◌then◌else◌, Bool, true, false, ◌≡◌, refl, ap, ◌∙◌, ◌↔◌, ◌⊎◌, inl, inr, Option, none,
  some,
}
use mvirt.Resource.Vm.{VmData, VmPhase}
use mvirt.Reconcile.Daemon.{
  Nodes, Rpc, Vm, Calls, pure, answered, not_found, refused, Tried, done, failed, and_then, tried,
  found, pure,
}
use mvirt.Reconcile.Vm.{
  VmState, observed, create_vm_request, get_or_create, toward_running, toward_stopped, drive, start,
  stop,
}

module _ ⦃nodes : Nodes⦄ (h : nodes.Handle) (vm : VmData) (path : String)
    (nic : Option (String × String)) where
  -- A VM is reported when it is asked for, or, if the daemon does not know it, when it is created.
  abbrev pub Reported : nodes.World → Vm → Type 0
  Reported w v =
      ((nodes.get_vm h vm.id w).0 ≡ answered v)
      ⊎ ((text : String) × ((nodes.get_vm h vm.id w).0 ≡ not_found text)
          × ((nodes.create_vm h (create_vm_request vm path nic) (nodes.get_vm h vm.id w).1).0
              ≡ answered v))

  abbrev pub Says : VmState → nodes.World → Type 0
  Says state w = (v : Vm) × Reported w v × (observed v.state ≡ state)

  tried-done :
      {A : Type 0} (name : String) (r : Rpc A) (a : A) → (tried name r ≡ done a) ↔ (r ≡ answered a)
  tried-done name (answered b) a = (λ e. cc, λ e. cc)
  tried-done name (not_found text) a = (λ e. cc, λ e. cc)
  tried-done name (refused text) a = (λ e. cc, λ e. cc)

  abbrev create_if : Option Vm → nodes.World → Tried Vm × nodes.World
  create_if none w =
      let (reply, after) = nodes.create_vm h (create_vm_request vm path nic) w in
      (tried "create_vm" reply, after)
  create_if (some v) w = (done v, w)

  reached :
      (r : Rpc Vm) (w : nodes.World) (v : Vm)
      → ((and_then (found "get_vm" r, w) create_if).0 ≡ done v) ↔ (
          (r ≡ answered v)
          ⊎ ((text : String) × (r ≡ not_found text)
              × ((nodes.create_vm h (create_vm_request vm path nic) w).0 ≡ answered v)))
  reached (answered b) w v = (λ e. inl cc, λ e. elim e [ inl f ↦ cc | inr (t, f, g) ↦ cc ])
  reached (not_found text) w v =
      let made = tried-done "create_vm" (nodes.create_vm h (create_vm_request vm path nic) w).0 v in
      (λ e. inr (text, refl, made.0 e), λ e. elim e [ inl f ↦ cc | inr (t, f, g) ↦ made.1 g ])
  reached (refused text) w v = (λ e. cc, λ e. elim e [ inl f ↦ cc | inr (t, f, g) ↦ cc ])

  got : (w : nodes.World) (v : Vm) → ((get_or_create h vm path nic w).0 ≡ done v) ↔ Reported w v
  unfolding get_or_create
  got w v = reached (nodes.get_vm h vm.id w).0 (nodes.get_vm h vm.id w).1 v

  and_then-done :
      {A B : Type 0} (m : Tried A × nodes.World) (f : A → Calls B) (b : B)
      → ((and_then m f).0 ≡ done b) ↔ ((a : A) × (m.0 ≡ done a) × ((f a m.1).0 ≡ done b))
  and_then-done (done a, w) f b =
      (λ e. (a, refl, e), λ (c, same, e). let at : a ≡ c = cc in ap (λ x. (f x w).0) at ∙ e)
  and_then-done (failed text, w) f b = (λ e. cc, λ (c, same, e). cc)

  -- What follows a call that answers, if it does.
  tried-phase :
      (name : String) (r : Rpc (Unit {0})) (w : nodes.World) (phase to : VmPhase)
      → (and_then (tried name r, w) (λ a. pure (done phase))).0 ≡ done to
      → phase ≡ to
  tried-phase name (answered a) w phase to e = cc
  tried-phase name (not_found text) w phase to e = cc
  tried-phase name (refused text) w phase to e = cc

  start_phase :
      (id : String) (w : nodes.World) {phase to : VmPhase}
      → (start h id phase w).0 ≡ done to
      → phase ≡ to
  start_phase id w {phase} {to} e =
      let (reply, after) = nodes.start_vm h id w in tried-phase "start_vm" reply after phase to e

  stop_phase :
      (id : String) (w : nodes.World) {phase to : VmPhase}
      → (stop h id phase w).0 ≡ done to
      → phase ≡ to
  stop_phase id w {phase} {to} e =
      let (reply, after) = nodes.stop_vm h id 30 w in tried-phase "stop_vm" reply after phase to e

  runs :
      (id : String) (state : VmState) (w : nodes.World)
      → ((toward_running h id state w).0 ≡ done VmPhase.running) ↔ (state ≡ VmState.running)
  unfolding toward_running
  runs id VmState.running w = (λ e. refl, λ e. refl)
  runs id VmState.starting w = (λ e. cc, λ e. cc)
  runs id VmState.stopping w = (λ e. cc, λ e. cc)
  runs id VmState.stopped w = (λ e. let f = start_phase id w e in cc, λ e. cc)
  runs id VmState.unspecified w = (λ e. let f = start_phase id w e in cc, λ e. cc)

  never_stops :
      (id : String) (state : VmState) (w : nodes.World)
      → ¬ ((toward_running h id state w).0 ≡ done VmPhase.stopped)
  unfolding toward_running
  never_stops id VmState.running w e = cc
  never_stops id VmState.starting w e = cc
  never_stops id VmState.stopping w e = cc
  never_stops id VmState.stopped w e = let f = start_phase id w e in cc
  never_stops id VmState.unspecified w e = let f = start_phase id w e in cc

  abbrev pub Halted : VmState → Type 0
  Halted state = (state ≡ VmState.stopped) ⊎ (state ≡ VmState.unspecified)

  halts :
      (id : String) (state : VmState) (w : nodes.World)
      → ((toward_stopped h id state w).0 ≡ done VmPhase.stopped) ↔ Halted state
  unfolding toward_stopped
  halts id VmState.stopped w = (λ e. inl refl, λ e. refl)
  halts id VmState.unspecified w = (λ e. inr refl, λ e. refl)
  halts id VmState.stopping w = (λ e. cc, λ e. elim e [ inl f ↦ cc | inr f ↦ cc ])
  halts id VmState.running w =
      (λ e. let f = stop_phase id w e in cc, λ e. elim e [ inl f ↦ cc | inr f ↦ cc ])
  halts id VmState.starting w =
      (λ e. let f = stop_phase id w e in cc, λ e. elim e [ inl f ↦ cc | inr f ↦ cc ])

  never_runs :
      (id : String) (state : VmState) (w : nodes.World)
      → ¬ ((toward_stopped h id state w).0 ≡ done VmPhase.running)
  unfolding toward_stopped
  never_runs id VmState.stopped w e = cc
  never_runs id VmState.unspecified w e = cc
  never_runs id VmState.stopping w e = cc
  never_runs id VmState.running w e = let f = stop_phase id w e in cc
  never_runs id VmState.starting w e = let f = stop_phase id w e in cc

  drive-done :
      (target : Bool) (w : nodes.World) (phase : VmPhase)
      → ((drive h vm path nic target w).0 ≡ done phase) ↔ (
          (v : Vm) × ((get_or_create h vm path nic w).0 ≡ done v)
          × ((if target
                then toward_running h vm.id (observed v.state) (get_or_create h vm path nic w).1
                else toward_stopped h vm.id (observed v.state) (get_or_create h vm path nic w).1).0
              ≡ done phase))
  unfolding drive
  drive-done true w phase =
      and_then-done (get_or_create h vm path nic w) (λ v. toward_running h vm.id (observed v.state))
        phase
  drive-done false w phase =
      and_then-done (get_or_create h vm path nic w) (λ v. toward_stopped h vm.id (observed v.state))
        phase

  -- Success is written of a VM that the daemon says runs.
  pub drive-running :
      (target : Bool) (w : nodes.World)
      → ((drive h vm path nic target w).0 ≡ done VmPhase.running)
        ↔ ((target ≡ true) × Says VmState.running w)
  drive-running true w = (
    λ e.
        let (v, there, rest) = (drive-done true w VmPhase.running).0 e in
        (
          refl,
          (
            v,
            (got w v).0 there,
            (runs vm.id (observed v.state) (get_or_create h vm path nic w).1).0 rest,
          ),
        ),
    λ (_, (v, there, state)). (drive-done true w VmPhase.running).1 (
      v,
      (got w v).1 there,
      (runs vm.id (observed v.state) (get_or_create h vm path nic w).1).1 state,
    ),
  )
  drive-running false w = (
    λ e.
        let (v, there, rest) = (drive-done false w VmPhase.running).0 e in
        absurd (never_runs vm.id (observed v.state) (get_or_create h vm path nic w).1 rest),
    λ (wrong, said). cc,
  )

  abbrev pub SaysHalted : nodes.World → Type 0
  SaysHalted w = (v : Vm) × Reported w v × Halted (observed v.state)

  pub drive-stopped :
      (target : Bool) (w : nodes.World)
      → ((drive h vm path nic target w).0 ≡ done VmPhase.stopped)
        ↔ ((target ≡ false) × SaysHalted w)
  drive-stopped false w = (
    λ e.
        let (v, there, rest) = (drive-done false w VmPhase.stopped).0 e in
        (
          refl,
          (
            v,
            (got w v).0 there,
            (halts vm.id (observed v.state) (get_or_create h vm path nic w).1).0 rest,
          ),
        ),
    λ (_, (v, there, state)). (drive-done false w VmPhase.stopped).1 (
      v,
      (got w v).1 there,
      (halts vm.id (observed v.state) (get_or_create h vm path nic w).1).1 state,
    ),
  )
  drive-stopped true w = (
    λ e.
        let (v, there, rest) = (drive-done true w VmPhase.stopped).0 e in
        absurd (never_stops vm.id (observed v.state) (get_or_create h vm path nic w).1 rest),
    λ (wrong, said). cc,
  )
