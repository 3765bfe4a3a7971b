-- ===== src/Tests/Replay.antt =====
-- The cache and the errors on the small control plane.
use mvirt.Prelude.{◌≡◌, refl, true, none, []}
use mvirt.Redb.{lookup}
use mvirt.Redb.Memory.{memory}
use mvirt.Redb.Txn.{txn_has}
use mvirt.Lru.Bounded.{bounded}
use mvirt.Response.{Response}
use mvirt.Command.{request_id}
use mvirt.State.{with_db, init_tables}
use mvirt.Apply.{apply, execute}
use mvirt.Apply.Org.{apply_create_project}
use mvirt.Apply.Errors.{is_error, apply_error}
use mvirt.Apply.Replay.{apply_twice}
use mvirt.Tests.Sample.{test_redb, test_lru, replica, populated, create_vm, create_project}

apply_twice_example : apply replica (apply replica populated create_vm).state create_vm ≡ record {
  state = (apply replica populated create_vm).state;
  response = (apply replica populated create_vm).response;
  events = [];
}
apply_twice_example = apply_twice replica populated create_vm

not_cached : test_lru.peek Response with_db.applied_requests (request_id create_project) ≡ none
unfolding with_db bounded lookup
not_cached = refl

org_missing : is_error (apply replica with_db create_project).response ≡ true
unfolding with_db bounded lookup memory apply execute init_tables apply_create_project txn_has
org_missing = refl

apply_error_example :
    ((apply replica with_db create_project).state ≡ with_db)
    × ((apply replica with_db create_project).events ≡ [])
apply_error_example = apply_error replica with_db create_project not_cached org_missing
