-- ===== src/Tests/Snapshot.antt =====
-- A snapshot of the small control plane.
use mvirt.Prelude.{String, ◌≡◌, refl, none, some}
use mvirt.Snapshot.{SnapshotEnvelope, Bincode, snapshot, restore}
use mvirt.Snapshot.Roundtrip.{IsRestored, restore-snapshot}
use mvirt.Response.{Response}
use mvirt.State.{ApiState}
use mvirt.Tests.Sample.{test_redb, test_lru, populated}

-- An encoding that keeps the envelope itself.
instance abbrev test_bincode : Bincode
test_bincode = record {
  Bytes = SnapshotEnvelope;
  serialize = λ e. e;
  deserialize = some;
  deserialize-serialize = λ e. (
    e,
    refl,
    record {
      nodes = record { same = λ k. refl; distinct = λ d. d };
      networks = record { same = λ k. refl; distinct = λ d. d };
      nics = record { same = λ k. refl; distinct = λ d. d };
      vms = record { same = λ k. refl; distinct = λ d. d };
      orgs = record { same = λ k. refl; distinct = λ d. d };
      projects = record { same = λ k. refl; distinct = λ d. d };
      volumes = record { same = λ k. refl; distinct = λ d. d };
      templates = record { same = λ k. refl; distinct = λ d. d };
      security_groups = record { same = λ k. refl; distinct = λ d. d };
    },
  );
}

restore-snapshot_example :
    (r : ApiState) × (restore (snapshot populated) ≡ some r)
    × IsRestored populated.db r.db
    × ((id : String) → test_lru.peek Response r.applied_requests id ≡ none)
restore-snapshot_example = restore-snapshot populated
