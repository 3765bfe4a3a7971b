-- ===== src/Invariant/Templates.antt =====
-- The clone counters of the templates.
use mvirt.Prelude.{
  ◌==◌, not, ◌∙◌, ℕ, suc, ◌<◌, ◌^◌, String, ◌≡◌, refl, Option, none, some, arith, List,
  Option-cases, inl, inr,
}
use mvirt.Redb.{Redb}
use mvirt.Redb.Txn.{Table, txn_get, txn_put, txn_delete}
use mvirt.Redb.Keyed.{IsKeyed, put-IsKeyed}
use mvirt.Redb.Counted.{IsCounted}
use mvirt.Redb.Counted.Steps.{
  IsCounted-more, IsCounted-new_target, IsCounted-put_target, IsCounted-put_source,
  IsCounted-new_free, IsCounted-new_source, IsCounted-delete_source, IsCounted-delete_free,
}
use mvirt.Resource.Storage.{VolumeData, TemplateData}
use mvirt.Response.{Response, Event}
use mvirt.Replica.{Replica}
use mvirt.State.{Tables}
use mvirt.Command.Volume.{CreateVolume}
use mvirt.Command.{Command}
use mvirt.Apply.{execute}
use mvirt.Apply.Outcome.{done}
use mvirt.Apply.Ensures.{
  Ensures-done, Ensures-some_or, Ensures-return_if, guard_rules, Ensures, ensures_rules,
  Ensures-bind,
}
use mvirt.Apply.Volume.{template_not_found, find_template, clones_up, clones_down, new_volume}
use mvirt.Apply.Onboarding.{apply_redeem_onboarding_token}
use mvirt.Apply.Account.{
  apply_create_account_by_email, apply_ensure_account_from_oidc,
  apply_bootstrap_initial_platform_admin,
}

abbrev pub template_of : VolumeData → Option String
template_of v = v.spec.template_id

abbrev pub clones_of : TemplateData → ℕ
clones_of t = t.status.clone_count

module _ ⦃redb : Redb⦄ where
  -- Every volume's template exists, and each template counts the volumes that were cloned from it.
  pub record CountsClones (budget : ℕ) (templates : Table TemplateData) (volumes : Table VolumeData)
      : Type 0 where
    pub keyed : IsKeyed (λ t. t.id) templates
    pub counted : IsCounted template_of clones_of budget templates volumes

module _ ⦃redb : Redb⦄ (b : ℕ) (ts : Table TemplateData) (vs : Table VolumeData)
    (h : CountsClones b ts vs) where
  pub CountsClones-more : CountsClones (suc b) ts vs
  CountsClones-more = record { keyed = h.keyed; counted = IsCounted-more _ _ h.counted }

  -- The loop-free part of a deletion: the volume goes, its template counts one less.
  clones_down-CountsClones :
      (k : String) (vol : VolumeData) (o : Option String)
      → txn_get vs k ≡ some vol
      → template_of vol ≡ o
      → CountsClones b (clones_down ts o) (txn_delete vs k)
  unfolding clones_down
  clones_down-CountsClones k vol none there to = record {
    keyed = h.keyed;
    counted = IsCounted-delete_free _ _ h.counted k vol there to;
  }
  clones_down-CountsClones k vol (some tid) there to = elim (Option-cases (txn_get ts tid)) [
    | inl gone ↦ absurd (ground (arith, h.counted.linked k vol tid there to))
    | inr (tpl, found) ↦
        rw (found, clones_down)
          (record {
            keyed = put-IsKeyed _ ts tid _ (h.keyed.at tid tpl found) h.keyed;
            counted = IsCounted-delete_source _ _ h.counted k vol tid _ tpl there to found refl;
          })
  ]

  -- A new volume, with the template that it is cloned from, if any.
  clones_up-CountsClones :
      (k node_id : String) (vol : VolumeData) (o : Option String)
      → suc b < 2 ^ 32
      → txn_get vs k ≡ none
      → template_of vol ≡ o
      → Ensures
          (λ found. CountsClones (suc b) (clones_up ts found) (txn_put vs k vol))
          (find_template ts o node_id)
  unfolding clones_up find_template
  clones_up-CountsClones k node_id vol none fits gone to = record {
    at = λ found e. ground (arith, new_free);
  }
    where
      new_free : CountsClones (suc b) ts (txn_put vs k vol)
      new_free = record {
        keyed = h.keyed;
        counted = IsCounted-new_free _ _ h.counted k vol gone to;
      }
  clones_up-CountsClones k node_id vol (some tid) fits gone to =
      Ensures-some_or (template_not_found tid) (txn_get ts tid) _ λ tpl found.
        Ensures-return_if _ (not (tpl.spec.node_id == node_id)) (done (some tpl)) λ _.
          Ensures-done (some tpl) (record {
            keyed = put-IsKeyed _ ts tpl.id _ refl h.keyed;
            counted =
                rw (h.keyed.at tid tpl found)
                  (IsCounted-new_source _ _ h.counted k vol tid _ tpl gone to found refl fits);
          })

  -- A change of a volume that keeps its template.
  put_volume-CountsClones :
      (k : String) (vol old : VolumeData)
      → txn_get vs k ≡ some old
      → template_of vol ≡ template_of old
      → CountsClones (suc b) ts (txn_put vs k vol)
  put_volume-CountsClones k vol old found same = record {
    keyed = h.keyed;
    counted = IsCounted-more _ _ (IsCounted-put_source _ _ h.counted k vol old found same);
  }

  put_template-CountsClones :
      (k : String) (tpl old : TemplateData)
      → txn_get ts k ≡ some old
      → tpl.id ≡ old.id
      → clones_of tpl ≡ clones_of old
      → CountsClones (suc b) (txn_put ts k tpl) vs
  put_template-CountsClones k tpl old found same_id same = record {
    keyed = put-IsKeyed _ ts k tpl (same_id ∙ h.keyed.at k old found) h.keyed;
    counted = IsCounted-more _ _ (IsCounted-put_target _ _ h.counted k tpl old found same);
  }

  new_template-CountsClones :
      (k : String) (tpl : TemplateData)
      → txn_get ts k ≡ none
      → tpl.id ≡ k
      → clones_of tpl ≡ 0
      → CountsClones (suc b) (txn_put ts k tpl) vs
  new_template-CountsClones k tpl gone same_id start = record {
    keyed = put-IsKeyed _ ts k tpl same_id h.keyed;
    counted = IsCounted-more _ _ (IsCounted-new_target _ _ h.counted k tpl gone start);
  }

module _ ⦃redb : Redb⦄ (replica : Replica) (b : ℕ) (db : Tables) where
  -- The property of a handler's outcome that one more command keeps.
  abbrev Keeps : Tables × Response × List Event → Type 0
  Keeps a = CountsClones (suc b) a.0.templates a.0.volumes

  new_volume-CountsClones :
      (c : CreateVolume) (tpl : Option TemplateData)
      → suc b < 2 ^ 32
      → CountsClones b db.templates db.volumes
      → txn_get db.volumes c.id ≡ none
      → find_template db.templates c.template_id c.node_id ≡ done tpl
      → CountsClones (suc b) (clones_up db.templates tpl) (txn_put db.volumes c.id (new_volume c))
  new_volume-CountsClones c tpl fits h gone found =
      (clones_up-CountsClones b db.templates db.volumes h c.id c.node_id (new_volume c)
          c.template_id fits gone refl).at
        tpl found

  delete_volume-CountsClones :
      (k : String) (vol : VolumeData)
      → CountsClones b db.templates db.volumes
      → txn_get db.volumes k ≡ some vol
      → CountsClones
          (suc b)
          (clones_down db.templates vol.spec.template_id)
          (txn_delete db.volumes k)
  delete_volume-CountsClones k vol h found =
      CountsClones-more b _ _
        (clones_down-CountsClones b db.templates db.volumes h k vol vol.spec.template_id found refl)

  -- If a command commits, templates stand under their ids, every volume's template exists, and each
  -- template counts its clones, as they did before, as long as there are fewer than 2^32 volumes.
  pub execute-CountsClones :
      (cmd : Command)
      → suc b < 2 ^ 32
      → CountsClones b db.templates db.volumes
      → Ensures Keeps (execute replica db cmd)
  unfolding execute apply_redeem_onboarding_token apply_create_account_by_email
      apply_ensure_account_from_oidc apply_bootstrap_initial_platform_admin
  execute-CountsClones (Command.create_volume c) fits h =
      search (guard_rules, Ensures-bind, new_volume-CountsClones) depth 8
  execute-CountsClones (Command.delete_volume c) fits h =
      search (guard_rules, delete_volume-CountsClones) depth 8
  execute-CountsClones (Command.update_volume_status c) fits h =
      search (guard_rules, put_volume-CountsClones b db.templates db.volumes h)
  execute-CountsClones (Command.resize_volume c) fits h =
      search (guard_rules, put_volume-CountsClones b db.templates db.volumes h)
  execute-CountsClones (Command.create_snapshot c) fits h =
      search (guard_rules, put_volume-CountsClones b db.templates db.volumes h)
  execute-CountsClones (Command.create_template c) fits h =
      search (guard_rules, new_template-CountsClones b db.templates db.volumes h)
  execute-CountsClones (Command.update_template_status c) fits h =
      search (guard_rules, put_template-CountsClones b db.templates db.volumes h)
  execute-CountsClones _ fits h =
      search (ensures_rules, CountsClones-more b db.templates db.volumes h) depth 12
