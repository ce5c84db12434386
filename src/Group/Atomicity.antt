-- ===== src/Group/Atomicity.antt =====
-- A membership change that returns an error leaves no trace, and announces nothing.
use nexo.Prelude.{ℕ, ◌≡◌, not, List}
use nexo.Prelude.Bytes.{Bytes, ◌==◌}
use nexo.Identity.{is_valid_id}
use nexo.Errcode.{GoError, Result, err}
use nexo.Store
use nexo.Store.Action.{Action, World, pure, ◌>>=◌}
use nexo.Store.Action.Rules.{
  Atomic, Silent, Atomic-bind, Atomic-then, Atomic-raise, Atomic-if, Atomic-with_tx,
  Atomic-map_error, Silent-ReadOnly, ReadOnly-lift, Succeeds-emit, Succeeds-pure, silent_rules,
  succeeds_rules,
}
use nexo.Group.{
  Event, Config, CreateInput, create_body, create, join_body, join, remove_body, remove, quit, kick,
  not_yet_member, removal_target,
}
use nexo.Group.Reads.{
  group_reads, active_group-ReadOnly, not_yet_member-ReadOnly, removal_target-ReadOnly,
}

module _ {S : Type 0} where
  create_body-Silent :
      (g : Store.Group) (ids : List Bytes) (now : ℕ)
      → Silent {E = Event} {S = S} (create_body g ids now)
  unfolding create_body
  create_body-Silent g ids now = search silent_rules

  not_yet_member-Silent :
      (r : Result Store.GroupMember) → Silent {E = Event} {S = S} (not_yet_member r)
  not_yet_member-Silent r = Silent-ReadOnly (not_yet_member-ReadOnly r)

  join_body-Silent :
      (cfg : Config) (g : Store.Group) (u : Bytes) (now : ℕ)
      → Silent {E = Event} {S = S} (join_body cfg g u now)
  unfolding join_body
  join_body-Silent cfg g u now = search (silent_rules, not_yet_member-Silent) depth 12

  removal_target-Silent :
      (g : Store.Group) (o u : Bytes) → Silent {E = Event} {S = S} (removal_target g o u)
  removal_target-Silent g o u = Silent-ReadOnly (removal_target-ReadOnly g o u)

  remove_body-Silent :
      (g : Store.Group) (o u : Bytes) (now : ℕ) → Silent {E = Event} {S = S} (remove_body g o u now)
  unfolding remove_body
  remove_body-Silent g o u now = search (silent_rules, removal_target-Silent) depth 12

  create-Atomic :
      (cfg : Config) (now : ℕ) (id owner : Bytes) (i : CreateInput)
      → Atomic {E = Event} {S = S} (create cfg now id owner i)
  unfolding create
  create-Atomic cfg now id owner i = Atomic-bind _ _ (ReadOnly-lift _) λ _.
      Atomic-bind _ _ (search group_reads) λ _. Atomic-bind _ _ (search group_reads) λ _.
        Atomic-bind _ _ (search group_reads) λ _. Atomic-bind _ _ (search group_reads) λ _.
          Atomic-then _ _ (Atomic-map_error _ _ (Atomic-with_tx _ (create_body-Silent _ _ now)))
            (λ _. search succeeds_rules)

  join-Atomic :
      (cfg : Config) (now : ℕ) (g u : Bytes) → Atomic {E = Event} {S = S} (join cfg now g u)
  unfolding join
  join-Atomic cfg now g u = Atomic-bind _ _ (active_group-ReadOnly g) λ row.
      Atomic-bind _ _ (search group_reads) λ _.
        Atomic-then _ _ (Atomic-map_error _ _ (Atomic-with_tx _ (join_body-Silent cfg row u now)))
          (λ _. Succeeds-emit _)

  remove-Atomic :
      (now : ℕ) (g : Store.Group) (o u : Bytes) → Atomic {E = Event} {S = S} (remove now g o u)
  unfolding remove
  remove-Atomic now g o u =
      Atomic-then _ _ (Atomic-map_error _ _ (Atomic-with_tx _ (remove_body-Silent g o u now)))
        (λ _. Succeeds-emit _)

  quit-Atomic : (now : ℕ) (g u : Bytes) → Atomic {E = Event} {S = S} (quit now g u)
  unfolding quit
  quit-Atomic now g u =
      Atomic-bind _ _ (active_group-ReadOnly g)
        (λ row. Atomic-if _ (Atomic-raise _) (remove-Atomic now row u u))

  kick-Atomic :
      (cfg : Config) (now : ℕ) (g o u : Bytes) → Atomic {E = Event} {S = S} (kick cfg now g o u)
  unfolding kick
  kick-Atomic cfg now g o u = Atomic-bind _ _ (active_group-ReadOnly g) (λ row.
      Atomic-if (not (is_valid_id cfg.uuid_ok u)) (Atomic-raise _) (
        Atomic-if (u == row.owner_id) (Atomic-raise _)
          (Atomic-if (o == u) (Atomic-raise _) (remove-Atomic now row o u))))

-- The operations that change a group's membership.
pub data Change : Type 0 where
  creates : Bytes → Bytes → CreateInput → Change
  joins : Bytes → Bytes → Change
  quits : Bytes → Bytes → Change
  kicks : Bytes → Bytes → Bytes → Change

module _ {S : Type 0} where
  unfoldable pub change : Config → ℕ → Change → Action Event S (Unit {0})
  change cfg now (creates short_id owner_id i) = create cfg now short_id owner_id i >>= λ _. pure tt
  change cfg now (joins group_id user_id) = join cfg now group_id user_id
  change cfg now (quits group_id user_id) = quit now group_id user_id
  change cfg now (kicks group_id operator_id target_id) =
      kick cfg now group_id operator_id target_id

  change-Atomic :
      (cfg : Config) (now : ℕ) (c : Change) → Atomic {E = Event} {S = S} (change cfg now c)
  unfolding change
  change-Atomic cfg now (creates id owner i) =
      Atomic-then _ _ (create-Atomic cfg now id owner i) (λ _. Succeeds-pure tt)
  change-Atomic cfg now (joins g u) = join-Atomic cfg now g u
  change-Atomic cfg now (quits g u) = quit-Atomic now g u
  change-Atomic cfg now (kicks g o t) = kick-Atomic cfg now g o t

  -- A creation, join, quit or kick that returns an error, whatever statement of the store failed,
  -- leaves every table as it was and announces no change of a group.
  pub change_error_leaves_no_trace :
      (cfg : Config) (now : ℕ) (c : Change) (w : World Event S) (e : GoError)
      → (change cfg now c w).0 ≡ err e
      → ((change cfg now c w).1.db ≡ w.db) × ((change cfg now c w).1.events ≡ w.events)
  change_error_leaves_no_trace cfg now c w e h =
      let same = (change-Atomic cfg now c).at w e h in (same.db, same.events)
