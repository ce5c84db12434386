-- ===== src/Group/Reads.antt =====
-- The parts of the group service that only read.
use nexo.Prelude.{◌≡◌, refl, sym, ap, ◌∙◌, Option, none, some, arith, List}
use nexo.Prelude.Bytes.{Bytes}
use nexo.Errcode.{Result, ok, err}
use nexo.Store
use nexo.Store.{GroupStatus, group_normal, group_dismissed, GroupMember}
use nexo.Store.Users.{get_user, get_users}
use nexo.Store.Groups.{get_group, get_group_member, count_group_members}
use nexo.Store.Action.{call}
use nexo.Store.Action.Rules.{Ensures, ReadOnly, ReadOnly-call, ReadOnly-bind, read_only_rules}
use nexo.Store.Db.{Db, or_not_found}
use nexo.Prelude.Map.{lookup, bytes_eq}
use nexo.Store.Action.Hoare.{
  Ensures-raise, Ensures-pure, Ensures-call, Ensures-bind, Ensures-mono, Ensures-map_error,
  Ensures-fact,
}
use nexo.Group.{
  Event, load_group, if_active, active_group, load_member, not_yet_member, removal_target,
}

module _ {S : Type 0} where
  pub get_user-ReadOnly : (id : Bytes) → ReadOnly {E = Event} {S = S} (call (get_user id))
  get_user-ReadOnly id = ReadOnly-call (get_user id) (λ db. unfold get_user in refl)

  pub get_users-ReadOnly : (ids : List Bytes) → ReadOnly {E = Event} {S = S} (call (get_users ids))
  get_users-ReadOnly ids = ReadOnly-call (get_users ids) (λ db. unfold get_users in refl)

  pub get_group-ReadOnly : (id : Bytes) → ReadOnly {E = Event} {S = S} (call (get_group id))
  get_group-ReadOnly id = ReadOnly-call (get_group id) (λ db. unfold get_group in refl)

  pub get_group_member-ReadOnly :
      (g u : Bytes) → ReadOnly {E = Event} {S = S} (call (get_group_member g u))
  get_group_member-ReadOnly g u =
      ReadOnly-call (get_group_member g u) (λ db. unfold get_group_member in refl)

  pub count_group_members-ReadOnly :
      (g : Bytes) → ReadOnly {E = Event} {S = S} (call (count_group_members g))
  count_group_members-ReadOnly g =
      ReadOnly-call (count_group_members g) (λ db. unfold count_group_members in refl)

  pub ruleset group_reads = (
    read_only_rules, get_user-ReadOnly, get_users-ReadOnly, get_group-ReadOnly,
    get_group_member-ReadOnly, count_group_members-ReadOnly,
  )

  if_active-ReadOnly :
      (g : Store.Group) (s : GroupStatus) → ReadOnly {E = Event} {S = S} (if_active g s)
  unfolding if_active
  if_active-ReadOnly g group_dismissed = search group_reads
  if_active-ReadOnly g group_normal = search group_reads

  pub active_group-ReadOnly : (id : Bytes) → ReadOnly {E = Event} {S = S} (active_group id)
  unfolding active_group load_group
  active_group-ReadOnly id =
      ReadOnly-bind _ _ (search group_reads) (λ g. if_active-ReadOnly g g.status)

  load_member-ReadOnly : (g u : Bytes) → ReadOnly {E = Event} {S = S} (load_member g u)
  unfolding load_member
  load_member-ReadOnly g u = search group_reads

  pub not_yet_member-ReadOnly :
      (r : Result GroupMember) → ReadOnly {E = Event} {S = S} (not_yet_member r)
  unfolding not_yet_member
  not_yet_member-ReadOnly (ok _) = search group_reads
  not_yet_member-ReadOnly (err e) = search group_reads

  pub removal_target-ReadOnly :
      (g : Store.Group) (o u : Bytes) → ReadOnly {E = Event} {S = S} (removal_target g o u)
  unfolding removal_target
  removal_target-ReadOnly g o u = search (group_reads, load_member-ReadOnly) depth 12

pub found_row : {A : Type 0} (a : A) (o : Option A) → or_not_found o ≡ ok a → o ≡ some a
found_row a none h = cc
found_row a (some x) h = ground arith

module _ {S : Type 0} (before : Db) where
  get_group-found :
      (id : Bytes)
      → Ensures {E = Event} {S = S}
          (λ d. d ≡ before)
          (call (get_group id))
          (λ g d. (d ≡ before) × (lookup id before.groups ≡ some g))
  unfolding get_group
  get_group-found id = Ensures-call _ _ _ (λ db g h x.
      (h, ap (λ (b : Db). lookup id b.groups) (sym h) ∙ found_row g (lookup id db.groups) x))

  if_active-Ensures :
      (g : Store.Group) (s : GroupStatus)
      → g.status ≡ s
      → Ensures {E = Event} {S = S}
          (λ d. d ≡ before)
          (if_active g s)
          (λ x d. (d ≡ before) × ((x ≡ g) × (g.status ≡ group_normal)))
  unfolding if_active
  if_active-Ensures g group_dismissed e = Ensures-raise _ _ _
  if_active-Ensures g group_normal e = Ensures-pure _ _ g (λ db h. (h, (refl, e)))

  -- An active group is a stored one that is not dismissed.
  pub active_group-found :
      (id : Bytes)
      → Ensures {E = Event} {S = S}
          (λ d. d ≡ before)
          (active_group id)
          (λ g d. (d ≡ before) × ((lookup id before.groups ≡ some g) × (g.status ≡ group_normal)))
  unfolding active_group load_group
  active_group-found id =
      Ensures-bind _ _ _ _ _ (Ensures-map_error _ _ _ _ (get_group-found id)) (λ g.
        Ensures-fact (λ f.
          Ensures-mono _ (λ db h. h)
            (λ x db h.
              (h.0, (f ∙ ap some (sym h.1.0), ap (λ (y : Store.Group). y.status) h.1.0 ∙ h.1.1)))
            (if_active-Ensures g g.status refl)))
