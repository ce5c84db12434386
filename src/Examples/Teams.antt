-- ===== src/Examples/Teams.antt =====
-- Membership changes at concrete inputs.
use nexo.Prelude.{ℕ, ◌≡◌, refl, arith, [], ◌∷◌, true, false}
use nexo.Prelude.Bytes.{Bytes}
use nexo.Errcode.{Result, ok, err, plain, err_group_full, err_cannot_kick_owner}
use nexo.Store.Action.{World}
use nexo.Group.{Config, join, quit, kick}
use nexo.Group.Atomicity.{joins, change, change_error_leaves_no_trace}
use nexo.Group.Joining.{JoinedActive, join_outcome}
use nexo.Group.Leaving.Removal.{Removed, Kicked, quit_outcome, kick_outcome}
use nexo.Examples.Data.{alice, bob, carol, team, group_config, group_world}

joined : (join group_config 5 team carol group_world).0 ≡ ok tt
unfolding join nexo.Store.Action.◌>>=◌ nexo.Store.Action.call nexo.Store.Groups.get_group
    nexo.Prelude.Map.lookup nexo.Prelude.Bytes.◌==◌ nexo.Store.Users.get_user
    nexo.Store.Action.with_tx nexo.Store.Conversations.lock_conversation nexo.Conv.group_conv_id
    nexo.Conv.sg_ nexo.Store.Groups.get_group_member nexo.Errcode.is_not_found
    nexo.Store.Groups.count_group_members nexo.Store.Groups.member_count nexo.Prelude.keep
    nexo.Store.Groups.add_group_member nexo.Store.Conversations.upsert_user_conversation
joined = refl

join_outcome_example :
    JoinedActive group_config group_world.db team carol
      (join group_config 5 team carol group_world).1.db
join_outcome_example = join_outcome group_config 5 team carol group_world joined

left : (quit 5 team bob group_world).0 ≡ ok tt
unfolding quit nexo.Store.Action.◌>>=◌ nexo.Store.Action.call nexo.Store.Groups.get_group
    nexo.Prelude.Map.lookup nexo.Prelude.Bytes.◌==◌ nexo.Store.Action.with_tx
    nexo.Store.Conversations.lock_conversation nexo.Conv.group_conv_id nexo.Conv.sg_
    nexo.Store.Groups.remove_group_member nexo.Store.Conversations.set_user_conversation_max_seq
left = refl

quit_outcome_example : Removed group_world.db team bob bob (quit 5 team bob group_world).1.db
quit_outcome_example = quit_outcome 5 team bob group_world left

kicked : (kick group_config 5 team alice bob group_world).0 ≡ ok tt
unfolding kick nexo.Store.Action.◌>>=◌ nexo.Store.Action.call nexo.Store.Groups.get_group
    nexo.Prelude.Map.lookup nexo.Prelude.Bytes.◌==◌ nexo.Identity.is_valid_id
    nexo.Identity.has_colon nexo.Prelude.any nexo.Identity.prefix_user nexo.Identity.parse_actor
    nexo.Identity.Decimal.parse_int nexo.Identity.Decimal.parse_unsigned
    nexo.Identity.Decimal.parse_nat nexo.Identity.Decimal.format_int
    nexo.Identity.Decimal.format_nat nexo.Store.Action.with_tx
    nexo.Store.Conversations.lock_conversation nexo.Conv.group_conv_id nexo.Conv.sg_
    nexo.Store.Groups.get_group_member nexo.Store.Groups.remove_group_member
    nexo.Store.Conversations.set_user_conversation_max_seq
kicked = refl

kick_outcome_example :
    Kicked group_world.db team alice bob (kick group_config 5 team alice bob group_world).1.db
kick_outcome_example = kick_outcome 5 team group_config alice bob group_world kicked

-- A group of two with a limit of two.
abbrev small_config : Config
small_config = record { uuid_ok = λ id. true; max_members = 2 }

full : (change small_config 5 (joins team carol) group_world).0 ≡ err (plain err_group_full)
unfolding change join nexo.Store.Action.◌>>=◌ nexo.Store.Action.call nexo.Store.Groups.get_group
    nexo.Prelude.Map.lookup nexo.Prelude.Bytes.◌==◌ nexo.Store.Users.get_user
    nexo.Store.Action.with_tx nexo.Store.Conversations.lock_conversation nexo.Conv.group_conv_id
    nexo.Conv.sg_ nexo.Store.Groups.get_group_member nexo.Errcode.is_not_found
    nexo.Store.Groups.count_group_members nexo.Store.Groups.member_count nexo.Prelude.keep
    nexo.Errcode.or_else
full = refl

change_error_leaves_no_trace_example :
    ((change small_config 5 (joins team carol) group_world).1.db ≡ group_world.db)
    × ((change small_config 5 (joins team carol) group_world).1.events ≡ group_world.events)
change_error_leaves_no_trace_example =
    change_error_leaves_no_trace small_config 5 (joins team carol) group_world
      (plain err_group_full) full
