-- ===== src/Examples/Names.antt =====
-- Ids, ranges and rate limits at concrete inputs.
use nexo.Prelude.{
  List, ℕ, ◌≤◌, ◌<◌, ◌≡◌, ◌≢◌, ◌↔◌, ◌⊎◌, refl, arith, [], ◌∷◌, some, true, false, Bool, length, max,
  suc,
}
use nexo.Prelude.Bytes.{Bytes}
use nexo.Prelude.Int.{pos, pos_part}
use nexo.Prelude.Map.{lookup, bytes_eq}
use nexo.Identity.{Role, role_user, role_agent, Actor, actor_user_id, parse_actor, is_valid_id}
use nexo.Identity.Spelling.{parse_actor-actor_user_id, actor_user_id-parse_actor}
use nexo.Conv.{single_id, group_conv_id, visible_range, page_limit}
use nexo.Conv.Ids.{single_id_comm, single_id_injective, group_conv_id-ne-single_id}
use nexo.Conv.Range.{visible_range-covers, page_limit_bounds}
use nexo.Store.{UserConversation}
use nexo.Store.Conversations.{covers}
use nexo.Ratelimit.{Keyed, allow, is_idle}
use nexo.Ratelimit.Keys.{allow-capacity, answers, alone, answers-alone}
use nexo.Examples.Data.{alice, bob, team, member_view, lib, limiter}

abbrev any_uuid : Bytes → Bool
any_uuid id = true

valid_alice : is_valid_id any_uuid alice ≡ true
unfolding is_valid_id nexo.Identity.has_colon nexo.Prelude.any nexo.Prelude.Bytes.◌==◌
    nexo.Identity.prefix_user parse_actor nexo.Identity.Decimal.parse_int
    nexo.Identity.Decimal.parse_unsigned nexo.Identity.Decimal.parse_nat
    nexo.Identity.Decimal.format_int nexo.Identity.Decimal.format_nat
valid_alice = refl

valid_bob : is_valid_id any_uuid bob ≡ true
unfolding is_valid_id nexo.Identity.has_colon nexo.Prelude.any nexo.Prelude.Bytes.◌==◌
    nexo.Identity.prefix_user parse_actor nexo.Identity.Decimal.parse_int
    nexo.Identity.Decimal.parse_unsigned nexo.Identity.Decimal.parse_nat
    nexo.Identity.Decimal.format_int nexo.Identity.Decimal.format_nat
valid_bob = refl

single_id_injective_example : ((alice ≡ bob) × (bob ≡ alice)) ⊎ ((alice ≡ alice) × (bob ≡ bob))
single_id_injective_example =
    single_id_injective any_uuid alice bob bob alice valid_alice valid_bob valid_bob valid_alice
      (single_id_comm alice bob)

group_conv_id-ne-single_id_example : group_conv_id team ≢ single_id alice bob
group_conv_id-ne-single_id_example = group_conv_id-ne-single_id team alice bob

parse_actor-actor_user_id_example :
    parse_actor (actor_user_id (record { id = pos 42; role = role_agent }))
    ≡ some (record { id = pos 42; role = role_agent })
parse_actor-actor_user_id_example =
    parse_actor-actor_user_id 42 role_agent (omega arith) (omega arith)

parsed_alice : parse_actor alice ≡ some (record { id = pos 1; role = role_user })
unfolding parse_actor nexo.Prelude.Bytes.◌==◌ nexo.Identity.prefix_user
    nexo.Identity.Decimal.parse_int nexo.Identity.Decimal.parse_unsigned
    nexo.Identity.Decimal.parse_nat nexo.Identity.Decimal.format_int
    nexo.Identity.Decimal.format_nat
parsed_alice = refl

actor_user_id-parse_actor_example : actor_user_id (record { id = pos 1; role = role_user }) ≡ alice
actor_user_id-parse_actor_example =
    actor_user_id-parse_actor alice (record { id = pos 1; role = role_user }) parsed_alice

-- A member who was removed after seq 4 of 9.
abbrev removed_view : UserConversation
removed_view = record (member_view bob) { max_seq = 4 }

visible_range-covers_example :
    ((visible_range removed_view 9 2 7).0 ≤ 3 × (3 ≤ (visible_range removed_view 9 2 7).1))
    ↔ ((2 ≤ 3) × (3 ≤ 7) × (3 ≤ 9) × (covers removed_view 3 ≡ true))
visible_range-covers_example = visible_range-covers removed_view 9 2 7 3

page_limit_bounds_example :
    (1 ≤ page_limit (pos 20) (pos 100))
    × (page_limit (pos 20) (pos 100) ≤ max (pos_part (pos 100)) 1)
    × (1 ≤ pos_part (pos 20)
        → pos_part (pos 20) ≤ max (pos_part (pos 100)) 1
        → page_limit (pos 20) (pos 100) ≡ pos_part (pos 20))
page_limit_bounds_example = page_limit_bounds (pos 20) (pos 100)

allow-capacity_example :
    (length (allow lib alice 3 limiter).1.entries ≤ limiter.capacity)
    × ((allow lib alice 3 limiter).1.capacity ≡ limiter.capacity)
allow-capacity_example = allow-capacity lib alice 3 limiter (omega arith)

-- Alice is tracked; of the others one is, and the next share the overflow limiter.
abbrev tracked : Keyed ℕ
tracked = record limiter { entries = (alice, record { lim = 2; seen = 0 }) ∷ [] }

abbrev asked : List (Bytes × ℕ)
asked = (bob, 1) ∷ (alice, 2) ∷ (team, 3) ∷ (alice, 200000) ∷ (team, 400000) ∷ (alice, 400001) ∷ []

answers-alone_example : answers lib alice asked tracked ≡ alone lib alice asked 2
answers-alone_example =
    answers-alone lib alice asked tracked (record { lim = 2; seen = 0 }) refl
      (unfold lookup nexo.Prelude.Bytes.◌==◌ in refl)
      (unfold is_idle nexo.Prelude.Bytes.◌==◌ in (refl, (refl, (refl, (refl, (refl, (refl, tt)))))))
