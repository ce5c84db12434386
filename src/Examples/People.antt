-- ===== src/Examples/People.antt =====
-- Profiles at concrete inputs.
use nexo.Prelude.{◌≡◌, refl, [], ◌∷◌}
use nexo.Prelude.Bytes.{Bytes}
use nexo.Errcode.{ok}
use nexo.User.{Profile, upsert}
use nexo.User.Profiles.{Upserted, upsert_outcome}
use nexo.Examples.Data.{bob, group_world}

abbrev renamed : Profile
renamed = record {
  id = bob;
  nickname = b'B' ∷ [];
  avatar = [];
  extra = [];
  created_at = 1;
  updated_at = 9;
}

upserted : (upsert 9 bob (b'B' ∷ []) [] [] group_world).0 ≡ ok renamed
unfolding upsert nexo.Store.Action.◌>>=◌ nexo.Identity.parse_actor nexo.Prelude.Bytes.◌==◌
    nexo.Identity.prefix_user nexo.Identity.Decimal.parse_int nexo.Identity.Decimal.parse_unsigned
    nexo.Identity.Decimal.parse_nat nexo.Identity.Decimal.format_int
    nexo.Identity.Decimal.format_nat nexo.Store.Action.call nexo.Store.Users.upsert_user
    nexo.Store.Users.get_user nexo.Prelude.Map.lookup nexo.Prelude.Map.insert nexo.User.upsert_row
    nexo.User.to_profile
upserted = refl

upsert_outcome_example :
    Upserted group_world.db bob
      (b'B' ∷ [])
      []
      []
      renamed
      (upsert 9 bob (b'B' ∷ []) [] [] group_world).1.db
upsert_outcome_example = upsert_outcome 9 bob (b'B' ∷ []) [] [] group_world renamed upserted
