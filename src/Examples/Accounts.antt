-- ===== src/Examples/Accounts.antt =====
-- An account that is made and used.
use nexo.Prelude.{List, [], ◌∷◌, Option, some, none}
use nexo.Prelude.Bytes.{Bytes, text, ◌==◌}
use nexo.Cache.{Cache}
use nexo.Cache.Port.{local}
use nexo.Store
use nexo.Store.Action.{World}
use nexo.User.Accounts.{Bcrypt, Native, new_user}
use nexo.Examples.Data.{tables}

-- A hash that is the password after one more byte.
abbrev salted : Bcrypt
salted = record {
  generate_from_password = λ p. some (0 ∷ p);
  compare_hash_and_password = λ h p. h == (0 ∷ p);
}

-- A token that is the claims' subject.
abbrev node : Native Cache
node = record { tokens = local 900; sign = λ c. some c.subject; ttl = 3600 }

abbrev fresh : World Bytes Cache
fresh = record { db = tables; faults = []; events = []; service = [] }

abbrev uuid : Bytes
uuid = b'7' ∷ b'f' ∷ []

abbrev carol : Bytes
carol = b'c' ∷ b'a' ∷ b'r' ∷ b'o' ∷ b'l' ∷ []

abbrev secret : Bytes
secret = b's' ∷ b'e' ∷ b'c' ∷ b'r' ∷ b'e' ∷ b't' ∷ []

abbrev registered : Store.User
registered = new_user uuid carol (0 ∷ secret) carol 800
