-- ===== src/User/Accounts/Admitted.antt =====
-- internal/service/user/user.go: an account that was registered can log in.
use nexo.Prelude.{ℕ, ◌≤◌, ◌≡◌, false, Option, map, find, arith, ◌||◌}
use nexo.Prelude.Bytes.{Bytes, ◌==◌}
use nexo.Prelude.Int.{pos, ltb_ℤ}
use nexo.Prelude.Map.{Map, insert, bytes_eq}
use nexo.Errcode.{Result, err}
use nexo.Cache.{Cache}
use nexo.Auth.{max_platform_id}
use nexo.Store
use nexo.Store.Action.{World}
use nexo.User.Accounts.{Native}

-- The user that has the name.
abbrev pub named : Bytes → Map Bytes Store.User → Option Store.User
named username users = find (λ u. u.username == username) (map (λ p. p.1) users)

in_range :
    (p : ℕ)
    → 1 ≤ p
    → p ≤ max_platform_id
    → (ltb_ℤ (pos p) (pos 1) || ltb_ℤ (pos max_platform_id) (pos p)) ≡ false
in_range p lo hi = ground arith

abbrev stored : {E : Type 0} → Store.User → World E Cache → World E Cache
stored u w = record w { db = record w.db { users = insert u.id u w.db.users } }
