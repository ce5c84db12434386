-- ===== src/Gateway/Push/Delivered.antt =====
-- internal/gateway/push.go: who gets the frame of a message.
use nexo.Prelude.{
  Option, Option-cases, some, none, ◌&&◌, ◌++◌, ◌+◌, if◌then◌else◌, ℕ, ◌≡◌, refl, ap, ◌∙◌, Bool,
  false, not, List, [], ◌∷◌, arith, keep, Bool-cases, inl, inr,
}
use nexo.Prelude.Bytes.{Bytes, ◌==◌}
use nexo.Prelude.Map.{Map, lookup, bytes_eq}
use nexo.Errcode.{ok}
use nexo.Store.Db.{Db}
use nexo.Store.Conversations.{visible_owners, visible_to as sees}
use nexo.Store.Action.{World, ◌>>=◌}
use nexo.Store.Action.Rules.{Ensures}
use nexo.Store.Action.Hoare.{Ensures-pure, Ensures-call, Ensures-bind, Ensures-map_error}
use nexo.Message.{PushEvent, Event, State}
use nexo.Message.Pull.{recipients, visible_to}
use nexo.Message.Offline.Targets.{recipients-db}
use nexo.Gateway.Usermap.{Client, UserMap, get, online_except, reachable_except}
use nexo.Gateway.Push.{fanout, fanout_all, deliver_local, deliver}

unreachable :
    (except : Bytes) (cs : List Client)
    → reachable_except except cs ≡ false
    → keep (λ c. not (c.id == except)) cs ≡ []
unfolding reachable_except keep
unreachable except [] h = refl
unreachable except (c ∷ []) h = ground arith
unreachable except (c ∷ d ∷ cs) h = ground arith

-- To leave out the users without another connection here changes nothing.
fanout_all-online :
    (users : UserMap) (except : Bytes) (p : Bytes → Bool) (ids : List Bytes)
    → fanout_all users except (keep p (keep (λ id. reachable_except except (get id users)) ids))
      ≡ fanout_all users except (keep p ids)
unfolding fanout_all fanout keep
fanout_all-online users except p [] = refl
fanout_all-online users except p (id ∷ ids) =
    elim (Bool-cases (reachable_except except (get id users))) [
      | inl h ↦ ground (arith, h, fanout_all-online users except p ids)
      | inr h ↦
          ground
            (arith, h, unreachable except (get id users) h, fanout_all-online users except p ids)
    ]

-- How many connections of a list are of the kind.
unfoldable pub count : (Client → Bool) → List Client → ℕ
count p [] = 0
count p (c ∷ cs) = (if p c then 1 else 0) + count p cs

-- The frames due to the connections of the kind `p` of a user.
unfoldable pub due_to : (Client → Bool) → Bytes → Option (List Client) → ℕ
unfolding count
due_to p except none = 0
due_to p except (some cs) = count (λ c. p c && not (c.id == except)) cs

-- The same of all users of a list that see the message.
unfoldable pub frames_due :
    (Client → Bool) → Map Bytes (List Client) → Bytes → (Bytes → Bool) → List Bytes → ℕ
unfolding due_to
frames_due p by_user except sight [] = 0
frames_due p by_user except sight (id ∷ ids) =
    (if sight id then due_to p except (lookup id by_user) else 0)
    + frames_due p by_user except sight ids

count-append :
    (p : Client → Bool) (xs ys : List Client) → count p (xs ++ ys) ≡ count p xs + count p ys
unfolding count
count-append p [] ys = omega arith
count-append p (x ∷ xs) ys = omega (arith, count-append p xs ys)

count-keep :
    (p q : Client → Bool) (xs : List Client) → count p (keep q xs) ≡ count (λ c. p c && q c) xs
unfolding count keep
count-keep p q [] = refl
count-keep p q (x ∷ xs) = ground (arith, count-keep p q xs)

count-fanout :
    (p : Client → Bool) (users : UserMap) (except id : Bytes)
    → count p (fanout users except id) ≡ due_to p except (lookup id users.by_user)
unfolding fanout due_to get
count-fanout p users except id = elim (Option-cases (lookup id users.by_user)) [
  | inl e ↦ ground (arith, e, count-keep p (λ c. not (c.id == except)) [])
  | inr (cs, e) ↦ ground (arith, e, count-keep p (λ c. not (c.id == except)) cs)
]

count-fanout_all :
    (p : Client → Bool) (users : UserMap) (except : Bytes) (sight : Bytes → Bool) (ids : List Bytes)
    → count p (fanout_all users except (keep sight ids))
      ≡ frames_due p users.by_user except sight ids
unfolding fanout_all frames_due keep count
count-fanout_all p users except sight [] = refl
count-fanout_all p users except sight (id ∷ ids) = ground (
  arith,
  count-append p (fanout users except id) (fanout_all users except (keep sight ids)),
  count-fanout p users except id,
  count-fanout_all p users except sight ids,
)

module _ {Limiter : Type 0} where
  deliver_local-fanout_all :
      (users : UserMap) (ev : PushEvent) (ids : List Bytes) (before : Db)
      → Ensures {E = Event} {S = State Limiter}
          (λ d. d ≡ before)
          (deliver_local users ev ids)
          (λ cs d.
            cs
            ≡ fanout_all users ev.sender_conn_id
                (keep (sees ev.conversation_id ev.message.seq before) ids))
  unfolding deliver_local visible_to visible_owners
  deliver_local-fanout_all users ev [] before =
      Ensures-pure _ _ _ (λ db e. unfold fanout_all keep in refl)
  deliver_local-fanout_all users ev (id ∷ ids) before =
      Ensures-bind _
        (λ vis d. vis ≡ keep (sees ev.conversation_id ev.message.seq before) (id ∷ ids)) _ _ _
        (Ensures-map_error _ _ _ _ (Ensures-call _ _ _ (λ db vis e x. ground (arith, e))))
        (λ vis. Ensures-pure _ _ _ (λ db e. ap (fanout_all users ev.sender_conn_id) e))

  deliver-fanout_all :
      (users : UserMap) (ev : PushEvent) (now : ℕ) (w : World Event (State Limiter))
      (cs : List Client) (ids : List Bytes)
      → (recipients ev now w).0 ≡ ok ids
      → (deliver users ev now w).0 ≡ ok cs
      → cs
        ≡ fanout_all users ev.sender_conn_id
            (keep (sees ev.conversation_id ev.message.seq w.db) ids)
  unfolding deliver ◌>>=◌ online_except
  deliver-fanout_all users ev now w cs ids e h =
      (deliver_local-fanout_all users ev (online_except ids ev.sender_conn_id users) w.db).at
        (recipients ev now w).1 cs (recipients-db ev now w) (rw e at h)
      ∙ fanout_all-online users ev.sender_conn_id (sees ev.conversation_id ev.message.seq w.db) ids

  -- Of the connections of any kind `p`, a delivery that succeeds sends the frame to as many as are due:
  -- each recipient whose view of the conversation holds the message now is owed one frame for each of
  -- his connections on the node but the one that sent the message, and nobody else is owed any. That
  -- users without such a connection are left out before the tables are asked is never seen.
  pub deliver-frames_due :
      (users : UserMap) (ev : PushEvent) (now : ℕ) (w : World Event (State Limiter))
      (cs : List Client) (ids : List Bytes) (p : Client → Bool)
      → (recipients ev now w).0 ≡ ok ids
      → (deliver users ev now w).0 ≡ ok cs
      → count p cs
        ≡ frames_due p users.by_user ev.sender_conn_id
            (sees ev.conversation_id ev.message.seq w.db)
            ids
  deliver-frames_due users ev now w cs ids p e h =
      ap (count p) (deliver-fanout_all users ev now w cs ids e h)
      ∙ count-fanout_all p users ev.sender_conn_id (sees ev.conversation_id ev.message.seq w.db) ids
