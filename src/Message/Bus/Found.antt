-- ===== src/Message/Bus/Found.antt =====
-- The message that a reference names, in tables whose seqs run without repetition.
use nexo.Prelude.{
  ℕ, zero, suc, ◌+◌, ◌≤◌, ◌<◌, ◌≡◌, refl, ap, ◌∙◌, arith, Bool, List, [], ◌∷◌, ◌++◌, keep, any,
  length, length-append, ◌==◌ as nat_eq, if◌then◌else◌,
}
use nexo.Prelude.Bytes.{eq_iff, eq_refl}
use nexo.Store
use nexo.Store.{MessageKey}
use nexo.Store.Db.{Db}
use nexo.Store.Messages.{has_key, max_seq_of}
use nexo.Message.Send.Gapless.{IsGapless, seqs_of, one_to}

unfoldable occurrences : ℕ → List ℕ → ℕ
occurrences v [] = 0
occurrences v (x ∷ xs) = (if nat_eq x v then 1 else 0) + occurrences v xs

occurrences-append :
    (v : ℕ) (xs ys : List ℕ) → occurrences v (xs ++ ys) ≡ occurrences v xs + occurrences v ys
unfolding occurrences
occurrences-append v [] ys = omega arith
occurrences-append v (x ∷ xs) ys = omega (arith, occurrences-append v xs ys)

occurrences-one_to :
    (v n : ℕ) → (occurrences v (one_to n) ≤ 1) × (n < v → occurrences v (one_to n) ≡ 0)
unfolding occurrences one_to
occurrences-one_to v zero = (omega arith, λ h. refl)
occurrences-one_to v (suc n) =
    ground (arith, occurrences-append v (one_to n) (suc n ∷ []), occurrences-one_to v n)

abbrev pub key_of : Store.Message → MessageKey
key_of m = record { conversation_id = m.conversation_id; seq = m.seq }

-- The test of `GetMessages` for one key.
abbrev pub named : MessageKey → Store.Message → Bool
named k x = any (has_key x) (k ∷ [])

length-keep-named :
    (k : MessageKey) (ms : List Store.Message)
    → length (keep (named k) ms) ≡ occurrences k.seq (seqs_of k.conversation_id ms)
unfolding keep any has_key occurrences seqs_of
length-keep-named k [] = refl
length-keep-named k (x ∷ ms) = ground (
  arith,
  eq_iff k.conversation_id x.conversation_id,
  eq_iff x.conversation_id k.conversation_id,
  length-keep-named k ms,
)

keep-append :
    (p : Store.Message → Bool) (xs ys : List Store.Message)
    → keep p (xs ++ ys) ≡ keep p xs ++ keep p ys
unfolding keep
keep-append p [] ys = refl
keep-append p (x ∷ xs) ys = ground (arith, keep-append p xs ys)

alone :
    (m : Store.Message) (xs ys : List Store.Message)
    → length (xs ++ m ∷ ys) ≤ 1
    → xs ++ m ∷ ys ≡ m ∷ []
alone m [] [] h = refl
alone m [] (y ∷ ys) h = absurd (omega (arith, h))
alone m (x ∷ xs) ys h = absurd (omega (arith, h, length-append xs (m ∷ ys)))

keep_self :
    (m : Store.Message) (ys : List Store.Message)
    → keep (named (key_of m)) (m ∷ ys) ≡ m ∷ keep (named (key_of m)) ys
unfolding keep any has_key
keep_self m ys = ground (arith, eq_refl m.conversation_id)

-- A stored message is the one message under its key.
pub keep-named :
    (db : Db) (m : Store.Message) (earlier later : List Store.Message)
    → IsGapless db
    → db.messages ≡ earlier ++ m ∷ later
    → keep (named (key_of m)) db.messages ≡ m ∷ []
keep-named db m earlier later g e =
    let k = key_of m in
    let parts : keep (named k) db.messages ≡ keep (named k) earlier ++ m ∷ keep (named k) later =
      ap (keep (named k)) e
      ∙ (keep-append (named k) earlier (m ∷ later)
          ∙ ap (λ zs. keep (named k) earlier ++ zs) (keep_self m later)) in
    let few : length (keep (named k) db.messages) ≤ 1 =
      rw (length-keep-named k db.messages, g.at m.conversation_id)
        ((occurrences-one_to m.seq (max_seq_of m.conversation_id db)).0) in
    parts ∙ alone m (keep (named k) earlier) (keep (named k) later) (rw parts at few)
