-- ===== src/Slots/Sender.antt =====
-- What chat_sessions_check_identity of main/src/chat/sessions.c has found out where it agrees.
use esp32_web_chat.Common.{
  ℕ, ◌≡◌, refl, Bool, true, false, not, ◌||◌, Option, none, some, Bytes, bytes_eq→eq, is_empty,
  get_elem?, arith, if◌then◌else◌,
}
use esp32_web_chat.Common.Int.{ℤ, eqb_ℤ→eq}
use esp32_web_chat.Common.Scan.{find_first, find_first-some}
use esp32_web_chat.Config.{ClientSlot}
use esp32_web_chat.Slots.{
  Slots, is_open, has_open_fd, same_user, not_joined, mismatch, identity_ok, check_identity,
}

-- A slot is the open one of the connection, and has joined as the user.
abbrev pub JoinedAs : ℤ → Bytes → Slots → Type 0
JoinedAs fd user ss =
    (i : ℕ) × (s : ClientSlot) × (get_elem? ss i ≡ some s)
    × (is_open s ≡ true)
    × (s.fd ≡ fd)
    × (s.joined ≡ true)
    × (s.user_id ≡ user)

same_user-some :
    (stored : Bytes) (o : Option Bytes)
    → same_user stored o ≡ true
    → (u : Bytes) × (o ≡ some u) × (stored ≡ u)
same_user-some stored none h = absurd (ground (arith, h))
same_user-some stored (some u) h = (u, refl, bytes_eq→eq stored u (ground (arith, h)))

agreed :
    (a b : Bool)
    → (if a then not_joined else if b then identity_ok else mismatch) ≡ identity_ok
    → (a ≡ false) × (b ≡ true)
agreed a b h = ground (arith, h)

pub check_identity-JoinedAs :
    (fd : ℤ) (user : Option Bytes) (ss : Slots)
    → check_identity fd user ss ≡ identity_ok
    → (u : Bytes) × (user ≡ some u) × JoinedAs fd u ss
unfolding check_identity
check_identity-JoinedAs fd user ss = of_slot (find_first (has_open_fd fd) ss) refl
  where
    of_slot :
        (o : Option ClientSlot)
        → find_first (has_open_fd fd) ss ≡ o
        → (elim o [
          | none ↦ not_joined
          | some s ↦
              if not s.joined || is_empty s.user_id
              then not_joined
              else if same_user s.user_id user
              then identity_ok
              else mismatch
        ])
          ≡ identity_ok
        → (u : Bytes) × (user ≡ some u) × JoinedAs fd u ss
    of_slot none e h = absurd (ground (arith, h))
    of_slot (some s) e h =
        let (i, g, t) = find_first-some (has_open_fd fd) ss s e in
        let (a, b) = agreed (not s.joined || is_empty s.user_id) (same_user s.user_id user) h in
        let (u, q, k) = same_user-some s.user_id user b in
        (
          u,
          q,
          (i, s, g, ground (arith, t), eqb_ℤ→eq s.fd fd (ground (arith, t)), ground (arith, a), k),
        )
