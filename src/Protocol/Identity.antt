-- ===== src/Protocol/Identity.antt =====
-- Only the user that a connection has joined as can act on it.
use Prim.Native.String.{String}
use esp32_web_chat.Common.{
  ◌≡◌, refl, ap, ◌∙◌, ◌⊎◌, inl, inr, Bool, true, false, not, ◌||◌, Option, none, some, Bool-cases,
  Bytes, arith, if◌then◌else◌,
}
use esp32_web_chat.Common.Int.{ℤ}
use esp32_web_chat.Config.{Config}
use esp32_web_chat.History.{MessageStore}
use esp32_web_chat.Slots
use esp32_web_chat.Slots.{Slots, IdentityStatus, not_joined, mismatch, identity_ok}
use esp32_web_chat.Json.{json_string_in_range}
use esp32_web_chat.Json.Texts.{IsText}
use esp32_web_chat.Slots.Sender.{JoinedAs, check_identity-JoinedAs}
use esp32_web_chat.Slots.WellFormed.{IsWellFormed}
use esp32_web_chat.Platform.{
  Platform, World, AppContext, EspErr, err_invalid_state, Run, is_ok, client_mutex, ◌>>=◌, ◌>>◌,
  done, call, tell, get_ctx, locked,
}
use esp32_web_chat.Platform.Keeps.{branch}
use esp32_web_chat.Server.{send_error}
use esp32_web_chat.Sessions.{check_identity}
use esp32_web_chat.Protocol.{valid_user, text_of_item, send_error_and_close}
use esp32_web_chat.Protocol.Checks.{require_joined_identity, is_not_joined, is_identity_ok}
use esp32_web_chat.Protocol.Dispatch.{handle_as_joined}
use esp32_web_chat.System.{AllowsTable}
use esp32_web_chat.System.Handlers.{require_joined_identity-Keeps}

-- The table is well formed, and the messages are the given ones.
record Untouched (ms : MessageStore) (c : AppContext) : Type 0 where
  table : IsWellFormed c.client_slots
  same : c.messages ≡ ms

Untouched-AllowsTable : (ms : MessageStore) → AllowsTable (Untouched ms)
Untouched-AllowsTable ms = record {
  table = λ c h. h.table;
  with_table = λ c ss h k. record { table = k; same = h.same };
  with_flags = λ c b s t task h. record { table = h.table; same = h.same };
}

not_ok : (ret : EspErr) → is_ok (if is_ok ret then err_invalid_state else ret) ≡ false
not_ok ret = ground arith

module _ {Env : Type 0} (a b c : Run Env EspErr) (w : World Env) (fa : is_ok (a w).0 ≡ false)
    (fb : is_ok (b w).0 ≡ false) where
  -- The tests of require_joined_identity on an identity that is not the client's.
  refused :
      (identity : IdentityStatus) (valid : Bool)
      → is_identity_ok identity ≡ false
      → is_ok
          ((if is_not_joined identity
              then a
              else if not valid || not (is_identity_ok identity)
              then b
              else c)
            w).0
        ≡ false
  refused not_joined valid h = fa
  refused mismatch true h = fb
  refused mismatch false h = fb
  refused identity_ok valid h = absurd (ground arith)

stops :
    {Env : Type 0} (ret : EspErr) (k : Run Env EspErr) (w : World Env)
    → is_ok ret ≡ false
    → (is_ok ((if not (is_ok ret) then done ret else k) w).0 ≡ false)
      × (((if not (is_ok ret) then done ret else k) w).1.ctx.messages ≡ w.ctx.messages)
unfolding done
stops ret k w e = rw e (e, refl)

module _ (p : Platform) where
  open p use {Env, Node, take}

  -- The user that a message claims to be from, where it is a valid user id.
  abbrev pub claimed : Node → Option Bytes
  claimed root =
      if valid_user p (p.get_item root "from")
      then text_of_item p (p.get_item root "from")
      else none

  -- Under the mutex the table says who has joined; without it nobody has.
  check_identity-result :
      (fd : ℤ) (user : Option Bytes) (w : World Env)
      → ((check_identity p fd user w).0 ≡ not_joined)
        ⊎ ((check_identity p fd user w).0 ≡ Slots.check_identity fd user w.ctx.client_slots)
  unfolding check_identity locked ◌>>=◌ ◌>>◌ done call tell get_ctx
  check_identity-result fd user w =
      branch (λ r. (r.0 ≡ not_joined) ⊎ (r.0 ≡ Slots.check_identity fd user w.ctx.client_slots))
        (take client_mutex w.env).0 _ _ _ (λ f. inl refl) (λ t. inr refl)

  send_error_and_close-fails :
      (fd : ℤ) (code message : String) (w : World Env)
      → is_ok (send_error_and_close p fd code message w).0 ≡ false
  unfolding send_error_and_close ◌>>=◌ ◌>>◌ done
  send_error_and_close-fails fd code message w = not_ok (send_error p fd code message w).0

  require-fails :
      (fd : ℤ) (root : Node) (w : World Env)
      → is_identity_ok (Slots.check_identity fd (claimed root) w.ctx.client_slots) ≡ false
      → is_ok (require_joined_identity p fd root w).0 ≡ false
  unfolding require_joined_identity ◌>>=◌
  require-fails fd root w other =
      refused _ _ _ r.1
        (send_error_and_close-fails fd "not_joined" "Join before sending this message" r.1)
        (send_error_and_close-fails fd "bad_identity"
          "Message sender does not match the joined user" r.1)
        r.0 (valid_user p (p.get_item root "from"))
        (elim (check_identity-result fd (claimed root) w) [
          | inl e ↦ ap is_identity_ok e
          | inr e ↦ ap is_identity_ok e ∙ other
        ])
    where
      r : IdentityStatus × World Env
      r = check_identity p fd (claimed root) w

  handle_as_joined-stops :
      (cfg : Config) (fd : ℤ) (root : Node) (type : Option Bytes) (w : World Env)
      → IsWellFormed w.ctx.client_slots
      → is_identity_ok (Slots.check_identity fd (claimed root) w.ctx.client_slots) ≡ false
      → (is_ok (handle_as_joined p cfg fd root type w).0 ≡ false)
        × ((handle_as_joined p cfg fd root type w).1.ctx.messages ≡ w.ctx.messages)
  unfolding handle_as_joined ◌>>=◌ done
  handle_as_joined-stops cfg fd root type w h other =
      let e = require-fails fd root w other in
      let kept =
        (require_joined_identity-Keeps p (Untouched-AllowsTable w.ctx.messages) fd root).at w
          (record { table = h; same = refl }) in
      let s =
        stops (require_joined_identity p fd root w).0 _ (require_joined_identity p fd root w).1 e in
      (s.0, s.1 ∙ kept.same)

  -- The `from` of the message is a string, and the connection has joined as that user.
  abbrev pub SpeaksAs : ℤ → Node → Slots → Type 0
  SpeaksAs fd root ss =
      (u : Bytes) × (from : Node) × (p.get_item root "from" ≡ some from)
      × IsText p from u
      × JoinedAs fd u ss

  claimed-IsText :
      (root : Node) (u : Bytes)
      → claimed root ≡ some u
      → (from : Node) × (p.get_item root "from" ≡ some from) × IsText p from u
  unfolding json_string_in_range
  claimed-IsText root u = of_item (p.get_item root "from") refl
    where
      of_item :
          (o : Option Node)
          → p.get_item root "from" ≡ o
          → (if valid_user p o then text_of_item p o else none) ≡ some u
          → (from : Node) × (p.get_item root "from" ≡ some from) × IsText p from u
      of_item none e h = absurd (ground (arith, h))
      of_item (some from) e h = (from, e, (ground (arith, h), ground (arith, h)))

  identity_ok-eq : (i : IdentityStatus) → is_identity_ok i ≡ true → i ≡ identity_ok
  identity_ok-eq not_joined h = absurd (ground (arith, h))
  identity_ok-eq mismatch h = absurd (ground (arith, h))
  identity_ok-eq identity_ok h = refl

  -- On a well-formed client table, for a message of any type but "join" and "pong", either it is
  -- answered with an error and leaves the stored messages, the counter and the ids as they were,
  -- whatever the platform answers, or its `from` is a string and an open slot of its connection
  -- has joined with exactly that text as its user id.
  pub handle_as_joined-refuses :
      (cfg : Config) (fd : ℤ) (root : Node) (type : Option Bytes) (w : World Env)
      → IsWellFormed w.ctx.client_slots
      → ((is_ok (handle_as_joined p cfg fd root type w).0 ≡ false)
          × ((handle_as_joined p cfg fd root type w).1.ctx.messages ≡ w.ctx.messages))
        ⊎ SpeaksAs fd root w.ctx.client_slots
  handle_as_joined-refuses cfg fd root type w h =
      let found = Slots.check_identity fd (claimed root) w.ctx.client_slots in
      elim (Bool-cases (is_identity_ok found)) [
        | inl t ↦
            let (u, q, j) =
              check_identity-JoinedAs fd (claimed root) w.ctx.client_slots
                (identity_ok-eq found t) in
            let (from, e, x) = claimed-IsText root u q in inr (u, from, e, x, j)
        | inr f ↦ inl (handle_as_joined-stops cfg fd root type w h f)
      ]
