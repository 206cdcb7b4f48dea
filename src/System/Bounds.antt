-- ===== src/System/Bounds.antt =====
-- The ids that the program takes from messages, and those that it tells its clients, are integers
-- that a JSON number holds exactly.
use esp32_web_chat.Common.{
  Bytes, ℕ, suc, ◌≡◌, ◌≤◌, sym, subst, Bool, true, false, not, ◌||◌, Option, none, some, List, [],
  ◌∷◌, arith, ltb, if◌then◌else◌,
}
use esp32_web_chat.Config.{Config, Message, HistoryBounds, max_safe_id}
use esp32_web_chat.History.{MessageStore, fill_bounds}
use esp32_web_chat.History.Ring.{Run, Run-length}
use esp32_web_chat.History.Bounds.{fill_bounds_lem, earliest_of, latest_of}
use esp32_web_chat.Platform.{Platform, World}
use esp32_web_chat.Settings.Valid.{Fits}
use esp32_web_chat.Json.{safe_integer}
use esp32_web_chat.Protocol.{json_safe_message_id}
use esp32_web_chat.System.{IsStoreOk}
use esp32_web_chat.Board.{Board}
use esp32_web_chat.Http.Pages.{Asset}
use esp32_web_chat.System.Reach.{Reach, Reach-IsSystemOk}

-- A number that equals the double of an unsigned integer compares with a safe integer as that
-- integer does.
pub record ExactDoubles (p : Platform) : Type 0 where
  pub above :
      (d : p.Double) (n b : ℕ) → b ≤ max_safe_id → p.is_same d n ≡ true → p.is_above d b ≡ ltb b n
  pub below :
      (d : p.Double) (n b : ℕ) → b ≤ max_safe_id → p.is_same d n ≡ true → p.is_below d b ≡ ltb n b

accepted :
    (is_num below above same : Bool) (m n : ℕ)
    → (if not is_num || below || above then none else if not same then none else some m) ≡ some n
    → (below ≡ false) × (above ≡ false) × (same ≡ true) × (m ≡ n)
accepted is_num below above same m n e = ground (arith, e)

safe_integer-range :
    (p : Platform) (exact : ExactDoubles p) (low : ℕ) (item : Option (p.Node)) (n : ℕ)
    → low ≤ max_safe_id
    → safe_integer p low item ≡ some n
    → (low ≤ n) × (n ≤ max_safe_id)
unfolding safe_integer
safe_integer-range p exact low none n l e = absurd (ground (arith, e))
safe_integer-range p exact low (some item) n l e =
    let d = p.value_double item in
    let m = p.to_uint64 d in
    let (b, a, s, q) =
      accepted (p.is_number item) (p.is_below d low) (p.is_above d max_safe_id) (p.is_same d m) m n
        e in
    (
      ground (arith, exact.below d m low l s, b, q),
      ground (arith, exact.above d m max_safe_id (omega arith) s, a, q),
    )

-- Where a double that equals an integer compares with safe integers as that integer does, a
-- message id that is accepted is from 1, or from 0 where the caller allows it, to the largest safe
-- integer.
pub json_safe_message_id-range :
    (p : Platform) (exact : ExactDoubles p) (item : Option (p.Node)) (allow_zero : Bool) (n : ℕ)
    → json_safe_message_id p item allow_zero ≡ some n
    → ((if allow_zero then 0 else 1) ≤ n) × (n ≤ max_safe_id)
unfolding json_safe_message_id
json_safe_message_id-range p exact item true n e =
    safe_integer-range p exact 0 item n (omega arith) e
json_safe_message_id-range p exact item false n e =
    safe_integer-range p exact 1 item n (omega arith) e

earliest-safe :
    (lo hi default : ℕ) (ms : List Message)
    → Run lo ms hi
    → hi ≤ max_safe_id
    → default ≤ max_safe_id
    → earliest_of ms default ≤ max_safe_id
earliest-safe lo hi default [] r h d = d
earliest-safe lo hi default (m ∷ ms) r h d = omega (arith, r.0, Run-length (suc lo) ms hi r.2)

latest-safe : (hi : ℕ) (ms : List Message) → hi ≤ max_safe_id → latest_of ms hi ≤ max_safe_id
latest-safe hi [] h = omega arith
latest-safe hi (m ∷ ms) h = h

pub record IsSafe (b : HistoryBounds) : Type 0 where
  pub boot_start : b.boot_start_id ≤ max_safe_id
  pub current : b.current_id ≤ max_safe_id
  pub earliest : b.earliest_id ≤ max_safe_id
  pub latest : b.latest_id ≤ max_safe_id
  pub restore_before : b.restore_before_id ≤ max_safe_id

fill_bounds-IsSafe : (st : MessageStore) → IsStoreOk st → IsSafe (fill_bounds st)
fill_bounds-IsSafe st ok =
    let h = ok.holds in
    subst IsSafe (sym (fill_bounds_lem st ok.history h)) (record {
      boot_start = ok.boot_safe;
      current = ok.counter_safe;
      earliest =
          earliest-safe h.lo st.message_id_counter 0 ok.history h.run ok.counter_safe (omega arith);
      latest = latest-safe st.message_id_counter ok.history ok.counter_safe;
      restore_before =
          earliest-safe h.lo st.message_id_counter st.boot_start_id ok.history h.run ok.counter_safe
            ok.boot_safe;
    })

-- Where reading a string from NVS writes no more than its buffer holds and the ring has a place at
-- least, in every world that the program reaches the ids in the bounds of its history are at most
-- the largest safe integer: the first id of the boot, the current one, the earliest and the latest
-- of the history, and the one before which older messages may be restored.
pub Reach-IsSafe :
    (p : Platform) (b : Board (p.Env)) (cfg : Config) (embedded : Asset → Bytes) (fits : Fits p)
    (room : 1 ≤ cfg.max_messages) (w : World (p.Env))
    → Reach p b cfg embedded w
    → IsSafe (fill_bounds w.ctx.messages)
Reach-IsSafe p b cfg embedded fits room w r =
    fill_bounds-IsSafe w.ctx.messages (Reach-IsSystemOk p b cfg embedded fits room w r).store
