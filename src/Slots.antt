-- ===== src/Slots.antt =====
-- The client table of main/src/chat/sessions.c: what each function does to `client_slots` while it
-- holds `client_mutex`. The list is the array, so its length is MAX_CLIENTS. Times are in seconds.
pub mod Admission
pub mod Sender
pub mod Lookup
pub mod WellFormed
pub mod Target
pub mod Join
pub mod Identity
use mathlib.Core.Option
use esp32_web_chat.Common.{
  ℕ, zero, suc, ◌+◌, ◌-◌, ◌≡◌, refl, Bool, true, false, not, ◌&&◌, ◌||◌, Option, none, some, List,
  [], ◌∷◌, map, Bytes, codes, bytes_eq, is_empty, is_none, ltb, ◌==◌, if◌then◌else◌, take, length,
  replicate, get_elem?, modify,
}
use esp32_web_chat.Common.Int.{ℤ, pos, negsuc, ◌-ℤ◌, eqb_ℤ, ltb_ℤ, leb_ℤ}
use esp32_web_chat.Common.Scan.{update_first, update_all, find_first, any_of}
use esp32_web_chat.Config.{
  ClientSlot, max_user_id_len, max_name_len, valid_epoch_start_s, valid_epoch_end_s,
}

abbrev pub Slots : Type 0
Slots = List ClientSlot

-- copy_bounded of main/src/common/utils.c into a buffer of `size` bytes: `snprintf` keeps room for
-- the terminator, and a null source is the empty text. With no room the buffer stays as it is.
unfoldable pub copy_bounded : Bytes → ℕ → Option Bytes → Bytes
copy_bounded dst zero src = dst
copy_bounded dst (suc room) none = []
copy_bounded dst (suc room) (some s) = take room s

-- The table after `memset`.
abbrev pub zero_slot : ClientSlot
zero_slot = record {
  fd = pos 0;
  active = false;
  closing = false;
  joined = false;
  is_alive = false;
  time_offset_valid = false;
  time_offset_s = pos 0;
  registered_at_s = pos 0;
  last_ping_s = pos 0;
  user_id = [];
  name = [];
}

unfoldable pub clear_slot_identity : ClientSlot → ClientSlot
clear_slot_identity s = record {
  fd = negsuc 0;
  active = false;
  closing = false;
  joined = false;
  is_alive = false;
  time_offset_valid = false;
  time_offset_s = pos 0;
  registered_at_s = pos 0;
  last_ping_s = pos 0;
  user_id = [];
  name = [];
}

-- The slot as mark_slot_closing leaves it, and whether the client had joined.
unfoldable pub mark_slot_closing : ClientSlot → Bool × ClientSlot
mark_slot_closing s = if not s.active then (false, s) else (
  s.joined,
  record s {
    closing = true;
    joined = false;
    is_alive = false;
    time_offset_valid = false;
    time_offset_s = pos 0;
    user_id = [];
    name = [];
  },
)

-- An active slot whose connection is not being closed.
abbrev pub is_open : ClientSlot → Bool
is_open s = s.active && not s.closing

-- `active && fd == ...`, the test of the loops over one connection.
abbrev pub has_fd : ℤ → ClientSlot → Bool
has_fd fd s = s.active && eqb_ℤ s.fd fd

-- The same with `!closing`, and with `joined` too.
abbrev pub has_open_fd : ℤ → ClientSlot → Bool
has_open_fd fd s = is_open s && eqb_ℤ s.fd fd

abbrev pub has_joined_fd : ℤ → ClientSlot → Bool
has_joined_fd fd s = is_open s && s.joined && eqb_ℤ s.fd fd

-- chat_identity_status_t
pub data IdentityStatus : Type 0 where
  not_joined mismatch identity_ok : IdentityStatus

unfoldable pub is_joined : ℤ → Slots → Bool
unfolding find_first
is_joined fd ss = elim (find_first (has_open_fd fd) ss) [
  | none ↦ false
  | some s ↦ s.joined && not (is_empty s.user_id)
]

-- `user_id != NULL && strcmp(stored, user_id) == 0`.
abbrev pub same_user : Bytes → Option Bytes → Bool
same_user stored none = false
same_user stored (some u) = bytes_eq stored u

unfoldable pub check_identity : ℤ → Option Bytes → Slots → IdentityStatus
unfolding find_first
check_identity fd user ss = elim (find_first (has_open_fd fd) ss) [
  | none ↦ not_joined
  | some s ↦
      if not s.joined || is_empty s.user_id
      then not_joined
      else if same_user s.user_id user
      then identity_ok
      else mismatch
]

-- chat_sessions_update_time_sample after its tests of the timestamp.
unfoldable pub set_time_offset : ℤ → ℤ → Slots → Slots
unfolding update_first
set_time_offset fd offset ss =
    update_first (has_joined_fd fd)
      (λ s. record s { time_offset_s = offset; time_offset_valid = true }) ss

unfoldable pub mark_alive : ℤ → Slots → Bool × Slots
unfolding update_first any_of
mark_alive fd ss = (
  any_of (has_joined_fd fd) ss,
  update_first (has_joined_fd fd) (λ s. record s { is_alive = true }) ss,
)

unfoldable pub mark_closing : ℤ → Slots → Bool × Slots
unfolding update_all any_of mark_slot_closing
mark_closing fd ss = (
  any_of (λ s. has_fd fd s && (mark_slot_closing s).0) ss,
  update_all (has_fd fd) (λ s. (mark_slot_closing s).1) ss,
)

unfoldable pub remove_by_fd : ℤ → Slots → Bool × Slots
unfolding update_all any_of clear_slot_identity
remove_by_fd fd ss = (any_of (has_fd fd) ss, update_all (has_fd fd) clear_slot_identity ss)

-- The second loop of chat_sessions_ensure_slot: a free slot becomes the connection's.
unfoldable pub register_slot : ℤ → ℤ → ClientSlot → ClientSlot
unfolding copy_bounded
register_slot fd now s = record s {
  fd = fd;
  active = true;
  closing = false;
  joined = false;
  is_alive = true;
  time_offset_valid = false;
  time_offset_s = pos 0;
  registered_at_s = now;
  last_ping_s = now;
  user_id = [];
  name = copy_bounded s.name (max_name_len + 1) (some (codes "New User"));
}

abbrev pub is_free : ClientSlot → Bool
is_free s = not s.active

-- The whole of chat_sessions_ensure_slot; `now` is the uptime that the second loop reads.
unfoldable pub ensure_slot : ℤ → ℤ → Slots → Bool × Slots
unfolding find_first update_first any_of register_slot
ensure_slot fd now ss = elim (find_first (has_fd fd) ss) [
  | some s ↦
      if s.closing
      then (false, ss)
      else (true, update_first (has_fd fd) (λ t. record t { is_alive = true }) ss)
  | none ↦ (any_of is_free ss, update_first is_free (register_slot fd now) ss)
]

-- The first loop of chat_sessions_update_identity: (free_slot, fd_slot), from index `i` on.
unfoldable pub scan_slots : ℤ → ℕ → Option ℕ → Option ℕ → Slots → Option ℕ × Option ℕ
scan_slots fd i free own [] = (free, own)
scan_slots fd i free own (s ∷ ss) =
    scan_slots fd (suc i)
      (if has_open_fd fd s then free else if is_free s && is_none free then some i else free)
      (if has_open_fd fd s then some i else own) ss

-- `int target = fd_slot >= 0 ? fd_slot : free_slot`, `none` for -1.
abbrev pub pick_target : Option ℕ × Option ℕ → Option ℕ
pick_target (free, some own) = some own
pick_target (free, none) = free

-- What the target slot becomes.
unfoldable pub join_slot : ℤ → ℤ → Option Bytes → Option Bytes → ClientSlot → ClientSlot
unfolding copy_bounded
join_slot now fd user name s =
    let changed = not (eqb_ℤ s.fd fd) || is_empty s.user_id || not (same_user s.user_id user) in
    record s {
      fd = fd;
      active = true;
      closing = false;
      joined = true;
      is_alive = true;
      time_offset_valid = if changed then false else s.time_offset_valid;
      time_offset_s = if changed then pos 0 else s.time_offset_s;
      registered_at_s = now;
      last_ping_s = now;
      user_id = copy_bounded s.user_id (max_user_id_len + 1) user;
      name = copy_bounded s.name (max_name_len + 1) name;
    }

-- The test of the loop over the other slots of the same user.
unfoldable pub is_stale : Bytes → ℕ → ℕ → ClientSlot → Bool
is_stale user target i s =
    if i == target || not s.active || is_empty s.user_id then false else bytes_eq s.user_id user

-- That loop, from index `i` on: the descriptors to notify, of which `room` fit, and the table.
unfoldable pub evict : ℤ → Bytes → ℕ → Slots → ℕ → ℕ → List ℤ × Slots
evict fd user target [] room i = ([], [])
evict fd user target (s ∷ ss) room i =
    let stale = is_stale user target i s in
    let notify = stale && leb_ℤ (pos 0) s.fd && not (eqb_ℤ s.fd fd) && ltb 0 room in
    let (fds, rest) = evict fd user target ss (if notify then room - 1 else room) (suc i) in
    (if notify then s.fd ∷ fds else fds, (if stale then (mark_slot_closing s).1 else s) ∷ rest)

pub record Updated : Type 0 where
  pub updated : Bool
  pub stale_fds : List ℤ
  pub slots : Slots

-- What happens after the target is filled: nothing more where `user_id` is NULL.
unfoldable pub evict_others : ℤ → Option Bytes → ℕ → Slots → Updated
unfolding evict
evict_others fd none target ss = record { updated = true; stale_fds = []; slots = ss }
evict_others fd (some u) target ss =
    let (fds, rest) = evict fd u target ss (length ss) 0 in
    record { updated = true; stale_fds = fds; slots = rest }

-- chat_sessions_update_identity up to the release of `client_mutex`.
unfoldable pub update_identity : ℤ → ℤ → Option Bytes → Option Bytes → Slots → Updated
unfolding scan_slots join_slot evict_others
update_identity now fd user name ss = elim (pick_target (scan_slots fd 0 none none ss)) [
  | none ↦ record { updated = false; stale_fds = []; slots = ss }
  | some target ↦ evict_others fd user target (modify ss target (join_slot now fd user name))
]
