-- ===== src/Tests/System.antt =====
-- The boot, an event and a reboot on platforms where every call succeeds.
use Prim.Native.String.{String}
use esp32_web_chat.Common.{
  ℕ, suc, ◌≡◌, ◌≤◌, refl, true, false, some, [], ◌∷◌, Bytes, arith, zero, codes, length,
  if◌then◌else◌, ◌==◌,
}
use esp32_web_chat.Common.Int.{pos, leb_ℤ}
use esp32_web_chat.Config.{max_safe_id}
use esp32_web_chat.History.{fill_bounds}
use esp32_web_chat.Platform.{
  Platform, World, message_mutex, modify_ctx, locked, get_ctx, ◌>>=◌, ◌>>◌, done, call, tell,
}
use esp32_web_chat.Boot.{zero_context, app_main, Event, perform, handshake, settings_read}
use esp32_web_chat.IdStore.{persist, load}
use esp32_web_chat.IdStore.Reboot.{Flash, persist-load}
use esp32_web_chat.Http.{receive_body}
use esp32_web_chat.Http.Body.{Receives, receive_body-enough}
use esp32_web_chat.Protocol.{json_safe_message_id}
use esp32_web_chat.Json.{safe_integer}
use esp32_web_chat.System.{IsSystemOk}
use esp32_web_chat.System.Reach.{Reach, booted, stepped, Reach-IsSystemOk}
use esp32_web_chat.System.Bounds.{IsSafe, ExactDoubles, Reach-IsSafe, json_safe_message_id-range}
use esp32_web_chat.Board.{checked}
use esp32_web_chat.Tests.Board.{board, embedded}
use esp32_web_chat.Messages.{finalize_and_store_message}
use esp32_web_chat.Messages.Reboot.{finalize-load}
use esp32_web_chat.Tests.Json.{Tree, object, leaf, number}
use esp32_web_chat.Tests.Store.{over, ready, ready-Fits, build, world}

abbrev unstarted : World (Unit {0})
unstarted = record { ctx = zero_context build; env = tt; frames = [] }

abbrev started : World (Unit {0})
started = (app_main ready (board (Unit {0})) build unstarted).1

starts : (app_main ready (board (Unit {0})) build unstarted).0 ≡ true
unfolding app_main ◌>>=◌ ◌>>◌ call done checked
starts = refl

abbrev event : Event → World (Unit {0}) → World (Unit {0})
event e w = (perform ready (board (Unit {0})) build embedded e (record w { env = tt })).1

-- After the handshake of the connection 5 and a look at the settings.
abbrev connected : World (Unit {0})
connected = event settings_read (event (handshake (pos 5)) started)

connected-Reach : Reach ready (board (Unit {0})) build embedded connected
connected-Reach =
    stepped (event (handshake (pos 5)) started) settings_read tt
      (stepped started (handshake (pos 5)) tt (booted unstarted starts))

Reach-IsSystemOk_example : IsSystemOk connected.ctx
Reach-IsSystemOk_example =
    Reach-IsSystemOk ready (board (Unit {0})) build embedded ready-Fits (omega arith) connected
      connected-Reach

Reach-IsSafe_example : IsSafe (fill_bounds connected.ctx.messages)
Reach-IsSafe_example =
    Reach-IsSafe ready (board (Unit {0})) build embedded ready-Fits (omega arith) connected
      connected-Reach

-- A flash memory with the value that was set last and the one that was committed last.
abbrev first_byte : Bytes → ℕ
first_byte [] = 0
first_byte (b ∷ bs) = b

same_value : (m n : ℕ) → some m ≡ some n → m ≡ n
same_value m n e = ground (arith, e)

-- The entries are told apart by their first letter.
abbrev put_entry : String → ℕ → ℕ × ℕ → ℕ × ℕ
put_entry key n e = if first_byte (codes key) == 99 then (n, e.1) else e

abbrev flash_memory : Platform
flash_memory = over (ℕ × ℕ) (λ e. e.0) put_entry (λ e. (e.0, e.0))

abbrev memory-Flash : Flash flash_memory
memory-Flash = record {
  IsMessages = λ h. Unit {0};
  staged = λ e. some e.0;
  stored = λ e. some e.1;
  reboot = λ e. (e.1, e.1);
  rebooted = λ e. refl;
  opened = λ write e. refl;
  opened_handle = λ write e ok. tt;
  set = λ h n e m ok. refl;
  set_other = λ h n e m. refl;
  committed = λ h e m ok. refl;
  closed = λ h e. refl;
  got = λ h n e m s. (refl, same_value e.0 n s);
}

abbrev before_write : World (ℕ × ℕ)
before_write = record { ctx = world.ctx; env = (3, 3); frames = [] }

abbrev after_reboot : World (ℕ × ℕ)
after_reboot = record { ctx = world.ctx; env = (9, 9); frames = [] }

persist-load_example :
    (load flash_memory after_reboot).0.1
    ≡ record { boot_start_id = 10; current_id = 9; counter_loaded = true }
unfolding persist ◌>>=◌ ◌>>◌ done call tell
persist-load_example =
    persist-load flash_memory memory-Flash 9 4 before_write after_reboot (omega arith) refl refl
      refl

ready-ExactDoubles : ExactDoubles ready
ready-ExactDoubles = record {
  above = λ d n b l e. ground (arith, e);
  below = λ d n b l e. ground (arith, e);
}

json_safe_message_id-range_example : (1 ≤ 5) × (5 ≤ max_safe_id)
unfolding json_safe_message_id safe_integer
json_safe_message_id-range_example =
    json_safe_message_id-range ready ready-ExactDoubles (some (number [] 5)) false 5 refl

ready-Receives : Receives ready
ready-Receives = record { some_bytes = by_size }
  where
    by_size :
        (size : ℕ) (e : Unit {0})
        → leb_ℤ (ready.request_recv size e).0.0 (pos 0) ≡ false
        → (1 ≤ length (ready.request_recv size e).0.1)
          × (length (ready.request_recv size e).0.1 ≤ size)
    by_size zero e h = absurd (ground (arith, h))
    by_size (suc n) e h = (omega arith, omega arith)

receive_body-enough_example :
    (receive_body ready 3 5 [] world ≡ receive_body ready 3 3 [] world)
    × ((b : Bytes) → (receive_body ready 3 3 [] world).0 ≡ some b → length b ≡ 3)
receive_body-enough_example = receive_body-enough ready ready-Receives 3 5 world (omega arith)

unlocks :
    (e : ℕ × ℕ) → memory-Flash.stored (flash_memory.give message_mutex e) ≡ memory-Flash.stored e
unlocks e = refl

abbrev empty_object : Tree
empty_object = object [] leaf

-- The counter is at 9.
stores : (finalize_and_store_message flash_memory empty_object before_write).0.1 ≡ some []
unfolding finalize_and_store_message locked ◌>>=◌ ◌>>◌ done call tell get_ctx
stores = refl

abbrev after_store : World (ℕ × ℕ)
after_store = record before_write { env = (10, 10) }

reboots :
    after_store.env
    ≡ memory-Flash.reboot (finalize_and_store_message flash_memory empty_object before_write).1.env
unfolding finalize_and_store_message locked ◌>>=◌ ◌>>◌ done call tell get_ctx modify_ctx
reboots = refl

finalize-load_example :
    (load flash_memory after_store).0.1
    ≡ record { boot_start_id = 11; current_id = 10; counter_loaded = true }
finalize-load_example =
    finalize-load flash_memory memory-Flash unlocks empty_object [] before_write after_store refl
      (omega arith) stores reboots refl
