-- ===== src/Lib.antt =====
-- ESP32-Web-Chat: a chat server that runs on an ESP32 access point.
--
-- Browsers connect over WebSocket, join with a user id and exchange messages. The firmware keeps a
-- table of connections, the last messages in a ring, a message counter in flash and an estimate of
-- the time of day, all in one app_context_t behind two mutexes.
--
-- Which file models which part (paths from the root of the repository):
--   Config      main/include/chat_config.h and chat_types.h: limits and records.
--   Utf8        valid_utf8 of main/src/common/utils.c; Utf8/Decode has the proof.
--   Slots       the client table of main/src/chat/sessions.c, as each function leaves it while it
--               holds client_mutex. Slots/WellFormed states the invariant, Slots/Lookup, Target
--               and Join carry the join (chat_sessions_update_identity), Slots/Identity sums it up.
--   Heartbeat   the part of heartbeat_sweep_work (sessions.c) under the mutex; Heartbeat/Slot is
--               about one client, Heartbeat/Table about a sweep and about a series of them.
--   History     the ring of main/src/chat/history.c under message_mutex: push_message, fill_bounds
--               and next_message. History/Ring gives the list that a ring holds, History/Bounds,
--               Select and Scan compare the functions with that list.
--   TimeSync    consensus_offset_s of utils.c: the offset on which the clients' clocks agree.
--   Platform    every call of FreeRTOS, ESP-IDF, NVS, the sockets, malloc and cJSON, as the fields
--               of a record over an unknown state Env, the shared context, and a state monad Run.
--   Board       what the boot, the access point, the DNS server and the HTTP server call of ESP-IDF and
--               lwIP to set the network up, beside Platform, and pieces that may stop the program.
--   Clock       device_uptime_s and current_timestamp_s of utils.c.
--   Sessions    the functions of sessions.c with their locking, over Slots.
--   Server      sending, broadcasting and closing of main/src/server/websocket_server.c;
--               Server/Recipients and Distinct are about whom a broadcast goes to.
--   IdStore     main/src/storage/message_id_store.c: the counter in NVS; IdStore/Reboot is about what
--               a reboot brings back.
--   Takeover    chat_sessions_update_identity as a whole, with the sessions that it replaces.
--   JsonScan    the scan of chat_json_parse_object (utils.c) before cJSON; JsonScan/Depth bounds
--               the nesting.
--   Dns         main/src/network/dns_server.c; Dns/Reply compares the reply with the query,
--               Dns/Server the rounds of the loop with the queries.
--   Softap      main/src/network/softap.c; Softap/Valid is about the configuration of the radio.
--   Settings    main/src/common/settings.c; Settings/Valid says when settings are usable,
--               Settings/Reboot what a reboot brings back.
--   Json        json_string_in_range, json_array_contains_string, json_has_duplicate_keys and
--               chat_json_parse_object of utils.c, over the nodes of cJSON. Json/Keys is about the
--               keys of the objects, Json/Parsed about what chat_json_parse_object lets through, and
--               Json/Texts about the comparisons of texts.
--   Presence    the list of online users of sessions.c, and its broadcast; Presence/Queue has the
--               work that is queued on the task of the HTTP server, and the heartbeat task.
--   HistoryInfo the bounds of the history that history.c tells a client, and the client's cursor.
--   Protocol    main/src/chat/protocol.c: the checks of a message and the relay to its targets;
--               Protocol/Checks has those of a message from a client's own history,
--               Protocol/Handlers and Dispatch the handlers and chat_protocol_handle_json.
--               Protocol/Identity and Privacy say who may act, and who is told, with Slots/Sender and
--               Protocol/Parties on the slots and the messages; Protocol/Targets what
--               validate_to_object leaves in a message.
--   Transport   main/src/server/socket_transport.c: sending a whole buffer; Transport/Complete is
--               about what reaches the wire, Transport/Ends about the end of its loop.
--   Handler     the handlers of websocket_server.c that the HTTP server calls.
--   Http        settings_post_handler of main/src/server/http_server.c; Http/Valid is about the
--               settings that it leaves, Http/Password about who may change them, Http/Body about
--               its loop. Http/Sockets has the limit on the sessions and Http/Server the start with
--               the routes, from chat_http_start_server. Http/Pages has the handlers that only
--               answer, Http/Secret what reading the settings tells.
--   Boot        app_main of main/src/main.c, and the events that come after it. ESP_ERROR_CHECK and
--               assert stop the program: a piece of the boot answers whether it goes on.
--   System      the invariant of the shared context, kept by each part: System/Sends, Presence,
--               Store, Handlers, Frames, Requests and Boot. System/Reach has the reachable worlds,
--               System/Bounds the ids, System/Attempts the repeated broadcast of the online users,
--               System/Delivery whom a broadcast reaches, with System/Closing, Marking,
--               Fate and Served on its steps, and System/Admission who gets a slot.
--   Messages    history.c with its locks, flash and sends: storing a message
--               (Messages/Store), what a reboot makes of its id (Messages/Reboot) and replaying the
--               history to a client (Messages/Replay).
--   Common      shared names, Boolean tests, lists and integers; Tests has runs and instances.
--
-- Conventions. Arrays are lists whose length is the array's size, so MAX_CLIENTS and MAX_MESSAGES
-- are free. A C string is the list of its bytes, a null pointer is `none`, and -1 for "no index" is
-- `none` too. int64_t times are integers, since they stay far from the ends of the range; ids are
-- uint64_t and keep `% 2 ^ 64` where one is added. A loop over an array is recursion on the list.
-- The loop of valid_utf8 runs on fuel, of which the length of the text is enough since a round
-- takes a byte; the loop of the replay runs for as many rounds as the C loop, the size of the ring.
-- An error code is a value of EspErr; what is only logged is left out. A parameter that the callers
-- never pass as NULL is not an Option.
--
-- A call of the platform may answer anything, and differently each time, unless a theorem says
-- otherwise in its hypotheses. A function of Run runs alone: other tasks come in only between runs.
--
-- The handlers are composed in Run as the code composes them, with the calls in their order; a check
-- without effects is a Boolean. Platform/Rules has a rule for each way to compose, so that a proof
-- that a handler keeps an invariant follows the handler. In System/Reach the environment may change
-- in any way between two events, and an event runs from start to end: the heartbeat task and the
-- task of the HTTP server are not interleaved inside an event.
-- The loop of read_request_body runs for as many rounds as the body has bytes, and that of
-- json_has_duplicate_keys goes 17 levels deep, one more than the brackets that the scan lets through.
-- The loop of send_complete has no bound in the code: the model takes the number of rounds to look at,
-- and says whether it has returned by then. Transport/Ends has the rounds that are enough.
--
-- Not modelled: what the HTTP server does between a request and its handler, the browser's code, the
-- embedded files, and what is only logged. cJSON, ESP-IDF, FreeRTOS, lwIP and NVS are not part of the
-- repository.
pub mod Board
pub mod Boot
pub mod Clock
pub mod Common
pub mod Config
pub mod Dns
pub mod Handler
pub mod Heartbeat
pub mod History
pub mod HistoryInfo
pub mod Http
pub mod IdStore
pub mod Json
pub mod JsonScan
pub mod Messages
pub mod Platform
pub mod Presence
pub mod Protocol
pub mod Server
pub mod Sessions
pub mod Settings
pub mod Slots
pub mod Softap
pub mod System
pub mod Takeover
pub mod Tests
pub mod TimeSync
pub mod Transport
pub mod Utf8
