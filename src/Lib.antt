-- ===== src/Lib.antt =====
-- Verification of Moonlight Embedded, a client for NVIDIA GameStream and Sunshine hosts. The
-- paths are below moonlight-embedded-master/.
--
-- The program pairs with a host, asks for its state and its applications, starts one and streams
-- it; libgamestream/ speaks the host's protocol (XML answers over HTTP), src/ reads the options
-- and turns the events of input devices into calls of moonlight-common-c.
--
-- The files:
--
--   Base           shared names, Boolean tests, lists, counts, bits of masks, C's int as an
--                  integer, C strings
--   Config         src/config.c: Options (get_path, parse_argument), Files (config_file_parse,
--                  config_save, config_parse), Defaults (what config_parse fills in at its end)
--   Gamestream     libgamestream: Errors (errors.h), Http (http.c), Xml (xml.c), Hex (the
--                  conversions of client.c), Client (client.c)
--   Gamestream.Client
--                  the server, the session and the host's side as parameters; Requests (what the
--                  requests share), ServerInfo (load_server_status), Pairing (gs_pair, gs_unpair),
--                  Apps (gs_applist, gs_start_app, gs_quit_app), KeyFiles
--                  (mkdirtree, load_unique_id, load_cert, gs_init)
--   Loop           src/loop.c: the table of descriptors
--   Input          src/input: Axis and TouchSlot (touch_utils.c), Contacts and Touchpad (the
--                  touchpad mode of evdev.c), Direct (its direct mode), Axes (the ranges of
--                  gamepads' axes), Players (the numbers of gamepads), Mapping (mapping.h, mapping.c and the
--                  mapping that evdev.c generates), Keyboard (its keys), Rumble (evdev_rumble),
--                  Devices (evdev_create), TouchSettings (evdev_configure_touch_from_env),
--                  Gamepad (evdev_handle_event on a gamepad, send_controller_arrival),
--                  Limelight (the calls of moonlight-common-c)
--
-- The functions keep the names of the source; a part of a long function has a name of its own,
-- with a comment that says which. In client.c `goto cleanup` is an exit from a monad over the
-- session: the server's record, gs_error, the static ids, the addresses asked so far and the
-- number of random draws. What is not in the repository is a record of functions, Host: curl (as
-- a function of the addresses asked so far, so that a host can answer each time differently),
-- expat (as the events of a document), OpenSSL, uuid and random numbers. The bytes that a fresh
-- buffer holds are a parameter too.
--
-- The loop of pair_request_wait_paired runs on fuel, 61 rounds for its 60 seconds. Configuration
-- files that name each other by `config` are read on fuel, and end as too_deep, where the
-- program overruns its stack. All else is structural recursion. Numbers of C's int are exact
-- integers, but where they can wrap in use (the time between two events, the pixels of a
-- picture) they are cut to 32 bits: the sums of the touchpad stay below 2 * 4095, the hosts'
-- numbers are read as they stand, and the positions of axes are below 2 ^ 23. An allocation does
-- not fail. `float` is a parameter with its operations.
--
-- Not modelled: the loop over poll in loop.c, the buttons and the relative motion of a mouse or
-- of a touchpad's device (EV_KEY of BTN_LEFT and the like, EV_REL), the axes ABS_HAT3X and
-- ABS_HAT3Y, for which the program has no room, the thread that moves the emulated mouse, the
-- dialogue of evdev_map, the drivers of audio and video, terminal output, platform choice,
-- discovery, and the copies of other libraries under third_party.
pub mod Base
pub mod Config
pub mod Gamestream
pub mod Input
pub mod Loop
