-- ===== src/Lib.antt =====
-- gate-control: a server (C++, Boost.Beast) that lets a user operate gates through a browser. It
-- checks HTTP digest credentials, serves files and map images, and passes JSON messages between
-- WebSocket clients and an Arduino on a serial port. A second program edits the file of users, and
-- a third, on the Arduino, moves the gates.
--
-- The parts, and the modules that model them (paths from the root of the repository):
--
--   Base           Shared names and helpers: byte strings (`Str`, a list of codes), Boolean tests,
--                  signed numbers with the library's names, results (`Outcome`: a value, a C++
--                  exception, or undefined behaviour).
--   AuthTable      src/auth_table.hpp. `Types`: the permissions, the users, the table (an
--                  association list, of which the first entry of a login counts). `Split`:
--                  `split_str` and `join_vector`. `Stoi`: `std::stoi`, with its range. `File`:
--                  `open_auth_table_from_file` and `save_auth_table_to_file` on the contents of
--                  the file.
--   Auth.Endpoint  src/auth.hpp, src/auth.cpp: `endpoint_map` and `get_endpoint_permissions`.
--   Auth.Fields    src/auth.hpp: the regular expression over the fields of a header, written out
--                  as a search for its leftmost match, and the iterator over the matches.
--   Auth.Digest    src/auth.hpp, src/auth.cpp: `digest_auth` with `set_field`, `is_valid` and
--                  `check_password`, `parse_digest_auth_field`, `get_auth`, and the challenge of
--                  `generate_digest_response`.
--   Json           What the program uses of nlohmann::json, as a record of operations (`JsonLib`)
--                  and a record of their documented laws (`JsonLaws`).
--   Message        src/json_message.cpp: the messages of the clients and of the Arduino.
--   Config         src/config.hpp: the file of maps, and the maps that a user is shown.
--   Http           src/http_session.cpp: `Target` has the tests on targets, `path_cat` and
--                  `mime_type`, `Response` the responses, `Handler` the whole of `handle_request`,
--                  which calls Auth.Endpoint, Auth.Digest and Config in the order of the code.
--   Http.Session   src/http_session.hpp, src/http_session.cpp: the queue of responses and the
--                  semaphore of a connection, with its steps; `Upgrade` is the branch of `on_read`
--                  that makes a WebSocket session.
--   Http.Listener  src/http_listener.cpp: the table of the nonces of the addresses.
--   Messenger      src/arduino_messenger.cpp: the queues to and from the serial port, and the loops
--                  that read and write.
--   Socket         src/websocket_session.cpp: a client's session. The handlers that are pending
--                  keep it alive.
--   Bridge         src/common_state.cpp: `update` and `add_session` on the store of all sessions
--                  and the list of pointers into it. `Steps` is the step relation of sessions,
--                  messenger and shared state: each handler that returns is one step, in any order.
--   Console        src/console_prettifier.hpp: the control sequences of the terminal.
--   Configurator   src/configurator.cpp: the edits of the table; `Menu` has the menus, on the lines
--                  that are typed and the files that there are, `Printing` the print of the table.
--   Startup        src/main.cpp: the arguments and the files up to the start of the server.
--   Firmware       src/arduino_program/gate_control/gate_control.ino, the program of the Arduino.
--                  `Float`: the sums of single-precision floats, exact and rounded. `Gate`: the
--                  class of that name, with its position, the diagram of its states and its way.
--                  `Library`: what the sketch uses of ArduinoJson, and `powf`, as parameters.
--                  `Sketch`: the messages, the loop, and the runs of the board.
--   System         The server and the board together, through the texts between them: `Command`
--                  from a client's message to the gate, `Report` from the board's answer to the
--                  clients.
--   Tests          Runs at concrete inputs, with a toy JSON library that meets the laws.
--
-- Parameters. The hash of `sha256_hash` and `to_hex` (CryptoPP) is a function `H` on strings; the
-- random nonce that `unauthorized_response` draws is an argument `fresh`; opening a file is a
-- function from paths to `Opened`, or to what the file holds; a Boost.Beast request is the record
-- of the parts that the source reads (method, target, version, keep-alive, upgrade, the
-- Authorization field); the parser of IPv4 addresses is a function to an arbitrary type. Whether the server is built
-- with MSVC, on which `path_cat` depends, is a field of `Server`. A bool
-- argument of a file function says whether its stream opened. What a read or a write of a socket
-- or of the serial port ends with is an argument of the handler that it calls. ArduinoJson and
-- `powf` are the record `Library`; that the two JSON libraries read what the other writes is in the
-- records `Wire` and `BackWire` of System.
--
-- Fuel. `get_endpoint_permissions` recurses on the path with the length of the path plus one as
-- fuel, the regular-expression iterator on the text with its length plus one, and the loop of
-- `split_str` on the text itself; the parent of a path and the rest behind a match are shorter, so
-- the fuel is never used up. The prompts of the configurator recurse on the lines that are typed,
-- which are the whole input, and give none where the code repeats for ever a read that fails, at
-- the end of the input or of a text that is no number; its menus have as fuel the bytes that are
-- left to read and one, which is never used up, since each pass reads; the loop behind an invalid
-- choice has the lines, of which each pass takes one. The exponent of a float is found by halving,
-- with the number of the exponents of single precision as fuel: no finite float has more.
--
-- Bounds. `std::stoi` raises out of the range of a 32-bit int, and the conversion to unsigned of a
-- negative permission wraps modulo 2 ^ 32; a port is cast modulo 2 ^ 16. Characters are their
-- codes; `std::tolower` and `std::isspace` are those of the C locale.
--
-- Concurrency. The steps of Bridge and of Http.Session are whole handlers, in every order; the
-- accesses of several threads to one queue without its lock are not modelled. A handler whose
-- exception leaves it, or that blocks for ever, is a result of its own.
--
-- Not modelled: sockets, timers and threads of Boost.Asio, the options of the serial port, the
-- prompts of the configurator, the delays of the firmware, and the pages of the browser. The helpers
-- over CryptoPP are parameters.
mod Base
pub mod AuthTable
pub mod Auth
pub mod Json
pub mod Message
pub mod Config
pub mod Http
pub mod Messenger
pub mod Socket
pub mod Bridge
pub mod Console
pub mod Configurator
pub mod Startup
pub mod Firmware
pub mod System
mod Tests
