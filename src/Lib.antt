-- ===== src/Lib.antt =====
-- A verification library for Net64: the multiplayer client and server for Super Mario 64 in
-- src/net64, and what they stand on in src/common. Paths are from the root of the repository.
--
-- The parts and how they interact. A server (src/net64/server.cpp) and its clients
-- (src/net64/client.cpp) exchange messages over ENet. The server gives each connection a key and
-- each player that introduces itself an id, both from id managers (src/common/id_manager.hpp). A
-- client hooks into a running game: it reads and writes the emulated RAM through the emulator
-- (src/net64/emulator/m64plus.cpp) and memory handles (src/net64/memory/memory_handle.hpp), and
-- takes messages from the game out of a queue that lies in this RAM
-- (src/net64/client/msg_queue.cpp).
--
-- The files and the code they model. Each file begins with the code it is about; below each component
-- stand its theorems, by what they prove, and its runs in Tests.
--   Prelude       the names, tests and list lemmas that all share
--   IdManager     src/common/id_manager.hpp: IdManager (acquire_id, return_id) and IdHandle
--   Emulator      src/net64/emulator. Of m64plus.cpp: Memory (read and write of each width, f32 and
--                 f64, read_memory and write_memory, with the errors of m64plus_error.hpp as values),
--                 Lifecycle, Plugins, Preparation (what is set before a ROM is loaded), Settings (sound
--                 and screen), Controllers, Analog (dead zone and peak of the stick), Inputs (the parser
--                 of the bindings) and Bindings (their printer). Of m64plus_config.cpp: CoreConfig. Of
--                 m64plus_core.cpp and m64plus_plugin.cpp: Core
--   Text          what the code uses of std::string, std::to_string, std::stoi and std::stoul
--   MemHandle     src/net64/memory/memory_handle.hpp: the typed accesses, aligned and moving
--   MsgQueue      src/net64/client/msg_queue.cpp: Receiver::poll, Sender::send, the polling loop
--   Net           src/net64/net: messages, codes and the protocol's version
--   Server        src/net64/server.cpp, server/player.cpp, player_manager.cpp, chat_server.cpp: the
--                 state of the server, one function per handler, `tick` over a list of events
--   Client        src/net64/client.cpp and src/net64/client: the state of the client, its calls,
--                 Handlers (the components), GameLogger, Ticking (`tick` and `try_hook`)
--   Messages      src/common/automatic_factory.hpp, message_interface.hpp and double_dispatch.hpp, at
--                 the network messages: factory, packets and dispatch
--   Session       the server and a client together: what the client at a peer keeps of the messages that
--                 the server sends to it
--   AppSettings   src/qt_gui/app_settings.cpp: load and save, over a JSON library that is a parameter
--   EventHandlers src/common/sdl_event_handler.cpp: the linked list of handlers
--
-- The composition. In Session the messages that the server asks ENet to send to a peer are handled
-- by the client in their order, since all of them go over one reliable channel, and only while the
-- peer is connected: not once ENet has reported the end of the connection or the server has asked for
-- it. Their byte format is left out there.
--
-- State and effects. A stateful operation takes the state and returns the new one beside its result.
-- Calls that leave the program (ENet's, the callbacks) are appended to a list of effects in their
-- order. An exception is a value, and so is undefined behaviour where the code can meet it.
--
-- Parameters. ENet, cereal, Mem64 and the emulator's core are not part of the repository. ENet's
-- events are inputs, and it is assumed to report connections only of peers that are not connected.
-- The parser of packets is an argument that may fail on any bytes. Mem64's reads of the game's
-- header, of the positions of its queues and of its versions are arguments that may throw, and so are
-- the functions of the core and of its plugins, whose calls are
-- recorded; the settings stand on an interface for the configuration, which CoreConfig implements.
-- The core's pointer to the RAM is an optional function from offsets to bytes.
--
-- Integers are natural numbers with the wrap-around of their width written out: u8 in the queue, u16
-- for player ids, u32 for addresses, 64 bits for keys. The polling loop and read_memory run on fuel:
-- the queue is polled with one unit more than it has slots, which is shown to be enough for a valid
-- queue.
--
-- Not modelled: the widgets of the user interface (src/qt_gui), logging, the loading of shared
-- libraries, the list of parameters of the core's configuration, the byte format of packets, the
-- texts of the error categories, destructors other than those that give ids back, that of an event
-- handler and those of the core and of a plugin.
pub mod Prelude
pub mod IdManager
pub mod Emulator
pub mod MemHandle
pub mod MsgQueue
pub mod Net
pub mod Server
pub mod Session
pub mod Messages
pub mod AppSettings
pub mod EventHandlers
pub mod Client
pub mod Text
