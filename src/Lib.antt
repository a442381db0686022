-- ===== src/Lib.antt =====
-- The TinDox server: clients keep a TCP connection to it and exchange requests and answers of a text
-- protocol, by which they log in, walk through the directories below the server's root, change them,
-- and send and fetch files.
--
-- How the parts work together. The bytes of a client go to its interpreter (`ProtocolInterpreter`),
-- which collects lines until an empty line ends a request, and parses each field of the request
-- (`field_from_string`). The executor (`CommandExecutor`) finds the command of the request's name,
-- checks that the client may run it, and runs it: a command parses its fields and then acts on the
-- contexts of the client and of the server and on the disk. What it answers, or the error it threw,
-- becomes a response in the client's sender, which writes it to the socket as the kernel lets it.
-- Users with their hashed passwords and permissions come from a table that is kept in a TOML file,
-- which `tds user` changes. The terminal client (`TDPService`) writes requests, exchanges each for its
-- answer over one connection, and reads the code and the body from the answer.
--
-- Which file models what, with paths from the repository's root:
--   Prelude and below      what the modules share: lists, byte strings, exceptions, decimals
--   Protocol/Error         server/src/protocol/protocol_error.cpp
--   Protocol/Field         server/src/protocol/field.cpp
--   Protocol/Interpreter   server/src/protocol/protocol_interpreter.cpp and request.cpp
--   Protocol/Response      server/src/protocol/response.cpp and response_builder.cpp
--   Protocol/Socket        server/src/protocol/sender.cpp and receiver.cpp
--   Protocol/Download      server/src/protocol/download_manager.cpp, linux/transfer_bytes.cpp
--   User/Permissions       server/src/user/permissions.cpp and its header
--   User/Hash              server/src/linux/hash.cpp
--   User/Table             server/src/user/user_table.cpp; User/Table/Directory: the table as a function
--                          from names to accounts
--   Paths                  `std::filesystem::path` on POSIX, as far as the server uses it
--   System                 what the operating system and the libraries answer, as parameters
--   Session/State          client_context.hpp, server_context.hpp and the tokens: the state
--   Session/Context        client_context.cpp, server_context.cpp, path_lock.cpp and *_token.cpp
--   Session/Arguments      server/src/protocol/execution/path_based_command.cpp and the parsers of
--                          fields that several commands have
--   Session/Commands       server/src/protocol/execution: the commands
--   Session/Executor       command_executor.hpp, and `Client::execute_command` of client.cpp
--   Session/Upload         server/src/protocol/upload_manager.cpp
--   Session/Connection     server/src/server/client.cpp: what a connection keeps, and a monad that keeps
--                          what was changed before an exception
--   Session/Client         client.cpp: the input; Session/Client/Events: its events, the pending input
--                          and the output
--   Session/Closing        client.cpp and client_context.cpp: the destructors
--   Session/Owned          who owns the sessions that are alive
--   Service                server/src/server: client_pool.cpp, client_service.cpp,
--                          client_service_supervisor.cpp and server.cpp, as steps of one state
--   Service/Main           server.cpp from its set-up to its end, with ip/tcp_listener.cpp and
--                          linux/signal_device.cpp
--   Config                 server/src/config: config_reader.cpp, server_config.cpp, defaults.cpp
--   Cli/User               server/src/cli/user_command.cpp and user_commands: `tds user`
--   Cli/Run                server/src/cli/run_command.cpp: the arguments of `tds run`
--   Terminal/Connection    cli/src/tdpservice/connection.cpp: the exchange, with a download's file
--   Terminal/Transfer      connection.cpp: the upload
--   Terminal/Analyzer      cli/src/tdpservice/responseanalyzer.cpp
--   Terminal/Service       cli/src/tdpservice/tdpservice.cpp
--   Terminal/Conversation  the two together with the server's answers
--   Terminal/Storage       tdpservice.cpp: `dl` and `ul` as a whole
--   Terminal/Files         cli/src/tui/tui.cpp: the list of files, the name of the user, and going to
--                          another directory
-- The children of a module prove what it does; modules called Tests hold runs and examples.
--
-- How state is modelled. A text is the list of its bytes. The interpreter and the sender are records
-- that their operations take and give back; an operation that may throw gives the state it has
-- reached together with the value or the error. A command runs on a `World`: the disk, the server's
-- context and the context of its client. Tokens and locks are objects of a store, found by identity;
-- a `shared_ptr` has one owner at a time, so an object leaves the store when its owner lets go, and a
-- `weak_ptr` has expired when its object is gone. Reading through a null pointer is an error of its
-- own. The 7 bits of the counter of failed attempts and the 64 bits of an upload's offset wrap.
--
-- A server is the disk, its context, and a pool of connections by the descriptors of their sockets;
-- each connection has its own context, and a command of it runs on the world that has that context in
-- it. The steps of the server are a new connection, an event on a socket, and a stop, in any order. Its
-- main loop is a function of what each wait for events brings, and of what the services have handled
-- before each event. The loops of the terminal client are functions of what the socket answers too;
-- where the answers end before the loop does, it waits.
--
-- Bounds and fuel. The loop of `commit_bytes` takes at least one byte a round, and its fuel is the
-- number of bytes. The rounds of `handle_input` take input or change the mode, and two for each byte
-- and two more are enough. The loop of cp over copy numbers has no bound in the source; its fuel is a
-- parameter, and where it is spent the command gives `running`, which is no exception of the
-- source: the program would still be in that loop, and the model ends the connection there.
-- Everything else recurs on its data.
--
-- Not modelled: what two threads of the server do at once inside its context (an event of a client
-- is one step; the mutexes keep the calls of the context apart), the threads themselves, logging,
-- `tds init`, which writes two files, help and version, the wrappers that are one system call each, how the terminal client connects, its windows
-- and the actions that they start, and the clients for desktop and mobile. Paths, names and rows of the
-- terminal client that have no word in them are taken to stay as they are, where the source takes the
-- last character off an empty string. The prompts of `tds user` are their input alone. Of
-- `std::filesystem` the status queries are taken to answer rather than to throw.
mod Prelude
pub mod Protocol
pub mod User
pub mod Paths
pub mod System
pub mod Session
pub mod Service
pub mod Terminal
pub mod Cli
pub mod Config
