-- ===== src/Lib.antt =====
-- cmon watches the files of a project, restarts its program when they change, and has an HTTP proxy
-- that is meant to reload pages. This library models the configuration file and what it is read into,
-- the strings, arrays and buffers below it, HTTP headers and messages, the proxy with its sockets,
-- paths, the directories that are watched, how the processes of the program are found, ended and
-- started, the way from `main` to its loop, and the log.
--
-- How the parts interact: `main` (src/main.c) starts the parts in turn and waits; `config_init`
-- (src/lib/config/config.c) opens the configuration file, lets `config_tokenizer`
-- (src/lib/parser/tokenizer.c) cut it into tokens, and `config_parser` sorts the values of its
-- blocks into three arrays of strings; the proxy (src/cmon_proxy) connects to the server, receives
-- messages from one side and sends them to the other, and finds the end and the fields of headers
-- with `c_u_str_find_pattern` (src/utils/c_utils_str.c). When a file changes
-- (src/lib/inotify/inotify.c), its path is made (src/lib/utils/cmon_path.c), the processes of the
-- program are read from `pstree` into an array (src/lib/ps_tree/ps_tree.c), and each gets a signal
-- (src/lib/process/process.c).
--
-- The files:
--   Base: names and lemmas that all share. Base/Outcome has `Run`, what a piece of code does: it
--     returns, ends the process, or has undefined behaviour (`fault`). Base/Int has the results.
--   Text: src/utils/c_utils_str.c, src/lib/utils/text_utils.c, src/lib/utils/cmon_str_utils.c. The
--     functions keep their names, without the prefix: `find_pattern` is `c_u_str_find_pattern`.
--     Text/Search is about its answer, Text/Overrun about texts
--     shorter than the pattern; Text/Decimal is what "%d" prints.
--   Str: src/utils/c_utils_string.c. Str/CStr says what a NUL-terminated text is, Str/Concat,
--     Str/Compare what the operations do with it; Str/Alloc is the `malloc` that they call.
--   Str/Array: src/lib/utils/cmon_string_array.c, with Str/Array/Items and Str/Array/Find.
--   Token: src/lib/parser/tokenizer.c. Token/Grammar is the language of configuration files,
--     Token/Scan relates it to `config_tokenizer`, by Token/Array, Token/Word and Token/Lines.
--     Token/Old is the first version, `cmon_tokenizer`.
--   Config: src/lib/config/config.c. Config/Blocks is the meaning of a configuration, Config/Values
--     and Config/Parse relate it to `config_parser`, Config/File is about whole files, Config/Crash
--     about a file that is cut off. Config/Open is `config_open_file` and `config_init`, with
--     Config/Open/Files for the C library's files, Config/Open/Default for the default text and
--     Config/Open/Runs for two starts; Config/Open/Commands and Config/Kept say which command a
--     configuration keeps. Config/Old is `cmon_parse_config`, Config/Command is
--     `cmon_parse_argv`.
--   Mem: a heap of blocks, and `c_u_str_copy_n`; Mem/Copy says what a copy leaves there.
--   Buffer: src/utils/c_utils_buffer.c over that heap.
--     Buffer/Slide is the loop that makes room, Buffer/Insert, Buffer/Shift, Buffer/Grow and
--     Buffer/Empty the calls.
--   Integers: src/utils/c_int_array.c, with Integers/Items.
--   Http: header fields of src/cmon_proxy/cmon_http.c, with Http/Field and Http/Length; Http/View and
--     Http/Buffered the fields of a buffer; Http/Message the messages, with Http/Message/Receive,
--     Http/Message/Whole and Http/Message/Body; Http/Peek the headers that are peeked at, with Http/Peek/Header; Http/Delim is
--     what both ways of finding the end of a header share.
--   Sockets: src/cmon_proxy/cmon_sockets.c, with Sockets/Connect.
--   Proxy: src/cmon_proxy/cmon_proxy.c. Proxy/Relay is `c_proxy_send_message`, with
--     Proxy/Relay/Bodyless and Proxy/Relay/Overflow; Proxy/Client is `c_proxy_handle_client`, with
--     Proxy/Client/Conversation and Proxy/Client/Closed; Proxy/Manager is
--     `c_proxy_communication_manager`, with Proxy/Manager/Runs; Proxy/Start is `c_proxy_start` and
--     the first step of its threads, with Proxy/Start/Race.
--   Paths: src/lib/utils/cmon_path.c. Paths/Dot and Paths/Extension are about `cmon_path_new`,
--     Paths/Full is `cmon_path_new_full_path`, Paths/Unended its first call.
--   PsTree: src/lib/ps_tree/ps_tree.c, with PsTree/Numbers and PsTree/Pids; PsTree/Exec is
--     `ps_tree_exec`, with PsTree/Exec/Digits, and `ps_tree_get_pid_arr`.
--   Processes: src/lib/process/process.c, with Processes/Kill; Processes/Start is
--     `process_start_child`, with Processes/Start/Command.
--   Watching: `ino_procees_events` of src/lib/inotify/inotify.c, with Watching/Events and
--     Watching/Restart; Watching/Dirs is `ino_recursive_dir_add`, over a tree of directories, with
--     Watching/Visits and Watching/Dangling. An array that a call frees while its caller holds it is
--     `freed`.
--   Main: src/main.c and `ino_init`, with Main/Setup for the way to its loop and Main/Loop.
--   Logger: src/logger/logger.c, with Logger/Lines. Errors: src/lib/utils/cmon_errors.c, with
--     Errors/Once. Release: the functions that free, of several files, with Release/Blocks.
--
-- State: a `char *` that is only read is the list of the bytes of its object from there on, NULL is
-- `none`. A struct is a record; a function that changes one returns the new one. `size_t` wraps round
-- at 2 ^ 64. Loops are structural recursion on the bytes, or on the number of rounds left: that number
-- is the bound that the C loop tests, and `recv_header` has one more round than the bytes that fit,
-- since each round reads at least one. `malloc` is a parameter that may fail, and on the heap a list of
-- answers; the socket calls, the files and the working directory are parameters. The threads of the
-- proxy and its loop take their steps in the order of a list, which may be any. The loops of the proxy
-- that C does not bound take a number of rounds, and say so where they still run after these.
--
-- Not modelled: the functions that only print, `c_proxy_injection_manager_add`, which does nothing,
-- and `_c_proxy_might_inject`, which nothing calls. Calls of `free` are left out where nothing is read
-- of the block afterwards; the functions that free have a model of their own.
-- The other parts leave out their calls of the log and of the error messages, which have models of
-- their own. The calls of the operating system are parameters.
pub mod Base
pub mod Text
pub mod Mem
pub mod Buffer
pub mod Str
pub mod Token
pub mod Config
pub mod Http
pub mod Integers
pub mod Sockets
pub mod Proxy
pub mod Processes
pub mod PsTree
pub mod Paths
pub mod Watching
pub mod Main
pub mod Logger
pub mod Errors
pub mod Release
