-- ===== src/Lib.antt =====
-- latte_redis_server: a Redis server in C on top of the latte library. This library models its request
-- parser and input loop, its replies, its key space with times of expiry, the commands on keys, the
-- command table, the loading of modules, the start of the server, the slow log, the metrics and the
-- pool of keys to evict.
--
-- How the parts interact. The start (src/redis/server.c) makes the command table, registers the functions for
-- modules, reads the configuration (src/redis_config/config.c), loads the modules it names and makes the
-- databases. The connection library then reads bytes into a client's query buffer and calls
-- `redis_client_handle` (src/redis/client.c), whose loop parses requests, looks the command's name up
-- in the command manager (src/commands/command_manager.c) and calls the command's function. Commands
-- answer through src/redis/client_reply.c and work on a database (src/redis/db.c), which is two
-- stores of dictionaries, for the values and for the times of expiry. `SET` and `GET` are commands of a
-- module (src/modules/string.c): a dispatcher in src/redis/module.c calls them, and they call back
-- through it. When a command has ended, the slow log (src/redis/slowlog.c) is asked to keep an
-- entry, and the number of commands is raised, which a timer hands to the metrics.
--
-- The files:
--   Prelude       shared names: Boolean tests on numbers, lists, integers, bytes, decimal numbers.
--   Object        `latte_object_t`, as far as the server reads it.
--   ListApi       the list library: operations and laws, a parameter.
--   Slowlog       src/redis/slowlog.c. `slowlog_manager_push_if_needed` is `push_if_needed`; children
--                 Trim, Push and Args have the laws.
--   Command       `redis_command_t` of src/redis/command.h.
--   Client        `redis_client_t` of src/redis/client.h and the resets of src/redis/client.c.
--   Client/Multibulk, Client/Inline, Client/Process, Client/Close
--                 the rest of src/redis/client.c: `process_multibulk_buffer`,
--                 `process_inline_buffer`, `redis_process_input_buffer` and what it calls, and
--                 `free_redis_client`. Scan is an independent description of the multibulk format.
--   Reply         src/redis/client_reply.c and src/shared/shared.c: the bytes written.
--   Reply/Deferred  the list of output blocks of src/redis/client_reply.c, where a place is kept for a length:
--                 `add_reply_deferred_len`, `set_deferred_reply`, `add_reply_help`. Help is
--                 about the text that `add_reply_help` writes.
--   Dict          the dictionary library: operations and laws, a parameter; Assoc is an instance.
--   KvStore       `kv_store_t` of src/redis/db.h and its functions in src/redis/db.c; One and Single are
--                 about the store of one dictionary, which is the only one that the server makes.
--   Db            `redis_db_t` and the functions on it in src/redis/db.c.
--   Commands      `quit`, `ping` and `expire` of src/commands/command_manager.c; `set` and `get` of
--                 src/modules/string.c with the calls of src/redis/module.c. Lookup is about
--                 `redis_module_use_lookup_key`.
--   CommandManager  the table, flags and identifiers of src/commands/command_manager.c, and
--                 `redis_module_use_create_command` of src/redis/module.c.
--   Module        the functions for modules in src/redis/module.c and src/redis/redis_module.h, with the
--                 entry points of src/modules/latte.c and src/module_demo/hello.c; Module/Load has
--                 `module_load`, `init_redis_modules` and `MODULE` of src/commands/module.c. Link is about
--                 the names on both sides, Latte, Onload and Reload about loading src/modules/latte.c.
--   Server        the entries of the command table run on the client and the database it has
--                 selected, with `redis_module_command_dispatcher` of src/redis/module.c. Wire, Dispatch
--                 and Strings compose the input loop with the commands; Plain is about `PING` and `INFO`.
--   Path          `get_absolute_path` of src/redis/server.c.
--   Config        src/redis_config/config.c and the entries of modules.
--   Start         `start_redis_server` and `init_redis_server` of src/redis/server.c, the databases of
--                 src/redis/db.c, src/redis/crons.c, and `redis_client_command_end` of src/redis/client.c.
--   Evict         the pool of candidates of src/redis/evict.c: `eviction_pool_alloc` and
--                 `eviction_pool_populate`, whose round is `offer`. View is the list of candidates that a
--                 pool shows, Insert, Offer and Shift the ways to put one in.
--   Metric        src/experiment/metric.c: the ring of samples of a name, and its mean.
--
-- State and outcomes. A C function that changes a client, a store or a manager takes it and returns it.
-- A failed assertion or panic is `none`, `aborted` or `crashed`. Byte strings are lists of numbers, and
-- positions in the query buffer are numbers. Counts of machine width are taken modulo 2 to the width
-- where the source lets them wrap.
--
-- Fuel. `bulk_loop` recurses on the number of missing arguments, which every round lowers. The loop over
-- the query buffer runs on fuel and says `starved` when it is used up, which the source does not have;
-- one round more than there are requests is enough. `trim` has the list's length, `index_add` one
-- round for each dictionary and one to stop, `up_loop` of a path its length and one, and
-- `move_modules` the number of modules and one; with that fuel both end.
--
-- Parameters. Dictionaries, lists, the radix tree, `string2ll`, `sds_split_args` and the other string
-- functions belong to the latte library, which is not part of the repository. They are arguments,
-- with the laws that the proofs use as records, and the tests instantiate them.
--
-- The system calls of module loading are a parameter too, as are the access clock and the keys sampled
-- for eviction, and so are the functions of modules outside the repository.
--
-- `mstime()` is a sequence of times, one for each command: the calls that one command makes are taken to
-- return the same. Dictionaries whose keys the source compares without regard to capitals come with that
-- comparison as a parameter.
--
-- Not modelled: logging, the event loop, the sockets and asynchronous input and output; the reading of
-- a configuration file, which the library does; the allocation functions that modules may call; and
-- memory management: reference counts have no effect on what is modelled. The arguments of a module
-- are passed by the configuration as a vector where an array is meant, and no module here reads them.
-- src/redis/expire.c is a draft that does not take part in the build; nor does src/redis/evict.c, of which
-- the pool is modelled, but not the sampling of keys and the clock.
pub mod Prelude
pub mod Object
pub mod ListApi
pub mod Slowlog
pub mod Command
pub mod Client
pub mod Reply
pub mod Dict
pub mod KvStore
pub mod Db
pub mod Commands
pub mod CommandManager
pub mod Metric
pub mod Module
pub mod Server
pub mod Path
pub mod Config
pub mod Start
pub mod Evict
