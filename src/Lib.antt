-- ===== src/Lib.antt =====
-- FindFriendBot is a Tox bot: users register with an id (`/start`), write a signature (`/set`), and
-- ask for other members who are online (`/get`). This library models the program's own code and
-- proves what its parts do.
--
-- The parts, from the bottom up, with the file of the repository that each module is about:
--
-- - Lock: src/Lock.h, which implementation the preprocessor picks, and `mutex_lock`. Lock.Word is
--   the reference count, in steps that threads make in any order; Lock.Scoped,
--   Lock.Spin and Lock.ReadWrite are `auto_lock`, `spin_lock` and `rw_lock`.
-- - LockedQueue: src/LockedQueue.h, `lock_queue`, a pool of heap objects behind a lock. A pointer is
--   a number and the heap a function, so a null or dangling pointer is a fault of the run.
--   LockedQueue.Threads has the same functions in steps of interleaved threads,
--   LockedQueue.Container is `lock_container`, and LockedQueue.Keyed the specialization of
--   `lock_queue` for `std::list`. A macro that nothing defines hides this one, and its `free_size`,
--   a const member that locks, would not compile: it is modelled as its text says.
-- - Member, MemberMgr: src/Member.h, src/Member.cpp, src/MemberMgr.h, src/MemberMgr.cpp. The members
--   who are online by public key (a `std::map`, here Map: a sorted list), with objects of the pool.
--   MemberMgr.Shown is the quotient of the managers by what a client can see of them, MemberMgr.Maps
--   its equivalence with finite maps.
-- - Sql, DbConn, MemberModel: src/DBConn.h, src/DBConn.cpp, src/MemberModel.h, src/MemberModel.cpp.
--   The pool of connections and the six queries. MySQL Connector/C++ is the parameter `Sql`;
--   Sql.Healthy says what the program relies on where the database is up. `fits` has the widths of
--   doc/mysql/db_tok.sql: what does not fit is not known to be stored, and theorems about rows say so.
-- - Conf: src/Conf.h, src/Conf.cpp, the settings, with Conf.Getters.
-- - Toolkit, World, Util: the other libraries as parameters (toxcore, Boost, libsodium), the state
--   of the process, and src/Util.cpp.
-- - Assisant: src/Assisant.cpp. Parser is `parse_msg`, Commands is `process_cmd` with every `cmd_…`
--   function, Files is `get_data`, `update_savedata_file` and the avatar, Callbacks is what toxcore
--   calls. The other modules below it hold the theorems. Assisant.Directory and Assisant.Events are
--   an abstract view: the members online as a map from keys to values, and what each command and
--   each callback does to this map. Assisant.Replies is the same for what a message is answered
--   with. Assisant.Records is the same for the table of the database, Assisant.Agreement says how
--   the two go together, and Assisant.Persistence what is left when a user has been offline.
--   Assisant.Outage is about a database that is gone.
-- - Logger, Bot, Main: src/Logger.h, src/Logger.cpp, src/Bot.cpp and src/main.cpp. What the sinks of
--   the log are given, the start of the process, and `main` as a whole. Assisant.Running runs the
--   callbacks, Bot.Startup the start with them, Bot.Durability is about a process that is killed and
--   started again, Bot.Lifetime has the states that the process can get into, Main.Entry all of it
--   from the command line on. Bot.Log is what `print_debug_log` and `print_tox_id` hand to the
--   logger.
-- - Base holds what these share: lists and tests over the native numbers, texts as lists of bytes,
--   and runs that end in a value or in a fault (`Cmd`, `Run`, `Returns`). Fixtures and Tests run the
--   theorems at concrete inputs.
--
-- How they work together: toxcore calls a callback; it finds the friend's public key, asks the
-- member model for a row or changes it, and keeps the object of the member manager in step. A
-- callback is a command over the state of the process (`World`) which ends in a new state or in a
-- fault: a null pointer, a dangling pointer, memory that was never set, an index out of range, a
-- lock that nobody gives back, an exception that nobody catches. `Returns P` says that a run ends
-- without a fault and that `P` holds of the result. What C++ leaves undefined is a fault too.
--
-- Machine integers: sizes of `parse_msg` and of the chunks wrap at 2^64, the timer's interval and
-- the number of members at 2^32, the reference count at the width of its type. No loop of the
-- program needs fuel: each runs over a list. The timer has no bound of its own, and its theorems
-- give one. Printing a number of 32 bits has fuel for its ten digits, and a theorem that reads the
-- number back. The bot itself has one thread, so its functions are modelled whole; the threads of
-- Lock.Word and LockedQueue.Threads are those that the two headers are written for, in any number
-- and order, over memory that shows each store at once.
--
-- What is not modelled: `_Atomic_swap`, which nothing uses; a `new` or `malloc` that fails; a name
-- or a status message that toxcore hands over without a NUL behind it; the text of what is logged;
-- the pause of the loop of `main`. Of the log calls only those that read through a pointer are
-- modelled, since they can fault: the name and the status of the user in `cmd_start`, the public
-- key in `friend_request_cb`, the file name in `file_recv_cb`. They do so only where the filter of
-- the log lets `debug` through, as conf/config.ini does; theorems that say that no callback faults
-- ask for a filter above it.
pub mod Base
pub mod Map
pub mod Lock
pub mod LockedQueue
pub mod Member
pub mod MemberMgr
pub mod Sql
pub mod DbConn
pub mod MemberModel
pub mod Conf
pub mod Toolkit
pub mod World
pub mod Util
pub mod Assisant
pub mod Logger
pub mod Bot
pub mod Main
pub mod Fixtures
pub mod Tests
