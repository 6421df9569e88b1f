-- ===== src/Lib.antt =====
-- RiftLift, a launcher for Rift games on any PC VR headset, and the Oculus API bridges that the
-- games run on.
--
-- The launcher signs in, keeps a library of games and downloads them; `riftlift-runtime` sets up
-- and starts one game; the bridges under runtime/ turn the game's Oculus calls into OpenVR or
-- OpenXR ones. The modules follow these parts:
--
--   Names     the checks of ids, slugs and account keys (src/common/json.h, src/common/rift/game.cpp,
--             src/common/meta/accounts.cpp);
--   Download  the download queue (src/common/download/manager.h and manager.cpp). `Manager` is the
--             class's state, with the file downloads.json and the game folders' files in it; each
--             request is a function from state to state, and so is each critical section of a worker
--             thread (`claim`, `progress`, `finish`, `release`). `Steps` lets them follow one another
--             in any order, which is how the mutex serialises the threads;
--   Haptics   the two haptics sample buffers (runtime/windows-openxr/HapticsBuffer.cpp and
--             runtime/windows-openvr/HapticsBuffer.cpp);
--   Rules     the launch decisions of src/runtime/rules.cpp: texts, DLL overrides, mod loaders, the
--             environment, the variables of Steam's container, the XR backend, engine
--             arguments and shell-like splitting. The rounds that remove "%command%" from a
--             line have the line's length as their bound;
--   Steam     Steam's shortcuts.vdf (src/common/steam_library.cpp): its binary reader and writer,
--             `sync` and `listed`; the pictures and the paths in config/grid are parameters. The reader has the number of the file's bytes and one more as its
--             fuel, and the search for an index key the number of the keys and one more;
--   Channel   the channel between launcher and runtime (src/common/ipc.h and ipc.cpp): its framed
--             messages and the loop that answers them, with the JSON library as a parameter;
--   Options   the runtime's command line (src/runtime/options.h and options.cpp) and the launcher's
--             side of it (src/launcher/core.cpp, src/common/platform/posix/process.cpp); a number is
--             printed with the number and one more as the bound of its digits;
--   Playtime  the session that counts the time a game is played (src/common/playtime.cpp); the arithmetic
--             of `double` is a parameter;
--   Build     the manifests of builds (src/common/meta/store.h and store.cpp) and the names of files
--             (src/common/paths.cpp);
--   Install   `Manager::install` of the download queue: the files and segments that a build needs, the
--             free space, the attempts for a segment, its threads that fetch segments, as a step
--             relation, and the assembly of the files. SHA-256, the answers of the store, the callback
--             for a finished install, stops, and failing writes and removals are parameters;
--   Accounts  the account vault (src/common/meta/accounts.h and accounts.cpp) and the slots of its
--             sessions (src/common/secret_store.h, src/common/platform/posix/secret_store.cpp). A
--             request is an action on the vault that may throw; what the keyring and the disk do, the
--             time and the random bytes are its environment. The lock keeps requests apart, so that
--             they follow one another, with changes from outside in between. The search for a free
--             key has the number of the keys and folders and one more as its fuel;
--   Diagnosis which log lines report a failure, and the cause of a failed launch
--             (src/launcher/diagnosis.h and diagnosis.cpp); the regular expression is a parameter;
--   Update    updating the launcher (src/launcher/updater.h and updater.cpp) and the hosts of its
--             releases (src/common/http/client.cpp); the network, the digest and what the disk
--             refuses are parameters;
--   Search    the words of titles and queries, and which titles match (src/common/search.cpp); the
--             loop over the text counts the bytes of a sequence that it has still to pass over;
--   Exec      actions on a state that may throw, which keep what was written before;
--   Common    shared helpers, among them texts as lists of bytes and calls that may throw.
--
-- Conventions. A C++ string is the list of its bytes, a file path is its text, and an exception is a
-- result that carries the message. Machine integers are natural numbers with their wrap-around
-- written out where the code relies on it; the counters of the queue are taken not to overflow.
-- The file system's part in the queue (`Download.Manager.Platform`) and `float` are parameters.
-- A loop over `uint8_t` indices has 256 rounds as its bound, which reaches every index from every
-- other; the other bounds are given above, and all other loops are recursions over the list or text
-- that they read.
--
-- Not modelled: the windows and their drawing, sockets and TLS, JSON text, processes, Direct3D,
-- Vulkan, OpenVR and OpenXR calls, which are calls of other libraries; the sign-in, the queries of the
-- store and the game library.
mod Common
pub mod Exec
pub mod Names
pub mod Download
pub mod Haptics
pub mod Rules
pub mod Steam
pub mod Channel
pub mod Diagnosis
pub mod Options
pub mod Playtime
pub mod Accounts
pub mod Build
pub mod Install
pub mod Update
pub mod Search
