-- ===== src/Lib.antt =====
-- 2fado lets a human approve the commands of an agent: the daemon decides each argv by its policy,
-- keeps what must be asked as a petition on disk, takes verdicts, and runs what is approved.
--
-- Parts, and the files that model them (source paths from the repository's root):
--   Base, Text: tests, slices, signed integers and the functions of Go's strings package.
--   Policy: go/internal/policy/policy.go. Tier, NeedsConfirm, matchRule and matchWild are functions of
--     the policy record; Policy/Rules is Load, AddRule and saveAtomic over the policy file. What
--     filepath and exec.LookPath answer on the host is the parameter `Exe`.
--   Config: go/internal/config/config.go, Load and what it is made of, over the environment and the lines
--     of the file; Config/Anchors is anchors.go, the default paths and the checks of directories.
--   Protocol: go/internal/protocol/protocol.go, the records.
--   Store: go/internal/store/store.go. The pending directory is an association list from request ids
--     to the six files of an id (Store/Files); a method takes the store and returns the new one, and
--     each write takes the fault that it meets. Store/Status is Status, Store/Listing is List,
--     Store/Recent is Recent,
--     Store/Audit is AuditQuery, Store/Offset is GetOffset, SetOffset and itoa, Store/Prune is Prune.
--   Service: go/internal/service. Service/Output is the capped writer of execbounds.go, over bytes.
--     Service/Decisions is Submit and Ack, Service/Decisions/Cancels is Cancel, and
--     Service/Decisions/Attribution is cleanBy: a handler takes what the operating system gives it
--     (Env) and the state (World: the store and the process groups that were resumed). Each store
--     call of a handler has its own fault. Service/Waiting is await and awaitSelection: a round of the
--     schedule is one turn of the loop, with what other goroutines write in it. Those writes are
--     Store/Writes, and Store/Kept and Store/Once are about what survives them. Service/Asks
--     is toggleAsk and submitAsk of ask.go.
--     Service/Host is what the operating system and Go's libraries answer the service at one moment; two
--     moments of a request have two hosts, between which anything may change. Service/Pins is
--     gitpin.go, Service/Pins/Entry is fdpin.go and resolveBinary of preview.go, Service/Pins/Seals and
--     Service/Pins/Frozen are seal.go: the pins of a petition, the checks and the frozen copies.
--     Service/Runs is ScrubEnv and the identity of a command (escalation_off.go), over a Machine: the
--     daemon's state, the groups it stopped and the commands it started. Service/Runs/Exec starts a
--     command, Service/Runs/Suspend is suspend.go, Service/Runs/Approved is runApproved,
--     Service/Runs/Requests is RunWithPeerCancel, runDetached and adoptOne, and
--     Service/Runs/Requests/Confirm is confirm. A request is one sequence of steps, whose waits are the
--     rounds of a schedule.
--     Service/Questions is AskWithCancel, Service/Notices is Notify and SendList, and Service/Lifetimes
--     the int64 lifetimes of both. Service/Pump is TelegramPump and PolicyAddRule, and Service/Adoption
--     is AdoptOrphans.
--     Service/Views is List, Recent and Status. Service/Bot is the daemon's bot, its configuration and its
--     poll, and Service/Bot/Requests is TelegramSetConfig and TelegramInfo; a poll that runs is an entry
--     of a list, and the number of it is what cancels it.
--     Service/Preview, Service/Preview/Commands and Service/Preview/Impact are preview.go: the targets of
--     a command, classifyCommand and PreviewImpact.
--   Telegram: go/internal/telegram/telegram.go, the pages of a list (Telegram/Paging), splitVerdict
--     (Telegram/Buttons) and Poll (Telegram/Poll), as the deeds of a list of turns of its loop.
--   Daemon: go/internal/daemon/daemon.go. Daemon/Framing is readRequestLine over the bytes that a peer
--     sends, Daemon/Messages the envelope and the answers of protocol.go, and Daemon is handle: a
--     connection takes the daemon's state and what the system answers it (Moment).
--   Tests: concrete runs, and each theorem at a concrete input.
--
-- A recursion in the model is structural: over a list, over the rounds of a schedule, over the lines
-- of the log that are left, over the 20 bytes of itoa's array and the 20 digits of a byte count, which
-- hold any int64 that is not negative (10 ^ 20 is above 2 ^ 63). classifyCommand calls itself on the
-- command behind sudo with the number of words of the argv as fuel, of which each call drops one.
--
-- Not modelled: what a process does besides its output, its end and its first challenge link, the
-- escalation build, the Telegram API, the start of
-- the daemon and its socket, the command line, the permissions and symbolic links of the files in the store, and the JSON encoding, whose Marshal and Unmarshal are taken to be
-- inverse. A file's contents are the value that it was written with, or nothing where it does not parse.
-- Audit lines are taken to be appended whole, and their file to be readable where it is there; a policy
-- that was saved is taken to be read back by the Load behind it. Of the ticker and the caller's channel,
-- the round of a schedule says which one a wait takes. The uid of a peer is a parameter of handle, so that
-- the fallback of peerCred is left out.
pub mod Base
pub mod Text
pub mod Policy
pub mod Config
pub mod Protocol
pub mod Store
pub mod Service
pub mod Telegram
pub mod Daemon
pub mod Tests
