-- ===== src/Lib.antt =====
-- maw-js: routing, trust, consent, pairing and message access between nodes of a federation.
--
-- The program moves messages between "oracles" on several nodes. This library models the part of it that
-- decides where a message goes and who may talk to whom. Strings are lists of UTF-16 code units
-- (Prelude/Strings), numbers are the native natural numbers, dates are the milliseconds that they stand for, and a file is its parsed value
-- or a mark that it does not parse. Clocks, random bytes and what comes over the network are arguments.
-- SHA-256, HMAC, Date.parse and localeCompare are parameters of the definitions that use them.
--
-- Parts, their files here, and the sources they model (paths from the repository's root):
--   PairCodes    src/lib/pair-codes.ts: one-time codes; `lookup`, `consume`, `register` over a dictionary.
--   Disk         the values of trust.json and of the pending files, which two stores share.
--   Consent      src/core/consent and src/api/consent.ts. Consent/Store is store.ts, Consent/Request is
--                request.ts and pin.ts, Consent/Api is the HTTP handlers, Consent/Gate is gate.ts and
--                gate-plugin-install.ts. A gated send writes a request here, posts it to the peer (Api),
--                where the operator approves it with the PIN (Request), which writes a trust entry (Store).
--   TrustFiles   src/lib/trust-store.ts: the pairwise list, in the same trust.json.
--   Auth         src/lib/federation-auth.ts. Auth/Middleware is the fleet token (`sign`, `verify`,
--                `federationAuth`), Auth/FromSign the per-peer signature (`signHeadersV3`,
--                `verifyRequest`), Auth/Hex the comparison of digests. Auth/Plugins is the two plugins of
--                src/lib/elysia-auth.ts that ask them, in the order of src/api/index.ts.
--   PairApi      src/api/pair.ts: the requests by which nodes pair, over PairCodes and Peers/Commands. A
--                request is handled to its end before the next one, but in PairApi/Overlap, which takes the
--                check of an automatic pairing and its end apart.
--   Peers        src/lib/peers: store.ts (Peers/Store), tofu.ts (Peers/Tofu), impl.ts (Peers/Commands).
--                Peers/NodeKey is `lookupCachedPubkey` of src/lib/elysia-auth.ts, by which the pinned key
--                of a peer becomes the key with which Auth's `verifyRequest` verifies a sender.
--   PeersLock    src/lib/peers/lock.ts, which a mutation of the peers runs under: processes that take steps
--                on the lock file, over schedules. The exclusive open and the write of the id are two
--                steps; the open and read of a holder's file are one, and so are the test whether a
--                file is there and its removal.
--   Acl          src/commands/shared/scope-acl.ts: deliver or queue, from scopes and the pairwise list.
--   Scout        src/transports/scout-state.ts: peers heard of, and which node starts the pairing.
--   Names        the regular expressions on names that the parts below share.
--   Matcher      src/core/matcher: resolve-target.ts (Matcher/Resolve, Matcher/Tiers), normalize-target.ts
--                (Matcher/Normalize). Errors and ambiguities are values.
--   Windows      src/core/runtime/find-window.ts: from a query to a window of a session.
--   Routing      src/core/routing.ts: from a query to a local target, a peer or an error, by Windows and
--                Matcher. Its result is what Consent/Gate takes.
--   Queue        src/commands/shared/queue-store.ts: messages that wait for an approval, and a map from ids
--                to files that they refine.
--   Waking       src/commands/shared/should-auto-wake.ts, and the plan of a wake-up in comm-send.ts.
--   Sending      src/commands/shared/comm-send.ts: one message from its query to its delivery: Waking and Routing,
--                then Acl and Queue, then Consent/Gate, then the delivery as a list of what was sent.
--                Sending/Teams is the loop over a team's members, with src/lib/oracle-members.ts.
--   Transport    src/core/transport/transport.ts: the router that tries one transport after another.
--   Triggers     src/core/runtime/triggers-engine.ts: the commands that an event runs, and one-time triggers.
--                Triggers/Cron is the fields of a schedule in src/core/runtime/triggers-cron.ts.
--   Semver       src/plugin/registry-semver.ts: which versions a plugin's range allows.
--   Fuzzy        src/core/util/fuzzy.ts: the edit distance, and the candidates that are near a word.
--   Plugins      src/plugin/types.ts: an installed plugin. Plugins/Dependencies is src/plugin/dependencies.ts,
--                Plugins/Commands src/cli/command-registry-match.ts, Plugins/Matching
--                src/cli/dispatch-match.ts, and Plugins/Dispatch src/cli/dispatch.ts, which asks them and Fuzzy
--                for what a command line runs.
--   Prelude      shared types and lemmas: strings, decimal numbers, dictionaries, lists.
--
-- State is passed explicitly: each operation takes the disk or the state and gives the new one with its
-- answer. A mutation under a lock, and a write by a temporary file and a rename, is one step. A command is one step
-- too, but where Peers/Overlap takes the read of `cmdAdd` and its write apart. Sequences of
-- operations are lists of them. Loops are structural recursion, but those of `normalizeTarget`, which run on
-- fuel, one more than the length of the text, and are proved to come to their end with it, and the recursion of
-- `visit` in Plugins/Dependencies, on one more than the number of plugins: each call to which the fuel
-- goes down marks a plugin as seen, so that the search finds all that there is. The loop over a
-- range of a schedule has as much fuel as the range has numbers, which is enough for steps of at least one. An exception is a
-- value, and `process.exit` ends a run or, as a team's fan-out redefines it, does not. Bounds are those of the
-- source (codes of 6 characters, a ten-minute request, a 300-second window, 1 to 8 seconds of backoff).
--
-- Not modelled: messages for a reader (log lines, help texts, suggestions for a flag), the caching of a
-- request's body, the environment overrides of paths, the listing commands, messages to plugins, the starting of
-- an agent's session, and the parts of the program that are glue around tmux, PTYs, HTTP, MQTT and plugins. A
-- write is whole or, where the code catches its error, does not happen. Letters change case in ASCII only.
mod Prelude
mod Names
pub mod Matcher
pub mod Windows
pub mod PairCodes
pub mod Disk
pub mod Consent
pub mod TrustFiles
pub mod Auth
pub mod Peers
pub mod PeersLock
pub mod Plugins
pub mod Acl
pub mod Scout
pub mod Routing
pub mod Queue
pub mod Waking
pub mod Sending
pub mod Triggers
pub mod Transport
pub mod Semver
pub mod PairApi
pub mod Fuzzy
