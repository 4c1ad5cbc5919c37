-- ===== src/Lib.antt =====
-- The pure core of sandbox-driver, a Rust workspace that runs commands and moves files in sandboxes
-- through interchangeable providers (host, Docker, Daytona) and out-of-process plugins.
--
-- The parts and how they interact. A provider runs a command under the stop race
-- (crates/sandbox-driver/src/drain.rs), which turns the caller's stops, a timeout and a failed sink
-- into signals, with the ladder of a grace period above it (crates/sandbox-driver/src/grace.rs). What
-- the command prints passes the output sanitizer (crates/sandbox-driver/src/sanitize.rs) and is kept
-- by a capture (crates/sandbox-driver/src/capture.rs). Daytona returns text only, so its provider wraps
-- a command's bytes in records that a decoder turns back
-- (crates/sandbox-driver-daytona/src/encoded_exec.rs). The host provider runs commands in process
-- groups, each pinned by a sentinel (crates/sandbox-driver-host/src/fence/sentinel.rs). A plugin's
-- bytes travel in frames over data channels (crates/sandbox-driver-protocol/src/channel.rs): the host
-- registers a channel, the plugin opens it with a one-time token, and both sides write frames; its
-- control messages pass bounded queues (crates/sandbox-driver-protocol/src/control.rs). A supervisor
-- keeps one plugin alive (crates/sandbox-driver-protocol/src/supervisor.rs), whose server admits
-- requests (crates/sandbox-driver-protocol/src/server/mod.rs). The Docker
-- provider reads a file out of a streamed archive (crates/sandbox-driver-docker/src/fs/tar.rs). Above
-- the providers, a client sees only the sandboxes that it owns (crates/sandbox-driver/src/owned.rs) and
-- waits for their states (crates/sandbox-driver/src/wait.rs). Git's output is parsed
-- (crates/sandbox-driver/src/derived/git/parse.rs), and its operations are repeated under a policy
-- (crates/sandbox-driver/src/git_retry.rs) that reads the class of their failure
-- (crates/sandbox-driver/src/error.rs).
--
-- Files. Base holds the shared names, Boolean tests, and lemmas on lists and sets of numbers.
-- - Error: the boundary error and the types that it carries (error.rs, event.rs, state.rs, exec.rs).
-- - Sanitize: `OutputSanitizer`. Its state is a record, one function per `process_*` method returns
--   the new state and the bytes that the method appends; `stream` is a `push` per chunk and `finish`.
-- - Frame: `FrameWriter` and `FrameReader` (channel.rs). The socket is a script of what each write
--   does and the bytes that arrive; `write`, `finish`, `read` are the methods.
-- - Channel: `ChannelListener` (channel.rs, limits.rs): `expect`, `claim` and `deliver` (together
--   `admit`), `accept`, `io_permit`, the drops; Budget runs any sequence of them.
-- - Tar: `TarScanner` (tar.rs): `feed` with its three states, `finish`; Runs is its loop as a relation.
-- - GitRetry: the policy, the decision and `retry_git` (git_retry.rs).
-- - Drain: `drain_with_stops` (drain.rs) over a schedule of the futures that become ready.
-- - Grace: the ladder above the race (grace.rs), `drive` over a schedule of signals.
-- - GitFailures: `GitFailureKind` and `GitFailure` (error.rs), the classes that the retry reads.
-- - Id: the validators of identifiers (id.rs).
-- - GitBatch: the answers of `git cat-file --batch` (derived/git/parse.rs).
-- - Control: `read_line` (crates/sandbox-driver-protocol/src/control.rs) over the buffers of a stream.
-- - Capture: `OutputCaptureBuffer` (capture.rs): `push` on a head and a rolling tail.
-- - Buffer: `BoundedBuffer` (buffer.rs).
-- - Quoted: `decode_quoted` (crates/sandbox-driver-daytona/src/encoded_exec.rs), the decoder of the
--   shell words that carry a command's bytes through Daytona's text-only output.
-- - EncodedExec: `FramedOutput` (encoded_exec.rs), which cuts that output into records, decodes them and
--   hands their bytes to the sanitizer, the capture and the sink; its child Finish has the result.
-- - Status: `SandboxStatus` with its labels, and the settled states (state.rs).
-- - Wait: `wait_for_state` and `wait_for_stable_state` (wait.rs) over numbered polls.
-- - Owned: `Ownership` and `OwnedProvider` (owned.rs) over an interface to the provider underneath.
-- - Fence: the process groups of the host provider
--   (crates/sandbox-driver-host/src/fence/sentinel.rs): `PinnedGroup` and the killing loop; its child
--   Groups has `ProcessGroups` with `start`, `spawn`, `stop` and `drain`, and Pins lets the handles, the
--   stops and the drop interleave.
-- - GitDiff: `parse_raw_diff` and `parse_numstat` (derived/git/parse.rs) over the list of fields.
-- - Limits: `TransportLimits`, its defaults and `validate`
--   (crates/sandbox-driver-protocol/src/limits.rs).
-- - ControlQueue: the bounded encoding and the three queues of control messages
--   (crates/sandbox-driver-protocol/src/control.rs): `send`, `recv` and the drops.
-- - Supervisor: `PluginSupervisor` (crates/sandbox-driver-protocol/src/supervisor.rs) over an
--   interface to the plugins that it launches; Runs lets calls, shutdowns and deaths follow one another.
-- - Registry: `Registry` (crates/sandbox-driver-protocol/src/server/registry.rs), the plugin's map of
--   what it holds between requests, refined by a function from ids to values.
-- - Admission: how the plugin's server admits requests
--   (crates/sandbox-driver-protocol/src/server/mod.rs, methods.rs): a round of its loop, which `shutdown`
--   ends, `admit`, the registration of streams in a Registry, and the end of a request; Runs lets them
--   follow one another.
--
-- Bounds and fuel. Bytes are numbers below 256; `u32`, `u64` and `usize` are natural numbers, with
-- wrap-around, saturation and checked operations written out where the source has them. The loop of
-- `feed` takes fuel twice the chunk's length and two: a round that goes on takes a byte or leaves a
-- skip. The loop of `retry_git` takes as many rounds as the policy has attempts. `chunks` takes the
-- payload's length, the decoder of a quoted word its input's length, and a parser of git's output the
-- number of its fields. A polling or killing loop runs over the rounds that are given to it, and the
-- theorems say how many are enough.
--
-- Parameters, for code outside the repository: the header parser of the `tar` crate, the JSON parser
-- of an open frame and the JSON serializer of a control message (the list of its writes), the retried
-- operation with its clock and sleeps, the operations on `f64`, the `stop` callback of a race, the
-- provider under an owner, the plugins under a supervisor, the first key of a
-- hash map, the system's answers to signals, waits and looks at its processes, the
-- lossy decoding of UTF-8, the characters that the shell's printf escapes at which positions, and an
-- output sink.
--
-- Not modelled: the calls of the Docker and Daytona APIs and of the host's system, the discovery of
-- plugins, the client of the control protocol and the shapes of its JSON, the contract catalogue, the
-- command line and the test crates: they are input and output, records and glue. Errors keep their
-- kind; the
-- texts that name a cause are cut to the constant part.
pub mod Admission
pub mod Base
pub mod Buffer
pub mod Capture
pub mod Channel
pub mod Control
pub mod ControlQueue
pub mod Drain
pub mod EncodedExec
pub mod Error
pub mod Fence
pub mod Frame
pub mod GitBatch
pub mod GitDiff
pub mod GitFailures
pub mod GitRetry
pub mod Grace
pub mod Id
pub mod Limits
pub mod Owned
pub mod Quoted
pub mod Registry
pub mod Sanitize
pub mod Status
pub mod Supervisor
pub mod Tar
pub mod Wait
