-- ===== src/Lib.antt =====
-- The library models the coordinator and the worker side of vci, a continuous-integration tool that runs
-- the builds of a project on the machines that are attached to it. A client submits a source; the
-- coordinator stages one build request with one target run per machine, reserves a slot of the machine
-- for each run, and launches a worker, which takes a lease on its run, executes the command and publishes
-- a result. A maintenance pass gives up runs whose worker is gone, frees their slots, settles build
-- requests and dispatches what is queued. All of them meet on the state directory on disk.
--
-- The parts, each a module with its files below it:
--   Base        lists, Go strings as lists of codes, results, sorting, integers with their sign
--   Model       internal/model/model.go: the run states and their diagram, the checks of names and run
--               ids, the paths of the layout
--   Config      internal/config/config.go and validation.go: the decoded configuration, its defaults and
--               its validation with the patterns of package path and the regular expressions written out
--   Process     internal/process/process.go: the execution file and the bound on a log stream
--   Host        internal/host/ssh.go: the checks of paths, the shell scripts composed for a worker and the
--               reading of such a script by a shell, the commands of Client with their outcomes
--   Worker      internal/cli/internal.go and internal_reconstruct.go: the commands that a worker runs for
--               the coordinator, on its bundle cache and on archives
--   Source      internal/source/select.go: the choice of a project, and the check of a build input
--   Version     internal/version/version.go: the version that a build reports
--   Runtime     internal/runtime/docker.go and vm.go: the argument vectors, the end of a process, the
--               recorder of stderr; internal/app/remote.go: the command of a remote run
--   Store       internal/store/store.go: run records, transitions, cancellation, results, the state of a
--               build request, and the worker leases. Store.Disk is the state directory
--   Scheduler   internal/scheduler/claims.go and scheduler.go: the claim files, the choice of a machine,
--               reservation with publication and rollback, release, status and the reap of claims
--   Bundle      internal/bundlecache/cache.go: the cache of Git bundles on a worker
--   App         internal/app/lifecycle.go, fanout.go, build.go, data.go, configure.go and remote.go: abort,
--               abandon, dispatch, targets, summaries, the staging of a build request and its rollback, the
--               artifacts of a run, the commands that change the configuration, the line that a client sends
--   Reaper      internal/reaper/reaper.go and capacity.go: the sweep over the runs, build requests, the
--               retention of blobs, the cleaning of directories and of remote hosts, the maintenance pass
--   System      the operations as steps on one disk, in any order, and what all histories preserve
--   Examples    concrete configurations and disks, tests, and the theorems applied to them
--
-- How state is modelled. `Disk` holds the directories of the runs, the claim files and a flag `healthy`;
-- where the flag is false every write and removal fails, so that error paths can be taken. A file that
-- holds JSON is absent, damaged or holds a decoded value. Every operation takes the disk and returns it
-- with its answer. The code holds a lock from the first read to the last write of such an operation (the
-- lock of a run for the store and the leases, the lock of the scheduler for the claims), so an operation
-- is one step and an interleaving of processes is a sequence of steps (System.Steps). The reap of claims
-- reads run records without the locks of their runs; in the model it reads those of one moment. The first
-- write of a record (Save) and ReserveAndPublish are modelled, but they are no steps of System. Errors are
-- values of one data type per component. Clocks are arguments, in nanoseconds since Go's zero time. Functions
-- that the code passes (the callback of Mutate, the publication of a reservation, the start of a worker)
-- are arguments of the model, with what is asked of them as hypotheses of the theorems.
--
-- Numbers are natural numbers; where Go has a signed number whose sign is read, it is a ℤ with its sign.
-- The products of the comparison of loads and the sums of sizes are not bounded, since they stay below
-- the limits of 64-bit integers for any count of claims and bytes that a machine can hold. Every loop
-- of the model but one is structural recursion over the list that the code iterates over. The one is the
-- loop of the worker's evictLRU, which reads its directory again in each round; its fuel is one more than
-- the number of entries, and one entry goes in each round. Go's maps are lists of pairs, and where the
-- order of a map decides which of several errors is answered the list decides.
--
-- The two sides of an ssh connection. Host composes the words of a command and reads the answer; Worker
-- parses the words and answers. A runner is a function from the command to what the code reads of its
-- answer; Worker.Reaps puts the worker in its place. Host.Words describes how a shell reads a line, apart
-- from the code that writes it. Extraction and reconstruction list the operations on files and the calls of
-- git in order, and whether git and the copy of the seed succeed is a parameter. `time.Parse`, the
-- home directory and what lstat says of a file are arguments.
--
-- Not modelled: the decoding and encoding of TOML and JSON, locks and system calls, processes and
-- signals, ssh itself, git, the inside of docker and virtual machines, the parsing of the client's command
-- line, the capture of a source by git, and the removal of the shared source of a request. They are input and
-- output around the modelled operations. In the pass `maintain` a directory that cannot be listed and a blob
-- that cannot be removed are left out; a failing removal elsewhere ends the pass as it does in the code. Where a
-- file is replaced by a rename, a failing synchronisation of its directory is not modelled. The sizes in
-- a bundle's metadata are natural numbers.
pub mod Base
pub mod Model
pub mod Config
pub mod Process
pub mod Host
pub mod Worker
pub mod Source
pub mod Version
pub mod Store
pub mod Scheduler
pub mod App
pub mod Reaper
pub mod System
pub mod Bundle
pub mod Examples
pub mod Runtime
