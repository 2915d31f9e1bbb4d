-- ===== src/Lib.antt =====
-- A model of flashgate-mcp, a server that gives MCP clients the files below one root directory, and
-- the theorems on it.
--
-- The program's parts. `main` (cmd/server) loads the configuration from the environment, makes a
-- path guard for the root and a file system over the guard, registers the tools, the handlers and
-- the router, and runs the server on standard input and output. The server reads one JSON-RPC
-- message to a line, validates it and dispatches it to a handler; the handler of tools/call decodes
-- the arguments strictly and calls the file system; the file system asks the path guard for every
-- path before it calls the operating system.
--
-- The files, with the code that they model:
--   Base          numbers, texts as lists of code points, errors as values and the monad of calls
--                 that return `(value, error)`, signed integers for comparisons with limits
--   FilePath      Go's path/filepath on Unix: Clean, Join, Dir, Base, Rel, IsAbs, and its theory:
--                 a rooted path is its list of plain elements
--   Os            the calls of os, io and filepath on the disk, a record of functions over a type of
--                 disk states; no definition is made up for them
--   Security      internal/security/path.go and policy_unix.go: Policy (the tests on paths), Guard
--                 (PathGuard's methods, with their names in snake case), and for each method a file
--                 of proofs: Inside, Lexical, Components, Existing, Parents, Create, Root, Listing
--   Fs            internal/fs: Limits (filesystem.go), Reading (list.go, read.go, stat.go), Writing
--                 (write.go, copy.go, delete.go), Moving (move.go, move_unix.go), with the proofs in
--                 their children and in Opening (the constructors)
--   Protocol      JSON values and the types of internal/protocol
--   Tools         internal/mcp/tools: Arguments (params_validation.go), Category (the error
--                 classification of tool_list_directory.go), Execute (the eight tool_*.go),
--                 Registry (registry.go), Handlers (tools_list.go, tools_call.go)
--   Router        internal/mcp/router/router.go
--   Initialize    internal/mcp/initialize/handler.go
--   Transport     internal/mcp/transport/transport.go
--   Server        internal/mcp/server: Validation (request_validation.go), Serving (server.go), with
--                 proofs in Answers, Calls, Loop, Transcript (runs over whole lines) and Replied
--   Config        internal/config
--   Boot          cmd/server: tools_boot.go, router_boot.go, the mappings of server_boot.go, cli.go
--                 and main.go, with proofs in ReadOnly and ExitCodes; Start is
--                 server_boot.go's runWithIO, from the environment to the server's loop
--   Version       internal/version/version.go: versions in Version, the build identity in Identity,
--                 with proofs in FileVersion and Named; and in Resource buildConfig of
--                 cmd/versioninfo/main.go
--   Benchmark     internal/benchmark: Statistics (statistics.go), StrictJson with its child Decoding
--                 (strict_json.go), Results and ResultType (types.go), Budgets, Evaluating and
--                 Loading (budgets.go), Artifacts (artifact_validation.go), ProcMetrics
--                 (process_metrics_linux_parse.go), Measuring (what runner.go makes of samples);
--                 proofs in Ranks, Checks, Shape, Decoding, Steps, Measured, Conforming, Accepted,
--                 CpuTimes and Complete, the children of these
--   Tests         a small disk as an operating system (Toy), runs of the operations on it (Runs),
--                 and the theorems applied on it
--
-- How code corresponds to definitions. A method that reads the disk `d` is a function of the
-- operating system and `d`; one that writes also gives the disk after it. A method's early returns
-- are the steps of a do block or the branches of a case. A method that mixes checks and effects is
-- divided into the checks, which give what the effects need, and the effects, so Write is
-- `write_checks` and `write_file`. Move sees two disks: `drift` is what another process does to
-- the disk before the second validation.
--
-- Loops. The loops over directory entries, path components and visited paths are recursion on
-- lists. The three loops that climb with filepath.Dir run on fuel, one more than the length of the
-- path, which is enough since a path loses an element in each round. The request loop runs on a
-- number of turns, and one more than the bytes of the input are enough. Reading a line is recursion
-- on the input.
--
-- Numbers. Sizes are natural numbers and limits are signed: the server compares them and makes no
-- other arithmetic on them. The benchmark's sum of two ints wraps around at 64 bits. An int
-- of the configuration has 64 bits. Arguments outside int64 are refused as encoding/json refuses
-- them. The numbers of a message are in the range of float64; those that are no integers are one
-- value `real`, so an id like 1.5 is known only to be such a number.
--
-- What is assumed of code outside the repository. `IsLawful` says that filepath.EvalSymlinks gives
-- a rooted path for a rooted one and that os.Getwd gives a rooted path. `SizesAgree` says that
-- os.Stat and os.ReadFile agree on a file's size. Parsing and printing of JSON, the length of a
-- value in a message and the text that the encoder makes of a file's bytes are parameters.
--
-- Not modelled. The Windows halves of the path policy and of Move; locks, since one goroutine
-- serves the requests; file times and owners; the debug log; titles, descriptions and schemas of
-- the tools; the checks of runWithIO for dependencies that are nil, which the default ones are not;
-- the running of benchmarks as processes, their corpus and printed reports; the other
-- release tools; and changes of the disk by others within one operation, except in Move.
pub mod Base
pub mod Benchmark
pub mod FilePath
pub mod Os
pub mod Security
pub mod Fs
pub mod Protocol
pub mod Tools
pub mod Router
pub mod Transport
pub mod Version
pub mod Initialize
pub mod Server
pub mod Config
pub mod Boot
pub mod Tests
