-- ===== src/Lib.antt =====
-- A model of markdown-linkerator, a checker of the links in Markdown files, with theorems about its
-- components.
--
-- The program resolves its configuration from a file, the environment and the flags (internal/cli,
-- internal/config), crawls the inputs for Markdown files (internal/pipeline), takes the links and the
-- anchors out of each (internal/extract), and hands each link to the pipeline. There a link that needs
-- no request is judged at once; an http link goes through a table that knows every URL of the run, and a
-- URL seen for the first time is looked up in the cache (internal/cache) or becomes a job. A host's pacer
-- releases its jobs at the host's rate (internal/ratelimit), the executor checks them with HEAD and
-- GET under a retry policy (internal/checker), and what comes back adjusts the rate, goes to the cache
-- and is reported for every occurrence of the URL. The collector (internal/report) sorts, counts and
-- prints the results. The engine (internal/engine) saves the cache and says how the run ended, from
-- which the command line gives the exit status.
--
-- Files and what they model:
--   Base, Base/*           helpers: lists, texts, searching and cutting in them, maps, integers,
--                          instants, a stable sort.
--   Model, Model/Key       internal/model/model.go: kinds, states, targets, results; NormalizeKey.
--   Cache                  internal/cache/cache.go: Definitive, Get, Put; Cache/Store has the laws of
--                          reads and writes, Cache/Disk is Save and New with every failing call,
--                          Cache/Disk/Atomic and Cache/Disk/Reload are about both.
--   RateLimit              internal/ratelimit/ratelimit.go: HostState and its methods; Rate, Cooldown
--                          and Registry are about the rate, the cooldown and the table of hosts.
--   Config, Config/Resolve internal/config/config.go, duration.go and resolve.go: Defaults, Merge,
--                          Resolve; Config/Layers is about the layers, Config/Resolve/Env about
--                          the tokens {{env.NAME}}, Config/Durations the JSON form of durations,
--                          Config/Fingerprint is CacheFingerprint.
--   Checker/Retry          internal/checker/http.go: checkRetry, backoff, Retry-After; Budget and Waits
--                          are about how often and how long.
--   Checker/Http           internal/checker/http.go: Check and classify.
--   Checker/Headers        internal/checker/http.go: the headers of a request and of a redirect.
--   Checker/Local          internal/checker/checker.go: the file, anchor and mail checks; Recipients is
--                          about the addresses in a mail link, Domains their domains, Verdicts about what the checks conclude.
--   Extract/InlineCode, Extract/Slug, Extract/Anchors
--                          internal/extract/anchors.go: removeInlineCode (Delimited is about what a code span is,
--                          Spans about what is left); Slug and headingSlugs;
--                          normalizeNewlines, htmlIDs and Anchors.
--   Extract/Targets        internal/extract/extract.go: transform, classify, resolvePath, lineAt;
--                          Extract/Targets/Walk is ParseFile, extractTargets and scanHTML;
--                          Places is about where the destinations stand, Firsts about which become
--                          targets, Kinds about what they become.
--   Report                 internal/report/report.go: Finish, summarize, sortResults; Report/Group,
--                          Report/Wire (json.go), Report/Gauge (the progress gauges), Report/Render
--                          (the text report, with color.go) and Report/Heartbeat (progress.go);
--                          Report/Ticker is StartProgress and stopProgress.
--   Pipeline/Dedup         internal/pipeline/dedup.go: add and complete, as the locked steps of
--                          concurrent workers; World is the step relation.
--   Pipeline/Pacer         internal/pipeline/pacer.go: one host's pacer as a step relation, with Refines
--                          as its view as a queue; Pipeline/Pacer/Hosts is pacerSet.
--   Pipeline/Handle        internal/pipeline/pipeline.go: handleTarget, checkFileTarget, fileAnchors,
--                          execute and the retry callback, with the checker's hostOf and the
--                          pipeline's as two functions; Freshness is about the remembered
--                          anchors.
--   Pipeline/Crawl         internal/pipeline/crawl.go: crawl, walkMarkdown and expandGlob.
--   Pipeline/Source        internal/pipeline/pipeline.go: parseSource.
--   Pipeline/Flow          internal/pipeline/pipeline.go: Run, its four stages and the channels between
--                          them as one step relation over what the stages call (the record Work,
--                          which Flow/Program fills from parseSource, handleTarget and execute).
--                          Flow/Tally has the sums over all that is in flight, from which
--                          Conserved, InFlight, Known and Ends take theirs; Table is about the table
--                          of URLs, Closing about the channels' ends; Reported, Once,
--                          Progress and Ends are about the whole run.
--   Engine                 internal/engine/engine.go: Run; Engine/Whole is Run around a run of the
--                          pipeline.
--   Cli                    internal/cli/config.go: the layers of the configuration (Cli/Layers is what
--                          the environment and the flags set), the alive codes;
--                          Cli/Registered is the table of flags (cli.go).
--   Cli/Main               internal/cli/cli.go: run and the version string;
--                          internal/version/version.go; cmd/markdown-linkerator/main.go. Status and
--                          Covers are about the exit status of the whole program.
--   Samples, */Examples    concrete values, and the theorems applied to them.
--
-- Conventions. A text is its list of character codes. A Go map is an association list, a nil slice,
-- map or pointer is `none`, an error is a value of the result. A duration and an instant are
-- nanoseconds, of type ℤ; the one product that can leave 64 bits, of the seconds of a Retry-After, is
-- wrapped. A clock reading is an argument. A mutex makes what it guards one step. float64 is a type
-- with the operations and order laws that the code relies on (RateLimit.Rates, Config.Floats). A
-- callback that is handed on (`add` of extractTargets) is the list of its calls.
--
-- Parameters stand for code that is not in the repository: url.Parse, path/filepath, os, net/mail,
-- regexp, goldmark and the HTML tokenizer (Extract.Targets.Walk.Parsers), cobra's flag set (Cli.Flags),
-- strconv, SHA-256, the resolver, encoding/json (Cache.Disk.Reload.Codec), golang.org/x/time/rate, net/http and
-- go-retryablehttp. One call of the shared client is a function (Checker.Http.Client) where its outcome
-- matters, and a sequence of its hooks (Checker.Retry.Budget.Exchange) where its retries do. Trimming
-- and letter case are those of ASCII, but for slugs, where they are parameters. The anchors of a linked
-- file are a parameter of Pipeline/Handle.
--
-- One definition runs on fuel: removeInlineCode's loop, whose fuel is the length of the text, since each
-- turn passes over one byte at least. Every other loop is structural recursion, over a list of rounds
-- in Acquire.
--
-- In Pipeline/Flow a step is what one goroutine does between two points where it may wait, so the
-- interleavings of the goroutines are the sequences of steps. The crawl has computed what it sends
-- before it sends it; a wait for a rate ends at any time; a check may have any answer of the client;
-- gauges and host statistics, which no stage waits for, are in Pipeline/Handle. The bounds of the channels and the
-- limits of the pools are those of the source. Once the context is cancelled a send may fail or succeed.
-- A pacer may leave under a live context too, where the context has a deadline and Acquire fails because
-- its wait would pass it. Whether a wait would is not computed, so such a step is always open to a pacer
-- that holds a job; the field starved of the state records that one was taken.
--
-- Engine takes what a run of the pipeline leaves as a parameter; Engine/Whole puts what a finished
-- sequence of steps leaves in its place.
--
-- Not modelled: reading configuration files, help texts, the request log, and the test
-- server.
pub mod Base
pub mod Model
pub mod Cache
pub mod RateLimit
pub mod Config
pub mod Checker
pub mod Report
pub mod Extract
pub mod Engine
pub mod Cli
pub mod Pipeline
pub mod Samples
