-- ===== src/Lib.antt =====
-- The benchmark harness of zopa: its runner, its regression gate and the engines that it compares,
-- and, of zopa itself, the registry of compiled policies and the JSON parser.
--
-- Parts. bench/run.mjs reads a command line, sets up engines for each fixture, lets them agree on
-- a decision, times them and closes them, and prints rows or writes them as JSON. An engine is a
-- module of bench/engines with the exports setup, decide, close and, where it measures itself,
-- measure. bench/compare.mjs reads the written rows, divides each engine's cost by the cost of a
-- reference engine on the same fixture, and compares these ratios with a stored baseline, or writes
-- one.
-- The engine zopa-compiled holds its policies in the wasm module of zopa itself: src/policy.zig gives
-- out handles for them, and src/main.zig exports its operations. Policies and inputs are JSON texts,
-- which src/json.zig parses.
--
-- Files.
--   Base                 lists, texts (lists of code units), dicts in insertion order, numbers, and
--                        code that mutates a state and may throw (Base/Exec).
--   Compare              bench/compare.mjs: `ratios`, the comparison loop (`compare_loop`), the
--                        exits (`verdict`, `status`), the seeded baseline (`seed`), the script
--                        (`compare_main`). Proofs in Compare/Rounds and Gate (the comparison), Pairs
--                        and Ratios (the ratios), Seed and Scale.
--   Policy/Table         src/policy.zig: the handles (`encode`) and the table of slots, with the loop of
--                        `install` (`reuse`) and `lookup`. Proofs in Table/Handles, Reuse, Changed.
--   Policy/Registry      the rest of src/policy.zig and the exports of src/main.zig that call it:
--                        `policy_compile`, `policy_release`, `evaluate_compiled`,
--                        `evaluate_compiled_addressed`, and any calls of them in a row (`run`).
--                        Proofs in Registry/Installed, Room, Handles, Leaks, Lasting and Stale.
--   Json/Members         src/json.zig: the members of an object, deduped as they are read (`add_member`)
--                        or by sorting (`dedupe_wide`). Proofs in Members/Inserts and Reading (the
--                        scan), Expected, Order, Places, Runs, Sorted, Wide and Dedupe (the sort).
--   Json/Values          the values and errors of src/json.zig, and what it calls of Zig's library.
--   Json/Scan, Strings   `skipWs`, `matchLiteral`, `parseNumber`, `parseString`, `decodeEscapes`; Shorter
--                        in both says that they get on. Scan/Grammar and Numbers: the grammar of
--                        numbers.
--   Json/Parser          `parseValue`, `parseObject`, `parseArray`, `parse`. Proofs in Parser/Cases and
--                        Total (the end), Sound, Scalars and Accepted (what is accepted), Nesting (the limit).
--   Bench/Args           `parseArgs` and the budget. Proofs in Args/Accepts, Args/CommandLine.
--   Bench/Stats          `percentile`, `summarise`, `micros`, `timerFloorMicros`, `corrected`, the
--                        rate of `throughput`. Proofs in Stats/Sort, Stats/Percentile.
--   Bench/Engine         what the runner asks of an engine module and of the host.
--   Bench/Measure        the runner's state, `latency`, `throughput`, `coldStart`. Measure/Rules
--                        and Returns say when they end.
--   Bench/Driver         the loop over the fixtures: `setup_engines`, `gate`, `time_engines`,
--                        `close_all`, `run_fixture`, and how the script ends (`finish`, `drive`).
--                        Proofs in Driver/Balanced, Balance, Closed and Closing (opening and closing
--                        of instances), Pushes, Settled, Agreement and Report (the rows that are
--                        reported), and
--                        Driver/Ends (the driver ends).
--   Bench/Select         the engines that are run: `selected`, `unknown`, `find_live` (the list
--                        `live`). Proofs in Select/Live.
--   Bench/Written        the document of `--json` (`written_run`) as bench/compare.mjs reads it; proofs in
--                        Written/Reference.
--   Bench/Printed        the printed tables: `pad`, `num`, `kib`, the heads, rules and rows; proofs in
--                        Printed/Aligned.
--   Engines/CedarNative  bench/engines/cedar-native.mjs: `build`, `runHarness`, `rows`, `rowFor`,
--                        `setup`, `measure`. Proofs in CedarNative/Cache and Again.
--                        CedarNative/Offered has `available` and `supports`, with the reading of the
--                        lock file; proofs in Offered/Entry.
--   Engines/Heap         the memory of a wasm module as its host sees it, and what the host may rely
--                        on (`IsHeap`), with the `write` of both engines; Heap/Bump is an instance for the tests.
--   Engines/Zopa         bench/engines/zopa.mjs: `setup`, `decide` (with `next_input` and
--                        `evaluate`), `close`, and a client's `session`. Proofs in Zopa/Buffers,
--                        Started (`setup`) and Session.
--   Engines/ZopaCompiled bench/engines/zopa-compiled.mjs: the same operations around a policy's handle.
--                        What it may rely on stands in ZopaCompiled/Policies; proofs in Held,
--                        Started (`setup`) and Session.
--   Engines/Cedar        bench/engines/cedar.mjs: `setup`, `decide`, and any calls of them (`steps`).
--                        The object `call` of an instance is state that its calls share. Proofs in
--                        Cedar/Own.
--   Engines/OpaWasm      bench/engines/opa-wasm.mjs: `compile` and its cache, `instantiate`, `setup`,
--                        `writeStr`, `readCStr`, `decide`. Proofs in OpaWasm/Compiled (the cache),
--                        Strings, Rewind (the heap) and Session; OpaWasm/Small is a policy for the
--                        tests.
--   Engines/OpaHttp      bench/engines/opa-http.mjs: `waitReady`, `setup`, `decide`, `memoryBytes`,
--                        `close`, and a client's `session`. Proofs in OpaHttp/Ready (the wait), Quiet,
--                        Started and Cleanup (directories and processes), Mapping (the decisions).
--   Engines/OpaAgreement the two engines that ask OPA, side by side.
--   Engines/Decisions    what engines with `decide(nextInput)` are to answer.
-- Runs on small inputs stand in the modules named Tests.
--
-- Numbers. JavaScript's floating-point numbers are an interface, the record `Numbers`, with the
-- operations that the code calls. Laws that hold of the floating-point numbers are hypotheses where
-- a proof needs them (`IsOrdered`, and those written out in the statements). Instances with exact
-- fractions serve the tests.
--
-- State. An action takes a state to a result and a state, so what was written before a throw stays
-- written. What the code calls outside of itself (an engine, the clock, cargo, the Rust program)
-- is a parameter that acts on an unknown world. The events of the runner and the number of runs of
-- the Rust program are recorded in the state, although the code has no such variables.
--
-- Fuel. Three loops end by something outside of the code, and run on fuel: a timing window and the
-- wait for a server, by the clock, and the search for the end of a text in a wasm memory, by a zero.
-- Without fuel the result is `stuck`, as for a call that hangs: nothing runs after it. Enough is more
-- than the window's nanoseconds, more than the 20,000 milliseconds of the wait, and more than the
-- text's bytes. The loops of the JSON parser over the members of an object and the items of an array
-- run on as many rounds as there are bytes left, and one; a round takes at least one byte. Its
-- recursion is on the room that is left of `max_depth`. All other loops are structural.
--
-- In the JSON parser a position is the list of the bytes that are left, and an allocation does not
-- fail. Zig's hash, sort, `parseInt`, `parseFloat` and `utf8Encode` are parameters (`Std`).
--
-- Not modelled: reading and parsing of files, the wording of messages and the prose around the tables,
-- and what `available` looks at in the engines other than cedar-native. The Zig sources under src
-- other than the registry of policies and the JSON parser, the Rust harness, the Python tools and the
-- tests are other programs, and the helpers of the evaluator in src/json.zig belong to them; the
-- engines that they make up are parameters here. The registry takes the allocator, the parser, the
-- builder of policies and their evaluation as parameters.
pub mod Base
pub mod Compare
pub mod Policy
pub mod Json
pub mod Bench
pub mod Engines
