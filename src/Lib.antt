-- ===== src/Lib.antt =====
-- game-bench: the Python game server, the benchmark runner and the report, modelled and proved.
--
-- The program. servers/python/server.py is a TCP server of rooms: a client joins a room and moves,
-- and each room steps at a fixed rate and sends a snapshot to its connections. runner/run.py starts
-- one server after another, pinned to its cores, puts the load generator on it, samples /proc
-- beside it and writes results.csv and timeline.csv. runner/plot.py turns those two files into an
-- HTML report. The parts meet at three places, which are modelled on both sides: the arguments that
-- the runner gives the server (Runner.Specs and Server.Args), the cpu argument of taskset
-- (Runner.Cores writes and reads it), and the columns of the two files (Runner.Report).
--
-- The files.
--   Common, with Common.Lists and Common.Tests: shared names, lists, tests on numbers.
--   Py.Int, Py.Result, Py.Dict, Py.Assoc, Py.Struct, Py.Text, Py.Lines, Py.Decimal, Py.Os: what the
--     code uses of Python: integers, exceptions as values, ordered dicts, defaultdicts, `struct`, `str`
--     methods over ASCII codes, `str` and `int`, and a table of processes under os and subprocess.
--   Server.Room: the classes Player and Room (join, move, leave, step, run). Its children are about the
--     wire format of a snapshot (Snapshot, Protocol), the invariant (Members), the end of a room's task
--     (Lifetime) and positions over many rounds (Motion).
--   Server.World: new_pid, get_room and the handler of a connection (handle), over one state of the
--     whole server: the counter, the rooms, the locals of each handler, and lists of all that is
--     written and closed. Every event (a connection, a message, a hang-up, a round of a room) is one
--     step, since a coroutine of asyncio runs alone between two awaits; a run is any list of events.
--     Rooms, Effects, Players, Lookups, Connection, Rejoin and Runs hold the invariant and its proofs.
--   Server.Stream: the loop of handle over the bytes of one connection, with its framing.
--   Server.Args: parse_args. Server.Pace: the schedule of Room.run over a clock of whole units.
--   Runner.Cores: cpuspec, parse_cores and the default core lists of main.
--   Runner.Specs, Runner.Servers: the fourteen spec functions and the table SERVERS.
--   Runner.Proc: pids_in_groups, sample_cpu_ticks, sample_rss_kb. Runner.Sampler: the class Sampler.
--   Runner.Report: the rows of the two files. Runner.Matrix: the loops of main as a trace of actions.
--     Lifecycle is about the life of the servers, Asked about the runs that are asked for, Collected,
--     Product, Rows and Lines about what is done for each of them.
--   Runner.Processes: taskset_wrap, start_server and stop_server. Its children are about the group of a
--     started process (Groups), the calls of stop_server (Stopped), those of start_server (Starts),
--     both (Life), and both on a machine where nothing else happens (Restored, Calm).
--   Runner.Loadgen: run_loadgen and the choice of the generator. Runner.Setup, with Defaults: main from
--     its options to its loops.
--   Runner.Ready: wait_ready over a clock in milliseconds.
--   Plot.Escape: esc. Plot.Axis: nice_max and the ticks of timeline_svg. Plot.Load: the servers of load.
--   Plot.Series: the values of load and the points of series_json. Plot.Timeline: load_timeline.
--   Plot.Charts: CHARTS, SLOT, TL_SERIES and the geometry. Plot.Table: table_html and legend_html.
--   Plot.Svg: timeline_svg. Plot.Cards: timeline_body. Plot.Page: load, saturation_body, build_html
--     and main. Plot.Render: render of the script JS. Plot.Client: its clicks, and the tabs of TAB_JS.
--     Their children Balanced are about the tags of the text, as Plot.Markup reads them.
--   Flow: from the rows that the runner writes to the table of the report.
--   Server.Tests with Rejoin, Flow.Tests, Runner.Tests with Sampling and Main, Plot.Tests with Page and Client:
--     runs at concrete inputs.
--
-- How the code is read. Mutable objects are values passed on, and a reference to a room is its id,
-- since no room is ever taken out of `rooms`. An exception is the value `raise e`; where state has
-- changed before it, the state stands beside the result. Python's integers are unbounded (Py.Int);
-- the widths of the wire format are those of `struct`, which raises out of range. `& 0xFFFFFFFF` is the
-- remainder by 2 ^ 32. A write is an attempt: Room.step drops the exceptions of its writes, and the write
-- of JOINED in handle, which is not guarded, is taken to raise none, as a transport of asyncio only logs
-- a write behind a lost connection. Of the runner, an exception of a build, of start_server, of the load
-- generator or of a lookup in its JSON ends main where it is raised; the writes of rows, stop_server and
-- wait_ready, which catches those of its socket, are taken to raise none.
--
-- Fuel. Server.Stream.handle takes one unit for each frame, and one more than the bytes of the stream
-- are enough. wait_ready takes one unit for each attempt, and each attempt lasts a tenth of a second
-- at least. The loop of the ticks takes one unit for each tick, and max_t + 1 are enough. The
-- logarithm of nice_max searches the powers of ten up to v itself.
--
-- Parameters. The root of the repository and the interpreter (Runner.Specs), /proc at each read
-- (Runner.Proc), the outcomes of builds, starts, of waiting for a server and of the load generator
-- (Runner.Matrix.Machine and Runner.Loadgen.Tools, with a state of any type), the environment and
-- which commands can be executed (Runner.Processes.Host), what processes do of themselves between two
-- calls (an argument of start_server and stop_server), float division and rounding
-- (Runner.Report.Numbers), the texts of floats (Plot.Charts.Format), the style sheet, the texts of the
-- scripts and json.dumps (Plot.Page.Assets).
--
-- Bounds of the model. In the table of processes a pid is not given out twice and SIGKILL ends a
-- process at once. Values of the two files are whole thousandths, not negative, and a coordinate is
-- an exact quotient in place of a float. Loads are not negative. Names of servers and files are ASCII.
--
-- Not modelled. The servers in other languages and the two load generators are no Python code. The
-- sockets, uvloop, argparse, the reading and writing of files and the printed progress are I/O. Of the
-- report, the style sheet is text; of the scripts, which are JavaScript, the lookup of elements in the
-- document is left out.
pub mod Common
pub mod Py
pub mod Server
pub mod Runner
pub mod Plot
pub mod Flow
