-- ===== src/Lib.antt =====
-- fpm-tune sizes PHP-FPM pools: it measures what a worker of each pool costs, divides the memory of
-- the host between the pools, and writes the division as pool configuration. This library models the
-- parts that decide, and states what makes them correct.
--
-- The parts and how they interact:
--   * budget/budget.go finds the memory and the CPU of the host, or of the cgroup that the processes
--     run in.
--   * state/ remembers what workers have cost, and what was applied when.
--   * allocate/allocate.go divides the budget: Compute checks its input, takes every pool's floor and
--     want, cuts the floors where they do not fit, shares what is left by demand, and makes a plan.
--   * apply/ decides which lines of a plan are worth a reload, couples growths with the reductions
--     that pay for them, writes the file with a record of the change, and reloads the master. The next
--     run reads the record and finishes or undoes what a dead run left.
--   * plan/ makes the allocator's input of a round: Build takes each view of a pool with what state
--     remembers of it, decides what a worker costs and whether the pool may be cut, keeps a reserve,
--     calls Compute, and reports on the plan. lock/ lets one process at a time do so.
--   * serve/history.go keeps the last rounds and events of the daemon for its clients.
--
-- The files:
--   * Common: the names that all modules share. Common/Tests has the Boolean tests and Go's value
--     with an error as Result; Common/Lists lists over native numbers; Common/Text strings and
--     strconv on a line of text; Common/Word Go's int64;
--     Common/Float Go's float64; Common/Rational an instance of it that computes.
--   * Allocate: Types has the budget, the pools, the options and their defaults. Rows has a row for
--     each pool, which stands for the parallel slices wants, floors and granted. Trim is trimToFit
--     and largestGrantedAmong, Floors allocateFloors, Demand allocateDemand, Want cpuCeiling,
--     poolFloor, poolWant and the clamps of Compute, Spare applyProcessManager, Compute/Lines
--     PoolPlan, Plan, reason and cheapestUnmet, Compute the checks and Compute. The modules below
--     each are its proofs; Tests has runs on concrete hosts.
--   * Budget: Limits has Limits, WithOverride, WithNeighbors and the readers of memory files, Cpu the
--     quotas, Cgroup cgroupLimitOf, Detect detectWith and DetectFor.
--   * State: Types has the records of state/state.go. Store is the map of pools by master and name:
--     PoolKey, Lookup, forWriting, RecordApplied and Forget. Learn is Learn with observeInterval,
--     cappedSince, decayAlpha and workRatio; Sizing is SizingBytes, SizingBytesAt and Confidence; Peak
--     is ObservePeak; Load has the repairs of a file that Load could read. Histogram is
--     state/percentile.go, Cpu state/cpu.go, and CpuLoad state/cpuload.go with AggregateCPUShare and
--     AggregateCPUCores.
--   * Plan: Types has observe.PoolView and the profile, Workload is plan/workload.go, Cpu the ceilings
--     of plan/cpu.go and CpuReport its cpuOf. Pool is poolFor and hitCeiling, Reserve reserveFor, Names
--     ambiguousNames and mastersOf, Build is Build up to Compute, Report what it reports on a plan with
--     plan/advice.go, and Round LearnFrom, LearnCPULoad and RecordCounters.
--   * Apply: Decide has the options and decide, Damping requireShrinksWithGrowth, holdGrowths and
--     commitmentOf. Disk has the files that a change touches and the writes to them, Transaction
--     apply/transaction.go, Write writeDropIn, markSignalled, restore, commit and rememberMaster, Live
--     the part of Apply from the live write on, Sections and DropIn Render, parseOurs, isOurs and
--     overrideSet, Run Apply as a whole with staleSections, includesOurFragments and
--     validateSandboxed, and Reconcile apply/reconcile.go with the parts of apply/remembered.go that
--     it uses.
--   * Lock: lock/lock.go; Lock/Exclusive has the steps of the processes on a host.
--   * Serve: History is serve/history.go, without its HTTP handler and hostBusyRatio.
--
-- How the code is read:
--   * int and int64 are bit patterns, numbers below 2 ^ 64. Sums, differences and products wrap, and
--     comparisons and quotients read the pattern as two's complement, as on a 64-bit host.
--   * float64 is the interface Float. The laws that proofs use are in IsIeee: monotone rounding,
--     exact integers below 2 ^ 53, an order that is total but for NaN, products with a positive factor
--     that keep the order, and conversions that fill a word. Constants such as 0.15 are
--     quotients of integers.
--   * Sentences of reasons and errors are constructors with the values that are printed in them.
--   * sort.SliceStable is a stable insertion sort; sort.Slice, which promises no order between equal
--     elements, is a parameter. So are strconv.ParseInt where its input is a file's, the functions
--     of Library in Plan/Types, those of Calls in Apply/Run, the file system behind cgroupLimitOf,
--     and math.Log2 and math.Exp2. Files come as trimmed text or as fields; only the drop-in comes
--     as its text, which Apply/Run splits at its newlines and Apply/DropIn reads line by line.
--   * Times are int64 nanoseconds, or the zero time, which is no number. A map is a list of keys with
--     values: Common/Map has its lookup, insertion and removal. A record that is shared with the
--     map, such as forWriting's, is written back to it.
--   * A process can die between any two writes. A World carries the disk with those that it went
--     through and those at which the master was signalled. Each call to the operating system or to
--     php-fpm takes its answer from an Outside, by the place of the call; a check also depends on
--     what the drop-in holds. A write that reports an error has not been done, except where only the
--     directory could not be flushed. The disks are those of a process that dies; what a power cut
--     loses of writes that were done is not modelled.
--   * Loops over slices are structural. The loop of trimToFit runs on `used + 1` rounds and that of
--     allocateDemand on `remaining + 1`: each round takes back, or spends, a worker of a byte at
--     least. That this fuel is enough is part of the theorems about them.
--
-- Not modelled: in budget/, Describe and the printing of sizes, the usage of a cgroup and the CPU
-- load; in state/, the reading and writing of the file; in plan/, the methods that print a row of
-- the CPU report, plan/render.go, and a store that is nil; in apply/, the copies of the sandbox,
-- of which Run takes the answer only, and the status drop-in; in observe/, all but the view; in
-- serve/, all but the history; metrics/, top/ and cmd/, which gather input, run processes, or
-- print.
-- In the transaction, paths are relative to one pool directory and one backup directory, sha256,
-- hex and path/filepath are parameters, and log lines are left out. A record file is the transaction
-- that encoding/json decodes from it, or one that cannot be read or decoded; the codec is not modelled. The locks of the kernel are a
-- parameter too, with what flock(2) documents as its laws.
pub mod Common
pub mod Allocate
pub mod Apply
pub mod State
pub mod Plan
pub mod Lock
pub mod Budget
pub mod Serve
