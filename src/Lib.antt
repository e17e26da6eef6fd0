-- ===== src/Lib.antt =====
-- Verification of the task-graph library and of the memory library of XSigma (Library/Graph and
-- Library/Memory).
--
-- A client assembles nodes and edges in a graph_builder and freezes them into a dependency_graph; a
-- graph_executor then runs a frozen graph, whole, restricted to the ancestors of some sinks, or
-- incrementally against a cache of earlier results, on a pool of worker threads. graph_passes holds
-- the analyses that the executor uses.
--
-- The memory library has a caching allocator for devices, cuda_caching_allocator: it takes segments from
-- the driver, cuts them into blocks, keeps the freed blocks in two pools by size class, joins neighbours,
-- waits for the work of other streams by events, and gives whole segments back when the cache is too large.
-- It counts in unified_cache_stats, keeps a gpu_memory_history, and shows its blocks in a snapshot.
-- profiled_cpu_memory_reporter counts the allocations of the CPU.
--
-- Which file models which part:
--   Common, Common/*        Boolean tests, lists, finite sums and counting over the native numbers
--   Graph/Types             Library/Graph/graph_types.h: graph_status
--   Graph/Dependency        Library/Graph/dependency_graph.h: the frozen graph and its accessors
--   Graph/Builder           Library/Graph/graph_builder.h and graph_builder.cpp: add_node, depends_on,
--                           with_node_version, node_version and build, loop by loop; the files below it
--                           treat the edge loop, Kahn's algorithm, cycles, CSR packing and priorities
--   Graph/Passes            Library/Graph/graph_passes.cpp: ancestor_set, consumer_counts and
--                           prune_to_sinks
--   Graph/Executor/Step     Library/Graph/graph_executor.cpp: execute_node and the ready queue, as atomic
--                           steps of any number of workers, and cancel
--   Graph/Executor/Plan     the constructor of run_state, the entry points and the dirty propagation
--   Graph/Executor/Collect  the results and the status at the end of execute
--   Graph/Executor/*        the invariant of a run and its preservation (Counters, Liveness, Dataflow,
--                           Body, Invariant, Preserve), the initial states (Start, Restricted), the
--                           sequential evaluation (Solve), runs (Runs), their results (Report),
--                           their progress (Progress) and end (Termination), and what an incremental
--                           run recomputes (Incremental)
--   Graph/Tests             small graphs and runs on which the theorems are applied
--   Memory/Config           Library/Memory/gpu/caching_allocator_config.h: size classes and rounding
--   Memory/History          Library/Memory/profiler/gpu_memory_snapshot.h: gpu_memory_history
--   Memory/Snapshot         the same file: add_snapshot_block and finish_snapshot
--   Memory/Stats            Library/Memory/profiler/unified_memory_stats.h and unified_memory_stats.cpp
--   Memory/Reporter         Library/Memory/profiler/profiled_cpu_memory_reporter.cpp
--   Memory/Allocator        Library/Memory/gpu/cuda_caching_allocator.cpp: the data; below it, Pools
--                           (get_free_block), Split (alloc_found_block), Merge (free_block), Events
--                           (insert_events, process_events, synchronize_and_free_events), Release
--                           (release_cached_blocks, trim_cache), Entry (allocate, deallocate and the
--                           other public operations), Snapshots (snapshot); and for proofs Shape and
--                           the files below it (the geometry of the blocks), Fit, Victim, Trim, Usage,
--                           and Valid with the files below it (the invariant of the states between
--                           operations)
--   Memory/Tests            inputs on which the theorems about Library/Memory are applied
--
-- Numbers. std::size_t counts of nodes and edges are natural numbers, since they are bounded by what
-- is in memory; what the code stores in 32 bits is reduced modulo 2 ^ 32, and the theorems on build
-- ask for fewer than 2 ^ 32 nodes and edges, the cap that dependency_graph.h documents.
--
-- The std::size_t numbers of Library/Memory, which count bytes, are kept modulo 2 ^ 64 as the code does.
-- A size that is reported as std::int64_t is an integer; the operands of driver_call_reduction are rounded to
-- doubles. event_count, an int, is a natural number. Pointers, streams and events are numbers, 0 for null, and a cache_block is named by the number of
-- its creation.
--
-- Driver. What the CUDA or HIP runtime answers about the device and about events (Runtime), what the driver answers to a request
-- for a segment (DriverReply) and the callbacks that free memory are parameters. Each operation of the
-- allocator runs under its lock. allocate drops the lock for the driver call, so it is cut there:
-- allocate_search, obtain_segment and hand_out may stand in any order with the operations of other threads;
-- allocate is the sequence without any between.
--
-- The free pools are the sequences that a std::set has, sorted by the comparator; a block that is equivalent to one
-- of the pool is not inserted. device_guard, which selects the device and throws if it cannot, is an answer of
-- Runtime.
--
-- Fuel. Kahn's loop and the walk of ancestor_set have as many rounds as there are nodes; each node is
-- taken at most once, so the queue and the stack are empty at the end. The sequential evaluation goes
-- as deep as there are nodes, and no chain of dependencies is longer.
-- trim_cache has as many rounds as there are cached blocks; each takes one out of its pool.
--
-- Threads. The workers are interleaved in the steps in which they touch the shared state: a pop, the
-- body of a node, each decrement of a consumer count, each decrement of an in-degree together with the
-- push that it leads to, and the count of a finished node. A cancellation may come between any two steps
-- of any run, though only run_async hands out a flag for it. std::any is a type parameter and a node's
-- work is a function that returns a value or throws.
--
-- Not modelled: the observation hooks, whose exceptions are swallowed; the thread pool and std::async;
-- keyed_graph_builder; of the caching allocator, the driver's virtual-memory calls, the memory fraction, a
-- floating-point number, the destructor and the registry of allocators;
-- the Metal allocator, which is Objective-C++; the allocation of CPU memory, which calls the platform; and the
-- other libraries of the repository (Core, Vectorization, Models).
pub mod Common
pub mod Graph
pub mod Memory
