-- ===== src/Lib.antt =====
-- trdb, the trace debugger of the PULP platform: it compresses the instructions that a RISC-V core
-- retires to trace packets, writes the packets as bytes, reads them back, and decompresses them
-- with the program at hand.
--
-- The parts, and where they stand:
-- - Base, Bits: tests, lists, partial results and bit operations that the other modules share.
-- - Utils: src/utils.c, the counts of sign-extendable bits and the sign extensions; Clz and Sext
--   relate them.
-- - Errors: src/error.c. A function of type `int` returns a Status, a value or an error code.
-- - Trace: struct tr_instr, struct tr_packet and their enumerations (include/trace_debugger.h).
-- - Insn: the tests of instructions of internal/disassembly_private.h and of src/trace_debugger.c;
--   Insn.Ras has the hints for the return address stack.
-- - Context: struct trdb_ctx of src/trace_debugger.c with all that compression and decompression
--   keep, trdb_new, the resets, setters and getters.
-- - BranchLen: branch_map_len of src/trace_debugger.c.
-- - Serialize: trdb_pulp_serialize_packet of src/serialize.c, format by format; Serialize.Read is
--   trdb_pulp_read_single_packet, Serialize.File writes packets to a file and reads all packets of
--   one, Serialize.Ended is about the loop of the latter, Serialize.Stitch is trdb_write_packets,
--   and Serialize.Joined, Merge, Round, Stitching and Pieces show what bits it writes. The other
--   children show what is read of what was written.
-- - Stimuli, Cvs: the readers of instructions of src/serialize.c; Stimuli.Same compares the two
--   for stimuli, Stimuli.Fits hands on to compression, Stimuli.Rows and Cvs.Files read files that
--   instructions were written to.
-- - Program: the sections and the fetch of instructions of src/trace_debugger.c and
--   src/disassembly.c, on what bfd and opcodes answer.
-- - Decompress: the resolution of addresses, update_ras and trdb_compare_instr of
--   src/trace_debugger.c. Decompress.Walk has the parts of the loops of trdb_decompress_trace,
--   Decompress.Trace the function itself. Decompress.Course and Decompress.Tells say, apart from
--   the code, what paths a program has and what a packet tells of one; Follow, Segments, Loops,
--   Endings and Packets lead from there to Decompress.Whole. Sound, Grows and Statuses are about
--   all inputs.
-- - Compress: Compress.Emit has the functions emit_* of src/trace_debugger.c, Compress.Step one
--   call of trdb_compress_trace_step, in the order of the code (enter, compress_entered,
--   compress_qualified, record_branch, reason, choose, finish), and Compress.Run the loop of
--   compress_trace in src/trdb.c. Compress.Form and Compress.Delivered follow the packets of a
--   call, Compress.Archive those of a trace, from the instructions to the file that is read;
--   Compress.Due and Resync are about resynchronisations. Compress.Supported is about traces of
--   supported instructions.
-- - Simulator: src/dpi/trdb_sv.c; Simulator.Vectors has its loops, and Simulator.Passed follows a
--   packet to the simulator.
-- - Agreement: compression and decompression together, for traces that are predictable but for
--   their branches. Agreement.Calm and Start compute the calls of the encoder, Agreement.Traces
--   the packets of a trace; Agreement.Fetches, Paths and Told relate them to paths of the program,
--   Agreement.Synced adds the start, and Agreement.Whole decompresses them. Agreement.Trap and
--   Reports add a trap at the end of the trace, Straight, Complete, Ended and Reported follow the
--   path up to it, Agreement.Recovered decompresses all of it, and Agreement.Kept and Archived
--   pass its packets through a file before that.
-- - Tests: the theorems at concrete packets, traces and words.
--
-- How they interact: the decoder walks through the program and uses the return address stack and
-- the resolution of addresses; the compression calls the serialisation to count bits; the reader
-- and the serialisation share the branch map widths and the configuration of the context; the
-- decoder's addresses follow the encoder's last address.
--
-- How the code is modelled. Numbers are natural numbers with the wrap-around of their C types
-- written out, for XLEN = 32 (no TRDB_ARCH64). State is passed and returned. A function that has
-- assertions, or shifts and array accesses that C may leave undefined, returns an Outcome: done,
-- assert_failed or undefined. `__builtin_clz` counts leading zeros, as documented. A file that is
-- read is the list of bytes ahead, with a flag for an error of the device behind them. Pointers
-- that a function gets are not null, so the checks for null have no counterpart; whether an
-- allocation succeeds is a parameter, for the packets of a trace one answer for each. A file that
-- is written holds its bytes and counts how many more its device takes. Recursion is structural, on
-- words' widths, byte counts and lists, but for the loop that reads all packets of a file: its fuel
-- is one more than the bytes ahead, and each round but the last reads a byte at least; and for the
-- loops of trdb_decompress_trace, which may never end on a program with an endless loop: their fuel
-- bounds the instructions of one packet, as many as the path of the packet has are enough.
--
-- Not modelled: logging, printing and the release of memory; the disassembler, which wraps bfd and
-- opcodes; the command line but for its compression loop.
pub mod Base
pub mod Bits
pub mod Utils
pub mod Errors
pub mod Trace
pub mod Insn
pub mod Context
pub mod BranchLen
pub mod Serialize
pub mod Program
pub mod Stimuli
pub mod Cvs
pub mod Decompress
pub mod Compress
pub mod Simulator
pub mod Agreement
pub mod Tests
