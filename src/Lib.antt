-- ===== src/Lib.antt =====
-- etiss-xvalid checks an instruction set extension of the ETISS simulator: it runs two binaries of one
-- C program, a golden reference and one for the instruction set under verification, and compares what
-- every call of a function returned and wrote to global variables. This library models the Python
-- program of py_etiss_xvalid/, from the binaries' debugging entries and the trace that the simulator
-- writes to the report.
--
-- The parts, and the files that model them:
--
-- - py_etiss_xvalid/util/trace_parser.py and peekable_iter.py: Trace. A file is the list of its bytes.
-- - py_etiss_xvalid/entity/dwarf/ and util/gcc_dwarf_rv_mapper.py: Dwarf. Types, variables and
--   subprograms, and the look-ups of the merger; Dwarf/Show and Dwarf/Overview have their texts.
-- - py_etiss_xvalid/dwarf_info_extractor.py: Dwarf/Extractor. Types, subprograms, variables, locations
--   and frames out of the debugging entries of a binary. pyelftools is a parameter: its entries are
--   data, and a record has its functions.
-- - py_etiss_xvalid/entity/simulation/: Simulation. An entry, that is the data of one function call; a
--   method that changes it is a function that returns the new one.
-- - py_etiss_xvalid/dwarf_simdata_merger.py: Merger. The trace's entries are grouped by function call,
--   with a recursive call for a call in the trace; the iterator and the list of entries, which the
--   source shares, are passed on and returned.
-- - py_etiss_xvalid/entity/verification/rv32_return_register_layout.py: Layout. The bit ranges that a
--   struct's members take in a return register.
-- - py_etiss_xvalid/entity/march/ and entity/dwarf/march_manager.py: March. Struct layout, and return
--   values on rv32im, rv32imac and rv32imafdc. Floats are decoded from their bits, with Python's `==`.
-- - py_etiss_xvalid/verification_stage.py, entity/verification/verification_entry.py, and
--   verify_entries of __main__.py: Verification. Reports are lists of lines, a constructor for each
--   message.
-- - py_etiss_xvalid/__main__.py and etiss_simulation.py: Pipeline. A stage is a step on a World, the two
--   files that the program shares with the simulator, pcs.tmp and the trace. A System, a parameter,
--   opens binaries, and runs the simulator's process, which changes these files and may never exit,
--   since the source gives it no timeout. Dwarf, Simulation, Merger and Verification are what the
--   stages call.
-- - Base: numbers, lists, texts as code points, dictionaries in the order of insertion, hexadecimal
--   text, bytes, floats, exceptions. Tests: concrete runs, and every theorem below applied to one.
--
-- A function keeps its source's name. Exceptions are values of Exn: a `Result` raises or returns. The
-- merger's loops take fuel, the number of entries still to come and one more, since every round but
-- the last takes one; a run that is short of it is `out_of_fuel`, and so is one whose simulator never
-- exits. The parser's loop takes the number of the file's bytes, of which every round but the last takes
-- some. The extraction of a type takes the number of nested calls that the interpreter allows: the next
-- one raises. Numbers are natural numbers; the offsets of parameters and of frames are integers.
-- Registers of a snapshot are 32 bits wide (64 bits
-- for floating point), as the parser reads them.
--
-- Not modelled: log messages other than the texts of the debug information and of the entries; the
-- parsing of the command line and the logger; failures of writing or removing pcs.tmp; Python's
-- RecursionError in the merger, for a trace of about a thousand calls in one another (that of the types' extraction is
-- modelled); the negative dimension that the source computes of an array's subrange whose lower bound
-- is above its upper bound by more than 1; the C++ plugins that write the trace.
pub mod Base
pub mod Trace
pub mod Simulation
pub mod Layout
pub mod Dwarf
pub mod March
pub mod Merger
pub mod Verification
pub mod Pipeline
pub mod Tests
