-- ===== src/Tests/Pipelines.antt =====
-- py_etiss_xvalid/__main__.py on a small binary.
use etiss_xvalid.Base.{
  ℕ, ◌≡◌, refl, true, false, none, some, List, [], ◌∷◌, replicate, if◌then◌else◌, sym, subst, arith,
  inr,
}
use etiss_xvalid.Base.Text.{Text, codes, text_eq}
use etiss_xvalid.Base.Result.{Succeeds, ok, ok-injective}
use etiss_xvalid.Base.Run.{done}
use etiss_xvalid.Dwarf.Extractor.Die.{subprogram_tag, other_tag, die, no_die, child}
use etiss_xvalid.Dwarf.Extractor.Binary.{CompilationUnit, ElfFile}
use etiss_xvalid.Trace.Parser.Raw.{RawEntry, raw_snapshot, write_trace, write_snapshot}
use etiss_xvalid.Verification.Stage.{Summary}
use etiss_xvalid.Pipeline.Step.{World}
use etiss_xvalid.Pipeline.Simulator.{System, simulator_command}
use etiss_xvalid.Pipeline.Stages.{Arguments, Entries, run_pipeline, main}
use etiss_xvalid.Pipeline.Extraction.{IsExtracted}
use etiss_xvalid.Pipeline.Simulation.{IsSimulated, IsSimulatedTwice}
use etiss_xvalid.Pipeline.Success.{WritesNoTrace, run_pipeline-done, run_pipeline_stale_trace}
use etiss_xvalid.Pipeline.Verdict.{IsVerdictOf, run_pipeline_agrees}
use etiss_xvalid.Pipeline.Ends.{NamesFunctions, EndsUnless, HangsOnOne, main_ends}
use etiss_xvalid.Merger.Named.{AreNamed}
use etiss_xvalid.Dwarf.Info.{DwarfInfo, get_enclosing_subprogram}
use etiss_xvalid.Dwarf.Extractor.Binary.{extract_dwarf_info}
use etiss_xvalid.Merger.Action.{action, append_prologue, name_entry, append_epilogue}
use etiss_xvalid.Merger.Construct.{
  build_simulation_entries, build_loop, compile_entries, construct_entries_recursively,
  construct_loop, close_entry, is_valid_entry, drain,
}
use etiss_xvalid.Verification.Stage.{verify_entries}
use etiss_xvalid.Base.Utf8.{decode_utf_8}
use etiss_xvalid.Trace.Parser.{parse_trace_file, read_loop, read_round, parse_state_snapshot}
use etiss_xvalid.Base.Bytes.{le_bytes, words_bytes, words}
use etiss_xvalid.Trace.Peekable.{next, upcoming}
use etiss_xvalid.Simulation.Entry.{
  append_prologue_instruction, append_epilogue_instruction, add_formal_param_locations,
}
use etiss_xvalid.Dwarf.Location.{frame_location_value}
use etiss_xvalid.Dwarf.Types.{base}
use etiss_xvalid.Dwarf.Overview.{str_dwarf_info}
use etiss_xvalid.Dwarf.Overview.Shown.{IsDescribed, str_dwarf_info-Succeeds}
use etiss_xvalid.Tests.Extraction.{int_entry, of_text, tools}
use etiss_xvalid.Tests.Extraction.Types.{int_Describes}
use etiss_xvalid.Tests.Extraction.Binaries.{
  int_variable, f_head, start, f_attributes, f_children, unit, binary,
}

abbrev rv32imac_unit : CompilationUnit
rv32imac_unit = record unit {
  top =
      die other_tag (of_text (codes "DW_AT_producer") (codes "GNU C17 -march=rv32imac_zicsr") ∷ [])
        (child (die subprogram_tag f_attributes f_children) no_die);
}

abbrev file : ElfFile
file = record binary { units = rv32imac_unit ∷ [] }

-- the instructions at which `f` is entered and left
abbrev instruction_at : ℕ → Text → RawEntry
instruction_at pc instruction = raw_snapshot (record {
  pc = pc;
  sp = 4096;
  x = replicate 32 7;
  f = replicate 32 0;
  instruction = instruction;
})

abbrev trace : List ℕ
unfolding write_trace
trace = write_trace (instruction_at 256 (codes "cswsp") ∷ instruction_at 268 (codes "cjr") ∷ [])

-- A simulator that writes this trace for `a.ini`, and nothing for `b.ini`.
abbrev leave : List Text → World → World
unfolding text_eq
leave (executable ∷ ini ∷ options) w =
    if text_eq ini (codes "-ia.ini") then record w { trace_bin = some trace } else w
leave _ w = w

abbrev system : System
system = record {
  tools = tools;
  limit = 8;
  open_binary = λ path. ok file;
  run_process = λ command w. some (true, leave command w);
}

abbrev arguments : Arguments
arguments = record {
  bin_golden_ref = codes "a.elf";
  ini_golden_ref = codes "a.ini";
  bin_isuv = codes "b.elf";
  ini_isuv = codes "b.ini";
  src = codes "a.c";
  fun = codes "f";
  etiss_path = codes "bin";
  etiss_executable = codes "etiss";
  debug = false;
  verbose = false;
}

abbrev no_files : World
no_files = record { pcs_tmp = none; trace_bin = none }

abbrev verified : Summary
verified = record { passed_verification = 1; failed_verification = 0; total = 1; output = [] }

abbrev files : World
files = record { pcs_tmp = none; trace_bin = some trace }

-- One call is verified, and its entries agree.
system_runs : run_pipeline system arguments no_files ≡ (done verified, files)
unfolding run_pipeline decode_utf_8 build_simulation_entries parse_trace_file read_loop trace
    write_snapshot le_bytes read_round parse_state_snapshot words_bytes build_loop compile_entries
    construct_entries_recursively construct_loop next action get_enclosing_subprogram upcoming
    append_prologue append_prologue_instruction name_entry close_entry is_valid_entry drain
    append_epilogue append_epilogue_instruction frame_location_value add_formal_param_locations
    words
system_runs = refl

run_pipeline-done_example :
    (d : DwarfInfo) × (e : DwarfInfo) × (es : Entries × Entries) × IsExtracted system arguments
      (codes "a.elf")
      d
    × IsExtracted system arguments (codes "b.elf") e
    × IsSimulatedTwice system arguments d e no_files es files
    × (verify_entries false es.0 es.1 ≡ ok verified)
run_pipeline-done_example = run_pipeline-done system arguments no_files system_runs

writes_nothing : WritesNoTrace system arguments
unfolding text_eq simulator_command
writes_nothing w after b h = cc

run_pipeline_stale_trace_example :
    (d : DwarfInfo) × (e : DwarfInfo) × (between : World) × (bytes : List ℕ) × (es : Entries
      × Entries)
    × IsExtracted system arguments (codes "a.elf") d
    × IsExtracted system arguments (codes "b.elf") e
    × IsSimulated system arguments d (codes "a.ini") false no_files es.0 between
    × (between.trace_bin ≡ some bytes)
    × (build_simulation_entries d bytes ≡ done es.0)
    × (build_simulation_entries e bytes ≡ done es.1)
    × (verify_entries false es.0 es.1 ≡ ok verified)
run_pipeline_stale_trace_example =
    run_pipeline_stale_trace system arguments no_files writes_nothing system_runs

-- The function that is extracted has a name.
file_named :
    (path : Text) (d : DwarfInfo)
    → extract_dwarf_info tools 8 (codes "a.c") (codes "f") path file ≡ ok d
    → AreNamed d
unfolding run_pipeline decode_utf_8 build_simulation_entries parse_trace_file read_loop trace
    write_snapshot le_bytes read_round parse_state_snapshot words_bytes build_loop compile_entries
    construct_entries_recursively construct_loop next action get_enclosing_subprogram upcoming
    append_prologue append_prologue_instruction name_entry close_entry is_valid_entry drain
    append_epilogue append_epilogue_instruction frame_location_value add_formal_param_locations
    words
file_named path d h = subst AreNamed (ok-injective h) (omega arith)

system_names : NamesFunctions system arguments
system_names path d (f, opened, extracted, supported) =
    file_named path d (rw (sym (ok-injective opened)) at extracted)

main_ends_example : EndsUnless (HangsOnOne system arguments) (main system arguments no_files)
main_ends_example = main_ends system arguments no_files system_names

abbrev shown : DwarfInfo
shown = record start {
  global_variables = int_variable (codes "y") ∷ [];
  subprograms =
      (codes "f", record f_head { formal_parameters = int_variable (codes "x") ∷ [] }) ∷ [];
}

int_described : IsDescribed tools (base (codes "int") 4)
int_described = (int_entry, int_Describes)

str_dwarf_info-Succeeds_example : Succeeds (str_dwarf_info shown)
str_dwarf_info-Succeeds_example =
    str_dwarf_info-Succeeds tools shown (int_described, tt)
      ((inr int_described, (int_described, tt), tt), tt)

run_pipeline_agrees_example :
    (d : DwarfInfo) × (e : DwarfInfo) × (es : Entries × Entries) × IsExtracted system arguments
      (codes "a.elf")
      d
    × IsExtracted system arguments (codes "b.elf") e
    × IsSimulatedTwice system arguments d e no_files es files
    × IsVerdictOf verified es
run_pipeline_agrees_example = run_pipeline_agrees system arguments no_files system_runs
