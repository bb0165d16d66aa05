-- ===== src/Pipeline/Success.antt =====
-- What a run of the pipeline of py_etiss_xvalid/__main__.py that returns a summary has done.
use etiss_xvalid.Base.{ℕ, ◌≡◌, sym, ap, subst, ◌∙◌, Bool, true, false, some, List}
use etiss_xvalid.Base.Result.{ok, >>=-eq-ok, other_exception}
use etiss_xvalid.Base.Run.{done, of_result}
use etiss_xvalid.Dwarf.Info.{DwarfInfo}
use etiss_xvalid.Merger.Construct.{build_simulation_entries}
use etiss_xvalid.Verification.Stage.{Summary, verify_entries}
use etiss_xvalid.Pipeline.Step.{World, sequence, lift}
use etiss_xvalid.Pipeline.Step.Laws.{sequence-done, or_raise-done}
use etiss_xvalid.Pipeline.Simulator.{System, simulator_command}
use etiss_xvalid.Pipeline.Stages.{
  Arguments, extract_both, Entries, pcs_text, simulate_both, log_snapshot_entries, log_and_verify,
  simulate_and_conclude, conclude, verify, run_pipeline,
}
use etiss_xvalid.Pipeline.Extraction.{IsExtracted, raising-ok, extract_both-ok}
use etiss_xvalid.Pipeline.Simulation.{IsSimulated, IsSimulatedTwice, lift-done, simulate_both-done}

log_and_verify-ok :
    (args : Arguments) (es : Entries × Entries) {r : Summary}
    → log_and_verify args es ≡ ok r
    → verify_entries args.verbose es.0 es.1 ≡ ok r
unfolding log_and_verify verify
log_and_verify-ok args (gr, uv) h =
    let (ms, logged, rest) = >>=-eq-ok (log_snapshot_entries args gr) _ h in
    let (ns, logged2, rest2) = >>=-eq-ok (log_snapshot_entries args uv) _ rest in
    raising-ok other_exception (verify_entries args.verbose gr uv) rest2

-- A run of the pipeline that returns a summary has opened and extracted both binaries, of
-- architectures that are supported; has run the simulator of each, that of the golden reference
-- first, while the addresses of its function of interest were in their file, and that file is gone
-- behind each; has built the entries from the trace that stood there after each run, which had
-- exited with success; and the summary is that of the verification of these entries.
pub run_pipeline-done :
    (sys : System) (args : Arguments) (w : World) {r : Summary} {w' : World}
    → run_pipeline sys args w ≡ (done r, w')
    → (d : DwarfInfo) × (e : DwarfInfo) × (es : Entries × Entries) × IsExtracted sys args
        args.bin_golden_ref d
      × IsExtracted sys args args.bin_isuv e
      × IsSimulatedTwice sys args d e w es w'
      × (verify_entries args.verbose es.0 es.1 ≡ ok r)
unfolding run_pipeline
run_pipeline-done sys args w h =
    let (ds, w1, extracted, rest) =
      sequence-done (lift (of_result (extract_both sys args))) (simulate_and_conclude sys args) w (
        or_raise-done other_exception
          (sequence (lift (of_result (extract_both sys args))) (simulate_and_conclude sys args)) w
          h) in
    let (both, same) = lift-done (extract_both sys args) w extracted in
    let (es, w2, simulated, concluded) =
      sequence-done (simulate_both sys args ds) (conclude args) w (rw same at rest) in
    let (verified, same2) = lift-done (log_and_verify args es) w2 concluded in
    let (first, second) = extract_both-ok sys args both in
    (
      ds.0,
      ds.1,
      es,
      first,
      second,
      subst (IsSimulatedTwice sys args ds.0 ds.1 w es) (sym same2)
          (simulate_both-done sys args ds w simulated),
      log_and_verify-ok args es verified,
    )

-- The simulator's run of the second binary leaves the trace as it is.
abbrev pub WritesNoTrace : System → Arguments → Type 0
WritesNoTrace sys args =
    (w after : World) (b : Bool)
    → sys.run_process (simulator_command args.etiss_path args.etiss_executable args.ini_isuv true) w
      ≡ some (b, after)
    → after.trace_bin ≡ w.trace_bin

some-injective {ℓ} : {A : Type ℓ} {a b : A} → some a ≡ some b → a ≡ b
some-injective h = cc

stale_trace :
    (sys : System) (args : Arguments) (d e : DwarfInfo) (es : Entries × Entries)
    (w between w' : World)
    → WritesNoTrace sys args
    → IsSimulated sys args d args.ini_golden_ref false w es.0 between
    → IsSimulated sys args e args.ini_isuv true between es.1 w'
    → (trace : List ℕ) × (between.trace_bin ≡ some trace)
      × (build_simulation_entries d trace ≡ done es.0)
      × (build_simulation_entries e trace ≡ done es.1)
stale_trace sys args d e es w between w' silent (s, t, after, f, ran, there, built, same)
      (s2, t2, after2, f2, ran2, there2, built2, same2) =
    let left : between.trace_bin ≡ some t = ap (λ v. v.trace_bin) same ∙ there in
    let found : some t2 ≡ between.trace_bin =
      sym there2 ∙ silent (record between { pcs_tmp = some (pcs_text s2) }) after2 true ran2 in
    let same_trace : t2 ≡ t = some-injective (found ∙ left) in
    (t, left, built, subst (λ b. build_simulation_entries e b ≡ done es.1) same_trace built2)

-- Where the simulator's run of the second binary leaves the trace as it is, a run of the pipeline
-- that returns a summary has extracted both binaries, has simulated the golden reference, has
-- built the entries of both from the one trace that this run left, each with the debug information
-- of its own binary, and has verified them: the trace of the golden reference is compared with
-- itself, and nothing is raised.
pub run_pipeline_stale_trace :
    (sys : System) (args : Arguments) (w : World) {r : Summary} {w' : World}
    → WritesNoTrace sys args
    → run_pipeline sys args w ≡ (done r, w')
    → (d : DwarfInfo) × (e : DwarfInfo) × (between : World) × (trace : List ℕ) × (es : Entries
        × Entries)
      × IsExtracted sys args args.bin_golden_ref d
      × IsExtracted sys args args.bin_isuv e
      × IsSimulated sys args d args.ini_golden_ref false w es.0 between
      × (between.trace_bin ≡ some trace)
      × (build_simulation_entries d trace ≡ done es.0)
      × (build_simulation_entries e trace ≡ done es.1)
      × (verify_entries args.verbose es.0 es.1 ≡ ok r)
run_pipeline_stale_trace sys args w {w' = w'} silent h =
    let (d, e, es, first, second, (between, ran, ran2), verified) =
      run_pipeline-done sys args w h in
    let (trace, left, built, built2) = stale_trace sys args d e es w between w' silent ran ran2 in
    (d, e, between, trace, es, first, second, ran, left, built, built2, verified)
