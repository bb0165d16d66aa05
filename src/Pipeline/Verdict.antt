-- ===== src/Pipeline/Verdict.antt =====
-- What a summary of py_etiss_xvalid/__main__.py without failures says of the two traces.
use etiss_xvalid.Base.{◌≡◌, ◌∙◌, sym, subst}
use etiss_xvalid.Base.Result.{ok, ok-injective}
use etiss_xvalid.Base.Run.{done}
use etiss_xvalid.Dwarf.Info.{DwarfInfo}
use etiss_xvalid.Verification.Stage.{Summary, verify_entries}
use etiss_xvalid.Verification.Agreement.Collections.{CallsAgree, verify_entries_passes}
use etiss_xvalid.Pipeline.Step.{World}
use etiss_xvalid.Pipeline.Simulator.{System}
use etiss_xvalid.Pipeline.Stages.{Arguments, Entries, run_pipeline}
use etiss_xvalid.Pipeline.Extraction.{IsExtracted}
use etiss_xvalid.Pipeline.Simulation.{IsSimulatedTwice}
use etiss_xvalid.Pipeline.Success.{run_pipeline-done}

-- A summary has no failures exactly where the entries it is of agree.
abbrev pub IsVerdictOf : Summary → Entries × Entries → Type 0
IsVerdictOf r es =
    (r.failed_verification ≡ 0 → CallsAgree es.0 es.1)
    × (CallsAgree es.0 es.1 → r.failed_verification ≡ 0)

verify_entries-IsVerdictOf :
    (args : Arguments) (es : Entries × Entries) {r : Summary}
    → verify_entries args.verbose es.0 es.1 ≡ ok r
    → IsVerdictOf r es
verify_entries-IsVerdictOf args (gr, uv) {r = r} verified =
    let (only, all) = verify_entries_passes args.verbose gr uv in
    (
      λ none_failed. only (r, verified, none_failed),
      λ agree.
          let (s, passed, none_failed) = all agree in
          subst (λ t. t.failed_verification ≡ 0) (ok-injective (sym passed ∙ verified)) none_failed,
    )

-- A run of the pipeline that returns a summary has extracted both binaries, has run the simulator
-- of each, that of the golden reference first, and has built the entries of each from the trace
-- that stood there after its run, with the debug information of its own binary; and the summary
-- has no failures exactly where these entries agree: as many calls, as many entries in each, and
-- each entry agrees with the one at its place in its last writes to global variables and in its
-- return value.
pub run_pipeline_agrees :
    (sys : System) (args : Arguments) (w : World) {r : Summary} {w' : World}
    → run_pipeline sys args w ≡ (done r, w')
    → (d : DwarfInfo) × (e : DwarfInfo) × (es : Entries × Entries) × IsExtracted sys args
        args.bin_golden_ref d
      × IsExtracted sys args args.bin_isuv e
      × IsSimulatedTwice sys args d e w es w'
      × IsVerdictOf r es
run_pipeline_agrees sys args w h =
    let (d, e, es, first, second, ran, verified) = run_pipeline-done sys args w h in
    (d, e, es, first, second, ran, verify_entries-IsVerdictOf args es verified)
