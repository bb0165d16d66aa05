-- ===== src/Merger/Groups.antt =====
-- What `build_simulation_entries` of py_etiss_xvalid/dwarf_simdata_merger.py makes of the trace's
-- file: a group of entries for each outermost call.
use mathlib.Core.List.{append_assoc, append-nil}
use etiss_xvalid.Base.{
  ℕ, zero, suc, ◌<◌, ◌≡◌, refl, sym, ap, ◌∙◌, Option, none, List, [], ◌∷◌, ◌++◌, arith, length, map,
  All,
}
use etiss_xvalid.Base.Run.{Run, done}
use etiss_xvalid.Trace.{TraceEntry}
use etiss_xvalid.Trace.Peekable.{
  Peekable, peekable, next, upcoming, upcoming-peekable, next-cons, next-nil,
}
use etiss_xvalid.Trace.Parser.Raw.{RawEntry, write_trace, read_entry, Fits}
use etiss_xvalid.Trace.Parser.RoundTrip.{parse-write_trace}
use etiss_xvalid.Dwarf.Info.{DwarfInfo}
use etiss_xvalid.Simulation.Entry.{SimulationDataEntry, new_entry, add_dwarf_info}
use etiss_xvalid.Merger.Action.{continue, call, action}
use etiss_xvalid.Merger.Construct.{
  MergeState, perform, round, construct_loop, construct_entries_recursively, compile_entries,
  collect, build_loop, build_simulation_entries,
}
use etiss_xvalid.Merger.Calls.{Calls, Calls-shorter, Finishes, round-perform, construct_loop-Calls}

-- From an entry, and what is left of the trace: a call that does not return before the trace ends,
-- and the entries of the calls in it that do.
pub data Unreturned (d : DwarfInfo)
    : SimulationDataEntry → List TraceEntry → List SimulationDataEntry → Type 0 where
  trace_ends : {e : SimulationDataEntry} → Unreturned d e [] []
  goes_on_unreturned :
      {e e' : SimulationDataEntry} {t : TraceEntry} {ts : List TraceEntry}
      {added : List SimulationDataEntry}
      → action d t e ≡ continue e'
      → Unreturned d e' ts added
      → Unreturned d e (t ∷ ts) added
  calls_and_returns :
      {e callee : SimulationDataEntry} {t : TraceEntry} {ts between : List TraceEntry}
      {inner added : List SimulationDataEntry}
      → action d t e ≡ call callee
      → Calls d callee ts between inner
      → Unreturned d e between added
      → Unreturned d e (t ∷ ts) (inner ++ added)
  calls_unreturned :
      {e callee : SimulationDataEntry} {t : TraceEntry} {ts : List TraceEntry}
      {inner : List SimulationDataEntry}
      → action d t e ≡ call callee
      → Unreturned d callee ts inner
      → Unreturned d e (t ∷ ts) inner

-- the entry with which an outermost call begins
abbrev pub start : DwarfInfo → SimulationDataEntry
start d = add_dwarf_info d new_entry

-- The groups of a trace. A call without an entry ends them, as does the end of the trace.
pub data Groups (d : DwarfInfo) : List TraceEntry → List (List SimulationDataEntry) → Type 0 where
  group :
      {ts rest : List TraceEntry} {e : SimulationDataEntry} {es : List SimulationDataEntry}
      {groups : List (List SimulationDataEntry)}
      → Calls d (start d) ts rest (e ∷ es)
      → Groups d rest groups
      → Groups d ts ((e ∷ es) ∷ groups)
  group_unreturned :
      {ts : List TraceEntry} {e : SimulationDataEntry} {es : List SimulationDataEntry}
      → Unreturned d (start d) ts (e ∷ es)
      → Groups d ts ((e ∷ es) ∷ [])
  no_group : {ts rest : List TraceEntry} → Calls d (start d) ts rest [] → Groups d ts []
  no_group_unreturned : {ts : List TraceEntry} → Unreturned d (start d) ts [] → Groups d ts []

round-none :
    (again : MergeState → SimulationDataEntry → Run MergeState) (d : DwarfInfo)
    (entries : List SimulationDataEntry) (e : SimulationDataEntry)
    (n : Option TraceEntry × Peekable TraceEntry)
    → n.0 ≡ none
    → round again d entries e n ≡ done (n.1, entries)
unfolding round
round-none again d entries e (o, it) h = rw h refl

construct_loop_over :
    (d : DwarfInfo) (e : SimulationDataEntry) (fuel : ℕ) (it : Peekable TraceEntry)
    (entries : List SimulationDataEntry)
    → upcoming it ≡ []
    → 0 < fuel
    → Finishes (construct_loop fuel d (it, entries) e) [] entries
unfolding construct_loop
construct_loop_over d e zero it entries u h = absurd (omega arith)
construct_loop_over d e (suc fuel) it entries u h =
    let (n, w) = next-nil it u in
    rw (round-none (construct_loop fuel d) d entries e (next it) n) ((next it).1, refl, w)

construct_loop-Unreturned :
    {d : DwarfInfo} {e : SimulationDataEntry} {ts : List TraceEntry}
    {added : List SimulationDataEntry}
    → Unreturned d e ts added
    → (fuel : ℕ) (it : Peekable TraceEntry) (entries : List SimulationDataEntry) → upcoming it ≡ ts
    → length ts < fuel
    → Finishes (construct_loop fuel d (it, entries) e) [] (entries ++ added)
unfolding construct_loop perform
construct_loop-Unreturned c zero it entries u h = absurd (omega arith)
construct_loop-Unreturned {d} {e} trace_ends (suc fuel) it entries u h =
    rw (append-nil entries) (construct_loop_over d e (suc fuel) it entries u (omega arith))
construct_loop-Unreturned {d} {e} (goes_on_unreturned {t = t} a c) (suc fuel) it entries u h =
    let (n, w) = next-cons it u in
    rw (round-perform (construct_loop fuel d) d entries e t (next it) n, a)
      (construct_loop-Unreturned c fuel (next it).1 entries w (omega arith))
construct_loop-Unreturned {d} {e} (calls_and_returns {t = t} {inner = inner} {added = added} a c c')
      (suc fuel) it entries u h =
    let (n, w) = next-cons it u in
    let (it', p, v) = construct_loop-Calls c fuel (next it).1 entries w (omega arith) in
    let shorter = Calls-shorter c in
    let (it'', p', v') = construct_loop-Unreturned c' fuel it' (entries ++ inner) v (omega arith) in
    rw (round-perform (construct_loop fuel d) d entries e t (next it) n, a, p, p')
      (it'', ap (λ l. done (it'', l)) (append_assoc entries inner added), v')
construct_loop-Unreturned {d} {e} (calls_unreturned {t = t} {inner = inner} a c) (suc fuel) it
      entries u h =
    let (n, w) = next-cons it u in
    let (it', p, v) = construct_loop-Unreturned c fuel (next it).1 entries w (omega arith) in
    let (it'', p', v') = construct_loop_over d e fuel it' (entries ++ inner) v (omega arith) in
    rw (round-perform (construct_loop fuel d) d entries e t (next it) n, a, p, p') (it'', refl, v')

Unreturned-nothing :
    {d : DwarfInfo} {e : SimulationDataEntry} {ts : List TraceEntry}
    {added : List SimulationDataEntry}
    → Unreturned d e ts added
    → length ts ≡ 0
    → added ≡ []
Unreturned-nothing trace_ends h = refl
Unreturned-nothing (goes_on_unreturned a c) h = absurd (omega arith)
Unreturned-nothing (calls_and_returns a c c') h = absurd (omega arith)
Unreturned-nothing (calls_unreturned a c) h = absurd (omega arith)

Unreturned-longer :
    {d : DwarfInfo} {b e : SimulationDataEntry} {ts : List TraceEntry}
    {es : List SimulationDataEntry}
    → Unreturned d b ts (e ∷ es)
    → 0 < length ts
Unreturned-longer {ts = []} c = absurd (omega (arith, ap length (Unreturned-nothing c refl)))
Unreturned-longer {ts = t ∷ ts} c = omega arith

module _ (d : DwarfInfo) where
  compile_entries-Calls :
      (it : Peekable TraceEntry) {ts rest : List TraceEntry} {added : List SimulationDataEntry}
      → upcoming it ≡ ts
      → Calls d (start d) ts rest added
      → Finishes (compile_entries d it) rest added
  unfolding compile_entries construct_entries_recursively
  compile_entries-Calls it {ts} u c =
      construct_loop-Calls c (suc (length (upcoming it))) it [] u (omega (arith, ap length u))

  compile_entries-Unreturned :
      (it : Peekable TraceEntry) {ts : List TraceEntry} {added : List SimulationDataEntry}
      → upcoming it ≡ ts
      → Unreturned d (start d) ts added
      → Finishes (compile_entries d it) [] added
  unfolding compile_entries construct_entries_recursively
  compile_entries-Unreturned it {ts} u c =
      construct_loop-Unreturned c (suc (length (upcoming it))) it [] u (omega (arith, ap length u))

  build_loop_over :
      (fuel : ℕ) (it : Peekable TraceEntry) (before : List (List SimulationDataEntry))
      → upcoming it ≡ []
      → 0 < fuel
      → build_loop fuel d it before ≡ done before
  unfolding build_loop collect
  build_loop_over zero it before u h = absurd (omega arith)
  build_loop_over (suc fuel) it before u h =
      let (it', p, v) = compile_entries-Unreturned it u trace_ends in rw p refl

  build_loop-Groups :
      {ts : List TraceEntry} {groups : List (List SimulationDataEntry)}
      → Groups d ts groups
      → (fuel : ℕ) (it : Peekable TraceEntry) (before : List (List SimulationDataEntry))
      → upcoming it ≡ ts
      → length ts < fuel
      → build_loop fuel d it before ≡ done (before ++ groups)
  unfolding build_loop collect
  build_loop-Groups c zero it before u h = absurd (omega arith)
  build_loop-Groups (group {e = e} {es = es} {groups = groups} c g) (suc fuel) it before u h =
      let (it', p, v) = compile_entries-Calls it u c in
      let shorter = Calls-shorter c in
      rw p (
        build_loop-Groups g fuel it' (before ++ (e ∷ es) ∷ []) v (omega arith)
        ∙ ap done (append_assoc before ((e ∷ es) ∷ []) groups))
  build_loop-Groups (no_group c) (suc fuel) it before u h =
      let (it', p, v) = compile_entries-Calls it u c in rw p (ap done (sym (append-nil before)))
  build_loop-Groups (no_group_unreturned c) (suc fuel) it before u h =
      let (it', p, v) = compile_entries-Unreturned it u c in
      rw p (ap done (sym (append-nil before)))
  build_loop-Groups (group_unreturned {e = e} {es = es} c) (suc fuel) it before u h =
      let (it', p, v) = compile_entries-Unreturned it u c in
      let some_left = Unreturned-longer c in
      rw p (build_loop_over fuel it' (before ++ (e ∷ es) ∷ []) v (omega arith))

  -- Of a file that holds snapshots and accesses whose values fit their fields, the entries are
  -- built in groups as the calls in it are nested: one group for each outermost call, with the
  -- entries of the calls in it that return, in the order of their returns. A call that the trace
  -- ends in has no entry of its own, and a call without entries ends the groups. No exception is
  -- raised, where the locations of the parameters can be read.
  pub build_simulation_entries-Groups :
      (raw : List RawEntry) (groups : List (List SimulationDataEntry))
      → All Fits raw
      → Groups d (map read_entry raw) groups
      → build_simulation_entries d (write_trace raw) ≡ done groups
  unfolding build_simulation_entries
  build_simulation_entries-Groups raw groups fits g = rw (parse-write_trace raw fits) (
      build_loop-Groups g (suc (length (map read_entry raw))) (peekable (map read_entry raw)) []
        (upcoming-peekable (map read_entry raw)) (omega arith))
