-- ===== src/Merger/Draining.antt =====
-- The loop after a return instruction of py_etiss_xvalid/dwarf_simdata_merger.py: it takes entries of
-- the trace away at most.
use etiss_xvalid.Base.{
  ℕ, zero, suc, ◌≤◌, ◌≡◌, inl, inr, Option, none, some, List, [], ◌∷◌, arith, length, length-append,
  Bool-cases, ap,
}
use etiss_xvalid.Trace.{Snapshot, TraceEntry, state_snapshot, dwrite, dread}
use etiss_xvalid.Trace.Peekable.{
  Peekable, peek, next, upcoming, peek-upcoming, next-upcoming, rest_of,
}
use etiss_xvalid.Dwarf.Info.{DwarfInfo}
use etiss_xvalid.Simulation.Entry.{SimulationDataEntry, append_epilogue_instruction}
use etiss_xvalid.Merger.Action.{append_epilogue}
use etiss_xvalid.Merger.Construct.{
  append_if_snapshot, next_entry_is_cjr_for_same_subprogram, drain, drain_after,
}
use etiss_xvalid.Merger.Named.{IsComplete}

abbrev pub left : Peekable TraceEntry → ℕ
left it = length (upcoming it)

length-rest_of {ℓ} : {A : Type ℓ} (l : List A) → length (rest_of l) ≤ length l
length-rest_of [] = omega arith
length-rest_of (x ∷ l) = omega arith

left-next : (it : Peekable TraceEntry) → left (next it).1 ≤ left it
left-next it = rw (next-upcoming it).1 (length-rest_of (upcoming it))

left-peek : (it : Peekable TraceEntry) → left (peek it).1 ≡ left it
left-peek it = ap length (peek-upcoming it).1

-- Draining epilogue instructions takes entries away at most, and leaves a complete entry complete.
append_if_snapshot-IsComplete :
    (o : Option TraceEntry) (e : SimulationDataEntry)
    → IsComplete e
    → IsComplete (append_if_snapshot o e)
unfolding append_epilogue append_epilogue_instruction
append_if_snapshot-IsComplete none e h = h
append_if_snapshot-IsComplete (some (state_snapshot s)) e h =
    (h.0, h.1, omega (arith, length-append {0}))
append_if_snapshot-IsComplete (some (dwrite a)) e h = h
append_if_snapshot-IsComplete (some (dread a)) e h = h

abbrev Drained : Peekable TraceEntry → Peekable TraceEntry × SimulationDataEntry → Type 0
Drained it r = (left r.0 ≤ left it) × IsComplete r.1

drain-Drained :
    (fuel : ℕ) (d : DwarfInfo) (s : Snapshot) (it : Peekable TraceEntry) (e : SimulationDataEntry)
    → IsComplete e
    → Drained it (drain fuel d s it e)
unfolding drain
drain-Drained zero d s it e h = (omega arith, h)
drain-Drained (suc fuel) d s it e h =
    elim (Bool-cases (next_entry_is_cjr_for_same_subprogram d s (peek it).0)) [
      | inl b ↦
          let n = next (peek it).1 in
          let r =
            drain-Drained fuel d s n.1 (append_if_snapshot n.0 e)
              (append_if_snapshot-IsComplete n.0 e h) in
          rw (b, drain) (omega (arith, r.0, left-next (peek it).1, left-peek it), r.1)
      | inr b ↦ rw (b, drain) (omega (arith, left-peek it), h)
    ]

pub drain_after-Drained :
    (d : DwarfInfo) (t : TraceEntry) (it : Peekable TraceEntry) (e : SimulationDataEntry)
    → IsComplete e
    → Drained it (drain_after d t it e)
drain_after-Drained d (state_snapshot s) it e h = drain-Drained (left it) d s it e h
drain_after-Drained d (dwrite a) it e h = (omega arith, h)
drain_after-Drained d (dread a) it e h = (omega arith, h)
