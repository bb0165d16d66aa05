-- ===== src/Merger/Named.antt =====
-- What the actions of py_etiss_xvalid/dwarf_simdata_merger.py keep of an entry.
use etiss_xvalid.Base.{
  ◌<◌, ◌≡◌, ◌⊎◌, inl, inr, refl, Bool, true, false, not, ◌||◌, Option, none, some, [], ◌∷◌, arith,
  All, length, length-append, Bool-cases,
}
use etiss_xvalid.Base.Text.{Text, text_eq, text_eq→eq}
use etiss_xvalid.Base.Dict.{Dict}
use etiss_xvalid.Trace.{Snapshot, TraceEntry, state_snapshot, dwrite, dread}
use etiss_xvalid.Dwarf.Info.{
  Subprogram, DwarfInfo, get_enclosing_subprogram, find_subprogram, encloses,
}
use etiss_xvalid.Simulation.Entry.{
  SimulationDataEntry, append_prologue_instruction, append_epilogue_instruction,
  append_dwrite_instruction, append_dread_instruction,
}
use etiss_xvalid.Merger.Action.{
  Action, continue, call, return, has_name, is_nil, append_prologue, append_epilogue, name_entry,
  callee_entry, prologue_action, epilogue_action, snapshot_action, action, is_prologue_instruction,
  is_epilogue_instruction,
}
use etiss_xvalid.Merger.Construct.{is_valid_entry}

-- Every function has a name.
abbrev pub AreNamed : DwarfInfo → Type 0
AreNamed d = All (λ e. 0 < length e.1.name) d.subprograms

-- An entry has no name yet, or it has a prologue.
abbrev pub IsStarted : SimulationDataEntry → Type 0
IsStarted e = (length e.function_name ≡ 0) ⊎ (0 < length e.prologue)

abbrev pub IsComplete : SimulationDataEntry → Type 0
IsComplete e = (0 < length e.function_name) × (0 < length e.prologue) × (0 < length e.epilogue)

is_nil-false : (t : Text) → 0 < length t → is_nil t ≡ false
is_nil-false [] h = absurd (omega arith)
is_nil-false (c ∷ t) h = refl

pub IsComplete-valid : (e : SimulationDataEntry) → IsComplete e → is_valid_entry e ≡ true
unfolding is_valid_entry
IsComplete-valid e h = ground (arith, is_nil-false e.function_name h.0)

-- What is kept by the entry of each action.
abbrev pub ActionKeeps : Action → Type 0
ActionKeeps (continue e) = IsStarted e
ActionKeeps (call e) = IsStarted e
ActionKeeps (return e) = IsComplete e

NamedAnswer : Option Subprogram → Type 0
NamedAnswer none = Unit {0}
NamedAnswer (some s) = 0 < length s.name

find-named :
    (p : Subprogram → Bool) (ds : Dict Subprogram)
    → All (λ e. 0 < length e.1.name) ds
    → NamedAnswer (find_subprogram p ds)
unfolding find_subprogram NamedAnswer
find-named p [] h = tt
find-named p ((k, s) ∷ ds) h = elim (Bool-cases (p s)) [
  | inl e ↦ rw e h.0
  | inr e ↦ rw e (find-named p ds h.1)
]

append_prologue-IsStarted :
    (s : Snapshot) (e : SimulationDataEntry) → IsStarted (append_prologue s e)
unfolding append_prologue append_prologue_instruction
append_prologue-IsStarted s e = inr (omega (arith, length-append {0}))

append_epilogue-IsComplete :
    (s : Snapshot) (e : SimulationDataEntry)
    → 0 < length e.function_name
    → 0 < length e.prologue
    → IsComplete (append_epilogue s e)
unfolding append_epilogue append_epilogue_instruction
append_epilogue-IsComplete s e n p = (n, p, omega (arith, length-append {0}))

-- The name of an entry that is named as the subprogram is.
named_as :
    (e : SimulationDataEntry) (name : Text)
    → 0 < length name
    → text_eq name e.function_name ≡ true
    → 0 < length e.function_name
named_as e name h q = rw (← text_eq→eq name e.function_name q) h

prologue_action-keeps :
    (d : DwarfInfo) (s : Snapshot) (e : SimulationDataEntry) (o : Option Subprogram)
    → IsStarted e
    → ActionKeeps (prologue_action d s e o)
prologue_action-keeps d s e none h = h
prologue_action-keeps d s e (some p) h =
    elim (Bool-cases (not (has_name e) || text_eq e.function_name p.name)) [
      | inl b ↦ rw b (append_prologue-IsStarted s (name_entry p.name e))
      | inr b ↦ rw b (unfold callee_entry in append_prologue-IsStarted s _)
    ]

epilogue_action-keeps :
    (s : Snapshot) (e : SimulationDataEntry) (o : Option Subprogram)
    → NamedAnswer o
    → IsStarted e
    → ActionKeeps (epilogue_action s e o)
unfolding NamedAnswer
epilogue_action-keeps s e none n h = h
epilogue_action-keeps s e (some p) n h = elim (Bool-cases (text_eq p.name e.function_name)) [
  | inl b ↦
      rw b (let named = named_as e p.name n b in append_epilogue-IsComplete s e named (omega arith))
  | inr b ↦ rw b h
]

snapshot_action-keeps :
    (d : DwarfInfo) (s : Snapshot) (e : SimulationDataEntry)
    → AreNamed d
    → IsStarted e
    → ActionKeeps (snapshot_action d s e)
unfolding snapshot_action get_enclosing_subprogram
snapshot_action-keeps d s e n h = elim (Bool-cases (is_prologue_instruction s.instruction)) [
  | inl b ↦ rw b (prologue_action-keeps d s e (get_enclosing_subprogram d s.pc) h)
  | inr b ↦ rw b (elim (Bool-cases (is_epilogue_instruction s.instruction)) [
    | inl c ↦ rw c (
        epilogue_action-keeps s e (get_enclosing_subprogram d s.pc)
          (find-named (encloses s.pc) d.subprograms n) h)
    | inr c ↦ rw c h
  ])
]

pub action-keeps :
    (d : DwarfInfo) (t : TraceEntry) (e : SimulationDataEntry)
    → AreNamed d
    → IsStarted e
    → ActionKeeps (action d t e)
unfolding action
action-keeps d (state_snapshot s) e n h = snapshot_action-keeps d s e n h
action-keeps d (dwrite a) e n h = unfold append_dwrite_instruction in h
action-keeps d (dread a) e n h = unfold append_dread_instruction in h
