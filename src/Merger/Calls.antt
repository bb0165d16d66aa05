-- ===== src/Merger/Calls.antt =====
-- What `construct_entries_recursively` makes of a trace, told without its iterator: the calls of a
-- trace, as a relation between what is left of the trace before and after.
use mathlib.Core.List.{append_assoc, append-nil}
use etiss_xvalid.Base.{
  ℕ, zero, suc, ◌≤◌, ◌<◌, ◌≡◌, refl, sym, ap, ◌∙◌, true, false, Option, none, some, List, [], ◌∷◌,
  ◌++◌, arith, length, Bool-cases, inl, inr, if◌then◌else◌,
}
use etiss_xvalid.Base.Result.{ok, >>=-eq-ok}
use etiss_xvalid.Base.Run.{Run, done}
use etiss_xvalid.Trace.{Snapshot, TraceEntry, state_snapshot}
use etiss_xvalid.Trace.Peekable.{
  Peekable, peek, next, upcoming, peek-upcoming, next-upcoming, next-cons, first?, rest_of,
}
use etiss_xvalid.Dwarf.Info.{DwarfInfo, get_subprogram_by_name}
use etiss_xvalid.Simulation.Entry.{SimulationDataEntry, add_dwarf_info, add_global_variables}
use etiss_xvalid.Merger.Action.{continue, call, return, action}
use etiss_xvalid.Merger.Construct.{
  append_if_snapshot, next_entry_is_cjr_for_same_subprogram, drain, is_valid_entry,
  add_param_locations, params_of, close_entry, finish, MergeState, perform, round, construct_loop,
  construct_entries_recursively,
}

-- After a function's return instruction, the ones of the same function that follow it at once.
abbrev pub drained :
    DwarfInfo
    → Snapshot
    → SimulationDataEntry
    → List TraceEntry
    → List TraceEntry × SimulationDataEntry
drained d s e [] = ([], e)
drained d s e (t ∷ ts) =
    let rest = drained d s (append_if_snapshot (some t) e) ts in
    if next_entry_is_cjr_for_same_subprogram d s (some t) then rest else (t ∷ ts, e)

-- From an entry, and what is left of the trace: a call that returns, what is then left, and the
-- entries of the calls in it, in the order of their returns, the call itself last.
pub data Calls (d : DwarfInfo)
    : SimulationDataEntry
      → List TraceEntry
      → List TraceEntry
      → List SimulationDataEntry
      → Type 0 where
  goes_on :
      {e e' : SimulationDataEntry} {t : TraceEntry} {ts rest : List TraceEntry}
      {added : List SimulationDataEntry}
      → action d t e ≡ continue e'
      → Calls d e' ts rest added
      → Calls d e (t ∷ ts) rest added
  calls :
      {e callee : SimulationDataEntry} {t : TraceEntry} {ts between rest : List TraceEntry}
      {inner added : List SimulationDataEntry}
      → action d t e ≡ call callee
      → Calls d callee ts between inner
      → Calls d e between rest added
      → Calls d e (t ∷ ts) rest (inner ++ added)
  returns :
      {e e' e'' : SimulationDataEntry} {s : Snapshot} {ts rest : List TraceEntry}
      {added : List SimulationDataEntry}
      → action d (state_snapshot s) e ≡ return e'
      → drained d s e' ts ≡ (rest, e'')
      → close_entry d e'' [] ≡ ok added
      → Calls d e (state_snapshot s ∷ ts) rest added

none_is_no_cjr :
    (d : DwarfInfo) (s : Snapshot) → next_entry_is_cjr_for_same_subprogram d s none ≡ false
unfolding next_entry_is_cjr_for_same_subprogram
none_is_no_cjr d s = refl

drain-drained :
    (fuel : ℕ) (d : DwarfInfo) (s : Snapshot) (it : Peekable TraceEntry) (e : SimulationDataEntry)
    (ts : List TraceEntry)
    → upcoming it ≡ ts
    → length ts ≤ fuel
    → (upcoming (drain fuel d s it e).0 ≡ (drained d s e ts).0)
      × ((drain fuel d s it e).1 ≡ (drained d s e ts).1)
unfolding drain
drain-drained zero d s it e [] u h = (u, refl)
drain-drained zero d s it e (t ∷ ts) u h = absurd (omega arith)
drain-drained (suc fuel) d s it e [] u h =
    let p : (peek it).0 ≡ none = (peek-upcoming it).0 ∙ ap first? u in
    let b : next_entry_is_cjr_for_same_subprogram d s (peek it).0 ≡ false =
      rw p (none_is_no_cjr d s) in
    rw (b, drain) ((peek-upcoming it).1 ∙ u, refl)
drain-drained (suc fuel) d s it e (t ∷ ts) u h =
    let p : (peek it).0 ≡ some t = (peek-upcoming it).0 ∙ ap first? u in
    let v : upcoming (peek it).1 ≡ t ∷ ts = (peek-upcoming it).1 ∙ u in
    let n : (next (peek it).1).0 ≡ some t = (next-upcoming (peek it).1).0 ∙ ap first? v in
    let w : upcoming (next (peek it).1).1 ≡ ts = (next-upcoming (peek it).1).1 ∙ ap rest_of v in
    elim (Bool-cases (next_entry_is_cjr_for_same_subprogram d s (some t))) [
      | inl b ↦
          let b' : next_entry_is_cjr_for_same_subprogram d s (peek it).0 ≡ true = rw p b in
          rw (b', drain, n, b)
            (drain-drained fuel d s (next (peek it).1).1 (append_if_snapshot (some t) e) ts w
              (omega arith))
      | inr b ↦
          let b' : next_entry_is_cjr_for_same_subprogram d s (peek it).0 ≡ false = rw p b in
          rw (b', drain, b) (v, refl)
    ]

length-drained :
    (d : DwarfInfo) (s : Snapshot) (e : SimulationDataEntry) (ts : List TraceEntry)
    → length (drained d s e ts).0 ≤ length ts
length-drained d s e [] = omega arith
length-drained d s e (t ∷ ts) =
    elim (Bool-cases (next_entry_is_cjr_for_same_subprogram d s (some t))) [
      | inl b ↦ rw b (omega (arith, length-drained d s (append_if_snapshot (some t) e) ts))
      | inr b ↦ rw b (omega arith)
    ]

pub Calls-shorter :
    {d : DwarfInfo} {e : SimulationDataEntry} {ts rest : List TraceEntry}
    {added : List SimulationDataEntry}
    → Calls d e ts rest added
    → length rest < length ts
Calls-shorter (goes_on a c) = omega (arith, Calls-shorter c)
Calls-shorter (calls a c c') = omega (arith, Calls-shorter c, Calls-shorter c')
Calls-shorter {d} (returns {e' = e'} {s = s} {ts = ts} a q h) =
    let l = length-drained d s e' ts in omega (arith, l, ap (λ r. length r.0) q)

ok-entries : {x y : List SimulationDataEntry} → ok x ≡ ok y → x ≡ y
ok-entries h = cc

close_entry-append :
    (d : DwarfInfo) (e : SimulationDataEntry) (entries added : List SimulationDataEntry)
    → close_entry d e [] ≡ ok added
    → close_entry d e entries ≡ ok (entries ++ added)
unfolding close_entry
close_entry-append d e entries added h = elim (Bool-cases (is_valid_entry e)) [
  | inl b ↦
      let located =
        add_param_locations (params_of (get_subprogram_by_name d e.function_name))
          (add_global_variables d.global_variables e) in
      let (e', p, q) = >>=-eq-ok located (λ e'. ok (e' ∷ [])) (rw b at h) in
      rw (b, p) (ap (λ l. ok (entries ++ l)) (ok-entries q))
  | inr b ↦
      rw b (ap ok (sym (append-nil entries) ∙ ap (λ l. entries ++ l) (ok-entries (rw b at h))))
]

-- A run that returns what is left of the trace, and a list of entries.
abbrev pub Finishes : Run MergeState → List TraceEntry → List SimulationDataEntry → Type 0
Finishes m rest entries =
    (it : Peekable TraceEntry) × (m ≡ done (it, entries)) × (upcoming it ≡ rest)

pub round-perform :
    (again : MergeState → SimulationDataEntry → Run MergeState) (d : DwarfInfo)
    (entries : List SimulationDataEntry) (e : SimulationDataEntry) (t : TraceEntry)
    (n : Option TraceEntry × Peekable TraceEntry)
    → n.0 ≡ some t
    → round again d entries e n ≡ perform again d entries e n.1 t (action d t e)
unfolding round
round-perform again d entries e t (o, it) h = rw h refl

finish-returns :
    (d : DwarfInfo) (entries : List SimulationDataEntry)
    (r : Peekable TraceEntry × SimulationDataEntry) (rest : List TraceEntry)
    (e : SimulationDataEntry) (added : List SimulationDataEntry)
    → upcoming r.0 ≡ rest
    → r.1 ≡ e
    → close_entry d e [] ≡ ok added
    → Finishes (finish d entries r) rest (entries ++ added)
finish-returns d entries (it, e') rest e added u q k =
    let c = close_entry-append d e entries added k in
    let c' : close_entry d e' entries ≡ ok (entries ++ added) =
      ap (λ x. close_entry d x entries) q ∙ c in
    rw c' (it, refl, u)

pub construct_loop-Calls :
    {d : DwarfInfo} {e : SimulationDataEntry} {ts rest : List TraceEntry}
    {added : List SimulationDataEntry}
    → Calls d e ts rest added
    → (fuel : ℕ) (it : Peekable TraceEntry) (entries : List SimulationDataEntry) → upcoming it ≡ ts
    → length ts < fuel
    → Finishes (construct_loop fuel d (it, entries) e) rest (entries ++ added)
unfolding construct_loop perform
construct_loop-Calls c zero it entries u h = absurd (omega arith)
construct_loop-Calls {d} {e} (goes_on {t = t} a c) (suc fuel) it entries u h =
    let (n, w) = next-cons it u in
    rw (round-perform (construct_loop fuel d) d entries e t (next it) n, a)
      (construct_loop-Calls c fuel (next it).1 entries w (omega arith))
construct_loop-Calls {d} {e} {rest = rest}
      (calls {t = t} {between = between} {inner = inner} {added = added} a c c') (suc fuel) it
      entries u h =
    let (n, w) = next-cons it u in
    let (it', p, v) = construct_loop-Calls c fuel (next it).1 entries w (omega arith) in
    let shorter = Calls-shorter c in
    let (it'', p', v') = construct_loop-Calls c' fuel it' (entries ++ inner) v (omega arith) in
    rw (round-perform (construct_loop fuel d) d entries e t (next it) n, a, p, p')
      (it'', ap (λ l. done (it'', l)) (append_assoc entries inner added), v')
construct_loop-Calls {d} {e} {rest = rest} {added = added}
      (returns {e' = e'} {e'' = e''} {s = s} {ts = ts} a q k) (suc fuel) it entries u h =
    let (n, w) = next-cons it u in
    let (x, y) =
      drain-drained (length (upcoming (next it).1)) d s (next it).1 e' ts w
        (omega (arith, ap length w)) in
    rw (round-perform (construct_loop fuel d) d entries e (state_snapshot s) (next it) n, a)
      (finish-returns d entries (drain (length (upcoming (next it).1)) d s (next it).1 e') rest e''
        added (x ∙ ap (λ r. r.0) q) (y ∙ ap (λ r. r.1) q) k)

-- On a trace of calls that return, nested in any way, the recursion ends, with the entries of
-- these calls, in the order of their returns, behind those that were there, and leaves what
-- follows the outermost call's return.
pub construct_entries_recursively-Calls :
    (d : DwarfInfo) (e : SimulationDataEntry) (it : Peekable TraceEntry) (rest : List TraceEntry)
    (entries added : List SimulationDataEntry)
    → Calls d (add_dwarf_info d e) (upcoming it) rest added
    → Finishes (construct_entries_recursively d (it, entries) e) rest (entries ++ added)
unfolding construct_entries_recursively
construct_entries_recursively-Calls d e it rest entries added c =
    construct_loop-Calls c (suc (length (upcoming it))) it entries refl (omega arith)
