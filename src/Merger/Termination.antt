-- ===== src/Merger/Termination.antt =====
-- The end of `construct_entries_recursively` of py_etiss_xvalid/dwarf_simdata_merger.py.
use etiss_xvalid.Base.{
  ℕ, zero, suc, ◌≤◌, ◌<◌, ◌≡◌, ◌⊎◌, inl, inr, refl, Option, none, some, List, [], ◌∷◌, ◌++◌, arith,
  length, length-append, sym, ◌∙◌, ap, subst,
}
use mathlib.Core.List.{append_assoc, append-nil}
use etiss_xvalid.Base.Result.{Result, ok, err, ◌>>=◌}
use etiss_xvalid.Base.Run.{Run, done, raised, out_of_fuel, and_then, of_result}
use etiss_xvalid.Trace.{TraceEntry}
use etiss_xvalid.Trace.Peekable.{Peekable, next, upcoming, next-upcoming, rest_of, first?}
use etiss_xvalid.Dwarf.Info.{DwarfInfo, get_subprogram_by_name}
use etiss_xvalid.Simulation.Entry.{
  SimulationDataEntry, new_entry, add_dwarf_info, add_global_variables,
}
use etiss_xvalid.Merger.Action.{Action, continue, call, return, action}
use etiss_xvalid.Merger.Construct.{
  drain_after, close_entry, add_param_locations, params_of, finish, MergeState, perform, round,
  construct_loop, construct_entries_recursively, compile_entries,
}
use etiss_xvalid.Merger.Draining.{left, drain_after-Drained}
use etiss_xvalid.Merger.Named.{
  AreNamed, IsStarted, IsComplete, IsComplete-valid, action-keeps, ActionKeeps,
}

-- `P` holds of the value, if there is one, and the fuel was enough.
abbrev pub Ensures {ℓ} : {A : Type ℓ} → Run A → (A → Type 0) → Type 0
Ensures (done a) P = P a
Ensures (raised e) P = Unit
Ensures out_of_fuel P = ⊥

pub Ensures-and_then {ℓ κ} :
    {V : Type ℓ} {W : Type κ} (P : V → Type 0) (Q : W → Type 0) (m : Run V) (f : V → Run W)
    → Ensures m P
    → ((v : V) → P v → Ensures (f v) Q)
    → Ensures (and_then m f) Q
Ensures-and_then P Q (done a) f h k = k a h
Ensures-and_then P Q (raised e) f h k = tt
Ensures-and_then P Q out_of_fuel f h k = h

Ensures-map {ℓ} :
    {A : Type ℓ} (P Q : A → Type 0) (m : Run A) → Ensures m P → ((a : A) → P a → Q a) → Ensures m Q
Ensures-map P Q (done a) h k = k a h
Ensures-map P Q (raised e) h k = tt
Ensures-map P Q out_of_fuel h k = h

-- What a call has added to the entries: nothing, and then the trace is at its end, or something,
-- and then it has taken entries of the trace away.
abbrev pub Outcome : ℕ → Peekable TraceEntry → List SimulationDataEntry → Type 0
Outcome n it added = ((added ≡ []) × (left it ≡ 0)) ⊎ ((0 < length added) × (left it < n))

abbrev pub Progress : ℕ → List SimulationDataEntry → MergeState → Type 0
Progress n entries st =
    (added : List SimulationDataEntry) × (st.1 ≡ entries ++ added) × Outcome n st.0 added

-- After the entries of a callee, those of the rest of the loop.
Outcome-append :
    (n m : ℕ) (it it' : Peekable TraceEntry) (first second : List SimulationDataEntry)
    → m ≤ n
    → Outcome m it first
    → Outcome (left it) it' second
    → Outcome n it' (first ++ second)
Outcome-append n m it it' first second h (inl (e, z)) (inl (e', z')) = inl (rw e e', z')
Outcome-append n m it it' first second h (inl (e, z)) (inr (p, l)) = absurd (omega arith)
Outcome-append n m it it' first second h (inr (p, l)) (inl (e', z')) =
    inr (omega (arith, length-append first second), omega arith)
Outcome-append n m it it' first second h (inr (p, l)) (inr (p', l')) =
    inr (omega (arith, length-append first second), omega arith)

Outcome-weaken :
    (n m : ℕ) (it : Peekable TraceEntry) (added : List SimulationDataEntry)
    → m ≤ n
    → Outcome m it added
    → Outcome n it added
Outcome-weaken n m it added h (inl o) = inl o
Outcome-weaken n m it added h (inr (p, l)) = inr (p, omega arith)

close_entry-adds :
    (d : DwarfInfo) (e : SimulationDataEntry) (entries : List SimulationDataEntry)
    (it : Peekable TraceEntry) (n : ℕ)
    → IsComplete e
    → left it < n
    → Ensures (finish d entries (it, e)) (Progress n entries)
unfolding close_entry
close_entry-adds d e entries it n h l = rw (IsComplete-valid e h) (
    closed (
      add_param_locations (params_of (get_subprogram_by_name d e.function_name))
        (add_global_variables d.global_variables e)))
  where
    closed :
        (r : Result SimulationDataEntry)
        → Ensures
            (of_result ((r >>= λ e'. ok (entries ++ e' ∷ [])) >>= λ es. ok (it, es)))
            (Progress n entries)
    closed (ok e') = (e' ∷ [], refl, inr (omega arith, l))
    closed (err x) = tt

-- What the loop does with any smaller amount of the trace left.
Again : DwarfInfo → ℕ → (MergeState → SimulationDataEntry → Run MergeState) → Type 0
Again d n again =
    (it : Peekable TraceEntry) (entries : List SimulationDataEntry) (e : SimulationDataEntry)
    → left it < n
    → IsStarted e
    → Ensures (again (it, entries) e) (Progress (left it) entries)

module _ (d : DwarfInfo) (n : ℕ) (again : MergeState → SimulationDataEntry → Run MergeState)
    (ih : Again d n again) where
  rest-Progress :
      (m : ℕ) (entries : List SimulationDataEntry) (e : SimulationDataEntry)
      → m < n
      → IsStarted e
      → (st : MergeState) → Progress m entries st
      → Ensures (again st e) (Progress m entries)
  unfolding Again
  rest-Progress m entries e h s st (first, p, o) =
      Ensures-map (Progress (left st.0) st.1) (Progress m entries) (again st e)
        (ih st.0 st.1 e (fits o) s)
        (λ st' (second, q, o'). (
          first ++ second,
          q ∙ rw p (append_assoc entries first second),
          Outcome-append m m st.0 st'.0 first second (omega arith) o o',
        ))
    where
      fits : Outcome m st.0 first → left st.0 < n
      fits (inl (e, z)) = omega arith
      fits (inr (p, l)) = omega arith

  perform-Progress :
      (entries : List SimulationDataEntry) (e : SimulationDataEntry) (it : Peekable TraceEntry)
      (t : TraceEntry) (a : Action)
      → left it < n
      → IsStarted e
      → ActionKeeps a
      → Ensures (perform again d entries e it t a) (Progress (suc (left it)) entries)
  unfolding perform Again
  perform-Progress entries e it t (continue e') h s k =
      Ensures-map _ (Progress (suc (left it)) entries) (again (it, entries) e')
        (ih it entries e' h k)
        (λ st (added, p, o).
          (added, p, Outcome-weaken (suc (left it)) (left it) st.0 added (omega arith) o))
  perform-Progress entries e it t (call c) h s k =
      Ensures-map _ (Progress (suc (left it)) entries)
        (and_then (again (it, entries) c) (λ st. again st e))
        (Ensures-and_then (Progress (left it) entries) (Progress (left it) entries)
          (again (it, entries) c) (λ st. again st e) (ih it entries c h k)
          (rest-Progress (left it) entries e h s))
        (λ st (added, p, o).
          (added, p, Outcome-weaken (suc (left it)) (left it) st.0 added (omega arith) o))
  perform-Progress entries e it t (return e') h s k =
      let (l, c) = drain_after-Drained d t it e' k in
      close_entry-adds d (drain_after d t it e').1 entries (drain_after d t it e').0 (suc (left it))
        c (omega arith)

  round-Progress :
      AreNamed d
      → (entries : List SimulationDataEntry) (e : SimulationDataEntry) (it : Peekable TraceEntry)
      → IsStarted e
      → left it < suc n
      → Ensures (round again d entries e (next it)) (Progress (left it) entries)
  unfolding round
  round-Progress named entries e it s h = taken (upcoming it) (next it) refl (next-upcoming it)
    where
      taken :
          (l : List TraceEntry) (r : Option TraceEntry × Peekable TraceEntry)
          → upcoming it ≡ l
          → (r.0 ≡ first? (upcoming it)) × (upcoming r.1 ≡ rest_of (upcoming it))
          → Ensures (round again d entries e r) (Progress (left it) entries)
      taken [] (none, it') q (f, u) = ([], sym (append-nil entries), inl (refl, rw (u, q)))
      taken [] (some t, it') q (f, u) = cc
      taken (t ∷ l) (none, it') q (f, u) = cc
      taken (t ∷ l) (some t', it') q (f, u) =
          let shorter : left it ≡ suc (left it') =
            ap length q ∙ ap suc (sym (ap length (u ∙ ap rest_of q))) in
          subst
            (λ k. Ensures (perform again d entries e it' t' (action d t' e)) (Progress k entries))
            (sym shorter)
            (perform-Progress entries e it' t' (action d t' e) (omega arith) s
              (action-keeps d t' e named s))

construct_loop-Again :
    (d : DwarfInfo) → AreNamed d → (fuel : ℕ) → Again d fuel (construct_loop fuel d)
unfolding Again construct_loop
construct_loop-Again d named zero it entries e h s = absurd (omega arith)
construct_loop-Again d named (suc fuel) it entries e h s =
    round-Progress d fuel (construct_loop fuel d) (construct_loop-Again d named fuel) named entries
      e it s h

-- Where every function has a name, the construction of an entry that is unnamed or has a prologue,
-- and of those of the functions that it calls, ends: it raises, or it leaves the list of entries
-- with others behind it. It adds none only at the end of the trace, and otherwise it has taken
-- some of the trace away.
pub construct_entries_recursively_ends :
    (d : DwarfInfo) (it : Peekable TraceEntry) (entries : List SimulationDataEntry)
    (e : SimulationDataEntry)
    → AreNamed d
    → IsStarted e
    → Ensures
        (construct_entries_recursively d (it, entries) e)
        (Progress (length (upcoming it)) entries)
unfolding construct_entries_recursively Again
construct_entries_recursively_ends d it entries e named s =
    construct_loop-Again d named (suc (left it)) it entries (add_dwarf_info d e) (omega arith) s

pub compile_entries-Progress :
    (d : DwarfInfo) (it : Peekable TraceEntry)
    → AreNamed d
    → Ensures (compile_entries d it) (Progress (length (upcoming it)) [])
unfolding compile_entries
compile_entries-Progress d it named =
    construct_entries_recursively_ends d it [] new_entry named (inl refl)
