-- ===== src/Dwarf/Extractor/Traversal/Globals.antt =====
-- The global variables through the traversal of `die_extract_recurser` of
-- py_etiss_xvalid/dwarf_info_extractor.py.
use etiss_xvalid.Base.{ℕ, ◌≡◌, refl, sym, Bool, false, Option, List, [], ◌∷◌, ◌++◌}
use mathlib.Core.List.{append-nil, append_assoc}
use etiss_xvalid.Base.Text.{Text}
use etiss_xvalid.Base.Result.{Returns}
use etiss_xvalid.Dwarf.Info.{Variable, DwarfInfo, add_subprogram, add_global_variable}
use etiss_xvalid.Dwarf.Extractor.Die.{Dies, Pyelftools}
use etiss_xvalid.Dwarf.Extractor.Place.{UnitHeader}
use etiss_xvalid.Dwarf.Extractor.Traversal.{extract_children}
use etiss_xvalid.Dwarf.Extractor.Traversal.Preserving.{extract_children_keeps}

-- Some global variables behind those of `before`.
abbrev pub AddsGlobals : DwarfInfo → DwarfInfo → Type 0
AddsGlobals before d =
    (added : List Variable) × (d.global_variables ≡ before.global_variables ++ added)

add_one :
    (before : DwarfInfo) (v : Variable) (d : DwarfInfo)
    → AddsGlobals before d
    → AddsGlobals before (add_global_variable v d)
unfolding add_global_variable
add_one before v d (added, e) =
    (added ++ v ∷ [], rw e (append_assoc before.global_variables added (v ∷ [])))

-- The traversal leaves the global variables that were there, in their places.
pub extract_children-AddsGlobals :
    (elf : Pyelftools) (limit : ℕ) (cu : UnitHeader) (subprogram : Option Text) (level : Bool)
    (ts : Dies) (d : DwarfInfo)
    → Returns (AddsGlobals d) (extract_children elf limit cu subprogram level ts d)
unfolding add_subprogram
extract_children-AddsGlobals elf limit cu subprogram level ts d =
    extract_children_keeps (AddsGlobals d) (λ b. Unit) tt (λ s e h. h) (λ name f e k h. h)
      (λ v e a h. add_one d v e h) elf limit cu subprogram level ts d tt
      ([], sym (append-nil d.global_variables))

-- What stands below a subprogram never adds a global variable: where the traversal of its children
-- returns, nested subprograms and their children included, the global variables are as before.
pub extract_children_below_subprogram :
    (elf : Pyelftools) (limit : ℕ) (cu : UnitHeader) (subprogram : Option Text) (ts : Dies)
    (d : DwarfInfo)
    → Returns
        (λ e. e.global_variables ≡ d.global_variables)
        (extract_children elf limit cu subprogram false ts d)
unfolding add_subprogram
extract_children_below_subprogram elf limit cu subprogram ts d =
    extract_children_keeps (λ e. e.global_variables ≡ d.global_variables) (λ b. b ≡ false) refl
      (λ s e h. h) (λ name f e k h. h) (λ v e a h. cc) elf limit cu subprogram false ts d refl refl
