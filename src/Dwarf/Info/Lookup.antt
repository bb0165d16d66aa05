-- ===== src/Dwarf/Info/Lookup.antt =====
-- `get_enclosing_subprogram` of py_etiss_xvalid/entity/dwarf/dwarf_info.py.
use etiss_xvalid.Base.{
  ℕ, ◌≤◌, ◌≡◌, refl, Bool, true, false, Option, none, some, [], ◌∷◌, ◌++◌, arith, All,
  if◌then◌else◌,
}
use etiss_xvalid.Base.Text.{Text}
use etiss_xvalid.Base.Dict.{Dict}
use etiss_xvalid.Dwarf.Info.{
  Subprogram, DwarfInfo, find_subprogram, get_enclosing_subprogram, encloses,
}

-- the subprogram's range of addresses, both ends included
abbrev pub Encloses : ℕ → Subprogram → Type 0
Encloses pc s = (s.low_pc ≤ pc) × (pc ≤ s.high_pc)

-- `s` is in the dictionary, encloses the address, and no entry before it does.
abbrev pub IsFirstEnclosing : ℕ → Dict Subprogram → Subprogram → Type 0
IsFirstEnclosing pc d s =
    (before : Dict Subprogram) × (key : Text) × (after : Dict Subprogram) × (d
      ≡ before ++ (key, s) ∷ after)
    × Encloses pc s
    × All (λ e. ¬ Encloses pc e.1) before

-- What each answer of the lookup means.
abbrev pub EnclosingAnswer : ℕ → Dict Subprogram → Option Subprogram → Type 0
EnclosingAnswer pc d none = All (λ e. ¬ Encloses pc e.1) d
EnclosingAnswer pc d (some s) = IsFirstEnclosing pc d s

extend_answer :
    (pc : ℕ) (k : Text) (s : Subprogram) (d : Dict Subprogram) (o : Option Subprogram)
    → encloses pc s ≡ false
    → EnclosingAnswer pc d o
    → EnclosingAnswer pc ((k, s) ∷ d) o
extend_answer pc k s d none e h = ((λ p. ground arith), h)
extend_answer pc k s d (some t) e (before, key, after, q, inside, others) =
    ((k, s) ∷ before, key, after, rw q, inside, ((λ p. ground arith), others))

find_subprogram-answer :
    (pc : ℕ) (d : Dict Subprogram) → EnclosingAnswer pc d (find_subprogram (encloses pc) d)
unfolding find_subprogram
find_subprogram-answer pc [] = tt
find_subprogram-answer pc ((k, s) ∷ d) = split (encloses pc s) refl (find_subprogram-answer pc d)
  where
    split :
        (b : Bool)
        → encloses pc s ≡ b
        → EnclosingAnswer pc d (find_subprogram (encloses pc) d)
        → EnclosingAnswer pc ((k, s) ∷ d) (if b then some s else find_subprogram (encloses pc) d)
    split true e ih = ([], k, d, refl, (ground arith, ground arith), tt)
    split false e ih = extend_answer pc k s d (find_subprogram (encloses pc) d) e ih

-- The lookup by address answers the first subprogram of the dictionary whose range has the
-- address, both ends included, and `None` exactly where no range has it.
pub get_enclosing_subprogram-answer :
    (d : DwarfInfo) (pc : ℕ) → EnclosingAnswer pc d.subprograms (get_enclosing_subprogram d pc)
unfolding get_enclosing_subprogram
get_enclosing_subprogram-answer d pc = find_subprogram-answer pc d.subprograms
