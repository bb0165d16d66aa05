-- ===== src/Dwarf/Extractor/Frames/Outcomes.antt =====
-- `extract_cfa_register_values_and_offsets` of py_etiss_xvalid/dwarf_info_extractor.py: what it
-- changes and what it raises.
use etiss_xvalid.Base.{
  ℕ, ◌≡◌, refl, sym, ap, ◌∙◌, Bool, true, false, Option, none, some, List, [], ◌∷◌, map, ◌==◌, ◌++◌,
  if◌then◌else◌, Bool-cases, ◌⊎◌, inl, inr, All,
}
use etiss_xvalid.Base.Text.{Text}
use etiss_xvalid.Base.Dict.{Dict}
use etiss_xvalid.Base.Result.{Exn, Result, ok, err}
use etiss_xvalid.Dwarf.Info.{
  FrameBaseInfo, Subprogram, DwarfInfo, add_frame_base_info, find_subprogram, is_some, update_first,
  has_subprogram_with_pc_as_low_pc, get_subprogram_with_pc_as_low_pc, add_frame_base_info_at,
}
use etiss_xvalid.Dwarf.Extractor.Frames.{
  CfaRule, CfiRow, CfiEntry, fde, other_cfi, frame_base_info_of, add_rows, extract_frame,
  extract_cfa_register_values_and_offsets,
}

-- an entry of the dictionary without its frames
abbrev pub without_frames : Text × Subprogram → Text × Subprogram
without_frames (k, s) = (k, record s { frame_base_infos = [] })

-- The same but for the frames of its subprograms.
abbrev pub DiffersInFrames : DwarfInfo → DwarfInfo → Type 0
DiffersInFrames d e =
    (map without_frames e.subprograms ≡ map without_frames d.subprograms)
    × (e.global_variables ≡ d.global_variables)
    × (e.compilation_unit ≡ d.compilation_unit)

-- A result that differs in frames only.
abbrev pub AddsFrames : DwarfInfo → Result DwarfInfo → Type 0
AddsFrames d r = (e : DwarfInfo) × (r ≡ ok e) × DiffersInFrames d e

then_same : (d e f : DwarfInfo) → DiffersInFrames d e → DiffersInFrames e f → DiffersInFrames d f
then_same d e f same same' = (same'.0 ∙ same.0, same'.1 ∙ same.1, same'.2 ∙ same.2)

frames_chosen :
    (k : Text) (b : Bool) (frames : List FrameBaseInfo) (s : Subprogram)
    → without_frames (k, (if b then record s { frame_base_infos = frames } else s))
      ≡ without_frames (k, s)
frames_chosen k true frames s = refl
frames_chosen k false frames s = refl

add_frame_base_info_frames :
    (k : Text) (i : FrameBaseInfo) (s : Subprogram)
    → without_frames (k, add_frame_base_info i s) ≡ without_frames (k, s)
unfolding add_frame_base_info
add_frame_base_info_frames k i s = frames_chosen k _ (s.frame_base_infos ++ i ∷ []) s

update_first_frames :
    (pc : ℕ) (i : FrameBaseInfo) (m : Dict Subprogram)
    → map without_frames (update_first (λ t. pc == t.low_pc) (add_frame_base_info i) m)
      ≡ map without_frames m
unfolding update_first
update_first_frames pc i [] = refl
update_first_frames pc i ((k, s) ∷ m) = elim (Bool-cases (pc == s.low_pc)) [
  | inl here ↦ rw here (ap (λ e. e ∷ map without_frames m) (add_frame_base_info_frames k i s))
  | inr later ↦ rw (later, update_first_frames pc i m) refl
]

has_by_frames :
    (pc : ℕ) (m : Dict Subprogram)
    → is_some (find_subprogram (λ t. pc == t.low_pc) (map without_frames m))
      ≡ is_some (find_subprogram (λ t. pc == t.low_pc) m)
unfolding find_subprogram
has_by_frames pc [] = refl
has_by_frames pc ((k, s) ∷ m) = elim (Bool-cases (pc == s.low_pc)) [
  | inl here ↦ rw here refl
  | inr later ↦ rw (later, has_by_frames pc m) refl
]

has_same :
    (d e : DwarfInfo) (pc : ℕ)
    → DiffersInFrames d e
    → has_subprogram_with_pc_as_low_pc e pc ≡ has_subprogram_with_pc_as_low_pc d pc
unfolding has_subprogram_with_pc_as_low_pc
has_same d e pc same =
    sym (has_by_frames pc e.subprograms)
    ∙ ap (λ m. is_some (find_subprogram (λ t. pc == t.low_pc) m)) same.0
    ∙ has_by_frames pc d.subprograms

is_some-true : (o : Option Subprogram) → is_some o ≡ true → (s : Subprogram) × (o ≡ some s)
is_some-true none h = cc
is_some-true (some s) h = (s, refl)

add_frame_base_info_at_total :
    (i : FrameBaseInfo) (pc : ℕ) (d : DwarfInfo)
    → has_subprogram_with_pc_as_low_pc d pc ≡ true
    → AddsFrames d (add_frame_base_info_at i pc d)
unfolding has_subprogram_with_pc_as_low_pc add_frame_base_info_at get_subprogram_with_pc_as_low_pc
add_frame_base_info_at_total i pc d has =
    let (s, found) = is_some-true (find_subprogram (λ t. pc == t.low_pc) d.subprograms) has in
    (
      record d {
        subprograms = update_first (λ t. pc == t.low_pc) (add_frame_base_info i) d.subprograms;
      },
      rw (found, add_frame_base_info_at) refl,
      (update_first_frames pc i d.subprograms, refl, refl),
    )

-- A row has both keys.
abbrev pub IsReadRow : CfiRow → Type 0
IsReadRow row = ((n : ℕ) × (row.pc ≡ ok n)) × ((rule : CfaRule) × (row.cfa ≡ ok rule))

-- The look-up of a key raises, in one of the rows.
abbrev pub RowRaises : Exn → List CfiRow → Type 0
RowRaises x [] = ⊥
RowRaises x (row ∷ rows) = (row.pc ≡ err x) ⊎ (row.cfa ≡ err x) ⊎ RowRaises x rows

-- A frame of a subprogram can be decoded, and all its rows have both keys.
abbrev pub IsRead : DwarfInfo → CfiEntry → Type 0
IsRead d other_cfi = Unit
IsRead d (fde pc decoded) =
    has_subprogram_with_pc_as_low_pc d pc ≡ true
    → (table : List CfiRow) × (decoded ≡ ok table) × All IsReadRow table

-- The decoding of a frame of a subprogram raises, or the look-up of a key in one of its rows.
abbrev pub FrameRaises : DwarfInfo → Exn → CfiEntry → Type 0
FrameRaises d x other_cfi = ⊥
FrameRaises d x (fde pc decoded) =
    (has_subprogram_with_pc_as_low_pc d pc ≡ true)
    × ((decoded ≡ err x) ⊎ ((table : List CfiRow) × (decoded ≡ ok table) × RowRaises x table))

-- One of the entries raises.
abbrev pub SomeRaises : DwarfInfo → Exn → List CfiEntry → Type 0
SomeRaises d x [] = ⊥
SomeRaises d x (entry ∷ entries) = FrameRaises d x entry ⊎ SomeRaises d x entries

-- A result that differs in frames only, where something could be read, or what a part of it raises.
abbrev pub AddsOrRaises : DwarfInfo → Type 0 → (Exn → Type 0) → Result DwarfInfo → Type 0
AddsOrRaises d P R r = (P × AddsFrames d r) ⊎ ((x : Exn) × (r ≡ err x) × R x)

-- The result of entries one after the other.
abbrev pub Outcome : DwarfInfo → List CfiEntry → Result DwarfInfo → Type 0
Outcome d entries = AddsOrRaises d (All (IsRead d) entries) (λ x. SomeRaises d x entries)

row_cases :
    (row : CfiRow)
    → ((i : FrameBaseInfo) × (frame_base_info_of row ≡ ok i) × IsReadRow row)
      ⊎ ((x : Exn) × (frame_base_info_of row ≡ err x) × ((row.pc ≡ err x) ⊎ (row.cfa ≡ err x)))
row_cases row = row_cases_of row row.pc row.cfa refl refl
  where
    row_cases_of :
        (row : CfiRow) (n : Result ℕ) (rule : Result CfaRule)
        → row.pc ≡ n
        → row.cfa ≡ rule
        → ((i : FrameBaseInfo) × (frame_base_info_of row ≡ ok i) × IsReadRow row)
          ⊎ ((x : Exn) × (frame_base_info_of row ≡ err x) × ((row.pc ≡ err x) ⊎ (row.cfa ≡ err x)))
    row_cases_of row (err x) rule p q = inr (x, rw p refl, inl p)
    row_cases_of row (ok n) (err x) p q = inr (x, rw (p, q) refl, inr q)
    row_cases_of row (ok n) (ok rule) p q = inl (
      record { pc = n; reg = rule.reg; offset = rule.offset },
      rw (p, q) refl,
      ((n, p), (rule, q)),
    )

add_rows_outcome :
    (pc : ℕ) (rows : List CfiRow) (d : DwarfInfo)
    → has_subprogram_with_pc_as_low_pc d pc ≡ true
    → AddsOrRaises d (All IsReadRow rows) (λ x. RowRaises x rows) (add_rows pc rows d)
unfolding add_rows
add_rows_outcome pc [] d has = inl (tt, (d, refl, (refl, refl, refl)))
add_rows_outcome pc (row ∷ rows) d has = elim (row_cases row) [
  | inr (x, raised, key) ↦ inr (x, rw raised refl, elim key [ inl p ↦ inl p | inr q ↦ inr (inl q) ])
  | inl (i, made, read) ↦
      let (e, added, same) = add_frame_base_info_at_total i pc d has in
      elim (add_rows_outcome pc rows e (has_same d e pc same ∙ has)) [
        | inl (all_read, (f, others, same')) ↦
            inl ((read, all_read), (f, rw (made, added, others) refl, then_same d e f same same'))
        | inr (x, raised, key) ↦ inr (x, rw (made, added, raised) refl, inr (inr key))
      ]
]

extract_frame_outcome :
    (entry : CfiEntry) (d : DwarfInfo)
    → AddsOrRaises d (IsRead d entry) (λ x. FrameRaises d x entry) (extract_frame entry d)
unfolding extract_frame
extract_frame_outcome other_cfi d = inl (tt, (d, refl, (refl, refl, refl)))
extract_frame_outcome (fde pc (err x)) d =
    elim (Bool-cases (has_subprogram_with_pc_as_low_pc d pc)) [
      | inl has ↦ inr (x, rw (has, extract_frame) refl, (has, inl refl))
      | inr others ↦
          inl
            ((λ has. absurd (cc others)), (d, rw (others, extract_frame) refl, (refl, refl, refl)))
    ]
extract_frame_outcome (fde pc (ok table)) d =
    elim (Bool-cases (has_subprogram_with_pc_as_low_pc d pc)) [
      | inl has ↦ elim (add_rows_outcome pc table d has) [
        | inl (all_read, (e, added, same)) ↦
            inl ((λ h. (table, refl, all_read)), (e, rw (has, extract_frame) added, same))
        | inr (x, raised, key) ↦
            inr (x, rw (has, extract_frame) raised, (has, inr (table, refl, key)))
      ]
      | inr others ↦
          inl
            ((λ has. absurd (cc others)), (d, rw (others, extract_frame) refl, (refl, refl, refl)))
    ]

-- What is read of an entry is the same where only frames differ.
IsRead-same :
    (d e : DwarfInfo) (entry : CfiEntry) → DiffersInFrames d e → IsRead e entry → IsRead d entry
IsRead-same d e other_cfi same read = tt
IsRead-same d e (fde pc decoded) same read = λ has. read (has_same d e pc same ∙ has)

All-IsRead_same :
    (d e : DwarfInfo) (entries : List CfiEntry)
    → DiffersInFrames d e
    → All (IsRead e) entries
    → All (IsRead d) entries
All-IsRead_same d e [] same read = tt
All-IsRead_same d e (entry ∷ entries) same read =
    (IsRead-same d e entry same read.0, All-IsRead_same d e entries same read.1)

FrameRaises-same :
    (d e : DwarfInfo) (x : Exn) (entry : CfiEntry)
    → DiffersInFrames d e
    → FrameRaises e x entry
    → FrameRaises d x entry
FrameRaises-same d e x other_cfi same raises = raises
FrameRaises-same d e x (fde pc decoded) same raises =
    (sym (has_same d e pc same) ∙ raises.0, raises.1)

SomeRaises-same :
    (d e : DwarfInfo) (x : Exn) (entries : List CfiEntry)
    → DiffersInFrames d e
    → SomeRaises e x entries
    → SomeRaises d x entries
SomeRaises-same d e x [] same raises = raises
SomeRaises-same d e x (entry ∷ entries) same (inl here) =
    inl (FrameRaises-same d e x entry same here)
SomeRaises-same d e x (entry ∷ entries) same (inr later) =
    inr (SomeRaises-same d e x entries same later)

-- The extraction of the call frame information ends in one of two ways. Either every frame whose
-- address is that of a known subprogram can be decoded, with both keys in each row, and then
-- nothing is changed of the subprograms but their frame base infos, and neither the global
-- variables nor the compile unit; or it raises what the decoding of such a frame, or the look-up
-- of a key in one of its rows, raises. So no frame is attached to an address without a subprogram,
-- whatever the entries.
pub extract_cfa_register_values_and_offsets-Outcome :
    (entries : List CfiEntry) (d : DwarfInfo)
    → Outcome d entries (extract_cfa_register_values_and_offsets entries d)
unfolding extract_cfa_register_values_and_offsets
extract_cfa_register_values_and_offsets-Outcome [] d = inl (tt, (d, refl, (refl, refl, refl)))
extract_cfa_register_values_and_offsets-Outcome (entry ∷ entries) d =
    elim (extract_frame_outcome entry d) [
      | inr (x, raised, why) ↦ inr (x, rw raised refl, inl why)
      | inl (read, (e, added, same)) ↦
          elim (extract_cfa_register_values_and_offsets-Outcome entries e) [
            | inl (all_read, (f, others, same')) ↦ inl (
              (read, All-IsRead_same d e entries same all_read),
              (f, rw (added, others) refl, then_same d e f same same'),
            )
            | inr (x, raised, why) ↦
                inr (x, rw (added, raised) refl, inr (SomeRaises-same d e x entries same why))
          ]
    ]
