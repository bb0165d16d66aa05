-- ===== src/Dwarf/Extractor/Frames/Changes.antt =====
-- The frame base infos that `extract_cfa_register_values_and_offsets` of
-- py_etiss_xvalid/dwarf_info_extractor.py attaches to a subprogram.
use etiss_xvalid.Base.{
  ℕ, ◌≡◌, refl, sym, ap, ◌∙◌, Bool, true, false, not, ◌&&◌, ◌||◌, Option, none, some, List, [], ◌∷◌,
  ◌++◌, map, arith, ◌==◌, if◌then◌else◌, last?, last?-append, Bool-cases, inl, inr,
}
use mathlib.Core.List.{append_assoc}
use etiss_xvalid.Base.Dict.{Dict}
use etiss_xvalid.Base.Int.{ℤ, pos, negsuc, eq_ℤ, option_eq}
use etiss_xvalid.Base.Result.{Result, ok}
use etiss_xvalid.Dwarf.Info.{
  FrameBaseInfo, Subprogram, DwarfInfo, differs_from_last, add_frame_base_info, find_subprogram,
  is_some, update_first, has_subprogram_with_pc_as_low_pc, get_subprogram_with_pc_as_low_pc,
  add_frame_base_info_at,
}
use etiss_xvalid.Dwarf.Extractor.Frames.{CfiRow, fde, add_rows, extract_frame}

-- A row that has both keys.
abbrev pub row_of : FrameBaseInfo → CfiRow
row_of i = record { pc = ok i.pc; cfa = ok (record { reg = i.reg; offset = i.offset }) }

-- The register and the offset of two rows are the same.
abbrev pub same_rule : FrameBaseInfo → FrameBaseInfo → Bool
same_rule i j = option_eq (λ a b. a == b) i.reg j.reg && option_eq eq_ℤ i.offset j.offset

-- Of the rows behind another, those that change the register or the offset of the row before them.
unfoldable pub changes_behind : FrameBaseInfo → List FrameBaseInfo → List FrameBaseInfo
changes_behind i [] = []
changes_behind i (j ∷ rows) =
    let rest = changes_behind j rows in if same_rule i j then rest else j ∷ rest

-- The first row, and those that change something.
abbrev pub changes_of : List FrameBaseInfo → List FrameBaseInfo
changes_of [] = []
changes_of (i ∷ rows) = i ∷ changes_behind i rows

eq_ℤ→eq : (a b : ℤ) → eq_ℤ a b ≡ true → a ≡ b
eq_ℤ→eq (pos n) (pos m) h = ap pos (ground arith)
eq_ℤ→eq (negsuc n) (negsuc m) h = ap negsuc (ground arith)
eq_ℤ→eq (pos n) (negsuc m) h = cc
eq_ℤ→eq (negsuc n) (pos m) h = cc

option_eq→eq {ℓ} :
    {A : Type ℓ} (eq : A → A → Bool) (a b : Option A)
    → ((x y : A) → eq x y ≡ true → x ≡ y)
    → option_eq eq a b ≡ true
    → a ≡ b
option_eq→eq eq none none f h = refl
option_eq→eq eq (some a) (some b) f h = ap some (f a b h)
option_eq→eq eq none (some b) f h = cc
option_eq→eq eq (some a) none f h = cc

both : (a b : Bool) → (a && b) ≡ true → (a ≡ true) × (b ≡ true)
both true b h = (refl, h)
both false b h = cc

-- Of two rows with the same register and offset, what changes behind them is the same.
changes_behind-same :
    (i j : FrameBaseInfo) (rows : List FrameBaseInfo)
    → same_rule i j ≡ true
    → changes_behind i rows ≡ changes_behind j rows
unfolding changes_behind
changes_behind-same i j [] h = refl
changes_behind-same i j (k ∷ rows) h =
    let (regs, offsets) = both _ _ h in
    let same_reg : i.reg ≡ j.reg =
      option_eq→eq (λ a b. a == b) i.reg j.reg (λ x y e. ground arith) regs in
    let same_offset : i.offset ≡ j.offset = option_eq→eq eq_ℤ i.offset j.offset eq_ℤ→eq offsets in
    rw (same_reg, same_offset) refl

swapped {ℓ} :
    {A : Type ℓ} (a b : Bool) (x y : A)
    → (if not a || not b then x else y) ≡ (if a && b then y else x)
swapped true true x y = refl
swapped true false x y = refl
swapped false b x y = refl

add_frame_base_info_behind :
    (front : List FrameBaseInfo) (j k : FrameBaseInfo) (s : Subprogram)
    → s.frame_base_infos ≡ front ++ j ∷ []
    → add_frame_base_info k s
      ≡ (if same_rule j k then s else record s { frame_base_infos = (front ++ j ∷ []) ++ k ∷ [] })
unfolding add_frame_base_info
add_frame_base_info_behind front j k s h =
    rw (h, last?-append front j)
      (swapped (option_eq (λ a b. a == b) j.reg k.reg) (option_eq eq_ℤ j.offset k.offset) _ _)

-- One row after the other is added.
abbrev add_infos : List FrameBaseInfo → Subprogram → Subprogram
add_infos [] s = s
add_infos (i ∷ rows) s = add_infos rows (add_frame_base_info i s)

add_infos_behind :
    (front : List FrameBaseInfo) (j : FrameBaseInfo) (rows : List FrameBaseInfo) (s : Subprogram)
    → s.frame_base_infos ≡ front ++ j ∷ []
    → add_infos rows s ≡ record s { frame_base_infos = front ++ j ∷ changes_behind j rows }
unfolding changes_behind
add_infos_behind front j [] s h = ap (λ fs. record s { frame_base_infos = fs }) h
add_infos_behind front j (k ∷ rows) s h =
    let added = add_frame_base_info_behind front j k s h in
    elim (Bool-cases (same_rule j k)) [
      | inl t ↦
          let kept : add_frame_base_info k s ≡ s = rw t at added in
          rw (kept, t, sym (changes_behind-same j k rows t)) (add_infos_behind front j rows s h)
      | inr f ↦
          let longer : add_frame_base_info k s
              ≡ record s { frame_base_infos = (front ++ j ∷ []) ++ k ∷ [] } =
            rw f at added in
          rw (longer, f)
            (add_infos_behind (front ++ j ∷ []) k rows _ refl
              ∙ ap (λ fs. record s { frame_base_infos = fs })
                  (append_assoc front (j ∷ []) (k ∷ changes_behind k rows)))
    ]

add_infos-changes_of :
    (rows : List FrameBaseInfo) (s : Subprogram)
    → s.frame_base_infos ≡ []
    → add_infos rows s ≡ record s { frame_base_infos = changes_of rows }
unfolding add_frame_base_info
add_infos-changes_of [] s h = ap (λ fs. record s { frame_base_infos = fs }) h
add_infos-changes_of (i ∷ rows) s h =
    rw (add_frame_base_info, h) (add_infos_behind [] i rows _ refl)

-- The address stays.
add_frame_base_info-low_pc :
    (i : FrameBaseInfo) (s : Subprogram) → (add_frame_base_info i s).low_pc ≡ s.low_pc
unfolding add_frame_base_info
add_frame_base_info-low_pc i s = chosen (differs_from_last i (last? s.frame_base_infos))
  where
    chosen :
        (b : Bool)
        → (if b then record s { frame_base_infos = s.frame_base_infos ++ i ∷ [] } else s).low_pc
          ≡ s.low_pc
    chosen true = refl
    chosen false = refl

update_first-find :
    (pc : ℕ) (i : FrameBaseInfo) (m : Dict Subprogram) (s : Subprogram)
    → find_subprogram (λ t. pc == t.low_pc) m ≡ some s
    → find_subprogram
        (λ t. pc == t.low_pc)
        (update_first (λ t. pc == t.low_pc) (add_frame_base_info i) m)
      ≡ some (add_frame_base_info i s)
unfolding find_subprogram update_first
update_first-find pc i [] s h = cc
update_first-find pc i ((k, t) ∷ m) s h = elim (Bool-cases (pc == t.low_pc)) [
  | inl here ↦
      let same : t ≡ s = cc (rw here at h) in
      let still_here : (pc == (add_frame_base_info i t).low_pc) ≡ true =
        ap (λ n. pc == n) (add_frame_base_info-low_pc i t) ∙ here in
      rw (here, still_here) (ap (λ u. some (add_frame_base_info i u)) same)
  | inr later ↦ rw (later, later) (update_first-find pc i m s (rw later at h))
]

-- A subprogram that has the address, with the rows' infos.
abbrev HasInfos : ℕ → Subprogram → Result DwarfInfo → Type 0
HasInfos pc s r = (e : DwarfInfo) × (r ≡ ok e) × (get_subprogram_with_pc_as_low_pc e pc ≡ some s)

add_frame_base_info_at-HasInfos :
    (i : FrameBaseInfo) (pc : ℕ) (d : DwarfInfo) (s : Subprogram)
    → get_subprogram_with_pc_as_low_pc d pc ≡ some s
    → HasInfos pc (add_frame_base_info i s) (add_frame_base_info_at i pc d)
unfolding add_frame_base_info_at get_subprogram_with_pc_as_low_pc
add_frame_base_info_at-HasInfos i pc d s h = (
  record d {
    subprograms = update_first (λ t. pc == t.low_pc) (add_frame_base_info i) d.subprograms;
  },
  rw (h, add_frame_base_info_at) refl,
  update_first-find pc i d.subprograms s h,
)

add_rows-HasInfos :
    (pc : ℕ) (rows : List FrameBaseInfo) (d : DwarfInfo) (s : Subprogram)
    → get_subprogram_with_pc_as_low_pc d pc ≡ some s
    → HasInfos pc (add_infos rows s) (add_rows pc (map row_of rows) d)
unfolding add_rows
add_rows-HasInfos pc [] d s h = (d, refl, h)
add_rows-HasInfos pc (i ∷ rows) d s h =
    let (e, added, found) = add_frame_base_info_at-HasInfos i pc d s h in
    let (f, others, found') = add_rows-HasInfos pc rows e (add_frame_base_info i s) found in
    (f, rw (added, others) refl, found')

is_known :
    (d : DwarfInfo) (pc : ℕ) (s : Subprogram)
    → get_subprogram_with_pc_as_low_pc d pc ≡ some s
    → has_subprogram_with_pc_as_low_pc d pc ≡ true
unfolding has_subprogram_with_pc_as_low_pc get_subprogram_with_pc_as_low_pc
is_known d pc s h = ap is_some h

-- A frame whose rows have both keys, at the first address of a known subprogram without frame base
-- infos, gives this subprogram the infos of the first row and of those rows that change the
-- register or the offset of the row before them, in the order of the rows: none is lost or
-- repeated, and nothing else of the subprogram is changed.
pub extract_frame_changes :
    (d : DwarfInfo) (pc : ℕ) (rows : List FrameBaseInfo) (s : Subprogram)
    → get_subprogram_with_pc_as_low_pc d pc ≡ some s
    → s.frame_base_infos ≡ []
    → (e : DwarfInfo) × (extract_frame (fde pc (ok (map row_of rows))) d ≡ ok e)
      × (get_subprogram_with_pc_as_low_pc e pc
          ≡ some (record s { frame_base_infos = changes_of rows }))
unfolding extract_frame
extract_frame_changes d pc rows s h none_yet =
    let (e, added, found) = add_rows-HasInfos pc rows d s h in
    (
      e,
      rw (is_known d pc s h, extract_frame) added,
      found ∙ ap some (add_infos-changes_of rows s none_yet),
    )
