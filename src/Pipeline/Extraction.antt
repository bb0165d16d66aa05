-- ===== src/Pipeline/Extraction.antt =====
-- `extract_dwarf_information` of py_etiss_xvalid/__main__.py where it returns.
use etiss_xvalid.Base.{◌≡◌, refl, subst, Bool, true, false}
use etiss_xvalid.Base.Text.{Text}
use etiss_xvalid.Base.Result.{Exn, Result, ok, err, >>=-eq-ok, dwarf_extraction_exception}
use etiss_xvalid.Dwarf.Info.{DwarfInfo}
use etiss_xvalid.Dwarf.Overview.{str_dwarf_info}
use etiss_xvalid.Dwarf.Extractor.Binary.{ElfFile, extract_dwarf_info}
use etiss_xvalid.March.Machine.{march_is_supported}
use etiss_xvalid.Pipeline.Simulator.{System}
use etiss_xvalid.Pipeline.Stages.{
  Arguments, raising, supported_only, extract_both, extract_dwarf_information,
}

-- A binary's debug information, of an architecture that is supported.
abbrev pub IsExtracted : System → Arguments → Text → DwarfInfo → Type 0
IsExtracted sys args bin_file d =
    (file : ElfFile) × (sys.open_binary bin_file ≡ ok file)
    × (extract_dwarf_info sys.tools sys.limit args.src args.fun bin_file file ≡ ok d)
    × (march_is_supported d.compilation_unit.march ≡ true)

pub raising-ok {ℓ} : {A : Type ℓ} (x : Exn) (r : Result A) {a : A} → raising x r ≡ ok a → r ≡ ok a
raising-ok x (ok a) h = h
raising-ok x (err e) h = cc

supported_only-ok :
    (d : DwarfInfo) (b : Bool) {e : DwarfInfo} → supported_only d b ≡ ok e → (b ≡ true) × (d ≡ e)
supported_only-ok d true h = (refl, cc)
supported_only-ok d false h = cc

extract_dwarf_information-ok :
    (sys : System) (args : Arguments) (bin_file : Text) {d : DwarfInfo}
    → extract_dwarf_information sys args bin_file ≡ ok d
    → IsExtracted sys args bin_file d
unfolding extract_dwarf_information
extract_dwarf_information-ok sys args bin_file h =
    let (file, opened, rest) =
      >>=-eq-ok (sys.open_binary bin_file) _ (raising-ok dwarf_extraction_exception _ h) in
    let (e, extracted, supported) =
      >>=-eq-ok (extract_dwarf_info sys.tools sys.limit args.src args.fun bin_file file) _ rest in
    let (is_supported, same) =
      supported_only-ok e (march_is_supported e.compilation_unit.march) supported in
    subst (IsExtracted sys args bin_file) same (file, opened, extracted, is_supported)

pub extract_both-ok :
    (sys : System) (args : Arguments) {ds : DwarfInfo × DwarfInfo}
    → extract_both sys args ≡ ok ds
    → IsExtracted sys args args.bin_golden_ref ds.0 × IsExtracted sys args args.bin_isuv ds.1
unfolding extract_both
extract_both-ok sys args {ds = ds} h =
    let (d, first, rest) = >>=-eq-ok (extract_dwarf_information sys args args.bin_golden_ref) _ h in
    let (e, second, rest2) = >>=-eq-ok (extract_dwarf_information sys args args.bin_isuv) _ rest in
    let (t, shown, rest3) = >>=-eq-ok (str_dwarf_info d) _ rest2 in
    let (u, shown2, rest4) = >>=-eq-ok (str_dwarf_info e) _ rest3 in
    let same : (d, e) ≡ ds = cc in
    subst
      (λ p. IsExtracted sys args args.bin_golden_ref p.0 × IsExtracted sys args args.bin_isuv p.1)
      same
      (
        extract_dwarf_information-ok sys args args.bin_golden_ref first,
        extract_dwarf_information-ok sys args args.bin_isuv second,
      )
