-- ===== src/Converter/Command.antt =====
-- libs/Converter/ConverterCommandBuilder.cpp: the arguments of the converter, from templates with
-- placeholders in braces.
pub mod Verbatim
use librova_inpx_web.Common.{
  ℕ, zero, suc, Bool, true, false, not, ◌&&◌, ◌||◌, List, [], ◌∷◌, ◌++◌, Option, none, some,
  Outcome, ok, throw, ◌==◌, if◌then◌else◌, Bytes, codes, bytes_eq, length, map,
}
use librova_inpx_web.Inpx.Text.{is_nil}

-- `EBookFormat`, `EConverterOutputMode`.
pub data BookFormat : Type 0 where
  epub fb2 : BookFormat

pub data OutputMode : Type 0 where
  exact_destination_path single_file_in_destination_directory : OutputMode

abbrev pub same_format : BookFormat → BookFormat → Bool
same_format epub epub = true
same_format fb2 fb2 = true
same_format _ _ = false

-- `SConverterCommandProfile`, `SConversionRequest` and `SResolvedConverterCommand`. A path is its
-- text in UTF-8.
pub record Profile : Type 0 where
  pub executable_path : Bytes
  pub argument_template : List Bytes
  pub output_mode : OutputMode

pub record Request : Type 0 where
  pub source_path : Bytes
  pub destination_path : Bytes
  pub source_format : BookFormat
  pub destination_format : BookFormat

pub record Command : Type 0 where
  pub executable_path : Bytes
  pub arguments : List Bytes
  pub output_mode : OutputMode
  pub expected_output_path : Bytes
  pub expected_output_directory : Bytes

pub data CommandError : Type 0 where
  empty_executable invalid_profile invalid_request : CommandError

abbrev pub is_empty : List Bytes → Bool
is_empty [] = true
is_empty (t ∷ ts) = false

-- The two `IsValid`.
abbrev pub is_valid_profile : Profile → Bool
is_valid_profile p = not (is_nil p.executable_path) && not (is_empty p.argument_template)

abbrev pub is_valid_request : Request → Bool
is_valid_request r =
    not (is_nil r.source_path)
    && (not (is_nil r.destination_path) && not (same_format r.source_format r.destination_format))

-- `ToConverterFormat`.
abbrev pub to_converter_format : BookFormat → Bytes
to_converter_format epub = codes "epub2"
to_converter_format fb2 = codes "fb2"

-- `replacements.find`.
unfoldable pub lookup : Bytes → List (Bytes × Bytes) → Option Bytes
lookup key [] = none
lookup key ((k, v) ∷ rest) = if bytes_eq k key then some v else lookup key rest

-- What stands up to the first `}` and with it, and what stands behind it.
unfoldable pub cut_close : Bytes → Option (Bytes × Bytes)
cut_close [] = none
cut_close (c ∷ cs) =
    if c == b'}'
    then some (c ∷ [], cs)
    else elim (cut_close cs) [ none ↦ none | some (before, rest) ↦ some (c ∷ before, rest) ]

abbrev pub resolve : List (Bytes × Bytes) → Bytes → Bytes
resolve replacements placeholder = elim (lookup placeholder replacements) [
  | none ↦ placeholder
  | some value ↦ value
]

-- `ExpandTemplate`, where each round goes on behind what it read.
unfoldable pub expand_from : ℕ → List (Bytes × Bytes) → Bytes → Bytes
unfolding lookup cut_close
expand_from zero replacements template = []
expand_from (suc n) replacements [] = []
expand_from (suc n) replacements (c ∷ cs) = elim (c == b'{') [
  | false ↦ c ∷ expand_from n replacements cs
  | true ↦ elim (cut_close (c ∷ cs)) [
    | none ↦ c ∷ expand_from n replacements cs
    | some (placeholder, rest) ↦ resolve replacements placeholder ++ expand_from n replacements rest
  ]
]

unfoldable pub expand_template : List (Bytes × Bytes) → Bytes → Bytes
unfolding expand_from
expand_template replacements template = expand_from (length template) replacements template

abbrev pub fb2cng_template : List Bytes
fb2cng_template =
    codes "convert"
    ∷ codes "--to"
    ∷ codes "{output_format}"
    ∷ codes "--overwrite"
    ∷ codes "{source}"
    ∷ codes "{destination_dir}"
    ∷ []

-- `CreateFb2CngProfile`.
abbrev pub create_fb2cng_profile : Bytes → Outcome CommandError Profile
create_fb2cng_profile executable =
    if is_nil executable
    then throw empty_executable
    else ok (record {
      executable_path = executable;
      argument_template = fb2cng_template;
      output_mode = single_file_in_destination_directory;
    })

abbrev pub replacements_of : Request → Bytes → List (Bytes × Bytes)
replacements_of r directory =
    (codes "{source}", r.source_path)
    ∷ (codes "{destination}", r.destination_path)
    ∷ (codes "{destination_dir}", directory)
    ∷ (codes "{output_format}", to_converter_format r.destination_format)
    ∷ []

-- `Build`, where `parent` is `std::filesystem::path::parent_path`.
unfoldable pub build :
    (Bytes → Bytes) → Profile → Request → Option Bytes → Outcome CommandError Command
unfolding expand_template
build parent p r directory_override =
    let directory : Bytes = elim directory_override [
      | none ↦ parent r.destination_path
      | some d ↦ d
    ] in
    if not (is_valid_profile p)
    then throw invalid_profile
    else if not (is_valid_request r)
    then throw invalid_request
    else ok (record {
      executable_path = p.executable_path;
      arguments = map (expand_template (replacements_of r directory)) p.argument_template;
      output_mode = p.output_mode;
      expected_output_path = r.destination_path;
      expected_output_directory = directory;
    })
