-- ===== src/Tests/Command.antt =====
-- libs/Converter/ConverterCommandBuilder.cpp at concrete inputs.
use librova_inpx_web.Common.{◌≡◌, refl, List, [], ◌∷◌, ◌++◌, none, ok, Bytes, codes, arith}
use librova_inpx_web.Converter.Command.{
  Request, Profile, epub, fb2, fb2cng_template, expand_template, build,
  single_file_in_destination_directory,
}
use librova_inpx_web.Converter.Command.Verbatim.{
  Piece, literal, placeholder, print, values, expand_template_lem, build_fb2cng,
}

-- The value has braces of its own, and the last brace is not closed.
abbrev pieces : List Piece
pieces = literal (codes "-o") ∷ placeholder (codes "a") ∷ placeholder (codes "b") ∷ []

abbrev replacements : List (Bytes × Bytes)
replacements = (codes "{a}", codes "{b}") ∷ []

expand_template_lem_example :
    expand_template replacements (print pieces ++ codes "{c")
    ≡ values replacements pieces ++ codes "{c"
expand_template_lem_example =
    expand_template_lem replacements pieces (codes "{c")
      (
        ((λ e. absurd (omega (arith, e))), ((λ e. absurd (omega (arith, e))), tt)),
        (((λ e. absurd (omega (arith, e))), tt), (((λ e. absurd (omega (arith, e))), tt), tt)),
      )
      ((λ e. absurd (omega (arith, e))), ((λ e. absurd (omega (arith, e))), tt))

abbrev request : Request
request = record {
  source_path = codes "{destination}.fb2";
  destination_path = codes "out/a.epub";
  source_format = fb2;
  destination_format = epub;
}

abbrev profile : Profile
profile = record {
  executable_path = codes "fb2cng";
  argument_template = fb2cng_template;
  output_mode = single_file_in_destination_directory;
}

build_fb2cng_example :
    build (λ path. codes "out") profile request none
    ≡ ok (record {
      executable_path = codes "fb2cng";
      arguments =
          codes "convert"
          ∷ codes "--to"
          ∷ codes "epub2"
          ∷ codes "--overwrite"
          ∷ codes "{destination}.fb2"
          ∷ codes "out"
          ∷ [];
      output_mode = single_file_in_destination_directory;
      expected_output_path = codes "out/a.epub";
      expected_output_directory = codes "out";
    })
build_fb2cng_example = build_fb2cng (λ path. codes "out") (codes "fb2cng") request none refl refl
