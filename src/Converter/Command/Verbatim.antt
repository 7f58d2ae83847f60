-- ===== src/Converter/Command/Verbatim.antt =====
-- libs/Converter/ConverterCommandBuilder.cpp: the values of placeholders stand in the arguments as
-- they are.
use librova_inpx_web.Common.{
  ℕ, zero, suc, ◌≤◌, ◌≡◌, ◌≢◌, refl, ap, sym, subst, ◌∙◌, true, List, [], ◌∷◌, ◌++◌, Option, none,
  some, ok, ok_inj, ◌==◌, Bytes, codes, bytes_eq, length, length-append, map, All, append-nil,
  append_assoc, Bool-cases, inl, inr, arith,
}
use librova_inpx_web.Inpx.Text.{is_nil}
use librova_inpx_web.Converter.Command.{
  Profile, Request, Command, is_valid_request, to_converter_format, lookup, cut_close, resolve,
  expand_from, expand_template, create_fb2cng_profile, replacements_of, build, fb2cng_template,
  single_file_in_destination_directory,
}

-- A template is texts without `{`, and placeholders: a name without `}` in braces.
pub data Piece : Type 0 where
  literal placeholder : Bytes → Piece

abbrev pub IsPiece : Piece → Type 0
IsPiece (literal text) = All (λ c. c ≢ b'{') text
IsPiece (placeholder name) = All (λ c. c ≢ b'}') name

abbrev pub print_piece : Piece → Bytes
print_piece (literal text) = text
print_piece (placeholder name) = b'{' ∷ (name ++ b'}' ∷ [])

unfoldable pub print : List Piece → Bytes
print [] = []
print (p ∷ ps) = print_piece p ++ print ps

-- What a piece stands for.
abbrev pub value_of : List (Bytes × Bytes) → Piece → Bytes
value_of replacements (literal text) = text
value_of replacements (placeholder name) = resolve replacements (b'{' ∷ (name ++ b'}' ∷ []))

unfoldable pub values : List (Bytes × Bytes) → List Piece → Bytes
values replacements [] = []
values replacements (p ∷ ps) = value_of replacements p ++ values replacements ps

cut_close_lem :
    (name rest : Bytes)
    → All (λ c. c ≢ b'}') name
    → cut_close (name ++ b'}' ∷ rest) ≡ some (name ++ b'}' ∷ [], rest)
unfolding cut_close
cut_close_lem [] rest h = refl
cut_close_lem (c ∷ cs) rest h = elim (Bool-cases (c == b'}')) [
  | inl t ↦ absurd (h.0 (ground arith))
  | inr t ↦ rw (t, cut_close_lem cs rest h.1) refl
]

cut_close-none : (text : Bytes) → All (λ c. c ≢ b'}') text → cut_close text ≡ none
unfolding cut_close
cut_close-none [] h = refl
cut_close-none (c ∷ cs) h = elim (Bool-cases (c == b'}')) [
  | inl t ↦ absurd (h.0 (ground arith))
  | inr t ↦ rw (t, cut_close-none cs h.1) refl
]

module _ (replacements : List (Bytes × Bytes)) where
  -- A text expands to another one, with as much fuel as it has bytes, or more.
  abbrev ExpandsTo : Bytes → Bytes → Type 0
  ExpandsTo text value = (n : ℕ) → length text ≤ n → expand_from n replacements text ≡ value

  expand_tail : (text : Bytes) → All (λ c. c ≢ b'}') text → ExpandsTo text text
  unfolding expand_from
  expand_tail [] h zero m = refl
  expand_tail [] h (suc n) m = refl
  expand_tail (c ∷ cs) h zero m = absurd (omega (arith, m))
  expand_tail (c ∷ cs) h (suc n) m =
      let rest = expand_tail cs h.1 n (omega (arith, m)) in
      elim (Bool-cases (c == b'{')) [
        | inl t ↦ rw (t, cut_close-none (c ∷ cs) h, expand_from) (ap (λ x. c ∷ x) rest)
        | inr t ↦ rw (t, expand_from) (ap (λ x. c ∷ x) rest)
      ]

  expand_literal :
      (text rest : Bytes) {value : Bytes}
      → All (λ c. c ≢ b'{') text
      → ExpandsTo rest value
      → ExpandsTo (text ++ rest) (text ++ value)
  unfolding expand_from
  expand_literal [] rest h e n m = e n m
  expand_literal (c ∷ cs) rest h e zero m = absurd (omega (arith, m))
  expand_literal (c ∷ cs) rest h e (suc n) m = elim (Bool-cases (c == b'{')) [
    | inl t ↦ absurd (h.0 (ground arith))
    | inr t ↦
        rw (t, expand_from) (ap (λ x. c ∷ x) (expand_literal cs rest h.1 e n (omega (arith, m))))
  ]

  expand_placeholder :
      (name rest : Bytes) {value : Bytes}
      → All (λ c. c ≢ b'}') name
      → ExpandsTo rest value
      → ExpandsTo (b'{' ∷ (name ++ b'}' ∷ rest)) (value_of replacements (placeholder name) ++ value)
  unfolding expand_from cut_close
  expand_placeholder name rest h e zero m = absurd (omega (arith, m))
  expand_placeholder name rest h e (suc n) m =
      rw (cut_close_lem name rest h, expand_from)
        (ap (λ x. resolve replacements (b'{' ∷ (name ++ b'}' ∷ [])) ++ x)
          (e n (omega (arith, m, length-append name (b'}' ∷ rest)))))

  expand_pieces :
      (ps : List Piece) (tail : Bytes)
      → All IsPiece ps
      → All (λ c. c ≢ b'}') tail
      → ExpandsTo (print ps ++ tail) (values replacements ps ++ tail)
  unfolding print values
  expand_pieces [] tail h t = expand_tail tail t
  expand_pieces (literal text ∷ ps) tail h t =
      rw (append_assoc text (print ps) tail, append_assoc text (values replacements ps) tail)
        (expand_literal text (print ps ++ tail) h.0 (expand_pieces ps tail h.1 t))
  expand_pieces (placeholder name ∷ ps) tail h t =
      let one : Bytes = value_of replacements (placeholder name) in
      let e : (print_piece (placeholder name) ++ print ps) ++ tail
          ≡ b'{' ∷ (name ++ b'}' ∷ (print ps ++ tail)) =
        append_assoc (print_piece (placeholder name)) (print ps) tail
        ∙ ap (λ x. b'{' ∷ x) (append_assoc name (b'}' ∷ []) (print ps ++ tail)) in
      subst (λ x. ExpandsTo x ((one ++ values replacements ps) ++ tail)) (sym e)
        (subst (ExpandsTo (b'{' ∷ (name ++ b'}' ∷ (print ps ++ tail))))
          (sym (append_assoc one (values replacements ps) tail))
          (expand_placeholder name (print ps ++ tail) h.0 (expand_pieces ps tail h.1 t)))

  -- A template of texts and placeholders, with a tail without `}`, expands to the texts and to what
  -- the placeholders stand for, one behind the other, and then the tail: what is put in for a
  -- placeholder is not expanded again, whatever braces it has, and an unknown placeholder stays.
  pub expand_template_lem :
      (ps : List Piece) (tail : Bytes)
      → All IsPiece ps
      → All (λ c. c ≢ b'}') tail
      → expand_template replacements (print ps ++ tail) ≡ values replacements ps ++ tail
  unfolding expand_template
  expand_template_lem ps tail h t =
      expand_pieces ps tail h t (length (print ps ++ tail)) (omega arith)

arguments_lem :
    (r : Request) (d : Bytes)
    → map (expand_template (replacements_of r d)) fb2cng_template
      ≡ codes "convert"
        ∷ codes "--to"
        ∷ to_converter_format r.destination_format
        ∷ codes "--overwrite"
        ∷ r.source_path
        ∷ d
        ∷ []
unfolding expand_template expand_from lookup cut_close bytes_eq
arguments_lem r d =
    ap
      (λ (x : Bytes × Bytes × Bytes).
        codes "convert" ∷ codes "--to" ∷ x.0 ∷ codes "--overwrite" ∷ x.1 ∷ x.2 ∷ [])
      (three (append-nil (to_converter_format r.destination_format)) (append-nil r.source_path)
        (append-nil d))
  where
    three :
        {a a' b b' c c' : Bytes}
        → a ≡ a'
        → b ≡ b'
        → c ≡ c'
        → ◌≡◌ {A = Bytes × Bytes × Bytes} (a, b, c) (a', b', c')
    three x y z = rw (x, y, z) refl

-- The converter that is built in is called with the source and the directory as they are, whatever
-- text they are, where the executable, the two paths and the formats are valid.
pub build_fb2cng :
    (parent : Bytes → Bytes) (executable : Bytes) (r : Request) (directory : Option Bytes)
    {p : Profile}
    → create_fb2cng_profile executable ≡ ok p
    → is_valid_request r ≡ true
    → let target : Bytes = elim directory [ none ↦ parent r.destination_path | some d ↦ d ] in
      build parent p r directory
      ≡ ok (record {
        executable_path = executable;
        arguments =
            codes "convert"
            ∷ codes "--to"
            ∷ to_converter_format r.destination_format
            ∷ codes "--overwrite"
            ∷ r.source_path
            ∷ target
            ∷ [];
        output_mode = single_file_in_destination_directory;
        expected_output_path = r.destination_path;
        expected_output_directory = target;
      })
unfolding build
build_fb2cng parent executable r directory {p} x valid = elim (Bool-cases (is_nil executable)) [
  | inl t ↦ absurd (cc (rw t at x))
  | inr t ↦
      let d : Bytes = elim directory [ none ↦ parent r.destination_path | some d ↦ d ] in
      subst (λ (q : Profile). build parent q r directory ≡ ok (command d)) (ok_inj (rw t at x))
        (rw (t, valid, build)
          (ap (λ xs. ok (record (command d) { arguments = xs })) (arguments_lem r d)))
]
  where
    command : Bytes → Command
    command d = record {
      executable_path = executable;
      arguments =
          codes "convert"
          ∷ codes "--to"
          ∷ to_converter_format r.destination_format
          ∷ codes "--overwrite"
          ∷ r.source_path
          ∷ d
          ∷ [];
      output_mode = single_file_in_destination_directory;
      expected_output_path = r.destination_path;
      expected_output_directory = d;
    }
