-- ===== src/Testcases/Validity.antt =====
-- A file is valid exactly when each test case is, and there are not too many.
use sfinx_backend.Base.{
  ℕ, ◌+◌, ◌≡◌, ◌≤◌, ◌<◌, ◌↔◌, ◌⊎◌, refl, inl, inr, true, false, List, [], ◌∷◌, ◌++◌, arith, ltb,
  leb, ◌==◌, Bool-cases, ok,
}
use sfinx_backend.Base.Lists.{length, length-append, All}
use sfinx_backend.Testcases.{
  Value, null, testcase, settles, type_error, Field, falsy, no_string, text, TestcaseFormat,
  FieldName, input_field, output_field, ValidationError, ValidationResult, max_testcases, max_size,
  max_errors, field_errors, validate_testcase, validate_from, validate_testcase_file, ends,
  too_many_testcases,
}

-- A text that is not blank and not too long.
abbrev pub IsText : Field → Type 0
IsText falsy = ⊥
IsText no_string = ⊥
IsText (text size trimmed) = (0 < size) × (0 < trimmed) × (size ≤ max_size)

abbrev pub IsTestcase : TestcaseFormat → Type 0
IsTestcase t = IsText t.input × IsText t.output

abbrev pub IsTestcaseValue : Value → Type 0
IsTestcaseValue null = ⊥
IsTestcaseValue (testcase t) = IsTestcase t

abbrev pub HasNull : List Value → Type 0
HasNull [] = ⊥
HasNull (null ∷ values) = Unit
HasNull (testcase t ∷ values) = HasNull values

-- A text has no error exactly when it is right, and never more than one.
field_errors-length :
    (i : ℕ) (name : FieldName) (f : Field)
    → ((length (field_errors i name f) ≡ 0) ↔ IsText f) × (length (field_errors i name f) ≤ 1)
unfolding field_errors
field_errors-length i name falsy = ((λ h. cc, λ h. absurd h), omega arith)
field_errors-length i name no_string = ((λ h. cc, λ h. absurd h), omega arith)
field_errors-length i name (text size trimmed) =
    ((λ h. ground (arith, h), λ h. ground (arith, h)), ground arith)

validate_testcase-length :
    (t : TestcaseFormat) (i : ℕ)
    → ((length (validate_testcase t i) ≡ 0) ↔ IsTestcase t) × (length (validate_testcase t i) ≤ 2)
unfolding validate_testcase
validate_testcase-length t i =
    let a = field_errors-length i input_field t.input in
    let b = field_errors-length i output_field t.output in
    let sum =
      length-append (field_errors i input_field t.input) (field_errors i output_field t.output) in
    (
      (
        λ h. (a.0.0 (omega (arith, h, sum)), b.0.0 (omega (arith, h, sum))),
        λ h. omega (arith, sum, a.0.1 h.0, b.0.1 h.1),
      ),
      omega (arith, sum, a.1, b.1),
    )

-- What the rest of a stream leads to, from an accumulator that has not been too long.
record Concludes (count : ℕ) (errors : List ValidationError) (warnings : ℕ) (values : List Value)
    : Type 0 where
  pub result : ValidationResult
  pub given : validate_from ends count errors warnings values ≡ settles (ok result)
  pub valid :
      (result.is_valid ≡ true)
      ↔ ((length errors ≡ 0) × All IsTestcaseValue values × (count + length values ≤ max_testcases))
  pub bounded : length result.errors ≤ 51
  pub counted : result.is_valid ≡ true → result.testcase_count ≡ count + length values

concludes :
    (count : ℕ) (errors : List ValidationError) (warnings : ℕ) (values : List Value)
    → length errors < max_errors
    → count ≤ max_testcases
    → Concludes count errors warnings values
      ⊎ ((validate_from ends count errors warnings values ≡ type_error) × HasNull values)
unfolding validate_from
concludes count errors warnings [] few low = inl (record {
  result = record {
    is_valid = length errors == 0;
    testcase_count = count;
    errors = errors;
    warnings = warnings;
  };
  given = refl;
  valid = (λ h. ground (arith, h, low), λ h. ground (arith, h));
  bounded = omega (arith, few);
  counted = λ h. omega arith;
})
concludes count errors warnings (null ∷ rest) few low = inr (refl, tt)
concludes count errors warnings (testcase t ∷ rest) few low =
    let more = validate_testcase t (count + 1) in
    let errors' = errors ++ more in
    let sum = length-append errors more in
    let one = validate_testcase-length t (count + 1) in
    elim (Bool-cases (leb max_errors (length errors'))) [
      | inl many ↦ inl (record {
        result = record {
          is_valid = false;
          testcase_count = count + 1;
          errors = errors';
          warnings = warnings + t.other_fields;
        };
        given = rw many refl;
        valid = (λ h. cc, λ h. ground (arith, many, sum, one.0.1 h.1.0, h.0));
        bounded = omega (arith, sum, few, one.1);
        counted = λ h. cc;
      })
      | inr fine ↦ elim (Bool-cases (ltb max_testcases (count + 1))) [
        | inl over ↦ inl (record {
          result = record {
            is_valid = false;
            testcase_count = count + 1;
            errors = errors' ++ too_many_testcases (count + 1) ∷ [];
            warnings = warnings + t.other_fields;
          };
          given = rw (fine, over) refl;
          valid = (λ h. cc, λ h. ground (arith, over, h.2));
          bounded =
              ground (arith, fine, length-append errors' (too_many_testcases (count + 1) ∷ []));
          counted = λ h. cc;
        })
        | inr under ↦
            elim (concludes (count + 1) errors' (warnings + t.other_fields) rest
              (ground (arith, fine)) (ground (arith, under))) [
                | inr (broken, has) ↦ inr (rw (fine, under) broken, has)
                | inl c ↦ inl (record {
                  result = c.result;
                  given = rw (fine, under) c.given;
                  valid = (
                    λ h.
                        let (none_yet, others, room) = c.valid.0 h in
                        (
                          omega (arith, none_yet, sum),
                          (one.0.0 (omega (arith, none_yet, sum)), others),
                          omega (arith, room),
                        ),
                    λ h.
                        c.valid.1
                          (omega (arith, sum, h.0, one.0.1 h.1.0), h.1.1, omega (arith, h.2)),
                  );
                  bounded = c.bounded;
                  counted = λ h. omega (arith, c.counted h);
                })
              ]
      ]
    ]

-- A file without null among its test cases, read to its end, gets an answer, and is valid exactly
-- when it has at most 10000 test cases and each has an input and an output that are texts, not
-- blank and at most 10 MB long; a valid file is counted whole, and at most 51 errors are kept. A
-- file with a null gets the same, or the handler throws.
pub validate_testcase_file_decides :
    (values : List Value)
    → ((r : ValidationResult) × (validate_testcase_file ends values ≡ settles (ok r))
        × ((r.is_valid ≡ true) ↔ (All IsTestcaseValue values × (length values ≤ max_testcases)))
        × (r.is_valid ≡ true → r.testcase_count ≡ length values)
        × (length r.errors ≤ 51))
      ⊎ ((validate_testcase_file ends values ≡ type_error) × HasNull values)
unfolding validate_testcase_file
validate_testcase_file_decides values = elim (concludes 0 [] 0 values (omega arith) (omega arith)) [
  | inr broken ↦ inr broken
  | inl c ↦ inl (
    c.result,
    c.given,
    (
      λ h. let (_, all, room) = c.valid.0 h in (all, omega (arith, room)),
      λ h. c.valid.1 (refl, h.0, omega (arith, h.1)),
    ),
    λ h. omega (arith, c.counted h),
    c.bounded,
  )
]
