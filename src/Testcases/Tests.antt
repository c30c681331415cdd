-- ===== src/Testcases/Tests.antt =====
-- A file of two test cases, one of them wrong.
use sfinx_backend.Base.{◌≡◌, ◌≤◌, ◌↔◌, ◌⊎◌, refl, true, false, List, [], ◌∷◌, ok}
use sfinx_backend.Base.Lists.{length, All}
use sfinx_backend.Testcases.{
  Value, null, testcase, settles, type_error, text, no_string, ValidationResult, output_field,
  must_be_string, max_testcases, validate_testcase_file, ends,
}
use sfinx_backend.Testcases.Validity.{IsTestcaseValue, HasNull, validate_testcase_file_decides}

abbrev values : List Value
values =
    testcase (record { input = text 4 3; output = text 2 1; other_fields = 0 })
    ∷ testcase (record { input = text 5 5; output = no_string; other_fields = 1 })
    ∷ []

second_is_wrong :
    validate_testcase_file ends values
    ≡ settles (
        ok (record {
          is_valid = false;
          testcase_count = 2;
          errors =
              record { testcase_index = 2; field = output_field; message = must_be_string } ∷ [];
          warnings = 1;
        }))
unfolding validate_testcase_file
second_is_wrong = refl

-- A null stops the handler.
null_breaks : validate_testcase_file ends (null ∷ values) ≡ type_error
unfolding validate_testcase_file
null_breaks = refl

validate_testcase_file_decides_example :
    ((r : ValidationResult) × (validate_testcase_file ends values ≡ settles (ok r))
      × ((r.is_valid ≡ true) ↔ (All IsTestcaseValue values × (length values ≤ max_testcases)))
      × (r.is_valid ≡ true → r.testcase_count ≡ length values)
      × (length r.errors ≤ 51))
    ⊎ ((validate_testcase_file ends values ≡ type_error) × HasNull values)
validate_testcase_file_decides_example = validate_testcase_file_decides values
