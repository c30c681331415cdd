-- ===== src/Testcases.antt =====
-- src/modules/problems/services/testcase-validation.service.ts: the checks of an uploaded file of
-- test cases. The stream of JSON values is a list; messages, by their kind, and warnings are kept.
pub mod Validity
mod Tests
use sfinx_backend.Base.{
  ℕ, suc, ◌+◌, ◌*◌, Bool, true, false, List, [], ◌∷◌, ◌++◌, ltb, leb, ◌==◌, if◌then◌else◌, Result,
  ok, throws, bad_request, internal_error,
}
use sfinx_backend.Base.Lists.{length}

-- A field of a test case: absent, null or another falsy value but the empty text; a value that is
-- no text; or a text by its length and the length that trimming leaves of it.
pub data Field : Type 0 where
  falsy no_string : Field
  text : ℕ → ℕ → Field

-- A test case, with the number of its other fields.
pub record TestcaseFormat : Type 0 where
  pub input : Field
  pub output : Field
  pub other_fields : ℕ

-- A value of the stream: null, or anything that has fields to ask for. Numbers, texts and lists
-- have neither field.
pub data Value : Type 0 where
  null : Value
  testcase : TestcaseFormat → Value

pub data FieldName : Type 0 where
  input_field output_field count_field : FieldName

pub data Message : Type 0 where
  is_required must_be_string cannot_be_empty size_exceeds too_many : Message

pub record ValidationError : Type 0 where
  pub testcase_index : ℕ
  pub field : FieldName
  pub message : Message

pub record ValidationResult : Type 0 where
  pub is_valid : Bool
  pub testcase_count : ℕ
  pub errors : List ValidationError
  pub warnings : ℕ

abbrev pub max_testcases : ℕ
max_testcases = 10000

abbrev pub max_size : ℕ
max_size = 10 * 1024 * 1024

abbrev pub max_errors : ℕ
max_errors = 50

-- The errors of one field; the empty text is falsy.
unfoldable pub field_errors : ℕ → FieldName → Field → List ValidationError
field_errors index name falsy =
    record { testcase_index = index; field = name; message = is_required } ∷ []
field_errors index name no_string =
    record { testcase_index = index; field = name; message = must_be_string } ∷ []
field_errors index name (text size trimmed) =
    if size == 0
    then record { testcase_index = index; field = name; message = is_required } ∷ []
    else if trimmed == 0
    then record { testcase_index = index; field = name; message = cannot_be_empty } ∷ []
    else if ltb max_size size
    then record { testcase_index = index; field = name; message = size_exceeds } ∷ []
    else []

unfoldable pub validate_testcase : TestcaseFormat → ℕ → List ValidationError
unfolding field_errors
validate_testcase t index =
    field_errors index input_field t.input ++ field_errors index output_field t.output

abbrev pub too_many_testcases : ℕ → ValidationError
too_many_testcases index = record {
  testcase_index = index;
  field = count_field;
  message = too_many;
}

-- How the stream of a file comes to its end.
pub data StreamEnd : Type 0 where
  ends bad_json read_error : StreamEnd

abbrev pub concluded : StreamEnd → ValidationResult → Result ValidationResult
concluded ends r = ok r
concluded bad_json r = throws bad_request
concluded read_error r = throws internal_error

-- What becomes of the promise: it settles, or the handler throws a `TypeError` of its own, which
-- nothing catches.
pub data Outcome : Type 0 where
  settles : Result ValidationResult → Outcome
  type_error : Outcome

-- The values from the stream, after those counted: a value that makes the errors or the test
-- cases too many resolves the result, and later ones are ignored.
unfoldable pub validate_from : StreamEnd → ℕ → List ValidationError → ℕ → List Value → Outcome
unfolding validate_testcase
validate_from e count errors warnings [] = settles (
    concluded e (record {
      is_valid = length errors == 0;
      testcase_count = count;
      errors = errors;
      warnings = warnings;
    }))
validate_from e count errors warnings (null ∷ rest) = type_error
validate_from e count errors warnings (testcase t ∷ rest) =
    let count' = count + 1 in
    let errors' = errors ++ validate_testcase t (count + 1) in
    let warnings' = warnings + t.other_fields in
    let onwards = validate_from e count' errors' warnings' rest in
    if leb max_errors (length errors')
    then settles (
        ok (record {
          is_valid = false;
          testcase_count = count';
          errors = errors';
          warnings = warnings';
        }))
    else if ltb max_testcases count'
    then settles (
        ok (record {
          is_valid = false;
          testcase_count = count';
          errors = errors' ++ too_many_testcases count' ∷ [];
          warnings = warnings';
        }))
    else onwards

unfoldable pub validate_testcase_file : StreamEnd → List Value → Outcome
unfolding validate_from
validate_testcase_file e values = validate_from e 0 [] 0 values
