-- ===== src/Tests/Samples.antt =====
-- A stand-in for the doubles, and the rows, schemas and expressions of the examples.
use lite_query.Prelude.{ℕ, ◌+◌, true, ◌||◌, codes, none, some, List, [], ◌∷◌}
use lite_query.Prelude.Int.{
  ℤ, pos, pos_part, neg_part, ltb_ℤ, eqb_ℤ, ◌+ℤ◌, ◌-ℤ◌, ◌*ℤ◌, rem_ℤ, to_string_ℤ, to_unsigned,
  to_signed,
}
use lite_query.Types.Floats.{Floats}
use lite_query.Types.TypeId.{TypeId}
use lite_query.Types.DataType.{plain}
use lite_query.Types.Value.{Value, Row, int64}
use lite_query.Types.Schema.{Schema}
use lite_query.Parser.Ast.{Expr, literal, column_ref, binary_expr, BinaryOp}

-- Doubles without a fraction, unbounded: enough to run the code.
instance abbrev pub whole_floats : Floats ℤ
unfolding ◌+ℤ◌ ◌-ℤ◌ ◌*ℤ◌ rem_ℤ to_string_ℤ to_unsigned to_signed
whole_floats = record {
  of_int = λ a. a;
  to_int = λ a. some a;
  flt = ltb_ℤ;
  fle = λ a b. ltb_ℤ a b || eqb_ℤ a b;
  feq = eqb_ℤ;
  fadd = λ a b. a +ℤ b;
  fsub = λ a b. a -ℤ b;
  fmul = λ a b. a *ℤ b;
  fdiv = λ a b. a;
  fmod = rem_ℤ;
  pow = λ a b. a;
  fneg = λ a. pos 0 -ℤ a;
  fabs = λ a. pos (pos_part a + neg_part a);
  round = λ a. a;
  infinity = pos 1000;
  to_text = to_string_ℤ;
  bits = to_unsigned 64;
  of_bits = to_signed 64;
}

abbrev pub number : ℕ → Value ℤ
number n = int64 (pos n)

-- One column `n`, and two columns `n` and `m`.
abbrev pub one_column : Schema
one_column = record { name = codes "n"; type = plain TypeId.int64 true } ∷ []

abbrev pub two_columns : Schema
two_columns =
    record { name = codes "n"; type = plain TypeId.int64 true }
    ∷ record { name = codes "m"; type = plain TypeId.int64 true }
    ∷ []

abbrev pub three_rows : List (Row ℤ)
three_rows = (number 1 ∷ []) ∷ (number 2 ∷ []) ∷ (number 3 ∷ []) ∷ []

abbrev pub n_column : Expr ℤ
n_column = column_ref none none (codes "n")

abbrev pub m_column : Expr ℤ
m_column = column_ref none none (codes "m")

-- n > 1
abbrev pub above_one : Expr ℤ
above_one = binary_expr BinaryOp.gt n_column (literal (number 1))
