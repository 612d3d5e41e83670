-- ===== src/Tests/Rows.antt =====
-- The theorems on schemas, at a concrete one.
use lite_query.Prelude.{codes}
use lite_query.Types.Schema.{index_of}
use lite_query.Types.Schema.Lookup.{Answers, index_of-Answers}
use lite_query.Tests.Samples.{whole_floats, two_columns}

index_of-Answers_example : Answers two_columns (codes "M") (index_of two_columns (codes "M"))
index_of-Answers_example = index_of-Answers two_columns (codes "M") ((λ h. cc), tt)
