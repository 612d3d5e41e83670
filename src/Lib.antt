-- ===== src/Lib.antt =====
-- LiteQuery, an in-memory SQL engine in C++. A statement's text is cut into tokens (src/parser/lexer),
-- parsed into a syntax tree (src/parser/ast.h), planned into a tree of operators that pull batches of
-- rows from one another (src/execution/physical_plan), whose expressions the evaluator computes
-- (src/execution/eval.cpp) over the types of include/litequery/types.h, from tables of typed columns
-- (src/storage).
--
-- The files, and the code that each is about:
--   Prelude          tests on numbers and bytes, lists over the native numbers, signed integers, and
--                    Result: C++ code returns `ok`, throws a `Fault`, or meets what C++ leaves undefined
--   Types            include/litequery/types.h: TypeId, DataType, Value, Schema and Batch, and
--                    Floats, the parameter for `double`
--   Parser           src/parser: Ast for ast.h, Token for the token kinds and the keyword table, Lexer for
--                    the scanner: its cursor, Lexer.Scan for tokenize and the scanners of single tokens
--   Execution.Like   likeMatch of src/execution/eval.cpp
--   Execution.Eval   the rest of src/execution/eval.cpp: `evaluate` goes by the cases of ExprNode
--                    (eval_binary, eval_between, eval_in, ...: one function for each alternative), in
--                    Values, Operators and Functions
--   Execution.Operator  src/execution/physical_plan: Operator is the pull interface, `next` on the members
--                    of an operator as a state; Filter, Project, Limit, Append, Chunk (Values, and how
--                    HashJoin hands out its rows), Join (HashJoin), Scan (SeqScan), Sort, Distinct, Aggregate
--                    (HashAggregate), and Buffered for what the last three share. A client takes any child Operator, and
--                    what it needs of the child is Stream.Yields: the rows that the child produces
--   Storage          src/storage/column.h: Bitmap for ValidityBitmap, Column for Column; src/storage/table.h:
--                    Table; src/catalog/catalog.h: Catalog; src/storage/persistence.cpp: Persistence, with
--                    Reader for a stream that is read from its front, Codec for the structs Writer and
--                    Reader, Files for saveDatabase and loadDatabase; src/storage/csv_reader.cpp: Csv for
--                    parseGrid, Csv.Inference for the types of columns, Csv.Load for readCsvString
--   Tests            the theorems at concrete inputs
--
-- Objects are records and are passed explicitly; a member function that changes members returns the new
-- record. A child operator belongs to its parent alone, so its state is a field of the parent's.
--
-- Bounds and fuel. int64_t arithmetic is checked against its range, and an overflow is `undefined`, as
-- C++ has it; a narrow integer is cut to its width where the code casts. Row counts are natural numbers:
-- no counter here can reach 2^64 before memory ends. The loops of likeMatch, tokenize, drain, Filter,
-- Limit, HashJoin, Sort, Distinct and HashAggregate run on fuel; tokenize starts with one round more than
-- the source has bytes; likeMatch starts with (length of the text + 1) * (length of the pattern + 1)
-- rounds, and the loops over a child need one round more than the child has rows, since no batch before
-- the last one is empty. That this is enough is part of the theorems on them.
--
-- Parameters. `double` and its functions are the record Floats, of which no law is assumed. tolower and
-- strncasecmp are those of the "C" locale. std::from_chars and std::stod on a whole text are the record
-- Numerals; the number that they find in front of other text is not modelled. std::stable_sort is written as an insertion from the right,
-- which is one stable sort; a std::unordered_map is a list of entries, and the order in which the catalog
-- lists its tables is a parameter of saveDatabase. The most elements that a vector or a string can be
-- given is the parameter `capacity` of loadDatabase.
--
-- Not modelled: the parser, the planner, the fast path for aggregates, the C interface, the shell,
--  the bindings; reset and explain of the operators; intValue and floatValue of a token. Source
-- locations are left out of the syntax trees. The locks of the catalog, and the tables that a caller
-- shares with it, are left out: a table belongs to the catalog that holds it. The file system (opening a
-- file, an error while writing) is left out of persistence: a file is its bytes.
pub mod Prelude
pub mod Types
pub mod Parser
pub mod Execution
pub mod Storage
pub mod Tests
