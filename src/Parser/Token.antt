-- ===== src/Parser/Token.antt =====
-- src/parser/lexer.h and src/parser/lexer.cpp: the kinds of tokens, their names and the table of the
-- keywords.
pub mod Keywords
use lite_query.Prelude.{
  ℕ, Bool, ◌&&◌, leb, Bytes, codes, bytes_eq, List, [], ◌∷◌, Option, none, some, if◌then◌else◌,
}

pub data TokenKind : Type 0 where
  lit_integer lit_float lit_string lit_true lit_false lit_null ident kw_select kw_from kw_where :
      TokenKind
  kw_group kw_by kw_having kw_order kw_limit kw_offset kw_distinct kw_as kw_union kw_all kw_join :
      TokenKind
  kw_inner kw_left kw_right kw_full kw_outer kw_cross kw_on kw_create kw_table kw_drop kw_insert :
      TokenKind
  kw_into kw_values kw_delete kw_update kw_set kw_int kw_integer kw_bigint kw_smallint kw_tinyint :
      TokenKind
  kw_float kw_double kw_real kw_boolean kw_bool kw_varchar kw_text kw_date kw_timestamp kw_decimal :
      TokenKind
  kw_numeric kw_blob kw_not kw_null_kw kw_primary kw_key kw_default kw_and kw_or kw_not_kw kw_in :
      TokenKind
  kw_like kw_ilike kw_between kw_is kw_exists kw_case kw_when kw_then kw_else kw_end kw_asc
        kw_desc :
      TokenKind
  kw_nulls kw_first kw_last kw_over kw_partition kw_rows kw_range kw_unbounded kw_preceding :
      TokenKind
  kw_following kw_current kw_row op_plus op_minus op_star op_slash op_percent op_caret op_eq
        op_neq :
      TokenKind
  op_lt op_lte op_gt op_gte op_concat op_arrow op_arrow2 lparen rparen lbracket rbracket comma :
      TokenKind
  semicolon dot colon double_colon question dollar_num end_of_file error : TokenKind

-- The number of the enumerator, by which C++ compares two of them.
unfoldable pub ordinal : TokenKind → ℕ
ordinal lit_integer = 0
ordinal lit_float = 1
ordinal lit_string = 2
ordinal lit_true = 3
ordinal lit_false = 4
ordinal lit_null = 5
ordinal ident = 6
ordinal kw_select = 7
ordinal kw_from = 8
ordinal kw_where = 9
ordinal kw_group = 10
ordinal kw_by = 11
ordinal kw_having = 12
ordinal kw_order = 13
ordinal kw_limit = 14
ordinal kw_offset = 15
ordinal kw_distinct = 16
ordinal kw_as = 17
ordinal kw_union = 18
ordinal kw_all = 19
ordinal kw_join = 20
ordinal kw_inner = 21
ordinal kw_left = 22
ordinal kw_right = 23
ordinal kw_full = 24
ordinal kw_outer = 25
ordinal kw_cross = 26
ordinal kw_on = 27
ordinal kw_create = 28
ordinal kw_table = 29
ordinal kw_drop = 30
ordinal kw_insert = 31
ordinal kw_into = 32
ordinal kw_values = 33
ordinal kw_delete = 34
ordinal kw_update = 35
ordinal kw_set = 36
ordinal kw_int = 37
ordinal kw_integer = 38
ordinal kw_bigint = 39
ordinal kw_smallint = 40
ordinal kw_tinyint = 41
ordinal kw_float = 42
ordinal kw_double = 43
ordinal kw_real = 44
ordinal kw_boolean = 45
ordinal kw_bool = 46
ordinal kw_varchar = 47
ordinal kw_text = 48
ordinal kw_date = 49
ordinal kw_timestamp = 50
ordinal kw_decimal = 51
ordinal kw_numeric = 52
ordinal kw_blob = 53
ordinal kw_not = 54
ordinal kw_null_kw = 55
ordinal kw_primary = 56
ordinal kw_key = 57
ordinal kw_default = 58
ordinal kw_and = 59
ordinal kw_or = 60
ordinal kw_not_kw = 61
ordinal kw_in = 62
ordinal kw_like = 63
ordinal kw_ilike = 64
ordinal kw_between = 65
ordinal kw_is = 66
ordinal kw_exists = 67
ordinal kw_case = 68
ordinal kw_when = 69
ordinal kw_then = 70
ordinal kw_else = 71
ordinal kw_end = 72
ordinal kw_asc = 73
ordinal kw_desc = 74
ordinal kw_nulls = 75
ordinal kw_first = 76
ordinal kw_last = 77
ordinal kw_over = 78
ordinal kw_partition = 79
ordinal kw_rows = 80
ordinal kw_range = 81
ordinal kw_unbounded = 82
ordinal kw_preceding = 83
ordinal kw_following = 84
ordinal kw_current = 85
ordinal kw_row = 86
ordinal op_plus = 87
ordinal op_minus = 88
ordinal op_star = 89
ordinal op_slash = 90
ordinal op_percent = 91
ordinal op_caret = 92
ordinal op_eq = 93
ordinal op_neq = 94
ordinal op_lt = 95
ordinal op_lte = 96
ordinal op_gt = 97
ordinal op_gte = 98
ordinal op_concat = 99
ordinal op_arrow = 100
ordinal op_arrow2 = 101
ordinal lparen = 102
ordinal rparen = 103
ordinal lbracket = 104
ordinal rbracket = 105
ordinal comma = 106
ordinal semicolon = 107
ordinal dot = 108
ordinal colon = 109
ordinal double_colon = 110
ordinal question = 111
ordinal dollar_num = 112
ordinal end_of_file = 113
ordinal error = 114

unfoldable pub is_keyword : TokenKind → Bool
unfolding ordinal
is_keyword k = leb (ordinal kw_select) (ordinal k) && leb (ordinal k) (ordinal kw_row)

unfoldable pub is_literal : TokenKind → Bool
unfolding ordinal
is_literal k = leb (ordinal lit_integer) (ordinal k) && leb (ordinal k) (ordinal lit_null)

unfoldable pub token_kind_name : TokenKind → Bytes
token_kind_name lit_integer = codes "LIT_INTEGER"
token_kind_name lit_float = codes "LIT_FLOAT"
token_kind_name lit_string = codes "LIT_STRING"
token_kind_name lit_true = codes "LIT_TRUE"
token_kind_name lit_false = codes "LIT_FALSE"
token_kind_name lit_null = codes "LIT_NULL"
token_kind_name ident = codes "IDENT"
token_kind_name kw_select = codes "SELECT"
token_kind_name kw_from = codes "FROM"
token_kind_name kw_where = codes "WHERE"
token_kind_name kw_group = codes "GROUP"
token_kind_name kw_by = codes "BY"
token_kind_name kw_having = codes "HAVING"
token_kind_name kw_order = codes "ORDER"
token_kind_name kw_limit = codes "LIMIT"
token_kind_name kw_offset = codes "OFFSET"
token_kind_name kw_distinct = codes "DISTINCT"
token_kind_name kw_as = codes "AS"
token_kind_name kw_union = codes "UNION"
token_kind_name kw_all = codes "ALL"
token_kind_name kw_join = codes "JOIN"
token_kind_name kw_inner = codes "INNER"
token_kind_name kw_left = codes "LEFT"
token_kind_name kw_right = codes "RIGHT"
token_kind_name kw_full = codes "FULL"
token_kind_name kw_outer = codes "OUTER"
token_kind_name kw_cross = codes "CROSS"
token_kind_name kw_on = codes "ON"
token_kind_name kw_create = codes "CREATE"
token_kind_name kw_table = codes "TABLE"
token_kind_name kw_drop = codes "DROP"
token_kind_name kw_insert = codes "INSERT"
token_kind_name kw_into = codes "INTO"
token_kind_name kw_values = codes "VALUES"
token_kind_name kw_delete = codes "DELETE"
token_kind_name kw_update = codes "UPDATE"
token_kind_name kw_set = codes "SET"
token_kind_name kw_int = codes "INT"
token_kind_name kw_integer = codes "INTEGER"
token_kind_name kw_bigint = codes "BIGINT"
token_kind_name kw_smallint = codes "SMALLINT"
token_kind_name kw_tinyint = codes "TINYINT"
token_kind_name kw_float = codes "FLOAT"
token_kind_name kw_double = codes "DOUBLE"
token_kind_name kw_real = codes "REAL"
token_kind_name kw_boolean = codes "BOOLEAN"
token_kind_name kw_bool = codes "BOOL"
token_kind_name kw_varchar = codes "VARCHAR"
token_kind_name kw_text = codes "TEXT"
token_kind_name kw_date = codes "DATE"
token_kind_name kw_timestamp = codes "TIMESTAMP"
token_kind_name kw_decimal = codes "DECIMAL"
token_kind_name kw_numeric = codes "NUMERIC"
token_kind_name kw_blob = codes "BLOB"
token_kind_name kw_not = codes "NOT"
token_kind_name kw_null_kw = codes "NULL"
token_kind_name kw_primary = codes "PRIMARY"
token_kind_name kw_key = codes "KEY"
token_kind_name kw_default = codes "DEFAULT"
token_kind_name kw_and = codes "AND"
token_kind_name kw_or = codes "OR"
token_kind_name kw_not_kw = codes "NOT"
token_kind_name kw_in = codes "IN"
token_kind_name kw_like = codes "LIKE"
token_kind_name kw_ilike = codes "ILIKE"
token_kind_name kw_between = codes "BETWEEN"
token_kind_name kw_is = codes "IS"
token_kind_name kw_exists = codes "EXISTS"
token_kind_name kw_case = codes "CASE"
token_kind_name kw_when = codes "WHEN"
token_kind_name kw_then = codes "THEN"
token_kind_name kw_else = codes "ELSE"
token_kind_name kw_end = codes "END"
token_kind_name kw_asc = codes "ASC"
token_kind_name kw_desc = codes "DESC"
token_kind_name kw_nulls = codes "NULLS"
token_kind_name kw_first = codes "FIRST"
token_kind_name kw_last = codes "LAST"
token_kind_name kw_over = codes "OVER"
token_kind_name kw_partition = codes "PARTITION"
token_kind_name kw_rows = codes "ROWS"
token_kind_name kw_range = codes "RANGE"
token_kind_name kw_unbounded = codes "UNBOUNDED"
token_kind_name kw_preceding = codes "PRECEDING"
token_kind_name kw_following = codes "FOLLOWING"
token_kind_name kw_current = codes "CURRENT"
token_kind_name kw_row = codes "ROW"
token_kind_name op_plus = codes "+"
token_kind_name op_minus = codes "-"
token_kind_name op_star = codes "*"
token_kind_name op_slash = codes "/"
token_kind_name op_percent = codes "%"
token_kind_name op_caret = codes "^"
token_kind_name op_eq = codes "="
token_kind_name op_neq = codes "<>"
token_kind_name op_lt = codes "<"
token_kind_name op_lte = codes "<="
token_kind_name op_gt = codes ">"
token_kind_name op_gte = codes ">="
token_kind_name op_concat = codes "||"
token_kind_name op_arrow = codes "->"
token_kind_name op_arrow2 = codes "->>"
token_kind_name lparen = codes "("
token_kind_name rparen = codes ")"
token_kind_name lbracket = codes "["
token_kind_name rbracket = codes "]"
token_kind_name comma = codes ","
token_kind_name semicolon = codes ";"
token_kind_name dot = codes "."
token_kind_name colon = codes ":"
token_kind_name double_colon = codes "::"
token_kind_name question = codes "?"
token_kind_name dollar_num = codes "DOLLAR_PARAM"
token_kind_name end_of_file = codes "EOF"
token_kind_name error = codes "ERROR"

unfoldable pub keyword_table : List (Bytes × TokenKind)
keyword_table =
    (codes "SELECT", kw_select)
    ∷ (codes "FROM", kw_from)
    ∷ (codes "WHERE", kw_where)
    ∷ (codes "GROUP", kw_group)
    ∷ (codes "BY", kw_by)
    ∷ (codes "HAVING", kw_having)
    ∷ (codes "ORDER", kw_order)
    ∷ (codes "LIMIT", kw_limit)
    ∷ (codes "OFFSET", kw_offset)
    ∷ (codes "DISTINCT", kw_distinct)
    ∷ (codes "AS", kw_as)
    ∷ (codes "UNION", kw_union)
    ∷ (codes "ALL", kw_all)
    ∷ (codes "JOIN", kw_join)
    ∷ (codes "INNER", kw_inner)
    ∷ (codes "LEFT", kw_left)
    ∷ (codes "RIGHT", kw_right)
    ∷ (codes "FULL", kw_full)
    ∷ (codes "OUTER", kw_outer)
    ∷ (codes "CROSS", kw_cross)
    ∷ (codes "ON", kw_on)
    ∷ (codes "CREATE", kw_create)
    ∷ (codes "TABLE", kw_table)
    ∷ (codes "DROP", kw_drop)
    ∷ (codes "INSERT", kw_insert)
    ∷ (codes "INTO", kw_into)
    ∷ (codes "VALUES", kw_values)
    ∷ (codes "DELETE", kw_delete)
    ∷ (codes "UPDATE", kw_update)
    ∷ (codes "SET", kw_set)
    ∷ (codes "INT", kw_int)
    ∷ (codes "INTEGER", kw_integer)
    ∷ (codes "BIGINT", kw_bigint)
    ∷ (codes "SMALLINT", kw_smallint)
    ∷ (codes "TINYINT", kw_tinyint)
    ∷ (codes "FLOAT", kw_float)
    ∷ (codes "DOUBLE", kw_double)
    ∷ (codes "REAL", kw_real)
    ∷ (codes "BOOLEAN", kw_boolean)
    ∷ (codes "BOOL", kw_bool)
    ∷ (codes "VARCHAR", kw_varchar)
    ∷ (codes "TEXT", kw_text)
    ∷ (codes "DATE", kw_date)
    ∷ (codes "TIMESTAMP", kw_timestamp)
    ∷ (codes "DECIMAL", kw_decimal)
    ∷ (codes "NUMERIC", kw_numeric)
    ∷ (codes "BLOB", kw_blob)
    ∷ (codes "NOT", kw_not)
    ∷ (codes "NULL", lit_null)
    ∷ (codes "PRIMARY", kw_primary)
    ∷ (codes "KEY", kw_key)
    ∷ (codes "DEFAULT", kw_default)
    ∷ (codes "AND", kw_and)
    ∷ (codes "OR", kw_or)
    ∷ (codes "IN", kw_in)
    ∷ (codes "LIKE", kw_like)
    ∷ (codes "ILIKE", kw_ilike)
    ∷ (codes "BETWEEN", kw_between)
    ∷ (codes "IS", kw_is)
    ∷ (codes "EXISTS", kw_exists)
    ∷ (codes "CASE", kw_case)
    ∷ (codes "WHEN", kw_when)
    ∷ (codes "THEN", kw_then)
    ∷ (codes "ELSE", kw_else)
    ∷ (codes "END", kw_end)
    ∷ (codes "ASC", kw_asc)
    ∷ (codes "DESC", kw_desc)
    ∷ (codes "NULLS", kw_nulls)
    ∷ (codes "FIRST", kw_first)
    ∷ (codes "LAST", kw_last)
    ∷ (codes "OVER", kw_over)
    ∷ (codes "PARTITION", kw_partition)
    ∷ (codes "ROWS", kw_rows)
    ∷ (codes "RANGE", kw_range)
    ∷ (codes "UNBOUNDED", kw_unbounded)
    ∷ (codes "PRECEDING", kw_preceding)
    ∷ (codes "FOLLOWING", kw_following)
    ∷ (codes "CURRENT", kw_current)
    ∷ (codes "ROW", kw_row)
    ∷ (codes "TRUE", lit_true)
    ∷ (codes "FALSE", lit_false)
    ∷ []

-- `table.find(word)`
unfoldable pub find_keyword : List (Bytes × TokenKind) → Bytes → Option TokenKind
unfolding bytes_eq
find_keyword [] word = none
find_keyword (entry ∷ table) word =
    if bytes_eq entry.0 word then some entry.1 else find_keyword table word

abbrev pub or_ident : Option TokenKind → TokenKind
or_ident none = ident
or_ident (some k) = k

unfoldable pub classify_keyword : Bytes → TokenKind
unfolding find_keyword keyword_table
classify_keyword upper = or_ident (find_keyword keyword_table upper)
