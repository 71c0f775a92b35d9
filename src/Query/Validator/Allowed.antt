-- ===== src/Query/Validator/Allowed.antt =====
-- The allow-lists of domain/policies/sql_validator.py of apps/query-gateway, as data. A class of sqlglot
-- is its name.
use bu_vi.Base.{String, List, [], ◌∷◌}

-- `_WRITE_NODES`, with the keyword of each class
abbrev pub write_nodes : List (String × String)
write_nodes =
    ("Insert", "INSERT")
    ∷ ("Update", "UPDATE")
    ∷ ("Delete", "DELETE")
    ∷ ("Merge", "MERGE")
    ∷ ("Create", "CREATE")
    ∷ ("Drop", "DROP")
    ∷ ("Alter", "ALTER")
    ∷ ("AlterTable", "ALTER")
    ∷ ("TruncateTable", "TRUNCATE")
    ∷ ("Copy", "COPY")
    ∷ ("Grant", "GRANT")
    ∷ ("Revoke", "REVOKE")
    ∷ ("Set", "SET")
    ∷ ("Command", "COMMAND")
    ∷ ("Transaction", "TRANSACTION")
    ∷ ("Commit", "COMMIT")
    ∷ ("Rollback", "ROLLBACK")
    ∷ ("Pragma", "PRAGMA")
    ∷ ("Use", "USE")
    ∷ ("LoadData", "LOAD")
    ∷ ("Analyze", "ANALYZE")
    ∷ ("Refresh", "REFRESH")
    ∷ ("Comment", "COMMENT")
    ∷ ("Kill", "KILL")
    ∷ []

-- `_SELECT_ROOTS`
abbrev pub select_roots : List String
select_roots = "Select" ∷ "Union" ∷ "Intersect" ∷ "Except" ∷ []

-- `_ALLOWED_FUNCTION_NAMES`
abbrev pub allowed_functions : List String
allowed_functions =
    "Count" ∷ "Sum" ∷ "Avg" ∷ "Min" ∷ "Max" ∷ "Stddev" ∷ "StddevPop" ∷ "StddevSamp" ∷ "Variance"
    ∷ "VariancePop" ∷ "ArrayAgg" ∷ "GroupConcat" ∷ "LogicalAnd" ∷ "LogicalOr" ∷ "PercentileCont"
    ∷ "PercentileDisc" ∷ "Corr" ∷ "CovarPop" ∷ "CovarSamp" ∷ "Median" ∷ "Mode" ∷ "RowNumber"
    ∷ "Rank" ∷ "DenseRank" ∷ "Lag" ∷ "Lead" ∷ "FirstValue" ∷ "LastValue" ∷ "NthValue" ∷ "Ntile"
    ∷ "PercentRank" ∷ "CumeDist" ∷ "Abs" ∷ "Ceil" ∷ "Floor" ∷ "Round" ∷ "Trunc" ∷ "Sign" ∷ "Sqrt"
    ∷ "Cbrt" ∷ "Ln" ∷ "Log" ∷ "Log2" ∷ "Log10" ∷ "Exp" ∷ "Pow" ∷ "Greatest" ∷ "Least" ∷ "Degrees"
    ∷ "Radians" ∷ "Pi" ∷ "Concat" ∷ "ConcatWs" ∷ "Substring" ∷ "Trim" ∷ "Replace" ∷ "Length"
    ∷ "Upper" ∷ "Lower" ∷ "Initcap" ∷ "Pad" ∷ "Left" ∷ "Right" ∷ "StrPosition" ∷ "SplitPart"
    ∷ "RegexpReplace" ∷ "RegexpLike" ∷ "RegexpExtract" ∷ "Reverse" ∷ "Chr" ∷ "Unicode" ∷ "Ascii"
    ∷ "MD5" ∷ "TimestampTrunc" ∷ "DateTrunc" ∷ "Extract" ∷ "CurrentDate" ∷ "CurrentTimestamp"
    ∷ "CurrentTime" ∷ "Date" ∷ "StrToDate" ∷ "StrToTime" ∷ "TimeToStr" ∷ "DateAdd" ∷ "DateSub"
    ∷ "DateDiff" ∷ "TimestampAdd" ∷ "TimestampSub" ∷ "TimestampDiff" ∷ "DateFromParts"
    ∷ "TimestampFromParts" ∷ "UnixToTime" ∷ "TimeToUnix" ∷ "ToChar" ∷ "ToNumber" ∷ "TsOrDsToDate"
    ∷ "TsOrDsToTimestamp" ∷ "TsOrDsToTime" ∷ "TimeStrToTime" ∷ "DateStrToDate" ∷ "Year" ∷ "Quarter"
    ∷ "Month" ∷ "Week" ∷ "WeekOfYear" ∷ "Day" ∷ "DayOfMonth" ∷ "DayOfWeek" ∷ "DayOfYear" ∷ "Hour"
    ∷ "Minute" ∷ "Second" ∷ "Case" ∷ "If" ∷ "Coalesce" ∷ "Nullif" ∷ "Cast" ∷ "TryCast" ∷ "Exists"
    ∷ "Array" ∷ "ArraySize" ∷ "ArrayContains" ∷ "JSONExtract" ∷ "JSONExtractScalar" ∷ "JSONBExtract"
    ∷ "JSONBExtractScalar" ∷ []

-- `_POSTGRES_ANONYMOUS`
abbrev pub postgres_anonymous : List String
postgres_anonymous =
    "age" ∷ "make_date" ∷ "make_time" ∷ "make_timestamp" ∷ "make_interval" ∷ "date_part"
    ∷ "justify_days" ∷ "justify_hours" ∷ "justify_interval" ∷ "isfinite" ∷ "btrim" ∷ "char_length"
    ∷ "character_length" ∷ "octet_length" ∷ "strpos" ∷ "translate" ∷ "starts_with" ∷ "to_hex"
    ∷ "quote_ident" ∷ "quote_literal" ∷ "format" ∷ "width_bucket" ∷ "div" ∷ "gcd" ∷ "lcm" ∷ "scale"
    ∷ "factorial" ∷ "json_extract_path_text" ∷ "jsonb_extract_path_text" ∷ "json_extract_path"
    ∷ "jsonb_extract_path" ∷ "jsonb_typeof" ∷ "json_typeof" ∷ "jsonb_array_length"
    ∷ "json_array_length" ∷ "array_length" ∷ "cardinality" ∷ "array_position" ∷ "regexp_match"
    ∷ "regexp_count" ∷ "string_to_array" ∷ "array_to_string" ∷ "percentile_cont" ∷ "percentile_disc"
    ∷ "mode" ∷ "every" ∷ "bit_and" ∷ "bit_or" ∷ "regr_slope" ∷ "regr_intercept" ∷ "regr_r2"
    ∷ "stddev_samp" ∷ "stddev_pop" ∷ "var_samp" ∷ "var_pop" ∷ "covar_pop" ∷ "covar_samp" ∷ "corr"
    ∷ []

-- `_MYSQL_ANONYMOUS`
abbrev pub mysql_anonymous : List String
mysql_anonymous =
    "makedate" ∷ "maketime" ∷ "last_day" ∷ "dayname" ∷ "monthname" ∷ "yearweek" ∷ "weekday"
    ∷ "to_days" ∷ "from_days" ∷ "period_add" ∷ "period_diff" ∷ "sec_to_time" ∷ "time_to_sec"
    ∷ "char_length" ∷ "character_length" ∷ "locate" ∷ "instr" ∷ "lpad" ∷ "rpad" ∷ "field" ∷ "elt"
    ∷ "truncate" ∷ "format" ∷ []

-- `_OPERATOR_BASES`
abbrev pub operator_bases : List String
operator_bases = "Binary" ∷ "Connector" ∷ "Unary" ∷ []
