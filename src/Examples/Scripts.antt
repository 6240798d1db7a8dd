-- ===== src/Examples/Scripts.antt =====
-- Tests and examples of the evaluation of expressions, gtests/net/packetdrill/script.c.
use packetdrill_mptcp.Base.{ℕ, ◌≡◌, ◌≢◌, All, refl, Bool, false, if◌then◌else◌}
use packetdrill_mptcp.Base.{List, [], ◌∷◌, ◌++◌, none, some, ok, status_err, fault, arith}
use packetdrill_mptcp.Socket.{equal_bytes}
use packetdrill_mptcp.Script.{ExpressionList, null, node, integer, word, binary, list}
use packetdrill_mptcp.Script.{
  iovec, ellipsis, text, IntSymbols, symbol_to_int, cross_platform_symbols, lookup_int_symbol,
}
use packetdrill_mptcp.Script.{expression_type_to_string, expr_linger, num_expr_types}
use packetdrill_mptcp.Script.Unescape.{unescape_cstring_expression, unescape, c_string, escape_code}
use packetdrill_mptcp.Script.Unescape.Written.{unescape_cstring_expression-IsAnswer, IsAnswer}
use packetdrill_mptcp.Script.Unescape.Escape.{unescape_cstring_expression-escape, escape, literal}
use packetdrill_mptcp.Script.Evaluate.{evaluate, evaluate_expression_list, bitwise_or}
use packetdrill_mptcp.Script.Evaluate.Evaluated.{
  evaluate_expression_list-AreValuesOf, AreValuesOf, AllEvaluated,
}
use packetdrill_mptcp.Script.Flags.{flags_to_string, flag_name, add_flag_names, poll_flags}

-- A stand-in for the macros of the headers: AF_INET is 2, POLLIN is 1, POLLOUT 4, the others 0.
abbrev header : List ℕ → ℕ
header name =
    if equal_bytes (text "AF_INET") name
    then 2
    else if equal_bytes (text "POLLIN") name
    then 1
    else if equal_bytes (text "POLLOUT") name
    then 4
    else 0

abbrev platform : IntSymbols
platform = (4, text "O_A") ∷ (1, text "O_B") ∷ []

type_name : expression_type_to_string expr_linger ≡ "linger"
unfolding expression_type_to_string
type_name = refl

bad_type_name : expression_type_to_string num_expr_types ≡ "UNKNOWN_TYPE"
unfolding expression_type_to_string
bad_type_name = refl

-- Two symbols, one of them of the platform, in a list, and a line feed in a string.
abbrev arguments : ExpressionList
arguments = node (word (text "AF_INET")) (
    node (list (node (binary (text "|") (word (text "O_A")) (word (text "O_B"))) null))
      (node (iovec ellipsis (integer 8)) null))

abbrev values : ExpressionList
values =
    node (integer 2) (node (list (node (integer 5) null)) (node (iovec ellipsis (integer 8)) null))

evaluate_arguments : evaluate_expression_list header platform arguments ≡ ok values
unfolding evaluate symbol_to_int cross_platform_symbols lookup_int_symbol bitwise_or equal_bytes
evaluate_arguments = refl

unknown_symbol : evaluate header platform (word (text "O_C")) ≡ status_err
unfolding evaluate symbol_to_int cross_platform_symbols lookup_int_symbol equal_bytes
unknown_symbol = refl

evaluate_expression_list-AreValuesOf_example : AreValuesOf arguments values × AllEvaluated values
evaluate_expression_list-AreValuesOf_example =
    evaluate_expression_list-AreValuesOf header platform arguments values evaluate_arguments

-- The escape code of the backslash yields a form feed.
backslash_code : unescape (b'\\' ∷ b'\\' ∷ []) ≡ ok (12 ∷ [])
unfolding unescape escape_code
backslash_code = refl

read_literal :
    c_string (literal (text "a" ++ (b'\\' ∷ text "n"))) ≡ ok (text "a" ++ (b'\\' ∷ text "n"))
unfolding c_string
read_literal = refl

unescape_cstring_expression-IsAnswer_example :
    IsAnswer 3 (unescape_cstring_expression (literal (text "a" ++ (b'\\' ∷ text "n"))))
unescape_cstring_expression-IsAnswer_example =
    unescape_cstring_expression-IsAnswer (literal (text "a" ++ (b'\\' ∷ text "n")))
      (text "a" ++ (b'\\' ∷ text "n")) read_literal

unescape_cstring_expression-escape_example :
    All (λ b. b ≢ b'"') (escape (97 ∷ 10 ∷ 98 ∷ []))
    × (unescape_cstring_expression (literal (escape (97 ∷ 10 ∷ 98 ∷ [])))
        ≡ ok (some 97 ∷ some 10 ∷ some 98 ∷ none ∷ []))
unfolding escape
unescape_cstring_expression-escape_example =
    unescape_cstring_expression-escape (97 ∷ 10 ∷ 98 ∷ []) (ground arith)

abbrev nothing_defined : List ℕ → Bool
nothing_defined name = false

poll_in_out : flags_to_string (poll_flags header nothing_defined) 5 ≡ ok (text "POLLIN|POLLOUT")
unfolding flags_to_string add_flag_names flag_name poll_flags equal_bytes
poll_in_out = refl

-- A flag that the table does not have: the walk leaves the table.
poll_unknown : flags_to_string (poll_flags header nothing_defined) 64 ≡ fault
unfolding flags_to_string add_flag_names flag_name poll_flags equal_bytes
poll_unknown = refl
