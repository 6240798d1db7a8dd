-- ===== src/Script.antt =====
-- script.c, script.h and symbols.h (gtests/net/packetdrill): the expressions that the parser
-- builds for the arguments of a system call, their types, and the tables of symbols. A text is
-- its list of bytes without the NUL. An s64 is its 64 bits as a number. The macros of the
-- system's headers (AF_INET and others) are a function `header` of their name.
pub mod Unescape
pub mod Evaluate
pub mod Flags
use Prim.Native.Char.{code}
use Prim.Native.String.{String}
use packetdrill_mptcp.Base.{ℕ, Bool, true, false, if◌then◌else◌, ◌==◌, List, [], ◌∷◌, ◌++◌, map}
use packetdrill_mptcp.Base.{Option, none, some, Outcome, ok, status_err}
use packetdrill_mptcp.Socket.{equal_bytes}

abbrev pub text : String → List ℕ
text String.[] = []
text (String.◌∷◌ c s) = code c ∷ text s

pub data ExpressionType : Type 0 where
  expr_none expr_ellipsis expr_integer expr_linger expr_word expr_string : ExpressionType
  expr_sockaddr_ipv4 expr_sockaddr_ipv6 expr_binary expr_list expr_iovec : ExpressionType
  expr_msghdr expr_pollfd num_expr_types : ExpressionType

-- The value of the enumerator.
abbrev pub type_number : ExpressionType → ℕ
type_number expr_none = 0
type_number expr_ellipsis = 1
type_number expr_integer = 2
type_number expr_linger = 3
type_number expr_word = 4
type_number expr_string = 5
type_number expr_sockaddr_ipv4 = 6
type_number expr_sockaddr_ipv6 = 7
type_number expr_binary = 8
type_number expr_list = 9
type_number expr_iovec = 10
type_number expr_msghdr = 11
type_number expr_pollfd = 12
type_number num_expr_types = 13

-- A string is the block of memory it points to: `none` is a byte that nothing has written. A
-- word is a C string whose NUL the scanner has written. The two socket addresses are the
-- bytes of sockaddr_in and sockaddr_in6.
mutual
  pub data Expression : Type 0 where
    ellipsis : Expression
    integer : ℕ → Expression
    linger : ℕ → ℕ → Expression
    word : List ℕ → Expression
    string : List (Option ℕ) → Expression
    sockaddr_ipv4 sockaddr_ipv6 : List ℕ → Expression
    binary : List ℕ → Expression → Expression → Expression
    list : ExpressionList → Expression
    iovec : Expression → Expression → Expression
    msghdr : Expression → Expression → Expression → Expression → Expression → Expression
    pollfd : Expression → Expression → Expression → Expression

  pub data ExpressionList : Type 0 where
    null : ExpressionList
    node : Expression → ExpressionList → ExpressionList

-- The field `type` of struct expression.
abbrev pub type_of : Expression → ExpressionType
type_of ellipsis = expr_ellipsis
type_of (integer num) = expr_integer
type_of (linger onoff seconds) = expr_linger
type_of (word name) = expr_word
type_of (string block) = expr_string
type_of (sockaddr_ipv4 bytes) = expr_sockaddr_ipv4
type_of (sockaddr_ipv6 bytes) = expr_sockaddr_ipv6
type_of (binary op lhs rhs) = expr_binary
type_of (list nodes) = expr_list
type_of (iovec base len) = expr_iovec
type_of (msghdr name namelen iov iovlen flags) = expr_msghdr
type_of (pollfd fd events revents) = expr_pollfd

abbrev pub expression_type_table : List (ExpressionType × Option String)
expression_type_table =
    (expr_none, some "none")
    ∷ (expr_ellipsis, some "ellipsis")
    ∷ (expr_integer, some "integer")
    ∷ (expr_word, some "word")
    ∷ (expr_string, some "string")
    ∷ (expr_sockaddr_ipv4, some "sockaddr_in")
    ∷ (expr_sockaddr_ipv6, some "sockaddr_in6")
    ∷ (expr_linger, some "linger")
    ∷ (expr_binary, some "binary_expression")
    ∷ (expr_list, some "list")
    ∷ (expr_iovec, some "iovec")
    ∷ (expr_msghdr, some "msghdr")
    ∷ (expr_pollfd, some "pollfd")
    ∷ (num_expr_types, none)
    ∷ []

abbrev pub find_type_name : List (ExpressionType × Option String) → ExpressionType → String
find_type_name [] type = "UNKNOWN_TYPE"
find_type_name ((t, none) ∷ rest) type = "UNKNOWN_TYPE"
find_type_name ((t, some name) ∷ rest) type =
    if type_number t == type_number type then name else find_type_name rest type

unfoldable pub expression_type_to_string : ExpressionType → String
expression_type_to_string type = find_type_name expression_type_table type

-- The entries of a table of symbols before the one whose name is NULL.
abbrev pub IntSymbols : Type 0
IntSymbols = List (ℕ × List ℕ)

abbrev pub cross_platform_names : List (List ℕ)
cross_platform_names =
    text "AF_INET"
    ∷ text "AF_INET6"
    ∷ text "PF_INET"
    ∷ text "PF_INET6"
    ∷ text "SOCK_STREAM"
    ∷ text "SOCK_DGRAM"
    ∷ text "IPPROTO_IP"
    ∷ text "IPPROTO_IPV6"
    ∷ text "IPPROTO_ICMP"
    ∷ text "IPPROTO_TCP"
    ∷ text "IPPROTO_UDP"
    ∷ text "SHUT_RD"
    ∷ text "SHUT_WR"
    ∷ text "SHUT_RDWR"
    ∷ text "SOL_SOCKET"
    ∷ []

unfoldable pub cross_platform_symbols : (List ℕ → ℕ) → IntSymbols
cross_platform_symbols header = map (λ name. (header name, name)) cross_platform_names

unfoldable pub lookup_int_symbol : List ℕ → IntSymbols → Option ℕ
lookup_int_symbol input_symbol [] = none
lookup_int_symbol input_symbol ((value, name) ∷ rest) =
    if equal_bytes input_symbol name then some value else lookup_int_symbol input_symbol rest

abbrev pub or_unknown : Option ℕ → Outcome ℕ
or_unknown none = status_err
or_unknown (some value) = ok value

-- `platform` is what platform_symbols() points to.
unfoldable pub symbol_to_int : (List ℕ → ℕ) → IntSymbols → List ℕ → Outcome ℕ
symbol_to_int header platform input_symbol =
    elim (lookup_int_symbol input_symbol (cross_platform_symbols header)) [
      | some value ↦ ok value
      | none ↦ or_unknown (lookup_int_symbol input_symbol platform)
    ]
