-- ===== src/Script/Evaluate.antt =====
-- evaluate, evaluate_expression_list and their helpers in gtests/net/packetdrill/script.c. What
-- they free on an error is not modelled. The test for a bad type of expression never fires:
-- `Expression` has the types that the parser builds, each with its fields filled.
pub mod Evaluated
use packetdrill_mptcp.Base.{ℕ, Bool, true, false, if◌then◌else◌, List, bit_or}
use packetdrill_mptcp.Base.{Outcome, ok, status_err, ◌>>=◌}
use packetdrill_mptcp.Socket.{equal_bytes}
use packetdrill_mptcp.Script.{Expression, ellipsis, integer, linger, word, string, sockaddr_ipv4}
use packetdrill_mptcp.Script.{sockaddr_ipv6, binary, list, iovec, msghdr, pollfd, text}
use packetdrill_mptcp.Script.{ExpressionList, null, node, IntSymbols, symbol_to_int}
use packetdrill_mptcp.Script.Unescape.{unescape_cstring_expression}

unfoldable pub bitwise_or : Expression → Expression → Outcome Expression
bitwise_or (integer l) (integer r) = ok (integer (bit_or l r))
bitwise_or lhs rhs = status_err

-- evaluate_binary_expression, once both sides are evaluated.
abbrev pub apply_operator : List ℕ → Expression → Expression → Outcome Expression
apply_operator op lhs rhs = if equal_bytes (text "|") op then bitwise_or lhs rhs else status_err

unfoldable mutual
  pub evaluate : (List ℕ → ℕ) → IntSymbols → Expression → Outcome Expression
  evaluate header platform ellipsis = ok ellipsis
  evaluate header platform (integer num) = ok (integer num)
  evaluate header platform (linger onoff seconds) = ok (linger onoff seconds)
  evaluate header platform (word name) =
      symbol_to_int header platform name >>= λ num. ok (integer num)
  evaluate header platform (string block) =
      unescape_cstring_expression block >>= λ out. ok (string out)
  evaluate header platform (sockaddr_ipv4 bytes) = ok (sockaddr_ipv4 bytes)
  evaluate header platform (sockaddr_ipv6 bytes) = ok (sockaddr_ipv6 bytes)
  evaluate header platform (binary op lhs rhs) = evaluate header platform lhs >>= λ l.
      evaluate header platform rhs >>= λ r. apply_operator op l r
  evaluate header platform (list nodes) =
      evaluate_expression_list header platform nodes >>= λ out. ok (list out)
  evaluate header platform (iovec base len) =
      evaluate header platform base >>= λ b. evaluate header platform len >>= λ l. ok (iovec b l)
  evaluate header platform (msghdr name namelen iov iovlen flags) =
      evaluate header platform name >>= λ n. evaluate header platform namelen >>= λ nl.
      evaluate header platform iov >>= λ i. evaluate header platform iovlen >>= λ il.
      evaluate header platform flags >>= λ f. ok (msghdr n nl i il f)
  evaluate header platform (pollfd fd events revents) = evaluate header platform fd >>= λ f.
      evaluate header platform events >>= λ e.
      evaluate header platform revents >>= λ r. ok (pollfd f e r)

  pub evaluate_expression_list : (List ℕ → ℕ) → IntSymbols → ExpressionList → Outcome ExpressionList
  evaluate_expression_list header platform null = ok null
  evaluate_expression_list header platform (node expression next) =
      evaluate header platform expression >>= λ e.
      evaluate_expression_list header platform next >>= λ rest. ok (node e rest)
