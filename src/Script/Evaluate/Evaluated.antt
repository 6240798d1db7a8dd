-- ===== src/Script/Evaluate/Evaluated.antt =====
-- What evaluate and evaluate_expression_list of gtests/net/packetdrill/script.c hand back: an
-- expression of known type without symbols and operators.
use packetdrill_mptcp.Base.{ℕ, ◌≡◌, refl, List}
use packetdrill_mptcp.Base.{
  Outcome, ok, status_err, fault, ◌>>=◌, Holds, Holds-ok, Holds-after, Holds-bind, Holds-if,
}
use packetdrill_mptcp.Socket.{equal_bytes}
use packetdrill_mptcp.Script.{Expression, ellipsis, integer, linger, word, string, sockaddr_ipv4}
use packetdrill_mptcp.Script.{sockaddr_ipv6, binary, list, iovec, msghdr, pollfd, text, IntSymbols}
use packetdrill_mptcp.Script.{ExpressionList, null, node, ExpressionType, type_of, expr_binary}
use packetdrill_mptcp.Script.{expr_integer, expr_word}
use packetdrill_mptcp.Script.{symbol_to_int}
use packetdrill_mptcp.Script.Unescape.{unescape_cstring_expression}
use packetdrill_mptcp.Script.Evaluate.{
  evaluate, evaluate_expression_list, apply_operator, bitwise_or,
}

-- The type of what an expression of a type evaluates to.
abbrev pub evaluated_type : ExpressionType → ExpressionType
evaluated_type expr_word = expr_integer
evaluated_type expr_binary = expr_integer
evaluated_type type = type

-- No symbol and no operator is left, at any depth.
unfoldable mutual
  pub IsEvaluated : Expression → Type 0
  IsEvaluated (word name) = ⊥
  IsEvaluated (binary op lhs rhs) = ⊥
  IsEvaluated (list nodes) = AllEvaluated nodes
  IsEvaluated (iovec base len) = IsEvaluated base × IsEvaluated len
  IsEvaluated (msghdr name namelen iov iovlen flags) =
      IsEvaluated name
      × IsEvaluated namelen
      × IsEvaluated iov
      × IsEvaluated iovlen
      × IsEvaluated flags
  IsEvaluated (pollfd fd events revents) = IsEvaluated fd × IsEvaluated events × IsEvaluated revents
  IsEvaluated expression = Unit

  pub AllEvaluated : ExpressionList → Type 0
  AllEvaluated null = Unit
  AllEvaluated (node expression next) = IsEvaluated expression × AllEvaluated next

-- A result for an expression.
abbrev pub IsValueOf : Expression → Expression → Type 0
IsValueOf expression value =
    IsEvaluated value × (type_of value ≡ evaluated_type (type_of expression))

-- A result for a list: one value for each expression, in the order of the list.
unfoldable pub AreValuesOf : ExpressionList → ExpressionList → Type 0
AreValuesOf null null = Unit
AreValuesOf (node e next) (node v values) = IsValueOf e v × AreValuesOf next values
AreValuesOf nodes values = ⊥

-- A value of fields that are evaluated one after the other.
module _ (Q : Expression → Type 0) where
  gather1 :
      (f : Expression → Expression) (m1 : Outcome Expression)
      → Holds IsEvaluated m1
      → ((v1 : Expression) → IsEvaluated v1 → Q (f v1))
      → Holds Q (m1 >>= λ v1. ok (f v1))
  gather1 f fault h1 k = tt
  gather1 f status_err h1 k = tt
  gather1 f (ok v) h1 k = k v h1

  gather2 :
      (f : Expression → Expression → Expression) (m1 m2 : Outcome Expression)
      → Holds IsEvaluated m1
      → Holds IsEvaluated m2
      → ((v1 v2 : Expression) → IsEvaluated v1 → IsEvaluated v2 → Q (f v1 v2))
      → Holds Q (m1 >>= λ v1. m2 >>= λ v2. ok (f v1 v2))
  gather2 f fault m2 h1 h2 k = tt
  gather2 f status_err m2 h1 h2 k = tt
  gather2 f (ok v) m2 h1 h2 k = gather1 (f v) m2 h2 (λ v2 e2. k v v2 h1 e2)

  gather3 :
      (f : Expression → Expression → Expression → Expression) (m1 m2 m3 : Outcome Expression)
      → Holds IsEvaluated m1
      → Holds IsEvaluated m2
      → Holds IsEvaluated m3
      → ((v1 v2 v3 : Expression)
          → IsEvaluated v1
          → IsEvaluated v2
          → IsEvaluated v3
          → Q (f v1 v2 v3))
      → Holds Q (m1 >>= λ v1. m2 >>= λ v2. m3 >>= λ v3. ok (f v1 v2 v3))
  gather3 f fault m2 m3 h1 h2 h3 k = tt
  gather3 f status_err m2 m3 h1 h2 h3 k = tt
  gather3 f (ok v) m2 m3 h1 h2 h3 k = gather2 (f v) m2 m3 h2 h3 (λ v2 v3 e2 e3. k v v2 v3 h1 e2 e3)

  gather4 :
      (f : Expression → Expression → Expression → Expression → Expression)
      (m1 m2 m3 m4 : Outcome Expression)
      → Holds IsEvaluated m1
      → Holds IsEvaluated m2
      → Holds IsEvaluated m3
      → Holds IsEvaluated m4
      → ((v1 v2 v3 v4 : Expression)
          → IsEvaluated v1
          → IsEvaluated v2
          → IsEvaluated v3
          → IsEvaluated v4
          → Q (f v1 v2 v3 v4))
      → Holds Q (m1 >>= λ v1. m2 >>= λ v2. m3 >>= λ v3. m4 >>= λ v4. ok (f v1 v2 v3 v4))
  gather4 f fault m2 m3 m4 h1 h2 h3 h4 k = tt
  gather4 f status_err m2 m3 m4 h1 h2 h3 h4 k = tt
  gather4 f (ok v) m2 m3 m4 h1 h2 h3 h4 k =
      gather3 (f v) m2 m3 m4 h2 h3 h4 (λ v2 v3 v4 e2 e3 e4. k v v2 v3 v4 h1 e2 e3 e4)

  gather5 :
      (f : Expression → Expression → Expression → Expression → Expression → Expression)
      (m1 m2 m3 m4 m5 : Outcome Expression)
      → Holds IsEvaluated m1
      → Holds IsEvaluated m2
      → Holds IsEvaluated m3
      → Holds IsEvaluated m4
      → Holds IsEvaluated m5
      → ((v1 v2 v3 v4 v5 : Expression)
          → IsEvaluated v1
          → IsEvaluated v2
          → IsEvaluated v3
          → IsEvaluated v4
          → IsEvaluated v5
          → Q (f v1 v2 v3 v4 v5))
      → Holds Q
          (m1 >>= λ v1. m2 >>= λ v2. m3 >>= λ v3. m4 >>= λ v4. m5 >>= λ v5. ok (f v1 v2 v3 v4 v5))
  gather5 f fault m2 m3 m4 m5 h1 h2 h3 h4 h5 k = tt
  gather5 f status_err m2 m3 m4 m5 h1 h2 h3 h4 h5 k = tt
  gather5 f (ok v) m2 m3 m4 m5 h1 h2 h3 h4 h5 k =
      gather4 (f v) m2 m3 m4 m5 h2 h3 h4 h5
        (λ v2 v3 v4 v5 e2 e3 e4 e5. k v v2 v3 v4 v5 h1 e2 e3 e4 e5)

as-IsEvaluated :
    (e : Expression) (m : Outcome Expression) → Holds (IsValueOf e) m → Holds IsEvaluated m
as-IsEvaluated e fault h = tt
as-IsEvaluated e status_err h = tt
as-IsEvaluated e (ok v) h = h.0

AreValuesOf-AllEvaluated :
    (nodes values : ExpressionList) → AreValuesOf nodes values → AllEvaluated values
unfolding AreValuesOf IsEvaluated
AreValuesOf-AllEvaluated null null h = tt
AreValuesOf-AllEvaluated null (node v values) h = absurd h
AreValuesOf-AllEvaluated (node e next) null h = absurd h
AreValuesOf-AllEvaluated (node e next) (node v values) h =
    (h.0.0, AreValuesOf-AllEvaluated next values h.1)

-- The `|` of two values is an integer or an error.
bitwise_or-Holds :
    (op : List ℕ) (lhs rhs l r : Expression)
    → Holds (IsValueOf (binary op lhs rhs)) (bitwise_or l r)
unfolding bitwise_or IsEvaluated
bitwise_or-Holds op lhs rhs (integer m) (integer n) = (tt, refl)
bitwise_or-Holds op lhs rhs l r = tt

apply_operator-Holds :
    (op : List ℕ) (lhs rhs l r : Expression)
    → Holds (IsValueOf (binary op lhs rhs)) (apply_operator op l r)
apply_operator-Holds op lhs rhs l r =
    Holds-if (IsValueOf (binary op lhs rhs)) (equal_bytes (text "|") op) (bitwise_or l r) status_err
      (bitwise_or-Holds op lhs rhs l r) tt

mutual
  unfolding evaluate IsEvaluated AreValuesOf

  evaluate-Holds :
      (header : List ℕ → ℕ) (platform : IntSymbols) (e : Expression)
      → Holds (IsValueOf e) (evaluate header platform e)
  evaluate-Holds header platform ellipsis = (tt, refl)
  evaluate-Holds header platform (integer num) = (tt, refl)
  evaluate-Holds header platform (linger onoff seconds) = (tt, refl)
  evaluate-Holds header platform (word name) =
      Holds-after (IsValueOf (word name)) (symbol_to_int header platform name)
        (λ num. ok (integer num)) (λ num eq. (tt, refl))
  evaluate-Holds header platform (string block) =
      Holds-after (IsValueOf (string block)) (unescape_cstring_expression block)
        (λ out. ok (string out)) (λ out eq. (tt, refl))
  evaluate-Holds header platform (sockaddr_ipv4 bytes) = (tt, refl)
  evaluate-Holds header platform (sockaddr_ipv6 bytes) = (tt, refl)
  evaluate-Holds header platform (binary op lhs rhs) =
      Holds-after (IsValueOf (binary op lhs rhs)) (evaluate header platform lhs)
        (λ l. evaluate header platform rhs >>= λ r. apply_operator op l r)
        (λ l el.
          Holds-after (IsValueOf (binary op lhs rhs)) (evaluate header platform rhs)
            (λ r. apply_operator op l r) (λ r er. apply_operator-Holds op lhs rhs l r))
  evaluate-Holds header platform (list nodes) =
      Holds-bind (AreValuesOf nodes) (IsValueOf (list nodes))
        (evaluate_expression_list header platform nodes) (λ out. ok (list out))
        (evaluate_list-Holds header platform nodes)
        (λ out h. (AreValuesOf-AllEvaluated nodes out h, refl))
  evaluate-Holds header platform (iovec base len) =
      gather2 (IsValueOf (iovec base len)) iovec (evaluate header platform base)
        (evaluate header platform len)
        (as-IsEvaluated base (evaluate header platform base) (evaluate-Holds header platform base))
        (as-IsEvaluated len (evaluate header platform len) (evaluate-Holds header platform len))
        (λ b l eb el. ((eb, el), refl))
  evaluate-Holds header platform (msghdr name namelen iov iovlen flags) =
      gather5 (IsValueOf (msghdr name namelen iov iovlen flags)) msghdr
        (evaluate header platform name) (evaluate header platform namelen)
        (evaluate header platform iov) (evaluate header platform iovlen)
        (evaluate header platform flags)
        (as-IsEvaluated name (evaluate header platform name) (evaluate-Holds header platform name))
        (as-IsEvaluated namelen (evaluate header platform namelen)
          (evaluate-Holds header platform namelen))
        (as-IsEvaluated iov (evaluate header platform iov) (evaluate-Holds header platform iov))
        (as-IsEvaluated iovlen (evaluate header platform iovlen)
          (evaluate-Holds header platform iovlen))
        (as-IsEvaluated flags (evaluate header platform flags)
          (evaluate-Holds header platform flags))
        (λ n nl i il f en enl ei eil ef. ((en, enl, ei, eil, ef), refl))
  evaluate-Holds header platform (pollfd fd events revents) =
      gather3 (IsValueOf (pollfd fd events revents)) pollfd (evaluate header platform fd)
        (evaluate header platform events) (evaluate header platform revents)
        (as-IsEvaluated fd (evaluate header platform fd) (evaluate-Holds header platform fd))
        (as-IsEvaluated events (evaluate header platform events)
          (evaluate-Holds header platform events))
        (as-IsEvaluated revents (evaluate header platform revents)
          (evaluate-Holds header platform revents))
        (λ f e r ef ee er. ((ef, ee, er), refl))

  evaluate_list-Holds :
      (header : List ℕ → ℕ) (platform : IntSymbols) (nodes : ExpressionList)
      → Holds (AreValuesOf nodes) (evaluate_expression_list header platform nodes)
  evaluate_list-Holds header platform null = tt
  evaluate_list-Holds header platform (node e next) =
      Holds-bind (IsValueOf e) (AreValuesOf (node e next)) (evaluate header platform e)
        (λ v. evaluate_expression_list header platform next >>= λ values. ok (node v values))
        (evaluate-Holds header platform e)
        (λ v hv.
          Holds-bind (AreValuesOf next) (AreValuesOf (node e next))
            (evaluate_expression_list header platform next) (λ values. ok (node v values))
            (evaluate_list-Holds header platform next) (λ values h. (hv, h)))

-- The arguments of a system call that evaluate have no symbol and no operator left at any depth.
-- There is one value for each argument, in their order, of the argument's type, but for symbols
-- and operators, whose value is an integer.
pub evaluate_expression_list-AreValuesOf :
    (header : List ℕ → ℕ) (platform : IntSymbols) (in_list out_list : ExpressionList)
    → evaluate_expression_list header platform in_list ≡ ok out_list
    → AreValuesOf in_list out_list × AllEvaluated out_list
evaluate_expression_list-AreValuesOf header platform in_list out_list h =
    let values : AreValuesOf in_list out_list =
      Holds-ok (AreValuesOf in_list) (evaluate_expression_list header platform in_list) out_list
        (evaluate_list-Holds header platform in_list) h in
    (values, AreValuesOf-AllEvaluated in_list out_list values)
