-- ===== src/TcpOptions/Iterator/Wire.antt =====
-- Options in wire format, and what tcp_options_iterator.c takes for the length of one.
use packetdrill_mptcp.Base.{
  ℕ, zero, suc, ◌+◌, ◌/◌, ◌≤◌, ◌<◌, ◌≡◌, refl, ap, ◌∙◌, arith, Bool, true, false, List, [], ◌∷◌,
  ◌++◌, length, ◌==◌, leb, if◌then◌else◌, Bool-cases, inl, inr, Option, none, some, ok, ◌||◌, ◌&&◌,
  ==_iff, ◌⊎◌,
}
use packetdrill_mptcp.Memory.{load, load-append}
use packetdrill_mptcp.TcpOptions.Iterator.{
  one_of, mptcp_lengths, mptcp_expected_length, get_expected_tcp_option_length,
  get_tcp_option_length, option_length_at,
}

-- The lengths that the wire format allows an MPTCP option whose third byte begins `body`.
abbrev pub mptcp_legal : List ℕ → ℕ → Bool
mptcp_legal [] len = false
mptcp_legal (b ∷ _) len =
    (b / 16 == 6 || b / 16 == 7) && len == 12
    || b / 16 == 4 && leb 3 len
    || one_of len (mptcp_lengths (b / 16))

abbrev pub legal : ℕ → ℕ → List ℕ → Bool
legal kind len body =
    if kind == 30
    then mptcp_legal body len
    else kind == 2 && len == 4
      || kind == 3 && len == 3
      || kind == 4 && len == 2
      || kind == 8 && len == 10
      || kind == 5
      || kind == 254

-- An option as it stands on the wire: a single byte (end of list, no operation), or a kind, a
-- length that counts all bytes, and the rest.
pub data WireOption : List ℕ → Type 0 where
  bare : (kind : ℕ) → (kind ≡ 0) ⊎ (kind ≡ 1) → WireOption (kind ∷ [])
  sized :
      (kind len : ℕ) (body : List ℕ)
      → len ≡ length body + 2
      → legal kind len body ≡ true
      → WireOption (kind ∷ len ∷ body)

-- The bytes of a block at a pointer.
abbrev pub At : List ℕ → ℕ → List ℕ → Type 0
At mem p bytes = (i : ℕ) (b : ℕ) → load bytes i ≡ ok b → load mem (p + i) ≡ ok b

abbrev pub kind_of : List ℕ → ℕ
kind_of [] = 0
kind_of (k ∷ _) = k

abbrev pub flat : List (List ℕ) → List ℕ
flat [] = []
flat (o ∷ os) = o ++ flat os

-- The specification: the pointer of the first option of a kind, in a list of options that begins
-- at `p`.
abbrev pub first_of_kind : ℕ → List (List ℕ) → ℕ → Option ℕ
first_of_kind kind [] p = none
first_of_kind kind (o ∷ os) p =
    if kind_of o == kind then some p else first_of_kind kind os (p + length o)

load-append_left : (xs ys : List ℕ) (i : ℕ) {b : ℕ} → load xs i ≡ ok b → load (xs ++ ys) i ≡ ok b
unfolding load
load-append_left [] ys i h = cc
load-append_left (x ∷ xs) ys zero h = h
load-append_left (x ∷ xs) ys (suc i) h = load-append_left xs ys i h

pub At-left : (mem : List ℕ) (p : ℕ) (xs ys : List ℕ) → At mem p (xs ++ ys) → At mem p xs
At-left mem p xs ys h i b e = h i b (load-append_left xs ys i e)

pub At-right :
    (mem : List ℕ) (p : ℕ) (xs ys : List ℕ) → At mem p (xs ++ ys) → At mem (p + length xs) ys
At-right mem p xs ys h i b e =
    let place : p + (length xs + i) ≡ p + length xs + i = omega arith in
    rw place at (h (length xs + i) b (load-append xs ys i (length xs + i) refl ∙ e))

-- The byte at a known distance.
At-byte :
    (mem : List ℕ) (p : ℕ) (bytes : List ℕ) (i j b : ℕ)
    → At mem p bytes
    → load bytes i ≡ ok b
    → p + i ≡ j
    → load mem j ≡ ok b
At-byte mem p bytes i j b h e place = rw place at (h i b e)

mptcp_expected_wire :
    (mem : List ℕ) (p len b : ℕ) (rest : List ℕ) (report : Bool)
    → load mem (p + 1) ≡ ok len
    → mptcp_legal (b ∷ rest) len ≡ true
    → mptcp_expected_length report mem p (b / 16) ≡ ok len
unfolding mptcp_expected_length
mptcp_expected_wire mem p len b rest report h l = ground arith

pub first_byte : (mem : List ℕ) (p k : ℕ) (rest : List ℕ) → At mem p (k ∷ rest) → load mem p ≡ ok k
unfolding load
first_byte mem p k rest h = At-byte mem p (k ∷ rest) 0 p k h refl (omega arith)

tail_At : (mem : List ℕ) (p k : ℕ) (rest : List ℕ) → At mem p (k ∷ rest) → At mem (p + 1) rest
tail_At mem p k rest h = At-right mem p (k ∷ []) rest h

third_byte :
    (mem : List ℕ) (p k l b : ℕ) (rest : List ℕ)
    → At mem p (k ∷ l ∷ b ∷ rest)
    → load mem (p + 2) ≡ ok b
unfolding load
third_byte mem p k l b rest h = At-byte mem p (k ∷ l ∷ b ∷ rest) 2 (p + 2) b h refl refl

-- The length that is expected of a well-formed option is its own, or 0 if any is.
abbrev pub expected_of : ℕ → ℕ → ℕ
expected_of kind len = if kind == 5 || kind == 254 then 0 else len

expected_mptcp :
    (mem : List ℕ) (p len : ℕ) (body : List ℕ) (report : Bool)
    → At mem p (30 ∷ len ∷ body)
    → mptcp_legal body len ≡ true
    → get_expected_tcp_option_length report mem p ≡ ok len
unfolding get_expected_tcp_option_length
expected_mptcp mem p len [] report h l = cc
expected_mptcp mem p len (b ∷ rest) report h l =
    rw (first_byte mem p 30 (len ∷ b ∷ rest) h, third_byte mem p 30 len b rest h)
      (mptcp_expected_wire mem p len b rest report
        (first_byte mem (p + 1) len (b ∷ rest) (tail_At mem p 30 (len ∷ b ∷ rest) h)) l)

expected_wire :
    (mem : List ℕ) (p kind len : ℕ) (body : List ℕ) (report : Bool)
    → At mem p (kind ∷ len ∷ body)
    → legal kind len body ≡ true
    → get_expected_tcp_option_length report mem p ≡ ok (expected_of kind len)
unfolding get_expected_tcp_option_length
expected_wire mem p kind len body report h l = elim (Bool-cases (kind == 30)) [
  | inl mptcp ↦
      let e : kind ≡ 30 = (==_iff kind 30).0 mptcp in
      let h' : At mem p (30 ∷ len ∷ body) = rw e at h in
      let l' : mptcp_legal body len ≡ true = ground arith in
      rw e (expected_mptcp mem p len body report h' l')
  | inr other ↦ rw (first_byte mem p kind (len ∷ body) h) (ground arith)
]

sized_length :
    (mem : List ℕ) (p end expected len : ℕ) (report : Bool)
    → load mem (p + 1) ≡ ok len
    → 2 ≤ len
    → p + len ≤ end
    → (expected ≡ 0) ⊎ (expected ≡ len)
    → get_tcp_option_length report mem p end expected ≡ ok len
unfolding get_tcp_option_length
sized_length mem p end expected len report h two fits either =
    let inside : leb end (p + 1) ≡ false = ground arith in rw (inside, h) (ground arith)

expected_of_cases : (kind len : ℕ) → (expected_of kind len ≡ 0) ⊎ (expected_of kind len ≡ len)
expected_of_cases kind len = ground arith

expected_of-ne-one : (kind len : ℕ) → 2 ≤ len → (expected_of kind len == 1) ≡ false
expected_of-ne-one kind len h = ground arith

-- The walk takes a well-formed option for what it is.
pub option_length_at-WireOption :
    (mem : List ℕ) (p end : ℕ) (report : Bool) {o : List ℕ}
    → WireOption o
    → At mem p o
    → p + length o ≤ end
    → option_length_at report mem end p ≡ ok (length o)
unfolding option_length_at
option_length_at-WireOption mem p end report (bare kind k) h le =
    unfold get_expected_tcp_option_length in rw (first_byte mem p kind [] h) (ground arith)
option_length_at-WireOption mem p end report (sized kind len body e l) h le =
    let len_byte = first_byte mem (p + 1) len body (tail_At mem p kind (len ∷ body) h) in
    rw
      (
        expected_wire mem p kind len body report h l,
        expected_of-ne-one kind len (omega arith),
        sized_length mem p end (expected_of kind len) len report len_byte (omega arith)
            (omega arith) (expected_of_cases kind len),
      )
      (ap ok (omega arith))

pub WireOption-pos : {o : List ℕ} → WireOption o → 0 < length o
WireOption-pos (bare kind k) = omega arith
WireOption-pos (sized kind len body e l) = omega arith
