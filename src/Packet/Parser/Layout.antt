-- ===== src/Packet/Parser/Layout.antt =====
-- What the parser of packet_parser.c relies on where it enters a header, and what holds of the
-- packet that it hands back.
use packetdrill_mptcp.Base.{
  ℕ, suc, ◌+◌, ◌≤◌, ◌<◌, ◌≡◌, ◌⊎◌, inl, inr, refl, arith, List, [], ◌∷◌, ◌++◌, length, ◌==◌, ltb,
  Option, none, some, Outcome, ok, status_err, fault, Bool-cases, length-append,
}
use packetdrill_mptcp.Packet.{Packet, Header, HeaderType, packet_append_header}
use packetdrill_mptcp.Packet.Parser.Layer4.{ParseResult, Parsed}

-- The recorded headers stand one behind the other from `at` on, up to `stop`.
abbrev pub Chain : ℕ → List Header → ℕ → Type 0
Chain at [] stop = at ≡ stop
Chain at (h ∷ hs) stop = (h.ptr ≡ at) × Chain (at + h.header_bytes) hs stop

Chain-snoc :
    (at : ℕ) (hs : List Header) (mid : ℕ) (h : Header)
    → Chain at hs mid
    → h.ptr ≡ mid
    → Chain at (hs ++ (h ∷ [])) (mid + h.header_bytes)
Chain-snoc at [] mid h c e = (omega arith, omega arith)
Chain-snoc at (g ∷ hs) mid h c e = (c.0, Chain-snoc (at + g.header_bytes) hs mid h c.1 e)

-- A header of `n` bytes at a pointer that is not null lies in the packet.
abbrev pub Fits : Option ℕ → ℕ → ℕ → Type 0
Fits none n end = Unit
Fits (some t) n end = t + n ≤ end

-- The pointers to the headers of each kind.
abbrev pub Pointers : ℕ → Packet → Type 0
Pointers end p =
    Fits p.ipv4_ptr 20 end
    × Fits p.ipv6_ptr 40 end
    × Fits p.tcp_ptr 20 end
    × Fits p.udp_ptr 8 end
    × Fits p.icmpv4_ptr 8 end
    × Fits p.icmpv6_ptr 8 end

-- Before the header at `start`.
pub record IsReady (end : ℕ) (p : Packet) (start : ℕ) : Type 0 where
  pub chain : Chain p.l2_header_bytes p.headers start
  pub place : p.l2_header_bytes + p.ip_bytes ≡ start
  pub fits : start ≤ end
  pub slack : end < length p.buffer
  pub few : length p.headers ≤ 6
  pub pointers : Pointers end p

-- After the parser: at most 6 headers, which stand without a gap from the outermost IP or MPLS
-- header on and end inside the packet, as every pointed-to header does.
pub record IsParsed (end : ℕ) (p : Packet) : Type 0 where
  pub stop : ℕ
  pub chain : Chain p.l2_header_bytes p.headers stop
  pub fits : stop ≤ end
  pub few : length p.headers ≤ 6
  pub pointers : Pointers end p

abbrev pub Good1 : ℕ → Outcome (ParseResult × Packet) → Type 0
Good1 end (ok (r, p)) = IsParsed end p
Good1 end status_err = ⊥
Good1 end fault = ⊥

-- The parser comes to an answer: its fuel lasts, no assert fails and nothing is read outside the
-- buffer; and the packet is laid out.
abbrev pub Good : ℕ → Parsed → Type 0
Good end none = ⊥
Good end (some m) = Good1 end m

pub IsReady-IsParsed : (end start : ℕ) (p : Packet) → IsReady end p start → IsParsed end p
IsReady-IsParsed end start p w = record {
  stop = start;
  chain = w.chain;
  fits = w.fits;
  few = w.few;
  pointers = w.pointers;
}

-- What an append does.
pub record Appended (end start n : ℕ) (p p' : Packet) : Type 0 where
  pub ready : start + n ≤ end → IsReady end p' (start + n)
  pub same_buffer : p'.buffer ≡ p.buffer
  pub one_more : length p'.headers ≡ suc (length p.headers)

pub packet_append_header-Appended :
    (end start : ℕ) (p : Packet) (type : HeaderType) (n total : ℕ)
    → IsReady end p start
    → (packet_append_header p type n total ≡ none)
      ⊎ ((p' : Packet) × (packet_append_header p type n total ≡ some p')
          × Appended end start n p p')
unfolding packet_append_header
packet_append_header-Appended end start p type n total w =
    elim (Bool-cases (length p.headers == 6)) [
      | inl full ↦ inl (rw full refl)
      | inr room ↦ elim (Bool-cases (ltb (length p.buffer) (p.ip_bytes + n))) [
        | inl long ↦ inl (rw (room, long) refl)
        | inr short ↦
            let h : Header = record {
              type = type;
              header_bytes = n;
              total_bytes = total;
              ptr = p.l2_header_bytes + p.ip_bytes;
            } in
            let p' = record p { headers = p.headers ++ (h ∷ []); ip_bytes = p.ip_bytes + n } in
            let more : length p'.headers ≡ suc (length p.headers) =
              omega (arith, length-append p.headers (h ∷ [])) in
            inr (
              p',
              rw (room, short) refl,
              record {
                ready = λ fits. record {
                  chain = Chain-snoc p.l2_header_bytes p.headers start h w.chain w.place;
                  place = omega (arith, w.place);
                  fits = fits;
                  slack = w.slack;
                  few = ground arith;
                  pointers = w.pointers;
                };
                same_buffer = refl;
                one_more = more;
              },
            )
      ]
    ]
