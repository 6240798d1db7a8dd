-- ===== src/PacketChecksum/Fill.antt =====
-- gtests/net/packetdrill/packet_checksum.c: filling in a checksum changes its two bytes only, and the
-- result verifies.
use packetdrill_mptcp.Base.{
  ℕ, zero, suc, ◌+◌, ◌*◌, ◌≤◌, ◌≡◌, refl, sym, ap, ◌∙◌, List, [], ◌∷◌, ◌++◌, length, take, drop,
  Option, some, ok, arith, length-append, ltb-false,
}
use packetdrill_mptcp.Memory.{slice}
use packetdrill_mptcp.Checksum.{ipv4_checksum}
use packetdrill_mptcp.Checksum.Verify.{field, ipv4_checksum-verifies, ipv4_checksum-total}
use packetdrill_mptcp.Checksum.Sum.{IsBytes}
use packetdrill_mptcp.PacketChecksum.{store_check, fill_check}

pub take-append : (xs ys : List ℕ) (n : ℕ) → n ≡ length xs → take n (xs ++ ys) ≡ xs
take-append [] ys n e = rw (let z : n ≡ 0 = omega arith in z) refl
take-append (x ∷ xs) ys zero e = absurd (omega arith)
take-append (x ∷ xs) ys (suc n) e = ap (λ l. x ∷ l) (take-append xs ys n (omega arith))

pub drop-append : (xs ys : List ℕ) (n : ℕ) → n ≡ length xs → drop n (xs ++ ys) ≡ ys
drop-append [] ys n e = rw (let z : n ≡ 0 = omega arith in z) refl
drop-append (x ∷ xs) ys zero e = absurd (omega arith)
drop-append (x ∷ xs) ys (suc n) e = drop-append xs ys n (omega arith)

pub append_assoc : (xs ys zs : List ℕ) → ((xs ++ ys) ++ zs) ≡ (xs ++ (ys ++ zs))
append_assoc [] ys zs = refl
append_assoc (x ∷ xs) ys zs = ap (λ l. x ∷ l) (append_assoc xs ys zs)

-- A buffer with the checksum field between `head` and `tail`.
abbrev pub around : List ℕ → List ℕ → List ℕ → List ℕ → ℕ → List ℕ
around before head tail after check = before ++ ((head ++ (field check ++ tail)) ++ after)

-- Seen from the field.
around-field :
    (before head tail after : List ℕ) (check : ℕ)
    → around before head tail after check ≡ ((before ++ head) ++ (field check ++ (tail ++ after)))
around-field before head tail after check =
    ap (λ l. before ++ l) (append_assoc head (field check ++ tail) after)
    ∙ sym (append_assoc before head (field check ++ (tail ++ after)))

store_check-around :
    (before head tail after : List ℕ) (old check p : ℕ)
    → p ≡ length before + length head
    → store_check (around before head tail after old) p check
      ≡ ok (around before head tail after check)
unfolding store_check
store_check-around before head tail after old check p e =
    let rest : List ℕ = field old ++ (tail ++ after) in
    let place : p ≡ length (before ++ head) = omega (arith, length-append before head) in
    let inside : length (around before head tail after old)
        ≡ length (before ++ head) + length rest =
      ap length (around-field before head tail after old) ∙ length-append (before ++ head) rest in
    rw
      (
        ltb-false (length (around before head tail after old)) (p + 2) (omega arith),
        around-field before head tail after old,
        take-append (before ++ head) rest p place,
        around-field before head tail after check,
      )
      (ap (λ l. ok ((before ++ head) ++ (field check ++ l)))
        (ap (drop (p + 2)) (sym (append_assoc (before ++ head) (field old) (tail ++ after)))
          ∙ drop-append ((before ++ head) ++ field old) (tail ++ after) (p + 2)
              (omega (arith, length-append (before ++ head) (field old), place))))

slice-around :
    (before head tail after : List ℕ) (check len : ℕ)
    → len ≡ length head + 2 + length tail
    → slice (around before head tail after check) (length before) len
      ≡ ok (head ++ (field check ++ tail))
unfolding slice
slice-around before head tail after check len e =
    let segment : List ℕ = head ++ (field check ++ tail) in
    let whole : length (around before head tail after check)
        ≡ length before + (length segment + length after) =
      length-append before (segment ++ after)
      ∙ ap (λ n. length before + n) (length-append segment after) in
    let size : length segment ≡ length head + (2 + length tail) =
      omega (arith, length-append head (field check ++ tail)) in
    rw
      (
        ltb-false (length (around before head tail after check)) (length before + len)
            (omega arith),
        drop-append before (segment ++ after) (length before) refl,
        take-append segment after len (omega arith),
      )
      refl

-- fill_check on a buffer that has the header somewhere inside.
pub fill_check-around :
    (checksum : List ℕ → Option ℕ) (before head tail after : List ℕ) (old check len : ℕ)
    → len ≡ length head + 2 + length tail
    → checksum (head ++ (field 0 ++ tail)) ≡ some check
    → fill_check checksum (around before head tail after old) (length before) (length head) len
      ≡ ok (around before head tail after check)
unfolding fill_check
fill_check-around checksum before head tail after old check len size e =
    rw
      (
        store_check-around before head tail after old 0 (length before + length head) refl,
        slice-around before head tail after 0 len size,
        e,
      )
      (store_check-around before head tail after 0 check (length before + length head) refl)

-- Anywhere in a buffer, for an IPv4 or ICMP header of at most 65536 bytes whose checksum field stands
-- at an even place: filling in its checksum succeeds, changes nothing but the two bytes of the
-- field, whatever they held, and the ipv4_checksum of the header is 0 afterwards.
pub fill_check-ipv4_checksum :
    (before head tail after : List ℕ) (old len k : ℕ)
    → len ≡ length head + 2 + length tail
    → len ≤ 65536
    → length head ≡ 2 * k
    → IsBytes head
    → IsBytes tail
    → (check : ℕ) × (fill_check ipv4_checksum
          (around before head tail after old)
          (length before)
          (length head)
          len
        ≡ ok (around before head tail after check))
      × (slice (around before head tail after check) (length before) len
          ≡ ok (head ++ (field check ++ tail)))
      × (ipv4_checksum (head ++ (field check ++ tail)) ≡ some 0)
fill_check-ipv4_checksum before head tail after old len k size fits even hb tb =
    let (check, e) = ipv4_checksum-total k head tail (omega arith) even hb tb in
    (
      check,
      fill_check-around ipv4_checksum before head tail after old check len size e,
      slice-around before head tail after check len size,
      ipv4_checksum-verifies k check head tail (omega arith) even hb tb e,
    )
