-- ===== src/Socket/Store.antt =====
-- gtests/net/packetdrill/socket.c: the list of sockets behind state->sockets, read and written
-- through pointers.
use packetdrill_mptcp.Base.{
  ℕ, suc, ◌≡◌, refl, sym, ap, ◌∙◌, inl, inr, true, false, List, [], ◌∷◌, All, length, ◌==◌, ok,
  fault, Bool-cases, arith,
}
use mathlib.Core.Path.{subst}
use packetdrill_mptcp.Socket.{Socket, socket_at, store_socket}

pub ok_inj {ℓ} : {A : Type ℓ} (a b : A) → ok a ≡ ok b → a ≡ b
ok_inj a b e = cc

pub fault≢ok {ℓ} : {A : Type ℓ} (a : A) → fault ≡ ok a → ⊥
fault≢ok a e = cc

store_here :
    (socket : Socket) (rest : List Socket) (p : ℕ) (changed : Socket)
    → (length rest == p) ≡ true
    → store_socket (socket ∷ rest) p changed ≡ (changed ∷ rest)
unfolding store_socket
store_here socket rest p changed e = rw (store_socket, e) refl

store_behind :
    (socket : Socket) (rest : List Socket) (p : ℕ) (changed : Socket)
    → (length rest == p) ≡ false
    → store_socket (socket ∷ rest) p changed ≡ (socket ∷ store_socket rest p changed)
unfolding store_socket
store_behind socket rest p changed e = rw (store_socket, e) refl

at_here :
    (socket : Socket) (rest : List Socket) (p : ℕ)
    → (length rest == p) ≡ true
    → socket_at (socket ∷ rest) p ≡ ok socket
unfolding socket_at
at_here socket rest p e = rw (socket_at, e) refl

at_behind :
    (socket : Socket) (rest : List Socket) (p : ℕ)
    → (length rest == p) ≡ false
    → socket_at (socket ∷ rest) p ≡ socket_at rest p
unfolding socket_at
at_behind socket rest p e = rw (socket_at, e) refl

nowhere : (p : ℕ) (found : Socket) → socket_at [] p ≡ ok found → ⊥
unfolding socket_at
nowhere p found h = fault≢ok found h

-- The pointer to the newest socket.
pub socket_at-newest :
    (socket : Socket) (rest : List Socket) → socket_at (socket ∷ rest) (length rest) ≡ ok socket
socket_at-newest socket rest = at_here socket rest (length rest) (ground arith)

pub store_socket-newest :
    (socket changed : Socket) (rest : List Socket)
    → store_socket (socket ∷ rest) (length rest) changed ≡ (changed ∷ rest)
store_socket-newest socket changed rest =
    store_here socket rest (length rest) changed (ground arith)

pub length-store_socket :
    (sockets : List Socket) (p : ℕ) (changed : Socket)
    → length (store_socket sockets p changed) ≡ length sockets
unfolding store_socket
length-store_socket [] p changed = refl
length-store_socket (socket ∷ rest) p changed = elim (Bool-cases (length rest == p)) [
  | inl e ↦ ap length (store_here socket rest p changed e)
  | inr e ↦
      ap length (store_behind socket rest p changed e) ∙ ap suc (length-store_socket rest p changed)
]

-- A socket that is stored where there was one is found there.
pub socket_at-store_socket :
    (sockets : List Socket) (p : ℕ) (old changed : Socket)
    → socket_at sockets p ≡ ok old
    → socket_at (store_socket sockets p changed) p ≡ ok changed
socket_at-store_socket [] p old changed h = absurd (nowhere p old h)
socket_at-store_socket (socket ∷ rest) p old changed h = elim (Bool-cases (length rest == p)) [
  | inl e ↦ ap (λ l. socket_at l p) (store_here socket rest p changed e) ∙ at_here changed rest p e
  | inr e ↦
      ap (λ l. socket_at l p) (store_behind socket rest p changed e)
      ∙ at_behind socket (store_socket rest p changed) p (rw (length-store_socket rest p changed) e)
      ∙ socket_at-store_socket rest p old changed (sym (at_behind socket rest p e) ∙ h)
]

-- What holds for all sockets and for what is stored holds for all sockets afterwards.
pub All-store_socket {ℓ} :
    (P : Socket → Type ℓ) (sockets : List Socket) (p : ℕ) (changed : Socket)
    → All P sockets
    → P changed
    → All P (store_socket sockets p changed)
unfolding store_socket
All-store_socket P [] p changed h k = tt
All-store_socket P (socket ∷ rest) p changed h k = elim (Bool-cases (length rest == p)) [
  | inl e ↦ subst (All P) (sym (store_here socket rest p changed e)) (k, h.1)
  | inr e ↦
      subst (All P) (sym (store_behind socket rest p changed e))
        (h.0, All-store_socket P rest p changed (h.1) k)
]

pub All-socket_at {ℓ} :
    (P : Socket → Type ℓ) (sockets : List Socket) (p : ℕ) (found : Socket)
    → All P sockets
    → socket_at sockets p ≡ ok found
    → P found
unfolding socket_at
All-socket_at P [] p found h e = absurd (fault≢ok found e)
All-socket_at P (socket ∷ rest) p found h e = elim (Bool-cases (length rest == p)) [
  | inl b ↦ subst P (ok_inj socket found (sym (at_here socket rest p b) ∙ e)) (h.0)
  | inr b ↦ All-socket_at P rest p found (h.1) (sym (at_behind socket rest p b) ∙ e)
]
