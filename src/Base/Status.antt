-- ===== src/Base/Status.antt =====
-- What a C routine of the program hands back: `ok` with what it produced, `status_err` for
-- STATUS_ERR, and `fault` where C has no defined answer or aborts (an array index out of range,
-- a null or wild pointer, a failed assert).
use packetdrill_mptcp.Base.Tests.{if◌then◌else◌}
use mathlib.Core.Bool.{Bool, true, false}
use mathlib.Core.Path.{◌≡◌, refl, subst}

module _ {ℓ} (A : Type ℓ) where
  pub data Outcome : Type ℓ where
    fault status_err : Outcome
    ok : A → Outcome

-- The rest of a routine runs only after a call that succeeds.
module _ {ℓ κ} {A : Type ℓ} {B : Type κ} where
  infixl 5 ◌>>=◌
  abbrev pub ◌>>=◌ : Outcome A → (A → Outcome B) → Outcome B
  fault >>= rest = fault
  status_err >>= rest = status_err
  ok result >>= rest = rest result

module _ {ℓ κ} {A : Type ℓ} where
  -- What is true of the result, if there is one.
  abbrev pub Holds : (A → Type κ) → Outcome A → Type κ
  Holds P fault = Unit
  Holds P status_err = Unit
  Holds P (ok result) = P result

  pub Holds-ok :
      (P : A → Type κ) (m : Outcome A) (result : A) → Holds P m → m ≡ ok result → P result
  Holds-ok P m result h e = subst (Holds P) e h

  -- It is enough to look at a result.
  pub Holds-all :
      (P : A → Type κ) (m : Outcome A) → ((result : A) → m ≡ ok result → P result) → Holds P m
  Holds-all P fault h = tt
  Holds-all P status_err h = tt
  Holds-all P (ok result) h = h result refl

  pub Holds-if :
      (P : A → Type κ) (b : Bool) (m n : Outcome A)
      → Holds P m
      → Holds P n
      → Holds P (if b then m else n)
  Holds-if P true m n h k = h
  Holds-if P false m n h k = k

module _ {ℓ κ ι} {A : Type ℓ} {B : Type κ} where
  pub Holds-bind :
      (P : A → Type ι) (Q : B → Type ι) (m : Outcome A) (rest : A → Outcome B)
      → Holds P m
      → ((result : A) → P result → Holds Q (rest result))
      → Holds Q (m >>= rest)
  Holds-bind P Q fault rest h k = tt
  Holds-bind P Q status_err rest h k = tt
  Holds-bind P Q (ok result) rest h k = k result h

  pub Holds-after :
      (Q : B → Type ι) (m : Outcome A) (rest : A → Outcome B)
      → ((result : A) → m ≡ ok result → Holds Q (rest result))
      → Holds Q (m >>= rest)
  Holds-after Q fault rest k = tt
  Holds-after Q status_err rest k = tt
  Holds-after Q (ok result) rest k = k result refl
