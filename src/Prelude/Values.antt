-- ===== src/Prelude/Values.antt =====
-- Values as Python functions that check types at run time see them, and what such a check returns.
use Prim.Native.Nat.{ℕ}
use Prim.Native.String.{String}
use mathlib.Core.Bool.{Bool}

-- `negsuc n` is -(n + 1).
pub data ℤ : Type 0 where
  pos : ℕ → ℤ
  negsuc : ℕ → ℤ

-- `object` stands for a value of any other type.
pub data PyValue : Type 0 where
  null : PyValue
  boolean : Bool → PyValue
  integer : ℤ → PyValue
  string : String → PyValue
  object : PyValue

abbrev pub nat : ℕ → PyValue
nat n = integer (pos n)

-- A result, or the exception that was raised.
pub data Checked {ℓ} (A : Type ℓ) : Type ℓ where
  ok : A → Checked A
  type_error : Checked A
  value_error : Checked A

infixl 5 ◌>>=◌ ◌>>◌
abbrev pub ◌>>=◌ {ℓ κ} : {A : Type ℓ} {B : Type κ} → Checked A → (A → Checked B) → Checked B
ok a >>= f = f a
type_error >>= f = type_error
value_error >>= f = value_error

abbrev pub ◌>>◌ {ℓ κ} : {A : Type ℓ} {B : Type κ} → Checked A → Checked B → Checked B
m >> k = m >>= λ _. k

abbrev pub require : Bool → Checked (Unit {0})
require b = elim b [ Bool.true ↦ ok tt | Bool.false ↦ value_error ]
