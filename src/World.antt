-- ===== src/World.antt =====
-- What the C code works in: the answers of the allocator, `errno`, the error stack that
-- a/error.c keeps in `global_error_stack`, and a log of the calls that give something back.
pub mod Log
use alib4c.Common.{◌≡◌, ℕ, ℤ, Bool, true, false, List, [], ◌∷◌, if◌then◌else◌}

abbrev pub Ptr : Type 0
Ptr = ℕ

abbrev pub null : Ptr
null = 0

-- The modules of a/error.c that carry a plain code.
pub data ErrorMod : Type 0 where
  alib no_error perror stack_alloc : ErrorMod

-- `a_error_stack_t`: NULL, the static `stack_alloc_error`, a node, or a node that was freed.
pub data ErrorStack : Type 0 where
  empty : ErrorStack
  static_alloc_error : ErrorStack
  entry : ErrorMod → ℤ → ErrorStack → ErrorStack
  dangling : ErrorStack

-- A call of a `key_free`, of a `val_free`, or of `free` on a block of the component.
pub data Event : Type 0 where
  key_freed : Ptr → Event
  val_freed : Ptr → Event
  block_freed : Event

-- `mallocs` holds the answers of the coming calls of malloc; with none left it fails.
pub record World : Type 0 where
  pub mallocs : List Bool
  pub errno : ℤ
  pub errors : ErrorStack
  pub log : List Event

-- `fault` is undefined behaviour: a read through NULL or a freed block, or a second free; `died` is
-- the end of the process by `a_die`.
pub data Run {ℓ} (A : Type ℓ) : Type ℓ where
  ok : A → World → Run A
  fault : Run A
  died : Run A

abbrev pub M {ℓ} : Type ℓ → Type ℓ
M A = World → Run A

module _ {ℓ κ} {A : Type ℓ} {B : Type κ} where
  abbrev pub and_then : Run A → (A → M B) → Run B
  and_then (ok a w) k = k a w
  and_then fault k = fault
  and_then died k = died

  infixl 5 ◌>>=◌
  abbrev pub ◌>>=◌ : M A → (A → M B) → M B
  m >>= k = λ w. and_then (m w) k

infixl 5 ◌>>◌
abbrev pub ◌>>◌ {ℓ κ} : {A : Type ℓ} {B : Type κ} → M A → M B → M B
m >> n = m >>= λ _. n

abbrev pub pure {ℓ} : {A : Type ℓ} → A → M A
pure a = ok a

-- The next answer of malloc.
abbrev pub head_or_false : List Bool → Bool
head_or_false [] = false
head_or_false (b ∷ bs) = b

abbrev pub rest : List Bool → List Bool
rest [] = []
rest (b ∷ bs) = bs

abbrev pub malloc : World → Bool × World
malloc w = (head_or_false w.mallocs, record w { mallocs = rest w.mallocs })

abbrev pub emit : Event → World → World
emit e w = record w { log = e ∷ w.log }

-- `if(f) f(p);` for a callback that may be NULL
abbrev pub emit_if : Bool → Event → World → World
emit_if b e w = if b then emit e w else w

-- the run ends normally, with a value and a world that satisfy `P`
abbrev pub Returns {ℓ κ} : {A : Type ℓ} → Run A → (A → World → Type κ) → Type (ℓ ⊔ κ)
Returns {A} r P = (a : A) × (w : World) × (r ≡ ok a w) × P a w
