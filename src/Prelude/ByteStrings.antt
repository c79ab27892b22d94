-- ===== src/Prelude/ByteStrings.antt =====
-- Bytes and C strings. A byte string is a list of numbers; a C string ends before its first NUL.
use Prim.Native.Nat.{ℕ, ◌+◌, ◌<◌}
use Prim.Native.Char.{code}
use Prim.Native.String.{String}
use mathlib.Core.Path.{◌≡◌, refl}
use mathlib.Core.Logic.{◌↔◌}
use mathlib.Core.Bool.{Bool, true, false, ◌&&◌, ◌||◌}
use mathlib.Core.List.{List, [], ◌∷◌, ◌++◌}
use native.Mathlib.Omega.{arith}
use zeromq_rpc_test.Prelude.Tests.{◌==◌, if◌then◌else◌}
use zeromq_rpc_test.Prelude.Lists.{length, drop, length-append, length-drop}

abbrev pub Bytes : Type 0
Bytes = List ℕ

-- The bytes of an ASCII literal, without the NUL that C puts behind it.
abbrev pub codes : String → Bytes
codes String.[] = []
codes (String.◌∷◌ c s) = code c ∷ codes s

-- `strcmp (a, b) == 0`, on strings without NUL.
abbrev pub bytes_eq : Bytes → Bytes → Bool
bytes_eq [] [] = true
bytes_eq [] (y ∷ ys) = false
bytes_eq (x ∷ xs) [] = false
bytes_eq (x ∷ xs) (y ∷ ys) = x == y && bytes_eq xs ys

pub bytes_eq_iff : (a b : Bytes) → (bytes_eq a b ≡ true) ↔ (a ≡ b)
bytes_eq_iff [] [] = (λ _. refl, λ _. refl)
bytes_eq_iff [] (y ∷ ys) = (λ h. cc, λ h. cc)
bytes_eq_iff (x ∷ xs) [] = (λ h. cc, λ h. cc)
bytes_eq_iff (x ∷ xs) (y ∷ ys) = ground (arith, bytes_eq_iff xs ys)

-- Whether a NUL stands among the bytes.
abbrev pub has_nul : Bytes → Bool
has_nul [] = false
has_nul (c ∷ s) = c == 0 || has_nul s

-- What C reads from a buffer as a string: the bytes before the first NUL.
abbrev pub cstr : Bytes → Bytes
cstr [] = []
cstr (c ∷ s) = if c == 0 then [] else c ∷ cstr s

pub cstr-append_nul : (s rest : Bytes) → has_nul s ≡ false → cstr (s ++ 0 ∷ rest) ≡ s
cstr-append_nul [] rest h = refl
cstr-append_nul (c ∷ s) rest h = ground (arith, cstr-append_nul s rest)

-- A string copied to the front of a buffer, with its NUL; the bytes behind it stay.
abbrev pub store_cstr : Bytes → Bytes → Bytes
store_cstr s buf = s ++ 0 ∷ drop (length s + 1) buf

pub length-store_cstr :
    (s buf : Bytes) → length s < length buf → length (store_cstr s buf) ≡ length buf
length-store_cstr s buf h =
    omega (arith, length-append s (0 ∷ drop (length s + 1) buf), length-drop (length s + 1) buf)
