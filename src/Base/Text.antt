-- ===== src/Base/Text.antt =====
-- Text as bytes: literals, and std::to_string in decimal.
use Prim.Native.Char.{code}
use Prim.Native.String.{String}
use rabbitmq_cxx.Base.{ℕ, zero, suc, ◌+◌, ◌/◌, ◌%◌, Bytes, [], ◌∷◌, ◌==◌, if◌then◌else◌}
use rabbitmq_cxx.Base.Int.{ℤ, pos, negsuc}

-- The bytes of a literal of the source, which are all ASCII.
unfoldable pub text : String → Bytes
text String.[] = []
text (String.◌∷◌ c s) = code c ∷ text s

digits : ℕ → ℕ → Bytes → Bytes
digits zero n rest = rest
digits (suc f) n rest =
    let rest' = (b'0' + n % 10) ∷ rest in
    let more = digits f (n / 10) rest' in if n / 10 == 0 then rest' else more

-- std::to_string on an unsigned number, in decimal. There are at most `suc n` digits.
unfoldable pub to_string : ℕ → Bytes
unfolding digits
to_string n = digits (suc n) n []

-- std::to_string on a signed number.
unfoldable pub to_string_ℤ : ℤ → Bytes
unfolding to_string
to_string_ℤ (pos n) = to_string n
to_string_ℤ (negsuc n) = b'-' ∷ to_string (suc n)
