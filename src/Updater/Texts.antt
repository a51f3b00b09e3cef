-- ===== src/Updater/Texts.antt =====
-- What the update subsystem does with texts: prefixes, code points, the SHA pattern.
use Prim.Native.Char.{code}
use pv_inverter_master.Base.{
  ℕ, zero, suc, String, Bool, true, false, ◌&&◌, ◌||◌, Option, none, some, List, [], ◌∷◌, leb, ◌==◌,
  if◌then◌else◌, str_eq,
}
use pv_inverter_master.Sunspec.{codes}

-- The rest of a text behind a prefix, if it starts with it.
unfoldable pub strip_prefix : String → String → Option String
strip_prefix String.[] s = some s
strip_prefix (String.◌∷◌ c p) String.[] = none
strip_prefix (String.◌∷◌ c p) (String.◌∷◌ d s) = if code c == code d then strip_prefix p s else none

abbrev pub is_empty : String → Bool
is_empty s = str_eq s ""

abbrev pub is_hex : ℕ → Bool
is_hex c = leb b'0' c && leb c b'9' || leb b'a' c && leb c b'f'

-- `n` characters of `[0-9a-f]`, and then `$`: the end, or a newline before it.
unfoldable pub hex_then_end : ℕ → List ℕ → Bool
hex_then_end zero [] = true
hex_then_end zero (c ∷ []) = c == 10
hex_then_end zero (c ∷ d ∷ cs) = false
hex_then_end (suc n) [] = false
hex_then_end (suc n) (c ∷ cs) = is_hex c && hex_then_end n cs

-- `SHA_RE.match`
unfoldable pub matches_sha : String → Bool
unfolding hex_then_end
matches_sha s = hex_then_end 40 (codes s)
