-- ===== src/Base/Text.antt =====
-- Python's `str` where the program looks at its characters.
use Prim.Native.Nat.{ℕ, suc, ◌+◌}
use Prim.Native.Char.{code}
use Prim.Native.String.{String}
use mathlib.Core.Path.{◌≡◌, refl}
use mathlib.Core.Bool.{Bool, true, false, ◌&&◌, ◌||◌}
use native.Mathlib.Omega.{arith}
use rcp_api.Base.Tests.{◌==◌, leb, if◌then◌else◌}

-- `c.isspace()`
pub is_space : ℕ → Bool
is_space c =
    (leb 9 c && leb c 13)
    || ((leb 28 c && leb c 32)
        || ((c == 133)
            || ((c == 160)
                || ((c == 5760)
                    || ((leb 8192 c && leb c 8202)
                        || ((c == 8232)
                            || ((c == 8233) || ((c == 8239) || ((c == 8287) || (c == 12288))))))))))

-- `len(s)`
unfoldable pub char_count : String → ℕ
char_count String.[] = 0
char_count (String.◌∷◌ c s) = suc (char_count s)

abbrev pub is_empty : String → Bool
is_empty String.[] = true
is_empty (String.◌∷◌ c s) = false

abbrev lower_code : ℕ → ℕ
lower_code c = if leb b'A' c && leb c b'Z' then c + 32 else c

-- `s.lower() == word`, for a word of the letters a, e, f, l, r, s, t and u, to which only `A`–`Z`
-- lower besides themselves, or for a text of ASCII characters.
abbrev pub lowers_to : String → String → Bool
lowers_to String.[] word = is_empty word
lowers_to (String.◌∷◌ c s) String.[] = false
lowers_to (String.◌∷◌ c s) (String.◌∷◌ d word) =
    let rest = lowers_to s word in (lower_code (code c) == code d) && rest

pub lstrip : String → String
unfolding is_space
lstrip String.[] = String.[]
lstrip (String.◌∷◌ c s) = if is_space (code c) then lstrip s else String.◌∷◌ c s

pub rstrip : String → String
unfolding is_space
rstrip String.[] = String.[]
rstrip (String.◌∷◌ c s) =
    let rest = rstrip s in
    if is_space (code c) && is_empty rest then String.[] else String.◌∷◌ c rest

-- `s.strip()`
unfoldable pub strip : String → String
unfolding lstrip rstrip
strip s = rstrip (lstrip s)

rstrip_idem : (s : String) → rstrip (rstrip s) ≡ rstrip s
unfolding rstrip
rstrip_idem String.[] = refl
rstrip_idem (String.◌∷◌ c s) = ground (arith, rstrip_idem s)

starts_solid : String → Bool
unfolding is_space
starts_solid String.[] = true
starts_solid (String.◌∷◌ c s) = if is_space (code c) then false else true

lstrip-of_solid : (s : String) → starts_solid s ≡ true → lstrip s ≡ s
unfolding starts_solid lstrip
lstrip-of_solid String.[] h = refl
lstrip-of_solid (String.◌∷◌ c s) h = ground arith

lstrip_solid : (s : String) → starts_solid (lstrip s) ≡ true
unfolding starts_solid lstrip
lstrip_solid String.[] = refl
lstrip_solid (String.◌∷◌ c s) = ground (arith, lstrip_solid s)

rstrip_solid : (s : String) → starts_solid s ≡ true → starts_solid (rstrip s) ≡ true
unfolding starts_solid rstrip
rstrip_solid String.[] h = refl
rstrip_solid (String.◌∷◌ c s) h = ground arith

-- Stripping twice is stripping once.
pub strip_idem : (s : String) → strip (strip s) ≡ strip s
unfolding strip
strip_idem s =
    rw (lstrip-of_solid (rstrip (lstrip s)) (rstrip_solid (lstrip s) (lstrip_solid s)))
      (rstrip_idem (lstrip s))
