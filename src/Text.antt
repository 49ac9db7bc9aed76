-- ===== src/Text.antt =====
-- `std::string` as a list of bytes, and what the sources use of the standard library on it:
-- comparison, `to_upper` of command/command.cpp and `std::tolower`. The numbers are in the modules
-- below.
pub mod Equality
pub mod Decimal
pub mod Parse
use Prim.Native.Char.{code}
use true_store.Base.{
  ℕ, ◌+◌, ◌-◌, ◌≡◌, refl, ap, Bool, true, false, ◌&&◌, List, [], ◌∷◌, map, String, arith, leb, ltb,
  ◌==◌, if◌then◌else◌,
}

abbrev pub Bytes : Type 0
Bytes = List ℕ

-- The bytes of an ASCII literal.
abbrev pub codes : String → Bytes
codes String.[] = []
codes (String.◌∷◌ c s) = code c ∷ codes s

-- `==` of strings.
infix 50 ◌=ᵇ◌
unfoldable pub ◌=ᵇ◌ : Bytes → Bytes → Bool
[] =ᵇ [] = true
(a ∷ s) =ᵇ (b ∷ t) = a == b && s =ᵇ t
[] =ᵇ (b ∷ t) = false
(a ∷ s) =ᵇ [] = false

-- `<` of strings: by unsigned bytes, a proper prefix first.
unfoldable pub less : Bytes → Bytes → Bool
less [] [] = false
less [] (b ∷ t) = true
less (a ∷ s) [] = false
less (a ∷ s) (b ∷ t) =
    let rest = less s t in if ltb a b then true else if ltb b a then false else rest

is_lower : ℕ → Bool
is_lower c = leb b'a' c && leb c b'z'

is_upper : ℕ → Bool
is_upper c = leb b'A' c && leb c b'Z'

-- `std::toupper` in the C locale.
unfoldable pub toupper : ℕ → ℕ
unfolding is_lower
toupper c = if is_lower c then c - 32 else c

-- `std::tolower` in the C locale.
unfoldable pub tolower : ℕ → ℕ
unfolding is_upper
tolower c = if is_upper c then c + 32 else c

unfoldable pub to_upper : Bytes → Bytes
unfolding toupper
to_upper [] = []
to_upper (c ∷ s) = toupper c ∷ to_upper s

unfoldable pub to_lower : Bytes → Bytes
unfolding tolower
to_lower [] = []
to_lower (c ∷ s) = tolower c ∷ to_lower s

toupper_idem : (c : ℕ) → toupper (toupper c) ≡ toupper c
unfolding toupper
toupper_idem c = ground arith

pub to_upper_idem : (s : Bytes) → to_upper (to_upper s) ≡ to_upper s
unfolding to_upper
to_upper_idem [] = refl
to_upper_idem (c ∷ s) = cc (toupper_idem c, to_upper_idem s)

abbrev pub crlf : Bytes
crlf = 13 ∷ 10 ∷ []

shout : to_upper (codes "lpop-9") ≡ codes "LPOP-9"
unfolding to_upper
shout = refl
