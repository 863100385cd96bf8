-- ===== src/Store/Ids.antt =====
-- backend/src/core/ids.py: prefixed ULIDs.
use re_git.Base.{
  ℕ, zero, suc, ◌+◌, ◌/◌, ◌%◌, ◌≡◌, Text, codes, [], ◌∷◌, ◌++◌, arith, length, length-append,
  get_or,
}

abbrev crockford : Text
crockford = codes "0123456789ABCDEFGHJKMNPQRSTVWXYZ"

-- `rounds` rounds of: chars = _CROCKFORD[v & 31] + chars; v >>= 5
base32 : ℕ → ℕ → Text → Text
base32 zero v chars = chars
base32 (suc rounds) v chars = base32 rounds (v / 32) (get_or crockford (v % 32) 0 ∷ chars)

-- `ts` is the clock in milliseconds and `rand` the 80 random bits.
unfoldable pub new_id : Text → ℕ → ℕ → Text
unfolding base32
new_id prefix ts rand = prefix ++ (base32 10 ts [] ++ base32 16 rand [])

length-base32 :
    (rounds v : ℕ) (chars : Text) → length (base32 rounds v chars) ≡ rounds + length chars
unfolding base32
length-base32 zero v chars = omega arith
length-base32 (suc rounds) v chars =
    omega (arith, length-base32 rounds (v / 32) (get_or crockford (v % 32) 0 ∷ chars))

pub length-new_id :
    (prefix : Text) (ts rand : ℕ) → length (new_id prefix ts rand) ≡ length prefix + 26
unfolding new_id
length-new_id prefix ts rand = omega (
  arith,
  length-append prefix (base32 10 ts [] ++ base32 16 rand []),
  length-append (base32 10 ts []) (base32 16 rand []),
  length-base32 10 ts [],
  length-base32 16 rand [],
)
