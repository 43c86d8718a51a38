-- ===== src/Base/Text.antt =====
-- What the code does with texts: prefixes, suffixes, substrings, splits and slices.
use Prim.Native.Nat.{ℕ, zero, suc, ◌+◌, ◌/◌, ◌%◌}
use Prim.Native.Char.{code}
use Prim.Native.String.{String, ◌++◌ as ◌<>◌, slice}
use mathlib.Core.Path.{◌≡◌, refl}
use mathlib.Core.Bool.{Bool, true, false, ◌&&◌, ◌||◌}
use mathlib.Core.Option.{Option, none, some}
use mathlib.Core.List.{List, [], ◌∷◌}
use native.Mathlib.Omega.{arith}
use text.Mathlib.TextEquality.{Char-path}
use text.Mathlib.TextLemmas.{cons-append, nil-append}
use neutron_local_services_p.Base.Equality.{◌==◌, nat_eq, if◌then◌else◌}

-- `t.startswith(s)`
unfoldable pub prefix_of : String → String → Bool
prefix_of String.[] t = true
prefix_of (String.◌∷◌ c s) String.[] = false
prefix_of (String.◌∷◌ c s) (String.◌∷◌ d t) = code c == code d && prefix_of s t

-- `s in t`
unfoldable pub substring_of : String → String → Bool
unfolding prefix_of
substring_of s String.[] = prefix_of s String.[]
substring_of s (String.◌∷◌ d t) = prefix_of s (String.◌∷◌ d t) || substring_of s t

-- `t[len(s):]`, where `s` is a prefix of `t`.
unfoldable pub drop_prefix : String → String → String
drop_prefix String.[] t = t
drop_prefix (String.◌∷◌ c s) String.[] = String.[]
drop_prefix (String.◌∷◌ c s) (String.◌∷◌ d t) = drop_prefix s t

-- `t.split(s, 1)[1]`, or `none` where `s` does not occur and the index is out of range.
unfoldable pub split_after : String → String → Option String
unfolding prefix_of drop_prefix
split_after s String.[] = if prefix_of s String.[] then some (drop_prefix s String.[]) else none
split_after s (String.◌∷◌ d t) =
    let rest = split_after s t in
    if prefix_of s (String.◌∷◌ d t) then some (drop_prefix s (String.◌∷◌ d t)) else rest

-- `t[:n]`
unfoldable pub take_chars : ℕ → String → String
take_chars zero t = String.[]
take_chars (suc n) String.[] = String.[]
take_chars (suc n) (String.◌∷◌ c t) = String.◌∷◌ c (take_chars n t)

pub prefix_of-append : (s t : String) → prefix_of s (s <> t) ≡ true
unfolding prefix_of
prefix_of-append String.[] t = refl
prefix_of-append (String.◌∷◌ c s) t = rw cons-append (ground (arith, prefix_of-append s t))

substring_of_prefix : (s t : String) → prefix_of s t ≡ true → substring_of s t ≡ true
unfolding substring_of
substring_of_prefix s String.[] h = h
substring_of_prefix s (String.◌∷◌ d t) h = ground arith

pub substring_of-append : (s t u : String) → substring_of s (t <> (s <> u)) ≡ true
unfolding substring_of
substring_of-append s String.[] u =
    rw nil-append (substring_of_prefix s (s <> u) (prefix_of-append s u))
substring_of-append s (String.◌∷◌ d t) u =
    rw cons-append (ground (arith, substring_of-append s t u))

pub drop_prefix-append : (s t : String) → drop_prefix s (s <> t) ≡ t
unfolding drop_prefix
drop_prefix-append String.[] t = nil-append t
drop_prefix-append (String.◌∷◌ c s) t = rw cons-append (drop_prefix-append s t)

pub prefix_of-split : (s t : String) → prefix_of s t ≡ true → s <> drop_prefix s t ≡ t
unfolding prefix_of drop_prefix
prefix_of-split String.[] t h = nil-append t
prefix_of-split (String.◌∷◌ c s) String.[] h = cc
prefix_of-split (String.◌∷◌ c s) (String.◌∷◌ d t) h =
    rw cons-append (ground (arith, prefix_of-split s t, Char-path c d))

-- The decimal digits of a number, with at least as much fuel as it has digits.
unfoldable pub digits : ℕ → ℕ → String
digits zero n = ""
digits (suc fuel) n =
    let higher = digits fuel (n / 10) in
    let last = slice "0123456789" (n % 10) (n % 10 + 1) in
    if n / 10 == 0 then last else higher <> last

-- `str(n)` and `'%d' % n`: a number has no more digits than its successor says.
unfoldable pub decimal : ℕ → String
unfolding digits
decimal n = digits (suc n) n

-- `s.join(texts)`
unfoldable pub join : String → List String → String
join s [] = ""
join s (t ∷ []) = t
join s (t ∷ u ∷ texts) = t <> (s <> join s (u ∷ texts))
